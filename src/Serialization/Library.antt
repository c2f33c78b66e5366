-- ===== src/Serialization/Library.antt =====
-- nlohmann::json as the code uses it: an unknown type of values, with the calls that may throw.
use titan_x.Prelude.{Bool, List}
use titan_x.Prelude.Int.{ℤ}
use titan_x.Prelude.Text.{Text}
use titan_x.Prelude.Results.{Result}
use titan_x.Prelude.Floats.{Floats}

pub record JsonLibrary (F : Floats) : Type 1 where
  pub Json : Type 0
  pub null : Json
  pub of_text : Text → Json
  pub of_int : ℤ → Json
  pub of_bool : Bool → Json
  pub array : List Json → Json
  -- An object, by the assignments `j[key] = value` in their order.
  pub object : List (Text × Json) → Json
  pub dump : Json → Result Text
  pub parse : Text → Result Json
  -- `value(key, default)`
  pub value_text : Json → Text → Text → Result Text
  pub value_int : Json → Text → ℤ → Result ℤ
  pub has_member : Json → Text → Bool
  -- `operator[]` at a key that is there
  pub member : Json → Text → Json
  pub is_null : Json → Bool
  pub is_string : Json → Bool
  pub get_text : Json → Result Text
  pub get_double : Json → Result F.Double
