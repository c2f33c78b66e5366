-- ===== src/Serialization/Samples.antt =====
-- A library of numbers and one of JSON values for the examples: a double is an integer, a JSON
-- value the list of its members, and the parser knows a single document.
use titan_x.Prelude.{Bool, true, false, List, [], ◌∷◌, ◌++◌, none, some, if◌then◌else◌}
use titan_x.Prelude.Int.{ℤ, ltb_ℤ, ◌+ℤ◌, ◌*ℤ◌, ◌/ℤ◌}
use titan_x.Prelude.Text.{Text, codes, text_eq}
use titan_x.Prelude.Map.{Map, lookup}
use titan_x.Prelude.Decimal
use titan_x.Prelude.Results.{Result, ok, err}
use titan_x.Prelude.Floats.{Floats}
use titan_x.Serialization.Library.{JsonLibrary}

abbrev number : Text → Result ℤ
number t = elim (Decimal.stoll t) [ none ↦ err (codes "stod") | some n ↦ ok n ]

abbrev pub integers : Floats
integers = record {
  Double = ℤ;
  of_int = λ n. n;
  to_int = λ n. n;
  add = ◌+ℤ◌;
  mul = ◌*ℤ◌;
  div = ◌/ℤ◌;
  lt = ltb_ℤ;
  stod = number;
  print_fixed = λ n d. Decimal.to_string d;
}

abbrev Members : Type 0
Members = Map Text

-- A value that is no object has one member without a name.
abbrev value : Text → Members
value t = ([], t) ∷ []

abbrev show : Members → Text
show [] = []
show (m ∷ ms) = m.0 ++ codes "=" ++ m.1 ++ codes ";" ++ show ms

abbrev members : List (Text × Members) → Members
members [] = []
members (f ∷ fs) = (f.0, show f.1) ∷ members fs

abbrev elements : List Members → Text
elements [] = []
elements (j ∷ js) = show j ++ elements js

abbrev text_or : Text → Members → Text → Text
text_or d j name = elim (lookup name j) [ none ↦ d | some t ↦ t ]

abbrev number_or : ℤ → Members → Text → Result ℤ
number_or d j name = elim (lookup name j) [ none ↦ ok d | some t ↦ number t ]

abbrev has : Members → Text → Bool
has j name = elim (lookup name j) [ none ↦ false | some t ↦ true ]

-- The library whose parser knows the document with these members.
abbrev pub one_document : Text → Members → JsonLibrary integers
one_document document content = record {
  Json = Members;
  null = [];
  of_text = value;
  of_int = λ n. value (Decimal.to_string n);
  of_bool = λ b. value (if b then codes "true" else codes "false");
  array = λ js. value (elements js);
  object = members;
  dump = λ j. ok (show j);
  parse = λ t. if text_eq t document then ok content else err (codes "parse error");
  value_text = λ j name d. ok (text_or d j name);
  value_int = λ j name d. number_or d j name;
  has_member = has;
  member = λ j name. value (text_or [] j name);
  is_null = λ j. false;
  is_string = λ j. true;
  get_text = λ j. ok (text_or [] j []);
  get_double = λ j. number (text_or [] j []);
}
