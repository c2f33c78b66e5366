-- ===== src/Persistence/RedisPositionCache/Examples.antt =====
-- A server that counts, and the properties at it.
use titan_x.Prelude.{
  ◌≡◌, ◌≢◌, refl, inl, true, List, [], ◌∷◌, Option, none, some, if◌then◌else◌, arith, All,
}
use titan_x.Prelude.Int.{ℤ, pos, negsuc}
use titan_x.Prelude.Text.{Text, codes, text_eq, text_eq_iff, text_eq_refl}
use titan_x.Prelude.Decimal
use titan_x.Prelude.Decimal.{stoll, stoll-to_string}
use titan_x.Prelude.Results.{ok}
use titan_x.Persistence.RedisPositionCache.{
  Redis, RedisReply, string, other, RedisPositionCache, get_position,
}
use titan_x.Persistence.RedisPositionCache.Keys.{IsName}
use titan_x.Persistence.RedisPositionCache.Positions.{
  Counts, Move, plus, total, Fits, update_all, get_position-total,
}

abbrev Counters : Type 0
Counters = Text → ℤ

abbrev or_zero : Option ℤ → ℤ
or_zero none = pos 0
or_zero (some n) = n

abbrev add_to : Text → ℤ → Counters → Counters
add_to k d st = λ k'. if text_eq k k' then plus (st k) d else st k'

-- A command of three words is INCRBY, and one of two is GET.
abbrev command : List Text → Counters → Option RedisReply × Counters
command (name ∷ k ∷ []) st = (some (string (Decimal.to_string (st k))), st)
command (name ∷ k ∷ d ∷ []) st = (some other, add_to k (or_zero (stoll d)) st)
command _ st = (none, st)

abbrev counting : Redis
counting = record { State = Counters; connect = λ host port st. (true, st); command = command }

abbrev counts : Counts counting
counts = record {
  IsNumber = λ st k. Unit {0};
  value = λ st k. st k;
  incr_number = λ st k k' d h i. tt;
  incr = λ st k d h i. rw (stoll-to_string d, text_eq_refl k) refl;
  frame = λ st k k' d n. ground (arith, n, text_eq_iff k k');
  get = λ st k h. inl refl;
}

abbrev moves : List Move
moves =
    (codes "ann", codes "AAPL", pos 5)
    ∷ (codes "bob", codes "AAPL", negsuc 4)
    ∷ (codes "ann", codes "AAPL", negsuc 2)
    ∷ []

ann-IsName : IsName (codes "ann")
ann-IsName = record {
  plain = (omega arith, (omega arith, (omega arith, tt)));
  whole = (omega arith, (omega arith, (omega arith, tt)));
}

bob-IsName : IsName (codes "bob")
bob-IsName = record {
  plain = (omega arith, (omega arith, (omega arith, tt)));
  whole = (omega arith, (omega arith, (omega arith, tt)));
}

aapl : All (λ c. c ≢ 0) (codes "AAPL")
aapl = (omega arith, (omega arith, (omega arith, (omega arith, tt))))

abbrev empty_cache : RedisPositionCache counting
empty_cache = record { connected = true; server = λ k. pos 0 }

get_position-total_example :
    (get_position counting (codes "ann") (codes "AAPL") (update_all counting moves empty_cache)).0
    ≡ ok (total (codes "ann") (codes "AAPL") (pos 0) moves)
unfolding Fits text_eq
get_position-total_example =
    get_position-total counting counts (codes "ann") (codes "AAPL") moves empty_cache ann-IsName
      aapl ((ann-IsName, aapl), ((bob-IsName, aapl), ((ann-IsName, aapl), tt))) refl tt
      ((omega arith, omega arith), ((omega arith, omega arith), tt))
