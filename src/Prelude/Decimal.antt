-- ===== src/Prelude/Decimal.antt =====
-- `std::to_string` of the integer types: decimal digits, and `std::stoll` on what it prints.
use Prim.Native.Nat.{ℕ, zero, suc, ◌+◌, ◌-◌, ◌*◌, ◌/◌, ◌%◌, ◌<◌}
use mathlib.Core.Path.{◌≡◌}
use mathlib.Core.Bool.{Bool, true, false}
use mathlib.Core.Logic.{inl, inr}
use mathlib.Core.List.{[], ◌∷◌}
use mathlib.Core.Option.{Option, none, some}
use native.Mathlib.Omega.{arith}
use titan_x.Prelude.Tests.{ltb, leb, ◌==◌, if◌then◌else◌, Bool-cases}
use titan_x.Prelude.Text.{Text}
use titan_x.Prelude.Int.{ℤ, pos, negsuc}

-- The digits of `n` in front of `rest`; the fuel is more than `n`.
unfoldable pub digits : ℕ → ℕ → Text → Text
digits zero n rest = rest
digits (suc fuel) n rest =
    let more = digits fuel (n / 10) ((b'0' + n % 10) ∷ rest) in
    if ltb n 10 then (b'0' + n) ∷ rest else more

unfoldable pub decimal : ℕ → Text
unfolding digits
decimal n = digits (suc n) n []

unfoldable pub to_string : ℤ → Text
unfolding decimal
to_string (pos n) = decimal n
to_string (negsuc n) = b'-' ∷ decimal (suc n)

-- The value of the digits at the front of a text, after those that were read.
unfoldable pub read_digits : ℕ → Text → ℕ
read_digits acc [] = acc
read_digits acc (c ∷ s) =
    let rest = read_digits (acc * 10 + (c - b'0')) s in
    if leb b'0' c then if leb c b'9' then rest else acc else acc

abbrev pub is_digit : ℕ → Bool
is_digit c = if leb b'0' c then leb c b'9' else false

-- `std::stoll` without the white space that it skips, for values in range; `none` is its exception.
unfoldable pub stoll : Text → Option ℤ
unfolding read_digits
stoll [] = none
stoll (c ∷ s) =
    if is_digit c
    then some (pos (read_digits 0 (c ∷ s)))
    else if c == b'-'
    then negative s
    else none
  where
    negative : Text → Option ℤ
    negative [] = none
    negative (d ∷ t) =
        if is_digit d
        then some (if read_digits 0 (d ∷ t) == 0 then pos 0 else negsuc (read_digits 0 (d ∷ t) - 1))
        else none

read_digits-digits :
    (fuel n : ℕ) (rest : Text) → n < fuel → read_digits 0 (digits fuel n rest) ≡ read_digits n rest
unfolding read_digits digits
read_digits-digits zero n rest h = absurd (omega arith)
read_digits-digits (suc fuel) n rest h =
    let step : (n / 10) * 10 + ((b'0' + n % 10) - b'0') ≡ n = omega arith in
    ground (arith, step, read_digits-digits fuel (n / 10) ((b'0' + n % 10) ∷ rest))

-- The print of a number starts with a digit.
pub digits-head :
    (fuel n : ℕ) (rest : Text)
    → n < fuel
    → (c : ℕ) × (s : Text) × (digits fuel n rest ≡ c ∷ s) × (is_digit c ≡ true)
unfolding digits
digits-head zero n rest h = absurd (omega arith)
digits-head (suc fuel) n rest h = elim (Bool-cases (ltb n 10)) [
  | inl e ↦ (b'0' + n, rest, rw e, ground arith)
  | inr e ↦
      let (c, s, d, k) = digits-head fuel (n / 10) ((b'0' + n % 10) ∷ rest) (ground arith) in
      (c, s, rw e d, k)
]

pub read_decimal : (n : ℕ) → read_digits 0 (decimal n) ≡ n
unfolding decimal read_digits
read_decimal n = read_digits-digits (suc n) n [] (omega arith)

-- Reading what was printed gives the number back.
pub stoll-to_string : (z : ℤ) → stoll (to_string z) ≡ some z
unfolding stoll to_string decimal
stoll-to_string (pos n) =
    let (c, s, d, k) = digits-head (suc n) n [] (omega arith) in
    let r = read_decimal n in rw d (ground (arith, k, rw d at r))
stoll-to_string (negsuc n) =
    let (c, s, d, k) = digits-head (suc (suc n)) (suc n) [] (omega arith) in
    let r = read_decimal (suc n) in rw d (ground (arith, k, rw d at r))
