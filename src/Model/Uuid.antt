-- ===== src/Model/Uuid.antt =====
-- `generate_uuid` of backend/src/model/Order.cpp: two 64-bit draws, printed by
-- "%08x-%04x-%04x-%04x-%012llx".
use titan_x.Prelude.{ℕ, zero, suc, ◌+◌, ◌/◌, ◌%◌, ◌^◌, [], ◌∷◌, ◌++◌, ltb, if◌then◌else◌}
use titan_x.Prelude.Text.{Text}
use titan_x.Model.World.{World, draw}

-- A lower-case hexadecimal digit, for a number below 16.
hex_digit : ℕ → ℕ
hex_digit d = if ltb d 10 then b'0' + d else 87 + d

-- `%0wx` of a number below 16^w: the digits, the most significant first.
hex : ℕ → ℕ → Text
unfolding hex_digit
hex zero n = []
hex (suc w) n = hex_digit ((n / 16 ^ w) % 16) ∷ hex w n

-- `x & (2^k - 1)` is `x % 2^k`, and the `|` sets bits that the mask has cleared.
format_uuid : ℕ → ℕ → Text
unfolding hex
format_uuid a b =
    hex 8 (a / 2 ^ 32)
    ++ b'-' ∷ hex 4 ((a / 2 ^ 16) % 2 ^ 16)
    ++ b'-' ∷ hex 4 (0x4000 + a % 2 ^ 12)
    ++ b'-' ∷ hex 4 (0x8000 + (b / 2 ^ 48) % 2 ^ 14)
    ++ b'-' ∷ hex 12 (b % 2 ^ 48)

unfoldable pub generate_uuid : World → Text × World
unfolding draw format_uuid
generate_uuid w = let (a, w1) = draw w in let (b, w2) = draw w1 in (format_uuid a b, w2)
