-- ===== src/Risk/RiskEngine/Positions.antt =====
-- The net positions that the fills add up to.
use titan_x.Prelude.{[], ◌≡◌, refl, none, some, if◌then◌else◌, arith}
use titan_x.Prelude.Int.{ℤ, pos, ◌+ℤ◌, ◌-ℤ◌}
use titan_x.Prelude.Text.{Text, text_eq, text_eq_iff}
use titan_x.Prelude.Map.{Map, lookup, insert, lookup-insert}
use titan_x.Model.OrderSide.{OrderSide, is_buy_side}
use titan_x.Risk.RiskEngine.{RiskEngine, get_net_position, record_fill}

lookup-empty : (k : Text) → lookup {V = ℤ} k [] ≡ none
unfolding lookup
lookup-empty k = refl

-- A fill moves the position of its account and symbol by its signed quantity, in wrapping 64-bit
-- arithmetic, and no other position.
pub get_net_position-record_fill :
    (account symbol a s : Text) (side : OrderSide) (quantity : ℤ) (e : RiskEngine)
    → get_net_position a s (record_fill account symbol side quantity e) ≡ (
        if text_eq account a
        then if text_eq symbol s
          then get_net_position a s e +ℤ (if is_buy_side side then quantity else pos 0 -ℤ quantity)
          else get_net_position a s e
        else get_net_position a s e)
unfolding get_net_position record_fill
get_net_position-record_fill account symbol a s side quantity e =
    let delta = if is_buy_side side then quantity else pos 0 -ℤ quantity in
    let m : Map ℤ = elim (lookup account e.positions) [ none ↦ [] | some m ↦ m ] in
    let p : ℤ = elim (lookup symbol m) [ none ↦ pos 0 | some p ↦ p ] in
    ground (
      arith,
      lookup-insert account a (insert symbol (p +ℤ delta) m) e.positions,
      lookup-insert symbol s (p +ℤ delta) m,
      text_eq_iff account a,
      text_eq_iff symbol s,
      lookup-empty s,
    )
