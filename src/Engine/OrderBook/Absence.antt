-- ===== src/Engine/OrderBook/Absence.antt =====
-- An id that the index of a valid book does not have is the id of none of its orders.
use titan_x.Prelude.{◌≡◌, ◌≢◌, sym, ◌∙◌, List, [], ◌∷◌, ◌++◌, none, arith}
use titan_x.Prelude.Int.{ℤ}
use titan_x.Prelude.Text.{Text, text_eq_iff}
use titan_x.Prelude.Map.{lookup}
use titan_x.Model.OrderSide.{OrderSide}
use titan_x.Model.Order.{Order}
use titan_x.Engine.Levels.{Level, flat}
use titan_x.Engine.Sweep.Index.{find}
use titan_x.Engine.OrderBook.{OrderBook}
use titan_x.Engine.OrderBook.Validity.{IsValid, orders}
use titan_x.Engine.OrderBook.Contents.{HasOnly, InLevels, InQueue}

-- The orders of other ids.
abbrev pub Other : Text → OrderSide → Text → Text → ℤ → Type 0
Other id side i account p = i ≢ id

module _ (id : Text) where
  unfound : (q : List Order) → find id q ≡ none → InQueue (Other id) q
  unfolding find
  unfound [] h = tt
  unfound (o ∷ q) h =
      (λ e. ground (arith, h, (text_eq_iff o.order_id id).1 e), unfound q (ground (arith, h)))

  parts :
      (xs ys : List Order)
      → InQueue (Other id) (xs ++ ys)
      → InQueue (Other id) xs × InQueue (Other id) ys
  parts [] ys h = (tt, h)
  parts (x ∷ xs) ys h = let (a, b) = parts xs ys h.1 in ((h.0, a), b)

  levels : (ls : List Level) → InQueue (Other id) (flat ls) → InLevels (Other id) ls
  unfolding flat
  levels [] h = tt
  levels (l ∷ ls) h = let (a, b) = parts l.queue (flat ls) h in (a, levels ls b)

  pub absent-HasOnly :
      (b : OrderBook) → IsValid b → lookup id b.order_index ≡ none → HasOnly (Other id) b
  absent-HasOnly b v h =
      let (x, y) =
        parts (flat b.bids) (flat b.asks) (unfound (orders b) (sym (v.agrees.finds id) ∙ h)) in
      record { bids = levels b.bids x; asks = levels b.asks y; index = λ j o e f. cc }
