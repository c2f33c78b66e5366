-- ===== src/Engine/MatchingEngine/Cancellation.antt =====
-- `cancel`: what it takes out, and that it keeps the invariant of the engine.
use titan_x.Prelude.{◌≡◌, refl, true, some, Option-cases, inl, inr}
use titan_x.Prelude.Text.{Text}
use titan_x.Prelude.Map.{lookup, insert}
use titan_x.Model.Order.{Order}
use titan_x.Risk.RiskEngine.{RiskEngine}
use titan_x.Engine.OrderBook.{OrderBook}
use titan_x.Engine.OrderBook.Validity.{IsValid}
use titan_x.Engine.OrderBook.Contents.{HasOnly}
use titan_x.Engine.MatchingEngine.{MatchingEngine}
use titan_x.Engine.MatchingEngine.Soundness.{Known, IsSound, with_book}
use titan_x.Engine.OrderBook.{remove_from_book}
use titan_x.Engine.OrderBook.Cancel.{Removed, remove_from_book-Removed}
use titan_x.Engine.OrderBook.Contents.{remove_from_book-HasOnly}
use titan_x.Engine.MatchingEngine.{cancel}

remove_from_book-IsValid :
    (id : Text) (b : OrderBook) (r : RiskEngine)
    → IsValid b
    → HasOnly (Known r) b
    → IsValid (remove_from_book id b).0
unfolding remove_from_book
remove_from_book-IsValid id b r v k = elim (Option-cases (lookup id b.order_index)) [
  | inl e ↦ rw (e, remove_from_book) v
  | inr (o, e) ↦ (remove_from_book-Removed id o b v e (k.index id o e).1).1.valid
]

-- Cancelling anything in a sound engine leaves a sound engine.
pub cancel-IsSound :
    (symbol id : Text) (m : MatchingEngine) (r : RiskEngine)
    → IsSound m r
    → IsSound (cancel symbol id m).1 r
unfolding cancel
cancel-IsSound symbol id m r h = elim (Option-cases (lookup symbol m.books)) [
  | inl e ↦ rw (e, cancel) h
  | inr (b, e) ↦ elim (Option-cases (lookup symbol m.locks)) [
    | inl d ↦ rw (e, d, cancel) h
    | inr (u, d) ↦
        rw (e, d, cancel)
          (with_book m _ r symbol (remove_from_book id b).0 h
            (remove_from_book-IsValid id b r (h.valid symbol b e) (h.known symbol b e))
            (remove_from_book-HasOnly (Known r) id b (h.known symbol b e)) refl h.no_stops)
  ]
]

-- In a sound engine, an order that is in the index of its symbol's book, where the symbol has a
-- lock, is cancelled: `cancel` returns true, the book loses exactly that order and stays valid, and
-- nothing else of the engine changes.
pub cancel-Removed :
    (symbol id : Text) (m : MatchingEngine) (r : RiskEngine) (b : OrderBook) (o : Order)
    → IsSound m r
    → lookup symbol m.books ≡ some b
    → lookup symbol m.locks ≡ some tt
    → lookup id b.order_index ≡ some o
    → (b' : OrderBook) × (cancel symbol id m
        ≡ (true, record m { books = insert symbol b' m.books }))
      × Removed id b b'
unfolding cancel
cancel-Removed symbol id m r b o h e d known =
    let p =
      remove_from_book-Removed id o b (h.valid symbol b e) known
        ((h.known symbol b e).index id o known).1 in
    ((remove_from_book id b).0, rw (e, d, p.0, cancel) refl, p.1)
