-- ===== src/Engine/MatchingEngine/Soundness.antt =====
-- The invariant of the engine with its risk engine: valid books, whose orders the risk engine has
-- seen.
use titan_x.Prelude.{
  ◌^◌, ◌<◌, ◌≡◌, refl, true, false, List, [], ◌∷◌, some, arith, Bool-cases, Option-cases, inl, inr,
  subst,
}
use titan_x.Prelude.Int.{ℤ, pos, pos_part, eqb_ℤ}
use titan_x.Prelude.Text.{Text, text_eq}
use titan_x.Prelude.Map.{Map, lookup, insert, lookup-insert}
use titan_x.Model.World.{World}
use titan_x.Model.OrderSide.{OrderSide, buy, sell}
use titan_x.Model.OrderType.{limit, ioc}
use titan_x.Model.Order.{Order}
use titan_x.Risk.RiskEngine.{RiskEngine, has}
use titan_x.Risk.RiskEngine.History.{Remembers, has_side}
use titan_x.Engine.OrderBook
use titan_x.Engine.OrderBook.{OrderBook}
use titan_x.Engine.OrderBook.Validity.{IsValid, init-IsValid}
use titan_x.Engine.OrderBook.Contents.{HasOnly, HasOnly-weaken}
use titan_x.Engine.MatchingEngine.{MatchingEngine, book_of, check_stop_triggers}

-- The risk engine has seen the id, the price is not 0, and the account is on record for the side.
abbrev pub Known : RiskEngine → OrderSide → Text → Text → ℤ → Type 0
Known r side id account p =
    (has id r.seen_order_ids ≡ true) × (eqb_ℤ p (pos 0) ≡ false) × (has_side side account r ≡ true)

pub record IsSound (m : MatchingEngine) (r : RiskEngine) : Type 0 where
  pub valid : (symbol : Text) (b : OrderBook) → lookup symbol m.books ≡ some b → IsValid b
  pub known : (symbol : Text) (b : OrderBook) → lookup symbol m.books ≡ some b → HasOnly (Known r) b
  pub no_stops : m.stop_orders ≡ []

-- A price where the order may come to rest, and a quantity of 64 bits.
pub record IsAcceptable (o : Order) : Type 0 where
  pub small : pos_part o.remaining_quantity < 2 ^ 63
  pub priced_limit : o.type ≡ limit → eqb_ℤ o.price (pos 0) ≡ false
  pub priced_ioc : o.type ≡ ioc → eqb_ℤ o.price (pos 0) ≡ false

pub Remembers-side :
    (d : OrderSide) (a : Text) (r r' : RiskEngine)
    → Remembers r r'
    → has_side d a r ≡ true
    → has_side d a r' ≡ true
Remembers-side buy a r r' k h = k.buys a h
Remembers-side sell a r r' k h = k.sells a h

pub Remembers-Known :
    (r r' : RiskEngine)
    → Remembers r r'
    → (d : OrderSide) (id a : Text) (p : ℤ) → Known r d id a p
    → Known r' d id a p
Remembers-Known r r' k d id a p h = (k.ids id h.0, h.1, Remembers-side d a r r' k h.2)

init-HasOnly :
    (P : OrderSide → Text → Text → ℤ → Type 0) (symbol : Text) → HasOnly P (OrderBook.init symbol)
unfolding OrderBook.init lookup
init-HasOnly P symbol = record { bids = tt; asks = tt; index = λ id o e. cc }

pub book_of-IsValid :
    (s : Text) (m : MatchingEngine) (r : RiskEngine) → IsSound m r → IsValid (book_of s m)
book_of-IsValid s m r h = elim (Option-cases (lookup s m.books)) [
  | inl e ↦ rw (e, book_of) (init-IsValid s)
  | inr (b, e) ↦ rw (e, book_of) (h.valid s b e)
]

pub book_of-HasOnly :
    (s : Text) (m : MatchingEngine) (r : RiskEngine) → IsSound m r → HasOnly (Known r) (book_of s m)
book_of-HasOnly s m r h = elim (Option-cases (lookup s m.books)) [
  | inl e ↦ rw (e, book_of) (init-HasOnly (Known r) s)
  | inr (b, e) ↦ rw (e, book_of) (h.known s b e)
]

pub weaken : (m : MatchingEngine) (r r' : RiskEngine) → Remembers r r' → IsSound m r → IsSound m r'
weaken m r r' k h = record {
  valid = h.valid;
  known = λ s b e. HasOnly-weaken (Known r) (Known r') b (Remembers-Known r r' k) (h.known s b e);
  no_stops = h.no_stops;
}

-- A sound engine with one more sound book.
pub with_book :
    (m m' : MatchingEngine) (r : RiskEngine) (s : Text) (b : OrderBook)
    → IsSound m r
    → IsValid b
    → HasOnly (Known r) b
    → m'.books ≡ insert s b m.books
    → m'.stop_orders ≡ []
    → IsSound m' r
with_book m m' r s b h v k e f = record {
  valid = λ t b' d. elim (Bool-cases (text_eq s t)) [
    | inl z ↦
        let same : b ≡ b' = ground (arith, lookup-insert s t b m.books) in subst IsValid same v
    | inr z ↦ h.valid t b' (ground (arith, lookup-insert s t b m.books))
  ];
  known = λ t b' d. elim (Bool-cases (text_eq s t)) [
    | inl z ↦
        let same : b ≡ b' = ground (arith, lookup-insert s t b m.books) in
        subst (HasOnly (Known r)) same k
    | inr z ↦ h.known t b' (ground (arith, lookup-insert s t b m.books))
  ];
  no_stops = f;
}

pub no_triggers :
    (s : Text) (b : OrderBook) (w : World) (stops : Map (List Order))
    → stops ≡ []
    → check_stop_triggers s b stops w ≡ (b, [], w)
unfolding check_stop_triggers lookup
no_triggers s b w [] e = refl
no_triggers s b w (x ∷ xs) e = cc
