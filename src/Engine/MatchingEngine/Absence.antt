-- ===== src/Engine/MatchingEngine/Absence.antt =====
-- An id that is in no book, and the operations that keep it out.
use titan_x.Prelude.{
  ℕ, ◌-◌, ◌/◌, ◌≡◌, ◌≢◌, refl, sym, ap, subst, List, [], ◌∷◌, none, some, arith, Bool-cases,
  Option-cases, inl, inr, >>=-eq-some,
}
use titan_x.Prelude.Text.{Text, text_eq}
use titan_x.Prelude.Map.{lookup, insert, lookup-insert}
use titan_x.Model.World.{now}
use titan_x.Model.Order.{Order}
use titan_x.Model.Trade.{Trade}
use titan_x.Event.OrderEvent
use titan_x.Event.FillEvent
use titan_x.Event.FillEvent.{FillEvent}
use titan_x.Risk.RiskEngine.{RiskEngine}
use titan_x.Engine.OrderBook
use titan_x.Engine.OrderBook.{OrderBook, remove_from_book}
use titan_x.Engine.OrderBook.Contents.{HasOnly, match-HasOnly, remove_from_book-HasOnly}
use titan_x.Engine.OrderBook.Absence.{Other, absent-HasOnly}
use titan_x.Engine.MatchingEngine.{
  MatchingEngine, Exchange, Consumers, book_of, get_or_create, emit, report_fills, settle, execute,
  cancel, is_limit,
}
use titan_x.Engine.MatchingEngine.Soundness.{IsSound, book_of-IsValid, no_triggers}
use titan_x.Engine.MatchingEngine.Submission.{IsKeeping, report_fills-Remembers}

abbrev pub IsAbsent : Text → MatchingEngine → Type 0
IsAbsent id m =
    (symbol : Text) (b : OrderBook)
    → lookup symbol m.books ≡ some b
    → lookup id b.order_index ≡ none

unindexed : (id : Text) (b : OrderBook) → HasOnly (Other id) b → lookup id b.order_index ≡ none
unindexed id b h = elim (Option-cases (lookup id b.order_index)) [
  | inl e ↦ e
  | inr (o, e) ↦ absurd (h.index id o e refl)
]

pub book_of-absent :
    (id symbol : Text) (m : MatchingEngine)
    → IsAbsent id m
    → lookup id (book_of symbol m).order_index ≡ none
unfolding OrderBook.init lookup
book_of-absent id symbol m h = elim (Option-cases (lookup symbol m.books)) [
  | inl e ↦ rw (e, book_of) refl
  | inr (b, e) ↦ rw (e, book_of) (h symbol b e)
]

with_book-IsAbsent :
    (id : Text) (m m' : MatchingEngine) (s : Text) (b : OrderBook)
    → IsAbsent id m
    → lookup id b.order_index ≡ none
    → m'.books ≡ insert s b m.books
    → IsAbsent id m'
with_book-IsAbsent id m m' s b h k e t b' d = elim (Bool-cases (text_eq s t)) [
  | inl z ↦
      let same : b ≡ b' = ground (arith, lookup-insert s t b m.books, d, e, z) in
      subst (λ (b : OrderBook). lookup id b.order_index ≡ none) same k
  | inr z ↦ h t b' (ground (arith, lookup-insert s t b m.books, d, e, z))
]

-- What the fill consumer keeps of the risk engine, the execution of an order keeps.
module _ {S : Type 0} (c : Consumers S) (P : RiskEngine → Type 0)
    (keeps : (f : FillEvent) (at : ℕ) (r : RiskEngine) (s : S) (z : RiskEngine × S)
      → c.on_fill f at (r, s) ≡ some z
      → P r
      → P z.0) where
  report_fills_inv :
      (o : Order) (l : ℕ) (ts : List Trade) (x x' : Exchange S)
      → report_fills c o l ts x ≡ some x'
      → P x.risk
      → P x'.risk
  unfolding report_fills emit
  report_fills_inv o l [] x x' h p =
      let same : x ≡ x' = ground (arith, h) in subst (λ (z : Exchange S). P z.risk) same p
  report_fills_inv o l (t ∷ ts) x x' h p =
      let fill = FillEvent.create t l x.world in
      let at = now fill.1 in
      elim (Option-cases (c.on_fill fill.0 at.0 (x.risk, x.outside))) [
        | inl e ↦ absurd (ground (arith, e, h))
        | inr (r, e) ↦
            let next : Exchange S =
              emit c (OrderEvent.filled o t)
                (record x { risk = r.0; outside = r.1; world = at.1 }) in
            report_fills_inv o l ts next x' (rw (e, report_fills) at h)
              (keeps fill.0 at.0 x.risk x.outside r e p)
      ]

  settle_inv :
      (o : Order) (b : OrderBook) (ts : List Trade) (x : Exchange S)
      → P x.risk
      → P (settle c o b ts x).risk
  unfolding settle emit
  settle_inv o b (t ∷ ts) x p = p
  settle_inv o b [] x p = elim (Bool-cases (is_limit o.type)) [ inl e ↦ rw e p | inr e ↦ rw e p ]

  pub execute_inv :
      (o : Order) (x : Exchange S) (ts : List Trade) (x' : Exchange S)
      → execute c o x ≡ some (ts, x')
      → P x.risk
      → P x'.risk
  unfolding execute get_or_create emit
  execute_inv o x ts x' run p =
      let m = (get_or_create o.symbol x.engine).1 in
      let x1 = emit c (OrderEvent.received o) (record x { engine = m }) in
      let started = now x1.world in
      let matched = OrderBook.match o (book_of o.symbol x.engine) started.1 in
      let ended = now matched.2 in
      let x2 : Exchange S = record x1 {
        engine = record m { books = insert o.symbol matched.1 m.books };
        world = ended.1;
      } in
      let l = (ended.0 - started.0) / 1000 in
      let (x3, e, f) =
        >>=-eq-some (report_fills c o l matched.0 x2)
          (λ x3. some (matched.0, settle c o matched.1 matched.0 x3)) run in
      let same : settle c o matched.1 matched.0 x3 ≡ x' = ground (arith, f) in
      subst (λ (z : Exchange S). P z.risk) same
        (settle_inv o matched.1 matched.0 x3 (report_fills_inv o l matched.0 x2 x3 e p))

module _ {S : Type 0} (c : Consumers S) where
  settle-IsAbsent :
      (id : Text) (o : Order) (b : OrderBook) (ts : List Trade) (x : Exchange S)
      → IsAbsent id x.engine
      → lookup id b.order_index ≡ none
      → x.engine.stop_orders ≡ []
      → IsAbsent id (settle c o b ts x).engine
  unfolding settle emit
  settle-IsAbsent id o b [] x h k e = elim (Bool-cases (is_limit o.type)) [
    | inl y ↦ rw y h
    | inr n ↦ rw n h
  ]
  settle-IsAbsent id o b (t ∷ ts) x h k e =
      with_book-IsAbsent id x.engine (settle c o b (t ∷ ts) x).engine o.symbol b h k (
        ap (λ z. insert o.symbol z.0 x.engine.books)
          (no_triggers o.symbol b x.world x.engine.stop_orders e))

  -- The execution of another order.
  pub execute-IsAbsent :
      (id : Text) (o : Order) (x : Exchange S) (ts : List Trade) (x' : Exchange S)
      → IsKeeping c
      → IsSound x.engine x.risk
      → o.order_id ≢ id
      → IsAbsent id x.engine
      → execute c o x ≡ some (ts, x')
      → IsAbsent id x'.engine
  unfolding execute get_or_create emit
  execute-IsAbsent id o x ts x' k h other absent run =
      let b = book_of o.symbol x.engine in
      let m = (get_or_create o.symbol x.engine).1 in
      let x1 = emit c (OrderEvent.received o) (record x { engine = m }) in
      let started = now x1.world in
      let matched = OrderBook.match o b started.1 in
      let ended = now matched.2 in
      let x2 : Exchange S = record x1 {
        engine = record m { books = insert o.symbol matched.1 m.books };
        world = ended.1;
      } in
      let l = (ended.0 - started.0) / 1000 in
      let none_before = book_of-absent id o.symbol x.engine absent in
      let before = absent-HasOnly id b (book_of-IsValid o.symbol x.engine x.risk h) none_before in
      let none_after =
        unindexed id matched.1
          (match-HasOnly (Other id) o b started.1 (λ e. other) (λ e. other) before) in
      let opened = with_book-IsAbsent id x.engine m o.symbol b absent none_before refl in
      let traded = with_book-IsAbsent id m x2.engine o.symbol matched.1 opened none_after refl in
      let (x3, e, f) =
        >>=-eq-some (report_fills c o l matched.0 x2)
          (λ x3. some (matched.0, settle c o matched.1 matched.0 x3)) run in
      let same_engine = (report_fills-Remembers c o l matched.0 x2 x3 k e).0 in
      let reported = subst (IsAbsent id) (sym same_engine) traded in
      let same : settle c o matched.1 matched.0 x3 ≡ x' = ground (arith, f) in
      subst (λ (z : Exchange S). IsAbsent id z.engine) same
        (settle-IsAbsent id o matched.1 matched.0 x3 reported none_after
          (rw same_engine h.no_stops))

pub cancel-IsAbsent :
    (id symbol gone : Text) (m : MatchingEngine) (r : RiskEngine)
    → IsSound m r
    → IsAbsent id m
    → IsAbsent id (cancel symbol gone m).1
unfolding cancel
cancel-IsAbsent id symbol gone m r h absent = elim (Option-cases (lookup symbol m.books)) [
  | inl e ↦ rw (e, cancel) absent
  | inr (b, e) ↦ elim (Option-cases (lookup symbol m.locks)) [
    | inl d ↦ rw (e, d, cancel) absent
    | inr (u, d) ↦
        let left =
          remove_from_book-HasOnly (Other id) gone b
            (absent-HasOnly id b (h.valid symbol b e) (absent symbol b e)) in
        rw (e, d, cancel)
          (with_book-IsAbsent id m
            (record m { books = insert symbol (remove_from_book gone b).0 m.books }) symbol
            (remove_from_book gone b).0 absent (unindexed id (remove_from_book gone b).0 left) refl)
  ]
]
