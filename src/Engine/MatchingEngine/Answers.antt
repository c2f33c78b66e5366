-- ===== src/Engine/MatchingEngine/Answers.antt =====
-- When `submit` returns, and the trades that it returns.
use titan_x.Prelude.{
  ℕ, ◌-◌, ◌/◌, ◌≡◌, refl, ap, true, false, List, [], ◌∷◌, some, arith, Bool-cases, inl, inr,
  >>=-eq-some,
}
use titan_x.Prelude.Int.{pos_part}
use titan_x.Prelude.Text.{codes}
use titan_x.Prelude.Map.{insert}
use titan_x.Model.World.{World, now}
use titan_x.Model.OrderType.{limit}
use titan_x.Model.Order.{Order}
use titan_x.Model.Trade.{Trade}
use titan_x.Event.OrderEvent
use titan_x.Event.FillEvent
use titan_x.Event.FillEvent.{FillEvent}
use titan_x.Risk.RiskEngine.{RiskEngine, RiskResult, has, check_pre_trade}
use titan_x.Risk.RiskEngine.History.{refused_if_seen}
use titan_x.Engine.OrderBook
use titan_x.Engine.OrderBook.{OrderBook}
use titan_x.Engine.MatchingEngine.{
  Exchange, Consumers, book_of, get_or_create, emit, report_fills, settle, execute, submit,
}
use titan_x.Engine.MatchingEngine.Soundness.{IsSound, IsAcceptable, book_of-IsValid}
use titan_x.Prelude.{map}
use titan_x.Engine.MatchingEngine.Submission.{fresh_lem}
use titan_x.Risk.RiskEngine.Approval.{outcome}
use titan_x.Engine.OrderBook.{crosses, opposite, match_limit, match_as}
use titan_x.Engine.OrderBook.Priority.{match_limit_lem}
use titan_x.Engine.Sweep.Execution.{filled, entries}
use titan_x.Engine.Sweep.Execution

match-limit :
    (o : Order) (b : OrderBook) (w : World)
    → o.type ≡ limit
    → (OrderBook.match o b w).0 ≡ (match_limit o b w).0
unfolding OrderBook.match match_as
match-limit o b w e = ap (λ t. (match_as t o b w).0) e

module _ {S : Type 0} (c : Consumers S) where
  report_fills-returns :
      (o : Order) (l : ℕ) (ts : List Trade) (x : Exchange S)
      → ((f : FillEvent) (at : ℕ) (z : RiskEngine × S)
          → (z' : RiskEngine × S) × (c.on_fill f at z ≡ some z'))
      → (x' : Exchange S) × (report_fills c o l ts x ≡ some x')
  unfolding report_fills emit
  report_fills-returns o l [] x k = (x, refl)
  report_fills-returns o l (t ∷ ts) x k =
      let fill = FillEvent.create t l x.world in
      let at = now fill.1 in
      let (r, e) = k fill.0 at.0 (x.risk, x.outside) in
      rw (e, report_fills)
        (report_fills-returns o l ts
          (emit c (OrderEvent.filled o t) (record x { risk = r.0; outside = r.1; world = at.1 })) k)

  execute-returns :
      (o : Order) (x : Exchange S)
      → ((f : FillEvent) (at : ℕ) (z : RiskEngine × S)
          → (z' : RiskEngine × S) × (c.on_fill f at z ≡ some z'))
      → (ts : List Trade) × (x' : Exchange S) × (execute c o x ≡ some (ts, x'))
  unfolding execute
  execute-returns o x k =
      let m = get_or_create o.symbol x.engine in
      let x1 = emit c (OrderEvent.received o) (record x { engine = m.1 }) in
      let started = now x1.world in
      let matched = OrderBook.match o m.0 started.1 in
      let ended = now matched.2 in
      let x2 : Exchange S = record x1 {
        engine = record m.1 { books = insert o.symbol matched.1 m.1.books };
        world = ended.1;
      } in
      let (x3, e) = report_fills-returns o ((ended.0 - started.0) / 1000) matched.0 x2 k in
      (matched.0, settle c o matched.1 matched.0 x3, rw e refl)

  -- While the breaker's mutex is free and the fill consumer returns, `submit` returns for every
  -- order.
  pub submit-returns :
      (o : Order) (x : Exchange S)
      → x.risk.circuit_breaker.held ≡ false
      → ((f : FillEvent) (at : ℕ) (z : RiskEngine × S)
          → (z' : RiskEngine × S) × (c.on_fill f at z ≡ some z'))
      → (ts : List Trade) × (x' : Exchange S) × (submit c o x ≡ some (ts, x'))
  unfolding submit
  submit-returns o x free k =
      let (r, e', run, _) = outcome o x.risk free in
      let (ts, x', done) = execute-returns o (record x { risk = e' }) k in
      elim (Bool-cases x.engine.halted) [
        | inl e ↦ ([], emit c (OrderEvent.rejected o (codes "ENGINE_HALTED")) x, ground (arith, e))
        | inr e ↦ elim (Bool-cases r.approved) [
          | inl a ↦ (ts, x', ground (arith, e, run, a, done))
          | inr a ↦ (
            [],
            emit c (OrderEvent.rejected o r.reason) (record x { risk = e' }),
            ground (arith, e, run, a),
          )
        ]
      ]

  execute-trades :
      (o : Order) (x : Exchange S) (ts : List Trade) (x' : Exchange S)
      → execute c o x ≡ some (ts, x')
      → (w : World) × (ts ≡ (OrderBook.match o (book_of o.symbol x.engine) w).0)
  unfolding execute get_or_create
  execute-trades o x ts x' run =
      let m = get_or_create o.symbol x.engine in
      let x1 = emit c (OrderEvent.received o) (record x { engine = m.1 }) in
      let started = now x1.world in
      let matched = OrderBook.match o m.0 started.1 in
      let (x3, e, f) = >>=-eq-some (report_fills c o _ matched.0 _) _ run in
      (started.1, ground (arith, f))

  -- In a sound engine that is not halted, a LIMIT order that passes the risk check, with a price
  -- other than 0 and a remaining quantity below 2^63, trades as price-time priority says on the
  -- resting orders of the other side of its symbol's book, when `submit` returns.
  pub submit-refines :
      (o : Order) (x : Exchange S) (r : RiskResult) (risk : RiskEngine) (ts : List Trade)
      (x' : Exchange S)
      → IsAcceptable o
      → IsSound x.engine x.risk
      → o.type ≡ limit
      → x.engine.halted ≡ false
      → check_pre_trade o x.risk ≡ some (r, risk)
      → r.approved ≡ true
      → submit c o x ≡ some (ts, x')
      → map filled ts
        ≡ Execution.execute
            (crosses o)
            (pos_part o.remaining_quantity)
            (entries (opposite o (book_of o.symbol x.engine)))
  unfolding submit
  submit-refines o x r risk ts x' a h kind going checked approved run =
      let (w, e) =
        execute-trades o (record x { risk = risk }) ts x'
          (ground (arith, going, checked, approved, run)) in
      let unseen : has o.order_id x.risk.seen_order_ids ≡ false =
        elim (Bool-cases (has o.order_id x.risk.seen_order_ids)) [
          | inl d ↦ absurd (ground (arith, refused_if_seen o x.risk risk r checked d, approved))
          | inr d ↦ d
        ] in
      let fresh = fresh_lem o x.engine x.risk h unseen in
      let b = book_of o.symbol x.engine in
      rw (e, match-limit o b w kind)
        (match_limit_lem o b w (book_of-IsValid o.symbol x.engine x.risk h) a.small fresh).0
