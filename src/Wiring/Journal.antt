-- ===== src/Wiring/Journal.antt =====
-- What a submission tells the event store and the position cache.
use titan_x.Prelude.{
  ℕ, ◌-◌, ◌/◌, ◌≡◌, refl, subst, List, [], ◌∷◌, ◌++◌, map, append-nil, Option, none, some,
  if◌then◌else◌, arith, >>=-eq-some, Bool-cases, Option-cases, inl, inr,
}
use titan_x.Prelude.Text.{Text, codes}
use titan_x.Prelude.Map.{insert}
use titan_x.Model.World.{World, now}
use titan_x.Model.Order.{Order}
use titan_x.Model.Trade.{Trade}
use titan_x.Event.OrderEvent
use titan_x.Event.OrderEvent.{
  OrderEvent, EventType, Build, build, order_received, order_filled, order_resting, order_rejected,
}
use titan_x.Event.FillEvent
use titan_x.Event.FillEvent.{FillEvent}
use titan_x.Risk.RiskEngine.{RiskEngine, check_pre_trade, update_last_trade_price, record_fill}
use titan_x.Engine.OrderBook
use titan_x.Engine.MatchingEngine.{
  Exchange, emit, report_fills, settle, execute, submit, get_or_create, is_limit,
}
use titan_x.Wiring.{Calls, consumers, on_fill}
use titan_x.Wiring.Tells.{
  Note, note_of, note, rejection, fill_note, confirmation, story, moves, Tells, Tells-emit,
  Tells-none, Tells-trans,
}

Tells-on_fill :
    (f : FillEvent) (at : ℕ) (r : RiskEngine) (s : Calls) (z : RiskEngine × Calls)
    → on_fill f at (r, s) ≡ some z
    → Tells s z.1 [] (f.trade ∷ [])
unfolding on_fill moves
Tells-on_fill f at r s z h =
    let t = f.trade in
    let r1 = record_fill t.aggressor_account_id t.symbol t.aggressor_side t.quantity r in
    let (r2, e, d) = >>=-eq-some (update_last_trade_price t.symbol t.price at r1) _ h in
    record {
      events = ground (arith, d, append-nil (map note_of s.appended));
      updates = ground (arith, d);
      messages = ground (arith, d);
    }

create-trade : (t : Trade) (l : ℕ) (w : World) → (FillEvent.create t l w).0.trade ≡ t
unfolding FillEvent.create
create-trade t l w = refl

build-note :
    (type : EventType) (o : Order) (t : Option Trade) (reason : Text) (w : World)
    → note_of (build type o t reason 0 w).0
      ≡ record { type = type; order = o; trade = t; reason = reason }
unfolding build
build-note type o t reason w = refl

Tells-report_fills :
    (o : Order) (l : ℕ) (ts : List Trade) (x x' : Exchange Calls)
    → report_fills consumers o l ts x ≡ some x'
    → Tells x.outside x'.outside (map (fill_note o) ts) ts
unfolding report_fills consumers
Tells-report_fills o l [] x x' h = Tells-none x.outside x'.outside (ground (arith, h))
Tells-report_fills o l (t ∷ ts) x x' h =
    let fill = FillEvent.create t l x.world in
    let at = now fill.1 in
    elim (Option-cases (on_fill fill.0 at.0 (x.risk, x.outside))) [
      | inl e ↦ absurd (ground (arith, h, e))
      | inr (z, e) ↦
          let x1 : Exchange Calls = record x { risk = z.0; outside = z.1; world = at.1 } in
          let x2 = emit consumers (OrderEvent.filled o t) x1 in
          let rest = Tells-report_fills o l ts x2 x' (ground (arith, h, e)) in
          let told =
            rw (create-trade t l x.world) at (Tells-on_fill fill.0 at.0 x.risk x.outside z e) in
          let written =
            Tells-emit (OrderEvent.filled o t) (fill_note o t) x1
              (build-note order_filled o (some t) []) in
          Tells-trans x.outside x2.outside x'.outside (fill_note o t ∷ []) (map (fill_note o) ts)
            (t ∷ []) ts
            (Tells-trans x.outside z.1 x2.outside [] (fill_note o t ∷ []) (t ∷ []) [] told written)
            rest
    ]

Tells-settle :
    (o : Order) (b : OrderBook.OrderBook) (ts : List Trade) (x : Exchange Calls)
    → Tells x.outside (settle consumers o b ts x).outside (confirmation o ts) []
unfolding settle
Tells-settle o b (t ∷ ts) x = Tells-none x.outside x.outside refl
Tells-settle o b [] x = elim (Bool-cases (is_limit o.type)) [
  | inl y ↦ rw y (
      Tells-emit (OrderEvent.resting o) (note order_resting o) x
        (build-note order_resting o none []))
  | inr n ↦ rw n (Tells-none x.outside x.outside refl)
]

pub Tells-execute :
    (o : Order) (x : Exchange Calls) (ts : List Trade) (x' : Exchange Calls)
    → execute consumers o x ≡ some (ts, x')
    → Tells x.outside x'.outside (story o ts) ts
unfolding execute
Tells-execute o x ts x' run =
    let m = get_or_create o.symbol x.engine in
    let x0 : Exchange Calls = record x { engine = m.1 } in
    let x1 = emit consumers (OrderEvent.received o) x0 in
    let started = now x1.world in
    let matched = OrderBook.match o m.0 started.1 in
    let ended = now matched.2 in
    let x2 : Exchange Calls = record x1 {
      engine = record m.1 { books = insert o.symbol matched.1 m.1.books };
      world = ended.1;
    } in
    let l = (ended.0 - started.0) / 1000 in
    let (x3, e, f) = >>=-eq-some (report_fills consumers o l matched.0 x2) _ run in
    let same : ts ≡ matched.0 = ground (arith, f) in
    let last : settle consumers o matched.1 matched.0 x3 ≡ x' = ground (arith, f) in
    let receipt =
      Tells-emit (OrderEvent.received o) (note order_received o) x0
        (build-note order_received o none []) in
    let fills = Tells-report_fills o l matched.0 x2 x3 e in
    let settled = rw last at (Tells-settle o matched.1 matched.0 x3) in
    rw same (
      Tells-trans x.outside x1.outside x'.outside (note order_received o ∷ [])
        (map (fill_note o) matched.0 ++ confirmation o matched.0) [] matched.0 receipt
        (rw (append-nil matched.0) at (
          Tells-trans x1.outside x3.outside x'.outside (map (fill_note o) matched.0)
            (confirmation o matched.0) matched.0 [] fills settled)))

Tells-refusal :
    (o : Order) (reason : Text) (x x' : Exchange Calls)
    → emit consumers (OrderEvent.rejected o reason) x ≡ x'
    → Tells x.outside x'.outside (rejection o reason) []
Tells-refusal o reason x x' e =
    subst (λ y. Tells x.outside y.outside (rejection o reason) []) e
      (Tells-emit (OrderEvent.rejected o reason)
        (record (note order_rejected o) { reason = reason }) x
        (build-note order_rejected o none reason))

-- What a submission writes to the journal.
unfoldable pub journal : Order → Exchange Calls → List Trade → List Note
journal o x ts =
    if x.engine.halted
    then rejection o (codes "ENGINE_HALTED")
    else elim (check_pre_trade o x.risk) [
      | none ↦ []
      | some (r, risk) ↦ if r.approved then story o ts else rejection o r.reason
    ]

-- With the consumers of `main`, a submission that returns appends to the event store exactly: one
-- rejection, with its reason, if the engine is halted or the risk check says so; and otherwise the
-- receipt, one fill for each trade in their order, and, for a LIMIT order without a trade, that it
-- rests. It tells the position cache the two moves of each trade and publishes each trade, in
-- order.
pub submit-Tells :
    (o : Order) (x : Exchange Calls) (ts : List Trade) (x' : Exchange Calls)
    → submit consumers o x ≡ some (ts, x')
    → Tells x.outside x'.outside (journal o x ts) ts
unfolding submit journal
submit-Tells o x ts x' h = elim (Bool-cases x.engine.halted) [
  | inl y ↦
      let none_traded : ts ≡ [] = ground (arith, h, y) in
      let last : emit consumers (OrderEvent.rejected o (codes "ENGINE_HALTED")) x ≡ x' =
        ground (arith, h, y) in
      rw (y, none_traded) (Tells-refusal o (codes "ENGINE_HALTED") x x' last)
  | inr n ↦ elim (Option-cases (check_pre_trade o x.risk)) [
    | inl e ↦ absurd (ground (arith, h, n, e))
    | inr ((r, risk), e) ↦ elim (Bool-cases r.approved) [
      | inl a ↦
          rw (n, e, journal, a)
            (Tells-execute o (record x { risk = risk }) ts x' (ground (arith, h, n, e, a)))
      | inr a ↦
          let none_traded : ts ≡ [] = ground (arith, h, n, e, a) in
          let last : emit consumers (OrderEvent.rejected o r.reason) (record x { risk = risk })
              ≡ x' =
            ground (arith, h, n, e, a) in
          rw (n, e, journal, a, none_traded)
            (Tells-refusal o r.reason (record x { risk = risk }) x' last)
    ]
  ]
]
