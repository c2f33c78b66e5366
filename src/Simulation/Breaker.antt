-- ===== src/Simulation/Breaker.antt =====
-- A submission to an engine without consumers leaves the circuit breaker alone.
use titan_x.Prelude.{
  ℕ, ◌-◌, ◌/◌, ◌≡◌, refl, ap, ◌∙◌, sym, List, [], ◌∷◌, some, arith, Bool-cases, Option-cases, inl,
  inr, >>=-eq-some,
}
use titan_x.Prelude.Map.{insert}
use titan_x.Model.World.{now}
use titan_x.Model.Order.{Order}
use titan_x.Model.Trade.{Trade}
use titan_x.Event.OrderEvent
use titan_x.Event.FillEvent
use titan_x.Risk.RiskEngine.{
  RiskEngine, RiskResult, check_pre_trade, check_order, reject, track_order,
}
use titan_x.Engine.OrderBook
use titan_x.Engine.OrderBook.{OrderBook}
use titan_x.Engine.MatchingEngine.{
  Exchange, no_consumers, get_or_create, emit, report_fills, settle, execute, submit, is_limit,
}

check_pre_trade-breaker :
    (o : Order) (r r' : RiskEngine) (z : RiskResult)
    → check_pre_trade o r ≡ some (z, r')
    → r'.circuit_breaker ≡ r.circuit_breaker
unfolding check_pre_trade check_order reject track_order
check_pre_trade-breaker o r r' z h = ground arith

report_fills-risk :
    (o : Order) (l : ℕ) (ts : List Trade) (x x' : Exchange (Unit {0}))
    → report_fills no_consumers o l ts x ≡ some x'
    → x'.risk ≡ x.risk
unfolding report_fills emit
report_fills-risk o l [] x x' h = ground (arith, h)
report_fills-risk o l (t ∷ ts) x x' h =
    let fill = FillEvent.create t l x.world in
    let at = now fill.1 in
    report_fills-risk o l ts (emit no_consumers (OrderEvent.filled o t) (record x { world = at.1 }))
      x' h

settle-risk :
    (o : Order) (b : OrderBook) (ts : List Trade) (x : Exchange (Unit {0}))
    → (settle no_consumers o b ts x).risk ≡ x.risk
unfolding settle emit
settle-risk o b (t ∷ ts) x = refl
settle-risk o b [] x = elim (Bool-cases (is_limit o.type)) [ inl e ↦ rw e refl | inr e ↦ rw e refl ]

execute-risk :
    (o : Order) (x : Exchange (Unit {0})) (ts : List Trade) (x' : Exchange (Unit {0}))
    → execute no_consumers o x ≡ some (ts, x')
    → x'.risk ≡ x.risk
unfolding execute get_or_create emit
execute-risk o x ts x' run =
    let m = get_or_create o.symbol x.engine in
    let x1 = emit no_consumers (OrderEvent.received o) (record x { engine = m.1 }) in
    let started = now x1.world in
    let matched = OrderBook.match o m.0 started.1 in
    let ended = now matched.2 in
    let x2 : Exchange (Unit {0}) = record x1 {
      engine = record m.1 { books = insert o.symbol matched.1 m.1.books };
      world = ended.1;
    } in
    let l = (ended.0 - started.0) / 1000 in
    let (x3, e, f) = >>=-eq-some (report_fills no_consumers o l matched.0 x2) _ run in
    let same : settle no_consumers o matched.1 matched.0 x3 ≡ x' = ground (arith, f) in
    ap (λ (y : Exchange (Unit {0})). y.risk) (sym same)
    ∙ settle-risk o matched.1 matched.0 x3
    ∙ report_fills-risk o l matched.0 x2 x3 e

pub submit-breaker :
    (o : Order) (x : Exchange (Unit {0})) (ts : List Trade) (x' : Exchange (Unit {0}))
    → submit no_consumers o x ≡ some (ts, x')
    → x'.risk.circuit_breaker ≡ x.risk.circuit_breaker
unfolding submit emit
submit-breaker o x ts x' run = elim (Bool-cases x.engine.halted) [
  | inl stopped ↦
      let same : x'.risk ≡ x.risk = ground (arith, stopped, run) in
      ap (λ (r : RiskEngine). r.circuit_breaker) same
  | inr going ↦ elim (Option-cases (check_pre_trade o x.risk)) [
    | inl blocked ↦ absurd (ground (arith, blocked, run, going))
    | inr (z, checked) ↦
        let kept = check_pre_trade-breaker o x.risk z.1 z.0 checked in
        elim (Bool-cases z.0.approved) [
          | inr refused ↦
              let same : x'.risk ≡ z.1 = ground (arith, going, checked, refused, run) in
              ap (λ (r : RiskEngine). r.circuit_breaker) same ∙ kept
          | inl approved ↦
              ap (λ (r : RiskEngine). r.circuit_breaker)
                (execute-risk o (record x { risk = z.1 }) ts x'
                  (ground (arith, going, checked, approved, run)))
              ∙ kept
        ]
  ]
]
