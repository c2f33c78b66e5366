-- ===== src/Engine/MatchingEngine/SelfTrade.antt =====
-- The self-trade check of the risk engine and what the books hold: nobody trades with himself.
use titan_x.Prelude.{
  ◌-◌, ◌/◌, ◌≡◌, ◌≢◌, sym, subst, ◌∙◌, true, false, List, [], ◌∷◌, some, arith, All, Bool-cases,
  Option-cases, inl, inr, >>=-eq-some,
}
use titan_x.Prelude.Map.{insert}
use titan_x.Model.World.{now}
use titan_x.Model.Order.{Order, is_buy}
use titan_x.Model.Trade.{Trade}
use titan_x.Event.OrderEvent
use titan_x.Risk.RiskEngine.{RiskEngine, RiskResult, check_pre_trade}
use titan_x.Risk.RiskEngine.History.{has_side, refused_if_opposed}
use titan_x.Engine.Sweep.Passive.{AreTradesOf}
use titan_x.Engine.OrderBook
use titan_x.Engine.OrderBook.Counterparties.{other_side, match-AreTradesOf, opposite-AreOwned}
use titan_x.Engine.MatchingEngine.{
  Exchange, Consumers, book_of, get_or_create, emit, report_fills, settle, execute, submit,
}
use titan_x.Engine.MatchingEngine.Soundness.{Known, IsSound, book_of-IsValid, book_of-HasOnly}

-- The two accounts of each trade are different.
abbrev pub AreApart : List Trade → Type 0
AreApart ts = All (λ (t : Trade). t.aggressor_account_id ≢ t.passive_account_id) ts

unopposed :
    (o : Order) (r r' : RiskEngine) (z : RiskResult)
    → check_pre_trade o r ≡ some (z, r')
    → z.approved ≡ true
    → has_side (other_side o) o.account_id r ≡ false
unopposed o r r' z checked approved = elim (Bool-cases (has_side (other_side o) o.account_id r)) [
  | inr e ↦ e
  | inl e ↦ elim (Bool-cases (is_buy o)) [
    | inl y ↦
        let refused = refused_if_opposed o r r' z checked (rw y (rw y at e)) in
        absurd (ground (arith, refused, approved))
    | inr n ↦
        let refused = refused_if_opposed o r r' z checked (rw n (rw n at e)) in
        absurd (ground (arith, refused, approved))
  ]
]

apart :
    (o : Order) (r : RiskEngine) (ts : List Trade)
    → has_side (other_side o) o.account_id r ≡ false
    → AreTradesOf (λ a. has_side (other_side o) a r ≡ true) o ts
    → AreApart ts
apart o r [] k h = tt
apart o r (t ∷ ts) k h = (
  (λ e.
      let both = subst (λ a. has_side (other_side o) a r ≡ true) (sym e ∙ h.0.0) h.0.1 in
      absurd (ground (arith, both, k))),
  apart o r ts k h.1,
)

module _ {S : Type 0} (c : Consumers S) where
  pub execute-AreApart :
      (o : Order) (x : Exchange S) (old : RiskEngine) (ts : List Trade) (x' : Exchange S)
      → IsSound x.engine old
      → has_side (other_side o) o.account_id old ≡ false
      → execute c o x ≡ some (ts, x')
      → AreApart ts
  unfolding execute get_or_create
  execute-AreApart o x old ts x' h k run =
      let b = book_of o.symbol x.engine in
      let m = (get_or_create o.symbol x.engine).1 in
      let x1 = emit c (OrderEvent.received o) (record x { engine = m }) in
      let started = now x1.world in
      let matched = OrderBook.match o b started.1 in
      let ended = now matched.2 in
      let x2 : Exchange S = record x1 {
        engine = record m { books = insert o.symbol matched.1 m.books };
        world = ended.1;
      } in
      let (x3, e, f) =
        >>=-eq-some (report_fills c o ((ended.0 - started.0) / 1000) matched.0 x2)
          (λ x3. some (matched.0, settle c o matched.1 matched.0 x3)) run in
      let same : matched.0 ≡ ts = ground (arith, f) in
      let owned =
        opposite-AreOwned (Known old) (λ a. has_side (other_side o) a old ≡ true) o b
          (λ id account p z. z.2) (book_of-IsValid o.symbol x.engine old h)
          (book_of-HasOnly o.symbol x.engine old h) in
      subst AreApart same (
        apart o old matched.0 k
          (match-AreTradesOf (λ a. has_side (other_side o) a old ≡ true) o b started.1 owned))

  -- In a sound engine, no trade of an order is against an order of its own account.
  pub submit-AreApart :
      (o : Order) (x : Exchange S) (ts : List Trade) (x' : Exchange S)
      → IsSound x.engine x.risk
      → submit c o x ≡ some (ts, x')
      → AreApart ts
  unfolding submit
  submit-AreApart o x ts x' h run = elim (Bool-cases x.engine.halted) [
    | inl stopped ↦
        let nothing : [] ≡ ts = ground (arith, stopped, run) in subst AreApart nothing tt
    | inr going ↦ elim (Option-cases (check_pre_trade o x.risk)) [
      | inl blocked ↦ absurd (ground (arith, blocked, run, going))
      | inr (z, checked) ↦ elim (Bool-cases z.0.approved) [
        | inr refused ↦
            let nothing : [] ≡ ts = ground (arith, going, checked, refused, run) in
            subst AreApart nothing tt
        | inl approved ↦
            execute-AreApart o (record x { risk = z.1 }) x.risk ts x' h
              (unopposed o x.risk z.1 z.0 checked approved)
              (ground (arith, going, checked, approved, run))
      ]
    ]
  ]
