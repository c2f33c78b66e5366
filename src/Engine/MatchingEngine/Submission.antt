-- ===== src/Engine/MatchingEngine/Submission.antt =====
-- `submit` keeps the invariant of the engine.
use titan_x.Prelude.{
  ℕ, ◌-◌, ◌/◌, ◌≡◌, refl, sym, ap, true, false, List, [], ◌∷◌, none, some, arith, Bool-cases,
  Option-cases, inl, inr, >>=-eq-some, subst,
}
use titan_x.Prelude.Map.{lookup, insert}
use titan_x.Model.World.{now}
use titan_x.Model.Order.{Order}
use titan_x.Model.Trade.{Trade}
use titan_x.Event.OrderEvent
use titan_x.Event.FillEvent
use titan_x.Event.FillEvent.{FillEvent}
use titan_x.Risk.RiskEngine.{RiskEngine, has, check_pre_trade}
use titan_x.Risk.RiskEngine.History.{
  Remembers, has_side, Remembers-trans, Remembers-refl, check-Remembers, approved_records,
  refused_if_seen,
}
use titan_x.Engine.OrderBook
use titan_x.Engine.OrderBook.{OrderBook}
use titan_x.Engine.OrderBook.Validity.{IsValid}
use titan_x.Engine.OrderBook.Match.{match-IsValid}
use titan_x.Engine.OrderBook.Contents.{HasOnly, match-HasOnly, HasOnly-weaken}
use titan_x.Engine.MatchingEngine.{
  MatchingEngine, Exchange, Consumers, book_of, get_or_create, emit, report_fills, settle, execute,
  submit, is_limit,
}
use titan_x.Engine.MatchingEngine.Soundness.{
  Known, IsSound, IsAcceptable, Remembers-Known, book_of-IsValid, book_of-HasOnly, weaken,
  with_book, no_triggers,
}

-- The fill consumer takes nothing off the risk engine's record.
abbrev pub IsKeeping : {S : Type 0} → Consumers S → Type 0
IsKeeping {S} c =
    (f : FillEvent) (at : ℕ) (r : RiskEngine) (s : S) (z : RiskEngine × S)
    → c.on_fill f at (r, s) ≡ some z
    → Remembers r z.0

-- An id that the risk engine has not seen is in no book.
pub fresh_lem :
    (o : Order) (m : MatchingEngine) (r : RiskEngine)
    → IsSound m r
    → has o.order_id r.seen_order_ids ≡ false
    → lookup o.order_id (book_of o.symbol m).order_index ≡ none
fresh_lem o m r h unseen =
    let b = book_of o.symbol m in
    elim (Option-cases (lookup o.order_id b.order_index)) [
      | inl e ↦ e
      | inr (p, e) ↦
          absurd (ground (arith, (book_of-HasOnly o.symbol m r h).index o.order_id p e, unseen))
    ]

module _ {S : Type 0} (c : Consumers S) where
  pub report_fills-Remembers :
      (o : Order) (l : ℕ) (ts : List Trade) (x x' : Exchange S)
      → IsKeeping c
      → report_fills c o l ts x ≡ some x'
      → (x'.engine ≡ x.engine) × Remembers x.risk x'.risk
  unfolding report_fills emit
  report_fills-Remembers o l [] x x' k h =
      let same : x' ≡ x = ground (arith, h) in rw same (refl, Remembers-refl x.risk)
  report_fills-Remembers o l (t ∷ ts) x x' k h =
      let fill = FillEvent.create t l x.world in
      let at = now fill.1 in
      elim (Option-cases (c.on_fill fill.0 at.0 (x.risk, x.outside))) [
        | inl e ↦ absurd (ground (arith, e, h))
        | inr (r, e) ↦
            let next : Exchange S =
              emit c (OrderEvent.filled o t)
                (record x { risk = r.0; outside = r.1; world = at.1 }) in
            let ih = report_fills-Remembers o l ts next x' k (rw (e, report_fills) at h) in
            (ih.0, Remembers-trans (k fill.0 at.0 x.risk x.outside r e) ih.1)
      ]

  settle-IsSound :
      (o : Order) (b : OrderBook) (ts : List Trade) (x : Exchange S)
      → IsSound x.engine x.risk
      → IsValid b
      → HasOnly (Known x.risk) b
      → IsSound (settle c o b ts x).engine (settle c o b ts x).risk
  unfolding settle emit
  settle-IsSound o b [] x h v k = elim (Bool-cases (is_limit o.type)) [
    | inl e ↦ rw e h
    | inr e ↦ rw e h
  ]
  settle-IsSound o b (t ∷ ts) x h v k =
      with_book x.engine _ x.risk o.symbol b h v k
        (ap (λ z. insert o.symbol z.0 x.engine.books)
          (no_triggers o.symbol b x.world x.engine.stop_orders h.no_stops))
        (ap (λ z. z.1) (no_triggers o.symbol b x.world x.engine.stop_orders h.no_stops))

  -- An order on record whose id is not in its book.
  pub execute-IsSound :
      (o : Order) (x : Exchange S) (ts : List Trade) (x' : Exchange S)
      → IsKeeping c
      → IsAcceptable o
      → IsSound x.engine x.risk
      → lookup o.order_id (book_of o.symbol x.engine).order_index ≡ none
      → (has o.order_id x.risk.seen_order_ids ≡ true) × (has_side o.side o.account_id x.risk ≡ true)
      → execute c o x ≡ some (ts, x')
      → IsSound x'.engine x'.risk
  unfolding execute get_or_create emit
  execute-IsSound o x ts x' k a now_sound fresh seen run =
      let b = book_of o.symbol x.engine in
      let m = (get_or_create o.symbol x.engine).1 in
      let x1 = emit c (OrderEvent.received o) (record x { engine = m }) in
      let started = now x1.world in
      let matched = OrderBook.match o b started.1 in
      let ended = now matched.2 in
      let x2 : Exchange S = record x1 {
        engine = record m { books = insert o.symbol matched.1 m.books };
        world = ended.1;
      } in
      let l = (ended.0 - started.0) / 1000 in
      let v = book_of-IsValid o.symbol x.engine x.risk now_sound in
      let known = book_of-HasOnly o.symbol x.engine x.risk now_sound in
      let valid = match-IsValid o b started.1 v a.small fresh a.priced_ioc in
      let contents =
        match-HasOnly (Known x.risk) o b started.1 (λ e. (seen.0, a.priced_limit e, seen.1))
          (λ e. (seen.0, a.priced_ioc e, seen.1)) known in
      let opened =
        with_book x.engine m x.risk o.symbol b now_sound v known refl now_sound.no_stops in
      let traded =
        with_book m x2.engine x.risk o.symbol matched.1 opened valid contents refl
          now_sound.no_stops in
      let (x3, e, f) =
        >>=-eq-some (report_fills c o l matched.0 x2)
          (λ x3. some (matched.0, settle c o matched.1 matched.0 x3)) run in
      let r = report_fills-Remembers o l matched.0 x2 x3 k e in
      let reported =
        weaken x3.engine x.risk x3.risk r.1 (subst (λ m. IsSound m x.risk) (sym r.0) traded) in
      let same : settle c o matched.1 matched.0 x3 ≡ x' = ground (arith, f) in
      subst (λ (z : Exchange S). IsSound z.engine z.risk) same
        (settle-IsSound o matched.1 matched.0 x3 reported valid (
          HasOnly-weaken (Known x.risk) (Known x3.risk) matched.1
            (Remembers-Known x.risk x3.risk r.1) contents))

  -- In a sound engine, an order of acceptable price and quantity leaves a sound engine: every book
  -- is valid, and holds only ids that the risk engine has seen, prices other than 0 and accounts on
  -- record for their side. The fill consumer must take nothing off the risk engine's record.
  pub submit-IsSound :
      (o : Order) (x : Exchange S) (ts : List Trade) (x' : Exchange S)
      → IsKeeping c
      → IsAcceptable o
      → IsSound x.engine x.risk
      → submit c o x ≡ some (ts, x')
      → IsSound x'.engine x'.risk
  unfolding submit emit
  submit-IsSound o x ts x' k a h run = elim (Bool-cases x.engine.halted) [
    | inl stopped ↦
        let both : (x'.engine ≡ x.engine) × (x'.risk ≡ x.risk) = ground (arith, stopped, run) in
        rw (both.0, both.1) h
    | inr going ↦ elim (Option-cases (check_pre_trade o x.risk)) [
      | inl blocked ↦ absurd (ground (arith, blocked, run, going))
      | inr (z, checked) ↦
          let keeps = check-Remembers o x.risk z.1 z.0 checked in
          elim (Bool-cases z.0.approved) [
            | inr refused ↦
                let both : (x'.engine ≡ x.engine) × (x'.risk ≡ z.1) =
                  ground (arith, going, checked, refused, run) in
                rw (both.0, both.1) (weaken x.engine x.risk z.1 keeps h)
            | inl approved ↦
                let unseen : has o.order_id x.risk.seen_order_ids ≡ false =
                  elim (Bool-cases (has o.order_id x.risk.seen_order_ids)) [
                    | inl e ↦
                        absurd
                          (ground (arith, refused_if_seen o x.risk z.1 z.0 checked e, approved))
                    | inr e ↦ e
                  ] in
                let seen = approved_records o x.risk z.1 z.0 checked approved in
                execute-IsSound o (record x { risk = z.1 }) ts x' k a
                  (weaken x.engine x.risk z.1 keeps h) (fresh_lem o x.engine x.risk h unseen) seen
                  (ground (arith, going, checked, approved, run))
          ]
    ]
  ]
