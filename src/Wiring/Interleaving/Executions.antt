-- ===== src/Wiring/Interleaving/Executions.antt =====
-- What a risk check and an execution keep, when others fall between.
use titan_x.Prelude.{
  ◌≡◌, ◌≢◌, refl, sym, subst, true, false, List, [], ◌∷◌, ◌++◌, some, All, arith, Bool-cases,
  Option-cases, inl, inr, if◌then◌else◌,
}
use titan_x.Prelude.Text.{Text}
use titan_x.Prelude.Map.{lookup}
use titan_x.Model.OrderSide.{OrderSide, buy, sell, is_buy_side}
use titan_x.Model.Order.{Order}
use titan_x.Model.Trade.{Trade}
use titan_x.Risk.RiskEngine.{RiskEngine, RiskResult, has, check_pre_trade}
use titan_x.Risk.RiskEngine.History.{
  Remembers, Remembers-refl, Remembers-trans, has_side, check-Remembers, refused_if_seen,
}
use titan_x.Risk.RiskEngine.OneSide.{IsOneSided, check-IsOneSided}
use titan_x.Engine.MatchingEngine.{MatchingEngine, Exchange, execute}
use titan_x.Engine.MatchingEngine.Soundness.{IsSound, weaken, Remembers-side}
use titan_x.Engine.MatchingEngine.Submission.{execute-IsSound}
use titan_x.Engine.MatchingEngine.SelfTrade.{AreApart, execute-AreApart}
use titan_x.Engine.MatchingEngine.Absence.{IsAbsent, book_of-absent, execute-IsAbsent, execute_inv}
use titan_x.Wiring.{Calls, consumers}
use titan_x.Wiring.Fills.{consumers-IsKeeping}
use titan_x.Wiring.Interleaving.{
  Race, IsWaiting, IsOrderly, on_fill-IsOneSided, without, weaken_all, others,
}

pub unseen-IsAbsent :
    (id : Text) (m : MatchingEngine) (r : RiskEngine)
    → IsSound m r
    → has id r.seen_order_ids ≡ false
    → IsAbsent id m
unseen-IsAbsent id m r h unseen symbol b e = elim (Option-cases (lookup id b.order_index)) [
  | inl d ↦ d
  | inr (o, d) ↦ absurd (ground (arith, (h.known symbol b e).index id o d, unseen))
]

-- The risk engine remembers more, and the engine is as it was.
pub later :
    (x y : Exchange Calls) (o : Order)
    → y.engine.books ≡ x.engine.books
    → Remembers x.risk y.risk
    → IsWaiting x o
    → IsWaiting y o
later x y o e m w = record {
  acceptable = w.acceptable;
  seen = m.ids o.order_id w.seen;
  taken = Remembers-side o.side o.account_id x.risk y.risk m w.taken;
  absent = rw e w.absent;
}

opposed :
    (side : OrderSide) (a : Text) (r : RiskEngine)
    → IsOneSided r
    → has_side side a r ≡ true
    → has_side (if is_buy_side side then sell else buy) a r ≡ false
opposed buy a r h k = h a k
opposed sell a r h k = elim (Bool-cases (has_side buy a r)) [
  | inr e ↦ e
  | inl e ↦ absurd (ground (arith, h a e, k))
]

pub approves-IsOrderly :
    (s : Race) (o : Order) (r : RiskResult) (e : RiskEngine)
    → IsWaiting (record s.exchange { risk = e }) o
    → check_pre_trade o s.exchange.risk ≡ some (r, e)
    → has o.order_id s.exchange.risk.seen_order_ids ≡ false
    → IsOrderly s
    → IsOrderly (record { exchange = record s.exchange { risk = e }; approved = o ∷ s.approved })
approves-IsOrderly s o r e w run unseen h =
    let m = check-Remembers o s.exchange.risk e r run in
    let y : Exchange Calls = record s.exchange { risk = e } in
    record {
      sound = weaken s.exchange.engine s.exchange.risk e m h.sound;
      one_sided = check-IsOneSided o s.exchange.risk e r run h.one_sided;
      waiting = (
        w,
        weaken_all (λ (p : Order). IsWaiting s.exchange p) (λ (p : Order). IsWaiting y p) s.approved
            (λ p v. later s.exchange y p refl m v) h.waiting,
      );
      distinct = (
        weaken_all (λ (p : Order). IsWaiting s.exchange p) (λ (p : Order). o.order_id ≢ p.order_id)
            s.approved
            (λ p v same.
              let seen =
                subst (λ id. has id s.exchange.risk.seen_order_ids ≡ true) (sym same) v.seen in
              absurd (ground (arith, seen, unseen)))
            h.waiting,
        h.distinct,
      );
    }

pub unseen :
    (o : Order) (e e' : RiskEngine) (r : RiskResult)
    → check_pre_trade o e ≡ some (r, e')
    → r.approved ≡ true
    → has o.order_id e.seen_order_ids ≡ false
unseen o e e' r run ok_ = elim (Bool-cases (has o.order_id e.seen_order_ids)) [
  | inl k ↦ absurd (ground (arith, refused_if_seen o e e' r run k, ok_))
  | inr k ↦ k
]

both :
    (P Q R : Order → Type 0) (os : List Order)
    → ((o : Order) → P o → Q o → R o)
    → All P os
    → All Q os
    → All R os
both P Q R [] f h k = tt
both P Q R (o ∷ os) f h k = (f o h.0 k.0, both P Q R os f h.1 k.1)

pub executes-IsOrderly :
    (s : Race) (before after : List Order) (o : Order) (ts : List Trade) (x : Exchange Calls)
    → s.approved ≡ before ++ o ∷ after
    → execute consumers o s.exchange ≡ some (ts, x)
    → IsOrderly s
    → IsOrderly (record { exchange = x; approved = before ++ after })
executes-IsOrderly s before after o ts x at run h =
    let (w, rest) =
      without (λ (p : Order). IsWaiting s.exchange p) before after o (rw at at h.waiting) in
    let (away, apart) = others before after o (rw at at h.distinct) in
    let m : Remembers s.exchange.risk x.risk =
      execute_inv consumers (Remembers s.exchange.risk)
        (λ f at r c z e k. Remembers-trans k (consumers-IsKeeping f at r c z e)) o s.exchange ts x
        run (Remembers-refl s.exchange.risk) in
    record {
      sound =
          execute-IsSound consumers o s.exchange ts x consumers-IsKeeping w.acceptable h.sound
            (book_of-absent o.order_id o.symbol s.exchange.engine w.absent) (w.seen, w.taken) run;
      one_sided =
          execute_inv consumers IsOneSided on_fill-IsOneSided o s.exchange ts x run h.one_sided;
      waiting =
          both (λ (p : Order). IsWaiting s.exchange p) (λ (p : Order). o.order_id ≢ p.order_id)
            (λ (p : Order). IsWaiting x p) (before ++ after)
            (λ p v other. record {
              acceptable = v.acceptable;
              seen = m.ids p.order_id v.seen;
              taken = Remembers-side p.side p.account_id s.exchange.risk x.risk m v.taken;
              absent =
                  execute-IsAbsent consumers p.order_id o s.exchange ts x consumers-IsKeeping
                    h.sound other v.absent run;
            })
            rest away;
      distinct = apart;
    }

-- An order that waits trades with nobody of its own account.
pub executes-AreApart :
    (s : Race) (o : Order) (ts : List Trade) (x : Exchange Calls)
    → IsWaiting s.exchange o
    → execute consumers o s.exchange ≡ some (ts, x)
    → IsOrderly s
    → AreApart ts
executes-AreApart s o ts x w run h =
    execute-AreApart consumers o s.exchange s.exchange.risk ts x h.sound
      (opposed o.side o.account_id s.exchange.risk h.one_sided w.taken) run
