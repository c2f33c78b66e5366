-- ===== src/Wiring/Interleaving/Safety.antt =====
-- What interleaved submissions keep, and the accounts of their trades.
use titan_x.Prelude.{◌≡◌, refl, sym, subst, [], All, All-append}
use titan_x.Prelude.Text.{Text}
use titan_x.Prelude.Map.{lookup}
use titan_x.Model.World.{World}
use titan_x.Model.Order.{Order}
use titan_x.Risk.CircuitBreaker.{CircuitBreaker}
use titan_x.Risk.RiskEngine
use titan_x.Risk.RiskEngine.{RiskEngine, RiskResult, has, check_pre_trade}
use titan_x.Risk.RiskEngine.History.{Remembers, Remembers-refl, check-Remembers, approved_records}
use titan_x.Risk.RiskEngine.OneSide.{IsOneSided, check-IsOneSided}
use titan_x.Engine.MatchingEngine.{Exchange, init, emit, cancel, halt, resume}
use titan_x.Engine.MatchingEngine.Soundness.{weaken}
use titan_x.Engine.MatchingEngine.Cancellation.{cancel-IsSound}
use titan_x.Engine.MatchingEngine.Absence.{cancel-IsAbsent}
use titan_x.Wiring.{Calls, no_calls, consumers, on_event}
use titan_x.Wiring.Journal.{Tells-execute}
use titan_x.Wiring.SelfTrade.{HasTwo, published-HasTwo}
use titan_x.Wiring.Interleaving.{
  Race, Step, Reach, approves, refuses, executes, cancels, turns_away, halts, resumes, breaks,
  reads, here, next, IsWaiting, IsOrderly, without, weaken_all,
}
use titan_x.Wiring.Interleaving.Executions.{
  unseen-IsAbsent, later, approves-IsOrderly, unseen, executes-IsOrderly, executes-AreApart,
}

-- What is kept, with the accounts of every trade that was published.
record IsSafe (s : Race) : Type 0 where
  orderly : IsOrderly s
  apart : All HasTwo s.exchange.outside.published

-- Where the books stay, and the risk engine remembers what it did.
kept-IsSafe :
    (s : Race) (y : Exchange Calls)
    → y.engine.books ≡ s.exchange.engine.books
    → y.engine.stop_orders ≡ s.exchange.engine.stop_orders
    → Remembers s.exchange.risk y.risk
    → IsOneSided y.risk
    → y.outside.published ≡ s.exchange.outside.published
    → IsSafe s
    → IsSafe (record s { exchange = y })
kept-IsSafe s y books stops m apart published h =
    let w = weaken s.exchange.engine s.exchange.risk y.risk m h.orderly.sound in
    record {
      orderly = record {
        sound = record {
          valid = rw books w.valid;
          known = rw books w.known;
          no_stops = rw stops w.no_stops;
        };
        one_sided = apart;
        waiting =
            weaken_all (λ (p : Order). IsWaiting s.exchange p) (λ (p : Order). IsWaiting y p)
              s.approved (λ p v. later s.exchange y p books m v) h.orderly.waiting;
        distinct = h.orderly.distinct;
      };
      apart = rw published h.apart;
    }

cancels-IsSafe :
    (s : Race) (symbol id : Text)
    → IsSafe s
    → IsSafe (record s {
      exchange = record s.exchange { engine = (cancel symbol id s.exchange.engine).1 };
    })
cancels-IsSafe s symbol id h =
    let m = (cancel symbol id s.exchange.engine).1 in
    let y : Exchange Calls = record s.exchange { engine = m } in
    record {
      orderly = record {
        sound = cancel-IsSound symbol id s.exchange.engine s.exchange.risk h.orderly.sound;
        one_sided = h.orderly.one_sided;
        waiting =
            weaken_all (λ (p : Order). IsWaiting s.exchange p) (λ (p : Order). IsWaiting y p)
              s.approved
              (λ p v. record {
                acceptable = v.acceptable;
                seen = v.seen;
                taken = v.taken;
                absent =
                    cancel-IsAbsent p.order_id symbol id s.exchange.engine s.exchange.risk
                      h.orderly.sound v.absent;
              })
              h.orderly.waiting;
        distinct = h.orderly.distinct;
      };
      apart = h.apart;
    }

Step-IsSafe : (s t : Race) → Step s t → IsSafe s → IsSafe t
unfolding emit consumers on_event halt resume
Step-IsSafe s t (approves o r e a run yes_ k) h =
    let (seen, taken) = approved_records o s.exchange.risk e r run yes_ in
    let new = unseen o s.exchange.risk e r run yes_ in
    rw k (record {
      orderly =
          approves-IsOrderly s o r e
            (record {
              acceptable = a;
              seen = seen;
              taken = taken;
              absent =
                  unseen-IsAbsent o.order_id s.exchange.engine s.exchange.risk h.orderly.sound new;
            })
            run new h.orderly;
      apart = h.apart;
    })
Step-IsSafe s t (refuses o r e run k) h = rw k (
    kept-IsSafe s _ refl refl (check-Remembers o s.exchange.risk e r run)
      (check-IsOneSided o s.exchange.risk e r run h.orderly.one_sided) refl h)
Step-IsSafe s t (executes before after o ts x at run k) h =
    let (w, _) =
      without (λ (p : Order). IsWaiting s.exchange p) before after o (rw at at h.orderly.waiting) in
    rw k (record {
      orderly = executes-IsOrderly s before after o ts x at run h.orderly;
      apart =
          subst (λ ms. All HasTwo ms) (sym (Tells-execute o s.exchange ts x run).messages)
            (All-append HasTwo s.exchange.outside.published _ h.apart
              (published-HasTwo ts (executes-AreApart s o ts x w run h.orderly)));
    })
Step-IsSafe s t (cancels symbol id k) h = rw k (cancels-IsSafe s symbol id h)
Step-IsSafe s t (turns_away o halted k) h =
    rw k (kept-IsSafe s _ refl refl (Remembers-refl s.exchange.risk) h.orderly.one_sided refl h)
Step-IsSafe s t (halts k) h =
    rw k (kept-IsSafe s _ refl refl (Remembers-refl s.exchange.risk) h.orderly.one_sided refl h)
Step-IsSafe s t (resumes k) h =
    rw k (kept-IsSafe s _ refl refl (Remembers-refl s.exchange.risk) h.orderly.one_sided refl h)
Step-IsSafe s t (breaks c k) h = rw k (
    kept-IsSafe s _ refl refl (record { ids = λ id v. v; buys = λ a v. v; sells = λ a v. v })
      h.orderly.one_sided refl h)
Step-IsSafe s t (reads w k) h =
    rw k (kept-IsSafe s _ refl refl (Remembers-refl s.exchange.risk) h.orderly.one_sided refl h)

-- Before the first order.
abbrev pub start : CircuitBreaker → World → Race
start b w = record {
  exchange = record { engine = init; risk = RiskEngine.init b; outside = no_calls; world = w };
  approved = [];
}

start-IsSafe : (b : CircuitBreaker) (w : World) → IsSafe (start b w)
unfolding lookup
start-IsSafe b w = record {
  orderly = record {
    sound = record { valid = λ t c h. cc; known = λ t c h. cc; no_stops = refl };
    one_sided = λ a h. cc;
    waiting = tt;
    distinct = tt;
  };
  apart = tt;
}

Reach-IsSafe : (s t : Race) → Reach s t → IsSafe s → IsSafe t
Reach-IsSafe s t here h = h
Reach-IsSafe s u (next {t = t} r st) h = Step-IsSafe t u st (Reach-IsSafe s t r h)

-- However the risk checks and the executions of orders with an acceptable quantity and price, and
-- cancellations, switches of the engine and of the breaker, fall between one another, from an
-- engine without books: the engine stays sound; no account has taken both sides; each order that
-- was approved and not yet executed is acceptable, is on record with its account and is in no book,
-- and no two of these share an identifier; and no trade that was ever published has the same
-- account on both sides.
pub start-HasTwo :
    (b : CircuitBreaker) (w : World) (s : Race)
    → Reach (start b w) s
    → IsOrderly s × All HasTwo s.exchange.outside.published
start-HasTwo b w s r =
    let h = Reach-IsSafe (start b w) s r (start-IsSafe b w) in (h.orderly, h.apart)
