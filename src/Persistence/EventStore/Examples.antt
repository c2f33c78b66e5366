-- ===== src/Persistence/EventStore/Examples.antt =====
-- Runs of the event store on a database that keeps every statement, and the properties at them.
use titan_x.Prelude.{
  ◌+◌, ◌*◌, ◌≤◌, length, ◌≡◌, refl, none, ◌⊎◌, Bool, true, false, List, [], ◌∷◌, ◌++◌,
}
use titan_x.Prelude.Int.{pos}
use titan_x.Model.OrderSide.{buy}
use titan_x.Model.OrderType.{limit}
use titan_x.Model.OrderStatus.{pending}
use titan_x.Model.Order.{Order}
use titan_x.Prelude.Text.{Text, codes}
use titan_x.Prelude.Results.{ok}
use titan_x.Event.OrderEvent.{OrderEvent, order_received}
use titan_x.Serialization.Library.{JsonLibrary}
use titan_x.Serialization.Samples.{integers, one_document}
use titan_x.Persistence.Database.{Database, Link, write_to_db}
use titan_x.Persistence.EventStore.{
  EventStore, Step, Reach, start, parking, waking, closed, joining, finished, final_locking, pushes,
  notifies, tests, locks, checks, takes, writes, relocks, leaves, final_locks, final_writes,
  finishes, stops, signals, joins, here, next,
}
use titan_x.Persistence.EventStore.Invariant.{replay, in_hand, Prefix}
use titan_x.Persistence.EventStore.Order.{Reach-order, closed-drained}
use titan_x.Persistence.EventStore.Shutdown.{IsHung, close-IsHung}
use titan_x.Persistence.EventStore.Work.{start as begin, then_}
use titan_x.Persistence.EventStore.Closing.{closing-ends}

abbrev json : JsonLibrary integers
json = one_document [] []

abbrev statements : Database
statements = record {
  State = List (Text × List Text);
  connect = λ db. (true, db);
  exec = λ sql values db. (true, db ++ (sql, values) ∷ []);
}

abbrev Store : Type 0
Store = EventStore integers json statements

abbrev order : Order
order = record {
  order_id = codes "1";
  account_id = codes "ann";
  symbol = codes "AAPL";
  side = buy;
  type = limit;
  price = pos 100000000;
  stop_price = pos 0;
  quantity = pos 7;
  remaining_quantity = pos 7;
  status = pending;
  created_at = 0;
  updated_at = 0;
}

abbrev event : OrderEvent
event = record {
  event_id = codes "e1";
  type = order_received;
  order_id = codes "1";
  account_id = codes "ann";
  symbol = codes "AAPL";
  order_snapshot = order;
  trade = none;
  rejection_reason = [];
  latency_micros = 0;
  occurred_at = 0;
}

writes-return :
    (e : OrderEvent) (l : Link integers json statements)
    → (l' : Link integers json statements) × (write_to_db integers json statements e l ≡ ok l')
unfolding write_to_db
writes-return e (true, db) = (_, refl)
writes-return e (false, db) = (_, refl)

abbrev started : Store
started = start integers json statements (true, [])

-- An append, up to its notification.
abbrev appended : Store
appended = record started { queue = event ∷ []; appended = event ∷ [] }

appended-Reach : Reach integers json statements started appended
unfolding start
appended-Reach = next (next here (pushes event refl refl)) (notifies 0 refl refl)

abbrev written : Link integers json statements
written = (writes-return event (true, [])).0

-- The writer has handled the event and is about to sleep.
abbrev parked : Store
parked = record started {
  writer = parking;
  conn = written.0;
  db = written.1;
  appended = event ∷ [];
  handed = event ∷ [];
}

parked-Reach : Reach integers json statements started parked
unfolding start
parked-Reach =
    let taken =
      next
        (next (next (next appended-Reach (tests refl refl)) (locks refl refl)) (checks refl refl))
        (takes event [] refl refl refl) in
    let done =
      next
        (next (next taken (writes event written refl (writes-return event (true, [])).1 refl))
          (relocks refl refl))
        (leaves refl refl refl) in
    next (next (next done (tests refl refl)) (locks refl refl)) (checks refl refl)

Reach-order_example :
    (parked.appended ≡ parked.handed ++ in_hand parked.writer ++ parked.queue)
    × ((c : Bool) × (replay integers json statements parked.handed (true, []) ≡ ok (c, parked.db)))
Reach-order_example = Reach-order integers json statements (true, []) parked parked-Reach

close-IsHung_example :
    (s : Store) × Reach integers json statements parked s
    × IsHung integers json statements s
    × ((t : Store)
        → Step integers json statements s t
        → ((e : OrderEvent) × (t.appended ≡ s.appended ++ e ∷ []))
          ⊎ (t ≡ record s { writer = waking }))
unfolding start
close-IsHung_example = close-IsHung integers json statements parked refl refl refl

-- `close` is called while the event is in the queue.
abbrev stopping_early : Store
stopping_early = record appended { running = false; closer = joining; at_stop = event ∷ [] }

-- The writer finds `running_` false.
abbrev told : Store
told = record stopping_early { writer = final_locking }

closing-ends_example :
    (1 ≤ 4 * length stopping_early.queue + stopping_early.notifying + 8)
    × ((told.closer ≡ closed)
        ⊎ ((u : Store) × Step integers json statements told u × (u.appended ≡ told.appended)))
    × (told.at_stop ≡ stopping_early.at_stop)
unfolding start
closing-ends_example =
    closing-ends integers json statements stopping_early 1 told refl refl refl
      ((writes-return event, tt), tt) (then_ begin (tests refl refl) refl)

abbrev ended : Store
ended = record appended {
  queue = [];
  running = false;
  writer = finished;
  closer = closed;
  conn = false;
  db = written.1;
  handed = event ∷ [];
  at_stop = event ∷ [];
}

ended-Reach : Reach integers json statements started ended
unfolding start
ended-Reach =
    let stopped = next (next appended-Reach (stops refl refl)) (signals refl refl) in
    let drained = next (next stopped (tests refl refl)) (final_locks refl refl) in
    next
      (next
        (next drained
          (final_writes event [] written refl refl (writes-return event (true, [])).1 refl))
        (finishes refl refl refl))
      (joins refl refl refl)

closed-drained_example :
    Prefix ended.at_stop ended.handed
    × ((c : Bool) × (replay integers json statements ended.handed (true, []) ≡ ok (c, ended.db)))
closed-drained_example = closed-drained integers json statements (true, []) ended ended-Reach refl
