-- ===== src/Persistence/EventStore.antt =====
-- class EventStore (backend/src/persistence/EventStore.cpp) as a system of threads: those that
-- append, the writer, and the one that closes. A step is what happens without another thread seeing
-- anything between; the mutex is held by the writer where `holds` says so, and an append holds it
-- for one step. A condition variable wakes a sleeping waiter when it is notified, and may wake it
-- at any time. A second call of `close`, by the destructor, finds the thread joined and the
-- connection gone. `appended`, `handed` and `at_stop` are no fields of the class: they record what
-- was appended, what `writeToDb` has returned from, and what was appended when `close` stored
-- `running_`.
pub mod Invariant
pub mod Order
pub mod Shutdown
pub mod Work
pub mod Closing
mod Examples
use titan_x.Prelude.{ℕ, suc, ◌≡◌, Bool, true, false, not, ◌||◌, List, [], ◌∷◌, ◌++◌, if◌then◌else◌}
use titan_x.Prelude.Results.{ok}
use titan_x.Prelude.Floats.{Floats}
use titan_x.Event.OrderEvent.{OrderEvent}
use titan_x.Serialization.Library.{JsonLibrary}
use titan_x.Persistence.Database.{Database, Link, write_to_db}

-- Where the writer's thread stands in `writerLoop`.
pub data Writer : Type 0 where
  -- at the test of the outer loop, and before its lock
  testing : Writer
  locking : Writer
  -- in `wait`: before the predicate, between a false predicate and sleep, asleep, and woken up
  checking : Writer
  parking : Writer
  sleeping : Writer
  waking : Writer
  -- at the test of the inner loop, in `writeToDb` with the lock released, and before the new lock
  draining : Writer
  writing : OrderEvent → Writer
  relocking : Writer
  -- after the loop: before the lock, and at the test of the last loop
  final_locking : Writer
  final_draining : Writer
  finished : Writer

-- Where `close` stands: not called, before the notification, before the join, and done.
pub data Closer : Type 0 where
  open_ : Closer
  stopping : Closer
  joining : Closer
  closed : Closer

abbrev pub holds : Writer → Bool
holds checking = true
holds parking = true
holds draining = true
holds final_draining = true
holds _ = false

-- `notify_one`
abbrev pub notified : Writer → Writer
notified sleeping = waking
notified w = w

abbrev pub is_empty : List OrderEvent → Bool
is_empty [] = true
is_empty (e ∷ q) = false

module _ (F : Floats) (J : JsonLibrary F) (D : Database) where
  pub record EventStore : Type 0 where
    pub queue : List OrderEvent
    pub running : Bool
    pub writer : Writer
    pub closer : Closer
    -- the appends that have pushed and not yet notified
    pub notifying : ℕ
    pub conn : Bool
    pub db : D.State
    pub appended : List OrderEvent
    pub handed : List OrderEvent
    pub at_stop : List OrderEvent

  -- The constructor, after its attempt to connect.
  unfoldable pub start : Link F J D → EventStore
  start l = record {
    queue = [];
    running = true;
    writer = testing;
    closer = open_;
    notifying = 0;
    conn = l.0;
    db = l.1;
    appended = [];
    handed = [];
    at_stop = [];
  }

  -- The constructor `EventStore(connString)`: an attempt to connect, and the writer's thread.
  unfoldable pub open_store : D.State → EventStore
  unfolding start
  open_store st = start (D.connect st)

  pub data Step (s s' : EventStore) : Type 0 where
    -- `append`
    pushes :
        (e : OrderEvent)
        → holds s.writer ≡ false
        → s' ≡ record s {
          queue = s.queue ++ e ∷ [];
          appended = s.appended ++ e ∷ [];
          notifying = suc s.notifying;
        }
        → Step s s'
    notifies :
        (n : ℕ)
        → s.notifying ≡ suc n
        → s' ≡ record s { notifying = n; writer = notified s.writer }
        → Step s s'
    -- `writerLoop`
    tests :
        s.writer ≡ testing
        → s' ≡ record s { writer = if s.running then locking else final_locking }
        → Step s s'
    locks : s.writer ≡ locking → s' ≡ record s { writer = checking } → Step s s'
    checks :
        s.writer ≡ checking
        → s' ≡ record s {
          writer = if not (is_empty s.queue) || not s.running then draining else parking;
        }
        → Step s s'
    parks : s.writer ≡ parking → s' ≡ record s { writer = sleeping } → Step s s'
    wakes : s.writer ≡ sleeping → s' ≡ record s { writer = waking } → Step s s'
    rechecks : s.writer ≡ waking → s' ≡ record s { writer = checking } → Step s s'
    takes :
        (e : OrderEvent) (q : List OrderEvent)
        → s.writer ≡ draining
        → s.queue ≡ e ∷ q
        → s' ≡ record s { queue = q; writer = writing e }
        → Step s s'
    writes :
        (e : OrderEvent) (l : Link F J D)
        → s.writer ≡ writing e
        → write_to_db F J D e (s.conn, s.db) ≡ ok l
        → s' ≡ record s { conn = l.0; db = l.1; handed = s.handed ++ e ∷ []; writer = relocking }
        → Step s s'
    relocks : s.writer ≡ relocking → s' ≡ record s { writer = draining } → Step s s'
    leaves : s.writer ≡ draining → s.queue ≡ [] → s' ≡ record s { writer = testing } → Step s s'
    final_locks : s.writer ≡ final_locking → s' ≡ record s { writer = final_draining } → Step s s'
    final_writes :
        (e : OrderEvent) (q : List OrderEvent) (l : Link F J D)
        → s.writer ≡ final_draining
        → s.queue ≡ e ∷ q
        → write_to_db F J D e (s.conn, s.db) ≡ ok l
        → s' ≡ record s { conn = l.0; db = l.1; handed = s.handed ++ e ∷ []; queue = q }
        → Step s s'
    finishes :
        s.writer ≡ final_draining → s.queue ≡ [] → s' ≡ record s { writer = finished } → Step s s'
    -- `close`
    stops :
        s.closer ≡ open_
        → s' ≡ record s { running = false; closer = stopping; at_stop = s.appended }
        → Step s s'
    signals :
        s.closer ≡ stopping
        → s' ≡ record s { closer = joining; writer = notified s.writer }
        → Step s s'
    joins :
        s.closer ≡ joining
        → s.writer ≡ finished
        → s' ≡ record s { closer = closed; conn = false }
        → Step s s'

  pub data Reach (s : EventStore) : EventStore → Type 0 where
    here : Reach s s
    next : {t u : EventStore} → Reach s t → Step t u → Reach s u
