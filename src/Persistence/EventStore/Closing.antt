-- ===== src/Persistence/EventStore/Closing.antt =====
-- How a call of `close` comes to its end.
use titan_x.Prelude.{
  ℕ, ◌+◌, ◌*◌, ◌≤◌, ◌≡◌, ◌⊎◌, inl, inr, refl, true, false, List, [], ◌∷◌, length, All, arith,
}
use titan_x.Prelude.Results.{ok}
use titan_x.Prelude.Floats.{Floats}
use titan_x.Event.OrderEvent.{OrderEvent}
use titan_x.Serialization.Library.{JsonLibrary}
use titan_x.Persistence.Database.{Database, Link, write_to_db}
use titan_x.Persistence.EventStore.{
  Writer, testing, locking, checking, parking, sleeping, waking, draining, writing, relocking,
  final_locking, final_draining, finished, Closer, open_, stopping, joining, closed, EventStore,
  Step, tests, locks, checks, rechecks, takes, writes, relocks, leaves, final_locks, final_writes,
  finishes, signals, joins,
}
use titan_x.Persistence.EventStore.Work.{
  is_awake, is_called, work, distance_le, calls_le, InHand, IsPending, Quiet, quiet_lem,
  quiet-IsPending,
}

module _ (F : Floats) (J : JsonLibrary F) (D : Database) where
  -- A step that is no append.
  abbrev Moves : EventStore F J D → Type 0
  Moves s = (u : EventStore F J D) × Step F J D s u × (u.appended ≡ s.appended)

  -- `writeToDb` returns for an event, whatever the state of the connection and of the database.
  abbrev pub IsPrintable : OrderEvent → Type 0
  IsPrintable e = (l : Link F J D) → (l' : Link F J D) × (write_to_db F J D e l ≡ ok l')

  draining-Moves :
      (q : List OrderEvent) (s : EventStore F J D) → s.queue ≡ q → s.writer ≡ draining → Moves s
  draining-Moves [] s h w = (_, leaves w h refl, refl)
  draining-Moves (e ∷ q) s h w = (_, takes e q w h refl, refl)

  final_draining-Moves :
      (q : List OrderEvent) (s : EventStore F J D)
      → s.queue ≡ q
      → All IsPrintable q
      → s.writer ≡ final_draining
      → Moves s
  final_draining-Moves [] s h p w = (_, finishes w h refl, refl)
  final_draining-Moves (e ∷ q) s h p w =
      let (l, k) = p.0 (s.conn, s.db) in (_, final_writes e q l w h k refl, refl)

  finished-Moves :
      (c : Closer) (s : EventStore F J D)
      → s.closer ≡ c
      → is_called c ≡ true
      → s.writer ≡ finished
      → (s.closer ≡ closed) ⊎ Moves s
  finished-Moves open_ s h k w = cc
  finished-Moves stopping s h k w = inr (_, signals h refl, refl)
  finished-Moves joining s h k w = inr (_, joins h w refl, refl)
  finished-Moves closed s h k w = inl h

  moves :
      (w : Writer) (s : EventStore F J D)
      → s.writer ≡ w
      → is_awake w ≡ true
      → is_called s.closer ≡ true
      → All IsPrintable s.queue
      → InHand IsPrintable w
      → (s.closer ≡ closed) ⊎ Moves s
  moves testing s h a c p q = inr (_, tests h refl, refl)
  moves locking s h a c p q = inr (_, locks h refl, refl)
  moves checking s h a c p q = inr (_, checks h refl, refl)
  moves parking s h a c p q = cc
  moves sleeping s h a c p q = cc
  moves waking s h a c p q = inr (_, rechecks h refl, refl)
  moves draining s h a c p q = inr (draining-Moves s.queue s refl h)
  moves (writing e) s h a c p q =
      let (l, k) = q (s.conn, s.db) in inr (_, writes e l h k refl, refl)
  moves relocking s h a c p q = inr (_, relocks h refl, refl)
  moves final_locking s h a c p q = inr (_, final_locks h refl, refl)
  moves final_draining s h a c p q = inr (final_draining-Moves s.queue s refl p h)
  moves finished s h a c p q = finished-Moves s.closer s refl c h

  -- From a state in which `running_` is false, `close` was called, the writer is neither asleep nor
  -- about to sleep, and `writeToDb` returns for the event that the writer has taken and for every
  -- event in the queue: the threads make at most 4 steps for each queued event, one for each
  -- notification under way and 8 more, in whatever order, while nothing is appended; after each of
  -- them either `close` has returned or a further step is possible; and the record of what was
  -- appended before the call of `close` is kept.
  pub closing-ends :
      (s : EventStore F J D) (n : ℕ) (t : EventStore F J D)
      → s.running ≡ false
      → is_called s.closer ≡ true
      → is_awake s.writer ≡ true
      → IsPending F J D IsPrintable s
      → Quiet F J D s n t
      → (n ≤ 4 * length s.queue + s.notifying + 8)
        × ((t.closer ≡ closed)
            ⊎ ((u : EventStore F J D) × Step F J D t u × (u.appended ≡ t.appended)))
        × (t.at_stop ≡ s.at_stop)
  unfolding work
  closing-ends s n t h k a p q =
      let (c, less, kept) = quiet_lem F J D s t n q (h, k, a) in
      let (r, w) = quiet-IsPending F J D IsPrintable s t n q (h, k, a) p in
      (
        omega (arith, less, distance_le s.writer, calls_le s.closer k),
        moves t.writer t refl c.2 c.1 r w,
        kept,
      )
