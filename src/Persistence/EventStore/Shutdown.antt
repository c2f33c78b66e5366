-- ===== src/Persistence/EventStore/Shutdown.antt =====
-- The wake-up that `close` can lose: it stores `running_` and notifies without the mutex, between
-- the writer's look at the predicate and its sleep.
use titan_x.Prelude.{◌≡◌, refl, false, [], ◌∷◌, ◌++◌, ◌⊎◌, inl, inr, arith}
use titan_x.Prelude.Floats.{Floats}
use titan_x.Event.OrderEvent.{OrderEvent}
use titan_x.Serialization.Library.{JsonLibrary}
use titan_x.Persistence.Database.{Database}
use titan_x.Persistence.EventStore.{
  parking, sleeping, waking, open_, stopping, notified, joining, EventStore, Step, Reach, pushes,
  notifies, tests, locks, checks, parks, wakes, rechecks, takes, writes, relocks, leaves,
  final_locks, final_writes, finishes, stops, signals, joins, here, next,
}

module _ (F : Floats) (J : JsonLibrary F) (D : Database) where
  -- `close` waits for the writer, who sleeps, and nobody is about to notify.
  pub record IsHung (s : EventStore F J D) : Type 0 where
    pub asleep : s.writer ≡ sleeping
    pub waiting : s.closer ≡ joining
    pub silent : s.notifying ≡ 0

  stays :
      (s t : EventStore F J D)
      → s.writer ≡ sleeping
      → s.closer ≡ joining
      → s.notifying ≡ 0
      → Step F J D s t
      → ((e : OrderEvent) × (t.appended ≡ s.appended ++ e ∷ []))
        ⊎ (t ≡ record s { writer = waking })
  stays s t w c n (pushes x h e) = inl (x, rw e refl)
  stays s t w c n (notifies m h e) = absurd (ground (arith, n, h))
  stays s t w c n (wakes h e) = inr e
  stays s t w c n (tests h e) = absurd (ground (arith, w, h))
  stays s t w c n (locks h e) = absurd (ground (arith, w, h))
  stays s t w c n (checks h e) = absurd (ground (arith, w, h))
  stays s t w c n (parks h e) = absurd (ground (arith, w, h))
  stays s t w c n (rechecks h e) = absurd (ground (arith, w, h))
  stays s t w c n (takes x q h d e) = absurd (ground (arith, w, h))
  stays s t w c n (writes x m h k e) = absurd (ground (arith, w, h))
  stays s t w c n (relocks h e) = absurd (ground (arith, w, h))
  stays s t w c n (leaves h d e) = absurd (ground (arith, w, h))
  stays s t w c n (final_locks h e) = absurd (ground (arith, w, h))
  stays s t w c n (final_writes x q m h d k e) = absurd (ground (arith, w, h))
  stays s t w c n (finishes h d e) = absurd (ground (arith, w, h))
  stays s t w c n (stops h e) = absurd (ground (arith, c, h))
  stays s t w c n (signals h e) = absurd (ground (arith, c, h))
  stays s t w c n (joins h k e) = absurd (ground (arith, w, k))

  -- From a state in which the writer has found nothing to do and is about to sleep, while no append
  -- is under way and `close` was not called, a call of `close` can lead to a hung store; and
  -- nothing but a new append or a spurious wake-up gets a hung store out of its state.
  pub close-IsHung :
      (s : EventStore F J D)
      → s.writer ≡ parking
      → s.closer ≡ open_
      → s.notifying ≡ 0
      → (s' : EventStore F J D) × Reach F J D s s'
        × IsHung s'
        × ((t : EventStore F J D)
            → Step F J D s' t
            → ((e : OrderEvent) × (t.appended ≡ s'.appended ++ e ∷ []))
              ⊎ (t ≡ record s' { writer = waking }))
  close-IsHung s w c n =
      let s1 : EventStore F J D = record s {
        running = false;
        closer = stopping;
        at_stop = s.appended;
      } in
      let s2 : EventStore F J D = record s1 { closer = joining; writer = notified s1.writer } in
      let s3 : EventStore F J D = record s2 { writer = sleeping } in
      (
        s3,
        next (next (next here (stops c refl)) (signals refl refl)) (parks (rw w refl) refl),
        record { asleep = refl; waiting = refl; silent = n },
        λ t st. stays s3 t refl refl n st,
      )
