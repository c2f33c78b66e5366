-- ===== src/Persistence/EventStore/Order.antt =====
-- The order of the events, and what `close` waits for.
use titan_x.Prelude.{◌≡◌, Bool, ◌++◌}
use titan_x.Prelude.Results.{ok}
use titan_x.Prelude.Floats.{Floats}
use titan_x.Serialization.Library.{JsonLibrary}
use titan_x.Persistence.Database.{Database, Link}
use titan_x.Persistence.EventStore.{closed, EventStore, start, Reach}
use titan_x.Persistence.EventStore.Invariant.{in_hand, Prefix, replay, Reach-IsConsistent}

module _ (F : Floats) (J : JsonLibrary F) (D : Database) where
  -- In every state that the store can reach, the events that were appended are, in the order in
  -- which they were appended, those that `writeToDb` has handled, then the one that the writer has
  -- taken, then those in the queue; and the database is what `writeToDb` makes of the handled ones
  -- in that order.
  pub Reach-order :
      (l : Link F J D) (s : EventStore F J D)
      → Reach F J D (start F J D l) s
      → (s.appended ≡ s.handed ++ in_hand s.writer ++ s.queue)
        × ((c : Bool) × (replay F J D s.handed l ≡ ok (c, s.db)))
  Reach-order l s r = let v = Reach-IsConsistent F J D l s r in (v.order, (v.stored.0, v.stored.1))

  -- When `close` has returned: `writeToDb` has returned for every event that was appended before
  -- the call, in the order in which they were appended, and the database is what these calls, and
  -- those for later events, make of it. Whether a call wrote its event is not said: it drops one
  -- without a connection, or whose statement fails.
  pub closed-drained :
      (l : Link F J D) (s : EventStore F J D)
      → Reach F J D (start F J D l) s
      → s.closer ≡ closed
      → Prefix s.at_stop s.handed × ((c : Bool) × (replay F J D s.handed l ≡ ok (c, s.db)))
  closed-drained l s r h =
      let v = Reach-IsConsistent F J D l s r in (v.drained (v.joined h), (v.stored.0, v.stored.1))
