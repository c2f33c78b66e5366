-- ===== src/Persistence/EventStore/Work.antt =====
-- The steps that the threads have before them once `close` was called.
use titan_x.Prelude.{
  ℕ, suc, ◌+◌, ◌*◌, ◌≤◌, ◌<◌, ◌≡◌, refl, ap, sym, ◌∙◌, Bool, true, false, List, [], ◌∷◌, ◌++◌,
  length, length-append, All, if◌then◌else◌, arith,
}
use titan_x.Prelude.Floats.{Floats}
use titan_x.Event.OrderEvent.{OrderEvent}
use titan_x.Serialization.Library.{JsonLibrary}
use titan_x.Persistence.Database.{Database}
use titan_x.Persistence.EventStore.{
  Writer, testing, locking, checking, parking, sleeping, waking, draining, writing, relocking,
  final_locking, final_draining, finished, Closer, open_, stopping, joining, closed, EventStore,
  Step, notified, pushes, notifies, tests, locks, checks, parks, wakes, rechecks, takes, writes,
  relocks, leaves, final_locks, final_writes, finishes, stops, signals, joins,
}

-- Neither asleep nor about to sleep.
abbrev pub is_awake : Writer → Bool
is_awake parking = false
is_awake sleeping = false
is_awake _ = true

abbrev pub is_called : Closer → Bool
is_called open_ = false
is_called _ = true

-- The steps from a place of the writer to its end, apart from those for the queue, once `running_` is
-- false.
unfoldable pub distance : Writer → ℕ
distance finished = 0
distance final_draining = 1
distance final_locking = 2
distance testing = 3
distance draining = 4
distance relocking = 5
distance (writing e) = 6
distance checking = 5
distance waking = 6
distance locking = 6
distance parking = 0
distance sleeping = 0

unfoldable pub calls : Closer → ℕ
calls closed = 0
calls joining = 1
calls stopping = 2
calls open_ = 3

notified_awake : (w : Writer) → is_awake w ≡ true → notified w ≡ w
notified_awake testing h = refl
notified_awake locking h = refl
notified_awake checking h = refl
notified_awake parking h = cc
notified_awake sleeping h = cc
notified_awake waking h = refl
notified_awake draining h = refl
notified_awake (writing e) h = refl
notified_awake relocking h = refl
notified_awake final_locking h = refl
notified_awake final_draining h = refl
notified_awake finished h = refl

pub distance_le : (w : Writer) → distance w ≤ 6
unfolding distance
distance_le testing = omega arith
distance_le locking = omega arith
distance_le checking = omega arith
distance_le parking = omega arith
distance_le sleeping = omega arith
distance_le waking = omega arith
distance_le draining = omega arith
distance_le (writing e) = omega arith
distance_le relocking = omega arith
distance_le final_locking = omega arith
distance_le final_draining = omega arith
distance_le finished = omega arith

pub calls_le : (c : Closer) → is_called c ≡ true → calls c ≤ 2
unfolding calls
calls_le open_ h = cc
calls_le stopping h = omega arith
calls_le joining h = omega arith
calls_le closed h = omega arith

longer : (xs : List OrderEvent) (e : OrderEvent) → xs ++ e ∷ [] ≡ xs → length xs < length xs
longer xs e h = omega (arith, length-append xs (e ∷ []), ap length h)

-- What holds of the event that the writer has taken.
abbrev pub InHand : (OrderEvent → Type 0) → Writer → Type 0
InHand P (writing e) = P e
InHand P _ = Unit {0}

InHand-wait : (P : OrderEvent → Type 0) (b : Bool) → InHand P (if b then draining else parking)
InHand-wait P true = tt
InHand-wait P false = tt

module _ (F : Floats) (J : JsonLibrary F) (D : Database) where
  -- `close` was called, and the writer will find `running_` false.
  abbrev pub IsClosing : EventStore F J D → Type 0
  IsClosing s = (s.running ≡ false) × (is_called s.closer ≡ true) × (is_awake s.writer ≡ true)

  unfoldable pub work : EventStore F J D → ℕ
  work s = distance s.writer + 4 * length s.queue + s.notifying + calls s.closer

  abbrev Advances : EventStore F J D → EventStore F J D → Type 0
  Advances s u = IsClosing u × (work u < work s) × (u.at_stop ≡ s.at_stop)

  advance :
      (s u : EventStore F J D)
      → Step F J D s u
      → u.appended ≡ s.appended
      → IsClosing s
      → Advances s u
  unfolding work distance calls
  advance s u (pushes e h k) same c = absurd (
      omega (arith, longer s.appended e (ap (λ (z : EventStore F J D). z.appended) (sym k) ∙ same)))
  advance s u (notifies n h k) same c =
      rw (k, notified_awake s.writer c.2) (c, omega (arith, h), refl)
  advance s u (tests h k) same c = ground (arith, h, k, c)
  advance s u (locks h k) same c = ground (arith, h, k, c)
  advance s u (checks h k) same c = ground (arith, h, k, c)
  advance s u (parks h k) same c = absurd (ground (arith, h, c))
  advance s u (wakes h k) same c = absurd (ground (arith, h, c))
  advance s u (rechecks h k) same c = ground (arith, h, k, c)
  advance s u (takes e q h d k) same c = ground (arith, h, d, k, c)
  advance s u (writes e l h w k) same c = ground (arith, h, k, c)
  advance s u (relocks h k) same c = ground (arith, h, k, c)
  advance s u (leaves h d k) same c = ground (arith, h, d, k, c)
  advance s u (final_locks h k) same c = ground (arith, h, k, c)
  advance s u (final_writes e q l h d w k) same c = ground (arith, h, d, k, c)
  advance s u (finishes h d k) same c = ground (arith, h, d, k, c)
  advance s u (stops h k) same c = absurd (ground (arith, h, c))
  advance s u (signals h k) same c =
      rw (k, notified_awake s.writer c.2) ((c.0, refl, c.2), omega (arith, ap calls h), refl)
  advance s u (joins h w k) same c = ground (arith, h, w, k, c)

  -- Steps without an append.
  pub data Quiet (s : EventStore F J D) : ℕ → EventStore F J D → Type 0 where
    start : Quiet s 0 s
    then_ :
        {n : ℕ} {t u : EventStore F J D}
        → Quiet s n t
        → Step F J D t u
        → u.appended ≡ t.appended
        → Quiet s (suc n) u

  pub quiet_lem :
      (s t : EventStore F J D) (n : ℕ)
      → Quiet s n t
      → IsClosing s
      → IsClosing t × (n + work t ≤ work s) × (t.at_stop ≡ s.at_stop)
  quiet_lem s t n start c = (c, omega arith, refl)
  quiet_lem s u n (then_ {t = t} q st same) c =
      let (d, less, kept) = quiet_lem s t _ q c in
      let (e, less', kept') = advance t u st same d in (e, omega (arith, less, less'), kept' ∙ kept)

  module _ (P : OrderEvent → Type 0) where
    -- The events that are still to be written.
    abbrev pub IsPending : EventStore F J D → Type 0
    IsPending s = All P s.queue × InHand P s.writer

    advance-IsPending :
        (s u : EventStore F J D)
        → Step F J D s u
        → u.appended ≡ s.appended
        → IsClosing s
        → IsPending s
        → IsPending u
    advance-IsPending s u (pushes e h k) same c p = absurd (
        omega
          (arith, longer s.appended e (ap (λ (z : EventStore F J D). z.appended) (sym k) ∙ same)))
    advance-IsPending s u (notifies n h k) same c p = rw (k, notified_awake s.writer c.2) p
    advance-IsPending s u (tests h k) same c p = rw (k, c.0) (p.0, tt)
    advance-IsPending s u (locks h k) same c p = rw k (p.0, tt)
    advance-IsPending s u (checks h k) same c p = rw k (p.0, InHand-wait P _)
    advance-IsPending s u (parks h k) same c p = rw k (p.0, tt)
    advance-IsPending s u (wakes h k) same c p = rw k (p.0, tt)
    advance-IsPending s u (rechecks h k) same c p = rw k (p.0, tt)
    advance-IsPending s u (takes e q h d k) same c p =
        let (first, rest) : P e × All P q = rw d at p.0 in rw k (rest, first)
    advance-IsPending s u (writes e l h w k) same c p = rw k (p.0, tt)
    advance-IsPending s u (relocks h k) same c p = rw k (p.0, tt)
    advance-IsPending s u (leaves h d k) same c p = rw k (p.0, tt)
    advance-IsPending s u (final_locks h k) same c p = rw k (p.0, tt)
    advance-IsPending s u (final_writes e q l h d w k) same c p =
        let (_, rest) : P e × All P q = rw d at p.0 in rw k (rest, p.1)
    advance-IsPending s u (finishes h d k) same c p = rw k (p.0, tt)
    advance-IsPending s u (stops h k) same c p = rw k p
    advance-IsPending s u (signals h k) same c p = rw (k, notified_awake s.writer c.2) p
    advance-IsPending s u (joins h w k) same c p = rw k p

    pub quiet-IsPending :
        (s t : EventStore F J D) (n : ℕ) → Quiet s n t → IsClosing s → IsPending s → IsPending t
    quiet-IsPending s t n start c p = p
    quiet-IsPending s u n (then_ {t = t} q st same) c p =
        let (d, _, _) = quiet_lem s t _ q c in
        advance-IsPending t u st same d (quiet-IsPending s t _ q c p)
