-- ===== src/Persistence/EventStore/Invariant.antt =====
-- What holds in every state that the event store can reach.
use titan_x.Prelude.{
  ◌≡◌, ◌≢◌, refl, sym, ap, ◌∙◌, Bool, true, false, List, [], ◌∷◌, ◌++◌, append_assoc, append-nil,
  arith, inl, inr, not, ◌||◌, if◌then◌else◌,
}
use titan_x.Prelude.Results.{Result, ok, ◌>>=◌, Result-cases}
use titan_x.Prelude.Floats.{Floats}
use titan_x.Event.OrderEvent.{OrderEvent}
use titan_x.Serialization.Library.{JsonLibrary}
use titan_x.Persistence.Database.{Database, Link, write_to_db}
use titan_x.Persistence.EventStore.{
  Writer, testing, locking, checking, parking, sleeping, waking, draining, is_empty, writing,
  final_locking, final_draining, finished, open_, closed, notified, EventStore, start, Step, Reach,
  pushes, notifies, tests, locks, checks, parks, wakes, rechecks, takes, writes, relocks, leaves,
  final_locks, final_writes, finishes, stops, signals, joins, here, next,
}

-- The event that the writer has taken off the queue.
abbrev pub in_hand : Writer → List OrderEvent
in_hand (writing e) = e ∷ []
in_hand _ = []

abbrev pub Prefix : List OrderEvent → List OrderEvent → Type 0
Prefix xs ys = (zs : List OrderEvent) × (ys ≡ xs ++ zs)

-- The writer has left its loop.
abbrev pub is_last : Writer → Bool
is_last final_locking = true
is_last final_draining = true
is_last finished = true
is_last _ = false

in_hand-notified : (w : Writer) → in_hand (notified w) ≡ in_hand w
in_hand-notified w = ground arith

is_last-notified : (w : Writer) → is_last (notified w) ≡ is_last w
is_last-notified w = ground arith

notified_finished : (w : Writer) → notified w ≡ finished → w ≡ finished
notified_finished w h = ground arith

Prefix-append : (xs ys zs : List OrderEvent) → Prefix xs ys → Prefix xs (ys ++ zs)
Prefix-append xs ys zs (ws, e) = (ws ++ zs, ap (λ vs. vs ++ zs) e ∙ append_assoc xs ws zs)

module _ (F : Floats) (J : JsonLibrary F) (D : Database) where
  -- The calls of `writeToDb` on the events, in turn.
  unfoldable pub replay : List OrderEvent → Link F J D → Result (Link F J D)
  replay [] l = ok l
  replay (e ∷ es) l = do l' ← write_to_db F J D e l; replay es l'

  replay-append :
      (es : List OrderEvent) (e : OrderEvent) (l m n : Link F J D)
      → replay es l ≡ ok m
      → write_to_db F J D e m ≡ ok n
      → replay (es ++ e ∷ []) l ≡ ok n
  unfolding replay
  replay-append [] e l m n h k = ground (arith, h, k)
  replay-append (x ∷ es) e l m n h k = elim (Result-cases (write_to_db F J D x l)) [
    | inl (what, a) ↦ absurd (ground (arith, h, a))
    | inr (l', a) ↦ rw a (replay-append es e l' m n (rw a at h) k)
  ]

  pub record IsConsistent (l : Link F J D) (s : EventStore F J D) : Type 0 where
    pub order : s.appended ≡ s.handed ++ in_hand s.writer ++ s.queue
    pub stored : (c : Bool) × (replay s.handed l ≡ ok (c, s.db)) × (s.closer ≢ closed → c ≡ s.conn)
    pub stopped : Prefix s.at_stop s.appended
    pub ending : is_last s.writer ≡ true → s.closer ≢ open_
    pub drained : s.writer ≡ finished → Prefix s.at_stop s.handed
    pub running : s.running ≡ false → s.closer ≢ open_
    pub joined : s.closer ≡ closed → s.writer ≡ finished

  start-IsConsistent : (l : Link F J D) → IsConsistent l (start F J D l)
  unfolding start replay
  start-IsConsistent l = record {
    order = refl;
    stored = (l.0, refl, λ h. refl);
    stopped = ([], refl);
    ending = λ h. cc;
    drained = λ h. cc;
    running = λ h. cc;
    joined = λ h. cc;
  }

  -- The writer goes on, with the same event in its hand, if any.
  walks-IsConsistent :
      (l : Link F J D) (s : EventStore F J D) (w : Writer)
      → in_hand w ≡ in_hand s.writer
      → (is_last w ≡ true → s.closer ≢ open_)
      → w ≢ finished
      → s.writer ≢ finished
      → IsConsistent l s
      → IsConsistent l (record s { writer = w })
  walks-IsConsistent l s w same last awake was v = record {
    order = rw same v.order;
    stored = v.stored;
    stopped = v.stopped;
    ending = last;
    drained = λ k. absurd (awake k);
    running = v.running;
    joined = λ k. absurd (was (v.joined k));
  }

  Step-IsConsistent :
      (l : Link F J D) (s s' : EventStore F J D)
      → Step F J D s s'
      → IsConsistent l s
      → IsConsistent l s'
  Step-IsConsistent l s s' (pushes x h e) v = rw e (record {
    order = ground (arith, v.order, append_assoc (s.handed ++ in_hand s.writer) s.queue (x ∷ []));
    stored = v.stored;
    stopped = Prefix-append s.at_stop s.appended (x ∷ []) v.stopped;
    ending = v.ending;
    drained = v.drained;
    running = v.running;
    joined = v.joined;
  })
  Step-IsConsistent l s s' (notifies n h e) v = rw e (record {
    order = rw (in_hand-notified s.writer) v.order;
    stored = v.stored;
    stopped = v.stopped;
    ending = rw (is_last-notified s.writer) v.ending;
    drained = λ k. v.drained (notified_finished s.writer k);
    running = v.running;
    joined = λ k. rw (v.joined k) refl;
  })
  Step-IsConsistent l s s' (tests h e) v = rw e (
      walks-IsConsistent l s (if s.running then locking else final_locking) (ground (arith, h))
        (λ k. ground (arith, v.ending, h)) (λ k. ground (arith, h, k)) (λ k. ground (arith, h, k))
        v)
  Step-IsConsistent l s s' (locks h e) v = rw e (
      walks-IsConsistent l s checking (ground (arith, h)) (λ k. ground (arith, v.ending, h))
        (λ k. ground (arith, h, k)) (λ k. ground (arith, h, k)) v)
  Step-IsConsistent l s s' (checks h e) v = rw e (
      walks-IsConsistent l s (if not (is_empty s.queue) || not s.running then draining else parking)
        (ground (arith, h)) (λ k. ground (arith, v.ending, h)) (λ k. ground (arith, h, k))
        (λ k. ground (arith, h, k)) v)
  Step-IsConsistent l s s' (parks h e) v = rw e (
      walks-IsConsistent l s sleeping (ground (arith, h)) (λ k. ground (arith, v.ending, h))
        (λ k. ground (arith, h, k)) (λ k. ground (arith, h, k)) v)
  Step-IsConsistent l s s' (wakes h e) v = rw e (
      walks-IsConsistent l s waking (ground (arith, h)) (λ k. ground (arith, v.ending, h))
        (λ k. ground (arith, h, k)) (λ k. ground (arith, h, k)) v)
  Step-IsConsistent l s s' (rechecks h e) v = rw e (
      walks-IsConsistent l s checking (ground (arith, h)) (λ k. ground (arith, v.ending, h))
        (λ k. ground (arith, h, k)) (λ k. ground (arith, h, k)) v)
  Step-IsConsistent l s s' (relocks h e) v = rw e (
      walks-IsConsistent l s draining (ground (arith, h)) (λ k. ground (arith, v.ending, h))
        (λ k. ground (arith, h, k)) (λ k. ground (arith, h, k)) v)
  Step-IsConsistent l s s' (final_locks h e) v = rw e (
      walks-IsConsistent l s final_draining (ground (arith, h)) (λ k. ground (arith, v.ending, h))
        (λ k. ground (arith, h, k)) (λ k. ground (arith, h, k)) v)
  Step-IsConsistent l s s' (leaves h q e) v = rw e (
      walks-IsConsistent l s testing (ground (arith, h)) (λ k. ground (arith, v.ending, h))
        (λ k. ground (arith, h, k)) (λ k. ground (arith, h, k)) v)
  Step-IsConsistent l s s' (takes x q h d e) v = rw e (record {
    order = ground (arith, v.order, h, d, append-nil s.handed, append_assoc s.handed (x ∷ []) q);
    stored = v.stored;
    stopped = v.stopped;
    ending = λ k. cc;
    drained = λ k. cc;
    running = v.running;
    joined = λ k. ground (arith, v.joined k);
  })
  Step-IsConsistent l s s' (writes x m h w e) v =
      let alive : s.closer ≢ closed = λ k. ground (arith, v.joined k, h) in
      let (c, r, same) = v.stored in
      let now : replay s.handed l ≡ ok (s.conn, s.db) = rw (same alive) at r in
      rw e (record {
        order = ground (arith, v.order, h, append-nil (s.handed ++ x ∷ []));
        stored = (m.0, replay-append s.handed x l (s.conn, s.db) m now w, λ k. refl);
        stopped = v.stopped;
        ending = λ k. cc;
        drained = λ k. cc;
        running = v.running;
        joined = λ k. absurd (alive k);
      })
  Step-IsConsistent l s s' (final_writes x q m h d w e) v =
      let alive : s.closer ≢ closed = λ k. ground (arith, v.joined k, h) in
      let (c, r, same) = v.stored in
      let now : replay s.handed l ≡ ok (s.conn, s.db) = rw (same alive) at r in
      rw e (record {
        order = ground (
          arith,
          v.order,
          h,
          d,
          append-nil s.handed,
          append-nil (s.handed ++ x ∷ []),
          append_assoc s.handed (x ∷ []) q,
        );
        stored = (m.0, replay-append s.handed x l (s.conn, s.db) m now w, λ k. refl);
        stopped = v.stopped;
        ending = v.ending;
        drained = λ k. ground (arith, h, k);
        running = v.running;
        joined = v.joined;
      })
  Step-IsConsistent l s s' (finishes h d e) v =
      let all : s.appended ≡ s.handed = ground (arith, v.order, h, d, append-nil s.handed) in
      rw e (record {
        order = ground (arith, v.order);
        stored = v.stored;
        stopped = v.stopped;
        ending = λ k. v.ending (rw h refl);
        drained = λ k. rw all at v.stopped;
        running = v.running;
        joined = λ k. refl;
      })
  Step-IsConsistent l s s' (stops h e) v = rw e (record {
    order = v.order;
    stored = (v.stored.0, v.stored.1, λ k. v.stored.2 (λ z. cc));
    stopped = ([], sym (append-nil s.appended));
    ending = λ k. cc;
    drained = λ k. absurd (v.ending (rw k refl) h);
    running = λ k. cc;
    joined = λ k. cc;
  })
  Step-IsConsistent l s s' (signals h e) v = rw e (record {
    order = rw (in_hand-notified s.writer) v.order;
    stored = (v.stored.0, v.stored.1, λ k. v.stored.2 (λ z. cc));
    stopped = v.stopped;
    ending = λ k. λ z. cc;
    drained = λ k. v.drained (notified_finished s.writer k);
    running = λ k z. cc;
    joined = λ k. cc;
  })
  Step-IsConsistent l s s' (joins h w e) v = rw e (record {
    order = v.order;
    stored = (v.stored.0, v.stored.1, λ k. absurd (k refl));
    stopped = v.stopped;
    ending = λ k z. cc;
    drained = v.drained;
    running = λ k z. cc;
    joined = λ k. w;
  })

  pub Reach-IsConsistent :
      (l : Link F J D) (s : EventStore F J D) → Reach F J D (start F J D l) s → IsConsistent l s
  Reach-IsConsistent l s here = start-IsConsistent l
  Reach-IsConsistent l s (next r st) = Step-IsConsistent l _ s st (Reach-IsConsistent l _ r)
