-- ===== src/Simulation/Completion.antt =====
-- The load test comes to its end, and measures every order once.
use titan_x.Prelude.{
  ℕ, zero, suc, ◌+◌, ◌≡◌, ◌⊎◌, inl, inr, refl, ap, ◌∙◌, false, ◌≤◌, List, [], ◌∷◌, ◌++◌, length,
  length-append, arith,
}
use titan_x.Prelude.Floats.{Floats}
use titan_x.Model.World.{World}
use titan_x.Simulation.{
  Generator, Worker, Shared, launch, hand_over, Simulation, Step, Reach, launched, num_orders,
  num_threads, passes, ends, here, next,
}
use titan_x.Simulation.Soundness.{pass-Submitted, pass-returns, Reach-free}

module _ (F : Floats) (G : Generator F) where
  -- The steps that the threads have before them: the passes, and a hand-over each.
  unfoldable steps : List (Worker F G) → ℕ
  steps [] = 0
  steps (v ∷ vs) = suc v.left + steps vs

  -- The latencies that the threads have, or will have.
  unfoldable owed : List (Worker F G) → ℕ
  owed [] = 0
  owed (v ∷ vs) = v.left + length v.latencies + owed vs

  steps-append : (xs ys : List (Worker F G)) → steps (xs ++ ys) ≡ steps xs + steps ys
  unfolding steps
  steps-append [] ys = omega arith
  steps-append (x ∷ xs) ys = omega (arith, steps-append xs ys)

  owed-append : (xs ys : List (Worker F G)) → owed (xs ++ ys) ≡ owed xs + owed ys
  unfolding owed
  owed-append [] ys = omega arith
  owed-append (x ∷ xs) ys = omega (arith, owed-append xs ys)

  abbrev total : Simulation F G → ℕ
  total s = owed s.workers + length s.shared.all_latencies

  Step-counts :
      (s s' : Simulation F G)
      → Step F G s s'
      → (steps s.workers ≡ suc (steps s'.workers)) × (total s' ≡ total s)
  unfolding steps owed hand_over
  Step-counts s s' (passes before after v v' shared n at some_left run e) =
      let p = pass-Submitted F G v v' s.shared shared run in
      let more : length v'.latencies ≡ suc (length v.latencies) =
        ap length p.lap.1 ∙ omega (arith, length-append v.latencies (p.lap.0 ∷ [])) in
      let left = p.left in
      let a = steps-append before (v ∷ after) in
      let a' = steps-append before (v' ∷ after) in
      let b = owed-append before (v ∷ after) in
      let b' = owed-append before (v' ∷ after) in
      (rw (e, at) (omega arith), rw (e, at, p.all_latencies) (omega arith))
  Step-counts s s' (ends before after v at none_left e) =
      let a = steps-append before (v ∷ after) in
      let a' = steps-append before after in
      let b = owed-append before (v ∷ after) in
      let b' = owed-append before after in
      let c = length-append s.shared.all_latencies v.latencies in
      (rw (e, at) (omega arith), rw (e, at) (omega arith))

  Reach-counts :
      (s t : Simulation F G) (n : ℕ)
      → Reach F G s n t
      → (steps s.workers ≡ n + steps t.workers) × (total t ≡ total s)
  Reach-counts s t n here = (omega arith, refl)
  Reach-counts s u n (next {t = t} r st) =
      let a = Reach-counts s t _ r in
      let b = Step-counts t u st in (omega (arith, a, b), omega (arith, a, b))

  -- The step of the first thread.
  first :
      (v : Worker F G) (vs : List (Worker F G)) (s : Shared F G) (n : ℕ)
      → v.left ≡ n
      → s.exchange.risk.circuit_breaker.held ≡ false
      → (u : Simulation F G) × Step F G (record { workers = v ∷ vs; shared = s }) u
  first v vs s zero e free =
      (record { workers = vs; shared = hand_over F G v s }, ends [] vs v refl e refl)
  first v vs s (suc n) e free =
      let (v', s', run) = pass-returns F G v s free in
      (record { workers = v' ∷ vs; shared = s' }, passes [] vs v v' s' n refl e run refl)

  progress :
      (vs : List (Worker F G)) (s : Shared F G)
      → s.exchange.risk.circuit_breaker.held ≡ false
      → (vs ≡ []) ⊎ ((u : Simulation F G) × Step F G (record { workers = vs; shared = s }) u)
  progress [] s free = inl refl
  progress (v ∷ vs) s free = inr (first v vs s v.left refl free)

  -- However the threads of the load test take turns: it makes at most 100,004 steps; after each of them
  -- either no thread is left or a further step is possible, since every submission returns; and when no
  -- thread is left, it has made all 100,004, and has one latency for each of the 100,000 orders.
  pub launched-ends :
      (w : World) (n : ℕ) (t : Simulation F G)
      → Reach F G (launched F G w) n t
      → (n ≤ num_orders + num_threads)
        × ((t.workers ≡ []) ⊎ ((u : Simulation F G) × Step F G t u))
        × (t.workers ≡ []
            → (n ≡ num_orders + num_threads) × (length t.shared.all_latencies ≡ num_orders))
  unfolding steps owed launch
  launched-ends w n t r =
      let c = Reach-counts (launched F G w) t n r in
      (
        omega (arith, c),
        progress t.workers t.shared (Reach-free F G (launched F G w) t n r refl),
        λ e. (omega (arith, c, ap steps e), omega (arith, c, ap owed e)),
      )
