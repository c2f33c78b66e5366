-- ===== src/Gateway/RateLimiter/Race/Overdraft.antt =====
-- A refill that overwrites what was taken since it loaded the tokens.
use titan_x.Prelude.{
  subst, true, false, ℕ, zero, suc, ◌+◌, ◌^◌, ◌<◌, ◌≡◌, refl, List, [], ◌∷◌, arith,
}
use titan_x.Prelude.Int.{ℤ, pos, ltb_ℤ, leb_ℤ, ◌+ℤ◌, ◌-ℤ◌, ◌*ℤ◌, ◌/ℤ◌, min_ℤ}
use titan_x.Gateway.RateLimiter.{TokenBucket, standard_capacity, standard_refill_rate}
use titan_x.Gateway.RateLimiter.Race.{
  copies, Consumer, begun, aged, counting, storing, marking, trying, granted, added, Step, Move,
  Runs, reads_clock, loads_last, adds, loads_tokens, stores, marks, loads, takes, moves, here, next,
}

-- A standard bucket that is empty, at its last refill.
abbrev pub empty_at : ℕ → TokenBucket
empty_at last = record {
  capacity = standard_capacity;
  refill_per_second = standard_refill_rate;
  tokens = pos 0;
  last_refill_time_ms = pos last;
}

follows :
    {b : TokenBucket} {cs : List Consumer} {b1 : TokenBucket} {cs1 : List Consumer}
    {b2 : TokenBucket} {cs2 : List Consumer}
    → Runs b cs b1 cs1
    → Runs b1 cs1 b2 cs2
    → Runs b cs b2 cs2
follows r here = r
follows r (next s m) = next (follows r s) m

behind-Move :
    {b : TokenBucket} {cs : List Consumer} {b' : TokenBucket} {cs' : List Consumer} (c : Consumer)
    → Move b cs b' cs'
    → Move b (c ∷ cs) b' (c ∷ cs')
behind-Move c (moves before after s) = moves (c ∷ before) after s

-- A run is a run with one more request that does nothing.
behind :
    {b : TokenBucket} {cs : List Consumer} {b' : TokenBucket} {cs' : List Consumer} (c : Consumer)
    → Runs b cs b' cs'
    → Runs b (c ∷ cs) b' (c ∷ cs')
behind c here = here
behind c (next r m) = next (behind c r) (behind-Move c m)

ten-ms : (last : ℕ) → last + 10 < 2 ^ 63 → pos (last + 10) -ℤ pos last ≡ pos 10
unfolding ◌-ℤ◌
ten-ms last h = ground arith

one_added :
    (last : ℕ) → last + 10 < 2 ^ 63 → added (empty_at last) (pos (last + 10)) (pos last) ≡ pos 1
unfolding ◌*ℤ◌ ◌/ℤ◌
one_added last h = rw (ten-ms last h) refl

count-one :
    (last : ℕ)
    → last + 10 < 2 ^ 63
    → Step
        (empty_at last)
        (aged (pos (last + 10)) (pos last))
        (empty_at last)
        (counting (pos (last + 10)) (pos 1))
count-one last h =
    let t = pos (last + 10) in
    let older : leb_ℤ (t -ℤ pos last) (pos 0) ≡ false = rw (ten-ms last h) refl in
    let more : ltb_ℤ (pos 0) (added (empty_at last) t (pos last)) ≡ true =
      rw (one_added last h) refl in
    subst (λ add. Step (empty_at last) (aged t (pos last)) (empty_at last) (counting t add))
      (one_added last h) (adds t (pos last) older more)

store-one :
    (t : ℤ) (b : TokenBucket)
    → b.capacity ≡ standard_capacity
    → Step b (storing t (pos 1) (pos 0)) (record b { tokens = pos 1 }) (marking t)
unfolding min_ℤ ◌+ℤ◌
store-one t b h =
    let e : min_ℤ b.capacity (pos 0 +ℤ pos 1) ≡ pos 1 = rw h refl in
    subst (λ n. Step b (storing t (pos 1) (pos 0)) (record b { tokens = n }) (marking t)) e
      (stores t (pos 1) (pos 0))

take-one :
    (b : TokenBucket)
    → b.tokens ≡ pos 1
    → Step b (trying (pos 1)) (record b { tokens = pos 0 }) granted
unfolding ◌-ℤ◌
take-one b h = takes (pos 1) refl h

-- All requests load the tokens before one of them stores.
all-load :
    (last n : ℕ)
    → last + 10 < 2 ^ 63
    → Runs
        (empty_at last)
        (copies n begun)
        (empty_at last)
        (copies n (storing (pos (last + 10)) (pos 1) (pos 0)))
unfolding copies
all-load last zero h = here
all-load last (suc n) h =
    let t = pos (last + 10) in
    let b = empty_at last in
    let rest = copies n begun in
    let s1 : Runs b (begun ∷ rest) b (aged t (pos last) ∷ rest) =
      next (next here (moves [] rest (reads_clock t))) (moves [] rest (loads_last t)) in
    let s2 : Runs b (begun ∷ rest) b (counting t (pos 1) ∷ rest) =
      next s1 (moves [] rest (count-one last h)) in
    let s3 : Runs b (begun ∷ rest) b (storing t (pos 1) (pos 0) ∷ rest) =
      next s2 (moves [] rest (loads_tokens t (pos 1))) in
    follows s3 (behind (storing t (pos 1) (pos 0)) (all-load last n h))

-- Then each in turn stores one token and takes it.
all-take :
    (t : ℤ) (n : ℕ) (b : TokenBucket)
    → b.capacity ≡ standard_capacity
    → (b' : TokenBucket) × Runs b (copies n (storing t (pos 1) (pos 0))) b' (copies n granted)
unfolding copies
all-take t zero b h = (b, here)
all-take t (suc n) b h =
    let rest = copies n (storing t (pos 1) (pos 0)) in
    let b1 : TokenBucket = record b { tokens = pos 1 } in
    let b2 : TokenBucket = record b1 { last_refill_time_ms = t } in
    let b3 : TokenBucket = record b2 { tokens = pos 0 } in
    let (b4, r) = all-take t n b3 h in
    let s1 : Runs b (storing t (pos 1) (pos 0) ∷ rest) b1 (marking t ∷ rest) =
      next here (moves [] rest (store-one t b h)) in
    let s2 : Runs b (storing t (pos 1) (pos 0) ∷ rest) b2 (trying (pos 1) ∷ rest) =
      next (next s1 (moves [] rest (marks t))) (moves [] rest loads) in
    let s3 : Runs b (storing t (pos 1) (pos 0) ∷ rest) b3 (granted ∷ rest) =
      next s2 (moves [] rest (take-one b2 refl)) in
    (b4, follows s3 (behind granted r))

-- Ten milliseconds after its last refill, when an empty standard bucket has earned one token, any
-- number of requests at the same time can all be granted.
pub all-granted :
    (last n : ℕ)
    → last + 10 < 2 ^ 63
    → (b : TokenBucket) × Runs (empty_at last) (copies n begun) b (copies n granted)
all-granted last n h =
    let (b, r) = all-take (pos (last + 10)) n (empty_at last) refl in
    (b, follows (all-load last n h) r)
