-- ===== src/Gateway/RateLimiter/Race/Bounds.antt =====
-- The tokens of a bucket stay in its bounds, however the requests interleave.
use titan_x.Prelude.{
  ℕ, zero, suc, ◌+◌, ◌-◌, ◌*◌, ◌/◌, ◌^◌, ◌≤◌, ◌≡◌, true, List, [], ◌∷◌, ◌++◌, arith, All,
  if◌then◌else◌, ltb,
}
use titan_x.Prelude.Int.{
  ℤ, pos, negsuc, pos_part, neg_part, sub_ℕ, ltb_ℤ, ◌+ℤ◌, ◌-ℤ◌, ◌*ℤ◌, ◌/ℤ◌, min_ℤ, wrap, IsInt64,
}
use titan_x.Gateway.RateLimiter.{TokenBucket, standard_capacity}
use titan_x.Gateway.RateLimiter.Race.{
  copies, Consumer, begun, counting, storing, trying, added, Step, Move, Runs, reads_clock,
  loads_last, returns_early, adds_none, adds, loads_tokens, stores, marks, loads, takes, retries,
  refuses, moves, here, next,
}

-- From 0 to the standard capacity.
abbrev pub IsCount : ℤ → Type 0
IsCount z = (n : ℕ) × (z ≡ pos n) × (n ≤ 100)

-- Positive, and far from the end of the type.
abbrev IsGain : ℤ → Type 0
IsGain z = (n : ℕ) × (z ≡ pos n) × (n ≤ 2 ^ 62)

wrap-IsInt64 : (z : ℤ) → IsInt64 (wrap z)
unfolding wrap
wrap-IsInt64 (pos n) = ground arith
wrap-IsInt64 (negsuc n) = ground arith

thousandth-IsGain :
    (z : ℤ) → IsInt64 z → ltb_ℤ (pos 0) (z /ℤ pos 1000) ≡ true → IsGain (z /ℤ pos 1000)
unfolding ◌/ℤ◌ wrap
thousandth-IsGain (pos n) h k = (n / 1000, ground arith, omega arith)
thousandth-IsGain (negsuc n) h k = absurd (ground arith)

product-IsInt64 : (a b : ℤ) → IsInt64 (a *ℤ b)
unfolding ◌*ℤ◌
product-IsInt64 a b = wrap-IsInt64 (
    sub_ℕ (pos_part a * pos_part b + neg_part a * neg_part b)
      (pos_part a * neg_part b + neg_part a * pos_part b))

added-IsGain :
    (b : TokenBucket) (t l : ℤ) → ltb_ℤ (pos 0) (added b t l) ≡ true → IsGain (added b t l)
added-IsGain b t l h =
    thousandth-IsGain ((t -ℤ l) *ℤ b.refill_per_second)
      (product-IsInt64 (t -ℤ l) b.refill_per_second) h

-- What the local variables of a request hold.
Holds : Consumer → Type 0
Holds (counting t add) = IsGain add
Holds (storing t add current) = IsGain add × IsCount current
Holds (trying current) = IsCount current
Holds _ = Unit {0}

store-IsCount :
    (add current : ℤ) → IsGain add → IsCount current → IsCount (min_ℤ (pos 100) (current +ℤ add))
unfolding min_ℤ ◌+ℤ◌ wrap
store-IsCount add current (n, e, h) (m, d, k) =
    let least = if ltb (m + n) 100 then m + n else 100 in
    rw (e, d) (least, ground arith, ground arith)

take-IsCount : (z : ℤ) → ltb_ℤ (pos 0) z ≡ true → IsCount z → IsCount (z -ℤ pos 1)
unfolding ◌-ℤ◌ wrap
take-IsCount z h (n, e, k) = (n - 1, ground (arith, h, e, k), omega arith)

-- What a bucket keeps: its capacity, and its tokens in their bounds.
record IsBounded (b : TokenBucket) : Type 0 where
  standard : b.capacity ≡ standard_capacity
  count : IsCount b.tokens

Step-IsBounded :
    {b b' : TokenBucket} {c c' : Consumer}
    → Step b c b' c'
    → IsBounded b
    → Holds c
    → IsBounded b' × Holds c'
unfolding Holds
Step-IsBounded (reads_clock t) h k = (h, tt)
Step-IsBounded (loads_last t) h k = (h, tt)
Step-IsBounded (returns_early t l e) h k = (h, tt)
Step-IsBounded (adds_none t l e d) h k = (h, tt)
Step-IsBounded {b} (adds t l e d) h k = (h, added-IsGain b t l d)
Step-IsBounded (loads_tokens t add) h k = (h, (k, h.count))
Step-IsBounded (stores t add current) h k = (
  record { standard = h.standard; count = rw (h.standard) (store-IsCount add current k.0 k.1) },
  tt,
)
Step-IsBounded (marks t) h k = (record { standard = h.standard; count = h.count }, tt)
Step-IsBounded loads h k = (h, h.count)
Step-IsBounded (takes current e d) h k =
    (record { standard = h.standard; count = take-IsCount current e k }, tt)
Step-IsBounded (retries current e) h k = (h, h.count)
Step-IsBounded (refuses current e) h k = (h, tt)

All-at : (before after : List Consumer) (c : Consumer) → All Holds (before ++ c ∷ after) → Holds c
All-at [] after c h = h.0
All-at (x ∷ before) after c h = All-at before after c h.1

All-put :
    (before after : List Consumer) (c c' : Consumer)
    → All Holds (before ++ c ∷ after)
    → Holds c'
    → All Holds (before ++ c' ∷ after)
All-put [] after c c' h k = (k, h.1)
All-put (x ∷ before) after c c' h k = (h.0, All-put before after c c' h.1 k)

Move-IsBounded :
    {b b' : TokenBucket} {cs cs' : List Consumer}
    → Move b cs b' cs'
    → IsBounded b
    → All Holds cs
    → IsBounded b' × All Holds cs'
Move-IsBounded (moves before after {c} {c'} s) h k =
    let (h', k') = Step-IsBounded s h (All-at before after c k) in
    (h', All-put before after c c' k k')

Runs-IsBounded :
    {b : TokenBucket} {cs : List Consumer} {b' : TokenBucket} {cs' : List Consumer}
    → Runs b cs b' cs'
    → IsBounded b
    → All Holds cs
    → IsBounded b' × All Holds cs'
Runs-IsBounded here h k = (h, k)
Runs-IsBounded (next r m) h k = let (h', k') = Runs-IsBounded r h k in Move-IsBounded m h' k'

copies-Holds : (n : ℕ) → All Holds (copies n begun)
unfolding copies Holds
copies-Holds zero = tt
copies-Holds (suc n) = (tt, copies-Holds n)

-- A bucket of the standard capacity, of any rate of refill, with a count of tokens from 0 to its
-- capacity, has such a count after any interleaving of any number of requests.
pub Runs-IsCount :
    (b b' : TokenBucket) (n : ℕ) (cs : List Consumer)
    → b.capacity ≡ standard_capacity
    → IsCount b.tokens
    → Runs b (copies n begun) b' cs
    → IsCount b'.tokens
Runs-IsCount b b' n cs h k r =
    (Runs-IsBounded r (record { standard = h; count = k }) (copies-Holds n)).0.count
