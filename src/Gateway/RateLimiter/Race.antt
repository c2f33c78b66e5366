-- ===== src/Gateway/RateLimiter/Race.antt =====
-- Requests on one bucket at the same time: the loads and stores of `refill` and of `tryConsume`,
-- one at a time, in any order among the requests. A weak compare-and-exchange may fail at any time.
pub mod Overdraft
pub mod Bounds
use titan_x.Prelude.{ℕ, zero, suc, ◌≡◌, refl, Bool, true, false, List, [], ◌∷◌, ◌++◌}
use titan_x.Prelude.Int.{ℤ, pos, ltb_ℤ, leb_ℤ, ◌+ℤ◌, ◌-ℤ◌, min_ℤ}
use titan_x.Gateway.RateLimiter.{TokenBucket, tokens_to_add}

-- Where a request stands in `tryConsume`, with its local variables.
pub data Consumer : Type 0 where
  -- in `refill`: before nowMs, lastMs and current are read, and before each of the two stores
  begun : Consumer
  timed : ℤ → Consumer
  aged : ℤ → ℤ → Consumer
  counting : ℤ → ℤ → Consumer
  storing : ℤ → ℤ → ℤ → Consumer
  marking : ℤ → Consumer
  -- after `refill`: before current is read, at the test of the loop, and at the end
  refilled : Consumer
  trying : ℤ → Consumer
  granted : Consumer
  refused : Consumer

-- The tokens that `refill` counts from `last_ms` until `now_ms`.
abbrev pub added : TokenBucket → ℤ → ℤ → ℤ
added b now_ms last_ms = tokens_to_add now_ms (record b { last_refill_time_ms = last_ms })

pub data Step (b : TokenBucket) : Consumer → TokenBucket → Consumer → Type 0 where
  reads_clock : (now_ms : ℤ) → Step b begun b (timed now_ms)
  loads_last : (now_ms : ℤ) → Step b (timed now_ms) b (aged now_ms b.last_refill_time_ms)
  returns_early :
      (now_ms last_ms : ℤ)
      → leb_ℤ (now_ms -ℤ last_ms) (pos 0) ≡ true
      → Step b (aged now_ms last_ms) b refilled
  adds_none :
      (now_ms last_ms : ℤ)
      → leb_ℤ (now_ms -ℤ last_ms) (pos 0) ≡ false
      → ltb_ℤ (pos 0) (added b now_ms last_ms) ≡ false
      → Step b (aged now_ms last_ms) b refilled
  adds :
      (now_ms last_ms : ℤ)
      → leb_ℤ (now_ms -ℤ last_ms) (pos 0) ≡ false
      → ltb_ℤ (pos 0) (added b now_ms last_ms) ≡ true
      → Step b (aged now_ms last_ms) b (counting now_ms (added b now_ms last_ms))
  loads_tokens : (now_ms add : ℤ) → Step b (counting now_ms add) b (storing now_ms add b.tokens)
  stores :
      (now_ms add current : ℤ)
      → Step b
          (storing now_ms add current)
          (record b { tokens = min_ℤ b.capacity (current +ℤ add) })
          (marking now_ms)
  marks :
      (now_ms : ℤ) → Step b (marking now_ms) (record b { last_refill_time_ms = now_ms }) refilled
  loads : Step b refilled b (trying b.tokens)
  takes :
      (current : ℤ)
      → ltb_ℤ (pos 0) current ≡ true
      → b.tokens ≡ current
      → Step b (trying current) (record b { tokens = current -ℤ pos 1 }) granted
  retries :
      (current : ℤ) → ltb_ℤ (pos 0) current ≡ true → Step b (trying current) b (trying b.tokens)
  refuses : (current : ℤ) → ltb_ℤ (pos 0) current ≡ false → Step b (trying current) b refused

-- One of the requests makes a step.
pub data Move (b : TokenBucket) : List Consumer → TokenBucket → List Consumer → Type 0 where
  moves :
      (before after : List Consumer) {c c' : Consumer} {b' : TokenBucket}
      → Step b c b' c'
      → Move b (before ++ c ∷ after) b' (before ++ c' ∷ after)

pub data Runs (b : TokenBucket) (cs : List Consumer) : TokenBucket → List Consumer → Type 0 where
  here : Runs b cs b cs
  next :
      {b1 b2 : TokenBucket} {cs1 cs2 : List Consumer}
      → Runs b cs b1 cs1
      → Move b1 cs1 b2 cs2
      → Runs b cs b2 cs2

-- As many requests, at the same place.
unfoldable pub copies : ℕ → Consumer → List Consumer
copies zero c = []
copies (suc n) c = c ∷ copies n c
