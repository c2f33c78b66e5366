-- ===== src/Gateway/RateLimiter.antt =====
-- class TokenBucketRateLimiter (backend/src/gateway/TokenBucketRateLimiter.cpp and its header).
-- Here an operation runs as a whole, so its compare-and-exchange succeeds at once; Race has its
-- single loads and stores. Times are readings of the steady clock in milliseconds and arguments of
-- the operations.
pub mod Rate
pub mod Race
mod Examples
use titan_x.Prelude.{Bool, true, false, [], ◌∷◌, ◌++◌, none, some, if◌then◌else◌}
use titan_x.Prelude.Int.{ℤ, pos, ltb_ℤ, leb_ℤ, ◌+ℤ◌, ◌-ℤ◌, ◌*ℤ◌, ◌/ℤ◌, min_ℤ}
use titan_x.Prelude.Text.{Text}
use titan_x.Prelude.Map.{Map, lookup, insert}

abbrev pub standard_capacity : ℤ
standard_capacity = pos 100

-- Tokens per second.
abbrev pub standard_refill_rate : ℤ
standard_refill_rate = pos 100

pub record TokenBucket : Type 0 where
  pub capacity : ℤ
  pub refill_per_second : ℤ
  pub tokens : ℤ
  pub last_refill_time_ms : ℤ

abbrev pub new_bucket : ℤ → ℤ → ℤ → TokenBucket
new_bucket capacity rate now = record {
  capacity = capacity;
  refill_per_second = rate;
  tokens = capacity;
  last_refill_time_ms = now;
}

abbrev pub tokens_to_add : ℤ → TokenBucket → ℤ
tokens_to_add now b = ((now -ℤ b.last_refill_time_ms) *ℤ b.refill_per_second) /ℤ pos 1000

unfoldable pub refill : ℤ → TokenBucket → TokenBucket
refill now b =
    if leb_ℤ (now -ℤ b.last_refill_time_ms) (pos 0)
    then b
    else if ltb_ℤ (pos 0) (tokens_to_add now b)
    then record b {
      tokens = min_ℤ b.capacity (b.tokens +ℤ tokens_to_add now b);
      last_refill_time_ms = now;
    }
    else b

unfoldable pub try_consume : ℤ → TokenBucket → Bool × TokenBucket
unfolding refill
try_consume now b =
    let b1 = refill now b in
    if ltb_ℤ (pos 0) b1.tokens
    then (true, record b1 { tokens = b1.tokens -ℤ pos 1 })
    else (false, b1)

unfoldable pub seconds_until_refill : ℤ → TokenBucket → ℤ
seconds_until_refill now b = if ltb_ℤ (pos 0) (tokens_to_add now b) then pos 0 else pos 1

abbrev pub RateLimiter : Type 0
RateLimiter = Map TokenBucket

abbrev pub key : Text → Text → Text
key account_id endpoint = account_id ++ b':' ∷ endpoint

-- `created` is the reading of the bucket's constructor, `now` the one of `refill`.
unfoldable pub try_acquire : Text → Text → ℤ → ℤ → RateLimiter → Bool × RateLimiter
unfolding try_consume
try_acquire account_id endpoint created now m =
    let k = key account_id endpoint in
    let bucket : TokenBucket = elim (lookup k m) [
      | none ↦ new_bucket standard_capacity standard_refill_rate created
      | some b ↦ b
    ] in
    let (granted, b) = try_consume now bucket in (granted, insert k b m)

unfoldable pub retry_after_seconds : Text → Text → ℤ → RateLimiter → ℤ
unfolding seconds_until_refill
retry_after_seconds account_id endpoint now m = elim (lookup (key account_id endpoint) m) [
  | none ↦ pos 0
  | some b ↦ seconds_until_refill now b
]
