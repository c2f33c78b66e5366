-- ===== src/Engine/Sweep/Execution.antt =====
-- What matching promises, apart from maps, queues, indexes and clocks: the resting orders of a side
-- as one list of entries in price-time priority, and an amount that is executed against them.
use titan_x.Prelude.{
  ℕ, ◌+◌, ◌-◌, ◌<◌, ◌≡◌, refl, Bool, true, List, [], ◌∷◌, ◌++◌, map, min, ltb, ◌==◌, if◌then◌else◌,
  arith, All, ◌⊎◌, false,
}
use titan_x.Prelude.Int.{ℤ, pos_part}
use titan_x.Prelude.Text.{Text}
use titan_x.Model.Order.{Order}
use titan_x.Model.Trade.{Trade}
use titan_x.Engine.Levels.{Level}

-- An amount at a price, of a resting order or of a fill.
pub record Entry : Type 0 where
  pub price : ℤ
  pub order_id : Text
  pub account_id : Text
  pub amount : ℕ

-- A resting order as an entry, at its level's price.
abbrev pub resting : ℤ → Order → Entry
resting p o = record {
  price = p;
  order_id = o.order_id;
  account_id = o.account_id;
  amount = pos_part o.remaining_quantity;
}

-- The side as a list in priority order.
abbrev pub entries : List Level → List Entry
entries [] = []
entries (l ∷ ls) = map (resting l.price) l.queue ++ entries ls

-- A trade as the fill of its resting order.
abbrev pub filled : Trade → Entry
filled t = record {
  price = t.price;
  order_id = t.passive_order_id;
  account_id = t.passive_account_id;
  amount = pos_part t.quantity;
}

module _ (crosses : ℤ → Bool) where
  -- The fills of an amount `n`: each entry in turn, as far as the amount and the prices go.
  unfoldable pub execute : ℕ → List Entry → List Entry
  execute n [] = []
  execute n (e ∷ es) =
      let more = record e { amount = min n e.amount } ∷ execute (n - e.amount) es in
      if n == 0 then [] else if crosses e.price then more else []

  -- The entries afterwards.
  unfoldable pub remainder : ℕ → List Entry → List Entry
  remainder n [] = []
  remainder n (e ∷ es) =
      let rest = remainder (n - e.amount) es in
      if n == 0
      then e ∷ es
      else if crosses e.price
      then if ltb n e.amount then record e { amount = e.amount - n } ∷ es else rest
      else e ∷ es

  -- The part of the amount that finds no entry.
  unfoldable pub unfilled : ℕ → List Entry → ℕ
  unfilled n [] = n
  unfilled n (e ∷ es) =
      let rest = unfilled (n - e.amount) es in
      if n == 0 then 0 else if crosses e.price then rest else n

  pub execute-zero : (es : List Entry) → execute 0 es ≡ []
  unfolding execute
  execute-zero [] = refl
  execute-zero (e ∷ es) = refl

  pub remainder-zero : (es : List Entry) → remainder 0 es ≡ es
  unfolding remainder
  remainder-zero [] = refl
  remainder-zero (e ∷ es) = refl

  pub unfilled-zero : (es : List Entry) → unfilled 0 es ≡ 0
  unfolding unfilled
  unfilled-zero [] = refl
  unfilled-zero (e ∷ es) = refl

-- Nothing is left to execute: no amount, or no entry whose price crosses in front.
abbrev pub IsDone : (ℤ → Bool) → ℕ → List Entry → Type 0
IsDone crosses n [] = Unit
IsDone crosses n (e ∷ es) = (n ≡ 0) ⊎ (crosses e.price ≡ false)

module _ (crosses : ℤ → Bool) (n : ℕ) where
  pub done_lem :
      (es : List Entry)
      → IsDone crosses n es
      → (execute crosses n es ≡ []) × (remainder crosses n es ≡ es) × (unfilled crosses n es ≡ n)
  unfolding execute remainder unfilled
  done_lem [] d = (refl, refl, refl)
  done_lem (e ∷ es) d = ground arith

-- The entries after the first of them was met by an amount.
abbrev pub met : ℕ → Entry → List Entry → List Entry
met n e es = if ltb n e.amount then record e { amount = e.amount - n } ∷ es else es

-- The three functions after one entry was met.
module _ (crosses : ℤ → Bool) (n : ℕ) (e : Entry) (es : List Entry) (some_left : 0 < n)
    (c : crosses e.price ≡ true) where
  pub execute-met :
      execute crosses n (e ∷ es)
      ≡ record e { amount = min n e.amount } ∷ execute crosses (n - e.amount) (met n e es)
  unfolding execute
  execute-met = ground (arith, execute-zero crosses es)

  pub remainder-met : remainder crosses n (e ∷ es) ≡ remainder crosses (n - e.amount) (met n e es)
  unfolding remainder
  remainder-met = ground (arith, remainder-zero crosses es)

  pub unfilled-met : unfilled crosses n (e ∷ es) ≡ unfilled crosses (n - e.amount) (met n e es)
  unfolding unfilled
  unfilled-met = ground (arith, unfilled-zero crosses es)

-- The sum of the amounts.
unfoldable pub volume : List Entry → ℕ
volume [] = 0
volume (e ∷ es) = e.amount + volume es

module _ (crosses : ℤ → Bool) where
  -- Every unit is executed or left over.
  pub volume-execute :
      (n : ℕ) (es : List Entry) → volume (execute crosses n es) + unfilled crosses n es ≡ n
  unfolding execute unfilled volume
  volume-execute n [] = omega arith
  volume-execute n (e ∷ es) = ground (arith, volume-execute (n - e.amount) es)

  -- Nothing is executed at a price that does not cross.
  pub execute-crosses :
      (n : ℕ) (es : List Entry) → All (λ e. crosses e.price ≡ true) (execute crosses n es)
  unfolding execute
  execute-crosses n [] = tt
  execute-crosses n (e ∷ es) = ground (arith, execute-crosses (n - e.amount) es)
