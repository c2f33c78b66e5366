-- ===== src/Risk/RiskEngine/Approval.antt =====
-- The approved orders, stated by the limits in exact arithmetic, and what a call changes.
use titan_x.Prelude.{
  ℕ, ◌+◌, ◌*◌, ◌%◌, ◌^◌, ◌<◌, ◌≤◌, ◌≡◌, ◌≢◌, ◌↔◌, refl, true, false, [], ◌∷◌, none, some, arith,
  subst, Option-cases, inl, inr,
}
use titan_x.Prelude.Int.{ℤ, pos_part, neg_part}
use titan_x.Prelude.Text.{Text, codes}
use titan_x.Prelude.Map.{Map, lookup, insert}
use titan_x.Model.OrderSide.{OrderSide, buy, sell}
use titan_x.Model.Order.{Order}
use titan_x.Risk.CircuitBreaker
use titan_x.Risk.RiskEngine.{
  TextSet, RiskEngine, RiskResult, has, active, over_notional, over_position, fat_finger,
  self_trade, get_net_position, check_order, check_pre_trade, reject,
}
use titan_x.Risk.RiskEngine.Limits.{Within, Near, over_notional_iff, over_position_iff, band_iff}

-- A price of at least 0 in a range where the products of the checks fit, and such a quantity.
pub record IsOrdinary (o : Order) (e : RiskEngine) : Type 0 where
  pub price : neg_part o.price ≡ 0
  pub quantity : neg_part o.quantity ≡ 0
  pub price_fits : pos_part o.price < 2 ^ 49
  pub quantity_fits : pos_part o.quantity < 2 ^ 62
  pub notional_fits : pos_part o.price * pos_part o.quantity < 2 ^ 63
  pub long_fits : pos_part (get_net_position o.account_id o.symbol e) < 2 ^ 62
  pub short_fits : neg_part (get_net_position o.account_id o.symbol e) < 2 ^ 62
  pub last_fits :
      (last : ℤ) → lookup o.symbol e.last_trade_prices ≡ some last → pos_part last < 2 ^ 49

-- The orders on record of the accounts, on the other side than an order's.
abbrev pub opposing : OrderSide → RiskEngine → Map TextSet
opposing buy e = e.active_sell_orders
opposing sell e = e.active_buy_orders

-- What an order must satisfy to be approved.
pub record IsAllowed (o : Order) (e : RiskEngine) : Type 0 where
  pub running : lookup o.symbol e.circuit_breaker.symbol_halts ≢ some true
  pub unseen : lookup o.order_id e.seen_order_ids ≡ none
  pub notional : pos_part o.price * pos_part o.quantity ≤ 5000000 * 100000000
  pub position : Within o.side (get_net_position o.account_id o.symbol e) o.quantity
  pub band :
      (last : ℤ)
      → lookup o.symbol e.last_trade_prices ≡ some last
      → 0 < pos_part last
      → 0 < pos_part o.price
      → Near (pos_part o.price) (pos_part last)
  pub one_sided : (ids : TextSet) → lookup o.account_id (opposing o.side e) ≡ some ids → ids ≡ []

running_iff :
    (o : Order) (e : RiskEngine)
    → e.circuit_breaker.held ≡ false
    → (CircuitBreaker.is_halted o.symbol e.circuit_breaker ≡ some false)
      ↔ (lookup o.symbol e.circuit_breaker.symbol_halts ≢ some true)
unfolding CircuitBreaker.is_halted
running_iff o e free = elim (Option-cases (lookup o.symbol e.circuit_breaker.symbol_halts)) [
  | inl n ↦ (λ h k. cc, λ h. ground (arith, n, free))
  | inr (true, h) ↦ (λ k m. ground (arith, k, h, free), λ k. absurd (k h))
  | inr (false, h) ↦ (λ k m. cc, λ k. ground (arith, h, free))
]

unseen_iff : (id : Text) (s : TextSet) → (has id s ≡ false) ↔ (lookup id s ≡ none)
unseen_iff id s = elim (Option-cases (lookup id s)) [
  | inl n ↦ (λ h. n, λ h. rw (h, has) refl)
  | inr (v, k) ↦ (λ h. absurd (ground (arith, h, k)), λ h. rw (h, has) refl)
]

-- No orders are on record for an account.
active_iff :
    (a : Text) (m : Map TextSet)
    → (active a m ≡ false) ↔ ((ids : TextSet) → lookup a m ≡ some ids → ids ≡ [])
active_iff a m = elim (Option-cases (lookup a m)) [
  | inl n ↦ (λ h ids k. cc, λ h. rw (n, active) refl)
  | inr ([], k) ↦ (λ h ids j. ground (arith, k, j), λ h. rw (k, active) refl)
  | inr (t ∷ s, k) ↦
      (λ h ids j. absurd (ground (arith, h, k)), λ h. absurd (ground (arith, h (t ∷ s) k)))
]

self_trade_iff :
    (o : Order) (e : RiskEngine)
    → (self_trade o e ≡ false)
      ↔ ((ids : TextSet) → lookup o.account_id (opposing o.side e) ≡ some ids → ids ≡ [])
unfolding self_trade
self_trade_iff o e = by_side o.side refl
  where
    by_side :
        (s : OrderSide)
        → o.side ≡ s
        → (self_trade o e ≡ false)
          ↔ ((ids : TextSet) → lookup o.account_id (opposing o.side e) ≡ some ids → ids ≡ [])
    by_side buy h = rw h (active_iff o.account_id e.active_sell_orders)
    by_side sell h = rw h (active_iff o.account_id e.active_buy_orders)

fat_finger_iff :
    (o : Order) (e : RiskEngine)
    → IsOrdinary o e
    → (fat_finger o e ≡ false) ↔ (
        (last : ℤ)
        → lookup o.symbol e.last_trade_prices ≡ some last
        → 0 < pos_part last
        → 0 < pos_part o.price
        → Near (pos_part o.price) (pos_part last))
unfolding fat_finger
fat_finger_iff o e i = elim (Option-cases (lookup o.symbol e.last_trade_prices)) [
  | inl absent ↦ rw (absent, fat_finger) ((λ h l k. cc), λ h. ground arith)
  | inr (l, here) ↦
      let b = band_iff o.price l i.price i.price_fits (i.last_fits l here) in
      (
        (λ h last there.
            let same : l ≡ last = ground arith in
            subst
              (λ z. 0 < pos_part z → 0 < pos_part o.price → Near (pos_part o.price) (pos_part z))
              same (b.0 (rw here at h))),
        λ h. rw here (b.1 (h l here)),
      )
]

-- The conditions read nothing that the first steps of the call write.
same_position :
    (o : Order) (e : RiskEngine) (ids : TextSet) (n : ℕ)
    → over_position o (record e { seen_order_ids = ids; total_checked = n }) ≡ over_position o e
unfolding over_position get_net_position
same_position o e ids n = refl

same_band :
    (o : Order) (e : RiskEngine) (ids : TextSet) (n : ℕ)
    → fat_finger o (record e { seen_order_ids = ids; total_checked = n }) ≡ fat_finger o e
unfolding fat_finger
same_band o e ids n = refl

same_side :
    (o : Order) (e : RiskEngine) (ids : TextSet) (n : ℕ)
    → self_trade o (record e { seen_order_ids = ids; total_checked = n }) ≡ self_trade o e
unfolding self_trade
same_side o e ids n = refl

-- Every condition of the call passes.
abbrev Passes : Order → RiskEngine → Type 0
Passes o e =
    (CircuitBreaker.is_halted o.symbol e.circuit_breaker ≡ some false)
    × (has o.order_id e.seen_order_ids ≡ false)
    × (over_notional o ≡ false)
    × (over_position o e ≡ false)
    × (fat_finger o e ≡ false)
    × (self_trade o e ≡ false)

passes_check :
    (o : Order) (e : RiskEngine)
    → ((check_order o e).0.approved ≡ true) ↔ (
        (has o.order_id e.seen_order_ids ≡ false)
        × (over_notional o ≡ false)
        × (over_position o e ≡ false)
        × (fat_finger o e ≡ false)
        × (self_trade o e ≡ false))
unfolding check_order reject
passes_check o e =
    let ids = insert o.order_id tt e.seen_order_ids in
    (
      (λ h. ground (
        arith,
        same_position o e ids e.total_checked,
        same_band o e ids e.total_checked,
        same_side o e ids e.total_checked,
      )),
      λ h. ground (
        arith,
        same_position o e ids e.total_checked,
        same_band o e ids e.total_checked,
        same_side o e ids e.total_checked,
      ),
    )

pub outcome :
    (o : Order) (e : RiskEngine)
    → e.circuit_breaker.held ≡ false
    → (r : RiskResult) × (e' : RiskEngine) × (check_pre_trade o e ≡ some (r, e'))
      × ((r.approved ≡ true) ↔ Passes o e)
unfolding check_pre_trade reject
outcome o e free =
    let n = (e.total_checked + 1) % 2 ^ 64 in
    let counted : RiskEngine = record e { total_checked = n } in
    let p = passes_check o counted in
    let ids = e.seen_order_ids in
    elim (Option-cases (CircuitBreaker.is_halted o.symbol e.circuit_breaker)) [
      | inl e ↦ absurd (unfold CircuitBreaker.is_halted in ground arith)
      | inr (true, h) ↦ (
        record { approved = false; reason = codes "CIRCUIT_BREAKER_HALT" },
        (reject (codes "CIRCUIT_BREAKER_HALT") counted).1,
        rw h refl,
        (λ a. absurd (ground arith), λ q. absurd (ground arith)),
      )
      | inr (false, h) ↦ (
        (check_order o counted).0,
        (check_order o counted).1,
        rw h refl,
        (
          λ a.
              let q = p.0 a in
              (
                h,
                q.0,
                q.1,
                rw (same_position o e ids n) at q.2,
                rw (same_band o e ids n) at q.3,
                rw (same_side o e ids n) at q.4,
              ),
          λ q. ground (arith, p, same_position o e ids n, same_band o e ids n, same_side o e ids n),
        ),
      )
    ]

-- While the breaker's mutex is free, for a price and a quantity of at least 0, whose product is
-- below 2^63, a price and a last price below 2^49, and a quantity and a position below 2^62: the
-- call returns, and it approves exactly the orders whose symbol is not flagged as halted, whose id
-- is not on record, whose value is at most 5,000,000 (of 10^8 units), that keep the position within
-- 10,000 shares either way, whose price is less than 1001 basis points from a positive last price
-- (if the price is positive), and whose account has no order on record on the other side. Beyond
-- that range the product of price and quantity may overflow, and nothing is said.
pub check_pre_trade_lem :
    (o : Order) (e : RiskEngine)
    → e.circuit_breaker.held ≡ false
    → IsOrdinary o e
    → (r : RiskResult) × (e' : RiskEngine) × (check_pre_trade o e ≡ some (r, e'))
      × ((r.approved ≡ true) ↔ IsAllowed o e)
unfolding over_notional over_position
check_pre_trade_lem o e free i =
    let (r, e', run, both) = outcome o e free in
    let n = over_notional_iff o.price o.quantity i.price i.quantity i.notional_fits in
    let p =
      over_position_iff o.side (get_net_position o.account_id o.symbol e) o.quantity i.long_fits
        i.short_fits i.quantity_fits i.quantity in
    let b = fat_finger_iff o e i in
    let ru = running_iff o e free in
    let un = unseen_iff o.order_id e.seen_order_ids in
    let st = self_trade_iff o e in
    (
      r,
      e',
      run,
      (
        (λ a.
            let (h, s, nn, po, fi, si) = both.0 a in
            record {
              running = ru.0 h;
              unseen = un.0 s;
              notional = n.0 nn;
              position = p.0 po;
              band = b.0 fi;
              one_sided = st.0 si;
            }),
        λ a. both.1 (
          ru.1 a.running,
          un.1 a.unseen,
          n.1 a.notional,
          p.1 a.position,
          b.1 a.band,
          st.1 a.one_sided,
        ),
      ),
    )
