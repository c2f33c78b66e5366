-- ===== src/Risk/RiskEngine/Limits.antt =====
-- The limits of the risk engine in exact arithmetic: what its tests on wrapped 64-bit values amount
-- to while the values fit.
use titan_x.Prelude.{
  ℕ, ◌+◌, ◌*◌, ◌/◌, ◌^◌, ◌-◌, ◌<◌, ◌≤◌, ◌≡◌, ◌↔◌, false, if◌then◌else◌, arith, ltb, Bool-cases, inl,
  inr,
}
use titan_x.Prelude.Int.{
  ℤ, pos, negsuc, pos_part, neg_part, ltb_ℤ, ◌+ℤ◌, ◌-ℤ◌, ◌*ℤ◌, ◌/ℤ◌, abs, wrap, sub_ℕ,
}
use titan_x.Model.OrderSide.{OrderSide, buy, sell, is_buy_side}
use titan_x.Risk.RiskEngine.{max_notional_fixed, max_position_shares, fat_finger_bps, deviation_bps}

wrap-sub_ℕ : (x y n : ℕ) → x ≡ n → y ≡ 0 → n < 2 ^ 63 → wrap (sub_ℕ x y) ≡ pos n
unfolding wrap
wrap-sub_ℕ x y n h k b = ground arith

small_mul : (m n : ℕ) → m * n < 2 ^ 63 → pos m *ℤ pos n ≡ pos (m * n)
unfolding ◌*ℤ◌
small_mul m n h = wrap-sub_ℕ (m * n + 0 * 0) (m * 0 + 0 * n) (m * n) (omega arith) (omega arith) h

small_div : (m n : ℕ) → m < 2 ^ 63 → pos m /ℤ pos n ≡ pos (m / n)
unfolding ◌/ℤ◌
small_div m n h =
    wrap-sub_ℕ (m / n + 0 / 0) (m / 0 + 0 / n) (m / n) (omega arith) (omega arith) (omega arith)

abs_sub : (m n : ℕ) → m < 2 ^ 62 → n < 2 ^ 62 → abs (pos m -ℤ pos n) ≡ pos ((m - n) + (n - m))
unfolding abs ◌-ℤ◌
abs_sub m n h k = ground arith

pub over_notional_iff :
    (p q : ℤ)
    → neg_part p ≡ 0
    → neg_part q ≡ 0
    → pos_part p * pos_part q < 2 ^ 63
    → ((if ltb_ℤ (pos 0) p then ltb_ℤ max_notional_fixed (p *ℤ q) else false) ≡ false)
      ↔ (pos_part p * pos_part q ≤ 5000000 * 100000000)
over_notional_iff (pos m) (pos n) h k b = rw (small_mul m n b) (grind arith, grind arith)
over_notional_iff (negsuc m) q h k b = absurd (omega arith)
over_notional_iff p (negsuc n) h k b = absurd (omega arith)

-- The position stays within 10,000 shares either way.
abbrev pub Within : OrderSide → ℤ → ℤ → Type 0
Within buy net q =
    (pos_part net + pos_part q ≤ 10000 + neg_part net)
    × (neg_part net ≤ 10000 + pos_part net + pos_part q)
Within sell net q =
    (pos_part net ≤ 10000 + neg_part net + pos_part q)
    × (neg_part net + pos_part q ≤ 10000 + pos_part net)

pub over_position_iff :
    (s : OrderSide) (net q : ℤ)
    → pos_part net < 2 ^ 62
    → neg_part net < 2 ^ 62
    → pos_part q < 2 ^ 62
    → neg_part q ≡ 0
    → (ltb_ℤ max_position_shares (abs (if is_buy_side s then net +ℤ q else net -ℤ q)) ≡ false)
      ↔ Within s net q
unfolding abs ◌+ℤ◌ ◌-ℤ◌
over_position_iff s net (negsuc n) a b c d = absurd (omega arith)
over_position_iff buy (pos m) (pos n) a b c d = (λ h. ground arith, λ h. ground arith)
over_position_iff buy (negsuc m) (pos n) a b c d = (λ h. ground arith, λ h. ground arith)
over_position_iff sell (pos m) (pos n) a b c d = (λ h. ground arith, λ h. ground arith)
over_position_iff sell (negsuc m) (pos n) a b c d = (λ h. ground arith, λ h. ground arith)

-- Less than 1001 basis points from the last price, in either direction.
abbrev pub Near : ℕ → ℕ → Type 0
Near p l = ((p - l) + (l - p)) * 10000 < 1001 * l

div-le_iff : (x l : ℕ) → 0 < l → (x / l ≤ 1000) ↔ (x < 1001 * l)
div-le_iff x l h = (λ k. grind arith, λ k. grind arith)

pub deviation_lem :
    (p l : ℕ)
    → p < 2 ^ 49
    → l < 2 ^ 49
    → deviation_bps (pos p) (pos l) ≡ pos (((p - l) + (l - p)) * 10000 / l)
unfolding deviation_bps
deviation_lem p l h k =
    rw (abs_sub p l (omega arith) (omega arith), small_mul ((p - l) + (l - p)) 10000 (omega arith))
      (small_div (((p - l) + (l - p)) * 10000) l (omega arith))

pub band_iff :
    (p l : ℤ)
    → neg_part p ≡ 0
    → pos_part p < 2 ^ 49
    → pos_part l < 2 ^ 49
    → ((if ltb_ℤ (pos 0) p
          then if ltb_ℤ (pos 0) l then ltb_ℤ fat_finger_bps (deviation_bps p l) else false
          else false)
        ≡ false)
      ↔ (0 < pos_part l → 0 < pos_part p → Near (pos_part p) (pos_part l))
band_iff (negsuc m) l h k j = absurd (omega arith)
band_iff (pos m) (negsuc n) h k j = ((λ e a b. absurd (omega arith)), λ e. ground arith)
band_iff (pos m) (pos n) h k j = rw (deviation_lem m n k j) (
  (λ e a b. (div-le_iff (((m - n) + (n - m)) * 10000) n a).0 (ground arith)),
  λ e. elim (Bool-cases (ltb 0 n)) [
    | inr z ↦ ground arith
    | inl y ↦ elim (Bool-cases (ltb 0 m)) [
      | inr z ↦ ground arith
      | inl x ↦
          let d =
            (div-le_iff (((m - n) + (n - m)) * 10000) n (ground arith)).1
              (e (ground arith) (ground arith)) in
          ground arith
    ]
  ],
)
