-- ===== src/Risk/RiskEngine/History.antt =====
-- What the risk engine never forgets: the ids that it saw and the sides that an account has taken.
use titan_x.Prelude.{
  ℕ, ◌+◌, ◌%◌, ◌^◌, ◌≡◌, ◌≢◌, refl, Bool, true, false, [], ◌∷◌, some, if◌then◌else◌, arith,
}
use titan_x.Prelude.Int.{ℤ}
use titan_x.Prelude.Text.{Text, text_eq_refl}
use titan_x.Prelude.Map.{Map, insert, lookup-insert}
use titan_x.Model.OrderSide.{OrderSide, buy, sell, is_buy_side}
use titan_x.Model.Order.{Order, is_buy}
use titan_x.Risk.CircuitBreaker.{CircuitBreaker}
use titan_x.Risk.RiskEngine.{
  RiskEngine, RiskResult, TextSet, has, active, add_active, reject, track_order, check_order,
  check_pre_trade, record_fill, update_last_trade_price, self_trade,
}

-- One call on the engine, or any change of the breaker that it shares.
pub data Step (e e' : RiskEngine) : Type 0 where
  checks : (o : Order) (r : RiskResult) → check_pre_trade o e ≡ some (r, e') → Step e e'
  fills :
      (account_id symbol : Text) (side : OrderSide) (quantity : ℤ)
      → e' ≡ record_fill account_id symbol side quantity e
      → Step e e'
  prices :
      (symbol : Text) (price : ℤ) (now : ℕ)
      → update_last_trade_price symbol price now e ≡ some e'
      → Step e e'
  breaks : (c : CircuitBreaker) → e' ≡ record e { circuit_breaker = c } → Step e e'

pub data Reach (e : RiskEngine) : RiskEngine → Type 0 where
  here : Reach e e
  next : {f g : RiskEngine} → Reach e f → Step f g → Reach e g

-- The account has an order on record for the side.
abbrev pub has_side : OrderSide → Text → RiskEngine → Bool
has_side side account_id e =
    active account_id (if is_buy_side side then e.active_buy_orders else e.active_sell_orders)

-- `e'` has all ids and sides that `e` has.
pub record Remembers (e e' : RiskEngine) : Type 0 where
  pub ids : (id : Text) → has id e.seen_order_ids ≡ true → has id e'.seen_order_ids ≡ true
  pub buys : (a : Text) → has_side buy a e ≡ true → has_side buy a e' ≡ true
  pub sells : (a : Text) → has_side sell a e ≡ true → has_side sell a e' ≡ true

pub Remembers-refl : (e : RiskEngine) → Remembers e e
Remembers-refl e = record { ids = λ id k. k; buys = λ a k. k; sells = λ a k. k }

pub Remembers-trans : {e f g : RiskEngine} → Remembers e f → Remembers f g → Remembers e g
Remembers-trans m n = record {
  ids = λ id k. n.ids id (m.ids id k);
  buys = λ a k. n.buys a (m.buys a k);
  sells = λ a k. n.sells a (m.sells a k);
}

has-insert : (id j : Text) (s : TextSet) → has id s ≡ true → has id (insert j tt s) ≡ true
has-insert id j s h = ground (arith, lookup-insert j id tt s)

has-insert_self : (id : Text) (s : TextSet) → has id (insert id tt s) ≡ true
has-insert_self id s = ground (arith, lookup-insert id id tt s, text_eq_refl id)

insert-nonempty : (id : Text) (s : TextSet) → insert id tt s ≢ []
unfolding insert
insert-nonempty id [] e = cc
insert-nonempty id ((j, u) ∷ s) e = ground arith

active-add_active :
    (a b id : Text) (m : Map TextSet) → active a m ≡ true → active a (add_active b id m) ≡ true
active-add_active a b id m h = grind (arith, lookup-insert, insert-nonempty)

active-add_active_self : (a id : Text) (m : Map TextSet) → active a (add_active a id m) ≡ true
active-add_active_self a id m = grind (arith, lookup-insert, insert-nonempty, text_eq_refl)

check_order-Remembers : (o : Order) (e : RiskEngine) → Remembers e (check_order o e).1
unfolding check_order reject track_order
check_order-Remembers o e = record {
  ids = λ id h. ground (arith, has-insert id o.order_id e.seen_order_ids);
  buys = λ a h. ground (arith, active-add_active a o.account_id o.order_id e.active_buy_orders);
  sells = λ a h. ground (arith, active-add_active a o.account_id o.order_id e.active_sell_orders);
}

pub check-Remembers :
    (o : Order) (e e' : RiskEngine) (r : RiskResult)
    → check_pre_trade o e ≡ some (r, e')
    → Remembers e e'
unfolding check_pre_trade reject
check-Remembers o e e' r h =
    let counted : RiskEngine = record e { total_checked = (e.total_checked + 1) % 2 ^ 64 } in
    let m = check_order-Remembers o counted in
    record {
      ids = λ id k. ground (arith, m.ids id);
      buys = λ a k. ground (arith, m.buys a);
      sells = λ a k. ground (arith, m.sells a);
    }

pub Step-Remembers : {e e' : RiskEngine} → Step e e' → Remembers e e'
unfolding record_fill update_last_trade_price
Step-Remembers {e} {e'} (checks o r h) = check-Remembers o e e' r h
Step-Remembers (fills a s side q h) = record {
  ids = λ id k. rw h k;
  buys = λ b k. rw h k;
  sells = λ b k. rw h k;
}
Step-Remembers {e} {e'} (prices s p now h) = record {
  ids = λ id k. ground arith;
  buys = λ b k. ground arith;
  sells = λ b k. ground arith;
}
Step-Remembers (breaks c h) = record {
  ids = λ id k. rw h k;
  buys = λ b k. rw h k;
  sells = λ b k. rw h k;
}

pub Reach-Remembers : {e f : RiskEngine} → Reach e f → Remembers e f
Reach-Remembers {e} here = Remembers-refl e
Reach-Remembers (next r s) = Remembers-trans (Reach-Remembers r) (Step-Remembers s)

order_records :
    (o : Order) (e : RiskEngine)
    → (check_order o e).0.approved ≡ true
    → (has o.order_id (check_order o e).1.seen_order_ids ≡ true)
      × (has_side o.side o.account_id (check_order o e).1 ≡ true)
unfolding check_order reject track_order
order_records o e h = ground (
  arith,
  has-insert_self o.order_id e.seen_order_ids,
  active-add_active_self o.account_id o.order_id e.active_buy_orders,
  active-add_active_self o.account_id o.order_id e.active_sell_orders,
)

-- An approved order is on record.
pub approved_records :
    (o : Order) (e e' : RiskEngine) (r : RiskResult)
    → check_pre_trade o e ≡ some (r, e')
    → r.approved ≡ true
    → (has o.order_id e'.seen_order_ids ≡ true) × (has_side o.side o.account_id e' ≡ true)
unfolding check_pre_trade reject
approved_records o e e' r h a =
    let counted : RiskEngine = record e { total_checked = (e.total_checked + 1) % 2 ^ 64 } in
    let m = order_records o counted in ground (arith, m)

pub refused_if_seen :
    (o : Order) (e e' : RiskEngine) (r : RiskResult)
    → check_pre_trade o e ≡ some (r, e')
    → has o.order_id e.seen_order_ids ≡ true
    → r.approved ≡ false
unfolding check_pre_trade check_order reject
refused_if_seen o e e' r h s = ground arith

pub refused_if_opposed :
    (o : Order) (e e' : RiskEngine) (r : RiskResult)
    → check_pre_trade o e ≡ some (r, e')
    → (if is_buy o then has_side sell o.account_id e else has_side buy o.account_id e) ≡ true
    → r.approved ≡ false
unfolding check_pre_trade check_order reject self_trade
refused_if_opposed o e e' r h s = ground arith

module _ (o : Order) (e f : RiskEngine) (r : RiskResult)
    (checked : check_pre_trade o e ≡ some (r, f)) (approved : r.approved ≡ true) where
  -- After an order was approved, no order with its id is approved, whatever calls of the engine and
  -- changes of the breaker come between.
  approved_once :
      (o' : Order) (g g' : RiskEngine) (r' : RiskResult)
      → Reach f g
      → o'.order_id ≡ o.order_id
      → check_pre_trade o' g ≡ some (r', g')
      → r'.approved ≡ false
  approved_once o' g g' r' reach same again =
      let seen =
        (Reach-Remembers reach).ids o.order_id (approved_records o e f r checked approved).0 in
      refused_if_seen o' g g' r' again (rw same seen)

  -- After an order of an account was approved, no order of the account for the other side is, in
  -- any symbol and whatever calls of the engine and changes of the breaker come between: nothing
  -- takes an order off the record.
  pub approved_one_side :
      (o' : Order) (g g' : RiskEngine) (r' : RiskResult)
      → Reach f g
      → o'.account_id ≡ o.account_id
      → o'.side ≢ o.side
      → check_pre_trade o' g ≡ some (r', g')
      → r'.approved ≡ false
  approved_one_side o' g g' r' reach same other again =
      refused_if_opposed o' g g' r' again
        (opposed o.side o'.side other (approved_records o e f r checked approved).1)
    where
      opposed :
          (s s' : OrderSide)
          → s' ≢ s
          → has_side s o.account_id f ≡ true
          → (if is_buy_side s' then has_side sell o'.account_id g else has_side buy o'.account_id g)
            ≡ true
      opposed buy buy ne h = absurd (ne refl)
      opposed buy sell ne h = rw same ((Reach-Remembers reach).buys o.account_id h)
      opposed sell buy ne h = rw same ((Reach-Remembers reach).sells o.account_id h)
      opposed sell sell ne h = absurd (ne refl)
