-- ===== src/Engine/Sweep/Index.antt =====
-- The order index: as a map it is the search for an id among the resting orders, whose ids differ.
use titan_x.Prelude.{
  suc, ◌≡◌, refl, sym, ◌∙◌, Bool, List, [], ◌∷◌, ◌++◌, append-nil, Option-cases, Option, none, some,
  length, if◌then◌else◌, arith, Bool-cases, inl, inr,
}
use titan_x.Prelude.Int.{ℤ, ◌-ℤ◌, min_ℤ}
use titan_x.Prelude.Text.{Text, text_eq, text_eq_iff}
use titan_x.Prelude.Map.{Map, lookup, insert, erase, lookup-insert, lookup-erase}
use titan_x.Model.Order
use titan_x.Model.Order.{Order}
use titan_x.Model.Trade
use titan_x.Engine.Levels.{Level, flat}
use titan_x.Engine.Sweep.{Sweep, fill, match_levels}
use titan_x.Engine.Sweep.Structure.{is_left}
use titan_x.Engine.Sweep.Rule.{match_levels_inv}

-- The first order with an id.
unfoldable pub find : Text → List Order → Option Order
find id [] = none
find id (o ∷ os) = if text_eq o.order_id id then some o else find id os

-- No id occurs twice.
abbrev pub AreDistinct : List Order → Type 0
AreDistinct [] = Unit
AreDistinct (o ∷ os) = (find o.order_id os ≡ none) × AreDistinct os

-- The index holds the resting orders, all of them and nothing else.
pub record Agrees (index : Map Order) (os : List Order) : Type 0 where
  pub finds : (id : Text) → lookup id index ≡ find id os
  pub distinct : AreDistinct os

pub find-append :
    (id : Text) (xs ys : List Order)
    → find id (xs ++ ys) ≡ elim (find id xs) [ none ↦ find id ys | some o ↦ some o ]
unfolding find
find-append id [] ys = refl
find-append id (x ∷ xs) ys = ground (arith, find-append id xs ys)

module _ (index : Map Order) (o : Order) (os : List Order) (h : Agrees index (o ∷ os)) where
  pub replace-Agrees :
      (u : Order) → u.order_id ≡ o.order_id → Agrees (insert u.order_id u index) (u ∷ os)
  unfolding find
  replace-Agrees u e = record {
    finds = λ id. ground (arith, lookup-insert u.order_id id u index, h.finds id);
    distinct = ground (arith, h.distinct);
  }

  pub erase-Agrees : Agrees (erase o.order_id index) os
  unfolding find
  erase-Agrees = record {
    finds = λ id. ground (
      arith,
      lookup-erase o.order_id id index,
      h.finds id,
      h.distinct.0,
      text_eq_iff o.order_id id,
    );
    distinct = h.distinct.1;
  }

module _ (crosses : ℤ → Bool) (a : Order) (others : List Order) where
  abbrev Indexed : Sweep → List Level → Type 0
  Indexed s ls = Agrees s.index (flat ls ++ others)

  fill-Indexed :
      (p : ℤ) (o : Order) (rest : List Order) (ls : List Level) (s : Sweep)
      → Indexed s (record { price = p; queue = o ∷ rest } ∷ ls)
      → Indexed (fill a p o rest s).0 (record { price = p; queue = (fill a p o rest s).1 } ∷ ls)
  unfolding fill flat Order.with_remaining_quantity
  fill-Indexed p o rest ls s h =
      let qty = min_ℤ s.remaining o.remaining_quantity in
      elim (Bool-cases (is_left s o)) [
        | inl e ↦
            rw (e, fill)
              (replace-Agrees s.index o ((rest ++ flat ls) ++ others) h
                (Order.with_remaining_quantity o (o.remaining_quantity -ℤ qty)
                  (Trade.create a o p qty s.world).1).0
                refl)
        | inr e ↦ rw (e, fill) (erase-Agrees s.index o ((rest ++ flat ls) ++ others) h)
      ]

  -- The index follows every fill, whatever else rests in the book.
  pub match_levels-Agrees :
      (ls : List Level) (s : Sweep)
      → Agrees s.index (flat ls ++ others)
      → let (t, us) = match_levels (suc (length ls)) crosses a s ls in
        Agrees t.index (flat us ++ others)
  unfolding flat
  match_levels-Agrees ls s h =
      match_levels_inv Indexed crosses a (λ p o rest us t _ _ v. fill-Indexed p o rest us t v)
        (λ p us t v. v) ls s h

-- An id of the whole is found in one part only.
pub find-distinct :
    (id : Text) (xs ys : List Order) (o : Order)
    → AreDistinct (xs ++ ys)
    → find id xs ≡ some o
    → find id ys ≡ none
unfolding find
find-distinct id [] ys o d e = cc
find-distinct id (x ∷ xs) ys o d e = elim (Bool-cases (text_eq x.order_id id)) [
  | inr no_match ↦ find-distinct id xs ys o d.1 (ground arith)
  | inl hit ↦ ground (arith, text_eq_iff x.order_id id, d.0, find-append x.order_id xs ys)
]

find-swap :
    (id : Text) (xs ys : List Order)
    → AreDistinct (xs ++ ys)
    → find id (ys ++ xs) ≡ find id (xs ++ ys)
find-swap id xs ys d = elim (Option-cases (find id xs)) [
  | inl e ↦ ground (arith, find-append id ys xs, find-append id xs ys)
  | inr (o, e) ↦
      ground (arith, find-append id ys xs, find-append id xs ys, find-distinct id xs ys o d e)
]

-- An order with a new id can stand anywhere.
pub find-insert_middle :
    (id : Text) (xs ys : List Order) (o : Order)
    → find o.order_id (xs ++ ys) ≡ none
    → find id (xs ++ o ∷ ys) ≡ (if text_eq o.order_id id then some o else find id (xs ++ ys))
unfolding find
find-insert_middle id [] ys o e = refl
find-insert_middle id (x ∷ xs) ys o e = ground (
  arith,
  find-insert_middle id xs ys o,
  text_eq_iff o.order_id id,
  text_eq_iff x.order_id id,
  text_eq_iff x.order_id o.order_id,
)

pub AreDistinct-insert_middle :
    (xs ys : List Order) (o : Order)
    → find o.order_id (xs ++ ys) ≡ none
    → AreDistinct (xs ++ ys)
    → AreDistinct (xs ++ o ∷ ys)
unfolding find
AreDistinct-insert_middle [] ys o e d = (e, d)
AreDistinct-insert_middle (x ∷ xs) ys o e d = ground (
  arith,
  AreDistinct-insert_middle xs ys o,
  find-insert_middle x.order_id xs ys o,
  text_eq_iff x.order_id o.order_id,
  text_eq_iff o.order_id x.order_id,
)

AreDistinct-swap : (xs ys : List Order) → AreDistinct (xs ++ ys) → AreDistinct (ys ++ xs)
AreDistinct-swap [] ys d = rw (append-nil ys) d
AreDistinct-swap (x ∷ xs) ys d =
    AreDistinct-insert_middle ys xs x (rw (find-swap x.order_id xs ys d.1) d.0)
      (AreDistinct-swap xs ys d.1)

-- The two sides of the book may be taken in either order.
pub Agrees-swap :
    (index : Map Order) (xs ys : List Order) → Agrees index (xs ++ ys) → Agrees index (ys ++ xs)
Agrees-swap index xs ys h = record {
  finds = λ id. h.finds id ∙ sym (find-swap id xs ys h.distinct);
  distinct = AreDistinct-swap xs ys h.distinct;
}

-- Indexing a new order that is put anywhere among the resting ones.
pub insert-Agrees :
    (index : Map Order) (xs ys : List Order) (o : Order)
    → Agrees index (xs ++ ys)
    → find o.order_id (xs ++ ys) ≡ none
    → Agrees (insert o.order_id o index) (xs ++ o ∷ ys)
insert-Agrees index xs ys o h e = record {
  finds = λ id.
      rw (lookup-insert o.order_id id o index, find-insert_middle id xs ys o e, h.finds id) refl;
  distinct = AreDistinct-insert_middle xs ys o e h.distinct;
}

module _ (crosses : ℤ → Bool) (a : Order) (id : Text) (others : List Order) where
  -- Matching brings no id into the book.
  pub match_levels-fresh :
      (ls : List Level) (s : Sweep)
      → find id (flat ls ++ others) ≡ none
      → find id (flat (match_levels (suc (length ls)) crosses a s ls).1 ++ others) ≡ none
  unfolding flat
  match_levels-fresh =
      match_levels_inv (λ _ ls. find id (flat ls ++ others) ≡ none) crosses a
        (λ p o rest ls s _ _ h. step p o rest ls s h) (λ p ls s h. h)
    where
      step :
          (p : ℤ) (o : Order) (rest : List Order) (ls : List Level) (s : Sweep)
          → find id ((o ∷ rest ++ flat ls) ++ others) ≡ none
          → find id (((fill a p o rest s).1 ++ flat ls) ++ others) ≡ none
      step p o rest ls s h = unfold fill find Order.with_remaining_quantity in ground arith

-- The same, with the side that is walked behind the others.
pub find-swap_none :
    (id : Text) (xs ys : List Order) → find id (xs ++ ys) ≡ none → find id (ys ++ xs) ≡ none
find-swap_none id xs ys h = ground (arith, find-append id xs ys, find-append id ys xs)
