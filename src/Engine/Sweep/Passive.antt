-- ===== src/Engine/Sweep/Passive.antt =====
-- Whom the matching loop trades with: the accounts of the orders that rest on the side it walks.
use titan_x.Prelude.{◌≡◌, refl, Bool, List, ◌∷◌, suc, length, All, All-append, Bool-cases, inl, inr}
use titan_x.Prelude.Int.{ℤ, pos, ltb_ℤ, ◌-ℤ◌, min_ℤ}
use titan_x.Prelude.Text.{Text}
use titan_x.Model.Order
use titan_x.Model.Order.{Order}
use titan_x.Model.Trade
use titan_x.Model.Trade.{Trade}
use titan_x.Engine.Levels.{Level}
use titan_x.Engine.Sweep.{Sweep, fill, match_levels}
use titan_x.Engine.Sweep.Rule.{match_levels_inv}

module _ (Q : Text → Type 0) where
  -- Every order of the side is of an account with the predicate.
  abbrev pub AreOwned : List Level → Type 0
  AreOwned ls = All (λ (l : Level). All (λ (o : Order). Q o.account_id) l.queue) ls

  -- The trades of an order, each against an account with the predicate.
  abbrev pub AreTradesOf : Order → List Trade → Type 0
  AreTradesOf a ts =
      All (λ (t : Trade). (t.aggressor_account_id ≡ a.account_id) × Q t.passive_account_id) ts

  fill-AreTradesOf :
      (a : Order) (p : ℤ) (o : Order) (rest : List Order) (s : Sweep)
      → All (λ (o : Order). Q o.account_id) (o ∷ rest)
      → AreTradesOf a s.trades
      → All (λ (o : Order). Q o.account_id) (fill a p o rest s).1
        × AreTradesOf a (fill a p o rest s).0.trades
  unfolding fill Order.with_remaining_quantity Trade.create
  fill-AreTradesOf a p o rest s h k =
      let appended =
        All-append (λ (t : Trade). (t.aggressor_account_id ≡ a.account_id) × Q t.passive_account_id)
          s.trades _ k ((refl, h.0), tt) in
      elim (Bool-cases
        (ltb_ℤ (pos 0) (o.remaining_quantity -ℤ min_ℤ s.remaining o.remaining_quantity))) [
          | inl e ↦ rw e (h, appended)
          | inr e ↦ rw e (h.1, appended)
        ]

  pub match_levels-AreTradesOf :
      (crosses : ℤ → Bool) (a : Order) (ls : List Level) (s : Sweep)
      → AreOwned ls
      → AreTradesOf a s.trades
      → AreTradesOf a (match_levels (suc (length ls)) crosses a s ls).0.trades
  match_levels-AreTradesOf crosses a ls s h k =
      (match_levels_inv (λ s ls. AreOwned ls × AreTradesOf a s.trades) crosses a
        (λ p o rest ls s e c v.
          let f = fill-AreTradesOf a p o rest s v.0.0 v.1 in ((f.0, v.0.1), f.1))
        (λ p ls s v. (v.0.1, v.1)) ls s (h, k)).1
