-- ===== src/Simulation/Sorting.antt =====
-- The sorted latencies: order, length and elements.
use titan_x.Prelude.{
  ℕ, zero, suc, ◌≤◌, ◌<◌, ◌≡◌, refl, ap, ◌∙◌, subst, List, [], ◌∷◌, some, length, get_elem?, leb,
  All, arith, Bool-cases, inl, inr,
}
use titan_x.Simulation.Report.{place, sort, last}

-- Every element is at most those behind it.
abbrev pub IsSorted : List ℕ → Type 0
IsSorted [] = Unit
IsSorted (x ∷ xs) = All (λ y. x ≤ y) xs × IsSorted xs

module _ (P : ℕ → Type 0) where
  place-All : (x : ℕ) (ys : List ℕ) → P x → All P ys → All P (place x ys)
  unfolding place
  place-All x [] p h = (p, tt)
  place-All x (y ∷ ys) p h =
      let rest = place-All x ys p h.1 in
      elim (Bool-cases (leb x y)) [ inl e ↦ rw e (p, h) | inr e ↦ rw e (h.0, rest) ]

  All-place : (x : ℕ) (ys : List ℕ) → All P (place x ys) → P x × All P ys
  unfolding place
  All-place x [] h = h
  All-place x (y ∷ ys) h = elim (Bool-cases (leb x y)) [
    | inl e ↦ let k = rw e at h in (k.0, k.1)
    | inr e ↦ let k = rw e at h in let r = All-place x ys k.1 in (r.0, (k.0, r.1))
  ]

  pub All-sort : (xs : List ℕ) → All P (sort xs) → All P xs
  unfolding sort
  All-sort [] h = tt
  All-sort (x ∷ xs) h = let r = All-place x (sort xs) h in (r.0, All-sort xs r.1)

  All-get_elem? : (xs : List ℕ) (i a : ℕ) → All P xs → get_elem? xs i ≡ some a → P a
  All-get_elem? [] i a h e = cc
  All-get_elem? (x ∷ xs) zero a h e = let same : x ≡ a = ground (arith, e) in subst P same h.0
  All-get_elem? (x ∷ xs) (suc i) a h e = All-get_elem? xs i a h.1 e

All-weaken : (P Q : ℕ → Type 0) (xs : List ℕ) → ((x : ℕ) → P x → Q x) → All P xs → All Q xs
All-weaken P Q [] f h = tt
All-weaken P Q (x ∷ xs) f h = (f x h.0, All-weaken P Q xs f h.1)

place-IsSorted : (x : ℕ) (ys : List ℕ) → IsSorted ys → IsSorted (place x ys)
unfolding place
place-IsSorted x [] h = (tt, tt)
place-IsSorted x (y ∷ ys) h =
    let rest = place-IsSorted x ys h.1 in
    elim (Bool-cases (leb x y)) [
      | inl e ↦
          let below : x ≤ y = ground (arith, e) in
          rw e (
            (below, All-weaken (λ z. y ≤ z) (λ z. x ≤ z) ys (λ z k. omega (arith, below, k)) h.0),
            h,
          )
      | inr e ↦ rw e (place-All (λ z. y ≤ z) x ys (ground (arith, e)) h.0, rest)
    ]

pub sort-IsSorted : (xs : List ℕ) → IsSorted (sort xs)
unfolding sort
sort-IsSorted [] = tt
sort-IsSorted (x ∷ xs) = place-IsSorted x (sort xs) (sort-IsSorted xs)

length-place : (x : ℕ) (ys : List ℕ) → length (place x ys) ≡ suc (length ys)
unfolding place
length-place x [] = refl
length-place x (y ∷ ys) = let rest = length-place x ys in ground arith

pub length-sort : (xs : List ℕ) → length (sort xs) ≡ length xs
unfolding sort
length-sort [] = refl
length-sort (x ∷ xs) = length-place x (sort xs) ∙ ap suc (length-sort xs)

pub get_elem?-mono :
    (ls : List ℕ) (i j a b : ℕ)
    → IsSorted ls
    → i ≤ j
    → get_elem? ls i ≡ some a
    → get_elem? ls j ≡ some b
    → a ≤ b
get_elem?-mono [] i j a b h k d e = cc
get_elem?-mono (x ∷ xs) zero zero a b h k d e = ground (arith, d, e)
get_elem?-mono (x ∷ xs) zero (suc j) a b h k d e =
    let below = All-get_elem? (λ y. x ≤ y) xs j b h.0 e in ground (arith, below, d)
get_elem?-mono (x ∷ xs) (suc i) zero a b h k d e = absurd (omega (arith, k))
get_elem?-mono (x ∷ xs) (suc i) (suc j) a b h k d e =
    get_elem?-mono xs i j a b h.1 (omega (arith, k)) d e

pub get_elem?-total : (ls : List ℕ) (i : ℕ) → i < length ls → (a : ℕ) × (get_elem? ls i ≡ some a)
get_elem?-total [] i h = absurd (omega (arith, h))
get_elem?-total (x ∷ xs) zero h = (x, refl)
get_elem?-total (x ∷ xs) (suc i) h = get_elem?-total xs i (omega (arith, h))

pub last-get_elem? :
    (x : ℕ) (xs : List ℕ)
    → (a : ℕ) × (last (x ∷ xs) ≡ some a) × (get_elem? (x ∷ xs) (length xs) ≡ some a)
last-get_elem? x [] = (x, refl, refl)
last-get_elem? x (y ∷ ys) = let (a, e, d) = last-get_elem? y ys in (a, ground (arith, e), d)

pub within :
    (x : ℕ) (xs : List ℕ) (g : ℕ)
    → IsSorted (x ∷ xs)
    → last (x ∷ xs) ≡ some g
    → All (λ y. (x ≤ y) × (y ≤ g)) (x ∷ xs)
within x [] g h e = ((omega arith, ground (arith, e)), tt)
within x (y ∷ ys) g h e =
    let (a, l, _) = last-get_elem? y ys in
    let same : a ≡ g = ground (arith, e, l) in
    let rest = within y ys g h.1 (l ∙ ap some same) in
    let first = h.0.0 in
    (
      (omega arith, omega (arith, first, rest.0.1)),
      All-weaken (λ z. (y ≤ z) × (z ≤ g)) (λ z. (x ≤ z) × (z ≤ g)) (y ∷ ys)
          (λ z k. (omega (arith, k, first), k.1)) rest,
    )
