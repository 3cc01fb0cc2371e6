-- ===== src/Analyser/Sorted.antt =====
-- The sorted addresses of a scattered access of DataAnalyser.cpp.
use mmt_sync.Base.{ℕ, ◌≤◌, ◌≡◌, refl, subst, List, [], ◌∷◌, true, leb, inl, inr, Bool-cases, arith}
use mmt_sync.Analyser.Defs.{insert, sort}
use mmt_sync.Analyser.Memory.{last_or, all_steps, all_equal_to, is_uniform}

abbrev pub All : (ℕ → Type 0) → List ℕ → Type 0
All P [] = Unit {0}
All P (x ∷ xs) = P x × All P xs

-- Each entry is at least the one before it, the first at least `lo`.
abbrev pub Ascending : ℕ → List ℕ → Type 0
Ascending lo [] = Unit {0}
Ascending lo (x ∷ xs) = (lo ≤ x) × Ascending x xs

insert-Ascending : (a lo : ℕ) (xs : List ℕ) → lo ≤ a → Ascending lo xs → Ascending lo (insert a xs)
unfolding insert
insert-Ascending a lo [] le h = (le, tt)
insert-Ascending a lo (x ∷ xs) le (le', h) = elim (Bool-cases (leb a x)) [
  | inl before ↦ rw before (le, (ground arith, h))
  | inr after ↦ rw after (le', insert-Ascending a x xs (ground arith) h)
]

pub sort-Ascending : (xs : List ℕ) → Ascending 0 (sort xs)
unfolding sort
sort-Ascending [] = tt
sort-Ascending (x ∷ xs) = insert-Ascending x 0 (sort xs) (omega arith) (sort-Ascending xs)

module _ (P : ℕ → Type 0) where
  insert-All : (a : ℕ) (xs : List ℕ) → P a → All P xs → All P (insert a xs)
  unfolding insert
  insert-All a [] p h = (p, tt)
  insert-All a (x ∷ xs) p (q, h) = elim (Bool-cases (leb a x)) [
    | inl before ↦ rw before (p, (q, h))
    | inr after ↦ rw after (q, insert-All a xs p h)
  ]

  All-insert : (a : ℕ) (xs : List ℕ) → All P (insert a xs) → P a × All P xs
  unfolding insert
  All-insert a [] = λ h. h
  All-insert a (x ∷ xs) = elim (Bool-cases (leb a x)) [
    | inl before ↦ rw before (λ h. h)
    | inr after ↦ rw after (λ h. let (p, rest) = All-insert a xs h.1 in (p, (h.0, rest)))
  ]

  pub sort-All : (xs : List ℕ) → All P xs → All P (sort xs)
  unfolding sort
  sort-All [] h = tt
  sort-All (x ∷ xs) (p, h) = insert-All x (sort xs) p (sort-All xs h)

  pub All-sort : (xs : List ℕ) → All P (sort xs) → All P xs
  unfolding sort
  All-sort [] h = tt
  All-sort (x ∷ xs) h = let (p, rest) = All-insert x (sort xs) h in (p, All-sort xs rest)

  pub last_or-All : (x : ℕ) (xs : List ℕ) → P x → All P xs → P (last_or x xs)
  unfolding last_or
  last_or-All x [] p h = p
  last_or-All x (y ∷ ys) p (q, h) = last_or-All y ys q h

pub last_or-le : (lo : ℕ) (xs : List ℕ) → Ascending lo xs → lo ≤ last_or lo xs
unfolding last_or
last_or-le lo [] h = omega arith
last_or-le lo (x ∷ xs) (le, h) = omega (arith, last_or-le x xs h, le)

-- If the last entry is not above `lo`, all are `lo`.
pub flat-All : (lo : ℕ) (xs : List ℕ) → Ascending lo xs → last_or lo xs ≤ lo → All (λ x. x ≡ lo) xs
unfolding last_or
flat-All lo [] h flat = tt
flat-All lo (x ∷ xs) (le, h) flat =
    let same : x ≡ lo = omega (arith, last_or-le x xs h) in
    (same, subst (λ m. All (λ y. y ≡ m) xs) same (flat-All x xs h (omega (arith, le))))

-- Steps of 0 keep the entry.
pub steps-All :
    (prev : ℕ) (xs : List ℕ)
    → Ascending prev xs
    → all_steps 0 prev xs ≡ true
    → All (λ x. x ≡ prev) xs
unfolding all_steps
steps-All prev [] h e = tt
steps-All prev (x ∷ xs) (le, h) e =
    let same : x ≡ prev = ground arith in
    (same, subst (λ m. All (λ y. y ≡ m) xs) same (steps-All x xs h (ground arith)))

pub All-is_uniform : (v : ℕ) (xs : List ℕ) → All (λ x. x ≡ v) xs → is_uniform xs ≡ true
unfolding is_uniform all_equal_to
All-is_uniform v [] h = refl
All-is_uniform v (x ∷ xs) (same, h) = same_as xs h
  where
    same_as : (ys : List ℕ) → All (λ y. y ≡ v) ys → all_equal_to x ys ≡ true
    same_as [] g = refl
    same_as (y ∷ ys) (q, g) = let rest = same_as ys g in ground arith
