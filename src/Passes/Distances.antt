-- ===== src/Passes/Distances.antt =====
-- LongestPath.cpp: no path is longer than `floyd_warshall` says.
use mmt_sync.Base.{
  ℕ, suc, ◌+◌, ◌<◌, ◌≤◌, ◌≡◌, ◌⊎◌, sym, ap, ◌∙◌, subst, List, ◌==◌, ==_iff, ==_refl, if_true,
  if_elim, if◌then◌else◌, true, ok, err, out_of_bounds, Bool-cases, inl, inr, update, arith,
}
use mmt_sync.Base.Int.{ℤ, pos_part, neg_part, ◌+ℤ◌, ◌≤ℤ◌, ltb_ℤ}
use mmt_sync.Passes.Floyd.{Distances, relax, fits_int}
use mmt_sync.Passes.Acyclic.{Among, Ends, ends}

-- A path of so many edges, with its blocks but the first and the last below k.
pub data PathBelow (succ : ℕ → List ℕ) (k : ℕ) : ℕ → ℕ → ℕ → Type 0 where
  edge : {i j : ℕ} → Among j (succ i) → PathBelow succ k i j 1
  step :
      {i v j l : ℕ}
      → Among v (succ i)
      → v < k
      → PathBelow succ k v j l
      → PathBelow succ k i j (suc l)

-- A path whose blocks are below k + 1 is one below k, or passes k.
PathBelow-split :
    (succ : ℕ → List ℕ) (k i j l : ℕ)
    → PathBelow succ (suc k) i j l
    → PathBelow succ k i j l
      ⊎ ((a b : ℕ) × PathBelow succ k i k a × PathBelow succ (suc k) k j b × (a + b ≡ l))
PathBelow-split succ k i j _ (edge m) = inl (edge m)
PathBelow-split succ k i j _ (step {v = v} {l = rest} m lt p) = elim (Bool-cases (v == k)) [
  | inl e ↦
      let at : v ≡ k = (==_iff v k).0 e in
      inr (
        1,
        rest,
        edge (subst (λ w. Among w (succ i)) at m),
        subst (λ w. PathBelow succ (suc k) w j rest) at p,
        omega arith,
      )
  | inr ne ↦ elim (PathBelow-split succ k v j rest p) [
    | inl q ↦ inl (step m (ground arith) q)
    | inr (a, b, p1, p2, e) ↦ inr (suc a, b, step m (ground arith) p1, p2, omega arith)
  ]
]

-- The same without bounds, to follow where every path ends.
pub data Reaches (succ : ℕ → List ℕ) : ℕ → ℕ → Type 0 where
  one : {u v : ℕ} → Among v (succ u) → Reaches succ u v
  more : {u v w : ℕ} → Among v (succ u) → Reaches succ v w → Reaches succ u w

Reaches-snoc :
    (succ : ℕ → List ℕ) (u v w : ℕ) → Reaches succ u v → Among w (succ v) → Reaches succ u w
Reaches-snoc succ u v w (one m) last = more m (one last)
Reaches-snoc succ u v w (more {v = x} m r) last = more m (Reaches-snoc succ x v w r last)

pub PathBelow-Reaches :
    (succ : ℕ → List ℕ) (k i j l : ℕ) → PathBelow succ k i j l → Reaches succ i j
PathBelow-Reaches succ k i j _ (edge m) = one m
PathBelow-Reaches succ k i j _ (step {v = v} {l = rest} m lt p) =
    more m (PathBelow-Reaches succ k v j rest p)

no_cycle : (succ : ℕ → List ℕ) (u : ℕ) → Ends succ u → Reaches succ u u → ⊥
no_cycle succ u (ends f) (one m) = no_cycle succ u (f u m) (one m)
no_cycle succ u (ends f) (more {v = v} m r) = no_cycle succ v (f v m) (Reaches-snoc succ v u v r m)

pub Ends-Reaches : (succ : ℕ → List ℕ) (u v : ℕ) → Ends succ u → Reaches succ u v → Ends succ v
Ends-Reaches succ u v (ends f) (one m) = f v m
Ends-Reaches succ u v (ends f) (more {v = x} m r) = Ends-Reaches succ x v (f x m) r

-- From a block from which every path ends, a path that passes k does so once.
pub PathBelow-once :
    (succ : ℕ → List ℕ) (k i j l : ℕ)
    → Ends succ i
    → PathBelow succ (suc k) i j l
    → PathBelow succ k i j l
      ⊎ ((a b : ℕ) × PathBelow succ k i k a × PathBelow succ k k j b × (a + b ≡ l))
PathBelow-once succ k i j l h p = elim (PathBelow-split succ k i j l p) [
  | inl q ↦ inl q
  | inr (a, b, p1, p2, e) ↦
      let here : Ends succ k = Ends-Reaches succ i k h (PathBelow-Reaches succ k i k a p1) in
      elim (PathBelow-split succ k k j b p2) [
        | inl q ↦ inr (a, b, p1, q, e)
        | inr (c, d, back, rest, f) ↦
            absurd (no_cycle succ k here (PathBelow-Reaches succ k k k c back))
      ]
]

-- A distance that counts at least so many edges.
abbrev pub Counts : ℤ → ℕ → Type 0
Counts d l = pos_part d + l ≤ neg_part d

-- What a round of the inner loop leaves where `nov` is an `int`.
abbrev pub lowered : ℕ → ℕ → ℕ → Distances → Distances
lowered k i j d =
    let nov = d i k +ℤ d k j in if ltb_ℤ nov (d i j) then update d i (update (d i) j nov) else d

pub relax_ok :
    (k i j : ℕ) (d : Distances)
    → fits_int (d i k +ℤ d k j) ≡ true
    → relax k i j d ≡ ok (lowered k i j d)
unfolding relax
relax_ok k i j d fits =
    if_true (fits_int (d i k +ℤ d k j)) (ok (lowered k i j d)) (err out_of_bounds) fits

-- What holds of every distance, and of the sum if it is lower, holds after the round.
pub lowered_all :
    (P : ℕ → ℕ → ℤ → Type 0) (k i j : ℕ) (d : Distances)
    → ((a b : ℕ) → P a b (d a b))
    → (ltb_ℤ (d i k +ℤ d k j) (d i j) ≡ true → P i j (d i k +ℤ d k j))
    → (a b : ℕ) → P a b (lowered k i j d a b)
lowered_all P k i j d h new a b =
    let nov = d i k +ℤ d k j in
    if_elim (λ (e : Distances). P a b (e a b)) (ltb_ℤ nov (d i j)) _ d
      (λ lower.
        if_elim (λ (r : ℕ → ℤ). P a b (r b)) (i == a) _ (d a)
          (λ row.
            let at : i ≡ a = (==_iff i a).0 row in
            if_elim (P a b) (j == b) nov (d i b)
              (λ col.
                subst (λ x. P x b nov) at (subst (λ y. P i y nov) ((==_iff j b).0 col) (new lower)))
              (λ other. subst (λ x. P x b (d i b)) at (h i b)))
          (λ other. h a b))
      (λ same. h a b)

pub lowered-le : (k i j : ℕ) (d : Distances) (a b : ℕ) → lowered k i j d a b ≤ℤ d a b
lowered-le k i j d =
    lowered_all (λ a b v. v ≤ℤ d a b) k i j d (λ a b. omega arith) (λ lower. ground arith)

pub lowered-sum : (k i j : ℕ) (d : Distances) → lowered k i j d i j ≤ℤ (d i k +ℤ d k j)
lowered-sum k i j d =
    let nov = d i k +ℤ d k j in
    if_elim (λ (e : Distances). e i j ≤ℤ nov) (ltb_ℤ nov (d i j)) _ d
      (λ lower.
        subst (λ x. x ≤ℤ nov)
          (sym (
            ap (λ (r : ℕ → ℤ). r j) (if_true (i == i) (update (d i) j nov) (d i) (==_refl i))
            ∙ if_true (j == j) nov (d i j) (==_refl j)))
          (omega arith))
      (λ same. ground arith)
