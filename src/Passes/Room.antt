-- ===== src/Passes/Room.antt =====
-- LongestPath.cpp: how much the distances of `floyd_warshall` grow in a round, and for how many blocks
-- they are `int`s.
use mmt_sync.Base.{
  ℕ, zero, suc, ◌+◌, ◌*◌, ◌^◌, ◌<◌, ◌≤◌, ◌≡◌, true, ◌==◌, ==_iff, ==_refl, if◌then◌else◌,
  Bool-cases, inl, inr, refl, sym, subst, if_elim, update, List, [], ◌∷◌, ◌-◌, arith,
}
use mmt_sync.Base.Int.{ℤ, pos, negsuc, pos_part, neg_part, ◌+ℤ◌}
use mmt_sync.Passes.Floyd.{Distances, fits_int, set_edges, first_distances}
use mmt_sync.Passes.Distances.{lowered, lowered_all}

sum_neg : (a b : ℤ) → neg_part (a +ℤ b) ≤ neg_part a + neg_part b
unfolding ◌+ℤ◌
sum_neg a b = ground arith

sum_pos : (a b : ℤ) → pos_part (a +ℤ b) ≤ pos_part a + pos_part b
unfolding ◌+ℤ◌
sum_pos a b = ground arith

-- The largest negative part after the round of block k, where none was above m before.
abbrev pub cap : ℕ → ℕ → ℕ → ℕ → ℕ
cap k m a b =
    if a == k then (if b == k then m + m else m + m + m) else if b == k then m + m + m else 6 * m

cap-le : (k m a b : ℕ) → cap k m a b ≤ 6 * m
cap-le k m a b = ground arith

-- In row i and column j of the round of block k: what is still to be visited is as before.
pub record Room (k m i j : ℕ) (e : Distances) : Type 0 where
  pub small : (a b : ℕ) → pos_part (e a b) ≤ 1
  pub wide : (a b : ℕ) → neg_part (e a b) ≤ cap k m a b
  pub rows : (a b : ℕ) → i < a → neg_part (e a b) ≤ m
  pub cells : (b : ℕ) → j ≤ b → neg_part (e i b) ≤ m

module _ (k m i j : ℕ) (e : Distances) (h : Room k m i j e) where
  sum-cap : neg_part (e i k +ℤ e k j) ≤ cap k m i j
  sum-cap =
      let sums = sum_neg (e i k) (e k j) in
      let left = h.wide i k in
      let right = h.wide k j in
      let here = h.cells j (omega arith) in
      let row : i ≡ k → neg_part (e k j) ≤ m = λ at. subst (λ x. neg_part (e x j) ≤ m) at here in
      let col : j ≡ k → neg_part (e i k) ≤ m = λ at. subst (λ y. neg_part (e i y) ≤ m) at here in
      let self = ==_refl k in
      elim (Bool-cases (i == k)) [
        | inl p ↦
            let r = row ((==_iff i k).0 p) in
            elim (Bool-cases (j == k)) [
              | inl q ↦ let c = col ((==_iff j k).0 q) in ground arith
              | inr q ↦ ground arith
            ]
        | inr p ↦ elim (Bool-cases (j == k)) [
          | inl q ↦ let c = col ((==_iff j k).0 q) in ground arith
          | inr q ↦ ground arith
        ]
      ]

  pub Room-fits : 6 * m ≤ 2 ^ 31 → fits_int (e i k +ℤ e k j) ≡ true
  Room-fits le =
      ground (arith, sum-cap, cap-le k m i j, sum_pos (e i k) (e k j), h.small i k, h.small k j, le)

  pub Room-lowered : Room k m i (suc j) (lowered k i j e)
  Room-lowered = record {
    small =
        lowered_all (λ a b v. pos_part v ≤ 1) k i j e h.small
          (λ lower. ground (arith, h.small i j, lower));
    wide = lowered_all (λ a b v. neg_part v ≤ cap k m a b) k i j e h.wide (λ lower. sum-cap);
    rows =
        lowered_all (λ a b v. i < a → neg_part v ≤ m) k i j e h.rows
          (λ lower lt. absurd (omega arith));
    cells = λ b.
        lowered_all (λ a b v. a ≡ i → suc j ≤ b → neg_part v ≤ m) k i j e
          (λ a b at le. subst (λ x. neg_part (e x b) ≤ m) (sym at) (h.cells b (omega arith)))
          (λ lower at le. absurd (omega arith)) i b refl;
  }

pub Room-next : (n k m i : ℕ) (e : Distances) → Room k m i n e → Room k m (suc i) 0 e
Room-next n k m i e h = record {
  small = h.small;
  wide = h.wide;
  rows = λ a b lt. h.rows a b (omega arith);
  cells = λ b le. h.rows (suc i) b (omega arith);
}

-- Between two rounds.
pub record Between (m : ℕ) (e : Distances) : Type 0 where
  pub small : (a b : ℕ) → pos_part (e a b) ≤ 1
  pub low : (a b : ℕ) → neg_part (e a b) ≤ m

pub Between-Room : (k m : ℕ) (e : Distances) → Between m e → Room k m 0 0 e
Between-Room k m e h = record {
  small = h.small;
  wide = λ a b. ground (arith, h.low a b);
  rows = λ a b lt. h.low a b;
  cells = λ b le. h.low 0 b;
}

pub Room-Between : (n k m : ℕ) (e : Distances) → Room k m n 0 e → Between (6 * m) e
Room-Between n k m e h = record {
  small = h.small;
  low = λ a b. omega (arith, h.wide a b, cap-le k m a b);
}

-- The first distances are -1, 0 and 1.
set_edges-near :
    (vs : List ℕ) (row : ℕ → ℤ)
    → ((v : ℕ) → (pos_part (row v) ≤ 1) × (neg_part (row v) ≤ 1))
    → (v : ℕ) → (pos_part (set_edges vs row v) ≤ 1) × (neg_part (set_edges vs row v) ≤ 1)
unfolding set_edges
set_edges-near [] row h v = h v
set_edges-near (x ∷ xs) row h v =
    set_edges-near xs (update row x (negsuc 0))
      (λ w.
        if_elim (λ (d : ℤ). (pos_part d ≤ 1) × (neg_part d ≤ 1)) (x == w) (negsuc 0) (row w)
          (λ e. (omega arith, omega arith)) (λ e. h w))
      v

first_distances-near :
    (succ : ℕ → List ℕ) (i j : ℕ)
    → (pos_part (first_distances succ i j) ≤ 1) × (neg_part (first_distances succ i j) ≤ 1)
unfolding first_distances
first_distances-near succ i j =
    set_edges-near (succ i) (update (λ _. pos 1) i (pos 0))
      (λ w.
        if_elim (λ (d : ℤ). (pos_part d ≤ 1) × (neg_part d ≤ 1)) (i == w) (pos 0) (pos 1)
          (λ e. (omega arith, omega arith)) (λ e. (omega arith, omega arith)))
      j

pub first_distances-Between : (succ : ℕ → List ℕ) → Between 1 (first_distances succ)
first_distances-Between succ = record {
  small = λ a b. (first_distances-near succ a b).0;
  low = λ a b. (first_distances-near succ a b).1;
}

-- The bound after k rounds.
abbrev pub grown : ℕ → ℕ
grown zero = 1
grown (suc k) = 6 * grown k

grown_mono : (m k n : ℕ) → m + k ≡ n → grown k ≤ grown n
grown_mono zero k n e =
    let same : k ≡ n = omega (arith, e) in subst (λ x. grown k ≤ grown x) same (omega arith)
grown_mono (suc m) k zero e = absurd (omega (arith, e))
grown_mono (suc m) k (suc n) e = omega (arith, grown_mono m k n (omega (arith, e)))

-- Eleven blocks are few enough.
pub grown-fits : (k : ℕ) → k ≤ 11 → grown k < 2 ^ 30
grown-fits k le = omega (arith, grown_mono (11 - k) k 11 (omega arith))
