-- ===== src/Heuristics/Splitting.antt =====
-- Warp.hpp: `SplitWarpByPC` ends and takes the set apart.
use mmt_sync.Base.{
  ℕ, zero, suc, ◌-◌, ◌^◌, ◌<◌, ◌≤◌, ◌≡◌, ◌⊎◌, refl, sym, ap, ◌∙◌, subst, List, [], ◌∷◌, Bool, true,
  false, ◌&&◌, leb, ◌==◌, ==_iff, min, if◌then◌else◌, for_inv, total_strict, ok, ◌>>=◌, arith,
  if_elim, if_true, if_false, Bool-cases, inl, inr,
}
use mmt_sync.Heuristics.Interface.{Threads}
use mmt_sync.Heuristics.Warp.{
  Warp, max_threads, any_of, least_pc, moves, stay, split_warp, count_set,
}

-- The warps take the set apart: each has a thread, all its threads are at its pc, and no thread that
-- is left for it or a later warp has a lower pc.
unfoldable pub Splits : ℕ → Threads → (ℕ → Bool) → List Warp → Type 0
Splits n t subset [] = (i : ℕ) → i < n → subset i ≡ false
Splits n t subset (w ∷ ws) =
    ((i : ℕ) → i < n → w.mask i ≡ (subset i && ((t i).pc == w.pc)))
    × ((i : ℕ) → i < n → subset i ≡ true → w.pc ≤ (t i).pc)
    × ((i : ℕ) × (i < n) × (w.mask i ≡ true))
    × Splits n t (stay subset w.mask) ws

-- After j rounds of the search for the least pc: it is the pc of a thread of the set, if there is
-- one.
abbrev Least : Threads → (ℕ → Bool) → ℕ → ℕ → Type 0
Least t subset j m =
    ((k : ℕ) → k < j → subset k ≡ true → m ≤ (t k).pc)
    × ((((k : ℕ) → k < j → subset k ≡ false) × (m ≡ 2 ^ 64 - 1))
        ⊎ ((k : ℕ) × (k < j) × (subset k ≡ true) × ((t k).pc ≡ m)))

-- A property of the numbers below j, and of j.
below_suc : (P : ℕ → Type 0) (j : ℕ) → P j → ((k : ℕ) → k < j → P k) → (k : ℕ) → k < suc j → P k
below_suc P j at h k lt = elim (Bool-cases (k == j)) [
  | inl e ↦ subst P (sym ((==_iff k j).0 e)) at
  | inr ne ↦ h k (ground arith)
]

Least-skip :
    (t : Threads) (subset : ℕ → Bool) (j m : ℕ)
    → subset j ≡ false
    → Least t subset j m
    → Least t subset (suc j) m
Least-skip t subset j m out (bound, inl (empty, top)) = (
  below_suc (λ k. subset k ≡ true → m ≤ (t k).pc) j (λ e. cc) bound,
  inl (below_suc (λ k. subset k ≡ false) j out empty, top),
)
Least-skip t subset j m out (bound, inr (k, lt, hit, at)) = (
  below_suc (λ i. subset i ≡ true → m ≤ (t i).pc) j (λ e. cc) bound,
  inr (k, omega arith, hit, at),
)

Least-lower :
    (t : Threads) (subset : ℕ → Bool) (j m : ℕ)
    → subset j ≡ true
    → (t j).pc ≤ m
    → Least t subset j m
    → Least t subset (suc j) (t j).pc
Least-lower t subset j m hit le (bound, found) = (
  below_suc (λ k. subset k ≡ true → (t j).pc ≤ (t k).pc) j (λ e. omega arith)
      (λ k lt e. omega (arith, bound k lt e)),
  inr (j, omega arith, hit, refl),
)

Least-keep :
    (t : Threads) (subset : ℕ → Bool) (j m : ℕ)
    → subset j ≡ true
    → m < (t j).pc
    → (t j).pc < 2 ^ 64
    → Least t subset j m
    → Least t subset (suc j) m
Least-keep t subset j m hit gt long (bound, inl (empty, top)) = absurd (omega arith)
Least-keep t subset j m hit gt long (bound, inr (k, lt, e, at)) = (
  below_suc (λ i. subset i ≡ true → m ≤ (t i).pc) j (λ f. omega arith) bound,
  inr (k, omega arith, e, at),
)

Least-round :
    (t : Threads) (subset : ℕ → Bool) (j m : ℕ)
    → (t j).pc < 2 ^ 64
    → Least t subset j m
    → Least t subset (suc j) (if subset j then min m (t j).pc else m)
Least-round t subset j m long h =
    if_elim (Least t subset (suc j)) (subset j) (min m (t j).pc) m
      (λ hit. elim (Bool-cases (leb (t j).pc m)) [
        | inl le ↦
            subst (Least t subset (suc j)) (ground arith)
              (Least-lower t subset j m hit (ground arith) h)
        | inr gt ↦
            subst (Least t subset (suc j)) (ground arith)
              (Least-keep t subset j m hit (ground arith) long h)
      ])
      (λ out. Least-skip t subset j m out h)

least_pc-Least :
    (n : ℕ) (t : Threads) (subset : ℕ → Bool)
    → ((i : ℕ) → (t i).pc < 2 ^ 64)
    → Least t subset n (least_pc n t subset)
unfolding least_pc
least_pc-Least n t subset long =
    for_inv (Least t subset) n (λ k m. if subset k then min m (t k).pc else m) (2 ^ 64 - 1)
      (λ j m lt h. Least-round t subset j m (long j) h)
      ((λ k l. absurd (omega arith)), inl ((λ k l. absurd (omega arith)), refl))

any_of-none : (subset : ℕ → Bool) → ((i : ℕ) → subset i ≡ false) → any_of subset ≡ false
unfolding any_of
any_of-none subset empty =
    for_inv (λ j found. found ≡ false) max_threads (λ i found. if subset i then true else found)
      false (λ i found lt h. if_false (subset i) true found (empty i) ∙ h) refl

any_of-false :
    (subset : ℕ → Bool) → any_of subset ≡ false → (i : ℕ) → i < max_threads → subset i ≡ false
unfolding any_of
any_of-false subset =
    for_inv (λ j found. found ≡ false → (i : ℕ) → i < j → subset i ≡ false) max_threads
      (λ i found. if subset i then true else found) false
      (λ j found lt h e. elim (Bool-cases (subset j)) [
        | inl hit ↦ cc (sym (if_true (subset j) true found hit) ∙ e)
        | inr out ↦
            below_suc (λ k. subset k ≡ false) j out
              (h (sym (if_false (subset j) true found out) ∙ e))
      ])
      (λ e i lt. absurd (omega arith))

-- The set gets smaller in every round.
stay-lt :
    (n : ℕ) (subset moved : ℕ → Bool) (i : ℕ)
    → i < n
    → subset i ≡ true
    → moved i ≡ true
    → count_set n (stay subset moved) < count_set n subset
stay-lt n subset moved i lt hit out =
    total_strict n (λ k. if stay subset moved k then 1 else 0) (λ k. if subset k then 1 else 0) i lt
      (ground arith) (λ k l. ground arith)

-- Fewer threads than the fuel are set, and none but those below n.
pub record Fits (fuel n : ℕ) (subset : ℕ → Bool) : Type 0 where
  pub few : count_set n subset < fuel
  pub inside : (i : ℕ) → subset i ≡ true → i < n

stay-Fits :
    (fuel n : ℕ) (subset moved : ℕ → Bool) (i : ℕ)
    → subset i ≡ true
    → moved i ≡ true
    → Fits (suc fuel) n subset
    → Fits fuel n (stay subset moved)
stay-Fits fuel n subset moved i hit out h = record {
  few = omega (arith, h.few, stay-lt n subset moved i (h.inside i hit) hit out);
  inside = λ k e. h.inside k (ground arith);
}

module _ (n : ℕ) (t : Threads) (small : n ≤ max_threads) (long : (i : ℕ) → (t i).pc < 2 ^ 64) where
  moves-itself :
      (subset : ℕ → Bool) (i pc : ℕ)
      → i < n
      → subset i ≡ true
      → (t i).pc ≡ pc
      → moves n t subset pc i ≡ true
  moves-itself subset i pc lt hit at = ground arith

  moves-below :
      (subset : ℕ → Bool) (i pc : ℕ)
      → i < n
      → moves n t subset pc i ≡ (subset i && ((t i).pc == pc))
  moves-below subset i pc lt = ground arith

  empty-Splits : (subset : ℕ → Bool) → any_of subset ≡ false → Splits n t subset []
  unfolding Splits
  empty-Splits subset e i lt = any_of-false subset e i (omega arith)

  -- SplitWarpByPC, for at most MAX_THREADS threads with a pc of 64 bits each and a set of threads
  -- below n of fewer threads than the fuel: the loop ends, and takes the set apart in warps, each of
  -- which has a thread, holds the threads of one pc, and holds all that are left at the least pc.
  pub split_warp-Splits :
      (fuel : ℕ) (subset : ℕ → Bool)
      → Fits fuel n subset
      → (ws : List Warp) × (split_warp fuel n t subset ≡ ok ws) × Splits n t subset ws
  unfolding split_warp Splits
  split_warp-Splits zero subset h = absurd (omega (arith, h.few))
  split_warp-Splits (suc fuel) subset h =
      let pc = least_pc n t subset in
      let moved = moves n t subset pc in
      let (bound, found) = least_pc-Least n t subset long in
      elim (Bool-cases (any_of subset)) [
        | inr none_left ↦
            ([], if_false (any_of subset) _ _ none_left, empty-Splits subset none_left)
        | inl some_left ↦ elim found [
          | inl (empty, top) ↦
              let nothing : (k : ℕ) → subset k ≡ false = λ k. elim (Bool-cases (subset k)) [
                | inl e ↦ cc (empty k (h.inside k e))
                | inr e ↦ e
              ] in
              cc (any_of-none subset nothing)
          | inr (i, lt, hit, at) ↦
              let out : moved i ≡ true = moves-itself subset i pc lt hit at in
              let (ws, e, rest) =
                split_warp-Splits fuel (stay subset moved)
                  (stay-Fits fuel n subset moved i hit out h) in
              (
                (record { mask = moved; pc = pc }) ∷ ws,
                if_true (any_of subset) _ (ok []) some_left
                    ∙ ap (λ r. r >>= (λ vs. ok ((record { mask = moved; pc = pc }) ∷ vs))) e,
                ((λ k l. moves-below subset k pc l), bound, (i, lt, out), rest),
              )
        ]
      ]
