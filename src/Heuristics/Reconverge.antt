-- ===== src/Heuristics/Reconverge.antt =====
-- What RD_MinSP_PC.cpp needs to find a thread.
use mmt_sync.Base.{
  ℕ, suc, ◌+◌, ◌-◌, ◌%◌, ◌≤◌, ◌<◌, ◌≡◌, refl, sym, subst, Bool, true, false, leb, ◌==◌, ==_iff, ◌⊎◌,
  inl, inr, Bool-cases, if◌then◌else◌, some, min, arith, for_inv, Result, ok, pick_total,
}
use mmt_sync.Heuristics.Interface.{Threads, activate, shares}
use mmt_sync.Heuristics.Simple.{awake, lower_sp_pc}
use mmt_sync.Heuristics.Orders.{lower_sp_pc-IsStrict}
use mmt_sync.Heuristics.Rd.{Rd, uint_mod, cnt_reconvergence, min_prio, eligible, choose_rd}

-- `least` is a lower bound, and is reached unless it is still UINT_MAX.
abbrev pub IsMin : (ℕ → Bool) → (ℕ → ℕ) → ℕ → ℕ → Type 0
IsMin allowed cnt j least =
    ((k : ℕ) → k < j → allowed k ≡ true → least ≤ cnt k)
    × (least ≤ uint_mod - 1)
    × ((least ≡ uint_mod - 1) ⊎ ((k : ℕ) × (k < j) × (allowed k ≡ true) × (cnt k ≡ least)))

up_to : (P : ℕ → Type 0) (j : ℕ) → P j → ((k : ℕ) → k < j → P k) → (k : ℕ) → k < suc j → P k
up_to P j at_j below k lt = elim (Bool-cases (k == j)) [
  | inl same ↦ subst P (sym ((==_iff k j).0 same)) at_j
  | inr other ↦ below k (ground arith)
]

IsMin-step :
    (allowed : ℕ → Bool) (cnt : ℕ → ℕ) (j least : ℕ)
    → IsMin allowed cnt j least
    → IsMin allowed cnt (suc j) (if allowed j then min least (cnt j) else least)
IsMin-step allowed cnt j least (low, small, reached) = elim (Bool-cases (allowed j)) [
  | inr out ↦ rw out (
    up_to (λ k. allowed k ≡ true → least ≤ cnt k) j (λ a. cc) low,
    small,
    elim reached [ inl top ↦ inl top | inr (k, lt, a, e) ↦ inr (k, omega (arith, lt), a, e) ],
  )
  | inl here ↦ rw here (
    up_to (λ k. allowed k ≡ true → min least (cnt j) ≤ cnt k) j (λ a. omega arith)
        (λ k lt a. omega (arith, low k lt a)),
    omega (arith, small),
    elim (Bool-cases (leb (cnt j) least)) [
      | inl lower ↦
          let now : cnt j ≡ min least (cnt j) = ground arith in inr (j, omega arith, here, now)
      | inr higher ↦
          let kept : min least (cnt j) ≡ least = ground arith in
          elim reached [
            | inl top ↦ inl (omega (arith, kept, top))
            | inr (k, lt, a, e) ↦ inr (k, omega (arith, lt), a, omega (arith, kept, e))
          ]
    ],
  )
]

min_prio-IsMin :
    (n : ℕ) (t : Threads) (s : Rd) → IsMin (awake t) (cnt_reconvergence t s) n (min_prio n t s)
unfolding min_prio
min_prio-IsMin n t s =
    for_inv (IsMin (awake t) (cnt_reconvergence t s)) n
      (λ i least. if awake t i then min least (cnt_reconvergence t s i) else least) (uint_mod - 1)
      (λ j least lt h. IsMin-step (awake t) (cnt_reconvergence t s) j least h)
      (λ k lt a. absurd (omega arith), omega arith, inl refl)

-- A thread with the least counter.
attained :
    (n : ℕ) (t : Threads) (s : Rd) (i : ℕ)
    → i < n
    → awake t i ≡ true
    → cnt_reconvergence t s i < uint_mod
    → (k : ℕ) × (k < n) × (awake t k ≡ true) × (cnt_reconvergence t s k ≡ min_prio n t s)
attained n t s i lt a small =
    let (low, top, reached) = min_prio-IsMin n t s in
    elim reached [ inr found ↦ found | inl e ↦ (i, lt, a, omega (arith, low i lt a, e, small)) ]

eligible-attained :
    (n : ℕ) (t : Threads) (s : Rd) (k : ℕ)
    → awake t k ≡ true
    → cnt_reconvergence t s k ≡ min_prio n t s
    → min_prio n t s + s.hysteresis < uint_mod
    → eligible n t s k ≡ true
unfolding eligible
eligible-attained n t s k a e fits =
    let same : (min_prio n t s + s.hysteresis) % uint_mod ≡ min_prio n t s + s.hysteresis =
      omega (arith, fits) in
    rw (a, same) (ground (arith, e))

eligible-active :
    (n : ℕ) (t : Threads) (s : Rd) (r : ℕ) → eligible n t s r ≡ true → shares t (some r) r ≡ true
unfolding eligible
eligible-active n t s r e = let a : awake t r ≡ true = ground arith in ground arith

-- The choice is made, and somebody is active.
abbrev pub Starts : ℕ → Result (Threads × Rd) → Type 0
Starts n r =
    (t' : Threads) × (s' : Rd) × (r ≡ ok (t', s')) × ((j : ℕ) × (j < n) × ((t' j).is_active ≡ true))

-- RD_MinSP_PC: with a thread below n that is not ignored, and its counter and the least counter
-- plus the hysteresis below 2^32, the heuristic makes a choice and somebody is active.
pub choose_rd-Starts :
    (n : ℕ) (t : Threads) (s : Rd) (i : ℕ)
    → i < n
    → (t i).ignore ≡ false
    → cnt_reconvergence t s i < uint_mod
    → min_prio n t s + s.hysteresis < uint_mod
    → Starts n (choose_rd n t s)
unfolding choose_rd activate
choose_rd-Starts n t s i lt a small fits =
    let (k, b, c, e) = attained n t s i lt (ground arith) small in
    let (r, found, p) =
      pick_total (eligible n t s) (lower_sp_pc t) (lower_sp_pc-IsStrict t) n k b
        (eligible-attained n t s k c e fits) in
    rw found (_, _, refl, (r, p.below, eligible-active n t s r p.chosen))
