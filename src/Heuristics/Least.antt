-- ===== src/Heuristics/Least.antt =====
-- What MinPC.cpp and MinSP_PC.cpp choose: the threads at the least pc, and of the least sp first.
use mmt_sync.Base.{
  ℕ, ◌<◌, ◌≤◌, ◌≡◌, ◌↔◌, ◌⊎◌, inl, inr, true, false, some, arith, IsPick, pick_total, pick-some,
  pick-none, Option-cases, subst, sym,
}
use mmt_sync.Heuristics.Interface.{Threads, activate}
use mmt_sync.Heuristics.Simple.{awake, lower_pc, lower_sp_pc, min_pc, min_sp_pc}
use mmt_sync.Heuristics.Orders.{lower_pc-IsStrict, lower_sp_pc-IsStrict}

-- Thread i is not ignored, and no such thread has a lower pc.
abbrev pub LeastPc : ℕ → Threads → ℕ → Type 0
LeastPc n t i =
    ((t i).ignore ≡ false) × ((k : ℕ) → k < n → (t k).ignore ≡ false → (t i).pc ≤ (t k).pc)

leader-pc :
    (n : ℕ) (t : Threads) (r i : ℕ)
    → i < n
    → IsPick n (awake t) (lower_pc t) r
    → ((activate t (some r) i).is_active ≡ true) ↔ LeastPc n t i
unfolding activate
leader-pc n t r i lt p = (
  λ e. (ground arith, λ k b a. let q = p.best k b (ground arith) in ground arith),
  λ h.
      let a : (t i).ignore ≡ false = h.0 in
      let q : lower_pc t i r ≡ false = p.best i lt (ground arith) in
      let c : awake t r ≡ true = p.chosen in
      let m : (t i).pc ≤ (t r).pc = h.1 r p.below (ground arith) in ground arith,
)

-- MinPC: of the threads below n, the active ones after the choice are exactly those that are not
-- ignored and whose pc no thread that is not ignored undercuts.
pub min_pc-least :
    (n : ℕ) (t : Threads) (i : ℕ)
    → i < n
    → ((activate t (min_pc n t) i).is_active ≡ true) ↔ LeastPc n t i
unfolding min_pc activate
min_pc-least n t i lt = elim (Option-cases (min_pc n t)) [
  | inr (r, e) ↦
      subst (λ o. ((activate t o i).is_active ≡ true) ↔ LeastPc n t i) (sym e)
        (leader-pc n t r i lt (pick-some (awake t) (lower_pc t) (lower_pc-IsStrict t) n r e))
  | inl e ↦
      let none_awake : awake t i ≡ false =
        pick-none (awake t) (lower_pc t) (lower_pc-IsStrict t) n e i lt in
      subst (λ o. ((activate t o i).is_active ≡ true) ↔ LeastPc n t i) (sym e)
        (λ a. cc, λ h. let a : (t i).ignore ≡ false = h.0 in ground arith)
]

-- (sp, pc) of thread i is at most that of thread k, in the lexicographic order.
abbrev pub AtMostSpPc : Threads → ℕ → ℕ → Type 0
AtMostSpPc t i k = ((t i).sp < (t k).sp) ⊎ (((t i).sp ≡ (t k).sp) × ((t i).pc ≤ (t k).pc))

abbrev pub LeastSpPc : ℕ → Threads → ℕ → Type 0
LeastSpPc n t i =
    ((t i).ignore ≡ false) × ((k : ℕ) → k < n → (t k).ignore ≡ false → AtMostSpPc t i k)

not_lower : (t : Threads) (k i : ℕ) → lower_sp_pc t k i ≡ false → AtMostSpPc t i k
not_lower t k i e = ground arith

same_pc :
    (n : ℕ) (t : Threads) (r leader : ℕ)
    → leader < n
    → IsPick n (awake t) (lower_sp_pc t) r
    → LeastSpPc n t leader
    → (t r).pc ≡ (t leader).pc
same_pc n t r leader lt p h =
    let a : (t leader).ignore ≡ false = h.0 in
    let c : awake t r ≡ true = p.chosen in
    let q : AtMostSpPc t r leader = not_lower t leader r (p.best leader lt (ground arith)) in
    let m : AtMostSpPc t leader r = h.1 r p.below (ground arith) in omega (arith, q, m)

-- MinSP-PC: where the thread `leader` is not ignored and no thread that is not ignored has a lower
-- sp, or the same sp and a lower pc, the active threads after the choice are exactly those that are
-- not ignored and stand at the pc of the leader, whatever their sp.
pub min_sp_pc-least :
    (n : ℕ) (t : Threads) (leader i : ℕ)
    → leader < n
    → LeastSpPc n t leader
    → ((activate t (min_sp_pc n t) i).is_active ≡ true)
      ↔ (((t i).ignore ≡ false) × ((t i).pc ≡ (t leader).pc))
unfolding min_sp_pc activate
min_sp_pc-least n t leader i lt h =
    let a : (t leader).ignore ≡ false = h.0 in
    let (r, e, p) =
      pick_total (awake t) (lower_sp_pc t) (lower_sp_pc-IsStrict t) n leader lt (ground arith) in
    let same : (t r).pc ≡ (t leader).pc = same_pc n t r leader lt p h in
    subst
      (λ o.
        ((activate t o i).is_active ≡ true) ↔ (((t i).ignore ≡ false) × ((t i).pc ≡ (t leader).pc)))
      (sym e) (λ g. (ground arith, ground arith), λ g. let u = g.0 in let v = g.1 in ground arith)
