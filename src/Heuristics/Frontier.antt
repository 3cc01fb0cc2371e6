-- ===== src/Heuristics/Frontier.antt =====
-- TF_MaxFun.cpp: thread frontiers, the deepest call level first.
use mmt_sync.Base.{
  ℕ, ◌<◌, ◌≡◌, sym, subst, Bool, true, false, not, ◌&&◌, ◌||◌, ltb, ◌==◌, ==_iff, if◌then◌else◌,
  Option, none, some, pick, for, for_inv, inl, inr, Bool-cases, arith, Result, ok, err,
  out_of_bounds, OnOk, OnOk-eq,
}
use mmt_sync.Base.Int.{ℤ, pos, ltb_ℤ, eqb_ℤ}
use mmt_sync.Threads.{Thread}
use mmt_sync.Heuristics.Interface.{Threads, Heuristic, activate}
use mmt_sync.Heuristics.Simple.{awake, lower_pc}
use mmt_sync.Heuristics.MaxFun.{is_function_ret, move_levels}

pub record Frontier : Type 0 where
  pub function_level : ℕ → ℤ
  pub ref : Option ℕ
  pub returned : Bool

-- The constructor.
abbrev pub new_frontier : Frontier
new_frontier = record { function_level = λ _. pos 1; ref = none; returned = false }

-- `0x7FFFFFFF`
abbrev pub largest_priority : ℕ
largest_priority = 2147483647

-- A thread with no priority gets the largest.
abbrev pub raise : Thread → Thread
raise t = record t { bb_priority = if t.bb_priority == 0 then largest_priority else t.bb_priority }

abbrev pub raise_where : Threads → (ℕ → Bool) → Threads
raise_where t p i = if p i then raise (t i) else t i

-- `t[i].pc == t[ref].pc`; where `ref` is -1 nobody asks.
abbrev pub at_ref : Threads → Option ℕ → ℕ → Bool
at_ref t none i = false
at_ref t (some ref) i = (t i).pc == (t ref).pc

-- `if (returned)`: the basic block must continue after the return.
unfoldable pub after_return : Threads → Frontier → Threads × Frontier
after_return t s =
    if s.returned
    then (
      raise_where t (λ i. (t i).is_active || at_ref t s.ref i),
      record s { returned = false; ref = none },
    )
    else (t, s)

abbrev pub new_block : Threads → Option ℕ → Bool
new_block t none = true
new_block t (some ref) = (t ref).ignore || ltb 0 (t ref).bb_priority

-- `t[i].is_active && t[i].pc != t[ref].pc` for some i.
unfoldable pub rechoose : ℕ → Threads → Option ℕ → Bool
unfolding for
rechoose n t ref = for n (λ i b. if (t i).is_active && not (at_ref t ref i) then true else b) false

unfoldable pub frontier_better : Threads → Frontier → ℕ → ℕ → Bool
frontier_better t s i ref =
    let deep = ltb_ℤ (s.function_level ref) (s.function_level i) in
    let level = eqb_ℤ (s.function_level i) (s.function_level ref) in
    deep
    || level && ltb (t ref).bb_priority (t i).bb_priority
    || level && ((t i).bb_priority == (t ref).bb_priority) && lower_pc t i ref

-- "Choose threads".
abbrev pub choose_again : ℕ → Threads → Frontier → Threads × Option ℕ
choose_again n t s = let ref = pick n (awake t) (frontier_better t s) in (activate t ref, ref)

-- The threads after the choice, and the new reference.
unfoldable pub frontier : ℕ → Threads → Frontier → Threads × Option ℕ
unfolding rechoose frontier_better pick activate
frontier n t s =
    if new_block t s.ref
    then choose_again n t s
    else if rechoose n t s.ref
    then choose_again n (raise_where t (λ i. (t i).is_active)) s
    else (t, s.ref)

-- The call and return marks of the reference thread; with `ref` at -1 those of `t[-1]` are read.
abbrev pub leave : Frontier → Threads × Option ℕ → Result (Threads × Frontier)
leave s (t, none) = err out_of_bounds
leave s (t, some ref) = ok (
  t,
  record {
    function_level = move_levels (t ref) (λ i. (t i).is_active) s.function_level;
    ref = some ref;
    returned = is_function_ret (t ref) || s.returned;
  },
)

unfoldable pub tf_max_fun : ℕ → Threads → Frontier → Result (Threads × Frontier)
unfolding after_return frontier move_levels
tf_max_fun n t s = let (u, v) = after_return t s in leave v (frontier n u v)

abbrev pub TfMaxFun : Heuristic Frontier
TfMaxFun = record { choose_threads = tf_max_fun; register_instruction = λ insn tid sequence s. s }

-- Every active thread below n is at the pc of the reference.
abbrev pub AtRef : ℕ → Threads → Option ℕ → Type 0
AtRef n t o = (i : ℕ) → i < n → (t i).is_active ≡ true → at_ref t o i ≡ true

if-false : (c b : Bool) → (if c then true else b) ≡ false → b ≡ false
if-false true b e = cc
if-false false b e = e

rechoose-AtRef : (n : ℕ) (t : Threads) (o : Option ℕ) → rechoose n t o ≡ false → AtRef n t o
unfolding rechoose
rechoose-AtRef n t o =
    for_inv (λ j b. b ≡ false → AtRef j t o) n
      (λ i b. if (t i).is_active && not (at_ref t o i) then true else b) false
      (λ i b lt h e k below act. elim (Bool-cases (k == i)) [
        | inl same ↦
            subst (λ m. at_ref t o m ≡ true) (sym ((==_iff k i).0 same))
              (at_last i b e (subst (λ m. (t m).is_active ≡ true) ((==_iff k i).0 same) act))
        | inr ne ↦ h (before i b e) k (ground arith) act
      ])
      (λ e k below act. absurd (omega arith))
  where
    at_last :
        (i : ℕ) (b : Bool)
        → (if (t i).is_active && not (at_ref t o i) then true else b) ≡ false
        → (t i).is_active ≡ true
        → at_ref t o i ≡ true
    at_last i b e act = elim (Bool-cases (at_ref t o i)) [
      | inl here ↦ here
      | inr away ↦ cc (rw (act, away) at e)
    ]

    before :
        (i : ℕ) (b : Bool)
        → (if (t i).is_active && not (at_ref t o i) then true else b) ≡ false
        → b ≡ false
    before i b e = if-false ((t i).is_active && not (at_ref t o i)) b e

activate-AtRef : (n : ℕ) (t : Threads) (o : Option ℕ) → AtRef n (activate t o) o
unfolding activate
activate-AtRef n t none i lt e = cc
activate-AtRef n t (some ref) i lt e = ground arith

frontier-AtRef :
    (n : ℕ) (t : Threads) (s : Frontier) → AtRef n (frontier n t s).0 (frontier n t s).1
unfolding frontier
frontier-AtRef n t s = elim (Bool-cases (new_block t s.ref)) [
  | inl new ↦ rw new (activate-AtRef n t (pick n (awake t) (frontier_better t s)))
  | inr old ↦ rw old (elim (Bool-cases (rechoose n t s.ref)) [
    | inl again ↦
        let u = raise_where t (λ i. (t i).is_active) in
        rw again (activate-AtRef n u (pick n (awake u) (frontier_better u s)))
    | inr stays ↦ rw stays (rechoose-AtRef n t s.ref stays)
  ])
]

abbrev Together : ℕ → Threads × Frontier → Type 0
Together n p = AtRef n p.0 p.1.ref

leave-Together :
    (n : ℕ) (s : Frontier) (t : Threads) (o : Option ℕ)
    → AtRef n t o
    → OnOk (Together n) (leave s (t, o))
leave-Together n s t none h = tt
leave-Together n s t (some ref) h = h

-- TF_MaxFun: where a choice is made, every active thread below n is at the pc of the reference
-- thread, also inside a basic block, where nobody is chosen anew.
pub tf_max_fun-AtRef :
    (n : ℕ) (t t' : Threads) (s s' : Frontier) → tf_max_fun n t s ≡ ok (t', s') → AtRef n t' s'.ref
unfolding tf_max_fun
tf_max_fun-AtRef n t t' s s' e =
    let (u, v) = after_return t s in
    OnOk-eq (Together n) (tf_max_fun n t s) (t', s')
      (leave-Together n v (frontier n u v).0 (frontier n u v).1 (frontier-AtRef n u v)) e
