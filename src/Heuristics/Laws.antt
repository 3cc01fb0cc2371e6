-- ===== src/Heuristics/Laws.antt =====
-- The contract of the simulator, for the heuristics of one pass over the threads.
use mmt_sync.Base.{
  ℕ, ◌+◌, ◌%◌, ◌≡◌, true, false, inl, inr, Option, none, some, Bool-cases, ◌==◌, ==_iff, subst, sym,
  arith, Result-cases, OnOk, OnOk-eq, Searched, search_for-Searched,
}
use mmt_sync.Heuristics.Interface.{
  Threads, Heuristic, Chooses, IsHeuristic, set_active-Chooses, activate-Chooses,
}
use mmt_sync.Heuristics.Simple.{
  MinPc, MinSpPc, RoundRobin, min_pc, min_sp_pc, round_robin, find_from, is_ref, awake,
}
use mmt_sync.Heuristics.Equal.{RoundRobinEq, equal_turns, choose_turn}
use mmt_sync.Heuristics.MaxFun.{MaxFun, Levels, choose_max_fun, max_fun, with_levels}
use mmt_sync.Heuristics.LongMin.{
  Long, LongMinPc, LongMinSpPc, long_min_pc, long_min_sp_pc, mark, inside_block,
}
use mmt_sync.Heuristics.Rd.{Rd, RdMinSpPc, choose_rd, finish}

abbrev pub ChoosesFrom : {H : Type 0} → ℕ → Threads → Threads × H → Type 0
ChoosesFrom n t p = Chooses n t p.0

pub lawful :
    {H : Type 0} (n : ℕ) (h : Heuristic H)
    → ((t : Threads) (s : H) → OnOk (ChoosesFrom n t) (h.choose_threads n t s))
    → IsHeuristic n h
lawful n h k = record {
  sound = λ t t' s s' e. OnOk-eq (ChoosesFrom n t) (h.choose_threads n t s) (t', s') (k t s) e;
}

pub MinPc-IsHeuristic : (n : ℕ) → IsHeuristic n MinPc
MinPc-IsHeuristic n = lawful n MinPc (λ t s. activate-Chooses n t (min_pc n t))

pub MinSpPc-IsHeuristic : (n : ℕ) → IsHeuristic n MinSpPc
MinSpPc-IsHeuristic n = lawful n MinSpPc (λ t s. activate-Chooses n t (min_sp_pc n t))

-- RoundRobin_Eq changes nothing of a thread but `is_active`, and activates nobody below n who is
-- ignored, in any state.
pub RoundRobinEq-IsHeuristic : (n : ℕ) → IsHeuristic n RoundRobinEq
unfolding equal_turns
RoundRobinEq-IsHeuristic n =
    lawful n RoundRobinEq (λ t s. activate-Chooses n t (choose_turn n t s).0)

-- A thread that is found is one of those looked for.
found_awake :
    (n c : ℕ) (t : Threads) (o : Option ℕ) (i : ℕ)
    → Searched (λ ii. (ii + c) % n) (awake t) n o
    → is_ref o i ≡ true
    → (t i).ignore ≡ false
found_awake n c t none i h e = cc
found_awake n c t (some r) i (k, lt, at, hit, before) e =
    subst (λ m. (t m).ignore ≡ false) (sym ((==_iff i r).0 e)) (ground arith)

is_ref-awake :
    (n c : ℕ) (t : Threads) (i : ℕ)
    → is_ref (find_from n c (awake t)) i ≡ true
    → (t i).ignore ≡ false
unfolding find_from
is_ref-awake n c t i e =
    found_awake n c t (find_from n c (awake t)) i
      (search_for-Searched n (λ ii. (ii + c) % n) (awake t)) e

pub RoundRobin-IsHeuristic : (n : ℕ) → IsHeuristic n RoundRobin
unfolding round_robin
RoundRobin-IsHeuristic n = lawful n RoundRobin (λ t c.
    set_active-Chooses n t (is_ref (find_from n c (awake t))) (λ i lt e. is_ref-awake n c t i e))

with_levels-Chooses :
    (n : ℕ) (t : Threads) (s : Levels) (ref : Option ℕ)
    → OnOk (ChoosesFrom n t) (with_levels t s ref)
with_levels-Chooses n t s none = tt
with_levels-Chooses n t s (some ref) = activate-Chooses n t (some ref)

-- Where MaxFun_MinPC makes a choice, it changes nothing of a thread but `is_active`, and activates
-- nobody below n who is ignored, in any state and mode.
pub MaxFun-IsHeuristic : (n : ℕ) → IsHeuristic n MaxFun
unfolding choose_max_fun
MaxFun-IsHeuristic n = lawful n MaxFun λ t s. elim (Result-cases (max_fun n t s)) [
  | inr (stop, e) ↦ rw e tt
  | inl (ref, e) ↦ rw e (with_levels-Chooses n t s ref)
]

mark-Chooses :
    (n : ℕ) (t : Threads) (s : Long) (ref : Option ℕ) → OnOk (ChoosesFrom n t) (mark t s ref)
unfolding mark
mark-Chooses n t s none = tt
mark-Chooses n t s (some ref) = elim (Bool-cases (s.fhb.tamanho_fhb == 0)) [
  | inl empty ↦ rw empty tt
  | inr room ↦ rw room (activate-Chooses n t (some ref))
]

pub LongMinPc-IsHeuristic : (n : ℕ) → IsHeuristic n LongMinPc
unfolding long_min_pc
LongMinPc-IsHeuristic n = lawful n LongMinPc λ t s. elim (Bool-cases (inside_block t s.ref)) [
  | inl inside ↦ rw inside (activate-Chooses n t s.ref)
  | inr new ↦ rw new (mark-Chooses n t s _)
]

-- Where Long_MinSP_PC makes a choice, it changes nothing of a thread but `is_active`, and activates
-- nobody below n who is ignored, in any state.
pub LongMinSpPc-IsHeuristic : (n : ℕ) → IsHeuristic n LongMinSpPc
unfolding long_min_sp_pc
LongMinSpPc-IsHeuristic n = lawful n LongMinSpPc λ t s. elim (Bool-cases (inside_block t s.ref)) [
  | inl inside ↦ rw inside (activate-Chooses n t s.ref)
  | inr new ↦ rw new (mark-Chooses n t s _)
]

finish-Chooses :
    (n : ℕ) (t : Threads) (s : Rd) (ref : Option ℕ) → OnOk (ChoosesFrom n t) (finish n t s ref)
finish-Chooses n t s none = tt
finish-Chooses n t s (some ref) = activate-Chooses n t (some ref)

-- Where RD_MinSP_PC makes a choice, it changes nothing of a thread but `is_active`, and activates
-- nobody below n who is ignored, in any state.
pub RdMinSpPc-IsHeuristic : (n : ℕ) → IsHeuristic n RdMinSpPc
unfolding choose_rd
RdMinSpPc-IsHeuristic n = lawful n RdMinSpPc λ t s. finish-Chooses n t s _
