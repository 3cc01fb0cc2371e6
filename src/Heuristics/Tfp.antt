-- ===== src/Heuristics/Tfp.antt =====
-- TFP.cpp: thread frontiers where the groups of threads at the deepest level and the largest priority
-- execute in turn.
use mmt_sync.Base.{
  ℕ, zero, suc, List, [], ◌∷◌, ◌++◌, Bool, true, false, not, ◌&&◌, ◌||◌, ltb, ◌==◌, if◌then◌else◌,
  Option, none, some, pick, for, length, Result, ok, err, ◌>>=◌, out_of_bounds,
}
use mmt_sync.Base.Int.{ℤ, pos, negsuc, ◌+ℤ◌, ◌-ℤ◌, ltb_ℤ, eqb_ℤ}
use mmt_sync.Heuristics.Interface.{Threads, Heuristic, activate, set_active, shares}
use mmt_sync.Heuristics.Simple.{awake}
use mmt_sync.Heuristics.MaxFun.{is_function_ret, move_levels}
use mmt_sync.Heuristics.Frontier.{raise_where, at_ref, rechoose}

-- `parallel` up to `parallel_ptr` is a list.
pub record Tfp : Type 0 where
  pub function_level : ℕ → ℤ
  pub parallel : List ℕ
  pub ref : Option ℕ
  pub current_ptr : ℤ
  pub returned : Bool

-- The constructor.
abbrev pub new_tfp : Tfp
new_tfp = record {
  function_level = λ _. pos 1;
  parallel = [];
  ref = none;
  current_ptr = negsuc 0;
  returned = false;
}

-- `if (returned)`, with `t[ref]` read only where `ref` has been chosen.
abbrev pub after_ret : Threads → Tfp → Threads
after_ret t s = if s.returned then raise_where t (λ i. (t i).is_active || at_ref t s.ref i) else t

-- `ref == -1 || t[ref].ignore || t[ref].bb_priority > 0`
abbrev pub new_bb : Threads → Option ℕ → Bool
new_bb t none = true
new_bb t (some ref) = (t ref).ignore || ltb 0 (t ref).bb_priority

-- `rechoose`
abbrev pub mixed : ℕ → Threads → Option ℕ → Bool
unfolding rechoose
mixed n t ref = not (new_bb t ref) && rechoose n t ref

-- `t[i].is_active && !t[ref].ignore`; inside a basic block `ref` is not ignored.
unfoldable pub raise_mixed : ℕ → Threads → Option ℕ → Threads
unfolding mixed
raise_mixed n t ref = if mixed n t ref then raise_where t (λ i. (t i).is_active) else t

-- The first group of `ref` is taken out; if it is not found, the last is lost.
abbrev pub keep_head : ℕ → List ℕ → List ℕ → List ℕ
keep_head g [] rest = []
keep_head g (h ∷ hs) rest = g ∷ rest

abbrev pub take_out : ℕ → List ℕ → List ℕ
take_out ref [] = []
take_out ref (g ∷ gs) = if g == ref then gs else keep_head g gs (take_out ref gs)

-- "Check if a new block was found", where a group executes.
abbrev pub group_ends : ℕ → Threads → Threads → ℕ → Bool
unfolding mixed
group_ends n before t ref = mixed n before (some ref) || ltb 0 (t ref).bb_priority || (t ref).ignore

-- The threads, the groups and `current_ptr` after it; with `ref` at -1, `t[-1]` is read.
unfoldable pub end_group :
    ℕ → Threads → Threads → ℤ → List ℕ → Option ℕ → Result (Threads × List ℕ × ℤ)
unfolding group_ends ◌-ℤ◌
end_group n before t c [] ref = ok (t, [], c)
end_group n before t c (g ∷ gs) none = err out_of_bounds
end_group n before t c (g ∷ gs) (some ref) =
    if group_ends n before t ref
    then ok (set_active t (λ _. false), take_out ref (g ∷ gs), c -ℤ pos 1)
    else ok (t, g ∷ gs, c)

-- `current_ptr++; if (current_ptr >= parallel_ptr) current_ptr = 0;`
abbrev pub next_ptr : ℤ → List ℕ → ℤ
next_ptr c groups = let d = c +ℤ pos 1 in if ltb_ℤ d (pos (length groups)) then d else pos 0

abbrev pub deeper_block : Threads → (ℕ → ℤ) → ℕ → ℕ → Bool
deeper_block t level i ref =
    ltb_ℤ (level ref) (level i)
    || eqb_ℤ (level i) (level ref) && ltb (t ref).bb_priority (t i).bb_priority

-- A round of the loop that collects the groups: its state is `visited` and `parallel`.
abbrev pub collect_group : ℕ → Threads → (ℕ → ℤ) → ℕ → ℕ → (ℕ → Bool) × List ℕ → (ℕ → Bool) × List ℕ
collect_group n t level ref i (visited, groups) =
    if not (visited i)
      && not (t i).ignore
      && eqb_ℤ (level i) (level ref)
      && ((t i).bb_priority == (t ref).bb_priority)
    then (
      λ j.
          visited j
          || (j == i)
          || ltb i j && (not ((t j).bb_priority == (t ref).bb_priority) || ((t j).pc == (t i).pc)),
      groups ++ i ∷ [],
    )
    else (visited, groups)

unfoldable pub groups_of : ℕ → Threads → (ℕ → ℤ) → Option ℕ → List ℕ
unfolding for
groups_of n t level none = []
groups_of n t level (some ref) = (for n (collect_group n t level ref) (λ _. false, [])).1

-- `if (parallel_ptr == 0)`: the groups are collected anew.
unfoldable pub refill_groups : ℕ → Threads → (ℕ → ℤ) → List ℕ → ℤ → List ℕ × ℤ
unfolding groups_of pick
refill_groups n t level [] c =
    (groups_of n t level (pick n (awake t) (deeper_block t level)), pos 0)
refill_groups n t level (g ∷ gs) c = (g ∷ gs, c)

-- `parallel[current_ptr]`
abbrev pub entry_at : List ℕ → ℕ → Option ℕ
entry_at [] k = none
entry_at (g ∷ gs) zero = some g
entry_at (g ∷ gs) (suc k) = entry_at gs k

abbrev pub entry : List ℕ → ℤ → Option ℕ
entry groups (pos k) = entry_at groups k
entry groups (negsuc k) = none

unfoldable pub run_entry : Threads → Tfp → List ℕ → ℤ → Option ℕ → Result (Threads × Tfp)
unfolding activate move_levels
run_entry t s groups c none = err out_of_bounds
run_entry t s groups c (some ref) = ok (
  activate t (some ref),
  record {
    function_level = move_levels (t ref) (shares t (some ref)) s.function_level;
    parallel = groups;
    ref = some ref;
    current_ptr = c;
    returned = is_function_ret (t ref);
  },
)

unfoldable pub choose_tfp : ℕ → Tfp → Threads × List ℕ × ℤ → Result (Threads × Tfp)
unfolding run_entry refill_groups
choose_tfp n s (t, groups, c) =
    let (filled, d) = refill_groups n t s.function_level groups (next_ptr c groups) in
    run_entry t s filled d (entry filled d)

unfoldable pub tfp : ℕ → Threads → Tfp → Result (Threads × Tfp)
unfolding end_group choose_tfp raise_mixed
tfp n t s =
    let u = after_ret t s in
    end_group n u (raise_mixed n u s.ref) s.current_ptr s.parallel s.ref >>= choose_tfp n s

abbrev pub TfpHeuristic : Heuristic Tfp
TfpHeuristic = record { choose_threads = tfp; register_instruction = λ insn tid sequence s. s }
