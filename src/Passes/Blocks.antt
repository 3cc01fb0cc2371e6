-- ===== src/Passes/Blocks.antt =====
-- LongestPath.cpp: the control flow graph, `isFinalBlock` and `is_acyclic_cfg`. A block is its number
-- in the function; what LLVM answers about it is a record.
use mmt_sync.Base.{
  ℕ, zero, suc, List, [], ◌∷◌, Bool, true, false, Option, none, some, if◌then◌else◌, update, Result,
  ok, err, ◌>>=◌, no_return,
}

-- The successors, whether the terminator is a return, and of each instruction whether it is a call of
-- `pthread_exit`.
pub record BasicBlock : Type 0 where
  pub successors : List ℕ
  pub is_return : Bool
  pub exit_calls : List Bool

unfoldable pub some_exit : List Bool → Bool
some_exit [] = false
some_exit (is_exit ∷ rest) = if is_exit then true else some_exit rest

-- The loop from the end stops before it has looked at the first instruction.
unfoldable pub exits_after_first : List Bool → Bool
unfolding some_exit
exits_after_first [] = false
exits_after_first (is_exit ∷ rest) = some_exit rest

abbrev pub is_empty : List ℕ → Bool
is_empty [] = true
is_empty (x ∷ xs) = false

unfoldable pub is_final_block : BasicBlock → Bool
unfolding exits_after_first
is_final_block bb =
    if is_empty bb.successors
    then if bb.is_return then true else exits_after_first bb.exit_calls
    else false

-- `std::map<BasicBlock*, bool>`
abbrev pub Visited : Type 0
Visited = ℕ → Option Bool

-- The loop over the successors, with the visit of one; `false` ends it.
unfoldable pub visit_all :
    (Visited → ℕ → Result (Bool × Visited)) → Visited → List ℕ → Result (Bool × Visited)
visit_all visit visited [] = ok (true, visited)
visit_all visit visited (v ∷ vs) =
    visit visited v >>= (λ p. if p.0 then visit_all visit p.1 vs else ok (false, p.1))

-- `res.first->second = true;`
abbrev pub finish_block : ℕ → Bool × Visited → Result (Bool × Visited)
finish_block node (acyclic, visited) =
    ok (if acyclic then (true, update visited node (some true)) else (false, visited))

unfoldable pub visit_block :
    (Visited → ℕ → Result (Bool × Visited))
    → (ℕ → List ℕ)
    → Visited
    → ℕ
    → Option Bool
    → Result (Bool × Visited)
unfolding visit_all
visit_block visit succ visited node (some finished) = ok (finished, visited)
visit_block visit succ visited node none =
    visit_all visit (update visited node (some false)) (succ node) >>= finish_block node

-- The recursion on fuel.
unfoldable pub is_acyclic_cfg : ℕ → (ℕ → List ℕ) → Visited → ℕ → Result (Bool × Visited)
unfolding visit_block
is_acyclic_cfg zero succ visited node = err no_return
is_acyclic_cfg (suc fuel) succ visited node =
    visit_block (is_acyclic_cfg fuel succ) succ visited node (visited node)
