-- ===== src/Tests/Graphs.antt =====
-- A function of six blocks: 0 leads to 1 and 2, 1 to the return 5, and 2 to 3, 4 and 5.
use mmt_sync.Base.{
  err, out_of_bounds, if◌then◌else◌, ◌==◌, Bool, ℕ, zero, suc, ◌<◌, ◌≡◌, refl, List, [], ◌∷◌, true,
  false, inl, inr, some, ok, arith,
}
use mmt_sync.Base.Int.{pos}
use mmt_sync.Passes.{BasicBlock, Visited, is_acyclic_cfg, find_dest, floyd_warshall, is_final_block}
use mmt_sync.Passes.Acyclic.{Among, Ends, unseen, is_acyclic_cfg-Ends}
use mmt_sync.Passes.Distances.{PathBelow, edge, step, Reaches, one}
use mmt_sync.Passes.Longest.{AtLeast, floyd_warshall-AtLeast}
use mmt_sync.Tests.Data.{value_or}

abbrev to : List ℕ → BasicBlock
to vs = record { successors = vs; is_return = false; exit_calls = false ∷ [] }

abbrev function : ℕ → BasicBlock
function zero = to (1 ∷ 2 ∷ [])
function (suc zero) = to (5 ∷ [])
function (suc (suc zero)) = to (3 ∷ [])
function (suc (suc (suc zero))) = to (4 ∷ [])
function (suc (suc (suc (suc zero)))) = to (5 ∷ [])
function _ = record { successors = []; is_return = true; exit_calls = false ∷ [] }

inside : (u v : ℕ) → u < 6 → Among v (function u).successors → v < 6
unfolding Among
inside zero v lt (inl e) = omega arith
inside zero v lt (inr (inl e)) = omega arith
inside zero v lt (inr (inr m)) = absurd m
inside (suc zero) v lt (inl e) = omega arith
inside (suc zero) v lt (inr m) = absurd m
inside (suc (suc zero)) v lt (inl e) = omega arith
inside (suc (suc zero)) v lt (inr m) = absurd m
inside (suc (suc (suc zero))) v lt (inl e) = omega arith
inside (suc (suc (suc zero))) v lt (inr m) = absurd m
inside (suc (suc (suc (suc zero)))) v lt (inl e) = omega arith
inside (suc (suc (suc (suc zero)))) v lt (inr m) = absurd m
inside (suc (suc (suc (suc (suc u))))) v lt m = absurd m

abbrev explored : Visited
explored = (value_or (false, unseen) (is_acyclic_cfg 7 (λ u. (function u).successors) unseen 0)).1

accepted : is_acyclic_cfg 7 (λ u. (function u).successors) unseen 0 ≡ ok (true, explored)
unfolding is_acyclic_cfg
accepted = refl

last-block : find_dest 6 function ≡ some 5
unfolding find_dest
last-block = refl

-- The path 2, 3, 4, 5.
long_path : PathBelow (λ u. (function u).successors) 6 2 5 3
unfolding Among
long_path = step (inl refl) (omega arith) (step (inl refl) (omega arith) (edge (inl refl)))

to_two : Reaches (λ u. (function u).successors) 0 2
unfolding Among
to_two = one (inr (inl refl))

floyd_warshall-AtLeast_example : AtLeast 4 (floyd_warshall 6 function 2)
floyd_warshall-AtLeast_example =
    floyd_warshall-AtLeast 6 7 function 0 5 2 3 explored inside (omega arith) (omega arith)
      (omega arith) accepted last-block (omega arith) (omega arith) to_two long_path

-- From block 1 the longest path has two blocks, but its priority is 52: pairs without an edge have the
-- distance 1, which is added to those of real paths, and closes cycles of negative length.
too_long : floyd_warshall 6 function 1 ≡ ok (some (pos 52))
unfolding floyd_warshall
too_long = refl

-- In a straight line of 16 blocks a distance leaves the range of `int`.
abbrev line : ℕ → BasicBlock
line u =
    if u == 15
    then record { successors = []; is_return = true; exit_calls = false ∷ [] }
    else record { successors = suc u ∷ []; is_return = false; exit_calls = [] }

overflows : floyd_warshall 16 line 0 ≡ err out_of_bounds
unfolding floyd_warshall
overflows = refl

-- A block that begins with the call of `pthread_exit` is not final.
first_call :
    is_final_block (record { successors = []; is_return = false; exit_calls = true ∷ false ∷ [] })
    ≡ false
unfolding is_final_block
first_call = refl

is_acyclic_cfg-Ends_example :
    (p : Bool × Visited) × (is_acyclic_cfg 7 (λ u. (function u).successors) unseen 0 ≡ ok p)
    × (p.0 ≡ true → Ends (λ u. (function u).successors) 0)
is_acyclic_cfg-Ends_example =
    is_acyclic_cfg-Ends 6 7 (λ u. (function u).successors) 0 inside (omega arith) (omega arith)
