-- ===== src/Passes/Floyd.antt =====
-- LongestPath.cpp: `floyd_warshall`, with the lengths of the paths as negative distances.
use mmt_sync.Base.{
  ℕ, List, [], ◌∷◌, Bool, ◌&&◌, ◌^◌, ltb, leb, Option, none, some, if◌then◌else◌, for, rounds,
  update, Result, ok, err, ◌>>=◌, out_of_bounds,
}
use mmt_sync.Base.Int.{ℤ, pos, negsuc, pos_part, neg_part, ◌+ℤ◌, ◌-ℤ◌, ltb_ℤ}
use mmt_sync.Passes.Blocks.{BasicBlock, is_final_block}

abbrev pub Distances : Type 0
Distances = ℕ → ℕ → ℤ

-- `distance[i][ amap[*si] ] = -1;` for the successors.
unfoldable pub set_edges : List ℕ → (ℕ → ℤ) → ℕ → ℤ
set_edges [] row = row
set_edges (v ∷ vs) row = set_edges vs (update row v (negsuc 0))

unfoldable pub first_distances : (ℕ → List ℕ) → Distances
unfolding set_edges
first_distances succ i = set_edges (succ i) (update (λ _. pos 1) i (pos 0))

-- `dest`: the last of the final blocks.
unfoldable pub find_dest : ℕ → (ℕ → BasicBlock) → Option ℕ
unfolding for is_final_block
find_dest n blocks = for n (λ i dest. if is_final_block (blocks i) then some i else dest) none

-- An `int`; what leaves its range is undefined.
abbrev pub fits_int : ℤ → Bool
fits_int v = leb (neg_part v) (2 ^ 31) && ltb (pos_part v) (2 ^ 31)

-- `int nov = distance[i][k] + distance[k][j]; if (nov < distance[i][j]) distance[i][j] = nov;`
unfoldable pub relax : ℕ → ℕ → ℕ → Distances → Result Distances
unfolding ◌+ℤ◌
relax k i j d =
    let nov = d i k +ℤ d k j in
    if fits_int nov
    then ok (if ltb_ℤ nov (d i j) then update d i (update (d i) j nov) else d)
    else err out_of_bounds

unfoldable pub relax_row : ℕ → ℕ → ℕ → Distances → Result Distances
unfolding rounds relax
relax_row n k i d = rounds n (relax k i) d

unfoldable pub relax_all : ℕ → ℕ → Distances → Result Distances
unfolding rounds relax_row
relax_all n k d = rounds n (relax_row n k) d

unfoldable pub longest_distances : ℕ → (ℕ → List ℕ) → Result Distances
unfolding rounds relax_all first_distances
longest_distances n succ = rounds n (relax_all n) (first_distances succ)

-- `insert_the_pragma(*vertices[i], (-distance[i][dest]) + 1)`, if one is inserted.
unfoldable pub priority_to : ℕ → ℕ → Distances → Result (Option ℤ)
unfolding ◌-ℤ◌
priority_to dest i d =
    let priority = pos 1 -ℤ d i dest in
    if ltb_ℤ (d i dest) (pos 1)
    then (if fits_int priority then ok (some priority) else err out_of_bounds)
    else ok none

unfoldable pub priority_if : ℕ → (ℕ → List ℕ) → ℕ → Option ℕ → Result (Option ℤ)
unfolding longest_distances priority_to
priority_if n succ i none = ok none
priority_if n succ i (some dest) = longest_distances n succ >>= priority_to dest i

-- The priority of block i, where one is inserted.
unfoldable pub floyd_warshall : ℕ → (ℕ → BasicBlock) → ℕ → Result (Option ℤ)
unfolding priority_if find_dest
floyd_warshall n blocks i = priority_if n (λ v. (blocks v).successors) i (find_dest n blocks)
