-- ===== src/Passes/Longest.antt =====
-- LongestPath.cpp: the rounds of `floyd_warshall`, and the priorities of an acyclic function.
use mmt_sync.Base.{
  ℕ, suc, ◌<◌, ◌≤◌, ◌*◌, ◌^◌, ap, Result, err, bind_ok, rounds_ok, out_of_bounds, if◌then◌else◌,
  ◌≡◌, refl, sym, ◌∙◌, subst, List, [], ◌∷◌, Bool, true, ◌==◌, ==_iff, if_true, if_elim, Bool-cases,
  inl, inr, Option, none, some, update, ok, OnOk-eq, arith,
}
use mmt_sync.Base.Int.{ℤ, pos, negsuc, neg_part, ◌+ℤ◌, ◌-ℤ◌, ◌≤ℤ◌, ltb_ℤ, +ℤ_parts, -ℤ_parts}
use mmt_sync.Passes.Blocks.{BasicBlock, Visited, is_acyclic_cfg}
use mmt_sync.Passes.Floyd.{
  fits_int, Distances, set_edges, first_distances, relax, relax_row, relax_all, longest_distances,
  priority_to, priority_if, find_dest, floyd_warshall,
}
use mmt_sync.Passes.Room.{
  Room, Room-fits, Room-lowered, Room-next, Between, Between-Room, Room-Between,
  first_distances-Between, grown, grown-fits,
}
use mmt_sync.Passes.Acyclic.{Among, Ends, unseen, is_acyclic_cfg-Ends}
use mmt_sync.Passes.Distances.{
  PathBelow, edge, step, Reaches, PathBelow-Reaches, Ends-Reaches, PathBelow-once, Counts, lowered,
  lowered-le, lowered-sum, relax_ok,
}

sum_le : (a b c d : ℤ) → a ≤ℤ c → b ≤ℤ d → (a +ℤ b) ≤ℤ (c +ℤ d)
sum_le a b c d h k = omega (arith, +ℤ_parts a b, +ℤ_parts c d)

module _ (n k : ℕ) (d : Distances) where
  -- No distance has grown, and those of the rows below i are at most the sums.
  Rows : ℕ → Distances → Type 0
  Rows i e = ((a b : ℕ) → e a b ≤ℤ d a b) × ((a b : ℕ) → a < i → b < n → e a b ≤ℤ (d a k +ℤ d k b))

  Cells : ℕ → ℕ → Distances → Type 0
  Cells i j e = Rows i e × ((b : ℕ) → b < j → e i b ≤ℤ (d i k +ℤ d k b))

  lowered-Cells : (i j : ℕ) (e : Distances) → Cells i j e → Cells i (suc j) (lowered k i j e)
  unfolding Rows Cells
  lowered-Cells i j e ((low, rows), cells) = (
    (
      λ a b. omega (arith, lowered-le k i j e a b, low a b),
      λ a b la lb. omega (arith, lowered-le k i j e a b, rows a b la lb),
    ),
    λ b lt. elim (Bool-cases (b == j)) [
      | inl same ↦
          let at : b ≡ j = (==_iff b j).0 same in
          subst (λ c. lowered k i j e i c ≤ℤ (d i k +ℤ d k c)) (sym at)
            (omega (
              arith,
              lowered-sum k i j e,
              sum_le (e i k) (e k j) (d i k) (d k j) (low i k) (low k j),
            ))
      | inr other ↦ omega (arith, lowered-le k i j e i b, cells b (ground arith))
    ],
  )

  -- A row that is done.
  Cells-Rows : (i : ℕ) (e : Distances) → Cells i n e → Rows (suc i) e
  unfolding Rows Cells
  Cells-Rows i e ((low, rows), cells) = (
    low,
    λ a b la lb. elim (Bool-cases (a == i)) [
      | inl same ↦
          let at : a ≡ i = (==_iff a i).0 same in
          subst (λ c. e c b ≤ℤ (d c k +ℤ d k b)) (sym at) (cells b lb)
      | inr other ↦ rows a b (ground arith) lb
    ],
  )

  module _ (m : ℕ) (le : 6 * m ≤ 2 ^ 31) where
    relax_row_ok :
        (i : ℕ) (e : Distances)
        → Rows i e × Room k m i 0 e
        → (f : Distances) × (relax_row n k i e ≡ ok f) × (Rows (suc i) f × Room k m (suc i) 0 f)
    unfolding relax_row Rows Cells
    relax_row_ok i e (rows, room) =
        let (f, is_f, (cells, left)) =
          rounds_ok (λ j g. Cells i j g × Room k m i j g) n (relax k i) e
            (λ j g lt (cs, r). (
              lowered k i j g,
              relax_ok k i j g (Room-fits k m i j g r le),
              (lowered-Cells i j g cs, Room-lowered k m i j g r),
            ))
            ((rows, λ b lt. absurd (omega arith)), room) in
        (f, is_f, (Cells-Rows i f cells, Room-next n k m i f left))

    relax_all_ok :
        Between m d → (f : Distances) × (relax_all n k d ≡ ok f) × (Rows n f × Between (6 * m) f)
    unfolding relax_all Rows
    relax_all_ok h =
        let (f, is_f, (rows, left)) =
          rounds_ok (λ i g. Rows i g × Room k m i 0 g) n (relax_row n k) d
            (λ i g lt p. relax_row_ok i g p)
            (((λ a b. omega arith), λ a b la lb. absurd (omega arith)), Between-Room k m d h) in
        (f, is_f, (rows, Room-Between n k m f left))

-- The edges have the distance -1 from the start.
set_edges-keeps :
    (vs : List ℕ) (row : ℕ → ℤ) (v : ℕ) → row v ≡ negsuc 0 → set_edges vs row v ≡ negsuc 0
unfolding set_edges
set_edges-keeps [] row v e = e
set_edges-keeps (x ∷ xs) row v e =
    set_edges-keeps xs (update row x (negsuc 0)) v
      (if_elim (λ (d : ℤ). d ≡ negsuc 0) (x == v) (negsuc 0) (row v) (λ _. refl) (λ _. e))

set_edges-Among : (vs : List ℕ) (row : ℕ → ℤ) (v : ℕ) → Among v vs → set_edges vs row v ≡ negsuc 0
unfolding set_edges Among
set_edges-Among [] row v m = absurd m
set_edges-Among (x ∷ xs) row v (inl e) =
    set_edges-keeps xs (update row x (negsuc 0)) v
      (if_true (x == v) (negsuc 0) (row v) ((==_iff x v).1 (sym e)))
set_edges-Among (x ∷ xs) row v (inr m) = set_edges-Among xs (update row x (negsuc 0)) v m

-- After k rounds, of the paths with their blocks below k.
abbrev CountsBelow : ℕ → (ℕ → List ℕ) → ℕ → Distances → Type 0
CountsBelow n succ k d =
    (i j l : ℕ) → i < n → j < n → Ends succ i → PathBelow succ k i j l → Counts (d i j) l

first_distances-Counts : (n : ℕ) (succ : ℕ → List ℕ) → CountsBelow n succ 0 (first_distances succ)
unfolding first_distances
first_distances-Counts n succ i j _ li lj h (edge m) =
    subst (λ d. Counts d 1) (sym (set_edges-Among (succ i) (update (λ _. pos 1) i (pos 0)) j m))
      (omega arith)
first_distances-Counts n succ i j _ li lj h (step m lt p) = absurd (omega arith)

Rows-Counts :
    (n : ℕ) (succ : ℕ → List ℕ) (k : ℕ) (d e : Distances)
    → k < n
    → Rows n k d n e
    → CountsBelow n succ k d
    → CountsBelow n succ (suc k) e
unfolding Rows
Rows-Counts n succ k d e lk (low, sums) c i j l li lj h p = elim (PathBelow-once succ k i j l h p) [
  | inl q ↦ omega (arith, low i j, c i j l li lj h q)
  | inr (a, b, p1, p2, f) ↦
      let at_k : Ends succ k = Ends-Reaches succ i k h (PathBelow-Reaches succ k i k a p1) in
      omega
        (arith, sums i j li lj, +ℤ_parts (d i k) (d k j), c i k a li lk h p1, c k j b lk lj at_k p2)
]

-- For so few blocks no distance leaves the range of `int`.
longest_distances_ok :
    (n : ℕ) (succ : ℕ → List ℕ)
    → n ≤ 11
    → (d : Distances) × (longest_distances n succ ≡ ok d)
      × (CountsBelow n succ n d × Between (grown n) d)
unfolding longest_distances
longest_distances_ok n succ few =
    rounds_ok (λ k d. CountsBelow n succ k d × Between (grown k) d) n (relax_all n)
      (first_distances succ)
      (λ k d lk (c, near).
        let room = grown-fits (suc k) (omega arith) in
        let (e, is_e, (rows, far)) = relax_all_ok n k d (grown k) (omega arith) near in
        (e, is_e, (Rows-Counts n succ k d e lk rows c, far)))
      (first_distances-Counts n succ, first_distances-Between succ)

-- The priority is inserted, and the number of blocks on a path is at most it.
abbrev pub AtLeast : ℕ → Result (Option ℤ) → Type 0
AtLeast l r = (p : ℤ) × (r ≡ ok (some p)) × (pos l ≤ℤ p)

priority_to-AtLeast :
    (dest i l m : ℕ) (d : Distances)
    → Counts (d i dest) l
    → neg_part (d i dest) < m
    → m ≤ 2 ^ 30
    → AtLeast (suc l) (priority_to dest i d)
unfolding priority_to
priority_to-AtLeast dest i l m d c near le =
    let v = d i dest in
    let priority = pos 1 -ℤ v in
    let parts = -ℤ_parts (pos 1) v in
    let fits : fits_int priority ≡ true = ground arith in
    (
      priority,
      if_true (ltb_ℤ v (pos 1))
            (if fits_int priority then ok (some priority) else err out_of_bounds) (ok none)
            (ground arith)
          ∙ if_true (fits_int priority) (ok (some priority)) (err out_of_bounds) fits,
      omega (arith, parts),
    )

-- In a function of at most 11 blocks where `is_acyclic_cfg` accepts the entry block, no distance leaves
-- the range of `int`, and a block that is reached from the entry, and from which a path of l edges
-- leads to the final block, gets a priority of at least l + 1, the number of blocks on the path.
pub floyd_warshall-AtLeast :
    (n fuel : ℕ) (blocks : ℕ → BasicBlock) (entry dest i l : ℕ) (visited : Visited)
    → ((u v : ℕ) → u < n → Among v (blocks u).successors → v < n)
    → n ≤ 11
    → entry < n
    → n < fuel
    → is_acyclic_cfg fuel (λ u. (blocks u).successors) unseen entry ≡ ok (true, visited)
    → find_dest n blocks ≡ some dest
    → i < n
    → dest < n
    → Reaches (λ u. (blocks u).successors) entry i
    → PathBelow (λ u. (blocks u).successors) n i dest l
    → AtLeast (suc l) (floyd_warshall n blocks i)
unfolding floyd_warshall priority_if
floyd_warshall-AtLeast n fuel blocks entry dest i l visited inside few below enough accepts is_dest
      li ld reached path =
    let succ : ℕ → List ℕ = λ u. (blocks u).successors in
    let (p, e, sound) = is_acyclic_cfg-Ends n fuel succ entry inside below enough in
    let h : Ends succ i =
      Ends-Reaches succ entry i
        (sound (
          OnOk-eq (λ (q : Bool × Visited). q.0 ≡ true) (ok (true, visited)) p refl
            (sym accepts ∙ e)))
        reached in
    let (d, is_d, (counts, near)) = longest_distances_ok n succ few in
    let fits = grown-fits n few in
    let low = near.low i dest in
    let (q, is_q, le) =
      priority_to-AtLeast dest i l (2 ^ 30) d (counts i dest l li ld h path) (omega arith)
        (omega arith) in
    (
      q,
      ap (priority_if n succ i) is_dest
          ∙ bind_ok (longest_distances n succ) d (priority_to dest i) is_d
          ∙ is_q,
      le,
    )
