-- ===== src/Heuristics/Oracle/Lookup.antt =====
-- GreedyOracle.cpp: the search in a queue.
use mmt_sync.Base.{
  ℕ, suc, ◌≤◌, ◌≡◌, ◌↔◌, ◌⊎◌, sym, ◌∙◌, List, [], ◌∷◌, true, false, ltb, ◌==◌, if_true, if_false,
  if_elim, Bool-cases, inl, inr, arith,
}
use mmt_sync.Heuristics.Oracle.{lookup}
use mmt_sync.Heuristics.Oracle.Queues.{Event, times, Ascending, Ascending-weaken}

-- Strictly sorted, from the bound on.
unfoldable pub Sorted : ℕ → List ℕ → Type 0
Sorted low [] = Unit {0}
Sorted low (q ∷ qs) = (low ≤ q) × Sorted (suc q) qs

unfoldable pub Occurs : ℕ → List ℕ → Type 0
Occurs val [] = ⊥
Occurs val (q ∷ qs) = (val ≡ q) ⊎ Occurs val qs

Sorted-Occurs : (low val : ℕ) (qs : List ℕ) → Sorted low qs → Occurs val qs → low ≤ val
unfolding Sorted Occurs
Sorted-Occurs low val [] h m = absurd m
Sorted-Occurs low val (q ∷ qs) (first, rest) (inl e) = omega arith
Sorted-Occurs low val (q ∷ qs) (first, rest) (inr m) =
    omega (arith, Sorted-Occurs (suc q) val qs rest m, first)

-- On a sorted queue the search that stops early finds what is there.
pub lookup-Occurs :
    (low val : ℕ) (qs : List ℕ) → Sorted low qs → (lookup qs val ≡ true) ↔ Occurs val qs
unfolding lookup Sorted Occurs
lookup-Occurs low val [] h = ((λ e. cc), (λ m. absurd m))
lookup-Occurs low val (q ∷ qs) (first, rest) = elim (Bool-cases (q == val)) [
  | inl hit ↦ ((λ e. inl (ground arith)), (λ m. if_true (q == val) true _ hit))
  | inr miss ↦ elim (Bool-cases (ltb val q)) [
    | inl passed ↦ (
      (λ e. cc (
          sym e
          ∙ if_false (q == val) true _ miss
          ∙ if_true (ltb val q) false (lookup qs val) passed)),
      λ m. elim m [
        | inl e ↦ absurd (ground arith)
        | inr later ↦ absurd (ground (arith, Sorted-Occurs (suc q) val qs rest later))
      ],
    )
    | inr ahead ↦
        let down : lookup (q ∷ qs) val ≡ lookup qs val =
          if_false (q == val) true _ miss ∙ if_false (ltb val q) false (lookup qs val) ahead in
        let (there, back) = lookup-Occurs (suc q) val qs rest in
        (
          (λ e. inr (there (sym down ∙ e))),
          λ m. elim m [ inl e ↦ absurd (ground arith) | inr later ↦ down ∙ back later ],
        )
  ]
]

-- The queues that are foreseen are sorted.
pub times-Sorted :
    (low pc : ℕ) (events : List Event) → Ascending low events → Sorted low (times pc events)
unfolding times Ascending Sorted
times-Sorted low pc [] h = tt
times-Sorted low pc ((insn, sequence) ∷ events) (first, rest) =
    if_elim (Sorted low) (insn.pc == pc) (sequence ∷ times pc events) (times pc events)
      (λ hit. (first, times-Sorted (suc sequence) pc events rest))
      (λ miss.
        times-Sorted low pc events (Ascending-weaken low (suc sequence) events (omega arith) rest))
