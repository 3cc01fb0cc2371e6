-- ===== src/Analyser/Totals.antt =====
-- The special analyses of DataAnalyser.cpp and the counters that `check_result` reads.
use mmt_sync.Base.{
  ℕ, ◌-◌, ◌≡◌, refl, ◌∙◌, List, [], ◌∷◌, ltb, for, for_inv, inl, inr, get_or, Bool-cases, Result,
  ok, ◌>>=◌, OnOk, OnOk-bind, OnOk-map, Result-cases, arith,
}
use mmt_sync.Heuristics.Interface.{Threads}
use mmt_sync.Analyser.Defs.{Analyser, collect, bump, sort}
use mmt_sync.Analyser.Memory.{
  memory_analysis, classify, scattered, shuffled, count_slot, last_or, last_or, is_uniform,
  affine_difference,
}
use mmt_sync.Analyser.Registers.{registers_analysis}
use mmt_sync.Analyser.Divergence.{
  divergence_statistics, with_depth, track_inactive, track_unbalance, track_alone,
}

pub record SameTotals (a b : Analyser) : Type 0 where
  pub instructions_eq : b.instructions ≡ a.instructions
  pub pertime_eq : b.executing_pertime ≡ a.executing_pertime
  pub size_eq : b.resulting_size ≡ a.resulting_size
  pub total_eq : b.total_instructions ≡ a.total_instructions

pub SameTotals-refl : (a : Analyser) → SameTotals a a
SameTotals-refl a = record {
  instructions_eq = refl;
  pertime_eq = refl;
  size_eq = refl;
  total_eq = refl;
}

pub SameTotals-trans : {a b c : Analyser} → SameTotals a b → SameTotals b c → SameTotals a c
SameTotals-trans p q = record {
  instructions_eq = q.instructions_eq ∙ p.instructions_eq;
  pertime_eq = q.pertime_eq ∙ p.pertime_eq;
  size_eq = q.size_eq ∙ p.size_eq;
  total_eq = q.total_eq ∙ p.total_eq;
}

same_totals :
    {a b : Analyser}
    → b.instructions ≡ a.instructions
    → b.executing_pertime ≡ a.executing_pertime
    → b.resulting_size ≡ a.resulting_size
    → b.total_instructions ≡ a.total_instructions
    → SameTotals a b
same_totals p q r s = record { instructions_eq = p; pertime_eq = q; size_eq = r; total_eq = s }

scattered-SameTotals :
    (n running : ℕ) (l : List ℕ) (a : Analyser) → OnOk (SameTotals a) (scattered n running l a)
unfolding scattered
scattered-SameTotals n running [] a = SameTotals-refl a
scattered-SameTotals n running (x ∷ rest) a =
    elim (Result-cases (count_slot (a.mem_scattered_interval (running - 1)) (last_or x rest - x))) [
      | inl (row, e) ↦
          rw e (elim (Result-cases (shuffled n running (x ∷ rest) a.intervalo_comum_embaralhado)) [
            | inl (common, e') ↦ rw e' (same_totals refl refl refl refl)
            | inr (stop, e') ↦ rw e' tt
          ])
      | inr (stop, e) ↦ rw e tt
    ]

count_access : ℕ → Analyser → Analyser
count_access running a = record a { number_of_accesses = bump a.number_of_accesses (running - 1) }

classify-SameTotals :
    (n running : ℕ) (tids l : List ℕ) (a : Analyser)
    → OnOk (SameTotals a) (classify n running tids l a)
unfolding classify count_access
classify-SameTotals n running tids l a = elim (Bool-cases (is_uniform l)) [
  | inl same ↦ rw same (same_totals refl refl refl refl)
  | inr differ ↦ rw differ (elim (Bool-cases (ltb 0 (affine_difference tids l))) [
    | inl affine ↦
        rw affine
          (elim (Result-cases
            (count_slot (a.mem_affine_distance (running - 1)) (affine_difference tids l))) [
              | inl (row, e) ↦ rw e (same_totals refl refl refl refl)
              | inr (stop, e) ↦ rw e tt
            ])
    | inr other ↦ rw other (
        OnOk-map (SameTotals (count_access running a)) (SameTotals a)
          (scattered n running (sort l) (count_access running a))
          (scattered-SameTotals n running (sort l) (count_access running a))
          (λ b s. same_totals s.instructions_eq s.pertime_eq s.size_eq s.total_eq))
  ])
]

pub memory_analysis-SameTotals :
    (n : ℕ) (t : Threads) (first running : ℕ) (a : Analyser)
    → OnOk (SameTotals a) (memory_analysis n t first running a)
unfolding memory_analysis
memory_analysis-SameTotals n t first running a =
    for_inv (λ _ r. OnOk (SameTotals a) r) (t first).mem_quant (λ j r. r >>= body j) (ok a)
      (λ j r lt h. OnOk-bind (SameTotals a) (SameTotals a) r (body j) h λ b s.
        OnOk-map (SameTotals b) (SameTotals a) (body j b)
          (classify-SameTotals n running (collect n t (λ i. i)) (addresses j) b)
          (λ c s'. SameTotals-trans s s'))
      (SameTotals-refl a)
  where
    addresses : ℕ → List ℕ
    addresses j = collect n t (λ i. get_or (t i).mem_address j 0)

    body : ℕ → Analyser → Result Analyser
    body j = classify n running (collect n t (λ i. i)) (addresses j)

registers_analysis-SameTotals :
    (n : ℕ) (t : Threads) (first running : ℕ) (a : Analyser)
    → SameTotals a (registers_analysis n t first running a)
unfolding registers_analysis
registers_analysis-SameTotals n t first running a = ground arith

track_inactive-SameTotals :
    (t : Threads) (i : ℕ) (a : Analyser) → SameTotals a (track_inactive t i a)
unfolding track_inactive
track_inactive-SameTotals t i a = ground arith

track_unbalance-SameTotals :
    (n : ℕ) (t : Threads) (running : ℕ) (a : Analyser)
    → SameTotals a (track_unbalance n t running a)
unfolding track_unbalance
track_unbalance-SameTotals n t running a = ground arith

track_alone-SameTotals :
    (n : ℕ) (t : Threads) (running : ℕ) (a : Analyser) → SameTotals a (track_alone n t running a)
unfolding track_alone
track_alone-SameTotals n t running a = ground arith

-- The loop in `divergence_statistics`.
inactive-SameTotals :
    (n : ℕ) (t : Threads) (a : Analyser) → SameTotals a (for n (track_inactive t) a)
inactive-SameTotals n t a =
    for_inv (λ _ b. SameTotals a b) n (track_inactive t) a
      (λ i b lt h. SameTotals-trans h (track_inactive-SameTotals t i b)) (SameTotals-refl a)

with_depth-SameTotals : (n : ℕ) (t : Threads) (a : Analyser) → SameTotals a (with_depth n t a)
unfolding with_depth
with_depth-SameTotals n t a = same_totals refl refl refl refl

pub statistics-SameTotals :
    (n : ℕ) (t : Threads) (first running : ℕ) (a : Analyser)
    → SameTotals a (divergence_statistics n t running (registers_analysis n t first running a))
unfolding divergence_statistics
statistics-SameTotals n t first running a =
    SameTotals-trans (registers_analysis-SameTotals n t first running a) (
      SameTotals-trans (inactive-SameTotals n t (registers_analysis n t first running a)) (
        SameTotals-trans (with_depth-SameTotals n t _) (
          SameTotals-trans (track_unbalance-SameTotals n t running _)
            (track_alone-SameTotals n t running _))))
