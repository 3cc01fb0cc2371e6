-- ===== src/Analyser/Consistent.antt =====
-- What a round of `analyse` does to the sums that `check_result` compares.
use mmt_sync.Base.{
  ℕ, ◌+◌, ◌-◌, ◌*◌, ◌/◌, ◌%◌, ◌≤◌, ◌<◌, ◌≡◌, refl, ◌∙◌, sym, subst, ap, true, Option, none, some,
  inl, inr, ==_refl, update_ne, total, total_change, total-zero, arith, ok, OnOk-eq, OnOk,
  OnOk-bind, OnOk-map, Result-cases,
}
use mmt_sync.Base.Int.{ℤ}
use mmt_sync.Heuristics.Interface.{Threads}
use mmt_sync.Analyser.Defs.{Analyser, bump, inc, long_mod, init}
use mmt_sync.Analyser.Memory.{memory_analysis}
use mmt_sync.Analyser.Registers.{registers_analysis}
use mmt_sync.Analyser.Divergence.{divergence_statistics}
use mmt_sync.Analyser.Analyse.{
  Tally, Cycle, tally, count_round, count_cycles, analyse_running, special_analyses, with_cycle,
  analyse, is_consistent, check_result,
}
use mmt_sync.Analyser.Totals.{
  SameTotals, SameTotals-trans, memory_analysis-SameTotals, statistics-SameTotals,
}
use mmt_sync.Analyser.Tally.{counted_at, FirstOf, bump-total, Tallied, tally-Tallied}

-- What one accepted round does to the counters.
pub record Round (n : ℕ) (t : Threads) (a b : Analyser) : Type 0 where
  pub running : ℕ
  pub some_run : 0 < running
  pub few : running ≤ n
  pub instructions_eq : (k : ℕ) → k < n → b.instructions k ≡ counted_at t a k
  pub sum : total n b.instructions % long_mod ≡ (total n a.instructions + running) % long_mod
  pub pertime_eq : b.executing_pertime ≡ bump a.executing_pertime (running - 1)
  pub size_eq : b.resulting_size ≡ inc a.resulting_size
  pub total_eq : b.total_instructions ≡ (a.total_instructions + running) % long_mod

module _ (n : ℕ) (t : Threads) where
  special-SameTotals :
      (first running : ℕ) (a : Analyser)
      → OnOk (SameTotals a) (special_analyses n t first running a)
  unfolding special_analyses
  special-SameTotals first running a =
      OnOk-bind (SameTotals a) (SameTotals a) (memory_analysis n t first running a)
        (λ m. ok (divergence_statistics n t running (registers_analysis n t first running m)))
        (memory_analysis-SameTotals n t first running a)
        λ m same. SameTotals-trans same (statistics-SameTotals n t first running m)

  module _ (a : Analyser) where
    -- The counters that `count_round` writes, carried through the special analyses.
    Round-counted :
        (s : Tally) (c : Cycle) (b : Analyser)
        → Tallied n t a n s
        → 0 < s.running
        → SameTotals (with_cycle c (count_round s a)) b
        → Round n t a b
    unfolding count_round
    Round-counted s c b h pos same = record {
      running = s.running;
      some_run = pos;
      few = h.few;
      instructions_eq = λ k lt. ap (λ (f : ℕ → ℕ). f k) same.instructions_eq ∙ h.counted k lt;
      sum = rw (same.instructions_eq) h.sum;
      pertime_eq = same.pertime_eq;
      size_eq = same.size_eq;
      total_eq = same.total_eq;
    }

    Round-running :
        (first : ℕ) (s : Tally)
        → Tallied n t a n s
        → 0 < s.running
        → OnOk (Round n t a) (analyse_running n t s (some first) a)
    unfolding analyse_running
    Round-running first s h pos = elim (Result-cases (count_cycles n t first (count_round s a))) [
      | inl (c, e) ↦ rw e (
          OnOk-map (SameTotals (with_cycle c (count_round s a))) (Round n t a)
            (special_analyses n t first s.running (with_cycle c (count_round s a)))
            (special-SameTotals first s.running (with_cycle c (count_round s a)))
            (λ b same. Round-counted s c b h pos same))
      | inr (stop, e) ↦ rw e tt
    ]

    Round-tally :
        (s : Tally) (first : Option ℕ)
        → s.first ≡ first
        → Tallied n t a n s
        → OnOk (Round n t a) (analyse_running n t s first a)
    unfolding analyse_running
    Round-tally s none e h = tt
    Round-tally s (some first) e h =
        Round-running first s h (subst (λ o. FirstOf t n o s.running) e h.first_of).2

    analyse-OnOk : OnOk (Round n t a) (analyse n t a)
    unfolding analyse
    analyse-OnOk = Round-tally (tally n t a) (tally n t a).first refl (tally-Tallied n t a)

    -- Where `analyse` returns a result, each active thread below n counts one instruction more and
    -- each other one none; the total grows by a number between 1 and n that is also the growth of
    -- the sum over the threads, and the rounds and the rounds with that number of threads grow by
    -- one, all modulo 2^64.
    pub analyse-Round : (b : Analyser) → analyse n t a ≡ ok b → Round n t a b
    analyse-Round b e = OnOk-eq (Round n t a) (analyse n t a) b analyse-OnOk e

-- The invariant of `check_result`, as congruences.
pub record IsBalanced (n : ℕ) (a : Analyser) : Type 0 where
  pub sum : total n a.instructions % long_mod ≡ a.total_instructions
  pub size : total n a.executing_pertime % long_mod ≡ a.resulting_size
  pub weighted : total n (λ i. (i + 1) * a.executing_pertime i) % long_mod ≡ a.total_instructions

-- The weight of one more round with r threads.
weighted-bump :
    (n : ℕ) (f : ℕ → ℕ) (i : ℕ)
    → i < n
    → total n (λ k. (k + 1) * bump f i k) % long_mod
      ≡ (total n (λ k. (k + 1) * f k) + (i + 1)) % long_mod
weighted-bump n f i lt = omega (
  arith,
  total_change n (λ k. (k + 1) * f k) (λ k. (k + 1) * bump f i k) i lt
      (λ k ne. ap (λ v. (k + 1) * v) (sym (update_ne f i (inc (f i)) k ne))),
  at_i,
  wrapped,
)
  where
    at_i : (i + 1) * bump f i i ≡ (i + 1) * inc (f i)
    at_i = rw (==_refl i)

    quotient : ℕ
    quotient = (f i + 1) / long_mod

    unwrap : inc (f i) + quotient * long_mod ≡ f i + 1
    unwrap = omega arith

    wrapped : (i + 1) * inc (f i) + (i + 1) * quotient * long_mod ≡ (i + 1) * f i + (i + 1)
    wrapped = omega (arith, ap (λ v. (i + 1) * v) unwrap)

-- A round of `analyse` that returns a result keeps the sums that `check_result` compares equal: the
-- instructions of the threads add up to the total, the rounds by number of active threads add up to
-- the rounds, and weighted by that number to the total, modulo 2^64.
pub analyse-IsBalanced :
    (n : ℕ) (t : Threads) (a b : Analyser) → analyse n t a ≡ ok b → IsBalanced n a → IsBalanced n b
analyse-IsBalanced n t a b e h =
    let r = analyse-Round n t a b e in
    record {
      sum = omega (arith, r.sum, h.sum, r.total_eq);
      size = rw r.pertime_eq (
          omega (
            arith,
            bump-total n a.executing_pertime (r.running - 1) (omega (arith, r.some_run, r.few)),
            h.size,
            r.size_eq,
          ));
      weighted = rw r.pertime_eq (
          omega (
            arith,
            weighted-bump n a.executing_pertime (r.running - 1) (omega (arith, r.some_run, r.few)),
            h.weighted,
            r.total_eq,
            r.some_run,
          ));
    }

pub init-IsBalanced : (memory : ℕ → ℤ) (num_fetches n : ℕ) → IsBalanced n (init memory num_fetches)
unfolding init
init-IsBalanced memory num_fetches n = record {
  sum = omega (arith, total-zero n (λ _. 0) (λ i. refl));
  size = omega (arith, total-zero n (λ _. 0) (λ i. refl));
  weighted = omega (arith, total-zero n (λ i. (i + 1) * 0) (λ i. omega arith));
}

pub check_result-ok : (n : ℕ) (a : Analyser) → IsBalanced n a → check_result n a ≡ ok a
unfolding check_result
check_result-ok n a h = rw (consistent, check_result) refl
  where
    consistent : is_consistent n a ≡ true
    consistent = ground (arith, h.sum, h.size, h.weighted)
