-- ===== src/Analyser/Tally.antt =====
-- What the first loop of `analyse` counts.
use mmt_sync.Base.{
  ℕ, suc, ◌+◌, ◌%◌, ◌≤◌, ◌<◌, ◌≡◌, refl, sym, subst, ap, true, Option, none, some, for_inv, inl,
  inr, Bool-cases, ◌==◌, ==_iff, ==_refl, update_ne, total, total_change, arith, if◌then◌else◌,
}
use mmt_sync.Heuristics.Interface.{Threads}
use mmt_sync.Analyser.Defs.{Analyser, bump, inc, long_mod}
use mmt_sync.Analyser.Analyse.{Tally, tally_thread, tally, or_first}

-- `first` is the first active thread below n, and is set if `running` counts one.
abbrev pub FirstOf : Threads → ℕ → Option ℕ → ℕ → Type 0
FirstOf t n none running = running ≡ 0
FirstOf t n (some k) running = (k < n) × ((t k).is_active ≡ true) × (0 < running)

-- One more in one place, modulo the width.
pub bump-total :
    (n : ℕ) (f : ℕ → ℕ) (i : ℕ) → i < n → total n (bump f i) % long_mod ≡ (total n f + 1) % long_mod
bump-total n f i lt = omega (
  arith,
  total_change n f (bump f i) i lt (λ k ne. sym (update_ne f i (inc (f i)) k ne)),
  bump_self,
)
  where
    bump_self : bump f i i ≡ inc (f i)
    bump_self = rw (==_refl i)

-- One more for a thread that runs.
abbrev pub counted_at : Threads → Analyser → ℕ → ℕ
counted_at t a k = if (t k).is_active then inc (a.instructions k) else a.instructions k

module _ (n : ℕ) (t : Threads) (a : Analyser) where
  -- After the rounds below j.
  pub record Tallied (j : ℕ) (s : Tally) : Type 0 where
    pub few : s.running ≤ j
    pub first_of : FirstOf t n s.first s.running
    pub sum : total n s.instructions % long_mod ≡ (total n a.instructions + s.running) % long_mod
    pub counted : (k : ℕ) → k < j → s.instructions k ≡ counted_at t a k
    pub later : (k : ℕ) → j ≤ k → s.instructions k ≡ a.instructions k

  first_of-next :
      (o : Option ℕ) (i running : ℕ)
      → i < n
      → (t i).is_active ≡ true
      → FirstOf t n o running
      → FirstOf t n (or_first o i) (running + 1)
  first_of-next none i running lt act h = (lt, act, omega arith)
  first_of-next (some k) i running lt act h = (h.0, h.1, omega arith)

  tally_thread-Tallied :
      (i : ℕ) (s : Tally) → i < n → Tallied i s → Tallied (suc i) (tally_thread t i s)
  unfolding tally_thread
  tally_thread-Tallied i s lt h = elim (Bool-cases (t i).is_active) [
    | inl act ↦ rw act (record {
      few = omega (arith, h.few);
      first_of = first_of-next s.first i s.running lt act h.first_of;
      sum = omega (arith, bump-total n s.instructions i lt, h.sum);
      counted = λ k below. elim (Bool-cases (i == k)) [
        | inl e ↦ rw e (
            subst (λ m. inc (s.instructions i) ≡ counted_at t a m) ((==_iff i k).0 e)
              (rw act (ap inc (h.later i (omega arith)))))
        | inr ne ↦ rw ne (h.counted k (ground arith))
      ];
      later = λ k above. ground (arith, h.later k);
    })
    | inr idle ↦ rw idle (record {
      few = omega (arith, h.few);
      first_of = h.first_of;
      sum = h.sum;
      counted = λ k below. elim (Bool-cases (i == k)) [
        | inl e ↦
            subst (λ m. s.instructions m ≡ counted_at t a m) ((==_iff i k).0 e)
              (rw idle (h.later i (omega arith)))
        | inr ne ↦ h.counted k (ground arith)
      ];
      later = λ k above. h.later k (omega arith);
    })
  ]

  pub tally-Tallied : Tallied n (tally n t a)
  unfolding tally
  tally-Tallied =
      for_inv Tallied n (tally_thread t) _ (λ i s lt h. tally_thread-Tallied i s lt h)
        (record {
          few = omega arith;
          first_of = refl;
          sum = omega arith;
          counted = λ k lt. absurd (omega arith);
          later = λ k above. refl;
        })
