-- ===== src/Base/Find.antt =====
-- The loops that stop at the first hit: `if (allowed) { ref = i; break; }`.
use Prim.Native.Nat.{ℕ, suc, ◌<◌}
use mathlib.Core.Path.{◌≡◌, refl, sym, subst}
use mathlib.Core.Logic.{inl, inr}
use mathlib.Core.Bool.{Bool, true, false}
use mathlib.Core.Option.{Option, none, some}
use native.Mathlib.Omega.{arith}
use mmt_sync.Base.Tests.{◌==◌, ==_iff, if◌then◌else◌, Bool-cases}
use mmt_sync.Base.Loop.{for, for_inv}

-- After j rounds of a search that visits `at 0`, `at 1`, …
abbrev pub Searched : (ℕ → ℕ) → (ℕ → Bool) → ℕ → Option ℕ → Type 0
Searched at p j none = (k : ℕ) → k < j → p (at k) ≡ false
Searched at p j (some r) =
    (k : ℕ) × (k < j) × (at k ≡ r) × (p r ≡ true) × ((i : ℕ) → i < k → p (at i) ≡ false)

-- Round i looks at `at i`; after a hit the rounds do nothing.
abbrev pub visit : (ℕ → ℕ) → (ℕ → Bool) → ℕ → Option ℕ → Option ℕ
visit at p i none = if p (at i) then some (at i) else none
visit at p i (some r) = some r

unfoldable pub search_for : ℕ → (ℕ → ℕ) → (ℕ → Bool) → Option ℕ
unfolding for
search_for n at p = for n (visit at p) none

visit-Searched :
    (at : ℕ → ℕ) (p : ℕ → Bool) (j : ℕ) (o : Option ℕ)
    → Searched at p j o
    → Searched at p (suc j) (visit at p j o)
visit-Searched at p j none h = elim (Bool-cases (p (at j))) [
  | inl hit ↦ rw hit (j, omega arith, refl, hit, h)
  | inr miss ↦ rw miss (λ k lt. elim (Bool-cases (k == j)) [
    | inl e ↦ subst (λ m. p (at m) ≡ false) (sym ((==_iff k j).0 e)) miss
    | inr ne ↦ h k (ground arith)
  ])
]
visit-Searched at p j (some r) (k, lt, e, hit, before) = (k, omega arith, e, hit, before)

pub search_for-Searched : (n : ℕ) (at : ℕ → ℕ) (p : ℕ → Bool) → Searched at p n (search_for n at p)
unfolding search_for
search_for-Searched n at p =
    for_inv (Searched at p) n (visit at p) none (λ j o lt h. visit-Searched at p j o h)
      (λ k lt. absurd (omega arith))
