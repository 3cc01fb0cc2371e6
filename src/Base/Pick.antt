-- ===== src/Base/Pick.antt =====
-- The loop by which the heuristics choose a thread: the first of the best among those allowed.
use Prim.Native.Nat.{ℕ, suc, ◌<◌}
use mathlib.Core.Path.{◌≡◌, sym, subst}
use mathlib.Core.Logic.{inl, inr}
use mathlib.Core.Bool.{Bool, true, false}
use mathlib.Core.Option.{Option, none, some}
use native.Mathlib.Omega.{arith}
use mmt_sync.Base.Tests.{◌==◌, ==_iff, if◌then◌else◌, Bool-cases, Option-cases}
use mmt_sync.Base.Loop.{for, for_inv}

-- The reference moves to `i` if there is none yet or `i` beats it.
abbrev pub challenge : (ℕ → ℕ → Bool) → ℕ → Option ℕ → Option ℕ
challenge better i none = some i
challenge better i (some r) = if better i r then some i else some r

unfoldable pub pick : ℕ → (ℕ → Bool) → (ℕ → ℕ → Bool) → Option ℕ
unfolding for
pick n allowed better = for n (λ i ref. if allowed i then challenge better i ref else ref) none

-- What the loop finds: an allowed thread that no allowed thread beats and that beats, so far as
-- `better` is a weak order, every allowed one before it.
pub record IsPick (n : ℕ) (allowed : ℕ → Bool) (better : ℕ → ℕ → Bool) (r : ℕ) : Type 0 where
  pub below : r < n
  pub chosen : allowed r ≡ true
  pub best : (i : ℕ) → i < n → allowed i ≡ true → better i r ≡ false
  pub first : (i : ℕ) → i < r → allowed i ≡ true → better r i ≡ true

-- `better` is irreflexive, and what is not beaten is still not beaten by less.
pub record IsStrict (better : ℕ → ℕ → Bool) : Type 0 where
  pub irrefl : (i : ℕ) → better i i ≡ false
  pub weak :
      (i j k : ℕ)
      → better i j ≡ false
      → better k j ≡ true
      → (better i k ≡ false) × (better k i ≡ true)

-- One round, stated on the reference so far.
module _ (allowed : ℕ → Bool) (better : ℕ → ℕ → Bool) where
  abbrev Scanned : ℕ → Option ℕ → Type 0
  Scanned n none = (i : ℕ) → i < n → allowed i ≡ false
  Scanned n (some r) = IsPick n allowed better r

  Scanned-skip : (n : ℕ) (o : Option ℕ) → allowed n ≡ false → Scanned n o → Scanned (suc n) o
  Scanned-skip n none no_n h = λ i lt. elim (Bool-cases (i == n)) [
    | inl e ↦ subst (λ k. allowed k ≡ false) (sym ((==_iff i n).0 e)) no_n
    | inr ne ↦ h i (ground arith)
  ]
  Scanned-skip n (some r) no_n h = record {
    below = omega (arith, h.below);
    chosen = h.chosen;
    best = λ i lt a. elim (Bool-cases (i == n)) [
      | inl e ↦ cc (subst (λ k. allowed k ≡ false) (sym ((==_iff i n).0 e)) no_n)
      | inr ne ↦ h.best i (ground arith) a
    ];
    first = h.first;
  }

  Scanned-first :
      IsStrict better → (n : ℕ) → allowed n ≡ true → Scanned n none → Scanned (suc n) (some n)
  Scanned-first s n yes_n h = record {
    below = omega arith;
    chosen = yes_n;
    best = λ i lt a. elim (Bool-cases (i == n)) [
      | inl e ↦ subst (λ k. better k n ≡ false) (sym ((==_iff i n).0 e)) (s.irrefl n)
      | inr ne ↦ cc (h i (ground arith))
    ];
    first = λ i lt a. cc (h i lt);
  }

  Scanned-keep : (n r : ℕ) → better n r ≡ false → Scanned n (some r) → Scanned (suc n) (some r)
  Scanned-keep n r loses h = record {
    below = omega (arith, h.below);
    chosen = h.chosen;
    best = λ i lt a. elim (Bool-cases (i == n)) [
      | inl e ↦ subst (λ k. better k r ≡ false) (sym ((==_iff i n).0 e)) loses
      | inr ne ↦ h.best i (ground arith) a
    ];
    first = h.first;
  }

  Scanned-replace :
      IsStrict better
      → (n r : ℕ) → allowed n ≡ true
      → better n r ≡ true
      → Scanned n (some r)
      → Scanned (suc n) (some n)
  Scanned-replace s n r yes_n wins h = record {
    below = omega arith;
    chosen = yes_n;
    best = λ i lt a. elim (Bool-cases (i == n)) [
      | inl e ↦ subst (λ k. better k n ≡ false) (sym ((==_iff i n).0 e)) (s.irrefl n)
      | inr ne ↦ (s.weak i r n (h.best i (ground arith) a) wins).0
    ];
    first = λ i lt a. (s.weak i r n (h.best i lt a) wins).1;
  }

  Scanned-challenge :
      IsStrict better
      → (n : ℕ) (o : Option ℕ) → allowed n ≡ true
      → Scanned n o
      → Scanned (suc n) (challenge better n o)
  Scanned-challenge s n none yes_n h = Scanned-first s n yes_n h
  Scanned-challenge s n (some r) yes_n h = elim (Bool-cases (better n r)) [
    | inl wins ↦ rw wins (Scanned-replace s n r yes_n wins h)
    | inr loses ↦ rw loses (Scanned-keep n r loses h)
  ]

  pick-Scanned : IsStrict better → (n : ℕ) → Scanned n (pick n allowed better)
  unfolding pick
  pick-Scanned s n =
      for_inv Scanned n (λ i ref. if allowed i then challenge better i ref else ref) none
        (λ i o lt h. elim (Bool-cases (allowed i)) [
          | inl yes_i ↦ rw yes_i (Scanned-challenge s i o yes_i h)
          | inr no_i ↦ rw no_i (Scanned-skip i o no_i h)
        ])
        (λ i lt. absurd (omega arith))

  -- The loop ends with no thread only if none is allowed.
  pub pick-none :
      IsStrict better → (n : ℕ) → pick n allowed better ≡ none → (i : ℕ) → i < n → allowed i ≡ false
  pick-none s n e = subst (Scanned n) e (pick-Scanned s n)

  pub pick-some :
      IsStrict better → (n r : ℕ) → pick n allowed better ≡ some r → IsPick n allowed better r
  pick-some s n r e = subst (Scanned n) e (pick-Scanned s n)

  -- If a thread is allowed, one is found.
  pub pick_total :
      IsStrict better
      → (n i : ℕ) → i < n
      → allowed i ≡ true
      → (r : ℕ) × (pick n allowed better ≡ some r) × IsPick n allowed better r
  pick_total s n i lt a = elim (Option-cases (pick n allowed better)) [
    | inl e ↦ cc (pick-none s n e i lt)
    | inr (r, e) ↦ (r, e, pick-some s n r e)
  ]
