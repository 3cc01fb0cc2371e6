-- ===== src/Base/Loop.antt =====
-- Counted loops: `for (i = 0; i < n; i++) s = body(i, s)`, with an invariant rule, and arrays as
-- functions of the index with a write at one index.
use Prim.Native.Nat.{ℕ, zero, suc, ◌+◌, ◌<◌, ◌≤◌}
use mathlib.Core.Path.{◌≡◌, ap, refl, subst}
use mathlib.Core.Logic.{◌⊎◌, ◌≢◌, inl, inr}
use mathlib.Core.Bool.{Bool, true, false}
use native.Mathlib.Omega.{arith}
use mmt_sync.Base.Tests.{◌==◌, ==_iff, Bool-cases, if◌then◌else◌}

-- The rounds 0 to n - 1 in this order.
unfoldable pub for {ℓ} : {S : Type ℓ} → ℕ → (ℕ → S → S) → S → S
for zero body s = s
for (suc n) body s = body n (for n body s)

-- The invariant may speak of the rounds done.
pub for_inv {ℓ κ} :
    {S : Type ℓ} (P : ℕ → S → Type κ) (n : ℕ) (body : ℕ → S → S) (s : S)
    → ((i : ℕ) (t : S) → i < n → P i t → P (suc i) (body i t))
    → P 0 s
    → P n (for n body s)
unfolding for
for_inv P zero body s keep h = h
for_inv P (suc n) body s keep h =
    keep n (for n body s) (omega arith) (for_inv P n body s (λ i t lt. keep i t (omega arith)) h)

-- `a[i] = v`
abbrev pub update {ℓ} : {A : Type ℓ} → (ℕ → A) → ℕ → A → ℕ → A
update f i v j = if i == j then v else f j

-- A sum over the indices below n.
unfoldable pub total : ℕ → (ℕ → ℕ) → ℕ
total zero f = 0
total (suc n) f = total n f + f n

pub total_mono : (n : ℕ) (f g : ℕ → ℕ) → ((i : ℕ) → i < n → f i ≤ g i) → total n f ≤ total n g
unfolding total
total_mono zero f g h = omega arith
total_mono (suc n) f g h =
    omega (arith, total_mono n f g (λ i lt. h i (omega arith)), h n (omega arith))

pub total_congr : (n : ℕ) (f g : ℕ → ℕ) → ((i : ℕ) → i < n → f i ≡ g i) → total n f ≡ total n g
unfolding total
total_congr zero f g h = refl
total_congr (suc n) f g h =
    omega (arith, total_congr n f g (λ i lt. h i (omega arith)), h n (omega arith))

-- One index where the first sum is smaller makes it smaller.
pub total_strict :
    (n : ℕ) (f g : ℕ → ℕ) (k : ℕ)
    → k < n
    → f k < g k
    → ((i : ℕ) → i < n → f i ≤ g i)
    → total n f < total n g
unfolding total
total_strict zero f g k lt below h = absurd (omega arith)
total_strict (suc n) f g k lt below h = elim (last (n == k) refl) [
  | inl e ↦ omega (arith, total_mono n f g (λ i p. h i (omega arith)), below, at_last e)
  | inr ne ↦
      omega (arith, total_strict n f g k ne below (λ i p. h i (omega arith)), h n (omega arith))
]
  where
    at_last : k ≡ n → f n < g n
    at_last e = subst (λ m. f m < g m) e below

    last : (b : Bool) → (n == k) ≡ b → (k ≡ n) ⊎ (k < n)
    last true e = inl (ground arith)
    last false e = inr (ground arith)

pub ==_refl : (i : ℕ) → (i == i) ≡ true
==_refl i = ground arith

pub update_self {ℓ} : {A : Type ℓ} (f : ℕ → A) (i : ℕ) (v : A) → update f i v i ≡ v
update_self f i v = rw (==_refl i)

-- A property of the new value at `i`, and of the old ones elsewhere, holds after the write.
pub update_all {ℓ κ} :
    {A : Type ℓ} (P : ℕ → A → Type κ) (f : ℕ → A) (i : ℕ) (v : A)
    → P i v
    → ((k : ℕ) → k ≢ i → P k (f k))
    → (k : ℕ) → P k (update f i v k)
update_all P f i v at_i elsewhere k = elim (Bool-cases (i == k)) [
  | inl e ↦ rw e (subst (λ m. P m v) ((==_iff i k).0 e) at_i)
  | inr ne ↦ rw ne (elsewhere k (ground arith))
]

-- A sum changes by what one summand changes.
pub total_change :
    (n : ℕ) (f g : ℕ → ℕ) (i : ℕ)
    → i < n
    → ((k : ℕ) → k ≢ i → f k ≡ g k)
    → total n g + f i ≡ total n f + g i
unfolding total
total_change zero f g i lt h = absurd (omega arith)
total_change (suc n) f g i lt h = elim (Bool-cases (n == i)) [
  | inl e ↦
      let at_i : n ≡ i = (==_iff n i).0 e in
      let rest : total n f ≡ total n g = total_congr n f g (λ k b. h k (ground arith)) in
      omega (arith, rest, ap f at_i, ap g at_i)
  | inr ne ↦ omega (arith, total_change n f g i (ground arith) h, h n (ground arith))
]

pub update_ne {ℓ} : {A : Type ℓ} (f : ℕ → A) (i : ℕ) (v : A) (k : ℕ) → k ≢ i → update f i v k ≡ f k
update_ne f i v k ne = ground arith

pub total-one : (n : ℕ) → total n (λ _. 1) ≡ n
unfolding total
total-one zero = refl
total-one (suc n) = omega (arith, total-one n)

pub total-zero : (n : ℕ) (f : ℕ → ℕ) → ((i : ℕ) → f i ≡ 0) → total n f ≡ 0
unfolding total
total-zero zero f h = refl
total-zero (suc n) f h = omega (arith, total-zero n f h, h n)
