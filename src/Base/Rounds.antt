-- ===== src/Base/Rounds.antt =====
-- Counted loops whose body may fail: the first failure ends the loop.
use Prim.Native.Nat.{ℕ, zero, suc, ◌<◌}
use mathlib.Core.Path.{◌≡◌, refl, ap, ◌∙◌}
use native.Mathlib.Omega.{arith}
use mmt_sync.Base.Outcome.{Result, ok, ◌>>=◌, OnOk, OnOk-bind}

unfoldable pub rounds {ℓ} : {S : Type ℓ} → ℕ → (ℕ → S → Result S) → S → Result S
rounds zero body s = ok s
rounds (suc n) body s = rounds n body s >>= body n

-- A body that goes on wherever the invariant holds makes a loop that ends, with the invariant.
pub rounds_ok {ℓ κ} :
    {S : Type ℓ} (P : ℕ → S → Type κ) (n : ℕ) (body : ℕ → S → Result S) (s : S)
    → ((i : ℕ) (u : S) → i < n → P i u → (v : S) × (body i u ≡ ok v) × P (suc i) v)
    → P 0 s
    → (v : S) × (rounds n body s ≡ ok v) × P n v
unfolding rounds
rounds_ok P zero body s keep h = (s, refl, h)
rounds_ok P (suc n) body s keep h =
    let (u, e, hu) = rounds_ok P n body s (λ i u lt. keep i u (omega arith)) h in
    let (v, f, hv) = keep n u (omega arith) hu in (v, ap (λ r. r >>= body n) e ∙ f, hv)

-- Where the loop ends, an invariant of the bodies that go on holds.
pub rounds-OnOk :
    {S : Type 0} (P : ℕ → S → Type 0) (n : ℕ) (body : ℕ → S → Result S) (s : S)
    → ((i : ℕ) (u : S) → i < n → P i u → OnOk (P (suc i)) (body i u))
    → P 0 s
    → OnOk (P n) (rounds n body s)
unfolding rounds
rounds-OnOk P zero body s keep h = h
rounds-OnOk P (suc n) body s keep h =
    OnOk-bind (P n) (P (suc n)) (rounds n body s) (body n)
      (rounds-OnOk P n body s (λ i u lt. keep i u (omega arith)) h) (λ u. keep n u (omega arith))
