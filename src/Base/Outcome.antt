-- ===== src/Base/Outcome.antt =====
-- Results of code that throws an `Exception`, or that reads outside an array.
use mathlib.Core.Path.{◌≡◌, refl, ap, subst}
use mathlib.Core.Logic.{◌⊎◌, inl, inr}

-- The exceptions of the program, by their messages; `out_of_bounds` stands for what C++ leaves
-- undefined (a read of `t[-1]`, of the front of an empty queue or of a missing list entry, a division
-- by 0), `bitset_range` for the exception of `std::bitset::test`, and `assertion_failed` for
-- `assert`; `no_return` for a loop on fuel that has used it up.
pub data Error : Type 0 where
  wrong_addresses : Error
  different_instructions : Error
  input_file_problem : Error
  no_thread_chosen : Error
  inconsistent_result : Error
  invalid_mode : Error
  too_many_threads : Error
  bitset_range : Error
  irregular_calls : Error
  assertion_failed : Error
  no_return : Error
  out_of_bounds : Error

pub data Result {ℓ} (A : Type ℓ) : Type ℓ where
  err : (stop : Error) → Result A
  ok : (value : A) → Result A

-- What comes after an exception is not reached.
infixl 5 ◌>>=◌
abbrev pub ◌>>=◌ {ℓ κ} : {A : Type ℓ} {B : Type κ} → Result A → (A → Result B) → Result B
err stop >>= next = err stop
ok value >>= next = next value

pub Result-cases {ℓ} :
    {A : Type ℓ} (r : Result A) → ((a : A) × (r ≡ ok a)) ⊎ ((e : Error) × (r ≡ err e))
Result-cases (ok a) = inl (a, refl)
Result-cases (err e) = inr (e, refl)

pub bind_ok {ℓ κ} :
    {A : Type ℓ} {B : Type κ} (r : Result A) (a : A) (next : A → Result B)
    → r ≡ ok a
    → (r >>= next) ≡ next a
bind_ok r a next e = ap (λ x. x >>= next) e

-- What holds of a result if it is one; an exception satisfies it.
abbrev pub OnOk : {A : Type 0} → (A → Type 0) → Result A → Type 0
OnOk P (ok a) = P a
OnOk P (err e) = Unit {0}

pub OnOk-eq : {A : Type 0} (P : A → Type 0) (r : Result A) (a : A) → OnOk P r → r ≡ ok a → P a
OnOk-eq P r a h e = subst (OnOk P) e h

pub OnOk-bind :
    {A B : Type 0} (P : A → Type 0) (Q : B → Type 0) (r : Result A) (f : A → Result B)
    → OnOk P r
    → ((a : A) → P a → OnOk Q (f a))
    → OnOk Q (r >>= f)
OnOk-bind P Q (ok a) f h k = k a h
OnOk-bind P Q (err e) f h k = tt

pub OnOk-map :
    {A : Type 0} (P Q : A → Type 0) (r : Result A) → OnOk P r → ((a : A) → P a → Q a) → OnOk Q r
OnOk-map P Q (ok a) h k = k a h
OnOk-map P Q (err e) h k = tt

pub OnOk-any : {A : Type 0} (r : Result A) → OnOk (λ a. Unit {0}) r
OnOk-any (ok a) = tt
OnOk-any (err e) = tt

-- What holds whatever the first part returns.
pub OnOk-then :
    {A B : Type 0} (Q : B → Type 0) (r : Result A) (f : A → Result B)
    → ((a : A) → OnOk Q (f a))
    → OnOk Q (r >>= f)
OnOk-then Q (ok a) f h = h a
OnOk-then Q (err e) f h = tt

pub OnOk-intro :
    {A : Type 0} (P : A → Type 0) (r : Result A) → ((a : A) → r ≡ ok a → P a) → OnOk P r
OnOk-intro P (ok a) h = h a refl
OnOk-intro P (err e) h = tt

pub OnOk-both :
    {A : Type 0} (P Q : A → Type 0) (r : Result A) → OnOk P r → OnOk Q r → OnOk (λ a. P a × Q a) r
OnOk-both P Q (ok a) p q = (p, q)
OnOk-both P Q (err e) p q = tt
