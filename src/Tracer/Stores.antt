-- ===== src/Tracer/Stores.antt =====
-- `stored_delayed_memory` and `stored_delayed_regis` of Tools/insList.cpp: arrays that are filled
-- from the front, and the bytes that are written from them.
use mathlib.Core.List.{append_assoc, append-nil}
use mmt_sync.Base.{
  ℕ, zero, suc, ◌+◌, ◌/◌, ◌≤◌, ◌≡◌, refl, ap, ap₂, ◌∙◌, List, [], ◌∷◌, ◌++◌, arith, length, update,
  update_self, update_ne,
}
use mmt_sync.Tracer.Defs.{number_bytes}
use mmt_sync.Tracer.Bytes.{entries, list_bytes, AllFit}

-- The array after entries were stored from the index q on.
unfoldable pub store_all : (ℕ → ℕ) → ℕ → List ℕ → ℕ → ℕ
store_all a q [] = a
store_all a q (x ∷ xs) = store_all (update a q x) (suc q) xs

pub store_all-append :
    (a : ℕ → ℕ) (q : ℕ) (xs ys : List ℕ)
    → store_all a q (xs ++ ys) ≡ store_all (store_all a q xs) (q + length xs) ys
unfolding store_all
store_all-append a q [] ys = ap (λ k. store_all a k ys) (omega arith)
store_all-append a q (x ∷ xs) ys =
    store_all-append (update a q x) (suc q) xs ys
    ∙ ap (λ k. store_all (store_all (update a q x) (suc q) xs) k ys) (omega arith)

entries-suc : (a : ℕ → ℕ) (i q : ℕ) → entries a i (suc q) ≡ entries a i q ++ a (i + q) ∷ []
entries-suc a i zero = ap (λ k. a k ∷ []) (omega arith)
entries-suc a i (suc q) =
    ap (λ l. a i ∷ l)
      (rw (entries-suc a (suc i) q) (ap (λ k. entries a (suc i) q ++ a k ∷ []) (omega arith)))

entries-update : (a : ℕ → ℕ) (i q k x : ℕ) → i + q ≤ k → entries (update a k x) i q ≡ entries a i q
entries-update a i zero k x le = refl
entries-update a i (suc q) k x le =
    rw (update_ne a k x i (λ e. omega arith), entries-update a (suc i) q k x (omega arith))

pub entries-snoc :
    (a : ℕ → ℕ) (q x : ℕ) → entries (update a q x) 0 (suc q) ≡ entries a 0 q ++ x ∷ []
entries-snoc a q x =
    entries-suc (update a q x) 0 q
    ∙ ap₂ (λ l y. l ++ y ∷ []) (entries-update a 0 q q x (omega arith))
        (ap (update a q x) (omega arith) ∙ update_self a q x)

-- What is stored stands behind what was there.
pub entries-store_all :
    (a : ℕ → ℕ) (q : ℕ) (xs : List ℕ)
    → entries (store_all a q xs) 0 (q + length xs) ≡ entries a 0 q ++ xs
unfolding store_all
entries-store_all a q [] = rw append-nil (ap (λ k. entries a 0 k) (omega arith))
entries-store_all a q (x ∷ xs) =
    let grown : q + suc (length xs) ≡ suc q + length xs = omega arith in
    rw grown (
      entries-store_all (update a q x) (suc q) xs
      ∙ ap (λ l. l ++ xs) (entries-snoc a q x)
      ∙ append_assoc (entries a 0 q) (x ∷ []) xs)

-- One byte each.
pub list_bytes-bytes : (xs : List ℕ) → AllFit 1 xs → list_bytes 1 xs ≡ xs
unfolding list_bytes number_bytes
list_bytes-bytes [] fit = refl
list_bytes-bytes (x ∷ xs) (lt, fit) = ap₂ (λ b l. b ∷ l) (omega arith) (list_bytes-bytes xs fit)

pub AllFit-append :
    (size : ℕ) (xs ys : List ℕ) → AllFit size xs → AllFit size ys → AllFit size (xs ++ ys)
AllFit-append size [] ys f g = g
AllFit-append size (x ∷ xs) ys (lt, f) g = (lt, AllFit-append size xs ys f g)

pub number_bytes-AllFit : (size x : ℕ) → AllFit 1 (number_bytes size x)
unfolding number_bytes
number_bytes-AllFit zero x = tt
number_bytes-AllFit (suc size) x = (omega arith, number_bytes-AllFit size (x / 256))
