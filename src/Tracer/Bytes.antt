-- ===== src/Tracer/Bytes.antt =====
-- What `readf` of Execute/src/Thread.cpp makes of the bytes that `writef` of Tools/insList.cpp
-- writes.
use mathlib.Core.List.{append_assoc}
use mmt_sync.Base.{
  ℕ, zero, suc, ◌*◌, ◌/◌, ◌^◌, ◌<◌, ◌≡◌, refl, ap, List, [], ◌∷◌, ◌++◌, Bool, arith, length,
}
use mmt_sync.Trace.{File, word_of, readf, read_number, read_numbers}
use mmt_sync.Tracer.Defs.{number_bytes, array_bytes}

abbrev pub file_of : List ℕ → Bool → File
file_of bytes e = record { bytes = bytes; at_eof = e }

pow-256 : (size : ℕ) → 256 ^ suc size ≡ 256 * 256 ^ size
pow-256 size = omega arith

-- `readf` takes what stands in front.
pub readf-append :
    (bytes rest : List ℕ) (e : Bool)
    → readf (length bytes) (file_of (bytes ++ rest) e) ≡ (bytes, file_of rest e)
unfolding readf
readf-append [] rest e = refl
readf-append (b ∷ bs) rest e = rw (readf-append bs rest e)

pub length-number_bytes : (size x : ℕ) → length (number_bytes size x) ≡ size
unfolding number_bytes
length-number_bytes zero x = refl
length-number_bytes (suc size) x = ap suc (length-number_bytes size (x / 256))

pub word_of-number_bytes : (size x : ℕ) → x < 256 ^ size → word_of (number_bytes size x) ≡ x
unfolding number_bytes
word_of-number_bytes zero x lt = omega arith
word_of-number_bytes (suc size) x lt =
    omega (arith, word_of-number_bytes size (x / 256) (omega (arith, pow-256 size)))

pub readf-number_bytes :
    (size x : ℕ) (rest : List ℕ) (e : Bool)
    → readf size (file_of (number_bytes size x ++ rest) e) ≡ (number_bytes size x, file_of rest e)
unfolding number_bytes readf
readf-number_bytes zero x rest e = refl
readf-number_bytes (suc size) x rest e = rw (readf-number_bytes size (x / 256) rest e)

-- A number that fits its bytes is read back, and the rest of the file is left.
pub read_number-number_bytes :
    (size x : ℕ) (rest : List ℕ) (e : Bool)
    → x < 256 ^ size
    → read_number size (file_of (number_bytes size x ++ rest) e) ≡ (x, file_of rest e)
unfolding read_number
read_number-number_bytes size x rest e lt =
    rw (readf-number_bytes size x rest e)
      (ap (λ v. (v, file_of rest e)) (word_of-number_bytes size x lt))

-- The entries of an array from the index i on.
abbrev pub entries : (ℕ → ℕ) → ℕ → ℕ → List ℕ
entries a i zero = []
entries a i (suc count) = a i ∷ entries a (suc i) count

pub length-entries : (a : ℕ → ℕ) (i count : ℕ) → length (entries a i count) ≡ count
length-entries a i zero = refl
length-entries a i (suc count) = ap suc (length-entries a (suc i) count)

-- `writef` of one number after the other.
unfoldable pub list_bytes : ℕ → List ℕ → List ℕ
unfolding number_bytes
list_bytes size [] = []
list_bytes size (x ∷ xs) = number_bytes size x ++ list_bytes size xs

pub array_bytes-entries :
    (size : ℕ) (a : ℕ → ℕ) (i count : ℕ)
    → array_bytes size a i count ≡ list_bytes size (entries a i count)
unfolding array_bytes list_bytes
array_bytes-entries size a i zero = refl
array_bytes-entries size a i (suc count) =
    ap (λ l. number_bytes size (a i) ++ l) (array_bytes-entries size a (suc i) count)

-- Each entry fits its bytes.
abbrev pub AllFit : ℕ → List ℕ → Type 0
AllFit size [] = Unit {0}
AllFit size (x ∷ xs) = (x < 256 ^ size) × AllFit size xs

pub read_numbers-list_bytes :
    (size : ℕ) (xs rest : List ℕ) (e : Bool)
    → AllFit size xs
    → read_numbers size (length xs) (file_of (list_bytes size xs ++ rest) e) ≡ (xs, file_of rest e)
unfolding read_numbers list_bytes
read_numbers-list_bytes size [] rest e h = refl
read_numbers-list_bytes size (x ∷ xs) rest e (lt, h) = rw (
  append_assoc (number_bytes size x) (list_bytes size xs) rest,
  read_number-number_bytes size x (list_bytes size xs ++ rest) e lt,
  read_numbers-list_bytes size xs rest e h,
)
