-- ===== src/Trace/Progress.antt =====
-- How much of the file `Instruction::read` consumes.
use mmt_sync.Base.{
  ℕ, zero, suc, ◌+◌, ◌%◌, ◌≤◌, ◌<◌, ◌≡◌, subst, List, [], ◌∷◌, Bool, true, false, some, arith,
  length, Bool-cases, inl, inr, if◌then◌else◌, ltb,
}
use mmt_sync.Trace.Flags.{has_bit}
use mmt_sync.Trace.Format.{
  File, get_byte, fgetc, readf, read_number, read_numbers, read_header, read_pragmas, read_body,
  read, Instruction, Header,
}

-- Bytes are lost one by one, and a read that did not meet the end took as many as it was asked.
record Reads (size : ℕ) (before after : File) : Type 0 where
  shorter : length after.bytes ≤ length before.bytes
  exact : after.at_eof ≡ false → length after.bytes + size ≡ length before.bytes
  clear : after.at_eof ≡ false → before.at_eof ≡ false

get_byte-Reads :
    (bs : List ℕ) (e : Bool) → Reads 1 (record { bytes = bs; at_eof = e }) (get_byte bs e).1
get_byte-Reads [] e = record { shorter = omega arith; exact = λ h. cc; clear = λ h. cc }
get_byte-Reads (b ∷ bs) e = record {
  shorter = omega arith;
  exact = λ h. omega arith;
  clear = λ h. h;
}

fgetc-Reads : (f : File) → Reads 1 f (fgetc f).1
fgetc-Reads f = get_byte-Reads f.bytes f.at_eof

Reads-then : (m n : ℕ) {f g h : File} → Reads m f g → Reads n g h → Reads (m + n) f h
Reads-then m n a b = record {
  shorter = omega (arith, a.shorter, b.shorter);
  exact = λ e. omega (arith, b.exact e, a.exact (b.clear e));
  clear = λ e. a.clear (b.clear e);
}

readf-Reads : (n : ℕ) (f : File) → Reads n f (readf n f).1
unfolding readf
readf-Reads zero f = record { shorter = omega arith; exact = λ h. omega arith; clear = λ h. h }
readf-Reads (suc n) f =
    subst (λ k. Reads k f (readf (suc n) f).1) (omega arith)
      (Reads-then 1 n (fgetc-Reads f) (readf-Reads n (fgetc f).1))

read_number-Reads : (n : ℕ) (f : File) → Reads n f (read_number n f).1
unfolding read_number
read_number-Reads n f = readf-Reads n f

read_header-Reads : (f : File) → Reads 23 f (read_header f).1
unfolding read_header
read_header-Reads f0 =
    Reads-then 19 4
      (Reads-then 18 1
        (Reads-then 17 1
          (Reads-then 16 1 (Reads-then 8 8 (read_number-Reads 8 f0) (read_number-Reads 8 f1))
            (read_number-Reads 1 f2))
          (read_number-Reads 1 f3))
        (read_number-Reads 1 f4))
      (read_number-Reads 4 f5)
  where
    f1 : File
    f1 = (read_number 8 f0).1

    f2 : File
    f2 = (read_number 8 f1).1

    f3 : File
    f3 = (read_number 1 f2).1

    f4 : File
    f4 = (read_number 1 f3).1

    f5 : File
    f5 = (read_number 1 f4).1

-- The body may meet the end, and never gives bytes back.
read_numbers-le : (size n : ℕ) (f : File) → length (read_numbers size n f).1.bytes ≤ length f.bytes
unfolding read_numbers
read_numbers-le size zero f = omega arith
read_numbers-le size (suc n) f =
    omega (arith, (read_number-Reads size f).shorter, read_numbers-le size n (read_number size f).1)

read_pragmas-le : (b : Bool) (f : File) → length (read_pragmas b f).1.bytes ≤ length f.bytes
unfolding read_pragmas
read_pragmas-le false f = omega arith
read_pragmas-le true f = omega (
  arith,
  (read_number-Reads 4 f).shorter,
  (read_number-Reads 1 (read_number 4 f).1).shorter,
  read_numbers-le 4 (read_number 1 (read_number 4 f).1).0 (read_number 1 (read_number 4 f).1).1,
)

read_registers-le :
    (b : Bool) (n : ℕ) (f : File)
    → length (if b then readf n f else ([], f)).1.bytes ≤ length f.bytes
read_registers-le true n f = (readf-Reads n f).shorter
read_registers-le false n f = omega arith

read_body-le : (h : Header) (f : File) → length (read_body h f).1.bytes ≤ length f.bytes
unfolding read_body
read_body-le h f0 = omega (
  arith,
  read_registers-le (ltb 0 h.reg_size) h.reg_size f2,
  read_numbers-le 8 (h.mqflags % 8) f1,
  read_pragmas-le (has_bit 3 h.mqflags) f0,
)
  where
    f1 : File
    f1 = (read_pragmas (has_bit 3 h.mqflags) f0).1

    f2 : File
    f2 = (read_numbers 8 (h.mqflags % 8) f1).1

-- What `read` leaves when it returns a record is shorter, so a file holds finitely many.
pub read-lt :
    (f : File) (i : Instruction) → (read f).0 ≡ some i → length (read f).1.bytes < length f.bytes
unfolding read
read-lt f i e = elim (Bool-cases (read_header f).1.at_eof) [
  | inl stop ↦ cc (rw stop at e)
  | inr more ↦ rw more (
      omega
        (arith, (read_header-Reads f).exact more, read_body-le (read_header f).0 (read_header f).1))
]
