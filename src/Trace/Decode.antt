-- ===== src/Trace/Decode.antt =====
-- The records of a trace file, by reading until `read` says that the file has ended.
use mmt_sync.Base.{
  ℕ, zero, suc, ◌<◌, ◌≡◌, List, [], ◌∷◌, none, some, arith, length, Option-cases, inl, inr, ap,
}
use mmt_sync.Trace.Format.{File, Instruction, read}
use mmt_sync.Trace.Progress.{read-lt}

unfoldable pub decode_fuel : ℕ → File → List Instruction
decode_fuel zero f = []
decode_fuel (suc k) f = elim (read f).0 [ none ↦ [] | some i ↦ i ∷ decode_fuel k (read f).1 ]

-- Each record takes at least one byte.
unfoldable pub decode : File → List Instruction
unfolding decode_fuel
decode f = decode_fuel (suc (length f.bytes)) f

decode_fuel-congr :
    (k m : ℕ) (f : File)
    → length f.bytes < k
    → length f.bytes < m
    → decode_fuel k f ≡ decode_fuel m f
unfolding decode_fuel
decode_fuel-congr zero m f h g = absurd (omega arith)
decode_fuel-congr (suc k) zero f h g = absurd (omega arith)
decode_fuel-congr (suc k) (suc m) f h g = elim (Option-cases (read f).0) [
  | inl e ↦ rw (e, decode_fuel)
  | inr (i, e) ↦
      rw (e, decode_fuel)
        (ap (λ r. i ∷ r)
          (decode_fuel-congr k m (read f).1 (omega (arith, read-lt f i e))
            (omega (arith, read-lt f i e))))
]

pub decode-none : (f : File) → (read f).0 ≡ none → decode f ≡ []
unfolding decode
decode-none f e = rw (e, decode, decode_fuel)

-- If `read` returns a record, the trace is this record and then the trace of the rest of the file:
-- the fuel of `decode` is always enough.
pub decode-some :
    (f : File) (i : Instruction) → (read f).0 ≡ some i → decode f ≡ i ∷ decode (read f).1
unfolding decode
decode-some f i e =
    rw (e, decode, decode_fuel)
      (ap (λ r. i ∷ r)
        (decode_fuel-congr (length f.bytes) (suc (length (read f).1.bytes)) (read f).1
          (read-lt f i e) (omega arith)))
