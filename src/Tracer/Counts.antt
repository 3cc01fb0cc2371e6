-- ===== src/Tracer/Counts.antt =====
-- Tools/insList.cpp: the numbers of addresses and bytes that `Instruction` counts, against what the
-- calls it inserts print.
use mmt_sync.Base.{
  ℕ, suc, ◌+◌, ◌^◌, ◌<◌, ◌≡◌, refl, ap, ap₂, List, [], ◌∷◌, ◌++◌, Bool, true, false, arith, length,
  length-append, ◌∙◌, if◌then◌else◌,
}
use mmt_sync.Tracer.Defs.{shown_address}
use mmt_sync.Tracer.Instrument.{
  Register, stack, x87, floating, mmx, xmm, common, Operand, Values, mem_acessos, as_count,
  register_size, regdata_size, accesses,
}
use mmt_sync.Tracer.Bytes.{AllFit, length-number_bytes}
use mmt_sync.Tracer.Stores.{AllFit-append, number_bytes-AllFit}
use mmt_sync.Tracer.Prints.{shown_all, register_bytes, registers_bytes}

length-once : (b : Bool) (k : ℕ) → length (if b then k ∷ [] else []) ≡ as_count b
length-once true k = refl
length-once false k = refl

pub length-accesses : (k : ℕ) (os : List Operand) → length (accesses k os) ≡ mem_acessos os
unfolding accesses mem_acessos
length-accesses k [] = refl
length-accesses k (o ∷ os) =
    let reads = if o.is_read then k ∷ [] else [] in
    let writes = if o.is_written then k ∷ [] else [] in
    omega (
      arith,
      length-append reads (writes ++ accesses (suc k) os),
      length-append writes (accesses (suc k) os),
      length-once o.is_read k,
      length-once o.is_written k,
      length-accesses (suc k) os,
    )

pub length-shown_all :
    (tid base : ℕ) (v : Values) (ks : List ℕ) → length (shown_all tid base v ks) ≡ length ks
unfolding shown_all
length-shown_all tid base v [] = refl
length-shown_all tid base v (k ∷ ks) = ap suc (length-shown_all tid base v ks)

-- One address is printed for each access that is counted.
pub length-shown_accesses :
    (tid base : ℕ) (v : Values) (os : List Operand)
    → length (shown_all tid base v (accesses 0 os)) ≡ mem_acessos os
length-shown_accesses tid base v os =
    length-shown_all tid base v (accesses 0 os) ∙ length-accesses 0 os

length-register_bytes :
    (x87_size base : ℕ) (r : Register) (x : ℕ)
    → length (register_bytes x87_size base r x) ≡ register_size x87_size r
unfolding register_bytes register_size
length-register_bytes x87_size base stack x = length-number_bytes 8 _
length-register_bytes x87_size base x87 x = length-number_bytes x87_size x
length-register_bytes x87_size base floating x = length-number_bytes 10 x
length-register_bytes x87_size base mmx x = length-number_bytes 10 x
length-register_bytes x87_size base xmm x = length-number_bytes 16 x
length-register_bytes x87_size base common x = length-number_bytes 8 x

-- As many bytes of registers are printed as are counted.
pub length-registers_bytes :
    (x87_size base : ℕ) (v : Values) (k : ℕ) (rs : List Register)
    → length (registers_bytes x87_size base v k rs) ≡ regdata_size x87_size rs
unfolding registers_bytes regdata_size
length-registers_bytes x87_size base v k [] = refl
length-registers_bytes x87_size base v k (r ∷ rs) =
    let bytes = register_bytes x87_size base r (v.register k) in
    length-append bytes (registers_bytes x87_size base v (suc k) rs)
    ∙ ap₂ (λ a b. a + b) (length-register_bytes x87_size base r (v.register k))
        (length-registers_bytes x87_size base v (suc k) rs)

shown_address-lt :
    (tid base sp addre : ℕ) → addre < 256 ^ 8 → shown_address tid base sp addre < 256 ^ 8
shown_address-lt tid base sp addre lt = ground arith

pub shown_all-AllFit :
    (tid base : ℕ) (v : Values) (ks : List ℕ)
    → ((k : ℕ) → v.address k < 256 ^ 8)
    → AllFit 8 (shown_all tid base v ks)
unfolding shown_all
shown_all-AllFit tid base v [] fit = tt
shown_all-AllFit tid base v (k ∷ ks) fit =
    (shown_address-lt tid base v.sp (v.address k) (fit k), shown_all-AllFit tid base v ks fit)

register_bytes-AllFit :
    (x87_size base : ℕ) (r : Register) (x : ℕ) → AllFit 1 (register_bytes x87_size base r x)
unfolding register_bytes
register_bytes-AllFit x87_size base stack x = number_bytes-AllFit 8 _
register_bytes-AllFit x87_size base x87 x = number_bytes-AllFit x87_size x
register_bytes-AllFit x87_size base floating x = number_bytes-AllFit 10 x
register_bytes-AllFit x87_size base mmx x = number_bytes-AllFit 10 x
register_bytes-AllFit x87_size base xmm x = number_bytes-AllFit 16 x
register_bytes-AllFit x87_size base common x = number_bytes-AllFit 8 x

pub registers_bytes-AllFit :
    (x87_size base : ℕ) (v : Values) (k : ℕ) (rs : List Register)
    → AllFit 1 (registers_bytes x87_size base v k rs)
unfolding registers_bytes
registers_bytes-AllFit x87_size base v k [] = tt
registers_bytes-AllFit x87_size base v k (r ∷ rs) =
    AllFit-append 1 (register_bytes x87_size base r (v.register k))
      (registers_bytes x87_size base v (suc k) rs)
      (register_bytes-AllFit x87_size base r (v.register k))
      (registers_bytes-AllFit x87_size base v (suc k) rs)
