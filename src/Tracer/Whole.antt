-- ===== src/Tracer/Whole.antt =====
-- Whole trace files: what Tools/insList.cpp has written so far, as Execute/src/Thread.cpp reads it.
use mathlib.Core.List.{append_assoc, append-nil}
use mmt_sync.Base.{ℕ, ◌≡◌, refl, ap, sym, ◌∙◌, List, [], ◌∷◌, ◌++◌, false, length}
use mmt_sync.Trace.{Instruction, read, read_header, read_number, readf}
use mmt_sync.Trace.Decode.{decode, decode-none, decode-some}
use mmt_sync.Tracer.Defs.{Tracer, entry_bytes}
use mmt_sync.Tracer.Bytes.{file_of, list_bytes}
use mmt_sync.Tracer.Entry.{Executed, ExecutedFits, executed_bytes, recorded, read-executed_bytes}

-- The instructions that the simulator finds in a file of these bytes.
abbrev pub trace_of : List ℕ → List Instruction
trace_of bytes = decode (file_of bytes false)

-- The bytes are whole records: what is written behind them is read for itself.
pub IsWhole : List ℕ → Type 0
IsWhole bytes = (rest : List ℕ) → trace_of (bytes ++ rest) ≡ trace_of bytes ++ trace_of rest

pub trace_of-nil : trace_of [] ≡ []
unfolding read read_header read_number readf
trace_of-nil = decode-none (file_of [] false) refl

pub nil-IsWhole : IsWhole []
unfolding IsWhole
nil-IsWhole rest = ap (λ l. l ++ trace_of rest) (sym trace_of-nil)

trace_of-executed_bytes :
    (t : Tracer) (i : Executed) (rest : List ℕ)
    → ExecutedFits t i
    → trace_of (executed_bytes t i rest) ≡ recorded t i ∷ trace_of rest
trace_of-executed_bytes t i rest fits =
    let e = read-executed_bytes t i fits rest in
    decode-some (file_of (executed_bytes t i rest) false) (recorded t i) (ap (λ p. p.0) e)
    ∙ ap (λ p. recorded t i ∷ decode p.1) e

executed_bytes-append :
    (t : Tracer) (i : Executed) (rest : List ℕ)
    → executed_bytes t i [] ++ rest ≡ executed_bytes t i rest
executed_bytes-append t i rest =
    let head = entry_bytes t i.pc i.sp i.flags (length i.addresses) (length i.regs) in
    append_assoc head (list_bytes 8 i.addresses ++ (i.regs ++ [])) rest
    ∙ ap (λ l. head ++ l)
        (append_assoc (list_bytes 8 i.addresses) (i.regs ++ []) rest
          ∙ ap (λ l. list_bytes 8 i.addresses ++ l) (append_assoc i.regs [] rest))

-- The bytes after an instruction was added.
pub record Extends (before after : List ℕ) (more : List Instruction) : Type 0 where
  pub whole : IsWhole after
  pub trace : trace_of after ≡ trace_of before ++ more

pub executed-Extends :
    (t : Tracer) (i : Executed) (bytes : List ℕ)
    → ExecutedFits t i
    → IsWhole bytes
    → Extends bytes (bytes ++ executed_bytes t i []) (recorded t i ∷ [])
unfolding IsWhole
executed-Extends t i bytes fits whole =
    let more : (rest : List ℕ)
        → trace_of (bytes ++ executed_bytes t i rest)
          ≡ trace_of bytes ++ recorded t i ∷ trace_of rest =
      λ rest.
        whole (executed_bytes t i rest)
        ∙ ap (λ l. trace_of bytes ++ l) (trace_of-executed_bytes t i rest fits) in
    let last : trace_of (bytes ++ executed_bytes t i []) ≡ trace_of bytes ++ recorded t i ∷ [] =
      more [] ∙ ap (λ l. trace_of bytes ++ recorded t i ∷ l) trace_of-nil in
    record {
      whole = λ rest.
          ap trace_of (
            append_assoc bytes (executed_bytes t i []) rest
            ∙ ap (λ l. bytes ++ l) (executed_bytes-append t i rest))
          ∙ more rest
          ∙ sym (append_assoc (trace_of bytes) (recorded t i ∷ []) (trace_of rest))
          ∙ ap (λ l. l ++ trace_of rest) (sym last);
      trace = last;
    }

pub Extends-same : (bytes : List ℕ) → IsWhole bytes → Extends bytes bytes []
Extends-same bytes whole = record { whole = whole; trace = sym (append-nil (trace_of bytes)) }

pub Extends-then :
    {a b c : List ℕ} {xs ys : List Instruction}
    → Extends a b xs
    → Extends b c ys
    → Extends a c (xs ++ ys)
Extends-then {a} {b} {c} {xs} {ys} f g = record {
  whole = g.whole;
  trace = g.trace ∙ ap (λ l. l ++ ys) f.trace ∙ append_assoc (trace_of a) xs ys;
}
