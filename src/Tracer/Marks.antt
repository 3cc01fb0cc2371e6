-- ===== src/Tracer/Marks.antt =====
-- The byte of the marks and the number of memory operands.
use mmt_sync.Base.{ℕ, ◌+◌, ◌%◌, ◌<◌, ◌≡◌, subst, sym, Bool, if◌then◌else◌, arith}
use mmt_sync.Trace.{has_bit}
use mmt_sync.Tracer.Defs.{Tracer, add_mark, marked_mems, writes_pragmas}

-- The five marks on top of a number below 8.
abbrev marks : Bool → Bool → Bool → Bool → Bool → ℕ → ℕ
marks b h c r p m =
    add_mark p 8 (add_mark r 16 (add_mark c 32 (add_mark h 64 (add_mark b 128 (m % 256)))))

-- What `read` takes from the byte.
pub record IsMarked (b h c r p : Bool) (m v : ℕ) : Type 0 where
  pub byte : v < 256
  pub quant : v % 8 ≡ m
  pub barrier : has_bit 7 v ≡ b
  pub block : has_bit 6 v ≡ h
  pub call : has_bit 5 v ≡ c
  pub ret : has_bit 4 v ≡ r
  pub pragmas : has_bit 3 v ≡ p

value : Bool → ℕ → ℕ
value b n = if b then n else 0

marks-sum :
    (b h c r p : Bool) (m : ℕ)
    → m < 8
    → marks b h c r p m ≡ value b 128 + value h 64 + value c 32 + value r 16 + value p 8 + m
unfolding value
marks-sum b h c r p m lt = ground arith

sum-IsMarked :
    (b h c r p : Bool) (m : ℕ)
    → m < 8
    → IsMarked b h c r p m (value b 128 + value h 64 + value c 32 + value r 16 + value p 8 + m)
unfolding value
sum-IsMarked b h c r p m lt = record {
  byte = ground arith;
  quant = ground arith;
  barrier = ground arith;
  block = ground arith;
  call = ground arith;
  ret = ground arith;
  pragmas = ground arith;
}

pub marked_mems-IsMarked :
    (s : Tracer) (memops : ℕ)
    → memops < 8
    → IsMarked s.barrier_flag s.hard_basic_block_begin s.fun_call_begin s.fun_call_end
        (writes_pragmas s)
        memops
        (marked_mems s memops)
unfolding marked_mems
marked_mems-IsMarked s memops lt =
    let b = s.barrier_flag in
    let h = s.hard_basic_block_begin in
    let c = s.fun_call_begin in
    let r = s.fun_call_end in
    let p = writes_pragmas s in
    subst (IsMarked b h c r p memops) (sym (marks-sum b h c r p memops lt))
      (sum-IsMarked b h c r p memops lt)
