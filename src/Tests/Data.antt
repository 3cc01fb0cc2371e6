-- ===== src/Tests/Data.antt =====
-- Threads and trace files for the tests.
use mmt_sync.Base.{
  ℕ, zero, suc, ◌≡◌, refl, Bool, true, false, Result, ok, err, List, [], ◌∷◌, ◌++◌, true, false,
}
use mmt_sync.Trace.{open_file}
use mmt_sync.Threads.{Thread}

-- A thread at a pc and an sp that takes part.
abbrev pub thread_at : ℕ → ℕ → Thread
thread_at pc sp = record {
  thread_arq = open_file [];
  instruction_queue = [];
  not_eof = false;
  barrier = false;
  finished = false;
  is_active = true;
  ignore = false;
  pc = pc;
  sp = sp;
  basic_block = true;
  cf_flags = 0;
  mem_quant = 0;
  reg_size = 0;
  mem_address = [];
  reg_data = [];
  bb_priority = 0;
  pragma_fun_call = false;
  pragma_fun_ret = false;
  pragma_begin_list = 0;
  pragma_end_counter = 0;
  pragma_end_list = [];
}

abbrev pub done : Thread
done = record (thread_at 9 9) { finished = true; ignore = true }

-- Thread 0 stands at pc 7 and thread 1 at pc 4 with a deeper stack; thread 2 has ended.
abbrev pub three : ℕ → Thread
three zero = thread_at 7 50
three (suc zero) = thread_at 4 60
three _ = done

-- A number of 8 bytes below 256.
abbrev pub eight : ℕ → List ℕ
eight b = b ∷ 0 ∷ 0 ∷ 0 ∷ 0 ∷ 0 ∷ 0 ∷ 0 ∷ []

-- A record with pc 1 and sp 2, one memory address and two bytes of registers.
abbrev pub record_bytes : List ℕ
record_bytes = eight 1 ++ eight 2 ++ 1 ∷ 2 ∷ 0 ∷ 0 ∷ 0 ∷ 0 ∷ 0 ∷ eight 64 ++ 5 ∷ 6 ∷ []

-- Thread 0 executes one instruction and thread 1 none.
abbrev pub files : ℕ → List ℕ
files zero = record_bytes
files _ = []

-- The value of a result that is one.
abbrev pub value_or : {A : Type 0} → A → Result A → A
value_or a (ok b) = b
value_or a (err e) = a

abbrev pub is_ok : {A : Type 0} → Result A → Bool
is_ok (ok b) = true
is_ok (err e) = false

pub ok-value_or : {A : Type 0} (a : A) (r : Result A) → is_ok r ≡ true → r ≡ ok (value_or a r)
ok-value_or a (ok b) e = refl
ok-value_or a (err e) h = cc
