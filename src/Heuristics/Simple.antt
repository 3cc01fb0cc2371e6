-- ===== src/Heuristics/Simple.antt =====
-- The heuristics that keep no state of their own: MinPC.cpp, MinSP_PC.cpp, and RoundRobin.cpp with
-- its static counter.
use mmt_sync.Base.{
  ℕ, ◌+◌, ◌%◌, Bool, false, not, ◌&&◌, ◌||◌, ltb, ◌==◌, Option, none, some, pick, search_for, ok,
}
use mmt_sync.Heuristics.Interface.{Threads, Heuristic, activate, set_active}

abbrev pub awake : Threads → ℕ → Bool
awake t i = not (t i).ignore

-- `t[i].pc < t[ref].pc`
abbrev pub lower_pc : Threads → ℕ → ℕ → Bool
lower_pc t i ref = ltb (t i).pc (t ref).pc

-- `t[i].sp < t[ref].sp || (t[i].sp == t[ref].sp && t[i].pc < t[ref].pc)`
abbrev pub lower_sp_pc : Threads → ℕ → ℕ → Bool
lower_sp_pc t i ref = ltb (t i).sp (t ref).sp || ((t i).sp == (t ref).sp) && ltb (t i).pc (t ref).pc

unfoldable pub min_pc : ℕ → Threads → Option ℕ
unfolding pick
min_pc n t = pick n (awake t) (lower_pc t)

unfoldable pub min_sp_pc : ℕ → Threads → Option ℕ
unfolding pick
min_sp_pc n t = pick n (awake t) (lower_sp_pc t)

abbrev pub MinPc : Heuristic (Unit {0})
MinPc = record {
  choose_threads = λ n t s. ok (activate t (min_pc n t), s);
  register_instruction = λ insn tid sequence s. s;
}

abbrev pub MinSpPc : Heuristic (Unit {0})
MinSpPc = record {
  choose_threads = λ n t s. ok (activate t (min_sp_pc n t), s);
  register_instruction = λ insn tid sequence s. s;
}

-- `for (ii...) { i = (ii + rrcounter) % num_threads; if (allowed) { ref = i; break; } }`
unfoldable pub find_from : ℕ → ℕ → (ℕ → Bool) → Option ℕ
unfolding search_for
find_from n rrcounter allowed = search_for n (λ ii. (ii + rrcounter) % n) allowed

-- `(ref + 1) % num_threads`, where -1 becomes 0.
abbrev pub next_counter : ℕ → Option ℕ → ℕ
next_counter n none = 0
next_counter n (some ref) = (ref + 1) % n

abbrev pub is_ref : Option ℕ → ℕ → Bool
is_ref none i = false
is_ref (some ref) i = i == ref

-- RoundRobin.cpp, with its static `rrcounter` as the state: one thread at a time.
unfoldable pub round_robin : ℕ → Threads → ℕ → Threads × ℕ
unfolding find_from
round_robin n t rrcounter =
    let ref = find_from n rrcounter (awake t) in (set_active t (is_ref ref), next_counter n ref)

abbrev pub RoundRobin : Heuristic ℕ
RoundRobin = record {
  choose_threads = λ n t s. ok (round_robin n t s);
  register_instruction = λ insn tid sequence s. s;
}
