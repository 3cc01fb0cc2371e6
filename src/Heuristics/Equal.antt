-- ===== src/Heuristics/Equal.antt =====
-- RoundRobin_Eq.cpp: the reference thread is one that has not had its turn, until all that can run
-- have had it. The threads at its pc run with it, also those that have had their turn.
use mmt_sync.Base.{
  ℕ, Bool, false, not, ◌&&◌, ◌||◌, ltb, Option, none, some, if◌then◌else◌, Result, ok, err,
  too_many_threads,
}
use mmt_sync.Heuristics.Interface.{Threads, Heuristic, activate, shares}
use mmt_sync.Heuristics.Simple.{awake, find_from, next_counter}

-- `was_executed` is a bitset of 64, which the constructor makes sure is enough.
pub record Turns : Type 0 where
  pub was_executed : ℕ → Bool
  pub rrcounter : ℕ

-- The constructor.
unfoldable pub new_turns : ℕ → Result Turns
new_turns n =
    if ltb 64 n
    then err too_many_threads
    else ok (record { was_executed = λ _. false; rrcounter = 0 })

-- The first search, and the second one after `was_executed.reset()`.
abbrev pub retry : ℕ → Threads → Turns → Option ℕ → Option ℕ × (ℕ → Bool)
retry n t s (some ref) = (some ref, s.was_executed)
retry n t s none = (find_from n s.rrcounter (awake t), λ _. false)

unfoldable pub choose_turn : ℕ → Threads → Turns → Option ℕ × (ℕ → Bool)
unfolding find_from
choose_turn n t s = retry n t s (find_from n s.rrcounter (λ i. awake t i && not (s.was_executed i)))

unfoldable pub equal_turns : ℕ → Threads → Turns → Threads × Turns
unfolding choose_turn activate
equal_turns n t s =
    let (ref, executed) = choose_turn n t s in
    (
      activate t ref,
      record { was_executed = λ i. executed i || shares t ref i; rrcounter = next_counter n ref },
    )

abbrev pub RoundRobinEq : Heuristic Turns
RoundRobinEq = record {
  choose_threads = λ n t s. ok (equal_turns n t s);
  register_instruction = λ insn tid sequence s. s;
}
