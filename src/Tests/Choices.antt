-- ===== src/Tests/Choices.antt =====
-- The heuristics on three threads, of which the last has ended.
use mmt_sync.Base.{
  Bool, ℕ, ◌+◌, ◌%◌, ◌<◌, ◌≡◌, ◌↔◌, inl, inr, refl, true, false, arith, err, no_return, zero, suc,
}
use mmt_sync.Base.{pick, for, some, none}
use mmt_sync.Heuristics.Interface.{Threads, IsHeuristic, activate}
use mmt_sync.Heuristics.Simple.{awake, min_pc, min_sp_pc, round_robin}
use mmt_sync.Heuristics.Least.{LeastPc, LeastSpPc, AtMostSpPc, min_pc-least, min_sp_pc-least}
use mmt_sync.Heuristics.Turns.{StopsAt, HasTurn, TurnOf, round_robin-one, equal_turns-fair}
use mmt_sync.Heuristics.Equal.{Turns, equal_turns, RoundRobinEq}
use mmt_sync.Heuristics.MaxFun.{MaxFun}
use mmt_sync.Heuristics.LongMin.{LongMinPc, LongMinSpPc}
use mmt_sync.Heuristics.Frontier.{
  Frontier, new_frontier, tf_max_fun, AtRef, after_return, frontier, rechoose, frontier_better,
  tf_max_fun-AtRef,
}
use mmt_sync.Heuristics.Rd.{RdMinSpPc}
use mmt_sync.Heuristics.LongQueue.{Queue, new_queue, schedule, LongHeuristic, LongIrb}
use mmt_sync.Heuristics.Fhb.{new_fhb}
use mmt_sync.Heuristics.Scheduled.{Goes, schedule-Goes, schedule-stuck}
use mmt_sync.Heuristics.Oracle.{GreedyOracle}
use mmt_sync.Heuristics.Distance.{DistanceHeuristic}
use mmt_sync.Heuristics.PostDom.Long.{PostDomLong}
use mmt_sync.Heuristics.Contracts.{heuristics-IsHeuristic}
use mmt_sync.Heuristics.Rd.{Rd, new_entry, choose_rd, min_prio, uint_mod}
use mmt_sync.Heuristics.Reconverge.{Starts, choose_rd-Starts}
use mmt_sync.Heuristics.LongMin.{new_long, long_min_pc}
use mmt_sync.Heuristics.Candidates.{Picks, long_min_pc-Picks}
use mmt_sync.Tests.Data.{value_or, is_ok, ok-value_or, thread_at, three, done}

min_pc-least_example : ((activate three (min_pc 3 three) 1).is_active ≡ true) ↔ LeastPc 3 three 1
min_pc-least_example = min_pc-least 3 three 1 (omega arith)

leads : LeastSpPc 3 three 0
leads = (refl, least)
  where
    least : (k : ℕ) → k < 3 → (three k).ignore ≡ false → AtMostSpPc three 0 k
    least zero lt a = inr (refl, omega arith)
    least (suc zero) lt a = inl (omega arith)
    least (suc (suc k)) lt a = cc

min_sp_pc-least_example :
    ((activate three (min_sp_pc 3 three) 1).is_active ≡ true)
    ↔ (((three 1).ignore ≡ false) × ((three 1).pc ≡ 7))
min_sp_pc-least_example = min_sp_pc-least 3 three 0 1 (omega arith) leads

round_robin-one_example :
    (k : ℕ) × StopsAt 3 2 (awake three) k
    × ((j : ℕ) → (((round_robin 3 three 2).0 j).is_active ≡ true) ↔ (j ≡ (k + 2) % 3))
    × ((round_robin 3 three 2).1 ≡ ((k + 2) % 3 + 1) % 3)
    × ((round_robin 3 three 2).1 < 3)
round_robin-one_example = round_robin-one 3 three 2 0 (omega arith) (omega arith) refl

-- Thread 0 has had its turn.
abbrev turns : Turns
turns = record { was_executed = elim [ zero ↦ true | suc _ ↦ false ]; rrcounter = 1 }

equal_turns-fair_example :
    (r : ℕ) × (kept : ℕ → Bool) × HasTurn 3 three turns.was_executed kept r
    × ((j : ℕ) → TurnOf three (equal_turns 3 three turns) kept r j)
equal_turns-fair_example = equal_turns-fair 3 three turns 0 (omega arith) (omega arith) refl

abbrev queue : Queue
queue = new_queue (λ _. false) 16

schedule-Goes_example : Goes 3 (schedule 2 3 three queue)
unfolding new_queue new_fhb
schedule-Goes_example = schedule-Goes 0 3 three queue 1 refl (inl refl) (omega arith) refl

schedule-stuck_example : schedule 10 3 (λ _. done) queue ≡ err no_return
unfolding new_queue
schedule-stuck_example = schedule-stuck 10 3 (λ _. done) queue refl (λ i lt. refl)

heuristics-IsHeuristic_example :
    IsHeuristic 3 RoundRobinEq
    × IsHeuristic 3 MaxFun
    × IsHeuristic 3 LongMinPc
    × IsHeuristic 3 LongMinSpPc
    × IsHeuristic 3 RdMinSpPc
    × IsHeuristic 3 (LongHeuristic 2)
    × IsHeuristic 3 (LongIrb 2)
    × IsHeuristic 3 (PostDomLong 2)
    × IsHeuristic 3 (GreedyOracle (λ d. d))
    × IsHeuristic 3 DistanceHeuristic
heuristics-IsHeuristic_example = heuristics-IsHeuristic 3 2 (λ d. d)

abbrev chosen : Threads × Frontier
chosen = value_or (three, new_frontier) (tf_max_fun 3 three new_frontier)

three-is_ok : is_ok (tf_max_fun 3 three new_frontier) ≡ true
unfolding tf_max_fun after_return frontier pick for frontier_better
three-is_ok = refl

tf_max_fun-AtRef_example : AtRef 3 chosen.0 chosen.1.ref
tf_max_fun-AtRef_example =
    tf_max_fun-AtRef 3 three chosen.0 new_frontier chosen.1
      (ok-value_or (three, new_frontier) (tf_max_fun 3 three new_frontier) three-is_ok)

-- Thread 1 has ended at the pc of the reference thread 0.
abbrev ended : Threads
ended zero = thread_at 5 5
ended _ = record (thread_at 5 5) { finished = true; ignore = true }

abbrev inside : Frontier
inside = record new_frontier { ref = some 0 }

-- It stays active.
ended_active : ((value_or (ended, inside) (tf_max_fun 2 ended inside)).0 1).is_active ≡ true
unfolding tf_max_fun after_return frontier rechoose for
ended_active = refl

abbrev table : Rd
table = record {
  bit_table = λ _. new_entry;
  ref = none;
  lastsp = 0;
  hysteresis = 1;
  ignore_threshold = 8;
  decrement_counter = true;
}

fits : min_prio 3 three table + 1 < uint_mod
unfolding min_prio for
fits = omega arith

choose_rd-Starts_example : Starts 3 (choose_rd 3 three table)
choose_rd-Starts_example = choose_rd-Starts 3 three table 0 (omega arith) refl (omega arith) fits

long_min_pc-Picks_example : Picks 3 (long_min_pc 3 three (new_long 16))
unfolding new_long new_fhb
long_min_pc-Picks_example = long_min_pc-Picks 3 three (new_long 16) 0 refl tt (omega arith) refl
