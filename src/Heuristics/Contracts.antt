-- ===== src/Heuristics/Contracts.antt =====
-- The heuristics that the simulator can load, and what it relies on (class `Heuristic`).
use mmt_sync.Base.{ℕ}
use mmt_sync.Heuristics.Interface.{IsHeuristic}
use mmt_sync.Heuristics.Equal.{RoundRobinEq}
use mmt_sync.Heuristics.MaxFun.{MaxFun}
use mmt_sync.Heuristics.LongMin.{LongMinPc, LongMinSpPc}
use mmt_sync.Heuristics.LongQueue.{LongHeuristic, LongIrb}
use mmt_sync.Heuristics.Rd.{RdMinSpPc}
use mmt_sync.Heuristics.Oracle.{GreedyOracle}
use mmt_sync.Heuristics.Distance.{DistanceHeuristic}
use mmt_sync.Heuristics.Laws.{
  RoundRobinEq-IsHeuristic, MaxFun-IsHeuristic, LongMinPc-IsHeuristic, LongMinSpPc-IsHeuristic,
  RdMinSpPc-IsHeuristic,
}
use mmt_sync.Heuristics.Queued.{LongHeuristic-IsHeuristic, LongIrb-IsHeuristic}
use mmt_sync.Heuristics.Oracle.Contract.{GreedyOracle-IsHeuristic}
use mmt_sync.Heuristics.Distance.Contract.{DistanceHeuristic-IsHeuristic}
use mmt_sync.Heuristics.PostDom.Long.{PostDomLong, PostDomLong-IsHeuristic}

-- RoundRobin_Eq, MaxFun_MinPC, Long_MinPC, Long_MinSP_PC, RD_MinSP_PC, Long and Long_IRB with any fuel,
-- PostDom_Long, GreedyOracle with any `beta`, and Distance: where one of them makes a choice, in any
-- state, nothing of a thread changes but `is_active`, `bb_priority` and `basic_block`, and nobody
-- below n is active who is ignored.
pub heuristics-IsHeuristic :
    (n fuel : ℕ) (scaled : ℕ → ℕ)
    → IsHeuristic n RoundRobinEq
      × IsHeuristic n MaxFun
      × IsHeuristic n LongMinPc
      × IsHeuristic n LongMinSpPc
      × IsHeuristic n RdMinSpPc
      × IsHeuristic n (LongHeuristic fuel)
      × IsHeuristic n (LongIrb fuel)
      × IsHeuristic n (PostDomLong fuel)
      × IsHeuristic n (GreedyOracle scaled)
      × IsHeuristic n DistanceHeuristic
heuristics-IsHeuristic n fuel scaled = (
  RoundRobinEq-IsHeuristic n,
  MaxFun-IsHeuristic n,
  LongMinPc-IsHeuristic n,
  LongMinSpPc-IsHeuristic n,
  RdMinSpPc-IsHeuristic n,
  LongHeuristic-IsHeuristic fuel n,
  LongIrb-IsHeuristic fuel n,
  PostDomLong-IsHeuristic fuel n,
  GreedyOracle-IsHeuristic scaled n,
  DistanceHeuristic-IsHeuristic n,
)
