-- ===== src/Heuristics/Orders.antt =====
-- The orders by which the heuristics compare two threads.
use mmt_sync.Base.{ℕ, ltb, arith, IsStrict}
use mmt_sync.Heuristics.Interface.{Threads}
use mmt_sync.Heuristics.Simple.{lower_pc, lower_sp_pc}

pub lower_pc-IsStrict : (t : Threads) → IsStrict (lower_pc t)
lower_pc-IsStrict t = record {
  irrefl = λ i. ground arith;
  weak = λ i j k p q. (ground arith, ground arith);
}

pub lower_sp_pc-IsStrict : (t : Threads) → IsStrict (lower_sp_pc t)
lower_sp_pc-IsStrict t = record {
  irrefl = λ i. ground arith;
  weak = λ i j k p q. (ground arith, ground arith);
}

pub higher-IsStrict : (f : ℕ → ℕ) → IsStrict (λ i r. ltb (f r) (f i))
higher-IsStrict f = record {
  irrefl = λ i. ground arith;
  weak = λ i j k p q. (ground arith, ground arith);
}
