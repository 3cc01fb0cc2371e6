-- ===== src/Statistics.antt =====
-- Execute/src/StatisticCounter.hpp and StatisticCounter.cpp. `long long` values are integers; the
-- quotient that `average` takes in floating point is left out.
use mmt_sync.Base.{ℕ, ◌+◌, ◌==◌, ◌||◌, if◌then◌else◌}
use mmt_sync.Base.Int.{ℤ, pos, ◌+ℤ◌, ltb_ℤ}

-- `min` and `max` have no value before the first `add`: `memory` stands for what was there.
pub record StatisticCounter : Type 0 where
  pub min : ℤ
  pub max : ℤ
  pub quant : ℕ
  pub sum : ℤ

unfoldable pub new_counter : ℤ → StatisticCounter
new_counter memory = record { min = memory; max = memory; quant = 0; sum = pos 0 }

unfoldable pub add : StatisticCounter → ℤ → StatisticCounter
unfolding ◌+ℤ◌
add c val = record {
  min = if c.quant == 0 || ltb_ℤ val c.min then val else c.min;
  max = if c.quant == 0 || ltb_ℤ c.max val then val else c.max;
  sum = c.sum +ℤ val;
  quant = c.quant + 1;
}
