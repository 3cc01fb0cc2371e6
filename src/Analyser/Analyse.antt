-- ===== src/Analyser/Analyse.antt =====
-- `analyse` and `check_result`.
use mmt_sync.Base.{
  ℕ, ◌+◌, ◌-◌, ◌*◌, ◌%◌, ◌^◌, Option, none, some, Bool, true, false, ◌&&◌, leb, ◌==◌, if◌then◌else◌,
  update, for, total, Result, ok, err, ◌>>=◌, out_of_bounds, inconsistent_result, bitset_range,
}
use mmt_sync.Heuristics.Interface.{Threads}
use mmt_sync.Analyser.Defs.{Analyser, inc, bump, long_mod}
use mmt_sync.Analyser.Memory.{memory_analysis}
use mmt_sync.Analyser.Registers.{registers_analysis}
use mmt_sync.Analyser.Divergence.{divergence_statistics}

-- The local variables of the first loop of `analyse`, with the counters that it moves.
pub record Tally : Type 0 where
  pub first : Option ℕ
  pub running : ℕ
  pub instructions : ℕ → ℕ
  pub amount_divergence : ℕ

abbrev pub or_first : Option ℕ → ℕ → Option ℕ
or_first none i = some i
or_first (some k) i = some k

unfoldable pub tally_thread : Threads → ℕ → Tally → Tally
tally_thread t i s =
    if (t i).is_active
    then record s {
      instructions = bump s.instructions i;
      running = s.running + 1;
      first = or_first s.first i;
    }
    else record s { amount_divergence = inc s.amount_divergence }

unfoldable pub tally : ℕ → Threads → Analyser → Tally
unfolding for tally_thread
tally n t a = for n (tally_thread t) (record {
  first = none;
  running = 0;
  instructions = a.instructions;
  amount_divergence = a.amount_divergence;
})

-- The fields by which cycles are counted.
pub record Cycle : Type 0 where
  pub current_cycle : ℕ → Bool
  pub number_cycles : ℕ
  pub fetch_counter : ℕ

-- `current_cycle.reset(); number_cycles++; fetch_counter = 0;`
abbrev pub next_cycle : Cycle → Cycle
next_cycle c = record {
  current_cycle = λ _. false;
  number_cycles = inc c.number_cycles;
  fetch_counter = 0;
}

unfoldable pub start_fetch : Analyser → Cycle
start_fetch a =
    let c : Cycle = record {
      current_cycle = a.current_cycle;
      number_cycles = a.number_cycles;
      fetch_counter = (a.fetch_counter + 1) % 2 ^ 32;
    } in
    if c.fetch_counter == a.num_fetches then next_cycle c else c

-- Thread i in the loop from `first`: `test` throws when i is not below the 64 bits.
unfoldable pub cycle_thread : Threads → ℕ → ℕ → Cycle → Result Cycle
cycle_thread t first i c =
    if leb first i && (t i).is_active
    then (if leb 64 i
        then err bitset_range
        else (let c' = if c.current_cycle i then next_cycle c else c in
            ok (record c' { current_cycle = update c'.current_cycle i true })))
    else ok c

unfoldable pub count_cycles : ℕ → Threads → ℕ → Analyser → Result Cycle
unfolding for start_fetch cycle_thread
count_cycles n t first a = for n (λ i r. r >>= cycle_thread t first i) (ok (start_fetch a))

-- What `analyse` has done before the cycles are counted.
unfoldable pub count_round : Tally → Analyser → Analyser
count_round s a = record a {
  instructions = s.instructions;
  amount_divergence = s.amount_divergence;
  resulting_size = inc a.resulting_size;
  total_instructions = (a.total_instructions + s.running) % long_mod;
  executing_pertime = bump a.executing_pertime (s.running - 1);
}

abbrev pub with_cycle : Cycle → Analyser → Analyser
with_cycle c a = record a {
  current_cycle = c.current_cycle;
  number_cycles = c.number_cycles;
  fetch_counter = c.fetch_counter;
}

-- The calls under "Specific analysis".
unfoldable pub special_analyses : ℕ → Threads → ℕ → ℕ → Analyser → Result Analyser
unfolding memory_analysis registers_analysis divergence_statistics
special_analyses n t first running a = memory_analysis n t first running a >>= λ m.
    ok (divergence_statistics n t running (registers_analysis n t first running m))

-- With no active thread `first` stays -1 and the arrays are read at -1: `check_valid` prevents it.
unfoldable pub analyse_running : ℕ → Threads → Tally → Option ℕ → Analyser → Result Analyser
unfolding count_round count_cycles special_analyses
analyse_running n t s none a = err out_of_bounds
analyse_running n t s (some first) a = count_cycles n t first (count_round s a) >>= λ cycle.
    special_analyses n t first s.running (with_cycle cycle (count_round s a))

unfoldable pub analyse : ℕ → Threads → Analyser → Result Analyser
unfolding tally analyse_running
analyse n t a = let s = tally n t a in analyse_running n t s s.first a

-- The sums of `check_result`, on LONG.
unfoldable pub is_consistent : ℕ → Analyser → Bool
unfolding total
is_consistent n a =
    let sum = total n a.instructions % long_mod in
    (sum == a.total_instructions)
    && (total n a.executing_pertime % long_mod == a.resulting_size)
    && (total n (λ i. (i + 1) * a.executing_pertime i) % long_mod == sum)

unfoldable pub check_result : ℕ → Analyser → Result Analyser
unfolding is_consistent
check_result n a = if is_consistent n a then ok a else err inconsistent_result
