-- ===== src/Heuristics/Rd.antt =====
-- RD_MinSP_PC.cpp: threads at instructions that look like reconvergence points wait.
use mmt_sync.Base.{
  ℕ, ◌+◌, ◌-◌, ◌%◌, ◌^◌, min, Bool, true, false, ◌&&◌, ◌||◌, ltb, leb, if◌then◌else◌, Option, none,
  some, for, pick, update, Result, ok, err, too_many_threads, out_of_bounds,
}
use mmt_sync.Heuristics.Interface.{Threads, Heuristic, activate, shares}
use mmt_sync.Heuristics.Simple.{awake, lower_sp_pc}

abbrev pub uint_mod : ℕ
uint_mod = 2 ^ 32

pub record ReconvergenceEntry : Type 0 where
  pub mask : ℕ → Bool
  pub counter : ℕ

-- `bit_table[pc]` makes an entry by the default constructor where there is none: the map is total.
abbrev pub new_entry : ReconvergenceEntry
new_entry = record { mask = λ _. true; counter = 0 }

pub record Rd : Type 0 where
  pub bit_table : ℕ → ReconvergenceEntry
  pub ref : Option ℕ
  pub lastsp : ℕ
  pub hysteresis : ℕ
  pub ignore_threshold : ℕ
  pub decrement_counter : Bool

-- The constructor, with the parameters that `sscanf` reads.
unfoldable pub new_rd : ℕ → ℕ → ℕ → Bool → Result Rd
new_rd n hysteresis ignore_threshold decrement_counter =
    if ltb 64 n
    then err too_many_threads
    else ok (record {
      bit_table = λ _. new_entry;
      ref = none;
      lastsp = 0;
      hysteresis = hysteresis;
      ignore_threshold = ignore_threshold;
      decrement_counter = decrement_counter;
    })

abbrev pub cnt_reconvergence : Threads → Rd → ℕ → ℕ
cnt_reconvergence t s i = (s.bit_table (t i).pc).counter

-- The lowest counter of the awake threads, from UINT_MAX.
unfoldable pub min_prio : ℕ → Threads → Rd → ℕ
unfolding for
min_prio n t s =
    for n (λ i least. if awake t i then min least (cnt_reconvergence t s i) else least)
      (uint_mod - 1)

-- Who takes part in the sub-heuristic.
unfoldable pub eligible : ℕ → Threads → Rd → ℕ → Bool
unfolding min_prio
eligible n t s i =
    let least = min_prio n t s in
    awake t i
    && (leb (cnt_reconvergence t s i) ((least + s.hysteresis) % uint_mod)
        || leb s.ignore_threshold least)

-- `complement`: no active thread stands in the mask of the entry.
unfoldable pub complement : ℕ → (ℕ → Bool) → (ℕ → Bool) → Bool
unfolding for
complement n active mask = for n (λ i c. if active i && mask i then false else c) true

-- `equals`: the two masks agree.
unfoldable pub equals : ℕ → (ℕ → Bool) → (ℕ → Bool) → Bool
unfolding for
equals n active mask =
    for n (λ i e. if active i && mask i then e else if active i || mask i then false else e) true

-- The new entry of the chosen pc.
unfoldable pub revise : ℕ → Bool → (ℕ → Bool) → ReconvergenceEntry → ReconvergenceEntry
unfolding complement equals
revise n decrement active re =
    let raised = (re.counter + (if complement n active re.mask then 1 else 0)) % uint_mod in
    record {
      counter = if decrement && ltb 0 raised && equals n active re.mask then raised - 1 else raised;
      mask = λ i. if ltb i n then active i else re.mask i;
    }

-- With `ref` at -1 the entry of `t[-1].pc` would be revised.
abbrev pub finish : ℕ → Threads → Rd → Option ℕ → Result (Threads × Rd)
finish n t s none = err out_of_bounds
finish n t s (some ref) = ok (
  activate t (some ref),
  record s {
    ref = some ref;
    lastsp = (t ref).sp;
    bit_table =
        update s.bit_table (t ref).pc
          (revise n s.decrement_counter (shares t (some ref)) (s.bit_table (t ref).pc));
  },
)

unfoldable pub choose_rd : ℕ → Threads → Rd → Result (Threads × Rd)
unfolding eligible pick revise activate
choose_rd n t s = finish n t s (pick n (eligible n t s) (lower_sp_pc t))

abbrev pub RdMinSpPc : Heuristic Rd
RdMinSpPc = record { choose_threads = choose_rd; register_instruction = λ insn tid sequence s. s }
