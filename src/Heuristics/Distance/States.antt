-- ===== src/Heuristics/Distance/States.antt =====
-- Distance.cpp: the states of instructions, warps and divergence points.
use mmt_sync.Base.{
  ℕ, ◌^◌, Bool, true, ◌&&◌, ltb, not, if◌then◌else◌, Option, none, total, Result, ok, err,
  out_of_bounds,
}
use mmt_sync.Base.Int.{ℤ, pos, negsuc, ltb_ℤ, eqb_ℤ}
use mmt_sync.Heuristics.Warp.{Warp, max_threads, any_of}

-- -1, the value of what is not known.
abbrev pub unknown : ℤ
unknown = negsuc 0

pub record InstructionState : Type 0 where
  pub last_warp : ℕ → Bool
  pub progress : ℤ
  pub miss_counter : ℕ
  pub origin : ℤ

abbrev pub new_instruction : InstructionState
new_instruction = record {
  last_warp = λ _. true;
  progress = pos 0;
  miss_counter = 0;
  origin = unknown;
}

pub record WarpState : Type 0 where
  pub last_div_pc : ℕ
  pub progress : ℤ
  pub target : ℤ
  pub origin : ℤ

abbrev pub new_warp : WarpState
new_warp = record { last_div_pc = 0; progress = unknown; target = unknown; origin = unknown }

-- The maps are functions, with the default where a key is missing. `rr_schedule` and `rr_turn` are the
-- static variables of `Schedule` and of `RoundRobin`.
pub record Distance : Type 0 where
  pub insn_states : ℕ → InstructionState
  pub warp_states : ℕ → WarpState
  pub divergence_points : ℕ → ℤ → ℤ
  pub last_warp : Warp
  pub ref : Option ℕ
  pub subheuristic : ℕ
  pub greedy : Bool
  pub unbalance_limit : ℕ
  pub rr_schedule : ℕ
  pub rr_turn : ℤ

-- The constructor, with the three numbers that `sscanf` has read.
abbrev pub new_distance : ℕ → ℕ → ℕ → ℕ → Distance
new_distance n sub my_greedy limit = record {
  insn_states = λ _. new_instruction;
  warp_states = λ _. new_warp;
  divergence_points = λ _ _. unknown;
  last_warp = record { mask = λ i. ltb i n; pc = 0 };
  ref = none;
  subheuristic = sub;
  greedy = ltb 0 my_greedy;
  unbalance_limit = limit;
  rr_schedule = 0;
  rr_turn = unknown;
}

-- `to_ulong`
unfoldable pub to_ulong : (ℕ → Bool) → ℕ
unfolding total
to_ulong mask = total max_threads (λ i. if mask i then 2 ^ i else 0)

abbrev pub both : (ℕ → Bool) → (ℕ → Bool) → ℕ → Bool
both mask1 mask2 i = mask1 i && mask2 i

abbrev pub either : (ℕ → Bool) → (ℕ → Bool) → ℕ → Bool
either mask1 mask2 i = if mask1 i then true else mask2 i

-- `.none()`
unfoldable pub none_of : (ℕ → Bool) → Bool
unfolding any_of
none_of mask = not (any_of mask)

unfoldable pub warp_state : Distance → (ℕ → Bool) → WarpState
unfolding to_ulong
warp_state s mask = s.warp_states (to_ulong mask)

-- `max` on `int`.
abbrev pub max_ℤ : ℤ → ℤ → ℤ
max_ℤ a b = if ltb_ℤ a b then b else a

-- The index of `reconvDistance` is in range.
abbrev pub in_origins : ℤ → Bool
in_origins origin = not (ltb_ℤ origin (pos 0)) && ltb_ℤ origin (pos 2)

-- `reconvDistance[origin] == -1 || reconvDistance[origin] > bound`
abbrev pub is_looser : (ℤ → ℤ) → ℤ → ℤ → Bool
is_looser distance origin bound =
    if eqb_ℤ (distance origin) unknown then true else ltb_ℤ bound (distance origin)

-- `reconvDistance[origin] = value`
abbrev pub set_distance : (ℤ → ℤ) → ℤ → ℤ → ℤ → ℤ
set_distance distance origin value o = if eqb_ℤ o origin then value else distance o

-- `if (origin < MAX_ORIGINS && (…)) reconvDistance[origin] = value`; an origin of -1 is below
-- MAX_ORIGINS.
abbrev pub bound_distance : (ℤ → ℤ) → ℤ → ℤ → ℤ → Result (ℤ → ℤ)
bound_distance distance origin bound value =
    if ltb_ℤ origin (pos 2)
    then if in_origins origin
      then ok
          (if is_looser distance origin bound then set_distance distance origin value else distance)
      else err out_of_bounds
    else ok distance
