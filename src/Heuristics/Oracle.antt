-- ===== src/Heuristics/Oracle.antt =====
-- GreedyOracle.cpp: of the warps of one pc, the one executes that the other warps reach last; the
-- future of a thread is the queues that `register_instruction` fills.
pub mod Queues
pub mod Lookup
pub mod Groups
pub mod Distances
pub mod Chosen
pub mod Contract
use mmt_sync.Base.{
  ℕ, zero, suc, ◌+◌, ◌-◌, ◌%◌, ◌^◌, List, [], ◌∷◌, ◌++◌, map, Bool, true, false, not, ◌&&◌, ◌||◌,
  ltb, leb, ◌==◌, if◌then◌else◌, Option, none, some, length, get_or, for, rounds, update, Result,
  ok, err, ◌>>=◌, assertion_failed, out_of_bounds,
}
use mmt_sync.Trace.{Instruction}
use mmt_sync.Heuristics.Interface.{Threads, Heuristic, set_active}
use mmt_sync.Heuristics.Warp.{Warp, split_warp, ffs}

-- `rrcounter` is the static variable of `choose_threads`. `beta` is the argument `scaled` of the
-- functions: the conversion of `beta * diff` to `unsigned int`.
pub record Oracle : Type 0 where
  pub sequence_numbers : ℕ → ℕ
  pub timestamps : ℕ → ℕ → List ℕ
  pub barriers : ℕ → List ℕ
  pub fake_horizon : ℕ
  pub rrcounter : ℕ

-- The constructor, with the value that `sscanf` has read or 1000.
abbrev pub new_oracle : ℕ → Oracle
new_oracle horizon = record {
  sequence_numbers = λ _. 0;
  timestamps = λ _ _. [];
  barriers = λ _. [];
  fake_horizon = horizon;
  rrcounter = 0;
}

unfoldable pub lookup : List ℕ → ℕ → Bool
lookup [] val = false
lookup (q ∷ qs) val =
    let rest = lookup qs val in if q == val then true else if ltb val q then false else rest

-- `(uint64_t) -1`
abbrev pub never : ℕ
never = 2 ^ 64 - 1

-- "Will we have to pass through a barrier to reach this instruction?"
abbrev pub behind_barrier : List ℕ → ℕ → Bool
behind_barrier [] front = false
behind_barrier (b ∷ bs) front = leb b front

-- "Check length of sequence": `sequence` is where the match must go on.
unfoldable pub checked_sequence : Threads → Oracle → ℕ → ℕ → ℕ → ℕ → ℕ → ℕ
unfolding lookup
checked_sequence t s tid tid_orig front diff lookahead =
    let queue = (t tid_orig).instruction_queue in
    let ahead_pc = get_or (map (λ insn. insn.pc) queue) lookahead 0 in
    let sequence = ((lookahead + 1) % 2 ^ 32 + front) % 2 ^ 64 in
    if leb (length queue) lookahead
    then never
    else if ltb 0 lookahead && not (lookup (s.timestamps tid ahead_pc) sequence)
    then never
    else diff

abbrev pub front_distance : (ℕ → ℕ) → Threads → Oracle → ℕ → ℕ → List ℕ → Result ℕ
front_distance scaled t s tid tid_orig [] = ok never
front_distance scaled t s tid tid_orig (front ∷ later) =
    let diff = front - s.sequence_numbers tid in
    if ltb front (s.sequence_numbers tid)
    then err assertion_failed
    else ok (
        if behind_barrier (s.barriers tid) front || ltb s.fake_horizon diff
        then never
        else checked_sequence t s tid tid_orig front diff (scaled diff))

unfoldable pub shortest_distance : (ℕ → ℕ) → Threads → Oracle → ℕ → ℕ → ℕ → Result ℕ
unfolding lookup checked_sequence
shortest_distance scaled t s pc tid tid_orig =
    front_distance scaled t s tid tid_orig (s.timestamps tid pc)

-- `warps[i]`, and the result of `ffs` where it is an index.
abbrev pub warp_at : List Warp → ℕ → Result Warp
warp_at [] i = err out_of_bounds
warp_at (w ∷ ws) zero = ok w
warp_at (w ∷ ws) (suc i) = warp_at ws i

abbrev pub as_index : Option ℕ → Result ℕ
as_index none = err out_of_bounds
as_index (some i) = ok i

-- A round of the loop over j, on `min_distance`.
unfoldable pub closer : (ℕ → ℕ) → Threads → Oracle → List Warp → ℕ → Warp → ℕ → ℕ → ℕ → Result ℕ
unfolding shortest_distance ffs
closer scaled t s ws i warp1 ref j min_distance =
    if i == j
    then ok min_distance
    else (warp_at ws j >>= (λ warp2. as_index (ffs warp2.mask) >>= (λ tid2.
        shortest_distance scaled t s warp1.pc tid2 ref
        >>= (λ distance. ok (if ltb distance min_distance then distance else min_distance)))))

-- A round of the loop over i, on the array `priorities`.
unfoldable pub set_priority : (ℕ → ℕ) → Threads → Oracle → List Warp → ℕ → (ℕ → ℕ) → Result (ℕ → ℕ)
unfolding closer rounds
set_priority scaled t s ws i priorities = warp_at ws i >>= (λ warp1.
    as_index (ffs warp1.mask) >>= (λ ref.
      rounds (length ws) (closer scaled t s ws i warp1 ref) never
      >>= (λ min_distance. ok (update priorities i min_distance))))

unfoldable pub priorities_of : (ℕ → ℕ) → Threads → Oracle → List Warp → Result (ℕ → ℕ)
unfolding set_priority rounds
priorities_of scaled t s ws = rounds (length ws) (set_priority scaled t s ws) (λ _. 0)

-- "Select warps with max priority (round-robin)", on `selectedWarp` and `max_priority`.
abbrev pub consider : ℕ → ℕ → (ℕ → ℕ) → ℕ → Option ℕ × ℕ → Option ℕ × ℕ
consider nwarps counter priorities i (selected, best) =
    let ii = (i + counter) % nwarps in
    if ltb best (priorities ii) then (some ii, priorities ii) else (selected, best)

unfoldable pub select : ℕ → ℕ → (ℕ → ℕ) → Option ℕ
unfolding for
select nwarps counter priorities = (for nwarps (consider nwarps counter priorities) (none, 0)).0

-- `unregister_instruction`: `passed` is the front that is left behind.
abbrev pub drop_barrier : List ℕ → ℕ → List ℕ
drop_barrier [] passed = []
drop_barrier (b ∷ bs) passed = if leb b passed then bs else b ∷ bs

abbrev pub take_front : ℕ → ℕ → Oracle → List ℕ → Result Oracle
take_front pc tid s [] = err out_of_bounds
take_front pc tid s (front ∷ later) = ok (record s {
  sequence_numbers = update s.sequence_numbers tid front;
  timestamps = update s.timestamps tid (update (s.timestamps tid) pc later);
  barriers = update s.barriers tid (drop_barrier (s.barriers tid) front);
})

unfoldable pub unregister_instruction : ℕ → ℕ → Oracle → Result Oracle
unregister_instruction pc tid s = take_front pc tid s (s.timestamps tid pc)

unfoldable pub register_instruction : Instruction → ℕ → ℕ → Oracle → Oracle
register_instruction insn tid sequence s = record s {
  timestamps =
      update s.timestamps tid
        (update (s.timestamps tid) insn.pc (s.timestamps tid insn.pc ++ sequence ∷ []));
  barriers =
      if insn.barrier then update s.barriers tid (s.barriers tid ++ sequence ∷ []) else s.barriers;
}

-- "Update is_active": a round of the loop, on the heuristic's state.
unfoldable pub leave : Threads → Warp → ℕ → Oracle → Result Oracle
unfolding unregister_instruction
leave t w i s =
    if w.mask i
    then if (t i).ignore then err assertion_failed else unregister_instruction (t i).pc i s
    else ok s

unfoldable pub run_warp : ℕ → Threads → Oracle → Warp → Result (Threads × Oracle)
unfolding leave rounds
run_warp n t s w = rounds n (leave t w) s >>= (λ u. ok (set_active t w.mask, u))

unfoldable pub run_selected :
    ℕ → Threads → Oracle → List Warp → Option ℕ → Result (Threads × Oracle)
unfolding run_warp
run_selected n t s ws none = err assertion_failed
run_selected n t s ws (some i) = warp_at ws i >>= run_warp n t s

-- From the warps on; without a warp the new `rrcounter` is a division by 0.
unfoldable pub choose_warp : (ℕ → ℕ) → ℕ → Threads → Oracle → List Warp → Result (Threads × Oracle)
unfolding priorities_of select run_selected
choose_warp scaled n t s [] = err out_of_bounds
choose_warp scaled n t s (w ∷ ws) =
    let nwarps = length (w ∷ ws) in
    priorities_of scaled t s (w ∷ ws) >>= (λ priorities.
      run_selected n t (record s { rrcounter = (s.rrcounter + 1) % nwarps }) (w ∷ ws)
        (select nwarps s.rrcounter priorities))

-- `noignore`
abbrev pub noignore : ℕ → Threads → ℕ → Bool
noignore n t i = ltb i n && not (t i).ignore

unfoldable pub oracle : (ℕ → ℕ) → ℕ → Threads → Oracle → Result (Threads × Oracle)
unfolding split_warp choose_warp
oracle scaled n t s = split_warp (suc n) n t (noignore n t) >>= choose_warp scaled n t s

unfoldable pub GreedyOracle : (ℕ → ℕ) → Heuristic Oracle
unfolding register_instruction oracle
GreedyOracle scaled = record {
  choose_threads = oracle scaled;
  register_instruction = register_instruction;
}
