-- ===== src/Analyser/Memory.antt =====
-- `memory_analysis`: how the active threads access memory together. An index outside the tables of
-- NUM_BITS entries, which C++ would not notice, is the error `out_of_bounds`.
use mmt_sync.Base.{
  ℕ, zero, suc, ◌+◌, ◌-◌, ◌*◌, ◌/◌, ◌%◌, ◌^◌, List, [], ◌∷◌, Bool, true, ◌&&◌, ltb, ◌==◌,
  if◌then◌else◌, update, for, get_or, Result, ok, err, ◌>>=◌, out_of_bounds,
}
use mmt_sync.Heuristics.Interface.{Threads}
use mmt_sync.Analyser.Defs.{Analyser, bump, num_bits, long_mod, collect, sort}

-- `while (x != 0) { x >>= 1; b++; }`: a LONG has 64 bits, so 64 rounds end the loop.
unfoldable pub first_bit_fuel : ℕ → ℕ → ℕ → ℕ
first_bit_fuel zero x b = b
first_bit_fuel (suc k) x b = if x == 0 then b else first_bit_fuel k (x / 2) (b + 1)

unfoldable pub first_bit : ℕ → ℕ
unfolding first_bit_fuel
first_bit x = first_bit_fuel 64 x 0

-- `first_bit(x) - 1` on UINT, which wraps at 0.
unfoldable pub slot : ℕ → ℕ
unfolding first_bit
slot x = (first_bit x + 2 ^ 32 - 1) % 2 ^ 32

-- `lista[i] == lista[0]` for every i from 1.
unfoldable pub all_equal_to : ℕ → List ℕ → Bool
all_equal_to a [] = true
all_equal_to a (x ∷ xs) = (x == a) && all_equal_to a xs

unfoldable pub is_uniform : List ℕ → Bool
unfolding all_equal_to
is_uniform [] = true
is_uniform (a ∷ xs) = all_equal_to a xs

-- `esperado == lista[i]` for every i from 1, the threads beside the addresses.
unfoldable pub all_expected : ℕ → ℕ → ℕ → List ℕ → List ℕ → Bool
all_expected a0 tid0 difference (tid ∷ tids) (a ∷ addresses) =
    ((a0 + (tid - tid0) * difference) % long_mod == a)
    && all_expected a0 tid0 difference tids addresses
all_expected a0 tid0 difference _ _ = true

-- The common difference of an affine access, 0 when the access is not affine: a quotient of 0 never
-- passes the test, as it predicts the first address for the second thread too.
unfoldable pub affine_difference : List ℕ → List ℕ → ℕ
unfolding all_expected
affine_difference (tid0 ∷ tid1 ∷ tids) (a0 ∷ a1 ∷ addresses) =
    if ltb a0 a1
    then (let difference = (a1 - a0) / (tid1 - tid0) in
        if all_expected a0 tid0 difference (tid1 ∷ tids) (a1 ∷ addresses) then difference else 0)
    else 0
affine_difference _ _ = 0

-- `lista[running-1]` of a list that starts with x.
unfoldable pub last_or : ℕ → List ℕ → ℕ
last_or x [] = x
last_or x (y ∷ ys) = last_or y ys

-- `lista[i] - lista[i-1] == distancia` for every i from 2, after the entry `prev`.
unfoldable pub all_steps : ℕ → ℕ → List ℕ → Bool
all_steps distancia prev [] = true
all_steps distancia prev (x ∷ xs) = (x - prev == distancia) && all_steps distancia x xs

-- A count in a table of NUM_BITS entries.
unfoldable pub count_slot : (ℕ → ℕ) → ℕ → Result (ℕ → ℕ)
unfolding slot
count_slot table x =
    let k = slot x in if ltb k num_bits then ok (bump table k) else err out_of_bounds

-- The shuffled accesses with one distance, when all threads run.
unfoldable pub shuffled : ℕ → ℕ → List ℕ → (ℕ → ℕ) → Result (ℕ → ℕ)
unfolding count_slot all_steps
shuffled n running (x ∷ y ∷ rest) table =
    if (running == n) && all_steps (y - x) y rest then count_slot table (y - x) else ok table
shuffled n running _ table = ok table

unfoldable pub scattered : ℕ → ℕ → List ℕ → Analyser → Result Analyser
unfolding last_or count_slot shuffled
scattered n running [] a = ok a
scattered n running (x ∷ rest) a = do
  row ← count_slot (a.mem_scattered_interval (running - 1)) (last_or x rest - x)
  common ← shuffled n running (x ∷ rest) a.intervalo_comum_embaralhado
  ok (record a {
    scattered_accesses = bump a.scattered_accesses (running - 1);
    mem_scattered_interval = update a.mem_scattered_interval (running - 1) row;
    intervalo_comum_embaralhado = common;
  })

-- The j-th address of each active thread: uniform, affine or scattered. `tids` is
-- `tid_executando`.
unfoldable pub classify : ℕ → ℕ → List ℕ → List ℕ → Analyser → Result Analyser
unfolding is_uniform affine_difference count_slot scattered sort
classify n running tids addresses a0 =
    let a = record a0 { number_of_accesses = bump a0.number_of_accesses (running - 1) } in
    if is_uniform addresses
    then ok (record a { uniform_accesses = bump a.uniform_accesses (running - 1) })
    else (let difference = affine_difference tids addresses in
        if ltb 0 difference
        then (count_slot (a.mem_affine_distance (running - 1)) difference >>= λ row. ok (record a {
          affine_accesses = bump a.affine_accesses (running - 1);
          mem_affine_distance = update a.mem_affine_distance (running - 1) row;
        }))
        else scattered n running (sort addresses) a)

unfoldable pub memory_analysis : ℕ → Threads → ℕ → ℕ → Analyser → Result Analyser
unfolding for classify collect
memory_analysis n t first running a =
    for (t first).mem_quant
      (λ j r.
        r
        >>= classify n running (collect n t (λ i. i))
            (collect n t (λ i. get_or (t i).mem_address j 0)))
      (ok a)
