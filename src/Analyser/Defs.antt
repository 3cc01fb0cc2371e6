-- ===== src/Analyser/Defs.antt =====
-- The fields of `DataAnalyser`, `init`, and the loops that collect a value of each active thread.
use mmt_sync.Base.{
  ℕ, ◌+◌, ◌%◌, ◌^◌, List, [], ◌∷◌, ◌++◌, Bool, true, false, leb, if◌then◌else◌, update, for,
}
use mmt_sync.Base.Int.{ℤ, pos}
use mmt_sync.Heuristics.Interface.{Threads}
use mmt_sync.Statistics.{StatisticCounter, new_counter}

-- LONG is 64 bits wide.
abbrev pub long_mod : ℕ
long_mod = 2 ^ 64

abbrev pub inc : ℕ → ℕ
inc x = (x + 1) % long_mod

-- `a[i]++` on an array of LONG.
abbrev pub bump : (ℕ → ℕ) → ℕ → ℕ → ℕ
bump a i = update a i (inc (a i))

-- NUM_BITS
abbrev pub num_bits : ℕ
num_bits = 64

pub record Analyser : Type 0 where
  pub num_fetches : ℕ
  pub fetch_counter : ℕ
  pub instructions : ℕ → ℕ
  pub number_of_accesses : ℕ → ℕ
  pub uniform_accesses : ℕ → ℕ
  pub affine_accesses : ℕ → ℕ
  pub scattered_accesses : ℕ → ℕ
  pub mem_affine_distance : ℕ → ℕ → ℕ
  pub mem_scattered_interval : ℕ → ℕ → ℕ
  pub intervalo_comum_embaralhado : ℕ → ℕ
  pub executing_pertime : ℕ → ℕ
  pub execute_identical : ℕ → ℕ
  pub resulting_size : ℕ
  pub total_instructions : ℕ
  pub amount_divergence : ℕ
  pub current_cycle : ℕ → Bool
  pub number_cycles : ℕ
  pub inactive_length : ℕ → ℕ
  pub was_active : ℕ → Bool
  pub divergence_length : ℕ → StatisticCounter
  pub divergence_depth : StatisticCounter
  pub first_thread : ℕ
  pub other_thread : ℕ
  pub div_unbalance : StatisticCounter
  pub div_differece : StatisticCounter
  pub alone_thread : ℕ → ℕ

-- The constructor, which clears the object, and `init`. Only the counters of `divergence_length`
-- are new memory.
unfoldable pub init : (ℕ → ℤ) → ℕ → Analyser
unfolding new_counter
init memory num_fetches = record {
  num_fetches = num_fetches;
  fetch_counter = 0;
  instructions = λ _. 0;
  number_of_accesses = λ _. 0;
  uniform_accesses = λ _. 0;
  affine_accesses = λ _. 0;
  scattered_accesses = λ _. 0;
  mem_affine_distance = λ _ _. 0;
  mem_scattered_interval = λ _ _. 0;
  intervalo_comum_embaralhado = λ _. 0;
  executing_pertime = λ _. 0;
  execute_identical = λ _. 0;
  resulting_size = 0;
  total_instructions = 0;
  amount_divergence = 0;
  current_cycle = λ _. false;
  number_cycles = 0;
  inactive_length = λ _. 0;
  was_active = λ _. true;
  divergence_length = λ i. new_counter (memory i);
  divergence_depth = new_counter (pos 0);
  first_thread = 0;
  other_thread = 0;
  div_unbalance = new_counter (pos 0);
  div_differece = new_counter (pos 0);
  alone_thread = λ _. 0;
}

-- `for (i...) if (threads[i].is_active) list[k++] = f(i)`, as `tid_executando`, `lista_enderecos`
-- and `sorted_pc` are filled.
unfoldable pub collect {ℓ} : {A : Type ℓ} → ℕ → Threads → (ℕ → A) → List A
unfolding for
collect n t f = for n (λ i l. if (t i).is_active then l ++ f i ∷ [] else l) []

-- `std::sort` on numbers.
unfoldable pub insert : ℕ → List ℕ → List ℕ
insert x [] = x ∷ []
insert x (y ∷ ys) = if leb x y then x ∷ y ∷ ys else y ∷ insert x ys

unfoldable pub sort : List ℕ → List ℕ
unfolding insert
sort [] = []
sort (x ∷ xs) = insert x (sort xs)
