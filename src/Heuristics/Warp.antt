-- ===== src/Heuristics/Warp.antt =====
-- Warp.hpp: the threads of a set in groups of one pc. A bitset is its test; it has MAX_THREADS bits.
use mmt_sync.Base.{
  ℕ, zero, suc, ◌-◌, ◌^◌, List, [], ◌∷◌, Bool, true, false, ◌&&◌, ltb, ◌==◌, min, if◌then◌else◌,
  for, total, Result, ok, err, ◌>>=◌, no_return, search_for, Option,
}
use mmt_sync.Heuristics.Interface.{Threads}

abbrev pub max_threads : ℕ
max_threads = 16

pub record Warp : Type 0 where
  pub mask : ℕ → Bool
  pub pc : ℕ

-- `subset.any()`
unfoldable pub any_of : (ℕ → Bool) → Bool
unfolding for
any_of subset = for max_threads (λ i found. if subset i then true else found) false

-- "Compute min(PC)", from the largest ADDRINT on.
unfoldable pub least_pc : ℕ → Threads → (ℕ → Bool) → ℕ
unfolding for
least_pc n t subset = for n (λ i m. if subset i then min m (t i).pc else m) (2 ^ 64 - 1)

-- The threads below n that move to the warp.
abbrev pub moves : ℕ → Threads → (ℕ → Bool) → ℕ → ℕ → Bool
moves n t subset pc i = ltb i n && subset i && ((t i).pc == pc)

abbrev pub stay : (ℕ → Bool) → (ℕ → Bool) → ℕ → Bool
stay subset moved i = if moved i then false else subset i

-- The loop on fuel; `no_return` means that the fuel ran out.
unfoldable pub split_warp : ℕ → ℕ → Threads → (ℕ → Bool) → Result (List Warp)
unfolding any_of least_pc
split_warp zero n t subset = err no_return
split_warp (suc fuel) n t subset =
    let pc = least_pc n t subset in
    let moved = moves n t subset pc in
    let rest = split_warp fuel n t (stay subset moved) in
    if any_of subset then (rest >>= (λ ws. ok ((record { mask = moved; pc = pc }) ∷ ws))) else ok []

abbrev pub count_set : ℕ → (ℕ → Bool) → ℕ
count_set n subset = total n (λ i. if subset i then 1 else 0)

-- `ffs`: the first thread of a mask, -1 if there is none. (The C++ counts in an `int`.)
unfoldable pub ffs : (ℕ → Bool) → Option ℕ
unfolding search_for
ffs m = search_for max_threads (λ i. i) m
