-- ===== src/Analyser/Registers.antt =====
-- `registers_analysis`: instructions on which all active threads read the same registers.
use mmt_sync.Base.{ℕ, zero, suc, ◌-◌, List, ◌∷◌, Bool, true, ◌&&◌, ltb, ◌==◌, if◌then◌else◌, for}
use mmt_sync.Heuristics.Interface.{Threads}
use mmt_sync.Analyser.Defs.{Analyser, bump}

-- `memcmp(a, b, size) == 0`
unfoldable pub same_bytes : ℕ → List ℕ → List ℕ → Bool
same_bytes zero xs ys = true
same_bytes (suc k) (x ∷ xs) (y ∷ ys) = (x == y) && same_bytes k xs ys
same_bytes (suc k) _ _ = true

-- The threads above the first one; the `break` at the first difference changes no result.
unfoldable pub executes_equal : ℕ → Threads → ℕ → Bool
unfolding for same_bytes
executes_equal n t first =
    for n
      (λ i equal.
        if ltb first i && (t i).is_active
        then equal && same_bytes (t first).reg_size (t first).reg_data (t i).reg_data
        else equal)
      true

unfoldable pub registers_analysis : ℕ → Threads → ℕ → ℕ → Analyser → Analyser
unfolding executes_equal
registers_analysis n t first running a =
    if ltb 0 (t first).reg_size
    then (if (if ltb 1 running then executes_equal n t first else true)
        then record a { execute_identical = bump a.execute_identical (running - 1) }
        else a)
    else record a { execute_identical = bump a.execute_identical (running - 1) }
