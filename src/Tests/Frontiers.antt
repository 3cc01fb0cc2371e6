-- ===== src/Tests/Frontiers.antt =====
-- TFP on three threads of which the last has ended.
use mmt_sync.Base.{[], ◌∷◌, ◌≡◌, refl, some}
use mmt_sync.Heuristics.Tfp.{Tfp, new_tfp, groups_of}
use mmt_sync.Tests.Data.{three}

-- Both that can run are groups, for they stand at two pcs.
two_groups : groups_of 3 three new_tfp.function_level (some 0) ≡ 0 ∷ 1 ∷ []
unfolding groups_of
two_groups = refl
