-- ===== src/Tests/Warps.antt =====
-- Two threads at two pcs, split in warps.
use mmt_sync.Base.{ℕ, zero, suc, ◌^◌, ◌<◌, ◌≡◌, ltb, List, ok, total, arith}
use mmt_sync.Heuristics.Warp.{Warp, split_warp}
use mmt_sync.Heuristics.Splitting.{Splits, Fits, split_warp-Splits}
use mmt_sync.Tests.Data.{three}

pub three-long : (i : ℕ) → (three i).pc < 2 ^ 64
three-long zero = omega arith
three-long (suc zero) = omega arith
three-long (suc (suc i)) = omega arith

two-Fits : Fits 4 3 (λ i. ltb i 2)
unfolding total
two-Fits = record { few = omega arith; inside = λ i e. ground arith }

split_warp-Splits_example :
    (ws : List Warp) × (split_warp 4 3 three (λ i. ltb i 2) ≡ ok ws)
    × Splits 3 three (λ i. ltb i 2) ws
split_warp-Splits_example =
    split_warp-Splits 3 three (omega arith) three-long 4 (λ i. ltb i 2) two-Fits
