-- ===== src/Jobs/Examples.antt =====
-- Runs of the parallel loop on a scheduler that halves the range and runs the back half first.
use voxel.Base.{ℕ, ◌+◌, ◌/◌, ◌≡◌, refl, some, [], ◌∷◌, arith, set}
use voxel.Base.Loops.{for_below}
use voxel.Jobs.{Scheduler, parallel_for, completed, run_ranges, run_range}
use voxel.Jobs.Writes.{Splits, in_some, lengths}

abbrev halves : Scheduler
halves count at_least =
    record { start = count / 2; end = count } ∷ record { start = 0; end = count / 2 } ∷ []

halves-Splits : (count at_least : ℕ) → Splits (halves count at_least) count
unfolding in_some lengths
halves-Splits count at_least = (λ i hi. ground arith, omega arith)

parallel_for_runs :
    parallel_for halves 3 1 (λ i out. set out i (10 + i)) (0 ∷ 0 ∷ 0 ∷ [])
    ≡ some (10 ∷ 11 ∷ 12 ∷ [])
unfolding parallel_for completed run_ranges run_range for_below
parallel_for_runs = refl
