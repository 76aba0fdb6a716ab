-- ===== src/Jobs.antt =====
-- src/jobs/jobs.cpp: the parallel loop of the job facade. The scheduler is a parameter: which ranges
-- of indices it hands out, in the order in which they complete.
pub mod Writes
mod Examples
use voxel.Base.{
  ℕ, zero, suc, ◌+◌, ◌-◌, ◌%◌, ◌^◌, Bool, true, false, ◌||◌, Option, none, some, List, [], ◌∷◌, ltb,
  ◌==◌, if◌then◌else◌,
}
use voxel.Base.Loops.{for_below}

-- `enki::TaskSetPartition`
pub record Range : Type 0 where
  pub start : ℕ
  pub end : ℕ

-- How a task set of so many indices, with so many at least in a range, is split.
abbrev pub Scheduler : Type 0
Scheduler = ℕ → ℕ → List Range

module _ {ℓ} {S : Type ℓ} where
  -- The lambda that is run on one range: its loop.
  unfoldable pub run_range : Range → (ℕ → S → S) → S → S
  run_range range fn s = for_below (range.end - range.start) (λ i. fn (range.start + i)) s

  unfoldable pub run_ranges : List Range → (ℕ → S → S) → S → S
  run_ranges [] fn s = s
  run_ranges (range ∷ ranges) fn s = run_ranges ranges fn (run_range range fn s)

-- The counter `completed`, a `std::size_t`, after the ranges.
unfoldable pub completed : List Range → ℕ → ℕ
completed [] n = n
completed (range ∷ ranges) n = completed ranges ((n + (range.end - range.start)) % 2 ^ 64)

-- `none` when the wait for the counter never ends.
unfoldable pub parallel_for {ℓ} : {S : Type ℓ} → Scheduler → ℕ → ℕ → (ℕ → S → S) → S → Option S
parallel_for scheduler count grain fn s =
    let at_least = if grain == 0 then 1 else grain in
    let ranges = scheduler count at_least in
    if count == 0
    then some s
    else if ltb 0xFFFFFFFF count || ltb 0xFFFFFFFF at_least
    then some (for_below count fn s)
    else if completed ranges 0 == count
    then some (run_ranges ranges fn s)
    else none
