-- ===== src/Tests/IntervalExamples.antt =====
-- The theorems on intervals, on one or two stored ranges.
use phd.Base.{ℕ, ◌≤◌, ◌≡◌, ◌⊎◌, ◌↔◌, [], ◌∷◌, arith, inr}
use phd.Intervals.{Intervals, add, next}
use phd.Intervals.Merge.{IsSorted, Covers}
use phd.Intervals.Add.{add_lem}
use phd.Intervals.Gap.{IsGap, next_lem, add_inside_overlaps}

abbrev two_ranges : Intervals
two_ranges = record { start = 1; ranges = (2, 4) ∷ (8, 9) ∷ [] }

sorted : IsSorted 1 two_ranges.ranges
sorted = (omega arith, omega arith, omega arith, (omega arith, omega arith, omega arith, tt))

add_lem_example :
    let i = add 5 8 two_ranges in
    (i.start ≡ 1)
    × IsSorted 1 i.ranges
    × ((x : ℕ) → Covers x i.ranges ↔ (((5 ≤ x) × (x ≤ 8)) ⊎ Covers x two_ranges.ranges))
add_lem_example =
    add_lem 5 8 two_ranges sorted (omega arith) (omega arith)
      (inr (omega arith), (inr (omega arith), tt))

next_lem_example : IsGap two_ranges.ranges 1 ((next 0 two_ranges).0, (next 0 two_ranges).1)
next_lem_example = next_lem two_ranges (omega arith) sorted

add_inside_overlaps_example :
    (add 3 4 (record { start = 0; ranges = (1, 9) ∷ [] })).ranges ≡ (1, 9) ∷ (3, 4) ∷ []
add_inside_overlaps_example =
    add_inside_overlaps 0 1 9 3 4 (omega arith) (omega arith) (omega arith) (omega arith)
      (omega arith)
