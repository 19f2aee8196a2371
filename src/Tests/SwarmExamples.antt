-- ===== src/Tests/SwarmExamples.antt =====
-- The theorems on proximity and distance, on addresses of five bytes.
use Prim.Native.Nat.{min}
use phd.Base.{ℕ, ◌≤◌, ◌<◌, ◌≡◌, ◌≢◌, refl, some, List, [], ◌∷◌, arith}
use phd.Swarm.{compare_bytes}
use phd.Swarm.Proximity.{max_po, proximity}
use phd.Swarm.Proximity.Metric.{IsAddress, Agree, bit_at, proximity_lem, proximity_ultrametric}
use phd.Swarm.Distance.{distance_raw, distance_cmp}
use phd.Swarm.Distance.Order.{closeness_of, distance_cmp_lem}

abbrev near : List ℕ
near = 1 ∷ 2 ∷ 3 ∷ 4 ∷ 5 ∷ []

abbrev nearer : List ℕ
nearer = 1 ∷ 2 ∷ 3 ∷ 4 ∷ 4 ∷ []

abbrev far : List ℕ
far = 1 ∷ 130 ∷ 3 ∷ 4 ∷ 5 ∷ []

near-IsAddress : IsAddress 4 near
near-IsAddress = (omega arith, omega arith)

far-IsAddress : IsAddress 4 far
far-IsAddress = (omega arith, omega arith)

nearer-IsAddress : IsAddress 4 nearer
nearer-IsAddress = (omega arith, omega arith)

proximity_lem_example :
    (proximity near far ≤ max_po)
    × Agree near far (proximity near far)
    × (proximity near far < max_po
        → bit_at near (proximity near far) ≢ bit_at far (proximity near far))
proximity_lem_example = proximity_lem near far near-IsAddress far-IsAddress

proximity_ultrametric_example :
    min (proximity near far) (proximity far nearer) ≤ proximity near nearer
proximity_ultrametric_example =
    proximity_ultrametric near far nearer near-IsAddress far-IsAddress nearer-IsAddress

nearer_by : distance_raw nearer near ≡ some (0 ∷ 0 ∷ 0 ∷ 0 ∷ 1 ∷ [])
unfolding distance_raw
nearer_by = refl

far_by : distance_raw far near ≡ some (0 ∷ 128 ∷ 0 ∷ 0 ∷ 0 ∷ [])
unfolding distance_raw
far_by = refl

distance_cmp_lem_example :
    distance_cmp near nearer far
    ≡ some (closeness_of (compare_bytes (0 ∷ 0 ∷ 0 ∷ 0 ∷ 1 ∷ []) (0 ∷ 128 ∷ 0 ∷ 0 ∷ 0 ∷ [])))
distance_cmp_lem_example =
    distance_cmp_lem near nearer far (0 ∷ 0 ∷ 0 ∷ 0 ∷ 1 ∷ []) (0 ∷ 128 ∷ 0 ∷ 0 ∷ 0 ∷ []) nearer_by
      far_by
