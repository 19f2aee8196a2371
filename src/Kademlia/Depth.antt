-- ===== src/Kademlia/Depth.antt =====
-- The neighbourhood depth (recalcDepth in
-- code/bee-snips-sup/pkg/topology/kademlia/kademlia.go).
use phd.Base.{
  ltb, ℕ, zero, suc, ◌+◌, ◌≤◌, ◌<◌, ◌≡◌, ◌≢◌, ◌⊎◌, refl, sym, ◌∙◌, inl, inr, Bool, true, false,
  List, [], ◌∷◌, length, leb, arith, Bool-cases,
}
use mathlib.Core.Path.{subst}
use phd.Swarm.{Address}
use phd.PSlice.{bin_at, total, shallowest_empty}
use phd.PSlice.Members.{IsPlaced}
use phd.Kademlia.Candidate.{Nominated, each_bin-Nominated}
use phd.Kademlia.Saturated.{IsUnsaturated, saturate-IsUnsaturated}
use phd.Kademlia.Reached.{reached, reached_within, reached_within-antitone}
use phd.Kademlia.{Kad, up_to_empty, up_to_storage, up_to_candidate, new_depth, recalc_depth}

-- the first empty bin, if there is one
shallowest_empty-first :
    (bins : List (List Address)) (i j : ℕ)
    → i + length bins ≤ 256
    → j < length bins
    → ((shallowest_empty i bins).1 ≡ false → i + j < (shallowest_empty i bins).0)
    → bin_at bins j ≢ []
unfolding shallowest_empty
shallowest_empty-first [] i j small inside h = absurd (omega (arith, inside))
shallowest_empty-first ([] ∷ bins) i j small inside h = absurd (omega (arith, h refl, small))
shallowest_empty-first ((a ∷ b) ∷ bins) i zero small inside h = λ e. absurd cc
shallowest_empty-first ((a ∷ b) ∷ bins) i (suc j) small inside h =
    shallowest_empty-first bins (i + 1) j (omega (arith, small)) (omega (arith, inside))
      (λ e. omega (arith, h e))

shallowest_empty-found :
    (bins : List (List Address)) (i : ℕ)
    → i + length bins ≤ 256
    → (shallowest_empty i bins).1 ≡ false
    → (j : ℕ) × ((shallowest_empty i bins).0 ≡ i + j) × (bin_at bins j ≡ [])
unfolding shallowest_empty
shallowest_empty-found [] i small h = absurd cc
shallowest_empty-found ([] ∷ bins) i small h = (0, omega (arith, small), refl)
shallowest_empty-found ((a ∷ b) ∷ bins) i small h =
    let (j, e, at) = shallowest_empty-found bins (i + 1) (omega (arith, small)) h in
    (suc j, omega (arith, e), at)

module _ (k : Kad) where
  -- what keeps the depth from being greater: there are fewer than three reachable peers past it, it
  -- is the storage radius, or its bin is empty or not saturated
  abbrev pub IsBound : ℕ → Type 0
  IsBound d =
      (reached_within k.peer_filter k.connected_peers.peers (suc d) k.connected_peers.max_bins < 3)
      ⊎ ((k.ignore_storage_depth ≡ false) × (d ≡ k.storage_radius))
      ⊎ (bin_at k.connected_peers.peers d ≡ [])
      ⊎ (reached k.peer_filter (bin_at k.connected_peers.peers d) < 8)

  -- recalcDepth
  pub record IsDepth (d : ℕ) : Type 0 where
    pub neighbors :
        (d ≡ 0)
        ⊎ (3 ≤ reached_within k.peer_filter k.connected_peers.peers d k.connected_peers.max_bins)
    pub no_gap : (j : ℕ) → j < d → bin_at k.connected_peers.peers j ≢ []
    pub bounded : (total k.connected_peers.peers ≤ 3) ⊎ IsBound d
    pub within_storage : k.ignore_storage_depth ≡ false → d ≤ k.storage_radius

  up_to_candidate-le :
      (candidate d : ℕ)
      → (up_to_candidate candidate d ≤ candidate) × (up_to_candidate candidate d ≤ d)
  unfolding up_to_candidate
  up_to_candidate-le candidate d = (ground arith, ground arith)

  up_to_storage-le :
      (d : ℕ)
      → (up_to_storage k d ≤ d)
        × (k.ignore_storage_depth ≡ false → up_to_storage k d ≤ k.storage_radius)
  unfolding up_to_storage
  up_to_storage-le d = (ground arith, λ e. ground (arith, e))

  up_to_empty-le : (e : ℕ × Bool) (d : ℕ) → e.1 ≡ false → up_to_empty e d ≤ e.0
  unfolding up_to_empty
  up_to_empty-le (empty, b) d h = ground (arith, h)

  up_to_candidate-cases :
      (candidate d : ℕ)
      → (up_to_candidate candidate d ≡ candidate) ⊎ (up_to_candidate candidate d ≡ d)
  unfolding up_to_candidate
  up_to_candidate-cases candidate d = elim (Bool-cases (ltb candidate d)) [
    | inl l ↦ inl (rw (l) refl)
    | inr l ↦ inr (rw (l) refl)
  ]

  up_to_storage-cases :
      (d : ℕ)
      → (up_to_storage k d ≡ d)
        ⊎ ((k.ignore_storage_depth ≡ false) × (up_to_storage k d ≡ k.storage_radius))
  unfolding up_to_storage
  up_to_storage-cases d = elim (Bool-cases k.ignore_storage_depth) [
    | inl i ↦ inl (ground (arith, i))
    | inr i ↦ elim (Bool-cases (ltb k.storage_radius d)) [
      | inl l ↦ inr (i, rw (l, i) refl)
      | inr l ↦ inl (ground (arith, l, i))
    ]
  ]

  up_to_empty-cases :
      (e : ℕ × Bool) (d : ℕ) → (up_to_empty e d ≡ d) ⊎ ((e.1 ≡ false) × (up_to_empty e d ≡ e.0))
  unfolding up_to_empty
  up_to_empty-cases (empty, true) d = inl refl
  up_to_empty-cases (empty, false) d = elim (Bool-cases (ltb empty d)) [
    | inl l ↦ inr (refl, rw (l) refl)
    | inr l ↦ inl (rw (l) refl)
  ]

  depth-IsBound :
      (candidate sat : ℕ)
      → IsPlaced k.connected_peers
      → Nominated k k.connected_peers.peers k.connected_peers.max_bins 0 candidate
      → IsUnsaturated k k.connected_peers.peers sat
      → IsBound (
          up_to_candidate candidate
            (up_to_storage k (up_to_empty (shallowest_empty 0 k.connected_peers.peers) sat)))
  unfolding Nominated
  depth-IsBound candidate sat placed nominated unsaturated =
      let bins = k.connected_peers.peers in
      let e = shallowest_empty 0 bins in
      let d1 = up_to_empty e sat in
      elim (up_to_candidate-cases candidate (up_to_storage k d1)) [
        | inl is ↦ subst IsBound (sym is) (
            inl (elim nominated [
              | inl (z, few) ↦
                  let past =
                    reached_within-antitone k.peer_filter bins 0 (suc candidate)
                      k.connected_peers.max_bins (omega arith) in
                  omega (arith, few, past)
              | inr (below, many, few) ↦ omega (arith, few)
            ]))
        | inr is ↦ subst IsBound (sym is) (elim (up_to_storage-cases d1) [
          | inr (minds, at) ↦ inr (inl (minds, at))
          | inl at ↦ subst IsBound (sym at) (elim (up_to_empty-cases e sat) [
            | inr (some_empty, at_empty) ↦
                let (j, same, empty) =
                  shallowest_empty-found bins 0 (omega (arith, placed.bins, placed.few_bins))
                    some_empty in
                let same' : e.0 ≡ j = omega (arith, same) in
                subst IsBound (sym (at_empty ∙ same')) (inr (inr (inl empty)))
            | inl at_sat ↦ subst IsBound (sym at_sat) (elim unsaturated [
              | inl low ↦ inr (inr (inr low))
              | inr none_past ↦
                  let within : reached_within k.peer_filter bins (suc sat)
                        k.connected_peers.max_bins
                      ≡ 0 =
                    rw (← placed.bins) none_past in
                  inl (omega (arith, within))
            ])
          ])
        ])
      ]

  bounded-IsDepth :
      (candidate sat : ℕ)
      → IsPlaced k.connected_peers
      → Nominated k k.connected_peers.peers k.connected_peers.max_bins 0 candidate
      → IsUnsaturated k k.connected_peers.peers sat
      → IsDepth (
          up_to_candidate candidate
            (up_to_storage k (up_to_empty (shallowest_empty 0 k.connected_peers.peers) sat)))
  unfolding Nominated
  bounded-IsDepth candidate sat placed nominated unsaturated =
      let bins = k.connected_peers.peers in
      let e = shallowest_empty 0 bins in
      let d1 = up_to_empty e sat in
      let d2 = up_to_storage k d1 in
      let d3 = up_to_candidate candidate d2 in
      let (a, b) = up_to_candidate-le candidate d2 in
      let (c, storage) = up_to_storage-le d1 in
      record {
        neighbors = elim nominated [
          | inl (z, few) ↦ inl (omega (arith, a, z))
          | inr (below, many, few) ↦ inr (
              omega (
                arith,
                many,
                reached_within-antitone k.peer_filter bins d3 candidate k.connected_peers.max_bins
                    a,
              ))
        ];
        no_gap = λ j h. elim nominated [
          | inl (z, few) ↦ absurd (omega (arith, a, z, h))
          | inr (below, many, few) ↦
              shallowest_empty-first bins 0 j (omega (arith, placed.bins, placed.few_bins))
                (omega (arith, a, h, below, placed.bins))
                (λ f. let g = up_to_empty-le e sat f in omega (arith, b, c, g, h))
        ];
        bounded = inr (depth-IsBound candidate sat placed nominated unsaturated);
        within_storage = λ f. let g = storage f in omega (arith, b, g);
      }

  -- Where every connected peer is in its own bin, recalcDepth leaves a depth that keeps its rules
  -- and, where more than three peers are connected, is no smaller than they ask.
  pub recalc_depth_lem : IsPlaced k.connected_peers → IsDepth (recalc_depth k).depth
  unfolding recalc_depth new_depth
  recalc_depth_lem placed = elim (Bool-cases (leb (total k.connected_peers.peers) 3)) [
    | inl few ↦ rw (few) (record {
      neighbors = inl refl;
      no_gap = λ j h. absurd (omega (arith, h));
      bounded = inl (ground (arith, few));
      within_storage = λ f. omega arith;
    })
    | inr many ↦ rw (many) (
        bounded-IsDepth _ _ placed
          (each_bin-Nominated k k.connected_peers.peers k.connected_peers.max_bins 0 placed.few_bins
            (omega arith))
          (saturate-IsUnsaturated k k.connected_peers.peers
            (omega (arith, placed.bins, placed.few_bins))))
  ]
