-- ===== src/Kademlia/Saturated.antt =====
-- The shallowest bin that is not saturated (the first loop of recalcDepth in
-- code/bee-snips-sup/pkg/topology/kademlia/kademlia.go).
use phd.Base.{
  ℕ, suc, ◌+◌, ◌%◌, ◌≤◌, ◌<◌, ◌≡◌, ◌⊎◌, refl, sym, ap, ◌∙◌, inl, inr, true, false, Option, none,
  some, List, [], ◌∷◌, ltb, ◌==◌, length, Bool-cases, arith,
}
use mathlib.Core.Path.{subst}
use phd.Swarm.{Address}
use phd.PSlice.{bin_at, Reply, stop, visit_bin, each_bin_rev}
use phd.PSlice.Visits.{visit_bin-go_on, visit_bin-stop, each_bin_rev-next, each_bin_rev-ended}
use phd.Pos.Sender.{TopologyError}
use phd.Kademlia.{Kad, Saturation, saturate}
use phd.Kademlia.Reached.{reached, reached_within, reached_within_none}

abbrev at_bin : ℕ → ℕ → Saturation
at_bin c u = record { bin_count = c; shallowest_unsaturated = u }

module _ (k : Kad) where
  -- the bin at which the count stands
  visit_same :
      (i c : ℕ) (peers : List Address)
      → i < 256
      → visit_bin (saturate k) i peers (at_bin c i)
        ≡ (at_bin (c + reached k.peer_filter peers) i, none)
  unfolding visit_bin reached saturate
  visit_same i c [] small = ap (λ n. (at_bin n i, none)) (omega arith)
  visit_same i c (p ∷ peers) small =
      let here : i % 256 ≡ i = omega (arith, small) in
      elim (Bool-cases (k.peer_filter p)) [
        | inl f ↦
            visit_bin-go_on (saturate k) i p peers (at_bin c i) (at_bin c i) (rw (f) refl)
            ∙ visit_same i c peers small
            ∙ ap (λ n. (at_bin n i, none)) (ground (arith, f))
        | inr f ↦
            let same : (i == i) ≡ true = ground arith in
            visit_bin-go_on (saturate k) i p peers (at_bin c i) (at_bin (suc c) i)
              (rw (here) (rw (f, same) refl))
            ∙ visit_same i (suc c) peers small
            ∙ ap (λ n. (at_bin n i, none)) (ground (arith, f))
      ]

  -- A later bin: nothing is reachable in it, the iteration stops there, or the count moves to it.
  Moved : ℕ → ℕ → ℕ → List Address → Type 0
  unfolding reached
  Moved c u i peers =
      ((reached k.peer_filter peers ≡ 0)
        × (visit_bin (saturate k) i peers (at_bin c u) ≡ (at_bin c u, none)))
      ⊎ ((c < 8) × (visit_bin (saturate k) i peers (at_bin c u) ≡ (at_bin c u, some stop)))
      ⊎ (visit_bin (saturate k) i peers (at_bin c u)
          ≡ (at_bin (reached k.peer_filter peers) i, none))

  visit_bin-Moved : (i c u : ℕ) (peers : List Address) → i < 256 → u < i → Moved c u i peers
  unfolding Moved visit_bin reached saturate
  visit_bin-Moved i c u [] small h = inl (refl, refl)
  visit_bin-Moved i c u (p ∷ peers) small h =
      let here : i % 256 ≡ i = omega (arith, small) in
      elim (Bool-cases (k.peer_filter p)) [
        | inl f ↦
            let step =
              visit_bin-go_on (saturate k) i p peers (at_bin c u) (at_bin c u) (rw (f) refl) in
            let count : reached k.peer_filter (p ∷ peers) ≡ reached k.peer_filter peers =
              rw (f, reached) refl in
            elim (visit_bin-Moved i c u peers small h) [
              | inl (z, run) ↦ inl (count ∙ z, step ∙ run)
              | inr (inl (low, run)) ↦ inr (inl (low, step ∙ run))
              | inr (inr run) ↦ inr (inr (step ∙ run ∙ ap (λ n. (at_bin n i, none)) (sym count)))
            ]
        | inr f ↦
            let other : (i == u) ≡ false = ground (arith, h) in
            let deeper : ltb u i ≡ true = ground (arith, h) in
            elim (Bool-cases (ltb c 8)) [
              | inl low ↦ inr (
                  inl (
                    ground (arith, low),
                    visit_bin-stop (saturate k) i p peers (at_bin c u) (at_bin c u)
                        (rw (here) (rw (f, other, deeper, low) refl)),
                  ))
              | inr full ↦ inr (
                  inr (
                    visit_bin-go_on (saturate k) i p peers (at_bin c u) (at_bin 1 i)
                      (rw (here) (rw (f, other, deeper, full) refl))
                    ∙ visit_same i 1 peers small
                    ∙ ap (λ n. (at_bin n i, none)) (ground (arith, f))))
            ]
      ]

  module _ (all : List (List Address)) where
    -- fewer than 8 peers of the bin are reachable, or none is in a deeper bin
    abbrev pub IsUnsaturated : ℕ → Type 0
    IsUnsaturated u =
        (reached k.peer_filter (bin_at all u) < 8)
        ⊎ (reached_within k.peer_filter all (suc u) (length all) ≡ 0)

    -- the count before bin i
    abbrev Stands : ℕ → ℕ → ℕ → Type 0
    Stands i c u =
        (((u < i) × (c ≡ reached k.peer_filter (bin_at all u))) ⊎ ((u ≡ i) × (c ≡ 0)))
        × (reached_within k.peer_filter all (suc u) i ≡ 0)

    abbrev result : ℕ → List (List Address) → Saturation → ℕ
    result i bins s = (each_bin_rev (saturate k) i bins s).0.shallowest_unsaturated

    each_bin_rev-IsUnsaturated :
        (bins : List (List Address)) (i c u : ℕ)
        → ((j : ℕ) → bin_at all (i + j) ≡ bin_at bins j)
        → i + length bins ≡ length all
        → length all ≤ 256
        → Stands i c u
        → IsUnsaturated (result i bins (at_bin c u))
    unfolding each_bin_rev reached_within Moved
    each_bin_rev-IsUnsaturated [] i c u tail len small (at, none_yet) =
        let whole : i ≡ length all = omega (arith, len) in inr (rw (← whole) none_yet)
    each_bin_rev-IsUnsaturated (bin ∷ bins) i c u tail len small (at, none_yet) =
        let inside : i < 256 = omega (arith, len, small) in
        let start : i ≡ i + 0 = omega arith in
        let here : bin_at all i ≡ bin = ap (bin_at all) start ∙ tail 0 in
        let tail' : (j : ℕ) → bin_at all (i + 1 + j) ≡ bin_at bins j = λ j.
          let shift : i + 1 + j ≡ i + suc j = omega arith in ap (bin_at all) shift ∙ tail (suc j) in
        let len' : i + 1 + length bins ≡ length all = omega (arith, len) in
        let on =
          λ (c' u' : ℕ) (run : visit_bin (saturate k) i bin (at_bin c u) ≡ (at_bin c' u', none))
              (st : Stands (i + 1) c' u').
            subst IsUnsaturated
              (sym (
                ap (λ (r : Saturation × Option (Reply TopologyError)). r.0.shallowest_unsaturated)
                  (each_bin_rev-next (saturate k) i bin bins (at_bin c u) (at_bin c' u') run)))
              (each_bin_rev-IsUnsaturated bins (i + 1) c' u' tail' len' small st) in
        let none_past : reached_within k.peer_filter all (suc i) (i + 1) ≡ 0 =
          reached_within_none k.peer_filter all (suc i) (i + 1) (omega arith) in
        elim at [
          | inr (same, zero_count) ↦
              on (reached k.peer_filter bin) i
                (rw (same, zero_count)
                  (visit_same i 0 bin inside
                    ∙ ap (λ n. (at_bin n i, none)) (none_more (reached k.peer_filter bin))))
                (inl (omega arith, ap (reached k.peer_filter) (sym here)), none_past)
          | inl (past, count) ↦ elim (visit_bin-Moved i c u bin inside past) [
            | inl (z, run) ↦ on c u run (
              inl (omega (arith, past), count),
              last_step u i past none_yet (ap (reached k.peer_filter) here ∙ z),
            )
            | inr (inl (low, run)) ↦
                subst IsUnsaturated
                  (sym (
                    ap
                      (λ (r : Saturation × Option (Reply TopologyError)).
                        r.0.shallowest_unsaturated)
                      (each_bin_rev-ended (saturate k) i bin bins (at_bin c u) (at_bin c u) stop
                        run)))
                  (inl (omega (arith, low, count)))
            | inr (inr run) ↦
                on (reached k.peer_filter bin) i run
                  (inl (omega arith, ap (reached k.peer_filter) (sym here)), none_past)
          ]
        ]
      where
        none_more : (n : ℕ) → 0 + n ≡ n
        none_more n = omega arith

        last_step :
            (u i : ℕ)
            → u < i
            → reached_within k.peer_filter all (suc u) i ≡ 0
            → reached k.peer_filter (bin_at all i) ≡ 0
            → reached_within k.peer_filter all (suc u) (i + 1) ≡ 0
        last_step u i h a b =
            let next : i + 1 ≡ suc i = omega arith in
            ap (reached_within k.peer_filter all (suc u)) next ∙ ground (arith, h, a, b)

    pub saturate-IsUnsaturated : length all ≤ 256 → IsUnsaturated (result 0 all (at_bin 0 0))
    saturate-IsUnsaturated small =
        each_bin_rev-IsUnsaturated all 0 0 0 (λ j. ap (bin_at all) (omega arith)) (omega arith)
          small (inr (refl, refl), reached_within_none k.peer_filter all 1 0 (omega arith))
