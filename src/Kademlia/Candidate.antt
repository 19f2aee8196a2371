-- ===== src/Kademlia/Candidate.antt =====
-- The bin that recalcDepth nominates by its reachable peers
-- (code/bee-snips-sup/pkg/topology/kademlia/kademlia.go).
use phd.Base.{
  ℕ, zero, suc, ◌+◌, ◌%◌, ◌≤◌, ◌<◌, ◌≡◌, ◌⊎◌, refl, sym, ap, ◌∙◌, inl, inr, true, false, Option,
  none, some, List, [], ◌∷◌, leb, arith, Bool-cases,
}
use mathlib.Core.Path.{subst}
use phd.Swarm.{Address}
use phd.PSlice.{bin_at, Reply, go_on, stop, visit_bin, each_bin}
use phd.PSlice.Visits.{visit_bin-go_on, visit_bin-stop, each_bin-next, each_bin-ended}
use phd.Pos.Sender.{TopologyError}
use phd.Kademlia.Reached.{reached, reached_within, reached_within_none}
use phd.Kademlia.{Kad, count_nearest}

module _ (k : Kad) where
  count-filtered :
      (c i : ℕ) (p : Address)
      → k.peer_filter p ≡ true
      → count_nearest k (c, 0) p i ≡ ((c, 0), go_on)
  unfolding count_nearest
  count-filtered c i p f = rw (f) refl

  count-found :
      (c i : ℕ) (p : Address)
      → k.peer_filter p ≡ false
      → leb 3 (suc c) ≡ true
      → count_nearest k (c, 0) p i ≡ ((suc c, i), stop)
  unfolding count_nearest
  count-found c i p f t = rw (f, t) refl

  count-more :
      (c i : ℕ) (p : Address)
      → k.peer_filter p ≡ false
      → leb 3 (suc c) ≡ false
      → count_nearest k (c, 0) p i ≡ ((suc c, 0), go_on)
  unfolding count_nearest
  count-more c i p f t = rw (f, t) refl

  -- a bin: its reachable peers are counted, or the third is found in it
  Counted : ℕ → ℕ → List Address → Type 0
  unfolding reached
  Counted i c peers =
      ((visit_bin (count_nearest k) i peers (c, 0) ≡ ((c + reached k.peer_filter peers, 0), none))
        × (c + reached k.peer_filter peers < 3))
      ⊎ ((n : ℕ) × (visit_bin (count_nearest k) i peers (c, 0) ≡ ((n, i % 256), some stop))
          × (3 ≤ c + reached k.peer_filter peers))

  visit_bin-Counted : (i c : ℕ) (peers : List Address) → c < 3 → Counted i c peers
  unfolding visit_bin reached Counted
  visit_bin-Counted i c [] h = inl (ap (λ n. ((n, 0), none)) (omega arith), omega (arith, h))
  visit_bin-Counted i c (p ∷ peers) h = elim (Bool-cases (k.peer_filter p)) [
    | inl f ↦
        let step =
          visit_bin-go_on (count_nearest k) i p peers (c, 0) (c, 0)
            (count-filtered c (i % 256) p f) in
        elim (visit_bin-Counted i c peers h) [
          | inl (run, few) ↦
              inl
                (step ∙ run ∙ ap (λ n. ((n, 0), none)) (ground (arith, f)), ground (arith, f, few))
          | inr (n, run, many) ↦ inr (n, step ∙ run, ground (arith, f, many))
        ]
    | inr f ↦ elim (Bool-cases (leb 3 (suc c))) [
      | inl t ↦ inr (
        suc c,
        visit_bin-stop (count_nearest k) i p peers (c, 0) (suc c, i % 256)
            (count-found c (i % 256) p f t),
        ground (arith, f, t),
      )
      | inr t ↦
          let step =
            visit_bin-go_on (count_nearest k) i p peers (c, 0) (suc c, 0)
              (count-more c (i % 256) p f t) in
          elim (visit_bin-Counted i (suc c) peers (ground (arith, t))) [
            | inl (run, few) ↦
                inl (
                  step ∙ run ∙ ap (λ n. ((n, 0), none)) (ground (arith, f)),
                  ground (arith, f, few),
                )
            | inr (n, run, many) ↦ inr (n, step ∙ run, ground (arith, f, many))
          ]
    ]
  ]

  -- the candidate of some bins is the last one with three reachable peers in it and those after it,
  -- or 0 where there are fewer
  unfoldable pub Nominated : List (List Address) → ℕ → ℕ → ℕ → Type 0
  Nominated bins n c candidate =
      ((candidate ≡ 0) × (c + reached_within k.peer_filter bins 0 n < 3))
      ⊎ ((candidate < n)
          × (3 ≤ c + reached_within k.peer_filter bins candidate n)
          × (c + reached_within k.peer_filter bins (suc candidate) n < 3))

  Nominated-here :
      (bins : List (List Address)) (n c : ℕ)
      → n < 256
      → c < 3
      → 3 ≤ c + reached k.peer_filter (bin_at bins n)
      → Nominated bins (suc n) c (n % 256)
  unfolding Nominated reached_within
  Nominated-here bins n c small few many =
      let same : n % 256 ≡ n = omega (arith, small) in
      let none_past = reached_within_none k.peer_filter bins (suc n) (suc n) (omega arith) in
      subst (Nominated bins (suc n) c) (sym same)
        (inr (omega arith, ground (arith, many), omega (arith, few, none_past)))

  Nominated-later :
      (bins : List (List Address)) (n c candidate : ℕ)
      → Nominated bins n (c + reached k.peer_filter (bin_at bins n)) candidate
      → Nominated bins (suc n) c candidate
  unfolding Nominated reached_within
  Nominated-later bins n c candidate (inl (e, few)) = inl (e, ground (arith, few))
  Nominated-later bins n c candidate (inr (below, many, few)) =
      inr (omega (arith, below), ground (arith, below, many), ground (arith, below, few))

  pub each_bin-Nominated :
      (bins : List (List Address)) (n c : ℕ)
      → n ≤ 256
      → c < 3
      → Nominated bins n c (each_bin (count_nearest k) n bins (c, 0)).0.1
  unfolding Nominated Counted each_bin reached_within
  each_bin-Nominated bins zero c small h = inl (refl, omega (arith, h))
  each_bin-Nominated bins (suc n) c small h = elim (visit_bin-Counted n c (bin_at bins n) h) [
    | inr (m, run, many) ↦
        let whole = each_bin-ended (count_nearest k) n bins (c, 0) (m, n % 256) stop run in
        subst (Nominated bins (suc n) c)
          (sym (ap (λ (r : (ℕ × ℕ) × Option (Reply TopologyError)). r.0.1) whole))
          (Nominated-here bins n c (omega (arith, small)) h many)
    | inl (run, few) ↦
        let c' = c + reached k.peer_filter (bin_at bins n) in
        let whole = each_bin-next (count_nearest k) n bins (c, 0) (c', 0) run in
        subst (Nominated bins (suc n) c)
          (sym (ap (λ (r : (ℕ × ℕ) × Option (Reply TopologyError)). r.0.1) whole))
          (Nominated-later bins n c _ (each_bin-Nominated bins n c' (omega (arith, small)) few))
  ]
