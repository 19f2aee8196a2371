-- ===== src/Kademlia/Closest.antt =====
-- The closest peer (ClosestPeer in code/bee-snips-sup/pkg/topology/kademlia/kademlia.go).
pub mod Sending
pub mod Best
use phd.Base.{
  ℕ, suc, ◌+◌, ◌%◌, ◌≡◌, ◌≢◌, ◌⊎◌, refl, sym, ap, ◌∙◌, inl, inr, Bool, true, false, ◌&&◌, Option,
  none, some, List, [], ◌∷◌, ◌++◌, In, In-append_left, In-append_right, All, length, ltb, ◌==◌,
  arith, Bool-cases, Option-cases, if◌then◌else◌,
}
use mathlib.Core.Path.{subst}
use phd.Swarm.{
  Address, zero_address, equal, equal_iff, member_of, Comparison, below, same, above, compare_bytes,
}
use phd.Swarm.Distance.{Closeness, closer, equally_far, farther, distance_cmp, is_closer}
use phd.Swarm.Distance.Order.{is_closer_asym, is_closer_trans, is_closer_self}
use phd.PSlice.Visits.{visit_bin-go_on, each_bin_rev-next}
use phd.PSlice.{PSlice, Reply, go_on, skip_bin, stop, fail, visit_bin, each_bin_rev}
use phd.Pos.Sender.{TopologyError, want_self, no_peer}
use phd.Kademlia.{Kad, is_zero, filtered, consider, chosen, initial, closest_peer}

-- all peers, bin after bin
abbrev pub peers_of : List (List Address) → List Address
peers_of [] = []
peers_of (bin ∷ bins) = bin ++ peers_of bins

-- the state after a callback that never ends the iteration
unfoldable pub visited : {S : Type 0} → (S → Address → S) → List Address → S → S
visited step [] s = s
visited step (p ∷ peers) s = visited step peers (step s p)

visited-append :
    {S : Type 0} (step : S → Address → S) (xs ys : List Address) (s : S)
    → visited step (xs ++ ys) s ≡ visited step ys (visited step xs s)
unfolding visited
visited-append step [] ys s = refl
visited-append step (x ∷ xs) ys s = visited-append step xs ys (step s x)

module _ {E S : Type 0} (pf : S → Address → ℕ → S × Reply E) (step : S → Address → S)
    (on : (s : S) (p : Address) (i : ℕ) → pf s p i ≡ (step s p, go_on)) where
  visit_bin-visited :
      (i : ℕ) (peers : List Address) (s : S) → visit_bin pf i peers s ≡ (visited step peers s, none)
  unfolding visit_bin visited
  visit_bin-visited i [] s = refl
  visit_bin-visited i (p ∷ peers) s =
      visit_bin-go_on pf i p peers s (step s p) (on s p (i % 256))
      ∙ visit_bin-visited i peers (step s p)

  pub each_bin_rev-visited :
      (i : ℕ) (bins : List (List Address)) (s : S)
      → each_bin_rev pf i bins s ≡ (visited step (peers_of bins) s, none)
  unfolding each_bin_rev visited
  each_bin_rev-visited i [] s = refl
  each_bin_rev-visited i (bin ∷ bins) s =
      each_bin_rev-next pf i bin bins s (visited step bin s) (visit_bin-visited i bin s)
      ∙ each_bin_rev-visited (i + 1) bins (visited step bin s)
      ∙ ap (λ t. (t, none)) (sym (visited-append step bin (peers_of bins) s))

module _ (k : Kad) (addr : Address) (reachable : Bool) (skip : List Address) where
  -- a turn of `ClosestPeer`'s callback
  unfoldable pub nearer : Address → Address → Address
  nearer closest peer =
      if reachable && k.peer_filter peer
      then closest
      else if member_of peer skip
      then closest
      else if is_zero closest
      then peer
      else if is_closer peer addr closest
      then peer
      else closest

  filtered-nearer :
      (closest peer : Address) (i : ℕ)
      → filtered k reachable (consider addr skip) closest peer i ≡ (nearer closest peer, go_on)
  unfolding filtered consider nearer
  filtered-nearer closest peer i = ground arith

  pub closest_peer-visited :
      (include_self : Bool)
      → closest_peer k addr include_self reachable skip ≡ (
          if phd.PSlice.total k.connected_peers.peers == 0
          then inl no_peer
          else chosen k
              (visited nearer (peers_of k.connected_peers.peers) (initial k include_self)))
  unfolding closest_peer
  closest_peer-visited include_self =
      rw
        (each_bin_rev-visited (filtered k reachable (consider addr skip)) nearer filtered-nearer 0
          k.connected_peers.peers (initial k include_self))
        refl

  -- a peer that the callback looks at
  pub record IsEligible (p : Address) : Type 0 where
    pub connected : In p (peers_of k.connected_peers.peers)
    pub reached : (reachable && k.peer_filter p) ≡ false
    pub not_skipped : member_of p skip ≡ false

  -- the choice is where it started or an eligible peer
  abbrev pub Stands : Address → List Address → Address → Type 0
  Stands start peers r =
      (r ≡ start)
      ⊎ (In r peers × ((reachable && k.peer_filter r) ≡ false) × (member_of r skip ≡ false))

  nearer-Stands : (start p : Address) → Stands start (p ∷ []) (nearer start p)
  unfolding nearer
  nearer-Stands start p = elim (Bool-cases (reachable && k.peer_filter p)) [
    | inl f ↦ inl (rw (f) refl)
    | inr f ↦ elim (Bool-cases (member_of p skip)) [
      | inl m ↦ inl (rw (f, m) refl)
      | inr m ↦ elim (Bool-cases (is_zero start)) [
        | inl z ↦ inr (rw (f, m, z) (inl refl, f, m))
        | inr z ↦ elim (Bool-cases (is_closer p addr start)) [
          | inl c ↦ inr (rw (f, m, z, c) (inl refl, f, m))
          | inr c ↦ inl (rw (f, m, z, c) refl)
        ]
      ]
    ]
  ]

  pub visited-Stands :
      (start : Address) (peers : List Address) → Stands start peers (visited nearer peers start)
  unfolding visited
  visited-Stands start [] = inl refl
  visited-Stands start (p ∷ peers) = elim (visited-Stands (nearer start p) peers) [
    | inr (i, f, m) ↦ inr (inr i, f, m)
    | inl e ↦ elim (nearer-Stands start p) [
      | inl g ↦ inl (e ∙ g)
      | inr (i, f, m) ↦
          let here : In (nearer start p) (p ∷ peers) = elim i [
            | inl g ↦ inl g
            | inr x ↦ absurd x
          ] in
          subst (λ z. Stands start (p ∷ peers) z) (sym e) (inr (here, f, m))
    ]
  ]
