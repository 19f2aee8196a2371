-- ===== src/Kademlia/Closest/Sending.antt =====
-- Sending to the closest peer by the node's topology (code/bee-snips-sup/pkg/pos/sender/sender.go over
-- code/bee-snips-sup/pkg/topology/kademlia/kademlia.go).
use phd.Base.{
  ◌≡◌, ◌⊎◌, refl, sym, ◌∙◌, inl, inr, Bool, true, false, List, [], ◌∷◌, In, ◌==◌, ◌&&◌, Bool-cases,
  if◌then◌else◌,
}
use phd.Base.Result.{Result}
use phd.Swarm.{Address, equal, equal_iff, member_of}
use phd.Pos.Sender.{want_self, no_peer}
use phd.Pos.Sender.Attempts.{Attempts}
use phd.PSlice.{total}
use phd.Kademlia.{Kad, is_zero, chosen, initial, closest_peer}
use phd.Kademlia.Closest.{peers_of, visited, nearer, closest_peer-visited, visited-Stands}

member_of_In : (a : Address) (addrs : List Address) → In a addrs → member_of a addrs ≡ true
unfolding member_of
member_of_In a [] h = absurd h
member_of_In a (v ∷ addrs) (inl e) = rw ((equal_iff v a).1 e) refl
member_of_In a (v ∷ addrs) (inr h) = elim (Bool-cases (equal v a)) [
  | inl e ↦ rw (e) refl
  | inr e ↦ rw (e) (member_of_In a addrs h)
]

module _ (k : Kad) (addr : Address) (include_self reachable : Bool) where
  chosen-kept :
      (closest p : Address)
      → chosen k closest ≡ inr p
      → (closest ≡ p) × (is_zero closest ≡ false) × (equal closest k.base ≡ false)
  unfolding chosen
  chosen-kept closest p h = elim (Bool-cases (is_zero closest)) [
    | inl z ↦ let x : inl no_peer ≡ inr p = rw (z, chosen) at h in absurd cc
    | inr z ↦ elim (Bool-cases (equal closest k.base)) [
      | inl e ↦ let x : inl want_self ≡ inr p = rw (z, e, chosen) at h in absurd cc
      | inr e ↦ let x : inr closest ≡ inr p = rw (z, e, chosen) at h in (cc x, z, e)
    ]
  ]

  -- it starts from the node itself or from the zero address
  initial-cases : (initial k include_self ≡ k.base) ⊎ (initial k include_self ≡ [])
  unfolding initial
  initial-cases = elim (Bool-cases (include_self && k.reachability_public)) [
    | inl s ↦ inl (rw (s, initial) refl)
    | inr s ↦ inr (rw (s, initial) refl)
  ]

  pub closest_peer-fresh :
      (skip : List Address) (p : Address)
      → closest_peer k addr include_self reachable skip ≡ inr p
      → ¬ In p skip
  unfolding is_zero
  closest_peer-fresh skip p h i =
      let peers = peers_of k.connected_peers.peers in
      let r = visited (nearer k addr reachable skip) peers (initial k include_self) in
      let g : (if total k.connected_peers.peers == 0 then inl no_peer else chosen k r) ≡ inr p =
        sym (closest_peer-visited k addr reachable skip include_self) ∙ h in
      elim (Bool-cases (total k.connected_peers.peers == 0)) [
        | inl z ↦ let x : inl no_peer ≡ inr p = rw (z) at g in absurd cc
        | inr z ↦
            let x : chosen k r ≡ inr p = rw (z) at g in
            let (same, nz, other) = chosen-kept r p x in
            elim (visited-Stands k addr reachable skip (initial k include_self) peers) [
              | inr (j, f, m) ↦
                  let y : member_of p skip ≡ false = rw (← same) m in
                  let y' = member_of_In p skip i in absurd cc
              | inl e ↦ elim initial-cases [
                | inl b ↦ let y = (equal_iff r k.base).1 (e ∙ b) in absurd cc
                | inr b ↦ let y : is_zero r ≡ true = (equal_iff r []).1 (e ∙ b) in absurd cc
              ]
            ]
      ]
