-- ===== src/Kademlia.antt =====
-- The peers that a node chooses and its depth (code/bee-snips-sup/pkg/topology/kademlia/kademlia.go).
-- The worker that connects to peers and its wait groups, channels and locks are left out.
pub mod Closest
pub mod Reached
pub mod Saturated
pub mod Candidate
pub mod Depth
pub mod Calls
use phd.Base.{
  ℕ, suc, ◌+◌, Bool, true, false, ◌||◌, ◌&&◌, not, Option, none, some, List, [], ◌∷◌, leb, ltb,
  ◌==◌, if◌then◌else◌, ◌⊎◌, inl, inr,
}
use phd.Base.Result.{Result, ok, err, panic}
use phd.Swarm.{Address, zero_address, equal, member_of}
use phd.Swarm.Proximity.{proximity, extended_proximity}
use phd.Swarm.Distance.{Closeness, closer, equally_far, farther, distance_cmp, is_closer}
use phd.PSlice.{
  PSlice, bin_at, total, shallowest_empty, Reply, go_on, skip_bin, stop, fail, each_bin,
  each_bin_rev,
}
use phd.Pos.Sender.{TopologyError, want_self, no_peer}

-- The state of `Kad` that the choices read. A peer that is unreachable is filtered out.
pub record Kad : Type 0 where
  pub base : Address
  pub connected_peers : PSlice
  pub known_peers : PSlice
  pub peer_filter : Address → Bool
  pub reachability_public : Bool
  pub depth : ℕ
  pub storage_radius : ℕ
  pub ignore_storage_depth : Bool
  pub common_bin_prefixes : List (List Address)
  pub bit_suffix_length : ℕ

abbrev pub nn_low_watermark : ℕ
nn_low_watermark = 3

abbrev pub saturation_peers : ℕ
saturation_peers = 8

-- `IsZero`
unfoldable pub is_zero : Address → Bool
is_zero a = equal a zero_address

-- `EachPeerRev`, and `EachPeer` likewise
unfoldable pub filtered :
    {E S : Type 0} → Kad → Bool → (S → Address → ℕ → S × Reply E) → S → Address → ℕ → S × Reply E
filtered k reachable pf s peer po =
    if reachable && k.peer_filter peer then (s, go_on) else pf s peer po

-- the callback of `ClosestPeer`
unfoldable pub consider :
    Address → List Address → Address → Address → ℕ → Address × Reply TopologyError
unfolding is_zero is_closer
consider addr skip closest peer po =
    if member_of peer skip
    then (closest, go_on)
    else if is_zero closest
    then (peer, go_on)
    else if is_closer peer addr closest
    then (peer, go_on)
    else (closest, go_on)

-- the end of `ClosestPeer`
unfoldable pub chosen : Kad → Address → TopologyError ⊎ Address
unfolding is_zero
chosen k closest =
    if is_zero closest
    then inl no_peer
    else if equal closest k.base
    then inl want_self
    else inr closest

-- what `ClosestPeer` starts from
unfoldable pub initial : Kad → Bool → Address
initial k include_self = if include_self && k.reachability_public then k.base else zero_address

-- `ClosestPeer`
unfoldable pub closest_peer : Kad → Address → Bool → Bool → List Address → TopologyError ⊎ Address
unfolding filtered consider chosen initial
closest_peer k addr include_self reachable skip =
    if total k.connected_peers.peers == 0
    then inl no_peer
    else chosen k
        (each_bin_rev (filtered k reachable (consider addr skip)) 0 k.connected_peers.peers
          (initial k include_self)).0

-- `IsWithinDepth`
unfoldable pub is_within_depth : Kad → Address → Bool
is_within_depth k addr = leb k.depth (proximity k.base addr)

-- the callback that `EachNeighbor` passes on
unfoldable pub in_neighborhood :
    {E S : Type 0} → ℕ → (S → Address → ℕ → S × Reply E) → S → Address → ℕ → S × Reply E
in_neighborhood depth f s a po = if ltb po depth then (s, stop) else f s a po

-- `EachNeighbor`
unfoldable pub each_neighbor :
    {E S : Type 0} → Kad → (S → Address → ℕ → S × Reply E) → S → S × Option (Reply E)
unfolding in_neighborhood
each_neighbor k f s =
    each_bin (in_neighborhood k.depth f) k.connected_peers.max_bins k.connected_peers.peers s

-- What the first loop of `recalcDepth` keeps.
pub record Saturation : Type 0 where
  pub bin_count : ℕ
  pub shallowest_unsaturated : ℕ

unfoldable pub saturate : Kad → Saturation → Address → ℕ → Saturation × Reply TopologyError
saturate k s addr bin =
    if k.peer_filter addr
    then (s, go_on)
    else if bin == s.shallowest_unsaturated
    then (record s { bin_count = suc s.bin_count }, go_on)
    else if ltb s.shallowest_unsaturated bin && ltb s.bin_count saturation_peers
    then (s, stop)
    else (record { bin_count = 1; shallowest_unsaturated = bin }, go_on)

-- the second loop of `recalcDepth`: the peers seen, and the candidate
unfoldable pub count_nearest : Kad → ℕ × ℕ → Address → ℕ → (ℕ × ℕ) × Reply TopologyError
count_nearest k s addr po =
    if k.peer_filter addr
    then (s, go_on)
    else if leb nn_low_watermark (suc s.0)
    then ((suc s.0, po), stop)
    else ((suc s.0, s.1), go_on)

-- the three bounds that `recalcDepth` puts on the depth
unfoldable pub up_to_empty : ℕ × Bool → ℕ → ℕ
up_to_empty (empty, no_empty_bins) depth =
    if not no_empty_bins && ltb empty depth then empty else depth

unfoldable pub up_to_storage : Kad → ℕ → ℕ
up_to_storage k depth =
    if ltb k.storage_radius depth && not k.ignore_storage_depth then k.storage_radius else depth

unfoldable pub up_to_candidate : ℕ → ℕ → ℕ
up_to_candidate candidate depth = if ltb candidate depth then candidate else depth

-- the depth that `recalcDepth` computes
unfoldable pub new_depth : Kad → ℕ
unfolding saturate count_nearest up_to_empty up_to_storage up_to_candidate
new_depth k =
    let peers = k.connected_peers.peers in
    let saturation =
      (each_bin_rev (saturate k) 0 peers
        (record { bin_count = 0; shallowest_unsaturated = 0 })).0 in
    let nearest = (each_bin (count_nearest k) k.connected_peers.max_bins peers (0, 0)).0 in
    if leb (total peers) nn_low_watermark
    then 0
    else up_to_candidate nearest.1
        (up_to_storage k (up_to_empty (shallowest_empty 0 peers) saturation.shallowest_unsaturated))

-- `recalcDepth`
unfoldable pub recalc_depth : Kad → Kad
unfolding new_depth
recalc_depth k = record k { depth = new_depth k }

-- `SetStorageRadius`, with whether the other workers are notified
unfoldable pub set_storage_radius : Kad → ℕ → Kad × Bool
unfolding recalc_depth
set_storage_radius k d =
    let k' = recalc_depth (record k { storage_radius = d }) in
    if k.storage_radius == d then (k, false) else (k', not (k.depth == k'.depth))

-- the callback of `closestPeerFunc`, where an address of another length is an error
unfoldable pub consider_sanctioned :
    (Address → Bool) → Address → Address → Address → ℕ → Address × Reply (Unit {0})
unfolding is_zero
consider_sanctioned sanctioned addr closest peer po =
    if sanctioned peer
    then (closest, go_on)
    else if is_zero closest
    then (peer, go_on)
    else elim (distance_cmp addr peer closest) [
      | none ↦ (closest, fail tt)
      | some closer ↦ (peer, go_on)
      | some equally_far ↦ (closest, go_on)
      | some farther ↦ (closest, go_on)
    ]

-- `closestPeer`: `none` is an error
unfoldable pub closest_unsanctioned : PSlice → Address → (Address → Bool) → Option Address
unfolding consider_sanctioned is_zero
closest_unsanctioned peers addr sanctioned =
    let (closest, ended) =
      each_bin_rev (consider_sanctioned sanctioned addr) 0 peers.peers zero_address in
    elim ended [ some _ ↦ none | none ↦ if is_zero closest then none else some closest ]

-- the loop of `IsBalanced` over the pseudo addresses of a bin
unfoldable pub balanced_to : Kad → ℕ → List Address → Bool
unfolding closest_unsanctioned
balanced_to k bin [] = true
balanced_to k bin (pseudo ∷ rest) =
    let more = balanced_to k bin rest in
    elim (closest_unsanctioned k.connected_peers pseudo (λ p. false)) [
      | none ↦ false
      | some peer ↦
          if ltb (extended_proximity peer pseudo) (bin + k.bit_suffix_length + 1)
          then false
          else more
    ]

-- `IsBalanced`: the bin one past the last passes the test and is out of range
unfoldable pub is_balanced : Kad → ℕ → Result (Unit {0}) Bool
unfolding balanced_to
is_balanced k bin =
    let n = phd.Base.length k.common_bin_prefixes in
    if ltb n bin
    then ok false
    else if bin == n
    then panic
    else ok (balanced_to k bin (bin_at k.common_bin_prefixes bin))
