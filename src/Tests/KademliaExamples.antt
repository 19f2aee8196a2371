-- ===== src/Tests/KademliaExamples.antt =====
-- The theorems on the choice of peers and the depth, on a node with a peer in each of four bins.
use phd.Base.{ℕ, refl, true, false, none, [], ◌∷◌}
use phd.Base.Result.{Result}
use phd.Swarm.{Address, equal}
use phd.PSlice.{PSlice, new}
use phd.Pos.Sender.{Transmission, unsent}
use phd.Pos.Sender.Attempts.{Attempts}
use phd.SkipPeers.{SkipList, adds_to_overdraft, call}
use phd.SkipPeers.Kept.{IsKept, call_lem}
use phd.PSlice.Bins.{holds}
use phd.Kademlia.{Kad, is_zero, closest_peer}
use phd.Kademlia.Closest.Best.{IsChoice, closest_peer_lem}
use phd.Kademlia.Calls.{Circumstances}
use phd.Kademlia.Calls.Reachable.{after, connects, disconnects}

abbrev base : Address
base = 0 ∷ 0 ∷ 0 ∷ 0 ∷ []

abbrev peer : ℕ → Address
peer n = n ∷ 1 ∷ 2 ∷ 3 ∷ []

-- a node with the peers that it is given
abbrev node_of : PSlice → Kad
node_of peers = record {
  base = base;
  connected_peers = peers;
  known_peers = peers;
  peer_filter = λ a. false;
  reachability_public = true;
  depth = 0;
  storage_radius = 9;
  ignore_storage_depth = false;
  common_bin_prefixes = [];
  bit_suffix_length = 4;
}

-- a peer in each bin
abbrev stored : PSlice
stored = record {
  peers = (peer 128 ∷ []) ∷ (peer 64 ∷ []) ∷ (peer 32 ∷ []) ∷ (peer 16 ∷ []) ∷ [];
  base_bytes = base;
  max_bins = 4;
}

closest_peer_lem_example :
    IsChoice
      (node_of stored)
      (peer 65)
      true
      (peer 64 ∷ [])
      true
      (closest_peer (node_of stored) (peer 65) true true (peer 64 ∷ []))
unfolding is_zero equal
closest_peer_lem_example =
    closest_peer_lem (node_of stored) (peer 65) true (peer 64 ∷ []) true refl refl
      ((refl, refl), ((refl, refl), ((refl, refl), ((refl, refl), tt))))

abbrev calm : Circumstances
calm = record {
  over_saturation = 100;
  static_node = λ a. false;
  pick = λ peers. none;
  bootnode = false;
  booted = true;
  announced = true;
}

abbrev one_peer : Kad
one_peer = after (connects calm (peer 128) false) (node_of (new 4 base))

abbrev none_left : Kad
none_left = after (disconnects (peer 128)) one_peer

-- a peer that is to be skipped for good
abbrev skipping : SkipList
skipping = record { overdraft_addresses = []; addresses = peer 64 ∷ [] }

call_lem_example :
    IsKept (adds_to_overdraft (peer 64)) skipping (call (adds_to_overdraft (peer 64)) skipping)
unfolding holds
call_lem_example =
    call_lem (adds_to_overdraft (peer 64)) skipping
      (record { once = (refl, tt); once_overdraft = tt })

-- no stream opens
abbrev refusing : Address → Transmission ℕ
refusing a = unsent
