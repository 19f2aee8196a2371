-- ===== src/Kademlia/Calls.antt =====
-- The calls that connect and disconnect peers (code/bee-snips-sup/pkg/topology/kademlia/kademlia.go).
-- Announcing, dialling and disconnecting a peer are outcomes that the caller supplies.
pub mod Reachable
use phd.Base.{
  ℕ, suc, Bool, true, false, ◌&&◌, not, Option, none, some, List, [], ◌∷◌, leb, ◌==◌, if◌then◌else◌,
}
use phd.Swarm.{Address}
use phd.Swarm.Proximity.{proximity}
use phd.PSlice.{PSlice, add, add_one, remove, bin_peers, Reply, go_on, each_bin}
use phd.Pos.Sender.{TopologyError}
use phd.Kademlia.{Kad, recalc_depth}

pub data Reachability : Type 0 where
  unknown_status public_status private_status : Reachability

pub data ConnectError : Type 0 where
  not_announced oversaturated no_random_peer : ConnectError

-- What a call of `Connected` leaves: the node, the peer that it disconnects, and the error.
pub record Connection : Type 0 where
  pub node : Kad
  pub kicked_out : Option Address
  pub failure : Option ConnectError

-- the callback of `binSaturated`
unfoldable pub count_in_bin : Kad → (Address → Bool) → ℕ → ℕ → Address → ℕ → ℕ × Reply TopologyError
count_in_bin k static_node bin size addr po =
    if po == bin && (not (k.peer_filter addr) && not (static_node addr))
    then (suc size, go_on)
    else (size, go_on)

-- `binSaturated`
unfoldable pub bin_saturated : ℕ → (Address → Bool) → Kad → ℕ → Bool
unfolding count_in_bin
bin_saturated amount static_node k bin =
    leb amount
      (each_bin (count_in_bin k static_node bin) k.connected_peers.max_bins k.connected_peers.peers
        0).0

-- the loop of `randomPeer`
unfoldable pub unprotected : (Address → Bool) → List Address → List Address
unprotected static_node [] = []
unprotected static_node (p ∷ peers) =
    let rest = unprotected static_node peers in if static_node p then rest else p ∷ rest

-- `randomPeer`, where `pick` draws one of the peers and may fail
unfoldable pub random_peer :
    (Address → Bool) → (List Address → Option Address) → Kad → ℕ → Option Address
unfolding unprotected
random_peer static_node pick k bin =
    elim (unprotected static_node (bin_peers bin k.connected_peers)) [
      | [] ↦ none
      | p ∷ peers ↦ pick (p ∷ peers)
    ]

-- `onConnected`
unfoldable pub on_connected : Bool → Kad → Address → Kad × Option ConnectError
unfolding recalc_depth
on_connected announced k addr =
    if announced
    then (
      recalc_depth (record k {
        known_peers = add (addr ∷ []) k.known_peers;
        connected_peers = add (addr ∷ []) k.connected_peers;
      }),
      none,
    )
    else (k, some not_announced)

-- What `Connected` depends on besides the node, and the outcome of the announcement.
pub record Circumstances : Type 0 where
  pub over_saturation : ℕ
  pub static_node : Address → Bool
  pub pick : List Address → Option Address
  pub bootnode : Bool
  pub booted : Bool
  pub announced : Bool

unfoldable pub as_connection : Option Address → Kad × Option ConnectError → Connection
as_connection kicked (k, failure) = record { node = k; kicked_out = kicked; failure = failure }

unfoldable pub refuse : Kad → ConnectError → Connection
refuse k e = record { node = k; kicked_out = none; failure = some e }

-- `Connected`
unfoldable pub connected : Circumstances → Kad → Address → Bool → Connection
unfolding bin_saturated random_peer on_connected as_connection refuse
connected c k address force =
    let po = proximity k.base address in
    let accepted = on_connected c.announced k address in
    if c.booted && bin_saturated c.over_saturation c.static_node k po
    then if c.bootnode
      then elim (random_peer c.static_node c.pick k po) [
        | none ↦ refuse k no_random_peer
        | some peer ↦ as_connection (some peer) accepted
      ]
      else if force
      then as_connection none accepted
      else refuse k oversaturated
    else as_connection none accepted

-- the end of `connectionAttemptsHandler`'s connection to a peer
unfoldable pub dialled : Kad → Address → Kad
unfolding recalc_depth
dialled k addr = recalc_depth (record k { connected_peers = add (addr ∷ []) k.connected_peers })

-- `Disconnected`
unfoldable pub disconnected : Kad → Address → Kad
unfolding recalc_depth
disconnected k addr = recalc_depth (record k { connected_peers = remove addr k.connected_peers })

-- `AddPeers`
unfoldable pub add_peers : List Address → Kad → Kad
add_peers addrs k = record k { known_peers = add addrs k.known_peers }

-- `Reachable`, with the filter that the metrics collector gives after the record
unfoldable pub reachable : Kad → (Address → Bool) → Reachability → Kad
unfolding recalc_depth
reachable k peer_filter public_status = recalc_depth (record k { peer_filter = peer_filter })
reachable k peer_filter private_status = record k { peer_filter = peer_filter }
reachable k peer_filter unknown_status = record k { peer_filter = peer_filter }

-- `UpdateReachability`
unfoldable pub update_reachability : Kad → Reachability → Kad
update_reachability k unknown_status = k
update_reachability k public_status = record k { reachability_public = true }
update_reachability k private_status = record k { reachability_public = false }
