-- ===== src/Kademlia/Calls/Reachable.antt =====
-- Every state that the calls of a node reach (code/bee-snips-sup/pkg/topology/kademlia/kademlia.go).
use phd.Base.{Option, none, some, ℕ, ◌≤◌, ◌<◌, ◌≡◌, Bool, List, ◌==◌, if◌then◌else◌}
use phd.Swarm.{Address}
use phd.PSlice.{PSlice, new}
use phd.PSlice.Members.{IsPlaced}
use phd.Kademlia.{Kad, set_storage_radius}
use phd.Kademlia.Depth.{IsDepth}
use phd.Kademlia.Calls.{
  Connection, ConnectError, Reachability, unknown_status, public_status, private_status,
  Circumstances, connected, dialled, disconnected, add_peers, reachable, update_reachability,
}

-- The calls, with their arguments and outcomes.
pub data PeerCall : Type 0 where
  connects : Circumstances → Address → Bool → PeerCall
  dials disconnects : Address → PeerCall
  adds : List Address → PeerCall
  reaches : (Address → Bool) → Reachability → PeerCall
  updates : Reachability → PeerCall
  sets : ℕ → PeerCall

-- the node after a call
abbrev pub after : PeerCall → Kad → Kad
after (connects c a force) k = (connected c k a force).node
after (dials a) k = dialled k a
after (disconnects a) k = disconnected k a
after (adds addrs) k = add_peers addrs k
after (reaches peer_filter status) k = reachable k peer_filter status
after (updates status) k = update_reachability k status
after (sets radius) k = (set_storage_radius k radius).0

abbrev pub unless_failed :
    Option ConnectError → (Address → Bool) → (Address → Bool) → Address → Bool
unless_failed none filter seen = filter
unless_failed (some e) filter seen = seen

abbrev pub if_public : Reachability → (Address → Bool) → (Address → Bool) → Address → Bool
if_public public_status filter seen = filter
if_public private_status filter seen = seen
if_public unknown_status filter seen = seen

-- The test of reachability that the depth was last computed with, after a call: the node's, or the
-- earlier one where the call is refused or has no need of a new depth.
abbrev pub seen_after : PeerCall → Kad → (Address → Bool) → Address → Bool
seen_after (connects c a force) k seen =
    unless_failed (connected c k a force).failure k.peer_filter seen
seen_after (dials a) k seen = k.peer_filter
seen_after (disconnects a) k seen = k.peer_filter
seen_after (adds addrs) k seen = seen
seen_after (reaches peer_filter status) k seen = if_public status peer_filter seen
seen_after (updates status) k seen = seen
seen_after (sets radius) k seen = if k.storage_radius == radius then seen else k.peer_filter

-- A node, with the test of reachability that its depth was last computed with. A new node has no
-- peer in any bin and depth 0.
pub data Reachable : Kad → (Address → Bool) → Type 0 where
  starts :
      (k : Kad) (n : ℕ)
      → 0 < n
      → n ≤ 256
      → k.connected_peers ≡ new n k.base
      → k.depth ≡ 0
      → Reachable k k.peer_filter
  goes_on :
      {k : Kad} {seen : Address → Bool} (c : PeerCall)
      → Reachable k seen
      → Reachable (after c k) (seen_after c k seen)

-- The peers are in their bins, and the depth fits those that were reachable then.
pub record IsWorking (k : Kad) (seen : Address → Bool) : Type 0 where
  pub placed : IsPlaced k.connected_peers
  pub depth_fits : IsDepth (record k { peer_filter = seen }) k.depth

-- What a connection leaves fits the test that it was computed with.
abbrev Fits : (Address → Bool) → (Address → Bool) → Connection → Type 0
Fits filter seen r = IsWorking r.node (unless_failed r.failure filter seen)
