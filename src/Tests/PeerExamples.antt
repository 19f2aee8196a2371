-- ===== src/Tests/PeerExamples.antt =====
-- The theorems on peers, on a node with four bins.
use phd.Base.{suc, ◌≡◌, refl, true, false, if◌then◌else◌, [], ◌∷◌, arith}
use phd.Swarm.{Address, equal}
use phd.Swarm.Proximity.{proximity}
use phd.PSlice.{PSlice, new, add_one, remove, exists, total}
use phd.PSlice.Members.{IsPlaced, new-IsPlaced}
use phd.PSlice.Adding.{add_one_lem}
use phd.PSlice.Removing.{remove_lem}

abbrev base : Address
base = 0 ∷ 0 ∷ 0 ∷ 0 ∷ []

abbrev peer : Address
peer = 64 ∷ 1 ∷ 2 ∷ 3 ∷ []

empty-IsPlaced : IsPlaced (new 4 base)
empty-IsPlaced = new-IsPlaced 4 base (omega arith) (omega arith)

abbrev one_peer : PSlice
one_peer = add_one peer (new 4 base)

add_one_lem_example :
    IsPlaced (add_one peer (new 4 base))
    × ((b : Address)
        → exists b (add_one peer (new 4 base))
          ≡ (if equal peer b then true else exists b (new 4 base)))
    × (total (add_one peer (new 4 base)).peers ≡ (
        if exists peer (new 4 base)
        then total (new 4 base).peers
        else suc (total (new 4 base).peers)))
add_one_lem_example = add_one_lem peer (new 4 base) empty-IsPlaced

remove_lem_example :
    IsPlaced (remove peer one_peer)
    × ((b : Address)
        → exists b (remove peer one_peer) ≡ (if equal peer b then false else exists b one_peer))
    × ((if exists peer one_peer
          then suc (total (remove peer one_peer).peers)
          else total (remove peer one_peer).peers)
        ≡ total one_peer.peers)
remove_lem_example = remove_lem peer one_peer (add_one_lem peer (new 4 base) empty-IsPlaced).0

absent : exists peer (new 4 base) ≡ false
unfolding exists new proximity
absent = refl
