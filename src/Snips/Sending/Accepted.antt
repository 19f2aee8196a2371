-- ===== src/Snips/Sending/Accepted.antt =====
-- A proof that a node sends is accepted by every neighbour that it reaches.
use phd.Base.{
  ◌≤◌, ◌<◌, ◌≡◌, refl, true, false, some, List, [], ◌∷◌, ◌&&◌, map, ltb, arith, if◌then◌else◌,
}
use phd.Base.Result.{ok}
use phd.Swarm.{Bytes, Address, equal_self}
use phd.Swarm.Proximity.{proximity}
use phd.Snips.Proof.{Library}
use phd.Snips.Protocol.{Proof, SignedProof, Node, verify_signature, proof_within, accept}
use phd.Snips.Radius.{created}
use phd.Snips.Sending.{
  Outlet, of_created, create_response, send_length, send_proof, send_to_all, send_created,
}

-- The neighbours that a message reaches, in order.
unfoldable pub reached : Outlet → List Address → List Address
reached outlet [] = []
reached outlet (a ∷ rest) =
    let more = reached outlet rest in if outlet.opens a && outlet.writes a then a ∷ more else more

send_to_all-reached :
    (outlet : Outlet) (signed : SignedProof) (proof : Proof) (neighbors : List Address)
    → signed.proof ≡ some proof
    → 0 < proof.length
    → send_to_all outlet signed neighbors ≡ map (λ a. (a, signed)) (reached outlet neighbors)
unfolding send_to_all send_proof send_length reached
send_to_all-reached outlet signed proof [] e h = refl
send_to_all-reached outlet signed proof (a ∷ rest) e h =
    rw (e) (ground (arith, send_to_all-reached outlet signed proof rest e h))

-- The sender of a proof: its key signs, and its overlay address is the receiver's peer.
pub record CanSign (outlet : Outlet) (lib : Library) (node : Node lib) (peer : Address)
    (proof : Proof) : Type 0 where
  pub key : node.PublicKey
  pub bb : lib.BBHash
  pub bytes : Bytes
  pub signature : Bytes
  pub marshalled : outlet.marshal proof ≡ some bytes
  pub same_encoding : node.marshal proof ≡ some bytes
  pub signed : outlet.sign bytes ≡ some signature
  pub recovered : node.recover signature bytes ≡ some key
  pub owned : node.overlay key node.network_id outlet.block_hash ≡ some peer
  pub near : node.depth ≤ proximity peer node.address
  pub enabled : node.enabled ≡ true
  pub readable : node.unmarshal proof.mphf ≡ some bb

-- A created proof of at least one chunk, from a node whose key signs it and whose overlay address
-- is near enough to a receiver that can read the hash and is enabled, is sent by
-- CreateAndSendProofForMyChunks, signed once, to exactly the neighbours whose stream opens and
-- takes it, in order, and the receiver's checks accept the signed proof from the sender.
pub send_created_lem :
    (outlet : Outlet) (lib : Library) (node : Node lib) (peer : Address) (proof : Proof)
    (neighbors : List Address)
    → 0 < proof.length
    → CanSign outlet lib node peer proof
    → (signed : SignedProof) × (bb : lib.BBHash) × (send_created outlet (created proof) neighbors
        ≡ (map (λ a. (a, signed)) (reached outlet neighbors), ok tt))
      × (accept lib node (some signed) peer ≡ ok (proof, bb))
      × (signed.proof ≡ some proof)
unfolding proof_within create_response accept send_created of_created verify_signature
send_created_lem outlet lib node peer proof neighbors some_chunks c =
    let signed : SignedProof = record {
      proof = some proof;
      signature = c.signature;
      block_hash = outlet.block_hash;
    } in
    let made : create_response outlet proof ≡ ok signed = rw (c.marshalled, c.signed) refl in
    let all = send_to_all-reached outlet signed proof neighbors refl some_chunks in
    let far : ltb (proximity peer node.address) node.depth ≡ false = ground (arith, c.near) in
    (
      signed,
      c.bb,
      rw (made, send_created) (rw (all) refl),
      rw (c.enabled, c.same_encoding, c.recovered, c.owned, far, equal_self peer, c.readable) refl,
      refl,
    )
