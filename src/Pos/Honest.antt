-- ===== src/Pos/Honest.antt =====
-- A node that stores a chunk proves it to a node that stores it too
-- (code/bee-snips-sup/pkg/pos/pos.go).
use phd.Base.{◌≤◌, ◌≡◌, refl, ap, some}
use phd.Base.Result.{ok}
use phd.Swarm.{Bytes, Address, Chunk}
use phd.Swarm.Proximity.{proximity}
use phd.Pos.{
  get_address, get_nonce, StorageProof, Response, Scheme, Node, gen_chunk_proof, create_response,
  process_challenge, handle_response,
}
use phd.Pos.Verified.{proof_hash, handle_response_iff}

module _ (scheme : Scheme) (prover verifier : Node scheme) where
  -- The prover can make proofs that the verifier takes: it knows the key that its signatures are
  -- recovered with, encodes and signs whatever it is given, stores the chunk with the data that the
  -- verifier stores for it, and its overlay address is near enough to the chunk.
  pub record CanProve (addr : Address) (src : Address) : Type 0 where
    pub key : scheme.PublicKey
    pub mine : Chunk
    pub theirs : Chunk
    pub public_key : prover.public_key ≡ some key
    pub marshals : (p : StorageProof) → (b : Bytes) × (scheme.marshal p ≡ some b)
    pub signs :
        (b : Bytes) → (sig : Bytes) × (prover.sign b ≡ some sig) × (scheme.recover sig b ≡ some key)
    pub owned : scheme.overlay key verifier.network_id prover.block_hash ≡ some src
    pub stored : prover.get addr ≡ ok mine
    pub known : verifier.get addr ≡ ok theirs
    pub same_data : mine.payload ≡ theirs.payload
    pub near : verifier.depth ≤ proximity src addr

  -- A node that can prove a chunk (its key signs, it stores the chunk with the verifier's data, it
  -- is near enough) answers every challenge for it with a response, which the verifier's
  -- handleResponse accepts as the node's.
  pub process_challenge_lem :
      (addr src : Address) (nonce : Bytes)
      → CanProve addr src
      → (resp : Response) × (process_challenge scheme prover
            (record { nonce = nonce; address = addr })
          ≡ ok resp)
        × (handle_response scheme verifier addr resp ≡ ok src)
  unfolding process_challenge gen_chunk_proof create_response get_address get_nonce
  process_challenge_lem addr src nonce c =
      let proof : StorageProof = record {
        challenge = some (record { nonce = nonce; address = addr });
        hash = proof_hash scheme prover c.key nonce c.mine.payload;
      } in
      let (b, marshalled) = c.marshals proof in
      let (sig, signed, recovered) = c.signs b in
      let resp : Response = record {
        proof = some proof;
        signature = sig;
        block_hash = prover.block_hash;
      } in
      (
        resp,
        rw (c.stored, c.public_key, marshalled, signed) refl,
        (handle_response_iff scheme verifier addr resp src).1 (record {
          proof = proof;
          bytes = b;
          key = c.key;
          chunk = c.theirs;
          present = refl;
          same_address = refl;
          marshalled = marshalled;
          recovered = recovered;
          owned = c.owned;
          stored = c.known;
          hashed = ap (proof_hash scheme prover c.key nonce) c.same_data;
          near = c.near;
        }),
      )
