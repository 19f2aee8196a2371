-- ===== src/Snips/Protocol/Accepted.antt =====
-- Only a proof that its sender created, in the neighbourhood, is acted on, and a message without one stops the node.
use phd.Base.{
  ◌≤◌, ◌≡◌, ◌⊎◌, inl, inr, refl, true, Option, none, some, ltb, arith, Bool-cases, Option-cases,
}
use phd.Base.Result.{ok, err}
use phd.Swarm.{Address}
use phd.Swarm.Proximity.{proximity}
use phd.Snips.Proof.{Library}
use phd.Snips.Protocol.{
  Proof, SignedProof, Failure, not_marshalled, invalid_signature, no_source, outside_neighborhood,
  Node, verify_signature, proof_within,
}

module _ (lib : Library) (node : Node lib) where
  -- the public key that signed the proof belongs to the peer, and the peer is near enough
  pub record IsVerified (signed : SignedProof) (proof : Proof) (peer : Address) : Type 0 where
    pub bytes : phd.Swarm.Bytes
    pub key : node.PublicKey
    pub within : signed.proof ≡ some proof
    pub marshalled : node.marshal proof ≡ some bytes
    pub recovered : node.recover signed.signature bytes ≡ some key
    pub owned : node.overlay key node.network_id signed.block_hash ≡ some peer
    pub near : node.depth ≤ proximity peer node.address

  verified :
      (signed : SignedProof) (proof : Proof)
      → signed.proof ≡ some proof
      → ((src : Address) × (verify_signature lib node signed ≡ ok src)
          × IsVerified signed proof src)
        ⊎ ((f : Failure) × (verify_signature lib node signed ≡ err f))
  unfolding verify_signature proof_within
  verified signed proof p = elim (Option-cases (node.marshal proof)) [
    | inl a ↦ inr (not_marshalled, rw (p, a) refl)
    | inr (bytes, a) ↦ elim (Option-cases (node.recover signed.signature bytes)) [
      | inl b ↦ inr (invalid_signature, rw (p, a, b) refl)
      | inr (key, b) ↦ elim (Option-cases (node.overlay key node.network_id signed.block_hash)) [
        | inl c ↦ inr (no_source, rw (p, a, b, c) refl)
        | inr (src, c) ↦ elim (Bool-cases (ltb (proximity src node.address) node.depth)) [
          | inl d ↦ inr (outside_neighborhood, rw (p, a, b, c, d) refl)
          | inr d ↦ inl (
            src,
            rw (p, a, b, c, d) refl,
            record {
              bytes = bytes;
              key = key;
              within = p;
              marshalled = a;
              recovered = b;
              owned = c;
              near = ground arith;
            },
          )
        ]
      ]
    ]
  ]

  -- a proof that was read, created by the peer, with a hash that can be read
  pub record IsAccepted (incoming : Option SignedProof) (peer : Address) : Type 0 where
    pub signed : SignedProof
    pub proof : Proof
    pub bb : lib.BBHash
    pub on : node.enabled ≡ true
    pub arrived : incoming ≡ some signed
    pub verified : IsVerified signed proof peer
    pub unmarshalled : node.unmarshal proof.mphf ≡ some bb

  -- a message that was read and has no proof
  pub record IsBare (incoming : Option SignedProof) : Type 0 where
    pub signed : SignedProof
    pub on : node.enabled ≡ true
    pub arrived : incoming ≡ some signed
    pub no_proof : signed.proof ≡ none
