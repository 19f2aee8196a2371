-- ===== src/Pos/Verified.antt =====
-- What a response must hold to be accepted (code/bee-snips-sup/pkg/pos/pos.go).
use phd.Base.{
  ◌≤◌, ◌≡◌, ◌↔◌, ◌++◌, refl, sym, ap, ◌∙◌, Bool, true, false, not, Option, none, some, [], inl, inr,
  ltb, arith, Bool-cases, Option-cases, if◌then◌else◌,
}
use phd.Base.Result.{Result, ok, err, panic, >>=-eq-ok}
use phd.Swarm.{Bytes, Address, Chunk, equal, equal_iff}
use phd.Swarm.Proximity.{proximity}
use phd.Pos.{
  StorageProof, Response, get_address, get_nonce, ProofError, not_marshalled, no_source,
  invalid_signature, invalid_proof, shallow_response, wrong_address, Scheme, Node, or_error,
  or_missing, gen_chunk_proof, verify_proof, handle_proof, handle_response, handle_absent,
}

module _ (scheme : Scheme) (node : Node scheme) where
  -- The hash that the holder of a key must send for the data of a chunk.
  abbrev pub proof_hash : scheme.PublicKey → Bytes → Bytes → Bytes
  proof_hash pk nonce data_ = scheme.hash (scheme.encode_key pk ++ scheme.hash (nonce ++ data_))

  -- A response for the chunk at an address that the node of another address signed, with the hash
  -- of the node's own copy of the chunk, from near enough.
  pub record IsProof (addr : Address) (resp : Response) (src : Address) : Type 0 where
    pub proof : StorageProof
    pub bytes : Bytes
    pub key : scheme.PublicKey
    pub chunk : Chunk
    pub present : resp.proof ≡ some proof
    pub same_address : addr ≡ get_address proof.challenge
    pub marshalled : scheme.marshal proof ≡ some bytes
    pub recovered : scheme.recover resp.signature bytes ≡ some key
    pub owned : scheme.overlay key node.network_id resp.block_hash ≡ some src
    pub stored : node.get addr ≡ ok chunk
    pub hashed : proof.hash ≡ proof_hash key (get_nonce proof.challenge) chunk.payload
    pub near : node.depth ≤ proximity src addr

  pub or_error-eq-ok :
      {A : Type 0} {a : A} (e : ProofError) (o : Option A) → or_error e o ≡ ok a → o ≡ some a
  or_error-eq-ok e none h = cc
  or_error-eq-ok e (some b) h = cc

  or_missing-eq-ok :
      {c : Chunk} (r : Result phd.Pos.StoreError Chunk) → or_missing r ≡ ok c → r ≡ ok c
  or_missing-eq-ok (ok b) h = cc
  or_missing-eq-ok (err b) h = cc
  or_missing-eq-ok panic h = cc

  accepts :
      (addr : Address) (resp : Response) (src : Address)
      → IsProof addr resp src
      → handle_response scheme node addr resp ≡ ok src
  unfolding handle_response handle_proof verify_proof gen_chunk_proof
  accepts addr resp src p =
      let far : ltb (proximity src addr) node.depth ≡ false = ground (arith, p.near) in
      let here : equal addr (get_address p.proof.challenge) ≡ true =
        (equal_iff addr (get_address p.proof.challenge)).1 p.same_address in
      let right : equal (proof_hash p.key (get_nonce p.proof.challenge) p.chunk.payload)
            p.proof.hash
          ≡ true =
        (equal_iff (proof_hash p.key (get_nonce p.proof.challenge) p.chunk.payload) p.proof.hash).1
          (sym p.hashed) in
      rw (p.present, here, p.marshalled, p.recovered, p.owned, p.stored, right, far) refl

  -- a comparison that decides between an error and a value was the one for the value
  test-eq-ok :
      {A : Type 0} {a : A} (t : Bool) (b : A) (e : ProofError)
      → (if t then ok b else err e) ≡ ok a
      → (t ≡ true) × (b ≡ a)
  test-eq-ok true b e h = (refl, cc)
  test-eq-ok false b e h = absurd cc

  guard-eq-ok :
      {A : Type 0} {a : A} (t : Bool) (e : ProofError) (rest : Result ProofError A)
      → (if t then err e else rest) ≡ ok a
      → (t ≡ false) × (rest ≡ ok a)
  guard-eq-ok true e rest h = absurd cc
  guard-eq-ok false e rest h = (refl, h)

  verify_proof-eq-ok :
      (addr : Address) (pk : scheme.PublicKey) (proof : StorageProof) (u : Unit {0})
      → verify_proof scheme node addr pk proof ≡ ok u
      → (c : Chunk) × (node.get addr ≡ ok c)
        × (proof.hash ≡ proof_hash pk (get_nonce proof.challenge) c.payload)
  unfolding verify_proof gen_chunk_proof
  verify_proof-eq-ok addr pk proof u h =
      let (cp, g, t) =
        >>=-eq-ok (gen_chunk_proof scheme node addr (get_nonce proof.challenge)) _ h in
      let (c, m, e) = >>=-eq-ok (or_missing (node.get addr)) _ g in
      let (same, _) =
        test-eq-ok (equal (scheme.hash (scheme.encode_key pk ++ cp)) proof.hash) tt invalid_proof
          t in
      let q = (equal_iff (scheme.hash (scheme.encode_key pk ++ cp)) proof.hash).0 same in
      (c, or_missing-eq-ok (node.get addr) m, cc)

  proves :
      (addr : Address) (resp : Response) (src : Address) (proof : StorageProof)
      → resp.proof ≡ some proof
      → handle_proof scheme node addr resp proof ≡ ok src
      → IsProof addr resp src
  unfolding handle_proof
  proves addr resp src proof present h =
      let (here, h1) =
        guard-eq-ok (not (equal addr (get_address proof.challenge))) wrong_address _ h in
      let (bytes, a, h2) = >>=-eq-ok (or_error not_marshalled (scheme.marshal proof)) _ h1 in
      let (pk, b, h3) =
        >>=-eq-ok (or_error invalid_signature (scheme.recover resp.signature bytes)) _ h2 in
      let (source, c, h4) =
        >>=-eq-ok (or_error no_source (scheme.overlay pk node.network_id resp.block_hash)) _ h3 in
      let (u, d, h5) = >>=-eq-ok (verify_proof scheme node addr pk proof) _ h4 in
      let (near, e) =
        guard-eq-ok (ltb (proximity source addr) node.depth) shallow_response (ok source) h5 in
      let (chunk, stored, hashed) = verify_proof-eq-ok addr pk proof u d in
      let at : source ≡ src = cc in
      record {
        proof = proof;
        bytes = bytes;
        key = pk;
        chunk = chunk;
        present = present;
        same_address = (equal_iff addr (get_address proof.challenge)).0 (ground (arith, here));
        marshalled = or_error-eq-ok not_marshalled (scheme.marshal proof) a;
        recovered = or_error-eq-ok invalid_signature (scheme.recover resp.signature bytes) b;
        owned =
            or_error-eq-ok no_source (scheme.overlay pk node.network_id resp.block_hash) c
            ∙ ap some at;
        stored = stored;
        hashed = hashed;
        near = rw (← at) (ground (arith, near));
      }

  absent-fails : (addr src : Address) → handle_absent scheme node addr ≡ ok src → ⊥
  unfolding handle_absent
  absent-fails addr src h = elim (Bool-cases (not (equal addr []))) [
    | inl t ↦ let x : err wrong_address ≡ ok src = rw (t) at h in cc
    | inr t ↦ let x : panic ≡ ok src = rw (t) at h in cc
  ]

  -- HandleResponse accepts a response for the chunk at an address, as one of the node at another
  -- address, exactly when that node's key signed a proof for the chunk's address, with the hash of
  -- the key, the proof's nonce and the verifier's own copy of the chunk, from at least the
  -- neighbourhood depth.
  pub handle_response_iff :
      (addr : Address) (resp : Response) (src : Address)
      → (handle_response scheme node addr resp ≡ ok src) ↔ IsProof addr resp src
  unfolding handle_response handle_absent
  handle_response_iff addr resp src = (to, accepts addr resp src)
    where
      to : handle_response scheme node addr resp ≡ ok src → IsProof addr resp src
      to h = elim (Option-cases resp.proof) [
        | inl e ↦ absurd (absent-fails addr src (rw (e) at h))
        | inr (proof, e) ↦ proves addr resp src proof e (rw (e) at h)
      ]
