-- ===== src/Pos/Reupload/Outcome.antt =====
-- How a chunk comes to be proved, reuploaded or given up (code/bee-snips-sup/pkg/pos/pos.go).
use phd.Base.{
  ◌≡◌, ◌≢◌, ◌⊎◌, refl, sym, ◌∙◌, inl, inr, Bool, true, false, not, Option, none, some, [], ltb,
  Bool-cases, Option-cases, if◌then◌else◌,
}
use phd.Base.Result.{
  Result, ok, err, panic, ok-injective, ok-calm, err-calm, >>=-calm, Result-cases,
}
use phd.Swarm.{Bytes, Address, Chunk, equal, equal_iff}
use phd.Swarm.Proximity.{proximity}
use phd.Pos.{
  Challenge, Response, StorageProof, get_address, ProofError, invalid_proof, shallow_response,
  wrong_address, not_marshalled, invalid_signature, no_source, Scheme, Node, or_error, or_missing,
  gen_chunk_proof, verify_proof, handle_proof, handle_absent, handle_response,
}
use phd.Pos.Verified.{IsProof, handle_response_iff}
use phd.Pos.Sender.{want_self, no_peer, SendError, topology, no_response, not_sent}
use phd.Pos.Reupload.{
  errored, proved, reuploaded, ChunkStatus, PushError, push_to_self, push_failed, not_pushed,
  store_error, Failure, swallow_self, push_chunk, reupload_unproved, reupload_sent,
}

module _ (scheme : Scheme) (node : Node scheme) where
  or_error-calm : {A : Type 0} (e : ProofError) (o : Option A) → or_error e o ≢ panic
  or_error-calm e none = λ h. cc
  or_error-calm e (some a) = λ h. cc

  or_missing-calm : (r : Result phd.Pos.StoreError Chunk) → r ≢ panic → or_missing r ≢ panic
  or_missing-calm (ok c) a = λ h. cc
  or_missing-calm (err e) a = λ h. cc
  or_missing-calm panic a = absurd (a refl)

  test-calm :
      {A : Type 0} (t : Bool) (a b : Result ProofError A)
      → a ≢ panic
      → b ≢ panic
      → (if t then a else b) ≢ panic
  test-calm true a b p q = p
  test-calm false a b p q = q

  gen_chunk_proof-calm :
      ((a : Address) → node.get a ≢ panic)
      → (addr : Address) (nonce : Bytes) → gen_chunk_proof scheme node addr nonce ≢ panic
  unfolding gen_chunk_proof
  gen_chunk_proof-calm calm addr nonce =
      >>=-calm (or_missing (node.get addr)) _ (or_missing-calm (node.get addr) (calm addr))
        (λ c h. cc)

  verify_proof-calm :
      ((a : Address) → node.get a ≢ panic)
      → (addr : Address) (pk : scheme.PublicKey) (proof : StorageProof)
      → verify_proof scheme node addr pk proof ≢ panic
  unfolding verify_proof
  verify_proof-calm calm addr pk proof =
      >>=-calm _ _ (gen_chunk_proof-calm calm addr _)
        (λ cp. test-calm _ _ _ (ok-calm tt) (err-calm invalid_proof))

  handle_proof-calm :
      ((a : Address) → node.get a ≢ panic)
      → (addr : Address) (resp : Response) (proof : StorageProof)
      → handle_proof scheme node addr resp proof ≢ panic
  unfolding handle_proof
  handle_proof-calm calm addr resp proof =
      test-calm (not (equal addr (get_address proof.challenge))) _ _ (err-calm wrong_address) (
        >>=-calm (or_error not_marshalled (scheme.marshal proof)) _ (or_error-calm _ _) (λ bytes.
          >>=-calm (or_error invalid_signature (scheme.recover resp.signature bytes)) _
            (or_error-calm _ _)
            (λ pk.
              >>=-calm (or_error no_source (scheme.overlay pk node.network_id resp.block_hash)) _
                (or_error-calm _ _)
                (λ src.
                  >>=-calm (verify_proof scheme node addr pk proof) _
                    (verify_proof-calm calm addr pk proof)
                    (λ u.
                      test-calm (ltb (proximity src addr) node.depth) _ _
                        (err-calm shallow_response) (ok-calm src))))))

  handle_absent-calm : (addr : Address) → addr ≢ [] → handle_absent scheme node addr ≢ panic
  unfolding handle_absent
  handle_absent-calm addr named = elim (Bool-cases (equal addr [])) [
    | inl h ↦ absurd (named ((equal_iff addr []).0 h))
    | inr h ↦ rw (h) (err-calm wrong_address)
  ]

  handle_response-calm :
      ((a : Address) → node.get a ≢ panic)
      → (addr : Address) (resp : Response) → addr ≢ []
      → handle_response scheme node addr resp ≢ panic
  unfolding handle_response
  handle_response-calm calm addr resp named = elim (Option-cases resp.proof) [
    | inl e ↦ rw (e) (handle_absent-calm addr named)
    | inr (proof, e) ↦ rw (e) (handle_proof-calm calm addr resp proof)
  ]

  -- whom the outcome of `SendClosest` shows to store the chunk
  pub data IsProver (addr : Address) : Result SendError Response → Address → Type 0 where
    itself :
        {src : Address}
        → src ≡ node.address
        → node.has addr ≡ ok true
        → IsProver addr (err (topology want_self)) src
    responder :
        {src : Address} (resp : Response)
        → IsProof scheme node addr resp src
        → IsProver addr (ok resp) src

  -- The chunk is read from the store and pushed, or the node is the closest to it.
  abbrev pub IsPushed : (Chunk → Result PushError (Unit {0})) → Address → Type 0
  IsPushed push addr =
      (c : Chunk) × (node.get addr ≡ ok c) × ((push c ≡ ok tt) ⊎ (push c ≡ err push_to_self))

  -- A chunk status is right for the outcome of `SendClosest`.
  pub data IsRight (push : Chunk → Result PushError (Unit {0})) (addr : Address)
      (outcome : Result SendError Response) : ChunkStatus → Type 0 where
    was_proved :
        {src : Address}
        → IsProver addr outcome src
        → IsRight push addr outcome (record { prover = src; addr = addr; status = proved })
    was_reuploaded :
        ((src : Address) → ¬ IsProver addr outcome src)
        → IsPushed push addr
        → IsRight push addr outcome (record { prover = []; addr = addr; status = reuploaded })
    was_errored :
        ((src : Address) → ¬ IsProver addr outcome src)
        → ¬ IsPushed push addr
        → IsRight push addr outcome (record { prover = []; addr = addr; status = errored })

  swallowed :
      (r : Result PushError (Unit {0}))
      → r ≢ panic
      → ((swallow_self r ≡ ok tt) × ((r ≡ ok tt) ⊎ (r ≡ err push_to_self)))
        ⊎ ((e : Failure) × (swallow_self r ≡ err e) × (r ≡ err push_failed))
  unfolding swallow_self
  swallowed (ok _) calm = inl (refl, inl refl)
  swallowed (err push_to_self) calm = inl (refl, inr refl)
  swallowed (err push_failed) calm = inr (not_pushed push_failed, refl, refl)
  swallowed panic calm = absurd (calm refl)

  unpushed :
      (push : Chunk → Result PushError (Unit {0})) (addr : Address) (c : Chunk)
      → node.get addr ≡ ok c
      → push c ≡ err push_failed
      → ¬ IsPushed push addr
  unpushed push addr c e failed (d, f, how) =
      let at : c ≡ d = ok-injective (sym e ∙ f) in
      let again : push d ≡ err push_failed = rw (← at) failed in
      elim how [
        | inl h ↦ let bad : ok tt ≡ err push_failed = sym h ∙ again in absurd cc
        | inr h ↦ let bad : err push_to_self ≡ err push_failed = sym h ∙ again in absurd cc
      ]

  pushes :
      (push : Chunk → Result PushError (Unit {0})) (addr : Address)
      → ((a : Address) → node.get a ≢ panic)
      → ((c : Chunk) → push c ≢ panic)
      → ((push_chunk scheme node push addr ≡ ok tt) × IsPushed push addr)
        ⊎ ((e : Failure) × (push_chunk scheme node push addr ≡ err e) × ¬ IsPushed push addr)
  unfolding push_chunk
  pushes push addr stored pushed = elim (Result-cases (node.get addr)) [
    | inr (inr e) ↦ absurd (stored addr e)
    | inr (inl (x, e)) ↦ inr (store_error, rw (e, push_chunk) refl, λ p. let q = p.1 in absurd cc)
    | inl (c, e) ↦ elim (swallowed (push c) (pushed c)) [
      | inl (h, how) ↦ inl (rw (e, push_chunk) h, (c, e, how))
      | inr (why, h, failed) ↦ inr (why, rw (e, push_chunk) h, unpushed push addr c e failed)
    ]
  ]

  unproved-IsRight :
      (push : Chunk → Result PushError (Unit {0})) (addr : Address)
      (outcome : Result SendError Response)
      → ((a : Address) → node.get a ≢ panic)
      → ((c : Chunk) → push c ≢ panic)
      → ((src : Address) → ¬ IsProver addr outcome src)
      → (cs : ChunkStatus) × (reupload_unproved scheme node push addr ≡ ok cs)
        × IsRight push addr outcome cs
  unfolding reupload_unproved phd.Swarm.zero_address
  unproved-IsRight push addr outcome stored pushed none_proves =
      elim (pushes push addr stored pushed) [
        | inl (h, how) ↦ (_, rw (h, reupload_unproved) refl, was_reuploaded none_proves how)
        | inr (why, h, failed) ↦ (_, rw (h, reupload_unproved) refl, was_errored none_proves failed)
      ]

  not_itself :
      (addr : Address)
      → node.has addr ≢ ok true
      → (src : Address) → ¬ IsProver addr (err (topology want_self)) src
  not_itself addr other src (itself e t) = other t

  nobody :
      (addr : Address) (e : SendError)
      → e ≢ topology want_self
      → (src : Address) → ¬ IsProver addr (err e) src
  nobody addr e other src (itself a b) = other refl

  rejected :
      (addr : Address) (resp : Response) (e : ProofError)
      → handle_response scheme node addr resp ≡ err e
      → (src : Address) → ¬ IsProver addr (ok resp) src
  rejected addr resp e h src (responder _ p) =
      let x : handle_response scheme node addr resp ≡ ok src =
        (handle_response_iff scheme node addr resp src).1 p in
      absurd cc

  -- Where the store and the push do not panic and the address is not empty, reuploadChunk after a
  -- SendClosest that does not panic ends with a status for that address: proved, by a node that the
  -- outcome shows to store the chunk (the sender itself if it is the closest, or a responder with a
  -- valid proof); or, if there is none, reuploaded exactly when the chunk is in the store and
  -- either pushed or the node's own to keep, and errored otherwise.
  pub reupload_sent_lem :
      (push : Chunk → Result PushError (Unit {0})) (addr : Address)
      (outcome : Result SendError Response)
      → ((a : Address) → node.get a ≢ panic)
      → ((a : Address) → node.has a ≢ panic)
      → ((c : Chunk) → push c ≢ panic)
      → addr ≢ []
      → outcome ≢ panic
      → (cs : ChunkStatus) × (reupload_sent scheme node push addr outcome ≡ ok cs)
        × IsRight push addr outcome cs
  unfolding reupload_sent
  reupload_sent_lem push addr (err (topology want_self)) stored checked pushed named calm =
      elim (Result-cases (node.has addr)) [
        | inr (inr h) ↦ absurd (checked addr h)
        | inr (inl (e, h)) ↦
            let (cs, run, right) =
              unproved-IsRight push addr (err (topology want_self)) stored pushed
                (not_itself addr (λ t. absurd cc)) in
            (cs, rw (h, reupload_sent) run, right)
        | inl (false, h) ↦
            let (cs, run, right) =
              unproved-IsRight push addr (err (topology want_self)) stored pushed
                (not_itself addr (λ t. absurd cc)) in
            (cs, rw (h, reupload_sent) run, right)
        | inl (true, h) ↦ (_, rw (h, reupload_sent) refl, was_proved (itself refl h))
      ]
  reupload_sent_lem push addr (err (topology no_peer)) stored checked pushed named calm =
      unproved-IsRight push addr (err (topology no_peer)) stored pushed
        (nobody addr (topology no_peer) (λ h. absurd cc))
  reupload_sent_lem push addr (err not_sent) stored checked pushed named calm =
      unproved-IsRight push addr (err (not_sent)) stored pushed
        (nobody addr (not_sent) (λ h. absurd cc))
  reupload_sent_lem push addr (err (no_response p)) stored checked pushed named calm =
      unproved-IsRight push addr (err (no_response p)) stored pushed
        (nobody addr (no_response p) (λ h. absurd cc))
  reupload_sent_lem push addr panic stored checked pushed named calm = absurd (calm refl)
  reupload_sent_lem push addr (ok resp) stored checked pushed named calm =
      elim (Result-cases (handle_response scheme node addr resp)) [
        | inr (inr h) ↦ absurd (handle_response-calm stored addr resp named h)
        | inr (inl (e, h)) ↦
            let (cs, run, right) =
              unproved-IsRight push addr (ok resp) stored pushed (rejected addr resp e h) in
            (cs, rw (h, reupload_sent) run, right)
        | inl (src, h) ↦ (
          _,
          rw (h, reupload_sent) refl,
          was_proved (responder resp ((handle_response_iff scheme node addr resp src).0 h)),
        )
      ]
