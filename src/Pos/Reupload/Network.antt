-- ===== src/Pos/Reupload/Network.antt =====
-- Challenges that travel to the node that can prove the chunk, and old responses
-- (code/bee-snips-sup/pkg/pos/pos.go, code/bee-snips-sup/pkg/pos/sender/sender.go).
use phd.Base.{ℕ, zero, suc, ◌≡◌, ◌⊎◌, refl, inr, Bool, true, Option, none, some, All, List, [], ◌∷◌}
use phd.Base.Result.{Result, ok, err}
use phd.Swarm.{Bytes, Address, Chunk}
use phd.Pos.{Challenge, Response, Scheme, Node, process_challenge, handle_response}
use phd.Pos.Honest.{CanProve, process_challenge_lem}
use phd.Pos.Sender.{
  TopologyError, Transmission, unanswered, answered, topology, want_self, attempt, send_loop,
  send_closest,
}
use phd.Pos.Reupload.{
  proved, PushError, Failure, write_response, answer_self, answer, handler, reupload_chunk,
  reupload_sent,
}

-- what the sender of a challenge reads of a handler's run
unfoldable pub transmission : Option Response × Result Failure (Unit {0}) → Transmission Response
transmission run = elim run.0 [ none ↦ unanswered | some resp ↦ answered resp ]

module _ (scheme : Scheme) where
  -- A node on the way that forwards a challenge: what its `ClosestPeer` and its stream do.
  pub record Hop : Type 0 where
    pub node : Node scheme
    pub asker : Address
    pub closest_peer : List Address → TopologyError ⊎ Address
    pub retries : ℕ
    pub writes : Response → Bool

  abbrev pub IsForwarding : Hop → Type 0
  IsForwarding hop =
      ((p : Address) × (hop.closest_peer (hop.asker ∷ []) ≡ inr p))
      × ((resp : Response) → hop.writes resp ≡ true)

  -- what comes back when a challenge goes over some hops to a node that is the closest itself
  unfoldable pub through :
      Node scheme → (Response → Bool) → List Hop → Challenge → Transmission Response
  unfolding transmission handler send_closest
  through prover writes [] chall =
      transmission (handler scheme prover writes (some chall) (λ c. err (topology want_self)))
  through prover writes (hop ∷ hops) chall = transmission (
      handler scheme hop.node hop.writes (some chall) (λ c.
        (send_closest hop.closest_peer (λ p. through prover writes hops c) hop.retries
          (hop.asker ∷ [])).1))

  -- `SendClosest` to a peer that responds
  pub send_closest-answered :
      (closest_peer : List Address → TopologyError ⊎ Address)
      (send : Address → Transmission Response) (retries : ℕ) (skip : List Address) (p : Address)
      (resp : Response)
      → closest_peer skip ≡ inr p
      → send p ≡ answered resp
      → send_closest closest_peer send retries skip ≡ ([], ok resp)
  unfolding send_closest send_loop attempt
  send_closest-answered closest_peer send zero skip p resp a b = rw (a, b, attempt) refl
  send_closest-answered closest_peer send (suc n) skip p resp a b = rw (a, b, attempt) refl

  through-answered :
      (prover : Node scheme) (writes : Response → Bool) (hops : List Hop) (chall : Challenge)
      (resp : Response)
      → prover.enabled ≡ true
      → ((r : Response) → writes r ≡ true)
      → All IsForwarding hops
      → process_challenge scheme prover chall ≡ ok resp
      → through prover writes hops chall ≡ answered resp
  unfolding through transmission handler answer answer_self write_response
  through-answered prover writes [] chall resp on written fwd made =
      rw (on, made, written resp) refl
  through-answered prover writes (hop ∷ hops) chall resp on written (((p, found), sends), fwd)
        made =
      let ih = through-answered prover writes hops chall resp on written fwd made in
      let s =
        send_closest-answered hop.closest_peer (λ q. through prover writes hops chall) hop.retries
          (hop.asker ∷ []) p resp found ih in
      rw (s, sends resp) refl

  accepted :
      (verifier : Node scheme) (push : Chunk → Result PushError (Unit {0})) (addr src : Address)
      (resp : Response)
      → handle_response scheme verifier addr resp ≡ ok src
      → reupload_sent scheme verifier push addr (ok resp)
        ≡ ok (record { prover = src; addr = addr; status = proved })
  unfolding reupload_sent
  accepted verifier push addr src resp taken = rw (taken, reupload_sent) refl

  -- For a prover that is enabled, writes its responses and can prove the chunk at an address (its
  -- key signs, its store holds the chunk with the verifier's data, it is near enough), any list of
  -- hops that each find a peer and write, and a verifier whose ClosestPeer finds a peer,
  -- reuploadChunk with any nonce obtains the proof over the hops and gives the chunk the status
  -- proved by the prover's overlay address.
  pub reupload_chunk-proved :
      (prover verifier : Node scheme) (writes : Response → Bool) (hops : List Hop)
      (closest_peer : List Address → TopologyError ⊎ Address) (retries : ℕ) (p : Address)
      (push : Chunk → Result PushError (Unit {0})) (addr src : Address) (nonce : Bytes)
      → CanProve scheme prover verifier addr src
      → prover.enabled ≡ true
      → ((r : Response) → writes r ≡ true)
      → All IsForwarding hops
      → closest_peer [] ≡ inr p
      → reupload_chunk scheme verifier push
          (some nonce)
          (λ c. (send_closest closest_peer (λ q. through prover writes hops c) retries []).1)
          addr
        ≡ ok (record { prover = src; addr = addr; status = proved })
  unfolding reupload_chunk reupload_sent
  reupload_chunk-proved prover verifier writes hops closest_peer retries p push addr src nonce can
        on written fwd found =
      let chall : Challenge = record { nonce = nonce; address = addr } in
      let (resp, made, taken) = process_challenge_lem scheme prover verifier addr src nonce can in
      let s =
        send_closest-answered closest_peer (λ q. through prover writes hops chall) retries [] p resp
          found (through-answered prover writes hops chall resp on written fwd made) in
      rw (s) (accepted verifier push addr src resp taken)

  -- The response that a node which can prove a chunk made for one challenge makes reuploadChunk
  -- count the chunk as proved by that node for a challenge with any other nonce too.
  pub old_response-proved :
      (prover verifier : Node scheme) (push : Chunk → Result PushError (Unit {0}))
      (addr src : Address) (old : Bytes)
      → CanProve scheme prover verifier addr src
      → (resp : Response) × (process_challenge scheme prover
            (record { nonce = old; address = addr })
          ≡ ok resp)
        × ((nonce : Bytes)
            → reupload_chunk scheme verifier push (some nonce) (λ c. ok resp) addr
              ≡ ok (record { prover = src; addr = addr; status = proved }))
  unfolding reupload_chunk reupload_sent
  old_response-proved prover verifier push addr src old can =
      let (resp, made, taken) = process_challenge_lem scheme prover verifier addr src old can in
      (resp, made, λ nonce. accepted verifier push addr src resp taken)
