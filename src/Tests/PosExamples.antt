-- ===== src/Tests/PosExamples.antt =====
-- Witnesses for the proofs of storage (code/bee-snips-sup/pkg/pos).
use phd.Base.{
  ℕ, ◌≡◌, ◌↔◌, ◌⊎◌, refl, inl, inr, Bool, true, Option, none, some, List, [], ◌∷◌, map, In, arith,
}
use mathlib.Core.List.{reverse, reverse_perm}
use phd.Base.Result.{Result, ok, ok-calm}
use phd.Swarm.{Bytes, Address, Chunk}
use phd.Pos.{Response, Scheme, Node, process_challenge, handle_response}
use phd.Pos.Verified.{IsProof, handle_response_iff}
use phd.Pos.Honest.{CanProve}
use phd.Pos.Sender.{TopologyError, no_peer, Transmission, unsent, send_closest}
use phd.Pos.Reupload.{
  ChunkStatus, proved, ReuploadResult, PushError, Failure, reupload_chunk, reupload_sent, reupload,
}
use phd.Pos.Reupload.Sorted.{Outcome, occurrences, listed, tally, reupload_lem}
use phd.Pos.Reupload.Outcome.{IsRight, reupload_sent_lem}
use phd.Pos.Reupload.Network.{Hop, through, reupload_chunk-proved, old_response-proved}

abbrev signer_of : Bytes → Option ℕ
signer_of [] = none
signer_of (k ∷ _) = some k

-- a key is a number, and a signature stands behind its key
abbrev scheme : Scheme
scheme = record {
  PublicKey = ℕ;
  hash = λ b. b;
  encode_key = λ k. k ∷ [];
  marshal = λ p. some p.hash;
  recover = λ sig b. signer_of sig;
  overlay = λ k id hash. some (k ∷ 0 ∷ 0 ∷ 0 ∷ []);
}

abbrev chunk_address : Address
chunk_address = 1 ∷ 2 ∷ 3 ∷ 4 ∷ []

abbrev chunk : Chunk
chunk = record { address = chunk_address; payload = 8 ∷ 9 ∷ [] }

abbrev node : Node scheme
node = record {
  enabled = true;
  address = 1 ∷ 0 ∷ 0 ∷ 0 ∷ [];
  block_hash = 5 ∷ [];
  network_id = 10;
  depth = 2;
  get = λ a. ok chunk;
  has = λ a. ok true;
  public_key = some 1;
  sign = λ b. some (1 ∷ b);
}

abbrev source : Address
source = 1 ∷ 0 ∷ 0 ∷ 0 ∷ []

can_prove : CanProve scheme node node chunk_address source
unfolding phd.Swarm.Proximity.proximity
can_prove = record {
  key = 1;
  mine = chunk;
  theirs = chunk;
  public_key = refl;
  marshals = λ p. (p.hash, refl);
  signs = λ b. (1 ∷ b, refl, refl);
  owned = refl;
  stored = refl;
  known = refl;
  same_data = refl;
  near = omega arith;
}

abbrev nonce : Bytes
nonce = 6 ∷ []

abbrev response : Response
response = record {
  proof = some (record {
    challenge = some (record { nonce = nonce; address = chunk_address });
    hash = 1 ∷ 6 ∷ 8 ∷ 9 ∷ [];
  });
  signature = 1 ∷ 1 ∷ 6 ∷ 8 ∷ 9 ∷ [];
  block_hash = 5 ∷ [];
}

handle_response_iff_example :
    (handle_response scheme node chunk_address response ≡ ok source)
    ↔ IsProof scheme node chunk_address response source
handle_response_iff_example = handle_response_iff scheme node chunk_address response source

-- one peer, found while none is skipped
abbrev only_peer : List Address → TopologyError ⊎ Address
only_peer [] = inr source
only_peer (_ ∷ _) = inl no_peer

only_peer-fresh : (skip : List Address) (p : Address) → only_peer skip ≡ inr p → ¬ In p skip
only_peer-fresh [] p h = λ x. x
only_peer-fresh (_ ∷ _) p h = absurd cc

abbrev refusing : Address → Transmission Response
refusing p = unsent

abbrev status_of : Address → ChunkStatus
status_of a = record { prover = source; addr = a; status = proved }

abbrev status_of_chunk : Address → Result Failure ChunkStatus
status_of_chunk a = ok (status_of a)

abbrev chunks : List Address
chunks = chunk_address ∷ source ∷ []

reupload_lem_example :
    (r : ReuploadResult) × (reupload scheme node status_of_chunk reverse (chunks, true) ≡ ok r)
    × ((o : Outcome) (a : Address) → occurrences a (listed o r) ≡ tally o a (map status_of chunks))
reupload_lem_example =
    reupload_lem scheme node status_of_chunk reverse chunks status_of reverse_perm
      (refl, (refl, tt)) (λ a. refl)

abbrev push : Chunk → Result PushError (Unit {0})
push c = ok tt

reupload_sent_lem_example :
    (cs : ChunkStatus) × (reupload_sent scheme node push chunk_address (ok response) ≡ ok cs)
    × IsRight scheme node push chunk_address (ok response) cs
reupload_sent_lem_example =
    reupload_sent_lem scheme node push chunk_address (ok response) (λ a. ok-calm chunk)
      (λ a. ok-calm true) (λ c. ok-calm tt) (λ h. absurd cc) (ok-calm response)

abbrev hop : Hop scheme
hop = record {
  node = node;
  asker = source;
  closest_peer = λ skip. inr chunk_address;
  retries = 16;
  writes = λ r. true;
}

abbrev writes : Response → Bool
writes r = true

reupload_chunk-proved_example :
    reupload_chunk scheme node push
      (some nonce)
      (λ c. (send_closest only_peer (λ q. through scheme node writes (hop ∷ []) c) 16 []).1)
      chunk_address
    ≡ ok (record { prover = source; addr = chunk_address; status = proved })
reupload_chunk-proved_example =
    reupload_chunk-proved scheme node node writes (hop ∷ []) only_peer 16 source push chunk_address
      source nonce can_prove refl (λ r. refl) (((chunk_address, refl), λ r. refl), tt) refl

old_response-proved_example :
    (resp : Response) × (process_challenge scheme node
        (record { nonce = nonce; address = chunk_address })
      ≡ ok resp)
    × ((new : Bytes)
        → reupload_chunk scheme node push (some new) (λ c. ok resp) chunk_address
          ≡ ok (record { prover = source; addr = chunk_address; status = proved }))
old_response-proved_example =
    old_response-proved scheme node node push chunk_address source nonce can_prove
