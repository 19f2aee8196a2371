-- ===== src/Snips/Protocol.antt =====
-- How a node answers an incoming proof (code/bee-snips-sup/pkg/snips/snips.go). Streams, encodings
-- and signatures are parameters; what a handler writes is the list of its messages.
pub mod Accepted
pub mod Maintain
use phd.Base.{
  ℕ, Bool, true, false, not, Option, none, some, List, [], ◌∷◌, ◌++◌, ltb, if◌then◌else◌,
}
use phd.Base.Result.{Result, ok, err, panic, ◌>>=◌}
use phd.Swarm.{Bytes, Address, Chunk, equal}
use phd.Swarm.Proximity.{proximity}
use phd.Snips.Expected.{get_missing_chunks, got_missing_and_duplicate}
use phd.Snips.Proof.{Library, Service, Error, find_missing_chunks}

pub record Proof : Type 0 where
  pub begin : Bytes
  pub end : Bytes
  pub nonce : ℕ
  pub mphf : Bytes
  pub length : ℕ

-- A message may come without its proof, which is a pointer.
pub record SignedProof : Type 0 where
  pub proof : Option Proof
  pub signature : Bytes
  pub block_hash : Bytes

pub data Message : Type 0 where
  -- the nonce and the bit vector of the missing values
  maintain : ℕ → Bytes → Message
  request : ℕ → Message

pub data Failure : Type 0 where
  disabled not_read not_marshalled invalid_signature no_source outside_neighborhood : Failure
  not_the_creator invalid_mphf not_encoded no_stream not_written : Failure
  search_failed : Error → Failure

-- The node, and the code that it only calls.
pub record Node (lib : Library) : Type 1 where
  pub enabled : Bool
  pub address : Address
  pub network_id : ℕ
  pub depth : ℕ
  pub stored : List Chunk
  pub PublicKey : Type 0
  pub marshal : Proof → Option Bytes
  pub recover : Bytes → Bytes → Option PublicKey
  pub overlay : PublicKey → ℕ → Bytes → Option Address
  pub unmarshal : Bytes → Option (lib.BBHash)
  pub encode : List ℕ → Option Bytes
  pub opens : Address → Bool
  pub writes : Message → Bool

abbrev pub or_fail : {A : Type 0} → Failure → Option A → Result Failure A
or_fail f none = err f
or_fail f (some a) = ok a

abbrev pub require : Bool → Failure → Result Failure (Unit {0})
require true f = ok tt
require false f = err f

-- What a handler does: the messages that it writes, the service after it, and how it ends.
abbrev pub Run : Type 0 → Type 0
Run A = List Message × Service × Result Failure A

module _ (lib : Library) (node : Node lib) where
  -- `signedproof.Proof`: marshalling a nil proof panics
  unfoldable pub proof_within : Option Proof → Result Failure Proof
  proof_within none = panic
  proof_within (some proof) = ok proof

  -- `verifySignature`
  unfoldable pub verify_signature : SignedProof → Result Failure Address
  unfolding proof_within
  verify_signature signed = proof_within signed.proof >>= λ proof.
      or_fail not_marshalled (node.marshal proof) >>= λ bytes.
      or_fail invalid_signature (node.recover signed.signature bytes) >>= λ pk.
      or_fail no_source (node.overlay pk node.network_id signed.block_hash) >>= λ src.
      if ltb (proximity src node.address) node.depth then err outside_neighborhood else ok src

  -- `RetrieveMissingChunks` from the encoded bit vector on. A stream that does not open is nil, and
  -- the deferred `Close` then panics.
  unfoldable pub write_maintain : Address → ℕ → List ℕ → Service → Option Bytes → Run Bool
  write_maintain peer nonce expected s none = ([], s, err not_encoded)
  write_maintain peer nonce expected s (some bytes) =
      if not (node.opens peer)
      then ([], s, panic)
      else if not (node.writes (maintain nonce bytes))
      then ([], s, err not_written)
      else (maintain nonce bytes ∷ [], s, ok (got_missing_and_duplicate expected))

  -- from the missing values on
  unfoldable pub send_missing : Address → ℕ → List ℕ → Service → List ℕ → Run Bool
  unfolding write_maintain
  send_missing peer nonce expected s [] = ([], s, ok false)
  send_missing peer nonce expected s (v ∷ vs) =
      write_maintain peer nonce expected s (node.encode (v ∷ vs))

  -- `RetrieveMissingChunks`
  unfoldable pub retrieve_missing_chunks : Address → lib.BBHash → Proof → Service → Run Bool
  unfolding send_missing
  retrieve_missing_chunks peer bb proof s =
      elim (find_missing_chunks lib bb proof.nonce proof.length proof.begin proof.end node.stored
        s) [
          | ok r ↦ send_missing peer proof.nonce r.0 r.1 (get_missing_chunks r.0)
          | err e ↦ ([], s, err (search_failed e))
          | panic ↦ ([], s, panic)
        ]

  -- the checks of `handlerIncomingProof`, with the proof that was read and its hash
  unfoldable pub accept : Option SignedProof → Address → Result Failure (Proof × lib.BBHash)
  unfolding verify_signature proof_within
  accept incoming peer = require node.enabled disabled >>= λ _.
      or_fail not_read incoming >>= λ signed. verify_signature signed >>= λ creator.
      require (equal creator peer) not_the_creator >>= λ _. proof_within signed.proof >>= λ proof.
      or_fail invalid_mphf (node.unmarshal proof.mphf) >>= λ bb. ok (proof, bb)

  -- what `handlerIncomingProof` does with the result of the retrieval: where a new proof is needed,
  -- it asks for one
  unfoldable pub ask_again : Address → ℕ → Run Bool → Run (Unit {0})
  ask_again peer nonce (sent, s, ok false) = (sent, s, ok tt)
  ask_again peer nonce (sent, s, ok true) =
      if not (node.opens peer)
      then (sent, s, err no_stream)
      else if not (node.writes (request nonce))
      then (sent, s, err not_written)
      else (sent ++ request nonce ∷ [], s, ok tt)
  ask_again peer nonce (sent, s, err f) = (sent, s, err f)
  ask_again peer nonce (sent, s, panic) = (sent, s, panic)

  -- `handlerIncomingProof`
  unfoldable pub handler_incoming_proof : Option SignedProof → Address → Service → Run (Unit {0})
  unfolding accept retrieve_missing_chunks ask_again
  handler_incoming_proof incoming peer s = elim (accept incoming peer) [
    | ok r ↦ ask_again peer r.0.nonce (retrieve_missing_chunks peer r.1 r.0 s)
    | err f ↦ ([], s, err f)
    | panic ↦ ([], s, panic)
  ]
