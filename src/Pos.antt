-- ===== src/Pos.antt =====
-- Proof of storage by challenge and response (code/bee-snips-sup/pkg/pos/pos.go). Signatures, keys,
-- encodings, hashing and the local store are parameters; the writes to a hasher, which never fail,
-- are one call of the hash on the bytes that were written.
pub mod Sender
pub mod Reupload
pub mod Verified
pub mod Honest
use phd.Base.{ℕ, Bool, true, false, not, Option, none, some, [], ◌++◌, ltb, if◌then◌else◌}
use phd.Base.Result.{Result, ok, err, panic, ◌>>=◌}
use phd.Swarm.{Bytes, Address, Chunk, equal}
use phd.Swarm.Proximity.{proximity}

pub record Challenge : Type 0 where
  pub nonce : Bytes
  pub address : Address

-- The message of a proof and that of a response. A field that holds a message may be absent.
pub record StorageProof : Type 0 where
  pub challenge : Option Challenge
  pub hash : Bytes

pub record Response : Type 0 where
  pub proof : Option StorageProof
  pub signature : Bytes
  pub block_hash : Bytes

-- the getters, which read the zero value of an absent message
unfoldable pub get_address : Option Challenge → Address
get_address none = []
get_address (some c) = c.address

unfoldable pub get_nonce : Option Challenge → Bytes
get_nonce none = []
get_nonce (some c) = c.nonce

pub data StoreError : Type 0 where
  not_found store_failed : StoreError

pub data ProofError : Type 0 where
  get_failed : StoreError → ProofError
  no_public_key not_marshalled not_signed : ProofError
  wrong_address invalid_signature no_source invalid_proof shallow_response : ProofError

-- What every node computes alike.
pub record Scheme : Type 1 where
  pub PublicKey : Type 0
  pub hash : Bytes → Bytes
  pub encode_key : PublicKey → Bytes
  pub marshal : StorageProof → Option Bytes
  pub recover : Bytes → Bytes → Option PublicKey
  pub overlay : PublicKey → ℕ → Bytes → Option Address

-- A node: its settings, its store and its signer.
pub record Node (scheme : Scheme) : Type 0 where
  pub enabled : Bool
  pub address : Address
  pub block_hash : Bytes
  pub network_id : ℕ
  pub depth : ℕ
  pub get : Address → Result StoreError Chunk
  pub has : Address → Result StoreError Bool
  pub public_key : Option (scheme.PublicKey)
  pub sign : Bytes → Option Bytes

abbrev pub or_error : {A : Type 0} → ProofError → Option A → Result ProofError A
or_error e none = err e
or_error e (some a) = ok a

abbrev pub or_missing : Result StoreError Chunk → Result ProofError Chunk
or_missing (ok c) = ok c
or_missing (err e) = err (get_failed e)
or_missing panic = panic

module _ (scheme : Scheme) (node : Node scheme) where
  -- `genChunkProof`
  unfoldable pub gen_chunk_proof : Address → Bytes → Result ProofError Bytes
  gen_chunk_proof addr nonce =
      or_missing (node.get addr) >>= λ chunk. ok (scheme.hash (nonce ++ chunk.payload))

  -- `createResponse`
  unfoldable pub create_response : StorageProof → Result ProofError Response
  create_response proof = or_error not_marshalled (scheme.marshal proof) >>= λ b.
      or_error not_signed (node.sign b) >>= λ sig.
      ok (record { proof = some proof; signature = sig; block_hash = node.block_hash })

  -- `processChallenge`
  unfoldable pub process_challenge : Challenge → Result ProofError Response
  unfolding gen_chunk_proof create_response
  process_challenge chall = gen_chunk_proof chall.address chall.nonce >>= λ hash.
      or_error no_public_key node.public_key >>= λ pk.
      create_response
        (record { challenge = some chall; hash = scheme.hash (scheme.encode_key pk ++ hash) })

  -- `verifyProof`
  unfoldable pub verify_proof :
      Address → scheme.PublicKey → StorageProof → Result ProofError (Unit {0})
  unfolding gen_chunk_proof get_nonce
  verify_proof addr pk proof = gen_chunk_proof addr (get_nonce proof.challenge) >>= λ cp.
      if equal (scheme.hash (scheme.encode_key pk ++ cp)) proof.hash
      then ok tt
      else err invalid_proof

  -- `handleResponse` with the proof of the response
  unfoldable pub handle_proof : Address → Response → StorageProof → Result ProofError Address
  unfolding get_address verify_proof
  handle_proof chunk_addr resp proof =
      if not (equal chunk_addr (get_address proof.challenge))
      then err wrong_address
      else or_error not_marshalled (scheme.marshal proof) >>= λ bytes.
          or_error invalid_signature (scheme.recover resp.signature bytes) >>= λ pk.
          or_error no_source (scheme.overlay pk node.network_id resp.block_hash) >>= λ src.
          verify_proof chunk_addr pk proof >>= λ _.
          if ltb (proximity src chunk_addr) node.depth then err shallow_response else ok src

  -- where there is none, its address reads as empty, and its encoding dereferences nil
  unfoldable pub handle_absent : Address → Result ProofError Address
  handle_absent chunk_addr = if not (equal chunk_addr []) then err wrong_address else panic

  -- `handleResponse`
  unfoldable pub handle_response : Address → Response → Result ProofError Address
  unfolding handle_proof handle_absent
  handle_response chunk_addr resp = elim resp.proof [
    | none ↦ handle_absent chunk_addr
    | some proof ↦ handle_proof chunk_addr resp proof
  ]
