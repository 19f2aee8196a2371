-- ===== src/Snips/Sending.antt =====
-- Signing a proof and sending it to the neighbours (code/bee-snips-sup/pkg/snips/snips.go). The
-- signer and the streams are parameters; what is sent is a list.
pub mod Accepted
use phd.Base.{
  ℕ, Bool, true, false, not, Option, none, some, List, [], ◌∷◌, ◌++◌, ◌==◌, if◌then◌else◌,
}
use phd.Base.Result.{Result, ok, err, panic, ◌>>=◌}
use phd.Swarm.{Bytes, Address}
use phd.Snips.Protocol.{Proof, SignedProof}
use phd.Snips.Radius.{Created, created, not_constructed, nil_hash, no_encoding, no_fuel}

pub data SendError : Type 0 where
  -- `CreateProofForMyChunks` fails; fuel that is spent stands for a search that goes on
  proof_failed fuel_spent : SendError
  not_marshalled not_signed no_stream was_disabled was_not_read : SendError

-- What signs and carries a proof.
pub record Outlet : Type 0 where
  pub marshal : Proof → Option Bytes
  pub sign : Bytes → Option Bytes
  pub block_hash : Bytes
  pub opens : Address → Bool
  pub writes : Address → Bool

-- The proofs that were written, each with its peer, and how it ends.
abbrev pub Sent : Type 0
Sent = List (Address × SignedProof) × Result SendError (Unit {0})

-- what `CreateProofForMyChunks` returns to its callers
unfoldable pub of_created : Created → Result SendError Proof
of_created (created p) = ok p
of_created not_constructed = err proof_failed
of_created no_encoding = err proof_failed
of_created nil_hash = panic
of_created no_fuel = err fuel_spent

abbrev pub or_send_error : {A : Type 0} → SendError → Option A → Result SendError A
or_send_error e none = err e
or_send_error e (some a) = ok a

module _ (outlet : Outlet) where
  open outlet use {marshal, sign, block_hash, opens, writes}

  -- `createResponse`
  unfoldable pub create_response : Proof → Result SendError SignedProof
  create_response proof = or_send_error not_marshalled (marshal proof) >>= λ b.
      or_send_error not_signed (sign b) >>= λ sig.
      ok (record { proof = some proof; signature = sig; block_hash = block_hash })

  -- `SendProof`: a proof of no chunks is not sent, and a failed write is only logged
  unfoldable pub send_length : Address → SignedProof → ℕ → Sent
  send_length addr signed length =
      if length == 0
      then ([], ok tt)
      else if not (opens addr)
      then ([], err no_stream)
      else if not (writes addr)
      then ([], ok tt)
      else ((addr, signed) ∷ [], ok tt)

  -- `signedproof.Proof.Length` of a nil proof panics
  unfoldable pub send_proof : Address → SignedProof → Sent
  unfolding send_length
  send_proof addr signed = elim signed.proof [
    | none ↦ ([], panic)
    | some proof ↦ send_length addr signed proof.length
  ]

  -- the calls of `PeerFunc`'s function, which drops every error, for the neighbours in order
  unfoldable pub send_to_all : SignedProof → List Address → List (Address × SignedProof)
  unfolding send_proof
  send_to_all signed [] = []
  send_to_all signed (addr ∷ rest) = (send_proof addr signed).0 ++ send_to_all signed rest

  -- `CreateAndSendProofForMyChunks` from the proof on, with the neighbours that `EachNeighbor` visits
  unfoldable pub send_created : Created → List Address → Sent
  unfolding of_created create_response send_to_all
  send_created c neighbors = elim (of_created c >>= create_response) [
    | ok signed ↦ (send_to_all signed neighbors, ok tt)
    | err e ↦ ([], err e)
    | panic ↦ ([], panic)
  ]

  -- `handlerIncomingRequest`, with the nonce that was read and the creation of a proof for it
  unfoldable pub handler_incoming_request : Bool → Option ℕ → (ℕ → Created) → Address → Sent
  unfolding of_created create_response send_proof
  handler_incoming_request enabled incoming create peer =
      if not enabled then ([], err was_disabled) else elim incoming [
        | none ↦ ([], err was_not_read)
        | some nonce ↦ elim (of_created (create nonce) >>= create_response) [
          | ok signed ↦ send_proof peer signed
          | err e ↦ ([], err e)
          | panic ↦ ([], panic)
        ]
      ]
