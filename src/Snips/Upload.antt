-- ===== src/Snips/Upload.antt =====
-- Answering a request for missing chunks (code/bee-snips-sup/pkg/snips/snips.go). Stamps and streams
-- are parameters; what is uploaded is a list, and the slots of the semaphore are counted.
pub mod Held
pub mod Round
use phd.Base.{
  ℕ, suc, Bool, true, false, not, Option, none, some, List, [], ◌∷◌, ◌++◌, leb, if◌then◌else◌,
}
use phd.Base.Result.{Result, ok, err, panic}
use phd.Swarm.{Bytes, Address, Chunk}
use phd.Snips.Proof.{Library, Service, Error, get_missing_chunks_of}

pub record Delivery : Type 0 where
  pub address : Address
  pub payload : Bytes
  pub stamp : Bytes

-- The message of a request: the nonce of the proof and the set of values.
pub record MaintainRequest : Type 0 where
  pub nonce : ℕ
  pub bit_vector : Bytes

-- What the upload of one chunk meets.
pub record Uplink : Type 0 where
  pub stamp_of : Chunk → Option Bytes
  pub opens : Chunk → Bool
  pub writes : Chunk → Bool
  pub receipt : Chunk → Bool
  -- the roaring bitmap's reader
  pub missing_from_bytes : Bytes → Option (List ℕ)

pub data Fault : Type 0 where
  not_written no_receipt : Fault

pub data UploadError : Type 0 where
  not_unmarshalled no_stamp : UploadError
  not_found : Error → UploadError
  faulty : List Fault → UploadError

-- How an upload ends: it waits for another upload to give a slot of the semaphore back, or is over.
pub data Ending : Type 0 where
  waiting : Ending
  over : Result UploadError (Unit {0}) → Ending

-- Uploaded chunks, the slots of the semaphore that are held, and how it ends.
abbrev pub Uploads : Type 0
Uploads = List Delivery × ℕ × Ending

-- the capacity of the semaphore
abbrev pub concurrent_pushes : ℕ
concurrent_pushes = 50

-- the errors of the multierror
unfoldable pub all_errors : List Fault → Result UploadError (Unit {0})
all_errors [] = ok tt
all_errors (e ∷ errs) = err (faulty (e ∷ errs))

module _ (uplink : Uplink) where
  open uplink use {stamp_of, opens, writes, receipt, missing_from_bytes}

  -- the errors of writing one chunk and of reading its receipt
  unfoldable pub faults : Chunk → List Fault
  faults c =
      (if writes c then [] else not_written ∷ []) ++ (if receipt c then [] else no_receipt ∷ [])

  unfoldable pub delivered : Chunk → Bytes → List Delivery
  delivered c stamp =
      if writes c
      then record { address = c.address; payload = c.payload; stamp = stamp } ∷ []
      else []

  -- The loop of `uploadMissingChunks`, with the slots that others hold all the while. Where they
  -- hold all of them it waits. A chunk without a stamp ends it at once, and so does a stream that
  -- does not open, since the writer of a nil stream panics.
  unfoldable pub upload_loop : List Chunk → List Fault → ℕ → Uploads
  unfolding faults delivered all_errors
  upload_loop [] errs held = ([], held, over (all_errors errs))
  upload_loop (c ∷ chunks) errs held =
      let rest = upload_loop chunks (errs ++ faults c) held in
      if leb concurrent_pushes held then ([], held, waiting) else elim (stamp_of c) [
        | none ↦ ([], suc held, over (err no_stamp))
        | some stamp ↦
            if not (opens c)
            then ([], suc held, over panic)
            else (delivered c stamp ++ rest.0, rest.1, rest.2)
      ]

  -- `uploadMissingChunks` from the outcome of `GetMissingChunks` on
  unfoldable pub upload_found : Result Error (List Chunk) → ℕ → Uploads
  unfolding upload_loop
  upload_found (ok chunks) held = upload_loop chunks [] held
  upload_found (err e) held = ([], held, over (err (not_found e)))
  upload_found panic held = ([], held, over panic)

  -- `uploadMissingChunks`
  unfoldable pub upload_missing_chunks :
      (Address → Result Error Chunk) → Service → MaintainRequest → ℕ → Uploads
  unfolding upload_found
  upload_missing_chunks get s maintain held = elim (missing_from_bytes maintain.bit_vector) [
    | none ↦ ([], held, over (err not_unmarshalled))
    | some missing ↦ upload_found (get_missing_chunks_of get missing maintain.nonce s) held
  ]

  -- How `handlerIncomingMaintain` ends.
  pub data Handled : Type 0 where
    was_disabled was_not_read crashed is_waiting : Handled
    -- with whether `UploadDone` was written
    answered : Bool → Handled

  -- `handlerIncomingMaintain` from the upload on: its error is only logged
  unfoldable pub after_upload : Bool → Uploads → List Delivery × ℕ × Handled
  after_upload acknowledges (sent, held, waiting) = (sent, held, is_waiting)
  after_upload acknowledges (sent, held, over panic) = (sent, held, crashed)
  after_upload acknowledges (sent, held, over (ok _)) = (sent, held, answered acknowledges)
  after_upload acknowledges (sent, held, over (err e)) = (sent, held, answered acknowledges)

  -- `handlerIncomingMaintain`
  unfoldable pub handler_incoming_maintain :
      Bool
      → Bool
      → (Address → Result Error Chunk)
      → Service
      → Option MaintainRequest
      → ℕ
      → List Delivery × ℕ × Handled
  unfolding after_upload upload_missing_chunks
  handler_incoming_maintain enabled acknowledges get s incoming held =
      if not enabled then ([], held, was_disabled) else elim incoming [
        | none ↦ ([], held, was_not_read)
        | some maintain ↦ after_upload acknowledges (upload_missing_chunks get s maintain held)
      ]
