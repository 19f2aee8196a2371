-- ===== src/Pos/Reupload.antt =====
-- Reuploading the chunks that no peer proves (code/bee-snips-sup/pkg/pos/pos.go), and the handler of
-- a challenge. The traversal, the push and the nonces are parameters; metrics and logs are left out.
pub mod Sorted
pub mod Outcome
pub mod Network
use phd.Base.{Bool, true, false, not, Option, none, some, List, [], ◌∷◌, ◌++◌, if◌then◌else◌, map}
use phd.Base.Result.{Result, ok, err, panic, ◌>>=◌}
use phd.Swarm.{Bytes, Address, Chunk, zero_address, equal}
use phd.Pos.{
  Challenge, Response, StoreError, ProofError, Scheme, Node, process_challenge, handle_response,
}
use phd.Pos.Sender.{want_self, SendError, topology, no_response, not_sent}

pub data Status : Type 0 where
  errored proved reuploaded : Status

pub record ChunkStatus : Type 0 where
  pub prover : Address
  pub addr : Address
  pub status : Status

pub record ReuploadResult : Type 0 where
  -- a map from a prover's address
  pub proved : List (Address × List Address)
  pub reuploaded : List Address
  pub errored : List Address

unfoldable pub empty_result : ReuploadResult
empty_result = record { proved = []; reuploaded = []; errored = [] }

-- `result.Proved[prover]`, empty where the key is missing
unfoldable pub proved_by : List (Address × List Address) → Address → List Address
proved_by [] prover = []
proved_by (entry ∷ entries) prover =
    if equal entry.0 prover then entry.1 else proved_by entries prover

-- `result.Proved[prover] = append(result.Proved[prover], addr)`
unfoldable pub append_proved :
    List (Address × List Address) → Address → Address → List (Address × List Address)
append_proved [] prover addr = (prover, addr ∷ []) ∷ []
append_proved (entry ∷ entries) prover addr =
    if equal entry.0 prover
    then (entry.0, entry.1 ++ addr ∷ []) ∷ entries
    else entry ∷ append_proved entries prover addr

-- a turn of the loop over the statuses
unfoldable pub record_as : ReuploadResult → ChunkStatus → Status → ReuploadResult
unfolding append_proved
record_as r cs errored = record {
  proved = r.proved;
  reuploaded = r.reuploaded;
  errored = r.errored ++ cs.addr ∷ [];
}
record_as r cs proved = record {
  proved = append_proved r.proved cs.prover cs.addr;
  reuploaded = r.reuploaded;
  errored = r.errored;
}
record_as r cs reuploaded = record {
  proved = r.proved;
  reuploaded = r.reuploaded ++ cs.addr ∷ [];
  errored = r.errored;
}

-- the loop over the statuses, in the order in which they arrive
unfoldable pub collect : ReuploadResult → List ChunkStatus → ReuploadResult
unfolding record_as
collect r [] = r
collect r (cs ∷ rest) = collect (record_as r cs cs.status) rest

pub data PushError : Type 0 where
  push_to_self push_failed : PushError

pub data Failure : Type 0 where
  missing_chunk store_error traversal_failed not_read disabled not_written unsent : Failure
  not_processed : ProofError → Failure
  not_pushed : PushError → Failure

-- A traversal: the addresses that it visits, and whether it then ends without an error.
abbrev pub Traversal : Type 0
Traversal = List Address × Bool

-- the calls of `reuploadChunk`, of which one that panics ends the program
unfoldable pub reupload_all :
    (Address → Result Failure ChunkStatus) → List Address → Result Failure (List ChunkStatus)
reupload_all one [] = ok []
reupload_all one (addr ∷ rest) =
    one addr >>= λ cs. reupload_all one rest >>= λ statuses. ok (cs ∷ statuses)

-- the end of `handler`, with the response
unfoldable pub write_response :
    (Response → Bool) → Response → Option Response × Result Failure (Unit {0})
write_response writes resp = if writes resp then (some resp, ok tt) else (none, err not_written)

-- what `pushChunk` makes of the outcome of `PushChunkToClosest`
unfoldable pub swallow_self : Result PushError (Unit {0}) → Result Failure (Unit {0})
swallow_self (ok _) = ok tt
swallow_self (err push_to_self) = ok tt
swallow_self (err push_failed) = err (not_pushed push_failed)
swallow_self panic = panic

module _ (scheme : Scheme) (node : Node scheme) where
  -- the callback of `getChunkAddrs`
  unfoldable pub check_chunk : Address → Result Failure (Unit {0})
  check_chunk addr = elim (node.has addr) [
    | ok true ↦ ok tt
    | ok false ↦ err missing_chunk
    | err e ↦ err store_error
    | panic ↦ panic
  ]

  -- the traversal with the callback, which an error ends
  unfoldable pub visit : List Address → Bool → List Address → Result Failure (List Address)
  unfolding check_chunk
  visit addrs ended [] = if ended then ok addrs else err traversal_failed
  visit addrs ended (addr ∷ rest) = check_chunk addr >>= λ _. visit (addrs ++ addr ∷ []) ended rest

  -- `getChunkAddrs`
  unfoldable pub get_chunk_addrs : Traversal → Result Failure (List Address)
  unfolding visit
  get_chunk_addrs walk = visit [] walk.1 walk.0

  -- `pushChunk`, with the outcome of `PushChunkToClosest`
  unfoldable pub push_chunk :
      (Chunk → Result PushError (Unit {0})) → Address → Result Failure (Unit {0})
  unfolding swallow_self
  push_chunk push addr = elim (node.get addr) [
    | err e ↦ err store_error
    | panic ↦ panic
    | ok c ↦ swallow_self (push c)
  ]

  -- the end of `reuploadChunk`, when no proof was obtained
  unfoldable pub reupload_unproved :
      (Chunk → Result PushError (Unit {0})) → Address → Result Failure ChunkStatus
  unfolding push_chunk
  reupload_unproved push addr = elim (push_chunk push addr) [
    | ok _ ↦ ok (record { prover = zero_address; addr = addr; status = reuploaded })
    | err e ↦ ok (record { prover = zero_address; addr = addr; status = errored })
    | panic ↦ panic
  ]

  -- `reuploadChunk` from the outcome of `SendClosest` on
  unfoldable pub reupload_sent :
      (Chunk → Result PushError (Unit {0}))
      → Address
      → Result SendError Response
      → Result Failure ChunkStatus
  unfolding reupload_unproved
  reupload_sent push addr (err (topology want_self)) = elim (node.has addr) [
    | ok true ↦ ok (record { prover = node.address; addr = addr; status = proved })
    | ok false ↦ reupload_unproved push addr
    | err e ↦ reupload_unproved push addr
    | panic ↦ panic
  ]
  reupload_sent push addr (err e) = reupload_unproved push addr
  reupload_sent push addr panic = panic
  reupload_sent push addr (ok resp) = elim (handle_response scheme node addr resp) [
    | ok prover ↦ ok (record { prover = prover; addr = addr; status = proved })
    | err e ↦ reupload_unproved push addr
    | panic ↦ panic
  ]

  -- `reuploadChunk`, with the nonce that was generated and the outcome of `SendClosest` for a
  -- challenge
  unfoldable pub reupload_chunk :
      (Chunk → Result PushError (Unit {0}))
      → Option Bytes
      → (Challenge → Result SendError Response)
      → Address
      → Result Failure ChunkStatus
  unfolding reupload_sent
  reupload_chunk push none send addr =
      ok (record { prover = zero_address; addr = addr; status = errored })
  reupload_chunk push (some nonce) send addr =
      reupload_sent push addr (send (record { nonce = nonce; address = addr }))

  -- `Reupload`, with the order in which the statuses arrive
  unfoldable pub reupload :
      (Address → Result Failure ChunkStatus)
      → (List ChunkStatus → List ChunkStatus)
      → Traversal
      → Result Failure ReuploadResult
  unfolding get_chunk_addrs reupload_all collect empty_result
  reupload one arrival walk = get_chunk_addrs walk >>= λ addrs.
      reupload_all one addrs >>= λ statuses. ok (collect empty_result (arrival statuses))

  -- `handler` where the node itself is the closest peer
  unfoldable pub answer_self :
      (Response → Bool) → Challenge → Option Response × Result Failure (Unit {0})
  unfolding write_response process_challenge
  answer_self writes chall =
      if not node.enabled
      then (none, err disabled)
      else elim (process_challenge scheme node chall) [
        | ok resp ↦ write_response writes resp
        | err e ↦ (none, err (not_processed e))
        | panic ↦ (none, panic)
      ]

  -- `handler` from the outcome of `SendClosest` on: a failed search and a peer that did not respond
  -- both end it without an error
  unfoldable pub answer :
      (Response → Bool)
      → Challenge
      → Result SendError Response
      → Option Response × Result Failure (Unit {0})
  unfolding answer_self
  answer writes chall (ok resp) = write_response writes resp
  answer writes chall (err (topology want_self)) = answer_self writes chall
  answer writes chall (err not_sent) = (none, err unsent)
  answer writes chall (err e) = (none, ok tt)
  answer writes chall panic = (none, panic)

  -- `handler`: the response that it writes, and how it ends
  unfoldable pub handler :
      (Response → Bool)
      → Option Challenge
      → (Challenge → Result SendError Response)
      → Option Response × Result Failure (Unit {0})
  unfolding answer
  handler writes none send = (none, err not_read)
  handler writes (some chall) send = answer writes chall (send chall)
