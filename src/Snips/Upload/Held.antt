-- ===== src/Snips/Upload/Held.antt =====
-- How an upload ends, and the slots of the semaphore that it leaves held.
use phd.Base.{
  ℕ, suc, sym, ◌≤◌, ◌<◌, ◌≡◌, refl, ap, true, false, none, some, List, [], ◌∷◌, ◌++◌, map, All, leb,
  if◌then◌else◌, Bool-cases, Option-cases, inl, inr, arith,
}
use mathlib.Core.Path.{subst}
use mathlib.Core.List.{append_assoc, append-nil}
use phd.Base.Result.{err, panic}
use phd.Swarm.{Bytes, Chunk}
use phd.Snips.Upload.{
  Delivery, Uplink, Uploads, waiting, over, concurrent_pushes, Fault, not_written, no_receipt,
  no_stamp, all_errors, faults, delivered, upload_loop,
}

-- The chunks of some deliveries, in order.
abbrev pub delivers : List Delivery → List Chunk
delivers = map (λ d. record { address = d.address; payload = d.payload })

module _ (uplink : Uplink) where
  -- a chunk that has a stamp and whose stream opens
  abbrev pub IsTried : Chunk → Type 0
  IsTried c = ((stamp : Bytes) × (uplink.stamp_of c ≡ some stamp)) × (uplink.opens c ≡ true)

  -- the chunks that are written, in order
  unfoldable pub written : List Chunk → List Chunk
  written [] = []
  written (c ∷ chunks) = let rest = written chunks in if uplink.writes c then c ∷ rest else rest

  -- a fault for each chunk that is not written, and one for each whose receipt is not read
  unfoldable pub all_faults : List Chunk → List Fault
  all_faults [] = []
  all_faults (c ∷ chunks) =
      let rest = all_faults chunks in
      (if uplink.writes c then [] else not_written ∷ [])
      ++ ((if uplink.receipt c then [] else no_receipt ∷ []) ++ rest)

  -- What the loop leaves, with the errors and the held slots before it.
  pub data Leaves (errs : List Fault) (held : ℕ) : List Chunk → Uploads → Type 0 where
    -- every chunk is tried
    tried :
        {chunks : List Chunk} {sent : List Delivery}
        → All IsTried chunks
        → delivers sent ≡ written chunks
        → Leaves errs held chunks (sent, held, over (all_errors (errs ++ all_faults chunks)))
    -- the chunks before c are tried, and c keeps its slot
    unstamped :
        (before : List Chunk) (c : Chunk) (after : List Chunk) {sent : List Delivery}
        → All IsTried before
        → delivers sent ≡ written before
        → uplink.stamp_of c ≡ none
        → Leaves errs held (before ++ c ∷ after) (sent, suc held, over (err no_stamp))
    unopened :
        (before : List Chunk) (c : Chunk) (after : List Chunk) {sent : List Delivery}
        → All IsTried before
        → delivers sent ≡ written before
        → uplink.opens c ≡ false
        → Leaves errs held (before ++ c ∷ after) (sent, suc held, over panic)
    -- no slot is free for the first chunk
    waits :
        (c : Chunk) (after : List Chunk)
        → concurrent_pushes ≤ held
        → Leaves errs held (c ∷ after) ([], held, waiting)

  delivers-delivered :
      (c : Chunk) (stamp : Bytes) (sent : List Delivery) (chunks : List Chunk)
      → delivers sent ≡ written chunks
      → delivers (delivered uplink c stamp ++ sent) ≡ written (c ∷ chunks)
  unfolding delivered written
  delivers-delivered c stamp sent chunks h = elim (Bool-cases (uplink.writes c)) [
    | inl w ↦ rw (w) (ap (λ l. c ∷ l) h)
    | inr w ↦ rw (w) h
  ]

  errors-further :
      (errs : List Fault) (c : Chunk) (chunks : List Chunk)
      → (errs ++ faults uplink c) ++ all_faults chunks ≡ errs ++ all_faults (c ∷ chunks)
  unfolding faults all_faults
  errors-further errs c chunks = elim (Bool-cases (uplink.writes c)) [
    | inl w ↦ elim (Bool-cases (uplink.receipt c)) [
      | inl r ↦ rw (w, r) (append_assoc errs [] (all_faults chunks))
      | inr r ↦ rw (w, r) (append_assoc errs (no_receipt ∷ []) (all_faults chunks))
    ]
    | inr w ↦ elim (Bool-cases (uplink.receipt c)) [
      | inl r ↦ rw (w, r) (append_assoc errs (not_written ∷ []) (all_faults chunks))
      | inr r ↦ rw (w, r) (append_assoc errs (not_written ∷ no_receipt ∷ []) (all_faults chunks))
    ]
  ]

  further :
      (c : Chunk) (stamp : Bytes) (chunks : List Chunk) (errs : List Fault) (held : ℕ) (r : Uploads)
      → uplink.stamp_of c ≡ some stamp
      → uplink.opens c ≡ true
      → held < concurrent_pushes
      → Leaves (errs ++ faults uplink c) held chunks r
      → Leaves errs held (c ∷ chunks) (delivered uplink c stamp ++ r.0, r.1, r.2)
  further c stamp chunks errs held r s o room (tried {sent = sent} all e) =
      subst
        (λ l.
          Leaves errs held (c ∷ chunks)
            (delivered uplink c stamp ++ sent, held, over (all_errors l)))
        (sym (errors-further errs c chunks))
        (tried (((stamp, s), o), all) (delivers-delivered c stamp sent chunks e))
  further c stamp chunks errs held r s o room (unstamped before d after {sent} all e why) =
      unstamped (c ∷ before) d after (((stamp, s), o), all)
        (delivers-delivered c stamp sent before e) why
  further c stamp chunks errs held r s o room (unopened before d after {sent} all e why) =
      unopened (c ∷ before) d after (((stamp, s), o), all)
        (delivers-delivered c stamp sent before e) why
  further c stamp chunks errs held r s o room (waits d after full) =
      absurd (omega (arith, room, full))

  -- The upload loop of uploadMissingChunks ends in one of four ways. Every chunk has a stamp and a
  -- stream that opens, exactly those whose write succeeds are uploaded, in order, with an error for
  -- each failed write and each receipt that is not read, and no slot of the semaphore is left held.
  -- Or this holds of the chunks before one that has no stamp, with an error, or whose stream does
  -- not open, with a panic, and that chunk keeps its slot. Or all 50 slots are held by others, and
  -- the loop waits at the first chunk.
  pub upload_loop-Leaves :
      (chunks : List Chunk) (errs : List Fault) (held : ℕ)
      → Leaves errs held chunks (upload_loop uplink chunks errs held)
  unfolding upload_loop all_faults written
  upload_loop-Leaves [] errs held =
      subst (λ l. Leaves errs held [] ([], held, over (all_errors l))) (append-nil errs)
        (tried {sent = []} tt refl)
  upload_loop-Leaves (c ∷ chunks) errs held = elim (Bool-cases (leb concurrent_pushes held)) [
    | inl full ↦ rw (full) (waits c chunks (ground (arith, full)))
    | inr room ↦ elim (Option-cases (uplink.stamp_of c)) [
      | inl e ↦ rw (room, e) (unstamped [] c chunks {sent = []} tt refl e)
      | inr (stamp, e) ↦ elim (Bool-cases (uplink.opens c)) [
        | inl o ↦
            rw (room, e, o)
              (further c stamp chunks errs held
                (upload_loop uplink chunks (errs ++ faults uplink c) held) e o
                (ground (arith, room)) (upload_loop-Leaves chunks (errs ++ faults uplink c) held))
        | inr o ↦ rw (room, e, o) (unopened [] c chunks {sent = []} tt refl o)
      ]
    ]
  ]
