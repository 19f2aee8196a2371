-- ===== src/Snips/Protocol/Maintain.antt =====
-- What a verifier asks the prover for.
use phd.Base.{
  ℕ, arith, ◌^◌, ◌≤◌, ◌<◌, ◌≡◌, ◌↔◌, ◌⊎◌, inl, inr, refl, Bool, false, Option, some, List, [], ◌∷◌,
  In, All, length,
}
use phd.Base.Result.{ok, panic}
use phd.Swarm.{Bytes, Address}
use phd.Snips.Expected.{get_missing_chunks}
use phd.Snips.Expected.Tally.{InRange, IsAscending, get_missing_chunks-IsAscending}
use phd.Snips.Proof.{Library, Service}
use phd.Snips.Proof.Cache.{IsStored, IsCoherent}
use phd.Snips.Proof.Sync.{Lacks, find_missing_chunks_lem}
use phd.Snips.Protocol.{Proof, maintain, Node, Run, send_missing, retrieve_missing_chunks}

module _ (lib : Library) (node : Node lib) (decode : Bytes → Option (List ℕ))
    (content : Address → Bytes) where
  -- `roaring64` reads back a set of uint64 values as its ascending list
  abbrev pub Decodes : Type 0
  Decodes =
      (vs : List ℕ)
      → IsAscending vs
      → All (λ v. v < 2 ^ 64) vs
      → (bytes : Bytes) × (node.encode vs ≡ some bytes) × (decode bytes ≡ some vs)

  module _ (peer : Address) (bb : lib.BBHash) (proof : Proof) where
    -- value v of the proof is of no stored chunk within the range
    abbrev pub Wanted : ℕ → Type 0
    Wanted v =
        InRange proof.length v
        × Lacks lib bb proof.nonce proof.begin proof.end content node.stored v

    -- nothing is wanted and nothing written, or one message asks for what is wanted
    abbrev pub Retrieved : Run Bool → Type 0
    Retrieved r =
        ((s : Service) × (r ≡ ([], s, ok false)) × ((v : ℕ) → ¬ Wanted v))
        ⊎ ((s : Service) × (again : Bool) × (bytes : Bytes) × (vs : List ℕ) × (r
              ≡ (maintain proof.nonce bytes ∷ [], s, ok again))
            × (decode bytes ≡ some vs)
            × ((v : ℕ) → In v vs ↔ Wanted v))

    all_words :
        (vs : List ℕ)
        → proof.length < 2 ^ 64
        → ((v : ℕ) → In v vs → InRange proof.length v)
        → All (λ v. v < 2 ^ 64) vs
    all_words [] small inside = tt
    all_words (v ∷ vs) small inside = (
      omega (arith, small, (inside v (inl refl)).1),
      all_words vs small (λ w i. inside w (inr i)),
    )

    missing-panic :
        (expected missing : List ℕ) (s : Service) (v : ℕ)
        → Decodes
        → node.opens peer ≡ false
        → IsAscending missing
        → proof.length < 2 ^ 64
        → ((w : ℕ) → In w missing → InRange proof.length w)
        → In v missing
        → send_missing lib node peer proof.nonce expected s missing ≡ ([], s, panic)
    unfolding send_missing
    missing-panic expected [] s v law shut up small inside i = absurd i
    missing-panic expected (w ∷ ws) s v law shut up small inside i =
        let (bytes, encoded, decoded) = law (w ∷ ws) up (all_words (w ∷ ws) small inside) in
        rw (encoded, shut) refl

    -- Where the hash knows no value past the proof's length, fewer than 2^32 chunks are stored,
    -- each with the data at its address, the cache is coherent and the encoding of a set of uint64
    -- values is read back as its ascending list: if a value of the proof is of no stored chunk
    -- within the range and the stream to the prover does not open, RetrieveMissingChunks panics.
    pub retrieve_missing_chunks-panic :
        (s : Service) (v : ℕ)
        → Decodes
        → node.opens peer ≡ false
        → proof.length < 2 ^ 64
        → length node.stored < 2 ^ 32
        → ((key : ℕ) → lib.find bb key ≤ proof.length)
        → All (IsStored content) node.stored
        → IsCoherent lib content s
        → Wanted v
        → (s' : Service) × (retrieve_missing_chunks lib node peer bb proof s ≡ ([], s', panic))
    unfolding retrieve_missing_chunks
    retrieve_missing_chunks-panic s v law shut small few bounded stored coherent wanted =
        let (e, s', run, coherent', exact) =
          find_missing_chunks_lem lib bb proof.nonce proof.begin proof.end content proof.length
            node.stored s small few bounded stored coherent in
        (
          s',
          rw (run, retrieve_missing_chunks)
              (missing-panic e (get_missing_chunks e) s' v law shut
                (get_missing_chunks-IsAscending e) small (λ w i. ((exact w).0 i).0)
                ((exact v).1 wanted)),
        )
