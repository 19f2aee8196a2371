-- ===== src/Tests/SnipsExamples.antt =====
-- Two chunks of a prover, a verifier that holds one of them, and the theorems on proofs.
use phd.Base.{
  ℕ, ◌≡◌, ◌↔◌, refl, true, none, some, List, [], ◌∷◌, map, count, if◌then◌else◌, In, All, arith,
  inl, inr,
}
use mathlib.Core.Path.{subst}
use phd.Base.Result.{Result, ok, panic}
use phd.Swarm.{Bytes, Address, Chunk, equal, compare_bytes}
use phd.Snips.Expected.{new_expected_vals, hit_all, get_missing_chunks, got_missing_and_duplicate}
use phd.Snips.Expected.Tally.{InRange}
use phd.Snips.Expected.Duplicates.{got_missing_and_duplicate_exact}
use phd.Snips.Proof.{
  Library, Service, Made, made, Error, store_error, gen_chunk_proof, get_chunk_proof,
  build_base_proof, create_mphf, find_missing_chunks, get_missing_chunks_of,
}
use phd.Snips.Proof.Cache.{IsStored, IsCoherent, proof_of}
use phd.Snips.Proof.Mphf.{Distinct, Outcome, create_mphf_lem}
use phd.Snips.Proof.Sync.{struck, Lacks, find_missing_chunks_lem}
use phd.Snips.Proof.Sync.Exchange.{Holds, Proved, exchange_lem}
use phd.Snips.Proof.Sync.Creation.{built, create_mphf-Proved}
use phd.Snips.Proof.Sync.Overrun.{find_missing_chunks-panic}
use phd.Tests.Hash.{library, position, position-le, library-IsMinimalPerfect}

abbrev pub first : Chunk
first = record { address = 1 ∷ []; payload = 10 ∷ [] }

abbrev second : Chunk
second = record { address = 2 ∷ []; payload = 20 ∷ [] }

abbrev pub content : Address → Bytes
content a = if equal a (1 ∷ []) then 10 ∷ [] else 20 ∷ []

abbrev pub both : List Chunk
both = first ∷ second ∷ []

abbrev pub fresh : Service
fresh = record { map_chunk_id_to_proof = λ n. none; map_val_to_chunk_id = λ n. none }

pub stored : All (IsStored content) both
stored = unfold equal in (refl, (refl, tt))

pub coherent : IsCoherent library content fresh
coherent nonce a cp q = unfold phd.Snips.Proof.chunk_proofs in cc q

pub distinct : Distinct (map (proof_of library 7) both)
distinct =
    unfold gen_chunk_proof in
    (λ i. elim i [ inl e ↦ absurd (omega (arith, e)) | inr f ↦ f ], (λ f. f, tt))

in_range : All (InRange 2) (1 ∷ 1 ∷ [])
in_range = ((omega arith, omega arith), ((omega arith, omega arith), tt))

abbrev after_two : List ℕ
after_two = 4294967295 ∷ 1 ∷ []

ran : hit_all {E = ℕ} (new_expected_vals 2) (1 ∷ 1 ∷ []) ≡ ok after_two
unfolding hit_all new_expected_vals phd.Snips.Expected.hit
ran = refl

got_missing_and_duplicate_exact_example : (got_missing_and_duplicate after_two ≡ true) ↔ (
    ((v : ℕ) × InRange 2 v × (count v (1 ∷ 1 ∷ []) ≡ 0))
    × ((v : ℕ) × InRange 2 v × (count v (1 ∷ 1 ∷ []) ≡ 2)))
got_missing_and_duplicate_exact_example =
    got_missing_and_duplicate_exact 2 (1 ∷ 1 ∷ []) after_two (omega arith) (omega arith) in_range
      ran

create_mphf_lem_example :
    Outcome library
      (10 ∷ 20 ∷ [])
      (λ k. some (k ∷ []))
      7
      40
      4
      Made.nothing
      fresh
      (create_mphf library 38 4 40 (10 ∷ 20 ∷ []) (λ k. some (k ∷ [])) 7 fresh)
create_mphf_lem_example =
    create_mphf_lem library (10 ∷ 20 ∷ []) (λ k. some (k ∷ [])) 7 4 40 38 fresh
      (λ i. elim i [ inl e ↦ absurd (omega (arith, e)) | inr f ↦ f ], (λ f. f, tt))
      library-IsMinimalPerfect (omega arith) (omega arith)

-- the hash of both chunks' proofs, and the prover's state once it is made
abbrev pub hash : List ℕ
hash = 184467440737095516167 ∷ 368934881474191032327 ∷ []

abbrev pub prover : Service
prover = let b = built library 7 content both fresh in (create_mphf library 38 4 40 b.0 b.1 7 b.2).1

made_run :
    let b = built library 7 content both fresh in
    create_mphf library 38 4 40 b.0 b.1 7 b.2 ≡ (made (map (proof_of library 7) both), prover)
unfolding build_base_proof create_mphf position gen_chunk_proof equal
made_run = refl

second_struck : In 2 (struck library hash 7 (0 ∷ []) (9 ∷ []) both)
unfolding position gen_chunk_proof compare_bytes
second_struck = inr (inl refl)

pub prover-Proved : Proved library 7 (map (proof_of library 7) both) both prover
prover-Proved =
    create_mphf-Proved library 7 content both fresh 4 40 38 (map (proof_of library 7) both) prover
      coherent stored distinct library-IsMinimalPerfect (omega arith) (omega arith) made_run

find_missing_chunks_lem_example :
    (e : List ℕ) × (s' : Service) × (find_missing_chunks library hash 7 2
        (0 ∷ [])
        (9 ∷ [])
        (first ∷ [])
        fresh
      ≡ ok (e, s'))
    × IsCoherent library content s'
    × ((v : ℕ)
        → In v (get_missing_chunks e)
          ↔ (InRange 2 v × Lacks library hash 7 (0 ∷ []) (9 ∷ []) content (first ∷ []) v))
find_missing_chunks_lem_example =
    find_missing_chunks_lem library hash 7 (0 ∷ []) (9 ∷ []) content 2 (first ∷ []) fresh
      (omega arith) (omega arith) (λ key. position-le hash key) (stored.0, tt) coherent

find_missing_chunks-panic_example :
    find_missing_chunks library hash 7 1 (0 ∷ []) (9 ∷ []) both fresh ≡ panic
find_missing_chunks-panic_example =
    find_missing_chunks-panic library hash 7 (0 ∷ []) (9 ∷ []) content 1 both fresh 2
      (λ key. omega (arith, position-le hash key)) stored coherent second_struck (omega arith)

abbrev pub get : Address → Result Error Chunk
get a = if equal a (1 ∷ []) then ok first else ok second

pub holds : Holds library 7 get both
holds c i = elim i [
  | inl e ↦ subst (λ (d : Chunk). get d.address ≡ ok d) e (unfold equal in refl)
  | inr j ↦ elim j [
    | inl e ↦ subst (λ (d : Chunk). get d.address ≡ ok d) e (unfold equal in refl)
    | inr f ↦ absurd f
  ]
]

exchange_lem_example :
    (e : List ℕ) × (t' : Service) × (cs : List Chunk) × (find_missing_chunks library
        (map (proof_of library 7) both)
        7
        2
        (0 ∷ [])
        (9 ∷ [])
        (first ∷ [])
        fresh
      ≡ ok (e, t'))
    × (get_missing_chunks_of get (get_missing_chunks e) 7 prover ≡ ok cs)
    × ((c : Chunk)
        → In c cs ↔ (
            In c both
            × Lacks library
                (map (proof_of library 7) both)
                7
                (0 ∷ [])
                (9 ∷ [])
                content
                (first ∷ [])
                (position (map (proof_of library 7) both) (proof_of library 7 c))))
exchange_lem_example =
    exchange_lem library 7 get content both (first ∷ []) (0 ∷ []) (9 ∷ [])
      (map (proof_of library 7) both) prover fresh prover-Proved distinct holds (omega arith)
      (omega arith) (stored.0, tt) coherent
