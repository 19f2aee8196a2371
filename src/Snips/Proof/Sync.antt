-- ===== src/Snips/Proof/Sync.antt =====
-- What a verifier asks for, and what the prover sends back.
pub mod Exchange
pub mod Creation
pub mod Overrun
use phd.Base.{
  ℕ, zero, suc, ◌+◌, ◌^◌, ◌≤◌, ◌<◌, ◌≡◌, ◌≢◌, ◌↔◌, ◌⊎◌, inl, inr, refl, sym, ap, ◌∙◌, Bool, true,
  false, ◌||◌, Option, none, some, List, [], ◌∷◌, map, ◌==◌, ==_iff, if◌then◌else◌, length, In, All,
  count, count_pos, count_of_In, arith, Option-cases, Bool-cases,
}
use phd.Base.Result.{Result, ok, err, panic, ◌>>=◌, >>=-eq-ok}
use phd.Swarm.{Bytes, Address, Chunk}
use phd.Snips.Expected.{new_expected_vals, hit, hit_all, get_missing_chunks}
use phd.Snips.Expected.Tally.{InRange, hit_all_total, get_missing_chunks_exact}
use phd.Snips.Proof.{
  Library, Service, Error, missing_chunk_not_found, no_proof_for_nonce, gen_chunk_proof,
  get_chunk_proof, outside, find_missing_loop, find_missing_chunks, get_missing_loop,
  get_missing_chunks_of,
}
use phd.Snips.Proof.Cache.{IsStored, IsCoherent, Answers, get_chunk_proof_lem, proof_of}

module _ (lib : Library) (bb : lib.BBHash) (nonce : ℕ) (begin end : Bytes) where
  -- the values that the stored chunks within the range strike off, in order
  abbrev pub struck : List Chunk → List ℕ
  struck [] = []
  struck (c ∷ cs) =
      let v = lib.find bb (proof_of lib nonce c) in
      let rest = struck cs in
      if outside begin end c.address then rest else if v == 0 then rest else v ∷ rest

  module _ (content : Address → Bytes) where
    -- the loop strikes off those values, and leaves the cache coherent
    find_missing-Runs :
        (stored : List Chunk) (expected : List ℕ) (s : Service)
        → All (IsStored content) stored
        → IsCoherent lib content s
        → (e : List ℕ) → hit_all {E = Error} expected (struck stored) ≡ ok e
        → (s' : Service) × (find_missing_loop lib bb nonce begin end stored expected s ≡ ok (e, s'))
          × IsCoherent lib content s'
    unfolding find_missing_loop hit_all
    find_missing-Runs [] expected s st h e q = (s, ground arith, h)
    find_missing-Runs (c ∷ cs) expected s st h e q =
        elim (Bool-cases (outside begin end c.address)) [
          | inl out ↦ rw out (find_missing-Runs cs expected s st.1 h e (rw out at q))
          | inr inside ↦
              let ans = get_chunk_proof_lem lib content nonce c s h st.0 in
              elim (Bool-cases (lib.find bb (proof_of lib nonce c) == 0)) [
                | inl unknown ↦
                    rw (inside, ans.proof, unknown)
                      (find_missing-Runs cs expected (get_chunk_proof lib nonce c s).1 st.1
                        ans.coherent e (rw (inside, unknown) at q))
                | inr known ↦
                    let (e', hits, rest) =
                      >>=-eq-ok (hit expected (lib.find bb (proof_of lib nonce c))) _
                        (rw (inside, known) at q) in
                    rw (inside, ans.proof, known, hits)
                      (find_missing-Runs cs e' (get_chunk_proof lib nonce c s).1 st.1 ans.coherent e
                        rest)
              ]
        ]

    -- no stored chunk within the range has this value
    abbrev pub Lacks : List Chunk → ℕ → Type 0
    Lacks [] v = Unit
    Lacks (c ∷ cs) v =
        ((outside begin end c.address ≡ true) ⊎ (lib.find bb (proof_of lib nonce c) ≢ v))
        × Lacks cs v

    Lacks-iff :
        (stored : List Chunk) (v : ℕ) → 0 < v → (count v (struck stored) ≡ 0) ↔ Lacks stored v
    Lacks-iff [] v pos = (λ h. tt, λ h. refl)
    Lacks-iff (c ∷ cs) v pos =
        let ih = Lacks-iff cs v pos in
        let w = lib.find bb (proof_of lib nonce c) in
        elim (Bool-cases (outside begin end c.address)) [
          | inl out ↦ rw (out, struck) (λ h. (inl refl, ih.0 h), λ h. ih.1 h.1)
          | inr inside ↦ elim (Bool-cases (w == v)) [
            | inl this ↦
                let some_value : w == 0 ≡ false = ground arith in
                rw (inside, struck)
                  (rw (some_value, struck)
                    (rw (this, count)
                      (
                        λ h. absurd (omega arith),
                        λ h. elim h.0 [ inl x ↦ cc | inr ne ↦ absurd (ne ((==_iff w v).0 this)) ],
                      )))
            | inr other ↦
                let differs : w ≢ v = λ e. cc (sym other ∙ (==_iff w v).1 e) in
                elim (Bool-cases (w == 0)) [
                  | inl unknown ↦
                      rw (inside, struck)
                        (rw (unknown, struck) (λ h. (inr differs, ih.0 h), λ h. ih.1 h.1))
                  | inr known ↦
                      rw (inside, struck)
                        (rw (known, struck)
                          (rw (other, count) (λ h. (inr differs, ih.0 h), λ h. ih.1 h.1)))
                ]
          ]
        ]

    length-struck : (stored : List Chunk) → length (struck stored) ≤ length stored
    length-struck [] = omega arith
    length-struck (c ∷ cs) = ground (arith, length-struck cs)

    struck-InRange :
        (n : ℕ) (stored : List Chunk)
        → ((key : ℕ) → lib.find bb key ≤ n)
        → All (InRange n) (struck stored)
    struck-InRange n [] b = tt
    struck-InRange n (c ∷ cs) b = ground (arith, struck-InRange n cs b, b (proof_of lib nonce c))

    -- Where the hash knows no value past the claimed length, and for fewer than 2^32 stored chunks,
    -- each with the data at its address, a length below 2^64 and a coherent cache,
    -- FindMissingChunks succeeds, keeps the cache coherent, and the values it finds missing are
    -- exactly those from 1 to the length that no stored chunk within the range has.
    pub find_missing_chunks_lem :
        (n : ℕ) (stored : List Chunk) (s : Service)
        → n < 2 ^ 64
        → length stored < 2 ^ 32
        → ((key : ℕ) → lib.find bb key ≤ n)
        → All (IsStored content) stored
        → IsCoherent lib content s
        → (e : List ℕ) × (s' : Service) × (find_missing_chunks lib bb nonce n begin end stored s
            ≡ ok (e, s'))
          × IsCoherent lib content s'
          × ((v : ℕ) → In v (get_missing_chunks e) ↔ (InRange n v × Lacks stored v))
    unfolding find_missing_chunks
    find_missing_chunks_lem n stored s small few b st h =
        let vs = struck stored in
        let range = struck-InRange n stored b in
        let (e, hits, size, entries) = hit_all_total {E = Error} n vs small range in
        let (s', run, coherent) = find_missing-Runs stored (new_expected_vals n) s st h e hits in
        let exact =
          get_missing_chunks_exact {E = Error} n vs e small (omega (arith, length-struck stored))
            range hits in
        (
          e,
          s',
          run,
          coherent,
          λ v. (
            λ m. let (r, never) = (exact v).0 m in (r, (Lacks-iff stored v r.0).0 never),
            λ (r, l). (exact v).1 (r, (Lacks-iff stored v r.0).1 l),
          ),
        )
