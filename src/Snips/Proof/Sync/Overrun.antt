-- ===== src/Snips/Proof/Sync/Overrun.antt =====
-- A proof that claims too small a length stops the verifier.
use phd.Base.{
  ℕ, ◌^◌, ◌<◌, ◌≡◌, inl, inr, List, [], ◌∷◌, ◌==◌, In, All, arith, Bool-cases, length-replicate,
}
use phd.Base.Result.{panic}
use phd.Swarm.{Bytes, Address, Chunk}
use phd.Snips.Expected.{new_expected_vals, hit_all}
use phd.Snips.Expected.Overrun.{IsValue, hit_all-panic, hit-cases}
use phd.Snips.Proof.{
  Library, Service, Error, outside, get_chunk_proof, find_missing_loop, find_missing_chunks,
}
use phd.Snips.Proof.Cache.{IsStored, IsCoherent, get_chunk_proof_lem, proof_of}
use phd.Snips.Proof.Sync.{struck}

module _ (lib : Library) (bb : lib.BBHash) (nonce : ℕ) (begin end : Bytes)
    (content : Address → Bytes) where
  find_missing-panic :
      (stored : List Chunk) (expected : List ℕ) (s : Service)
      → All (IsStored content) stored
      → IsCoherent lib content s
      → hit_all {E = Error} expected (struck lib bb nonce begin end stored) ≡ panic
      → find_missing_loop lib bb nonce begin end stored expected s ≡ panic
  unfolding find_missing_loop hit_all
  find_missing-panic [] expected s st h q = cc
  find_missing-panic (c ∷ cs) expected s st h q = elim (Bool-cases (outside begin end c.address)) [
    | inl out ↦ rw out (find_missing-panic cs expected s st.1 h (rw out at q))
    | inr inside ↦
        let ans = get_chunk_proof_lem lib content nonce c s h st.0 in
        elim (Bool-cases (lib.find bb (proof_of lib nonce c) == 0)) [
          | inl unknown ↦
              rw (inside, ans.proof, unknown)
                (find_missing-panic cs expected (get_chunk_proof lib nonce c s).1 st.1 ans.coherent
                  (rw (inside, unknown) at q))
          | inr known ↦ elim (hit-cases {E = Error} expected (lib.find bb (proof_of lib nonce c))) [
            | inl (e', hits) ↦
                rw (inside, ans.proof, known, hits)
                  (find_missing-panic cs e' (get_chunk_proof lib nonce c s).1 st.1 ans.coherent
                    (rw hits at (rw (inside, known) at q)))
            | inr stops ↦ rw (inside, ans.proof, known, stops)
          ]
        ]
  ]

  -- From a coherent cache and stored chunks that hold the data at their addresses, where the values
  -- of the hash are uint64 and a stored chunk within the range has a value past the length that the
  -- proof claims, FindMissingChunks panics.
  pub find_missing_chunks-panic :
      (n : ℕ) (stored : List Chunk) (s : Service) (v : ℕ)
      → ((key : ℕ) → lib.find bb key < 2 ^ 64)
      → All (IsStored content) stored
      → IsCoherent lib content s
      → In v (struck lib bb nonce begin end stored)
      → n < v
      → find_missing_chunks lib bb nonce n begin end stored s ≡ panic
  unfolding find_missing_chunks new_expected_vals
  find_missing_chunks-panic n stored s v word st h i past =
      let size = length-replicate {A = ℕ} n 1 in
      find_missing-panic stored (new_expected_vals n) s st h (
        hit_all-panic {E = Error} (new_expected_vals n) (struck lib bb nonce begin end stored) v
          (values stored) i (rw size past))
    where
      values : (cs : List Chunk) → All IsValue (struck lib bb nonce begin end cs)
      values [] = tt
      values (c ∷ cs) = ground (arith, values cs, word (proof_of lib nonce c))
