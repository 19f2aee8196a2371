-- ===== src/Snips/Radius/Creation.antt =====
-- The proof that a node creates is fit for the exchange.
use phd.Base.{
  ℕ, ◌+◌, ◌%◌, ◌^◌, ◌≤◌, ◌<◌, ◌≡◌, inl, inr, refl, sym, ap, ◌∙◌, Option, none, some, List, [], map,
  All, length, Option-cases,
}
use phd.Swarm.{Bytes, Address, Chunk}
use phd.Snips.Proof.{Library, Service, Made, made, failed, nothing, out_of_fuel}
use phd.Snips.Proof.Cache.{IsStored, IsCoherent, proof_of, build_base_proof_lem}
use phd.Snips.Proof.Mphf.{Distinct, IsMinimalPerfect}
use phd.Snips.Proof.Sync.Exchange.{Proved}
use phd.Snips.Proof.Sync.Creation.{length-map, create_mphf-Proved}
use phd.Snips.Protocol.{Proof}
use phd.Snips.Radius.{
  Created, created, of_made, encoded, get_chunks_in_my_radius, create_proof_for_my_chunks,
}

module _ (lib : Library) (marshal_binary : lib.BBHash → Option Bytes) where
  -- the fields of a proof, from a hash
  pub record Encodes (nonce n : ℕ) (begin end : Bytes) (m : Made lib.BBHash) (p : Proof)
      : Type 0 where
    pub bb : lib.BBHash
    pub of_hash : m ≡ made bb
    pub mphf : marshal_binary bb ≡ some p.mphf
    pub nonce_is : p.nonce ≡ nonce
    pub length_is : p.length ≡ n % 2 ^ 32
    pub begin_is : p.begin ≡ begin
    pub end_is : p.end ≡ end

  of_made-Encodes :
      (nonce n : ℕ) (begin end : Bytes) (m : Made lib.BBHash) (p : Proof)
      → of_made lib marshal_binary nonce n begin end m ≡ created p
      → Encodes nonce n begin end m p
  unfolding of_made encoded
  of_made-Encodes nonce n begin end failed p h = cc
  of_made-Encodes nonce n begin end nothing p h = cc
  of_made-Encodes nonce n begin end out_of_fuel p h = cc
  of_made-Encodes nonce n begin end (made bb) p h = elim (Option-cases (marshal_binary bb)) [
    | inl bad ↦ let q = rw (bad, of_made) at h in cc q
    | inr (bytes, fine) ↦
        let made_proof : Proof = record {
          begin = begin;
          end = end;
          nonce = nonce;
          mphf = bytes;
          length = n % 2 ^ 32;
        } in
        let q : created made_proof ≡ created p = rw (fine, of_made) at h in
        let same : made_proof ≡ p = cc q in
        record {
          bb = bb;
          of_hash = refl;
          mphf = fine ∙ ap (λ (x : Proof). some x.mphf) same;
          nonce_is = sym (ap (λ (x : Proof). x.nonce) same);
          length_is = sym (ap (λ (x : Proof). x.length) same);
          begin_is = sym (ap (λ (x : Proof). x.begin) same);
          end_is = sym (ap (λ (x : Proof). x.end) same);
        }
  ]

  module _ (base : Address) (depth nonce : ℕ) (content : Address → Bytes) (stored : List Chunk)
      (s : Service) where
    -- the chunks that are proved
    abbrev pub mine : List Chunk
    mine = (get_chunks_in_my_radius base depth stored [] []).0

    -- a proof that `CreateProofForMyChunks` returned, and the state after it
    pub record IsProof (p : Proof) (s' : Service) : Type 0 where
      pub bb : lib.BBHash
      pub mphf : marshal_binary bb ≡ some p.mphf
      pub nonce_is : p.nonce ≡ nonce
      pub length_is : p.length ≡ length mine % 2 ^ 32
      pub begin_is : p.begin ≡ (get_chunks_in_my_radius base depth stored [] []).1
      pub end_is : p.end ≡ (get_chunks_in_my_radius base depth stored [] []).2
      pub proved : Proved lib nonce bb mine s'

    -- From a coherent cache, chunks that hold the data at their addresses and have distinct chunk
    -- proofs, a minimal perfect hash library and fuel for every gamma, when CreateProofForMyChunks
    -- returns a proof, the proof encodes a hash and the state holds a map that are fit for the
    -- exchange of the chunks in the radius, with the nonce, their number cut to a uint32, and their
    -- range.
    pub create_proof_for_my_chunks_lem :
        (lo hi fuel : ℕ) (p : Proof) (s' : Service)
        → IsCoherent lib content s
        → All (IsStored content) mine
        → Distinct (map (proof_of lib nonce) mine)
        → IsMinimalPerfect lib
        → 0 < fuel
        → hi + 2 ≤ fuel + lo
        → create_proof_for_my_chunks lib marshal_binary fuel lo hi base depth stored nonce s
          ≡ (created p, s')
        → IsProof p s'
    unfolding create_proof_for_my_chunks
    create_proof_for_my_chunks_lem lo hi fuel p s' h st u law pos enough run =
        let b = build_base_proof_lem lib content nonce mine [] (λ k. none) s h st in
        let e = of_made-Encodes nonce _ _ _ _ p (ap (λ (r : Created × Service). r.0) run) in
        let after = ap (λ (r : Created × Service). r.1) run in
        record {
          bb = e.bb;
          mphf = e.mphf;
          nonce_is = e.nonce_is;
          length_is =
              e.length_is
              ∙ ap (λ (k : List ℕ). length k % 2 ^ 32) b.proofs
              ∙ ap (λ n. n % 2 ^ 32) (length-map (proof_of lib nonce) mine);
          begin_is = e.begin_is;
          end_is = e.end_is;
          proved =
              create_mphf-Proved lib nonce content mine s lo hi fuel e.bb s' h st u law pos enough
                (pair e.of_hash after);
        }
      where
        pair : {A B : Type 0} {x : A × B} {a : A} {c : B} → x.0 ≡ a → x.1 ≡ c → x ≡ (a, c)
        pair p q i = (p i, q i)
