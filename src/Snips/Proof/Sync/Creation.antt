-- ===== src/Snips/Proof/Sync/Creation.antt =====
-- A proof made from the prover's chunks is fit for the exchange.
use phd.Base.{
  ℕ, suc, ◌+◌, ◌≤◌, ◌<◌, ◌≡◌, inl, inr, refl, sym, ap, ◌∙◌, Bool, true, false, Option, none, some,
  List, [], ◌∷◌, map, length, In, All, leb, if◌then◌else◌,
}
use mathlib.Core.Path.{subst}
use phd.Swarm.{Bytes, Address, Chunk}
use phd.Snips.Proof.{
  Library, Service, Made, made, failed, nothing, address_or_zero, build_base_proof, create_mphf,
}
use phd.Snips.Proof.Cache.{IsStored, IsCoherent, Base, build_base_proof_lem, proof_of, update_self}
use phd.Snips.Proof.Mphf.{Distinct, IsMinimalPerfect, Succeeds, create_mphf_lem}
use phd.Snips.Proof.Sync.Exchange.{
  Proved, of_proofs, In-proofs, proof_injective, In-of_Proves, Proves-of_In,
}

pub length-map : {A B : Type 0} (f : A → B) (xs : List A) → length (map f xs) ≡ length xs
length-map f [] = refl
length-map f (x ∷ xs) = ap suc (length-map f xs)

module _ (lib : Library) (nonce : ℕ) (content : Address → Bytes) (mine : List Chunk)
    (s : Service) where
  -- what `BuildBaseProof` hands to `CreateMPHF`
  abbrev pub built : List ℕ × (ℕ → Option Address) × Service
  built = build_base_proof lib nonce mine [] (λ k. none) s

  -- the map of proofs leads from the proof of a chunk to its address
  ids_lem :
      (r : List ℕ × (ℕ → Option Address) × Service)
      → Base lib content nonce mine [] (λ k. none) s r
      → Distinct (map (proof_of lib nonce) mine)
      → (c : Chunk) → In c mine
      → address_or_zero (r.1 (proof_of lib nonce c)) ≡ c.address
  ids_lem r b u c i =
      let (a, at) = b.complete (proof_of lib nonce c) c.address (Proves-of_In lib nonce mine c i) in
      elim (b.sound (proof_of lib nonce c) a at) [
        | inl h ↦ cc
        | inr h ↦
            let (d, j, e, f) = In-of_Proves lib nonce mine (proof_of lib nonce c) a h in
            let same : d ≡ c = proof_injective lib nonce mine d c u j i e in
            ap address_or_zero at ∙ sym f ∙ ap (λ (x : Chunk). x.address) same
      ]

  Succeeds-Proved :
      (r : List ℕ × (ℕ → Option Address) × Service) (bb : lib.BBHash) (s' : Service) (lo hi : ℕ)
      → Base lib content nonce mine [] (λ k. none) s r
      → Distinct (map (proof_of lib nonce) mine)
      → IsMinimalPerfect lib
      → Succeeds lib r.0 r.1 nonce hi lo r.2 (made bb, s')
      → Proved lib nonce bb mine s'
  Succeeds-Proved r bb s' lo hi b u law c =
      let head : ◌≡◌ {A = Made lib.BBHash} (made c.bb) (made bb) =
        ap (λ (p : Made lib.BBHash × Service). p.0) (sym c.result) in
      let same : c.bb ≡ bb = cc in
      subst (λ h. Proved lib nonce h mine s') same
        (record {
          vals = c.vals;
          stored_map =
              ap (λ (p : Made lib.BBHash × Service). p.1.map_val_to_chunk_id nonce) c.result
              ∙ update_self r.2.map_val_to_chunk_id nonce nonce c.vals refl;
          leads = λ v low high.
              let (k, i, e) = law.onto c.gamma keys c.bb made_of u v low (rw size high) in
              let (d, j, f) = of_proofs lib nonce k mine i in
              (d, j, ap (lib.find c.bb) f ∙ e, entry v d j (ap (lib.find c.bb) f ∙ e));
          bounded = λ key. rw (← size) (law.bounded c.gamma keys c.bb made_of key);
          value_pos = λ d i. law.found c.gamma keys c.bb made_of _ (In-proofs lib nonce d mine i);
          one_to_one = law.injective c.gamma keys c.bb made_of u;
        })
    where
      keys : List ℕ
      keys = map (proof_of lib nonce) mine

      size : length (map (proof_of lib nonce) mine) ≡ length mine
      size = length-map (proof_of lib nonce) mine

      made_of : lib.new_serial c.gamma (map (proof_of lib nonce) mine) ≡ some c.bb
      made_of = subst (λ k. lib.new_serial c.gamma k ≡ some c.bb) b.proofs c.built

      entry :
          (v : ℕ) (d : Chunk)
          → In d mine
          → lib.find c.bb (proof_of lib nonce d) ≡ v
          → c.vals v ≡ some d.address
      entry v d j e =
          let i = subst (In (proof_of lib nonce d)) (sym b.proofs) (In-proofs lib nonce d mine j) in
          ap c.vals (sym e) ∙ c.filled.entry (proof_of lib nonce d) i ∙ ap some (ids_lem r b u d j)

  -- From a coherent cache, chunks that hold the data at their addresses and have distinct chunk
  -- proofs, a minimal perfect hash library and fuel for every gamma, when BuildBaseProof and
  -- CreateMPHF return a hash, it and the stored map are what the exchange needs: every value from 1
  -- to the number of chunks leads to the address of a chunk that has it, every chunk has a value in
  -- that range, and no two proofs share one.
  pub create_mphf-Proved :
      (lo hi fuel : ℕ) (bb : lib.BBHash) (s' : Service)
      → IsCoherent lib content s
      → All (IsStored content) mine
      → Distinct (map (proof_of lib nonce) mine)
      → IsMinimalPerfect lib
      → 0 < fuel
      → hi + 2 ≤ fuel + lo
      → create_mphf lib fuel lo hi built.0 built.1 nonce built.2 ≡ (made bb, s')
      → Proved lib nonce bb mine s'
  create_mphf-Proved lo hi fuel bb s' h st u law pos enough run =
      let b = build_base_proof_lem lib content nonce mine [] (λ k. none) s h st in
      elim (create_mphf_lem lib built.0 built.1 nonce lo hi fuel built.2
        (subst Distinct (sym b.proofs) u) law pos enough) [
          | inl c ↦
              Succeeds-Proved built bb s' lo hi b u law
                (subst (Succeeds lib built.0 built.1 nonce hi lo built.2) run c)
          | inr f ↦ absurd (
              not_made (leb lo hi) (
                sym (ap (λ (p : Made lib.BBHash × Service). p.0) f.result)
                ∙ ap (λ (p : Made lib.BBHash × Service). p.0) run))
        ]
    where
      not_made :
          (t : Bool) → ◌≡◌ {A = Made lib.BBHash} (if t then failed else nothing) (made bb) → ⊥
      not_made true e = cc
      not_made false e = cc
