-- ===== src/Snips/Proof/Sync/Exchange.antt =====
-- The exchange of a proof: the verifier's request, answered by the prover.
use phd.Base.{
  ℕ, ◌^◌, ◌≤◌, ◌<◌, ◌≡◌, ◌↔◌, inl, inr, refl, sym, ap, ◌∙◌, Option, some, List, [], ◌∷◌, map,
  length, In, All, arith,
}
use mathlib.Core.Path.{subst}
use phd.Base.Result.{Result, ok}
use phd.Swarm.{Bytes, Address, Chunk}
use phd.Snips.Expected.{get_missing_chunks}
use phd.Snips.Expected.Tally.{InRange}
use phd.Snips.Proof.{
  Library, Service, Error, get_missing_loop, get_missing_chunks_of, find_missing_chunks,
}
use phd.Snips.Proof.Cache.{IsStored, IsCoherent, Proves, proof_of}
use phd.Snips.Proof.Mphf.{Distinct}
use phd.Snips.Proof.Sync.{Lacks, find_missing_chunks_lem}

module _ (lib : Library) (nonce : ℕ) where
  -- the chunks answer the values in order, each by a chunk of the prover that has the value
  abbrev pub Delivers : lib.BBHash → List Chunk → List ℕ → List Chunk → Type 0
  Delivers bb mine [] [] = Unit
  Delivers bb mine (v ∷ vs) (c ∷ cs) =
      In c mine × (lib.find bb (proof_of lib nonce c) ≡ v) × Delivers bb mine vs cs
  Delivers bb mine _ _ = ⊥

  pub In-proofs :
      (c : Chunk) (mine : List Chunk)
      → In c mine
      → In (proof_of lib nonce c) (map (proof_of lib nonce) mine)
  In-proofs c [] h = h
  In-proofs c (x ∷ xs) (inl e) = inl (ap (proof_of lib nonce) e)
  In-proofs c (x ∷ xs) (inr h) = inr (In-proofs c xs h)

  pub of_proofs :
      (k : ℕ) (mine : List Chunk)
      → In k (map (proof_of lib nonce) mine)
      → (c : Chunk) × In c mine × (proof_of lib nonce c ≡ k)
  of_proofs k [] h = absurd h
  of_proofs k (x ∷ xs) (inl e) = (x, inl refl, e)
  of_proofs k (x ∷ xs) (inr h) = let (c, i, e) = of_proofs k xs h in (c, inr i, e)

  -- over distinct proofs a chunk is determined by its proof
  pub proof_injective :
      (mine : List Chunk) (c d : Chunk)
      → Distinct (map (proof_of lib nonce) mine)
      → In c mine
      → In d mine
      → proof_of lib nonce c ≡ proof_of lib nonce d
      → c ≡ d
  proof_injective [] c d u i j e = absurd i
  proof_injective (x ∷ xs) c d u (inl p) (inl q) e = sym p ∙ q
  proof_injective (x ∷ xs) c d u (inl p) (inr j) e = absurd (
      u.0 (
        subst (λ k. In k (map (proof_of lib nonce) xs)) (sym e ∙ ap (proof_of lib nonce) (sym p))
          (In-proofs d xs j)))
  proof_injective (x ∷ xs) c d u (inr i) (inl q) e = absurd (
      u.0 (
        subst (λ k. In k (map (proof_of lib nonce) xs)) (e ∙ ap (proof_of lib nonce) (sym q))
          (In-proofs c xs i)))
  proof_injective (x ∷ xs) c d u (inr i) (inr j) e = proof_injective xs c d u.1 i j e

  pub Proves-of_In :
      (mine : List Chunk) (c : Chunk)
      → In c mine
      → Proves lib nonce mine (proof_of lib nonce c) c.address
  Proves-of_In [] c h = h
  Proves-of_In (x ∷ xs) c (inl e) = inl (ap (proof_of lib nonce) e, ap (λ (d : Chunk). d.address) e)
  Proves-of_In (x ∷ xs) c (inr h) = inr (Proves-of_In xs c h)

  pub In-of_Proves :
      (mine : List Chunk) (k : ℕ) (a : Address)
      → Proves lib nonce mine k a
      → (c : Chunk) × In c mine × (proof_of lib nonce c ≡ k) × (c.address ≡ a)
  In-of_Proves [] k a h = absurd h
  In-of_Proves (x ∷ xs) k a (inl (e, f)) = (x, inl refl, e, f)
  In-of_Proves (x ∷ xs) k a (inr h) = let (c, i, e, f) = In-of_Proves xs k a h in (c, inr i, e, f)

  -- each value leads to the address of a chunk of the prover that has it
  abbrev pub Leads : List Chunk → lib.BBHash → (ℕ → Option Address) → ℕ → Type 0
  Leads mine bb vals v =
      (c : Chunk) × In c mine × (lib.find bb (proof_of lib nonce c) ≡ v) × (vals v ≡ some c.address)

  module _ (get : Address → Result Error Chunk) (mine : List Chunk) where
    -- the prover still has its chunks
    abbrev pub Holds : Type 0
    Holds = (c : Chunk) → In c mine → get c.address ≡ ok c

    module _ (bb : lib.BBHash) (vals : ℕ → Option Address) where
      get_missing-Delivers :
          Holds
          → (missing : List ℕ) → All (Leads mine bb vals) missing
          → (cs : List Chunk) × (get_missing_loop get vals missing ≡ ok cs)
            × Delivers bb mine missing cs
      unfolding get_missing_loop
      get_missing-Delivers h [] a = ([], refl, tt)
      get_missing-Delivers h (v ∷ missing) a =
          let (c, i, e, at) = a.0 in
          let (cs, run, d) = get_missing-Delivers h missing a.1 in
          (c ∷ cs, rw (at, get_missing_loop) (rw (h c i, run)), (i, e, d))

      Delivers-of_In :
          (c : Chunk) (missing : List ℕ) (cs : List Chunk)
          → Distinct (map (proof_of lib nonce) mine)
          → ((k l : ℕ)
              → In k (map (proof_of lib nonce) mine)
              → In l (map (proof_of lib nonce) mine)
              → lib.find bb k ≡ lib.find bb l
              → k ≡ l)
          → Delivers bb mine missing cs
          → In c mine
          → In (lib.find bb (proof_of lib nonce c)) missing
          → In c cs
      Delivers-of_In c [] cs u inj d i m = absurd m
      Delivers-of_In c (v ∷ vs) [] u inj d i m = absurd d
      Delivers-of_In c (v ∷ vs) (x ∷ cs) u inj d i (inl e) = inl (
          proof_injective mine x c u d.0 i
            (inj _ _ (In-proofs x mine d.0) (In-proofs c mine i) (d.1 ∙ e)))
      Delivers-of_In c (v ∷ vs) (x ∷ cs) u inj d i (inr m) =
          inr (Delivers-of_In c vs cs u inj d.2 i m)

      In-of_Delivers :
          (c : Chunk) (missing : List ℕ) (cs : List Chunk)
          → Delivers bb mine missing cs
          → In c cs
          → In c mine × In (lib.find bb (proof_of lib nonce c)) missing
      In-of_Delivers c [] [] d i = absurd i
      In-of_Delivers c [] (x ∷ cs) d i = absurd d
      In-of_Delivers c (v ∷ vs) [] d i = absurd i
      In-of_Delivers c (v ∷ vs) (x ∷ cs) d (inl e) = (
        subst (λ y. In y mine) e d.0,
        inl (sym d.1 ∙ ap (λ y. lib.find bb (proof_of lib nonce y)) e),
      )
      In-of_Delivers c (v ∷ vs) (x ∷ cs) d (inr i) =
          let (a, b) = In-of_Delivers c vs cs d.2 i in (a, inr b)

  -- what a successful `CreateMPHF` over the chunk proofs gives
  pub record Proved (bb : lib.BBHash) (mine : List Chunk) (s' : Service) : Type 0 where
    pub vals : ℕ → Option Address
    pub stored_map : s'.map_val_to_chunk_id nonce ≡ some vals
    pub leads : (v : ℕ) → 0 < v → v ≤ length mine → Leads mine bb vals v
    pub bounded : (key : ℕ) → lib.find bb key ≤ length mine
    pub value_pos : (c : Chunk) → In c mine → 0 < lib.find bb (proof_of lib nonce c)
    pub one_to_one :
        (k l : ℕ)
        → In k (map (proof_of lib nonce) mine)
        → In l (map (proof_of lib nonce) mine)
        → lib.find bb k ≡ lib.find bb l
        → k ≡ l

  all_of_in : (P : ℕ → Type 0) (xs : List ℕ) → ((v : ℕ) → In v xs → P v) → All P xs
  all_of_in P [] h = tt
  all_of_in P (x ∷ xs) h = (h x (inl refl), all_of_in P xs (λ v i. h v (inr i)))

  -- the prover's answer to exactly the values that the verifier lacks
  pub answer_lem :
      (get : Address → Result Error Chunk) (content : Address → Bytes) (mine stored : List Chunk)
      (begin end : Bytes) (bb : lib.BBHash) (s' : Service) (missing : List ℕ)
      → Proved bb mine s'
      → Distinct (map (proof_of lib nonce) mine)
      → Holds get mine
      → ((v : ℕ)
          → In v missing
            ↔ (InRange (length mine) v × Lacks lib bb nonce begin end content stored v))
      → (cs : List Chunk) × (get_missing_chunks_of get missing nonce s' ≡ ok cs)
        × ((c : Chunk)
            → In c cs ↔ (
                In c mine
                × Lacks lib bb nonce begin end content stored (lib.find bb (proof_of lib nonce c))))
  unfolding get_missing_chunks_of
  answer_lem get content mine stored begin end bb s' missing p u holds exact =
      let (cs, answer, d) = get_missing-Delivers get mine bb p.vals holds missing (
        all_of_in (Leads mine bb p.vals) missing
          (λ v i. let (r, l) = (exact v).0 i in p.leads v r.0 r.1)) in
      (
        cs,
        rw (p.stored_map, get_missing_chunks_of) answer,
        λ c. (
          λ i.
              let (m, v) = In-of_Delivers get mine bb p.vals c missing cs d i in
              (m, ((exact _).0 v).1),
          λ (m, l).
              Delivers-of_In get mine bb p.vals c missing cs u p.one_to_one d m
                ((exact _).1 ((p.value_pos c m, p.bounded _), l)),
        ),
      )

  -- After a proof of fewer than 2^32 chunks with distinct chunk proofs is made, and while the
  -- prover's store returns its chunks, an exchange with a verifier of fewer than 2^32 stored
  -- chunks, each with the data at its address, and a coherent cache ends well: the verifier's
  -- search succeeds, the prover's answer to the values found missing succeeds, and the chunks of
  -- the answer are exactly the prover's chunks whose value no stored chunk of the verifier within
  -- the range has.
  pub exchange_lem :
      (get : Address → Result Error Chunk) (content : Address → Bytes) (mine stored : List Chunk)
      (begin end : Bytes) (bb : lib.BBHash) (s' t : Service)
      → Proved bb mine s'
      → Distinct (map (proof_of lib nonce) mine)
      → Holds get mine
      → length mine < 2 ^ 32
      → length stored < 2 ^ 32
      → All (IsStored content) stored
      → IsCoherent lib content t
      → (e : List ℕ) × (t' : Service) × (cs : List Chunk) × (find_missing_chunks lib bb nonce
            (length mine)
            begin
            end
            stored
            t
          ≡ ok (e, t'))
        × (get_missing_chunks_of get (get_missing_chunks e) nonce s' ≡ ok cs)
        × ((c : Chunk)
            → In c cs ↔ (
                In c mine
                × Lacks lib bb nonce begin end content stored (lib.find bb (proof_of lib nonce c))))
  exchange_lem get content mine stored begin end bb s' t p u holds few_mine few st h =
      let (e, t', run, coherent, exact) =
        find_missing_chunks_lem lib bb nonce begin end content (length mine) stored t (omega arith)
          few p.bounded st h in
      let (cs, answer, all) =
        answer_lem get content mine stored begin end bb s' (get_missing_chunks e) p u holds exact in
      (e, t', cs, run, answer, all)
