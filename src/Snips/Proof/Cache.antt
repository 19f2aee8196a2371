-- ===== src/Snips/Proof/Cache.antt =====
-- The cache of chunk proofs never changes what a chunk proof is.
use mathlib.Core.List.{append-nil, append_assoc}
use phd.Base.{
  ℕ, ◌≡◌, ◌⊎◌, inl, inr, refl, sym, ap, ◌∙◌, Bool, true, false, Option, some, List, [], ◌∷◌, ◌++◌,
  map, ◌==◌, ==_iff, if◌then◌else◌, All, Option-cases, Bool-cases,
}
use phd.Swarm.{Bytes, Address, Chunk, equal, equal_iff}
use phd.Snips.Proof.{
  Library, Service, chunk_proofs, update, update_address, inner, gen_chunk_proof, get_chunk_proof,
  build_base_proof,
}

pub update_cases :
    {V : Type 0} (m : ℕ → Option V) (v k : ℕ) (w a : V)
    → update m v w k ≡ some a
    → ((v ≡ k) × (w ≡ a)) ⊎ (m k ≡ some a)
update_cases m v k w a q = elim (Bool-cases (v == k)) [
  | inl e ↦ inl ((==_iff v k).0 e, cc (rw e at q))
  | inr e ↦ inr (rw e at q)
]

pub update_self :
    {V : Type 0} (m : ℕ → Option V) (v k : ℕ) (w : V) → v ≡ k → update m v w k ≡ some w
update_self m v k w h = rw ((==_iff v k).1 h)

pub update_grown :
    {V : Type 0} (m : ℕ → Option V) (v k : ℕ) (w a : V)
    → m k ≡ some a
    → (b : V) × (update m v w k ≡ some b)
update_grown m v k w a q = elim (Bool-cases (v == k)) [ inl e ↦ (w, rw e) | inr e ↦ (a, rw e q) ]

-- the data at each address, as a content-addressed store has it
abbrev pub IsStored : (Address → Bytes) → Chunk → Type 0
IsStored content c = c.payload ≡ content c.address

inner-update :
    (m : ℕ → Option (Address → Option ℕ)) (nonce k : ℕ) (f : Address → Option ℕ) (a : Address)
    → inner (update m nonce f k) a ≡ (if nonce == k then f a else inner (m k) a)
inner-update m nonce k f a = by_test (nonce == k)
  where
    by_test : (b : Bool) → inner (if b then some f else m k) a ≡ (if b then f a else inner (m k) a)
    by_test true = refl
    by_test false = refl

module _ (lib : Library) where
  -- every cached proof is that of the data at its address
  abbrev pub IsCoherent : (Address → Bytes) → Service → Type 0
  IsCoherent content s =
      (nonce : ℕ) (a : Address) (cp : ℕ)
      → chunk_proofs s nonce a ≡ some cp
      → cp ≡ gen_chunk_proof lib nonce (content a)

  -- what `GetChunkProof` promises
  pub record Answers (content : Address → Bytes) (nonce : ℕ) (c : Chunk) (s : Service)
      (r : ℕ × Service) : Type 0 where
    pub proof : r.0 ≡ gen_chunk_proof lib nonce c.payload
    pub coherent : IsCoherent content r.1
    pub kept : r.1.map_val_to_chunk_id ≡ s.map_val_to_chunk_id

  IsCoherent-update :
      (content : Address → Bytes) (nonce : ℕ) (s : Service) (f : Address → Option ℕ)
      → IsCoherent content s
      → ((a : Address) (cp : ℕ) → f a ≡ some cp → cp ≡ gen_chunk_proof lib nonce (content a))
      → IsCoherent content
          (record s { map_chunk_id_to_proof = update s.map_chunk_id_to_proof nonce f })
  unfolding chunk_proofs
  IsCoherent-update content nonce s f h g k a cp q = elim (Bool-cases (nonce == k)) [
    | inl e ↦ rw (← (==_iff nonce k).0 e) (g a cp (rw e at (sym split ∙ q)))
    | inr e ↦ h k a cp (rw e at (sym split ∙ q))
  ]
    where
      split :
          inner (update s.map_chunk_id_to_proof nonce f k) a
          ≡ (if nonce == k then f a else inner (s.map_chunk_id_to_proof k) a)
      split = inner-update s.map_chunk_id_to_proof nonce k f a

  fresh :
      (content : Address → Bytes) (nonce : ℕ) (c : Chunk) (f : Address → Option ℕ) (a : Address)
      (cp : ℕ)
      → IsStored content c
      → (f a ≡ some cp → cp ≡ gen_chunk_proof lib nonce (content a))
      → update_address f c.address (gen_chunk_proof lib nonce c.payload) a ≡ some cp
      → cp ≡ gen_chunk_proof lib nonce (content a)
  fresh content nonce c f a cp st old q = elim (Bool-cases (equal c.address a)) [
    | inl e ↦
        let here : c.address ≡ a = (equal_iff c.address a).0 e in
        let new : gen_chunk_proof lib nonce c.payload ≡ cp = cc (rw e at q) in
        sym new ∙ ap (gen_chunk_proof lib nonce) (st ∙ ap content here)
    | inr e ↦ old (rw e at q)
  ]

  -- From a coherent cache and for a chunk that holds the data at its address, GetChunkProof gives
  -- the proof of the chunk's own data, cached or not, keeps the cache coherent and leaves the map
  -- of values as it was.
  pub get_chunk_proof_lem :
      (content : Address → Bytes) (nonce : ℕ) (c : Chunk) (s : Service)
      → IsCoherent content s
      → IsStored content c
      → Answers content nonce c s (get_chunk_proof lib nonce c s)
  unfolding get_chunk_proof
  get_chunk_proof_lem content nonce c s h st =
      elim (Option-cases (chunk_proofs s nonce c.address)) [
        | inl absent ↦
            rw (absent, get_chunk_proof)
              (record {
                proof = refl;
                coherent = IsCoherent-update content nonce s _ h (λ a cp q.
                    fresh content nonce c (chunk_proofs s nonce) a cp st (h nonce a cp) q);
                kept = refl;
              })
        | inr (cp, present) ↦
            rw (present, get_chunk_proof)
              (record {
                proof = h nonce c.address cp present ∙ ap (gen_chunk_proof lib nonce) (sym st);
                coherent = IsCoherent-update content nonce s _ h (h nonce);
                kept = refl;
              })
      ]

  -- the chunk proof of a chunk
  abbrev pub proof_of : ℕ → Chunk → ℕ
  proof_of nonce c = gen_chunk_proof lib nonce c.payload

  -- `a` is the address of a chunk whose proof is `k`
  abbrev pub Proves : ℕ → List Chunk → ℕ → Address → Type 0
  Proves nonce [] k a = ⊥
  Proves nonce (c ∷ cs) k a = ((proof_of nonce c ≡ k) × (c.address ≡ a)) ⊎ Proves nonce cs k a

  -- what `BuildBaseProof` promises, from where it stands
  pub record Base (content : Address → Bytes) (nonce : ℕ) (chunks : List Chunk) (base : List ℕ)
      (ids : ℕ → Option Address) (s : Service) (r : List ℕ × (ℕ → Option Address) × Service)
      : Type 0 where
    pub proofs : r.0 ≡ base ++ map (proof_of nonce) chunks
    pub sound : (k : ℕ) (a : Address) → r.1 k ≡ some a → (ids k ≡ some a) ⊎ Proves nonce chunks k a
    pub grown : (k : ℕ) (a : Address) → ids k ≡ some a → (b : Address) × (r.1 k ≡ some b)
    pub complete :
        (k : ℕ) (a : Address) → Proves nonce chunks k a → (b : Address) × (r.1 k ≡ some b)
    pub coherent : IsCoherent content r.2
    pub kept : r.2.map_val_to_chunk_id ≡ s.map_val_to_chunk_id

  module _ (content : Address → Bytes) (nonce : ℕ) where
    Base-cons :
        (c : Chunk) (cs : List Chunk) (base : List ℕ) (ids : ℕ → Option Address) (s : Service)
        (p : ℕ × Service) (r : List ℕ × (ℕ → Option Address) × Service)
        → Answers content nonce c s p
        → Base content nonce cs (base ++ p.0 ∷ []) (update ids p.0 c.address) p.1 r
        → Base content nonce (c ∷ cs) base ids s r
    Base-cons c cs base ids s p r ans b = record {
      proofs =
          b.proofs
          ∙ append_assoc base (p.0 ∷ []) _
          ∙ ap (λ k. base ++ k ∷ map (proof_of nonce) cs) ans.proof;
      sound = λ k a q. elim (b.sound k a q) [
        | inl u ↦ elim (update_cases ids p.0 k c.address a u) [
          | inl (pk, ca) ↦ inr (inl (sym ans.proof ∙ pk, ca))
          | inr old ↦ inl old
        ]
        | inr u ↦ inr (inr u)
      ];
      grown = λ k a q. let (x, u) = update_grown ids p.0 k c.address a q in b.grown k x u;
      complete = λ k a q. elim q [
        | inl (pk, ca) ↦ b.grown k c.address (update_self ids p.0 k c.address (ans.proof ∙ pk))
        | inr u ↦ b.complete k a u
      ];
      coherent = b.coherent;
      kept = b.kept ∙ ans.kept;
    }

    -- From a coherent cache and for chunks that hold the data at their addresses, BuildBaseProof
    -- lists the proof of every chunk, in order, maps each proof to the address of a chunk that has
    -- it, and keeps the cache coherent.
    pub build_base_proof_lem :
        (chunks : List Chunk) (base : List ℕ) (ids : ℕ → Option Address) (s : Service)
        → IsCoherent content s
        → All (IsStored content) chunks
        → Base content nonce chunks base ids s (build_base_proof lib nonce chunks base ids s)
    unfolding build_base_proof
    build_base_proof_lem [] base ids s h st = record {
      proofs = sym (append-nil base);
      sound = λ k a q. inl q;
      grown = λ k a q. (a, q);
      complete = λ k a q. absurd q;
      coherent = h;
      kept = refl;
    }
    build_base_proof_lem (c ∷ cs) base ids s h st =
        let ans = get_chunk_proof_lem content nonce c s h st.0 in
        Base-cons c cs base ids s (get_chunk_proof lib nonce c s) _ ans (
          build_base_proof_lem cs (base ++ (get_chunk_proof lib nonce c s).0 ∷ [])
            (update ids (get_chunk_proof lib nonce c s).0 c.address)
            (get_chunk_proof lib nonce c s).1 ans.coherent st.1)
