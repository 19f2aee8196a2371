-- ===== src/Batches/Reserve/Raised.antt =====
-- What a call of Unreserve raises (code/bee-snips-sup/pkg/postage/batchstore/reserve.go).
use phd.Base.{
  ℕ, suc, ◌≤◌, ◌<◌, ◌≡◌, ◌⊎◌, refl, sym, ap, ◌∙◌, inl, inr, Bool, false, ◌&&◌, Option, some, List,
  [], ◌∷◌, In, length, ltb, ◌==◌, arith, Bool-cases, above_or, if◌then◌else◌,
}
use phd.Base.Result.{Result, ok}
use phd.Swarm.{Bytes, equal, equal_iff, equal-same, equal-other, compare_bytes}
use phd.Batches.{Batch, Store, Failure, get, put, goes_before}
use phd.Batches.Expired.{key_of, ids, DistinctIds, IsIndexed, get-In, id_injective, In-ids, of_ids}
use phd.Batches.Reserve.{
  Scan, scan, skip_one, raise_one, empty_scan, raised, apply_all, after_scan, unreserve,
}

-- a read after a write
get-put :
    (batches : List Batch) (u : Batch) (id : Bytes)
    → get (put batches u) id ≡ (if equal u.id id then some u else get batches id)
unfolding get put
get-put [] u id = refl
get-put (x ∷ batches) u id = elim (Bool-cases (equal x.id u.id)) [
  | inl e ↦ let same = equal-same x.id u.id id e in rw (e, same) (ground arith)
  | inr e ↦ elim (Bool-cases (goes_before (compare_bytes u.id x.id))) [
    | inl f ↦ rw (e, f) refl
    | inr f ↦ elim (Bool-cases (equal x.id id)) [
      | inl g ↦ let other = equal-other x.id u.id id e g in rw (e, f, g, other) refl
      | inr g ↦ rw (e, f, g) (get-put batches u id)
    ]
  ]
]

module _ (id : Bytes) (x : Option Batch) where
  -- every update of the ID is the batch x
  abbrev Agrees : List Batch → Type 0
  Agrees us = (u : Batch) → In u us → u.id ≡ id → some u ≡ x

  get-apply_kept :
      (batches us : List Batch) → Agrees us → get batches id ≡ x → get (apply_all batches us) id ≡ x
  unfolding apply_all
  get-apply_kept batches [] a h = h
  get-apply_kept batches (u ∷ us) a h =
      get-apply_kept (put batches u) us (λ v i. a v (inr i))
        (elim (Bool-cases (equal u.id id)) [
          | inl e ↦ get-put batches u id ∙ rw (e) (a u (inl refl) ((equal_iff u.id id).0 e))
          | inr e ↦ get-put batches u id ∙ rw (e) h
        ])

  get-apply_updated :
      (batches us : List Batch) → Agrees us → In id (ids us) → get (apply_all batches us) id ≡ x
  unfolding apply_all
  get-apply_updated batches [] a h = absurd h
  get-apply_updated batches (u ∷ us) a (inl e) =
      get-apply_kept (put batches u) us (λ v i. a v (inr i))
        (get-put batches u id ∙ rw ((equal_iff u.id id).1 e) (a u (inl refl) e))
  get-apply_updated batches (u ∷ us) a (inr h) =
      get-apply_updated (put batches u) us (λ v i. a v (inr i)) h

get-apply_other :
    (id : Bytes) (batches us : List Batch)
    → ¬ In id (ids us)
    → get (apply_all batches us) id ≡ get batches id
unfolding apply_all
get-apply_other id batches [] n = refl
get-apply_other id batches (u ∷ us) n = elim (Bool-cases (equal u.id id)) [
  | inl e ↦ absurd (n (inl ((equal_iff u.id id).0 e)))
  | inr e ↦
      get-apply_other id (put batches u) us (λ h. n (inr h)) ∙ get-put batches u id ∙ rw (e) refl
]

module _ (cb : Bytes → ℕ → Result Failure Bool) (go_on : (id : Bytes) (r : ℕ) → cb id r ≡ ok false)
    (batches : List Batch) (n : ℕ) (u : DistinctIds batches) where
  -- what the iteration over some keys gathers
  pub record IsScan (values : List (ℕ × Bytes)) (r : Scan) : Type 0 where
    pub only :
        (v : Batch)
        → In v r.updates
        → (b : Batch) × In b batches × (b.storage_radius ≤ n) × (v ≡ raised b)
    pub every :
        (b : Batch)
        → In b batches
        → In (key_of b) values
        → b.storage_radius ≤ n
        → In (raised b) r.updates
    pub counted : r.batches_count ≡ length values
    pub fewer : r.skipped_batches ≤ r.batches_count
    pub none_skipped :
        (b : Batch)
        → In b batches
        → In (key_of b) values
        → b.storage_radius ≤ n
        → r.skipped_batches < r.batches_count
    pub some_raised :
        r.skipped_batches < r.batches_count → (b : Batch) × In b batches × (b.storage_radius ≤ n)

  skip_one-IsScan :
      (k : ℕ × Bytes) (values : List (ℕ × Bytes)) (b : Batch) (r : Scan)
      → In b batches
      → key_of b ≡ k
      → n < b.storage_radius
      → IsScan values r
      → IsScan (k ∷ values) (skip_one r)
  unfolding skip_one
  skip_one-IsScan k values b r i e high s = record {
    only = s.only;
    every = λ c j m low. elim m [
      | inl f ↦
          let same : b ≡ c = id_injective b c batches u i j (ap (λ (x : ℕ × Bytes). x.1) (e ∙ f)) in
          let level = ap (λ (y : Batch). y.storage_radius) same in
          absurd (omega (arith, high, low, level))
      | inr m' ↦ s.every c j m' low
    ];
    counted = ap suc s.counted;
    fewer = omega (arith, s.fewer);
    none_skipped = λ c j m low. elim m [
      | inl f ↦
          let same : b ≡ c = id_injective b c batches u i j (ap (λ (x : ℕ × Bytes). x.1) (e ∙ f)) in
          let level = ap (λ (y : Batch). y.storage_radius) same in
          absurd (omega (arith, high, low, level))
      | inr m' ↦ omega (arith, s.none_skipped c j m' low)
    ];
    some_raised = λ h. s.some_raised (omega (arith, h));
  }

  raise_one-IsScan :
      (k : ℕ × Bytes) (values : List (ℕ × Bytes)) (b : Batch) (r : Scan)
      → In b batches
      → key_of b ≡ k
      → b.storage_radius ≤ n
      → IsScan values r
      → IsScan (k ∷ values) (raise_one b r)
  unfolding raise_one
  raise_one-IsScan k values b r i e low s = record {
    only = λ v h. elim h [ inl f ↦ (b, i, low, sym f) | inr h' ↦ s.only v h' ];
    every = λ c j m lowc. elim m [
      | inl f ↦
          let same : b ≡ c = id_injective b c batches u i j (ap (λ (x : ℕ × Bytes). x.1) (e ∙ f)) in
          inl (ap raised same)
      | inr m' ↦ inr (s.every c j m' lowc)
    ];
    counted = ap suc s.counted;
    fewer = omega (arith, s.fewer);
    none_skipped = λ c j m lowc. omega (arith, s.fewer);
    some_raised = λ h. (b, i, low);
  }

  scan-IsScan :
      (values : List (ℕ × Bytes))
      → ((k : ℕ × Bytes) → In k values → (b : Batch) × In b batches × (key_of b ≡ k))
      → (r : Scan) × (scan cb batches n values ≡ ok r) × IsScan values r
  unfolding scan empty_scan
  scan-IsScan [] backed = (
    empty_scan,
    refl,
    record {
      only = λ v h. absurd h;
      every = λ b i m low. absurd m;
      counted = refl;
      fewer = omega arith;
      none_skipped = λ b i m low. absurd m;
      some_raised = λ h. absurd (omega (arith, h));
    },
  )
  scan-IsScan (k ∷ values) backed =
      let (b, i, e) = backed k (inl refl) in
      let at : get batches k.1 ≡ some b = rw (← e) (get-In b batches u i) in
      let (r, run, s) = scan-IsScan values (λ j h. backed j (inr h)) in
      elim (Bool-cases (ltb n b.storage_radius)) [
        | inl l ↦ (
          skip_one r,
          rw (at, l, run, scan) refl,
          skip_one-IsScan k values b r i e (ground (arith, l)) s,
        )
        | inr l ↦ (
          raise_one b r,
          rw (at, l, go_on k.1 b.storage_radius, run, scan) refl,
          raise_one-IsScan k values b r i e (ground (arith, l)) s,
        )
      ]

-- the storage radius after a call
pub data IsRaised (s s' : Store) : Type 0 where
  -- some batch was chosen, and the store's radius stays
  by_batch :
      s'.storage_radius ≡ s.storage_radius
      → (b : Batch) → In b s.batches
      → b.storage_radius ≤ s.storage_radius
      → IsRaised s s'
  -- there are batches, none was chosen, and the store's radius is raised
  by_store :
      s'.storage_radius ≡ suc s.storage_radius
      → (b : Batch) → In b s.batches
      → s.storage_radius < s.radius
      → ((b : Batch) → In b s.batches → s.storage_radius < b.storage_radius)
      → IsRaised s s'
  -- there is nothing to raise
  by_none :
      s'.storage_radius ≡ s.storage_radius
      → ((b : Batch) → In b s.batches → s.storage_radius < b.storage_radius)
      → (s.batches ≡ []) ⊎ (s.radius ≤ s.storage_radius)
      → IsRaised s s'

-- the batch after a call
abbrev pub after_call : ℕ → Batch → Batch
after_call n b = if ltb n b.storage_radius then b else raised b

module _ (cb : Bytes → ℕ → Result Failure Bool)
    (go_on : (id : Bytes) (r : ℕ) → cb id r ≡ ok false) where
  -- an update of a batch's ID is the batch raised
  update_of :
      (s : Store) (r : Scan) (b v : Batch)
      → (p : IsIndexed s.batches s.values)
      → IsScan cb go_on s.batches s.storage_radius p.distinct s.values r
      → In b s.batches
      → In v r.updates
      → v.id ≡ b.id
      → (v ≡ raised b) × (b.storage_radius ≤ s.storage_radius)
  unfolding raised
  update_of s r b v p c i j e =
      let (d, m, low, f) = c.only v j in
      let same : d ≡ b =
        id_injective d b s.batches p.distinct m i (sym (ap (λ (y : Batch). y.id) f) ∙ e) in
      (f ∙ ap raised same, rw (← same) low)

  after_scan-get :
      (s : Store) (r : Scan) (b : Batch)
      → (p : IsIndexed s.batches s.values)
      → IsScan cb go_on s.batches s.storage_radius p.distinct s.values r
      → In b s.batches
      → get (after_scan s r).batches b.id ≡ some (after_call s.storage_radius b)
  unfolding after_scan raised
  after_scan-get s r b p c i = elim (Bool-cases (ltb s.storage_radius b.storage_radius)) [
    | inl l ↦ rw (l) (
        get-apply_other b.id s.batches r.updates (λ h.
          let (v, j, e) = of_ids b.id r.updates h in
          let low = (update_of s r b v p c i j e).1 in ground (arith, l, low))
        ∙ get-In b s.batches p.distinct i)
    | inr l ↦ rw (l) (
        get-apply_updated b.id (some (raised b)) s.batches r.updates
          (λ v j e. ap some (update_of s r b v p c i j e).0)
          (In-ids (raised b) r.updates (c.every b i (p.listed b i) (ground (arith, l)))))
  ]

  no_batches :
      (batches : List Batch) (values : List (ℕ × Bytes))
      → ((b : Batch) → In b batches → In (key_of b) values)
      → 0 ≡ length values
      → batches ≡ []
  no_batches [] values h e = refl
  no_batches (b ∷ batches) [] h e = absurd (h b (inl refl))
  no_batches (b ∷ batches) (k ∷ values) h e = absurd (omega (arith, e))

  some_batch :
      (batches : List Batch) (values : List (ℕ × Bytes))
      → ((k : ℕ × Bytes) → In k values → (b : Batch) × In b batches × (key_of b ≡ k))
      → 0 < length values
      → (b : Batch) × In b batches
  some_batch batches [] backed h = absurd (omega (arith, h))
  some_batch batches (k ∷ values) backed h = let (b, i, e) = backed k (inl refl) in (b, i)

  after_scan-IsRaised :
      (s : Store) (r : Scan)
      → (p : IsIndexed s.batches s.values)
      → IsScan cb go_on s.batches s.storage_radius p.distinct s.values r
      → IsRaised s (after_scan s r)
  unfolding after_scan
  after_scan-IsRaised s r p c = elim (Bool-cases (ltb r.skipped_batches r.batches_count)) [
    | inl l ↦
        let (b, i, low) = c.some_raised (ground (arith, l)) in
        let differ : (r.batches_count == r.skipped_batches) ≡ false = ground (arith, l) in
        by_batch (ground (arith, differ)) b i low
    | inr l ↦
        let equal_counts : r.batches_count ≡ r.skipped_batches = ground (arith, l, c.fewer) in
        let all_high : (b : Batch) → In b s.batches → s.storage_radius < b.storage_radius = λ b i.
          above_or b.storage_radius s.storage_radius (λ low.
            let x = c.none_skipped b i (p.listed b i) low in omega (arith, x, equal_counts)) in
        elim (Bool-cases (ltb 0 r.batches_count && ltb s.storage_radius s.radius)) [
          | inl q ↦
              let (b, i) = some_batch s.batches s.values p.backed (ground (arith, q, c.counted)) in
              by_store (ground (arith, q, equal_counts)) b i (ground (arith, q)) all_high
          | inr q ↦ elim (Bool-cases (ltb 0 r.batches_count)) [
            | inr z ↦
                by_none (ground (arith, z)) all_high
                  (inl (no_batches s.batches s.values p.listed (ground (arith, z, c.counted))))
            | inl z ↦ by_none (ground (arith, q, z)) all_high (inr (ground (arith, q, z)))
          ]
        ]
  ]

  -- While the two indices agree and the callback succeeds and never stops the iteration, Unreserve
  -- raises the storage radius of exactly the batches that are not above the store's (modulo 2^8);
  -- the store's own storage radius is raised by one, below the radius, if there are batches and all
  -- are above it, and else stays.
  pub unreserve_lem :
      (s : Store)
      → IsIndexed s.batches s.values
      → (s' : Store) × (unreserve cb s ≡ (s', ok tt))
        × ((b : Batch)
            → In b s.batches
            → get s'.batches b.id ≡ some (after_call s.storage_radius b))
        × IsRaised s s'
  unfolding unreserve
  unreserve_lem s p =
      let (r, run, c) =
        scan-IsScan cb go_on s.batches s.storage_radius p.distinct s.values p.backed in
      (
        after_scan s r,
        rw (run, unreserve) refl,
        λ b i. after_scan-get s r b p c i,
        after_scan-IsRaised s r p c,
      )
