-- ===== src/Batches/Expired.antt =====
-- The two indices of the batch store agree
-- (code/bee-snips-sup/pkg/postage/batchstore/store.go, reserve.go).
pub mod Evicted
use phd.Base.{
  ℕ, suc, ◌+◌, ◌≤◌, ◌<◌, ◌≡◌, ◌↔◌, ◌⊎◌, refl, sym, ap, ◌∙◌, inl, inr, Bool, true, false, ◌&&◌,
  Option, none, some, List, [], ◌∷◌, map, In, All, leb, ◌==◌, ==_iff, arith, Bool-cases,
  if◌then◌else◌,
}
use phd.Swarm.{Bytes, equal, equal_iff, equal_self}
use phd.Batches.{Batch, Store, get, delete, delete_value, same_key}

-- the key of a batch in the index by value
abbrev pub key_of : Batch → ℕ × Bytes
key_of b = (b.value, b.id)

abbrev pub ids : List Batch → List Bytes
ids = map (λ b. b.id)

-- no ID stands twice
abbrev pub DistinctIds : List Batch → Type 0
DistinctIds [] = Unit
DistinctIds (b ∷ batches) = ¬ In b.id (ids batches) × DistinctIds batches

-- the values do not fall
abbrev pub IsAscending : List (ℕ × Bytes) → Type 0
IsAscending [] = Unit
IsAscending (k ∷ values) = ((j : ℕ × Bytes) → In j values → k.0 ≤ j.0) × IsAscending values

-- The index by value holds the key of every batch, in order, and nothing else.
pub record IsIndexed (batches : List Batch) (values : List (ℕ × Bytes)) : Type 0 where
  pub distinct : DistinctIds batches
  pub ascending : IsAscending values
  pub listed : (b : Batch) → In b batches → In (key_of b) values
  pub backed : (k : ℕ × Bytes) → In k values → (b : Batch) × In b batches × (key_of b ≡ k)

pub In-ids : (b : Batch) (batches : List Batch) → In b batches → In b.id (ids batches)
In-ids b [] h = absurd h
In-ids b (x ∷ batches) (inl e) = inl (ap (λ (c : Batch). c.id) e)
In-ids b (x ∷ batches) (inr h) = inr (In-ids b batches h)

pub of_ids :
    (id : Bytes) (batches : List Batch)
    → In id (ids batches)
    → (b : Batch) × In b batches × (b.id ≡ id)
of_ids id [] h = absurd h
of_ids id (x ∷ batches) (inl e) = (x, inl refl, e)
of_ids id (x ∷ batches) (inr h) = let (b, i, e) = of_ids id batches h in (b, inr i, e)

pub get-In :
    (b : Batch) (batches : List Batch)
    → DistinctIds batches
    → In b batches
    → get batches b.id ≡ some b
unfolding get
get-In b [] u h = absurd h
get-In b (x ∷ batches) u (inl e) = rw (← e) (rw (equal_self x.id) refl)
get-In b (x ∷ batches) u (inr h) = elim (Bool-cases (equal x.id b.id)) [
  | inl e ↦
      let same : x.id ≡ b.id = (equal_iff x.id b.id).0 e in
      absurd (u.0 (rw (same) (In-ids b batches h)))
  | inr e ↦ rw (e) (get-In b batches u.1 h)
]

-- batches of one ID are one
pub id_injective :
    (b c : Batch) (batches : List Batch)
    → DistinctIds batches
    → In b batches
    → In c batches
    → b.id ≡ c.id
    → b ≡ c
id_injective b c batches u i j e =
    let p = get-In b batches u i in
    let q : get batches b.id ≡ some c = rw (e) (get-In c batches u j) in
    let r : some b ≡ some c = sym p ∙ q in cc r

pub In-delete :
    (id : Bytes) (b : Batch) (batches : List Batch)
    → In b (delete batches id) ↔ (In b batches × ¬ (b.id ≡ id))
unfolding delete
In-delete id b [] = (λ h. absurd h, λ (h, n). h)
In-delete id b (x ∷ batches) = elim (Bool-cases (equal x.id id)) [
  | inl e ↦
      let same : x.id ≡ id = (equal_iff x.id id).0 e in
      let ih = In-delete id b batches in
      rw (e) (
        λ h. let (i, n) = ih.0 h in (inr i, n),
        λ (h, n). elim h [
          | inl f ↦ absurd (n (ap (λ (c : Batch). c.id) (sym f) ∙ same))
          | inr i ↦ ih.1 (i, n)
        ],
      )
  | inr e ↦
      let ih = In-delete id b batches in
      rw (e) (
        λ h. elim h [
          | inl f ↦ (
            inl f,
            λ n.
                let back : equal x.id id ≡ true =
                  (equal_iff x.id id).1 (ap (λ (c : Batch). c.id) f ∙ n) in
                absurd cc,
          )
          | inr i ↦ let (j, n) = ih.0 i in (inr j, n)
        ],
        λ (h, n). elim h [ inl f ↦ inl f | inr i ↦ inr (ih.1 (i, n)) ],
      )
]

pub delete-DistinctIds :
    (id : Bytes) (batches : List Batch) → DistinctIds batches → DistinctIds (delete batches id)
unfolding delete
delete-DistinctIds id [] u = tt
delete-DistinctIds id (x ∷ batches) (n, u) = elim (Bool-cases (equal x.id id)) [
  | inl e ↦ rw (e) (delete-DistinctIds id batches u)
  | inr e ↦ rw (e) (
    λ h.
        let (b, i, f) = of_ids x.id (delete batches id) h in
        n (rw (← f) (In-ids b batches ((In-delete id b batches).0 i).0)),
    delete-DistinctIds id batches u,
  )
]

-- equal keys are one key
pub same_key_iff : (j k : ℕ × Bytes) → (same_key j k ≡ true) ↔ (j ≡ k)
same_key_iff (m, x) (n, y) = (
  λ h.
      let a : m ≡ n = ground (arith, h) in
      let b : x ≡ y = (equal_iff x y).0 (ground (arith, h)) in λ i. (a i, b i),
  λ h.
      let a : m ≡ n = ap (λ (k : ℕ × Bytes). k.0) h in
      let b : equal x y ≡ true = (equal_iff x y).1 (ap (λ (k : ℕ × Bytes). k.1) h) in
      ground (arith, a, b),
)

pub In-delete_value :
    (k j : ℕ × Bytes) (values : List (ℕ × Bytes))
    → In j (delete_value values k) ↔ (In j values × ¬ (j ≡ k))
unfolding delete_value
In-delete_value k j [] = (λ h. absurd h, λ (h, n). h)
In-delete_value k j (x ∷ values) =
    let ih = In-delete_value k j values in
    elim (Bool-cases (same_key x k)) [
      | inl e ↦
          let same : x ≡ k = (same_key_iff x k).0 e in
          rw (e) (
            λ h. let (i, n) = ih.0 h in (inr i, n),
            λ (h, n). elim h [ inl f ↦ absurd (n (sym f ∙ same)) | inr i ↦ ih.1 (i, n) ],
          )
      | inr e ↦ rw (e) (
        λ h. elim h [
          | inl f ↦ (
            inl f,
            λ n. let back : same_key x k ≡ true = (same_key_iff x k).1 (f ∙ n) in absurd cc,
          )
          | inr i ↦ let (j, n) = ih.0 i in (inr j, n)
        ],
        λ (h, n). elim h [ inl f ↦ inl f | inr i ↦ inr (ih.1 (i, n)) ],
      )
    ]

pub delete_value-IsAscending :
    (k : ℕ × Bytes) (values : List (ℕ × Bytes))
    → IsAscending values
    → IsAscending (delete_value values k)
unfolding delete_value
delete_value-IsAscending k [] u = tt
delete_value-IsAscending k (x ∷ values) (n, u) = elim (Bool-cases (same_key x k)) [
  | inl e ↦ rw (e) (delete_value-IsAscending k values u)
  | inr e ↦
      rw (e) (λ j h. n j ((In-delete_value k j values).0 h).0, delete_value-IsAscending k values u)
]
