-- ===== src/Batches.antt =====
-- The batches of the chain and the radius of the reserve (code/bee-snips-sup/pkg/postage/batchstore).
-- The state store is two indices in the order of their keys; its input and output errors, the
-- persisted copies of the chain and reserve states, and the notifications of setters are left out.
pub mod Reserve
pub mod Radius
pub mod Expired
use phd.Base.{
  ℕ, ◌+◌, ◌%◌, ◌^◌, ◌≤◌, Bool, true, false, ◌||◌, ◌&&◌, not, Option, none, some, List, [], ◌∷◌,
  ◌++◌, leb, ltb, ◌==◌, if◌then◌else◌,
}
use phd.Base.Result.{Result, ok, err, panic}
use phd.Swarm.{Bytes, equal, Comparison, below, same, above, compare_bytes}

-- What the store reads of a batch.
pub record Batch : Type 0 where
  pub id : Bytes
  pub value : ℕ
  pub depth : ℕ
  pub storage_radius : ℕ

pub record ChainState : Type 0 where
  pub block : ℕ
  pub total_amount : ℕ
  pub current_price : ℕ

pub record Store : Type 0 where
  -- by ID
  pub batches : List Batch
  -- by value, then ID
  pub values : List (ℕ × Bytes)
  pub chain : ChainState
  -- the reserve state
  pub radius : ℕ
  pub storage_radius : ℕ

pub data Failure : Type 0 where
  not_found already_exists storage_radius_exceeds evict_failed callback_failed : Failure

-- the state store's Get, Put and Delete of a batch
unfoldable pub get : List Batch → Bytes → Option Batch
get [] id = none
get (b ∷ batches) id = if equal b.id id then some b else get batches id

abbrev pub goes_before : Comparison → Bool
goes_before below = true
goes_before _ = false

unfoldable pub put : List Batch → Batch → List Batch
put [] b = b ∷ []
put (x ∷ batches) b =
    let rest = put batches b in
    if equal x.id b.id
    then b ∷ batches
    else if goes_before (compare_bytes b.id x.id)
    then b ∷ x ∷ batches
    else x ∷ rest

unfoldable pub delete : List Batch → Bytes → List Batch
delete [] id = []
delete (b ∷ batches) id = let rest = delete batches id in if equal b.id id then rest else b ∷ rest

-- a value key comes before another
unfoldable pub key_before : ℕ × Bytes → ℕ × Bytes → Bool
key_before a b = ltb a.0 b.0 || ((a.0 == b.0) && goes_before (compare_bytes a.1 b.1))

abbrev pub same_key : ℕ × Bytes → ℕ × Bytes → Bool
same_key a b = (a.0 == b.0) && equal a.1 b.1

unfoldable pub put_value : List (ℕ × Bytes) → ℕ × Bytes → List (ℕ × Bytes)
unfolding key_before
put_value [] k = k ∷ []
put_value (x ∷ values) k =
    let rest = put_value values k in
    if same_key x k then k ∷ values else if key_before k x then k ∷ x ∷ values else x ∷ rest

unfoldable pub delete_value : List (ℕ × Bytes) → ℕ × Bytes → List (ℕ × Bytes)
delete_value [] k = []
delete_value (x ∷ values) k =
    let rest = delete_value values k in if same_key x k then rest else x ∷ rest

-- What an operation does: the store after it, the batches that it evicted, and how it ends.
abbrev pub Done : Type 0
Done = Store × List Bytes × Result Failure (Unit {0})

-- the iteration of `cleanup`: the batches to evict
unfoldable pub expired : List Batch → ℕ → List (ℕ × Bytes) → Option (List Batch)
unfolding get
expired batches total [] = some []
expired batches total (k ∷ values) =
    let rest = expired batches total values in
    elim (get batches k.1) [
      | none ↦ none
      | some b ↦
          if leb b.value total then elim rest [ none ↦ none | some bs ↦ some (b ∷ bs) ] else some []
    ]

-- the removal of one batch
unfoldable pub evict : Store → Batch → Store
unfolding delete delete_value
evict s b = record s {
  batches = delete s.batches b.id;
  values = delete_value s.values (b.value, b.id);
}

module _ (evict_fn : Bytes → Bool) where
  -- the second loop of `cleanup`
  unfoldable pub evict_all : List Batch → Store → Done
  unfolding evict
  evict_all [] s = (s, [], ok tt)
  evict_all (b ∷ evictions) s =
      let rest = evict_all evictions (evict s b) in
      if not (evict_fn b.id) then (s, [], err evict_failed) else (rest.0, b.id ∷ rest.1, rest.2)

  -- `cleanup`
  unfoldable pub cleanup : Store → Done
  unfolding expired evict_all
  cleanup s = elim (expired s.batches s.chain.total_amount s.values) [
    | none ↦ (s, [], err not_found)
    | some evictions ↦ evict_all evictions s
  ]

-- `exp2`, an int64 as its 64 bits
unfoldable pub exp2 : ℕ → ℕ
exp2 e = 2 ^ e % 2 ^ 64

-- the iteration of `computeRadius`
unfoldable pub total_commitment : List Batch → ℕ
unfolding exp2
total_commitment [] = 0
total_commitment (b ∷ batches) = (exp2 b.depth + total_commitment batches) % 2 ^ 64

-- the radius for a total commitment, which is negative from 2^63 on; `radius_of` is the ceiling of
-- the binary logarithm of its share of the capacity, in floating point
unfoldable pub new_radius : (ℕ → ℕ) → ℕ → ℕ
new_radius radius_of total =
    if leb (2 ^ 63) total || leb total (2 ^ 22) then 0 else radius_of total % 256

-- `lowerBatchStorageRadius`
unfoldable pub lower_batch_storage_radius : ℕ → List Batch → List Batch
lower_batch_storage_radius bound [] = []
lower_batch_storage_radius bound (b ∷ batches) =
    let rest = lower_batch_storage_radius bound batches in
    (if ltb bound b.storage_radius then record b { storage_radius = bound } else b) ∷ rest

-- the end of `computeRadius`
unfoldable pub set_radius : Store → ℕ → Store
unfolding lower_batch_storage_radius
set_radius s r =
    if ltb r s.storage_radius
    then record s {
      radius = r;
      storage_radius = r;
      batches = lower_batch_storage_radius r s.batches;
    }
    else record s { radius = r }

-- `computeRadius`
unfoldable pub compute_radius : (ℕ → ℕ) → Store → Store
unfolding total_commitment new_radius set_radius
compute_radius radius_of s = set_radius s (new_radius radius_of (total_commitment s.batches))

-- the calls of `computeRadius` that follow a `cleanup` without an error
unfoldable pub after_cleanup : (ℕ → ℕ) → Done → Done
unfolding compute_radius
after_cleanup radius_of (s, evicted, ok _) = (compute_radius radius_of s, evicted, ok tt)
after_cleanup radius_of (s, evicted, err e) = (s, evicted, err e)
after_cleanup radius_of (s, evicted, panic) = (s, evicted, panic)

-- `SetStorageRadius`
unfoldable pub set_storage_radius : Store → (ℕ → ℕ) → Done
unfolding lower_batch_storage_radius
set_storage_radius s f =
    let r = f s.storage_radius in
    if ltb s.radius r
    then (s, [], err storage_radius_exceeds)
    else if ltb r s.storage_radius
    then (
      record s { storage_radius = r; batches = lower_batch_storage_radius r s.batches },
      [],
      ok tt,
    )
    else (record s { storage_radius = r }, [], ok tt)

module _ (evict_fn : Bytes → Bool) (radius_of : ℕ → ℕ) where
  -- `saveBatch`
  unfoldable pub save_batch : Store → Batch → Done
  unfolding after_cleanup cleanup put_value
  save_batch s b =
      after_cleanup radius_of
        (cleanup evict_fn (record s { values = put_value s.values (b.value, b.id) }))

  -- `Save`
  unfoldable pub save : Store → Batch → Done
  unfolding save_batch put get
  save s batch = elim (get s.batches batch.id) [
    | some _ ↦ (s, [], err already_exists)
    | none ↦
        let b = record batch { storage_radius = s.storage_radius } in
        save_batch (record s { batches = put s.batches b }) b
  ]

  -- `Update`, with the batch as the caller holds it
  unfoldable pub update : Store → Batch → ℕ → ℕ → Done
  unfolding save_batch put get delete_value
  update s batch value depth = elim (get s.batches batch.id) [
    | none ↦ (s, [], err not_found)
    | some old ↦
        let b = record batch {
          value = value;
          depth = depth;
          storage_radius = old.storage_radius;
        } in
        save_batch
          (record s {
            values = delete_value s.values (batch.value, batch.id);
            batches = put s.batches b;
          })
          b
  ]

  -- `PutChainState`
  unfoldable pub put_chain_state : Store → ChainState → Done
  unfolding after_cleanup cleanup
  put_chain_state s cs = after_cleanup radius_of (cleanup evict_fn (record s { chain = cs }))

-- `Reset`, and `New` over an empty state store
unfoldable pub new : Store
new = record {
  batches = [];
  values = [];
  chain = record { block = 0; total_amount = 0; current_price = 0 };
  radius = 0;
  storage_radius = 0;
}
