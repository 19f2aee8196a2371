-- ===== src/Batches/Radius.antt =====
-- The storage radius stays within the radius
-- (code/bee-snips-sup/pkg/postage/batchstore/store.go, reserve.go).
pub mod Unreserved
pub mod Reachable
use phd.Base.{
  ℕ, suc, ◌+◌, ◌%◌, ◌≤◌, ◌≡◌, ◌⊎◌, refl, inl, inr, Bool, true, false, not, Option, none, some, List,
  [], ◌∷◌, ◌&&◌, All, leb, ltb, ◌==◌, arith, Bool-cases, Option-cases, if◌then◌else◌,
}
use phd.Base.Result.{Result, ok, err, panic, ◌>>=◌, >>=-eq-ok, ok-injective, Result-cases}
use phd.Swarm.{Bytes, equal, compare_bytes}
use phd.Batches.{
  Batch, ChainState, Store, Failure, not_found, Done, get, put, delete, goes_before, evict,
  evict_all, cleanup, expired, new_radius, total_commitment, lower_batch_storage_radius, set_radius,
  compute_radius, after_cleanup, save_batch, save, update, put_chain_state, set_storage_radius, new,
  put_value, delete_value,
}
use phd.Batches.Reserve.{
  Scan, scan, skip_one, raise_one, empty_scan, raised, apply_all, after_scan, unreserve,
}

-- The batch is at most one above the store's storage radius.
abbrev pub IsNear : ℕ → Batch → Type 0
IsNear n b = b.storage_radius ≤ suc n

pub record IsReserve (s : Store) : Type 0 where
  pub within : s.storage_radius ≤ s.radius
  pub near : All (IsNear s.storage_radius) s.batches

pub All-put :
    (P : Batch → Type 0) (batches : List Batch) (b : Batch)
    → All P batches
    → P b
    → All P (put batches b)
unfolding put
All-put P [] b all p = (p, tt)
All-put P (x ∷ batches) b (q, all) p = elim (Bool-cases (equal x.id b.id)) [
  | inl e ↦ rw (e) (p, all)
  | inr e ↦ elim (Bool-cases (goes_before (compare_bytes b.id x.id))) [
    | inl f ↦ rw (e, f) (p, (q, all))
    | inr f ↦ rw (e, f) (q, All-put P batches b all p)
  ]
]

pub All-delete :
    (P : Batch → Type 0) (batches : List Batch) (id : Bytes)
    → All P batches
    → All P (delete batches id)
unfolding delete
All-delete P [] id all = tt
All-delete P (x ∷ batches) id (q, all) = elim (Bool-cases (equal x.id id)) [
  | inl e ↦ rw (e) (All-delete P batches id all)
  | inr e ↦ rw (e) (q, All-delete P batches id all)
]

pub All-get :
    (P : Batch → Type 0) (batches : List Batch) (id : Bytes) (b : Batch)
    → get batches id ≡ some b
    → All P batches
    → P b
unfolding get
All-get P [] id b h all = absurd cc
All-get P (x ∷ batches) id b h (q, all) = elim (Bool-cases (equal x.id id)) [
  | inl e ↦ let f : some x ≡ some b = rw (e) at h in let g : x ≡ b = cc f in rw (← g) q
  | inr e ↦ All-get P batches id b (rw (e) at h) all
]

pub All-weaken :
    (m n : ℕ) (batches : List Batch) → m ≤ n → All (IsNear m) batches → All (IsNear n) batches
All-weaken m n [] h all = tt
All-weaken m n (b ∷ batches) h (p, all) = (omega arith, All-weaken m n batches h all)

pub lower-All :
    (n : ℕ) (batches : List Batch) → All (IsNear n) (lower_batch_storage_radius n batches)
unfolding lower_batch_storage_radius
lower-All n [] = tt
lower-All n (b ∷ batches) = elim (Bool-cases (ltb n b.storage_radius)) [
  | inl e ↦ rw (e) (omega arith, lower-All n batches)
  | inr e ↦ rw (e) (ground (arith, e), lower-All n batches)
]

pub set_radius-IsReserve : (s : Store) (r : ℕ) → IsReserve s → IsReserve (set_radius s r)
unfolding set_radius
set_radius-IsReserve s r p = elim (Bool-cases (ltb r s.storage_radius)) [
  | inl e ↦ rw (e) (record { within = omega arith; near = lower-All r s.batches })
  | inr e ↦ rw (e) (record { within = ground (arith, e); near = p.near })
]

pub evict-IsReserve : (s : Store) (b : Batch) → IsReserve s → IsReserve (evict s b)
unfolding evict
evict-IsReserve s b p = record {
  within = p.within;
  near = All-delete (IsNear s.storage_radius) s.batches b.id p.near;
}

pub evict_all-IsReserve :
    (evict_fn : Bytes → Bool) (evictions : List Batch) (s : Store)
    → IsReserve s
    → IsReserve (evict_all evict_fn evictions s).0
unfolding evict_all
evict_all-IsReserve evict_fn [] s p = p
evict_all-IsReserve evict_fn (b ∷ evictions) s p = elim (Bool-cases (evict_fn b.id)) [
  | inl e ↦ rw (e) (evict_all-IsReserve evict_fn evictions (evict s b) (evict-IsReserve s b p))
  | inr e ↦ rw (e) p
]

pub cleanup-IsReserve :
    (evict_fn : Bytes → Bool) (s : Store) → IsReserve s → IsReserve (cleanup evict_fn s).0
unfolding cleanup
cleanup-IsReserve evict_fn s p =
    elim (Option-cases (expired s.batches s.chain.total_amount s.values)) [
      | inl e ↦ rw (e, cleanup) p
      | inr (bs, e) ↦ rw (e, cleanup) (evict_all-IsReserve evict_fn bs s p)
    ]

pub after_cleanup-IsReserve :
    (radius_of : ℕ → ℕ) (d : Done) → IsReserve d.0 → IsReserve (after_cleanup radius_of d).0
unfolding after_cleanup compute_radius
after_cleanup-IsReserve radius_of (s, evicted, ok _) p = set_radius-IsReserve s _ p
after_cleanup-IsReserve radius_of (s, evicted, err e) p = p
after_cleanup-IsReserve radius_of (s, evicted, panic) p = p

pub set_storage_radius-IsReserve :
    (s : Store) (f : ℕ → ℕ) → IsReserve s → IsReserve (set_storage_radius s f).0
unfolding set_storage_radius
set_storage_radius-IsReserve s f p = elim (Bool-cases (ltb s.radius (f s.storage_radius))) [
  | inl e ↦ rw (e) p
  | inr e ↦ elim (Bool-cases (ltb (f s.storage_radius) s.storage_radius)) [
    | inl l ↦
        rw (e, l)
          (record { within = ground (arith, e); near = lower-All (f s.storage_radius) s.batches })
    | inr l ↦
        rw (e, l)
          (record {
            within = ground (arith, e);
            near =
                All-weaken s.storage_radius (f s.storage_radius) s.batches (ground (arith, l))
                  p.near;
          })
  ]
]
