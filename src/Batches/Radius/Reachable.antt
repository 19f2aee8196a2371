-- ===== src/Batches/Radius/Reachable.antt =====
-- Every call of the store keeps the storage radius within the radius
-- (code/bee-snips-sup/pkg/postage/batchstore/store.go).
use phd.Base.{ℕ, inl, inr, Bool, arith, Option-cases}
use phd.Base.Result.{Result}
use phd.Swarm.{Bytes}
use phd.Batches.{
  Batch, ChainState, Store, Failure, get, put, cleanup, save_batch, save, update, put_chain_state,
  set_storage_radius, new, put_value, delete_value,
}
use phd.Batches.Reserve.{unreserve}
use phd.Batches.Radius.{
  IsNear, IsReserve, All-put, All-get, cleanup-IsReserve, after_cleanup-IsReserve,
  set_storage_radius-IsReserve,
}
use phd.Batches.Radius.Unreserved.{unreserve-IsReserve}

module _ (evict_fn : Bytes → Bool) (radius_of : ℕ → ℕ) where
  save_batch-IsReserve :
      (s : Store) (b : Batch) → IsReserve s → IsReserve (save_batch evict_fn radius_of s b).0
  unfolding save_batch
  save_batch-IsReserve s b p =
      let t = record s { values = put_value s.values (b.value, b.id) } in
      after_cleanup-IsReserve radius_of (cleanup evict_fn t)
        (cleanup-IsReserve evict_fn t (record { within = p.within; near = p.near }))

  save-IsReserve : (s : Store) (b : Batch) → IsReserve s → IsReserve (save evict_fn radius_of s b).0
  unfolding save
  save-IsReserve s b p = elim (Option-cases (get s.batches b.id)) [
    | inr (old, e) ↦ rw (e, save) p
    | inl e ↦
        let c = record b { storage_radius = s.storage_radius } in
        rw (e, save)
          (save_batch-IsReserve (record s { batches = put s.batches c }) c
            (record {
              within = p.within;
              near = All-put (IsNear s.storage_radius) s.batches c p.near (omega arith);
            }))
  ]

  update-IsReserve :
      (s : Store) (b : Batch) (value depth : ℕ)
      → IsReserve s
      → IsReserve (update evict_fn radius_of s b value depth).0
  unfolding update
  update-IsReserve s b value depth p = elim (Option-cases (get s.batches b.id)) [
    | inl e ↦ rw (e, update) p
    | inr (old, e) ↦
        let c = record b { value = value; depth = depth; storage_radius = old.storage_radius } in
        let t = record s {
          values = delete_value s.values (b.value, b.id);
          batches = put s.batches c;
        } in
        let near_old = All-get (IsNear s.storage_radius) s.batches b.id old e p.near in
        rw (e, update)
          (save_batch-IsReserve t c (record {
            within = p.within;
            near = All-put (IsNear s.storage_radius) s.batches c p.near near_old;
          }))
  ]

  put_chain_state-IsReserve :
      (s : Store) (cs : ChainState)
      → IsReserve s
      → IsReserve (put_chain_state evict_fn radius_of s cs).0
  unfolding put_chain_state
  put_chain_state-IsReserve s cs p =
      let t = record s { chain = cs } in
      after_cleanup-IsReserve radius_of (cleanup evict_fn t)
        (cleanup-IsReserve evict_fn t (record { within = p.within; near = p.near }))

-- One call of the store, with its arguments and with what the callbacks and the radius computation
-- return.
pub data Step : Store → Store → Type 0 where
  saves :
      (s : Store) (evict_fn : Bytes → Bool) (radius_of : ℕ → ℕ) (b : Batch)
      → Step s (save evict_fn radius_of s b).0
  updates :
      (s : Store) (evict_fn : Bytes → Bool) (radius_of : ℕ → ℕ) (b : Batch) (value depth : ℕ)
      → Step s (update evict_fn radius_of s b value depth).0
  puts_chain_state :
      (s : Store) (evict_fn : Bytes → Bool) (radius_of : ℕ → ℕ) (cs : ChainState)
      → Step s (put_chain_state evict_fn radius_of s cs).0
  sets_storage_radius : (s : Store) (f : ℕ → ℕ) → Step s (set_storage_radius s f).0
  unreserves : (s : Store) (cb : Bytes → ℕ → Result Failure Bool) → Step s (unreserve cb s).0
  resets : (s : Store) → Step s new

-- A store that some calls lead to from a new one.
pub data Reachable : Store → Type 0 where
  started : Reachable new
  stepped : {s t : Store} → Reachable s → Step s t → Reachable t

Step-IsReserve : {s t : Store} → Step s t → IsReserve s → IsReserve t
unfolding new
Step-IsReserve (saves s evict_fn radius_of b) p = save-IsReserve evict_fn radius_of s b p
Step-IsReserve (updates s evict_fn radius_of b value depth) p =
    update-IsReserve evict_fn radius_of s b value depth p
Step-IsReserve (puts_chain_state s evict_fn radius_of cs) p =
    put_chain_state-IsReserve evict_fn radius_of s cs p
Step-IsReserve (sets_storage_radius s f) p = set_storage_radius-IsReserve s f p
Step-IsReserve (unreserves s cb) p = unreserve-IsReserve cb s p
Step-IsReserve (resets s) p = record { within = omega arith; near = tt }

-- In every store that calls of Save, Update, PutChainState, SetStorageRadius, Unreserve and Reset
-- lead to from a new one, whatever the callbacks and the computation of the radius return, the
-- storage radius is at most the radius, and no batch's storage radius is more than one above it.
pub Reachable-IsReserve : {s : Store} → Reachable s → IsReserve s
unfolding new
Reachable-IsReserve started = record { within = omega arith; near = tt }
Reachable-IsReserve (stepped r step) = Step-IsReserve step (Reachable-IsReserve r)
