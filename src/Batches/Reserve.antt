-- ===== src/Batches/Reserve.antt =====
-- Unreserve (code/bee-snips-sup/pkg/postage/batchstore/reserve.go). The callback is a parameter.
pub mod Raised
use phd.Base.{
  ℕ, suc, ◌+◌, ◌%◌, Bool, true, false, ◌&&◌, Option, none, some, List, [], ◌∷◌, ◌==◌, ltb,
  if◌then◌else◌,
}
use phd.Base.Result.{Result, ok, err, panic, ◌>>=◌}
use phd.Swarm.{Bytes}
use phd.Batches.{Batch, Store, Failure, not_found, callback_failed, get, put}

-- What the iteration has gathered: how many batches it saw and skipped, and the updates.
pub record Scan : Type 0 where
  pub batches_count : ℕ
  pub skipped_batches : ℕ
  pub updates : List Batch

unfoldable pub skip_one : Scan → Scan
skip_one r = record r {
  batches_count = suc r.batches_count;
  skipped_batches = suc r.skipped_batches;
}

unfoldable pub raised : Batch → Batch
raised b = record b { storage_radius = (b.storage_radius + 1) % 256 }

unfoldable pub raise_one : Batch → Scan → Scan
unfolding raised
raise_one b r = record r { batches_count = suc r.batches_count; updates = raised b ∷ r.updates }

unfoldable pub empty_scan : Scan
empty_scan = record { batches_count = 0; skipped_batches = 0; updates = [] }

unfoldable pub apply_all : List Batch → List Batch → List Batch
unfolding put
apply_all batches [] = batches
apply_all batches (u ∷ updates) = apply_all (put batches u) updates

-- `Unreserve` after the iteration. The store's radius is raised below `Radius`, a uint8, so that it
-- does not wrap.
unfoldable pub after_scan : Store → Scan → Store
unfolding apply_all
after_scan s r =
    let all_skipped =
      ltb 0 r.batches_count
      && (r.batches_count == r.skipped_batches)
      && ltb s.storage_radius s.radius in
    record s {
      batches = apply_all s.batches r.updates;
      storage_radius = if all_skipped then suc s.storage_radius else s.storage_radius;
    }

module _ (cb : Bytes → ℕ → Result Failure Bool) where
  -- the iteration of `Unreserve`
  unfoldable pub scan : List Batch → ℕ → List (ℕ × Bytes) → Result Failure Scan
  unfolding get skip_one raise_one empty_scan
  scan batches global [] = ok empty_scan
  scan batches global (k ∷ values) =
      let rest = scan batches global values in
      elim (get batches k.1) [
        | none ↦ err not_found
        | some b ↦
            if ltb global b.storage_radius
            then (rest >>= λ r. ok (skip_one r))
            else (cb k.1 b.storage_radius >>= λ stopped.
                if stopped then ok (raise_one b empty_scan) else (rest >>= λ r. ok (raise_one b r)))
      ]

  -- `Unreserve`
  unfoldable pub unreserve : Store → Store × Result Failure (Unit {0})
  unfolding scan after_scan
  unreserve s = elim (scan s.batches s.storage_radius s.values) [
    | ok r ↦ (after_scan s r, ok tt)
    | err e ↦ (s, err e)
    | panic ↦ (s, panic)
  ]
