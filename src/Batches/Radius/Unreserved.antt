-- ===== src/Batches/Radius/Unreserved.antt =====
-- Unreserve keeps the storage radius within the radius
-- (code/bee-snips-sup/pkg/postage/batchstore/reserve.go).
use phd.Base.{
  ℕ, suc, ◌+◌, ◌%◌, ◌≤◌, ◌≡◌, inl, inr, Bool, List, [], ◌∷◌, ◌&&◌, All, ltb, ◌==◌, arith,
  Bool-cases, Option-cases, if◌then◌else◌,
}
use phd.Base.Result.{Result, ok, err, ◌>>=◌, >>=-eq-ok, ok-injective, Result-cases}
use phd.Swarm.{Bytes}
use phd.Batches.{Batch, Store, Failure, not_found, get, put}
use phd.Batches.Reserve.{
  Scan, scan, skip_one, raise_one, empty_scan, raised, apply_all, after_scan, unreserve,
}
use phd.Batches.Radius.{IsNear, IsReserve, All-put, All-weaken}

apply_all-All :
    (n : ℕ) (batches updates : List Batch)
    → All (IsNear n) batches
    → All (IsNear n) updates
    → All (IsNear n) (apply_all batches updates)
unfolding apply_all
apply_all-All n batches [] all us = all
apply_all-All n batches (u ∷ updates) all (p, us) =
    apply_all-All n (put batches u) updates (All-put (IsNear n) batches u all p) us

scan-All :
    (cb : Bytes → ℕ → Result Failure Bool) (batches : List Batch) (n : ℕ)
    (values : List (ℕ × Bytes)) (r : Scan)
    → scan cb batches n values ≡ ok r
    → All (IsNear n) r.updates
unfolding scan empty_scan skip_one raise_one raised
scan-All cb batches n [] r h = rw (← ok-injective h) tt
scan-All cb batches n (k ∷ values) r h = elim (Option-cases (get batches k.1)) [
  | inl e ↦ let x : err not_found ≡ ok r = rw (e, scan) at h in absurd cc
  | inr (b, e) ↦ elim (Bool-cases (ltb n b.storage_radius)) [
    | inl l ↦
        let x : (scan cb batches n values >>= λ t. ok (skip_one t)) ≡ ok r = rw (e, l, scan) at h in
        let (t, run, same) = >>=-eq-ok (scan cb batches n values) _ x in
        let all = scan-All cb batches n values t run in rw (← ok-injective same) all
    | inr l ↦
        let at_most : b.storage_radius ≤ n = ground (arith, l) in
        let near : (b.storage_radius + 1) % 256 ≤ suc n = omega (arith, at_most) in
        let x : (cb k.1 b.storage_radius >>= λ stopped.
        if stopped
        then ok (raise_one b empty_scan)
        else (scan cb batches n values >>= λ t. ok (raise_one b t)))
            ≡ ok r =
          rw (e, l, scan) at h in
        let (stopped, called, y) = >>=-eq-ok (cb k.1 b.storage_radius) _ x in
        elim (Bool-cases stopped) [
          | inl c ↦
              let z : ok (raise_one b empty_scan) ≡ ok r = rw (c) at y in
              rw (← ok-injective z) (near, tt)
          | inr c ↦
              let z : (scan cb batches n values >>= λ t. ok (raise_one b t)) ≡ ok r = rw (c) at y in
              let (t, run, same) = >>=-eq-ok (scan cb batches n values) _ z in
              let all = scan-All cb batches n values t run in rw (← ok-injective same) (near, all)
        ]
  ]
]

after_scan-IsReserve :
    (s : Store) (r : Scan)
    → s.storage_radius ≤ s.radius
    → All (IsNear s.storage_radius) (apply_all s.batches r.updates)
    → IsReserve (after_scan s r)
unfolding after_scan
after_scan-IsReserve s r within near =
    elim (Bool-cases (
      ltb 0 r.batches_count
      && (r.batches_count == r.skipped_batches)
      && ltb s.storage_radius s.radius)) [
        | inr c ↦ rw (c) (record { within = within; near = near })
        | inl c ↦ rw (c) (record {
          within = ground (arith, c);
          near =
              All-weaken s.storage_radius (suc s.storage_radius) (apply_all s.batches r.updates)
                (omega arith) near;
        })
      ]

pub unreserve-IsReserve :
    (cb : Bytes → ℕ → Result Failure Bool) (s : Store) → IsReserve s → IsReserve (unreserve cb s).0
unfolding unreserve
unreserve-IsReserve cb s p = elim (Result-cases (scan cb s.batches s.storage_radius s.values)) [
  | inr (inr e) ↦ rw (e, unreserve) p
  | inr (inl (f, e)) ↦ rw (e, unreserve) p
  | inl (r, e) ↦
      rw (e, unreserve)
        (after_scan-IsReserve s r p.within (
          apply_all-All s.storage_radius s.batches r.updates p.near
            (scan-All cb s.batches s.storage_radius s.values r e)))
]
