-- ===== src/Tests/BatchExamples.antt =====
-- Witnesses for the batch store, with a batch that is paid out and one that is not.
use phd.Base.{
  ℕ, ◌≤◌, ◌<◌, ◌≡◌, ◌↔◌, refl, ap, inl, inr, Bool, true, false, some, List, [], ◌∷◌, In, arith,
}
use phd.Base.Result.{Result, ok}
use phd.Swarm.{Bytes}
use phd.Batches.{Batch, Store, Failure, get, save, cleanup, new}
use phd.Batches.Reserve.{unreserve}
use phd.Batches.Reserve.Raised.{after_call, IsRaised, unreserve_lem}
use phd.Batches.Radius.{IsReserve}
use phd.Batches.Radius.Reachable.{started, stepped, saves, unreserves, Reachable-IsReserve}
use phd.Batches.Expired.{key_of, IsIndexed}
use phd.Batches.Expired.Evicted.{cleanup_lem}

abbrev paid_out : Batch
paid_out = record { id = 1 ∷ []; value = 3; depth = 20; storage_radius = 0 }

abbrev funded : Batch
funded = record { id = 2 ∷ []; value = 9; depth = 24; storage_radius = 1 }

abbrev store : Store
store = record {
  batches = paid_out ∷ funded ∷ [];
  values = (3, 1 ∷ []) ∷ (9, 2 ∷ []) ∷ [];
  chain = record { block = 7; total_amount = 5; current_price = 1 };
  radius = 3;
  storage_radius = 0;
}

other_id : ¬ In {A = Bytes} (1 ∷ []) ((2 ∷ []) ∷ [])
other_id h = elim h [ inl e ↦ absurd cc | inr i ↦ absurd i ]

ascending : (j : ℕ × Bytes) → In j ((9, 2 ∷ []) ∷ []) → 3 ≤ j.0
ascending j h = elim h [ inl e ↦ rw (← e) (omega arith) | inr i ↦ absurd i ]

indexed : IsIndexed store.batches store.values
indexed = record {
  distinct = (other_id, (λ h. absurd h, tt));
  ascending = (ascending, (λ j h. absurd h, tt));
  listed = λ b h. elim h [
    | inl e ↦ inl (ap key_of e)
    | inr i ↦ elim i [ inl e ↦ inr (inl (ap key_of e)) | inr j ↦ absurd j ]
  ];
  backed = λ k h. elim h [
    | inl e ↦ (paid_out, inl refl, e)
    | inr i ↦ elim i [ inl e ↦ (funded, inr (inl refl), e) | inr j ↦ absurd j ]
  ];
}

abbrev evicts : Bytes → Bool
evicts id = true

cleanup_lem_example :
    (s' : Store) × (gone : List Bytes) × (cleanup evicts store ≡ (s', gone, ok tt))
    × IsIndexed s'.batches s'.values
    × ((b : Batch) → In b s'.batches ↔ (In b store.batches × (5 < b.value)))
    × ((b : Batch) → In b store.batches → In b.id gone ↔ (b.value ≤ 5))
cleanup_lem_example = cleanup_lem evicts (λ id. refl) store indexed

abbrev goes_on : Bytes → ℕ → Result Failure Bool
goes_on id r = ok false

unreserve_lem_example :
    (s' : Store) × (unreserve goes_on store ≡ (s', ok tt))
    × ((b : Batch) → In b store.batches → get s'.batches b.id ≡ some (after_call 0 b))
    × IsRaised store s'
unreserve_lem_example = unreserve_lem goes_on (λ id r. refl) store indexed

abbrev no_radius : ℕ → ℕ
no_radius total = 2

Reachable-IsReserve_example : IsReserve (unreserve goes_on (save evicts no_radius new funded).0).0
Reachable-IsReserve_example = Reachable-IsReserve (
    stepped (stepped started (saves new evicts no_radius funded))
      (unreserves (save evicts no_radius new funded).0 goes_on))
