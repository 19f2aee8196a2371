-- ===== src/Batches/Expired/Evicted.antt =====
-- The cleanup evicts the batches whose value is paid out, and no other
-- (code/bee-snips-sup/pkg/postage/batchstore/reserve.go).
use phd.Base.{
  ℕ, ◌≤◌, ◌<◌, ◌≡◌, ◌↔◌, refl, sym, ap, ◌∙◌, inl, inr, Bool, true, some, List, [], ◌∷◌, map, In,
  leb, arith, Bool-cases, above_or,
}
use phd.Base.Result.{ok}
use phd.Swarm.{Bytes}
use phd.Batches.{Batch, Store, get, expired, evict, evict_all, cleanup}
use phd.Batches.Expired.{
  key_of, ids, DistinctIds, IsAscending, IsIndexed, In-ids, of_ids, get-In, id_injective, In-delete,
  delete-DistinctIds, In-delete_value, delete_value-IsAscending,
}

module _ (batches : List Batch) (total : ℕ) (u : DistinctIds batches) where
  -- the batches that the iteration over some keys finds expired
  abbrev Found : List (ℕ × Bytes) → List Batch → Type 0
  Found values es =
      (b : Batch) → In b es ↔ (In b batches × (b.value ≤ total) × In (key_of b) values)

  expired-Found :
      (values : List (ℕ × Bytes))
      → IsAscending values
      → ((k : ℕ × Bytes) → In k values → (b : Batch) × In b batches × (key_of b ≡ k))
      → (es : List Batch) × (expired batches total values ≡ some es) × Found values es
  unfolding expired
  expired-Found [] asc backed = ([], refl, λ b. (λ h. absurd h, λ (h, v, i). i))
  expired-Found (k ∷ values) (least, asc) backed =
      let (b, i, e) = backed k (inl refl) in
      let at : get batches k.1 ≡ some b = rw (← e) (get-In b batches u i) in
      let (es, run, found) = expired-Found values asc (λ j h. backed j (inr h)) in
      elim (Bool-cases (leb b.value total)) [
        | inl l ↦ (
          b ∷ es,
          rw (at, l, run, expired) refl,
          λ c. (
            λ h. elim h [
              | inl f ↦ rw (← f) (i, ground (arith, l), inl (sym e))
              | inr h' ↦ let (j, v, m) = (found c).0 h' in (j, v, inr m)
            ],
            λ (j, v, m). elim m [
              | inl f ↦ inl (id_injective b c batches u i j (ap (λ (x : ℕ × Bytes). x.1) (e ∙ f)))
              | inr m' ↦ inr ((found c).1 (j, v, m'))
            ],
          ),
        )
        | inr l ↦ (
          [],
          rw (at, l, expired) refl,
          λ c. (
            λ h. absurd h,
            λ (j, v, m).
                let above : total < k.0 = ground (arith, l, ap (λ (x : ℕ × Bytes). x.0) e) in
                elim m [
                  | inl f ↦
                      let same : k.0 ≡ c.value = ap (λ (x : ℕ × Bytes). x.0) f in
                      absurd (omega (arith, same, above, v))
                  | inr m' ↦ absurd (omega (arith, least (key_of c) m', above, v))
                ],
          ),
        )
      ]

module _ (evict_fn : Bytes → Bool) (evicts : (id : Bytes) → evict_fn id ≡ true) where
  -- what is left after the eviction of some batches
  pub record IsLeft (s : Store) (es : List Batch) (s' : Store) : Type 0 where
    pub batch_left : (b : Batch) → In b s'.batches ↔ (In b s.batches × ¬ In b.id (ids es))
    pub value_left : (k : ℕ × Bytes) → In k s'.values ↔ (In k s.values × ¬ In k (map key_of es))
    pub distinct : DistinctIds s.batches → DistinctIds s'.batches
    pub ascending : IsAscending s.values → IsAscending s'.values
    pub same_chain : s'.chain ≡ s.chain

  evict_all-IsLeft :
      (es : List Batch) (s : Store)
      → (s' : Store) × (evict_all evict_fn es s ≡ (s', ids es, ok tt)) × IsLeft s es s'
  unfolding evict_all evict
  evict_all-IsLeft [] s = (
    s,
    refl,
    record {
      batch_left = λ b. (λ h. (h, λ x. x), λ (h, n). h);
      value_left = λ k. (λ h. (h, λ x. x), λ (h, n). h);
      distinct = λ u. u;
      ascending = λ u. u;
      same_chain = refl;
    },
  )
  evict_all-IsLeft (e ∷ es) s =
      let (s', run, l) = evict_all-IsLeft es (evict s e) in
      (
        s',
        rw (evicts e.id, run) refl,
        record {
          batch_left = λ b. (
            λ h.
                let (i, n) = (l.batch_left b).0 h in
                let (j, m) = (In-delete e.id b s.batches).0 i in
                (j, λ x. elim x [ inl f ↦ m (sym f) | inr y ↦ n y ]),
            λ (h, n).
                (l.batch_left b).1
                  ((In-delete e.id b s.batches).1 (h, λ f. n (inl (sym f))), λ y. n (inr y)),
          );
          value_left = λ k. (
            λ h.
                let (i, n) = (l.value_left k).0 h in
                let (j, m) = (In-delete_value (key_of e) k s.values).0 i in
                (j, λ x. elim x [ inl f ↦ m (sym f) | inr y ↦ n y ]),
            λ (h, n). (l.value_left k).1 (
              (In-delete_value (key_of e) k s.values).1 (h, λ f. n (inl (sym f))),
              λ y. n (inr y),
            ),
          );
          distinct = λ u. l.distinct (delete-DistinctIds e.id s.batches u);
          ascending = λ u. l.ascending (delete_value-IsAscending (key_of e) s.values u);
          same_chain = l.same_chain;
        },
      )

  of_keys :
      (k : ℕ × Bytes) (es : List Batch)
      → In k (map key_of es)
      → (e : Batch) × In e es × (key_of e ≡ k)
  of_keys k [] h = absurd h
  of_keys k (x ∷ es) (inl e) = (x, inl refl, e)
  of_keys k (x ∷ es) (inr h) = let (b, i, e) = of_keys k es h in (b, inr i, e)

  In-keys : (e : Batch) (es : List Batch) → In e es → In (key_of e) (map key_of es)
  In-keys e [] h = absurd h
  In-keys e (x ∷ es) (inl f) = inl (ap key_of f)
  In-keys e (x ∷ es) (inr h) = inr (In-keys e es h)

  -- evicting batches of the store keeps the indices in agreement
  left-IsIndexed :
      (s s' : Store) (es : List Batch)
      → IsIndexed s.batches s.values
      → IsLeft s es s'
      → ((e : Batch) → In e es → In e s.batches)
      → IsIndexed s'.batches s'.values
  left-IsIndexed s s' es p l mine = record {
    distinct = l.distinct p.distinct;
    ascending = l.ascending p.ascending;
    listed = λ b h.
        let (i, n) = (l.batch_left b).0 h in
        (l.value_left (key_of b)).1 (
          p.listed b i,
          λ m.
              let (e, j, f) = of_keys (key_of b) es m in
              n (rw (← ap (λ (k : ℕ × Bytes). k.1) f) (In-ids e es j)),
        );
    backed = λ k h.
        let (i, n) = (l.value_left k).0 h in
        let (b, j, f) = p.backed k i in
        (
          b,
          (l.batch_left b).1 (
            j,
            λ m.
                let (e, q, g) = of_ids b.id es m in
                let same : e ≡ b = id_injective e b s.batches p.distinct (mine e q) j g in
                n (rw (← f, ← same) (In-keys e es q)),
          ),
          f,
        );
  }

  -- While the index by value holds the key of every batch in order and no other key, IDs are
  -- distinct and the eviction callback succeeds, cleanup ends without an error, leaves exactly the
  -- batches whose value is above the total amount paid out, reports exactly the IDs of the others,
  -- and keeps the two indices in agreement.
  pub cleanup_lem :
      (s : Store)
      → IsIndexed s.batches s.values
      → (s' : Store) × (gone : List Bytes) × (cleanup evict_fn s ≡ (s', gone, ok tt))
        × IsIndexed s'.batches s'.values
        × ((b : Batch) → In b s'.batches ↔ (In b s.batches × (s.chain.total_amount < b.value)))
        × ((b : Batch) → In b s.batches → In b.id gone ↔ (b.value ≤ s.chain.total_amount))
  unfolding cleanup
  cleanup_lem s p =
      let total = s.chain.total_amount in
      let (es, run, found) =
        expired-Found s.batches total p.distinct s.values p.ascending p.backed in
      let (s', evicted, l) = evict_all-IsLeft es s in
      let gone_iff : (b : Batch) → In b s.batches → In b.id (ids es) ↔ (b.value ≤ total) = λ b i. (
        λ h.
            let (e, j, f) = of_ids b.id es h in
            let (m, v, k) = (found e).0 j in
            let same : e ≡ b = id_injective e b s.batches p.distinct m i f in rw (← same) v,
        λ v. In-ids b es ((found b).1 (i, v, p.listed b i)),
      ) in
      (
        s',
        ids es,
        rw (run, evicted, cleanup) refl,
        left-IsIndexed s s' es p l (λ e j. ((found e).0 j).0),
        λ b. (
          λ h.
              let (i, n) = (l.batch_left b).0 h in
              (i, above_or b.value total (λ v. n ((gone_iff b i).1 v))),
          λ (i, v).
              (l.batch_left b).1
                (i, λ h. let w = (gone_iff b i).0 h in absurd (omega (arith, v, w))),
        ),
        gone_iff,
      )
