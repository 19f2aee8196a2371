-- ===== src/Stamps/Issued.antt =====
-- What `inc` does to an issuer.
use phd.Base.{
  ℕ, zero, suc, ◌+◌, ◌%◌, ◌^◌, ◌≤◌, ◌<◌, ◌≡◌, ◌⊎◌, inl, inr, refl, sym, ap, ◌∙◌, some, All, ltb,
  ◌==◌, ==_iff, if◌then◌else◌, length, get_elem?, set, replicate, arith, Bool-cases, length-set,
  length-replicate, get_elem?-set, get_elem?-total,
}
use native.Mathlib.Nat.{pow-le-pow_right}
use phd.Base.Result.{Result, ok, err}
use phd.Swarm.{Bytes, Address}
use phd.Stamps.{
  StampIssuer, new_stamp_issuer, Error, bucket_full, to_bucket, bucket_upper_bound, inc,
  index_to_bytes,
}
use phd.Stamps.Index.{IsByte, to_bucket-lt}

-- a bucket for every prefix, none over its bound, and the count of the fullest one
pub record IsIssuer (si : StampIssuer) : Type 0 where
  pub shallow : si.bucket_depth ≤ 32
  pub size : length si.buckets ≡ 2 ^ si.bucket_depth
  pub bounded : (b n : ℕ) → get_elem? si.buckets b ≡ some n → n ≤ bucket_upper_bound si
  pub fullest : (b n : ℕ) → get_elem? si.buckets b ≡ some n → n ≤ si.max_bucket_count
  pub attained :
      (si.max_bucket_count ≡ 0) ⊎ ((b : ℕ) × (get_elem? si.buckets b ≡ some si.max_bucket_count))

-- what one call of `inc` does: the bucket of the address and its count before, and either an error
-- on a full bucket or the stamp of that count, with the bucket's count one higher and no other
pub record Stamped (addr : Address) (si : StampIssuer) (r : Result Error (Bytes × StampIssuer))
    : Type 0 where
  pub bucket : ℕ
  pub index : ℕ
  pub of_address : to_bucket {E = Error} si.bucket_depth addr ≡ ok bucket
  pub bucket_word : bucket < 2 ^ 32
  pub index_word : index < 2 ^ 32
  pub counted : get_elem? si.buckets bucket ≡ some index
  pub ends :
      ((index ≡ bucket_upper_bound si) × (r ≡ err bucket_full))
      ⊎ ((index < bucket_upper_bound si)
          × ((si' : StampIssuer) × (r ≡ ok (index_to_bytes bucket index, si'))
              × IsIssuer si'
              × ((j : ℕ)
                  → get_elem? si'.buckets j
                    ≡ (if bucket == j then some (index + 1) else get_elem? si.buckets j))))

-- the issuer after a stamp
module _ (si : StampIssuer) (v : IsIssuer si) (b n : ℕ) (at : get_elem? si.buckets b ≡ some n)
    (b_in : b < length si.buckets) (room : n < bucket_upper_bound si) where
  abbrev grown : StampIssuer
  grown = record si {
    buckets = set si.buckets b (n + 1);
    max_bucket_count = if ltb si.max_bucket_count (n + 1) then n + 1 else si.max_bucket_count;
  }

  grown-count :
      (j : ℕ)
      → get_elem? (set si.buckets b (n + 1)) j
        ≡ (if b == j then some (n + 1) else get_elem? si.buckets j)
  grown-count j = get_elem?-set si.buckets b j (n + 1) b_in

  -- a count of the issuer after the stamp is the new one or an old one
  grown-cases :
      (j m : ℕ)
      → get_elem? (set si.buckets b (n + 1)) j ≡ some m
      → (m ≡ n + 1) ⊎ (get_elem? si.buckets j ≡ some m)
  grown-cases j m q = elim (Bool-cases (b == j)) [
    | inl e ↦ let here : some (n + 1) ≡ some m = rw e at (sym (grown-count j) ∙ q) in inl cc
    | inr e ↦ inr (rw e at (sym (grown-count j) ∙ q))
  ]

  same_bound : bucket_upper_bound grown ≡ bucket_upper_bound si
  same_bound = unfold bucket_upper_bound in refl

  grown-IsIssuer : IsIssuer grown
  grown-IsIssuer = record {
    shallow = v.shallow;
    size = length-set si.buckets b (n + 1) ∙ v.size;
    bounded = λ j m q. elim (grown-cases j m q) [
      | inl e ↦ omega (arith, same_bound)
      | inr old ↦ omega (arith, same_bound, v.bounded j m old)
    ];
    fullest = λ j m q. elim (grown-cases j m q) [
      | inl e ↦ ground arith
      | inr old ↦ ground (arith, v.fullest j m old)
    ];
    attained = elim (Bool-cases (ltb si.max_bucket_count (n + 1))) [
      | inl e ↦ inr (b, rw e (grown-count b ∙ rw ((==_iff b b).1 refl) refl))
      | inr e ↦ elim v.attained [
        | inl z ↦ absurd (ground arith)
        | inr (j, q) ↦ inr (
          j,
          rw e (elim (Bool-cases (b == j)) [
            | inl k ↦
                let here : some n ≡ some si.max_bucket_count =
                  sym at ∙ ap (get_elem? si.buckets) ((==_iff b j).0 k) ∙ q in
                let max_is : n ≡ si.max_bucket_count = cc here in absurd (ground arith)
            | inr k ↦ grown-count j ∙ rw k q
          ]),
        )
      ]
    ];
  }

bound_word : (si : StampIssuer) → bucket_upper_bound si < 2 ^ 32
bound_word si = unfold bucket_upper_bound in omega arith

inc-ends :
    (addr : Address) (si : StampIssuer) (b n : ℕ)
    → to_bucket {E = Error} si.bucket_depth addr ≡ ok b
    → get_elem? si.buckets b ≡ some n
    → n ≤ bucket_upper_bound si
    → inc addr si ≡ (
        if n == bucket_upper_bound si
        then err bucket_full
        else ok (
          index_to_bytes b n,
          record si {
            buckets = set si.buckets b (n + 1);
            max_bucket_count =
                if ltb si.max_bucket_count (n + 1) then n + 1 else si.max_bucket_count;
          },
        ))
unfolding inc
inc-ends addr si b n of_address at le = elim (Bool-cases (n == bucket_upper_bound si)) [
  | inl e ↦ rw (of_address, at, e) refl
  | inr e ↦
      let next : (n + 1) % 2 ^ 32 ≡ n + 1 = ground (arith, bound_word si) in
      rw (of_address, at, e, next) refl
]

-- For a well-formed issuer and an address of at least 4 bytes, inc fails if the address's bucket is
-- full; otherwise it returns the bytes of the bucket and its count, raises that count by one and no
-- other, and keeps the issuer well-formed: no bucket over its bound, and the recorded maximum that
-- of the fullest bucket.
pub inc_lem :
    (addr : Address) (si : StampIssuer)
    → IsIssuer si
    → 4 ≤ length addr
    → All IsByte addr
    → Stamped addr si (inc addr si)
inc_lem addr si v long bytes =
    let (b, of_address, b_lt) =
      to_bucket-lt {E = Error} si.bucket_depth addr v.shallow long bytes in
    let (n, at) = get_elem?-total si.buckets b (rw v.size b_lt) in
    let step = inc-ends addr si b n of_address at (v.bounded b n at) in
    record {
      bucket = b;
      index = n;
      of_address = of_address;
      bucket_word = omega (arith, b_lt, pow-le-pow_right {n = 2} (omega arith) v.shallow);
      index_word = omega (arith, v.bounded b n at, bound_word si);
      counted = at;
      ends = elim (Bool-cases (n == bucket_upper_bound si)) [
        | inl e ↦ inl ((==_iff n (bucket_upper_bound si)).0 e, rw (step, e) refl)
        | inr e ↦
            let room : n < bucket_upper_bound si = ground (arith, v.bounded b n at) in
            let b_in : b < length si.buckets = rw v.size b_lt in
            inr (
              room,
              (
                grown si v b n at b_in room,
                rw (step, e) refl,
                grown-IsIssuer si v b n at b_in room,
                grown-count si v b n at b_in room,
              ),
            )
      ];
    }

-- A new issuer of bucket depth at most 32 is well-formed.
pub new_stamp_issuer-IsIssuer :
    (batch_depth bucket_depth : ℕ)
    → bucket_depth ≤ 32
    → IsIssuer (new_stamp_issuer batch_depth bucket_depth)
unfolding new_stamp_issuer
new_stamp_issuer-IsIssuer batch_depth bucket_depth h = record {
  shallow = h;
  size = length-replicate (2 ^ bucket_depth) 0;
  bounded = λ b n q. ground (arith, zeros (2 ^ bucket_depth) b n q);
  fullest = λ b n q. ground (arith, zeros (2 ^ bucket_depth) b n q);
  attained = inl refl;
}
  where
    zeros : (k b n : ℕ) → get_elem? {A = ℕ} (replicate k 0) b ≡ some n → n ≡ 0
    zeros zero b n q = cc q
    zeros (suc k) zero n q = cc q
    zeros (suc k) (suc b) n q = zeros k b n q
