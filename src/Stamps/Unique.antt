-- ===== src/Stamps/Unique.antt =====
-- No two stamps of an issuer have the same index.
use phd.Base.{
  ℕ, ◌+◌, ◌^◌, ◌≤◌, ◌<◌, ◌≡◌, inl, inr, refl, sym, ap, ◌∙◌, some, List, [], ◌∷◌, In, All, ◌==◌,
  ==_iff, true, if◌then◌else◌, length, get_elem?, arith, Bool-cases,
}
use mathlib.Core.Path.{subst}
use phd.Base.Result.{Result, ok, err, panic}
use phd.Swarm.{Bytes, Address}
use phd.Stamps.{StampIssuer, Error, inc, index_to_bytes, bytes_to_index}
use phd.Stamps.Index.{IsByte, bytes_to_index-index_to_bytes}
use phd.Stamps.Issued.{IsIssuer, inc_lem}

-- the indices issued for a list of addresses, those that fail left out
unfoldable pub issue_all : List Address → StampIssuer → List Bytes
issue_all [] si = []
issue_all (addr ∷ addrs) si =
    let skipped = issue_all addrs si in
    elim (inc addr si) [ ok r ↦ r.0 ∷ issue_all addrs r.1 | err e ↦ skipped | panic ↦ [] ]

-- no list of bytes stands twice
abbrev pub NoRepeat : List Bytes → Type 0
NoRepeat [] = Unit
NoRepeat (x ∷ xs) = (¬ In x xs) × NoRepeat xs

-- an index that is not below its bucket's count
pub record IsLater (si : StampIssuer) (x : Bytes) : Type 0 where
  pub bucket : ℕ
  pub index : ℕ
  pub count : ℕ
  pub bytes : x ≡ index_to_bytes bucket index
  pub bucket_word : bucket < 2 ^ 32
  pub index_word : index < 2 ^ 32
  pub counted : get_elem? si.buckets bucket ≡ some count
  pub later : count ≤ index

abbrev pub IsLong : Address → Type 0
IsLong addr = (4 ≤ length addr) × All IsByte addr

issue_all-err :
    (addr : Address) (addrs : List Address) (si : StampIssuer) (e : Error)
    → inc addr si ≡ err e
    → issue_all (addr ∷ addrs) si ≡ issue_all addrs si
unfolding issue_all
issue_all-err addr addrs si e run = rw (run, issue_all) refl

issue_all-ok :
    (addr : Address) (addrs : List Address) (si si' : StampIssuer) (x : Bytes)
    → inc addr si ≡ ok (x, si')
    → issue_all (addr ∷ addrs) si ≡ x ∷ issue_all addrs si'
unfolding issue_all
issue_all-ok addr addrs si si' x run = rw (run, issue_all) refl

-- the issuers before and after a stamp
module _ (si si' : StampIssuer) (b n : ℕ) (at : get_elem? si.buckets b ≡ some n)
    (counts : (j : ℕ)
      → get_elem? si'.buckets j ≡ (if b == j then some (n + 1) else get_elem? si.buckets j))
    (x : Bytes) (l : IsLater si' x) where
  same_bucket : b == l.bucket ≡ true → l.count ≡ n + 1
  same_bucket e =
      let here : some (n + 1) ≡ some l.count = rw e at (sym (counts l.bucket) ∙ l.counted) in
      cc here

  earlier : IsLater si x
  earlier = elim (Bool-cases (b == l.bucket)) [
    | inl e ↦ record {
      bucket = l.bucket;
      index = l.index;
      count = n;
      bytes = l.bytes;
      bucket_word = l.bucket_word;
      index_word = l.index_word;
      counted = ap (get_elem? si.buckets) (sym ((==_iff b l.bucket).0 e)) ∙ at;
      later = omega (arith, same_bucket e, l.later);
    }
    | inr e ↦ record {
      bucket = l.bucket;
      index = l.index;
      count = l.count;
      bytes = l.bytes;
      bucket_word = l.bucket_word;
      index_word = l.index_word;
      counted = rw e at (sym (counts l.bucket) ∙ l.counted);
      later = l.later;
    }
  ]

  -- the stamp that was given does not come again
  not_again : b < 2 ^ 32 → n < 2 ^ 32 → ¬ (x ≡ index_to_bytes b n)
  not_again p q e =
      let read : ◌≡◌ {A = Result Error (ℕ × ℕ)} (ok (b, n)) (ok (l.bucket, l.index)) =
        sym (bytes_to_index-index_to_bytes b n p q)
        ∙ ap bytes_to_index (sym e ∙ l.bytes)
        ∙ bytes_to_index-index_to_bytes l.bucket l.index l.bucket_word l.index_word in
      let buckets : b ≡ l.bucket = cc read in
      let indices : n ≡ l.index = cc read in
      absurd (omega (arith, same_bucket ((==_iff b l.bucket).1 buckets), l.later))

issue_all-IsLater :
    (addrs : List Address) (si : StampIssuer) (x : Bytes)
    → IsIssuer si
    → All IsLong addrs
    → In x (issue_all addrs si)
    → IsLater si x
issue_all-IsLater [] si x v long i = absurd (unfold issue_all in i)
issue_all-IsLater (addr ∷ addrs) si x v long i =
    let s = inc_lem addr si v long.0.0 long.0.1 in
    elim s.ends [
      | inl (full, run) ↦
          issue_all-IsLater addrs si x v long.1 (subst (In x) (issue_all-err addr addrs si _ run) i)
      | inr (room, (si', run, v', counts)) ↦
          elim (subst (In x) (issue_all-ok addr addrs si si' _ run) i) [
            | inl e ↦ record {
              bucket = s.bucket;
              index = s.index;
              count = s.index;
              bytes = sym e;
              bucket_word = s.bucket_word;
              index_word = s.index_word;
              counted = s.counted;
              later = omega arith;
            }
            | inr j ↦
                earlier si si' s.bucket s.index s.counted counts x
                  (issue_all-IsLater addrs si' x v' long.1 j)
          ]
    ]

-- No two stamps that a well-formed issuer gives for a list of addresses of at least 4 bytes, one
-- call of inc each, have the same index.
pub issue_all-NoRepeat :
    (addrs : List Address) (si : StampIssuer)
    → IsIssuer si
    → All IsLong addrs
    → NoRepeat (issue_all addrs si)
issue_all-NoRepeat [] si v long = unfold issue_all in tt
issue_all-NoRepeat (addr ∷ addrs) si v long =
    let s = inc_lem addr si v long.0.0 long.0.1 in
    elim s.ends [
      | inl (full, run) ↦
          rw (issue_all-err addr addrs si _ run) (issue_all-NoRepeat addrs si v long.1)
      | inr (room, (si', run, v', counts)) ↦ rw (issue_all-ok addr addrs si si' _ run) (
        λ i.
            not_again si si' s.bucket s.index s.counted counts _
              (issue_all-IsLater addrs si' _ v' long.1 i) s.bucket_word s.index_word refl,
        issue_all-NoRepeat addrs si' v' long.1,
      )
    ]
