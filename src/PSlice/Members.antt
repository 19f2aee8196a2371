-- ===== src/PSlice/Members.antt =====
-- The peers of a PSlice as a set.
use phd.Base.{
  ℕ, zero, suc, ◌≤◌, ◌<◌, ◌≡◌, refl, sym, ap, ◌∙◌, true, List, [], ◌∷◌, ◌==◌, ==_iff, if◌then◌else◌,
  length, set, replicate, arith, Bool-cases, inl, inr, ◌⊎◌, length-set, length-replicate,
}
use phd.Swarm.{Address}
use phd.PSlice.{PSlice, bin_at, new, po, exists}
use phd.PSlice.Bins.{holds, Unique, index_from-holds}

-- as many bins as there should be, each peer once and in the bin of its proximity order
pub record IsPlaced (s : PSlice) : Type 0 where
  pub bins : length s.peers ≡ s.max_bins
  pub some_bins : 0 < s.max_bins
  pub few_bins : s.max_bins ≤ 256
  pub unique : (i : ℕ) → Unique (bin_at s.peers i)
  pub placed : (i : ℕ) (a : Address) → holds a (bin_at s.peers i) ≡ true → po s a ≡ i

pub bin_at-set :
    (bs : List (List Address)) (i j : ℕ) (b : List Address)
    → i < length bs
    → bin_at (set bs i b) j ≡ (if i == j then b else bin_at bs j)
bin_at-set [] i j b h = absurd (omega arith)
bin_at-set (x ∷ bs) zero zero b h = refl
bin_at-set (x ∷ bs) (suc i) (suc j) b h = ground (arith, bin_at-set bs i j b)
bin_at-set (x ∷ bs) i j b h = ground arith

pub po-lt : (s : PSlice) (a : Address) → 0 < s.max_bins → s.max_bins ≤ 256 → po s a < s.max_bins
unfolding po
po-lt s a p q = ground arith

pub exists_lem : (a : Address) (s : PSlice) → exists a s ≡ holds a (bin_at s.peers (po s a))
unfolding exists
exists_lem a s = index_from-holds 0 a (bin_at s.peers (po s a))

-- the bin of `a` replaced
abbrev pub replaced : Address → PSlice → List Address → PSlice
replaced a s bin = record s { peers = set s.peers (po s a) bin }

-- A replacement of the bin of `a` by one that is unique and holds only what the bin held, or `a`.
module _ (a : Address) (s : PSlice) (v : IsPlaced s) (bin : List Address) where
  pub replaced-bin :
      (j : ℕ) → bin_at (replaced a s bin).peers j ≡ (if po s a == j then bin else bin_at s.peers j)
  replaced-bin j = bin_at-set s.peers (po s a) j bin (rw v.bins (po-lt s a v.some_bins v.few_bins))

  pub replaced-po : (b : Address) → po (replaced a s bin) b ≡ po s b
  replaced-po b = unfold po in refl

  replaced-Unique : Unique bin → (i : ℕ) → Unique (bin_at (replaced a s bin).peers i)
  replaced-Unique u i = elim (Bool-cases (po s a == i)) [
    | inl e ↦ rw (replaced-bin i, e) u
    | inr e ↦ rw (replaced-bin i, e) (v.unique i)
  ]

  replaced-at :
      ((b : Address) → holds b bin ≡ true → (holds b (bin_at s.peers (po s a)) ≡ true) ⊎ (a ≡ b))
      → (i : ℕ) (b : Address) → holds b (bin_at (replaced a s bin).peers i) ≡ true
      → po (replaced a s bin) b ≡ i
  replaced-at only i b h = elim (Bool-cases (po s a == i)) [
    | inl e ↦
        let at : po s a ≡ i = (==_iff (po s a) i).0 e in
        let in_bin : holds b bin ≡ true = rw (replaced-bin i, e) at h in
        replaced-po b ∙ elim (only b in_bin) [
          | inl k ↦ v.placed (po s a) b k ∙ at
          | inr q ↦ ap (po s) (sym q) ∙ at
        ]
    | inr e ↦
        let there : holds b (bin_at s.peers i) ≡ true = rw (replaced-bin i, e) at h in
        replaced-po b ∙ v.placed i b there
  ]

  pub replaced-IsPlaced :
      Unique bin
      → ((b : Address) → holds b bin ≡ true → (holds b (bin_at s.peers (po s a)) ≡ true) ⊎ (a ≡ b))
      → IsPlaced (replaced a s bin)
  replaced-IsPlaced u only = record {
    bins = length-set s.peers (po s a) bin ∙ v.bins;
    some_bins = v.some_bins;
    few_bins = v.few_bins;
    unique = replaced-Unique u;
    placed = replaced-at only;
  }

  pub replaced-exists :
      (b : Address)
      → exists b (replaced a s bin) ≡ (if po s a == po s b then holds b bin else exists b s)
  replaced-exists b =
      exists_lem b (replaced a s bin)
      ∙ ap (λ p. holds b (bin_at (replaced a s bin).peers p)) (replaced-po b)
      ∙ elim (Bool-cases (po s a == po s b)) [
        | inl e ↦ rw (replaced-bin (po s b), e) refl
        | inr e ↦ rw (replaced-bin (po s b), e) (sym (exists_lem b s))
      ]

-- After `New` there is no peer.
bin_at-new : (n i : ℕ) → bin_at (replicate n []) i ≡ []
bin_at-new zero i = refl
bin_at-new (suc n) zero = refl
bin_at-new (suc n) (suc i) = bin_at-new n i

-- A new PSlice of 1 to 256 bins has its peers placed.
pub new-IsPlaced : (n : ℕ) (base : Address) → 0 < n → n ≤ 256 → IsPlaced (new n base)
unfolding new holds
new-IsPlaced n base p q = record {
  bins = length-replicate n [];
  some_bins = p;
  few_bins = q;
  unique = λ i. rw (bin_at-new n i) tt;
  placed = λ i a h. cc (rw (bin_at-new n i) at h);
}
