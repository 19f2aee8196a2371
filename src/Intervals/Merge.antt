-- ===== src/Intervals/Merge.antt =====
-- The reference: a sorted list of ranges with gaps between them, and the insertion of a range.
use Prim.Native.Nat.{min, max}
use native.Mathlib.Decide.{dec_le}
use phd.Base.{
  ℕ, ◌+◌, ◌≤◌, ◌<◌, ◌≡◌, ◌↔◌, ◌⊎◌, inl, inr, List, [], ◌∷◌, ltb, if◌then◌else◌, arith, Bool-cases,
}
use phd.Intervals.{Range, max_uint64}

-- ranges in order from `lo` on, each a gap after the one before, none up to the greatest uint64
abbrev pub IsSorted : ℕ → List Range → Type 0
IsSorted lo [] = Unit
IsSorted lo (r ∷ rs) = (lo ≤ r.0) × (r.0 ≤ r.1) × (r.1 < max_uint64) × IsSorted (r.1 + 2) rs

-- some range holds `x`
abbrev pub Covers : ℕ → List Range → Type 0
Covers x [] = ⊥
Covers x (r ∷ rs) = ((r.0 ≤ x) × (x ≤ r.1)) ⊎ Covers x rs

-- the union with [s, e], which swallows the ranges that it touches
unfoldable pub insert : ℕ → ℕ → List Range → List Range
insert s e [] = (s, e) ∷ []
insert s e ((lo, hi) ∷ rs) =
    let later = insert s e rs in
    let swallowed = insert (min s lo) (max e hi) rs in
    if ltb (hi + 1) s
    then (lo, hi) ∷ later
    else if ltb (e + 1) lo
    then (s, e) ∷ (lo, hi) ∷ rs
    else swallowed

pub insert_before :
    (s e lo hi : ℕ) (rs : List Range)
    → hi + 1 < s
    → insert s e ((lo, hi) ∷ rs) ≡ (lo, hi) ∷ insert s e rs
unfolding insert
insert_before s e lo hi rs p = ground arith

pub insert_after :
    (s e lo hi : ℕ) (rs : List Range)
    → s ≤ hi + 1
    → e + 1 < lo
    → insert s e ((lo, hi) ∷ rs) ≡ (s, e) ∷ (lo, hi) ∷ rs
unfolding insert
insert_after s e lo hi rs p q = ground arith

pub insert_touch :
    (s e lo hi : ℕ) (rs : List Range)
    → s ≤ hi + 1
    → lo ≤ e + 1
    → insert s e ((lo, hi) ∷ rs) ≡ insert (min s lo) (max e hi) rs
unfolding insert
insert_touch s e lo hi rs p q = ground arith

pub IsSorted-weaken : (lo lo' : ℕ) (rs : List Range) → lo ≤ lo' → IsSorted lo' rs → IsSorted lo rs
IsSorted-weaken lo lo' [] h s = tt
IsSorted-weaken lo lo' (r ∷ rs) h s = (omega arith, s.1, s.2, s.3)

-- Insertion keeps a list of ranges sorted with gaps.
pub insert-IsSorted :
    (lo s e : ℕ) (rs : List Range)
    → IsSorted lo rs
    → lo ≤ s
    → s ≤ e
    → e < max_uint64
    → IsSorted lo (insert s e rs)
unfolding insert
insert-IsSorted lo s e [] w p q m = (p, q, m, tt)
insert-IsSorted lo s e ((a, b) ∷ rs) w p q m = elim (Bool-cases (ltb (b + 1) s)) [
  | inl before ↦ rw before (w.0, w.1, w.2, insert-IsSorted (b + 2) s e rs w.3 (ground arith) q m)
  | inr reaches ↦ elim (Bool-cases (ltb (e + 1) a)) [
    | inl after ↦ rw (reaches, insert) (rw after (p, q, m, (ground arith, w.1, w.2, w.3)))
    | inr touches ↦
        rw (reaches, insert)
          (rw touches (
            insert-IsSorted lo (min s a) (max e b) rs
              (IsSorted-weaken lo (b + 2) rs (omega arith) w.3) (omega arith) (omega arith)
              (omega arith)))
  ]
]

touching :
    (s e a b x : ℕ) (C : Type 0)
    → ¬ (b + 1 < s)
    → ¬ (e + 1 < a)
    → (min s a ≤ x) × (x ≤ max e b)
    → ((s ≤ x) × (x ≤ e)) ⊎ (((a ≤ x) × (x ≤ b)) ⊎ C)
touching s e a b x C g g' i = elim (dec_le s x) [
  | yes h ↦ elim (dec_le x e) [ yes k ↦ inl (h, k) | no k ↦ inr (inl (omega arith, omega arith)) ]
  | no h ↦ inr (inl (omega arith, omega arith))
]

-- Insertion adds the numbers from s to e and no others.
pub insert-Covers :
    (lo s e x : ℕ) (rs : List Range)
    → IsSorted lo rs
    → s ≤ e
    → Covers x (insert s e rs) ↔ (((s ≤ x) × (x ≤ e)) ⊎ Covers x rs)
unfolding insert
insert-Covers lo s e x [] w q = (λ h. h, λ h. h)
insert-Covers lo s e x ((a, b) ∷ rs) w q = elim (Bool-cases (ltb (b + 1) s)) [
  | inl before ↦
      let ih = insert-Covers (b + 2) s e x rs w.3 q in
      rw before (
        λ h. elim h [
          | inl i ↦ inr (inl i)
          | inr j ↦ elim (ih.0 j) [ inl k ↦ inl k | inr k ↦ inr (inr k) ]
        ],
        λ h. elim h [
          | inl i ↦ inr (ih.1 (inl i))
          | inr j ↦ elim j [ inl k ↦ inl k | inr k ↦ inr (ih.1 (inr k)) ]
        ],
      )
  | inr reaches ↦ elim (Bool-cases (ltb (e + 1) a)) [
    | inl after ↦ rw (reaches, insert) (rw after (λ h. h, λ h. h))
    | inr touches ↦
        let ih = insert-Covers (b + 2) (min s a) (max e b) x rs w.3 (omega arith) in
        let gap : (b + 1 < s) → ⊥ = λ h. ground arith in
        let gap' : (e + 1 < a) → ⊥ = λ h. ground arith in
        rw (reaches, insert)
          (rw touches (
            λ h. elim (ih.0 h) [
              | inl i ↦ touching s e a b x (Covers x rs) gap gap' i
              | inr k ↦ inr (inr k)
            ],
            λ h. elim h [
              | inl i ↦ ih.1 (inl (omega arith, omega arith))
              | inr j ↦ elim j [
                | inl k ↦ ih.1 (inl (omega arith, omega arith))
                | inr k ↦ ih.1 (inr k)
              ]
            ],
          ))
  ]
]
