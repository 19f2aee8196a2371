-- ===== src/Intervals/Gap.antt =====
-- What `Next` returns, and what `add` does to a range that it should find covered, or that ends at
-- the greatest uint64.
use phd.Base.{
  ℕ, ◌+◌, ◌-◌, ◌≤◌, ◌<◌, ◌≡◌, ◌≢◌, ◌⊎◌, inl, inr, refl, List, [], ◌∷◌, ◌==◌, arith, Bool-cases,
}
use phd.Intervals.{Range, Intervals, max_uint64, add, next_gap, next}
use phd.Intervals.Merge.{IsSorted, Covers}

-- nothing below the first bound is covered
Covers-from : (lo x : ℕ) (rs : List Range) → IsSorted lo rs → Covers x rs → lo ≤ x
Covers-from lo x [] w c = absurd c
Covers-from lo x (r ∷ rs) w (inl i) = omega arith
Covers-from lo x (r ∷ rs) w (inr c) = omega (arith, Covers-from (r.1 + 2) x rs w.3 c)

-- The gap of a pair of its bounds, of which the second is 0 where it has no end.
pub record IsGap (rs : List Range) (start : ℕ) (g : ℕ × ℕ) : Type 0 where
  pub low : start ≤ g.0
  pub filled : (x : ℕ) → start ≤ x → x < g.0 → Covers x rs
  pub empty : (x : ℕ) → g.0 ≤ x → (x ≤ g.1) ⊎ (g.1 ≡ 0) → ¬ Covers x rs
  pub ended : g.1 ≢ 0 → (g.0 ≤ g.1) × Covers (g.1 + 1) rs

not_below : (lo x : ℕ) (rs : List Range) → IsSorted lo rs → x < lo → ¬ Covers x rs
not_below lo x rs w h c = absurd (omega (arith, Covers-from lo x rs w c))

IsGap-first :
    (start lo hi : ℕ) (rs : List Range)
    → 0 < start
    → IsSorted start ((lo, hi) ∷ rs)
    → lo ≢ start
    → IsGap ((lo, hi) ∷ rs) start (start, lo - 1)
IsGap-first start lo hi rs p w apart = record {
  low = omega arith;
  filled = λ x a b. absurd (omega arith);
  empty = λ x a b. elim b [
    | inl h ↦ not_below lo x ((lo, hi) ∷ rs) (omega arith, w.1, w.2, w.3) (omega arith)
    | inr h ↦ absurd (omega arith)
  ];
  ended = λ h. (omega arith, inl (omega arith, omega arith));
}

IsGap-second :
    (start lo hi lo' hi' : ℕ) (rs : List Range)
    → IsSorted start ((lo, hi) ∷ (lo', hi') ∷ rs)
    → lo ≡ start
    → IsGap ((lo, hi) ∷ (lo', hi') ∷ rs) start (hi + 1, lo' - 1)
IsGap-second start lo hi lo' hi' rs w same = record {
  low = omega arith;
  filled = λ x a b. inl (omega arith, omega arith);
  empty = λ x a b c. elim c [
    | inl d ↦ absurd (omega arith)
    | inr d ↦ elim b [
      | inl h ↦ not_below lo' x ((lo', hi') ∷ rs) (omega arith, w.3.1, w.3.2, w.3.3) (omega arith) d
      | inr h ↦ absurd (omega arith)
    ]
  ];
  ended = λ h. (omega arith, inr (inl (omega arith, omega arith)));
}

IsGap-last :
    (start lo hi : ℕ)
    → IsSorted start ((lo, hi) ∷ [])
    → lo ≡ start
    → IsGap ((lo, hi) ∷ []) start (hi + 1, 0)
IsGap-last start lo hi w same = record {
  low = omega arith;
  filled = λ x a b. inl (omega arith, omega arith);
  empty = λ x a b c. elim c [ inl d ↦ absurd (omega arith) | inr d ↦ d ];
  ended = λ h. absurd (h refl);
}

IsGap-none : (start : ℕ) → IsGap [] start (start, 0)
IsGap-none start = record {
  low = omega arith;
  filled = λ x a b. absurd (omega arith);
  empty = λ x a b c. c;
  ended = λ h. absurd (h refl);
}

-- Without a ceiling and with a positive lower bound, Next returns the first gap of sorted ranges:
-- all before it is covered, nothing in it is, and it either has no end or ends where a range
-- begins.
pub next_lem :
    (i : Intervals)
    → 0 < i.start
    → IsSorted i.start i.ranges
    → IsGap i.ranges i.start ((next 0 i).0, (next 0 i).1)
unfolding next
next_lem i p w = of_ranges i.ranges w
  where
    of_ranges : (rs : List Range) → IsSorted i.start rs → IsGap rs i.start (next_gap i.start rs)
    of_ranges [] w' = IsGap-none i.start
    of_ranges ((lo, hi) ∷ []) w' = elim (Bool-cases (lo == i.start)) [
      | inr apart ↦
          let eq : next_gap i.start ((lo, hi) ∷ []) ≡ (i.start, lo - 1) = ground arith in
          rw eq (IsGap-first i.start lo hi [] p w' (ground arith))
      | inl same ↦
          let eq : next_gap i.start ((lo, hi) ∷ []) ≡ (hi + 1, 0) = ground arith in
          rw eq (IsGap-last i.start lo hi w' (ground arith))
    ]
    of_ranges ((lo, hi) ∷ (lo', hi') ∷ rs) w' = elim (Bool-cases (lo == i.start)) [
      | inr apart ↦
          let eq : next_gap i.start ((lo, hi) ∷ (lo', hi') ∷ rs) ≡ (i.start, lo - 1) =
            ground arith in
          rw eq (IsGap-first i.start lo hi ((lo', hi') ∷ rs) p w' (ground arith))
      | inl same ↦
          let eq : next_gap i.start ((lo, hi) ∷ (lo', hi') ∷ rs) ≡ (hi + 1, lo' - 1) =
            ground arith in
          rw eq (IsGap-second i.start lo hi lo' hi' rs w' (ground arith))
    ]

-- A range strictly inside the only stored one, and not touching its end, is stored again behind it,
-- so that the stored ranges overlap.
pub add_inside_overlaps :
    (start a b s e : ℕ)
    → start ≤ a
    → a < s
    → s ≤ e
    → e + 1 < b
    → b < max_uint64
    → (add s e (record { start = start; ranges = (a, b) ∷ [] })).ranges ≡ (a, b) ∷ (s, e) ∷ []
unfolding add
add_inside_overlaps start a b s e p q r t m = ground arith

-- A range that ends at the greatest uint64 is stored in front of the only stored one, which lies
-- wholly before it.
pub add_max_out_of_order :
    (start a b s : ℕ)
    → start ≤ a
    → a ≤ b
    → b + 1 < s
    → s ≤ max_uint64
    → (add s max_uint64 (record { start = start; ranges = (a, b) ∷ [] })).ranges
      ≡ (s, max_uint64) ∷ (a, b) ∷ []
unfolding add
add_max_out_of_order start a b s p q r m = ground arith
