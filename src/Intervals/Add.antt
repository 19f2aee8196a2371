-- ===== src/Intervals/Add.antt =====
-- `add` inserts a range that reaches outside each range that it starts in.
use Prim.Native.Nat.{min, max}
use native.Mathlib.Decide.{dec_lt}
use phd.Base.{
  ℕ, ◌+◌, ◌≤◌, ◌<◌, ◌≡◌, ◌↔◌, ◌⊎◌, inl, inr, refl, sym, ap, true, false, Option, none, some, List,
  [], ◌∷◌, ◌++◌, ltb, ◌==◌, if◌then◌else◌, length, arith, length-append,
}
use mathlib.Core.List.{append_assoc, append-nil}
use phd.Intervals.{Range, Scan, Intervals, max_uint64, inc64, scan, splice, add}
use phd.Intervals.Merge.{
  IsSorted, Covers, insert, insert_before, insert_after, insert_touch, insert-IsSorted,
  insert-Covers,
}
use phd.Intervals.Splice.{splice-none, splice-swallow}

abbrev state : ℕ → ℕ → ℕ → Option ℕ → Option ℕ → Scan
state j s e lo hi = record { j = j; start = s; end = e; min_start_j = lo; max_end_j = hi }

-- a round before the new range: nothing changes
scan_before :
    (e0 j s a b : ℕ) (rs : List Range)
    → a ≤ b
    → b + 1 < s
    → s ≤ e0
    → e0 < max_uint64
    → scan (e0 + 1) ((a, b) ∷ rs) (state j s e0 none none)
      ≡ scan (e0 + 1) rs (state (j + 1) s e0 none none)
unfolding scan
scan_before e0 j s a b rs p q r m = ground arith

-- a round after it, with nothing touched: the loop ends
scan_after :
    (e0 j s a b : ℕ) (rs : List Range)
    → a ≤ b
    → s ≤ e0
    → e0 + 1 < a
    → e0 < max_uint64
    → scan (e0 + 1) ((a, b) ∷ rs) (state j s e0 none none) ≡ state j s e0 none none
unfolding scan
scan_after e0 j s a b rs p q r m = ground arith

-- the first range touched, unless the new one lies strictly inside
scan_first :
    (e0 j s a b : ℕ) (rs : List Range)
    → a ≤ b
    → s ≤ b + 1
    → a ≤ e0 + 1
    → (s ≤ a) ⊎ (b ≤ e0 + 1)
    → s ≤ e0
    → e0 < max_uint64
    → b < max_uint64
    → scan (e0 + 1) ((a, b) ∷ rs) (state j s e0 none none)
      ≡ scan (e0 + 1) rs (state (j + 1) (min s a) (max e0 b) (some j) (some j))
unfolding scan
scan_first e0 j s a b rs p q r o t m n = ground arith

-- a further range touched
scan_more :
    (e0 j s k c d : ℕ) (rs : List Range) (lo : ℕ)
    → c ≤ d
    → s ≤ c
    → c ≤ e0 + 1
    → e0 < max_uint64
    → d < max_uint64
    → scan (e0 + 1) ((c, d) ∷ rs) (state j s e0 (some lo) (some k))
      ≡ scan (e0 + 1) rs (state (j + 1) s (max e0 d) (some lo) (some j))
unfolding scan
scan_more e0 j s k c d rs lo p q r m n = ground arith

-- a range past the end: the loop ends
scan_stop :
    (e0 E j s k c d : ℕ) (rs : List Range) (lo : ℕ)
    → c ≤ d
    → e0 ≤ E
    → E + 1 < c
    → E < max_uint64
    → scan (e0 + 1) ((c, d) ∷ rs) (state j s E (some lo) (some k)) ≡ state j s E (some lo) (some k)
unfolding scan
scan_stop e0 E j s k c d rs lo p q r m = ground arith

-- the ranges from index `length p` to that of (a, b), which are all of `m` and (a, b), are touched
swallowing :
    (p m rs : List Range) (a b s e0 E j k : ℕ)
    → IsSorted (b + 2) rs
    → s ≤ b
    → E ≡ max e0 b
    → e0 < max_uint64
    → b < max_uint64
    → k ≡ length (p ++ m)
    → j ≡ k + 1
    → splice (p ++ m ++ (a, b) ∷ rs) (scan (e0 + 1) rs (state j s E (some (length p)) (some k)))
      ≡ p ++ insert s E rs
swallowing p m [] a b s e0 E j k w q h m0 m1 hk hj =
    unfold scan insert in splice-swallow p m [] a b s E j k hk
swallowing p m ((c, d) ∷ rs) a b s e0 E j k w q h m0 m1 hk hj = elim (dec_lt (E + 1) c) [
  | yes after ↦ rw (scan_stop e0 E j s k c d rs (length p) w.1 (omega arith) after (omega arith)) (
      rw (insert_after s E c d rs (omega arith) after)
        (splice-swallow p m ((c, d) ∷ rs) a b s E j k hk))
  | no touches ↦
      let same : E ≡ e0 = omega arith in
      let low : min s c ≡ s = omega arith in
      let snoc : j ≡ length (p ++ (m ++ (a, b) ∷ [])) = omega (
        arith,
        length-append p (m ++ (a, b) ∷ []),
        length-append p m,
        length-append m ((a, b) ∷ []),
      ) in
      let lists : p ++ m ++ (a, b) ∷ (c, d) ∷ rs ≡ p ++ (m ++ (a, b) ∷ []) ++ (c, d) ∷ rs =
        simp append_assoc in
      rw same (
        rw (scan_more e0 j s k c d rs (length p) w.1 (omega arith) (omega arith) m0 w.2) (
          rw (insert_touch s e0 c d rs (omega arith) (omega arith), low, lists)
            (swallowing p (m ++ (a, b) ∷ []) rs c d s e0 (max e0 d) (j + 1) j w.3 (omega arith) refl
              m0 w.2 snoc refl)))
]

-- no range starts before [s, e] and ends after it
abbrev pub Reaches : ℕ → ℕ → List Range → Type 0
Reaches s e [] = Unit
Reaches s e (r ∷ rs) = ((s ≤ r.0) ⊎ (r.1 ≤ e + 1)) × Reaches s e rs

adding :
    (p rs : List Range) (lo s e j : ℕ)
    → IsSorted lo rs
    → s ≤ e
    → e < max_uint64
    → Reaches s e rs
    → j ≡ length p
    → splice (p ++ rs) (scan (e + 1) rs (state j s e none none)) ≡ p ++ insert s e rs
adding p [] lo s e j w q m o h = unfold scan insert in rw h (splice-none p [] s e)
adding p ((a, b) ∷ rs) lo s e j w q m o h = elim (dec_lt (b + 1) s) [
  | yes before ↦
      let snoc : j + 1 ≡ length (p ++ (a, b) ∷ []) = omega (arith, length-append p ((a, b) ∷ [])) in
      let lists : p ++ (a, b) ∷ rs ≡ p ++ (a, b) ∷ [] ++ rs = simp append_assoc in
      let after : p ++ (a, b) ∷ insert s e rs ≡ p ++ (a, b) ∷ [] ++ insert s e rs =
        simp append_assoc in
      rw (scan_before e j s a b rs w.1 before q m, insert_before s e a b rs before)
        (rw (lists, after) (adding (p ++ (a, b) ∷ []) rs (b + 2) s e (j + 1) w.3 q m o.1 snoc))
  | no reaches ↦ elim (dec_lt (e + 1) a) [
    | yes after ↦
        rw (scan_after e j s a b rs w.1 q after m, insert_after s e a b rs (omega arith) after)
          (rw h (splice-none p ((a, b) ∷ rs) s e))
    | no touches ↦
        rw
          (
            scan_first e j s a b rs w.1 (omega arith) (omega arith) o.0 q m w.2,
            insert_touch s e a b rs (omega arith) (omega arith),
          )
          (rw h (
            rw (append-nil p) at (
              swallowing p [] rs a b (min s a) e (max e b) (length p + 1) (length p) w.3
                (omega arith) refl m w.2 (ap length (sym (append-nil p))) refl)))
  ]
]

-- Where the ranges are sorted with gaps and no stored range starts before the new one and ends
-- after it, add of a range that does not end before it starts and ends below the greatest uint64
-- keeps them so and covers what was covered and the new numbers from the lower bound on, and
-- nothing else.
pub add_lem :
    (s e : ℕ) (i : Intervals)
    → IsSorted i.start i.ranges
    → s ≤ e
    → e < max_uint64
    → Reaches (max s i.start) e i.ranges
    → let i' = add s e i in
      (i'.start ≡ i.start)
      × IsSorted i.start i'.ranges
      × ((x : ℕ) → Covers x i'.ranges ↔ (((max s i.start ≤ x) × (x ≤ e)) ⊎ Covers x i.ranges))
unfolding add
add_lem s e i w q m o = elim (dec_lt e i.start) [
  | yes below ↦
      let skip : ltb e i.start ≡ true = ground arith in
      rw skip (refl, w, λ x. (λ c. inr c, λ c. elim c [ inl h ↦ absurd (omega arith) | inr h ↦ h ]))
  | no above ↦
      let keep : ltb e i.start ≡ false = ground arith in
      let low : (if ltb s i.start then i.start else s) ≡ max s i.start = ground arith in
      let plain : (if e == max_uint64 then e else inc64 e) ≡ e + 1 = ground arith in
      let done = adding [] i.ranges i.start (max s i.start) e 0 w (omega arith) m o refl in
      rw (keep, low, plain, done)
        (
          refl,
          insert-IsSorted i.start (max s i.start) e i.ranges w (omega arith) (omega arith) m,
          λ x. insert-Covers i.start (max s i.start) e x i.ranges w (omega arith),
        )
]
