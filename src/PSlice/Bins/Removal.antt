-- ===== src/PSlice/Bins/Removal.antt =====
-- The bin that `Remove` makes (code/bee-snips-sup/pkg/topology/pslice/pslice.go).
use phd.Base.{
  ℕ, zero, suc, ◌+◌, ◌-◌, ◌≤◌, ◌≡◌, ◌≢◌, refl, sym, ap, ◌∙◌, Bool, true, false, List, [], ◌∷◌, ◌++◌,
  ◌==◌, ==_iff, if◌then◌else◌, length, set, take, arith, Bool-cases, inl, inr, length-append,
  length-set,
}
use phd.Swarm.{Address, equal, equal_iff}
use phd.PSlice.{index_from, last_of, without}
use phd.PSlice.Bins.{holds, Unique, equal_symm, holds-append}

-- the last peer, and those before it
snoc_view :
    (x : Address) (xs : List Address)
    → x ∷ xs ≡ take (length xs) (x ∷ xs) ++ (last_of (x ∷ xs) ∷ [])
unfolding last_of
snoc_view x [] = refl
snoc_view x (y ∷ ys) = ap (◌∷◌ x) (snoc_view y ys)

index_from-le :
    (k : ℕ) (a : Address) (xs : List Address)
    → (index_from k a xs).0 ≡ true
    → k ≤ (index_from k a xs).1
unfolding index_from
index_from-le k a [] h = cc
index_from-le k a (x ∷ xs) h = ground (arith, index_from-le (k + 1) a xs)

-- the peer found at i is replaced by z
holds-replace :
    (k i : ℕ) (a b z : Address) (xs : List Address)
    → index_from k a xs ≡ (true, k + i)
    → Unique (xs ++ z ∷ [])
    → holds b (set xs i z) ≡ (if equal a b then false else holds b (xs ++ z ∷ []))
unfolding holds index_from
holds-replace k i a b z [] h u = cc (ap (λ (p : Bool × ℕ). p.0) h)
holds-replace k zero a b z (x ∷ xs) h u = ground (
  arith,
  u.0,
  ap (λ (p : Bool × ℕ). p.1) h,
  ap (λ (p : Bool × ℕ). p.0) h,
  index_from-le (k + 1) a xs,
  holds-append b xs (z ∷ []),
  equal_iff x a,
  equal_iff x b,
  equal_iff a b,
  equal_iff z b,
)
holds-replace k (suc i) a b z (x ∷ xs) h u = elim (Bool-cases (equal x a)) [
  | inl e ↦ absurd (omega (arith, ap (λ (p : Bool × ℕ). p.1) (rw e at h)))
  | inr e ↦
      let there : index_from (k + 1) a xs ≡ (true, k + 1 + i) =
        rw e at h ∙ ap (λ n. (true, n)) (shift k i) in
      ground (
        arith,
        holds-replace (k + 1) i a b z xs there u.1,
        equal_iff x a,
        equal_iff x b,
        equal_iff a b,
      )
]
  where
    shift : (k i : ℕ) → k + suc i ≡ k + 1 + i
    shift k i = omega arith

holds-drop_last :
    (k : ℕ) (a b z : Address) (xs : List Address)
    → index_from k a (xs ++ z ∷ []) ≡ (true, k + length xs)
    → Unique (xs ++ z ∷ [])
    → holds b xs ≡ (if equal a b then false else holds b (xs ++ z ∷ []))
unfolding holds index_from
holds-drop_last k a b z [] h u =
    ground (arith, ap (λ (p : Bool × ℕ). p.0) h, equal_iff z a, equal_iff z b, equal_iff a b)
holds-drop_last k a b z (x ∷ xs) h u = elim (Bool-cases (equal x a)) [
  | inl e ↦ absurd (omega (arith, ap (λ (p : Bool × ℕ). p.1) (rw e at h)))
  | inr e ↦
      let there : index_from (k + 1) a (xs ++ z ∷ []) ≡ (true, k + 1 + length xs) =
        rw e at h ∙ ap (λ n. (true, n)) (shift k (length xs)) in
      ground (
        arith,
        holds-drop_last (k + 1) a b z xs there u.1,
        equal_iff x a,
        equal_iff x b,
        equal_iff a b,
      )
]
  where
    shift : (k i : ℕ) → k + suc i ≡ k + 1 + i
    shift k i = omega arith

holds_last : (z : Address) (xs : List Address) → Unique (xs ++ z ∷ []) → holds z xs ≡ false
unfolding holds
holds_last z [] u = refl
holds_last z (x ∷ xs) u =
    ground (arith, holds_last z xs u.1, holds-append x xs (z ∷ []), u.0, equal_symm x z)

Unique-drop_last : (z : Address) (xs : List Address) → Unique (xs ++ z ∷ []) → Unique xs
unfolding holds
Unique-drop_last z [] u = tt
Unique-drop_last z (x ∷ xs) u =
    (ground (arith, holds-append x xs (z ∷ []), u.0), Unique-drop_last z xs u.1)

Unique-replace :
    (k i : ℕ) (a z : Address) (xs : List Address)
    → index_from k a xs ≡ (true, k + i)
    → Unique (xs ++ z ∷ [])
    → Unique (set xs i z)
unfolding index_from
Unique-replace k i a z [] h u = tt
Unique-replace k zero a z (x ∷ xs) h u = (holds_last z xs u.1, Unique-drop_last z xs u.1)
Unique-replace k (suc i) a z (x ∷ xs) h u = elim (Bool-cases (equal x a)) [
  | inl e ↦ absurd (omega (arith, ap (λ (p : Bool × ℕ). p.1) (rw e at h)))
  | inr e ↦
      let there : index_from (k + 1) a xs ≡ (true, k + 1 + i) =
        rw e at h ∙ ap (λ n. (true, n)) (shift k i) in
      (
        ground (arith, holds-replace (k + 1) i a x z xs there u.1, u.0),
        Unique-replace (k + 1) i a z xs there u.1,
      )
]
  where
    shift : (k i : ℕ) → k + suc i ≡ k + 1 + i
    shift k i = omega arith

index_from-front :
    (k i : ℕ) (a z : Address) (xs : List Address)
    → index_from k a (xs ++ z ∷ []) ≡ (true, k + i)
    → i ≢ length xs
    → index_from k a xs ≡ (true, k + i)
unfolding index_from
index_from-front k i a z [] h n =
    absurd (n (ground (arith, ap (λ (p : Bool × ℕ). p.0) h, ap (λ (p : Bool × ℕ). p.1) h)))
index_from-front k zero a z (x ∷ xs) h n = elim (Bool-cases (equal x a)) [
  | inl e ↦ rw e (rw e at h)
  | inr e ↦ absurd (
      ground (
        arith,
        index_from-le (k + 1) a (xs ++ z ∷ []),
        ap (λ (p : Bool × ℕ). p.0) (rw e at h),
        ap (λ (p : Bool × ℕ). p.1) (rw e at h),
      ))
]
index_from-front k (suc i) a z (x ∷ xs) h n = elim (Bool-cases (equal x a)) [
  | inl e ↦ rw e (rw e at h)
  | inr e ↦
      let there : index_from (k + 1) a (xs ++ z ∷ []) ≡ (true, k + 1 + i) =
        rw e at h ∙ ap (λ n. (true, n)) (shift k i) in
      rw e (
        index_from-front (k + 1) i a z xs there (λ q. n (ap suc q))
        ∙ ap (λ n. (true, n)) (sym (shift k i)))
]
  where
    shift : (k i : ℕ) → k + suc i ≡ k + 1 + i
    shift k i = omega arith

-- what removing `a` from a bin gives
abbrev pub Without : Address → List Address → List Address → Type 0
Without a bin bin' =
    Unique bin'
    × ((b : Address) → holds b bin' ≡ (if equal a b then false else holds b bin))
    × (suc (length bin') ≡ length bin)

Without-split :
    (a z : Address) (i : ℕ) (xs : List Address)
    → index_from 0 a (xs ++ z ∷ []) ≡ (true, i)
    → Unique (xs ++ z ∷ [])
    → Without a (xs ++ z ∷ []) (if i == length xs then xs else set xs i z)
Without-split a z i xs h u = elim (Bool-cases (i == length xs)) [
  | inl e ↦
      let at : i ≡ 0 + length xs = omega (arith, (==_iff i (length xs)).0 e) in
      rw e (
        Unique-drop_last z xs u,
        λ b. holds-drop_last 0 a b z xs (h ∙ ap (λ n. (true, n)) at) u,
        omega (arith, length-append xs (z ∷ [])),
      )
  | inr e ↦
      let front : index_from 0 a xs ≡ (true, 0 + i) =
        index_from-front 0 i a z xs (h ∙ ap (λ n. (true, n)) zero_add)
          (λ q. cc (e, (==_iff i (length xs)).1 q)) in
      rw e (
        Unique-replace 0 i a z xs front u,
        λ b. holds-replace 0 i a b z xs front u,
        omega (arith, length-append xs (z ∷ []), length-set xs i z),
      )
]
  where
    zero_add : i ≡ 0 + i
    zero_add = omega arith

-- `Remove` takes the peer found out of its bin, and no other.
pub without_lem :
    (a : Address) (i : ℕ) (bin : List Address)
    → index_from 0 a bin ≡ (true, i)
    → Unique bin
    → Without a bin (without bin i)
unfolding without
without_lem a i [] h u = absurd (apart (ap (λ (p : Bool × ℕ). p.0) h))
  where
    apart : (index_from 0 a []).0 ≡ true → ⊥
    apart q = unfold index_from in cc q
without_lem a i (x ∷ xs) h u =
    let view = snoc_view x xs in
    let size : length (take (length xs) (x ∷ xs)) ≡ length xs =
      omega (
        arith,
        ap length view,
        length-append (take (length xs) (x ∷ xs)) (last_of (x ∷ xs) ∷ []),
      ) in
    let n : suc (length xs) - 1 ≡ length xs = omega arith in
    let split =
      Without-split a (last_of (x ∷ xs)) i (take (length xs) (x ∷ xs)) (rw (← view) h)
        (rw (← view) u) in
    rw n (rw (size, ← view) at split)
