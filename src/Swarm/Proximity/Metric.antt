-- ===== src/Swarm/Proximity/Metric.antt =====
-- The proximity order is the length of the common prefix, and an ultrametric.
use Prim.Native.Nat.{bit_xor, min}
use native.Mathlib.Decide.{dec_lt}
use phd.Base.{
  sym, ◌∙◌, ℕ, zero, suc, ◌+◌, ◌-◌, ◌*◌, ◌/◌, ◌%◌, ◌^◌, ◌≤◌, ◌<◌, ◌≡◌, ◌≢◌, ◌⊎◌, refl, arith, true,
  false, Option, none, some, List, [], ◌∷◌, ltb, ◌==◌, if◌then◌else◌, length, inl, inr, Bool-cases,
  ==_iff,
}
use phd.Base.Bits.{bit, bit-bit_xor, bit_and_one}
use phd.Swarm.Proximity.{
  max_po, extended_po, compared_bytes, po_bits, po_bytes, proximity, extended_proximity,
}

-- bit q of an address, from the most significant bit of its first byte
abbrev pub bit_at : List ℕ → ℕ → ℕ
bit_at [] q = 0
bit_at (x ∷ xs) q = if ltb q 8 then bit (7 - q) x else bit_at xs (q - 8)

bits_step :
    (k j oxo : ℕ)
    → po_bits (suc k) j oxo ≡ (if bit (7 - j) oxo == 0 then po_bits k (j + 1) oxo else some j)
unfolding po_bits
bits_step k j oxo = rw (bit_and_one (oxo / 2 ^ (7 - j)))

-- the bits j to r - 1 of a byte are 0
abbrev Clear : ℕ → ℕ → ℕ → Type 0
Clear oxo j r = (q : ℕ) → j ≤ q → q < r → bit (7 - q) oxo ≡ 0

Clear-cons : (oxo j r : ℕ) → bit (7 - j) oxo ≡ 0 → Clear oxo (j + 1) r → Clear oxo j r
Clear-cons oxo j r h c q lo hi = elim (Bool-cases (q == j)) [
  | inl here ↦ rw ((==_iff q j).0 here) h
  | inr other ↦ c q (ground arith) hi
]

abbrev FirstSet : ℕ → ℕ → ℕ → Option ℕ → Type 0
FirstSet oxo j r none = Clear oxo j r
FirstSet oxo j r (some s) = (j ≤ s) × (s < r) × (bit (7 - s) oxo ≡ 1) × Clear oxo j s

FirstSet-cons :
    (oxo j r : ℕ) (o : Option ℕ)
    → bit (7 - j) oxo ≡ 0
    → FirstSet oxo (j + 1) r o
    → FirstSet oxo j r o
FirstSet-cons oxo j r none h c = Clear-cons oxo j r h c
FirstSet-cons oxo j r (some s) h (lo, hi, one, c) = (omega arith, hi, one, Clear-cons oxo j s h c)

po_bits-FirstSet : (k j r oxo : ℕ) → j + k ≡ r → FirstSet oxo j r (po_bits k j oxo)
po_bits-FirstSet zero j r oxo e = unfold po_bits in λ q lo hi. absurd (omega arith)
po_bits-FirstSet (suc k) j r oxo e = elim (Bool-cases (bit (7 - j) oxo == 0)) [
  | inl clear ↦
      rw (bits_step k j oxo, clear)
        (FirstSet-cons oxo j r _ (ground arith) (po_bits-FirstSet k (j + 1) r oxo (omega arith)))
  | inr here ↦
      rw (bits_step k j oxo, here)
        (omega arith, omega arith, ground arith, λ q lo hi. absurd (omega arith))
]

-- `x` and `y` have the same bits below position p
abbrev pub Agree : List ℕ → List ℕ → ℕ → Type 0
Agree x y p = (q : ℕ) → q < p → bit_at x q ≡ bit_at y q

same_bit : (k x y : ℕ) → bit k (bit_xor x y) ≡ 0 → bit k x ≡ bit k y
same_bit k x y h = omega (arith, bit-bit_xor k x y)

other_bit : (k x y : ℕ) → bit k (bit_xor x y) ≡ 1 → bit k x ≢ bit k y
other_bit k x y h = omega (arith, bit-bit_xor k x y)

-- `r` is `base` plus the first position at which `x` and `y` differ, within 8 * k bits, and `po`
-- where there is none
abbrev FirstDiff : ℕ → ℕ → ℕ → List ℕ → List ℕ → ℕ → Type 0
FirstDiff po k base x y r =
    ((p : ℕ) × (p < 8 * k) × Agree x y p × (bit_at x p ≢ bit_at y p) × (r ≡ base + p))
    ⊎ ((r ≡ po) × Agree x y (8 * k))

Agree-cons :
    (x y : ℕ) (xs ys : List ℕ) (p : ℕ)
    → Clear (bit_xor x y) 0 8
    → Agree xs ys p
    → Agree (x ∷ xs) (y ∷ ys) (8 + p)
Agree-cons x y xs ys p c a q h = elim (Bool-cases (ltb q 8)) [
  | inl first ↦ rw first (same_bit (7 - q) x y (c q (omega arith) (ground arith)))
  | inr later ↦ rw later (a (q - 8) (ground arith))
]

Agree-head :
    (x y : ℕ) (xs ys : List ℕ) (p : ℕ) → p ≤ 8 → Clear (bit_xor x y) 0 p → Agree (x ∷ xs) (y ∷ ys) p
Agree-head x y xs ys p le c q h =
    let first : ltb q 8 ≡ true = ground arith in
    rw first (same_bit (7 - q) x y (c q (omega arith) h))

differ-head :
    (x y : ℕ) (xs ys : List ℕ) (p : ℕ)
    → p < 8
    → bit (7 - p) (bit_xor x y) ≡ 1
    → bit_at (x ∷ xs) p ≢ bit_at (y ∷ ys) p
differ-head x y xs ys p lt h =
    let first : ltb p 8 ≡ true = ground arith in rw first (other_bit (7 - p) x y h)

differ-cons :
    (x y : ℕ) (xs ys : List ℕ) (p : ℕ)
    → bit_at xs p ≢ bit_at ys p
    → bit_at (x ∷ xs) (8 + p) ≢ bit_at (y ∷ ys) (8 + p)
differ-cons x y xs ys p h =
    let later : ltb (8 + p) 8 ≡ false = ground arith in
    let back : 8 + p - 8 ≡ p = omega arith in rw (later, back) h

FirstDiff-cons :
    (po k base x y r : ℕ) (xs ys : List ℕ)
    → Clear (bit_xor x y) 0 8
    → FirstDiff po k (base + 8) xs ys r
    → FirstDiff po (suc k) base (x ∷ xs) (y ∷ ys) r
FirstDiff-cons po k base x y r xs ys c (inl (p, lt, a, d, e)) =
    inl (8 + p, omega arith, Agree-cons x y xs ys p c a, differ-cons x y xs ys p d, omega arith)
FirstDiff-cons po k base x y r xs ys c (inr (e, a)) =
    let eight : 8 * suc k ≡ 8 + 8 * k = omega arith in
    inr (e, rw eight (Agree-cons x y xs ys (8 * k) c a))

module _ (po k i x y : ℕ) (xs ys : List ℕ) where
  byte-FirstDiff :
      i < 32
      → (r : ℕ) (o : Option ℕ) → FirstSet (bit_xor x y) 0 8 o
      → FirstDiff po k ((i + 1) * 8) xs ys r
      → FirstDiff po
          (suc k)
          (i * 8)
          (x ∷ xs)
          (y ∷ ys)
          (elim o [ none ↦ r | some j ↦ (i * 8 + j) % 256 ])
  byte-FirstDiff lt r none c ih =
      let shift : (i + 1) * 8 ≡ i * 8 + 8 = omega arith in
      FirstDiff-cons po k (i * 8) x y r xs ys c (rw shift at ih)
  byte-FirstDiff lt r (some s) (lo, hi, one, c) ih = inl (
    s,
    omega arith,
    Agree-head x y xs ys s (omega arith) c,
    differ-head x y xs ys s hi one,
    omega arith,
  )

po_bytes-FirstDiff :
    (po k i : ℕ) (x y : List ℕ)
    → k ≤ length x
    → k ≤ length y
    → i + k ≤ 32
    → FirstDiff po k (i * 8) x y (po_bytes po k i x y)
unfolding po_bytes
po_bytes-FirstDiff po zero i x y p q s = inr (refl, λ q lt. absurd (omega arith))
po_bytes-FirstDiff po (suc k) i [] y p q s = absurd (omega arith)
po_bytes-FirstDiff po (suc k) i (x ∷ xs) [] p q s = absurd (omega arith)
po_bytes-FirstDiff po (suc k) i (x ∷ xs) (y ∷ ys) p q s =
    byte-FirstDiff po k i x y xs ys (omega arith) (po_bytes po k (i + 1) xs ys)
      (po_bits 8 0 (bit_xor x y)) (po_bits-FirstSet 8 0 8 (bit_xor x y) refl)
      (po_bytes-FirstDiff po k (i + 1) xs ys (omega arith) (omega arith) (omega arith))

-- as long as the code compares, and short enough that a uint8 holds the length
abbrev pub IsAddress : ℕ → List ℕ → Type 0
IsAddress least x = (least ≤ length x) × (length x < 256)

proximity-FirstDiff :
    (x y : List ℕ) → IsAddress 4 x → IsAddress 4 y → FirstDiff 31 4 0 x y (proximity x y)
unfolding proximity compared_bytes
proximity-FirstDiff x y p q =
    let four : compared_bytes max_po x y ≡ 4 = ground arith in
    rw four (po_bytes-FirstDiff 31 4 0 x y (omega arith) (omega arith) (omega arith))

-- The proximity order of two addresses of 4 to 255 bytes is at most 31; they have the same bits
-- below it, and if it is below 31 they differ at it.
pub proximity_lem :
    (x y : List ℕ)
    → IsAddress 4 x
    → IsAddress 4 y
    → (proximity x y ≤ max_po)
      × Agree x y (proximity x y)
      × (proximity x y < max_po → bit_at x (proximity x y) ≢ bit_at y (proximity x y))
proximity_lem x y p q = from (proximity-FirstDiff x y p q)
  where
    from :
        {r : ℕ}
        → FirstDiff 31 4 0 x y r
        → (r ≤ max_po) × Agree x y r × (r < max_po → bit_at x r ≢ bit_at y r)
    from {r = r} (inl (s, lt, a, d, e)) =
        let same : r ≡ s = omega arith in rw same (omega arith, a, λ h. d)
    from (inr (e, a)) = rw e (omega arith, λ q lt. a q (omega arith), λ h. absurd (omega arith))

-- Two addresses of 4 to 255 bytes that are each near a third are as near one another.
pub proximity_ultrametric :
    (x y z : List ℕ)
    → IsAddress 4 x
    → IsAddress 4 y
    → IsAddress 4 z
    → min (proximity x y) (proximity y z) ≤ proximity x z
proximity_ultrametric x y z p q s =
    elim (dec_lt (proximity x z) (min (proximity x y) (proximity y z))) [
      | yes h ↦
          let xy = proximity_lem x y p q in
          let yz = proximity_lem y z q s in
          absurd (
            (proximity_lem x z p s).2 (omega (arith, xy.0))
              (xy.1 (proximity x z) (omega arith) ∙ yz.1 (proximity x z) (omega arith)))
      | no h ↦ omega arith
    ]

proximity_le_sym : (x y : List ℕ) → IsAddress 4 x → IsAddress 4 y → proximity x y ≤ proximity y x
proximity_le_sym x y p q = elim (dec_lt (proximity y x) (proximity x y)) [
  | yes h ↦
      let xy = proximity_lem x y p q in
      absurd ((proximity_lem y x q p).2 (omega (arith, xy.0)) (sym (xy.1 (proximity y x) h)))
  | no h ↦ omega arith
]

-- The proximity order of two addresses of 4 to 255 bytes does not depend on their order.
pub proximity_symm : (x y : List ℕ) → IsAddress 4 x → IsAddress 4 y → proximity x y ≡ proximity y x
proximity_symm x y p q = omega (arith, proximity_le_sym x y p q, proximity_le_sym y x q p)

extended-FirstDiff :
    (x y : List ℕ) → IsAddress 5 x → IsAddress 5 y → FirstDiff 36 5 0 x y (extended_proximity x y)
unfolding extended_proximity compared_bytes
extended-FirstDiff x y p q =
    let five : compared_bytes extended_po x y ≡ 5 = ground arith in
    rw five (po_bytes-FirstDiff 36 5 0 x y (omega arith) (omega arith) (omega arith))

-- Two addresses of 5 to 255 bytes that agree in their first 37 bits and not in all of their first
-- 40 have a higher extended proximity order than an address has to itself.
pub extended_proximity_exceeds_self :
    (x y : List ℕ)
    → IsAddress 5 x
    → IsAddress 5 y
    → Agree x y 37
    → ¬ Agree x y 40
    → extended_proximity x x < extended_proximity x y
extended_proximity_exceeds_self x y p q near apart =
    between (extended-FirstDiff x x p p) (extended-FirstDiff x y p q)
  where
    between : {s r : ℕ} → FirstDiff 36 5 0 x x s → FirstDiff 36 5 0 x y r → s < r
    between (inl (k, lt, a, d, e)) g = absurd (d refl)
    between (inr f) (inr (e, a)) = absurd (apart a)
    between (inr f) (inl (k, lt, a, d, e)) = elim (dec_lt k 37) [
      | yes h ↦ absurd (d (near k h))
      | no h ↦ omega arith
    ]
