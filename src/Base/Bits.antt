-- ===== src/Base/Bits.antt =====
-- The bits of a number, and what `bit_and`, `bit_or` and `bit_xor` do to each.
use Prim.Native.Nat.{
  bit_and, bit_or, bit_xor, bit_xor-bitwise, bit_or-bitwise, bit_and-bitwise, digits, min, max,
  differ,
}
use native.Mathlib.Nat.{pow-suc, div-div-eq-div-mul, mul_comm}
use native.Mathlib.Decide.{dec_lt}
use phd.Base.{
  ℕ, zero, suc, ◌+◌, ◌-◌, ◌*◌, ◌/◌, ◌%◌, ◌^◌, ◌≤◌, ◌<◌, ◌≡◌, refl, sym, ◌∙◌, ap, arith, Bool, true,
  false, ◌&&◌, ◌==◌, ==_iff, Bool-cases, if◌then◌else◌, inl, inr,
}

-- the bit of weight 2 ^ k
abbrev pub bit : ℕ → ℕ → ℕ
bit k a = a / 2 ^ k % 2

module _ (z : ℕ → ℕ) (f : ℕ → ℕ → ℕ) where
  -- one unit of fuel past what the first number needs changes nothing
  one_more : (a n b : ℕ) → a ≤ n → digits z f (suc n) a b ≡ digits z f n a b
  one_more zero zero b le = refl
  one_more zero (suc n) b le = refl
  one_more (suc a) zero b le = absurd (omega arith)
  one_more (suc a) (suc n) b le = omega (arith, one_more (suc a / 2) n (b / 2) (omega arith))

  surplus : (j a b : ℕ) → digits z f (j + a) a b ≡ digits z f a a b
  surplus zero a b = ap (λ n. digits z f n a b) (omega arith)
  surplus (suc j) a b =
      let shift : suc j + a ≡ suc (j + a) = omega arith in
      ap (λ n. digits z f n a b) shift ∙ one_more a (j + a) b (omega arith) ∙ surplus j a b

  by_halves :
      ((b : ℕ) → z b ≡ 2 * z (b / 2) + f 0 (b % 2))
      → (b a : ℕ) → digits z f a a b ≡ 2 * digits z f (a / 2) (a / 2) (b / 2) + f (a % 2) (b % 2)
  by_halves base b zero = base b
  by_halves base b (suc a) =
      let fuel : a ≡ a - suc a / 2 + suc a / 2 = omega arith in
      let half : digits z f a (suc a / 2) (b / 2) ≡ digits z f (suc a / 2) (suc a / 2) (b / 2) =
        ap (λ n. digits z f n (suc a / 2) (b / 2)) fuel
        ∙ surplus (a - suc a / 2) (suc a / 2) (b / 2) in
      omega (arith, half)

differ_digits : (x y : ℕ) → x < 2 → y < 2 → differ x y ≡ (x + y) % 2
differ_digits zero y p q = omega arith
differ_digits (suc zero) zero p q = refl
differ_digits (suc zero) (suc zero) p q = refl
differ_digits (suc zero) (suc (suc y)) p q = absurd (omega arith)
differ_digits (suc (suc x)) y p q = absurd (omega arith)

pub halves_xor : (a b : ℕ) → bit_xor a b ≡ 2 * bit_xor (a / 2) (b / 2) + (a % 2 + b % 2) % 2
halves_xor a b = omega (
  arith,
  bit_xor-bitwise a b,
  bit_xor-bitwise (a / 2) (b / 2),
  by_halves (λ b. b) differ (λ b. omega arith) b a,
  differ_digits (a % 2) (b % 2) (omega arith) (omega arith),
)

pub halves_and : (a b : ℕ) → bit_and a b ≡ 2 * bit_and (a / 2) (b / 2) + min (a % 2) (b % 2)
halves_and a b = omega (
  arith,
  bit_and-bitwise a b,
  bit_and-bitwise (a / 2) (b / 2),
  by_halves (λ b. zero) min (λ b. omega arith) b a,
)

pub halves_or : (a b : ℕ) → bit_or a b ≡ 2 * bit_or (a / 2) (b / 2) + max (a % 2) (b % 2)
halves_or a b = omega (
  arith,
  bit_or-bitwise a b,
  bit_or-bitwise (a / 2) (b / 2),
  by_halves (λ b. b) max (λ b. omega arith) b a,
)

pub half_pow : (k a : ℕ) → a / 2 ^ suc k ≡ a / 2 / 2 ^ k
half_pow k a = rw (div-div-eq-div-mul, pow-suc) (ap (λ t. a / t) (mul_comm (2 ^ k) 2))

-- the operation on the digits, digit by digit
bit_of_step :
    (op g : ℕ → ℕ → ℕ)
    → ((a b : ℕ) → op a b ≡ 2 * op (a / 2) (b / 2) + g (a % 2) (b % 2))
    → ((x y : ℕ) → x < 2 → y < 2 → g x y < 2)
    → (k a b : ℕ) → bit k (op a b) ≡ g (bit k a) (bit k b)
bit_of_step op g step small zero a b =
    ground (arith, step a b, small (a % 2) (b % 2) (omega arith) (omega arith))
bit_of_step op g step small (suc k) a b =
    let half : op a b / 2 ≡ op (a / 2) (b / 2) =
      omega (arith, step a b, small (a % 2) (b % 2) (omega arith) (omega arith)) in
    rw (half_pow k (op a b), half_pow k a, half_pow k b, half)
      (bit_of_step op g step small k (a / 2) (b / 2))

pub bit-bit_xor : (k a b : ℕ) → bit k (bit_xor a b) ≡ (bit k a + bit k b) % 2
bit-bit_xor = bit_of_step bit_xor (λ x y. (x + y) % 2) halves_xor (λ x y p q. omega arith)

pub bit-bit_and : (k a b : ℕ) → bit k (bit_and a b) ≡ min (bit k a) (bit k b)
bit-bit_and = bit_of_step bit_and min halves_and (λ x y p q. omega arith)

pub bit-bit_or : (k a b : ℕ) → bit k (bit_or a b) ≡ max (bit k a) (bit k b)
bit-bit_or = bit_of_step bit_or max halves_or (λ x y p q. omega arith)

pub bit_and_one : (a : ℕ) → bit_and a 1 ≡ a % 2
bit_and_one a = omega (arith, halves_and a 1, bit_and_zero (a / 2))
  where
    zero_digits : (n a : ℕ) → digits (λ b. zero) min n a 0 ≡ 0
    zero_digits zero a = refl
    zero_digits (suc n) zero = refl
    zero_digits (suc n) (suc a) = omega (arith, zero_digits n (suc a / 2))

    bit_and_zero : (a : ℕ) → bit_and a 0 ≡ 0
    bit_and_zero a = bit_and-bitwise a 0 ∙ zero_digits a a

xor_cancel_below : (n x y a : ℕ) → x + y < n → bit_xor x a ≡ bit_xor y a → x ≡ y
xor_cancel_below zero x y a p h = absurd (omega arith)
xor_cancel_below (suc n) x y a p h = elim (dec_lt (x + y) 1) [
  | yes small ↦ omega arith
  | no large ↦
      let steps : bit_xor (x / 2) (a / 2) ≡ bit_xor (y / 2) (a / 2) =
        omega (arith, halves_xor x a, halves_xor y a) in
      omega (
        arith,
        xor_cancel_below n (x / 2) (y / 2) (a / 2) (omega arith) steps,
        halves_xor x a,
        halves_xor y a,
      )
]

pub xor_cancel : (x y a : ℕ) → bit_xor x a ≡ bit_xor y a → x ≡ y
xor_cancel x y a h = xor_cancel_below (x + y + 1) x y a (omega arith) h

-- what is left of a number of which all bits but one are masked out
pub bit_and_pow : (k b : ℕ) → bit_and b (2 ^ k) ≡ bit k b * 2 ^ k
bit_and_pow zero b = omega (arith, bit_and_one b)
bit_and_pow (suc k) b =
    let twice : 2 ^ suc k ≡ 2 * 2 ^ k = pow-suc 2 k ∙ mul_comm (2 ^ k) 2 in
    let half : 2 ^ suc k / 2 ≡ 2 ^ k = omega (arith, twice) in
    let even : 2 ^ suc k % 2 ≡ 0 = omega (arith, twice) in
    halves_and b (2 ^ suc k)
    ∙ rw (half, even, bit_and_pow k (b / 2), half_pow k b)
        (doubled (b / 2 / 2 ^ k % 2) (2 ^ k) (2 ^ suc k) (b % 2) (omega arith) twice)
  where
    doubled : (t x y m : ℕ) → t < 2 → y ≡ 2 * x → 2 * (t * x) + min m 0 ≡ t * y
    doubled zero x y m l e = omega arith
    doubled (suc zero) x y m l e = omega arith
    doubled (suc (suc t)) x y m l e = absurd (omega arith)

-- Agreement below a number, by a test of each one.
abbrev pub agree_below : ℕ → (ℕ → ℕ) → (ℕ → ℕ) → Bool
agree_below zero f g = true
agree_below (suc n) f g = (f n == g n) && agree_below n f g

left : (a b : Bool) → (a && b) ≡ true → a ≡ true
left true b h = refl
left false b h = cc h

right : (a b : Bool) → (a && b) ≡ true → b ≡ true
right true b h = h
right false b h = cc h

pub agree_below_lem : (n : ℕ) (f g : ℕ → ℕ) → agree_below n f g ≡ true → (q : ℕ) → q < n → f q ≡ g q
agree_below_lem zero f g h q l = absurd (omega arith)
agree_below_lem (suc n) f g h q l = elim (Bool-cases (q == n)) [
  | inl e ↦
      let eq = (==_iff q n).0 e in ap f eq ∙ (==_iff (f n) (g n)).0 (left _ _ h) ∙ ap g (sym eq)
  | inr e ↦ agree_below_lem n f g (right _ _ h) q (ground arith)
]

-- the bits of a byte with one bit, and of one without it
module _ (k j : ℕ) (p : k < 8) (q : j < 8) where
  row : (8 * k + j) / 8 ≡ k
  row = omega arith

  column : (8 * k + j) % 8 ≡ j
  column = omega arith

  at_entry :
      (f g : ℕ → ℕ → ℕ)
      → agree_below 64 (λ n. f (n / 8) (n % 8)) (λ n. g (n / 8) (n % 8)) ≡ true
      → f k j ≡ g k j
  at_entry f g h =
      let entry : f ((8 * k + j) / 8) ((8 * k + j) % 8) ≡ g ((8 * k + j) / 8) ((8 * k + j) % 8) =
        agree_below_lem 64 (λ n. f (n / 8) (n % 8)) (λ n. g (n / 8) (n % 8)) h (8 * k + j)
          (omega arith) in
      rw (row, column) at entry

  pub bit_of_one : bit j (2 ^ k) ≡ (if k == j then 1 else 0)
  bit_of_one = at_entry (λ k j. bit j (2 ^ k)) (λ k j. if k == j then 1 else 0) refl

  pub bit_of_others : bit j (255 - 2 ^ k) ≡ (if k == j then 0 else 1)
  bit_of_others = at_entry (λ k j. bit j (255 - 2 ^ k)) (λ k j. if k == j then 0 else 1) refl

pub pow_pos : (k : ℕ) → 0 < 2 ^ k
pow_pos zero = omega arith
pow_pos (suc k) = omega (arith, pow-suc 2 k, pow_pos k)
