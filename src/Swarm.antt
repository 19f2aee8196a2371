-- ===== src/Swarm.antt =====
-- Addresses and chunks (code/bee-snips-sup/pkg/swarm/swarm.go).
pub mod Proximity
pub mod Distance
use phd.Base.{
  ℕ, ◌≡◌, ◌↔◌, refl, sym, ap, ◌∙◌, arith, Bool, true, false, ◌&&◌, List, [], ◌∷◌, ltb, ◌==◌, ==_iff,
  if◌then◌else◌, Bool-cases, inl, inr,
}

-- a byte string, each byte below 256
abbrev pub Bytes : Type 0
Bytes = List ℕ

abbrev pub Address : Type 0
Address = Bytes

abbrev pub zero_address : Address
zero_address = []

-- `bytes.Equal`, which `Address.Equal` calls
unfoldable pub equal : Bytes → Bytes → Bool
equal [] [] = true
equal (x ∷ xs) (y ∷ ys) = (x == y) && equal xs ys
equal _ _ = false

-- `Address.MemberOf`
unfoldable pub member_of : Address → List Address → Bool
member_of a [] = false
member_of a (v ∷ addrs) = if equal v a then true else member_of a addrs

-- The result of `bytes.Compare`: -1, 0 or +1.
pub data Comparison : Type 0 where
  below same above : Comparison

-- `bytes.Compare`: lexicographic, a prefix first
unfoldable pub compare_bytes : Bytes → Bytes → Comparison
compare_bytes [] [] = same
compare_bytes [] (y ∷ ys) = below
compare_bytes (x ∷ xs) [] = above
compare_bytes (x ∷ xs) (y ∷ ys) =
    let rest = compare_bytes xs ys in if ltb x y then below else if ltb y x then above else rest

-- What the node reads of a chunk: its address and its data.
pub record Chunk : Type 0 where
  pub address : Address
  pub payload : Bytes

pub equal_iff : (a b : Bytes) → (equal a b ≡ true) ↔ (a ≡ b)
unfolding equal
equal_iff a b = (to a b, λ e. rw (← e) (self a))
  where
    to : (a b : Bytes) → equal a b ≡ true → a ≡ b
    to [] [] h = refl
    to [] (y ∷ ys) h = cc
    to (x ∷ xs) [] h = cc
    to (x ∷ xs) (y ∷ ys) h = ground (arith, to xs ys)

    self : (a : Bytes) → equal a a ≡ true
    self [] = refl
    self (x ∷ xs) = ground (arith, self xs)

pub equal_self : (a : Bytes) → equal a a ≡ true
equal_self a = (equal_iff a a).1 refl

-- byte strings that are equal compare alike
pub equal-same : (x y p : Bytes) → equal x y ≡ true → equal x p ≡ equal y p
equal-same x y p h = ap (λ z. equal z p) ((equal_iff x y).0 h)

pub equal-other : (x y p : Bytes) → equal x y ≡ false → equal x p ≡ true → equal y p ≡ false
equal-other x y p different at = elim (Bool-cases (equal y p)) [
  | inr h ↦ h
  | inl h ↦
      let here : x ≡ y = (equal_iff x p).0 at ∙ sym ((equal_iff y p).0 h) in
      let again : equal x y ≡ true = (equal_iff x y).1 here in absurd cc
]
