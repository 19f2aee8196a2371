-- ===== src/Swarm/Distance.antt =====
-- The distance metric (code/bee-snips-sup/pkg/swarm/distance.go).
pub mod Order
use Prim.Native.Nat.{bit_xor}
use phd.Base.{
  ℕ, Bool, true, false, Option, none, some, List, [], ◌∷◌, ltb, ◌==◌, if◌then◌else◌, length, ◌||◌,
  not,
}

unfoldable pub xor_bytes : List ℕ → List ℕ → List ℕ
xor_bytes (x ∷ xs) (y ∷ ys) = bit_xor x y ∷ xor_bytes xs ys
xor_bytes _ _ = []

-- `DistanceRaw`: `none` is the error on addresses of different lengths
unfoldable pub distance_raw : List ℕ → List ℕ → Option (List ℕ)
unfolding xor_bytes
distance_raw x y = if length x == length y then some (xor_bytes x y) else none

-- The result of `DistanceCmp`: 1, 0 or -1.
pub data Closeness : Type 0 where
  closer equally_far farther : Closeness

unfoldable pub cmp_loop : List ℕ → List ℕ → List ℕ → Closeness
cmp_loop (a ∷ rest_a) (x ∷ xs) (y ∷ ys) =
    let dx = bit_xor x a in
    let dy = bit_xor y a in
    let rest = cmp_loop rest_a xs ys in
    if dx == dy then rest else if ltb dx dy then closer else farther
cmp_loop _ _ _ = equally_far

-- `DistanceCmp`
unfoldable pub distance_cmp : List ℕ → List ℕ → List ℕ → Option Closeness
unfolding cmp_loop
distance_cmp a x y =
    if not (length a == length x) || not (length a == length y) then none else some (cmp_loop a x y)

-- the result is 1
abbrev pub is_nearer : Closeness → Bool
is_nearer closer = true
is_nearer _ = false

-- the first result of `Closer`, which is false where the lengths differ
unfoldable pub is_closer : List ℕ → List ℕ → List ℕ → Bool
unfolding distance_cmp
is_closer x a y = elim (distance_cmp a x y) [ none ↦ false | some c ↦ is_nearer c ]
