-- ===== src/Swarm/Distance/Order.antt =====
-- The distance comparison orders addresses by their distance bytes.
use phd.Base.{true, false, ℕ, ◌≡◌, ◌↔◌, refl, sym, ap, ◌∙◌, arith, some, List, [], ◌∷◌, length}
use phd.Base.Bits.{xor_cancel}
use phd.Swarm.{Comparison, below, same, above, compare_bytes}
use phd.Swarm.Distance.{
  xor_bytes, distance_raw, Closeness, closer, equally_far, farther, cmp_loop, distance_cmp,
  is_nearer, is_closer,
}

-- the distance that is lexicographically below is the closer one
abbrev pub closeness_of : Comparison → Closeness
closeness_of below = closer
closeness_of same = equally_far
closeness_of above = farther

cmp_loop_lem :
    (a x y : List ℕ)
    → length a ≡ length x
    → length a ≡ length y
    → cmp_loop a x y ≡ closeness_of (compare_bytes (xor_bytes x a) (xor_bytes y a))
unfolding cmp_loop compare_bytes xor_bytes
cmp_loop_lem [] [] [] p q = refl
cmp_loop_lem [] [] (y ∷ ys) p q = absurd (omega arith)
cmp_loop_lem [] (x ∷ xs) y p q = absurd (omega arith)
cmp_loop_lem (a ∷ r) [] y p q = absurd (omega arith)
cmp_loop_lem (a ∷ r) (x ∷ xs) [] p q = absurd (omega arith)
cmp_loop_lem (a ∷ r) (x ∷ xs) (y ∷ ys) p q = ground (arith, cmp_loop_lem r xs ys)

-- Where DistanceRaw of two addresses to a third succeeds, DistanceCmp compares the two results as
-- big-endian byte strings, and the smaller one is the closer.
pub distance_cmp_lem :
    (a x y dx dy : List ℕ)
    → distance_raw x a ≡ some dx
    → distance_raw y a ≡ some dy
    → distance_cmp a x y ≡ some (closeness_of (compare_bytes dx dy))
unfolding distance_raw distance_cmp
distance_cmp_lem a x y dx dy p q = ground (arith, cmp_loop_lem a x y)

cmp_loop_far :
    (a x y : List ℕ)
    → length a ≡ length x
    → length a ≡ length y
    → cmp_loop a x y ≡ equally_far
    → x ≡ y
unfolding cmp_loop
cmp_loop_far [] [] [] p q h = refl
cmp_loop_far [] [] (y ∷ ys) p q h = absurd (omega arith)
cmp_loop_far [] (x ∷ xs) y p q h = absurd (omega arith)
cmp_loop_far (a ∷ r) [] y p q h = absurd (omega arith)
cmp_loop_far (a ∷ r) (x ∷ xs) [] p q h = absurd (omega arith)
cmp_loop_far (a ∷ r) (x ∷ xs) (y ∷ ys) p q h =
    ground (arith, xor_cancel x y a, cmp_loop_far r xs ys)

cmp_loop_self : (a x : List ℕ) → cmp_loop a x x ≡ equally_far
unfolding cmp_loop
cmp_loop_self [] x = refl
cmp_loop_self (a ∷ r) [] = refl
cmp_loop_self (a ∷ r) (x ∷ xs) = ground (arith, cmp_loop_self r xs)

-- Two addresses are equally far from a third of the same length exactly when they are the same.
pub equally_far_iff :
    (a x y : List ℕ)
    → length a ≡ length x
    → length a ≡ length y
    → (distance_cmp a x y ≡ some equally_far) ↔ (x ≡ y)
unfolding distance_cmp
equally_far_iff a x y p q = (
  λ h. ground (arith, cmp_loop_far a x y),
  λ e. ground (arith, ap (cmp_loop a x) e, cmp_loop_self a x),
)

cmp_loop_asym :
    (a x y : List ℕ) → is_nearer (cmp_loop a x y) ≡ true → is_nearer (cmp_loop a y x) ≡ false
unfolding cmp_loop
cmp_loop_asym [] x y h = absurd cc
cmp_loop_asym (a ∷ r) [] y h = absurd cc
cmp_loop_asym (a ∷ r) (x ∷ xs) [] h = absurd cc
cmp_loop_asym (a ∷ r) (x ∷ xs) (y ∷ ys) h = ground (arith, cmp_loop_asym r xs ys)

cmp_loop_trans :
    (a x y z : List ℕ)
    → length a ≡ length y
    → is_nearer (cmp_loop a x y) ≡ false
    → is_nearer (cmp_loop a y z) ≡ false
    → is_nearer (cmp_loop a x z) ≡ false
unfolding cmp_loop
cmp_loop_trans [] x y z e p q = refl
cmp_loop_trans (a ∷ r) [] y z e p q = refl
cmp_loop_trans (a ∷ r) (x ∷ xs) y [] e p q = refl
cmp_loop_trans (a ∷ r) (x ∷ xs) [] (z ∷ zs) e p q = absurd (omega (arith, e))
cmp_loop_trans (a ∷ r) (x ∷ xs) (y ∷ ys) (z ∷ zs) e p q = ground (arith, cmp_loop_trans r xs ys zs)

-- Closer on addresses of one length
pub is_closer_lem :
    (a x y : List ℕ)
    → length a ≡ length x
    → length a ≡ length y
    → is_closer x a y ≡ is_nearer (cmp_loop a x y)
unfolding is_closer distance_cmp
is_closer_lem a x y p q = ground (arith, p, q)

pub is_closer_asym :
    (a x y : List ℕ)
    → length a ≡ length x
    → length a ≡ length y
    → is_closer x a y ≡ true
    → is_closer y a x ≡ false
is_closer_asym a x y p q h =
    is_closer_lem a y x q p ∙ cmp_loop_asym a x y (sym (is_closer_lem a x y p q) ∙ h)

pub is_closer_trans :
    (a x y z : List ℕ)
    → length a ≡ length x
    → length a ≡ length y
    → length a ≡ length z
    → is_closer x a y ≡ false
    → is_closer y a z ≡ false
    → is_closer x a z ≡ false
is_closer_trans a x y z p q r h g =
    is_closer_lem a x z p r
    ∙ cmp_loop_trans a x y z q (sym (is_closer_lem a x y p q) ∙ h)
        (sym (is_closer_lem a y z q r) ∙ g)

pub is_closer_self : (a x : List ℕ) → length a ≡ length x → is_closer x a x ≡ false
is_closer_self a x p = is_closer_lem a x x p p ∙ ap is_nearer (cmp_loop_self a x)
