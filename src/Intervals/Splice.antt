-- ===== src/Intervals/Splice.antt =====
-- What the code does after the loop, on a list that is split at the indices found.
use phd.Base.{
  ℕ, ◌≡◌, refl, ap, true, false, none, some, List, [], ◌∷◌, ◌++◌, ◌==◌, length, take, drop, arith,
  length-append,
}
use mathlib.Core.List.{append_assoc, append-nil}
use phd.Intervals.{Range, set_start, set_end, splice}

take-length : (p r : List Range) → take (length p) (p ++ r) ≡ p
take-length [] r = refl
take-length (x ∷ p) r = ap (◌∷◌ x) (take-length p r)

drop-length : (p r : List Range) → drop (length p) (p ++ r) ≡ r
drop-length [] r = refl
drop-length (x ∷ p) r = drop-length p r

set_start-split :
    (p : List Range) (a b x : ℕ) (r : List Range)
    → set_start (p ++ (a, b) ∷ r) (length p) x ≡ p ++ (x, b) ∷ r
unfolding set_start
set_start-split [] a b x r = refl
set_start-split (y ∷ p) a b x r = ap (◌∷◌ y) (set_start-split p a b x r)

set_end-split :
    (p : List Range) (a b x : ℕ) (r : List Range)
    → set_end (p ++ (a, b) ∷ r) (length p) x ≡ p ++ (a, x) ∷ r
unfolding set_end
set_end-split [] a b x r = refl
set_end-split (y ∷ p) a b x r = ap (◌∷◌ y) (set_end-split p a b x r)

-- nothing touched: the new range goes in at the index reached
pub splice-none :
    (p r : List Range) (s e : ℕ)
    → splice
        (p ++ r)
        (record { j = length p; start = s; end = e; min_start_j = none; max_end_j = none })
      ≡ p ++ ((s, e) ∷ r)
unfolding splice
splice-none p r s e = rw (take-length p r, drop-length p r)

-- one range touched: it is overwritten
pub splice-one :
    (p r : List Range) (a b s e j : ℕ)
    → splice (p ++ (a, b) ∷ r) (record {
      j = j;
      start = s;
      end = e;
      min_start_j = some (length p);
      max_end_j = some (length p);
    })
      ≡ p ++ ((s, e) ∷ r)
unfolding splice
splice-one p r a b s e j =
    let same : (length p == length p) ≡ true = ground arith in
    rw (same, set_start-split p a b s r) (set_end-split p s b e r)

-- several touched: the last is overwritten and the others are cut out
pub splice-many :
    (p m r : List Range) (y : Range) (a b s e j : ℕ)
    → splice (p ++ (y ∷ m) ++ (a, b) ∷ r) (record {
      j = j;
      start = s;
      end = e;
      min_start_j = some (length p);
      max_end_j = some (length (p ++ y ∷ m));
    })
      ≡ p ++ ((s, e) ∷ r)
unfolding splice
splice-many p m r (c, d) a b s e j =
    let q = p ++ (s, d) ∷ m in
    let first : set_start (p ++ (c, d) ∷ m ++ (a, b) ∷ r) (length p) s ≡ q ++ (a, b) ∷ r =
      rw (append_assoc p ((c, d) ∷ m) ((a, b) ∷ r), append_assoc p ((s, d) ∷ m) ((a, b) ∷ r))
        (set_start-split p c d s (m ++ (a, b) ∷ r)) in
    let size : length (p ++ (c, d) ∷ m) ≡ length q =
      omega (arith, length-append p ((c, d) ∷ m), length-append p ((s, d) ∷ m)) in
    let apart : (length p == length q) ≡ false = ground (arith, length-append p ((s, d) ∷ m)) in
    let front : take (length p) (q ++ (s, e) ∷ r) ≡ p =
      rw (append_assoc p ((s, d) ∷ m) ((s, e) ∷ r)) (take-length p ((s, d) ∷ m ++ (s, e) ∷ r)) in
    rw (first, size)
      (rw (set_end-split q a b e r, set_start-split q a e s r, apart)
        (rw (front, drop-length q ((s, e) ∷ r))))

-- one or several: the ranges from index `length p` to that of (a, b) become one
pub splice-swallow :
    (p m r : List Range) (a b s e j k : ℕ)
    → k ≡ length (p ++ m)
    → splice
        (p ++ m ++ (a, b) ∷ r)
        (record { j = j; start = s; end = e; min_start_j = some (length p); max_end_j = some k })
      ≡ p ++ ((s, e) ∷ r)
splice-swallow p [] r a b s e j k h = rw (h, append-nil p) (splice-one p r a b s e j)
splice-swallow p (y ∷ m) r a b s e j k h = rw h (splice-many p m r y a b s e j)
