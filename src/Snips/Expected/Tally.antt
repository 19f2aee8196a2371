-- ===== src/Snips/Expected/Tally.antt =====
-- What the tally says once the values that a verifier holds have been struck off.
use phd.Base.{
  ℕ, zero, suc, ◌+◌, ◌-◌, ◌%◌, ◌^◌, ◌≤◌, ◌<◌, ◌≡◌, ◌↔◌, inl, inr, refl, ◌∙◌, Bool, true, ap, some,
  List, [], ◌∷◌, ◌==◌, if◌then◌else◌, length, get_elem?, set, replicate, In, All, count, arith,
  length-set, get_elem?-set, get_elem?-total, length-replicate, count-le-length, Bool-cases,
}
use phd.Base.Result.{Result, ok}
use phd.Snips.Expected.{
  new_expected_vals, hit_index, dec_int32, hit, hit_all, collect, get_missing_chunks,
}

abbrev pub InRange : ℕ → ℕ → Type 0
InRange n v = (0 < v) × (v ≤ n)

-- entry i plus what was struck off is 1, modulo the width of an int32
abbrev pub Entry : (ℕ → ℕ) → List ℕ → Type 0
Entry c e = (i w : ℕ) → get_elem? e i ≡ some w → ((w + c i) % 2 ^ 32 ≡ 1) × (w < 2 ^ 32)

hit-InRange :
    {E : Type 0} (e : List ℕ) (v w : ℕ)
    → InRange (length e) v
    → length e < 2 ^ 64
    → get_elem? e (v - 1) ≡ some w
    → hit {E = E} e v ≡ ok (set e (v - 1) (dec_int32 w))
unfolding hit
hit-InRange e v w r s q = let at : hit_index v ≡ v - 1 = omega arith in rw (at, q)

hit-Entry :
    (c : ℕ → ℕ) (e : List ℕ) (v w : ℕ)
    → InRange (length e) v
    → get_elem? e (v - 1) ≡ some w
    → Entry c e
    → Entry (λ i. c i + (if v == i + 1 then 1 else 0)) (set e (v - 1) (dec_int32 w))
hit-Entry c e v w r q h i x p =
    ground (arith, get_elem?-set e (v - 1) i (dec_int32 w), h i x, h (v - 1) w)

abbrev Tallied : {E : Type 0} → (ℕ → ℕ) → List ℕ → Result E (List ℕ) → Type 0
Tallied {E} c e r = (e' : List ℕ) × (r ≡ ok e') × (length e' ≡ length e) × Entry c e'

Tallied-mono :
    {E : Type 0} (c d : ℕ → ℕ) (e e' : List ℕ) (r : Result E (List ℕ))
    → length e' ≡ length e
    → ((i : ℕ) → c i ≡ d i)
    → Tallied c e' r
    → Tallied d e r
Tallied-mono c d e e' r len same (f, run, size, entries) =
    (f, run, size ∙ len, λ i w q. rw (← same i) (entries i w q))

struck_split :
    (k : ℕ) (v i : ℕ) (vs : List ℕ)
    → k + (if v == i + 1 then 1 else 0) + count (i + 1) vs ≡ k + count (i + 1) (v ∷ vs)
struck_split k v i vs = ground arith

hit_all-Entry :
    {E : Type 0} (c : ℕ → ℕ) (e : List ℕ) (vs : List ℕ)
    → All (InRange (length e)) vs
    → length e < 2 ^ 64
    → Entry c e
    → Tallied (λ i. c i + count (i + 1) vs) e (hit_all {E = E} e vs)
unfolding hit_all
hit_all-Entry c e [] a s h = (e, refl, refl, λ i w q. omega (arith, h i w q))
hit_all-Entry c e (v ∷ vs) a s h =
    let (w, q) = get_elem?-total e (v - 1) (omega arith) in
    let len = length-set e (v - 1) (dec_int32 w) in
    rw (hit-InRange e v w a.0 s q) (
      Tallied-mono (λ i. c i + (if v == i + 1 then 1 else 0) + count (i + 1) vs) _ e
        (set e (v - 1) (dec_int32 w)) _ len (λ i. struck_split (c i) v i vs)
        (hit_all-Entry (λ i. c i + (if v == i + 1 then 1 else 0)) (set e (v - 1) (dec_int32 w)) vs
          (rw len a.1) (rw len s) (hit-Entry c e v w a.0 q h)))

replicate-Entry : (n i w : ℕ) → get_elem? (replicate n 1) i ≡ some w → w ≡ 1
replicate-Entry zero i w q = cc
replicate-Entry (suc n) zero w q = cc
replicate-Entry (suc n) (suc i) w q = replicate-Entry n i w q

new_expected-Entry : (n : ℕ) → Entry (λ i. 0) (new_expected_vals n)
unfolding new_expected_vals
new_expected-Entry n i w q = omega (arith, replicate-Entry n i w q)

-- Striking off values from 1 to n from a new tally of n < 2^64 entries never fails and leaves n
-- entries, of which the one of value v is 1 less the number of times v was struck, modulo 2^32.
pub hit_all_total :
    {E : Type 0} (n : ℕ) (vs : List ℕ)
    → n < 2 ^ 64
    → All (InRange n) vs
    → (e : List ℕ) × (hit_all {E = E} (new_expected_vals n) vs ≡ ok e)
      × (length e ≡ n)
      × Entry (λ i. count (i + 1) vs) e
unfolding new_expected_vals
hit_all_total n vs s a =
    let len = length-replicate {A = ℕ} n 1 in
    finish len
      (hit_all-Entry (λ i. 0) (new_expected_vals n) vs (rw len a) (rw len s) (new_expected-Entry n))
  where
    finish :
        {E : Type 0} {r : Result E (List ℕ)}
        → length {A = ℕ} (replicate n 1) ≡ n
        → Tallied (λ i. 0 + count (i + 1) vs) (replicate n 1) r
        → (e : List ℕ) × (r ≡ ok e) × (length e ≡ n) × Entry (λ i. count (i + 1) vs) e
    finish len (e, run, size, entries) = (e, run, size ∙ len, λ i w q. omega (arith, entries i w q))

-- each value above a bound and the next one above it
abbrev pub Above : ℕ → List ℕ → Type 0
Above n [] = Unit
Above n (v ∷ vs) = (n < v) × Above v vs

abbrev pub IsAscending : List ℕ → Type 0
IsAscending [] = Unit
IsAscending (v ∷ vs) = Above v vs

Above-weaker : (m n : ℕ) (vs : List ℕ) → m ≤ n → Above n vs → Above m vs
Above-weaker m n [] h a = tt
Above-weaker m n (v ∷ vs) h a = (omega (arith, h, a.0), a.1)

collect-Above : (p : ℕ → Bool) (i : ℕ) (e : List ℕ) → Above i (collect p i e)
unfolding collect
collect-Above p i [] = tt
collect-Above p i (w ∷ e) =
    let rest : Above (i + 1) (collect p (i + 1) e) = collect-Above p (i + 1) e in
    elim (Bool-cases (p w)) [
      | inl y ↦ rw (y) (omega arith, rest)
      | inr n ↦ rw (n) (Above-weaker i (i + 1) (collect p (i + 1) e) (omega arith) rest)
    ]

Above-IsAscending : (n : ℕ) (vs : List ℕ) → Above n vs → IsAscending vs
Above-IsAscending n [] a = tt
Above-IsAscending n (v ∷ vs) a = a.1

pub get_missing_chunks-IsAscending : (e : List ℕ) → IsAscending (get_missing_chunks e)
unfolding get_missing_chunks
get_missing_chunks-IsAscending e = Above-IsAscending 0 _ (collect-Above (λ w. w == 1) 0 e)

-- the collecting loops keep exactly the positions that pass the test
In-collect_to :
    (p : ℕ → Bool) (i : ℕ) (e : List ℕ) (v : ℕ)
    → In v (collect p i e)
    → (j w : ℕ) × (v ≡ i + j + 1) × (get_elem? e j ≡ some w) × (p w ≡ true)
unfolding collect
In-collect_to p i [] v h = elim h [ ]
In-collect_to p i (w ∷ e) v h = elim (Bool-cases (p w)) [
  | inl yes_p ↦ elim (rw yes_p at h) [
    | inl here ↦ (0, w, omega arith, refl, yes_p)
    | inr there ↦
        let (j, x, a, b, c) = In-collect_to p (i + 1) e v there in (suc j, x, omega arith, b, c)
  ]
  | inr no_p ↦
      let (j, x, a, b, c) = In-collect_to p (i + 1) e v (rw no_p at h) in
      (suc j, x, omega arith, b, c)
]

In-collect_of :
    (p : ℕ → Bool) (i : ℕ) (e : List ℕ) (j w : ℕ)
    → get_elem? e j ≡ some w
    → p w ≡ true
    → In (i + j + 1) (collect p i e)
unfolding collect
In-collect_of p i [] j w q t = cc
In-collect_of p i (x ∷ e) zero w q t = ground arith
In-collect_of p i (x ∷ e) (suc j) w q t =
    let ih : In (i + suc j + 1) (collect p (i + 1) e) =
      rw (shift i j) (In-collect_of p (i + 1) e j w q t) in
    elim (Bool-cases (p x)) [ inl h ↦ rw h (inr ih) | inr h ↦ rw h ih ]
  where
    shift : (i j : ℕ) → i + suc j + 1 ≡ i + 1 + j + 1
    shift i j = omega arith

abbrev pub Struck : ℕ → List ℕ → List ℕ → Type 0
Struck n vs e = (length e ≡ n) × Entry (λ i. count (i + 1) vs) e

pub hit_all-Struck :
    {E : Type 0} (n : ℕ) (vs : List ℕ) (e : List ℕ)
    → n < 2 ^ 64
    → All (InRange n) vs
    → hit_all {E = E} (new_expected_vals n) vs ≡ ok e
    → Struck n vs e
hit_all-Struck {E} n vs e s a run =
    let (f, runs, size, entries) = hit_all_total {E = E} n vs s a in
    let same : f ≡ e = cc in (rw (← same) size, rw (← same) entries)

pub get_elem?-lt {ℓ} :
    {A : Type ℓ} (xs : List A) (i : ℕ) {x : A} → get_elem? xs i ≡ some x → i < length xs
get_elem?-lt [] i h = cc
get_elem?-lt (x ∷ xs) zero h = omega arith
get_elem?-lt (x ∷ xs) (suc i) h = omega (arith, get_elem?-lt xs i h)

-- After fewer than 2^32 values from 1 to n were struck off, GetMissingChunks returns exactly the
-- values that were never struck.
pub get_missing_chunks_exact :
    {E : Type 0} (n : ℕ) (vs : List ℕ) (e : List ℕ)
    → n < 2 ^ 64
    → length vs < 2 ^ 32
    → All (InRange n) vs
    → hit_all {E = E} (new_expected_vals n) vs ≡ ok e
    → (v : ℕ) → In v (get_missing_chunks e) ↔ (InRange n v × (count v vs ≡ 0))
unfolding get_missing_chunks
get_missing_chunks_exact n vs e s few a run v = (to, of)
  where
    facts : Struck n vs e
    facts = hit_all-Struck n vs e s a run

    to : In v (collect (λ w. w == 1) 0 e) → InRange n v × (count v vs ≡ 0)
    to h =
        let (j, w, at, q, is_one) = In-collect_to (λ w. w == 1) 0 e v h in
        let v_is : v ≡ j + 1 = omega arith in
        let in_e = get_elem?-lt e j q in
        let one : w ≡ 1 = ground arith in
        (
          (omega arith, omega (arith, facts.0)),
          rw v_is (omega (arith, facts.1 j w q, count-le-length (j + 1) vs)),
        )

    of : InRange n v × (count v vs ≡ 0) → In v (collect (λ w. w == 1) 0 e)
    of ((lo, hi), never) =
        let (w, q) = get_elem?-total e (v - 1) (omega (arith, facts.0)) in
        let v_is : v ≡ 0 + (v - 1) + 1 = omega arith in
        let c_is : count (v - 1 + 1) vs ≡ 0 = ap (λ k. count k vs) (omega arith) ∙ never in
        let one : w ≡ 1 = omega (arith, facts.1 (v - 1) w q) in
        rw v_is (In-collect_of (λ w. w == 1) 0 e (v - 1) w q (ground arith))
