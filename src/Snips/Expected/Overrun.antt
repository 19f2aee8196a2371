-- ===== src/Snips/Expected/Overrun.antt =====
-- A value past the claimed number of values makes the tally panic.
use phd.Base.{
  ℕ, zero, suc, ◌-◌, ◌^◌, ◌≤◌, ◌<◌, ◌≡◌, ◌⊎◌, inl, inr, refl, Option, none, some, List, [], ◌∷◌,
  length, get_elem?, set, In, All, arith, length-set,
}
use phd.Base.Result.{ok, panic}
use phd.Snips.Expected.{hit_index, dec_int32, hit_at, hit, hit_all}

get_elem?-past {ℓ} : {A : Type ℓ} (xs : List A) (i : ℕ) → length xs ≤ i → get_elem? xs i ≡ none
get_elem?-past [] i h = refl
get_elem?-past (x ∷ xs) zero h = absurd (omega arith)
get_elem?-past (x ∷ xs) (suc i) h = get_elem?-past xs i (omega arith)

abbrev pub IsValue : ℕ → Type 0
IsValue v = (0 < v) × (v < 2 ^ 64)

hit_past : {E : Type 0} (e : List ℕ) (v : ℕ) → IsValue v → length e < v → hit {E = E} e v ≡ panic
unfolding hit
hit_past e v r p =
    let at : hit_index v ≡ v - 1 = omega arith in rw (at, get_elem?-past e (v - 1) (omega arith))

hit-length : {E : Type 0} (e e' : List ℕ) (v : ℕ) → hit {E = E} e v ≡ ok e' → length e' ≡ length e
unfolding hit
hit-length {E} e e' v h = from (get_elem? e (hit_index v)) h
  where
    from : (o : Option ℕ) → hit_at {E = E} e (hit_index v) o ≡ ok e' → length e' ≡ length e
    from none q = cc
    from (some w) q =
        let same : set e (hit_index v) (dec_int32 w) ≡ e' = cc in
        rw (← same) (length-set e (hit_index v) (dec_int32 w))

-- `Hit` never returns an error
pub hit-cases :
    {E : Type 0} (e : List ℕ) (v : ℕ)
    → ((e' : List ℕ) × (hit {E = E} e v ≡ ok e')) ⊎ (hit {E = E} e v ≡ panic)
unfolding hit
hit-cases {E} e v = from (get_elem? e (hit_index v))
  where
    from :
        (o : Option ℕ)
        → ((e' : List ℕ) × (hit_at {E = E} e (hit_index v) o ≡ ok e'))
          ⊎ (hit_at {E = E} e (hit_index v) o ≡ panic)
    from none = inr refl
    from (some w) = inl (set e (hit_index v) (dec_int32 w), refl)

-- one value past the end is enough for a panic
pub hit_all-panic :
    {E : Type 0} (e vs : List ℕ) (v : ℕ)
    → All IsValue vs
    → In v vs
    → length e < v
    → hit_all {E = E} e vs ≡ panic
unfolding hit_all
hit_all-panic e [] v a i p = absurd i
hit_all-panic {E} e (u ∷ vs) v a (inl same) p = rw (hit_past {E = E} e u a.0 (rw same p))
hit_all-panic {E} e (u ∷ vs) v a (inr i) p = elim (hit-cases {E = E} e u) [
  | inl (e', q) ↦ rw q (hit_all-panic e' vs v a.1 i (rw (hit-length {E = E} e e' u q) p))
  | inr q ↦ rw q
]
