-- ===== src/Snips/Expected/Duplicates.antt =====
-- When the tally reports both a missing and a duplicate value.
use phd.Base.{
  ℕ, zero, suc, ◌+◌, ◌-◌, ◌^◌, ◌<◌, ◌≡◌, ◌↔◌, inl, inr, ◌∙◌, Bool, true, false, ◌&&◌, ◌||◌, ap,
  ==_iff, some, List, [], ◌∷◌, ◌==◌, if◌then◌else◌, length, get_elem?, All, count, arith,
  get_elem?-total, count-le-length, Bool-cases,
}
use phd.Base.Result.{ok}
use phd.Snips.Expected.{new_expected_vals, hit_all, got_loop, got_missing_and_duplicate}
use phd.Snips.Expected.Tally.{InRange, Struck, hit_all-Struck, get_elem?-lt}

any_is : ℕ → List ℕ → Bool
any_is x [] = false
any_is x (w ∷ e) = (w == x) || any_is x e

got_loop_lem :
    (m d : Bool) (e : List ℕ) → got_loop m d e ≡ ((m || any_is 1 e) && (d || any_is (2 ^ 32 - 1) e))
unfolding got_loop any_is
got_loop_lem m d [] = ground arith
got_loop_lem m d (w ∷ e) = ground (
  arith,
  got_loop_lem (if w == 1 then true else m)
      (if w == 1 then d else if w == 2 ^ 32 - 1 then true else d) e,
)

any_is_to : (x : ℕ) (e : List ℕ) → any_is x e ≡ true → (j : ℕ) × (get_elem? e j ≡ some x)
unfolding any_is
any_is_to x [] h = cc
any_is_to x (w ∷ e) h = elim (Bool-cases (w == x)) [
  | inl same ↦ (0, ap some ((==_iff w x).0 same))
  | inr other ↦ let (j, q) = any_is_to x e (rw other at h) in (suc j, q)
]

any_is_of : (x : ℕ) (e : List ℕ) (j : ℕ) → get_elem? e j ≡ some x → any_is x e ≡ true
unfolding any_is
any_is_of x [] j q = cc
any_is_of x (w ∷ e) zero q = ground arith
any_is_of x (w ∷ e) (suc j) q = ground (arith, any_is_of x e j q)

-- After fewer than 2^32 values from 1 to n were struck off, GotMissingAndDuplicate holds exactly
-- when some value was never struck and some value was struck exactly twice.
pub got_missing_and_duplicate_exact :
    {E : Type 0} (n : ℕ) (vs : List ℕ) (e : List ℕ)
    → n < 2 ^ 64
    → length vs < 2 ^ 32
    → All (InRange n) vs
    → hit_all {E = E} (new_expected_vals n) vs ≡ ok e
    → (got_missing_and_duplicate e ≡ true)
      ↔ (((v : ℕ) × InRange n v × (count v vs ≡ 0)) × ((v : ℕ) × InRange n v × (count v vs ≡ 2)))
unfolding got_missing_and_duplicate
got_missing_and_duplicate_exact n vs e s few a run = (to, of)
  where
    facts : Struck n vs e
    facts = hit_all-Struck n vs e s a run

    position :
        (v : ℕ)
        → InRange n v
        → (w : ℕ) × (get_elem? e (v - 1) ≡ some w) × (count (v - 1 + 1) vs ≡ count v vs)
    position v r =
        let (w, q) = get_elem?-total e (v - 1) (omega (arith, facts.0)) in
        (w, q, ap (λ k. count k vs) (omega arith))

    to :
        got_loop false false e ≡ true
        → ((v : ℕ) × InRange n v × (count v vs ≡ 0)) × ((v : ℕ) × InRange n v × (count v vs ≡ 2))
    to h =
        let split = got_loop_lem false false e in
        let (j, q) = any_is_to 1 e (ground arith) in
        let (k, r) = any_is_to (2 ^ 32 - 1) e (ground arith) in
        (
          (
            j + 1,
            (omega arith, omega (arith, facts.0, get_elem?-lt e j q)),
            omega (arith, facts.1 j 1 q, count-le-length (j + 1) vs),
          ),
          (
            k + 1,
            (omega arith, omega (arith, facts.0, get_elem?-lt e k r)),
            omega (arith, facts.1 k (2 ^ 32 - 1) r, count-le-length (k + 1) vs),
          ),
        )

    of :
        ((v : ℕ) × InRange n v × (count v vs ≡ 0)) × ((v : ℕ) × InRange n v × (count v vs ≡ 2))
        → got_loop false false e ≡ true
    of ((v, rv, never), (u, ru, twice)) =
        let (w, q, cw) = position v rv in
        let (x, r, cx) = position u ru in
        let one : w ≡ 1 = omega (arith, facts.1 (v - 1) w q) in
        let minus : x ≡ 2 ^ 32 - 1 = omega (arith, facts.1 (u - 1) x r) in
        rw (
          got_loop_lem false false e,
          any_is_of 1 e (v - 1) (q ∙ ap some one),
          any_is_of (2 ^ 32 - 1) e (u - 1) (r ∙ ap some minus),
        )
