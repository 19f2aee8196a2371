-- ===== src/PSlice/Bins.antt =====
-- One bin: a list of peers without repetition.
pub mod Removal
use phd.Base.{
  ℕ, zero, suc, ◌+◌, ◌-◌, ◌≤◌, ◌<◌, ◌≡◌, ◌≢◌, ◌↔◌, refl, sym, ap, ◌∙◌, Bool, true, false, ◌||◌,
  List, [], ◌∷◌, ◌++◌, ◌==◌, ==_iff, if◌then◌else◌, length, set, take, arith, Bool-cases, inl, inr,
  length-append, length-set,
}
use phd.Swarm.{Bytes, Address, equal, equal_iff, equal_self}
use phd.PSlice.{bin_at, index_from, last_of, without}

unfoldable pub holds : Address → List Address → Bool
holds a [] = false
holds a (x ∷ xs) = if equal x a then true else holds a xs

abbrev pub Unique : List Address → Type 0
Unique [] = Unit
Unique (x ∷ xs) = (holds x xs ≡ false) × Unique xs

pub index_from-holds :
    (i : ℕ) (a : Address) (xs : List Address) → (index_from i a xs).0 ≡ holds a xs
unfolding index_from holds
index_from-holds i a [] = refl
index_from-holds i a (x ∷ xs) = ground (arith, index_from-holds (i + 1) a xs)

pub equal_symm : (a b : Address) → equal a b ≡ equal b a
equal_symm a b = elim (Bool-cases (equal a b)) [
  | inl h ↦ let e = (equal_iff a b).0 h in h ∙ sym ((equal_iff b a).1 (sym e))
  | inr h ↦ elim (Bool-cases (equal b a)) [
    | inl k ↦ let e = (equal_iff b a).0 k in cc (h, (equal_iff a b).1 (sym e))
    | inr k ↦ h ∙ sym k
  ]
]

pub holds-append :
    (a : Address) (xs ys : List Address) → holds a (xs ++ ys) ≡ (holds a xs || holds a ys)
unfolding holds
holds-append a [] ys = refl
holds-append a (x ∷ xs) ys = ground (arith, holds-append a xs ys)

pub Unique-concat :
    (a : Address) (xs : List Address) → Unique xs → holds a xs ≡ false → Unique (xs ++ a ∷ [])
unfolding holds
Unique-concat a [] u h = (refl, tt)
Unique-concat a (x ∷ xs) u h = elim (Bool-cases (equal x a)) [
  | inl e ↦ cc (rw e at h)
  | inr e ↦ (
    holds-append x xs (a ∷ []) ∙ ground (arith, u.0, e, equal_symm x a),
    Unique-concat a xs u.1 (rw e at h),
  )
]
