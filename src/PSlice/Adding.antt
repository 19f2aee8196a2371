-- ===== src/PSlice/Adding.antt =====
-- `Add` of one address, and of one that is given twice.
use phd.Base.{
  ℕ, zero, suc, ◌+◌, ◌<◌, ◌≡◌, refl, sym, ap, ◌∙◌, true, false, List, [], ◌∷◌, ◌++◌, ◌==◌, ==_iff,
  if◌then◌else◌, length, set, arith, Bool-cases, inl, inr, ◌⊎◌, length-append, length-set,
}
use phd.Swarm.{Address, equal, equal_iff, equal_self}
use phd.PSlice.{PSlice, bin_at, po, append_to, add_one, add, exists, total}
use phd.PSlice.Bins.{holds, holds-append, Unique-concat}
use phd.PSlice.Members.{IsPlaced, po-lt, exists_lem, replaced, replaced-IsPlaced, replaced-exists}

add_bin : Address → PSlice → List Address
add_bin a s = bin_at s.peers (po s a) ++ a ∷ []

appended-IsPlaced :
    (a : Address) (s : PSlice) → IsPlaced s → exists a s ≡ false → IsPlaced (append_to s (po s a) a)
unfolding append_to add_bin holds
appended-IsPlaced a s v absent =
    replaced-IsPlaced a s v (add_bin a s)
      (Unique-concat a (bin_at s.peers (po s a)) (v.unique (po s a))
        (sym (exists_lem a s) ∙ absent))
      (λ b h. only b h)
  where
    only :
        (b : Address)
        → holds b (bin_at s.peers (po s a) ++ a ∷ []) ≡ true
        → (holds b (bin_at s.peers (po s a)) ≡ true) ⊎ (a ≡ b)
    only b h = elim (Bool-cases (equal a b)) [
      | inl e ↦ inr ((equal_iff a b).0 e)
      | inr e ↦ inl (ground (arith, holds-append b (bin_at s.peers (po s a)) (a ∷ [])))
    ]

appended-exists :
    (a : Address) (s : PSlice)
    → IsPlaced s
    → (b : Address) → exists b (append_to s (po s a) a) ≡ (if equal a b then true else exists b s)
unfolding append_to add_bin holds
appended-exists a s v b =
    let split = holds-append b (bin_at s.peers (po s a)) (a ∷ []) in
    replaced-exists a s v (add_bin a s) b ∙ elim (Bool-cases (equal a b)) [
      | inl e ↦
          let same : (po s a == po s b) ≡ true =
            (==_iff (po s a) (po s b)).1 (ap (po s) ((equal_iff a b).0 e)) in
          rw (split, same, e) (ground arith)
      | inr e ↦ elim (Bool-cases (po s a == po s b)) [
        | inl k ↦
            let same : po s a ≡ po s b = (==_iff (po s a) (po s b)).0 k in
            rw (split, k, e)
              (ground (arith, exists_lem b s, ap (λ p. holds b (bin_at s.peers p)) same))
        | inr k ↦ rw (split, k, e) refl
      ]
    ]

add_one-cases :
    (a : Address) (s : PSlice) → add_one a s ≡ (if exists a s then s else append_to s (po s a) a)
unfolding add_one exists
add_one-cases a s = refl

add_one-IsPlaced : (a : Address) (s : PSlice) → IsPlaced s → IsPlaced (add_one a s)
add_one-IsPlaced a s v = elim (Bool-cases (exists a s)) [
  | inl e ↦ rw (add_one-cases a s, e) v
  | inr e ↦ rw (add_one-cases a s, e) (appended-IsPlaced a s v e)
]

exists-add_one :
    (a : Address) (s : PSlice)
    → IsPlaced s
    → (b : Address) → exists b (add_one a s) ≡ (if equal a b then true else exists b s)
exists-add_one a s v b = elim (Bool-cases (exists a s)) [
  | inl e ↦ elim (Bool-cases (equal a b)) [
    | inl k ↦ rw (add_one-cases a s, e, k) (ap (λ x. exists x s) (sym ((equal_iff a b).0 k)) ∙ e)
    | inr k ↦ rw (add_one-cases a s, e, k) refl
  ]
  | inr e ↦ rw (add_one-cases a s, e) (appended-exists a s v b)
]

total-set :
    (bs : List (List Address)) (i : ℕ) (b : List Address)
    → i < length bs
    → total (set bs i b) + length (bin_at bs i) ≡ total bs + length b
unfolding total
total-set [] i b h = absurd (omega arith)
total-set (x ∷ bs) zero b h = omega arith
total-set (x ∷ bs) (suc i) b h = omega (arith, total-set bs i b (omega arith))

pub total-replaced :
    (a : Address) (s : PSlice)
    → IsPlaced s
    → (bin : List Address)
    → total (replaced a s bin).peers + length (bin_at s.peers (po s a)) ≡ total s.peers + length bin
total-replaced a s v bin =
    total-set s.peers (po s a) bin (rw v.bins (po-lt s a v.some_bins v.few_bins))

append_at-total :
    (a : Address) (i : ℕ) (s : PSlice)
    → i < length s.peers
    → total (append_to s i a).peers ≡ suc (total s.peers)
unfolding append_to
append_at-total a i s h = omega (
  arith,
  total-set s.peers i (bin_at s.peers i ++ a ∷ []) h,
  length-append (bin_at s.peers i) (a ∷ []),
)

append_at-length :
    (a : Address) (i : ℕ) (s : PSlice) → length (append_to s i a).peers ≡ length s.peers
unfolding append_to
append_at-length a i s = length-set s.peers i (bin_at s.peers i ++ a ∷ [])

total-add_one :
    (a : Address) (s : PSlice)
    → IsPlaced s
    → total (add_one a s).peers ≡ (if exists a s then total s.peers else suc (total s.peers))
total-add_one a s v = elim (Bool-cases (exists a s)) [
  | inl e ↦ rw (add_one-cases a s, e) refl
  | inr e ↦
      rw (add_one-cases a s, e)
        (append_at-total a (po s a) s (rw v.bins (po-lt s a v.some_bins v.few_bins)))
]

-- Add of one address keeps every peer once and in its own bin; afterwards exactly that address and
-- the earlier ones exist, and the length grows by one unless the address was there.
pub add_one_lem :
    (a : Address) (s : PSlice)
    → IsPlaced s
    → IsPlaced (add_one a s)
      × ((b : Address) → exists b (add_one a s) ≡ (if equal a b then true else exists b s))
      × (total (add_one a s).peers ≡ (if exists a s then total s.peers else suc (total s.peers)))
add_one_lem a s v = (add_one-IsPlaced a s v, exists-add_one a s v, total-add_one a s v)

appended_twice-total :
    (a : Address) (s : PSlice)
    → IsPlaced s
    → total (append_to (append_to s (po s a) a) (po s a) a).peers ≡ total s.peers + 2
appended_twice-total a s v =
    let i_lt : po s a < length s.peers = rw v.bins (po-lt s a v.some_bins v.few_bins) in
    let once = append_at-total a (po s a) s i_lt in
    omega (
      arith,
      once,
      append_at-total a (po s a) (append_to s (po s a) a) (rw (append_at-length a (po s a) s) i_lt),
    )

-- A new address that is given twice to one call of Add is stored twice, and given to two calls it
-- is stored once.
pub add_repeated :
    (a : Address) (s : PSlice)
    → IsPlaced s
    → exists a s ≡ false
    → (total (add (a ∷ a ∷ []) s).peers ≡ total s.peers + 2)
      × (total (add_one a (add_one a s)).peers ≡ total s.peers + 1)
unfolding add exists
add_repeated a s v e = (rw e (appended_twice-total a s v), once)
  where
    once : total (add_one a (add_one a s)).peers ≡ total s.peers + 1
    once =
        let there : exists a (add_one a s) ≡ true =
          exists-add_one a s v a ∙ rw (equal_self a) refl in
        rw (total-add_one a (add_one a s) (add_one-IsPlaced a s v), there, total-add_one a s v, e)
          (omega arith)
