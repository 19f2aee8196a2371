-- ===== src/Snips/Radius/Range.antt =====
-- Every chunk that a node proves lies within the range that it sends.
use phd.Base.{
  ℕ, ◌≤◌, ◌≡◌, ◌↔◌, inl, inr, refl, ap, true, false, List, [], ◌∷◌, In, All, ltb, arith, Bool-cases,
}
use mathlib.Core.Path.{subst}
use phd.Swarm.{Bytes, Address, Chunk, Comparison, below, same, above, compare_bytes}
use phd.Swarm.Proximity.{proximity}
use phd.Snips.Proof.{is_above, outside}
use phd.Snips.Radius.{is_below, is_empty, lower, upper, get_chunks_in_my_radius}

-- the first is not above the second
abbrev pub AtMost : Bytes → Bytes → Type 0
AtMost a b = is_above (compare_bytes a b) ≡ false

AtMost-refl : (a : Bytes) → AtMost a a
unfolding compare_bytes
AtMost-refl [] = refl
AtMost-refl (x ∷ a) = ground (arith, AtMost-refl a)

AtMost-trans : (a b c : Bytes) → AtMost a b → AtMost b c → AtMost a c
unfolding compare_bytes
AtMost-trans [] b [] p q = refl
AtMost-trans [] b (z ∷ c) p q = refl
AtMost-trans (x ∷ a) [] c p q = cc
AtMost-trans (x ∷ a) (y ∷ b) [] p q = cc
AtMost-trans (x ∷ a) (y ∷ b) (z ∷ c) p q = ground (arith, AtMost-trans a b c)

AtMost-of_below : (a b : Bytes) → is_below (compare_bytes a b) ≡ true → AtMost a b
AtMost-of_below a b h = by_result (compare_bytes a b) h
  where
    by_result : (r : Comparison) → is_below r ≡ true → is_above r ≡ false
    by_result below h = refl
    by_result same h = refl
    by_result above h = cc

AtMost-of_not_below : (a b : Bytes) → is_below (compare_bytes a b) ≡ false → AtMost b a
unfolding compare_bytes
AtMost-of_not_below [] [] h = refl
AtMost-of_not_below [] (y ∷ b) h = cc
AtMost-of_not_below (x ∷ a) [] h = refl
AtMost-of_not_below (x ∷ a) (y ∷ b) h = ground (arith, AtMost-of_not_below a b)

-- after a chunk the range reaches to it, and is no smaller
lower_lem :
    (begin addr : Bytes)
    → AtMost (lower begin addr) addr
      × (is_empty begin ≡ false → AtMost (lower begin addr) begin)
      × (is_empty addr ≡ false → is_empty (lower begin addr) ≡ false)
unfolding lower
lower_lem begin addr = elim (Bool-cases (is_empty begin)) [
  | inl e ↦ rw e (AtMost-refl addr, λ f. cc, λ f. f)
  | inr e ↦ elim (Bool-cases (is_below (compare_bytes addr begin))) [
    | inl h ↦ rw (e, h) (AtMost-refl addr, λ f. AtMost-of_below addr begin h, λ f. f)
    | inr h ↦ rw (e, h) (AtMost-of_not_below addr begin h, λ f. AtMost-refl begin, λ f. e)
  ]
]

upper_lem :
    (end addr : Bytes)
    → AtMost addr (upper end addr)
      × (is_empty end ≡ false → AtMost end (upper end addr))
      × (is_empty addr ≡ false → is_empty (upper end addr) ≡ false)
unfolding upper
upper_lem end addr = elim (Bool-cases (is_empty end)) [
  | inl e ↦ rw e (AtMost-refl addr, λ f. cc, λ f. f)
  | inr e ↦ elim (Bool-cases (is_below (compare_bytes end addr))) [
    | inl h ↦ rw (e, h) (AtMost-refl addr, λ f. AtMost-of_below end addr h, λ f. f)
    | inr h ↦ rw (e, h) (AtMost-of_not_below end addr h, λ f. AtMost-refl end, λ f. e)
  ]
]

-- the range of a result holds the range before it and every chunk of the result
abbrev pub HasAddress : Chunk → Type 0
HasAddress c = is_empty c.address ≡ false

record Holds (begin end : Bytes) (r : List Chunk × Bytes × Bytes) : Type 0 where
  from : is_empty begin ≡ false → AtMost r.1 begin
  to : is_empty end ≡ false → AtMost end r.2
  inside : (c : Chunk) → In c r.0 → AtMost r.1 c.address × AtMost c.address r.2

Holds-cons :
    (c : Chunk) (begin end low high : Bytes) (rest : List Chunk)
    → HasAddress c
    → Holds (lower begin c.address) (upper end c.address) (rest, low, high)
    → Holds begin end (c ∷ rest, low, high)
Holds-cons c begin end low high rest named ih = record {
  from = λ h. AtMost-trans low (lower begin c.address) begin low_at (l.1 h);
  to = λ h. AtMost-trans end (upper end c.address) high (u.1 h) high_at;
  inside = λ d i. elim i [
    | inl e ↦
        subst (λ (x : Chunk). AtMost low x.address × AtMost x.address high) e
          (
            AtMost-trans low (lower begin c.address) c.address low_at l.0,
            AtMost-trans c.address (upper end c.address) high u.0 high_at,
          )
    | inr j ↦ ih.inside d j
  ];
}
  where
    l :
        AtMost (lower begin c.address) c.address
        × (is_empty begin ≡ false → AtMost (lower begin c.address) begin)
        × (is_empty c.address ≡ false → is_empty (lower begin c.address) ≡ false)
    l = lower_lem begin c.address

    u :
        AtMost c.address (upper end c.address)
        × (is_empty end ≡ false → AtMost end (upper end c.address))
        × (is_empty c.address ≡ false → is_empty (upper end c.address) ≡ false)
    u = upper_lem end c.address

    low_at : AtMost low (lower begin c.address)
    low_at = ih.from (l.2 named)

    high_at : AtMost (upper end c.address) high
    high_at = ih.to (u.2 named)

radius-Holds :
    (base : Address) (depth : ℕ) (stored : List Chunk) (begin end : Bytes)
    → All HasAddress stored
    → Holds begin end (get_chunks_in_my_radius base depth stored begin end)
unfolding get_chunks_in_my_radius
radius-Holds base depth [] begin end a = record {
  from = λ h. AtMost-refl begin;
  to = λ h. AtMost-refl end;
  inside = λ c i. absurd i;
}
radius-Holds base depth (c ∷ cs) begin end a =
    elim (Bool-cases (ltb (proximity base c.address) depth)) [
      | inl far ↦ rw (far, get_chunks_in_my_radius) (radius-Holds base depth cs begin end a.1)
      | inr near ↦
          rw (near, get_chunks_in_my_radius)
            (Holds-cons c begin end _ _ _ a.0
              (radius-Holds base depth cs (lower begin c.address) (upper end c.address) a.1))
    ]

radius-In :
    (base : Address) (depth : ℕ) (stored : List Chunk) (begin end : Bytes) (c : Chunk)
    → In c (get_chunks_in_my_radius base depth stored begin end).0
      ↔ (In c stored × (depth ≤ proximity base c.address))
unfolding get_chunks_in_my_radius
radius-In base depth [] begin end c = (λ i. absurd i, λ i. absurd i.0)
radius-In base depth (x ∷ xs) begin end c =
    elim (Bool-cases (ltb (proximity base x.address) depth)) [
      | inl far ↦
          let ih = radius-In base depth xs begin end c in
          rw (far, get_chunks_in_my_radius)
            (
              λ i. let (j, n) = ih.0 i in (inr j, n),
              λ (i, n). elim i [
                | inl e ↦
                    let at : proximity base x.address ≡ proximity base c.address =
                      ap (λ (y : Chunk). proximity base y.address) e in
                    absurd (ground arith)
                | inr j ↦ ih.1 (j, n)
              ],
            )
      | inr near ↦
          let ih = radius-In base depth xs (lower begin x.address) (upper end x.address) c in
          rw (near, get_chunks_in_my_radius)
            (
              λ i. elim i [
                | inl e ↦
                    let at : proximity base x.address ≡ proximity base c.address =
                      ap (λ (y : Chunk). proximity base y.address) e in
                    (inl e, ground arith)
                | inr j ↦ let (k, n) = ih.0 j in (inr k, n)
              ],
              λ (i, n). elim i [ inl e ↦ inl e | inr j ↦ inr (ih.1 (j, n)) ],
            )
    ]

-- Where every stored chunk has an address that is not empty, GetChunksInMyRadius delivers exactly
-- the stored chunks whose proximity order is at least the depth, and a verifier's filter by the
-- range that it returns leaves none of them out.
pub get_chunks_in_my_radius_lem :
    (base : Address) (depth : ℕ) (stored : List Chunk)
    → All HasAddress stored
    → let r = get_chunks_in_my_radius base depth stored [] [] in
      ((c : Chunk) → In c r.0 ↔ (In c stored × (depth ≤ proximity base c.address)))
      × ((c : Chunk) → In c r.0 → outside r.1 r.2 c.address ≡ false)
get_chunks_in_my_radius_lem base depth stored a = (
  radius-In base depth stored [] [],
  λ c i. let (p, q) = (radius-Holds base depth stored [] [] a).inside c i in rw (p, q) refl,
)
