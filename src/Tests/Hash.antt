-- ===== src/Tests/Hash.antt =====
-- A small hash library that does what is supposed of the real one: a list of keys, searched from
-- the front.
use phd.Base.{
  ℕ, zero, suc, ◌+◌, ◌*◌, ◌≤◌, ◌<◌, ◌≡◌, refl, sym, false, some, List, [], ◌∷◌, ◌==◌, ==_iff,
  if◌then◌else◌, length, In, arith, Bool-cases, inl, inr,
}
use mathlib.Core.Path.{subst}
use phd.Swarm.{Bytes}
use phd.Snips.Proof.{Library}
use phd.Snips.Proof.Mphf.{Distinct, IsMinimalPerfect}

-- the position of a key, from 1; 0 where it is not in the list
unfoldable pub position : List ℕ → ℕ → ℕ
position [] k = 0
position (x ∷ xs) k =
    let rest = position xs k in if x == k then 1 else if rest == 0 then 0 else rest + 1

abbrev pub number : Bytes → ℕ
number [] = 0
number (b ∷ bytes) = b + 256 * number bytes

abbrev pub library : Library
library = record {
  keccak = λ b. b;
  fasthash = number;
  BBHash = List ℕ;
  new_serial = λ gamma keys. some keys;
  find = position;
}

pub position-le : (keys : List ℕ) (k : ℕ) → position keys k ≤ length keys
unfolding position
position-le [] k = omega arith
position-le (x ∷ xs) k = ground (arith, position-le xs k)

position-pos : (keys : List ℕ) (k : ℕ) → In k keys → 0 < position keys k
unfolding position
position-pos [] k i = absurd i
position-pos (x ∷ xs) k (inl e) = ground (arith, (==_iff x k).1 e)
position-pos (x ∷ xs) k (inr i) = ground (arith, position-pos xs k i)

In-tail : (x k : ℕ) (xs : List ℕ) → In k (x ∷ xs) → x == k ≡ false → In k xs
In-tail x k xs (inl e) p = cc (p, (==_iff x k).1 e)
In-tail x k xs (inr i) p = i

position-injective :
    (keys : List ℕ) (k l : ℕ) → In k keys → In l keys → position keys k ≡ position keys l → k ≡ l
unfolding position
position-injective [] k l i j e = absurd i
position-injective (x ∷ xs) k l i j e = elim (Bool-cases (x == k)) [
  | inl p ↦ elim (Bool-cases (x == l)) [
    | inl q ↦ omega (arith, (==_iff x k).0 p, (==_iff x l).0 q)
    | inr q ↦ absurd (ground (arith, position-pos xs l (In-tail x l xs j q)))
  ]
  | inr p ↦ elim (Bool-cases (x == l)) [
    | inl q ↦ absurd (ground (arith, position-pos xs k (In-tail x k xs i p)))
    | inr q ↦
        let a = In-tail x k xs i p in
        let b = In-tail x l xs j q in
        position-injective xs k l a b (ground (arith, position-pos xs k a, position-pos xs l b))
  ]
]

position-onto :
    (keys : List ℕ)
    → Distinct keys
    → (v : ℕ) → 0 < v
    → v ≤ length keys
    → (k : ℕ) × In k keys × (position keys k ≡ v)
unfolding position
position-onto [] d v p h = absurd (omega arith)
position-onto (x ∷ xs) d zero p h = absurd (omega arith)
position-onto (x ∷ xs) d (suc zero) p h = (x, inl refl, ground (arith, (==_iff x x).1 refl))
position-onto (x ∷ xs) d (suc (suc v)) p h =
    let (k, i, e) = position-onto xs d.1 (suc v) (omega arith) (omega arith) in
    (
      k,
      inr i,
      elim (Bool-cases (x == k)) [
        | inl q ↦ absurd (d.0 (subst (λ n. In n xs) (sym ((==_iff x k).0 q)) i))
        | inr q ↦ rw (q, e) (ground arith)
      ],
    )

pub library-IsMinimalPerfect : IsMinimalPerfect library
library-IsMinimalPerfect = record {
  bounded = λ gamma keys bb e key. rw (of e) (position-le bb key);
  found = λ gamma keys bb e key i. position-pos bb key (subst (In key) (of e) i);
  injective = λ gamma keys bb e d k l i j.
      position-injective bb k l (subst (In k) (of e) i) (subst (In l) (of e) j);
  onto =
      λ gamma keys bb e d v p h. rw (of e) (position-onto bb (rw (← of e) d) v p (rw (← of e) h));
}
  where
    of : {xs ys : List ℕ} → some xs ≡ some ys → xs ≡ ys
    of e = cc
