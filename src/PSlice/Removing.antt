-- ===== src/PSlice/Removing.antt =====
-- `Remove`.
use phd.Base.{
  ℕ, suc, ◌≡◌, refl, sym, ap, ◌∙◌, Bool, true, false, ◌==◌, ==_iff, if◌then◌else◌, arith,
  Bool-cases, inl, inr,
}
use phd.Swarm.{Address, equal, equal_iff}
use phd.PSlice.{PSlice, bin_at, po, index, index_from, exists, without, remove, total}
use phd.PSlice.Bins.{holds}
use phd.PSlice.Bins.Removal.{Without, without_lem}
use phd.PSlice.Members.{IsPlaced, exists_lem, replaced, replaced-IsPlaced, replaced-exists}
use phd.PSlice.Adding.{total-replaced}

-- The position that `Remove` uses.
position : Address → PSlice → ℕ
position a s = (index s a (po s a)).1

remove-cases :
    (a : Address) (s : PSlice)
    → remove a s
      ≡ (if exists a s then replaced a s (without (bin_at s.peers (po s a)) (position a s)) else s)
unfolding remove exists position
remove-cases a s = refl

found : (p : Bool × ℕ) → p.0 ≡ true → p ≡ (true, p.1)
found p e = ap (λ b. (b, p.1)) e

removed-Without :
    (a : Address) (s : PSlice)
    → IsPlaced s
    → exists a s ≡ true
    → Without a (bin_at s.peers (po s a)) (without (bin_at s.peers (po s a)) (position a s))
unfolding position exists index
removed-Without a s v e =
    without_lem a (position a s) (bin_at s.peers (po s a))
      (found (index_from 0 a (bin_at s.peers (po s a))) e) (v.unique (po s a))

remove-IsPlaced : (a : Address) (s : PSlice) → IsPlaced s → IsPlaced (remove a s)
remove-IsPlaced a s v = elim (Bool-cases (exists a s)) [
  | inl e ↦
      let w = removed-Without a s v e in
      rw (remove-cases a s, e)
        (replaced-IsPlaced a s v (without (bin_at s.peers (po s a)) (position a s)) w.0
          (λ b h. inl (ground (arith, w.1 b))))
  | inr e ↦ rw (remove-cases a s, e) v
]

exists-remove :
    (a : Address) (s : PSlice)
    → IsPlaced s
    → (b : Address) → exists b (remove a s) ≡ (if equal a b then false else exists b s)
exists-remove a s v b = elim (Bool-cases (exists a s)) [
  | inl e ↦
      let w = removed-Without a s v e in
      let bin' = without (bin_at s.peers (po s a)) (position a s) in
      rw (remove-cases a s, e)
        (replaced-exists a s v bin' b ∙ elim (Bool-cases (equal a b)) [
          | inl k ↦
              let same : (po s a == po s b) ≡ true =
                (==_iff (po s a) (po s b)).1 (ap (po s) ((equal_iff a b).0 k)) in
              rw (same, w.1 b, k) refl
          | inr k ↦ elim (Bool-cases (po s a == po s b)) [
            | inl q ↦
                let same : po s a ≡ po s b = (==_iff (po s a) (po s b)).0 q in
                rw (q, w.1 b, k) (ap (λ p. holds b (bin_at s.peers p)) same ∙ sym (exists_lem b s))
            | inr q ↦ rw (q, k) refl
          ]
        ])
  | inr e ↦
      rw (remove-cases a s, e)
        (elim (Bool-cases (equal a b)) [
          | inl k ↦ rw k (ap (λ x. exists x s) (sym ((equal_iff a b).0 k)) ∙ e)
          | inr k ↦ rw k refl
        ])
]

total-remove :
    (a : Address) (s : PSlice)
    → IsPlaced s
    → exists a s ≡ true
    → suc (total (remove a s).peers) ≡ total s.peers
total-remove a s v e =
    let bin' = without (bin_at s.peers (po s a)) (position a s) in
    rw (remove-cases a s, e) (omega (arith, total-replaced a s v bin', (removed-Without a s v e).2))

-- Remove keeps every peer once and in its own bin; afterwards exactly the other addresses exist,
-- and the length shrinks by one if the address was there.
pub remove_lem :
    (a : Address) (s : PSlice)
    → IsPlaced s
    → IsPlaced (remove a s)
      × ((b : Address) → exists b (remove a s) ≡ (if equal a b then false else exists b s))
      × ((if exists a s then suc (total (remove a s).peers) else total (remove a s).peers)
          ≡ total s.peers)
remove_lem a s v = (remove-IsPlaced a s v, exists-remove a s v, size)
  where
    size :
        (if exists a s then suc (total (remove a s).peers) else total (remove a s).peers)
        ≡ total s.peers
    size = elim (Bool-cases (exists a s)) [
      | inl e ↦ rw e (total-remove a s v e)
      | inr e ↦ rw (remove-cases a s, e) refl
    ]
