-- ===== src/Swarm/Proximity.antt =====
-- Proximity order (code/bee-snips-sup/pkg/swarm/proximity.go).
pub mod Metric
use Prim.Native.Nat.{bit_and, bit_xor, min}
use phd.Base.{
  ℕ, zero, suc, ◌+◌, ◌-◌, ◌*◌, ◌/◌, ◌%◌, ◌^◌, Bool, Option, none, some, List, [], ◌∷◌, ltb, ◌==◌,
  if◌then◌else◌, length,
}

abbrev pub max_po : ℕ
max_po = 31

abbrev pub extended_po : ℕ
extended_po = max_po + 5

-- `b`: the number of bytes compared, with the lengths cut to a uint8
unfoldable pub compared_bytes : ℕ → List ℕ → List ℕ → ℕ
compared_bytes po one other =
    let b = po / 8 + 1 in
    let l = length one % 256 in
    let b = if ltb l b then l else b in let l = length other % 256 in if ltb l b then l else b

-- the inner loop, with the rounds left, from bit j: the first bit of `oxo` that is set
unfoldable pub po_bits : ℕ → ℕ → ℕ → Option ℕ
po_bits zero j oxo = none
po_bits (suc k) j oxo =
    let rest = po_bits k (j + 1) oxo in if bit_and (oxo / 2 ^ (7 - j)) 1 == 0 then rest else some j

-- the outer loop over the bytes, with the rounds left; `po` is returned when no bit differs
unfoldable pub po_bytes : ℕ → ℕ → ℕ → List ℕ → List ℕ → ℕ
unfolding po_bits
po_bytes po (suc k) i (x ∷ one) (y ∷ other) =
    let rest = po_bytes po k (i + 1) one other in
    elim (po_bits 8 0 (bit_xor x y)) [ none ↦ rest | some j ↦ (i * 8 + j) % 256 ]
po_bytes po _ i _ _ = po

-- `Proximity`
unfoldable pub proximity : List ℕ → List ℕ → ℕ
unfolding po_bytes compared_bytes
proximity one other = po_bytes max_po (compared_bytes max_po one other) 0 one other

-- `ExtendedProximity`
unfoldable pub extended_proximity : List ℕ → List ℕ → ℕ
unfolding po_bytes compared_bytes
extended_proximity one other =
    po_bytes extended_po (compared_bytes extended_po one other) 0 one other
