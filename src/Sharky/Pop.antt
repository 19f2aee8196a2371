-- ===== src/Sharky/Pop.antt =====
-- `pop` takes the lowest free slot.
use Prim.Native.Nat.{bit_and}
use phd.Base.{
  ℕ, zero, suc, ◌+◌, ◌-◌, ◌*◌, ◌/◌, ◌%◌, ◌^◌, ◌≤◌, ◌<◌, ◌≡◌, inl, inr, refl, sym, ap, ◌∙◌, List, [],
  ◌∷◌, ◌++◌, ◌==◌, if◌then◌else◌, length, set, arith, Bool-cases, length-set, length-append,
}
use native.Mathlib.Decide.{dec_lt}
use phd.Base.Bits.{bit}
use phd.Base.Result.{Result, ok, ◌>>=◌}
use phd.Sharky.{Slots, read, next, extend, pop}
use phd.Sharky.Lowest.{byte, free, read-byte, free-and, IsLowest, next_lem}

byte-append : (xs ys : List ℕ) (i : ℕ) → i < length xs → byte (xs ++ ys) i ≡ byte xs i
byte-append [] ys i h = absurd (omega arith)
byte-append (x ∷ xs) ys zero h = refl
byte-append (x ∷ xs) ys (suc i) h = byte-append xs ys i (omega arith)

abbrev taken : Slots → List ℕ
taken s = set s.bytes (s.head / 8) (bit_and (byte s.bytes (s.head / 8)) (255 - 2 ^ (s.head % 8)))

-- a slot is taken from slots of which it is one, and none below it is free
module _ {E : Type 0} (s : Slots) (fits : s.size ≡ length s.bytes * 8) (word : s.size < 2 ^ 32)
    (head_in : s.head < s.size) where
  -- what `pop` does once there is a slot
  take_head : Result E (ℕ × Slots)
  take_head = read s.bytes (s.head / 8) >>= λ b.
      let t = record s { bytes = set s.bytes (s.head / 8) (bit_and b (255 - 2 ^ (s.head % 8))) } in
      next ((s.head + 1) % 2 ^ 32) t >>= λ h. ok (s.head, record t { head = h })

  take_head_lem :
      ((j : ℕ) → j < s.head → free s.bytes j ≡ 0)
      → (s' : Slots) × (take_head ≡ ok (s.head, s'))
        × IsLowest s'
        × (s'.size ≡ s.size)
        × ((j : ℕ) → free s'.bytes j ≡ (if s.head == j then 0 else free s.bytes j))
  unfolding take_head
  take_head_lem below =
      let t : Slots = record s { bytes = taken s } in
      let (h, run, stops) = next_lem {E = E} (s.head + 1) t t_fits (omega arith) in
      (
        record t { head = h },
        rw (here, small, run) refl,
        record {
          fits = t_fits;
          word = word;
          lowest = (omega arith, stops.1, λ j a b. written j ∙ rest h j b stops.2, stops.3);
        },
        refl,
        written,
      )
    where
      written : (j : ℕ) → free (taken s) j ≡ (if s.head == j then 0 else free s.bytes j)
      written j = free-and s.bytes s.head j (omega (arith, fits))

      here : read {E = E} s.bytes (s.head / 8) ≡ ok (byte s.bytes (s.head / 8))
      here = read-byte s.bytes (s.head / 8) (omega (arith, fits))

      small : (s.head + 1) % 2 ^ 32 ≡ s.head + 1
      small = omega arith

      t_fits : s.size ≡ length (taken s) * 8
      t_fits = fits ∙ sym (ap (λ n. n * 8) (length-set s.bytes _ _))

      rest :
          (h j : ℕ)
          → j < h
          → ((j : ℕ) → s.head + 1 ≤ j → j < h → free (taken s) j ≡ 0)
          → (if s.head == j then 0 else free s.bytes j) ≡ 0
      rest h j b later = elim (Bool-cases (s.head == j)) [
        | inl e ↦ rw e refl
        | inr e ↦ rw e (elim (dec_lt j s.head) [
          | yes lt ↦ below j lt
          | no ge ↦
              let same : free (taken s) j ≡ free s.bytes j = rw e at (written j) in
              sym same ∙ later j (ground arith) b
        ])
      ]

byte-append_last : (xs : List ℕ) (b i : ℕ) → i ≡ length xs → byte (xs ++ b ∷ []) i ≡ b
byte-append_last [] b zero h = refl
byte-append_last [] b (suc i) h = absurd (omega (arith, h))
byte-append_last (x ∷ xs) b zero h = absurd (omega (arith, h))
byte-append_last (x ∷ xs) b (suc i) h = byte-append_last xs b i (omega (arith, h))

bit-full : (i : ℕ) → i < 8 → bit i 255 ≡ 1
bit-full zero h = refl
bit-full (suc zero) h = refl
bit-full (suc (suc zero)) h = refl
bit-full (suc (suc (suc zero))) h = refl
bit-full (suc (suc (suc (suc zero)))) h = refl
bit-full (suc (suc (suc (suc (suc zero))))) h = refl
bit-full (suc (suc (suc (suc (suc (suc zero)))))) h = refl
bit-full (suc (suc (suc (suc (suc (suc (suc zero))))))) h = refl
bit-full (suc (suc (suc (suc (suc (suc (suc (suc i)))))))) h = absurd (omega (arith, h))

-- While the head is the lowest free slot and the size plus 8 fits a uint32, pop returns the head,
-- which is the lowest free slot or the first of a new byte if none is free, takes that slot and no
-- other: each other slot stays as it was, and those of a new byte are free; it leaves the lowest
-- free slot as the head.
pub pop_lem :
    {E : Type 0} (s : Slots)
    → IsLowest s
    → s.size + 8 < 2 ^ 32
    → (s' : Slots) × (pop {E = E} s ≡ ok (s.head, s'))
      × IsLowest s'
      × (s'.size ≡ (if s.head == s.size then s.size + 8 else s.size))
      × ((j : ℕ) → j < s.size → free s'.bytes j ≡ (if s.head == j then 0 else free s.bytes j))
      × ((j : ℕ) → s.size ≤ j → j < s'.size → free s'.bytes j ≡ (if s.head == j then 0 else 1))
unfolding pop take_head
pop_lem {E = E} s v small = elim (Bool-cases (s.head == s.size)) [
  | inl e ↦
      let x = extend 1 s in
      let (s', run, low, size, written) =
        take_head_lem {E = E} x (omega (arith, v.fits, length-append s.bytes (255 ∷ [])))
          (omega arith) (ground arith)
          (λ j l. kept j (ground arith) ∙ v.lowest.2 j (omega arith) l) in
      (
        s',
        rw e run,
        low,
        rw e (size ∙ omega arith),
        λ j l. written j ∙ ground (arith, kept j l),
        λ j a b. written j ∙ ground (arith, added j a (omega (arith, b, size, small))),
      )
  | inr e ↦
      let (s', run, low, size, written) =
        take_head_lem {E = E} s v.fits v.word (ground (arith, v.lowest.1))
          (λ j l. v.lowest.2 j (omega arith) l) in
      (s', rw e run, low, rw e size, λ j l. written j, λ j a b. absurd (omega (arith, a, b, size)))
]
  where
    kept : (j : ℕ) → j < s.size → free (s.bytes ++ 255 ∷ []) j ≡ free s.bytes j
    kept j l = ap (bit (j % 8)) (byte-append s.bytes (255 ∷ []) (j / 8) (omega (arith, v.fits)))

    added : (j : ℕ) → s.size ≤ j → j < s.size + 8 → free (s.bytes ++ 255 ∷ []) j ≡ 1
    added j a b =
        ap (bit (j % 8)) (byte-append_last s.bytes 255 (j / 8) (omega (arith, a, b, v.fits)))
        ∙ bit-full (j % 8) (omega arith)
