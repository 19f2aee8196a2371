-- ===== src/Sharky/Lowest.antt =====
-- The head of the slots is the lowest free one.
use Prim.Native.Nat.{bit_and, bit_or}
use phd.Base.{
  ℕ, zero, suc, ◌+◌, ◌-◌, ◌*◌, ◌/◌, ◌%◌, ◌^◌, ◌≤◌, ◌<◌, ◌≡◌, ◌⊎◌, inl, inr, refl, sym, ap, ◌∙◌,
  false, List, [], ◌∷◌, ltb, ◌==◌, ==_iff, if◌then◌else◌, length, set, arith, Bool-cases,
  length-set,
}
use phd.Base.Bits.{bit, bit-bit_or, bit-bit_and, bit_and_pow, bit_of_one, bit_of_others, pow_pos}
use phd.Base.Result.{ok}
use phd.Sharky.{Slots, read, next_loop, next, load, push}

-- byte i, or 0 past the end
abbrev pub byte : List ℕ → ℕ → ℕ
byte [] i = 0
byte (b ∷ bs) zero = b
byte (b ∷ bs) (suc i) = byte bs i

-- 1 where slot i is free
abbrev pub free : List ℕ → ℕ → ℕ
free bs i = bit (i % 8) (byte bs (i / 8))

pub read-byte :
    {E : Type 0} (bs : List ℕ) (i : ℕ) → i < length bs → read {E = E} bs i ≡ ok (byte bs i)
unfolding read
read-byte [] i h = absurd (omega arith)
read-byte (b ∷ bs) zero h = refl
read-byte (b ∷ bs) (suc i) h = read-byte bs i (omega arith)

byte-set :
    (bs : List ℕ) (i j x : ℕ)
    → i < length bs
    → byte (set bs i x) j ≡ (if i == j then x else byte bs j)
byte-set [] i j x h = absurd (omega arith)
byte-set (b ∷ bs) zero zero x h = refl
byte-set (b ∷ bs) zero (suc j) x h = ground arith
byte-set (b ∷ bs) (suc i) zero x h = ground arith
byte-set (b ∷ bs) (suc i) (suc j) x h = ground (arith, byte-set bs i j x)

-- the test of `next`
masked : (t x : ℕ) → t < 2 → 0 < x → ltb 0 (t * x) ≡ (t == 1)
masked zero x l p = ground arith
masked (suc zero) x l p = ground arith
masked (suc (suc t)) x l p = absurd (omega arith)

mask-free : (k b : ℕ) → ltb 0 (bit_and b (2 ^ k)) ≡ (bit k b == 1)
mask-free k b = rw (bit_and_pow k b) (masked (bit k b) (2 ^ k) (omega arith) (pow_pos k))

-- no slot from `start` up to `stop` is free, and `stop` is free unless it is the size
abbrev pub Stops : List ℕ → ℕ → ℕ → ℕ → Type 0
Stops bs size start stop =
    (start ≤ stop)
    × (stop ≤ size)
    × ((i : ℕ) → start ≤ i → i < stop → free bs i ≡ 0)
    × ((stop ≡ size) ⊎ (free bs stop ≡ 1))

next_loop-Stops :
    {E : Type 0} (rounds i : ℕ) (s : Slots)
    → s.size ≡ length s.bytes * 8
    → rounds + i ≡ s.size
    → (h : ℕ) × (next_loop {E = E} rounds i s ≡ ok h) × Stops s.bytes s.size i h
unfolding next_loop
next_loop-Stops zero i s size end =
    (s.size, refl, (omega arith, omega arith, λ j a b. absurd (omega arith), inl refl))
next_loop-Stops {E = E} (suc rounds) i s size end =
    let (h, run, stops) = next_loop-Stops {E = E} rounds (i + 1) s size (omega arith) in
    let here = read-byte {E = E} s.bytes (i / 8) (omega arith) in
    elim (Bool-cases (free s.bytes i == 1)) [
      | inl e ↦ (
        i,
        rw (here, mask-free (i % 8) (byte s.bytes (i / 8)), e) refl,
        (omega arith, omega arith, λ j a b. absurd (omega arith), inr ((==_iff _ 1).0 e)),
      )
      | inr e ↦ (
        h,
        rw (here, mask-free (i % 8) (byte s.bytes (i / 8)), e) run,
        (omega arith, stops.1, λ j a b. below j e a b stops.2, stops.3),
      )
    ]
  where
    below :
        {h : ℕ} (j : ℕ)
        → free s.bytes i == 1 ≡ false
        → i ≤ j
        → j < h
        → ((j : ℕ) → i + 1 ≤ j → j < h → free s.bytes j ≡ 0)
        → free s.bytes j ≡ 0
    below j e a b later = elim (Bool-cases (i == j)) [
      | inl q ↦ ap (free s.bytes) (sym ((==_iff i j).0 q)) ∙ ground (arith, e)
      | inr q ↦ later j (ground arith) b
    ]

free-set :
    (bs : List ℕ) (i j x : ℕ)
    → i < length bs * 8
    → free (set bs (i / 8) x) j ≡ (if i / 8 == j / 8 then bit (j % 8) x else free bs j)
free-set bs i j x h = elim (Bool-cases (i / 8 == j / 8)) [
  | inl e ↦ rw (byte-set bs (i / 8) (j / 8) x (omega arith), e) refl
  | inr e ↦ rw (byte-set bs (i / 8) (j / 8) x (omega arith), e) refl
]

-- what `push` and `pop` write
free-or :
    (bs : List ℕ) (i j : ℕ)
    → i < length bs * 8
    → free (set bs (i / 8) (bit_or (byte bs (i / 8)) (2 ^ (i % 8)))) j
      ≡ (if i == j then 1 else free bs j)
free-or bs i j h =
    let written = free-set bs i j (bit_or (byte bs (i / 8)) (2 ^ (i % 8))) h in
    elim (Bool-cases (i / 8 == j / 8)) [
      | inl e ↦
          let same : byte bs (i / 8) ≡ byte bs (j / 8) =
            ap (byte bs) ((==_iff (i / 8) (j / 8)).0 e) in
          rw (written, e)
            (bit-bit_or (j % 8) (byte bs (i / 8)) (2 ^ (i % 8))
              ∙ ground (arith, bit_of_one (i % 8) (j % 8), ap (bit (j % 8)) same))
      | inr e ↦ ground (arith, written)
    ]

pub free-and :
    (bs : List ℕ) (i j : ℕ)
    → i < length bs * 8
    → free (set bs (i / 8) (bit_and (byte bs (i / 8)) (255 - 2 ^ (i % 8)))) j
      ≡ (if i == j then 0 else free bs j)
free-and bs i j h =
    let written = free-set bs i j (bit_and (byte bs (i / 8)) (255 - 2 ^ (i % 8))) h in
    elim (Bool-cases (i / 8 == j / 8)) [
      | inl e ↦
          let same : byte bs (i / 8) ≡ byte bs (j / 8) =
            ap (byte bs) ((==_iff (i / 8) (j / 8)).0 e) in
          rw (written, e)
            (bit-bit_and (j % 8) (byte bs (i / 8)) (255 - 2 ^ (i % 8))
              ∙ ground (arith, bit_of_others (i % 8) (j % 8), ap (bit (j % 8)) same))
      | inr e ↦ ground (arith, written)
    ]

-- the size fits the bytes and a uint32, and the head is the lowest free slot, or the size if there
-- is none
pub record IsLowest (s : Slots) : Type 0 where
  pub fits : s.size ≡ length s.bytes * 8
  pub word : s.size < 2 ^ 32
  pub lowest : Stops s.bytes s.size 0 s.head

pub next_lem :
    {E : Type 0} (start : ℕ) (s : Slots)
    → s.size ≡ length s.bytes * 8
    → start ≤ s.size
    → (h : ℕ) × (next {E = E} start s ≡ ok h) × Stops s.bytes s.size start h
unfolding next
next_lem start s fits le = next_loop-Stops (s.size - start) start s fits (omega arith)

-- load of a file of fewer than 2^32 slots succeeds, keeps its bytes, and finds the lowest free
-- slot.
pub load_lem :
    {E : Type 0} (bytes : List ℕ)
    → length bytes * 8 < 2 ^ 32
    → (s : Slots) × (load {E = E} bytes ≡ ok s) × (s.bytes ≡ bytes) × IsLowest s
unfolding load
load_lem {E = E} bytes small =
    let before : Slots = record { bytes = bytes; size = length bytes * 8 % 2 ^ 32; head = 0 } in
    let (h, run, stops) = next_lem {E = E} 0 before (omega arith) (omega arith) in
    (
      record before { head = h },
      rw run refl,
      refl,
      record { fits = omega arith; word = omega arith; lowest = stops },
    )

-- While the head is the lowest free slot, push of a slot of the shard succeeds, frees that slot and
-- no other, and leaves the lowest free slot as the head.
pub push_lem :
    {E : Type 0} (i : ℕ) (s : Slots)
    → IsLowest s
    → i < s.size
    → (s' : Slots) × (push {E = E} i s ≡ ok s')
      × IsLowest s'
      × (s'.size ≡ s.size)
      × ((j : ℕ) → free s'.bytes j ≡ (if i == j then 1 else free s.bytes j))
unfolding push
push_lem {E = E} i s v h = elim (Bool-cases (ltb i s.head)) [
  | inl e ↦ (
    record s { head = i; bytes = bytes },
    rw (e, here) refl,
    record {
      fits = v.fits ∙ sym (ap (λ n. n * 8) size);
      word = v.word;
      lowest = (
        omega arith,
        omega arith,
        λ j a b. written j ∙ ground (arith, v.lowest.2 j (omega arith) (ground arith)),
        inr (written i ∙ ground arith),
      );
    },
    refl,
    written,
  )
  | inr e ↦ (
    record s { bytes = bytes },
    rw (e, here) refl,
    record {
      fits = v.fits ∙ sym (ap (λ n. n * 8) size);
      word = v.word;
      lowest = (
        omega arith,
        v.lowest.1,
        λ j a b. written j ∙ ground (arith, v.lowest.2 j (omega arith) b),
        elim v.lowest.3 [
          | inl q ↦ absurd (ground arith)
          | inr f ↦ inr (written s.head ∙ ground (arith, f))
        ],
      );
    },
    refl,
    written,
  )
]
  where
    bytes : List ℕ
    bytes = set s.bytes (i / 8) (bit_or (byte s.bytes (i / 8)) (2 ^ (i % 8)))

    inside : i < length s.bytes * 8
    inside = omega (arith, v.fits)

    here : read {E = E} s.bytes (i / 8) ≡ ok (byte s.bytes (i / 8))
    here = read-byte s.bytes (i / 8) (omega (arith, inside))

    size : length bytes ≡ length s.bytes
    size = length-set s.bytes (i / 8) (bit_or (byte s.bytes (i / 8)) (2 ^ (i % 8)))

    written : (j : ℕ) → free bytes j ≡ (if i == j then 1 else free s.bytes j)
    written j = free-or s.bytes i j inside
