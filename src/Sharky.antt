-- ===== src/Sharky.antt =====
-- The free slots of a shard (code/bee-snips-sup/pkg/sharky/slots.go). The file and the channels of
-- `process` are left out; an index out of range is `panic`.
pub mod Lowest
pub mod Pop
use Prim.Native.Nat.{bit_and, bit_or}
use phd.Base.{
  ℕ, zero, suc, ◌+◌, ◌-◌, ◌*◌, ◌/◌, ◌%◌, ◌^◌, Option, none, some, List, [], ◌∷◌, ◌++◌, ltb, ◌==◌,
  if◌then◌else◌, length, get_elem?, set, replicate,
}
use phd.Base.Result.{Result, ok, panic, ◌>>=◌}

pub record Slots : Type 0 where
  -- bit i % 8 of byte i / 8 is set where slot i is free
  pub bytes : List ℕ
  pub size : ℕ
  pub head : ℕ

-- `data[i]`
abbrev pub some_byte : {E : Type 0} → Option ℕ → Result E ℕ
some_byte none = panic
some_byte (some b) = ok b

unfoldable pub read : {E : Type 0} → List ℕ → ℕ → Result E ℕ
read bytes i = some_byte (get_elem? bytes i)

-- `extend`
unfoldable pub extend : ℕ → Slots → Slots
extend n s = record s { size = (s.size + n * 8) % 2 ^ 32; bytes = s.bytes ++ replicate n 255 }

module _ {E : Type 0} where
  -- the loop of `next`, with the rounds left
  unfoldable pub next_loop : ℕ → ℕ → Slots → Result E ℕ
  unfolding read
  next_loop zero i s = ok s.size
  next_loop (suc rounds) i s =
      let rest = next_loop rounds (i + 1) s in
      read s.bytes (i / 8) >>= λ b. if ltb 0 (bit_and b (2 ^ (i % 8))) then ok i else rest

  -- `next`
  unfoldable pub next : ℕ → Slots → Result E ℕ
  unfolding next_loop
  next start s = next_loop (s.size - start) start s

  -- `load`, of the bytes that the file holds
  unfoldable pub load : List ℕ → Result E Slots
  unfolding next
  load bytes =
      let s : Slots = record { bytes = bytes; size = length bytes * 8 % 2 ^ 32; head = 0 } in
      next 0 s >>= λ head. ok (record s { head = head })

  -- `push`
  unfoldable pub push : ℕ → Slots → Result E Slots
  unfolding read
  push i s =
      let s' = if ltb i s.head then record s { head = i } else s in
      read s'.bytes (i / 8) >>= λ b.
      ok (record s' { bytes = set s'.bytes (i / 8) (bit_or b (2 ^ (i % 8))) })

  -- `pop`
  unfoldable pub pop : Slots → Result E (ℕ × Slots)
  unfolding next extend read
  pop s =
      let head = s.head in
      let s' = if head == s.size then extend 1 s else s in
      read s'.bytes (head / 8) >>= λ b.
      let taken = record s' {
        bytes = set s'.bytes (head / 8) (bit_and b (255 - 2 ^ (head % 8)));
      } in
      next ((head + 1) % 2 ^ 32) taken >>= λ h. ok (head, record taken { head = h })
