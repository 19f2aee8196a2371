-- ===== src/Snips/Watch.antt =====
-- Watching the chain for the block to prove (WatchForNewBlock in
-- code/bee-snips-sup/pkg/snips/snips.go). The chain's answers are a list.
pub mod Blocks
use phd.Base.{
  ℕ, ◌+◌, ◌-◌, ◌%◌, ◌^◌, Option, none, some, List, [], ◌∷◌, ◌++◌, leb, ltb, ◌==◌, if◌then◌else◌,
}
use phd.Base.Result.{Result, ok, err, panic, ◌>>=◌}

-- `int64` of a uint64
pub data ℤ : Type 0 where
  pos negsuc : ℕ → ℤ

unfoldable pub to_int64 : ℕ → ℤ
to_int64 n = if ltb n (2 ^ 63) then pos n else negsuc (2 ^ 64 - 1 - n)

-- One answer of the chain: the number of the newest block, and the header that it gives for a number.
pub record Answer : Type 0 where
  pub block_number : Option ℕ
  -- the state root of a block's header
  pub header_by_number : ℤ → Option ℕ

-- What a turn of the loop writes to the channel, and the last block.
abbrev pub Turn : Type 0
Turn = List ℕ × ℕ

module _ (interval : ℕ) where
  -- the number of the block to prove
  unfoldable pub proving_block : ℕ → ℕ
  proving_block cur = cur - cur % interval

  -- the header of the block to prove: a header that is not found is nil
  unfoldable pub write_root : ℕ → Option ℕ → Result (Unit {0}) Turn
  write_root cur none = panic
  write_root cur (some root) = ok (root ∷ [], cur)

  -- the turn with the number of the newest block; a remainder by zero panics
  unfoldable pub new_block : Answer → ℕ → ℕ → Result (Unit {0}) Turn
  unfolding write_root proving_block to_int64
  new_block answer last cur =
      if leb ((last + interval) % 2 ^ 64) cur
      then if interval == 0
        then panic
        else write_root cur (answer.header_by_number (to_int64 (proving_block cur)))
      else ok ([], last)

  -- a turn of the loop
  unfoldable pub turn : Answer → ℕ → Result (Unit {0}) Turn
  unfolding new_block
  turn answer last = elim answer.block_number [
    | none ↦ ok ([], last)
    | some cur ↦ new_block answer last cur
  ]

  -- the loop of `WatchForNewBlock`: the roots that it writes, over some answers of the chain
  unfoldable pub watch : ℕ → List Answer → Result (Unit {0}) (List ℕ)
  unfolding turn
  watch last [] = ok []
  watch last (answer ∷ answers) =
      turn answer last >>= λ t. watch t.1 answers >>= λ roots. ok (t.0 ++ roots)
