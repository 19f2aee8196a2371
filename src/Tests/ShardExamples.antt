-- ===== src/Tests/ShardExamples.antt =====
-- The theorems on slots, on a shard of 16 slots.
use phd.Base.{ℕ, inr, ◌+◌, ◌≤◌, ◌<◌, ◌≡◌, refl, List, [], ◌∷◌, if◌then◌else◌, ◌==◌, arith}
use phd.Base.Bits.{agree_below_lem}
use phd.Base.Result.{ok}
use phd.Sharky.{Slots, push, pop}
use phd.Sharky.Lowest.{free, IsLowest, push_lem}
use phd.Sharky.Pop.{pop_lem}

-- slots 2 and 15 are free
abbrev on_disk : List ℕ
on_disk = 4 ∷ 128 ∷ []

abbrev shard : Slots
shard = record { bytes = on_disk; size = 16; head = 2 }

shard-IsLowest : IsLowest shard
shard-IsLowest = record {
  fits = refl;
  word = omega arith;
  lowest = (
    omega arith,
    omega arith,
    λ j a b. agree_below_lem 2 (free on_disk) (λ k. 0) refl j b,
    inr refl,
  );
}

push_lem_example :
    (s : Slots) × (push {E = ℕ} 1 shard ≡ ok s)
    × IsLowest s
    × (s.size ≡ shard.size)
    × ((j : ℕ) → free s.bytes j ≡ (if 1 == j then 1 else free shard.bytes j))
push_lem_example = push_lem 1 shard shard-IsLowest (omega arith)

pop_lem_example :
    (s : Slots) × (pop {E = ℕ} shard ≡ ok (shard.head, s))
    × IsLowest s
    × (s.size ≡ (if shard.head == shard.size then shard.size + 8 else shard.size))
    × ((j : ℕ)
        → j < shard.size
        → free s.bytes j ≡ (if shard.head == j then 0 else free shard.bytes j))
    × ((j : ℕ) → shard.size ≤ j → j < s.size → free s.bytes j ≡ (if shard.head == j then 0 else 1))
pop_lem_example = pop_lem shard shard-IsLowest (omega arith)
