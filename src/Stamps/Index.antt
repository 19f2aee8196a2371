-- ===== src/Stamps/Index.antt =====
-- The bytes of a stamp's index, and the bucket of an address.
use phd.Base.{ℕ, ◌+◌, ◌-◌, ◌*◌, ◌/◌, ◌%◌, ◌^◌, ◌≤◌, ◌<◌, ◌≡◌, refl, [], ◌∷◌, All, length, arith}
use native.Mathlib.Nat.{div-lt_iff_lt-mul}
use phd.Base.Bits.{pow_pos, agree_below_lem}
use phd.Base.Result.{ok}
use phd.Swarm.{Address}
use phd.Stamps.{to_bucket, index_to_bytes, bytes_to_index}

-- bytesToIndex reads back the bucket and the index, below 2^32 each, that indexToBytes wrote.
pub bytes_to_index-index_to_bytes :
    {E : Type 0} (bucket index : ℕ)
    → bucket < 2 ^ 32
    → index < 2 ^ 32
    → bytes_to_index {E = E} (index_to_bytes bucket index) ≡ ok (bucket, index)
unfolding bytes_to_index index_to_bytes
bytes_to_index-index_to_bytes bucket index p q = rw (joined, high, low) refl
  where
    word :
        (n : ℕ)
        → n < 2 ^ 32
        → ((n / 2 ^ 24 % 256 * 256 + n / 2 ^ 16 % 256) * 256 + n / 2 ^ 8 % 256) * 256 + n % 256 ≡ n
    word n h = omega arith

    joined :
        ((((((bucket / 2 ^ 24 % 256 * 256 + bucket / 2 ^ 16 % 256) * 256 + bucket / 2 ^ 8 % 256)
                            * 256
                          + bucket % 256)
                        * 256
                      + index / 2 ^ 24 % 256)
                    * 256
                  + index / 2 ^ 16 % 256)
                * 256
              + index / 2 ^ 8 % 256)
            * 256
          + index % 256
        ≡ bucket * 2 ^ 32 + index
    joined = omega (arith, word bucket p, word index q)

    high : (bucket * 2 ^ 32 + index) / 2 ^ 32 % 2 ^ 32 ≡ bucket
    high = omega arith

    low : (bucket * 2 ^ 32 + index) % 2 ^ 32 ≡ index
    low = omega arith

-- every byte is below 256
abbrev pub IsByte : ℕ → Type 0
IsByte b = b < 256

pub to_bucket-lt :
    {E : Type 0} (depth : ℕ) (addr : Address)
    → depth ≤ 32
    → 4 ≤ length addr
    → All IsByte addr
    → (b : ℕ) × (to_bucket {E = E} depth addr ≡ ok b) × (b < 2 ^ depth)
unfolding to_bucket
to_bucket-lt depth (a ∷ b ∷ c ∷ d ∷ rest) small l h =
    (_, refl, top_bits depth (((a * 256 + b) * 256 + c) * 256 + d) small (omega arith))
  where
    top_bits : (k n : ℕ) → k ≤ 32 → n < 2 ^ 32 → n / 2 ^ ((32 + 256 - k) % 256) < 2 ^ k
    top_bits k n le lt =
        let shift : (32 + 256 - k) % 256 ≡ 32 - k = omega arith in
        let whole : 2 ^ k * 2 ^ (32 - k) ≡ 2 ^ 32 =
          agree_below_lem 33 (λ k. 2 ^ k * 2 ^ (32 - k)) (λ k. 2 ^ 32) refl k (omega arith) in
        rw shift ((div-lt_iff_lt-mul (pow_pos (32 - k))).1 (rw whole lt))
to_bucket-lt depth (a ∷ b ∷ c ∷ []) small l h = absurd (omega arith)
to_bucket-lt depth (a ∷ b ∷ []) small l h = absurd (omega arith)
to_bucket-lt depth (a ∷ []) small l h = absurd (omega arith)
to_bucket-lt depth [] small l h = absurd (omega arith)
