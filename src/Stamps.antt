-- ===== src/Stamps.antt =====
-- Issuing postage stamps (code/bee-snips-sup/pkg/postage/stampissuer.go). The fields of the issuer
-- that only carry data are left out; an index out of range is `panic`.
pub mod Index
pub mod Issued
pub mod Unique
use phd.Base.{
  ℕ, zero, suc, ◌+◌, ◌-◌, ◌*◌, ◌/◌, ◌%◌, ◌^◌, Option, none, some, List, [], ◌∷◌, ◌++◌, ltb, ◌==◌,
  if◌then◌else◌, get_elem?, set, replicate,
}
use phd.Base.Result.{Result, ok, err, panic, ◌>>=◌}
use phd.Swarm.{Bytes, Address}

pub record StampIssuer : Type 0 where
  pub batch_depth : ℕ
  pub bucket_depth : ℕ
  pub buckets : List ℕ
  pub max_bucket_count : ℕ

pub data Error : Type 0 where
  bucket_full : Error

-- `NewStampIssuer`
unfoldable pub new_stamp_issuer : ℕ → ℕ → StampIssuer
new_stamp_issuer batch_depth bucket_depth = record {
  batch_depth = batch_depth;
  bucket_depth = bucket_depth;
  buckets = replicate (2 ^ bucket_depth) 0;
  max_bucket_count = 0;
}

-- `BigEndian.Uint32` and `BigEndian.PutUint32`
unfoldable pub be_uint32 : {E : Type 0} → Bytes → Result E ℕ
be_uint32 (a ∷ b ∷ c ∷ d ∷ rest) = ok (((a * 256 + b) * 256 + c) * 256 + d)
be_uint32 _ = panic

unfoldable pub be_bytes : ℕ → Bytes
be_bytes n = (n / 2 ^ 24 % 256) ∷ (n / 2 ^ 16 % 256) ∷ (n / 2 ^ 8 % 256) ∷ (n % 256) ∷ []

-- `toBucket`; the shift's count is a uint8
unfoldable pub to_bucket : {E : Type 0} → ℕ → Address → Result E ℕ
unfolding be_uint32
to_bucket depth addr = be_uint32 addr >>= λ i. ok (i / 2 ^ ((32 + 256 - depth) % 256))

-- `indexToBytes` and `bytesToIndex`
unfoldable pub index_to_bytes : ℕ → ℕ → Bytes
unfolding be_bytes
index_to_bytes bucket index = be_bytes bucket ++ be_bytes index

unfoldable pub bytes_to_index : {E : Type 0} → Bytes → Result E (ℕ × ℕ)
bytes_to_index (a ∷ b ∷ c ∷ d ∷ e ∷ f ∷ g ∷ h ∷ rest) =
    let index64 =
      ((((((a * 256 + b) * 256 + c) * 256 + d) * 256 + e) * 256 + f) * 256 + g) * 256 + h in
    ok (index64 / 2 ^ 32 % 2 ^ 32, index64 % 2 ^ 32)
bytes_to_index _ = panic

-- `1 << (Depth() - BucketDepth())` as a uint32: `BucketUpperBound`
unfoldable pub bucket_upper_bound : StampIssuer → ℕ
bucket_upper_bound si = 2 ^ ((si.batch_depth + 256 - si.bucket_depth) % 256) % 2 ^ 32

-- `Buckets[b]`
abbrev pub bucket_count : Option ℕ → Result Error ℕ
bucket_count none = panic
bucket_count (some n) = ok n

-- `inc`
unfoldable pub inc : Address → StampIssuer → Result Error (Bytes × StampIssuer)
unfolding to_bucket bucket_upper_bound index_to_bytes
inc addr si = to_bucket si.bucket_depth addr >>= λ b. bucket_count (get_elem? si.buckets b) >>= λ n.
    let n' = (n + 1) % 2 ^ 32 in
    if n == bucket_upper_bound si
    then err bucket_full
    else ok (
      index_to_bytes b n,
      record si {
        buckets = set si.buckets b n';
        max_bucket_count = if ltb si.max_bucket_count n' then n' else si.max_bucket_count;
      },
    )
