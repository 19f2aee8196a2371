-- ===== src/Snips/Radius.antt =====
-- The chunks that a node proves, and the proof of them (GetChunksInMyRadius in
-- code/bee-snips-sup/pkg/snips/snips.go, CreateProofForMyChunks in proof.go). The channel hands over
-- every chunk before it is done, so the two run one after the other.
pub mod Range
pub mod Creation
use phd.Base.{
  ℕ, ◌%◌, ◌^◌, Bool, true, false, ◌||◌, Option, none, some, List, [], ◌∷◌, ltb, if◌then◌else◌,
  length,
}
use phd.Swarm.{Bytes, Address, Chunk, Comparison, below, same, above, compare_bytes}
use phd.Swarm.Proximity.{proximity}
use phd.Snips.Proof.{
  Library, Service, Made, made, failed, nothing, out_of_fuel, build_base_proof, create_mphf,
}
use phd.Snips.Protocol.{Proof}

abbrev pub is_below : Comparison → Bool
is_below below = true
is_below _ = false

abbrev pub is_empty : Bytes → Bool
is_empty [] = true
is_empty (b ∷ bytes) = false

-- the two `if`s on the range
unfoldable pub lower : Bytes → Address → Bytes
lower begin addr = if is_empty begin || is_below (compare_bytes addr begin) then addr else begin

unfoldable pub upper : Bytes → Address → Bytes
upper end addr = if is_empty end || is_below (compare_bytes end addr) then addr else end

-- `GetChunksInMyRadius`: the chunks that it delivers, and the range
unfoldable pub get_chunks_in_my_radius :
    Address → ℕ → List Chunk → Bytes → Bytes → List Chunk × Bytes × Bytes
unfolding lower upper
get_chunks_in_my_radius base depth [] begin end = ([], begin, end)
get_chunks_in_my_radius base depth (chunk ∷ stored) begin end =
    let skipped = get_chunks_in_my_radius base depth stored begin end in
    let rest =
      get_chunks_in_my_radius base depth stored (lower begin chunk.address)
        (upper end chunk.address) in
    if ltb (proximity base chunk.address) depth then skipped else (chunk ∷ rest.0, rest.1, rest.2)

-- How `CreateProofForMyChunks` ends. Encoding the nil hash of a loop without an attempt panics.
pub data Created : Type 0 where
  created : Proof → Created
  not_constructed nil_hash no_encoding no_fuel : Created

module _ (lib : Library) (marshal_binary : lib.BBHash → Option Bytes) where
  unfoldable pub encoded : ℕ → ℕ → Bytes → Bytes → Option Bytes → Created
  encoded nonce n begin end none = no_encoding
  encoded nonce n begin end (some mphf) =
      created (record { begin = begin; end = end; nonce = nonce; mphf = mphf; length = n % 2 ^ 32 })

  unfoldable pub of_made : ℕ → ℕ → Bytes → Bytes → Made lib.BBHash → Created
  unfolding encoded
  of_made nonce n begin end (made bb) = encoded nonce n begin end (marshal_binary bb)
  of_made nonce n begin end failed = not_constructed
  of_made nonce n begin end nothing = nil_hash
  of_made nonce n begin end out_of_fuel = no_fuel

  -- `CreateProofForMyChunks`, with the node's address and depth, and the fuel and gammas of
  -- `CreateMPHF`
  unfoldable pub create_proof_for_my_chunks :
      ℕ → ℕ → ℕ → Address → ℕ → List Chunk → ℕ → Service → Created × Service
  unfolding of_made build_base_proof create_mphf get_chunks_in_my_radius
  create_proof_for_my_chunks fuel min_gamma max_gamma base depth stored nonce s =
      let (chunks, begin, end) = get_chunks_in_my_radius base depth stored [] [] in
      let (base_proof, ids, s') = build_base_proof lib nonce chunks [] (λ k. none) s in
      let (mphf, s'') = create_mphf lib fuel min_gamma max_gamma base_proof ids nonce s' in
      (of_made nonce (length base_proof) begin end mphf, s'')
