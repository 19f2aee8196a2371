-- ===== src/Snips/Proof.antt =====
-- Building SNIPS proofs and answering them (code/bee-snips-sup/pkg/snips/proof.go).
-- A Go map is a function into `Option`; a map of maps is one into a map. A float64 gamma is counted
-- in halves, so that `i++` adds 2 and `i += 0.5` adds 1.
pub mod Cache
pub mod Mphf
pub mod Sync
use phd.Base.{
  ℕ, zero, suc, ◌+◌, ◌-◌, ◌*◌, ◌/◌, ◌%◌, ◌^◌, Bool, true, false, ◌||◌, ◌&&◌, not, Option, none,
  some, List, [], ◌∷◌, ◌++◌, leb, ◌==◌, if◌then◌else◌, length,
}
use phd.Base.Result.{Result, ok, err, panic, ◌>>=◌}
use phd.Swarm.{
  Bytes, Address, Chunk, Comparison, below, same, above, equal, compare_bytes, zero_address,
}
use phd.Swarm.Proximity.{proximity}
use phd.Snips.Expected.{new_expected_vals, hit}

-- The hash functions and the minimal perfect hash library, which the code only calls.
pub record Library : Type 1 where
  pub keccak : Bytes → Bytes
  pub fasthash : Bytes → ℕ
  pub BBHash : Type 0
  -- `bbhash.NewSerial` at a gamma in halves; `none` is its error
  pub new_serial : ℕ → List ℕ → Option BBHash
  -- `BBHash.Find`: 0 for a key that it does not know
  pub find : BBHash → ℕ → ℕ

-- `uint64` as 8 bytes, the lowest first
unfoldable pub le_bytes : ℕ → ℕ → Bytes
le_bytes zero n = []
le_bytes (suc k) n = (n % 256) ∷ le_bytes k (n / 256)

abbrev pub update : {V : Type 0} → (ℕ → Option V) → ℕ → V → ℕ → Option V
update m k v j = if k == j then some v else m j

abbrev pub update_address : {V : Type 0} → (Address → Option V) → Address → V → Address → Option V
update_address m a v b = if equal a b then some v else m b

-- The maps of `Service`.
pub record Service : Type 0 where
  pub map_chunk_id_to_proof : ℕ → Option (Address → Option ℕ)
  pub map_val_to_chunk_id : ℕ → Option (ℕ → Option Address)

-- a read of an inner map, which is empty when it is not there
abbrev pub inner : Option (Address → Option ℕ) → Address → Option ℕ
inner none a = none
inner (some m) a = m a

unfoldable pub chunk_proofs : Service → ℕ → Address → Option ℕ
chunk_proofs s nonce = inner (s.map_chunk_id_to_proof nonce)

-- How `CreateMPHF` ends. `nothing` is the nil pair of a loop that made no attempt.
pub data Made (H : Type 0) : Type 0 where
  made : H → Made H
  failed nothing out_of_fuel : Made H

pub data Error : Type 0 where
  no_proof_for_nonce missing_chunk_not_found : Error
  -- what the local store returned
  store_error : ℕ → Error

-- the address that a map gives, or the zero address
abbrev pub address_or_zero : Option Address → Address
address_or_zero none = zero_address
address_or_zero (some a) = a

-- the comparison gave +1
abbrev pub is_above : Comparison → Bool
is_above above = true
is_above _ = false

-- outside the range from `begin` to `end`, both included
abbrev pub outside : Bytes → Bytes → Address → Bool
outside begin end a = is_above (compare_bytes begin a) || is_above (compare_bytes a end)

module _ (lib : Library) where
  open lib use {keccak, fasthash, BBHash, new_serial, find}

  -- `genChunkProof` then `HashByteToUint64`, for the nonce's 8 bytes
  unfoldable pub gen_chunk_proof : ℕ → Bytes → ℕ
  unfolding le_bytes
  gen_chunk_proof nonce bytes = fasthash (keccak (le_bytes 8 nonce ++ bytes))

  -- `GetChunkProof`: from the cache, or computed and cached
  unfoldable pub get_chunk_proof : ℕ → Chunk → Service → ℕ × Service
  unfolding gen_chunk_proof chunk_proofs
  get_chunk_proof nonce chunk s =
      let proofs = chunk_proofs s nonce in
      let cp = gen_chunk_proof nonce chunk.payload in
      elim (proofs chunk.address) [
        | some known ↦ (
          known,
          record s { map_chunk_id_to_proof = update s.map_chunk_id_to_proof nonce proofs },
        )
        | none ↦ (
          cp,
          record s {
            map_chunk_id_to_proof =
                update s.map_chunk_id_to_proof nonce (update_address proofs chunk.address cp);
          },
        )
      ]

  -- `BuildBaseProof` over the chunks that the channel delivers before it is done
  unfoldable pub build_base_proof :
      ℕ
      → List Chunk
      → List ℕ
      → (ℕ → Option Address)
      → Service
      → List ℕ × (ℕ → Option Address) × Service
  unfolding get_chunk_proof
  build_base_proof nonce [] base ids s = (base, ids, s)
  build_base_proof nonce (chunk ∷ chunks) base ids s =
      let (cp, s') = get_chunk_proof nonce chunk s in
      build_base_proof nonce chunks (base ++ cp ∷ []) (update ids cp chunk.address) s'

  -- the inner loop of `CreateMPHF`: whether a value came twice, and the map so far
  unfoldable pub fill_values :
      BBHash → (ℕ → Option Address) → List ℕ → (ℕ → Option Address) → Bool × (ℕ → Option Address)
  fill_values bb ids [] vals = (false, vals)
  fill_values bb ids (cp ∷ base) vals =
      let rest = fill_values bb ids base (update vals (find bb cp) (address_or_zero (ids cp))) in
      elim (vals (find bb cp)) [ some _ ↦ (true, vals) | none ↦ rest ]

  -- `CreateMPHF`, with fuel for its attempts. `jump` is true after the `goto`, which does not test
  -- the loop's bound again.
  module _ (base : List ℕ) (ids : ℕ → Option Address) (nonce max_gamma : ℕ) where
    unfoldable pub create_loop : ℕ → Bool → ℕ → Made BBHash → Service → Made BBHash × Service
    unfolding fill_values
    create_loop zero jump gamma last s = (out_of_fuel, s)
    create_loop (suc fuel) jump gamma last s = elim (jump || leb gamma max_gamma) [
      | false ↦ (last, s)
      | true ↦ elim (new_serial gamma base) [
        | none ↦ create_loop fuel false (gamma + 2) failed s
        | some bb ↦
            let (again, vals) = fill_values bb ids base (λ v. none) in
            let s' = record s { map_val_to_chunk_id = update s.map_val_to_chunk_id nonce vals } in
            elim again [
              | true ↦ create_loop fuel true (gamma + 1) (made bb) s'
              | false ↦ (made bb, s')
            ]
      ]
    ]

  unfoldable pub create_mphf :
      ℕ → ℕ → ℕ → List ℕ → (ℕ → Option Address) → ℕ → Service → Made BBHash × Service
  unfolding create_loop
  create_mphf fuel min_gamma max_gamma base ids nonce s =
      create_loop base ids nonce max_gamma fuel false min_gamma nothing s

  -- `FindMissingChunks` over the stored chunks; a value past the claimed length panics in `Hit`
  unfoldable pub find_missing_loop :
      BBHash → ℕ → Bytes → Bytes → List Chunk → List ℕ → Service → Result Error (List ℕ × Service)
  unfolding get_chunk_proof hit
  find_missing_loop bb nonce begin end [] expected s = ok (expected, s)
  find_missing_loop bb nonce begin end (chunk ∷ stored) expected s =
      let skipped = find_missing_loop bb nonce begin end stored expected s in
      let (cp, s') = get_chunk_proof nonce chunk s in
      let unknown = find_missing_loop bb nonce begin end stored expected s' in
      let known =
        hit expected (find bb cp) >>= λ e. find_missing_loop bb nonce begin end stored e s' in
      if outside begin end chunk.address
      then skipped
      else if find bb cp == 0
      then unknown
      else known

  unfoldable pub find_missing_chunks :
      BBHash → ℕ → ℕ → Bytes → Bytes → List Chunk → Service → Result Error (List ℕ × Service)
  unfolding find_missing_loop new_expected_vals
  find_missing_chunks bb nonce len begin end stored s =
      find_missing_loop bb nonce begin end stored (new_expected_vals len) s

-- `GetMissingChunks`: `get` is the local store's lookup
unfoldable pub get_missing_loop :
    (Address → Result Error Chunk) → (ℕ → Option Address) → List ℕ → Result Error (List Chunk)
get_missing_loop get vals [] = ok []
get_missing_loop get vals (v ∷ missing) =
    let rest = get_missing_loop get vals missing in
    elim (vals v) [
      | none ↦ err missing_chunk_not_found
      | some id ↦ get id >>= λ chunk. rest >>= λ chunks. ok (chunk ∷ chunks)
    ]

unfoldable pub get_missing_chunks_of :
    (Address → Result Error Chunk) → List ℕ → ℕ → Service → Result Error (List Chunk)
unfolding get_missing_loop
get_missing_chunks_of get missing nonce s = elim (s.map_val_to_chunk_id nonce) [
  | none ↦ err no_proof_for_nonce
  | some vals ↦ get_missing_loop get vals missing
]
