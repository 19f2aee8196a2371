-- ===== src/Tests/RadiusExamples.antt =====
-- The theorems on the proof that a node creates, for a node that stores two chunks.
use phd.Base.{ℕ, ◌≤◌, ◌≡◌, ◌↔◌, refl, sym, All, Option, some, false, List, [], ◌∷◌, map, In, arith}
use mathlib.Core.Path.{subst}
use phd.Swarm.{Bytes, Address, Chunk, compare_bytes}
use phd.Swarm.Proximity.{proximity}
use phd.Snips.Proof.{Service, outside, gen_chunk_proof, build_base_proof, create_mphf}
use phd.Snips.Proof.Cache.{IsStored, proof_of}
use phd.Snips.Proof.Mphf.{Distinct}
use phd.Snips.Protocol.{Proof}
use phd.Snips.Radius.{Created, created, get_chunks_in_my_radius, create_proof_for_my_chunks}
use phd.Snips.Radius.Range.{get_chunks_in_my_radius_lem}
use phd.Snips.Radius.Creation.{IsProof, create_proof_for_my_chunks_lem}
use phd.Tests.Hash.{library, position, library-IsMinimalPerfect}
use phd.Tests.SnipsExamples.{both, content, fresh, stored, coherent, distinct}

abbrev base : Address
base = 0 ∷ []

get_chunks_in_my_radius_lem_example :
    let r = get_chunks_in_my_radius base 6 both [] [] in
    ((c : Chunk) → In c r.0 ↔ (In c both × (6 ≤ proximity base c.address)))
    × ((c : Chunk) → In c r.0 → outside r.1 r.2 c.address ≡ false)
get_chunks_in_my_radius_lem_example = get_chunks_in_my_radius_lem base 6 both (refl, (refl, tt))

-- the encoding of the small library's hash: the list itself
abbrev as_bytes : List ℕ → Option Bytes
as_bytes keys = some keys

mine_is : (get_chunks_in_my_radius base 0 both [] []).0 ≡ both
unfolding get_chunks_in_my_radius proximity compare_bytes
mine_is = refl

abbrev result : Created × Service
result = create_proof_for_my_chunks library as_bytes 38 4 40 base 0 both 7 fresh

abbrev proof : Proof
proof = record {
  begin = 1 ∷ [];
  end = 2 ∷ [];
  nonce = 7;
  mphf = map (proof_of library 7) both;
  length = 2;
}

made_run : result ≡ (created proof, result.1)
unfolding create_proof_for_my_chunks get_chunks_in_my_radius build_base_proof create_mphf position
    gen_chunk_proof proximity compare_bytes phd.Swarm.equal
made_run = refl

create_proof_for_my_chunks_lem_example :
    IsProof library as_bytes base 0 7 content both fresh proof result.1
create_proof_for_my_chunks_lem_example =
    create_proof_for_my_chunks_lem library as_bytes base 0 7 content both fresh 4 40 38 proof
      result.1 coherent (subst (All (IsStored content)) (sym mine_is) stored)
      (subst (λ cs. Distinct (map (proof_of library 7) cs)) (sym mine_is) distinct)
      library-IsMinimalPerfect (omega arith) (omega arith) made_run
