-- ===== src/Tests/ProtocolExamples.antt =====
-- The theorems on the protocol, for a verifier that holds one of the prover's two chunks.
use phd.Base.{ℕ, ◌≡◌, ◌≢◌, refl, Bool, true, false, some, [], ◌∷◌, arith, inr}
use phd.Base.Result.{panic}
use phd.Swarm.{Address}
use phd.Snips.Proof.{Service, gen_chunk_proof}
use phd.Snips.Proof.Cache.{proof_of}
use phd.Snips.Protocol.{Proof, SignedProof, Node, retrieve_missing_chunks}
use phd.Snips.Protocol.Maintain.{Decodes, Wanted, retrieve_missing_chunks-panic}
use phd.Tests.Hash.{library, position, position-le}
use phd.Tests.SnipsExamples.{first, content, fresh, hash, stored, coherent}

abbrev pub node : Bool → Node library
node connected = record {
  enabled = true;
  address = 0 ∷ 0 ∷ 0 ∷ 0 ∷ [];
  network_id = 1;
  depth = 2;
  stored = first ∷ [];
  PublicKey = ℕ;
  marshal = λ p. some p.mphf;
  recover = λ signature bytes. some 5;
  overlay = λ key network block. some (1 ∷ 5 ∷ 0 ∷ 0 ∷ []);
  unmarshal = λ bytes. some hash;
  encode = λ values. some values;
  opens = λ peer. connected;
  writes = λ message. true;
}

abbrev pub prover : Address
prover = 1 ∷ 5 ∷ 0 ∷ 0 ∷ []

abbrev pub proof : Proof
proof = record { begin = 0 ∷ []; end = 9 ∷ []; nonce = 7; mphf = 1 ∷ []; length = 2 }

abbrev signed : SignedProof
signed = record { proof = some proof; signature = 3 ∷ []; block_hash = 4 ∷ [] }

pub decodes : (connected : Bool) → Decodes library (node connected) some content
decodes connected values up words = (values, refl, refl)

first_is_one : library.find hash (proof_of library 7 first) ≢ 2
first_is_one e = unfold position gen_chunk_proof in absurd (omega (arith, e))

second-Wanted : Wanted library (node false) some content prover hash proof 2
second-Wanted = ((omega arith, omega arith), (inr first_is_one, tt))

retrieve_missing_chunks-panic_example :
    (s : Service) × (retrieve_missing_chunks library (node false) prover hash proof fresh
      ≡ ([], s, panic))
retrieve_missing_chunks-panic_example =
    retrieve_missing_chunks-panic library (node false) some content prover hash proof fresh 2
      (decodes false) refl (omega arith) (omega arith) (λ key. position-le hash key) (stored.0, tt)
      coherent second-Wanted
