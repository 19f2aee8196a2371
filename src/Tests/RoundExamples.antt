-- ===== src/Tests/RoundExamples.antt =====
-- Witnesses for a round of the protocol, the sending of a proof and the watching of blocks.
use phd.Base.{ℕ, ◌+◌, ◌*◌, ◌/◌, ◌^◌, ◌<◌, ◌≡◌, refl, true, some, List, [], ◌∷◌, map, arith}
use phd.Base.Result.{ok}
use phd.Swarm.{Address}
use phd.Snips.Protocol.{SignedProof, accept}
use phd.Snips.Radius.{created}
use phd.Snips.Upload.{Uplink, upload_loop}
use phd.Snips.Upload.Held.{Leaves, upload_loop-Leaves}
use phd.Snips.Sending.{Outlet, send_created}
use phd.Snips.Sending.Accepted.{reached, CanSign, send_created_lem}
use phd.Snips.Watch.{Answer, watch}
use phd.Snips.Watch.Blocks.{Proves, Spaced, IsFit, at_block, watch_lem, watch-skips}
use phd.Tests.Hash.{library}
use phd.Tests.SnipsExamples.{first, content, both, hash}
use phd.Tests.SnipsExamples as Mine
use phd.Tests.ProtocolExamples.{node, proof, prover}

abbrev uplink : Uplink
uplink = record {
  stamp_of = λ c. some c.address;
  opens = λ c. true;
  writes = λ c. true;
  receipt = λ c. true;
  missing_from_bytes = some;
}

upload_loop-Leaves_example : Leaves uplink [] 3 both (upload_loop uplink both [] 3)
upload_loop-Leaves_example = upload_loop-Leaves uplink both [] 3

abbrev outlet : Outlet
outlet = record {
  marshal = λ p. some p.mphf;
  sign = λ b. some (5 ∷ []);
  block_hash = 4 ∷ [];
  opens = λ a. true;
  writes = λ a. true;
}

can_sign : CanSign outlet library (node true) prover proof
unfolding phd.Swarm.Proximity.proximity
can_sign = record {
  key = 5;
  bb = hash;
  bytes = 1 ∷ [];
  signature = 5 ∷ [];
  marshalled = refl;
  same_encoding = refl;
  signed = refl;
  recovered = refl;
  owned = refl;
  near = omega arith;
  enabled = refl;
  readable = refl;
}

abbrev neighbors : List Address
neighbors = content (1 ∷ []) ∷ prover ∷ []

send_created_lem_example :
    (signed : SignedProof) × (bb : library.BBHash) × (send_created outlet (created proof) neighbors
      ≡ (map (λ a. (a, signed)) (reached outlet neighbors), ok tt))
    × (accept library (node true) (some signed) prover ≡ ok (proof, bb))
    × (signed.proof ≡ some proof)
send_created_lem_example =
    send_created_lem outlet library (node true) prover proof neighbors (omega arith) can_sign

-- a chain that is looked at three times
abbrev answers : List Answer
answers = at_block (λ n. n + 1) 12 ∷ at_block (λ n. n + 1) 15 ∷ at_block (λ n. n + 1) 27 ∷ []

fit : (n : ℕ) → n + 10 < 2 ^ 63 → IsFit 10 (at_block (λ n. n + 1) n)
fit n room = record {
  headers = λ cur m e below. (m + 1, refl);
  small = λ cur e. let same : n ≡ cur = cc e in omega (arith, room, same);
}

watch_lem_example :
    (blocks : List (ℕ × ℕ)) × (watch 10 0 answers ≡ ok (map (λ b. b.1) blocks))
    × Proves 10 0 answers blocks
    × Spaced 10 (10 * (0 / 10) + 10) blocks
watch_lem_example =
    watch_lem 10 0 answers (omega arith) (omega arith)
      (fit 12 (omega arith), (fit 15 (omega arith), (fit 27 (omega arith), tt)))

watch-skips_example :
    watch 10 0 (
      at_block (λ n. n + 1) (1 * 10 + 3)
      ∷ at_block (λ n. n + 1) (1 * 10 + 10)
      ∷ at_block (λ n. n + 1) (1 * 10 + 10 + 10)
      ∷ [])
    ≡ ok (11 ∷ 31 ∷ [])
watch-skips_example =
    watch-skips 10 (λ n. n + 1) 0 1 3 (omega arith) (omega arith) (omega arith) (omega arith)
