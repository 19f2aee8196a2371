-- ===== src/Snips/Upload/Round.antt =====
-- A round of the protocol: what the verifier lacks is uploaded.
use phd.Base.{leb, ℕ, ◌<◌, ◌≡◌, arith, refl, ap, true, false, some, List, [], ◌∷◌, In}
use phd.Base.Result.{Result, ok}
use phd.Swarm.{Bytes, Address, Chunk}
use phd.Snips.Proof.{Library}
use phd.Snips.Proof.Cache.{proof_of}
use phd.Snips.Proof.Sync.{Lacks}
use phd.Snips.Protocol.{Proof, Node}
use phd.Snips.Upload.Held.{delivers}
use phd.Snips.Upload.{
  Delivery, over, concurrent_pushes, Uplink, upload_loop, faults, delivered, all_errors,
}

module _ (lib : Library) (node : Node lib) (content : Address → Bytes) where
  -- the chunks whose value no chunk of the verifier within the range has
  abbrev pub Missing : lib.BBHash → Proof → List Chunk → Chunk → Type 0
  Missing bb proof mine c =
      In c mine
      × Lacks lib bb proof.nonce proof.begin proof.end content node.stored
          (lib.find bb (proof_of lib proof.nonce c))

module _ (uplink : Uplink) where
  -- every chunk has a stamp, and the streams work
  pub record IsWorking : Type 0 where
    pub stamped : (c : Chunk) → (b : Bytes) × (uplink.stamp_of c ≡ some b)
    pub open_ : (c : Chunk) → uplink.opens c ≡ true
    pub written : (c : Chunk) → uplink.writes c ≡ true
    pub received : (c : Chunk) → uplink.receipt c ≡ true

  pub upload_loop-IsWorking :
      (chunks : List Chunk) (held : ℕ)
      → IsWorking
      → held < concurrent_pushes
      → (sent : List Delivery) × (upload_loop uplink chunks [] held ≡ (sent, held, over (ok tt)))
        × (delivers sent ≡ chunks)
  unfolding upload_loop faults delivered all_errors
  upload_loop-IsWorking [] held w room = ([], refl, refl)
  upload_loop-IsWorking (c ∷ chunks) held w room =
      let free : leb concurrent_pushes held ≡ false = ground (arith, room) in
      let (b, s) = w.stamped c in
      let (sent, run, all) = upload_loop-IsWorking chunks held w room in
      (
        record { address = c.address; payload = c.payload; stamp = b } ∷ sent,
        let f : faults uplink c ≡ [] = rw (w.written c, w.received c, faults) refl in
            rw (free, s, w.open_ c, f, run, w.written c, upload_loop) refl,
        ap (λ l. c ∷ l) all,
      )
