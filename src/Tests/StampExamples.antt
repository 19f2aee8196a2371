-- ===== src/Tests/StampExamples.antt =====
-- The theorems on stamps, on a batch of depth 3 with two buckets.
use phd.Base.{ℕ, ◌≡◌, [], ◌∷◌, arith}
use phd.Base.Result.{ok}
use phd.Swarm.{Address}
use phd.Stamps.{StampIssuer, new_stamp_issuer, inc, index_to_bytes, bytes_to_index}
use phd.Stamps.Index.{bytes_to_index-index_to_bytes}
use phd.Stamps.Issued.{IsIssuer, Stamped, new_stamp_issuer-IsIssuer, inc_lem}
use phd.Stamps.Unique.{issue_all, NoRepeat, IsLong, issue_all-NoRepeat}

abbrev issuer : StampIssuer
issuer = new_stamp_issuer 3 1

issuer-IsIssuer : IsIssuer issuer
issuer-IsIssuer = new_stamp_issuer-IsIssuer 3 1 (omega arith)

abbrev chunk_address : Address
chunk_address = 200 ∷ 1 ∷ 2 ∷ 3 ∷ []

chunk_address-IsLong : IsLong chunk_address
chunk_address-IsLong = (omega arith, (omega arith, (omega arith, (omega arith, (omega arith, tt)))))

bytes_to_index-index_to_bytes_example :
    bytes_to_index {E = ℕ} (index_to_bytes 513 70000) ≡ ok (513, 70000)
bytes_to_index-index_to_bytes_example =
    bytes_to_index-index_to_bytes 513 70000 (omega arith) (omega arith)

inc_lem_example : Stamped chunk_address issuer (inc chunk_address issuer)
inc_lem_example =
    inc_lem chunk_address issuer issuer-IsIssuer chunk_address-IsLong.0 chunk_address-IsLong.1

issue_all-NoRepeat_example : NoRepeat (issue_all (chunk_address ∷ chunk_address ∷ []) issuer)
issue_all-NoRepeat_example =
    issue_all-NoRepeat (chunk_address ∷ chunk_address ∷ []) issuer issuer-IsIssuer
      (chunk_address-IsLong, (chunk_address-IsLong, tt))
