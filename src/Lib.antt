-- ===== src/Lib.antt =====
-- The parts of a Swarm node that find and repair missing chunks
-- (repository racin/phd, the Go node in code/bee-snips-sup), with what makes them correct.
--
-- SNIPS. A prover hashes each of its chunks with a nonce to a 64-bit chunk proof, builds a minimal
-- perfect hash over these proofs and sends it, with its length and the range of addresses. A verifier
-- looks up the proofs of its own chunks, strikes off their values from a tally, and asks for the
-- values that are left; the prover answers with the chunks.
--   Snips/Expected   the tally of values (pkg/snips/expectedvals.go). An int32 entry is its bit
--                    pattern, so that a decrement wraps as it does in Go; an index past the end is
--                    `panic`.
--   Snips/Proof      chunk proofs and their cache, BuildBaseProof, CreateMPHF, FindMissingChunks and
--                    GetMissingChunks (pkg/snips/proof.go). The maps of Service are functions into
--                    Option and are passed through every call. Keccak, fasthash and the bbhash
--                    library are the fields of a record `Library`; the one law that is supposed of
--                    them is that bbhash is a minimal perfect hash (Snips/Proof/Mphf). A float64 gamma
--                    is counted in halves. The loop of CreateMPHF has fuel; more than the number of
--                    halves between the least and the greatest gamma is shown to be enough.
--                    Metrics, locks, contexts and the errors of the hash writer, which never fails,
--                    are left out.
--   Snips/Protocol   verifySignature, RetrieveMissingChunks and handlerIncomingProof (pkg/snips/
--                    snips.go). A handler gives the messages it writes, the service after it and how
--                    it ends; streams, encodings and signatures are the fields of a record `Node`, of
--                    which the one law supposed is that an encoded set of uint64 values is read back
--                    as its ascending list. A message may come without its proof, a nil pointer.
--   Snips/Upload     uploadMissingChunks and handlerIncomingMaintain (pkg/snips/snips.go). Stamps and
--                    streams are the fields of a record `Uplink`; the slots of the semaphore that
--                    others hold are a number, and the loop waits where it is the capacity, 50.
--   Snips/Sending    createResponse, SendProof, PeerFunc, CreateAndSendProofForMyChunks and
--                    handlerIncomingRequest (pkg/snips/snips.go), with the neighbours that
--                    EachNeighbor visits as a list.
--   Snips/Watch      WatchForNewBlock (pkg/snips/snips.go), over a list of the chain's answers. A number
--                    from 2^63 on becomes negative, as int64 does.
--   Snips/Radius     GetChunksInMyRadius (pkg/snips/snips.go) and CreateProofForMyChunks
--                    (pkg/snips/proof.go), which join the steps above.
--
-- Proofs of storage. The second protocol of the repository: before a client uploads chunks again, it
-- challenges the neighbourhood of each to prove that it still holds the chunk.
--   Pos              genChunkProof, processChallenge, createResponse, verifyProof and handleResponse
--                    (pkg/pos/pos.go). What all nodes compute alike is a record `Scheme`, a node's
--                    settings, store and signer are a record `Node`.
--   Pos/Sender       SendClosest (pkg/pos/sender/sender.go), by recursion on the retries left. The
--                    choice of the closest peer and the streams are parameters.
--   Pos/Reupload     getChunkAddrs, reuploadChunk, pushChunk, Reupload and handler (pkg/pos/pos.go).
--                    The goroutines of Reupload meet at one channel, so that the order in which their
--                    statuses arrive is a parameter, any permutation. The traversal, the push and the
--                    random nonces are parameters too.
--
-- Addresses. Proximity orders, their extension, and the exact distance of pkg/swarm order the nodes
-- and chunks of the network.
--   Swarm            Address and Chunk (pkg/swarm/swarm.go)
--   Swarm/Proximity  Proximity and ExtendedProximity (pkg/swarm/proximity.go)
--   Swarm/Distance   DistanceRaw and DistanceCmp (pkg/swarm/distance.go), and Closer of swarm.go
--
-- Peers. A node keeps its peers in bins by proximity order, each bin a slice without order.
--   PSlice           PSlice and its operations (pkg/topology/pslice/pslice.go). A callback of EachBin
--                    is a function that passes a state on. The growth of capacities in Add has no
--                    effect on the contents and is left out.
--   Kademlia         ClosestPeer, closestPeer, EachNeighbor, IsWithinDepth, recalcDepth,
--                    SetStorageRadius and IsBalanced (pkg/topology/kademlia/kademlia.go). SendClosest
--                    asks for its peers here. The worker that connects to peers and prunes them, the
--                    announcements and the locks are left out, and the test of reachability is a
--                    function.
--   Kademlia/Calls   Connected, onConnected, Disconnected, AddPeers, Reachable, UpdateReachability,
--                    binSaturated, randomPeer and the end of a connection that the node makes. The
--                    outcomes of announcements, the drawn peer and the time are parameters. Only the
--                    peers that are known may be forgotten elsewhere, by the worker.
--   SkipPeers        the skip list of a push or a retrieval (pkg/skippeers/skip_peers.go)
--
-- Intervals. Pull syncing keeps the ranges of chunk indices that it has already fetched.
--   Intervals        Add, Merge, Next and Last (pkg/intervalstore/intervals.go), with the wrap-around
--                    of uint64 written out. The text encoding is not modelled.
--
-- Storage. A shard of the chunk store hands out its lowest free slot; a stamp issuer gives each stamp
-- of a batch an index of its own.
--   Sharky           the slots (pkg/sharky/slots.go). The loop of next has as many rounds as slots are
--                    left, which is all it makes. The file and the channels are left out.
--   Stamps           inc and the format of an index (pkg/postage/stampissuer.go)
--
--   Batches          the batch store (pkg/postage/batchstore/store.go, reserve.go): Save, Update,
--                    PutChainState, SetStorageRadius, Reset, cleanup and computeRadius. The state
--                    store is a list of batches by ID and a list of keys by value, both in the order
--                    of their keys. Its input and output errors, the persisted copies of the chain
--                    and reserve states and the notifications are left out; the logarithm of
--                    computeRadius, which is taken in floating point, is a parameter.
--   Batches/Reserve  Unreserve (pkg/postage/batchstore/reserve.go), with its callback as a parameter.
--
-- Paths are from the repository's root, under code/bee-snips-sup where they start with pkg. Network
-- streams, the chain, the database engines and the command line are not modelled.
-- Base holds the lists, options and bit operations that the parts share, and Tests applies each
-- theorem that has hypotheses to an input that meets them.
pub mod Base
pub mod Swarm
pub mod Snips
pub mod Sharky
pub mod PSlice
pub mod Pos
pub mod Kademlia
pub mod SkipPeers
pub mod Stamps
pub mod Intervals
pub mod Batches
pub mod Tests
