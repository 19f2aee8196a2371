-- ===== src/PSlice.antt =====
-- Peers by proximity order (code/bee-snips-sup/pkg/topology/pslice/pslice.go).
-- The capacities that `Add` computes have no effect on the contents and are left out.
pub mod Bins
pub mod Visits
pub mod Members
pub mod Adding
pub mod Removing
use phd.Base.{
  ℕ, zero, suc, ◌+◌, ◌-◌, ◌%◌, Bool, true, false, Option, none, some, List, [], ◌∷◌, ◌++◌, ltb, leb,
  ◌==◌, if◌then◌else◌, length, set, take, replicate,
}
use phd.Swarm.{Bytes, Address, equal}
use phd.Swarm.Proximity.{proximity}

pub record PSlice : Type 0 where
  pub peers : List (List Address)
  pub base_bytes : Bytes
  pub max_bins : ℕ

-- `s.peers[i]`
abbrev pub bin_at : List (List Address) → ℕ → List Address
bin_at [] i = []
bin_at (b ∷ bs) zero = b
bin_at (b ∷ bs) (suc i) = bin_at bs i

unfoldable pub new : ℕ → Address → PSlice
new max_bins base = record { peers = replicate max_bins []; base_bytes = base; max_bins = max_bins }

-- `po`
unfoldable pub po : PSlice → Address → ℕ
po s peer =
    let p = proximity s.base_bytes peer in
    if leb s.max_bins p then (s.max_bins % 256 + 255) % 256 else p

-- the loop of `index`, from position i on: whether the peer is there, and where
unfoldable pub index_from : ℕ → Address → List Address → Bool × ℕ
index_from i addr [] = (false, 0)
index_from i addr (peer ∷ peers) =
    let rest = index_from (i + 1) addr peers in if equal peer addr then (true, i) else rest

unfoldable pub index : PSlice → Address → ℕ → Bool × ℕ
unfolding index_from
index s addr p = index_from 0 addr (bin_at s.peers p)

-- `s.peers[p] = append(s.peers[p], addr)`
unfoldable pub append_to : PSlice → ℕ → Address → PSlice
append_to s p addr = record s { peers = set s.peers p (bin_at s.peers p ++ addr ∷ []) }

-- `Add` of one address
unfoldable pub add_one : Address → PSlice → PSlice
unfolding po index append_to
add_one addr s = let p = po s addr in if (index s addr p).0 then s else append_to s p addr

-- the last loop of `Add` of several: what was there before any was added decides
unfoldable pub add_new : PSlice → List Address → PSlice → PSlice
unfolding po index append_to
add_new before [] s = s
add_new before (addr ∷ addrs) s =
    let p = po before addr in
    add_new before addrs (if (index before addr p).0 then s else append_to s p addr)

-- `Add`
unfoldable pub add : List Address → PSlice → PSlice
unfolding add_one add_new
add (addr ∷ []) s = add_one addr s
add addrs s = add_new s addrs s

-- `Exists`
unfoldable pub exists : Address → PSlice → Bool
unfolding po index
exists addr s = (index s addr (po s addr)).0

unfoldable pub last_of : List Address → Address
last_of [] = []
last_of (a ∷ []) = a
last_of (a ∷ rest) = last_of rest

-- the copy that `Remove` stores: the last peer takes the place of the one removed
unfoldable pub without : List Address → ℕ → List Address
unfolding last_of
without bin i =
    let n = length bin - 1 in
    let cpy = take n bin in if i == n then cpy else set cpy i (last_of bin)

-- `Remove`
unfoldable pub remove : Address → PSlice → PSlice
unfolding po index without
remove addr s =
    let p = po s addr in
    let found = index s addr p in
    if found.0 then record s { peers = set s.peers p (without (bin_at s.peers p) found.1) } else s

-- `Length`
unfoldable pub total : List (List Address) → ℕ
total [] = 0
total (bin ∷ bins) = length bin + total bins

-- `BinSize` and `BinPeers`
unfoldable pub bin_size : ℕ → PSlice → ℕ
bin_size bin s = if leb s.max_bins bin then 0 else length (bin_at s.peers bin)

unfoldable pub bin_peers : ℕ → PSlice → List Address
bin_peers bin s = if leb s.max_bins bin then [] else bin_at s.peers bin

-- `ShallowestEmpty`, from bin i on
unfoldable pub shallowest_empty : ℕ → List (List Address) → ℕ × Bool
shallowest_empty i [] = (0, true)
shallowest_empty i ([] ∷ bins) = (i % 256, false)
shallowest_empty i ((a ∷ b) ∷ bins) = shallowest_empty (i + 1) bins

-- What a callback returns, with its own new state: go on, skip the rest of the bin, stop, or fail.
pub data Reply (E : Type 0) : Type 0 where
  go_on skip_bin stop : Reply E
  fail : E → Reply E

module _ {E S : Type 0} (pf : S → Address → ℕ → S × Reply E) where
  -- one bin: whether the iteration goes on to the next one (`none`) or has ended
  unfoldable pub visit_bin : ℕ → List Address → S → S × Option (Reply E)
  visit_bin i [] s = (s, none)
  visit_bin i (peer ∷ peers) s =
      let (s', reply) = pf s peer (i % 256) in
      let rest = visit_bin i peers s' in
      elim reply [
        | go_on ↦ rest
        | skip_bin ↦ (s', none)
        | stop ↦ (s', some stop)
        | fail e ↦ (s', some (fail e))
      ]

  -- `EachBin`: bins n - 1 down to 0
  unfoldable pub each_bin : ℕ → List (List Address) → S → S × Option (Reply E)
  unfolding visit_bin
  each_bin zero bins s = (s, none)
  each_bin (suc n) bins s =
      let (s', ended) = visit_bin n (bin_at bins n) s in
      let rest = each_bin n bins s' in elim ended [ none ↦ rest | some r ↦ (s', some r) ]

  -- `EachBinRev`: bins i up to the last
  unfoldable pub each_bin_rev : ℕ → List (List Address) → S → S × Option (Reply E)
  unfolding visit_bin
  each_bin_rev i [] s = (s, none)
  each_bin_rev i (bin ∷ bins) s =
      let (s', ended) = visit_bin i bin s in
      let rest = each_bin_rev (i + 1) bins s' in elim ended [ none ↦ rest | some r ↦ (s', some r) ]
