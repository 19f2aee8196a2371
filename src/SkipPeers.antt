-- ===== src/SkipPeers.antt =====
-- The peers that a push or a retrieval leaves out (code/bee-snips-sup/pkg/skippeers/skip_peers.go).
-- The mutex is left out.
pub mod Kept
use phd.Base.{Bool, true, false, List, [], ◌∷◌, ◌++◌, if◌then◌else◌}
use phd.Swarm.{Address, equal, member_of}

-- `List`
pub record SkipList : Type 0 where
  pub overdraft_addresses : List Address
  pub addresses : List Address

-- `All`
unfoldable pub all_skipped : SkipList → List Address
all_skipped s = s.addresses ++ s.overdraft_addresses

-- `ResetOverdraft`
unfoldable pub reset_overdraft : SkipList → SkipList
reset_overdraft s = record s { overdraft_addresses = [] }

-- `Add`
unfoldable pub skip : Address → SkipList → SkipList
skip a s = if member_of a s.addresses then s else record s { addresses = s.addresses ++ a ∷ [] }

-- the second loop of `AddOverdraft`: the first equal address is taken out
unfoldable pub take_out : Address → List Address → List Address
take_out a [] = []
take_out a (v ∷ addrs) = let rest = take_out a addrs in if equal v a then addrs else v ∷ rest

-- `AddOverdraft`
unfoldable pub skip_overdraft : Address → SkipList → SkipList
unfolding take_out
skip_overdraft a s = if member_of a s.overdraft_addresses then s else record {
  overdraft_addresses = s.overdraft_addresses ++ a ∷ [];
  addresses = take_out a s.addresses;
}

-- `OverdraftListEmpty`
unfoldable pub overdraft_list_empty : SkipList → Bool
overdraft_list_empty s = elim s.overdraft_addresses [ [] ↦ true | a ∷ addrs ↦ false ]

-- The calls that change the list.
pub data Call : Type 0 where
  adds_to_list adds_to_overdraft : Address → Call
  resets : Call

unfoldable pub call : Call → SkipList → SkipList
unfolding skip skip_overdraft reset_overdraft
call (adds_to_list a) s = skip a s
call (adds_to_overdraft a) s = skip_overdraft a s
call resets s = reset_overdraft s
