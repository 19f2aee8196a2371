-- ===== src/Kademlia/Reached.antt =====
-- How many peers are reachable (the loops of recalcDepth in
-- code/bee-snips-sup/pkg/topology/kademlia/kademlia.go).
use phd.Base.{ℕ, zero, suc, ◌+◌, ◌≤◌, ◌≡◌, refl, Bool, List, [], ◌∷◌, leb, if◌then◌else◌, arith}
use phd.Swarm.{Address}
use phd.PSlice.{bin_at}

module _ (peer_filter : Address → Bool) where
  -- how many peers of a bin are reachable
  unfoldable pub reached : List Address → ℕ
  reached [] = 0
  reached (p ∷ peers) = let rest = reached peers in if peer_filter p then rest else suc rest

  -- how many peers of the bins from lo on, below n, are reachable
  unfoldable pub reached_within : List (List Address) → ℕ → ℕ → ℕ
  unfolding reached
  reached_within bins lo zero = 0
  reached_within bins lo (suc n) =
      reached_within bins lo n + (if leb lo n then reached (bin_at bins n) else 0)

  pub reached_within-antitone :
      (bins : List (List Address)) (lo hi n : ℕ)
      → lo ≤ hi
      → reached_within bins hi n ≤ reached_within bins lo n
  unfolding reached_within
  reached_within-antitone bins lo hi zero h = omega arith
  reached_within-antitone bins lo hi (suc n) h =
      ground (arith, h, reached_within-antitone bins lo hi n h)

  pub reached_within_none :
      (bins : List (List Address)) (lo n : ℕ) → n ≤ lo → reached_within bins lo n ≡ 0
  unfolding reached_within
  reached_within_none bins lo zero h = refl
  reached_within_none bins lo (suc n) h =
      ground (arith, h, reached_within_none bins lo n (omega (arith, h)))
