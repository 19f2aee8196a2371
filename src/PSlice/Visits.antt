-- ===== src/PSlice/Visits.antt =====
-- The iterations of EachBin and EachBinRev, turn by turn
-- (code/bee-snips-sup/pkg/topology/pslice/pslice.go).
use phd.Base.{ℕ, suc, ◌+◌, ◌%◌, ◌≡◌, ap, Option, none, some, List, ◌∷◌}
use phd.Swarm.{Address}
use phd.PSlice.{bin_at, Reply, go_on, skip_bin, stop, fail, visit_bin, each_bin, each_bin_rev}

module _ {E S : Type 0} (pf : S → Address → ℕ → S × Reply E) where
  -- a turn of a bin, from what the callback returns
  abbrev turn : ℕ → List Address → S × Reply E → S × Option (Reply E)
  turn i peers r = elim r.1 [
    | go_on ↦ visit_bin pf i peers r.0
    | skip_bin ↦ (r.0, none)
    | stop ↦ (r.0, some stop)
    | fail e ↦ (r.0, some (fail e))
  ]

  pub visit_bin-go_on :
      (i : ℕ) (p : Address) (peers : List Address) (s t : S)
      → pf s p (i % 256) ≡ (t, go_on)
      → visit_bin pf i (p ∷ peers) s ≡ visit_bin pf i peers t
  unfolding visit_bin
  visit_bin-go_on i p peers s t e = ap (turn i peers) e

  pub visit_bin-stop :
      (i : ℕ) (p : Address) (peers : List Address) (s t : S)
      → pf s p (i % 256) ≡ (t, stop)
      → visit_bin pf i (p ∷ peers) s ≡ (t, some stop)
  unfolding visit_bin
  visit_bin-stop i p peers s t e = ap (turn i peers) e

  abbrev next_bin : (S → S × Option (Reply E)) → S × Option (Reply E) → S × Option (Reply E)
  next_bin rest r = elim r.1 [ none ↦ rest r.0 | some e ↦ (r.0, some e) ]

  pub each_bin-next :
      (n : ℕ) (bins : List (List Address)) (s t : S)
      → visit_bin pf n (bin_at bins n) s ≡ (t, none)
      → each_bin pf (suc n) bins s ≡ each_bin pf n bins t
  unfolding each_bin
  each_bin-next n bins s t e = ap (next_bin (each_bin pf n bins)) e

  pub each_bin-ended :
      (n : ℕ) (bins : List (List Address)) (s t : S) (r : Reply E)
      → visit_bin pf n (bin_at bins n) s ≡ (t, some r)
      → each_bin pf (suc n) bins s ≡ (t, some r)
  unfolding each_bin
  each_bin-ended n bins s t r e = ap (next_bin (each_bin pf n bins)) e

  pub each_bin_rev-next :
      (i : ℕ) (bin : List Address) (bins : List (List Address)) (s t : S)
      → visit_bin pf i bin s ≡ (t, none)
      → each_bin_rev pf i (bin ∷ bins) s ≡ each_bin_rev pf (i + 1) bins t
  unfolding each_bin_rev
  each_bin_rev-next i bin bins s t e = ap (next_bin (each_bin_rev pf (i + 1) bins)) e

  pub each_bin_rev-ended :
      (i : ℕ) (bin : List Address) (bins : List (List Address)) (s t : S) (r : Reply E)
      → visit_bin pf i bin s ≡ (t, some r)
      → each_bin_rev pf i (bin ∷ bins) s ≡ (t, some r)
  unfolding each_bin_rev
  each_bin_rev-ended i bin bins s t r e = ap (next_bin (each_bin_rev pf (i + 1) bins)) e
