-- ===== src/Snips/Expected.antt =====
-- The tally that a verifier keeps of a proof's values (code/bee-snips-sup/pkg/snips/expectedvals.go).
-- An int32 entry is its bit pattern below 2 ^ 32, so -1 is 2 ^ 32 - 1, and a negative entry has
-- its top bit set.
pub mod Tally
pub mod Duplicates
pub mod Overrun
use phd.Base.{
  ℕ, zero, suc, ◌+◌, ◌-◌, ◌%◌, ◌^◌, ◌≡◌, Bool, true, false, ◌&&◌, ◌||◌, Option, none, some, List,
  [], ◌∷◌, ltb, leb, ◌==◌, if◌then◌else◌, length, get_elem?, set, replicate,
}
use phd.Base.Result.{Result, ok, panic, ◌>>=◌}

-- `NewExpectedVals`
unfoldable pub new_expected_vals : ℕ → List ℕ
new_expected_vals n = replicate n 1

-- the index that `hashVal-1` is, as a uint64
abbrev pub hit_index : ℕ → ℕ
hit_index v = (v + 2 ^ 64 - 1) % 2 ^ 64

abbrev pub dec_int32 : ℕ → ℕ
dec_int32 w = (w + 2 ^ 32 - 1) % 2 ^ 32

hit_at : {E : Type 0} → List ℕ → ℕ → Option ℕ → Result E (List ℕ)
hit_at e i none = panic
hit_at e i (some w) = ok (set e i (dec_int32 w))

-- `Hit`: an index out of range panics
unfoldable pub hit : {E : Type 0} → List ℕ → ℕ → Result E (List ℕ)
unfolding hit_at
hit e v = hit_at e (hit_index v) (get_elem? e (hit_index v))

-- the loops `for i := range *e` that collect `i+1` where the entry passes a test
unfoldable pub collect : (ℕ → Bool) → ℕ → List ℕ → List ℕ
collect p i [] = []
collect p i (w ∷ e) = let rest = collect p (i + 1) e in if p w then (i + 1) ∷ rest else rest

-- `GetMissingOrDuplicate`
unfoldable pub get_missing_or_duplicate : List ℕ → List ℕ
unfolding collect
get_missing_or_duplicate e = collect (λ w. if w == 0 then false else true) 0 e

-- `GetMissingChunks`
unfoldable pub get_missing_chunks : List ℕ → List ℕ
unfolding collect
get_missing_chunks e = collect (λ w. w == 1) 0 e

-- `DuplicateProof`: the index is cut to a uint32
unfoldable pub duplicate_loop : ℕ → List ℕ → List ℕ
duplicate_loop i [] = []
duplicate_loop i (w ∷ e) =
    let rest = duplicate_loop (i + 1) e in
    if leb (2 ^ 31) w then ((i + 1) % 2 ^ 32) ∷ rest else rest

unfoldable pub duplicate_proof : List ℕ → List ℕ
unfolding duplicate_loop
duplicate_proof e = duplicate_loop 0 e

-- `GotMissingAndDuplicate`: the flags are set entry by entry, and the loop leaves early
unfoldable pub got_loop : Bool → Bool → List ℕ → Bool
got_loop missing duplicate [] = missing && duplicate
got_loop missing duplicate (w ∷ e) =
    let rest =
      got_loop (if w == 1 then true else missing)
        (if w == 1 then duplicate else if w == 2 ^ 32 - 1 then true else duplicate) e in
    if missing && duplicate then true else rest

unfoldable pub got_missing_and_duplicate : List ℕ → Bool
unfolding got_loop
got_missing_and_duplicate e = got_loop false false e

-- one `Hit` for each value of a list, in order
unfoldable pub hit_all : {E : Type 0} → List ℕ → List ℕ → Result E (List ℕ)
hit_all e [] = ok e
hit_all e (v ∷ vs) = hit e v >>= λ e'. hit_all e' vs
