-- ===== src/Pos/Reupload/Sorted.antt =====
-- What the result of a reupload says of every chunk (code/bee-snips-sup/pkg/pos/pos.go).
use phd.Base.{
  ℕ, suc, ◌+◌, ◌≡◌, refl, ap, ◌∙◌, inl, inr, Bool, true, false, ◌&&◌, map, All, List, [], ◌∷◌, ◌++◌,
  arith, if◌then◌else◌, Bool-cases,
}
use mathlib.Core.List.{Perm, Permᴰ, append-nil, append_assoc}
use mathlib.Core.Logic.{∥∥₁_elim}
use native.Mathlib.Nat.{ℕ_set}
use phd.Base.Result.{Result, ok}
use phd.Swarm.{Address, equal, equal-same, equal-other}
use phd.Pos.{Scheme, Node}
use phd.Pos.Reupload.{
  Status, errored, proved, reuploaded, ChunkStatus, ReuploadResult, empty_result, proved_by,
  append_proved, record_as, check_chunk, visit, get_chunk_addrs, collect, Failure, reupload_all,
  reupload,
}

-- how often an address stands in a list
unfoldable pub occurrences : Address → List Address → ℕ
occurrences a [] = 0
occurrences a (x ∷ xs) = let rest = occurrences a xs in if equal x a then suc rest else rest

-- what a status stands for
pub data Outcome : Type 0 where
  has_error was_uploaded : Outcome
  was_proved : Address → Outcome

unfoldable pub has_outcome : Outcome → ChunkStatus → Status → Bool
has_outcome has_error cs errored = true
has_outcome was_uploaded cs reuploaded = true
has_outcome (was_proved p) cs proved = equal cs.prover p
has_outcome _ cs _ = false

-- how many of the statuses give an address an outcome
unfoldable pub tally : Outcome → Address → List ChunkStatus → ℕ
unfolding has_outcome
tally o a [] = 0
tally o a (cs ∷ rest) =
    let more = tally o a rest in
    if has_outcome o cs cs.status && equal cs.addr a then suc more else more

-- the part of a result for an outcome
unfoldable pub listed : Outcome → ReuploadResult → List Address
unfolding proved_by
listed has_error r = r.errored
listed was_uploaded r = r.reuploaded
listed (was_proved p) r = proved_by r.proved p

occurrences-snoc :
    (a x : Address) (xs : List Address)
    → occurrences a (xs ++ x ∷ []) ≡ occurrences a (x ∷ []) + occurrences a xs
unfolding occurrences
occurrences-snoc a x [] = ground arith
occurrences-snoc a x (y ∷ ys) = ground (arith, occurrences-snoc a x ys)

-- appending for one prover changes that prover's list and no other
proved_by-append_proved :
    (a p q addr : Address) (entries : List (Address × List Address))
    → occurrences a (proved_by (append_proved entries q addr) p)
      ≡ (if equal q p then occurrences a (addr ∷ []) else 0) + occurrences a (proved_by entries p)
unfolding occurrences proved_by append_proved
proved_by-append_proved a p q addr [] = ground arith
proved_by-append_proved a p q addr (entry ∷ entries) = elim (Bool-cases (equal entry.0 q)) [
  | inl h ↦ ground (arith, h, equal-same entry.0 q p h, occurrences-snoc a addr entry.1)
  | inr h ↦ ground (arith, h, equal-other entry.0 q p h, proved_by-append_proved a p q addr entries)
]

record_as_lem :
    (o : Outcome) (a : Address) (r : ReuploadResult) (cs : ChunkStatus) (s : Status)
    → occurrences a (listed o (record_as r cs s))
      ≡ (if has_outcome o cs s && equal cs.addr a then 1 else 0) + occurrences a (listed o r)
unfolding occurrences listed record_as has_outcome
record_as_lem has_error a r cs errored = occurrences-snoc a cs.addr r.errored
record_as_lem has_error a r cs proved = omega arith
record_as_lem has_error a r cs reuploaded = omega arith
record_as_lem was_uploaded a r cs errored = omega arith
record_as_lem was_uploaded a r cs proved = omega arith
record_as_lem was_uploaded a r cs reuploaded = occurrences-snoc a cs.addr r.reuploaded
record_as_lem (was_proved p) a r cs errored = omega arith
record_as_lem (was_proved p) a r cs proved =
    ground (arith, proved_by-append_proved a p cs.prover cs.addr r.proved)
record_as_lem (was_proved p) a r cs reuploaded = omega arith

empty-listed : (o : Outcome) (a : Address) → occurrences a (listed o empty_result) ≡ 0
unfolding occurrences listed empty_result
empty-listed has_error a = refl
empty-listed was_uploaded a = refl
empty-listed (was_proved p) a = refl

collect_lem :
    (o : Outcome) (a : Address) (r : ReuploadResult) (statuses : List ChunkStatus)
    → occurrences a (listed o (collect r statuses))
      ≡ tally o a statuses + occurrences a (listed o r)
unfolding collect tally
collect_lem o a r [] = omega arith
collect_lem o a r (cs ∷ rest) =
    ground
      (arith, collect_lem o a (record_as r cs cs.status) rest, record_as_lem o a r cs cs.status)

tally-Permᴰ :
    (o : Outcome) (a : Address) {xs ys : List ChunkStatus}
    → Permᴰ xs ys
    → tally o a xs ≡ tally o a ys
unfolding tally
tally-Permᴰ o a Permᴰ.nil = refl
tally-Permᴰ o a (Permᴰ.cons {a = x} {b = y} {l₁} {l₂} e d) =
    rw (← e) (ground (arith, tally-Permᴰ o a d))
tally-Permᴰ o a (Permᴰ.swap {a = x} {b = y} {a' = x'} {b' = y'} {l = l} e f) =
    rw (← e, ← f) (ground arith)
tally-Permᴰ o a (Permᴰ.trans d₁ d₂) = tally-Permᴰ o a d₁ ∙ tally-Permᴰ o a d₂

tally-Perm :
    (o : Outcome) (a : Address) {xs ys : List ChunkStatus}
    → Perm xs ys
    → tally o a xs ≡ tally o a ys
tally-Perm o a p = ∥∥₁_elim p (ℕ_set _ _) (tally-Permᴰ o a)

all-ok :
    (one : Address → Result Failure ChunkStatus) (f : Address → ChunkStatus) (addrs : List Address)
    → ((a : Address) → one a ≡ ok (f a))
    → reupload_all one addrs ≡ ok (map f addrs)
unfolding reupload_all
all-ok one f [] each = refl
all-ok one f (a ∷ rest) each = rw (each a, all-ok one f rest each) refl

module _ (scheme : Scheme) (node : Node scheme) where
  visit-ok :
      (before addrs : List Address)
      → All (λ a. node.has a ≡ ok true) addrs
      → visit scheme node before true addrs ≡ ok (before ++ addrs)
  unfolding visit check_chunk
  visit-ok before [] h = rw (append-nil) refl
  visit-ok before (a ∷ rest) (h, hs) =
      let c : check_chunk scheme node a ≡ ok tt = rw (h, check_chunk) refl in
      rw (c, visit)
        (visit-ok (before ++ a ∷ []) rest hs ∙ ap ok (append_assoc before (a ∷ []) rest))

  -- Where the traversal ends well, every chunk that it visits is stored, every call of
  -- reuploadChunk ends with a status, and the statuses arrive in any order, Reupload succeeds, and
  -- each of its lists (errored, reuploaded, proved by a given prover) has an address as often as a
  -- visited chunk got that outcome with that address.
  pub reupload_lem :
      (one : Address → Result Failure ChunkStatus) (arrival : List ChunkStatus → List ChunkStatus)
      (addrs : List Address) (f : Address → ChunkStatus)
      → ((xs : List ChunkStatus) → Perm (arrival xs) xs)
      → All (λ a. node.has a ≡ ok true) addrs
      → ((a : Address) → one a ≡ ok (f a))
      → (r : ReuploadResult) × (reupload scheme node one arrival (addrs, true) ≡ ok r)
        × ((o : Outcome) (a : Address) → occurrences a (listed o r) ≡ tally o a (map f addrs))
  unfolding reupload get_chunk_addrs
  reupload_lem one arrival addrs f shuffled stored each = (
    collect empty_result (arrival (map f addrs)),
    rw (visit-ok [] addrs stored, all-ok one f addrs each) refl,
    λ o a. omega (
      arith,
      collect_lem o a empty_result (arrival (map f addrs)),
      tally-Perm o a (shuffled (map f addrs)),
      empty-listed o a,
    ),
  )
