-- ===== src/SkipPeers/Kept.antt =====
-- What a skip list leaves out (code/bee-snips-sup/pkg/skippeers/skip_peers.go).
use phd.Base.{
  ◌≡◌, refl, sym, ◌∙◌, inl, inr, Bool, true, false, List, [], ◌∷◌, ◌++◌, if◌then◌else◌, arith,
  Bool-cases,
}
use phd.Swarm.{Address, equal, equal_iff, member_of}
use phd.PSlice.Bins.{holds, Unique, Unique-concat, equal_symm}
use phd.SkipPeers.{
  SkipList, skip, take_out, skip_overdraft, reset_overdraft, Call, adds_to_list, adds_to_overdraft,
  resets, call,
}

member_of-holds : (a : Address) (addrs : List Address) → member_of a addrs ≡ holds a addrs
unfolding member_of holds
member_of-holds a [] = refl
member_of-holds a (v ∷ addrs) = ground (arith, member_of-holds a addrs)

holds-snoc :
    (a b : Address) (addrs : List Address)
    → holds b (addrs ++ a ∷ []) ≡ (if equal a b then true else holds b addrs)
unfolding holds
holds-snoc a b [] = refl
holds-snoc a b (v ∷ addrs) = ground (arith, holds-snoc a b addrs)

holds-take_out :
    (a b : Address) (addrs : List Address)
    → Unique addrs
    → holds b (take_out a addrs) ≡ (if equal a b then false else holds b addrs)
unfolding holds take_out
holds-take_out a b [] u = ground arith
holds-take_out a b (v ∷ addrs) u =
    ground (arith, u.0, holds-take_out a b addrs u.1, equal_iff v a, equal_iff v b, equal_iff a b)

Unique-take_out : (a : Address) (addrs : List Address) → Unique addrs → Unique (take_out a addrs)
unfolding take_out
Unique-take_out a [] u = tt
Unique-take_out a (v ∷ addrs) u = elim (Bool-cases (equal v a)) [
  | inl e ↦ rw (e) u.1
  | inr e ↦ rw (e) (
    holds-take_out a v addrs u.1 ∙ ground (arith, u.0, e, equal_symm v a),
    Unique-take_out a addrs u.1,
  )
]

-- Each list names an address once.
pub record IsSkipList (s : SkipList) : Type 0 where
  pub once : Unique s.addresses
  pub once_overdraft : Unique s.overdraft_addresses

-- whether an address is skipped for good after a call
unfoldable pub for_good : Call → SkipList → Address → Bool
for_good (adds_to_list a) s b = if equal a b then true else holds b s.addresses
for_good (adds_to_overdraft a) s b =
    if holds a s.overdraft_addresses
    then holds b s.addresses
    else if equal a b
    then false
    else holds b s.addresses
for_good resets s b = holds b s.addresses

-- whether an address is skipped until the overdraft is reset, after a call
unfoldable pub for_now : Call → SkipList → Address → Bool
for_now (adds_to_list a) s b = holds b s.overdraft_addresses
for_now (adds_to_overdraft a) s b = if equal a b then true else holds b s.overdraft_addresses
for_now resets s b = false

-- What a call leaves.
pub record IsKept (c : Call) (s s' : SkipList) : Type 0 where
  pub well_formed : IsSkipList s'
  pub good : (b : Address) → holds b s'.addresses ≡ for_good c s b
  pub now : (b : Address) → holds b s'.overdraft_addresses ≡ for_now c s b

holds-there :
    (a b : Address) (addrs : List Address)
    → holds a addrs ≡ true
    → holds b addrs ≡ (if equal a b then true else holds b addrs)
holds-there a b addrs h = elim (Bool-cases (equal a b)) [
  | inl e ↦ let same : a ≡ b = (equal_iff a b).0 e in rw (e) (rw (same) at h)
  | inr e ↦ rw (e) refl
]

-- Where each of the two lists of a skip list names an address once, Add, AddOverdraft and
-- ResetOverdraft leave lists that do so too. Add puts exactly the address among those that are
-- skipped for good; AddOverdraft, of an address that is not in the overdraft, moves exactly it
-- there, away from those skipped for good, and does nothing to an address that is there;
-- ResetOverdraft empties the overdraft and nothing else.
pub call_lem : (c : Call) (s : SkipList) → IsSkipList s → IsKept c s (call c s)
unfolding call skip skip_overdraft reset_overdraft for_good for_now
call_lem (adds_to_list a) s w = elim (Bool-cases (member_of a s.addresses)) [
  | inl m ↦ rw (m) (record {
    well_formed = w;
    good = λ b. holds-there a b s.addresses (sym (member_of-holds a s.addresses) ∙ m);
    now = λ b. refl;
  })
  | inr m ↦ rw (m) (record {
    well_formed = record {
      once = Unique-concat a s.addresses w.once (sym (member_of-holds a s.addresses) ∙ m);
      once_overdraft = w.once_overdraft;
    };
    good = λ b. holds-snoc a b s.addresses;
    now = λ b. refl;
  })
]
call_lem (adds_to_overdraft a) s w = elim (Bool-cases (member_of a s.overdraft_addresses)) [
  | inl m ↦
      let h : holds a s.overdraft_addresses ≡ true =
        sym (member_of-holds a s.overdraft_addresses) ∙ m in
      rw (m) (record {
        well_formed = w;
        good = λ b. rw (h) refl;
        now = λ b. holds-there a b s.overdraft_addresses h;
      })
  | inr m ↦
      let h : holds a s.overdraft_addresses ≡ false =
        sym (member_of-holds a s.overdraft_addresses) ∙ m in
      rw (m) (record {
        well_formed = record {
          once = Unique-take_out a s.addresses w.once;
          once_overdraft = Unique-concat a s.overdraft_addresses w.once_overdraft h;
        };
        good = λ b. rw (h) (holds-take_out a b s.addresses w.once);
        now = λ b. holds-snoc a b s.overdraft_addresses;
      })
]
call_lem resets s w = record {
  well_formed = record { once = w.once; once_overdraft = tt };
  good = λ b. refl;
  now = λ b. unfold holds in refl;
}
