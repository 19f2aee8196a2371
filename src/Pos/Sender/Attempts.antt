-- ===== src/Pos/Sender/Attempts.antt =====
-- Which peers a request is sent to (code/bee-snips-sup/pkg/pos/sender/sender.go).
use phd.Base.{
  ℕ, zero, suc, ◌≤◌, ◌≡◌, ◌⊎◌, refl, ap, ◌∙◌, inl, inr, ◌≢◌, List, [], ◌∷◌, ◌++◌, length, In,
  In-append_left, In-append_right, arith,
}
use mathlib.Core.List.{append_assoc, append-nil}
use phd.Base.Result.{Result, ok, err}
use phd.Swarm.{Address}
use phd.Pos.Sender.{
  TopologyError, Transmission, unsent, unanswered, answered, SendError, topology, no_response,
  not_sent, attempt, send_loop, send_closest,
}

-- No address stands twice.
abbrev pub Distinct : List Address → Type 0
Distinct [] = Unit
Distinct (a ∷ rest) = ¬ In a rest × Distinct rest

module _ {R : Type 0} (closest_peer : List Address → TopologyError ⊎ Address)
    (send : Address → Transmission R) where
  -- How a call of `SendClosest` goes that skips some peers: the failed peers in order, then the end.
  pub data Attempts : ℕ → List Address → List Address → Result SendError R → Type 0 where
    no_more :
        {n : ℕ} {skip : List Address} (e : TopologyError)
        → closest_peer skip ≡ inl e
        → Attempts n skip [] (err (topology e))
    response :
        {n : ℕ} {skip : List Address} (p : Address) (r : R)
        → closest_peer skip ≡ inr p
        → send p ≡ answered r
        → Attempts n skip [] (ok r)
    silence :
        {n : ℕ} {skip : List Address} (p : Address)
        → closest_peer skip ≡ inr p
        → send p ≡ unanswered
        → Attempts n skip [] (err (no_response p))
    last_failure :
        {skip : List Address} (p : Address)
        → closest_peer skip ≡ inr p
        → send p ≡ unsent
        → Attempts 0 skip (p ∷ []) (err not_sent)
    retry :
        {n : ℕ} {skip errs : List Address} {end : Result SendError R} (p : Address)
        → closest_peer skip ≡ inr p
        → send p ≡ unsent
        → Attempts n (skip ++ p ∷ []) errs end
        → Attempts (suc n) skip (p ∷ errs) end

  search-cases :
      (s : TopologyError ⊎ Address)
      → ((e : TopologyError) × (s ≡ inl e)) ⊎ ((p : Address) × (s ≡ inr p))
  search-cases (inl e) = inl (e, refl)
  search-cases (inr p) = inr (p, refl)

  send-cases :
      (t : Transmission R) → (t ≡ unsent) ⊎ ((t ≡ unanswered) ⊎ ((r : R) × (t ≡ answered r)))
  send-cases unsent = inl refl
  send-cases unanswered = inr (inl refl)
  send-cases (answered r) = inr (inr (r, refl))

  -- what the loop returns is a run of attempts behind the errors so far
  abbrev Runs : ℕ → List Address → List Address → List Address × Result SendError R → Type 0
  Runs n skip before result =
      (errs : List Address) × (end : Result SendError R) × (result ≡ (before ++ errs, end))
      × Attempts n skip errs end

  attempt-Runs :
      (n : ℕ) (skip before : List Address) (next : Address → List Address × Result SendError R)
      → ((p : Address) → closest_peer skip ≡ inr p → send p ≡ unsent → Runs n skip before (next p))
      → Runs n skip before (attempt closest_peer send skip before next)
  unfolding attempt
  attempt-Runs n skip before next go = elim (search-cases (closest_peer skip)) [
    | inl (e, a) ↦ ([], err (topology e), rw (append-nil, a, attempt) refl, no_more e a)
    | inr (p, a) ↦ elim (send-cases (send p)) [
      | inl b ↦ rw (a, b, attempt) (go p a b)
      | inr (inl b) ↦ ([], err (no_response p), rw (append-nil, a, b, attempt) refl, silence p a b)
      | inr (inr (r, b)) ↦ ([], ok r, rw (append-nil, a, b, attempt) refl, response p r a b)
    ]
  ]

  loop-Runs :
      (n : ℕ) (skip before : List Address)
      → Runs n skip before (send_loop closest_peer send n skip before)
  unfolding send_loop
  loop-Runs zero skip before =
      attempt-Runs zero skip before (λ closest. (before ++ closest ∷ [], err not_sent))
        (λ p a b. (p ∷ [], err not_sent, refl, last_failure p a b))
  loop-Runs (suc n) skip before =
      attempt-Runs (suc n) skip before
        (λ closest. send_loop closest_peer send n (skip ++ closest ∷ []) (before ++ closest ∷ []))
        (λ p a b.
          let (errs, end, e, run) = loop-Runs n (skip ++ p ∷ []) (before ++ p ∷ []) in
          (
            p ∷ errs,
            end,
            e ∙ ap (λ l. (l, end)) (append_assoc before (p ∷ []) errs),
            retry p a b run,
          ))

  -- what a run of attempts satisfies, where the search never returns a peer to skip
  pub record IsBounded (n : ℕ) (skip errs : List Address) (end : Result SendError R) : Type 0 where
    pub distinct : Distinct errs
    pub fresh : (p : Address) → In p errs → ¬ In p skip
    pub failed : (p : Address) → In p errs → send p ≡ unsent
    pub few : length errs ≤ suc n
    pub all : end ≡ err not_sent → length errs ≡ suc n

  no_failures :
      {n : ℕ} {skip : List Address} {end : Result SendError R}
      → end ≢ err not_sent
      → IsBounded n skip [] end
  no_failures ends = record {
    distinct = tt;
    fresh = λ p h. absurd h;
    failed = λ p h. absurd h;
    few = omega arith;
    all = λ h. absurd (ends h);
  }

  bounded :
      ((skip : List Address) (p : Address) → closest_peer skip ≡ inr p → ¬ In p skip)
      → {n : ℕ} {skip errs : List Address} {end : Result SendError R} → Attempts n skip errs end
      → IsBounded n skip errs end
  bounded fresh (no_more e a) = no_failures (λ h. cc)
  bounded fresh (response p r a b) = no_failures (λ h. cc)
  bounded fresh (silence p a b) = no_failures (λ h. cc)
  bounded fresh (last_failure {skip} p a b) = record {
    distinct = (λ h. absurd h, tt);
    fresh = λ q h. elim h [ inl e ↦ rw (← e) (fresh skip p a) | inr h ↦ absurd h ];
    failed = λ q h. elim h [ inl e ↦ rw (← e) b | inr h ↦ absurd h ];
    few = omega arith;
    all = λ h. refl;
  }
  bounded fresh (retry {n} {skip} {errs} {end} p a b run) =
      let r = bounded fresh run in
      record {
        distinct = (λ h. r.fresh p h (In-append_right p skip (p ∷ []) (inl refl)), r.distinct);
        fresh = λ q h. elim h [
          | inl e ↦ rw (← e) (fresh skip p a)
          | inr h ↦ λ s. r.fresh q h (In-append_left q skip (p ∷ []) s)
        ];
        failed = λ q h. elim h [ inl e ↦ rw (← e) b | inr h ↦ r.failed q h ];
        few = omega (arith, r.few);
        all = λ h. ap suc (r.all h);
      }

  -- Where ClosestPeer never returns a peer to skip, SendClosest makes one attempt after another and
  -- ends: the peers of its errors are distinct, not among those to skip, and at most one more than
  -- the retries, each failed to take the request, and there are exactly that many if it ends with
  -- ErrNotSent.
  pub send_closest_lem :
      (n : ℕ) (skip : List Address)
      → ((skip : List Address) (p : Address) → closest_peer skip ≡ inr p → ¬ In p skip)
      → (errs : List Address) × (end : Result SendError R) × (send_closest closest_peer send n skip
          ≡ (errs, end))
        × Attempts n skip errs end
        × IsBounded n skip errs end
  unfolding send_closest
  send_closest_lem n skip fresh =
      let (errs, end, e, run) = loop-Runs n skip [] in (errs, end, e, run, bounded fresh run)
