-- ===== src/Kademlia/Closest/Best.antt =====
-- No eligible peer is closer than the choice (ClosestPeer in
-- code/bee-snips-sup/pkg/topology/kademlia/kademlia.go).
use phd.Base.{
  ◌≡◌, ◌⊎◌, refl, ◌∙◌, inl, inr, Bool, true, false, ◌&&◌, List, [], ◌∷◌, In, All, length, ◌==◌,
  arith, Bool-cases,
}
use mathlib.Core.Path.{subst}
use phd.Swarm.{Address, equal, equal_iff, member_of}
use phd.Swarm.Distance.{is_closer}
use phd.Swarm.Distance.Order.{is_closer_asym, is_closer_trans, is_closer_self}
use phd.PSlice.{total}
use phd.Pos.Sender.{TopologyError, want_self, no_peer}
use phd.Kademlia.{Kad, is_zero, chosen, initial, closest_peer}
use phd.Kademlia.Closest.{
  peers_of, visited, nearer, closest_peer-visited, IsEligible, Stands, visited-Stands,
}

module _ (k : Kad) (addr : Address) (reachable : Bool) (skip : List Address) where
  -- addresses that can be compared
  abbrev pub IsComparable : Address → Type 0
  IsComparable a = length addr ≡ length a

  -- no eligible peer is closer than the choice, and neither is where it started
  pub record IsBest (start : Address) (peers : List Address) (r : Address) : Type 0 where
    pub comparable : is_zero r ≡ false → IsComparable r
    pub beats_start : is_zero start ≡ false → (is_zero r ≡ false) × (is_closer start addr r ≡ false)
    pub beats :
        (p : Address)
        → In p peers
        → (reachable && k.peer_filter p) ≡ false
        → member_of p skip ≡ false
        → (is_zero r ≡ false) × (is_closer p addr r ≡ false)

  nearer-IsBest :
      (start p : Address)
      → (is_zero start ≡ false → IsComparable start)
      → IsComparable p
      → is_zero p ≡ false
      → IsBest start (p ∷ []) (nearer k addr reachable skip start p)
  unfolding nearer
  nearer-IsBest start p c d nz = elim (Bool-cases (reachable && k.peer_filter p)) [
    | inl f ↦ rw (f) (record {
      comparable = c;
      beats_start = λ z. (z, is_closer_self addr start (c z));
      beats = λ q i g m. elim i [
        | inl e ↦ absurd (let x : (reachable && k.peer_filter p) ≡ false = rw (e) g in cc)
        | inr x ↦ absurd x
      ];
    })
    | inr f ↦ elim (Bool-cases (member_of p skip)) [
      | inl m ↦
          rw (f, m)
            (record {
              comparable = c;
              beats_start = λ z. (z, is_closer_self addr start (c z));
              beats = λ q i g m'. elim i [
                | inl e ↦ absurd (let x : member_of p skip ≡ false = rw (e) m' in cc)
                | inr x ↦ absurd x
              ];
            })
      | inr m ↦ elim (Bool-cases (is_zero start)) [
        | inl z ↦
            rw (f, m, z)
              (record {
                comparable = λ z. d;
                beats_start = λ y. absurd cc;
                beats = λ q i g m. elim i [
                  | inl e ↦ rw (← e) (nz, is_closer_self addr p d)
                  | inr x ↦ absurd x
                ];
              })
        | inr z ↦ elim (Bool-cases (is_closer p addr start)) [
          | inl n ↦
              rw (f, m, z, n)
                (record {
                  comparable = λ z. d;
                  beats_start = λ y. (nz, is_closer_asym addr p start d (c z) n);
                  beats = λ q i g m. elim i [
                    | inl e ↦ rw (← e) (nz, is_closer_self addr p d)
                    | inr x ↦ absurd x
                  ];
                })
          | inr n ↦
              rw (f, m, z, n)
                (record {
                  comparable = c;
                  beats_start = λ z. (z, is_closer_self addr start (c z));
                  beats = λ q i g m. elim i [ inl e ↦ (z, rw (← e) n) | inr x ↦ absurd x ];
                })
        ]
      ]
    ]
  ]

  pub visited-IsBest :
      (start : Address) (peers : List Address)
      → (is_zero start ≡ false → IsComparable start)
      → All (λ p. IsComparable p × (is_zero p ≡ false)) peers
      → IsBest start peers (visited (nearer k addr reachable skip) peers start)
  unfolding visited
  visited-IsBest start [] c all = record {
    comparable = c;
    beats_start = λ z. (z, is_closer_self addr start (c z));
    beats = λ q i g m. absurd i;
  }
  visited-IsBest start (p ∷ peers) c ((d, nz), all) =
      let one = nearer-IsBest start p c d nz in
      let rest = visited-IsBest (nearer k addr reachable skip start p) peers one.comparable all in
      let r = visited (nearer k addr reachable skip) peers (nearer k addr reachable skip start p) in
      record {
        comparable = rest.comparable;
        beats_start = λ z.
            let (z', w) = one.beats_start z in
            let (z'', w') = rest.beats_start z' in
            (
              z'',
              is_closer_trans addr start (nearer k addr reachable skip start p) r (c z)
                  (one.comparable z') (rest.comparable z'') w w',
            );
        beats = λ q i g m. elim i [
          | inr j ↦ rest.beats q j g m
          | inl e ↦
              let (z', w) = one.beats q (inl e) g m in
              let (z'', w') = rest.beats_start z' in
              let q_ok : IsComparable q = rw (← e) d in
              (
                z'',
                is_closer_trans addr q (nearer k addr reachable skip start p) r q_ok
                    (one.comparable z') (rest.comparable z'') w w',
              )
        ];
      }

  -- The choice is an eligible peer, none is closer, and neither is the node if it takes part.
  pub record IsClosest (include_self : Bool) (p : Address) : Type 0 where
    pub eligible : IsEligible k addr reachable skip p
    pub best : (q : Address) → IsEligible k addr reachable skip q → is_closer q addr p ≡ false
    pub beats_self :
        (include_self && k.reachability_public) ≡ true → is_closer k.base addr p ≡ false

  pub data IsChoice (include_self : Bool) : TopologyError ⊎ Address → Type 0 where
    chose : {p : Address} → IsClosest include_self p → IsChoice include_self (inr p)
    -- the node takes part or is its own peer, and no eligible peer is closer
    wants_self :
        ((include_self && k.reachability_public) ≡ true) ⊎ IsEligible k addr reachable skip k.base
        → ((q : Address) → IsEligible k addr reachable skip q → is_closer q addr k.base ≡ false)
        → IsChoice include_self (inl want_self)
    -- no peer is connected, or the node does not take part and no peer is eligible
    found_none :
        (total k.connected_peers.peers ≡ 0)
          ⊎ (((include_self && k.reachability_public) ≡ false)
              × ((q : Address) → ¬ IsEligible k addr reachable skip q))
        → IsChoice include_self (inl no_peer)

  Stands-IsEligible :
      (start r : Address)
      → Stands k addr reachable skip start (peers_of k.connected_peers.peers) r
      → ¬ (r ≡ start)
      → IsEligible k addr reachable skip r
  Stands-IsEligible start r (inl e) other = absurd (other e)
  Stands-IsEligible start r (inr (i, f, m)) other = record {
    connected = i;
    reached = f;
    not_skipped = m;
  }

  initial-IsComparable :
      (include_self : Bool)
      → IsComparable k.base
      → is_zero (initial k include_self) ≡ false
      → IsComparable (initial k include_self)
  unfolding initial is_zero
  initial-IsComparable include_self d h =
      elim (Bool-cases (include_self && k.reachability_public)) [
        | inl s ↦ rw (s, initial) d
        | inr s ↦
            let x : is_zero [] ≡ false = rw (s, initial) at h in
            let y : is_zero [] ≡ true = (equal_iff [] []).1 refl in absurd cc
      ]

  chosen-IsChoice :
      (include_self : Bool) (r : Address)
      → is_zero k.base ≡ false
      → Stands k addr reachable skip (initial k include_self) (peers_of k.connected_peers.peers) r
      → IsBest (initial k include_self) (peers_of k.connected_peers.peers) r
      → IsChoice include_self (chosen k r)
  unfolding chosen initial
  chosen-IsChoice include_self r based stands best =
      let beaten : (q : Address)
          → IsEligible k addr reachable skip q
          → (is_zero r ≡ false) × (is_closer q addr r ≡ false) =
        λ q e. best.beats q e.connected e.reached e.not_skipped in
      elim (Bool-cases (include_self && k.reachability_public)) [
        | inl self ↦
            let st : initial k include_self ≡ k.base = rw (self, initial) refl in
            let bs : is_zero k.base ≡ false
                → (is_zero r ≡ false) × (is_closer k.base addr r ≡ false) =
              rw (st) at best.beats_start in
            let (nz, w) = bs based in
            elim (Bool-cases (equal r k.base)) [
              | inl e ↦
                  let same : r ≡ k.base = (equal_iff r k.base).0 e in
                  rw (nz, e, chosen)
                    (wants_self (inl self)
                      (λ q el. subst (λ z. is_closer q addr z ≡ false) same (beaten q el).1))
              | inr e ↦
                  rw (nz, e, chosen)
                    (chose (record {
                      eligible = Stands-IsEligible (initial k include_self) r stands (λ s.
                          let back : equal r k.base ≡ true = (equal_iff r k.base).1 (s ∙ st) in
                          absurd cc);
                      best = λ q el. (beaten q el).1;
                      beats_self = λ x. w;
                    }))
            ]
        | inr no_self ↦
            let st : initial k include_self ≡ [] = rw (no_self, initial) refl in
            elim (Bool-cases (is_zero r)) [
              | inl z ↦
                  rw (z, chosen)
                    (found_none (inr (no_self, λ q el. let nz = (beaten q el).0 in absurd cc)))
              | inr nz ↦
                  let el =
                    Stands-IsEligible (initial k include_self) r stands (λ s.
                      let back : is_zero r ≡ true = (equal_iff r []).1 (s ∙ st) in absurd cc) in
                  elim (Bool-cases (equal r k.base)) [
                    | inl e ↦
                        let same : r ≡ k.base = (equal_iff r k.base).0 e in
                        rw (nz, e, chosen)
                          (wants_self (inr (subst (IsEligible k addr reachable skip) same el))
                            (λ q el'.
                              subst (λ z. is_closer q addr z ≡ false) same (beaten q el').1))
                    | inr e ↦
                        rw (nz, e, chosen)
                          (chose (record {
                            eligible = el;
                            best = λ q el'. (beaten q el').1;
                            beats_self = λ x. absurd cc;
                          }))
                  ]
            ]
      ]

  -- Where the node and every connected peer have addresses that are not empty and are as long as
  -- the wanted address, ClosestPeer returns a connected peer that is reachable if only reachable
  -- ones are asked for, is not to be skipped, and has no such peer closer to the address, nor the
  -- node if it takes part; or it says that the node itself is wanted, and then no such peer is
  -- closer than the node; or that none is found, and then no peer is connected, or the node does
  -- not take part and there is no such peer.
  pub closest_peer_lem :
      (include_self : Bool)
      → IsComparable k.base
      → is_zero k.base ≡ false
      → All (λ p. IsComparable p × (is_zero p ≡ false)) (peers_of k.connected_peers.peers)
      → IsChoice include_self (closest_peer k addr include_self reachable skip)
  closest_peer_lem include_self d nz all =
      rw (closest_peer-visited k addr reachable skip include_self)
        (elim (Bool-cases (total k.connected_peers.peers == 0)) [
          | inl z ↦ rw (z) (found_none (inl (ground (arith, z))))
          | inr z ↦ rw (z) (
              chosen-IsChoice include_self _ nz
                (visited-Stands k addr reachable skip (initial k include_self)
                  (peers_of k.connected_peers.peers))
                (visited-IsBest (initial k include_self) (peers_of k.connected_peers.peers)
                  (initial-IsComparable include_self d) all))
        ])
