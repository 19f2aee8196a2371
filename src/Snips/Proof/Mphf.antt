-- ===== src/Snips/Proof/Mphf.antt =====
-- `CreateMPHF` gives every chunk proof a value of its own, or fails after trying every gamma.
use phd.Base.{
  ℕ, zero, suc, ◌+◌, ◌*◌, ◌≤◌, ◌<◌, ◌≡◌, ◌⊎◌, inl, inr, refl, sym, ap, ◌∙◌, Bool, true, false,
  Option, none, some, List, [], ◌∷◌, leb, ◌==◌, ==_iff, if◌then◌else◌, length, In, arith,
  Option-cases, Bool-cases,
}
use phd.Swarm.{Address}
use phd.Snips.Proof.{
  Library, Service, Made, made, failed, nothing, update, address_or_zero, fill_values, create_loop,
  create_mphf,
}
use phd.Snips.Proof.Cache.{update_cases, update_self}

-- no number stands twice
abbrev pub Distinct : List ℕ → Type 0
Distinct [] = Unit
Distinct (x ∷ xs) = (¬ In x xs) × Distinct xs

-- What the library documents: over distinct keys the values are those from 1 to the number of keys,
-- each for one key.
pub record IsMinimalPerfect (lib : Library) : Type 0 where
  pub bounded :
      (gamma : ℕ) (keys : List ℕ) (bb : lib.BBHash)
      → lib.new_serial gamma keys ≡ some bb
      → (key : ℕ) → lib.find bb key ≤ length keys
  pub found :
      (gamma : ℕ) (keys : List ℕ) (bb : lib.BBHash)
      → lib.new_serial gamma keys ≡ some bb
      → (key : ℕ) → In key keys
      → 0 < lib.find bb key
  pub injective :
      (gamma : ℕ) (keys : List ℕ) (bb : lib.BBHash)
      → lib.new_serial gamma keys ≡ some bb
      → Distinct keys
      → (k l : ℕ) → In k keys
      → In l keys
      → lib.find bb k ≡ lib.find bb l
      → k ≡ l
  pub onto :
      (gamma : ℕ) (keys : List ℕ) (bb : lib.BBHash)
      → lib.new_serial gamma keys ≡ some bb
      → Distinct keys
      → (v : ℕ) → 0 < v
      → v ≤ length keys
      → (k : ℕ) × In k keys × (lib.find bb k ≡ v)

module _ (lib : Library) where
  module _ (bb : lib.BBHash) (ids : ℕ → Option Address) where
    -- the map that the filling loop leaves: each proof's value leads to the address of its chunk
    pub record Filled (base : List ℕ) (vals done : ℕ → Option Address) : Type 0 where
      pub kept : (v : ℕ) (a : Address) → vals v ≡ some a → done v ≡ some a
      pub entry : (cp : ℕ) → In cp base → done (lib.find bb cp) ≡ some (address_or_zero (ids cp))
      pub only :
          (v : ℕ) (a : Address)
          → done v ≡ some a
          → (vals v ≡ some a)
            ⊎ ((cp : ℕ) × In cp base × (lib.find bb cp ≡ v) × (address_or_zero (ids cp) ≡ a))

    Filled-cons :
        (cp : ℕ) (base : List ℕ) (vals done : ℕ → Option Address)
        → vals (lib.find bb cp) ≡ none
        → Filled base (update vals (lib.find bb cp) (address_or_zero (ids cp))) done
        → Filled (cp ∷ base) vals done
    Filled-cons cp base vals done free f = record {
      kept = λ v a q. f.kept v a (old v a q);
      entry = λ k i. elim i [
        | inl e ↦
            ap (λ n. done (lib.find bb n)) (sym e)
            ∙ f.kept _ _ (update_self vals _ _ _ refl)
            ∙ ap (λ n. some (address_or_zero (ids n))) e
        | inr j ↦ f.entry k j
      ];
      only = λ v a q. elim (f.only v a q) [
        | inl u ↦ elim (update_cases vals _ v _ a u) [
          | inl (here, addr) ↦ inr (cp, inl refl, here, addr)
          | inr old ↦ inl old
        ]
        | inr (k, j, e, addr) ↦ inr (k, inr j, e, addr)
      ];
    }
      where
        old :
            (v : ℕ) (a : Address)
            → vals v ≡ some a
            → update vals (lib.find bb cp) (address_or_zero (ids cp)) v ≡ some a
        old v a q = elim (Bool-cases (lib.find bb cp == v)) [
          | inl e ↦ cc (q, free, ap vals ((==_iff (lib.find bb cp) v).0 e))
          | inr e ↦ rw e q
        ]

    -- no key's value is taken
    abbrev Free : List ℕ → (ℕ → Option Address) → Type 0
    Free base vals = (cp : ℕ) → In cp base → vals (lib.find bb cp) ≡ none

    fill_values-Filled :
        (base : List ℕ) (vals : ℕ → Option Address)
        → Distinct base
        → ((k l : ℕ) → In k base → In l base → lib.find bb k ≡ lib.find bb l → k ≡ l)
        → Free base vals
        → (done : ℕ → Option Address) × (fill_values lib bb ids base vals ≡ (false, done))
          × Filled base vals done
    unfolding fill_values
    fill_values-Filled [] vals d inj free =
        (vals, refl, record { kept = λ v a q. q; entry = λ k i. absurd i; only = λ v a q. inl q })
    fill_values-Filled (cp ∷ base) vals d inj free =
        let here = free cp (inl refl) in
        let (done, run, f) =
          fill_values-Filled base (update vals (lib.find bb cp) (address_or_zero (ids cp))) d.1
            (λ k l i j. inj k l (inr i) (inr j)) (λ k i. still k i) in
        (done, rw (here, fill_values) run, Filled-cons cp base vals done here f)
      where
        still :
            (k : ℕ)
            → In k base
            → update vals (lib.find bb cp) (address_or_zero (ids cp)) (lib.find bb k) ≡ none
        still k i = elim (Bool-cases (lib.find bb cp == lib.find bb k)) [
          | inl e ↦
              let same : cp ≡ k =
                inj cp k (inl refl) (inr i) ((==_iff (lib.find bb cp) (lib.find bb k)).0 e) in
              absurd (d.0 (rw same i))
          | inr e ↦ rw e (free k (inr i))
        ]

    fill_values_fresh :
        (base : List ℕ)
        → Distinct base
        → ((k l : ℕ) → In k base → In l base → lib.find bb k ≡ lib.find bb l → k ≡ l)
        → ((fill_values lib bb ids base (λ v. none)).0 ≡ false)
          × Filled base (λ v. none) (fill_values lib bb ids base (λ v. none)).1
    fill_values_fresh base d inj = pack (fill_values-Filled base (λ v. none) d inj (λ k i. refl))
      where
        pack :
            {r : Bool × (ℕ → Option Address)}
            → ((done : ℕ → Option Address) × (r ≡ (false, done)) × Filled base (λ v. none) done)
            → (r.0 ≡ false) × Filled base (λ v. none) r.1
        pack (done, run, f) = rw run (refl, f)

  module _ (base : List ℕ) (ids : ℕ → Option Address) (nonce max_gamma : ℕ) where
    -- a hash was built at a gamma from `lo` to the maximum, and the new map is stored for the nonce
    pub record Succeeds (lo : ℕ) (s : Service) (r : Made lib.BBHash × Service) : Type 0 where
      pub bb : lib.BBHash
      pub gamma : ℕ
      pub vals : ℕ → Option Address
      pub low : lo ≤ gamma
      pub high : gamma ≤ max_gamma
      pub built : lib.new_serial gamma base ≡ some bb
      pub result :
          r ≡ (made bb, record s { map_val_to_chunk_id = update s.map_val_to_chunk_id nonce vals })
      pub filled : Filled bb ids base (λ v. none) vals

    -- every gamma in steps of one from `lo` to the maximum failed, and no map changed
    pub record Fails (lo : ℕ) (last : Made lib.BBHash) (s : Service) (r : Made lib.BBHash × Service)
        : Type 0 where
      pub tried : (j : ℕ) → lo + 2 * j ≤ max_gamma → lib.new_serial (lo + 2 * j) base ≡ none
      pub result : r ≡ (if leb lo max_gamma then failed else last, s)

    abbrev pub Outcome : ℕ → Made lib.BBHash → Service → Made lib.BBHash × Service → Type 0
    Outcome lo last s r = Succeeds lo s r ⊎ Fails lo last s r

    try_next :
        (lo : ℕ) (last : Made lib.BBHash) (s : Service) (r : Made lib.BBHash × Service)
        → leb lo max_gamma ≡ true
        → lib.new_serial lo base ≡ none
        → Outcome (lo + 2) failed s r
        → Outcome lo last s r
    try_next lo last s r h e (inl c) = inl (record {
      bb = c.bb;
      gamma = c.gamma;
      vals = c.vals;
      low = omega (arith, c.low);
      high = c.high;
      built = c.built;
      result = c.result;
      filled = c.filled;
    })
    try_next lo last s r h e (inr f) = inr (record {
      tried = tried;
      result = rw h (f.result ∙ ap (λ t. (t, s)) (either (leb (lo + 2) max_gamma)));
    })
      where
        either : (b : Bool) → ◌≡◌ {A = Made lib.BBHash} (if b then failed else failed) failed
        either true = refl
        either false = refl

        tried : (j : ℕ) → lo + 2 * j ≤ max_gamma → lib.new_serial (lo + 2 * j) base ≡ none
        tried zero le = ap (λ g. lib.new_serial g base) (omega arith) ∙ e
        tried (suc j) le = ap (λ g. lib.new_serial g base) (omega arith) ∙ f.tried j (omega arith)

    create_loop-Outcome :
        Distinct base
        → IsMinimalPerfect lib
        → (fuel lo : ℕ) (last : Made lib.BBHash) (s : Service) → max_gamma + 2 ≤ fuel + lo
        → 0 < fuel
        → Outcome lo last s (create_loop lib base ids nonce max_gamma fuel false lo last s)
    unfolding create_loop
    create_loop-Outcome d law zero lo last s enough pos = absurd (omega arith)
    create_loop-Outcome d law (suc fuel) lo last s enough pos =
        elim (Bool-cases (leb lo max_gamma)) [
          | inr stop ↦
              rw (stop, create_loop)
                (inr (record { tried = λ j le. absurd (ground arith); result = rw stop }))
          | inl go ↦ elim (Option-cases (lib.new_serial lo base)) [
            | inl none_built ↦
                rw (go, none_built, create_loop)
                  (try_next lo last s _ go none_built
                    (create_loop-Outcome d law fuel (lo + 2) failed s (omega arith) (ground arith)))
            | inr (bb, built) ↦
                let (fine, f) =
                  fill_values_fresh bb ids base d (law.injective lo base bb built d) in
                rw (go, built, create_loop)
                  (rw (fine, create_loop)
                    (inl (record {
                      bb = bb;
                      gamma = lo;
                      vals = (fill_values lib bb ids base (λ v. none)).1;
                      low = omega arith;
                      high = ground arith;
                      built = built;
                      result = refl;
                      filled = f;
                    })))
          ]
        ]

  -- Over distinct chunk proofs, a minimal perfect hash library and fuel past the number of halves
  -- from the least gamma to the greatest, CreateMPHF either returns a hash built at a gamma in that
  -- range and stores for the nonce the map that takes each proof's value, and no other, to the
  -- address of its chunk; or construction failed at every gamma in steps of one, no hash is
  -- returned, and no map has changed.
  pub create_mphf_lem :
      (base : List ℕ) (ids : ℕ → Option Address) (nonce min_gamma max_gamma fuel : ℕ) (s : Service)
      → Distinct base
      → IsMinimalPerfect lib
      → 0 < fuel
      → max_gamma + 2 ≤ fuel + min_gamma
      → Outcome base ids nonce max_gamma min_gamma nothing s
          (create_mphf lib fuel min_gamma max_gamma base ids nonce s)
  unfolding create_mphf
  create_mphf_lem base ids nonce min_gamma max_gamma fuel s d law pos enough =
      create_loop-Outcome base ids nonce max_gamma d law fuel min_gamma nothing s enough pos
