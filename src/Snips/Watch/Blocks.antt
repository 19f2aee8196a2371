-- ===== src/Snips/Watch/Blocks.antt =====
-- Which blocks are proved (WatchForNewBlock in code/bee-snips-sup/pkg/snips/snips.go).
use phd.Base.{
  ℕ, ◌+◌, ◌*◌, ◌/◌, ◌%◌, ◌^◌, ◌≤◌, ◌<◌, ◌≡◌, ◌⊎◌, Option, refl, ap, ◌∙◌, sym, true, false, none,
  some, List, [], ◌∷◌, ◌++◌, map, leb, ◌==◌, Bool-cases, Option-cases, inl, inr, All, arith,
}
use native.Mathlib.Nat.{
  div-add-mod, mul-mod_right, mod-lt, mod-le, div-mul-le_self, le-div_iff_mul-le, mul-le-mul_left,
  mul-add-mod_self_right, mod-eq_of_lt,
}
use phd.Base.Result.{ok}
use phd.Snips.Watch.{
  ℤ, pos, negsuc, to_int64, Answer, proving_block, write_root, new_block, turn, watch,
}

proving_block-div : (interval cur : ℕ) → proving_block interval cur ≡ interval * (cur / interval)
unfolding proving_block
proving_block-div interval cur = omega (arith, div-add-mod cur interval)

proving_block-multiple : (interval cur : ℕ) → proving_block interval cur % interval ≡ 0
proving_block-multiple interval cur =
    ap (λ n. n % interval) (proving_block-div interval cur)
    ∙ mul-mod_right interval (cur / interval)

proving_block-near :
    (interval cur : ℕ)
    → 0 < interval
    → (proving_block interval cur ≤ cur) × (cur < proving_block interval cur + interval)
unfolding proving_block
proving_block-near interval cur h = (omega arith, omega (arith, mod-lt cur h, mod-le cur interval))

proving_block-apart :
    (interval last cur : ℕ)
    → 0 < interval
    → last + interval ≤ cur
    → proving_block interval last + interval ≤ proving_block interval cur
proving_block-apart interval last cur h far =
    let k = last / interval in
    let below : (k + 1) * interval ≤ cur = omega (arith, div-mul-le_self last interval, far) in
    let more : k + 1 ≤ cur / interval =
      (le-div_iff_mul-le {k = interval} {x = k + 1} {y = cur} h).1 below in
    let scaled : interval * (k + 1) ≤ interval * (cur / interval) = mul-le-mul_left interval more in
    omega (arith, proving_block-div interval last, proving_block-div interval cur, scaled)

to_int64-small : (n : ℕ) → n < 2 ^ 63 → to_int64 n ≡ pos n
unfolding to_int64
to_int64-small n h = ground (arith, h)

-- a chain gives a header for each number that is not negative
abbrev pub numbered : (ℕ → ℕ) → ℤ → Option ℕ
numbered root (pos n) = some (root n)
numbered root (negsuc n) = none

-- the answers of a chain, whose newest block has a number
abbrev pub at_block : (ℕ → ℕ) → ℕ → Answer
at_block root n = record { block_number = some n; header_by_number = numbered root }

module _ (interval : ℕ) where
  -- The blocks that are proved after a last block, over some answers, each with its state root.
  pub data Proves : ℕ → List Answer → List (ℕ × ℕ) → Type 0 where
    done : {last : ℕ} → Proves last [] []
    wait :
        {last : ℕ} {a : Answer} {answers : List Answer} {blocks : List (ℕ × ℕ)}
        → ((cur : ℕ) → a.block_number ≡ some cur → cur < last + interval)
        → Proves last answers blocks
        → Proves last (a ∷ answers) blocks
    -- the newest multiple of the interval
    prove :
        {last : ℕ} {a : Answer} {answers : List Answer} {blocks : List (ℕ × ℕ)} (cur block root : ℕ)
        → a.block_number ≡ some cur
        → last + interval ≤ cur
        → block % interval ≡ 0
        → block ≤ cur
        → cur < block + interval
        → a.header_by_number (pos block) ≡ some root
        → Proves cur answers blocks
        → Proves last (a ∷ answers) ((block, root) ∷ blocks)

  -- multiples of the interval, from a bound on and at least an interval apart
  abbrev pub Spaced : ℕ → List (ℕ × ℕ) → Type 0
  Spaced bound [] = Unit
  Spaced bound (b ∷ blocks) = (bound ≤ b.0) × (b.0 % interval ≡ 0) × Spaced (b.0 + interval) blocks

  -- an answer with a header for every block up to the newest, whose number leaves room for an interval
  pub record IsFit (a : Answer) : Type 0 where
    pub headers :
        (cur n : ℕ)
        → a.block_number ≡ some cur
        → n ≤ cur
        → (root : ℕ) × (a.header_by_number (pos n) ≡ some root)
    pub small : (cur : ℕ) → a.block_number ≡ some cur → cur + interval < 2 ^ 63

  turn-due :
      (a : Answer) (last cur root : ℕ)
      → 0 < interval
      → cur < 2 ^ 63
      → a.block_number ≡ some cur
      → last + interval ≤ cur
      → a.header_by_number (pos (proving_block interval cur)) ≡ some root
      → turn interval a last ≡ ok (root ∷ [], cur)
  unfolding turn new_block write_root
  turn-due a last cur root some_blocks small e far h =
      let number : to_int64 (proving_block interval cur) ≡ pos (proving_block interval cur) =
        to_int64-small (proving_block interval cur)
          (omega (arith, small, (proving_block-near interval cur some_blocks).0)) in
      let wrap : (last + interval) % 2 ^ 64 ≡ last + interval = omega (arith, small, far) in
      let some_interval : (interval == 0) ≡ false = ground (arith, some_blocks) in
      let due : leb ((last + interval) % 2 ^ 64) cur ≡ true = rw (wrap) (ground (arith, far)) in
      let step : new_block interval a last cur ≡ ok (root ∷ [], cur) =
        rw (due, some_interval, number, h) refl in
      rw (e, turn) step

  turn-early :
      (a : Answer) (last cur : ℕ)
      → last + interval < 2 ^ 64
      → a.block_number ≡ some cur
      → cur < last + interval
      → turn interval a last ≡ ok ([], last)
  unfolding turn new_block
  turn-early a last cur room e near =
      let wrap : (last + interval) % 2 ^ 64 ≡ last + interval = omega (arith, room) in
      let early : leb ((last + interval) % 2 ^ 64) cur ≡ false = rw (wrap) (ground (arith, near)) in
      let step : new_block interval a last cur ≡ ok ([], last) = rw (early) refl in
      rw (e, turn) step

  turn-cases :
      (a : Answer) (last : ℕ)
      → 0 < interval
      → last + interval < 2 ^ 64
      → IsFit a
      → ((turn interval a last ≡ ok ([], last))
          × ((cur : ℕ) → a.block_number ≡ some cur → cur < last + interval))
        ⊎ ((cur : ℕ) × (root : ℕ) × (a.block_number ≡ some cur)
            × (last + interval ≤ cur)
            × (a.header_by_number (pos (proving_block interval cur)) ≡ some root)
            × (turn interval a last ≡ ok (root ∷ [], cur)))
  unfolding turn
  turn-cases a last some_blocks room fit = elim (Option-cases a.block_number) [
    | inl e ↦ inl (rw (e, turn) refl, λ cur h. let bad : none ≡ some cur = sym e ∙ h in absurd cc)
    | inr (cur, e) ↦ elim (Bool-cases (leb (last + interval) cur)) [
      | inl due ↦
          let (root, h) =
            fit.headers cur (proving_block interval cur) e
              (proving_block-near interval cur some_blocks).0 in
          let far : last + interval ≤ cur = ground (arith, due) in
          let small = fit.small cur e in
          inr (
            cur,
            root,
            e,
            far,
            h,
            turn-due a last cur root some_blocks (omega (arith, small)) e far h,
          )
      | inr early ↦
          let near : cur < last + interval = ground (arith, early) in
          inl (
            turn-early a last cur room e near,
            λ n h.
                let both : some cur ≡ some n = sym e ∙ h in
                let same : cur ≡ n = cc both in omega (arith, near, same),
          )
    ]
  ]

  watch-Proves :
      (last : ℕ) (answers : List Answer)
      → 0 < interval
      → last + interval < 2 ^ 64
      → All IsFit answers
      → (blocks : List (ℕ × ℕ)) × (watch interval last answers ≡ ok (map (λ b. b.1) blocks))
        × Proves last answers blocks
        × Spaced (proving_block interval last + interval) blocks
  unfolding watch
  watch-Proves last [] some_blocks room fit = ([], refl, done, tt)
  watch-Proves last (a ∷ answers) some_blocks room (f, fs) =
      elim (turn-cases a last some_blocks room f) [
        | inl (t, early) ↦
            let (blocks, run, p, q) = watch-Proves last answers some_blocks room fs in
            (blocks, rw (t, run) refl, wait early p, q)
        | inr (cur, root, e, far, h, t) ↦
            let small = f.small cur e in
            let block = proving_block interval cur in
            let (below, near) = proving_block-near interval cur some_blocks in
            let whole = proving_block-multiple interval cur in
            let (blocks, run, p, q) =
              watch-Proves cur answers some_blocks (omega (arith, small)) fs in
            (
              (block, root) ∷ blocks,
              rw (t, run) refl,
              prove cur block root e far whole below near h p,
              (proving_block-apart interval last cur some_blocks far, whole, q),
            )
      ]

  -- With a positive interval, a header for every block up to the newest, block numbers that leave
  -- room for an interval below 2^63, and a last number that leaves room for one below 2^64,
  -- WatchForNewBlock writes a root at exactly the looks at which the chain's number has grown by
  -- the interval since the last such look: the state root of the newest block whose number is a
  -- multiple of the interval. These blocks are at least an interval apart, and the first is at
  -- least an interval after the newest multiple up to the last number.
  pub watch_lem :
      (last : ℕ) (answers : List Answer)
      → 0 < interval
      → last + interval < 2 ^ 64
      → All IsFit answers
      → (blocks : List (ℕ × ℕ)) × (watch interval last answers ≡ ok (map (λ b. b.1) blocks))
        × Proves last answers blocks
        × Spaced (interval * (last / interval) + interval) blocks
  watch_lem last answers some_blocks room fit =
      rw (← proving_block-div interval last) (watch-Proves last answers some_blocks room fit)

  proving_block-of :
      (k r : ℕ) → r < interval → proving_block interval (k * interval + r) ≡ k * interval
  unfolding proving_block
  proving_block-of k r h =
      let m : (k * interval + r) % interval ≡ r % interval = mul-add-mod_self_right k interval r in
      let e : r % interval ≡ r = mod-eq_of_lt h in omega (arith, m, e)

  watch-step :
      (a : Answer) (answers : List Answer) (last last' : ℕ) (roots more : List ℕ)
      → turn interval a last ≡ ok (roots, last')
      → watch interval last' answers ≡ ok more
      → watch interval last (a ∷ answers) ≡ ok (roots ++ more)
  unfolding watch
  watch-step a answers last last' roots more t w = rw (t, w) refl

  -- If the chain is looked at r blocks after a multiple k of the interval, with 0 < r < the
  -- interval and at least an interval after the last block, and these numbers are below 2^63, then
  -- exactly at the next multiple and exactly at the one after, WatchForNewBlock writes the roots of
  -- the first and the third multiple and not that of the second.
  pub watch-skips :
      (root : ℕ → ℕ) (last k r : ℕ)
      → 0 < r
      → r < interval
      → last + interval ≤ k * interval + r
      → k * interval + interval + interval < 2 ^ 63
      → watch interval last (
          at_block root (k * interval + r)
          ∷ at_block root (k * interval + interval)
          ∷ at_block root (k * interval + interval + interval)
          ∷ [])
        ≡ ok (root (k * interval) ∷ root (k * interval + interval + interval) ∷ [])
  unfolding watch
  watch-skips root last k r some_r small far room =
      let n = k * interval in
      let a1 = at_block root (n + r) in
      let a2 = at_block root (n + interval) in
      let a3 = at_block root (n + interval + interval) in
      let whole : proving_block interval (n + interval + interval) ≡ n + interval + interval =
        ap (proving_block interval) (omega arith)
        ∙ proving_block-of (k + 2) 0 (omega (arith, some_r, small))
        ∙ omega arith in
      watch-step a1 (a2 ∷ a3 ∷ []) last (n + r) (root n ∷ []) _
        (turn-due a1 last (n + r) (root n) (omega (arith, some_r, small))
          (omega (arith, small, room)) refl far
          (ap (λ m. some (root m)) (proving_block-of k r small)))
        (watch-step a2 (a3 ∷ []) (n + r) (n + r) [] _
          (turn-early a2 (n + r) (n + interval) (omega (arith, small, room)) refl
            (omega (arith, some_r)))
          (watch-step a3 [] (n + r) (n + interval + interval) (root (n + interval + interval) ∷ [])
            []
            (turn-due a3 (n + r) (n + interval + interval) (root (n + interval + interval))
              (omega (arith, some_r, small)) room refl (omega (arith, small))
              (ap (λ m. some (root m)) whole))
            refl))
