-- ===== src/Intervals.antt =====
-- The store of synchronised ranges (code/bee-snips-sup/pkg/intervalstore/intervals.go).
-- Bounds are uint64 values; an index that the code starts at -1 is an `Option`.
pub mod Merge
pub mod Splice
pub mod Add
pub mod Gap
use phd.Base.{
  ℕ, zero, suc, ◌+◌, ◌-◌, ◌%◌, ◌^◌, Bool, true, false, ◌&&◌, ◌||◌, not, Option, none, some, List,
  [], ◌∷◌, ◌++◌, ltb, leb, ◌==◌, if◌then◌else◌, length, take, drop,
}

-- [start, end], both included
abbrev pub Range : Type 0
Range = ℕ × ℕ

pub record Intervals : Type 0 where
  pub start : ℕ
  pub ranges : List Range

unfoldable pub new_intervals : ℕ → Intervals
new_intervals start = record { start = start; ranges = [] }

abbrev pub max_uint64 : ℕ
max_uint64 = 2 ^ 64 - 1

-- x + 1 as a uint64
abbrev pub inc64 : ℕ → ℕ
inc64 x = (x + 1) % 2 ^ 64

-- The variables of the loop in `add`.
pub record Scan : Type 0 where
  pub j : ℕ
  pub start : ℕ
  pub end : ℕ
  pub min_start_j : Option ℕ
  pub max_end_j : Option ℕ

abbrev pub is_none : {A : Type 0} → Option A → Bool
is_none none = true
is_none (some _) = false

-- the first `if` of the loop's body
unfoldable pub scan_start : ℕ → Range → Scan → Scan
scan_start end_check (lo, hi) v =
    if is_none v.min_start_j
      && ((leb v.start lo && leb lo end_check) || (leb v.start (inc64 hi) && leb hi end_check))
    then record v { start = if ltb lo v.start then lo else v.start; min_start_j = some v.j }
    else v

-- the second
unfoldable pub scan_end : ℕ → Range → Scan → Scan
scan_end end_check (lo, hi) v =
    if (leb v.start hi && leb hi end_check) || (leb v.start lo && leb lo end_check)
    then record v { end = if ltb v.end hi then hi else v.end; max_end_j = some v.j }
    else v

-- the loop over the ranges from index j on
unfoldable pub scan : ℕ → List Range → Scan → Scan
unfolding scan_start scan_end
scan end_check [] v = v
scan end_check (r ∷ rs) v =
    let v' = scan_end end_check r (scan_start end_check r v) in
    let rest = scan end_check rs (record v' { j = v'.j + 1 }) in
    if leb (inc64 v'.end) r.0 then v' else rest

-- `ranges[k][0] = x` and `ranges[k][1] = x`
unfoldable pub set_start : List Range → ℕ → ℕ → List Range
set_start [] k x = []
set_start ((lo, hi) ∷ rs) zero x = (x, hi) ∷ rs
set_start (r ∷ rs) (suc k) x = r ∷ set_start rs k x

unfoldable pub set_end : List Range → ℕ → ℕ → List Range
set_end [] k x = []
set_end ((lo, hi) ∷ rs) zero x = (lo, x) ∷ rs
set_end (r ∷ rs) (suc k) x = r ∷ set_end rs k x

abbrev pub at_start : Option ℕ → ℕ → List Range → List Range
at_start none x rs = rs
at_start (some k) x rs = set_start rs k x

abbrev pub at_end : Option ℕ → ℕ → List Range → List Range
at_end none x rs = rs
at_end (some k) x rs = set_end rs k x

-- the last `if`: the ranges between the two indices are cut out
abbrev pub cut : Option ℕ → Option ℕ → ℕ → List Range → List Range
cut (some m) (some k) x rs =
    if not (m == k) then (let rs' = set_start rs k x in take m rs' ++ drop k rs') else rs
cut _ _ x rs = rs

-- what `add` does after the loop
unfoldable pub splice : List Range → Scan → List Range
unfolding set_start set_end
splice rs v =
    if is_none v.min_start_j && is_none v.max_end_j
    then take v.j rs ++ ((v.start, v.end) ∷ drop v.j rs)
    else cut v.min_start_j v.max_end_j v.start
        (at_end v.max_end_j v.end (at_start v.min_start_j v.start rs))

-- `add`
unfoldable pub add : ℕ → ℕ → Intervals → Intervals
unfolding scan splice
add start end i =
    let start' = if ltb start i.start then i.start else start in
    let end_check = if end == max_uint64 then end else inc64 end in
    let v : Scan = record {
      j = 0;
      start = start';
      end = end;
      min_start_j = none;
      max_end_j = none;
    } in
    if ltb end i.start then i else record i { ranges = splice i.ranges (scan end_check i.ranges v) }

-- `Merge`
unfoldable pub merge : List Range → Intervals → Intervals
unfolding add
merge [] i = i
merge ((lo, hi) ∷ rs) i = merge rs (add lo hi i)

-- x - 1 as a uint64
abbrev pub dec64 : ℕ → ℕ
dec64 x = (x + max_uint64) % 2 ^ 64

-- `i.ranges[1][0] - 1`, or 0 where there is no second range
abbrev pub before_next : List Range → ℕ
before_next [] = 0
before_next ((lo, hi) ∷ _) = dec64 lo

-- the returns of `Next`, before its deferred function
unfoldable pub next_gap : ℕ → List Range → ℕ × ℕ
next_gap start [] = (start, 0)
next_gap start ((lo, hi) ∷ rs) =
    if not (lo == start) then (start, dec64 lo) else (inc64 hi, before_next rs)

-- the deferred function, which applies the ceiling
unfoldable pub at_ceiling : ℕ → ℕ × ℕ → ℕ × ℕ × Bool
at_ceiling ceiling (start, end) =
    let hit_start = ltb ceiling start in
    let hit_end = (end == 0) || ltb ceiling end in
    if ltb 0 ceiling
    then (
      if hit_start then ceiling else start,
      if hit_end then ceiling else end,
      hit_start && hit_end,
    )
    else (start, end, false)

-- `Next`
unfoldable pub next : ℕ → Intervals → ℕ × ℕ × Bool
unfolding next_gap at_ceiling
next ceiling i = at_ceiling ceiling (next_gap i.start i.ranges)

-- `Last`
unfoldable pub last : List Range → ℕ
last [] = 0
last ((lo, hi) ∷ []) = hi
last (r ∷ rs) = last rs
