-- ===== src/MinerCache.antt =====
-- filscaner/fs_miner_cache.go: for some miners, their states in the last hours or days, one slot of a
-- row for each period, the newest first. A method runs under the mutex; a call is one step. A nil
-- pointer is `none`. Powers are not negative, times are below 2^63, so that they do not change as int64,
-- and the cache is used with a positive size and period (init_miners_caches gives it 24 and 30 slots).
pub mod Update
pub mod Rows
pub mod Table
pub mod Invariant
pub mod Placing
pub mod Setting
pub mod Aged
pub mod Buckets
pub mod Step
pub mod Start
pub mod Lowest
pub mod Stamps
pub mod History
use filscan_backend.Prelude.{
  ℕ, zero, suc, ◌+◌, ◌-◌, ◌*◌, ◌/◌, ◌%◌, Bool, true, false, ◌||◌, ◌&&◌, not, String, Option, none,
  some, List, [], ◌∷◌, map, length, get_elem?, ltb, leb, ◌==◌, nat_eq, string_eq, if◌then◌else◌,
  Result, ok, fail, nil_dereference, out_of_range, ◌>>=◌,
}

-- The fields of `models.MinerStateAtTipset` that are read.
pub record MinerState : Type 0 where
  pub miner_addr : String
  pub power : ℕ
  pub total_power : ℕ
  pub mine_time : ℕ

abbrev pub Row : Type 0
Row = List (Option MinerState)

-- The map `miners`, with each address once.
abbrev pub Miners : Type 0
Miners = List (String × Row)

pub record FsMinerCache : Type 0 where
  pub miners : Miners
  pub max_cached_size : ℕ
  pub max_miner_count : ℕ
  pub min : String
  pub max : String
  pub time_duration : ℕ
  pub start_time : ℕ

abbrev pub init : ℕ → ℕ → ℕ → ℕ → FsMinerCache
init time_duration start_time miner_count cache_size = record {
  miners = [];
  max_cached_size = cache_size;
  max_miner_count = miner_count;
  min = "";
  max = "";
  time_duration = time_duration;
  start_time = start_time;
}

unfoldable pub next_refresh_time : FsMinerCache → ℕ
next_refresh_time this = this.start_time + this.max_cached_size * this.time_duration

-- The slot of a time, and whether the time is past the last period.
unfoldable pub time_to_index : FsMinerCache → ℕ → ℕ × Bool
time_to_index this time =
    if leb time this.start_time
    then (this.max_cached_size - 1, false)
    else if ltb (this.start_time + (this.max_cached_size - 1) * this.time_duration) time
    then (0, true)
    else (
      this.max_cached_size
          - 1
          - (time - this.start_time + (this.time_duration - 1)) / this.time_duration,
      false,
    )

-- Go's map operations.
unfoldable pub lookup : String → Miners → Option Row
lookup k [] = none
lookup k ((j, row) ∷ m) = if j == k then some row else lookup k m

pub store : String → Row → Miners → Miners
store k row [] = (k, row) ∷ []
store k row ((j, old) ∷ m) = if j == k then (k, row) ∷ m else (j, old) ∷ store k row m

pub delete : String → Miners → Miners
delete k [] = []
delete k ((j, row) ∷ m) = if j == k then m else (j, row) ∷ delete k m

-- `arr[i]` and `arr[i] = v`; out of range, Go panics.
abbrev pub slot : Option (Option MinerState) → Result (Option MinerState)
slot none = fail out_of_range
slot (some v) = ok v

abbrev pub read : Row → ℕ → Result (Option MinerState)
read arr i = slot (get_elem? arr i)

pub set : Row → ℕ → Option MinerState → Row
set [] i v = []
set (x ∷ arr) zero v = v ∷ arr
set (x ∷ arr) (suc i) v = x ∷ set arr i v

abbrev pub write : Row → ℕ → Option MinerState → Result Row
write arr i v = if ltb i (length arr) then ok (set arr i v) else fail out_of_range

-- `arr[i] == nil || arr[i].MineTime < inv.MineTime`.
abbrev pub is_older : Option MinerState → MinerState → Bool
is_older none inv = true
is_older (some s) inv = ltb s.mine_time inv.mine_time

-- The loops of `set_miners_at_index`, with the rounds that are left: the newer slots of a row that
-- exists, until one is not older than `inv`; the newer slots of a new row; and, from `i` up, the older
-- slots of a row that is taken over.
pub fill_newer : ℕ → MinerState → Row → Result Row
fill_newer zero inv arr = ok arr
fill_newer (suc i) inv arr = do
  cur ← read arr i
  if not (is_older cur inv)
      then ok arr
      else (do arr' ← write arr i (some inv); fill_newer i inv arr')

pub copy_newer : ℕ → Row → Result Row
copy_newer zero arr = ok arr
copy_newer (suc i) arr = do cur ← read arr (suc i); arr' ← write arr i cur; copy_newer i arr'

pub clear_older : ℕ → ℕ → Row → Result Row
clear_older zero i arr = ok arr
clear_older (suc rounds) i arr = do arr' ← write arr i none; clear_older rounds (suc i) arr'

unfoldable pub set_existing : ℕ → MinerState → Row → Result Row
set_existing index inv arr = do
  cur ← read arr index
  arr' ← if is_older cur inv then write arr index (some inv) else ok arr
  fill_newer index inv arr'

pub empty_row : ℕ → Row
empty_row zero = []
empty_row (suc n) = none ∷ empty_row n

unfoldable pub set_new : ℕ → ℕ → MinerState → Result Row
set_new max_cached_size index inv = do
  arr ← write (empty_row max_cached_size) index (some inv)
  copy_newer index arr

unfoldable pub set_over : ℕ → ℕ → MinerState → Row → Result Row
set_over max_cached_size index inv arr = do
  arr₁ ← write arr index (some inv)
  arr₂ ← copy_newer index arr₁
  clear_older (max_cached_size - suc index) (suc index) arr₂

-- `Power` of a pointer.
abbrev pub power_of : Option MinerState → Result ℕ
power_of none = fail nil_dereference
power_of (some s) = ok s.power

-- `best == nil || v[0].Power.Cmp(best.Power)` has the wanted sign.
abbrev pub better :
    (ℕ → ℕ → Bool) → Option MinerState → Option MinerState → Result (Option MinerState)
better wins none v = ok v
better wins (some best) none = fail nil_dereference
better wins (some best) (some v) = ok (if wins v.power best.power then some v else some best)

-- The loop of `refresh_min_max`.
pub min_max_loop :
    Option MinerState → Option MinerState → Miners → Result (Option MinerState × Option MinerState)
min_max_loop lo hi [] = ok (lo, hi)
min_max_loop lo hi ((k, row) ∷ m) = do
  v ← read row 0
  lo' ← better (λ p best. ltb p best) lo v
  hi' ← better (λ p best. ltb best p) hi v
  min_max_loop lo' hi' m

abbrev pub address_or : String → Option MinerState → String
address_or old none = old
address_or old (some s) = s.miner_addr

-- `SlcToMap(miners, "MinerAddr", true)`: of the states with one address the last one counts.
pub slc_to_map : List MinerState → List MinerState
slc_to_map [] = []
slc_to_map (s ∷ ms) = elim (get_elem? (same_addr s.miner_addr ms) 0) [
  | none ↦ s ∷ slc_to_map ms
  | some later ↦ slc_to_map ms
]
  where
    same_addr : String → List MinerState → List MinerState
    same_addr addr [] = []
    same_addr addr (x ∷ l) =
        let rest = same_addr addr l in if x.miner_addr == addr then x ∷ rest else rest

-- `this.miners[k]`, where a missing row is nil.
abbrev pub row_or_nil : Option Row → Row
row_or_nil none = []
row_or_nil (some row) = row

unfoldable pub add_miner : ℕ → MinerState → FsMinerCache → Result FsMinerCache
add_miner index inv this = do
  arr ← set_new this.max_cached_size index inv
  ok (record this { miners = store inv.miner_addr arr this.miners })

-- A miner takes the place of `min`, whose row is `arr`, if it has more power.
unfoldable pub take_place : ℕ → MinerState → Row → FsMinerCache → Result FsMinerCache
take_place index inv arr this = do
  lowest ← read arr 0
  power ← power_of lowest
  if ltb power inv.power
      then (do
        arr' ← set_over this.max_cached_size index inv arr
        ok (record this { miners = delete this.min (store inv.miner_addr arr' this.miners) }))
      else ok this

unfoldable pub insert_miner : ℕ → MinerState → FsMinerCache → Result FsMinerCache
insert_miner index inv this =
    if ltb (length this.miners) this.max_miner_count
    then add_miner index inv this
    else take_place index inv (row_or_nil (lookup this.min this.miners)) this

-- `range` is the order in which Go goes over the entries of a map.
module _ (range : (A : Type 0) → List A → List A) where
  unfoldable pub refresh_min_max : FsMinerCache → Result FsMinerCache
  refresh_min_max this = do
    best ← min_max_loop none none (range (String × Row) this.miners)
    ok (record this { min = address_or this.min best.0; max = address_or this.max best.1 })

  -- A state of a miner whose row is looked up: only where there is none are `min` and `max` found again.
  unfoldable pub place_miner : ℕ → MinerState → Option Row → FsMinerCache → Result FsMinerCache
  place_miner index inv (some arr) this = do
    arr' ← set_existing index inv arr
    ok (record this { miners = store inv.miner_addr arr' this.miners })
  place_miner index inv none this = do this' ← insert_miner index inv this; refresh_min_max this'

  -- One round of the loop of `set_miners_at_index`.
  unfoldable pub set_miner : ℕ → MinerState → FsMinerCache → Result FsMinerCache
  set_miner index inv this = place_miner index inv (lookup inv.miner_addr this.miners) this

  unfoldable pub set_each : ℕ → List MinerState → FsMinerCache → Result FsMinerCache
  set_each index [] this = ok this
  set_each index (inv ∷ ms) this = do this' ← set_miner index inv this; set_each index ms this'

  unfoldable pub set_miners_at_index : List MinerState → ℕ → FsMinerCache → Result FsMinerCache
  set_miners_at_index ms index this = set_each index (range MinerState (slc_to_map ms)) this
