-- ===== src/MinerCache/Update.antt =====
-- filscaner/fs_miner_cache.go: the methods that fill, shift and read the cache. The database is a
-- parameter: the states before a time, and whether a newer state of a miner is stored.
use filscan_backend.Prelude.{
  ℕ, zero, suc, ◌+◌, ◌-◌, ◌*◌, ◌%◌, Bool, true, false, ◌&&◌, not, String, Option, none, some, List,
  [], ◌∷◌, ◌++◌, map, length, ltb, leb, ◌==◌, nat_eq, if◌then◌else◌, Result, ok, fail,
  nil_dereference, ◌>>=◌,
}
use filscan_backend.MinerCache.{
  MinerState, Row, Miners, FsMinerCache, init, time_to_index, lookup, row_or_nil, read, write,
  power_of, set_miners_at_index,
}

-- The results of a query for states: `mgo.ErrNotFound` and the other errors are told apart.
pub data Found : Type 0 where
  found : List MinerState → Found
  not_found database_error : Found

pub record MinerDb : Type 0 where
  pub top_power : ℕ → ℕ → ℕ → Found
  pub state_in_time : List String → ℕ → ℕ → Found
  pub exist_newer : String → ℕ → Bool

unfoldable pub age_row : ℕ → Row → Result Row
age_row zero arr = ok arr
age_row (suc i) arr = do cur ← read arr i; arr' ← write arr (suc i) cur; age_row i arr'

unfoldable pub age_miners : ℕ → Miners → Result Miners
age_miners rounds [] = ok []
age_miners rounds ((k, row) ∷ m) = do
  row' ← age_row rounds row
  m' ← age_miners rounds m
  ok ((k, row') ∷ m')

unfoldable pub do_offset : FsMinerCache → Result FsMinerCache
do_offset this = do
  m ← age_miners (this.max_cached_size - 1) this.miners
  ok (record this { miners = m; start_time = this.start_time + this.time_duration })

-- The caches of `init_miners_caches`; the present time is more than a month after 1970.
abbrev pub cache24h : ℕ → FsMinerCache
cache24h time_now = init 3600 (time_now - time_now % 3600 - 3600 * (24 - 2)) 6 24

abbrev pub cache1day : ℕ → FsMinerCache
cache1day time_now = init 86400 (time_now - time_now % 86400 - 86400 * (30 - 1)) 6 30

module _ (range : (A : Type 0) → List A → List A) (db : MinerDb) where
  -- The loop over the older slots, down from the oldest to the one behind `index`; the error that ends
  -- it is `true` beside the cache.
  unfoldable pub load_loop : ℕ → ℕ → List String → ℕ → FsMinerCache → Result (FsMinerCache × Bool)
  load_loop zero index slc_miners time_at this = ok (this, false)
  load_loop (suc k) index slc_miners time_at this =
      let start =
        if index + suc k == this.max_cached_size - 1 then 0 else time_at - this.time_duration in
      elim (db.state_in_time slc_miners time_at start) [
        | found ms ↦ (do
          this' ← set_miners_at_index range ms (index + suc k) this
          load_loop k index slc_miners (time_at + this.time_duration) this')
        | not_found ↦ load_loop k index slc_miners (time_at + this.time_duration) this
        | database_error ↦ ok (this, true)
      ]

  unfoldable pub models_set_index_and_load_histroy :
      List MinerState → ℕ → FsMinerCache → Result (FsMinerCache × Bool)
  models_set_index_and_load_histroy [] index this = ok (this, false)
  models_set_index_and_load_histroy (s ∷ ms) index this = do
    this' ← set_miners_at_index range (s ∷ ms) index this
    load_loop (this.max_cached_size - 1 - index) index (map (λ m. m.miner_addr) (s ∷ ms))
        this.start_time this'

  -- `update` of a miner that is not in a full cache; `arr` is the row of `min`.
  unfoldable pub update_full : MinerState → ℕ → Row → FsMinerCache → Result (FsMinerCache × Bool)
  update_full in_ index arr this = do
    lowest ← read arr 0
    power ← power_of lowest
    if ltb power in_.power
        then (if not (index == 0) && db.exist_newer in_.miner_addr in_.mine_time
            then ok (this, false)
            else models_set_index_and_load_histroy (in_ ∷ []) index this)
        else ok (this, false)

  -- `update` behind the shift of the cache, with the row of the miner.
  unfoldable pub update_at :
      MinerState → ℕ → Option Row → FsMinerCache → Result (FsMinerCache × Bool)
  update_at in_ index (some row) this = do
    this' ← set_miners_at_index range (in_ ∷ []) index this
    ok (this', false)
  update_at in_ index none this =
      if ltb (length this.miners) this.max_miner_count
      then models_set_index_and_load_histroy (in_ ∷ []) index this
      else update_full in_ index (row_or_nil (lookup this.min this.miners)) this

  unfoldable pub update : MinerState → FsMinerCache → Result (FsMinerCache × Bool)
  update in_ this =
      let at = time_to_index this in_.mine_time in
      if at.1 && (at.0 == 0)
      then (do
        this' ← do_offset this
        update_at in_ at.0 (lookup in_.miner_addr this'.miners) this')
      else update_at in_ at.0 (lookup in_.miner_addr this.miners) this

  unfoldable pub load_caches :
      FsMinerCache
      → FsMinerCache
      → List MinerState
      → Result (Option FsMinerCache × Option FsMinerCache × Bool)
  load_caches cache24h cache1day miners = do
    hours ← models_set_index_and_load_histroy miners 0 cache24h
    if hours.1 then ok (some hours.0, none, true) else (do
      days ← models_set_index_and_load_histroy miners 0 cache1day
      ok (some hours.0, some days.0, days.1))

  -- The caches of a day and of a month, once they are set, and the error.
  unfoldable pub init_miners_caches : ℕ → Result (Option FsMinerCache × Option FsMinerCache × Bool)
  init_miners_caches time_now = elim (db.top_power time_now 0 6) [
    | database_error ↦ ok (none, none, true)
    | not_found ↦ load_caches (cache24h time_now) (cache1day time_now) []
    | found miners ↦ load_caches (cache24h time_now) (cache1day time_now) miners
  ]

-- `fspt.MinerState`, the reply's entry of a miner.
pub record PowerEntry : Type 0 where
  pub address : String
  pub power : String
  pub power_percent : String

-- `XSizeString` and `BigToPercent` print through floats: parameters.
module _ (xsize_string : ℕ → String) (big_to_percent : ℕ → ℕ → String) where
  -- The loop of `index`: the entries, the sum and the greatest total power, and whether all are nil.
  pub index_loop :
      ℕ → Miners → List PowerEntry → ℕ → ℕ → Bool → Result (List PowerEntry × ℕ × ℕ × Bool)
  index_loop index [] stats max_total other all_is_nil = ok (stats, max_total, other, all_is_nil)
  index_loop index ((k, row) ∷ m) stats max_total other all_is_nil = do
    state ← read row index
    elim state [
      | none ↦ (do
        first ← read row 0
        address ← address_of first
        index_loop index m
            (stats ++ record { address = address; power = "0"; power_percent = "0.00%" } ∷ [])
            max_total other all_is_nil)
      | some s ↦ (do
        index_loop index m
            (stats
              ++ record {
                address = s.miner_addr;
                power = xsize_string s.power;
                power_percent = big_to_percent s.power s.total_power;
              }
                ∷ [])
            (if ltb max_total s.total_power then s.total_power else max_total) (other + s.power)
            false)
    ]
    where
      address_of : Option MinerState → Result String
      address_of none = fail nil_dereference
      address_of (some s) = ok s.miner_addr

  -- The miners' powers in a slot, and the rest of the total power; `index` is not negative.
  unfoldable pub miners_at_index :
      (range : (A : Type 0) → List A → List A)
      → ℕ
      → FsMinerCache
      → Result (Option (List PowerEntry) × Bool)
  miners_at_index range index this =
      if leb this.max_cached_size index then ok (none, false) else (do
        (stats, max_total, other, all_is_nil) ←
            index_loop index (range (String × Row) this.miners) [] 0 0 true
        let rest : String × String =
            if ltb other max_total
            then (xsize_string (max_total - other), big_to_percent (max_total - other) max_total)
            else ("0", "0.00%")
        ok (
          some (stats ++ record { address = "other"; power = rest.0; power_percent = rest.1 } ∷ []),
          all_is_nil,
        ))
