-- ===== src/MinerFeed/Api.antt =====
-- api_miner_state_at_tipset of filscaner/fs_api_utils.go, handle_storage_miner_message and
-- handle_miner_state of filscaner/fs_storage_miner_message_handler.go, and the cases of the two loops
-- of filscaner/fs_loops.go that call them. The calls of lotus are a parameter. Prints are left out.
use filscan_backend.Prelude.{
  Written, ℕ, ◌*◌, Bool, String, Option, none, some, List, [], ◌∷◌, ◌++◌, length, ltb, leb,
  if◌then◌else◌, Result, ok, fail, api_error, deref, ◌>>=◌,
}
use filscan_backend.Chain.{TipsetOps}
use filscan_backend.MinerCache.{MinerState, FsMinerCache}
use filscan_backend.MinerCache.Update.{MinerDb, update}
use filscan_backend.MinerFeed.{
  MinerStateAtTipset, Doc, UpsertBuffer, do_upsert_miners, models_update_miner,
}

-- `api.MinerPower`.
pub record MinerPower : Type 0 where
  pub miner_power : ℕ
  pub total_power : ℕ

-- What StateMinerPower answers: the error with the message "failed to get miner power from chain (exit
-- code 1)" is told from the others.
pub data PowerAnswer : Type 0 where
  powered : MinerPower → PowerAnswer
  not_from_chain power_error : PowerAnswer

-- The calls of lotus. An address of `none` is `address.Undef`, which NewFromString gives on an error; of
-- sectors and of the proving set only the number is read.
pub record MinerApi (T Addr : Type 0) : Type 0 where
  pub new_from_string : String → Option Addr
  pub address_string : Option Addr → String
  pub state_miner_power : Option Addr → T → PowerAnswer
  pub state_miner_sectors : Option Addr → T → Option ℕ
  pub state_miner_peer_id : Option Addr → T → Option String
  pub state_miner_worker : Option Addr → T → Option String
  pub state_miner_sector_size : Option Addr → T → Option ℕ
  pub state_miner_proving_set : Option Addr → T → Option ℕ

-- The answer of a call, and an error as a fault.
abbrev pub answered : {A : Type 0} → Option A → Result A
answered none = fail api_error
answered (some a) = ok a

-- A total power of 29 digits or more.
abbrev pub is_long : ℕ → Bool
is_long power = leb 10_000_000_000_000_000_000_000_000_000 power

-- The total power that is taken, and `latest_total_power` behind it.
unfoldable pub checked_power : ℕ → Option ℕ → ℕ × Option ℕ
checked_power total latest =
    if is_long total
    then (elim latest [ none ↦ 0 | some power ↦ power ], latest)
    else (total, some total)

-- What the loops share, but the database.
pub record Feed : Type 0 where
  pub latest_total_power : Option ℕ
  pub upserts : UpsertBuffer
  pub miner_state_chan : List MinerState
  pub miner_cache24h : Option FsMinerCache
  pub miner_cache1day : Option FsMinerCache

module _ {T Addr : Type 0} ⦃ops : TipsetOps T⦄ (api : MinerApi T Addr) where
  abbrev pub power_at : Option Addr → T → PowerAnswer → Option MinerPower
  power_at addr t (powered p) = some p
  power_at addr t power_error = none
  power_at addr t not_from_chain = elim (api.state_miner_power none t) [
    | powered p ↦ some (record p { miner_power = 0 })
    | not_from_chain ↦ none
    | power_error ↦ none
  ]

  -- The calls whose errors are returned.
  abbrev pub answers : Option Addr → T → Result (MinerPower × ℕ × String × ℕ)
  answers addr t = do
    power ← answered (power_at addr t (api.state_miner_power addr t))
    sectors ← answered (api.state_miner_sectors addr t)
    owner ← answered (api.state_miner_worker addr t)
    sector_size ← answered (api.state_miner_sector_size addr t)
    ok (power, sectors, owner, sector_size)

  abbrev pub state_of :
      Option Addr
      → T
      → Option ℕ
      → Result (MinerPower × ℕ × String × ℕ)
      → Option MinerStateAtTipset × Option ℕ
  state_of addr t latest (fail error) = (none, latest)
  state_of addr t latest (ok (power, sectors, owner, sector_size)) =
      let checked = checked_power power.total_power latest in
      (
        some (record {
          state = record {
            miner_addr = api.address_string addr;
            power = power.miner_power;
            total_power = checked.0;
            mine_time = ops.min_timestamp t;
          };
          peer_id = elim (api.state_miner_peer_id addr t) [ none ↦ "" | some id ↦ id ];
          wallet_addr = owner;
          sector_size = sector_size;
          sector_count = sectors;
          tipset_height = ops.height t;
          proving_sector_size = elim (api.state_miner_proving_set addr t) [
            | none ↦ 0
            | some proving ↦ sector_size * proving
          ];
          gmt_create = 0;
          gmt_modified = 0;
        }),
        checked.1,
      )

  -- The state, where there is no error, and `latest_total_power`.
  unfoldable pub api_miner_state_at_tipset :
      Option Addr → T → Option ℕ → Option MinerStateAtTipset × Option ℕ
  api_miner_state_at_tipset addr t latest = state_of addr t latest (answers addr t)

module _ {T Addr Db : Type 0} ⦃ops : TipsetOps T⦄ (api : MinerApi T Addr)
    (bulk_upsert : List (Option Doc) → Db → Written Db) where
  -- `handle_storage_miner_message` with the answer of `api_miner_state_at_tipset`. An error of
  -- `models_update_miner` is dropped; what is sent has the fields that the receiver reads.
  abbrev pub handed_on : ℕ → Option MinerStateAtTipset × Option ℕ → Feed → Db → Result (Feed × Db)
  handed_on now (none, latest) fs db = ok (record fs { latest_total_power = latest }, db)
  handed_on now (some m, latest) fs db = do
    next ← models_update_miner bulk_upsert now m fs.upserts db
    ok (
      record fs {
        latest_total_power = latest;
        upserts = next.0.0;
        miner_state_chan = fs.miner_state_chan ++ m.state ∷ [];
      },
      next.0.1,
    )

  -- An error of NewFromString is printed only.
  unfoldable pub handle_storage_miner_message : ℕ → T → String → Feed → Db → Result (Feed × Db)
  handle_storage_miner_message now t miner fs db =
      handed_on now
        (api_miner_state_at_tipset api (api.new_from_string miner) t fs.latest_total_power) fs db

module _ (range : (A : Type 0) → List A → List A) (states : MinerDb) where
  -- The errors of both updates are dropped.
  unfoldable pub handle_miner_state : MinerState → Feed → Result Feed
  handle_miner_state m fs = do
    hours ← deref fs.miner_cache24h
    hours' ← update range states m hours
    days ← deref fs.miner_cache1day
    days' ← update range states m days
    ok (record fs { miner_cache24h = some hours'.0; miner_cache1day = some days'.0 })

  -- The case of loop_handle_refresh_miner_state, which waits on an empty channel.
  abbrev pub received : {Db : Type 0} → List MinerState → Feed → Db → Result (Feed × Db)
  received [] fs db = ok (fs, db)
  received (m ∷ rest) fs db = do
    fs' ← handle_miner_state m (record fs { miner_state_chan = rest })
    ok (fs', db)

-- What the loops do next: loop_handle_messages handles a miner of a tipset's messages, or writes at a
-- tick of its timer; loop_handle_refresh_miner_state receives a state.
pub data Action (T : Type 0) : Type 0 where
  message : ℕ → T → String → Action T
  tick receive : Action T

module _ {T Addr Db : Type 0} ⦃ops : TipsetOps T⦄ (api : MinerApi T Addr)
    (bulk_upsert : List (Option Doc) → Db → Written Db) (range : (A : Type 0) → List A → List A)
    (states : MinerDb) where
  -- A loop that would send on a full channel, of 256 states, or receive on an empty one, waits. A
  -- message has one state to send at most, and waits at its start instead.
  unfoldable pub perform : Action T → Feed × Db → Result (Feed × Db)
  perform (message now t miner) (fs, db) =
      if ltb (length fs.miner_state_chan) 256
      then handle_storage_miner_message api bulk_upsert now t miner fs db
      else ok (fs, db)
  perform tick (fs, db) = do
    next ← do_upsert_miners bulk_upsert fs.upserts db
    ok (record fs { upserts = next.0.0 }, next.0.1)
  perform receive (fs, db) = received range states fs.miner_state_chan fs db

  unfoldable pub perform_all : List (Action T) → Feed × Db → Result (Feed × Db)
  perform_all [] s = ok s
  perform_all (action ∷ actions) s = do s' ← perform action s; perform_all actions s'
