-- ===== src/MinerFeed/Runs.antt =====
-- What holds of the buffer, of the channel and of the two caches in any order of the loops' steps.
use filscan_backend.Prelude.{
  Written, ℕ, ◌≤◌, ◌<◌, ◌≡◌, refl, sym, ap, false, Option, none, some, List, [], ◌∷◌, ◌++◌, All,
  length, length-append, ltb, Result, ok, fail, deref, String, arith, subst, Bool-cases, inl, inr,
  if_true, if_false, >>=-ok,
}
use filscan_backend.Chain.{TipsetOps}
use filscan_backend.MinerCache.{MinerState, FsMinerCache}
use filscan_backend.MinerCache.Update.{MinerDb}
use filscan_backend.MinerCache.Lowest.{VisitsAll}
use filscan_backend.MinerCache.Invariant.{IsCache}
use filscan_backend.MinerCache.Step.{update-IsCache}
use filscan_backend.MinerFeed.{MinerStateAtTipset, Doc}
use filscan_backend.MinerFeed.Kept.{IsBuffer, do_upsert-IsBuffer, models_update-IsBuffer}
use filscan_backend.MinerFeed.Api.{
  MinerPower, MinerApi, is_long, checked_power, Feed, state_of, api_miner_state_at_tipset,
  handed_on, handle_storage_miner_message, handle_miner_state, Action, message, tick, receive,
  received, perform, perform_all,
}

pub record IsReadyCache (o : Option FsMinerCache) : Type 0 where
  pub cache : FsMinerCache
  pub there : o ≡ some cache
  pub good : IsCache cache
  pub period : 1 ≤ cache.time_duration

abbrev pub IsShort : Option ℕ → Type 0
IsShort none = Unit
IsShort (some power) = is_long power ≡ false

abbrev pub IsShortState : MinerState → Type 0
IsShortState m = is_long m.total_power ≡ false

abbrev IsShortAnswer : Option MinerStateAtTipset → Type 0
IsShortAnswer none = Unit
IsShortAnswer (some m) = IsShortState m.state

-- The total powers are of 28 digits at most.
pub record IsFeed (fs : Feed) : Type 0 where
  pub latest : IsShort fs.latest_total_power
  pub buffer : IsBuffer fs.upserts
  pub waiting : All IsShortState fs.miner_state_chan
  pub bounded : length fs.miner_state_chan ≤ 256
  pub hours : IsReadyCache fs.miner_cache24h
  pub days : IsReadyCache fs.miner_cache1day

checked_power-IsShort :
    (total : ℕ) (latest : Option ℕ)
    → IsShort latest
    → (is_long (checked_power total latest).0 ≡ false) × IsShort (checked_power total latest).1
unfolding checked_power
checked_power-IsShort total none h = elim (Bool-cases (is_long total)) [
  | inl long ↦ rw long (refl, tt)
  | inr short ↦ rw short (short, short)
]
checked_power-IsShort total (some power) h = elim (Bool-cases (is_long total)) [
  | inl long ↦ rw long (h, h)
  | inr short ↦ rw short (short, short)
]

append-IsShortState :
    (ms : List MinerState) (m : MinerState)
    → All IsShortState ms
    → IsShortState m
    → All IsShortState (ms ++ m ∷ [])
append-IsShortState [] m h k = (k, tt)
append-IsShortState (x ∷ ms) m h k = (h.0, append-IsShortState ms m h.1 k)

module _ {T Addr : Type 0} ⦃ops : TipsetOps T⦄ (api : MinerApi T Addr) where
  record IsAnswer (o : Option MinerStateAtTipset × Option ℕ) : Type 0 where
    pub state : IsShortAnswer o.0
    pub latest : IsShort o.1

  state_of-IsAnswer :
      (addr : Option Addr) (t : T) (latest : Option ℕ) (run : Result (MinerPower × ℕ × String × ℕ))
      → IsShort latest
      → IsAnswer (state_of api addr t latest run)
  state_of-IsAnswer addr t latest (fail error) h = record { state = tt; latest = h }
  state_of-IsAnswer addr t latest (ok (power, sectors, owner, size)) h =
      let (total, kept) = checked_power-IsShort power.total_power latest h in
      record { state = total; latest = kept }

module _ {T Addr Db : Type 0} ⦃ops : TipsetOps T⦄ (api : MinerApi T Addr)
    (bulk_upsert : List (Option Doc) → Db → Written Db) (range : (A : Type 0) → List A → List A)
    (v : VisitsAll range) (states : MinerDb) where
  record Steps (run : Result (Feed × Db)) : Type 0 where
    pub that : Feed
    pub db : Db
    pub runs : run ≡ ok (that, db)
    pub good : IsFeed that

  handed_on-IsFeed :
      (now : ℕ) (o : Option MinerStateAtTipset × Option ℕ) (fs : Feed) (db : Db)
      → IsFeed fs
      → length fs.miner_state_chan < 256
      → IsAnswer api o
      → Steps (handed_on api bulk_upsert now o fs db)
  handed_on-IsFeed now (none, latest) fs db f room a = record {
    that = record fs { latest_total_power = latest };
    db = db;
    runs = refl;
    good = record {
      latest = a.latest;
      buffer = f.buffer;
      waiting = f.waiting;
      bounded = f.bounded;
      hours = f.hours;
      days = f.days;
    };
  }
  handed_on-IsFeed now (some m, latest) fs db f room a =
      let next = models_update-IsBuffer bulk_upsert now m fs.upserts db f.buffer in
      record {
        that = record fs {
          latest_total_power = latest;
          upserts = next.that;
          miner_state_chan = fs.miner_state_chan ++ m.state ∷ [];
        };
        db = next.db;
        runs = >>=-ok _ next.runs refl;
        good = record {
          latest = a.latest;
          buffer = next.good;
          waiting = append-IsShortState fs.miner_state_chan m.state f.waiting a.state;
          bounded = omega (arith, length-append fs.miner_state_chan (m.state ∷ []));
          hours = f.hours;
          days = f.days;
        };
      }

  handle_miner_state-IsFeed :
      (m : MinerState) (fs : Feed)
      → IsFeed fs
      → (that : Feed) × (handle_miner_state range states m fs ≡ ok that) × IsFeed that
  unfolding handle_miner_state
  handle_miner_state-IsFeed m fs f =
      let (hours, e, hours_run, hours_good, _, hours_period, _) =
        update-IsCache range v states m f.hours.cache f.hours.good f.hours.period in
      let (days, e', days_run, days_good, _, days_period, _) =
        update-IsCache range v states m f.days.cache f.days.good f.days.period in
      (
        record fs { miner_cache24h = some hours; miner_cache1day = some days },
        >>=-ok _ (ap deref f.hours.there)
            (>>=-ok _ hours_run (>>=-ok _ (ap deref f.days.there) (>>=-ok _ days_run refl))),
        record {
          latest = f.latest;
          buffer = f.buffer;
          waiting = f.waiting;
          bounded = f.bounded;
          hours = record {
            cache = hours;
            there = refl;
            good = hours_good;
            period = omega (arith, hours_period, f.hours.period);
          };
          days = record {
            cache = days;
            there = refl;
            good = days_good;
            period = omega (arith, days_period, f.days.period);
          };
        },
      )

  received-IsFeed :
      (ms : List MinerState) (fs : Feed) (db : Db)
      → IsFeed fs
      → fs.miner_state_chan ≡ ms
      → Steps (received range states ms fs db)
  received-IsFeed [] fs db f e = record { that = fs; db = db; runs = refl; good = f }
  received-IsFeed (m ∷ ms) fs db f e =
      let waiting : All IsShortState (m ∷ ms) = subst (All IsShortState) e f.waiting in
      let bound : length (m ∷ ms) ≤ 256 = subst (λ l. length l ≤ 256) e f.bounded in
      let (that, runs, good) =
        handle_miner_state-IsFeed m (record fs { miner_state_chan = ms })
          record {
            latest = f.latest;
            buffer = f.buffer;
            waiting = waiting.1;
            bounded = omega (arith, bound);
            hours = f.hours;
            days = f.days;
          } in
      record { that = that; db = db; runs = >>=-ok _ runs refl; good = good }

  perform-IsFeed :
      (action : Action T) (fs : Feed) (db : Db)
      → IsFeed fs
      → Steps (perform api bulk_upsert range states action (fs, db))
  unfolding perform handle_storage_miner_message api_miner_state_at_tipset
  perform-IsFeed (message now t miner) fs db f =
      elim (Bool-cases (ltb (length fs.miner_state_chan) 256)) [
        | inl room ↦ subst Steps (sym (if_true (ltb (length fs.miner_state_chan) 256) _ _ room)) (
            handed_on-IsFeed now _ fs db f (ground arith)
              (state_of-IsAnswer api _ t fs.latest_total_power _ f.latest))
        | inr full ↦
            subst Steps (sym (if_false (ltb (length fs.miner_state_chan) 256) _ _ full))
              record { that = fs; db = db; runs = refl; good = f }
      ]
  perform-IsFeed tick fs db f =
      let next = do_upsert-IsBuffer bulk_upsert fs.upserts db f.buffer in
      record {
        that = record fs { upserts = next.that };
        db = next.db;
        runs = >>=-ok _ next.runs refl;
        good = record {
          latest = f.latest;
          buffer = next.good;
          waiting = f.waiting;
          bounded = f.bounded;
          hours = f.hours;
          days = f.days;
        };
      }
  perform-IsFeed receive fs db f = received-IsFeed fs.miner_state_chan fs db f refl

  -- Whatever lotus and the database answer, and in any order of the loops' steps, no step panics, where
  -- both caches are set and satisfy their invariant, the buffer has two slots for each of at least one
  -- state and an index up to their number, and the total powers that are waiting in the channel, and the
  -- latest, have 28 digits at most. All of this is kept.
  pub perform_all-IsFeed :
      (actions : List (Action T)) (fs : Feed) (db : Db)
      → IsFeed fs
      → (that : Feed) × (db' : Db) × (perform_all api bulk_upsert range states actions (fs, db)
          ≡ ok (that, db'))
        × IsFeed that
  unfolding perform_all
  perform_all-IsFeed [] fs db f = (fs, db, refl, f)
  perform_all-IsFeed (action ∷ actions) fs db f =
      let first = perform-IsFeed action fs db f in
      let (that, db', runs, good) = perform_all-IsFeed actions first.that first.db first.good in
      (that, db', >>=-ok _ first.runs runs, good)
