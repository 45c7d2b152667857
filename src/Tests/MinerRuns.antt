-- ===== src/Tests/MinerRuns.antt =====
-- The theorems on the cache of miners at work.
use filscan_backend.Prelude.{
  ℕ, ◌+◌, ◌<◌, ◌%◌, ◌≡◌, refl, Bool, false, Option, none, some, List, [], ◌∷◌, ok, arith, inr, ◌⊎◌,
  if◌then◌else◌,
}
use filscan_backend.MinerCache.{
  MinerState, Row, FsMinerCache, lookup, store, time_to_index, set_existing, set_miner,
}
use filscan_backend.MinerCache.Setting.{set_miner-min}
use filscan_backend.MinerCache.Update.{found, MinerDb, update, init_miners_caches}
use filscan_backend.MinerCache.Rows.{raise, set_existing-raise}
use filscan_backend.MinerCache.Buckets.{IsSlotOf, time_to_index_lem}
use filscan_backend.MinerCache.Lowest.{VisitsAll, IsLowest}
use filscan_backend.MinerCache.Invariant.{IsCache}
use filscan_backend.MinerCache.Step.{update-IsCache}
use filscan_backend.MinerCache.Start.{IsReady, init_miners_caches_lem}

abbrev pub in_order : (A : Type 0) → List A → List A
in_order A l = l

pub in_order-VisitsAll : VisitsAll in_order
in_order-VisitsAll = record { only = λ A P l h. h; each = λ A P l h. h }

abbrev state : ℕ → ℕ → MinerState
state power mine_time = record {
  miner_addr = "t01";
  power = power;
  total_power = 100;
  mine_time = mine_time;
}

abbrev stronger : MinerState
stronger = record { miner_addr = "t02"; power = 7; total_power = 100; mine_time = 140 }

-- The database has an older state of the stronger miner.
abbrev pub db : MinerDb
db = record {
  top_power = λ time_at ofset limit. found (state 5 110 ∷ []);
  state_in_time = λ miners at start. found (record stronger { mine_time = 105 } ∷ []);
  exist_newer = λ miner time. false;
}

abbrev row : Row
row = some (state 5 118) ∷ some (state 4 109) ∷ none ∷ []

-- A full cache of one miner and three slots, that end at 100, 110 and 120.
abbrev pub full_cache : FsMinerCache
full_cache = record {
  miners = ("t01", row) ∷ [];
  max_cached_size = 3;
  max_miner_count = 1;
  min = "t01";
  max = "t01";
  time_duration = 10;
  start_time = 100;
}

t01_found : lookup "t01" full_cache.miners ≡ some row
unfolding lookup
t01_found = refl

pub full_cache-IsCache : IsCache full_cache
full_cache-IsCache = record {
  table = record {
    sized = omega arith;
    roomy = omega arith;
    rows = (
      record {
        sized = refl;
        owned = (refl, (refl, (tt, tt)));
        history = ((refl, (refl, tt)), ((refl, tt), (tt, tt)));
        front = refl;
      },
      tt,
    );
    distinct = (tt, tt);
    bounded = omega arith;
  };
  has_min = inr (record { row = row; state = state 5 118; present = t01_found; newest = refl });
}

update-IsCache_example :
    (that : FsMinerCache) × (error : Bool) × (update in_order db stronger full_cache
      ≡ ok (that, error))
    × IsCache that
    × (that.max_cached_size ≡ 3)
    × (that.time_duration ≡ 10)
    × (that.start_time ≡ (if (time_to_index full_cache 140).1 then 100 + 10 else 100))
update-IsCache_example =
    update-IsCache in_order in_order-VisitsAll db stronger full_cache full_cache-IsCache
      (omega arith)

set_miner-min_example :
    (that : FsMinerCache) × (set_miner in_order 1 stronger full_cache ≡ ok that)
    × IsCache that
    × (((arr : Row) × (lookup "t02" full_cache.miners ≡ some arr)
          × (that ≡ record full_cache {
            miners = store "t02" (raise 2 stronger arr) full_cache.miners;
          }))
        ⊎ ((lookup "t02" full_cache.miners ≡ none)
            × ((that.miners ≡ []) ⊎ IsLowest that.min that.miners)))
set_miner-min_example =
    set_miner-min in_order in_order-VisitsAll full_cache 1 stronger full_cache-IsCache (omega arith)

time_to_index_example : IsSlotOf full_cache 115 (time_to_index full_cache 115)
time_to_index_example = time_to_index_lem full_cache 115 (omega arith) (omega arith)

set_existing-raise_example : set_existing 1 (state 6 112) row ≡ ok (raise 2 (state 6 112) row)
set_existing-raise_example =
    set_existing-raise 1 (state 6 112) row (omega arith)
      ((refl, (refl, tt)), ((refl, tt), (tt, tt)))

init_miners_caches_example :
    (hours days : Option FsMinerCache) × (error : Bool) × (init_miners_caches in_order db
        1_600_000_000
      ≡ ok (hours, days, error))
    × IsReady 1_600_000_000 ⊥ hours
    × IsReady 1_600_000_000 (0 < 1_600_000_000 % 86400) days
init_miners_caches_example =
    init_miners_caches_lem in_order in_order-VisitsAll db 1_600_000_000 (omega arith)
