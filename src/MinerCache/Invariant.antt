-- ===== src/MinerCache/Invariant.antt =====
-- The invariant of the cache of fs_miner_cache.go, and of a run that keeps it.
use filscan_backend.Prelude.{◌≤◌, ◌≡◌, ◌⊎◌, refl, ◌∙◌, [], length, string_eq, Result, ok}
use filscan_backend.MinerCache.{Miners, FsMinerCache}
use filscan_backend.MinerCache.Table.{IsDistinct}
use filscan_backend.MinerCache.Lowest.{AreRows, HasMin}

-- Rows of one size with distinct miners, `max_miner_count` at most.
pub record IsTable (this : FsMinerCache) : Type 0 where
  pub sized : 1 ≤ this.max_cached_size
  pub roomy : 1 ≤ this.max_miner_count
  pub rows : AreRows this.max_cached_size this.miners
  pub distinct : IsDistinct this.miners
  pub bounded : length this.miners ≤ this.max_miner_count

-- And `min` is one of the miners.
pub record IsCache (this : FsMinerCache) : Type 0 where
  pub table : IsTable this
  pub has_min : (this.miners ≡ []) ⊎ HasMin this.min this.miners

-- What setting states leaves alone.
pub record HasSameFrame (this that : FsMinerCache) : Type 0 where
  pub size : that.max_cached_size ≡ this.max_cached_size
  pub count : that.max_miner_count ≡ this.max_miner_count
  pub period : that.time_duration ≡ this.time_duration
  pub start : that.start_time ≡ this.start_time

pub HasSameFrame-refl : (this : FsMinerCache) → HasSameFrame this this
HasSameFrame-refl this = record { size = refl; count = refl; period = refl; start = refl }

pub HasSameFrame-trans :
    {a b c : FsMinerCache} → HasSameFrame a b → HasSameFrame b c → HasSameFrame a c
HasSameFrame-trans f g = record {
  size = g.size ∙ f.size;
  count = g.count ∙ f.count;
  period = g.period ∙ f.period;
  start = g.start ∙ f.start;
}

-- A run that gives a cache of the same frame.
pub record Runs (this : FsMinerCache) (run : Result FsMinerCache) (Good : FsMinerCache → Type 0)
    : Type 0 where
  pub that : FsMinerCache
  pub gives : run ≡ ok that
  pub good : Good that
  pub frame : HasSameFrame this that

with_miners : (this : FsMinerCache) (m : Miners) → FsMinerCache
with_miners this m = record this { miners = m }

pub stored :
    (this : FsMinerCache) (m : Miners) {run : Result FsMinerCache}
    → IsTable this
    → AreRows this.max_cached_size m
    → IsDistinct m
    → length m ≤ this.max_miner_count
    → run ≡ ok (record this { miners = m })
    → Runs this run IsTable
stored this m t rows distinct bounded e = record {
  that = record this { miners = m };
  gives = e;
  good = record {
    sized = t.sized;
    roomy = t.roomy;
    rows = rows;
    distinct = distinct;
    bounded = bounded;
  };
  frame = record { size = refl; count = refl; period = refl; start = refl };
}
