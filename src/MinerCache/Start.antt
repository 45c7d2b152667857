-- ===== src/MinerCache/Start.antt =====
-- `init_miners_caches` of fs_miner_cache.go: the two caches and the place of the present time in them.
use filscan_backend.Prelude.{
  ℕ, ◌+◌, ◌-◌, ◌*◌, ◌/◌, ◌%◌, ◌≤◌, ◌≡◌, ◌↔◌, ◌<◌, refl, sym, ap, ◌∙◌, subst, Bool, true, false,
  Option, none, some, List, [], Result, ok, arith, inl, >>=-ok, leb, ltb, if◌then◌else◌,
}
use filscan_backend.MinerCache.{MinerState, FsMinerCache, init, time_to_index}
use filscan_backend.MinerCache.Update.{
  Found, found, not_found, database_error, MinerDb, models_set_index_and_load_histroy, cache24h,
  cache1day, load_caches, init_miners_caches,
}
use filscan_backend.MinerCache.Lowest.{VisitsAll}
use filscan_backend.MinerCache.Invariant.{IsCache, HasSameFrame}
use filscan_backend.MinerCache.Step.{Returns, load_histroy-IsCache}

-- A cache that is set is valid, and a time is past its window exactly if the condition holds.
abbrev pub IsReady : ℕ → Type 0 → Option FsMinerCache → Type 0
IsReady now late none = Unit
IsReady now late (some c) = IsCache c × (((time_to_index c now).1 ≡ true) ↔ late)

init-IsCache :
    (period start count size : ℕ) → 1 ≤ size → 1 ≤ count → IsCache (init period start count size)
init-IsCache period start count size sized roomy = record {
  table = record { sized = sized; roomy = roomy; rows = tt; distinct = tt; bounded = omega arith };
  has_min = inl refl;
}

-- `time_to_index` reads the frame only.
slot_in : ℕ → ℕ → ℕ → ℕ → ℕ × Bool
slot_in size start period time =
    if leb time start
    then (size - 1, false)
    else if ltb (start + (size - 1) * period) time
    then (0, true)
    else (size - 1 - (time - start + (period - 1)) / period, false)

same_slot :
    (this that : FsMinerCache) (now : ℕ)
    → HasSameFrame this that
    → time_to_index that now ≡ time_to_index this now
unfolding time_to_index slot_in
same_slot this that now f =
    ap (λ n. slot_in n that.start_time that.time_duration now) f.size
    ∙ ap (λ s. slot_in this.max_cached_size s that.time_duration now) f.start
    ∙ ap (λ p. slot_in this.max_cached_size this.start_time p now) f.period

late24h : (now : ℕ) → 30 * 86400 ≤ now → (time_to_index (cache24h now) now).1 ≡ false
unfolding time_to_index
late24h now h = ground arith

late1day :
    (now : ℕ)
    → 30 * 86400 ≤ now
    → ((time_to_index (cache1day now) now).1 ≡ true) ↔ (0 < now % 86400)
unfolding time_to_index
late1day now h = ground arith

ready :
    {this that : FsMinerCache} {late : Type 0} (now : ℕ)
    → HasSameFrame this that
    → IsCache that
    → ((time_to_index this now).1 ≡ true) ↔ late
    → IsReady now late (some that)
ready {this} {that} {late} now f c l =
    (c, subst (λ at. (at.1 ≡ true) ↔ late) (sym (same_slot this that now f)) l)

module _ (range : (A : Type 0) → List A → List A) (v : VisitsAll range) (db : MinerDb) where
  -- The caches are loaded one after the other, the second one if there is no error.
  load_caches_lem :
      (now : ℕ) (miners : List MinerState)
      → 30 * 86400 ≤ now
      → (hours days : Option FsMinerCache) × (error : Bool) × (load_caches range db
            (cache24h now)
            (cache1day now)
            miners
          ≡ ok (hours, days, error))
        × IsReady now ⊥ hours
        × IsReady now (0 < now % 86400) days
  unfolding load_caches
  load_caches_lem now miners h =
      after
        (load_histroy-IsCache range v db miners 0 (cache24h now)
          (init-IsCache _ _ 6 24 (omega arith) (omega arith)) (omega arith))
        (load_histroy-IsCache range v db miners 0 (cache1day now)
          (init-IsCache _ _ 6 30 (omega arith) (omega arith)) (omega arith))
    where
      after :
          (hours : Returns
            (cache24h now)
            (models_set_index_and_load_histroy range db miners 0 (cache24h now)))
          (days : Returns
            (cache1day now)
            (models_set_index_and_load_histroy range db miners 0 (cache1day now)))
          → (h d : Option FsMinerCache) × (error : Bool) × (load_caches range db
                (cache24h now)
                (cache1day now)
                miners
              ≡ ok (h, d, error))
            × IsReady now ⊥ h
            × IsReady now (0 < now % 86400) d
      after hours days = by_error hours.error hours.gives
        where
          first : IsReady now ⊥ (some hours.that)
          first = ready now hours.frame hours.good (λ l. cc (late24h now h, l), λ a. absurd a)

          by_error :
              (b : Bool)
              → models_set_index_and_load_histroy range db miners 0 (cache24h now)
                ≡ ok (hours.that, b)
              → (h d : Option FsMinerCache) × (error : Bool) × (load_caches range db
                    (cache24h now)
                    (cache1day now)
                    miners
                  ≡ ok (h, d, error))
                × IsReady now ⊥ h
                × IsReady now (0 < now % 86400) d
          by_error true gives = (some hours.that, none, true, >>=-ok _ gives refl, first, tt)
          by_error false gives = (
            some hours.that,
            some days.that,
            days.error,
            >>=-ok _ gives (>>=-ok _ days.gives refl),
            first,
            ready now days.frame days.good (late1day now h),
          )

  -- `init_miners_caches` does not panic, and the caches that it sets are valid. The present time is
  -- inside the window of the cache of hours, but past the window of the cache of days, unless it is the
  -- first second of a day.
  pub init_miners_caches_lem :
      (time_now : ℕ)
      → 30 * 86400 ≤ time_now
      → (hours days : Option FsMinerCache) × (error : Bool) × (init_miners_caches range db time_now
          ≡ ok (hours, days, error))
        × IsReady time_now ⊥ hours
        × IsReady time_now (0 < time_now % 86400) days
  unfolding init_miners_caches
  init_miners_caches_lem time_now h = answer (db.top_power time_now 0 6)
    where
      Loaded : Result (Option FsMinerCache × Option FsMinerCache × Bool) → Type 0
      Loaded run =
          (hours days : Option FsMinerCache) × (error : Bool) × (run ≡ ok (hours, days, error))
          × IsReady time_now ⊥ hours
          × IsReady time_now (0 < time_now % 86400) days

      answer :
          (a : Found)
          → Loaded (elim a [
            | database_error ↦ ok (none, none, true)
            | not_found ↦ load_caches range db (cache24h time_now) (cache1day time_now) []
            | found miners ↦ load_caches range db (cache24h time_now) (cache1day time_now) miners
          ])
      answer database_error = (none, none, true, refl, tt, tt)
      answer not_found = load_caches_lem time_now [] h
      answer (found miners) = load_caches_lem time_now miners h
