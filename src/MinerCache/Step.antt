-- ===== src/MinerCache/Step.antt =====
-- `update` of fs_miner_cache.go and what it calls keep the invariant of the cache, whatever the
-- database answers.
use filscan_backend.Prelude.{
  ℕ, zero, suc, ◌+◌, ◌-◌, ◌≤◌, ◌<◌, ◌≡◌, ◌⊎◌, refl, sym, ap, ◌∙◌, Bool, true, false, ◌&&◌, not,
  String, Option, none, some, List, [], ◌∷◌, map, subst, length, ltb, ◌==◌, nat_eq, string_eq,
  if◌then◌else◌, Result, ok, ◌>>=◌, arith, Bool-cases, inl, inr, if_true, if_false, >>=-ok,
}
use filscan_backend.MinerCache.{
  MinerState, Row, FsMinerCache, time_to_index, lookup, row_or_nil, set_miners_at_index,
}
use filscan_backend.MinerCache.Update.{
  Found, found, not_found, database_error, MinerDb, do_offset, load_loop,
  models_set_index_and_load_histroy, update_full, update_at, update,
}
use filscan_backend.MinerCache.History.{front_of}
use filscan_backend.MinerCache.Lowest.{VisitsAll, HasMin}
use filscan_backend.MinerCache.Buckets.{IsSlotOf, time_to_index_lem}
use filscan_backend.MinerCache.Aged.{do_offset-IsCache}
use filscan_backend.MinerCache.Invariant.{
  IsCache, HasSameFrame, HasSameFrame-refl, HasSameFrame-trans, Runs,
}
use filscan_backend.MinerCache.Placing.{read-newest}
use filscan_backend.MinerCache.Setting.{set_miners_at_index-IsCache}

-- A run that gives a cache of the same frame, and whether there was an error of the database.
pub record Returns (this : FsMinerCache) (run : Result (FsMinerCache × Bool)) : Type 0 where
  pub that : FsMinerCache
  pub error : Bool
  pub gives : run ≡ ok (that, error)
  pub good : IsCache that
  pub frame : HasSameFrame this that

unchanged : (this : FsMinerCache) (error : Bool) → IsCache this → Returns this (ok (this, error))
unchanged this error c = record {
  that = this;
  error = error;
  gives = refl;
  good = c;
  frame = HasSameFrame-refl this;
}

behind :
    {this : FsMinerCache} {run : Result FsMinerCache}
    (next : FsMinerCache → Result (FsMinerCache × Bool))
    → (first : Runs this run IsCache) → Returns first.that (next first.that)
    → Returns this (run >>= next)
behind next first rest = record {
  that = rest.that;
  error = rest.error;
  gives = >>=-ok next first.gives rest.gives;
  good = rest.good;
  frame = HasSameFrame-trans first.frame rest.frame;
}

module _ (range : (A : Type 0) → List A → List A) (v : VisitsAll range) (db : MinerDb) where
  load_loop-IsCache :
      (k index : ℕ) (miners : List String) (time_at : ℕ) (this : FsMinerCache)
      → IsCache this
      → index + k < this.max_cached_size
      → Returns this (load_loop range db k index miners time_at this)
  unfolding load_loop
  load_loop-IsCache zero index miners time_at this c h = unchanged this false c
  load_loop-IsCache (suc k) index miners time_at this c h =
      answer
        (db.state_in_time miners time_at
          (if index + suc k == this.max_cached_size - 1 then 0 else time_at - this.time_duration))
        (λ that. load_loop-IsCache k index miners (time_at + this.time_duration) that)
    where
      answer :
          (a : Found)
          → ((that : FsMinerCache)
              → IsCache that
              → index + k < that.max_cached_size
              → Returns that
                  (load_loop range db k index miners (time_at + this.time_duration) that))
          → Returns this (elim a [
            | found ms ↦
                set_miners_at_index range ms (index + suc k) this
                >>= load_loop range db k index miners (time_at + this.time_duration)
            | not_found ↦ load_loop range db k index miners (time_at + this.time_duration) this
            | database_error ↦ ok (this, true)
          ])
      answer (found ms) ih =
          let first = set_miners_at_index-IsCache range v ms (index + suc k) this c h in
          behind _ first (ih first.that first.good (omega (arith, first.frame.size)))
      answer not_found ih = ih this c (omega arith)
      answer database_error ih = unchanged this true c

  pub load_histroy-IsCache :
      (ms : List MinerState) (index : ℕ) (this : FsMinerCache)
      → IsCache this
      → index < this.max_cached_size
      → Returns this (models_set_index_and_load_histroy range db ms index this)
  unfolding models_set_index_and_load_histroy
  load_histroy-IsCache [] index this c h = unchanged this false c
  load_histroy-IsCache (s ∷ ms) index this c h =
      let first = set_miners_at_index-IsCache range v (s ∷ ms) index this c h in
      behind _ first (
        load_loop-IsCache (this.max_cached_size - 1 - index) index
          (map (λ m. m.miner_addr) (s ∷ ms)) this.start_time first.that first.good
          (omega (arith, first.frame.size)))

  update_full-IsCache :
      (in_ : MinerState) (index : ℕ) (this : FsMinerCache) (arr : Row) {s : MinerState}
      → IsCache this
      → index < this.max_cached_size
      → front_of arr ≡ some s
      → Returns this (update_full range db in_ index arr this)
  unfolding update_full
  update_full-IsCache in_ index this arr {s} c h newest =
      subst (Returns this) (sym (>>=-ok _ (read-newest arr newest) refl)) (
        branch (ltb s.power in_.power)
          (not (index == 0) && db.exist_newer in_.miner_addr in_.mine_time))
    where
      branch :
          (more newer : Bool)
          → Returns this (
              if more
              then (if newer
                  then ok (this, false)
                  else models_set_index_and_load_histroy range db (in_ ∷ []) index this)
              else ok (this, false))
      branch true true = unchanged this false c
      branch true false = load_histroy-IsCache (in_ ∷ []) index this c h
      branch false newer = unchanged this false c

  update_at-IsCache :
      (in_ : MinerState) (index : ℕ) (o : Option Row) (this : FsMinerCache)
      → IsCache this
      → index < this.max_cached_size
      → Returns this (update_at range db in_ index o this)
  unfolding update_at
  update_at-IsCache in_ index (some row) this c h =
      let first = set_miners_at_index-IsCache range v (in_ ∷ []) index this c h in
      behind _ first (unchanged first.that false first.good)
  update_at-IsCache in_ index none this c h =
      elim (Bool-cases (ltb (length this.miners) this.max_miner_count)) [
        | inl room ↦
            subst (Returns this) (sym (if_true _ _ _ room))
              (load_histroy-IsCache (in_ ∷ []) index this c h)
        | inr full ↦ subst (Returns this) (sym (if_false _ _ _ full)) (of_min full c.has_min)
      ]
    where
      of_min :
          ltb (length this.miners) this.max_miner_count ≡ false
          → (this.miners ≡ []) ⊎ HasMin this.min this.miners
          → Returns this
              (update_full range db in_ index (row_or_nil (lookup this.min this.miners)) this)
      of_min full (inl empty) = absurd (ground (arith, c.table.roomy, ap length empty))
      of_min full (inr l) =
          subst (λ o. Returns this (update_full range db in_ index (row_or_nil o) this))
            (sym l.present) (update_full-IsCache in_ index this l.row c h l.newest)

  -- `update` does not panic on a cache whose rows have one size and are newest first, whose newest slots
  -- are filled, whose miners are distinct and `max_miner_count` at most, and whose `min` is one of them. It keeps all of this and the period, whatever the database answers, and moves the window by a period exactly
  -- if the state's time is past it.
  pub update-IsCache :
      (in_ : MinerState) (this : FsMinerCache)
      → IsCache this
      → 1 ≤ this.time_duration
      → (that : FsMinerCache) × (error : Bool) × (update range db in_ this ≡ ok (that, error))
        × IsCache that
        × (that.max_cached_size ≡ this.max_cached_size)
        × (that.time_duration ≡ this.time_duration)
        × (that.start_time ≡ (
            if (time_to_index this in_.mine_time).1
            then this.start_time + this.time_duration
            else this.start_time))
  unfolding update
  update-IsCache in_ this c period =
      go (time_to_index this in_.mine_time)
        (time_to_index_lem this in_.mine_time c.table.sized period)
    where
      go :
          (at : ℕ × Bool)
          → IsSlotOf this in_.mine_time at
          → (that : FsMinerCache) × (error : Bool) × ((if at.1 && (at.0 == 0)
                then (do_offset this >>= (λ this'.
                    update_at range db in_ at.0 (lookup in_.miner_addr this'.miners) this'))
                else update_at range db in_ at.0 (lookup in_.miner_addr this.miners) this)
              ≡ ok (that, error))
            × IsCache that
            × (that.max_cached_size ≡ this.max_cached_size)
            × (that.time_duration ≡ this.time_duration)
            × (that.start_time
                ≡ (if at.1 then this.start_time + this.time_duration else this.start_time))
      go (i, false) at =
          let last = update_at-IsCache in_ i (lookup in_.miner_addr this.miners) this c at.0 in
          (
            last.that, last.error, last.gives, last.good, last.frame.size, last.frame.period,
            last.frame.start,
          )
      go (i, true) (h, inr (inl (wrong, _, _))) = cc
      go (i, true) (h, inr (inr (wrong, _, _))) = cc
      go (suc i, true) (h, inl (_, first, _)) = cc
      go (zero, true) (h, inl _) =
          let (shifted, runs, good, size, period', start) = do_offset-IsCache this c in
          let last =
            update_at-IsCache in_ 0 (lookup in_.miner_addr shifted.miners) shifted good
              (omega (arith, size, h)) in
          (
            last.that,
            last.error,
            >>=-ok _ runs last.gives,
            last.good,
            last.frame.size ∙ size,
            last.frame.period ∙ period',
            last.frame.start ∙ start,
          )
