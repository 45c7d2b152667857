-- ===== src/MinerCache/Setting.antt =====
-- `set_miners_at_index` of fs_miner_cache.go keeps the invariant of the cache.
use filscan_backend.Prelude.{
  ℕ, suc, ◌<◌, ◌≡◌, ◌⊎◌, refl, sym, ap, ◌∙◌, String, List, [], ◌∷◌, Option, none, some, ◌==◌, subst,
  string_eq, ok, >>=-ok, inl, inr, Bool-cases, if_true, if_false, ==_iff,
}
use filscan_backend.MinerCache.{
  MinerState, Row, Miners, FsMinerCache, lookup, store, insert_miner, place_miner, set_miner,
  set_each, set_miners_at_index, slc_to_map,
}
use filscan_backend.MinerCache.Lowest.{
  AreRows, VisitsAll, IsLowest, HasMin, IsLowest-HasMin, read-front, refresh_min_max-IsLowest,
}
use filscan_backend.MinerCache.Rows.{raise}
use filscan_backend.MinerCache.History.{IsRow}
use filscan_backend.MinerCache.Table.{lookup-store_other, lookup-All}
use filscan_backend.MinerCache.Invariant.{
  IsTable, IsCache, HasSameFrame-refl, HasSameFrame-trans, Runs,
}
use filscan_backend.MinerCache.Placing.{existing_runs, existing-IsTable, inserted}

lookup-store_same : (k : String) (row : Row) (m : Miners) → lookup k (store k row m) ≡ some row
unfolding lookup store
lookup-store_same k row [] = if_true (k == k) _ _ ((==_iff k k).1 refl)
lookup-store_same k row ((j, old) ∷ m) = elim (Bool-cases (j == k)) [
  | inl same ↦
      ap (lookup k) (if_true (j == k) _ _ same) ∙ if_true (k == k) _ _ ((==_iff k k).1 refl)
  | inr other ↦
      ap (lookup k) (if_false (j == k) _ _ other)
      ∙ if_false (j == k) _ _ other
      ∙ lookup-store_same k row m
]

not_empty : (k : String) (m : Miners) {arr : Row} → lookup k m ≡ some arr → m ≡ [] → ⊥
unfolding lookup
not_empty k [] found empty = cc
not_empty k (x ∷ m) found empty = cc

-- A miner stays where the row of one is written.
store-HasMin :
    (n : ℕ) (min k : String) (row : Row) (m : Miners)
    → AreRows n (store k row m)
    → HasMin min m
    → HasMin min (store k row m)
store-HasMin n min k row m rows has = elim (Bool-cases (k == min)) [
  | inl same ↦ found row (
      subst (λ i. lookup i (store k row m) ≡ some row) ((==_iff k min).0 same)
        (lookup-store_same k row m))
  | inr other ↦ found has.row (lookup-store_other min k row m other ∙ has.present)
]
  where
    found : (r : Row) → lookup min (store k row m) ≡ some r → HasMin min (store k row m)
    found r e =
        let (s, front, _) =
          read-front r (lookup-All (λ x. IsRow n x.0 x.1) min (store k row m) rows e).front in
        record { row = r; state = s; present = e; newest = front }

module _ (range : (A : Type 0) → List A → List A) (v : VisitsAll range) where
  -- What `set_miner` leaves: a miner that the cache has keeps its place, and `min` stays; where a miner
  -- was missing, `min` is found again.
  record Sets (this : FsMinerCache) (index : ℕ) (inv : MinerState) (o : Option Row) : Type 0 where
    pub run : Runs this (place_miner range index inv o this) IsCache
    pub min :
        ((arr : Row) × (o ≡ some arr)
          × (run.that ≡ record this {
            miners = store inv.miner_addr (raise (suc index) inv arr) this.miners;
          }))
        ⊎ ((o ≡ none) × ((run.that.miners ≡ []) ⊎ IsLowest run.that.min run.that.miners))

  sets :
      (this : FsMinerCache) (index : ℕ) (inv : MinerState) (o : Option Row)
      → IsCache this
      → index < this.max_cached_size
      → lookup inv.miner_addr this.miners ≡ o
      → Sets this index inv o
  unfolding place_miner
  sets this index inv (some arr) c h e =
      let table = existing-IsTable this index inv c.table h e in
      record {
        run = record {
          that = record this {
            miners = store inv.miner_addr (raise (suc index) inv arr) this.miners;
          };
          gives = existing_runs this index inv c.table h e;
          good = record { table = table; has_min = kept table };
          frame = record { size = refl; count = refl; period = refl; start = refl };
        };
        min = inl (arr, refl, refl);
      }
    where
      kept :
          IsTable
            (record this { miners = store inv.miner_addr (raise (suc index) inv arr) this.miners })
          → (store inv.miner_addr (raise (suc index) inv arr) this.miners ≡ [])
            ⊎ HasMin this.min (store inv.miner_addr (raise (suc index) inv arr) this.miners)
      kept table = elim c.has_min [
        | inl empty ↦ absurd (not_empty inv.miner_addr this.miners e empty)
        | inr has ↦
            inr (
              store-HasMin this.max_cached_size this.min inv.miner_addr _ this.miners table.rows
                has)
      ]
  sets this index inv none c h e = refreshed (inserted this index inv c h e)
    where
      refreshed : Runs this (insert_miner index inv this) IsTable → Sets this index inv none
      refreshed first =
          let (min', max', runs, lowest) =
            refresh_min_max-IsLowest range v first.that first.that.max_cached_size first.good.rows
              first.good.distinct in
          record {
            run = record {
              that = record first.that { min = min'; max = max' };
              gives = >>=-ok _ first.gives runs;
              good = record {
                table = record {
                  sized = first.good.sized;
                  roomy = first.good.roomy;
                  rows = first.good.rows;
                  distinct = first.good.distinct;
                  bounded = first.good.bounded;
                };
                has_min = elim lowest [ inl empty ↦ inl empty | inr l ↦ inr (IsLowest-HasMin l) ];
              };
              frame = record {
                size = first.frame.size;
                count = first.frame.count;
                period = first.frame.period;
                start = first.frame.start;
              };
            };
            min = inr (refl, lowest);
          }

  set_miner-IsCache :
      (this : FsMinerCache) (index : ℕ) (inv : MinerState)
      → IsCache this
      → index < this.max_cached_size
      → Runs this (set_miner range index inv this) IsCache
  unfolding set_miner
  set_miner-IsCache this index inv c h =
      (sets this index inv (lookup inv.miner_addr this.miners) c h refl).run

  -- A round of `set_miners_at_index` for a slot of a valid cache does not panic and gives a valid cache.
  -- If the cache has the miner, its row is raised and nothing else changes, `min` included, so that `min`
  -- need not have the lowest power any more. If it does not have it, `min` has the lowest power
  -- afterwards, or the cache is empty.
  pub set_miner-min :
      (this : FsMinerCache) (index : ℕ) (inv : MinerState)
      → IsCache this
      → index < this.max_cached_size
      → (that : FsMinerCache) × (set_miner range index inv this ≡ ok that)
        × IsCache that
        × (((arr : Row) × (lookup inv.miner_addr this.miners ≡ some arr)
              × (that ≡ record this {
                miners = store inv.miner_addr (raise (suc index) inv arr) this.miners;
              }))
            ⊎ ((lookup inv.miner_addr this.miners ≡ none)
                × ((that.miners ≡ []) ⊎ IsLowest that.min that.miners)))
  unfolding set_miner
  set_miner-min this index inv c h =
      let s = sets this index inv (lookup inv.miner_addr this.miners) c h refl in
      (s.run.that, s.run.gives, s.run.good, s.min)

  set_each-IsCache :
      (index : ℕ) (ms : List MinerState) (this : FsMinerCache)
      → IsCache this
      → index < this.max_cached_size
      → Runs this (set_each range index ms this) IsCache
  unfolding set_each
  set_each-IsCache index [] this c h = record {
    that = this;
    gives = refl;
    good = c;
    frame = HasSameFrame-refl this;
  }
  set_each-IsCache index (inv ∷ ms) this c h =
      let first = set_miner-IsCache this index inv c h in
      let rest =
        set_each-IsCache index ms first.that first.good
          (subst (λ n. index < n) (sym first.frame.size) h) in
      record {
        that = rest.that;
        gives = >>=-ok _ first.gives rest.gives;
        good = rest.good;
        frame = HasSameFrame-trans first.frame rest.frame;
      }

  -- `set_miners_at_index` does not panic for a slot of the cache, and keeps the invariant.
  pub set_miners_at_index-IsCache :
      (ms : List MinerState) (index : ℕ) (this : FsMinerCache)
      → IsCache this
      → index < this.max_cached_size
      → Runs this (set_miners_at_index range ms index this) IsCache
  unfolding set_miners_at_index
  set_miners_at_index-IsCache ms index this c h =
      set_each-IsCache index (range MinerState (slc_to_map ms)) this c h
