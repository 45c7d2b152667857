-- ===== src/MinerCache/Placing.antt =====
-- Writing the row of one miner in fs_miner_cache.go, before `min` is found again.
use filscan_backend.Prelude.{
  ℕ, suc, ◌<◌, ◌≡◌, refl, sym, ap, ◌∙◌, false, String, none, some, [], ◌∷◌, subst, length, ltb,
  ◌==◌, string_eq, if◌then◌else◌, ok, ◌>>=◌, arith, Bool-cases, inl, inr, if_true, if_false, ==_iff,
  >>=-ok,
}
use filscan_backend.MinerCache.{
  MinerState, Row, Miners, FsMinerCache, lookup, store, delete, empty_row, set_existing, set_over,
  read, add_miner, take_place, row_or_nil, insert_miner,
}
use filscan_backend.MinerCache.Rows.{raise, stamp, set_existing-raise}
use filscan_backend.MinerCache.Stamps.{set_new-stamp, set_over-stamp}
use filscan_backend.MinerCache.History.{front_of, IsRow, raise-IsRow, stamp-IsRow}
use filscan_backend.MinerCache.Table.{
  store-All, delete-All, store-IsDistinct, delete-IsDistinct, length-store_new, length-store_old,
  length-delete, lookup-store_other, lookup-All,
}
use filscan_backend.MinerCache.Lowest.{HasMin}
use filscan_backend.MinerCache.Invariant.{IsTable, IsCache, HasSameFrame-refl, Runs, stored}

-- A miner that the cache has.

module _ (this : FsMinerCache) (index : ℕ) (inv : MinerState) {arr : Row} (t : IsTable this)
    (h : index < this.max_cached_size) (e : lookup inv.miner_addr this.miners ≡ some arr) where
  miner-IsRow : IsRow this.max_cached_size inv.miner_addr arr
  miner-IsRow =
      lookup-All (λ x. IsRow this.max_cached_size x.0 x.1) inv.miner_addr this.miners t.rows e

  pub existing_runs :
      (set_existing index inv arr
        >>= (λ arr'. ok (record this { miners = store inv.miner_addr arr' this.miners })))
      ≡ ok (record this { miners = store inv.miner_addr (raise (suc index) inv arr) this.miners })
  existing_runs =
      >>=-ok _
        (set_existing-raise index inv arr (subst (λ n. index < n) (sym miner-IsRow.sized) h)
          miner-IsRow.history)
        refl

  pub existing-IsTable :
      IsTable
        (record this { miners = store inv.miner_addr (raise (suc index) inv arr) this.miners })
  existing-IsTable = record {
    sized = t.sized;
    roomy = t.roomy;
    rows =
        store-All (λ x. IsRow this.max_cached_size x.0 x.1) inv.miner_addr _ this.miners
          (raise-IsRow (suc index) inv arr refl miner-IsRow) t.rows;
    distinct = store-IsDistinct inv.miner_addr _ this.miners t.distinct;
    bounded = omega (
      arith,
      t.bounded,
      length-store_old inv.miner_addr (raise (suc index) inv arr) this.miners e,
    );
  }

-- A miner that the cache does not have, while there is room.
added :
    (this : FsMinerCache) (index : ℕ) (inv : MinerState)
    → IsTable this
    → index < this.max_cached_size
    → lookup inv.miner_addr this.miners ≡ none
    → length this.miners < this.max_miner_count
    → Runs this (add_miner index inv this) IsTable
unfolding add_miner
added this index inv t h absent room =
    let row = stamp (suc index) inv (empty_row this.max_cached_size) in
    stored this (store inv.miner_addr row this.miners) t
      (store-All (λ x. IsRow this.max_cached_size x.0 x.1) inv.miner_addr _ this.miners
        (stamp-IsRow this.max_cached_size index inv h) t.rows)
      (store-IsDistinct inv.miner_addr _ this.miners t.distinct)
      (omega (arith, room, length-store_new inv.miner_addr row this.miners absent))
      (>>=-ok _ (set_new-stamp this.max_cached_size index inv h) refl)

length-replace :
    (k j : String) (row : Row) (m : Miners) {old : Row}
    → lookup j m ≡ some old
    → lookup k m ≡ none
    → length (delete j (store k row m)) ≡ length m
length-replace k j row m {old} present absent = omega (
  arith,
  length-store_new k row m absent,
  length-delete j (store k row m) (lookup-store_other j k row m apart ∙ present),
)
  where
    apart : (k == j) ≡ false
    apart = elim (Bool-cases (k == j)) [
      | inl same ↦ cc (absent, present, (==_iff k j).0 same)
      | inr other ↦ other
    ]

pub read-newest : (row : Row) {s : MinerState} → front_of row ≡ some s → read row 0 ≡ ok (some s)
read-newest [] e = cc
read-newest (x ∷ row) e = ap ok e

-- In a full cache the new miner takes the place of `min`, if it has more power.
replaced :
    (this : FsMinerCache) (index : ℕ) (inv : MinerState) {arr : Row} {s : MinerState}
    → IsTable this
    → index < this.max_cached_size
    → lookup inv.miner_addr this.miners ≡ none
    → lookup this.min this.miners ≡ some arr
    → front_of arr ≡ some s
    → Runs this (take_place index inv arr this) IsTable
unfolding take_place
replaced this index inv {arr} {s} t h absent present newest =
    elim (Bool-cases (ltb s.power inv.power)) [
      | inl less ↦
          stored this (delete this.min (store inv.miner_addr row this.miners)) t
            (delete-All Rowed this.min _ (
              store-All Rowed inv.miner_addr _ this.miners
                (stamp-IsRow this.max_cached_size index inv h) t.rows))
            (delete-IsDistinct this.min _
              (store-IsDistinct inv.miner_addr _ this.miners t.distinct))
            (omega (
              arith,
              t.bounded,
              length-replace inv.miner_addr this.min row this.miners present absent,
            ))
            (front_read (
              if_true _ _ _ less
              ∙ >>=-ok _
                  (set_over-stamp this.max_cached_size index inv arr
                    (lookup-All Rowed this.min this.miners t.rows present).sized h)
                  refl))
      | inr more ↦ record {
        that = this;
        gives = front_read (if_false _ _ _ more);
        good = t;
        frame = HasSameFrame-refl this;
      }
    ]
  where
    Rowed : String × Row → Type 0
    Rowed x = IsRow this.max_cached_size x.0 x.1

    row : Row
    row = stamp (suc index) inv (empty_row this.max_cached_size)

    front_read :
        {that : FsMinerCache}
        → (if ltb s.power inv.power
            then set_over this.max_cached_size index inv arr >>= (λ arr'.
              ok (record this { miners = delete this.min (store inv.miner_addr arr' this.miners) }))
            else ok this)
          ≡ ok that
        → take_place index inv arr this ≡ ok that
    front_read e = >>=-ok _ (read-newest arr newest) e

pub inserted :
    (this : FsMinerCache) (index : ℕ) (inv : MinerState)
    → IsCache this
    → index < this.max_cached_size
    → lookup inv.miner_addr this.miners ≡ none
    → Runs this (insert_miner index inv this) IsTable
unfolding insert_miner
inserted this index inv c h e = elim (Bool-cases (ltb (length this.miners) this.max_miner_count)) [
  | inl room ↦
      subst (λ run. Runs this run IsTable) (sym (if_true _ _ _ room))
        (added this index inv c.table h e (ground arith))
  | inr full ↦
      subst (λ run. Runs this run IsTable) (sym (if_false _ _ _ full))
        (subst (λ o. Runs this (take_place index inv (row_or_nil o) this) IsTable)
          (sym (some_min full).present)
          (replaced this index inv c.table h e (some_min full).present (some_min full).newest))
]
  where
    some_min : ltb (length this.miners) this.max_miner_count ≡ false → HasMin this.min this.miners
    some_min full = elim c.has_min [
      | inl empty ↦ absurd (ground (arith, c.table.roomy, ap length empty))
      | inr l ↦ l
    ]
