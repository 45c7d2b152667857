-- ===== src/MinerCache/Aged.antt =====
-- `do_offset` of fs_miner_cache.go keeps the invariant of the cache.
use filscan_backend.Prelude.{
  ℕ, suc, ◌+◌, ◌-◌, ◌<◌, ◌≡◌, refl, sym, ap, ◌∙◌, Bool, true, false, String, some, [], ◌∷◌, subst,
  length, All, ◌==◌, nat_eq, string_eq, if◌then◌else◌, ok, arith, inl, inr, >>=-ok,
}
use filscan_backend.MinerCache.{Row, Miners, FsMinerCache, lookup}
use filscan_backend.MinerCache.Update.{age_miners, do_offset}
use filscan_backend.MinerCache.Stamps.{age, age_row-age}
use filscan_backend.MinerCache.History.{front_of, age-IsRow}
use filscan_backend.MinerCache.Table.{IsDistinct}
use filscan_backend.MinerCache.Lowest.{AreRows, AtLeast}
use filscan_backend.MinerCache.Invariant.{IsCache}

aged : ℕ → Miners → Miners
aged i [] = []
aged i ((k, row) ∷ m) = (k, age i row) ∷ aged i m

front-age : (i : ℕ) (row : Row) → front_of (age i row) ≡ front_of row
front-age i [] = refl
front-age i (x ∷ row) = refl

age_miners-aged : (i n : ℕ) (m : Miners) → AreRows n m → i < n → age_miners i m ≡ ok (aged i m)
unfolding age_miners aged
age_miners-aged i n [] h b = refl
age_miners-aged i n ((k, row) ∷ m) h b =
    >>=-ok _ (age_row-age i row (omega (arith, h.0.sized, b)))
      (>>=-ok _ (age_miners-aged i n m h.1 b) refl)

aged-AreRows : (i n : ℕ) (m : Miners) → AreRows n m → AreRows n (aged i m)
unfolding aged
aged-AreRows i n [] h = tt
aged-AreRows i n ((k, row) ∷ m) h = (age-IsRow i row h.0, aged-AreRows i n m h.1)

aged_avoids :
    (i : ℕ) (k : String) (m : Miners)
    → All (λ e. (e.0 == k) ≡ false) m
    → All (λ e. (e.0 == k) ≡ false) (aged i m)
unfolding aged
aged_avoids i k [] h = tt
aged_avoids i k (e ∷ m) h = (h.0, aged_avoids i k m h.1)

aged-IsDistinct : (i : ℕ) (m : Miners) → IsDistinct m → IsDistinct (aged i m)
unfolding aged
aged-IsDistinct i [] h = tt
aged-IsDistinct i ((k, row) ∷ m) h = (aged_avoids i k m h.0, aged-IsDistinct i m h.1)

length-aged : (i : ℕ) (m : Miners) → length (aged i m) ≡ length m
unfolding aged
length-aged i [] = refl
length-aged i (e ∷ m) = ap suc (length-aged i m)

lookup-aged :
    (i : ℕ) (k : String) (m : Miners) {row : Row}
    → lookup k m ≡ some row
    → lookup k (aged i m) ≡ some (age i row)
unfolding lookup aged
lookup-aged i k [] e = cc
lookup-aged i k ((j, old) ∷ m) {row} e = go (j == k) (lookup-aged i k m) e
  where
    go :
        (b : Bool)
        → (lookup k m ≡ some row → lookup k (aged i m) ≡ some (age i row))
        → (if b then some old else lookup k m) ≡ some row
        → (if b then some (age i old) else lookup k (aged i m)) ≡ some (age i row)
    go true ih e = ap some (ap (age i) (some-inj e))
      where
        some-inj : some old ≡ some row → old ≡ row
        some-inj e = cc
    go false ih e = ih e

aged-AtLeast :
    (i p : ℕ) (m : Miners)
    → All (λ e. AtLeast p (front_of e.1)) m
    → All (λ e. AtLeast p (front_of e.1)) (aged i m)
unfolding aged
aged-AtLeast i p [] h = tt
aged-AtLeast i p ((k, row) ∷ m) h =
    (subst (AtLeast p) (sym (front-age i row)) h.0, aged-AtLeast i p m h.1)

aged-nil : (i : ℕ) (m : Miners) → m ≡ [] → aged i m ≡ []
unfolding aged
aged-nil i [] e = refl
aged-nil i (x ∷ m) e = cc

-- `do_offset` shifts each row by a slot and the window by a period, and keeps the invariant.
pub do_offset-IsCache :
    (this : FsMinerCache)
    → IsCache this
    → (that : FsMinerCache) × (do_offset this ≡ ok that)
      × IsCache that
      × (that.max_cached_size ≡ this.max_cached_size)
      × (that.time_duration ≡ this.time_duration)
      × (that.start_time ≡ this.start_time + this.time_duration)
unfolding do_offset
do_offset-IsCache this c = (
  record this { miners = aged i this.miners; start_time = this.start_time + this.time_duration },
  >>=-ok _
      (age_miners-aged i this.max_cached_size this.miners c.table.rows
        (omega (arith, c.table.sized)))
      refl,
  record {
    table = record {
      sized = c.table.sized;
      roomy = c.table.roomy;
      rows = aged-AreRows i this.max_cached_size this.miners c.table.rows;
      distinct = aged-IsDistinct i this.miners c.table.distinct;
      bounded = omega (arith, c.table.bounded, length-aged i this.miners);
    };
    has_min = elim c.has_min [
      | inl empty ↦ inl (aged-nil i this.miners empty)
      | inr l ↦ inr (record {
        row = age i l.row;
        state = l.state;
        present = lookup-aged i this.min this.miners l.present;
        newest = front-age i l.row ∙ l.newest;
      })
    ];
  },
  refl,
  refl,
  refl,
)
  where
    i : ℕ
    i = this.max_cached_size - 1
