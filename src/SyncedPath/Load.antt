-- ===== src/SyncedPath/Load.antt =====
-- What `models_load` makes of the stored paths.
use filscan_backend.Prelude.{
  ℕ, zero, suc, ◌≡◌, ◌≢◌, refl, sym, ◌∙◌, true, List, [], ◌∷◌, map, reverse, arith, none, ok, fail,
  Fault, ◌>>=◌, >>=-eq-ok,
}
use filscan_backend.SyncedPath.{
  FsSyncedTipsetPath, PathStore, refresh_selc, try_merge_with, try_merge_front_with_next,
  delete_merged, models_load, models_upsert_front,
}
use filscan_backend.SyncedPath.Merge.{try_merge_with_comm}

module _ {D : Type 0} (store : PathStore D) where
  delete_merged-ne-ok :
      (fuel : ℕ) (db db' : D) (merged : FsSyncedTipsetPath)
      → delete_merged store fuel db merged ≢ ok db'
  unfolding delete_merged
  delete_merged-ne-ok zero db db' merged = λ e. cc
  delete_merged-ne-ok (suc fuel) db db' merged = λ e.
      let (db₁, _, rest) = >>=-eq-ok (store.remove db merged.upsert_selc) _ e in
      delete_merged-ne-ok fuel db₁ db' merged rest

  -- The paths as `models_load` puts them into its list.
  abbrev pub loaded : List FsSyncedTipsetPath → List FsSyncedTipsetPath
  loaded paths = reverse (map refresh_selc paths)

  load_lem :
      (fuel : ℕ) (db : D) (paths : List FsSyncedTipsetPath) (p q : FsSyncedTipsetPath)
      (l : List FsSyncedTipsetPath)
      → store.find_all db ≡ ok paths
      → loaded paths ≡ p ∷ q ∷ l
      → (try_merge_with p q).1 ≡ true
      → models_load store fuel db ≡ (do
        db' ← delete_merged store fuel db q
        models_upsert_front store db' ((try_merge_with p q).0 ∷ l))
  unfolding models_load try_merge_front_with_next
  load_lem fuel db paths p q l e f g = rw e (rw f (rw g))

  front_kept :
      (l : List FsSyncedTipsetPath)
      → (try_merge_front_with_next l).1 ≡ none
      → (try_merge_front_with_next l).0 ≡ l
  unfolding try_merge_front_with_next
  front_kept [] h = refl
  front_kept (p ∷ []) h = refl
  front_kept (p ∷ q ∷ l) h = ground (arith, try_merge_with_comm p q)

  -- Where the first two loaded paths merge, `models_load` never succeeds, for any fuel: its loop deletes
  -- the merged path again and again, and ends only by an error of the database.
  pub models_load_merges :
      (fuel : ℕ) (db : D) (paths : List FsSyncedTipsetPath) (p q : FsSyncedTipsetPath)
      (l : List FsSyncedTipsetPath)
      → store.find_all db ≡ ok paths
      → loaded paths ≡ p ∷ q ∷ l
      → (try_merge_with p q).1 ≡ true
      → (r : D × List FsSyncedTipsetPath) → models_load store fuel db ≢ ok r
  models_load_merges fuel db paths p q l e f g r = λ loads.
      let (db', deleted, _) =
        >>=-eq-ok (delete_merged store fuel db q) _
          (sym (load_lem fuel db paths p q l e f g) ∙ loads) in
      delete_merged-ne-ok fuel db db' q deleted

  -- If moreover the first deletion of that path succeeds and the second one fails, as it does when the
  -- path is gone, `models_load` returns that error, for any fuel of 2 or more.
  pub models_load_merges_error :
      (fuel : ℕ) (db db' : D) (x : Fault) (paths : List FsSyncedTipsetPath)
      (p q : FsSyncedTipsetPath) (l : List FsSyncedTipsetPath)
      → store.find_all db ≡ ok paths
      → loaded paths ≡ p ∷ q ∷ l
      → (try_merge_with p q).1 ≡ true
      → store.remove db q.upsert_selc ≡ ok db'
      → store.remove db' q.upsert_selc ≡ fail x
      → models_load store (suc (suc fuel)) db ≡ fail x
  unfolding delete_merged
  models_load_merges_error fuel db db' x paths p q l e f g h k =
      rw (load_lem (suc (suc fuel)) db paths p q l e f g) (rw h (rw k))
