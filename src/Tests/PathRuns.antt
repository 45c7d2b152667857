-- ===== src/Tests/PathRuns.antt =====
-- The theorems on stored paths at work.
use filscan_backend.Prelude.{
  ℕ, ◌≡◌, ◌≢◌, refl, true, false, ◌⊎◌, inr, ◌↔◌, String, Option, none, List, [], ◌∷◌, min, Result,
  ok, fail, not_found, arith,
}
use Prim.Native.Nat.{max}
use filscan_backend.SyncedPath.{
  FsSyncedTipset, FsSyncedTipsetPath, PathStore, refresh_selc, try_merge_with, models_load,
}
use filscan_backend.SyncedPath.Merge.{Covers, try_merge_with-Covers, try_merge_with_inside}
use filscan_backend.SyncedPath.Walk.{
  walk_down, walk_up, IsDescent, IsAscent, last_synced, synced, walks_lem,
}
use filscan_backend.SyncedPath.Load.{models_load_merges}
use filscan_backend.Tests.{tip_ops, tip_1, tip_2, tip_3}

abbrev tipset : String → String → ℕ → FsSyncedTipset
tipset key parent_key height = record { key = key; parent_key = parent_key; height = height }

-- Heights 5 to 9, 2 to 6, 6 to 7, and 1 to 2.
abbrev path_59 : FsSyncedTipsetPath
path_59 = record { head = tipset "h9" "h8" 9; tail = tipset "h5" "h4" 5; upsert_selc = none }

abbrev path_26 : FsSyncedTipsetPath
path_26 = record { head = tipset "h6" "h5" 6; tail = tipset "h2" "h1" 2; upsert_selc = none }

abbrev path_67 : FsSyncedTipsetPath
path_67 = record { head = tipset "h7" "h6" 7; tail = tipset "h6" "h5" 6; upsert_selc = none }

abbrev path_12 : FsSyncedTipsetPath
path_12 = record { head = tipset "g2" "g1" 2; tail = tipset "g1" "g0" 1; upsert_selc = none }

merged : (try_merge_with path_59 path_26).1 ≡ true
unfolding try_merge_with
merged = refl

try_merge_with-Covers_example :
    Covers (try_merge_with path_59 path_26).0 3
    × ((try_merge_with path_59 path_26).0.head.height ≡ max 9 6)
    × ((try_merge_with path_59 path_26).0.tail.height ≡ min 5 2)
try_merge_with-Covers_example =
    try_merge_with-Covers path_59 path_26 3 (omega arith) (omega arith) (λ i. ground arith)
      (λ i. ground arith) merged (inr (omega arith, omega arith))

try_merge_with_inside_example :
    ((try_merge_with path_59 path_67).1 ≡ true)
    × ((try_merge_with path_59 path_67).0.tail ≡ path_67.tail)
    × Covers path_59 5
    × ¬ Covers (try_merge_with path_59 path_67).0 5
try_merge_with_inside_example =
    try_merge_with_inside path_59 path_67 (omega arith) (omega arith, omega arith)

abbrev path_3 : FsSyncedTipsetPath
path_3 = record { head = synced tip_3; tail = synced tip_3; upsert_selc = none }

abbrev path_1 : FsSyncedTipsetPath
path_1 = record { head = synced tip_1; tail = synced tip_1; upsert_selc = none }

walks_example :
    (((walk_down (path_3 ∷ []) (tip_2 ∷ tip_1 ∷ [])).1 ≡ true)
      ↔ IsDescent "t2" (tip_2 ∷ tip_1 ∷ []))
    × (((walk_down (path_3 ∷ []) (tip_2 ∷ tip_1 ∷ [])).1 ≡ false)
        ⊎ ((walk_down (path_3 ∷ []) (tip_2 ∷ tip_1 ∷ [])).0
            ≡ record path_3 { tail = last_synced path_3.tail (tip_2 ∷ tip_1 ∷ []) } ∷ []))
    × (((walk_up (path_3 ∷ []) (tip_2 ∷ tip_3 ∷ [])).1 ≡ true) ↔ IsAscent "t3" (tip_2 ∷ tip_3 ∷ []))
    × (((walk_up (path_3 ∷ []) (tip_2 ∷ tip_3 ∷ [])).1 ≡ false)
        ⊎ ((walk_up (path_3 ∷ []) (tip_2 ∷ tip_3 ∷ [])).0
            ≡ record path_3 { head = last_synced path_3.head (tip_2 ∷ tip_3 ∷ []) } ∷ []))
walks_example = walks_lem path_3 [] (tip_2 ∷ tip_1 ∷ []) (tip_2 ∷ tip_3 ∷ [])

-- A database that holds the paths, and removes from the front.
abbrev remove_front : List FsSyncedTipsetPath → Option (ℕ × ℕ) → Result (List FsSyncedTipsetPath)
remove_front [] selc = fail not_found
remove_front (p ∷ l) selc = ok l

abbrev pub store : PathStore (List FsSyncedTipsetPath)
store = record { find_all = λ db. ok db; upsert = λ db selc p. ok (p ∷ db); remove = remove_front }

refreshed_merge : (try_merge_with (refresh_selc path_59) (refresh_selc path_26)).1 ≡ true
unfolding try_merge_with refresh_selc
refreshed_merge = refl

models_load_merges_example : models_load store 4 (path_26 ∷ path_59 ∷ []) ≢ ok ([], [])
models_load_merges_example =
    models_load_merges store 4 (path_26 ∷ path_59 ∷ []) (path_26 ∷ path_59 ∷ [])
      (refresh_selc path_59) (refresh_selc path_26) [] refl refl refreshed_merge ([], [])
