-- ===== src/SyncedPath.antt =====
-- filscaner/fs_sync_models.go: which parts of the chain are stored. A path is a stretch of stored
-- tipsets from its head down to its tail; the list of paths is kept in memory and in the database.
-- Each method of the list runs under its mutex. Heads and tails are never nil.
pub mod Merge
pub mod Walk
pub mod Load
use filscan_backend.Prelude.{
  ℕ, zero, suc, ◌≡◌, Bool, true, false, ◌&&◌, ◌||◌, String, Option, none, some, List, [], ◌∷◌, map,
  reverse, ltb, leb, ◌==◌, nat_eq, string_eq, if◌then◌else◌, Fault, Result, ok, fail,
  nil_dereference, out_of_fuel, ◌>>=◌,
}
use filscan_backend.Chain.{TipsetOps}

pub record FsSyncedTipset : Type 0 where
  pub key : String
  pub parent_key : String
  pub height : ℕ

-- The zero value, `&fs_synced_tipset{}`.
unfoldable pub empty_tipset : FsSyncedTipset
empty_tipset = record { key = ""; parent_key = ""; height = 0 }

module _ {T : Type 0} ⦃ops : TipsetOps T⦄ where
  unfoldable pub update_with_tipset : FsSyncedTipset → Option T → FsSyncedTipset
  update_with_tipset self none = self
  update_with_tipset self (some tipset) = record {
    key = ops.key tipset;
    parent_key = ops.parents tipset;
    height = ops.height tipset;
  }

  -- The methods on a receiver that may be nil.
  unfoldable pub is_my_child_ : Option FsSyncedTipset → Option T → Bool
  is_my_child_ none tipset = false
  is_my_child_ (some self) none = false
  is_my_child_ (some self) (some tipset) = self.key == ops.parents tipset

  unfoldable pub is_my_parent : Option FsSyncedTipset → Option T → Bool
  is_my_parent none tipset = false
  is_my_parent (some self) none = false
  is_my_parent (some self) (some tipset) = self.parent_key == ops.key tipset

  -- The receiver after the call, and the result.
  unfoldable pub update_with_parent : FsSyncedTipset → Option T → FsSyncedTipset × Bool
  unfolding is_my_parent update_with_tipset
  update_with_parent self tipset =
      if is_my_parent (some self) tipset
      then (update_with_tipset self tipset, true)
      else (self, false)

  unfoldable pub update_with_child : FsSyncedTipset → Option T → FsSyncedTipset × Bool
  unfolding is_my_child_ update_with_tipset
  update_with_child self tipset =
      if is_my_child_ (some self) tipset
      then (update_with_tipset self tipset, true)
      else (self, false)

unfoldable pub is_my_child__ : Option FsSyncedTipset → Option FsSyncedTipset → Bool
is_my_child__ none tipset = false
is_my_child__ (some self) none = false
is_my_child__ (some self) (some tipset) =
    self.key == tipset.parent_key && ltb self.height tipset.height

-- `upsert_selc` holds the two heights under which the path stands in the database; nil is `none`.
pub record FsSyncedTipsetPath : Type 0 where
  pub head : FsSyncedTipset
  pub tail : FsSyncedTipset
  pub upsert_selc : Option (ℕ × ℕ)

unfoldable pub refresh_selc : FsSyncedTipsetPath → FsSyncedTipsetPath
refresh_selc self = record self { upsert_selc = some (self.head.height, self.tail.height) }

unfoldable pub fs_new_synced_tipset_path : FsSyncedTipset → FsSyncedTipset → FsSyncedTipsetPath
unfolding refresh_selc
fs_new_synced_tipset_path head tail =
    refresh_selc (record { head = head; tail = tail; upsert_selc = none })

-- The receiver after the call, and the result.
unfoldable pub try_merge_with : FsSyncedTipsetPath → FsSyncedTipsetPath → FsSyncedTipsetPath × Bool
try_merge_with self fstp =
    if ltb fstp.head.height self.head.height
    then (if self.tail.parent_key == fstp.head.key || leb self.tail.height fstp.head.height
        then (record self { tail = fstp.tail }, true)
        else (self, false))
    else if ltb self.head.height fstp.head.height
    then (if fstp.tail.parent_key == self.head.key || leb fstp.tail.height self.head.height
        then (record self { head = fstp.head }, true)
        else (self, false))
    else if ltb fstp.tail.height self.tail.height
    then (record self { tail = fstp.tail }, true)
    else (self, true)

-- The collection of paths in MongoDB, with the calls that the code makes: `Find(nil).Sort(..).Limit(20)`,
-- `Upsert` and `Remove` of the document that a selector finds.
pub record PathStore (D : Type 0) : Type 0 where
  pub find_all : D → Result (List FsSyncedTipsetPath)
  pub upsert : D → Option (ℕ × ℕ) → FsSyncedTipsetPath → Result D
  pub remove : D → Option (ℕ × ℕ) → Result D

-- `try_merge_front_with_next`: the list after the call, and the path that was merged into the front.
unfoldable pub try_merge_front_with_next :
    List FsSyncedTipsetPath → List FsSyncedTipsetPath × Option FsSyncedTipsetPath
try_merge_front_with_next [] = ([], none)
try_merge_front_with_next (front ∷ []) = (front ∷ [], none)
try_merge_front_with_next (front ∷ next ∷ l) =
    let (front', merged) = try_merge_with front next in
    if merged then (front' ∷ l, some next) else (front' ∷ next ∷ l, none)

unfoldable pub front_synced_path : List FsSyncedTipsetPath → Option (ℕ × ℕ)
front_synced_path [] = none
front_synced_path (front ∷ l) = front.upsert_selc

unfoldable pub front_tail : List FsSyncedTipsetPath → Option FsSyncedTipset
front_tail [] = none
front_tail (front ∷ l) = some front.tail

module _ {T : Type 0} ⦃ops : TipsetOps T⦄ where
  -- A path of one tipset, as the three callers build it.
  unfoldable pub single : T → FsSyncedTipsetPath
  unfolding fs_new_synced_tipset_path update_with_tipset empty_tipset
  single tipset =
      fs_new_synced_tipset_path (update_with_tipset empty_tipset (some tipset))
        (update_with_tipset empty_tipset (some tipset))

  unfoldable pub insert_tail_parent : List FsSyncedTipsetPath → T → List FsSyncedTipsetPath × Bool
  unfolding single update_with_parent
  insert_tail_parent [] tipset = (single tipset ∷ [], true)
  insert_tail_parent (front ∷ l) tipset =
      let (tail, updated) = update_with_parent front.tail (some tipset) in
      (record front { tail = tail } ∷ l, updated)

  unfoldable pub insert_head_child : List FsSyncedTipsetPath → T → List FsSyncedTipsetPath × Bool
  unfolding single update_with_child
  insert_head_child [] tipset = (single tipset ∷ [], true)
  insert_head_child (front ∷ l) tipset =
      let (head, updated) = update_with_child front.head (some tipset) in
      (record front { head = head } ∷ l, updated)

module _ {D : Type 0} (store : PathStore D) where
  unfoldable pub models_del : D → FsSyncedTipsetPath → Result D
  models_del db self = store.remove db self.upsert_selc

  -- The database and the receiver after the call.
  unfoldable pub models_upsert : D → FsSyncedTipsetPath → Result (D × FsSyncedTipsetPath)
  unfolding refresh_selc
  models_upsert db self = do
    db' ← store.upsert db self.upsert_selc self
    ok (db', refresh_selc self)

  unfoldable pub models_upsert_front :
      D → List FsSyncedTipsetPath → Result (D × List FsSyncedTipsetPath)
  unfolding models_upsert
  models_upsert_front db [] = fail nil_dereference
  models_upsert_front db (front ∷ l) = do
    (db', front') ← models_upsert db front
    ok (db', front' ∷ l)

  -- The path stands in front of the list also if the write fails.
  unfoldable pub push_new_path :
      {T : Type 0} ⦃ops : TipsetOps T⦄
      → D
      → List FsSyncedTipsetPath
      → T
      → List FsSyncedTipsetPath × Result D
  unfolding single models_upsert
  push_new_path db l tipset = elim (models_upsert db (single tipset)) [
    | ok (db', stp) ↦ (stp ∷ l, ok db')
    | fail e ↦ (single tipset ∷ l, fail e)
  ]

  -- `for merged := …; merged != nil; { … }` of `models_load`: the loop has no post statement, so that
  -- `merged` is the same path in each round.
  pub delete_merged : ℕ → D → FsSyncedTipsetPath → Result D
  unfolding models_del
  delete_merged zero db merged = fail out_of_fuel
  delete_merged (suc fuel) db merged = do db' ← models_del db merged; delete_merged fuel db' merged

  pub load_merged :
      ℕ
      → D
      → List FsSyncedTipsetPath × Option FsSyncedTipsetPath
      → Result (D × List FsSyncedTipsetPath)
  unfolding models_upsert_front
  load_merged fuel db (l, none) = ok (db, l)
  load_merged fuel db (l, some merged) = do
    db' ← delete_merged fuel db merged
    models_upsert_front db' l

  unfoldable pub models_load : ℕ → D → Result (D × List FsSyncedTipsetPath)
  unfolding load_merged refresh_selc
  models_load fuel db = do
    patharr ← store.find_all db
    load_merged fuel db (try_merge_front_with_next (reverse (map refresh_selc patharr)))
