-- ===== src/Syncer/Safe.antt =====
-- The handlers of a safe tipset in filscaner/fs_syncer.go: what is pushed off the cache is stored, and
-- extends the stored path upwards.
use filscan_backend.Prelude.{
  ℕ, ◌≡◌, ◌⊎◌, refl, ap, ◌∙◌, Bool, true, false, String, Option, none, some, List, [], ◌∷◌, ◌==◌,
  string_eq, if◌then◌else◌, Fault, Result, ok, Written, done, broken, fail, deref, ◌>>=◌, >>=-ok,
  inl, inr,
}
use filscan_backend.Chain.{TipsetOps}
use filscan_backend.Actors.{ActorTables}
use filscan_backend.BlockMessage.{TipsetBlockMessages}
use filscan_backend.BlockMessage.Chunks.{bulk_upsert_block_message_tipset}
use filscan_backend.BlockMessage.Listed.{FsModelsData, list_models_data}
use filscan_backend.SyncedPath.{
  is_my_child_, update_with_tipset, FsSyncedTipset, FsSyncedTipsetPath, PathStore,
  insert_head_child, update_with_child, models_upsert_front, models_upsert, refresh_selc,
  push_new_path,
}
use filscan_backend.SyncedPath.Walk.{synced}
use filscan_backend.Syncer.Genesis.{Collections}

-- `notified` is what was sent to the channel of miners, `tasks` the tipsets from which a goroutine was
-- started to sync to the genesis, both the latest first; `is_second` says which handler is set.
pub record SafeState (D T : Type 0) : Type 0 where
  pub db : D
  pub paths : List FsSyncedTipsetPath
  pub notified : List (List (List String))
  pub tasks : List T
  pub is_second : Bool

abbrev pub write_data : {D : Type 0} → Collections D → D → FsModelsData → Written D
write_data collections db built =
    bulk_upsert_block_message_tipset collections.upsert_msg collections.upsert_block
      collections.upsert_tipset db built.messages built.blocks built.tipsets

module _ {D T : Type 0} ⦃ops : TipsetOps T⦄ (tables : ActorTables) (format : ℕ → String)
    (store : PathStore D) (collections : Collections D) where
  -- The error of the new path's write is not looked at.
  unfoldable pub task_sync_to_genesis : SafeState D T → T → SafeState D T
  task_sync_to_genesis st tipset =
      let (paths, written) = push_new_path store st.db st.paths tipset in
      record st {
        db = elim written [ ok db ↦ db | fail e ↦ st.db ];
        paths = paths;
        tasks = tipset ∷ st.tasks;
      }

  -- With the result of the write.
  unfoldable pub first_written : SafeState D T → T → Written D → SafeState D T
  first_written st tipset (broken db e) = record st { db = db }
  first_written st tipset (done db) = record (task_sync_to_genesis (record st { db = db }) tipset) {
    is_second = true;
  }

  unfoldable pub handle_first_safe_tipset :
      SafeState D T → TipsetBlockMessages T → Result (SafeState D T)
  handle_first_safe_tipset st blockmessage = do
    built ← list_models_data tables format (blockmessage ∷ [])
    tipset ← deref blockmessage.tipset
    ok (first_written st tipset (write_data collections st.db built))

  unfoldable pub data_written : SafeState D T → Written D → SafeState D T
  data_written st (broken db e) = record st { db = db }
  data_written st (done db) = record st { db = db }

  unfoldable pub path_written :
      SafeState D T
      → TipsetBlockMessages T
      → Result (D × List FsSyncedTipsetPath)
      → Result (SafeState D T)
  path_written st in_ (fail e) = ok st
  path_written st in_ (ok (db, paths)) = do
    built ← list_models_data tables format (in_ ∷ [])
    ok (
        data_written (record st { db = db; paths = paths; notified = built.miners ∷ st.notified })
          (write_data collections db built))

  unfoldable pub head_inserted :
      SafeState D T
      → TipsetBlockMessages T
      → List FsSyncedTipsetPath × Bool
      → Result (SafeState D T)
  head_inserted st in_ (paths, false) = ok st
  head_inserted st in_ (paths, true) =
      path_written (record st { paths = paths }) in_ (models_upsert_front store st.db paths)

  -- The tipset of `in_` is not nil.
  unfoldable pub handle_secod_safe_tipset :
      SafeState D T → Option (TipsetBlockMessages T) → Result (SafeState D T)
  handle_secod_safe_tipset st none = ok st
  handle_secod_safe_tipset st (some in_) = do
    tipset ← deref in_.tipset
    head_inserted st in_ (insert_head_child st.paths tipset)

  -- What `handle_secod_safe_tipset` leaves of a child of the head: the path is not written, or its data
  -- is not, or both are.
  abbrev pub IsStored :
      SafeState D T
      → FsSyncedTipsetPath
      → List FsSyncedTipsetPath
      → FsModelsData
      → SafeState D T
      → Type 0
  IsStored st front l built st' =
      ((e : Fault) × (store.upsert st.db front.upsert_selc front ≡ fail e)
        × (st' ≡ record st { paths = front ∷ l }))
      ⊎ ((db : D) × (store.upsert st.db front.upsert_selc front ≡ ok db)
          × (((e : Fault) × (part : D) × (write_data collections db built ≡ broken part e)
                × (st' ≡ record st {
                  db = part;
                  paths = refresh_selc front ∷ l;
                  notified = built.miners ∷ st.notified;
                }))
              ⊎ ((db' : D) × (write_data collections db built ≡ done db')
                  × (st' ≡ record st {
                    db = db';
                    paths = refresh_selc front ∷ l;
                    notified = built.miners ∷ st.notified;
                  }))))

  insert_head_child-synced :
      (front : FsSyncedTipsetPath) (l : List FsSyncedTipsetPath) (t : T)
      → insert_head_child (front ∷ l) t ≡ (
          if front.head.key == ops.parents t
          then (record front { head = synced t } ∷ l, true)
          else (front ∷ l, false))
  unfolding insert_head_child update_with_child is_my_child_ update_with_tipset
  insert_head_child-synced front l t = go (front.head.key == ops.parents t)
    where
      go :
          (b : Bool)
          → (let (head, updated) : FsSyncedTipset × Bool =
                if b then (synced t, true) else (front.head, false) in
              ◌≡◌ {A = List FsSyncedTipsetPath × Bool}
                (record front { head = head } ∷ l, updated)
                (if b then (record front { head = synced t } ∷ l, true) else (front ∷ l, false)))
      go true = refl
      go false = refl

  path_written-IsStored :
      (st : SafeState D T) (in_ : TipsetBlockMessages T) (built : FsModelsData)
      (front : FsSyncedTipsetPath) (l : List FsSyncedTipsetPath)
      → list_models_data tables format (in_ ∷ []) ≡ ok built
      → (st' : SafeState D T) × (path_written
            (record st { paths = front ∷ l })
            in_
            (models_upsert_front store st.db (front ∷ l))
          ≡ ok st')
        × IsStored st front l built st'
  unfolding path_written data_written models_upsert_front models_upsert
  path_written-IsStored st in_ built front l b =
      by_path (store.upsert st.db front.upsert_selc front) refl
    where
      Stored : Result (SafeState D T) → Type 0
      Stored run = (st' : SafeState D T) × (run ≡ ok st') × IsStored st front l built st'

      kept : D → SafeState D T
      kept db = record st {
        db = db;
        paths = refresh_selc front ∷ l;
        notified = built.miners ∷ st.notified;
      }

      refreshed : D → Result (D × FsSyncedTipsetPath)
      refreshed db = ok (db, refresh_selc front)

      in_list : D × FsSyncedTipsetPath → Result (D × List FsSyncedTipsetPath)
      in_list (db, path) = ok (db, path ∷ l)

      by_data :
          (db : D)
          → store.upsert st.db front.upsert_selc front ≡ ok db
          → (w : Written D) → write_data collections db built ≡ w
          → Stored (ok (data_written (kept db) w))
      by_data db e (broken part f) w = (kept part, refl, inr (db, e, inl (f, part, w, refl)))
      by_data db e (done db') w = (kept db', refl, inr (db, e, inr (db', w, refl)))

      by_path :
          (u : Result D)
          → store.upsert st.db front.upsert_selc front ≡ u
          → Stored
              (path_written (record st { paths = front ∷ l }) in_ (u >>= refreshed >>= in_list))
      by_path (fail f) e = (record st { paths = front ∷ l }, refl, inl (f, e, refl))
      by_path (ok db) e =
          let (st', runs, stored) = by_data db e (write_data collections db built) refl in
          (st', >>=-ok _ b runs, stored)

  -- A tipset that is no child of the head of the front path is not stored, and nothing changes. A child
  -- becomes the head in any case: if the path cannot be written, nothing is stored; if the path is
  -- written, its miners are notified before the data is written, and if this fails the stored path has
  -- a tipset of whose data only that is stored which was written before the failure.
  pub handle_secod_safe_tipset_lem :
      (st : SafeState D T) (in_ : TipsetBlockMessages T) (t : T) (built : FsModelsData)
      (front : FsSyncedTipsetPath) (l : List FsSyncedTipsetPath)
      → in_.tipset ≡ some t
      → list_models_data tables format (in_ ∷ []) ≡ ok built
      → st.paths ≡ front ∷ l
      → (((front.head.key == ops.parents t) ≡ false)
          × (handle_secod_safe_tipset st (some in_) ≡ ok st))
        ⊎ (((front.head.key == ops.parents t) ≡ true)
            × ((st' : SafeState D T) × (handle_secod_safe_tipset st (some in_) ≡ ok st')
                × IsStored st (record front { head = synced t }) l built st'))
  unfolding handle_secod_safe_tipset head_inserted
  handle_secod_safe_tipset_lem st in_ t built front l e b p =
      go (front.head.key == ops.parents t) refl
    where
      handled :
          (c : Bool)
          → (front.head.key == ops.parents t) ≡ c
          → handle_secod_safe_tipset st (some in_)
            ≡ head_inserted st in_
                (if c then (record front { head = synced t } ∷ l, true) else (front ∷ l, false))
      handled c same = >>=-ok _ (ap deref e) (
          ap (λ paths. head_inserted st in_ (insert_head_child paths t)) p
          ∙ ap (head_inserted st in_) (insert_head_child-synced front l t)
          ∙ ap
              (λ c.
                head_inserted st in_
                  (if c then (record front { head = synced t } ∷ l, true) else (front ∷ l, false)))
              same)

      go :
          (c : Bool)
          → (front.head.key == ops.parents t) ≡ c
          → ((c ≡ false) × (handle_secod_safe_tipset st (some in_) ≡ ok st))
            ⊎ ((c ≡ true)
                × ((st' : SafeState D T) × (handle_secod_safe_tipset st (some in_) ≡ ok st')
                    × IsStored st (record front { head = synced t }) l built st'))
      go false same = inl (refl, handled false same)
      go true same =
          let (st', runs, stored) =
            path_written-IsStored st in_ built (record front { head = synced t }) l b in
          inr (refl, (st', handled true same ∙ runs, stored))
