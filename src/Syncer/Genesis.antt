-- ===== src/Syncer/Genesis.antt =====
-- `sync_to_genesis` of filscaner/fs_syncer.go: tipset by tipset down to the genesis; what is built is
-- kept back and written at 25 tipsets, at a merge with a stored path, and at the genesis.
pub mod Flush
pub mod Lowers
pub mod Ends
pub mod Log
pub mod Stored
use filscan_backend.Prelude.{
  ℕ, zero, suc, Bool, true, false, ◌||◌, String, Option, none, some, List, [], ◌∷◌, ◌++◌, length,
  leb, ◌==◌, nat_eq, if◌then◌else◌, is_some, Result, ok, fail, Written, done, broken,
  nil_dereference, out_of_fuel, api_error, key_mismatch,
}
use filscan_backend.Chain.{TipsetOps, FilscanBlock, FilscanMsg}
use filscan_backend.Actors.{ActorTables}
use filscan_backend.BlockMessage.{FilscanTipset, TipsetBlockMessages}
use filscan_backend.BlockMessage.Chunks.{bulk_upsert_block_message_tipset}
use filscan_backend.BlockMessage.Listed.{FsModelsData, list_models_data}
use filscan_backend.SyncedPath.{
  FsSyncedTipset, FsSyncedTipsetPath, PathStore, insert_tail_parent, try_merge_front_with_next,
  models_upsert_front, models_del, front_tail,
}
use filscan_backend.Syncer.{LotusApi, build_persistence_data}

-- The collections of the database, with `BulkUpsert`.
pub record Collections (D : Type 0) : Type 0 where
  pub upsert_msg : D → List FilscanMsg → Written D
  pub upsert_block : D → List FilscanBlock → Written D
  pub upsert_tipset : D → List FilscanTipset → Written D

-- `pending` is `tbml`; `notified` is what was sent to the channel, the latest first (nil is `none`); objects are made
-- at `address` and behind it. Of a path's write that fails the database before it is kept.
pub record Syncing (D T : Type 0) : Type 0 where
  pub db : D
  pub paths : List FsSyncedTipsetPath
  pub pending : List (TipsetBlockMessages T)
  pub notified : List (Option (List (List String)))
  pub address : ℕ

abbrev pub max_pending : ℕ
max_pending = 25

module _ {D T : Type 0} ⦃ops : TipsetOps T⦄ (api : LotusApi T) (tables : ActorTables)
    (format : ℕ → String) (store : PathStore D) (collections : Collections D) where
  -- The stages of the write, in the order of the calls: `api_tipset`, `models_del`,
  -- `models_upsert_front`, `models_upsert`, `build_models_data`. Each takes the result of its call.
  pub after_tipset : Syncing D T → Option T → Syncing D T × Result T
  after_tipset st none = (st, fail api_error)
  after_tipset st (some next) = (record st { pending = [] }, ok next)

  pub after_del : Syncing D T → Result D → Syncing D T × Result T
  after_del st (fail e) = (st, fail e)
  after_del st (ok db) = elim (front_tail st.paths) [
    | none ↦ (record st { db = db }, fail nil_dereference)
    | some tail ↦ after_tipset (record st { db = db }) (api.chain_get_tipset tail.key)
  ]

  pub after_front :
      Syncing D T
      → Option FsSyncedTipsetPath
      → T
      → Result (D × List FsSyncedTipsetPath)
      → Syncing D T × Result T
  after_front st merged parent (fail e) = (st, fail e)
  after_front st none parent (ok (db, paths)) =
      (record st { db = db; paths = paths; pending = [] }, ok parent)
  after_front st (some merged_path) parent (ok (db, paths)) =
      after_del (record st { db = db; paths = paths }) (models_del store db merged_path)

  pub after_upsert :
      Syncing D T → Option FsSyncedTipsetPath → T → Written D → Syncing D T × Result T
  after_upsert st merged parent (broken db e) = (record st { db = db }, fail e)
  after_upsert st merged parent (done db) =
      after_front (record st { db = db }) merged parent (models_upsert_front store db st.paths)

  pub after_build :
      Syncing D T → Option FsSyncedTipsetPath → T → Result FsModelsData → Syncing D T × Result T
  after_build st merged parent (fail e) = (st, fail e)
  after_build st merged parent (ok built) =
      after_upsert (record st { notified = some built.miners ∷ st.notified }) merged parent
        (bulk_upsert_block_message_tipset collections.upsert_msg collections.upsert_block
          collections.upsert_tipset st.db built.messages built.blocks built.tipsets)

  -- The tipset was built: it is kept back, and all are written if there is a reason.
  pub keep_back : Syncing D T → T → TipsetBlockMessages T → Syncing D T × Result T
  keep_back st parent tpst_blms =
      let (paths, merged) = try_merge_front_with_next st.paths in
      let st' = record st {
        paths = paths;
        pending = st.pending ++ tpst_blms ∷ [];
        address = suc st.address;
      } in
      if leb max_pending (length st'.pending)
        || is_some merged
        || length (ops.parents_cids parent) == 0
      then after_build st' merged parent (list_models_data tables format st'.pending)
      else (st', ok parent)

  pub built_tipset : Syncing D T → T → Result (TipsetBlockMessages T) → Syncing D T × Result T
  built_tipset st parent (fail e) = (st, fail e)
  built_tipset st parent (ok tpst_blms) = keep_back st parent tpst_blms

  pub inserted_parent :
      Syncing D T → T → T → List FsSyncedTipsetPath × Bool → Syncing D T × Result T
  inserted_parent st child parent (paths, false) = (record st { paths = paths }, fail key_mismatch)
  inserted_parent st child parent (paths, true) =
      built_tipset (record st { paths = paths }) parent
        (build_persistence_data api tables format st.address child parent)

  pub found_parent : Syncing D T → T → Option T → Syncing D T × Result T
  found_parent st child none = (st, fail api_error)
  found_parent st child (some parent) =
      inserted_parent st child parent (insert_tail_parent st.paths parent)

  -- One round of the loop, and what it makes the next child.
  unfoldable pub genesis_round : Syncing D T → T → Syncing D T × Result T
  genesis_round st child = found_parent st child (api.chain_get_tipset (ops.parents child))

  pub sync_loop : ℕ → Syncing D T → T → Syncing D T × Result T
  sync_loop zero st child = (st, fail out_of_fuel)
  sync_loop (suc fuel) st child = elim (length (ops.parents_cids child) == 0) [
    | true ↦ (st, ok child)
    | false ↦
        let (st', r) = genesis_round st child in
        elim r [ fail e ↦ (st', fail e) | ok next ↦ sync_loop fuel st' next ]
  ]

  unfoldable pub sync_to_genesis : ℕ → D → List FsSyncedTipsetPath → ℕ → T → Syncing D T × Result T
  sync_to_genesis fuel db paths address from =
      let (st, r) =
        sync_loop fuel
          (record { db = db; paths = paths; pending = []; notified = []; address = address })
          from in
      elim r [
        | fail e ↦ (st, fail e)
        | ok child ↦ (record st { notified = none ∷ st.notified }, ok child)
      ]
