-- ===== src/Tests/StoredRuns.antt =====
-- What `sync_to_genesis` writes at work: the database is the list of the tipsets' documents.
use filscan_backend.Prelude.{sym, List, [], ◌++◌, ok, ok-injective, done}
use filscan_backend.BlockMessage.{FilscanTipset}
use filscan_backend.SyncedPath.{PathStore}
use filscan_backend.Syncer.Genesis.{Collections, sync_to_genesis}
use filscan_backend.Syncer.Genesis.Log.{Logs, done-injective}
use filscan_backend.Syncer.Genesis.Stored.{AllStored, sync_to_genesis-stored}
use filscan_backend.Tests.{tip_3, tip_ops, lotus, tables, format}

abbrev Documents : Type 0
Documents = List FilscanTipset

abbrev no_paths : PathStore Documents
no_paths = record { find_all = λ db. ok []; upsert = λ db selc p. ok db; remove = λ db selc. ok db }

abbrev tipset_documents : Collections Documents
tipset_documents = record {
  upsert_msg = λ db l. done db;
  upsert_block = λ db l. done db;
  upsert_tipset = λ db l. done (db ++ l);
}

abbrev all_of : Documents → Documents
all_of db = db

all_of-logs : Logs all_of no_paths tipset_documents
all_of-logs = record {
  messages = λ db l db' e. sym (done-injective e);
  blocks = λ db l db' e. sym (done-injective e);
  tipsets = λ db l db' e. sym (done-injective e);
  paths = λ db selc p db' e. sym (ok-injective e);
  removals = λ db selc db' e. sym (ok-injective e);
}

sync_to_genesis-stored_example :
    AllStored lotus tables format no_paths tipset_documents all_of all_of-logs [] 1
      (sync_to_genesis lotus tables format no_paths tipset_documents 9 [] [] 1 tip_3)
sync_to_genesis-stored_example =
    sync_to_genesis-stored lotus tables format no_paths tipset_documents all_of all_of-logs 9 [] []
      1 tip_3
