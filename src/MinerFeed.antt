-- ===== src/MinerFeed.antt =====
-- How the states of miners reach the database and the caches: models_update_miner and do_upsert_miners
-- of filscaner/fs_models.go, with a buffer of pairs of a selector and a state. The states of miners are
-- those of models/miner.go. The bulk write is a parameter; on an error too, it gives what is written.
pub mod Buffer
pub mod Api
pub mod Kept
pub mod Runs
use filscan_backend.Prelude.{
  Written, done, broken, ℕ, zero, suc, ◌+◌, ◌*◌, Bool, true, false, String, Option, none, some,
  List, [], ◌∷◌, map, take, length, ltb, leb, if◌then◌else◌, Result, ok, fail, out_of_range, ◌>>=◌,
}
use filscan_backend.MinerCache.{MinerState}

-- The other fields of `models.MinerStateAtTipset`, beside those that the caches read.
pub record MinerStateAtTipset : Type 0 where
  pub state : MinerState
  pub peer_id : String
  pub wallet_addr : String
  pub sector_size : ℕ
  pub sector_count : ℕ
  pub tipset_height : ℕ
  pub proving_sector_size : ℕ
  pub gmt_create : ℕ
  pub gmt_modified : ℕ

-- An entry of `to_upsert_miners`.
pub data Doc : Type 0 where
  selector : String → ℕ → Doc
  miner : MinerStateAtTipset → Doc

-- The fields of `Filscaner` for the states to be written; `make` fills the slots with nil.
pub record UpsertBuffer : Type 0 where
  pub to_upsert_miners : List (Option Doc)
  pub to_update_miner_size : ℕ
  pub to_update_miner_index : ℕ

abbrev pub put : ℕ → Doc → List (Option Doc) → Result (List (Option Doc))
put i d [] = fail out_of_range
put zero d (slot ∷ slots) = ok (some d ∷ slots)
put (suc i) d (slot ∷ slots) = do rest ← put i d slots; ok (slot ∷ rest)

-- `slots[0:offset]`.
abbrev pub front_slots : ℕ → List (Option Doc) → Result (List (Option Doc))
front_slots offset slots =
    if ltb (length slots) offset then fail out_of_range else ok (take offset slots)

abbrev pub stamped : ℕ → MinerStateAtTipset → MinerStateAtTipset
stamped now m = record m { gmt_create = now; gmt_modified = now }

module _ {Db : Type 0} (bulk_upsert : List (Option Doc) → Db → Written Db) where
  abbrev pub emptied : UpsertBuffer → Written Db → Result ((UpsertBuffer × Db) × Bool)
  emptied fs (broken db' e) = ok ((fs, db'), true)
  emptied fs (done db') = ok ((record fs { to_update_miner_index = 0 }, db'), false)

  -- The buffer and the database, and whether there was an error.
  unfoldable pub do_upsert_miners : UpsertBuffer → Db → Result ((UpsertBuffer × Db) × Bool)
  do_upsert_miners fs db = if leb fs.to_update_miner_index 0 then ok ((fs, db), false) else (do
    let offset =
        if leb fs.to_update_miner_size fs.to_update_miner_index
        then fs.to_update_miner_index * 2
        else 0
    docs ← front_slots offset fs.to_upsert_miners
    emptied fs (bulk_upsert docs db))

  unfoldable pub buffered :
      ℕ → MinerStateAtTipset → (UpsertBuffer × Db) × Bool → Result ((UpsertBuffer × Db) × Bool)
  buffered now m (s, true) = ok (s, true)
  buffered now m ((fs, db), false) = do
    let offset = fs.to_update_miner_index * 2
    docs ← put offset (selector m.state.miner_addr m.tipset_height) fs.to_upsert_miners
    docs' ← put (offset + 1) (miner (stamped now m)) docs
    ok (
      (
        record fs {
          to_upsert_miners = docs';
          to_update_miner_index = fs.to_update_miner_index + 1;
        },
        db,
      ),
      false,
    )

  -- `now` is the time that is read.
  unfoldable pub models_update_miner :
      ℕ → MinerStateAtTipset → UpsertBuffer → Db → Result ((UpsertBuffer × Db) × Bool)
  models_update_miner now m fs db =
      if leb fs.to_update_miner_size fs.to_update_miner_index
      then do_upsert_miners fs db >>= buffered now m
      else buffered now m ((fs, db), false)

  -- States that are handed over one after the other, as by the loop over a tipset's miners.
  unfoldable pub update_each :
      ℕ → List MinerStateAtTipset → UpsertBuffer → Db → Result (UpsertBuffer × Db)
  update_each now [] fs db = ok (fs, db)
  update_each now (m ∷ ms) fs db = do
    next ← models_update_miner now m fs db
    update_each now ms next.0.0 next.0.1
