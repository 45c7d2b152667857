-- ===== src/MinerFeed/Kept.antt =====
-- models_update_miner and do_upsert_miners of filscaner/fs_models.go never leave the slots of the buffer.
use filscan_backend.Prelude.{
  Written, done, broken, ℕ, ◌*◌, ◌≤◌, ◌<◌, ◌≡◌, refl, sym, Bool, true, false, Option, List, [],
  take, length, leb, if◌then◌else◌, Result, ok, ◌>>=◌, arith, subst, Bool-cases, inl, inr, if_true,
  if_false,
}
use filscan_backend.MinerFeed.{
  MinerStateAtTipset, Doc, UpsertBuffer, emptied, do_upsert_miners, buffered, models_update_miner,
}
use filscan_backend.MinerFeed.Buffer.{buffered_lem, full_handed}

-- A buffer with two slots for each state, and its index among them.
pub record IsBuffer (fs : UpsertBuffer) : Type 0 where
  pub slots : length fs.to_upsert_miners ≡ fs.to_update_miner_size * 2
  pub room : fs.to_update_miner_index ≤ fs.to_update_miner_size
  pub some_room : 1 ≤ fs.to_update_miner_size

module _ {Db : Type 0} (bulk_upsert : List (Option Doc) → Db → Written Db) where
  pub record Leaves (run : Result ((UpsertBuffer × Db) × Bool)) : Type 0 where
    pub that : UpsertBuffer
    pub db : Db
    pub error : Bool
    pub runs : run ≡ ok ((that, db), error)
    pub good : IsBuffer that

  emptied-IsBuffer :
      (fs : UpsertBuffer) (o : Written Db) → IsBuffer fs → Leaves (emptied bulk_upsert fs o)
  emptied-IsBuffer fs (broken db' e) b = record {
    that = fs;
    db = db';
    error = true;
    runs = refl;
    good = b;
  }
  emptied-IsBuffer fs (done db') b = record {
    that = record fs { to_update_miner_index = 0 };
    db = db';
    error = false;
    runs = refl;
    good = record { slots = b.slots; room = omega arith; some_room = b.some_room };
  }

  handed :
      (fs : UpsertBuffer) (db : Db)
      → IsBuffer fs
      → 1 ≤ fs.to_update_miner_index
      → do_upsert_miners bulk_upsert fs db
        ≡ emptied bulk_upsert fs (
            bulk_upsert
              (if leb fs.to_update_miner_size fs.to_update_miner_index
                then take (fs.to_update_miner_index * 2) fs.to_upsert_miners
                else [])
              db)
  handed fs db b present =
      full_handed bulk_upsert 0 (take (fs.to_update_miner_index * 2) fs.to_upsert_miners) fs db
        present b.room record { slots = b.slots; front = refl }

  pub do_upsert-IsBuffer :
      (fs : UpsertBuffer) (db : Db) → IsBuffer fs → Leaves (do_upsert_miners bulk_upsert fs db)
  unfolding do_upsert_miners
  do_upsert-IsBuffer fs db b = elim (Bool-cases (leb fs.to_update_miner_index 0)) [
    | inl empty ↦
        subst Leaves (sym (if_true (leb fs.to_update_miner_index 0) _ _ empty))
          record { that = fs; db = db; error = false; runs = refl; good = b }
    | inr present ↦ subst Leaves (sym (handed fs db b (ground arith))) (emptied-IsBuffer fs _ b)
  ]

  buffered-IsBuffer :
      (now : ℕ) (m : MinerStateAtTipset) (fs : UpsertBuffer) (db : Db)
      → fs.to_update_miner_index < fs.to_update_miner_size
      → IsBuffer fs
      → Leaves (buffered bulk_upsert now m ((fs, db), false))
  buffered-IsBuffer now m fs db room b =
      let (that, runs, filled, size, index) =
        buffered_lem bulk_upsert now m (take (fs.to_update_miner_index * 2) fs.to_upsert_miners) fs
          db room record { slots = b.slots; front = refl } in
      record {
        that = that;
        db = db;
        error = false;
        runs = runs;
        good = record {
          slots = filled.slots;
          room = omega (arith, size, index);
          some_room = omega (arith, size, b.some_room);
        };
      }

  emptied-buffered :
      (now : ℕ) (m : MinerStateAtTipset) (fs : UpsertBuffer) (o : Written Db)
      → IsBuffer fs
      → Leaves (emptied bulk_upsert fs o >>= buffered bulk_upsert now m)
  unfolding buffered
  emptied-buffered now m fs (broken db' e) b = record {
    that = fs;
    db = db';
    error = true;
    runs = refl;
    good = b;
  }
  emptied-buffered now m fs (done db') b =
      buffered-IsBuffer now m (record fs { to_update_miner_index = 0 }) db'
        (omega (arith, b.some_room))
        record { slots = b.slots; room = omega arith; some_room = b.some_room }

  pub models_update-IsBuffer :
      (now : ℕ) (m : MinerStateAtTipset) (fs : UpsertBuffer) (db : Db)
      → IsBuffer fs
      → Leaves (models_update_miner bulk_upsert now m fs db)
  unfolding models_update_miner
  models_update-IsBuffer now m fs db b =
      elim (Bool-cases (leb fs.to_update_miner_size fs.to_update_miner_index)) [
        | inl full ↦
            subst Leaves
              (sym (if_true (leb fs.to_update_miner_size fs.to_update_miner_index) _ _ full))
              (subst (λ r. Leaves (r >>= buffered bulk_upsert now m))
                (sym (handed fs db b (ground (arith, b.some_room))))
                (emptied-buffered now m fs _ b))
        | inr part ↦
            subst Leaves
              (sym (if_false (leb fs.to_update_miner_size fs.to_update_miner_index) _ _ part))
              (buffered-IsBuffer now m fs db (ground arith) b)
      ]
