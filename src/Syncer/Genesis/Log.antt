-- ===== src/Syncer/Genesis/Log.antt =====
-- Which documents the bulk writes of filscaner/fs_block_message.go add to the collection of tipsets.
use filscan_backend.Prelude.{
  ℕ, zero, suc, ◌≡◌, refl, sym, ap, ◌∙◌, Option, none, some, List, [], ◌∷◌, ◌++◌, take, drop,
  nat_eq, ok, Written, done, broken, ◌>>>◌, deref, ok-injective,
}
use filscan_backend.Chain.{FilscanBlock, FilscanMsg}
use filscan_backend.BlockMessage.{FilscanTipset}
use filscan_backend.BlockMessage.Chunks.{message_batches, bulk_upsert_once}
use filscan_backend.SyncedPath.{FsSyncedTipsetPath, PathStore}
use filscan_backend.Syncer.Genesis.{Collections}

-- The documents that were written to the collection of tipsets: a write there that succeeds adds its
-- documents, and other writes add none.
pub record Logs {D : Type 0} (log : D → List FilscanTipset) (store : PathStore D)
    (collections : Collections D) : Type 0 where
  pub messages :
      (db : D) (l : List FilscanMsg) (db' : D)
      → collections.upsert_msg db l ≡ done db'
      → log db' ≡ log db
  pub blocks :
      (db : D) (l : List FilscanBlock) (db' : D)
      → collections.upsert_block db l ≡ done db'
      → log db' ≡ log db
  pub tipsets :
      (db : D) (l : List FilscanTipset) (db' : D)
      → collections.upsert_tipset db l ≡ done db'
      → log db' ≡ log db ++ l
  pub paths :
      (db : D) (selc : Option (ℕ × ℕ)) (path : FsSyncedTipsetPath) (db' : D)
      → store.upsert db selc path ≡ ok db'
      → log db' ≡ log db
  pub removals :
      (db : D) (selc : Option (ℕ × ℕ)) (db' : D) → store.remove db selc ≡ ok db' → log db' ≡ log db

pub >>>-eq-done :
    {D : Type 0} (run : Written D) (next : D → Written D) {db : D}
    → (run >>> next) ≡ done db
    → (first : D) × (run ≡ done first) × (next first ≡ done db)
>>>-eq-done (done first) next e = (first, refl, e)
>>>-eq-done (broken first fault) next e = cc

pub done-injective : {D : Type 0} {a b : D} → done a ≡ done b → a ≡ b
done-injective e = cc

abbrev pub of_tipset : Option FilscanTipset → List FilscanTipset
of_tipset none = []
of_tipset (some t) = t ∷ []

pub of_tipset_lem :
    (o : Option FilscanTipset) {t : FilscanTipset} → deref o ≡ ok t → of_tipset o ≡ t ∷ []
of_tipset_lem none e = cc
of_tipset_lem (some t) e = ap (λ x. x ∷ []) (ok-injective e)

module _ {D A : Type 0} (log : D → List FilscanTipset) (bulk_upsert : D → List A → Written D)
    (keeps : (db : D) (l : List A) (db' : D) → bulk_upsert db l ≡ done db' → log db' ≡ log db) where
  pub batches-log :
      (fuel : ℕ) (db : D) (items : List A) {db' : D}
      → message_batches bulk_upsert fuel db items ≡ done db'
      → log db' ≡ log db
  unfolding message_batches
  batches-log zero db items e = cc
  batches-log (suc fuel) db [] e = ap log (sym (done-injective e))
  batches-log (suc fuel) db (x ∷ items) e =
      let (first, runs, rest) = >>>-eq-done (bulk_upsert db (take _ (x ∷ items))) _ e in
      batches-log fuel first (drop _ (x ∷ items)) rest ∙ keeps db _ first runs

  pub once-log :
      (db : D) (items : List A) {db' : D}
      → bulk_upsert_once bulk_upsert db items ≡ done db'
      → log db' ≡ log db
  unfolding bulk_upsert_once
  once-log db [] e = ap log (sym (done-injective e))
  once-log db (x ∷ items) {db'} e = keeps db (x ∷ items) db' e
