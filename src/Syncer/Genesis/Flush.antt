-- ===== src/Syncer/Genesis/Flush.antt =====
-- What `sync_to_genesis` keeps back.
use filscan_backend.Prelude.{
  ℕ, zero, suc, ◌<◌, ◌≤◌, ◌≡◌, refl, Bool, true, false, ◌||◌, String, Option, none, some, List, [],
  ◌∷◌, ◌++◌, length, length-append, leb, ◌==◌, nat_eq, if◌then◌else◌, is_some, ◌⊎◌, inl, inr,
  Result, ok, fail, Written, done, broken, nil_dereference, is_ok, arith,
}
use filscan_backend.Chain.{TipsetOps}
use filscan_backend.Actors.{ActorTables}
use filscan_backend.BlockMessage.{TipsetBlockMessages}
use filscan_backend.BlockMessage.Listed.{FsModelsData, list_models_data}
use filscan_backend.SyncedPath.{
  FsSyncedTipset, FsSyncedTipsetPath, PathStore, insert_tail_parent, front_tail,
  try_merge_front_with_next,
}
use filscan_backend.Syncer.{LotusApi, build_persistence_data}
use filscan_backend.Syncer.Genesis.{
  Collections, Syncing, max_pending, after_tipset, after_del, after_front, after_upsert,
  after_build, keep_back, built_tipset, inserted_parent, found_parent, genesis_round, sync_loop,
  sync_to_genesis,
}

all_false : (a b c : Bool) → (a || b || c) ≡ false → (a ≡ false) × (c ≡ false)
all_false true b c e = cc
all_false false true c e = cc
all_false false false c e = (refl, e)

module _ {D T : Type 0} where
  -- No more than 25 tipsets are kept back; after an error there may be 25, else fewer, and none if the
  -- next tipset is the genesis.
  abbrev pub Flushed : Syncing D T × Result T → Type 0
  Flushed r = (length r.0.pending ≤ max_pending) × ((is_ok r.1 ≡ false) ⊎ (r.0.pending ≡ []))

module _ {D T : Type 0} ⦃ops : TipsetOps T⦄ (api : LotusApi T) (tables : ActorTables)
    (format : ℕ → String) (store : PathStore D) (collections : Collections D) where
  after_tipset-Flushed :
      (st : Syncing D T) (next : Option T)
      → length st.pending ≤ max_pending
      → Flushed (after_tipset api tables format store collections st next)
  unfolding after_tipset
  after_tipset-Flushed st none h = (h, inl refl)
  after_tipset-Flushed st (some next) h = (omega arith, inr refl)

  after_del-Flushed :
      (st : Syncing D T) (r : Result D)
      → length st.pending ≤ max_pending
      → Flushed (after_del api tables format store collections st r)
  unfolding after_del
  after_del-Flushed st (fail e) h = (h, inl refl)
  after_del-Flushed st (ok db) h = go (front_tail st.paths)
    where
      go :
          (o : Option FsSyncedTipset)
          → Flushed (elim o as (λ p. Syncing D T × Result T) [
            | none ↦ (record st { db = db }, fail nil_dereference)
            | some tail ↦
                after_tipset api tables format store collections
                  (record st { db = db })
                  (api.chain_get_tipset tail.key)
          ])
      go none = (h, inl refl)
      go (some tail) =
          after_tipset-Flushed (record st { db = db }) (api.chain_get_tipset tail.key) h

  after_front-Flushed :
      (st : Syncing D T) (merged : Option FsSyncedTipsetPath) (parent : T)
      (r : Result (D × List FsSyncedTipsetPath))
      → length st.pending ≤ max_pending
      → Flushed (after_front api tables format store collections st merged parent r)
  unfolding after_front
  after_front-Flushed st none parent (fail e) h = (h, inl refl)
  after_front-Flushed st (some m) parent (fail e) h = (h, inl refl)
  after_front-Flushed st none parent (ok (db, paths)) h = (omega arith, inr refl)
  after_front-Flushed st (some m) parent (ok (db, paths)) h =
      after_del-Flushed (record st { db = db; paths = paths }) _ h

  after_upsert-Flushed :
      (st : Syncing D T) (merged : Option FsSyncedTipsetPath) (parent : T) (r : Written D)
      → length st.pending ≤ max_pending
      → Flushed (after_upsert api tables format store collections st merged parent r)
  unfolding after_upsert
  after_upsert-Flushed st merged parent (broken db e) h = (h, inl refl)
  after_upsert-Flushed st merged parent (done db) h =
      after_front-Flushed (record st { db = db }) merged parent _ h

  after_build-Flushed :
      (st : Syncing D T) (merged : Option FsSyncedTipsetPath) (parent : T) (r : Result FsModelsData)
      → length st.pending ≤ max_pending
      → Flushed (after_build api tables format store collections st merged parent r)
  unfolding after_build
  after_build-Flushed st merged parent (fail e) h = (h, inl refl)
  after_build-Flushed st merged parent (ok built) h =
      after_upsert-Flushed (record st { notified = some built.miners ∷ st.notified }) merged parent
        _ h

  -- What holds between the rounds, of the state and the next child.
  abbrev Waiting : Syncing D T × Result T → Type 0
  Waiting (st, fail e) = length st.pending ≤ max_pending
  Waiting (st, ok next) =
      (length st.pending < max_pending)
      × ((st.pending ≡ []) ⊎ ((length (ops.parents_cids next) == 0) ≡ false))

  Flushed-Waiting : (r : Syncing D T × Result T) → Flushed r → Waiting r
  Flushed-Waiting (st, fail e) f = f.0
  Flushed-Waiting (st, ok next) f = elim f.1 [ inl e ↦ cc | inr e ↦ (rw e (omega arith), inl e) ]

  written :
      (st : Syncing D T) (merged : Option FsSyncedTipsetPath) (parent : T)
      → length st.pending ≤ max_pending
      → Waiting (
          after_build api tables format store collections st merged parent
            (list_models_data tables format st.pending))
  written st merged parent h =
      Flushed-Waiting
        (after_build api tables format store collections st merged parent
          (list_models_data tables format st.pending))
        (after_build-Flushed st merged parent (list_models_data tables format st.pending) h)

  keep_back-Waiting :
      (st : Syncing D T) (parent : T) (x : TipsetBlockMessages T)
      → length st.pending < max_pending
      → Waiting (keep_back api tables format store collections st parent x)
  unfolding keep_back
  keep_back-Waiting st parent x h =
      go
        (leb max_pending (length (st.pending ++ x ∷ []))
          || is_some (try_merge_front_with_next st.paths).1
          || length (ops.parents_cids parent) == 0)
        refl
    where
      st' : Syncing D T
      st' = record st {
        paths = (try_merge_front_with_next st.paths).0;
        pending = st.pending ++ x ∷ [];
        address = suc st.address;
      }

      go :
          (b : Bool)
          → (leb max_pending (length (st.pending ++ x ∷ []))
              || is_some (try_merge_front_with_next st.paths).1
              || length (ops.parents_cids parent) == 0)
            ≡ b
          → Waiting (
              if b
              then after_build api tables format store collections st'
                  (try_merge_front_with_next st.paths).1
                  parent
                  (list_models_data tables format (st.pending ++ x ∷ []))
              else (st', ok parent))
      go true e =
          written st' (try_merge_front_with_next st.paths).1 parent
            (omega (arith, length-append st.pending (x ∷ [])))
      go false e =
          let (few, more) = all_false (leb max_pending (length (st.pending ++ x ∷ []))) _ _ e in
          (ground arith, inr more)

  built_tipset-Waiting :
      (st : Syncing D T) (parent : T) (r : Result (TipsetBlockMessages T))
      → length st.pending < max_pending
      → Waiting (built_tipset api tables format store collections st parent r)
  unfolding built_tipset
  built_tipset-Waiting st parent (fail e) h = omega (arith, h)
  built_tipset-Waiting st parent (ok x) h = keep_back-Waiting st parent x h

  inserted_parent-Waiting :
      (st : Syncing D T) (child parent : T) (r : List FsSyncedTipsetPath × Bool)
      → length st.pending < max_pending
      → Waiting (inserted_parent api tables format store collections st child parent r)
  unfolding inserted_parent
  inserted_parent-Waiting st child parent (paths, false) h = omega (arith, h)
  inserted_parent-Waiting st child parent (paths, true) h =
      built_tipset-Waiting (record st { paths = paths }) parent
        (build_persistence_data api tables format st.address child parent) h

  found_parent-Waiting :
      (st : Syncing D T) (child : T) (o : Option T)
      → length st.pending < max_pending
      → Waiting (found_parent api tables format store collections st child o)
  unfolding found_parent
  found_parent-Waiting st child none h = omega (arith, h)
  found_parent-Waiting st child (some parent) h =
      inserted_parent-Waiting st child parent (insert_tail_parent st.paths parent) h

  genesis_round-Waiting :
      (st : Syncing D T) (child : T)
      → length st.pending < max_pending
      → Waiting (genesis_round api tables format store collections st child)
  unfolding genesis_round
  genesis_round-Waiting st child h =
      found_parent-Waiting st child (api.chain_get_tipset (ops.parents child)) h

  sync_loop-Flushed :
      (fuel : ℕ) (st : Syncing D T) (child : T)
      → Waiting (st, ok child)
      → Flushed (sync_loop api tables format store collections fuel st child)
  unfolding sync_loop
  sync_loop-Flushed zero st child w = (omega (arith, w.0), inl refl)
  sync_loop-Flushed (suc fuel) st child w =
      go (length (ops.parents_cids child) == 0) refl
        (genesis_round api tables format store collections st child)
        (genesis_round-Waiting st child w.0) (sync_loop-Flushed fuel)
    where
      go :
          (genesis : Bool)
          → (length (ops.parents_cids child) == 0) ≡ genesis
          → (r : Syncing D T × Result T) → Waiting r
          → ((st' : Syncing D T) (next : T)
              → Waiting (st', ok next)
              → Flushed (sync_loop api tables format store collections fuel st' next))
          → Flushed (elim genesis as (λ b. Syncing D T × Result T) [
            | true ↦ (st, ok child)
            | false ↦ elim r.1 as (λ b. Syncing D T × Result T) [
              | fail e ↦ (r.0, fail e)
              | ok next ↦ sync_loop api tables format store collections fuel r.0 next
            ]
          ])
      go true e r v ih =
          (omega (arith, w.0), elim w.1 [ inl flushed ↦ inr flushed | inr other ↦ cc ])
      go false e (st', fail f) v ih = (v, inl refl)
      go false e (st', ok next) v ih = ih st' next v

  -- `sync_to_genesis`, from any tipset and whatever lotus and the database answer, never has more than
  -- 25 built tipsets that are not written; and where it returns no error, every tipset that it built has
  -- been written: none is left.
  pub sync_to_genesis_lem :
      (fuel : ℕ) (db : D) (paths : List FsSyncedTipsetPath) (address : ℕ) (from : T)
      → Flushed (sync_to_genesis api tables format store collections fuel db paths address from)
  unfolding sync_to_genesis
  sync_to_genesis_lem fuel db paths address from =
      go (sync_loop api tables format store collections fuel start from)
        (sync_loop-Flushed fuel start from (omega arith, inl refl))
    where
      start : Syncing D T
      start = record { db = db; paths = paths; pending = []; notified = []; address = address }

      go :
          (r : Syncing D T × Result T)
          → Flushed r
          → Flushed (elim r.1 as (λ b. Syncing D T × Result T) [
            | fail e ↦ (r.0, fail e)
            | ok child ↦ (record (r.0) { notified = none ∷ r.0.notified }, ok child)
          ])
      go (st, fail e) f = f
      go (st, ok child) f = f
