-- ===== src/Syncer/Genesis/Stored.antt =====
-- What `sync_to_genesis` writes of the tipsets that it builds.
use filscan_backend.Prelude.{
  map, All, subst, ℕ, zero, suc, ◌+◌, ◌≤◌, ◌≡◌, refl, sym, ap, ◌∙◌, Bool, true, false, ◌||◌, String,
  Option, none, some, List, [], ◌∷◌, ◌++◌, length, length-append, leb, ◌==◌, nat_eq, if◌then◌else◌,
  is_some, ◌⊎◌, inl, inr, Result, ok, fail, is_ok, Written, done, broken, ◌>>>◌, nil_dereference,
  arith, deref, >>=-eq-ok, ok-injective,
}
use mathlib.Core.List.{append_assoc, append-nil}
use filscan_backend.Chain.{TipsetOps}
use filscan_backend.Actors.{ActorTables}
use filscan_backend.BlockMessage.{FilscanTipset, TipsetBlockMessages, build_models_data}
use filscan_backend.BlockMessage.Chunks.{
  bulk_upsert_message, bulk_upsert_once, bulk_upsert_block_message_tipset,
}
use filscan_backend.BlockMessage.Listed.{FsModelsData, list_models_data}
use filscan_backend.SyncedPath.{
  FsSyncedTipset, FsSyncedTipsetPath, PathStore, insert_tail_parent, front_tail,
  try_merge_front_with_next, models_upsert, models_upsert_front, models_del,
}
use filscan_backend.Syncer.{LotusApi, build_persistence_data}
use filscan_backend.Syncer.Genesis.{
  Collections, Syncing, max_pending, after_tipset, after_del, after_front, after_upsert,
  after_build, keep_back, built_tipset, inserted_parent, found_parent, genesis_round, sync_loop,
  sync_to_genesis,
}
use filscan_backend.TipsetCache.Invariant.{All-append_one}
use filscan_backend.Syncer.Cached.{build_persistence_data-parent}
use filscan_backend.Syncer.Genesis.Flush.{Flushed, sync_to_genesis_lem}
use filscan_backend.Syncer.Genesis.Log.{
  Logs, >>>-eq-done, done-injective, of_tipset, of_tipset_lem, batches-log, once-log,
}

-- The numbers from `first` on.
abbrev pub numbers : ℕ → ℕ → List ℕ
numbers first zero = []
numbers first (suc n) = first ∷ numbers (suc first) n

numbers_one :
    (first n last : ℕ) → last ≡ first + n → numbers first n ++ last ∷ [] ≡ numbers first (suc n)
numbers_one first zero last e = ap (λ x. x ∷ []) (omega arith)
numbers_one first (suc n) last e = ap (◌∷◌ first) (numbers_one (suc first) n last (omega arith))

addresses_one :
    {T : Type 0} (l : List (TipsetBlockMessages T)) (x : TipsetBlockMessages T)
    → map (λ (y : TipsetBlockMessages T). y.address) (l ++ x ∷ [])
      ≡ map (λ (y : TipsetBlockMessages T). y.address) l ++ x.address ∷ []
addresses_one [] x = refl
addresses_one (y ∷ l) x = ap (◌∷◌ y.address) (addresses_one l x)

module _ {D T : Type 0} ⦃ops : TipsetOps T⦄ (api : LotusApi T) (tables : ActorTables)
    (format : ℕ → String) (store : PathStore D) (collections : Collections D)
    (log : D → List FilscanTipset) (logs : Logs log store collections) where
  abbrev pub document : Result (TipsetBlockMessages T) → List FilscanTipset
  document (fail e) = []
  document (ok b) = of_tipset b.fs_tipset

  -- The document of a tipset.
  abbrev pub tip : TipsetBlockMessages T → List FilscanTipset
  tip x = document (build_models_data tables format x)

  abbrev pub tips : List (TipsetBlockMessages T) → List FilscanTipset
  tips [] = []
  tips (x ∷ l) = tip x ++ tips l

  tips-append : (xs ys : List (TipsetBlockMessages T)) → tips (xs ++ ys) ≡ tips xs ++ tips ys
  tips-append [] ys = refl
  tips-append (x ∷ xs) ys =
      ap (◌++◌ (tip x)) (tips-append xs ys) ∙ sym (append_assoc (tip x) (tips xs) (tips ys))

  listed-tips :
      (l : List (TipsetBlockMessages T)) {built : FsModelsData}
      → list_models_data tables format l ≡ ok built
      → built.tipsets ≡ tips l
  unfolding list_models_data
  listed-tips [] e = ap (λ (b : FsModelsData). b.tipsets) (sym (ok-injective e))
  listed-tips (x ∷ l) e =
      let (b, runs, e₁) = >>=-eq-ok (build_models_data tables format x) _ e in
      let (t, found, e₂) = >>=-eq-ok (deref b.fs_tipset) _ e₁ in
      let (rest, more, e₃) = >>=-eq-ok (list_models_data tables format l) _ e₂ in
      ap (λ (b : FsModelsData). b.tipsets) (sym (ok-injective e₃))
      ∙ ap (◌∷◌ t) (listed-tips l more)
      ∙ ap (λ d. d ++ tips l) (sym (ap document runs ∙ of_tipset_lem b.fs_tipset found))

  tipsets_once :
      (db : D) (l : List FilscanTipset) {db' : D}
      → bulk_upsert_once collections.upsert_tipset db l ≡ done db'
      → log db' ≡ log db ++ l
  unfolding bulk_upsert_once
  tipsets_once db [] e = ap log (sym (done-injective e)) ∙ sym (append-nil (log db))
  tipsets_once db (x ∷ l) {db'} e = logs.tipsets db (x ∷ l) db' e

  write-log :
      (db : D) (built : FsModelsData) {db' : D}
      → bulk_upsert_block_message_tipset collections.upsert_msg collections.upsert_block
          collections.upsert_tipset db built.messages built.blocks built.tipsets
        ≡ done db'
      → log db' ≡ log db ++ built.tipsets
  unfolding bulk_upsert_block_message_tipset bulk_upsert_message
  write-log db built e =
      let (db₂, two, last) =
        >>>-eq-done
          (bulk_upsert_message collections.upsert_msg db built.messages
            >>> (λ db₁. bulk_upsert_once collections.upsert_block db₁ built.blocks))
          _ e in
      let (db₁, one, mid) =
        >>>-eq-done (bulk_upsert_message collections.upsert_msg db built.messages) _ two in
      tipsets_once db₂ built.tipsets last
      ∙ ap (λ l. l ++ built.tipsets)
          (once-log log collections.upsert_block logs.blocks db₁ built.blocks mid
            ∙ batches-log log collections.upsert_msg logs.messages (suc (length built.messages)) db
                built.messages one)

  upsert_front-log :
      (db : D) (l : List FsSyncedTipsetPath) {db' : D} {l' : List FsSyncedTipsetPath}
      → models_upsert_front store db l ≡ ok (db', l')
      → log db' ≡ log db
  unfolding models_upsert_front models_upsert
  upsert_front-log db [] e = cc
  upsert_front-log db (front ∷ l) e =
      let ((db₁, front₁), runs, gives) = >>=-eq-ok (models_upsert store db front) _ e in
      let (db₂, stored, same) = >>=-eq-ok (store.upsert db front.upsert_selc front) _ runs in
      ap (λ r. log r.0) (sym (ok-injective gives))
      ∙ ap (λ r. log r.0) (sym (ok-injective same))
      ∙ logs.paths db front.upsert_selc front db₂ stored

  listed-length :
      (l : List (TipsetBlockMessages T)) {built : FsModelsData}
      → list_models_data tables format l ≡ ok built
      → length built.tipsets ≡ length l
  unfolding list_models_data
  listed-length [] e = ap (λ (b : FsModelsData). length b.tipsets) (sym (ok-injective e))
  listed-length (x ∷ l) e =
      let (b, runs, e₁) = >>=-eq-ok (build_models_data tables format x) _ e in
      let (t, found, e₂) = >>=-eq-ok (deref b.fs_tipset) _ e₁ in
      let (rest, more, e₃) = >>=-eq-ok (list_models_data tables format l) _ e₂ in
      ap (λ (b : FsModelsData). length b.tipsets) (sym (ok-injective e₃))
      ∙ ap suc (listed-length l more)

  -- An object that `build_persistence_data` gave for a tipset and its child.
  abbrev pub IsBuilt : TipsetBlockMessages T → Type 0
  IsBuilt x =
      (child : T) × (parent : T) × (build_persistence_data api tables format x.address child parent
        ≡ ok x)

  -- Some tipsets were built since the first one, which had the address `first`; these are written, and
  -- those that are kept back are built too.
  record IsLogged (before : List FilscanTipset) (first : ℕ) (kept : List (TipsetBlockMessages T))
      (st : Syncing D T) : Type 0 where
    pub flushed : List (TipsetBlockMessages T)
    pub all : List (TipsetBlockMessages T)
    pub split : all ≡ flushed ++ kept
    pub written : log st.db ≡ before ++ tips flushed
    pub documents : length (tips flushed) ≡ length flushed
    pub built : All IsBuilt all
    pub numbered : map (λ x. x.address) all ≡ numbers first (length all)
    pub count : first + length all ≡ st.address

  abbrev Logged : List FilscanTipset → ℕ → Syncing D T × Result T → Type 0
  Logged before first (st, fail e) = Unit
  Logged before first (st, ok next) = IsLogged before first st.pending st

  moved :
      {before : List FilscanTipset} {first : ℕ} {kept : List (TipsetBlockMessages T)}
      (st st' : Syncing D T)
      → IsLogged before first kept st
      → log st'.db ≡ log st.db
      → st'.address ≡ st.address
      → IsLogged before first kept st'
  moved st st' w e a = record {
    flushed = w.flushed;
    all = w.all;
    split = w.split;
    written = e ∙ w.written;
    documents = w.documents;
    built = w.built;
    numbered = w.numbered;
    count = w.count ∙ sym a;
  }

  module _ (before : List FilscanTipset) (first : ℕ) where
    after_tipset-Logged :
        (st : Syncing D T) (o : Option T)
        → IsLogged before first [] st
        → Logged before first (after_tipset api tables format store collections st o)
    unfolding after_tipset
    after_tipset-Logged st none w = tt
    after_tipset-Logged st (some next) w = moved st (record st { pending = [] }) w refl refl

    after_del-Logged :
        (st : Syncing D T) (r : Result D)
        → IsLogged before first [] st
        → ((db : D) → r ≡ ok db → log db ≡ log st.db)
        → Logged before first (after_del api tables format store collections st r)
    unfolding after_del
    after_del-Logged st (fail e) w same = tt
    after_del-Logged st (ok db) w same = go (front_tail st.paths)
      where
        go :
            (o : Option FsSyncedTipset)
            → Logged before first (elim o as (λ p. Syncing D T × Result T) [
              | none ↦ (record st { db = db }, fail nil_dereference)
              | some tail ↦
                  after_tipset api tables format store collections
                    (record st { db = db })
                    (api.chain_get_tipset tail.key)
            ])
        go none = tt
        go (some tail) =
            after_tipset-Logged (record st { db = db }) (api.chain_get_tipset tail.key)
              (moved st (record st { db = db }) w (same db refl) refl)

    after_front-Logged :
        (st : Syncing D T) (merged : Option FsSyncedTipsetPath) (parent : T)
        (r : Result (D × List FsSyncedTipsetPath))
        → IsLogged before first [] st
        → ((db : D) (l : List FsSyncedTipsetPath) → r ≡ ok (db, l) → log db ≡ log st.db)
        → Logged before first (after_front api tables format store collections st merged parent r)
    unfolding after_front models_del
    after_front-Logged st none parent (fail e) w same = tt
    after_front-Logged st (some m) parent (fail e) w same = tt
    after_front-Logged st none parent (ok (db, paths)) w same =
        moved st (record st { db = db; paths = paths; pending = [] }) w (same db paths refl) refl
    after_front-Logged st (some m) parent (ok (db, paths)) w same =
        after_del-Logged (record st { db = db; paths = paths }) (models_del store db m)
          (moved st (record st { db = db; paths = paths }) w (same db paths refl) refl)
          (λ db' e. logs.removals db m.upsert_selc db' e)

    after_upsert-Logged :
        (st : Syncing D T) (merged : Option FsSyncedTipsetPath) (parent : T) (r : Written D)
        → ((db : D) → r ≡ done db → IsLogged before first [] (record st { db = db }))
        → Logged before first (after_upsert api tables format store collections st merged parent r)
    unfolding after_upsert
    after_upsert-Logged st merged parent (broken db e) w = tt
    after_upsert-Logged st merged parent (done db) w =
        after_front-Logged (record st { db = db }) merged parent
          (models_upsert_front store db st.paths) (w db refl)
          (λ db' l e. upsert_front-log db st.paths e)

    after_build-Logged :
        (st : Syncing D T) (merged : Option FsSyncedTipsetPath) (parent : T)
        (r : Result FsModelsData)
        → IsLogged before first st.pending st
        → ((built : FsModelsData) → r ≡ ok built → built.tipsets ≡ tips st.pending)
        → ((built : FsModelsData) → r ≡ ok built → length built.tipsets ≡ length st.pending)
        → Logged before first (after_build api tables format store collections st merged parent r)
    unfolding after_build
    after_build-Logged st merged parent (fail e) w same number = tt
    after_build-Logged st merged parent (ok built) w same number =
        after_upsert-Logged (record st { notified = some built.miners ∷ st.notified }) merged parent
          _
          (λ db e. record {
            flushed = w.flushed ++ st.pending;
            written =
                write-log st.db built e
                ∙ ap (λ l. l ++ built.tipsets) w.written
                ∙ ap (λ l. before ++ tips w.flushed ++ l) (same built refl)
                ∙ append_assoc before (tips w.flushed) (tips st.pending)
                ∙ ap (◌++◌ before) (sym (tips-append w.flushed st.pending));
            all = w.all;
            split = w.split ∙ sym (append-nil (w.flushed ++ st.pending));
            documents =
                ap length (tips-append w.flushed st.pending)
                ∙ length-append (tips w.flushed) (tips st.pending)
                ∙ omega (
                  arith,
                  w.documents,
                  ap length (same built refl),
                  number built refl,
                  length-append w.flushed st.pending,
                );
            built = w.built;
            numbered = w.numbered;
            count = w.count;
          })

    keep_back-Logged :
        (st : Syncing D T) (parent : T) (x : TipsetBlockMessages T)
        → IsLogged before first st.pending st
        → IsBuilt x
        → x.address ≡ st.address
        → Logged before first (keep_back api tables format store collections st parent x)
    unfolding keep_back
    keep_back-Logged st parent x w is_built stands = go (
        leb max_pending (length (st.pending ++ x ∷ []))
        || is_some (try_merge_front_with_next st.paths).1
        || length (ops.parents_cids parent) == 0)
      where
        st' : Syncing D T
        st' = record st {
          paths = (try_merge_front_with_next st.paths).0;
          pending = st.pending ++ x ∷ [];
          address = suc st.address;
        }

        longer : (l : List (TipsetBlockMessages T)) → suc (length l) ≡ length (l ++ x ∷ [])
        longer l = omega (arith, length-append l (x ∷ []))

        w' : IsLogged before first (st.pending ++ x ∷ []) st'
        w' = record {
          flushed = w.flushed;
          all = w.all ++ x ∷ [];
          split = ap (λ l. l ++ x ∷ []) w.split ∙ append_assoc w.flushed st.pending (x ∷ []);
          written = w.written;
          documents = w.documents;
          built = All-append_one IsBuilt w.all x w.built is_built;
          numbered =
              addresses_one w.all x
              ∙ ap (λ l. l ++ x.address ∷ []) w.numbered
              ∙ numbers_one first (length w.all) x.address (omega (arith, stands, w.count))
              ∙ ap (numbers first) (longer w.all);
          count = omega (arith, w.count, length-append w.all (x ∷ []));
        }

        go :
            (b : Bool)
            → Logged before first (
                if b
                then after_build api tables format store collections st'
                    (try_merge_front_with_next st.paths).1
                    parent
                    (list_models_data tables format (st.pending ++ x ∷ []))
                else (st', ok parent))
        go true =
            after_build-Logged st' (try_merge_front_with_next st.paths).1 parent
              (list_models_data tables format (st.pending ++ x ∷ [])) w'
              (λ built e. listed-tips (st.pending ++ x ∷ []) e)
              (λ built e. listed-length (st.pending ++ x ∷ []) e)
        go false = w'

    built_tipset-Logged :
        (st : Syncing D T) (child parent : T) (r : Result (TipsetBlockMessages T))
        → build_persistence_data api tables format st.address child parent ≡ r
        → IsLogged before first st.pending st
        → Logged before first (built_tipset api tables format store collections st parent r)
    unfolding built_tipset
    built_tipset-Logged st child parent (fail e) runs w = tt
    built_tipset-Logged st child parent (ok x) runs w =
        let (_, _, stands) =
          build_persistence_data-parent api tables format st.address child parent runs in
        keep_back-Logged st parent x w
          (
            child,
            parent,
            subst (λ a. build_persistence_data api tables format a child parent ≡ ok x) (sym stands)
                runs,
          )
          stands

    inserted_parent-Logged :
        (st : Syncing D T) (child parent : T) (r : List FsSyncedTipsetPath × Bool)
        → IsLogged before first st.pending st
        → Logged before first
            (inserted_parent api tables format store collections st child parent r)
    unfolding inserted_parent
    inserted_parent-Logged st child parent (paths, false) w = tt
    inserted_parent-Logged st child parent (paths, true) w =
        built_tipset-Logged (record st { paths = paths }) child parent
          (build_persistence_data api tables format st.address child parent) refl
          (moved st (record st { paths = paths }) w refl refl)

    found_parent-Logged :
        (st : Syncing D T) (child : T) (o : Option T)
        → IsLogged before first st.pending st
        → Logged before first (found_parent api tables format store collections st child o)
    unfolding found_parent
    found_parent-Logged st child none w = tt
    found_parent-Logged st child (some parent) w =
        inserted_parent-Logged st child parent (insert_tail_parent st.paths parent) w

    sync_loop-Logged :
        (fuel : ℕ) (st : Syncing D T) (child : T)
        → IsLogged before first st.pending st
        → Logged before first (sync_loop api tables format store collections fuel st child)
    unfolding sync_loop genesis_round
    sync_loop-Logged zero st child w = tt
    sync_loop-Logged (suc fuel) st child w =
        go (length (ops.parents_cids child) == 0)
          (genesis_round api tables format store collections st child)
          (found_parent-Logged st child (api.chain_get_tipset (ops.parents child)) w)
          (sync_loop-Logged fuel)
      where
        go :
            (genesis : Bool) (r : Syncing D T × Result T)
            → Logged before first r
            → ((st' : Syncing D T) (next : T)
                → IsLogged before first st'.pending st'
                → Logged before first (sync_loop api tables format store collections fuel st' next))
            → Logged before first (elim genesis as (λ b. Syncing D T × Result T) [
              | true ↦ (st, ok child)
              | false ↦ elim r.1 as (λ b. Syncing D T × Result T) [
                | fail e ↦ (r.0, fail e)
                | ok next ↦ sync_loop api tables format store collections fuel r.0 next
              ]
            ])
        go true r v ih = w
        go false (st', fail f) v ih = tt
        go false (st', ok next) v ih = ih st' next v

  sync_to_genesis-Logged :
      (fuel : ℕ) (db : D) (paths : List FsSyncedTipsetPath) (address : ℕ) (from : T)
      → Logged
          (log db)
          address
          (sync_to_genesis api tables format store collections fuel db paths address from)
  unfolding sync_to_genesis
  sync_to_genesis-Logged fuel db paths address from =
      go (sync_loop api tables format store collections fuel start from) (
        sync_loop-Logged (log db) address fuel start from record {
          flushed = [];
          all = [];
          split = refl;
          written = sym (append-nil (log db));
          documents = refl;
          built = tt;
          numbered = refl;
          count = omega arith;
        })
    where
      start : Syncing D T
      start = record { db = db; paths = paths; pending = []; notified = []; address = address }

      go :
          (r : Syncing D T × Result T)
          → Logged (log db) address r
          → Logged (log db) address (elim r.1 as (λ b. Syncing D T × Result T) [
            | fail e ↦ (r.0, fail e)
            | ok child ↦ (record (r.0) { notified = none ∷ r.0.notified }, ok child)
          ])
      go (st, fail e) w = tt
      go (st, ok child) w = moved st (record st { notified = none ∷ st.notified }) w refl refl

  -- The objects that were built, each at its own address, from the first one up, have been written.
  pub record IsAllStored (db : D) (first : ℕ) (st : Syncing D T) : Type 0 where
    pub none_kept : st.pending ≡ []
    pub all : List (TipsetBlockMessages T)
    pub built : All IsBuilt all
    pub numbered : map (λ x. x.address) all ≡ numbers first (length all)
    pub count : first + length all ≡ st.address
    pub written : log st.db ≡ log db ++ tips all
    pub documents : length (tips all) ≡ length all

  abbrev pub AllStored : D → ℕ → Syncing D T × Result T → Type 0
  AllStored db first r =
      (length r.0.pending ≤ max_pending) × ((is_ok r.1 ≡ false) ⊎ IsAllStored db first r.0)

  -- `sync_to_genesis`, from any tipset and whatever lotus and the database answer, never has more than
  -- 25 built tipsets that are kept back. Where it returns no error, none is kept back, and the objects
  -- that `build_persistence_data` gave, at all addresses from the first one to the last that was used, are
  -- written: behind the documents from before, the collection of tipsets has one document for each of
  -- them, in their order (where a write there without an error adds its documents, and others add none).
  pub sync_to_genesis-stored :
      (fuel : ℕ) (db : D) (paths : List FsSyncedTipsetPath) (address : ℕ) (from : T)
      → AllStored db address
          (sync_to_genesis api tables format store collections fuel db paths address from)
  sync_to_genesis-stored fuel db paths address from =
      go (sync_to_genesis api tables format store collections fuel db paths address from)
        (sync_to_genesis_lem api tables format store collections fuel db paths address from)
        (sync_to_genesis-Logged fuel db paths address from)
    where
      stored :
          (st : Syncing D T)
          → st.pending ≡ []
          → IsLogged (log db) address st.pending st
          → IsAllStored db address st
      stored st empty w =
          let same : w.all ≡ w.flushed =
            w.split ∙ ap (λ kept. w.flushed ++ kept) empty ∙ append-nil w.flushed in
          record {
            none_kept = empty;
            all = w.all;
            built = w.built;
            numbered = w.numbered;
            count = w.count;
            written = w.written ∙ ap (λ l. log db ++ tips l) (sym same);
            documents = ap (λ l. length (tips l)) same ∙ w.documents ∙ ap length (sym same);
          }

      go :
          (r : Syncing D T × Result T)
          → Flushed r
          → Logged (log db) address r
          → AllStored db address r
      go (st, fail e) f w = (f.0, inl refl)
      go (st, ok next) f w =
          (f.0, elim f.1 [ inl wrong ↦ cc | inr empty ↦ inr (stored st empty w) ])
