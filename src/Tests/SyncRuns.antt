-- ===== src/Tests/SyncRuns.antt =====
-- The theorems on the syncer and on what it stores at work.
use filscan_backend.Prelude.{
  Written, done, ap, length, ℕ, ◌<◌, ◌≤◌, ◌≡◌, refl, sym, subst, length, Bool, ◌==◌, nat_eq,
  string_eq, if◌then◌else◌, Fault, true, false, String, ◌⊎◌, inl, inr, Option, none, some, List, [],
  ◌∷◌, ◌++◌, map, flat_map, All, Result, ok, fail, nil_dereference, method_not_found, arith,
}
use filscan_backend.Actors.{
  ActorInfo, MethodInfo, actor_for, parse_actor, lookup_method, parse_actor_message,
}
use filscan_backend.Actors.Lookup.{last_field, lookup_method-parse_actor, parse_actor_message_lem}
use filscan_backend.BlockMessage.{
  TipsetBlockMessages, build_models_data, build_loop, receipts_ref, to_fil_str, to_fs_tipset,
}
use filscan_backend.BlockMessage.Built.{any, listed, names_miner, build_models_data_lists}
use filscan_backend.BlockMessage.Chunks.{
  concat, IsBatch, write_all, bulk_upsert_message, bulk_upsert_message-write_all,
}
use filscan_backend.TipsetCache.{new_fs_cache}
use filscan_backend.Syncer.{HeadChange, Filscaner, fall_through, handle_new_headers}
use filscan_backend.Syncer.Cached.{Fills, fall_through_lem}
use filscan_backend.Syncer.Headers.{unanswered, handle_new_headers_lem}
use filscan_backend.Syncer.Handlers.{IsConsistent}
use filscan_backend.BlockMessage.Listed.{FsModelsData, list_models_data}
use filscan_backend.SyncedPath.Walk.{synced}
use filscan_backend.Syncer.Safe.{
  SafeState, IsStored, handle_secod_safe_tipset, handle_secod_safe_tipset_lem,
}
use filscan_backend.Syncer.Genesis.{Collections, Syncing, genesis_round, sync_to_genesis}
use filscan_backend.Syncer.Genesis.Lowers.{IsChain}
use filscan_backend.Syncer.Regular.{HasMessages}
use filscan_backend.Syncer.Genesis.Ends.{Reaches, start_of, sync_to_genesis-IsEnd}
use filscan_backend.SyncedPath.{FsSyncedTipsetPath}
use filscan_backend.Tests.PathRuns.{store}
use filscan_backend.Tests.{
  Tip, tip_ops, tip_law, tip_0, tip_1, tip_2, tip_3, lotus, tables, format, fields, block_message,
  receipt,
}

abbrev filscaner : Filscaner Tip
filscaner = record {
  is_second = false;
  last_appl_tipset = none;
  tipsets_cache = record { list = []; max_size = 2 };
  address = 1;
  safe = [];
}

filscaner-IsConsistent : IsConsistent 9 filscaner
filscaner-IsConsistent = record {
  valid = record { present = tt; linked = tt; bounded = omega arith };
  unstarted = inr refl;
  started = inl refl;
  enough = omega arith;
}

abbrev headers : List (Option (HeadChange Tip))
headers =
    some (record { is_apply = true; val = tip_2 })
    ∷ none
    ∷ some (record { is_apply = true; val = tip_3 })
    ∷ []

fall_through_example :
    Fills lotus tables format (fall_through lotus tables format 9 1 (new_fs_cache 2) tip_3 tip_2)
fall_through_example = fall_through_lem lotus tables format tip_law 9 1 2 tip_3 tip_2

abbrev raw : TipsetBlockMessages Tip
raw = record {
  address = 1;
  tipset = some tip_1;
  block_rwds = some 5;
  messages = "m1" ∷ [];
  receipts = some receipt ∷ [];
  block_msgs = block_message ∷ [];
  is_cached = false;
  fs_tipset = none;
  fs_blocks = [];
  fs_msgs = [];
  fs_miners = [];
  fs_block_message = [];
}

actor_known : actor_for tables "t01" ≡ some (parse_actor "StorageMinerActor" fields)
unfolding actor_for
actor_known = refl

parse_actor_message_example :
    parse_actor_message tables 1 "t01"
    ≡ elim (last_field 1 fields) as (λ o. Result (ActorInfo × MethodInfo)) [
      | none ↦ fail method_not_found
      | some m ↦ ok (parse_actor "StorageMinerActor" fields, m)
    ]
parse_actor_message_example =
    parse_actor_message_lem tables 1 "t01" "StorageMinerActor" fields actor_known (ground arith)

lookup_method-parse_actor_example :
    lookup_method (parse_actor "StorageMinerActor" fields) 1 ≡ ok (last_field 1 fields)
lookup_method-parse_actor_example = lookup_method-parse_actor "StorageMinerActor" fields 1

-- A batch is appended to what is stored.
abbrev keep : List ℕ → List ℕ → Written (List ℕ)
keep db b = done b

bulk_upsert_message_example :
    (batches : List (List ℕ)) × (concat keep batches ≡ 1 ∷ 2 ∷ [])
    × All (IsBatch keep) batches
    × ((db : List ℕ) → bulk_upsert_message keep db (1 ∷ 2 ∷ []) ≡ write_all keep db batches)
bulk_upsert_message_example = bulk_upsert_message-write_all keep (1 ∷ 2 ∷ [])

abbrev built : TipsetBlockMessages Tip
built =
    record (build_loop tables (to_fil_str format (some 5)) (("m1", some receipt) ∷ [])
      (block_message ∷ []) raw) { is_cached = true; fs_tipset = some (to_fs_tipset tip_1) }

raw-built : build_models_data tables format raw ≡ ok built
unfolding build_models_data receipts_ref
raw-built = refl

build_models_data_lists_example :
    (built.fs_blocks ≡ map (λ b. b.block) built.fs_block_message)
    × (built.fs_msgs ≡ flat_map (λ b. b.msg) built.fs_block_message)
    × ((miner : String) → listed miner built.fs_miners ≡ any (names_miner miner) built.fs_msgs)
    × (built.tipset ≡ some tip_1)
build_models_data_lists_example = build_models_data_lists tables format raw built refl raw-built

abbrev collections : Collections (List FsSyncedTipsetPath)
collections = record {
  upsert_msg = λ db l. done db;
  upsert_block = λ db l. done db;
  upsert_tipset = λ db l. done db;
}

lotus-cases :
    (key : String) (t : Tip)
    → lotus.chain_get_tipset key ≡ some t
    → (t ≡ tip_2) ⊎ (t ≡ tip_1) ⊎ (t ≡ tip_0)
lotus-cases key t e = by_key (key == "t2") (key == "t1") (key == "t0") e
  where
    by_key :
        (two one zero : Bool)
        → (if two
            then some tip_2
            else if one
            then some tip_1
            else if zero
            then some tip_0
            else none)
          ≡ some t
        → (t ≡ tip_2) ⊎ (t ≡ tip_1) ⊎ (t ≡ tip_0)
    by_key true one zero e = inl (cc e)
    by_key false true zero e = inr (inl (cc e))
    by_key false false true e = inr (inr (cc e))
    by_key false false false e = cc

lotus-IsChain : IsChain lotus 4
lotus-IsChain = record {
  bounded = λ t k. low t (lotus-cases k.0 t k.1);
  falling = λ t p k e. parent_low t p (lotus-cases k.0 t k.1) e;
}
  where
    low : (t : Tip) → (t ≡ tip_2) ⊎ (t ≡ tip_1) ⊎ (t ≡ tip_0) → t.level ≤ 4
    low t (inl e) = subst (λ x. x.level ≤ 4) (sym e) (omega arith)
    low t (inr (inl e)) = subst (λ x. x.level ≤ 4) (sym e) (omega arith)
    low t (inr (inr e)) = subst (λ x. x.level ≤ 4) (sym e) (omega arith)

    some_level : {a b : Tip} → some a ≡ some b → a.level ≡ b.level
    some_level e = cc

    Falls : Tip → Tip → Type 0
    Falls p t = lotus.chain_get_tipset t.parent ≡ some p → p.level < t.level

    parent_low :
        (t p : Tip)
        → (t ≡ tip_2) ⊎ (t ≡ tip_1) ⊎ (t ≡ tip_0)
        → lotus.chain_get_tipset t.parent ≡ some p
        → p.level < t.level
    parent_low t p (inl e) = subst (Falls p) (sym e) (λ h. omega (arith, some_level h))
    parent_low t p (inr (inl e)) = subst (Falls p) (sym e) (λ h. omega (arith, some_level h))
    parent_low t p (inr (inr e)) = subst (Falls p) (sym e) (λ h. cc)

sync_to_genesis-IsEnd_example :
    (last : Syncing (List FsSyncedTipsetPath) Tip) × (end : Tip) × Reaches lotus tables format store
      collections 4 lotus-IsChain
      (start_of lotus tables format store collections 4 lotus-IsChain [] [] 1)
      tip_2
      last
      end
    × ((((length (tip_ops.parents_cids end) == 0) ≡ true)
          × (sync_to_genesis lotus tables format store collections 9 [] [] 1 tip_2
              ≡ (record last { notified = none ∷ last.notified }, ok end)))
        ⊎ ((e : Fault) × (st' : Syncing (List FsSyncedTipsetPath) Tip) × (genesis_round lotus tables
                format store collections last end
              ≡ (st', fail e))
            × (sync_to_genesis lotus tables format store collections 9 [] [] 1 tip_2
                ≡ (st', fail e))))
sync_to_genesis-IsEnd_example =
    sync_to_genesis-IsEnd lotus tables format store collections 4 lotus-IsChain 9 [] [] 1 tip_2
      ("t2", refl) (omega arith)

abbrev genesis_path : FsSyncedTipsetPath
genesis_path = record { head = synced tip_0; tail = synced tip_0; upsert_selc = none }

abbrev safe_state : SafeState (List FsSyncedTipsetPath) Tip
safe_state = record {
  db = [];
  paths = genesis_path ∷ [];
  notified = [];
  tasks = [];
  is_second = true;
}

abbrev data_of_built : FsModelsData
data_of_built = record {
  tipsets = to_fs_tipset tip_1 ∷ [];
  blocks = built.fs_blocks ++ [];
  messages = built.fs_msgs ++ [];
  miners = built.fs_miners ∷ [];
}

built-data : list_models_data tables format (built ∷ []) ≡ ok data_of_built
unfolding list_models_data build_models_data
built-data = refl

built-tipset : built.tipset ≡ some tip_1
unfolding build_loop
built-tipset = refl

handle_secod_safe_tipset_example :
    (((genesis_path.head.key == tip_1.parent) ≡ false)
      × (handle_secod_safe_tipset tables format store collections safe_state (some built)
          ≡ ok safe_state))
    ⊎ (((genesis_path.head.key == tip_1.parent) ≡ true)
        × ((st' : SafeState (List FsSyncedTipsetPath) Tip) × (handle_secod_safe_tipset tables format
                store collections safe_state
                (some built)
              ≡ ok st')
            × IsStored tables format store collections safe_state
                (record genesis_path { head = synced tip_1 })
                []
                data_of_built
                st'))
handle_secod_safe_tipset_example =
    handle_secod_safe_tipset_lem tables format store collections safe_state built tip_1
      data_of_built genesis_path [] built-tipset built-data refl

abbrev size_of : {A : Type 0} → Option (List A) → ℕ
size_of none = 0
size_of (some l) = length l

lotus-HasMessages : HasMessages lotus
lotus-HasMessages cid messages receipts m r = omega (arith, ap size_of m, ap size_of r)

handle_new_headers_example :
    (unanswered (λ n. lotus) tables format false 0 headers ≡ true)
      × (handle_new_headers (λ n. lotus) tables format 9 0 filscaner headers ≡ fail nil_dereference)
    ⊎ (unanswered (λ n. lotus) tables format false 0 headers ≡ false)
      × ((fs' : Filscaner Tip) × (handle_new_headers
              (λ n. lotus)
              tables
              format
              9
              0
              filscaner
              headers
            ≡ ok fs')
          × IsConsistent 9 fs')
handle_new_headers_example =
    handle_new_headers_lem (λ n. lotus) tables format tip_law (λ n. lotus-HasMessages) 4
      (λ n. lotus-IsChain) 9 (omega arith) 0 filscaner headers filscaner-IsConsistent
