-- ===== src/Syncer/Genesis/Lowers.antt =====
-- A round of `sync_to_genesis` either goes down in height, or merges two stored paths.
use filscan_backend.Prelude.{
  Written, done, broken, ℕ, suc, ◌-◌, ◌<◌, ◌≤◌, ◌≡◌, refl, sym, ap, Bool, true, false, ◌||◌, String,
  Option, none, some, List, [], ◌∷◌, ◌++◌, length, leb, ◌==◌, nat_eq, if◌then◌else◌, is_some, ◌⊎◌,
  inl, inr, Result, ok, fail, nil_dereference, >>=-eq-ok, ok-injective, arith, subst,
}
use filscan_backend.Chain.{TipsetOps}
use filscan_backend.Actors.{ActorTables}
use filscan_backend.BlockMessage.{TipsetBlockMessages}
use filscan_backend.BlockMessage.Listed.{FsModelsData, list_models_data}
use filscan_backend.SyncedPath.{
  FsSyncedTipset, FsSyncedTipsetPath, PathStore, insert_tail_parent, front_tail, models_upsert,
  try_merge_front_with_next, models_upsert_front, try_merge_with, models_del,
}
use filscan_backend.Syncer.{LotusApi}
use filscan_backend.Syncer.Genesis.{
  Collections, Syncing, max_pending, after_tipset, after_del, after_front, after_upsert,
  after_build, keep_back, built_tipset, inserted_parent, found_parent, genesis_round,
}

-- A tipset that lotus answers with.
abbrev pub IsKnown : {T : Type 0} → LotusApi T → T → Type 0
IsKnown api t = (key : String) × (api.chain_get_tipset key ≡ some t)

-- lotus answers with tipsets up to a height, and with a parent that is lower.
pub record IsChain {T : Type 0} ⦃ops : TipsetOps T⦄ (api : LotusApi T) (top : ℕ) : Type 0 where
  pub bounded : (t : T) → IsKnown api t → ops.height t ≤ top
  pub falling :
      (t p : T)
      → IsKnown api t
      → api.chain_get_tipset (ops.parents t) ≡ some p
      → ops.height p < ops.height t

-- How many merges of stored paths there can be.
abbrev pub merges_left : List FsSyncedTipsetPath → ℕ
merges_left l = length l - 1

abbrev IsReady : ℕ → List FsSyncedTipsetPath → Option FsSyncedTipsetPath → Type 0
IsReady n l none = merges_left l ≤ n
IsReady n l (some merged) = merges_left l < n

try_merge-IsReady :
    (l : List FsSyncedTipsetPath)
    → IsReady (merges_left l) (try_merge_front_with_next l).0 (try_merge_front_with_next l).1
unfolding try_merge_front_with_next
try_merge-IsReady [] = omega arith
try_merge-IsReady (front ∷ []) = omega arith
try_merge-IsReady (front ∷ next ∷ l) = go (try_merge_with front next)
  where
    go :
        (r : FsSyncedTipsetPath × Bool)
        → let res : List FsSyncedTipsetPath × Option FsSyncedTipsetPath =
            if r.1 then (r.0 ∷ l, some next) else (r.0 ∷ next ∷ l, none) in
          IsReady (merges_left (front ∷ next ∷ l)) res.0 res.1
    go (front', true) = omega arith
    go (front', false) = omega arith

length-insert_tail_parent :
    {T : Type 0} ⦃ops : TipsetOps T⦄ (l : List FsSyncedTipsetPath) (t : T)
    → merges_left (insert_tail_parent l t).0 ≡ merges_left l
unfolding insert_tail_parent
length-insert_tail_parent [] t = omega arith
length-insert_tail_parent (front ∷ l) t = refl

length-models_upsert_front :
    {D : Type 0} (store : PathStore D) (db : D) (l : List FsSyncedTipsetPath) {db' : D}
    {l' : List FsSyncedTipsetPath}
    → models_upsert_front store db l ≡ ok (db', l')
    → length l' ≡ length l
unfolding models_upsert_front
length-models_upsert_front store db [] e = cc
length-models_upsert_front store db (front ∷ l) {db'} {l'} e =
    let ((db₁, front₁), runs, gives) =
      >>=-eq-ok (models_upsert store db front) (λ r. ok (r.0, r.1 ∷ l)) e in
    ap (λ r. length r.1) (sym (ok-injective gives))

module _ {D T : Type 0} ⦃ops : TipsetOps T⦄ (api : LotusApi T) (tables : ActorTables)
    (format : ℕ → String) (store : PathStore D) (collections : Collections D) (top : ℕ)
    (chain : IsChain api top) where
  -- After a round there are fewer merges left, or the next tipset is lower.
  abbrev pub Lowers : ℕ → ℕ → Syncing D T × Result T → Type 0
  Lowers n h (st, fail e) = Unit
  Lowers n h (st, ok next) =
      IsKnown api next
      × ((merges_left st.paths < n) ⊎ ((merges_left st.paths ≤ n) × (ops.height next < h)))

  after_tipset-Lowers :
      (n h : ℕ) (st : Syncing D T) (key : String) (o : Option T)
      → api.chain_get_tipset key ≡ o
      → merges_left st.paths < n
      → Lowers n h (after_tipset api tables format store collections st o)
  unfolding after_tipset
  after_tipset-Lowers n h st key none e l = tt
  after_tipset-Lowers n h st key (some next) e l = ((key, e), inl l)

  after_del-Lowers :
      (n h : ℕ) (st : Syncing D T) (r : Result D)
      → merges_left st.paths < n
      → Lowers n h (after_del api tables format store collections st r)
  unfolding after_del
  after_del-Lowers n h st (fail e) l = tt
  after_del-Lowers n h st (ok db) l = go (front_tail st.paths)
    where
      go :
          (o : Option FsSyncedTipset)
          → Lowers n h (elim o as (λ p. Syncing D T × Result T) [
            | none ↦ (record st { db = db }, fail nil_dereference)
            | some tail ↦
                after_tipset api tables format store collections
                  (record st { db = db })
                  (api.chain_get_tipset tail.key)
          ])
      go none = tt
      go (some tail) =
          after_tipset-Lowers n h (record st { db = db }) tail.key (api.chain_get_tipset tail.key)
            refl l

  after_front-Lowers :
      (n h : ℕ) (st : Syncing D T) (merged : Option FsSyncedTipsetPath) (parent : T)
      (l : List FsSyncedTipsetPath) (r : Result (D × List FsSyncedTipsetPath))
      → ((db : D) (l' : List FsSyncedTipsetPath) → r ≡ ok (db, l') → length l' ≡ length l)
      → IsReady n l merged
      → (ops.height parent < h) × IsKnown api parent
      → Lowers n h (after_front api tables format store collections st merged parent r)
  unfolding after_front
  after_front-Lowers n h st none parent l (fail e) same i p = tt
  after_front-Lowers n h st (some m) parent l (fail e) same i p = tt
  after_front-Lowers n h st none parent l (ok (db, l')) same i p =
      (p.1, inr (omega (arith, i, same db l' refl), p.0))
  after_front-Lowers n h st (some m) parent l (ok (db, l')) same i p =
      after_del-Lowers n h (record st { db = db; paths = l' }) (models_del store db m)
        (omega (arith, i, same db l' refl))

  after_upsert-Lowers :
      (n h : ℕ) (st : Syncing D T) (merged : Option FsSyncedTipsetPath) (parent : T) (r : Written D)
      → IsReady n st.paths merged
      → (ops.height parent < h) × IsKnown api parent
      → Lowers n h (after_upsert api tables format store collections st merged parent r)
  unfolding after_upsert
  after_upsert-Lowers n h st merged parent (broken db e) i p = tt
  after_upsert-Lowers n h st merged parent (done db) i p =
      after_front-Lowers n h (record st { db = db }) merged parent st.paths
        (models_upsert_front store db st.paths)
        (λ db' l' e. length-models_upsert_front store db st.paths e) i p

  after_build-Lowers :
      (n h : ℕ) (st : Syncing D T) (merged : Option FsSyncedTipsetPath) (parent : T)
      (r : Result FsModelsData)
      → IsReady n st.paths merged
      → (ops.height parent < h) × IsKnown api parent
      → Lowers n h (after_build api tables format store collections st merged parent r)
  unfolding after_build
  after_build-Lowers n h st merged parent (fail e) i p = tt
  after_build-Lowers n h st merged parent (ok built) i p =
      after_upsert-Lowers n h (record st { notified = some built.miners ∷ st.notified }) merged
        parent _ i p

  weaker :
      (n : ℕ) (l : List FsSyncedTipsetPath) (o : Option FsSyncedTipsetPath)
      → IsReady n l o
      → merges_left l ≤ n
  weaker n l none i = i
  weaker n l (some m) i = omega (arith, i)

  keep_back-Lowers :
      (h : ℕ) (st : Syncing D T) (parent : T) (x : TipsetBlockMessages T)
      → (ops.height parent < h) × IsKnown api parent
      → Lowers (merges_left st.paths) h (keep_back api tables format store collections st parent x)
  unfolding keep_back
  keep_back-Lowers h st parent x p = go (
      leb max_pending (length (st.pending ++ x ∷ []))
      || is_some (try_merge_front_with_next st.paths).1
      || length (ops.parents_cids parent) == 0)
    where
      st' : Syncing D T
      st' = record st {
        paths = (try_merge_front_with_next st.paths).0;
        pending = st.pending ++ x ∷ [];
        address = suc st.address;
      }

      go :
          (b : Bool)
          → Lowers (merges_left st.paths) h (
              if b
              then after_build api tables format store collections st'
                  (try_merge_front_with_next st.paths).1
                  parent
                  (list_models_data tables format (st.pending ++ x ∷ []))
              else (st', ok parent))
      go true =
          after_build-Lowers (merges_left st.paths) h st' (try_merge_front_with_next st.paths).1
            parent _ (try_merge-IsReady st.paths) p
      go false = (
        p.1,
        inr (
          weaker (merges_left st.paths) (try_merge_front_with_next st.paths).0
              (try_merge_front_with_next st.paths).1 (try_merge-IsReady st.paths),
          p.0,
        ),
      )

  built_tipset-Lowers :
      (n h : ℕ) (st : Syncing D T) (parent : T) (r : Result (TipsetBlockMessages T))
      → merges_left st.paths ≡ n
      → (ops.height parent < h) × IsKnown api parent
      → Lowers n h (built_tipset api tables format store collections st parent r)
  unfolding built_tipset
  built_tipset-Lowers n h st parent (fail e) same p = tt
  built_tipset-Lowers n h st parent (ok x) same p =
      subst (λ k. Lowers k h (keep_back api tables format store collections st parent x)) same
        (keep_back-Lowers h st parent x p)

  inserted_parent-Lowers :
      (n h : ℕ) (st : Syncing D T) (child parent : T) (r : List FsSyncedTipsetPath × Bool)
      → merges_left r.0 ≡ n
      → (ops.height parent < h) × IsKnown api parent
      → Lowers n h (inserted_parent api tables format store collections st child parent r)
  unfolding inserted_parent
  inserted_parent-Lowers n h st child parent (l, false) same p = tt
  inserted_parent-Lowers n h st child parent (l, true) same p =
      built_tipset-Lowers n h (record st { paths = l }) parent _ same p

  found_parent-Lowers :
      (st : Syncing D T) (child : T) (o : Option T)
      → IsKnown api child
      → api.chain_get_tipset (ops.parents child) ≡ o
      → Lowers
          (merges_left st.paths)
          (ops.height child)
          (found_parent api tables format store collections st child o)
  unfolding found_parent
  found_parent-Lowers st child none k e = tt
  found_parent-Lowers st child (some parent) k e =
      inserted_parent-Lowers (merges_left st.paths) (ops.height child) st child parent
        (insert_tail_parent st.paths parent) (length-insert_tail_parent st.paths parent)
        (chain.falling child parent k e, (ops.parents child, e))

  pub genesis_round-Lowers :
      (st : Syncing D T) (child : T)
      → IsKnown api child
      → Lowers
          (merges_left st.paths)
          (ops.height child)
          (genesis_round api tables format store collections st child)
  unfolding genesis_round
  genesis_round-Lowers st child k =
      found_parent-Lowers st child (api.chain_get_tipset (ops.parents child)) k refl
