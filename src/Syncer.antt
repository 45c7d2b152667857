-- ===== src/Syncer.antt =====
-- filscaner/fs_syncer.go: the tipsets that lotus announces are cached, and those that fall off the cache
-- are stored, down to the genesis. The calls of lotus's API are an argument: a tipset is found by the text
-- of its key, `none` is an error, and the answers do not change during a call of a handler.
pub mod Cached
pub mod Headers
pub mod Handlers
pub mod Regular
pub mod Genesis
pub mod Safe
use filscan_backend.Prelude.{
  ℕ, zero, suc, ◌+◌, ◌≡◌, Bool, true, false, ◌||◌, not, String, Option, none, some, List, [], ◌∷◌,
  ◌++◌, map, length, ltb, leb, ◌==◌, nat_eq, string_eq, if◌then◌else◌, is_some, Fault, is_panic,
  Result, ok, fail, nil_dereference, out_of_fuel, api_error, key_mismatch, no_blocks, deref, ◌>>=◌,
}
use filscan_backend.Chain.{TipsetOps, BlockHeader}
use filscan_backend.Actors.{ActorTables}
use filscan_backend.BlockMessage.{
  LotusMessage, Receipt, BlockMessage, TipsetBlockMessages, build_models_data,
}
use filscan_backend.TipsetCache.{FsTipsetCache, full, push_back, push_front}

-- `api.FullNode`, as far as it is called here, and `API_block_rewards`. `blocks` are the headers of a
-- tipset with their `Cid().String()`; `block_messages` the messages signed with BLS and with secp256k1.
pub record LotusApi (T : Type 0) : Type 0 where
  pub chain_get_tipset : String → Option T
  pub chain_head : Option T
  pub blocks : T → List (String × BlockHeader)
  pub block_messages : String → Option (List LotusMessage × List LotusMessage)
  pub block_rewards : T → Option ℕ
  pub parent_messages : String → Option (List String)
  pub parent_receipts : String → Option (List (Option Receipt))

abbrev pub or_error {ℓ} : {A : Type ℓ} → Option A → Result A
or_error none = fail api_error
or_error (some a) = ok a

-- The loop over the blocks of `api_tipset_blockmessages_and_receipts`.
unfoldable pub get_block_messages :
    {T : Type 0} → LotusApi T → List (String × BlockHeader) → Result (List BlockMessage)
get_block_messages api [] = ok []
get_block_messages api ((cid, header) ∷ blocks) = do
  (bls, secpk) ← or_error (api.block_messages cid)
  rest ← get_block_messages api blocks
  ok (record { cid = cid; header = header; bls_messages = bls; secpk_messages = secpk } ∷ rest)

-- lotus's `store.HeadChange` of type apply, or of another type.
pub record HeadChange (T : Type 0) : Type 0 where
  pub is_apply : Bool
  pub val : T

-- The fields of `Filscaner` that the handlers of an applied tipset use. `is_second` says which of the two
-- handlers `handle_appl_tipset` is; new objects are made at `address` and behind it; `safe` are the calls
-- of `handle_safe_tipset`, the latest first.
pub record Filscaner (T : Type 0) : Type 0 where
  pub is_second : Bool
  pub last_appl_tipset : Option T
  pub tipsets_cache : FsTipsetCache T
  pub address : ℕ
  pub safe : List (TipsetBlockMessages T)

abbrev pub append_option {ℓ} : {A : Type ℓ} → Option A → List A → List A
append_option none l = l
append_option (some a) l = a ∷ l

module _ {T : Type 0} ⦃ops : TipsetOps T⦄ (api : LotusApi T) (tables : ActorTables)
    (format : ℕ → String) where
  -- The new object stands at `address`.
  unfoldable pub api_tipset_blockmessages_and_receipts :
      ℕ → T → String → Result (TipsetBlockMessages T)
  api_tipset_blockmessages_and_receipts address tipset child_cid = do
    block_msgs ← get_block_messages api (api.blocks tipset)
    messages ← or_error (api.parent_messages child_cid)
    receipts ← or_error (api.parent_receipts child_cid)
    build_models_data tables format (record {
      address = address;
      tipset = some tipset;
      block_rwds = api.block_rewards tipset;
      messages = messages;
      receipts = receipts;
      block_msgs = block_msgs;
      is_cached = false;
      fs_tipset = none;
      fs_blocks = [];
      fs_msgs = [];
      fs_miners = [];
      fs_block_message = [];
    })

  unfoldable pub build_persistence_data : ℕ → T → T → Result (TipsetBlockMessages T)
  build_persistence_data address child parent =
      if not (ops.parents child == ops.key parent)
      then fail key_mismatch
      else elim (ops.key_cids child) [
        | [] ↦ fail no_blocks
        | child_cid ∷ _ ↦ api_tipset_blockmessages_and_receipts address parent child_cid
      ]

  -- `sync_tipset_cache_fall_through`: the cache after the call, and the result. The objects are made at
  -- `address` and behind it.
  pub fall_through : ℕ → ℕ → FsTipsetCache T → T → T → FsTipsetCache T × Result T
  fall_through zero address fsc child parent = (fsc, fail out_of_fuel)
  fall_through (suc fuel) address fsc child parent = elim (full fsc) [
    | true ↦ (fsc, ok parent)
    | false ↦ elim (build_persistence_data address child parent) [
      | fail e ↦ (fsc, fail e)
      | ok blockmessage ↦
          let fsc' = push_back fsc (some blockmessage) in
          elim (api.chain_get_tipset (ops.parents parent)) [
            | none ↦ (fsc', fail api_error)
            | some next ↦ fall_through fuel (suc address) fsc' parent next
          ]
    ]
  ]

  -- The result of `sync_tipset_cache_fall_through`, which is not looked at: an error is dropped, a panic
  -- goes on.
  abbrev pub first_filled : Filscaner T → FsTipsetCache T × Result T → Result (Filscaner T)
  first_filled fs (fsc, ok tipset) = ok (record fs { is_second = true; tipsets_cache = fsc })
  first_filled fs (fsc, fail e) =
      if is_panic e then fail e else ok (record fs { is_second = true; tipsets_cache = fsc })

  -- `handle_first_appl_tipset`, called with no parent. Where lotus does not answer, the message that is
  -- printed reads the height of the nil parent.
  unfoldable pub handle_first_appl_tipset : ℕ → Filscaner T → T → Result (Filscaner T)
  handle_first_appl_tipset fuel fs child = elim (api.chain_get_tipset (ops.parents child)) [
    | none ↦ fail nil_dereference
    | some parent ↦
        first_filled (record fs { address = fs.address + fuel })
          (fall_through fuel fs.address fs.tipsets_cache child parent)
  ]

  unfoldable pub secod_push : ℕ → Filscaner T → TipsetBlockMessages T → Result (Filscaner T)
  secod_push fuel fs blockmessage = do
    (fsc, pushed_off) ← push_front fuel fs.tipsets_cache (some blockmessage)
    ok (record fs {
      tipsets_cache = fsc;
      address = suc fs.address;
      safe = append_option pushed_off fs.safe;
    })

  unfoldable pub handle_secod_appl_tipset : ℕ → Filscaner T → T → T → Result (Filscaner T)
  handle_secod_appl_tipset fuel fs last_appl_tipset child =
      if ops.height last_appl_tipset == ops.height child
      then ok fs
      else elim (api.chain_get_tipset (ops.parents child)) [
        | none ↦ ok fs
        | some parent ↦ elim (build_persistence_data fs.address child parent) [
          | fail e ↦ if is_panic e then fail e else ok fs
          | ok blockmessage ↦ secod_push fuel fs blockmessage
        ]
      ]

  -- What `fs.handle_appl_tipset` calls.
  unfoldable pub handle_appl_tipset : ℕ → Filscaner T → T → Result (Filscaner T)
  handle_appl_tipset fuel fs child =
      if fs.is_second
      then (elim fs.last_appl_tipset [
        | none ↦ fail nil_dereference
        | some last ↦ handle_secod_appl_tipset fuel fs last child
      ])
      else handle_first_appl_tipset fuel fs child

  -- `display_notifi_` of filscaner/fs_loops.go prints the heights of the parent and of the head, and does
  -- not look at the errors of the two calls.
  unfoldable pub display_notifi_ : T → Result (Unit {0})
  display_notifi_ val = do
    parent ← deref (api.chain_get_tipset (ops.parents val))
    head ← deref api.chain_head
    ok tt

-- `handle_new_headers` of filscaner/fs_loops.go; a nil header is `none`. The answers of lotus depend on
-- the moment: one for what is displayed of a header, and the next one for its handler.
pub handle_new_headers :
    {T : Type 0} ⦃ops : TipsetOps T⦄
    → (ℕ → LotusApi T)
    → ActorTables
    → (ℕ → String)
    → ℕ
    → ℕ
    → Filscaner T
    → List (Option (HeadChange T))
    → Result (Filscaner T)
handle_new_headers lotus tables format fuel now fs [] = ok fs
handle_new_headers lotus tables format fuel now fs (none ∷ headers) =
    handle_new_headers lotus tables format fuel now fs headers
handle_new_headers lotus tables format fuel now fs (some header ∷ headers) = do
  displayed ← display_notifi_ (lotus now) tables format header.val
  fs' ←
      (if header.is_apply
        then (do
          handled ← handle_appl_tipset (lotus (suc now)) tables format fuel fs header.val
          ok (record handled { last_appl_tipset = some header.val }))
        else ok fs)
  handle_new_headers lotus tables format fuel (suc (suc now)) fs' headers
