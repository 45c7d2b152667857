-- ===== src/BlockMessage.antt =====
-- filscaner/fs_block_message.go: a tipset with the messages and receipts that lotus gave, and the data
-- that is stored and cached of it. Fields that the code only copies, such as sizes, signatures and
-- times of creation, are left out.
pub mod Built
pub mod Chunks
pub mod Listed
use filscan_backend.Prelude.{
  ℕ, zero, suc, ◌<◌, Bool, true, false, ◌||◌, String, Option, none, some, List, [], ◌∷◌, ◌++◌, map,
  ◌==◌, nat_eq, string_eq, if◌then◌else◌, Result, ok, fail, out_of_range, deref, ◌>>=◌,
}
use filscan_backend.Chain.{TipsetOps, BlockHeader, FilscanBlock, FilscanMsg, BlockAndMsg}
use filscan_backend.Actors.{ActorTables, parse_actor_message}

-- lotus's `types.Message`, with its `Cid().String()` and the texts of its addresses.
pub record LotusMessage : Type 0 where
  pub cid : String
  pub from : String
  pub to : String
  pub method : ℕ

-- lotus's `types.MessageReceipt`, with its fields as the texts that are stored.
pub record Receipt : Type 0 where
  pub exit_code : String
  pub gas_used : String
  pub return_value : String

-- `Block_message`: a header with its `Cid().String()`, and lotus's `api.BlockMessages`.
pub record BlockMessage : Type 0 where
  pub cid : String
  pub header : BlockHeader
  pub bls_messages : List LotusMessage
  pub secpk_messages : List LotusMessage

-- `models.FilscanTipSet`.
pub record FilscanTipset : Type 0 where
  pub key : String
  pub parent_key : String
  pub tipset_height : ℕ
  pub mintime : ℕ

unfoldable pub to_fs_tipset : {T : Type 0} ⦃ops : TipsetOps T⦄ → T → FilscanTipset
to_fs_tipset ⦃ops⦄ tipset = record {
  key = ops.key tipset;
  parent_key = ops.parents tipset;
  tipset_height = ops.height tipset;
  mintime = ops.min_timestamp tipset;
}

-- `Tipset_block_messages`. `address` is the object's address, which `equals` compares; `messages` are
-- the identifiers of the `api.Message` values; a nil receipt is `none`.
pub record TipsetBlockMessages (T : Type 0) : Type 0 where
  pub address : ℕ
  pub tipset : Option T
  pub block_rwds : Option ℕ
  pub messages : List String
  pub receipts : List (Option Receipt)
  pub block_msgs : List BlockMessage
  pub is_cached : Bool
  pub fs_tipset : Option FilscanTipset
  pub fs_blocks : List FilscanBlock
  pub fs_msgs : List FilscanMsg
  pub fs_miners : List String
  pub fs_block_message : List BlockAndMsg

-- utils.ToFilStr with its printing of a balance as a parameter.
unfoldable pub to_fil_str : (ℕ → String) → Option ℕ → String
to_fil_str format none = ""
to_fil_str format (some v) = format v

unfoldable pub fs_block : BlockMessage → FilscanBlock
fs_block self = record { cid = self.cid; block_header = self.header; block_reward = "" }

-- The names of the actor and the method of a message; both are empty if the actor is not known.
unfoldable pub names_of : ActorTables → LotusMessage → String × String
names_of tables v =
    if v.method == 0 then ("", "Transfer") else elim (parse_actor_message tables v.method v.to) [
      | ok (actor, method) ↦ (actor.actor, method.name)
      | fail _ ↦ ("", "")
    ]

pub fs_message : ActorTables → BlockMessage → LotusMessage → FilscanMsg
fs_message tables self v =
    let (actor_name, method_name) = names_of tables v in
    record {
      msg_cid = v.cid;
      block_cid = self.cid;
      from = v.from;
      to = v.to;
      actor_name = actor_name;
      method_name = method_name;
      exit_code = "";
      return_value = "";
      gas_used = "";
    }

-- The two loops of `fs_messages`.
unfoldable pub fs_messages : ActorTables → BlockMessage → List FilscanMsg
fs_messages tables self =
    map (fs_message tables self) self.bls_messages
    ++ map (fs_message tables self) self.secpk_messages

-- The Go map of `receipts_ref`, latest entry first. A receipt with no message at its index is a panic.
unfoldable pub receipts_ref :
    List String
    → List (Option Receipt)
    → List (String × Option Receipt)
    → Result (List (String × Option Receipt))
receipts_ref messages [] ref = ok ref
receipts_ref [] (r ∷ receipts) ref = fail out_of_range
receipts_ref (cid ∷ messages) (r ∷ receipts) ref = receipts_ref messages receipts ((cid, r) ∷ ref)

pub receipt_of : String → List (String × Option Receipt) → Option Receipt
receipt_of cid [] = none
receipt_of cid ((k, r) ∷ ref) = if k == cid then r else receipt_of cid ref

unfoldable pub set_receipt : List (String × Option Receipt) → FilscanMsg → FilscanMsg
set_receipt ref m = elim (receipt_of m.msg_cid ref) [
  | none ↦ m
  | some r ↦ record m {
    exit_code = r.exit_code;
    gas_used = r.gas_used;
    return_value = r.return_value;
  }
]

-- The key set of `miner_messages.miners`: an address is added once.
pub add_miner : String → List String → List String
add_miner miner [] = miner ∷ []
add_miner miner (x ∷ miners) = if x == miner then x ∷ miners else x ∷ add_miner miner miners

pub miners_of : List FilscanMsg → List String → List String
miners_of [] miners = miners
miners_of (m ∷ ms) miners =
    miners_of ms (if m.actor_name == "StorageMinerActor" then add_miner m.to miners else miners)

-- What one round of the loop over the blocks makes of its block.
unfoldable pub build_block :
    ActorTables → String → List (String × Option Receipt) → BlockMessage → BlockAndMsg
build_block tables reward ref blmsg = record {
  block = record (fs_block blmsg) { block_reward = reward };
  msg = map (set_receipt ref) (fs_messages tables blmsg);
}

-- The loop over the blocks, which appends to four lists.
unfoldable pub build_loop :
    {T : Type 0}
    → ActorTables
    → String
    → List (String × Option Receipt)
    → List BlockMessage
    → TipsetBlockMessages T
    → TipsetBlockMessages T
build_loop tables reward ref [] self = self
build_loop tables reward ref (blmsg ∷ rest) self =
    let built = build_block tables reward ref blmsg in
    build_loop tables reward ref rest (record self {
      fs_blocks = self.fs_blocks ++ built.block ∷ [];
      fs_msgs = self.fs_msgs ++ built.msg;
      fs_miners = miners_of built.msg self.fs_miners;
      fs_block_message = self.fs_block_message ++ built ∷ [];
    })

-- The object after `build_models_data`, whose results are its fields.
unfoldable pub build_models_data :
    {T : Type 0} ⦃ops : TipsetOps T⦄
    → ActorTables
    → (ℕ → String)
    → TipsetBlockMessages T
    → Result (TipsetBlockMessages T)
build_models_data tables format self = if self.is_cached then ok self else (do
  ref ← receipts_ref self.messages self.receipts []
  tipset ← deref self.tipset
  let empty = record self { fs_blocks = []; fs_msgs = []; fs_miners = []; fs_block_message = [] }
  let built = build_loop tables (to_fil_str format self.block_rwds) ref self.block_msgs empty
  ok (record built { is_cached = true; fs_tipset = some (to_fs_tipset tipset) }))

-- The same object, or lotus's `Equals` of the two tipsets.
unfoldable pub equals :
    {T : Type 0} ⦃ops : TipsetOps T⦄ → TipsetBlockMessages T → TipsetBlockMessages T → Bool
equals ⦃ops⦄ self tps_blms =
    self.address == tps_blms.address || ops.equals self.tipset tps_blms.tipset
