-- ===== src/Chain.antt =====
-- The data that the components share: lotus's tipsets seen through the methods that the source
-- calls, and the blocks and messages of models/blocks.go and models/msg.go.
use filscan_backend.Prelude.{ℕ, String, Bool, Option, List}

-- The methods of lotus's `*types.TipSet`. `key` and `parents` are the texts `Key().String()` and
-- `Parents().String()`; `equals` takes nil pointers.
pub record TipsetOps (T : Type 0) : Type 0 where
  pub key : T → String
  pub parents : T → String
  pub key_cids : T → List String
  pub parents_cids : T → List String
  pub height : T → ℕ
  pub min_timestamp : T → ℕ
  pub equals : Option T → Option T → Bool

-- The fields of lotus's `types.BlockHeader` that are read; `miner` is its text.
pub record BlockHeader : Type 0 where
  pub miner : String
  pub block_height : ℕ
  pub timestamp : ℕ

pub record FilscanBlock : Type 0 where
  pub cid : String
  pub block_header : BlockHeader
  pub block_reward : String

-- `from` and `to` are the texts of the addresses in the field `Message`.
pub record FilscanMsg : Type 0 where
  pub msg_cid : String
  pub block_cid : String
  pub from : String
  pub to : String
  pub actor_name : String
  pub method_name : String
  pub exit_code : String
  pub return_value : String
  pub gas_used : String

pub record BlockAndMsg : Type 0 where
  pub block : FilscanBlock
  pub msg : List FilscanMsg

pub record Element (T : Type 0) : Type 0 where
  pub tipset : T
  pub blocks : List BlockAndMsg
