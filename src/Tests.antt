-- ===== src/Tests.antt =====
-- A small chain, and the calls on it, on which the theorems are run.
mod Sort
mod CacheRuns
mod MinerRuns
mod PageRuns
mod QueueRuns
mod LockRuns
mod PathRuns
mod SyncRuns
mod KeyRuns
mod StoredRuns
mod FeedRuns
use filscan_backend.Prelude.{
  ℕ, ◌≡◌, Bool, true, false, ◌&&◌, String, Option, none, some, List, [], ◌∷◌, ◌==◌, string_eq,
  nat_eq, if◌then◌else◌, ==_iff, arith,
}
use filscan_backend.Chain.{TipsetOps, BlockHeader, FilscanBlock, FilscanMsg, BlockAndMsg, Element}
use filscan_backend.Actors.{ActorTables, parse_actor}
use filscan_backend.BlockMessage.{LotusMessage, Receipt, BlockMessage, TipsetBlockMessages}
use filscan_backend.Syncer.{LotusApi}
use filscan_backend.Syncer.Cached.{EqualsSameParents}

-- A tipset of one block, named after it.
pub record Tip : Type 0 where
  pub name : String
  pub parent : String
  pub level : ℕ

abbrev pub tip_equals : Option Tip → Option Tip → Bool
tip_equals none none = true
tip_equals none (some b) = false
tip_equals (some a) none = false
tip_equals (some a) (some b) = a.name == b.name && a.parent == b.parent

instance abbrev pub tip_ops : TipsetOps Tip
tip_ops = record {
  key = λ t. t.name;
  parents = λ t. t.parent;
  key_cids = λ t. t.name ∷ [];
  parents_cids = λ t. t.parent ∷ [];
  height = λ t. t.level;
  min_timestamp = λ t. t.level;
  equals = tip_equals;
}

pub tip_law : EqualsSameParents Tip
tip_law a b e = ground (arith, ==_iff a.parent b.parent)

abbrev pub tip_0 : Tip
tip_0 = record { name = "t0"; parent = ""; level = 0 }

abbrev pub tip_1 : Tip
tip_1 = record { name = "t1"; parent = "t0"; level = 1 }

abbrev pub tip_2 : Tip
tip_2 = record { name = "t2"; parent = "t1"; level = 3 }

abbrev pub tip_3 : Tip
tip_3 = record { name = "t3"; parent = "t2"; level = 4 }

-- Another child of `tip_1`.
abbrev pub fork_2 : Tip
fork_2 = record { name = "f2"; parent = "t1"; level = 2 }

abbrev pub header : BlockHeader
header = record { miner = "t01"; block_height = 1; timestamp = 1 }

abbrev pub msg : String → String → FilscanMsg
msg cid to = record {
  msg_cid = cid;
  block_cid = "t1";
  from = "t3a";
  to = to;
  actor_name = "StorageMinerActor";
  method_name = "Send";
  exit_code = "";
  return_value = "";
  gas_used = "";
}

abbrev pub block : String → List FilscanMsg → BlockAndMsg
block cid ms = record {
  block = record { cid = cid; block_header = header; block_reward = "" };
  msg = ms;
}

abbrev pub cached : ℕ → Option Tip → List BlockAndMsg → TipsetBlockMessages Tip
cached address tipset bs = record {
  address = address;
  tipset = tipset;
  block_rwds = some 5;
  messages = [];
  receipts = [];
  block_msgs = [];
  is_cached = true;
  fs_tipset = none;
  fs_blocks = [];
  fs_msgs = [];
  fs_miners = [];
  fs_block_message = bs;
}

abbrev pub element : Tip → List BlockAndMsg → Element Tip
element t bs = record { tipset = t; blocks = bs }

abbrev pub fields : List (String × ℕ)
fields = ("Send", 1) ∷ ("Submit", 2) ∷ ("Send2", 1) ∷ []

abbrev pub tables : ActorTables
tables = record {
  lookup_by_address = λ a. none;
  storage_miner = some (parse_actor "StorageMinerActor" fields);
}

abbrev pub format : ℕ → String
format n = "fil"

abbrev pub lotus_msg : LotusMessage
lotus_msg = record { cid = "m1"; from = "t3a"; to = "t01"; method = 1 }

abbrev pub receipt : Receipt
receipt = record { exit_code = "0"; gas_used = "9"; return_value = "" }

abbrev pub block_message : BlockMessage
block_message = record {
  cid = "t1";
  header = header;
  bls_messages = lotus_msg ∷ [];
  secpk_messages = [];
}

-- What lotus answers about the chain of `tip_0` to `tip_3`.
abbrev pub lotus : LotusApi Tip
lotus = record {
  chain_get_tipset = λ k.
      if k == "t2"
      then some tip_2
      else if k == "t1"
      then some tip_1
      else if k == "t0"
      then some tip_0
      else none;
  chain_head = some tip_3;
  blocks = λ t. (t.name, header) ∷ [];
  block_messages = λ cid. some (lotus_msg ∷ [], []);
  block_rewards = λ t. some 5;
  parent_messages = λ cid. some ("m1" ∷ []);
  parent_receipts = λ cid. some (some receipt ∷ []);
}
