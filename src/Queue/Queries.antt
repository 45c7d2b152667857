-- ===== src/Queue/Queries.antt =====
-- The methods of controllers/tipset_queue.go that only read the queue.
pub mod Loops
pub mod Select
pub mod Heights
pub mod Refine
use Prim.Native.String.{count}
use filscan_backend.Prelude.{
  ℕ, zero, suc, ◌+◌, ◌-◌, ◌≡◌, Bool, true, false, ◌||◌, ◌&&◌, String, Option, none, some, List, [],
  ◌∷◌, ◌++◌, length, get_elem?, take, drop, ltb, leb, ◌==◌, nat_eq, string_eq, if◌then◌else◌,
}
use filscan_backend.Chain.{TipsetOps, BlockHeader, FilscanBlock, FilscanMsg, BlockAndMsg, Element}
use filscan_backend.Queue.{SliceEntry, size, outside, height_of}

abbrev pub msgs_of : List BlockAndMsg → List FilscanMsg
msgs_of [] = []
msgs_of (b ∷ bs) = b.msg ++ msgs_of bs

-- The loop of `SortBlockByMinerArr` over the miners.
pub by_miner : List String → String → Bool
by_miner [] m = false
by_miner (miner ∷ miner_arr) m = if m == miner then true else by_miner miner_arr m

pub miner_blocks : List String → List BlockAndMsg → List FilscanBlock
miner_blocks miner_arr [] = []
miner_blocks miner_arr (b ∷ bs) =
    let rest = miner_blocks miner_arr bs in
    if by_miner miner_arr b.block.block_header.miner then b.block ∷ rest else rest

-- The `switch` of `MsgByAddressFromToMethodName`, and its loop.
abbrev pub from_to : String → String → FilscanMsg → Bool
from_to address direction m =
    if direction == "from"
    then m.from == address
    else if direction == "to"
    then m.to == address
    else m.from == address || m.to == address

pub address_msgs : String → String → List FilscanMsg → List FilscanMsg
address_msgs address direction [] = []
address_msgs address direction (m ∷ ms) =
    let rest = address_msgs address direction ms in
    if from_to address direction m then m ∷ rest else rest

pub method_msgs : String → List FilscanMsg → List FilscanMsg
method_msgs method_name [] = []
method_msgs method_name (m ∷ ms) =
    let rest = method_msgs method_name ms in if m.method_name == method_name then m ∷ rest else rest

pub block_with : String → List BlockAndMsg → Option BlockAndMsg
block_with cid [] = none
block_with cid (b ∷ bs) = if b.block.cid == cid then some b else block_with cid bs

pub msg_with : String → List FilscanMsg → Option FilscanMsg
msg_with cid [] = none
msg_with cid (m ∷ ms) = if m.msg_cid == cid then some m else msg_with cid ms

abbrev pub or_else {ℓ} : {A : Type ℓ} → Option A → Option A → Option A
or_else none o = o
or_else (some a) o = some a

pub msg_by_cid_blocks : String → List BlockAndMsg → Option FilscanMsg
msg_by_cid_blocks cid [] = none
msg_by_cid_blocks cid (b ∷ bs) = or_else (msg_with cid b.msg) (msg_by_cid_blocks cid bs)

-- The loop of `MsgByBlockCid` over the blocks, which it leaves at the first block with the cid.
pub block_msgs : String → List BlockAndMsg → List FilscanMsg
block_msgs cid [] = []
block_msgs cid (b ∷ bs) = if b.block.cid == cid then b.msg else block_msgs cid bs

-- The messages of a block, with a method if one is given.
abbrev pub named_msgs : String → List FilscanMsg → List FilscanMsg
named_msgs method_name ms = if ltb 0 (count method_name) then method_msgs method_name ms else ms

-- The two loops of `MsgByBlockCidMethodName`, with the condition on the block.
pub chosen_msgs : (String → Bool) → String → List BlockAndMsg → List FilscanMsg
chosen_msgs chosen method_name [] = []
chosen_msgs chosen method_name (b ∷ bs) =
    let rest = chosen_msgs chosen method_name bs in
    if chosen b.block.cid then named_msgs method_name b.msg ++ rest else rest

module _ {T : Type 0} where
  pub sum_blocks : List (Element T) → ℕ
  sum_blocks [] = 0
  sum_blocks (x ∷ l) = length x.blocks + sum_blocks l

  unfoldable pub block_size : SliceEntry T → ℕ
  block_size entry = sum_blocks entry.element

  -- The elements from the last of the first `left` ones down: `entry.element[len-1-key]` for each `key`.
  pub descending : ℕ → List (Element T) → List (Element T)
  descending zero l = []
  descending (suc left) l = elim (get_elem? l left) [
    | none ↦ descending left l
    | some x ↦ x ∷ descending left l
  ]

  pub blocks_of : List (Element T) → List BlockAndMsg
  blocks_of [] = []
  blocks_of (x ∷ l) = x.blocks ++ blocks_of l

  unfoldable pub all_block : SliceEntry T → List BlockAndMsg
  all_block entry = blocks_of (descending (size entry) entry.element)

  unfoldable pub all_msg : SliceEntry T → List FilscanMsg
  all_msg entry = msgs_of (blocks_of (descending (size entry) entry.element))

  -- Called with numbers that are not negative.
  unfoldable pub block_by_index : SliceEntry T → ℕ → ℕ → List BlockAndMsg
  block_by_index entry start cout =
      let all = all_block entry in
      if ltb (length all) start
      then []
      else if leb (length all) (start + cout)
      then drop start all
      else take cout (drop start all)

  unfoldable pub msg_by_index : SliceEntry T → ℕ → ℕ → List FilscanMsg
  msg_by_index entry start end =
      let all = all_msg entry in
      if ltb (length all) start
      then []
      else if leb (length all) (start + end)
      then drop start all
      else take end (drop start all)

  unfoldable pub sort_block_by_miner_arr : SliceEntry T → List String → List FilscanBlock
  sort_block_by_miner_arr entry miner_arr =
      miner_blocks miner_arr (blocks_of (descending (size entry) entry.element))

  unfoldable pub msg_by_address_from_to_method_name :
      SliceEntry T → String → String → String → List FilscanMsg
  msg_by_address_from_to_method_name entry address direction method_name =
      let res =
        address_msgs address direction
          (msgs_of (blocks_of (descending (size entry) entry.element))) in
      if ltb 0 (count method_name) then method_msgs method_name res else res

  pub block_by_cid_loop : String → List (Element T) → Option BlockAndMsg
  block_by_cid_loop cid [] = none
  block_by_cid_loop cid (x ∷ l) = or_else (block_with cid x.blocks) (block_by_cid_loop cid l)

  unfoldable pub block_by_cid : SliceEntry T → String → Option BlockAndMsg
  block_by_cid entry cid = block_by_cid_loop cid entry.element

  pub msg_by_cid_loop : String → List (Element T) → Option FilscanMsg
  msg_by_cid_loop cid [] = none
  msg_by_cid_loop cid (x ∷ l) = or_else (msg_by_cid_blocks cid x.blocks) (msg_by_cid_loop cid l)

  unfoldable pub msg_by_cid : SliceEntry T → String → Option FilscanMsg
  msg_by_cid entry cid = msg_by_cid_loop cid entry.element

  -- The loop over the elements ends in `break`.
  pub msg_by_block_cid_loop : List String → List (Element T) → List FilscanMsg
  msg_by_block_cid_loop [] l = []
  msg_by_block_cid_loop (cid ∷ cids) [] = msg_by_block_cid_loop cids []
  msg_by_block_cid_loop (cid ∷ cids) (x ∷ l) =
      block_msgs cid x.blocks ++ msg_by_block_cid_loop cids (x ∷ l)

  unfoldable pub msg_by_block_cid : SliceEntry T → List String → List FilscanMsg
  msg_by_block_cid entry block_cids = msg_by_block_cid_loop block_cids entry.element

  pub chosen_elements : (String → Bool) → String → List (Element T) → List FilscanMsg
  chosen_elements chosen method_name [] = []
  chosen_elements chosen method_name (x ∷ l) =
      chosen_msgs chosen method_name x.blocks ++ chosen_elements chosen method_name l

  -- Cids and method names are ASCII, so that `count` is Go's `len`.
  unfoldable pub msg_by_block_cid_method_name : SliceEntry T → String → String → List FilscanMsg
  msg_by_block_cid_method_name entry block_cid method_name =
      if ltb 1 (count block_cid)
      then chosen_elements (λ cid. cid == block_cid) method_name entry.element
      else chosen_elements (λ cid. true) method_name entry.element

module _ {T : Type 0} ⦃ops : TipsetOps T⦄ where
  pub one_height_loop : ℕ → List (Element T) → Option (Element T)
  one_height_loop h [] = none
  one_height_loop h (x ∷ l) = if height_of x == h then some x else one_height_loop h l

  unfoldable pub tipset_by_one_height : SliceEntry T → ℕ → Option (Element T)
  tipset_by_one_height entry h =
      if outside h entry.element then none else one_height_loop h entry.element

  pub by_height_loop : ℕ → ℕ → List (Element T) → List (Element T)
  by_height_loop start_height end_height [] = []
  by_height_loop start_height end_height (x ∷ l) =
      let rest = by_height_loop start_height end_height l in
      if ltb end_height (height_of x)
      then []
      else if leb start_height (height_of x) && leb (height_of x) end_height
      then x ∷ rest
      else rest

  unfoldable pub tipset_by_height : SliceEntry T → ℕ → ℕ → List (Element T)
  tipset_by_height entry start_height end_height =
      by_height_loop start_height end_height entry.element
