-- ===== src/TipsetCache/Queries.antt =====
-- The lookups of filscaner/fs_tipset_cache.go. They change nothing; slices are lists, a nil slice is
-- the empty list, and a nil pointer in a result is `none`.
pub mod Search
pub mod Heights
use filscan_backend.Prelude.{
  ℕ, suc, Bool, true, false, ◌&&◌, ◌||◌, not, String, Option, none, some, List, [], ◌∷◌, ◌++◌,
  reverse, ltb, leb, ◌==◌, string_eq, nat_eq, if◌then◌else◌, Result, ok, deref, ◌>>=◌,
}
use filscan_backend.Chain.{Element, TipsetOps, FilscanBlock, FilscanMsg, BlockAndMsg}
use filscan_backend.BlockMessage.{TipsetBlockMessages, to_fil_str}
use filscan_backend.TipsetCache.{FsTipsetCache}

-- The keys of a Go map made from a slice.
unfoldable pub contains : List String → String → Bool
contains [] k = false
contains (j ∷ keys) k = j == k || contains keys k

module _ {T : Type 0} ⦃ops : TipsetOps T⦄ where
  abbrev pub to_element : TipsetBlockMessages T → T → Element T
  to_element x t = record { tipset = t; blocks = x.fs_block_message }

  pub height_loop : ℕ → List (TipsetBlockMessages T) → Result (Option (Element T))
  height_loop height [] = ok none
  height_loop height (back ∷ l) = do
    t ← deref back.tipset
    if ops.height t == height then ok (some (to_element back t)) else height_loop height l

  unfoldable pub find_tipset_height : FsTipsetCache T → ℕ → Result (Option (Element T))
  find_tipset_height fsc height = height_loop height (reverse fsc.list)

  pub in_height_loop : ℕ → ℕ → List (TipsetBlockMessages T) → Result (List (Element T))
  in_height_loop start end [] = ok []
  in_height_loop start end (back ∷ l) = do
    t ← deref back.tipset
    elim (ltb end (ops.height t)) [
      | true ↦ ok []
      | false ↦ elim (ltb (ops.height t) start) [
        | true ↦ in_height_loop start end l
        | false ↦ do rest ← in_height_loop start end l; ok (to_element back t ∷ rest)
      ]
    ]

  unfoldable pub find_tipset_in_height : FsTipsetCache T → ℕ → ℕ → Result (List (Element T))
  find_tipset_in_height fsc start end = in_height_loop start end (reverse fsc.list)

  pub count_loop : ℕ → ℕ → List (TipsetBlockMessages T) → Result ℕ
  count_loop start end [] = ok 0
  count_loop start end (front ∷ l) = do
    t ← deref front.tipset
    rest ← count_loop start end l
    ok (if leb start (ops.min_timestamp t) && ltb (ops.min_timestamp t) end then suc rest else rest)

  unfoldable pub tipset_count_in_time : FsTipsetCache T → ℕ → ℕ → Result ℕ
  tipset_count_in_time fsc start end = count_loop start end fsc.list

unfoldable pub block_in : String → List BlockAndMsg → Option BlockAndMsg
block_in id [] = none
block_in id (b ∷ bs) = if b.block.cid == id then some b else block_in id bs

unfoldable pub with_method : String → List FilscanMsg → List FilscanMsg
with_method method [] = []
with_method method (m ∷ ms) =
    let rest = with_method method ms in if m.method_name == method then m ∷ rest else rest

pub message_in : String → List FilscanMsg → Option FilscanMsg
message_in cid [] = none
message_in cid (m ∷ ms) = if m.msg_cid == cid then some m else message_in cid ms

pub messages_of_blocks : List String → List BlockAndMsg → List FilscanMsg
messages_of_blocks ids [] = []
messages_of_blocks ids (b ∷ bs) =
    let rest = messages_of_blocks ids bs in if contains ids b.block.cid then b.msg ++ rest else rest

unfoldable pub of_miners : List String → List BlockAndMsg → List FilscanBlock
of_miners miners [] = []
of_miners miners (b ∷ bs) =
    let rest = of_miners miners bs in
    if contains miners b.block.block_header.miner then b.block ∷ rest else rest

-- The tests of the inner loop of `FindMesage_address`, each of which is a `break`.
unfoldable pub address_break : String → String → String → FilscanMsg → Bool
address_break address fromto method m =
    if fromto == "from" && not (m.from == address)
    then true
    else if fromto == "to" && not (m.to == address)
    then true
    else if not (m.from == address) && not (m.to == address)
    then true
    else if not (method == "") && not (m.method_name == method)
    then true
    else false

unfoldable pub address_inner : String → String → String → List FilscanMsg → List FilscanMsg
address_inner address fromto method [] = []
address_inner address fromto method (m ∷ ms) =
    let rest = m ∷ address_inner address fromto method ms in
    if address_break address fromto method m then [] else rest

module _ {T : Type 0} where
  unfoldable pub block_loop : String → List (TipsetBlockMessages T) → Option BlockAndMsg
  block_loop id [] = none
  block_loop id (front ∷ l) = elim (block_in id front.fs_block_message) [
    | some b ↦ some b
    | none ↦ block_loop id l
  ]

  unfoldable pub find_block_id : FsTipsetCache T → String → Option BlockAndMsg
  find_block_id fsc id = block_loop id fsc.list

  -- `FindMesage_block` has the same two loops, and returns the messages of the block.
  pub message_block_loop : String → List (TipsetBlockMessages T) → List FilscanMsg
  message_block_loop block_id [] = []
  message_block_loop block_id (front ∷ l) = elim (block_in block_id front.fs_block_message) [
    | some b ↦ b.msg
    | none ↦ message_block_loop block_id l
  ]

  unfoldable pub find_mesage_block : FsTipsetCache T → String → List FilscanMsg
  find_mesage_block fsc block_id = message_block_loop block_id fsc.list

  pub method_loop : String → List (TipsetBlockMessages T) → List FilscanMsg
  method_loop method [] = []
  method_loop method (front ∷ l) = with_method method front.fs_msgs ++ method_loop method l

  unfoldable pub find_mesage_method : FsTipsetCache T → String → List FilscanMsg
  find_mesage_method fsc method = if method == "" then [] else method_loop method fsc.list

  pub message_loop : String → List (TipsetBlockMessages T) → Option FilscanMsg
  message_loop cid [] = none
  message_loop cid (front ∷ l) = elim (message_in cid front.fs_msgs) [
    | some m ↦ some m
    | none ↦ message_loop cid l
  ]

  unfoldable pub find_mesage_id : FsTipsetCache T → String → Option FilscanMsg
  find_mesage_id fsc cid = message_loop cid fsc.list

  pub blocks_loop : List String → List (TipsetBlockMessages T) → List FilscanMsg
  blocks_loop ids [] = []
  blocks_loop ids (front ∷ l) = messages_of_blocks ids front.fs_block_message ++ blocks_loop ids l

  unfoldable pub find_mesage_blocks : FsTipsetCache T → List String → List FilscanMsg
  find_mesage_blocks fsc ids = blocks_loop ids fsc.list

  unfoldable pub all_loop : List (TipsetBlockMessages T) → List FilscanMsg
  all_loop [] = []
  all_loop (front ∷ l) = front.fs_msgs ++ all_loop l

  unfoldable pub mesage_all : FsTipsetCache T → List FilscanMsg
  mesage_all fsc = all_loop fsc.list

  unfoldable pub find_mesage_block_method : FsTipsetCache T → String → String → List FilscanMsg
  find_mesage_block_method fsc block_cid method =
      if not (block_cid == "")
      then elim (find_block_id fsc block_cid) [
        | none ↦ []
        | some b ↦ if method == "" then b.msg else with_method method b.msg
      ]
      else if not (method == "")
      then find_mesage_method fsc method
      else mesage_all fsc

  unfoldable pub miners_loop : List String → List (TipsetBlockMessages T) → List FilscanBlock
  miners_loop miners [] = []
  miners_loop miners (front ∷ l) = of_miners miners front.fs_block_message ++ miners_loop miners l

  unfoldable pub find_block_miners : FsTipsetCache T → List String → List FilscanBlock
  find_block_miners fsc miners = miners_loop miners fsc.list

  unfoldable pub address_loop :
      String → String → String → List (TipsetBlockMessages T) → List FilscanMsg
  address_loop address fromto method [] = []
  address_loop address fromto method (front ∷ l) =
      address_inner address fromto method front.fs_msgs ++ address_loop address fromto method l

  unfoldable pub find_mesage_address : FsTipsetCache T → String → String → String → List FilscanMsg
  find_mesage_address fsc address fromto method = address_loop address fromto method fsc.list

  unfoldable pub block_messages_loop : List (TipsetBlockMessages T) → List BlockAndMsg
  block_messages_loop [] = []
  block_messages_loop (front ∷ l) = front.fs_block_message ++ block_messages_loop l

  unfoldable pub blocks : FsTipsetCache T → List BlockAndMsg
  blocks fsc = block_messages_loop fsc.list

  unfoldable pub latest_blockrewards : (ℕ → String) → FsTipsetCache T → String
  unfolding to_fil_str
  latest_blockrewards format fsc = elim fsc.list [
    | [] ↦ ""
    | front ∷ _ ↦ to_fil_str format front.block_rwds
  ]
