-- ===== src/Pages.antt =====
-- controllers/tipsetqueue_DB.go: pages of blocks and messages from the tipset cache and then from the
-- database, and the queries of models/blocks.go and models/msg.go that it calls. MongoDB is a parameter.
-- A page is given by its first index and its size, which come from the request unchecked.
pub mod Cash
pub mod Combined
pub mod Whole
use filscan_backend.Prelude.{
  ℕ, ◌+◌, Bool, true, false, ◌&&◌, ◌||◌, String, Option, none, some, List, [], ◌∷◌, ◌++◌, map,
  length, ltb, leb, ◌==◌, nat_eq, string_eq, if◌then◌else◌, Result, ok, fail, ◌>>=◌, filter,
}
use filscan_backend.Prelude.Int.{ℤ, pos, negsuc, ◌+ℤ◌, ◌-ℤ◌, ltb_ℤ}
use filscan_backend.Chain.{TipsetOps, FilscanBlock, FilscanMsg, BlockAndMsg}
use filscan_backend.Queue.{slice}
use filscan_backend.TipsetCache.{FsTipsetCache}
use filscan_backend.TipsetCache.Queries.{
  mesage_all, find_mesage_block_method, find_block_miners, find_mesage_address, blocks,
  tipset_count_in_time, latest_blockrewards,
}
use filscan_backend.TipsetCache.Paging.{find_block_ofst_count, find_mesage_ofset_count}

-- Which stored messages are asked for: by their cids, those of the last week, or by address and side;
-- with a method if one is given.
pub data MsgFilter : Type 0 where
  in_cids : List String → MsgFilter
  last_week : MsgFilter
  of_address : String → String → MsgFilter

-- The collections of blocks and messages: skip and limit are passed on to the driver. `latest` sorts by
-- height or creation, `block_msg_cids` are the message cids of the blocks with a cid.
pub record Store (B M : Type 0) : Type 1 where
  pub find_msgs : MsgFilter → String → ℤ → ℤ → Result (List M)
  pub count_msgs : MsgFilter → String → Result ℕ
  pub find_blocks : List String → ℤ → ℤ → Result (List B)
  pub count_blocks : List String → Result ℕ
  pub block_msg_cids : String → Result (List (List String))
  pub latest_blocks : ℤ → Result (List B)
  pub latest_msgs : ℤ → Result (List M)
  pub blocks_by_time : ℕ → ℕ → Result (List B)
  pub tipsets_by_time : ℕ → ℕ → Result ℕ
  pub latest_reward : Result String

-- The page of what is cached, and what the first index is moved by if there is none; `others` is what
-- stands for the page then.
unfoldable pub cash_part {ℓ} : {A : Type ℓ} → List A → ℤ → ℤ → List A → Result (List A × ℕ)
cash_part others start count l =
    if ltb 0 (length l) && ltb_ℤ start (pos (length l))
    then (do
      part ←
          if ltb_ℤ (start +ℤ count) (pos (length l))
          then slice l start (start +ℤ count)
          else slice l start (pos (length l))
      ok (part, 0))
    else ok (others, length l)

-- `if x < 0 { -1 * x } else { x }`.
abbrev pub turned : ℤ → ℤ
turned x = if ltb_ℤ x (pos 0) then pos 0 -ℤ x else x

abbrev pub first_cids : List (List String) → List String
first_cids [] = []
first_cids (cids ∷ more) = cids

-- An error of `GetBlockListByMiner` is dropped: it comes with no blocks and 0.
abbrev pub or_nothing : {B : Type 0} → Result (List B × ℕ) → List B × ℕ
or_nothing (ok r) = r
or_nothing (fail e) = ([], 0)

module _ {B M : Type 0} (db : Store B M) where
  -- The page is read only if its size is positive; the number is counted in any case.
  abbrev pub found_msgs : MsgFilter → String → ℤ → ℤ → Result (List M × ℕ)
  found_msgs kind method_name begindex count = do
    res ← if ltb_ℤ (pos 0) count then db.find_msgs kind method_name begindex count else ok []
    total ← db.count_msgs kind method_name
    ok (res, total)

  unfoldable pub get_msg_by_block_method_name_limit : String → String → ℤ → ℤ → Result (List M × ℕ)
  get_msg_by_block_method_name_limit block method_name begindex count =
      if block == "" then found_msgs last_week method_name begindex count else (do
        cids ← db.block_msg_cids block
        found_msgs (in_cids (first_cids cids)) method_name begindex count)

  unfoldable pub get_msg_by_address_from_method_limit :
      String → String → String → ℤ → ℤ → Result (List M × ℕ)
  get_msg_by_address_from_method_limit address from_to method_name begindex count =
      if address == ""
      then ok ([], 0)
      else found_msgs (of_address address from_to) method_name begindex count

  unfoldable pub get_block_list_by_miner : List String → ℤ → ℤ → Result (List B × ℕ)
  get_block_list_by_miner miner_arr begindex count = do
    res ← if ltb_ℤ (pos 0) count then db.find_blocks miner_arr begindex count else ok []
    total ← db.count_blocks miner_arr
    ok (res, total)

  module _ {T : Type 0} (list : FsTipsetCache T) (block_result : FilscanBlock → B)
      (msg_result : FilscanMsg → M) where
    -- `GetBlockByIndex` and `GetMsgByIndex`.
    unfoldable pub get_block_by_index : ℤ → ℤ → Result (List B)
    get_block_by_index start count = do
      let head = find_block_ofst_count list start count
      let missing = count -ℤ start -ℤ pos (length head)
      v ← if ltb_ℤ (pos 0) missing then db.latest_blocks missing else ok []
      ok (map (λ b. block_result b.block) head ++ v)

    unfoldable pub get_msg_by_index : ℤ → ℤ → Result (List M)
    get_msg_by_index start end = do
      let head = find_mesage_ofset_count list start end
      let missing = end -ℤ start -ℤ pos (length head)
      v ← if ltb_ℤ (pos 0) missing then db.latest_msgs missing else ok []
      ok (map msg_result head ++ v)

    unfoldable pub get_msg_by_block_method_beginx_count :
        ℤ → ℤ → String → String → Result (List M × ℕ)
    get_msg_by_block_method_beginx_count count beginx block_cid method = do
      let queue_res =
          if block_cid == "" && method == ""
          then mesage_all list
          else find_mesage_block_method list block_cid method
      cash ← cash_part [] beginx count queue_res
      let b = turned (beginx -ℤ pos (length cash.0) -ℤ pos cash.1)
      found ← get_msg_by_block_method_name_limit block_cid method b (count -ℤ pos (length cash.0))
      ok (map msg_result cash.0 ++ found.0, length queue_res + found.1)

    -- The list of blocks is cut to the page where that starts inside, and else is the whole list still.
    unfoldable pub get_block_by_miner : List String → ℤ → ℤ → Result (List B × ℕ)
    get_block_by_miner miner_arr start count = do
      let block_list = find_block_miners list miner_arr
      cash ← cash_part block_list start count block_list
      let b = turned (start -ℤ pos (length cash.0) -ℤ pos cash.1)
      let found = or_nothing (get_block_list_by_miner miner_arr b (count -ℤ pos (length cash.0)))
      ok (map block_result cash.0 ++ found.0, length block_list + found.1)

    unfoldable pub get_msg_by_address_from_to_method :
        String → String → String → ℤ → ℤ → Result (List M × ℕ)
    get_msg_by_address_from_to_method address from_to method start count = do
      let queue_msg_list = find_mesage_address list address from_to method
      cash ← cash_part [] start count queue_msg_list
      let past = start -ℤ pos (length queue_msg_list) -ℤ pos cash.1
      let b =
          if ltb_ℤ (start -ℤ pos (length cash.0) -ℤ pos cash.1) (pos 0)
          then pos 0 -ℤ past
          else turned past
      found ←
          get_msg_by_address_from_method_limit address from_to method b
            (count -ℤ pos (length cash.0))
      ok (map msg_result cash.0 ++ found.0, length queue_msg_list + found.1)

    -- The cached blocks between the two times, without both, and then the stored ones.
    abbrev pub blocks_between : ℕ → ℕ → List BlockAndMsg → List B
    blocks_between start_time end_time [] = []
    blocks_between start_time end_time (b ∷ bs) =
        let rest = blocks_between start_time end_time bs in
        if ltb start_time b.block.block_header.timestamp
          && ltb b.block.block_header.timestamp end_time
        then block_result b.block ∷ rest
        else rest

    unfoldable pub get_block_num_by_time : ℕ → ℕ → Result (List B)
    get_block_num_by_time start_time end_time = do
      res_block ← db.blocks_by_time start_time end_time
      ok (blocks_between start_time end_time (blocks list) ++ res_block)

    unfoldable pub get_tipset_num_by_time : ⦃ops : TipsetOps T⦄ → ℕ → ℕ → Result ℕ
    get_tipset_num_by_time start_time end_time = do
      num ← tipset_count_in_time list start_time end_time
      res_tipset ← db.tipsets_by_time start_time end_time
      ok (num + res_tipset)

    -- `to_fil_str` prints the reward.
    unfoldable pub get_latest_block_reward : (ℕ → String) → Result String
    get_latest_block_reward to_fil_str =
        let fil = latest_blockrewards to_fil_str list in
        if fil == "" || fil == "0" then db.latest_reward else ok fil
