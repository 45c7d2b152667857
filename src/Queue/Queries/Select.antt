-- ===== src/Queue/Queries/Select.antt =====
-- The reading methods of the queue against the list of all its blocks and messages.
use Prim.Native.String.{count}
use filscan_backend.Prelude.{
  ℕ, ◌≡◌, refl, sym, ap, ◌∙◌, Bool, true, false, String, List, [], ◌∷◌, map, reverse, length, take,
  drop, filter, filter-append, find?, flat_map, flat_map-append, ltb, ◌==◌, nat_eq, string_eq,
  if◌then◌else◌,
}
use filscan_backend.Chain.{BlockAndMsg, Element}
use filscan_backend.Queue.{SliceEntry, size}
use filscan_backend.Queue.Queries.{
  msgs_of, from_to, block_size, descending, blocks_of, all_block, all_msg, block_by_index,
  msg_by_index, sort_block_by_miner_arr, msg_by_address_from_to_method_name, block_by_cid_loop,
  block_by_cid, msg_by_cid_loop, msg_by_cid, msg_by_block_cid_loop, msg_by_block_cid,
  chosen_elements, msg_by_block_cid_method_name,
}
use filscan_backend.Queue.Queries.Loops.{
  address_msgs-filter, block_msgs-find?, block_with-find?, blocks_of-flat_map, chosen_msgs-filter,
  descending-reverse, front_blocks, has_cid, length-flat_map-reverse, messages_of, mined_by,
  miner_blocks-filter, msg_by_cid_blocks-find?, msgs_of-flat_map, named, named_msgs-filter,
  or_else-find?, page-lem, sum_blocks-length,
}

module _ {T : Type 0} (entry : SliceEntry T) where
  -- `AllBlock` has the blocks of every element, the highest element first, and `AllMsg` their messages;
  -- `BlockSize` counts the blocks.
  pub all_block-reverse :
      (all_block entry ≡ flat_map (λ x. x.blocks) (reverse entry.element))
      × (all_msg entry ≡ flat_map (λ b. b.msg) (all_block entry))
      × (block_size entry ≡ length (all_block entry))
  unfolding all_block all_msg size block_size
  all_block-reverse =
      let blocks =
        ap blocks_of (descending-reverse entry.element)
        ∙ blocks_of-flat_map (reverse entry.element) in
      (
        blocks,
        msgs_of-flat_map (blocks_of (descending (size entry) entry.element)),
        sum_blocks-length entry.element
            ∙ sym (length-flat_map-reverse (λ x. x.blocks) entry.element)
            ∙ ap length (sym blocks),
      )

  -- `BlockByIndex` and `MsgByIndex` are pages of `AllBlock` and `AllMsg`: the items behind the first
  -- `start` ones, `cout` at most.
  pub block_by_index-page :
      (start cout : ℕ)
      → (block_by_index entry start cout ≡ take cout (drop start (all_block entry)))
        × (msg_by_index entry start cout ≡ take cout (drop start (all_msg entry)))
  unfolding block_by_index msg_by_index
  block_by_index-page start cout =
      (page-lem start cout (all_block entry), page-lem start cout (all_msg entry))

  -- `SortBlockByMinerArr` gives the blocks of `AllBlock` whose miner is listed, in its order, each once.
  pub sort_block_by_miner_arr-filter :
      (miner_arr : List String)
      → sort_block_by_miner_arr entry miner_arr
        ≡ map (λ b. b.block) (filter (mined_by miner_arr) (all_block entry))
  unfolding sort_block_by_miner_arr all_block
  sort_block_by_miner_arr-filter miner_arr = miner_blocks-filter miner_arr _

  -- `MsgByAddressFromToMethodName` gives the messages of `AllMsg` that fit the address, on the given
  -- side or on either, and the method, if one is given, in its order.
  pub msg_by_address-filter :
      (address direction method_name : String)
      → msg_by_address_from_to_method_name entry address direction method_name
        ≡ filter (named method_name) (filter (from_to address direction) (all_msg entry))
  unfolding msg_by_address_from_to_method_name all_msg
  msg_by_address-filter address direction method_name =
      rw
        (address_msgs-filter address direction
          (msgs_of (blocks_of (descending (size entry) entry.element))))
        (named_msgs-filter method_name _)

  -- `BlockByCid` and `MsgByCid` find the first block and message with the cid, the lowest element first.
  pub block_by_cid-find? :
      (cid : String)
      → (block_by_cid entry cid ≡ find? (has_cid cid) (flat_map (λ x. x.blocks) entry.element))
        × (msg_by_cid entry cid
            ≡ find?
                (λ m. m.msg_cid == cid)
                (flat_map (λ b. b.msg) (flat_map (λ x. x.blocks) entry.element)))
  unfolding block_by_cid msg_by_cid block_by_cid_loop msg_by_cid_loop
  block_by_cid-find? cid = (blocks entry.element, msgs entry.element)
    where
      blocks :
          (l : List (Element T))
          → block_by_cid_loop cid l ≡ find? (has_cid cid) (flat_map (λ x. x.blocks) l)
      blocks [] = refl
      blocks (x ∷ l) =
          rw (block_with-find? cid x.blocks, blocks l)
            (or_else-find? _ x.blocks (flat_map (λ x. x.blocks) l))

      msgs :
          (l : List (Element T))
          → msg_by_cid_loop cid l
            ≡ find? (λ m. m.msg_cid == cid) (flat_map (λ b. b.msg) (flat_map (λ x. x.blocks) l))
      msgs [] = refl
      msgs (x ∷ l) =
          rw (msg_by_cid_blocks-find? cid x.blocks, msgs l)
            (or_else-find? _ (flat_map (λ b. b.msg) x.blocks)
                (flat_map (λ b. b.msg) (flat_map (λ x. x.blocks) l))
              ∙ ap (find? (λ m. m.msg_cid == cid))
                  (sym (flat_map-append (λ b. b.msg) x.blocks (flat_map (λ x. x.blocks) l))))

  -- `MsgByBlockCid` looks for each cid among the blocks of the first element only, and gives the messages
  -- of the first block that it finds there.
  pub msg_by_block_cid-front :
      (block_cids : List String)
      → msg_by_block_cid entry block_cids
        ≡ flat_map
            (λ cid. messages_of (find? (has_cid cid) (front_blocks entry.element)))
            block_cids
  unfolding msg_by_block_cid msg_by_block_cid_loop
  msg_by_block_cid-front block_cids = go block_cids entry.element
    where
      go :
          (cids : List String) (l : List (Element T))
          → msg_by_block_cid_loop cids l
            ≡ flat_map (λ cid. messages_of (find? (has_cid cid) (front_blocks l))) cids
      go [] l = refl
      go (cid ∷ cids) [] = go cids []
      go (cid ∷ cids) (x ∷ l) = rw (block_msgs-find? cid x.blocks, go cids (x ∷ l)) refl

  -- `MsgByBlockCidMethodName` gives the messages of the blocks with the cid, or of all blocks if the cid
  -- has less than two characters, that fit the method, if one is given, the lowest element first.
  pub msg_by_block_cid_method_name-filter :
      (block_cid method_name : String)
      → msg_by_block_cid_method_name entry block_cid method_name
        ≡ filter (named method_name) (
            flat_map
              (λ b. b.msg)
              (filter
                (λ b. if ltb 1 (count block_cid) then b.block.cid == block_cid else true)
                (flat_map (λ x. x.blocks) entry.element)))
  unfolding msg_by_block_cid_method_name chosen_elements
  msg_by_block_cid_method_name-filter block_cid method_name = by_length (ltb 1 (count block_cid))
    where
      elements :
          (chosen : String → Bool) (l : List (Element T))
          → chosen_elements chosen method_name l
            ≡ filter (named method_name) (
                flat_map
                  (λ b. b.msg)
                  (filter (λ b. chosen b.block.cid) (flat_map (λ x. x.blocks) l)))
      elements chosen [] = refl
      elements chosen (x ∷ l) =
          let kept = filter (λ (b : BlockAndMsg). chosen b.block.cid) in
          let rest = flat_map (λ x. x.blocks) l in
          rw
            (
              chosen_msgs-filter chosen method_name x.blocks,
              elements chosen l,
              filter-append (λ (b : BlockAndMsg). chosen b.block.cid) x.blocks rest,
              flat_map-append (λ (b : BlockAndMsg). b.msg) (kept x.blocks) (kept rest),
              filter-append (named method_name)
                  (flat_map (λ (b : BlockAndMsg). b.msg) (kept x.blocks))
                  (flat_map (λ (b : BlockAndMsg). b.msg) (kept rest)),
            )
            refl

      by_length :
          (long : Bool)
          → (if long
              then chosen_elements (λ cid. cid == block_cid) method_name entry.element
              else chosen_elements (λ cid. true) method_name entry.element)
            ≡ filter (named method_name) (
                flat_map
                  (λ b. b.msg)
                  (filter
                    (λ b. if long then b.block.cid == block_cid else true)
                    (flat_map (λ x. x.blocks) entry.element)))
      by_length true = elements (λ cid. cid == block_cid) entry.element
      by_length false = elements (λ cid. true) entry.element
