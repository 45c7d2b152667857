-- ===== src/Queue/Queries/Refine.antt =====
-- The reading methods of controllers/tipset_queue.go as one interface: what they answer depends on
-- the blocks of the elements only, which are the abstract queue.
use Prim.Native.String.{count}
use filscan_backend.Prelude.{
  ℕ, ◌≡◌, refl, true, sym, ap, ◌∙◌, String, Option, List, [], ◌∷◌, ◌++◌, map, reverse, length, take,
  drop, filter, find?, flat_map, ltb, ◌==◌, string_eq, if◌then◌else◌,
}
use mathlib.Core.List.{reverse-cons, map-append}
use filscan_backend.Chain.{FilscanBlock, FilscanMsg, BlockAndMsg}
use filscan_backend.Queue.{SliceEntry}
use filscan_backend.Queue.Queries.{
  from_to, block_size, all_block, all_msg, block_by_index, msg_by_index, sort_block_by_miner_arr,
  msg_by_address_from_to_method_name, block_by_cid, msg_by_cid, msg_by_block_cid_method_name,
}
use filscan_backend.Queue.Queries.Loops.{named, mined_by, has_cid}
use filscan_backend.Queue.Queries.Select.{
  all_block-reverse, block_by_index-page, sort_block_by_miner_arr-filter, msg_by_address-filter,
  block_by_cid-find?, msg_by_block_cid_method_name-filter,
}

-- The blocks of each element, the lowest element first.
abbrev pub View : Type 0
View = List (List BlockAndMsg)

abbrev pub view : {T : Type 0} → SliceEntry T → View
view entry = map (λ x. x.blocks) entry.element

-- A call of a reading method with its arguments.
pub data Query : Type 0 where
  every_block every_message number_of_blocks : Query
  page_of_blocks page_of_messages : ℕ → ℕ → Query
  blocks_of_miners : List String → Query
  messages_of_address : String → String → String → Query
  block_of_cid message_of_cid : String → Query
  messages_of_block_cid : String → String → Query

pub data Answer : Type 0 where
  blocks : List BlockAndMsg → Answer
  headers : List FilscanBlock → Answer
  messages : List FilscanMsg → Answer
  number : ℕ → Answer
  one_block : Option BlockAndMsg → Answer
  one_message : Option FilscanMsg → Answer

-- What the queue answers.
unfoldable pub ask : {T : Type 0} → SliceEntry T → Query → Answer
ask entry every_block = blocks (all_block entry)
ask entry every_message = messages (all_msg entry)
ask entry number_of_blocks = number (block_size entry)
ask entry (page_of_blocks start cout) = blocks (block_by_index entry start cout)
ask entry (page_of_messages start cout) = messages (msg_by_index entry start cout)
ask entry (blocks_of_miners miners) = headers (sort_block_by_miner_arr entry miners)
ask entry (messages_of_address address direction method) =
    messages (msg_by_address_from_to_method_name entry address direction method)
ask entry (block_of_cid cid) = one_block (block_by_cid entry cid)
ask entry (message_of_cid cid) = one_message (msg_by_cid entry cid)
ask entry (messages_of_block_cid cid method) =
    messages (msg_by_block_cid_method_name entry cid method)

abbrev pub newest_first : View → List BlockAndMsg
newest_first v = flat_map (λ bs. bs) (reverse v)

abbrev pub oldest_first : View → List BlockAndMsg
oldest_first v = flat_map (λ bs. bs) v

abbrev pub messages_in : List BlockAndMsg → List FilscanMsg
messages_in bs = flat_map (λ b. b.msg) bs

-- What it promises: lists, pages, selections and searches of the blocks in the view.
unfoldable pub promised : View → Query → Answer
promised v every_block = blocks (newest_first v)
promised v every_message = messages (messages_in (newest_first v))
promised v number_of_blocks = number (length (newest_first v))
promised v (page_of_blocks start cout) = blocks (take cout (drop start (newest_first v)))
promised v (page_of_messages start cout) =
    messages (take cout (drop start (messages_in (newest_first v))))
promised v (blocks_of_miners miners) =
    headers (map (λ b. b.block) (filter (mined_by miners) (newest_first v)))
promised v (messages_of_address address direction method) =
    messages
      (filter (named method) (filter (from_to address direction) (messages_in (newest_first v))))
promised v (block_of_cid cid) = one_block (find? (has_cid cid) (oldest_first v))
promised v (message_of_cid cid) =
    one_message (find? (λ m. m.msg_cid == cid) (messages_in (oldest_first v)))
promised v (messages_of_block_cid cid method) = messages (
    filter (named method) (
      messages_in
        (filter (λ b. if ltb 1 (count cid) then b.block.cid == cid else true) (oldest_first v))))

flat_map-map {ℓ κ} :
    {A : Type ℓ} {B : Type κ} (f : A → List B) (l : List A)
    → flat_map f l ≡ flat_map (λ x. x) (map f l)
flat_map-map f [] = refl
flat_map-map f (x ∷ l) = ap (◌++◌ (f x)) (flat_map-map f l)

map-flip {ℓ κ} :
    {A : Type ℓ} {B : Type κ} (f : A → B) (l : List A) → map f (reverse l) ≡ reverse (map f l)
map-flip f [] = refl
map-flip f (x ∷ l) =
    ap (map f) (reverse-cons x l)
    ∙ map-append f (reverse l) (x ∷ [])
    ∙ ap (λ r. r ++ f x ∷ []) (map-flip f l)
    ∙ sym (reverse-cons (f x) (map f l))

module _ {T : Type 0} (entry : SliceEntry T) where
  oldest : flat_map (λ x. x.blocks) entry.element ≡ oldest_first (view entry)
  oldest = flat_map-map (λ x. x.blocks) entry.element

  newest : all_block entry ≡ newest_first (view entry)
  newest =
      (all_block-reverse entry).0
      ∙ flat_map-map (λ x. x.blocks) (reverse entry.element)
      ∙ ap (flat_map (λ bs. bs)) (map-flip (λ x. x.blocks) entry.element)

  newest_messages : all_msg entry ≡ messages_in (newest_first (view entry))
  newest_messages = (all_block-reverse entry).1 ∙ ap messages_in newest

  -- Each reading method of the queue answers as promised: `AllBlock`, `AllMsg`, `BlockSize`,
  -- `BlockByIndex`, `MsgByIndex` and `SortBlockByMinerArr` and `MsgByAddressFromToMethodName` list, count,
  -- page and choose from the blocks with the highest element's first; `BlockByCid`, `MsgByCid` and
  -- `MsgByBlockCidMethodName` search from the lowest element on.
  pub ask-promised : (q : Query) → ask entry q ≡ promised (view entry) q
  unfolding ask promised
  ask-promised every_block = ap blocks newest
  ask-promised every_message = ap messages newest_messages
  ask-promised number_of_blocks = ap number ((all_block-reverse entry).2 ∙ ap length newest)
  ask-promised (page_of_blocks start cout) =
      ap blocks
        ((block_by_index-page entry start cout).0 ∙ ap (λ bs. take cout (drop start bs)) newest)
  ask-promised (page_of_messages start cout) = ap messages (
      (block_by_index-page entry start cout).1
      ∙ ap (λ ms. take cout (drop start ms)) newest_messages)
  ask-promised (blocks_of_miners miners) = ap headers (
      sort_block_by_miner_arr-filter entry miners
      ∙ ap (λ bs. map (λ b. b.block) (filter (mined_by miners) bs)) newest)
  ask-promised (messages_of_address address direction method) = ap messages (
      msg_by_address-filter entry address direction method
      ∙ ap (λ ms. filter (named method) (filter (from_to address direction) ms)) newest_messages)
  ask-promised (block_of_cid cid) =
      ap one_block ((block_by_cid-find? entry cid).0 ∙ ap (find? (has_cid cid)) oldest)
  ask-promised (message_of_cid cid) = ap one_message (
      (block_by_cid-find? entry cid).1
      ∙ ap (λ bs. find? (λ m. m.msg_cid == cid) (messages_in bs)) oldest)
  ask-promised (messages_of_block_cid cid method) = ap messages (
      msg_by_block_cid_method_name-filter entry cid method
      ∙ ap
          (λ bs.
            filter (named method) (
              messages_in
                (filter (λ b. if ltb 1 (count cid) then b.block.cid == cid else true) bs)))
          oldest)
