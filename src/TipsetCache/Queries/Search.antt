-- ===== src/TipsetCache/Queries/Search.antt =====
-- The lookups by identifier, method and address against the lists of all cached blocks and messages.
use filscan_backend.Prelude.{
  ◌≡◌, refl, Bool, true, false, ◌&&◌, ◌||◌, not, String, Option, none, some, List, [], ◌∷◌, ◌==◌,
  string_eq, if◌then◌else◌, find?, find?-append, filter, filter-append, take_while, flat_map, arith,
  Bool-cases, inl, inr, ==_iff,
}
use filscan_backend.Chain.{FilscanMsg, BlockAndMsg}
use filscan_backend.BlockMessage.{TipsetBlockMessages}
use filscan_backend.TipsetCache.{FsTipsetCache}
use filscan_backend.TipsetCache.Queries.{
  block_in, block_loop, find_block_id, message_block_loop, find_mesage_block, with_method,
  method_loop, find_mesage_method, message_in, message_loop, find_mesage_id, all_loop, mesage_all,
  find_mesage_block_method, address_break, address_inner, address_loop, find_mesage_address,
  block_messages_loop, blocks,
}

-- The tests by which the lookups choose.
abbrev pub has_cid : String → BlockAndMsg → Bool
has_cid id b = b.block.cid == id

abbrev pub has_method : String → FilscanMsg → Bool
has_method method m = method == "" || m.method_name == method

abbrev pub messages_of : Option BlockAndMsg → List FilscanMsg
messages_of none = []
messages_of (some b) = b.msg

-- The address is the sender, the receiver, or either; and the method fits.
abbrev pub concerns : String → String → String → FilscanMsg → Bool
concerns address fromto method m =
    (if fromto == "from"
      then m.from == address
      else if fromto == "to"
      then m.to == address
      else m.from == address || m.to == address)
    && has_method method m

block_in-find? : (id : String) (bs : List BlockAndMsg) → block_in id bs ≡ find? (has_cid id) bs
unfolding block_in
block_in-find? id [] = refl
block_in-find? id (b ∷ bs) = ground (arith, block_in-find? id bs)

message_in-find? :
    (cid : String) (ms : List FilscanMsg) → message_in cid ms ≡ find? (λ m. m.msg_cid == cid) ms
unfolding message_in
message_in-find? cid [] = refl
message_in-find? cid (m ∷ ms) = ground (arith, message_in-find? cid ms)

with_method-filter :
    (method : String) (ms : List FilscanMsg)
    → with_method method ms ≡ filter (λ m. m.method_name == method) ms
unfolding with_method
with_method-filter method [] = refl
with_method-filter method (m ∷ ms) = ground (arith, with_method-filter method ms)

from_not_to : (s : String) → (s == "from") ≡ true → (s == "to") ≡ false
from_not_to s h = rw ((==_iff s "from").0 h)

address_break-concerns :
    (address fromto method : String) (m : FilscanMsg)
    → address_break address fromto method m ≡ not (concerns address fromto method m)
unfolding address_break
address_break-concerns address fromto method m =
    table (fromto == "from") (fromto == "to") (m.from == address) (m.to == address) (method == "")
      (m.method_name == method) (from_not_to fromto)
  where
    table :
        (is_from is_to by_from by_to any fits : Bool)
        → (is_from ≡ true → is_to ≡ false)
        → (if is_from && not by_from
            then true
            else if is_to && not by_to
            then true
            else if not by_from && not by_to
            then true
            else if not any && not fits
            then true
            else false)
          ≡ not (
              (if is_from then by_from else if is_to then by_to else by_from || by_to)
              && (any || fits))
    table true true by_from by_to any fits h = cc (h refl)
    table true false true by_to true fits h = refl
    table true false true by_to false true h = ground arith
    table true false true by_to false false h = ground arith
    table true false false by_to any fits h = refl
    table false is_to by_from by_to any fits h = ground arith

address_inner-take_while :
    (address fromto method : String) (ms : List FilscanMsg)
    → address_inner address fromto method ms ≡ take_while (concerns address fromto method) ms
unfolding address_inner
address_inner-take_while address fromto method [] = refl
address_inner-take_while address fromto method (m ∷ ms) =
    rw
      (
        address_break-concerns address fromto method m,
        address_inner-take_while address fromto method ms,
      )
      (flip (concerns address fromto method m))
  where
    flip :
        (b : Bool)
        → (if not b then [] else m ∷ take_while (concerns address fromto method) ms)
          ≡ (if b then m ∷ take_while (concerns address fromto method) ms else [])
    flip true = refl
    flip false = refl

filter_no_method :
    (method : String) (ms : List FilscanMsg)
    → (method == "") ≡ true
    → filter (has_method method) ms ≡ ms
filter_no_method method [] h = refl
filter_no_method method (m ∷ ms) h = ground (arith, filter_no_method method ms h)

filter_method :
    (method : String) (ms : List FilscanMsg)
    → (method == "") ≡ false
    → filter (has_method method) ms ≡ filter (λ m. m.method_name == method) ms
filter_method method [] h = refl
filter_method method (m ∷ ms) h = ground (arith, filter_method method ms h)

module _ {T : Type 0} where
  block_loop-find? :
      (id : String) (l : List (TipsetBlockMessages T))
      → block_loop id l ≡ find? (has_cid id) (block_messages_loop l)
  unfolding block_loop block_messages_loop
  block_loop-find? id [] = refl
  block_loop-find? id (x ∷ l) = ground (
    arith,
    block_loop-find? id l,
    block_in-find? id x.fs_block_message,
    find?-append (has_cid id) x.fs_block_message (block_messages_loop l),
  )

  -- `FindBlock_id` returns the first block of `Blocks` with the identifier, and nil exactly if none
  -- has it.
  find_block_id-find? :
      (fsc : FsTipsetCache T) (id : String) → find_block_id fsc id ≡ find? (has_cid id) (blocks fsc)
  unfolding find_block_id blocks
  find_block_id-find? fsc id = block_loop-find? id fsc.list

  message_loop-find? :
      (cid : String) (l : List (TipsetBlockMessages T))
      → message_loop cid l ≡ find? (λ m. m.msg_cid == cid) (all_loop l)
  unfolding message_loop all_loop
  message_loop-find? cid [] = refl
  message_loop-find? cid (x ∷ l) = ground (
    arith,
    message_loop-find? cid l,
    message_in-find? cid x.fs_msgs,
    find?-append (λ (m : FilscanMsg). m.msg_cid == cid) x.fs_msgs (all_loop l),
  )

  message_block_loop-block_loop :
      (id : String) (l : List (TipsetBlockMessages T))
      → message_block_loop id l ≡ messages_of (block_loop id l)
  unfolding message_block_loop block_loop
  message_block_loop-block_loop id [] = refl
  message_block_loop-block_loop id (x ∷ l) = ground (arith, message_block_loop-block_loop id l)

  -- `FindMesage_id` returns the first message of `MesageAll` with the identifier, and
  -- `FindMesage_block` the messages of the block that `FindBlock_id` returns.
  find_mesage_id-find? :
      (fsc : FsTipsetCache T) (id : String)
      → (find_mesage_id fsc id ≡ find? (λ m. m.msg_cid == id) (mesage_all fsc))
        × (find_mesage_block fsc id ≡ messages_of (find_block_id fsc id))
  unfolding find_mesage_id mesage_all find_mesage_block find_block_id
  find_mesage_id-find? fsc id =
      (message_loop-find? id fsc.list, message_block_loop-block_loop id fsc.list)

  method_loop-filter :
      (method : String) (l : List (TipsetBlockMessages T))
      → method_loop method l ≡ filter (λ m. m.method_name == method) (all_loop l)
  unfolding method_loop all_loop
  method_loop-filter method [] = refl
  method_loop-filter method (x ∷ l) = ground (
    arith,
    method_loop-filter method l,
    with_method-filter method x.fs_msgs,
    filter-append (λ (m : FilscanMsg). m.method_name == method) x.fs_msgs (all_loop l),
  )

  -- Where `FindMesage_block_method` looks: in one block, or in all of the cache.
  abbrev pub searched : FsTipsetCache T → String → List FilscanMsg
  searched fsc block_cid =
      if block_cid == "" then mesage_all fsc else messages_of (find_block_id fsc block_cid)

  -- `FindMesage_block_method` selects by method among the messages of the block with the given
  -- identifier (none, if there is no such block), or among all messages if the identifier is empty; an
  -- empty method selects every message.
  find_mesage_block_method-filter :
      (fsc : FsTipsetCache T) (block_cid method : String)
      → find_mesage_block_method fsc block_cid method
        ≡ filter (has_method method) (searched fsc block_cid)
  unfolding find_mesage_block_method find_mesage_method mesage_all
  find_mesage_block_method-filter fsc block_cid method =
      let found = messages_of (find_block_id fsc block_cid) in
      elim (Bool-cases (method == "")) [
        | inl any ↦ ground (
          arith,
          filter_no_method method found any,
          filter_no_method method (all_loop fsc.list) any,
        )
        | inr one ↦ ground (
          arith,
          filter_method method found one,
          filter_method method (all_loop fsc.list) one,
          with_method-filter method found,
          method_loop-filter method fsc.list,
        )
      ]

  -- `FindBlock_id` and `FindMesage_id` return the first of `Blocks` and of `MesageAll` with the
  -- identifier, and nil exactly if none has it. `FindMesage_block_method` selects by method among the
  -- messages of the block with the given identifier (none, if there is no such block), or among all
  -- messages if the identifier is empty; an empty method selects every message.
  pub lookups-find? :
      (fsc : FsTipsetCache T) (id method : String)
      → (find_block_id fsc id ≡ find? (has_cid id) (blocks fsc))
        × (find_mesage_id fsc id ≡ find? (λ m. m.msg_cid == id) (mesage_all fsc))
        × (find_mesage_block_method fsc id method ≡ filter (has_method method) (searched fsc id))
  lookups-find? fsc id method = (
    find_block_id-find? fsc id,
    (find_mesage_id-find? fsc id).0,
    find_mesage_block_method-filter fsc id method,
  )

  -- What `FindMesage_address` finds of each tipset: the messages that concern the address, up to the
  -- first that does not. Those behind it are lost.
  abbrev pub prefixes : (FilscanMsg → Bool) → List (TipsetBlockMessages T) → List FilscanMsg
  prefixes p = flat_map (λ x. take_while p x.fs_msgs)

  address_loop-prefixes :
      (address fromto method : String) (l : List (TipsetBlockMessages T))
      → address_loop address fromto method l ≡ prefixes (concerns address fromto method) l
  unfolding address_loop
  address_loop-prefixes address fromto method [] = refl
  address_loop-prefixes address fromto method (x ∷ l) = ground (
    arith,
    address_inner-take_while address fromto method x.fs_msgs,
    address_loop-prefixes address fromto method l,
  )

  -- `FindMesage_address` returns, of each cached tipset, the messages with the address (as sender,
  -- receiver or either) and the method only up to the first message that fails one of these tests.
  pub find_mesage_address-prefixes :
      (fsc : FsTipsetCache T) (address fromto method : String)
      → find_mesage_address fsc address fromto method
        ≡ prefixes (concerns address fromto method) fsc.list
  unfolding find_mesage_address
  find_mesage_address-prefixes fsc address fromto method =
      address_loop-prefixes address fromto method fsc.list
