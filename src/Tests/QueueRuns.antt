-- ===== src/Tests/QueueRuns.antt =====
-- The theorems on the queue at work.
use filscan_backend.Prelude.{
  Bool, get_elem?, some, ◌↔◌, false, ℕ, ◌<◌, ◌≡◌, refl, true, false, ◌&&◌, not, List, [], ◌∷◌, ◌++◌,
  length, filter, find?, flat_map, ltb, ◌==◌, nat_eq, string_eq, ok, arith,
}
use mathlib.Core.List.{Perm}
use filscan_backend.Prelude.Int.{pos, negsuc}
use filscan_backend.Chain.{BlockAndMsg, Element}
use filscan_backend.Queue.{
  SliceEntry, size, height_of, have, have_loop, get_header_list, del_tipset_by_height, update_push,
}
use filscan_backend.Queue.Order.{IsAscending}
use filscan_backend.Queue.Remove.{del_tipset_by_height-filter}
use filscan_backend.Queue.Push.{update_push-fresh}
use filscan_backend.Queue.Known.{AllSame, update_push-IsAscending}
use filscan_backend.Queue.Header.{get_header_list-split, update_push-doubled}
use filscan_backend.Queue.Queries.{msg_by_block_cid, tipset_by_height, tipset_by_one_height}
use filscan_backend.Queue.Queries.Loops.{has_cid, messages_of, front_blocks}
use filscan_backend.Queue.Queries.Select.{msg_by_block_cid-front}
use filscan_backend.Queue.Queries.Refine.{messages_of_address, ask, promised, view, ask-promised}
use filscan_backend.Queue.Queries.Heights.{within, tipset_by_height-filter}
use filscan_backend.Tests.{Tip, tip_ops, tip_1, tip_2, tip_3, fork_2, block, msg, element}
use filscan_backend.Tests.Sort.{sort, sort-Perm, sort-SortsByHeight}

abbrev block_1 : BlockAndMsg
block_1 = block "t1" (msg "m1" "t01" ∷ [])

abbrev block_2 : BlockAndMsg
block_2 = block "t2" (msg "m2" "t01" ∷ msg "m3" "t02" ∷ [])

abbrev queue : SliceEntry Tip
queue = record {
  element = element tip_1 (block_1 ∷ []) ∷ element fork_2 [] ∷ element tip_3 (block_2 ∷ []) ∷ [];
}

queue-IsAscending : IsAscending queue.element
queue-IsAscending = ground arith

-- `tip_2` has a height of its own, and its parent is at height 1.
tip_2_new : have queue (element tip_2 []) ≡ negsuc 0
unfolding have have_loop
tip_2_new = refl

update_push-fresh_example :
    (sorted : List (Element Tip)) × Perm sorted (queue.element ++ element tip_2 [] ∷ [])
    × (update_push sort 3 queue (element tip_2 []) 1
        ≡ ok (
          true,
          record {
            element =
                filter
                  (λ x.
                    not (ltb 1 (height_of x) && ltb (height_of x) (height_of (element tip_2 []))))
                  sorted;
          },
        ))
    × IsAscending (
        filter
          (λ x. not (ltb 1 (height_of x) && ltb (height_of x) (height_of (element tip_2 []))))
          sorted)
update_push-fresh_example =
    update_push-fresh sort sort-SortsByHeight 3 queue (element tip_2 []) 1 queue-IsAscending
      tip_2_new (omega arith) (omega arith) (omega arith)

del_tipset_by_height_example :
    del_tipset_by_height queue 2
    ≡ ok (record { element = filter (λ x. not (height_of x == 2)) queue.element })
del_tipset_by_height_example = del_tipset_by_height-filter queue 2 queue-IsAscending

-- The second element is pushed again, with a block.
fork_2_known : have queue (element fork_2 (block_1 ∷ [])) ≡ pos 1
unfolding have have_loop
fork_2_known = refl

update_push-IsAscending_example :
    (old : Element Tip) × (r : Bool × SliceEntry Tip) × (get_elem? queue.element 1 ≡ some old)
    × (height_of old ≡ 2)
    × (update_push sort 3 queue (element fork_2 (block_1 ∷ [])) 1 ≡ ok r)
    × ((r.0 ≡ false) ↔ ((length old.blocks ≡ 1) × AllSame (block_1 ∷ []) old.blocks))
    × IsAscending r.1.element
    × (length r.1.element ≡ 3)
update_push-IsAscending_example =
    update_push-IsAscending sort 3 queue (element fork_2 (block_1 ∷ [])) 1 0 queue-IsAscending
      fork_2_known

tip_1_known : have queue (element tip_1 []) ≡ pos 0
unfolding have have_loop
tip_1_known = refl

update_push-doubled_example :
    (sorted : List (Element Tip)) × (update_push sort 3 queue (element tip_1 []) 0
      ≡ ok (true, record { element = sorted }))
    × Perm sorted (queue.element ++ element tip_1 [] ∷ [])
update_push-doubled_example =
    update_push-doubled sort 2 queue (element tip_1 []) 0 sort-Perm tip_1_known refl (omega arith)

queue-size : 1 < size queue
unfolding size
queue-size = omega arith

get_header_list-split_example :
    (header rest : List (Element Tip)) × (get_header_list queue (pos 1)
      ≡ ok (header, record { element = rest }))
    × (header ++ rest ≡ queue.element)
    × (length header ≡ 2)
get_header_list-split_example = get_header_list-split queue 1 queue-size

ask-promised_example :
    ask queue (messages_of_address "t01" "to" "Send")
    ≡ promised (view queue) (messages_of_address "t01" "to" "Send")
ask-promised_example = ask-promised queue (messages_of_address "t01" "to" "Send")

msg_by_block_cid-front_example :
    msg_by_block_cid queue ("t2" ∷ [])
    ≡ flat_map (λ cid. messages_of (find? (has_cid cid) (front_blocks queue.element))) ("t2" ∷ [])
msg_by_block_cid-front_example = msg_by_block_cid-front queue ("t2" ∷ [])

tipset_by_height-filter_example :
    ((start_height end_height : ℕ)
      → tipset_by_height queue start_height end_height
        ≡ filter (within start_height end_height) queue.element)
    × ((h : ℕ) → tipset_by_one_height queue h ≡ find? (λ x. height_of x == h) queue.element)
tipset_by_height-filter_example = tipset_by_height-filter queue queue-IsAscending
