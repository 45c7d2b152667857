-- ===== src/Queue.antt =====
-- controllers/tipset_queue.go: the queue of tipsets in ascending height. Each method runs under the lock;
-- a call is one step here. Pointers in the queue are not nil, and the slices that a call returned
-- earlier are not followed (`get_header_list` and `clear` share or overwrite their elements).
pub mod Queries
pub mod Order
pub mod Remove
pub mod Header
pub mod Known
pub mod Push
use filscan_backend.Prelude.{
  ℕ, zero, suc, ◌+◌, ◌-◌, ◌^◌, ◌%◌, ◌≡◌, Bool, true, false, Option, none, some, List, [], ◌∷◌, ◌++◌,
  length, get_elem?, take, drop, ltb, leb, ◌==◌, ◌||◌, ◌&&◌, nat_eq, string_eq, if◌then◌else◌,
  Result, ok, fail, out_of_range, out_of_fuel, ◌>>=◌,
}
use filscan_backend.Prelude.Int.{ℤ, pos, negsuc, sub_ℕ}
use filscan_backend.Chain.{TipsetOps, BlockAndMsg, Element}

-- `isLock` is only changed inside `block_size`, and set back.
pub record SliceEntry (T : Type 0) : Type 0 where
  pub element : List (Element T)

-- Go's `l[lo:hi]`; the uses of it here have no bound above the length. A bound above the upper one, or
-- a negative one, panics.
unfoldable pub slice {ℓ} : {A : Type ℓ} → List A → ℤ → ℤ → Result (List A)
slice l (pos lo) (pos hi) = if leb lo hi then ok (take (hi - lo) (drop lo l)) else fail out_of_range
slice l (pos lo) (negsuc hi) = fail out_of_range
slice l (negsuc lo) hi = fail out_of_range

-- `append(l[:key], l[key+1:]...)` of a slice `l` with `len` elements on the array `arr`: the elements
-- behind `key` move forward in the array.
unfoldable pub shift {ℓ} : {A : Type ℓ} → List A → ℕ → ℕ → List A
shift arr len key = take key arr ++ (drop (suc key) (take len arr) ++ drop (len - 1) arr)

-- Subtraction on uint64.
abbrev pub sub_uint64 : ℕ → ℕ → ℕ
sub_uint64 a b = (a + (2 ^ 64 - b % 2 ^ 64)) % 2 ^ 64

-- The two loops of `UpdatePush` over the blocks: each block is compared to each.
pub same_as_all : BlockAndMsg → List BlockAndMsg → Bool
same_as_all b [] = true
same_as_all b (old ∷ olds) = if b.block.cid == old.block.cid then same_as_all b olds else false

pub all_same : List BlockAndMsg → List BlockAndMsg → Bool
all_same [] olds = true
all_same (b ∷ bs) olds = if same_as_all b olds then all_same bs olds else false

module _ {T : Type 0} where
  abbrev pub new_queue : SliceEntry T
  new_queue = record { element = [] }

  unfoldable pub size : SliceEntry T → ℕ
  size entry = length entry.element

  unfoldable pub is_empty : SliceEntry T → Bool
  is_empty entry = length entry.element == 0

  unfoldable pub clear : SliceEntry T → Bool × SliceEntry T
  clear entry = if is_empty entry then (false, entry) else (true, record entry { element = [] })

  -- The first elements, and the queue without them. For `num` below -1 the upper bound is negative; for
  -- `num` equal to the size the lower bound of the rest is above its upper one.
  unfoldable pub get_header_list : SliceEntry T → ℤ → Result (List (Element T) × SliceEntry T)
  get_header_list entry (pos num) =
      if ltb (size entry) num
      then ok (entry.element, entry)
      else if ltb (size entry) (num + 1)
      then fail out_of_range
      else ok
          (take (num + 1) entry.element, record entry { element = drop (num + 1) entry.element })
  get_header_list entry (negsuc zero) = ok ([], entry)
  get_header_list entry (negsuc (suc k)) = fail out_of_range

  -- Called with `start` and `end` that are not negative.
  unfoldable pub tip_set_element : SliceEntry T → ℕ → ℕ → Result (List (Element T))
  tip_set_element entry start end =
      let len = size entry in
      if ltb len start
      then ok []
      else if leb len (start + end)
      then slice entry.element (pos start) (sub_ℕ len 1)
      else slice entry.element (pos (len - 1 - start - end)) (pos (len - 1 - start))

  -- `entry.element[index] = e`.
  pub set_at : List (Element T) → ℕ → Element T → List (Element T)
  set_at [] i e = []
  set_at (x ∷ l) zero e = e ∷ l
  set_at (x ∷ l) (suc i) e = x ∷ set_at l i e

module _ {T : Type 0} ⦃ops : TipsetOps T⦄ where
  abbrev pub height_of : Element T → ℕ
  height_of e = ops.height e.tipset

  -- The loop of `Have`, at index `key`.
  unfoldable pub have_loop : ℕ → ℕ → List (Element T) → ℤ
  have_loop h key [] = negsuc 0
  have_loop h key (x ∷ l) = if height_of x == h then pos key else have_loop h (suc key) l

  unfoldable pub have : SliceEntry T → Element T → ℤ
  have entry e = have_loop (height_of e) 0 entry.element

  pub last_below : ℕ → Element T → List (Element T) → Bool
  last_below h x [] = ltb (height_of x) h
  last_below h x (y ∷ l) = last_below h y l

  -- The height is outside of the queue's.
  pub outside : ℕ → List (Element T) → Bool
  outside h [] = true
  outside h (x ∷ l) = ltb h (height_of x) || last_below h x l

  -- The loop of `DelTipsetByHeight`, of `rounds` rounds from the index `key` on: it goes over the array
  -- that the loop removes from; the queue is its first `len` elements.
  pub del_loop : ℕ → ℕ → ℕ → List (Element T) → ℕ → Result (List (Element T))
  del_loop zero h key arr len = ok (take len arr)
  del_loop (suc rounds) h key arr len = elim (get_elem? arr key) [
    | none ↦ fail out_of_range
    | some value ↦
        if height_of value == h
        then (if ltb len (suc key)
            then fail out_of_range
            else del_loop rounds h (suc key) (shift arr len key) (len - 1))
        else del_loop rounds h (suc key) arr len
  ]

  unfoldable pub del_tipset_by_height : SliceEntry T → ℕ → Result (SliceEntry T)
  del_tipset_by_height entry h = if outside h entry.element then ok entry else (do
    l ← del_loop (length entry.element) h 0 entry.element (length entry.element)
    ok (record entry { element = l }))

  -- The last loop of `UpdatePush`, in round `i`; heights are uint64.
  pub del_between : ℕ → SliceEntry T → ℕ → ℕ → ℕ → Result (SliceEntry T)
  del_between zero entry height parent_height i = fail out_of_fuel
  del_between (suc fuel) entry height parent_height i =
      if ltb parent_height (sub_uint64 height i)
      then (do
        entry' ← del_tipset_by_height entry (sub_uint64 height i)
        del_between fuel entry' height parent_height (suc i))
      else ok entry

  -- `e` is found at `index`, which is not 0.
  unfoldable pub replace : SliceEntry T → ℕ → Element T → Bool × SliceEntry T
  replace entry index e = elim (get_elem? entry.element index) [
    | none ↦ (true, entry)
    | some old ↦
        if length old.blocks == length e.blocks && all_same e.blocks old.blocks
        then (false, entry)
        else (true, record entry { element = set_at entry.element index e })
  ]

  -- `sort_slice` is Go's `sort.Slice` by ascending height.
  module _ (sort_slice : List (Element T) → List (Element T)) where
    unfoldable pub update_push : ℕ → SliceEntry T → Element T → ℕ → Result (Bool × SliceEntry T)
    update_push fuel entry e parent_height = elim (have entry e) [
      | pos (suc index) ↦ ok (replace entry (suc index) e)
      | pos zero ↦ insert_element
      | negsuc n ↦ insert_element
    ]
      where
        insert_element : Result (Bool × SliceEntry T)
        insert_element = do
          entry' ←
              del_between fuel (record entry { element = sort_slice (entry.element ++ e ∷ []) })
                (height_of e) parent_height 1
          ok (true, entry')
