-- ===== src/Queue/Header.antt =====
-- `GetHeaderList`, and `UpdatePush` of a height that is in the queue.
use filscan_backend.Prelude.{
  ℕ, suc, ◌+◌, ◌^◌, ◌<◌, ◌≡◌, refl, ap, true, false, ◌&&◌, List, [], ◌∷◌, ◌++◌, length, take, drop,
  take-append-drop, length-take, ltb, if◌then◌else◌, if_false, arith, ok, ◌>>=◌, get_elem?, some,
  ◌==◌, nat_eq,
}
use mathlib.Core.List.{Perm}
use filscan_backend.Prelude.Int.{pos}
use filscan_backend.Chain.{TipsetOps, Element}
use filscan_backend.Queue.{
  SliceEntry, size, sub_uint64, get_header_list, height_of, have, del_between, all_same, replace,
  set_at, update_push,
}

module _ {T : Type 0} where
  -- `GetHeaderList(num)`, below the size: it takes the first `num + 1` elements, one more than its comment
  -- says, and leaves the rest, in order.
  pub get_header_list-split :
      (entry : SliceEntry T) (num : ℕ)
      → num < size entry
      → (header rest : List (Element T)) × (get_header_list entry (pos num)
          ≡ ok (header, record { element = rest }))
        × (header ++ rest ≡ entry.element)
        × (length header ≡ num + 1)
  unfolding get_header_list size
  get_header_list-split entry num h = (
    take (num + 1) entry.element,
    drop (num + 1) entry.element,
    ground arith,
    take-append-drop (num + 1) entry.element,
    omega (arith, h, length-take (num + 1) entry.element),
  )

module _ {T : Type 0} ⦃ops : TipsetOps T⦄ where
  pub replace-lem :
      (entry : SliceEntry T) (index : ℕ) (e old : Element T)
      → get_elem? entry.element index ≡ some old
      → replace entry index e ≡ (
          if length old.blocks == length e.blocks && all_same e.blocks old.blocks
          then (false, entry)
          else (true, record { element = set_at entry.element index e }))
  unfolding replace
  replace-lem entry index e old found = rw (found, replace) refl

module _ {T : Type 0} ⦃ops : TipsetOps T⦄ (sort_slice : List (Element T) → List (Element T)) where
  -- `UpdatePush` of a height that the queue has behind its first index: the old element is replaced, and
  -- the result is true, unless it has as many blocks and all pairs of blocks have the same cid.
  pub update_push-known :
      (fuel : ℕ) (entry : SliceEntry T) (e old : Element T) (parent_height index : ℕ)
      → have entry e ≡ pos (suc index)
      → get_elem? entry.element (suc index) ≡ some old
      → update_push sort_slice fuel entry e parent_height
        ≡ ok (
            if length old.blocks == length e.blocks && all_same e.blocks old.blocks
            then (false, entry)
            else (true, record { element = set_at entry.element (suc index) e }))
  unfolding update_push
  update_push-known fuel entry e old parent_height index at found =
      rw (at, update_push) (ap ok (replace-lem entry (suc index) e old found))

  update_push-front :
      (fuel : ℕ) (entry : SliceEntry T) (e : Element T) (parent_height : ℕ)
      → have entry e ≡ pos 0
      → height_of e ≡ parent_height + 1
      → height_of e < 2 ^ 64
      → update_push sort_slice (suc fuel) entry e parent_height
        ≡ ok (true, record { element = sort_slice (entry.element ++ e ∷ []) })
  unfolding update_push del_between
  update_push-front fuel entry e parent_height at h w =
      let stop : ltb parent_height (sub_uint64 (height_of e) 1) ≡ false = ground arith in
      rw (at, update_push) (ap (λ r. r >>= λ q. ok (true, q)) (if_false _ _ _ stop))

  -- `UpdatePush` of the height of the first element, with a parent directly below it, where sorting only
  -- permutes: the queue has all its old elements afterwards, the first one too, and the new one beside
  -- them, and the result is true.
  pub update_push-doubled :
      (fuel : ℕ) (entry : SliceEntry T) (e : Element T) (parent_height : ℕ)
      → ((l : List (Element T)) → Perm (sort_slice l) l)
      → have entry e ≡ pos 0
      → height_of e ≡ parent_height + 1
      → height_of e < 2 ^ 64
      → (sorted : List (Element T)) × (update_push sort_slice (suc fuel) entry e parent_height
          ≡ ok (true, record { element = sorted }))
        × Perm sorted (entry.element ++ e ∷ [])
  update_push-doubled fuel entry e parent_height perm at h w = (
    sort_slice (entry.element ++ e ∷ []),
    update_push-front fuel entry e parent_height at h w,
    perm (entry.element ++ e ∷ []),
  )
