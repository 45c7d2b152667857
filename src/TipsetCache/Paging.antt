-- ===== src/TipsetCache/Paging.antt =====
-- `FindBlock_ofst_count` and `FindMesage_ofset_count` of filscaner/fs_tipset_cache.go: a page of the
-- cached blocks or messages.
use filscan_backend.Prelude.{
  ℕ, zero, suc, ◌+◌, ◌-◌, ◌≤◌, ◌≡◌, refl, ap, ◌∙◌, Bool, true, false, List, [], ◌∷◌, ◌++◌, length,
  take, drop, flat_map, if◌then◌else◌, arith, min,
}
use filscan_backend.Prelude.Int.{ℤ, pos, negsuc, pos_part, ◌+ℤ◌, ◌-ℤ◌, ltb_ℤ, leb_ℤ}
use filscan_backend.Chain.{FilscanMsg, BlockAndMsg}
use filscan_backend.BlockMessage.{TipsetBlockMessages}
use filscan_backend.TipsetCache.{FsTipsetCache, size}
use filscan_backend.TipsetCache.Queries.{blocks, mesage_all, block_messages_loop, all_loop}

module _ {ℓ} {A : Type ℓ} where
  -- The inner loop: what it appends, the counter behind it, and whether it left both loops.
  pub page_inner : ℤ → ℤ → ℕ → List A → List A × ℕ × Bool
  page_inner ofst count i [] = ([], i, false)
  page_inner ofst count i (b ∷ bs) = elim (ltb_ℤ (pos i) ofst) [
    | true ↦ page_inner ofst count (suc i) bs
    | false ↦ elim (leb_ℤ count (pos i -ℤ ofst)) [
      | true ↦ (b ∷ [], i, true)
      | false ↦ let (rest, j, exit) = page_inner ofst count (suc i) bs in (b ∷ rest, j, exit)
    ]
  ]

  -- The outer loop, over what each tipset holds.
  pub page_outer : ℤ → ℤ → ℕ → List (List A) → List A
  page_outer ofst count i [] = []
  page_outer ofst count i (bs ∷ bss) =
      let (part, j, exit) = page_inner ofst count i bs in
      let more = part ++ page_outer ofst count j bss in if exit then part else more

abbrev pub clamp : ℤ → ℤ → ℕ → ℤ
clamp ofst count list_size =
    if ltb_ℤ (pos list_size) (ofst +ℤ count) then pos list_size -ℤ ofst else count

module _ {T : Type 0} where
  abbrev pub block_lists : List (TipsetBlockMessages T) → List (List BlockAndMsg)
  block_lists [] = []
  block_lists (x ∷ l) = x.fs_block_message ∷ block_lists l

  abbrev pub message_lists : List (TipsetBlockMessages T) → List (List FilscanMsg)
  message_lists [] = []
  message_lists (x ∷ l) = x.fs_msgs ∷ message_lists l

  unfoldable pub find_block_ofst_count : FsTipsetCache T → ℤ → ℤ → List BlockAndMsg
  find_block_ofst_count fsc ofst count =
      page_outer ofst (clamp ofst count (length fsc.list)) 0 (block_lists fsc.list)

  unfoldable pub find_mesage_ofset_count : FsTipsetCache T → ℤ → ℤ → List FilscanMsg
  find_mesage_ofset_count fsc ofst count =
      page_outer ofst (clamp ofst count (length fsc.list)) 0 (message_lists fsc.list)

-- The limit after the clamp, as a number.
clamp_parts : (o c n : ℕ) → pos_part (clamp (pos o) (pos c) n) ≡ min c (n - o)
clamp_parts o c n = ground arith

module _ {A : Type 0} where
  abbrev pub concat : List (List A) → List A
  concat = flat_map (λ xs. xs)

  -- One inner loop over two lists is an inner loop over each, unless the first one exits.
  page_inner-append :
      (ofst count : ℤ) (i : ℕ) (xs ys : List A)
      → page_inner ofst count i (xs ++ ys) ≡ (
          let (part, j, exit) = page_inner ofst count i xs in
          let (more, k, exit') = page_inner ofst count j ys in
          if exit then (part, j, true) else (part ++ more, k, exit'))
  unfolding page_inner
  page_inner-append ofst count i [] ys = refl
  page_inner-append ofst count i (x ∷ xs) ys =
      ground (arith, page_inner-append ofst count (suc i) xs ys)

  page_outer-page_inner :
      (ofst count : ℤ) (i : ℕ) (xss : List (List A))
      → page_outer ofst count i xss ≡ (page_inner ofst count i (concat xss)).0
  unfolding page_outer
  page_outer-page_inner ofst count i [] = unfold page_inner in refl
  page_outer-page_inner ofst count i (xs ∷ xss) =
      let (part, j, exit) = page_inner ofst count i xs in
      rw (page_inner-append ofst count i xs (concat xss))
        (ground (arith, page_outer-page_inner ofst count j xss))

  page_inner_skip :
      (o d i : ℕ) (count : ℤ) (xs : List A)
      → i + d ≡ o
      → (page_inner (pos o) count i xs).0 ≡ (page_inner (pos o) count o (drop d xs)).0
  page_inner_skip o zero i count xs e = let same : i ≡ o = omega arith in rw same
  page_inner_skip o (suc d) i count [] e = unfold page_inner in refl
  page_inner_skip o (suc d) i count (x ∷ xs) e =
      rw (step, page_inner_skip o d (suc i) count xs (omega arith))
    where
      step : page_inner (pos o) count i (x ∷ xs) ≡ page_inner (pos o) count (suc i) xs
      step = unfold page_inner in ground arith

  -- `r` more items are allowed behind the next one. A negative count acts as 0.
  page_inner-take :
      (o r i : ℕ) (count : ℤ) (xs : List A)
      → o ≤ i
      → i + r ≡ o + pos_part count
      → (page_inner (pos o) count i xs).0 ≡ take (suc r) xs
  unfolding page_inner
  page_inner-take o r i count [] h e = refl
  page_inner-take o zero i (pos c) (x ∷ xs) h e = ground arith
  page_inner-take o zero i (negsuc c) (x ∷ xs) h e = ground arith
  page_inner-take o (suc r) i (pos c) (x ∷ xs) h e =
      ground (arith, page_inner-take o r (suc i) (pos c) xs)
  page_inner-take o (suc r) i (negsuc c) (x ∷ xs) h e = absurd (omega arith)

  page_outer-take :
      (o c n : ℕ) (xss : List (List A))
      → page_outer (pos o) (clamp (pos o) (pos c) n) 0 xss
        ≡ take (suc (min c (n - o))) (drop o (concat xss))
  page_outer-take o c n xss =
      let limit = clamp (pos o) (pos c) n in
      page_outer-page_inner (pos o) limit 0 xss
      ∙ page_inner_skip o o 0 limit (concat xss) (omega arith)
      ∙ page_inner-take o (min c (n - o)) o limit (drop o (concat xss)) (omega arith)
          (omega (arith, clamp_parts o c n))

module _ {T : Type 0} where
  block_lists-concat :
      (l : List (TipsetBlockMessages T)) → concat (block_lists l) ≡ block_messages_loop l
  unfolding block_messages_loop
  block_lists-concat [] = refl
  block_lists-concat (x ∷ l) = ap (◌++◌ x.fs_block_message) (block_lists-concat l)

  message_lists-concat : (l : List (TipsetBlockMessages T)) → concat (message_lists l) ≡ all_loop l
  unfolding all_loop
  message_lists-concat [] = refl
  message_lists-concat (x ∷ l) = ap (◌++◌ x.fs_msgs) (message_lists-concat l)

  -- For an offset and a count that are not negative, `FindBlock_ofst_count` returns the blocks of
  -- `Blocks` behind the first `ofst`, and of these not `count` but one more, where the count is first
  -- cut to the number of cached tipsets (not of blocks) behind the offset.
  pub find_block_ofst_count-take :
      (fsc : FsTipsetCache T) (ofst count : ℕ)
      → find_block_ofst_count fsc (pos ofst) (pos count)
        ≡ take (suc (min count (size fsc - ofst))) (drop ofst (blocks fsc))
  unfolding find_block_ofst_count blocks size
  find_block_ofst_count-take fsc ofst count =
      page_outer-take ofst count (length fsc.list) (block_lists fsc.list)
      ∙ ap (λ bs. take (suc (min count (length fsc.list - ofst))) (drop ofst bs))
          (block_lists-concat fsc.list)

  -- `FindMesage_ofset_count` does the same with the messages of `MesageAll`.
  pub find_mesage_ofset_count-take :
      (fsc : FsTipsetCache T) (ofst count : ℕ)
      → find_mesage_ofset_count fsc (pos ofst) (pos count)
        ≡ take (suc (min count (size fsc - ofst))) (drop ofst (mesage_all fsc))
  unfolding find_mesage_ofset_count mesage_all size
  find_mesage_ofset_count-take fsc ofst count =
      page_outer-take ofst count (length fsc.list) (message_lists fsc.list)
      ∙ ap (λ ms. take (suc (min count (length fsc.list - ofst))) (drop ofst ms))
          (message_lists-concat fsc.list)
