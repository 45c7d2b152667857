-- ===== src/BlockMessage/Chunks.antt =====
-- filscaner/fs_block_message.go's bulk writes: the messages in batches of at most 256, then the blocks,
-- then the tipsets. The driver's `BulkUpsert` is an argument, over a state of the database, of which it gives what is left of it on an error too.
use filscan_backend.Prelude.{
  ℕ, zero, suc, ◌<◌, ◌≤◌, ◌≡◌, refl, ap, ◌∙◌, List, [], ◌∷◌, ◌++◌, length, take, drop,
  take-append-drop, length-take, length-drop, ltb, if◌then◌else◌, Written, done, broken, ◌>>>◌,
  out_of_fuel, All, arith,
}
use mathlib.Core.Path.{fun_ext}
use filscan_backend.Chain.{FilscanBlock, FilscanMsg}
use filscan_backend.BlockMessage.{FilscanTipset}

abbrev pub max_size : ℕ
max_size = 256

module _ {D A : Type 0} (bulk_upsert : D → List A → Written D) where
  -- The loop of `models_bulk_upsert_message`.
  unfoldable pub message_batches : ℕ → D → List A → Written D
  message_batches zero db items = broken db out_of_fuel
  message_batches (suc fuel) db [] = done db
  message_batches (suc fuel) db (x ∷ items) =
      let size = length (x ∷ items) in
      let real_size = if ltb max_size size then max_size else size in
      bulk_upsert db (take real_size (x ∷ items))
      >>> (λ db'. message_batches fuel db' (drop real_size (x ∷ items)))

  unfoldable pub bulk_upsert_message : D → List A → Written D
  bulk_upsert_message db items = message_batches (suc (length items)) db items

  -- `models_bulk_upsert_block` and `models_bulk_upsert_tispet`: one call, unless there is nothing.
  unfoldable pub bulk_upsert_once : D → List A → Written D
  bulk_upsert_once db [] = done db
  bulk_upsert_once db (x ∷ items) = bulk_upsert db (x ∷ items)

unfoldable pub bulk_upsert_block_message_tipset :
    {D : Type 0}
    → (D → List FilscanMsg → Written D)
    → (D → List FilscanBlock → Written D)
    → (D → List FilscanTipset → Written D)
    → D
    → List FilscanMsg
    → List FilscanBlock
    → List FilscanTipset
    → Written D
bulk_upsert_block_message_tipset upsert_msg upsert_block upsert_tipset db msgs blocks tipsets =
    bulk_upsert_message upsert_msg db msgs
    >>> (λ db₁. bulk_upsert_once upsert_block db₁ blocks)
    >>> (λ db₂. bulk_upsert_once upsert_tipset db₂ tipsets)

module _ {D A : Type 0} (bulk_upsert : D → List A → Written D) where
  -- One write after the other, up to the first that fails.
  abbrev pub write_all : D → List (List A) → Written D
  write_all db [] = done db
  write_all db (b ∷ batches) = bulk_upsert db b >>> (λ db'. write_all db' batches)

  abbrev pub concat : List (List A) → List A
  concat [] = []
  concat (b ∷ batches) = b ++ concat batches

  abbrev pub IsBatch : List A → Type 0
  IsBatch b = (0 < length b) × (length b ≤ max_size)

  message_batches-write_all :
      (fuel : ℕ) (items : List A)
      → length items < fuel
      → (batches : List (List A)) × (concat batches ≡ items)
        × All IsBatch batches
        × ((db : D) → message_batches bulk_upsert fuel db items ≡ write_all db batches)
  unfolding message_batches
  message_batches-write_all zero items h = absurd (omega arith)
  message_batches-write_all (suc fuel) [] h = ([], refl, tt, λ db. refl)
  message_batches-write_all (suc fuel) (x ∷ items) h =
      let size = length (x ∷ items) in
      let real_size = if ltb max_size size then max_size else size in
      let positive : 0 < real_size = ground arith in
      let small : real_size ≤ max_size = ground arith in
      let within : real_size ≤ size = ground arith in
      let batch = take real_size (x ∷ items) in
      let rest = drop real_size (x ∷ items) in
      let (batches, parts, sizes, runs) =
        message_batches-write_all fuel rest (omega (arith, length-drop (real_size) (x ∷ items))) in
      (
        batch ∷ batches,
        ap (◌++◌ batch) parts ∙ take-append-drop real_size (x ∷ items),
        (
          (
            omega (arith, length-take real_size (x ∷ items)),
            omega (arith, length-take real_size (x ∷ items)),
          ),
          sizes,
        ),
        λ db. ap (λ k. bulk_upsert db batch >>> k) (fun_ext (λ db'. runs db')),
      )

  -- `models_bulk_upsert_message` never runs out of fuel: it writes the messages in order, in batches
  -- of 1 to 256 that together are all of them, each once, and stops at the first write that fails, with what was written before it.
  pub bulk_upsert_message-write_all :
      (items : List A)
      → (batches : List (List A)) × (concat batches ≡ items)
        × All IsBatch batches
        × ((db : D) → bulk_upsert_message bulk_upsert db items ≡ write_all db batches)
  unfolding bulk_upsert_message
  bulk_upsert_message-write_all items =
      message_batches-write_all (suc (length items)) items (omega arith)
