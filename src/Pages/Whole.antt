-- ===== src/Pages/Whole.antt =====
-- `GetBlockByMiner`, `GetMsgByBlockMethodBeginxCount` and `GetMsgByAddressFromToMethod` of
-- controllers/tipsetqueue_DB.go: the pages that they give.
use filscan_backend.Prelude.{
  ℕ, [], inl, inr, ◌+◌, ◌-◌, ◌≤◌, ◌<◌, ◌≡◌, ◌⊎◌, sym, ap, ◌∙◌, Bool, true, false, ◌&&◌, String,
  List, ◌++◌, map, length, take, drop, ltb, ◌==◌, string_eq, if◌then◌else◌, ok, ◌>>=◌, arith,
  if_true, lt→ltb, >>=-ok, length-take, length-append,
}
use filscan_backend.Prelude.Int.{pos, ◌-ℤ◌}
use filscan_backend.Chain.{FilscanBlock, FilscanMsg}
use filscan_backend.TipsetCache.{FsTipsetCache}
use filscan_backend.TipsetCache.Queries.{mesage_all, find_mesage_block_method, find_block_miners}
use filscan_backend.Pages.{
  MsgFilter, in_cids, last_week, Store, first_cids, found_msgs, get_block_list_by_miner,
  get_block_by_miner, get_msg_by_block_method_beginx_count, get_msg_by_block_method_name_limit,
  or_nothing, cash_part,
}
use filscan_backend.Pages.Cash.{cash_part-inside, cash_part-past, cash_part-page}
use filscan_backend.Pages.Combined.{
  pair, map-joined, Holds, away, joined, joined-page, turned-away, length-map, found_msgs-page,
  found_blocks-page,
}

module _ {B M : Type 0} (db : Store B M) (h : Holds db) {T : Type 0} (list : FsTipsetCache T)
    (block_result : FilscanBlock → B) (msg_result : FilscanMsg → M) where
  length-page : (s c : ℕ) {A : Type 0} (l : List A) → length (take c (drop s l)) ≤ c
  length-page s c l = omega (arith, length-take c (drop s l))

  -- The cached blocks of some miners, as they are listed.
  abbrev pub cached_blocks : List String → List B
  cached_blocks miners = map block_result (find_block_miners list miners)

  -- What GetBlockByMiner makes of the cached part of the page and of the offset `d`.
  block_page : List String → ℕ → ℕ → List FilscanBlock → ℕ → List B
  block_page miners s c page d =
      map block_result page
      ++ take (c - length page) (drop (away s (length page + d)) (h.stored_blocks miners))

  by_cash :
      (miners : List String) (s c d : ℕ) (page : List FilscanBlock)
      → cash_part (find_block_miners list miners) (pos s) (pos c) (find_block_miners list miners)
        ≡ ok (page, d)
      → get_block_by_miner db list block_result msg_result miners (pos s) (pos c)
        ≡ ok (
          block_page miners s c page d,
          length (cached_blocks miners) + length (h.stored_blocks miners),
        )
  unfolding get_block_by_miner block_page
  by_cash miners s c d page e =
      let xs = find_block_miners list miners in
      >>=-ok _ e (
        ap (λ (r : List B × ℕ). ok (map block_result page ++ r.0, length xs + r.1))
          (ap or_nothing (
            ap (λ b. get_block_list_by_miner db miners b (pos c -ℤ pos (length page)))
              (turned-away s (length page) d)
            ∙ found_blocks-page db h miners (away s (length page + d)) c (length page)))
        ∙ ap (λ n. ok (block_page miners s c page d, n + length (h.stored_blocks miners)))
            (sym (length-map block_result xs)))

  blocks_joined :
      (miners : List String) (s c : ℕ)
      → s < length (cached_blocks miners)
      → get_block_by_miner db list block_result msg_result miners (pos s) (pos c)
        ≡ ok (
          joined s c (cached_blocks miners) (h.stored_blocks miners),
          length (cached_blocks miners) + length (h.stored_blocks miners),
        )
  unfolding block_page
  blocks_joined miners s c inside =
      let xs = find_block_miners list miners in
      let here : s < length xs = omega (arith, inside, length-map block_result xs) in
      by_cash miners s c 0 (take c (drop s xs)) (cash_part-inside xs s c xs here)
      ∙ ap
          (λ d. ok (
            block_page miners s c (take c (drop s xs)) d,
            length (cached_blocks miners) + length (h.stored_blocks miners),
          ))
          (sym (if_true (ltb s (length xs)) 0 (length xs) (lt→ltb s (length xs) here)))
      ∙ ap (λ l. ok (l, length (cached_blocks miners) + length (h.stored_blocks miners)))
          (map-joined block_result s c xs (h.stored_blocks miners))

  none_cached : (s c : ℕ) (l : List B) → take (c - 0) (drop (away s (0 + 0)) l) ≡ take c (drop s l)
  none_cached s c l =
      ap (λ n. take n (drop (away s (0 + 0)) l)) all ∙ ap (λ n. take c (drop n l)) here
    where
      all : c - 0 ≡ c
      all = omega arith

      here : away s (0 + 0) ≡ s
      here = ground arith

  -- Behind the cached blocks.
  blocks_behind :
      (miners : List String) (s c : ℕ)
      → length (cached_blocks miners) ≤ s
      → get_block_by_miner db list block_result msg_result miners (pos s) (pos c)
        ≡ ok (
          cached_blocks miners
              ++ take (c - length (cached_blocks miners)) (
                  drop
                    (away s (length (cached_blocks miners) + length (cached_blocks miners)))
                    (h.stored_blocks miners)),
          length (cached_blocks miners) + length (h.stored_blocks miners),
        )
  unfolding block_page
  blocks_behind miners s c past =
      let xs = find_block_miners list miners in
      let same = length-map block_result xs in
      by_cash miners s c (length xs) xs (cash_part-past xs s c xs (omega (arith, past, same)))
      ∙ ap
          (λ n. ok (
            cached_blocks miners ++ take (c - n) (drop (away s (n + n)) (h.stored_blocks miners)),
            length (cached_blocks miners) + length (h.stored_blocks miners),
          ))
          (sym same)

  -- The messages that are cached and stored for a block, or for any, and a method, or any.
  abbrev pub cached_msgs : String → String → List M
  cached_msgs block_cid method = map msg_result (
      if block_cid == "" && method == ""
      then mesage_all list
      else find_mesage_block_method list block_cid method)

  abbrev pub kind_of : String → MsgFilter
  kind_of block_cid =
      if block_cid == "" then last_week else in_cids (first_cids (h.cids_of block_cid))

  method_name_limit-page :
      (block_cid method : String) (b c k : ℕ)
      → k ≤ c
      → get_msg_by_block_method_name_limit db block_cid method (pos b) (pos c -ℤ pos k)
        ≡ ok (
          take (c - k) (drop b (h.stored_msgs (kind_of block_cid) method)),
          length (h.stored_msgs (kind_of block_cid) method),
        )
  unfolding get_msg_by_block_method_name_limit
  method_name_limit-page block_cid method b c k le = go (block_cid == "")
    where
      go :
          (any : Bool)
          → (if any
              then found_msgs db last_week method (pos b) (pos c -ℤ pos k)
              else db.block_msg_cids block_cid >>= (λ cids.
                found_msgs db (in_cids (first_cids cids)) method (pos b) (pos c -ℤ pos k)))
            ≡ (let kind = if any then last_week else in_cids (first_cids (h.cids_of block_cid)) in
                ok (
                  take (c - k) (drop b (h.stored_msgs kind method)),
                  length (h.stored_msgs kind method),
                ))
      go true = found_msgs-page db h last_week method b c k le
      go false =
          >>=-ok _ (h.block_msg_cids block_cid)
            (found_msgs-page db h (in_cids (first_cids (h.cids_of block_cid))) method b c k le)

  msgs_joined :
      (block_cid method : String) (s c : ℕ)
      → get_msg_by_block_method_beginx_count db list block_result msg_result
          (pos c)
          (pos s)
          block_cid
          method
        ≡ ok (
          joined s c (cached_msgs block_cid method) (h.stored_msgs (kind_of block_cid) method),
          length (cached_msgs block_cid method) + length (h.stored_msgs (kind_of block_cid) method),
        )
  unfolding get_msg_by_block_method_beginx_count
  msgs_joined block_cid method s c =
      let xs =
        if block_cid == "" && method == ""
        then mesage_all list
        else find_mesage_block_method list block_cid method in
      let page = take c (drop s xs) in
      let d = if ltb s (length xs) then 0 else length xs in
      let stored = h.stored_msgs (kind_of block_cid) method in
      >>=-ok _ (cash_part-page s c xs) (
        >>=-ok _
          (ap
              (λ b.
                get_msg_by_block_method_name_limit db block_cid method b
                  (pos c -ℤ pos (length page)))
              (turned-away s (length page) d)
            ∙ method_name_limit-page block_cid method (away s (length page + d)) c (length page)
                (length-page s c xs))
          (ap (λ (r : List M × ℕ). ok r)
            (pair (map-joined msg_result s c xs stored)
              (ap (λ n. n + length stored) (sym (length-map msg_result xs))))))

  -- If the page starts and ends among the cached blocks, or none is cached, then `GetBlockByMiner` gives
  -- that page of the cached and then the stored blocks of the miners. If the page lies among the cached
  -- messages or behind them, then `GetMsgByBlockMethodBeginxCount` gives that page of the messages of the
  -- block and the method, the cached ones first. Both give the number of all too.
  pub get_block_by_miner-page :
      (miners : List String) (block_cid method : String) (s c : ℕ)
      → ((s < length (cached_blocks miners)) × (s + c ≤ length (cached_blocks miners)))
        ⊎ (cached_blocks miners ≡ [])
      → (s + c ≤ length (cached_msgs block_cid method))
        ⊎ (length (cached_msgs block_cid method) ≤ s)
      → (get_block_by_miner db list block_result msg_result miners (pos s) (pos c)
          ≡ ok (
            take c (drop s (cached_blocks miners ++ h.stored_blocks miners)),
            length (cached_blocks miners ++ h.stored_blocks miners),
          ))
        × (get_msg_by_block_method_beginx_count db list block_result msg_result
              (pos c)
              (pos s)
              block_cid
              method
            ≡ ok (
              take c (
                  drop s
                    (cached_msgs block_cid method ++ h.stored_msgs (kind_of block_cid) method)),
              length (cached_msgs block_cid method ++ h.stored_msgs (kind_of block_cid) method),
            ))
  get_block_by_miner-page miners block_cid method s c fits_blocks fits_msgs =
      let cached = cached_blocks miners in
      let blocks = h.stored_blocks miners in
      let stored = h.stored_msgs (kind_of block_cid) method in
      (
        elim fits_blocks [
          | inl (inside, fits) ↦
              blocks_joined miners s c inside
              ∙ ap (λ l. ok (l, length cached + length blocks))
                  (joined-page s c cached blocks (inl fits))
          | inr empty ↦
              blocks_behind miners s c (omega (arith, ap length empty))
              ∙ ap
                  (λ l. ok (
                    l ++ take (c - length l) (drop (away s (length l + length l)) blocks),
                    length cached + length blocks,
                  ))
                  empty
              ∙ ap (λ l. ok (l, length cached + length blocks))
                  (none_cached s c blocks ∙ ap (λ l. take c (drop s (l ++ blocks))) (sym empty))
        ]
            ∙ ap (λ n. ok (take c (drop s (cached ++ blocks)), n))
                (sym (length-append cached blocks)),
        msgs_joined block_cid method s c
            ∙ ap ok (
                pair (joined-page s c (cached_msgs block_cid method) stored fits_msgs)
                  (sym (length-append (cached_msgs block_cid method) stored))),
      )
