-- ===== src/Tests/PageRuns.antt =====
-- The theorems on pages of the cache and the database at work.
use filscan_backend.Prelude.{
  inl, ◌≡◌, refl, String, some, List, [], ◌∷◌, ◌++◌, length, take, drop, Result, ok, fail,
  database_error, arith, inr,
}
use filscan_backend.Prelude.Int.{ℤ, pos, negsuc}
use filscan_backend.Chain.{FilscanBlock, FilscanMsg}
use filscan_backend.TipsetCache.{FsTipsetCache}
use filscan_backend.TipsetCache.Queries.{
  contains, of_miners, miners_loop, find_block_miners, block_in, block_loop, find_block_id,
  find_mesage_block_method,
}
use filscan_backend.Pages.{Store, get_block_by_miner, get_msg_by_block_method_beginx_count}
use filscan_backend.Pages.Combined.{Holds}
use filscan_backend.Pages.Whole.{cached_blocks, cached_msgs, get_block_by_miner-page}
use filscan_backend.Tests.{Tip, tip_1, tip_2, block, msg, cached}

abbrev cache : FsTipsetCache Tip
cache = record {
  list =
      record (cached 2 (some tip_2) (block "t2" (msg "m2" "t01" ∷ []) ∷ [])) {
        fs_msgs = msg "m2" "t01" ∷ [];
      }
      ∷ record (cached 1 (some tip_1) (block "t1" (msg "m1" "t01" ∷ []) ∷ [])) {
        fs_msgs = msg "m1" "t01" ∷ [];
      }
      ∷ [];
  max_size = 3;
}

abbrev stored : List String
stored = "s1" ∷ "s2" ∷ "s3" ∷ []

-- Skip and limit on the stored items.
abbrev limited : ℤ → ℤ → Result (List String)
limited (pos b) (pos n) = ok (take n (drop b stored))
limited (pos b) (negsuc n) = fail database_error
limited (negsuc b) n = fail database_error

abbrev store : Store String String
store = record {
  find_msgs = λ kind method b n. limited b n;
  count_msgs = λ kind method. ok 3;
  find_blocks = λ miners b n. limited b n;
  count_blocks = λ miners. ok 3;
  block_msg_cids = λ cid. ok (stored ∷ []);
  latest_blocks = λ n. limited (pos 0) n;
  latest_msgs = λ n. limited (pos 0) n;
  blocks_by_time = λ from to. ok stored;
  tipsets_by_time = λ from to. ok 3;
  latest_reward = ok "5";
}

abbrev store_holds : Holds store
store_holds = record {
  stored_blocks = λ miners. stored;
  stored_msgs = λ kind method. stored;
  cids_of = λ cid. stored ∷ [];
  find_blocks = λ miners b n. refl;
  count_blocks = λ miners. refl;
  find_msgs = λ kind method b n. refl;
  count_msgs = λ kind method. refl;
  block_msg_cids = λ cid. refl;
}

abbrev cid_of_block : FilscanBlock → String
cid_of_block b = b.cid

abbrev cid_of_msg : FilscanMsg → String
cid_of_msg m = m.msg_cid

abbrev blocks_here : List String
blocks_here = cached_blocks store store_holds cache cid_of_block cid_of_msg ("t01" ∷ [])

abbrev msgs_here : List String
msgs_here = cached_msgs store store_holds cache cid_of_block cid_of_msg "t1" ""

two_blocks : length blocks_here ≡ 2
unfolding find_block_miners miners_loop of_miners contains
two_blocks = refl

one_msg : length msgs_here ≡ 1
unfolding find_mesage_block_method find_block_id block_loop block_in
one_msg = refl

get_block_by_miner-page_example :
    (get_block_by_miner store cache cid_of_block cid_of_msg ("t01" ∷ []) (pos 1) (pos 1)
      ≡ ok (take 1 (drop 1 (blocks_here ++ stored)), length (blocks_here ++ stored)))
    × (get_msg_by_block_method_beginx_count store cache cid_of_block cid_of_msg
          (pos 1)
          (pos 1)
          "t1"
          ""
        ≡ ok (take 1 (drop 1 (msgs_here ++ stored)), length (msgs_here ++ stored)))
get_block_by_miner-page_example =
    get_block_by_miner-page store store_holds cache cid_of_block cid_of_msg ("t01" ∷ []) "t1" "" 1 1
      (inl (omega (arith, two_blocks), omega (arith, two_blocks))) (inr (omega (arith, one_msg)))
