-- ===== src/Tests/FeedRuns.antt =====
-- The theorems on the way of miners' states at work: a buffer for two states, a lotus with one miner,
-- and a database that is the list of what was written.
use filscan_backend.Prelude.{
  ◌≡◌, Bool, true, false, Result, Written, done, broken, refl, String, Option, none, some, List, [],
  ◌∷◌, ok, arith,
}
use filscan_backend.MinerFeed.{MinerStateAtTipset, Doc, UpsertBuffer, do_upsert_miners, update_each}
use filscan_backend.MinerFeed.Buffer.{do_upsert_miners-handed}
use filscan_backend.MinerFeed.Api.{
  MinerApi, powered, Feed, Action, message, tick, receive, perform_all,
}
use filscan_backend.MinerFeed.Runs.{IsFeed, perform_all-IsFeed}
use filscan_backend.Tests.{Tip, tip_ops, tip_1, tip_2}
use filscan_backend.Tests.MinerRuns.{
  in_order, in_order-VisitsAll, db, full_cache, full_cache-IsCache,
}

abbrev Batches : Type 0
Batches = List (List (Option Doc))

abbrev write : List (Option Doc) → Batches → Written Batches
write docs written = done (docs ∷ written)

abbrev empty_buffer : UpsertBuffer
empty_buffer = record {
  to_upsert_miners = none ∷ none ∷ none ∷ none ∷ [];
  to_update_miner_size = 2;
  to_update_miner_index = 0;
}

abbrev one_state : MinerStateAtTipset
one_state = record {
  state = record { miner_addr = "t01"; power = 7; total_power = 100; mine_time = 115 };
  peer_id = "p";
  wallet_addr = "t3a";
  sector_size = 1024;
  sector_count = 2;
  tipset_height = 4;
  proving_sector_size = 1024;
  gmt_create = 0;
  gmt_modified = 0;
}

-- One state in a buffer for two is lost.
do_upsert_miners-handed_example :
    (that : UpsertBuffer) × (update_each write 9 (one_state ∷ []) empty_buffer [] ≡ ok (that, []))
    × (do_upsert_miners write that []
        ≡ (elim (write [] []) as (λ x. Result ((UpsertBuffer × Batches) × Bool)) [
          | done db' ↦ ok ((record that { to_update_miner_index = 0 }, db'), false)
          | broken db' e ↦ ok ((that, db'), true)
        ]))
    × (that.to_update_miner_index ≡ 1)
do_upsert_miners-handed_example =
    do_upsert_miners-handed write 9 (one_state ∷ []) empty_buffer [] refl refl (omega arith)
      (omega arith)

abbrev miner_api : MinerApi Tip String
miner_api = record {
  new_from_string = λ text. some text;
  address_string = elim [ none ↦ "" | some text ↦ text ];
  state_miner_power = λ addr t. powered record { miner_power = 7; total_power = 100 };
  state_miner_sectors = λ addr t. some 2;
  state_miner_peer_id = λ addr t. none;
  state_miner_worker = λ addr t. some "t3a";
  state_miner_sector_size = λ addr t. some 1024;
  state_miner_proving_set = λ addr t. some 1;
}

abbrev feed : Feed
feed = record {
  latest_total_power = none;
  upserts = empty_buffer;
  miner_state_chan = [];
  miner_cache24h = some full_cache;
  miner_cache1day = some full_cache;
}

feed-IsFeed : IsFeed feed
feed-IsFeed = record {
  latest = tt;
  buffer = record { slots = refl; room = omega arith; some_room = omega arith };
  waiting = tt;
  bounded = omega arith;
  hours = record {
    cache = full_cache;
    there = refl;
    good = full_cache-IsCache;
    period = omega arith;
  };
  days = record {
    cache = full_cache;
    there = refl;
    good = full_cache-IsCache;
    period = omega arith;
  };
}

abbrev actions : List (Action Tip)
actions = message 9 tip_1 "t01" ∷ message 9 tip_2 "t02" ∷ receive ∷ tick ∷ receive ∷ []

perform_all-IsFeed_example :
    (that : Feed) × (written : Batches) × (perform_all miner_api write in_order db actions
        (feed, [])
      ≡ ok (that, written))
    × IsFeed that
perform_all-IsFeed_example =
    perform_all-IsFeed miner_api write in_order in_order-VisitsAll db actions feed [] feed-IsFeed
