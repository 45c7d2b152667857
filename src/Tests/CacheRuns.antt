-- ===== src/Tests/CacheRuns.antt =====
-- The theorems on the cache at work.
use filscan_backend.Prelude.{
  Option, ◌-◌, suc, ◌≡◌, refl, false, Option, none, some, [], ◌∷◌, ◌++◌, reverse, take, drop,
  filter, ◌==◌, find?, drop_until, min, string_eq, if◌then◌else◌, ok, fail, out_of_fuel, arith,
}
use filscan_backend.Prelude.Int.{pos}
use filscan_backend.Chain.{BlockAndMsg}
use filscan_backend.BlockMessage.{TipsetBlockMessages, equals}
use filscan_backend.TipsetCache.{
  FsTipsetCache, size, full, front_equals, back_equals, back?, push_front, push_back,
}
use filscan_backend.TipsetCache.Fork.{is_parent, Evicts, push_front-Evicts, push_front_diverges}
use filscan_backend.TipsetCache.Invariant.{
  IsValid, to_list, Extends, push_front-IsValid, push_back-IsValid,
}
use filscan_backend.TipsetCache.Paging.{find_block_ofst_count, find_block_ofst_count-take}
use filscan_backend.TipsetCache.Queries.{
  find_mesage_id, mesage_all, blocks, find_block_id, find_mesage_block_method, find_mesage_address,
  find_tipset_in_height,
}
use filscan_backend.TipsetCache.Queries.Search.{
  has_cid, has_method, searched, concerns, prefixes, lookups-find?, find_mesage_address-prefixes,
}
use filscan_backend.TipsetCache.Queries.Heights.{ranged, find_tipset_in_height-ranged}
use filscan_backend.Tests.{Tip, tip_ops, tip_1, tip_2, fork_2, block, msg, cached}

abbrev block_2 : BlockAndMsg
block_2 = block "t2" (msg "m2" "t01" ∷ msg "m3" "t02" ∷ [])

abbrev cached_1 : TipsetBlockMessages Tip
cached_1 = cached 1 (some tip_1) (block "t1" (msg "m1" "t01" ∷ []) ∷ [])

abbrev cached_2 : TipsetBlockMessages Tip
cached_2 = cached 2 (some tip_2) (block_2 ∷ [])

abbrev cached_fork : TipsetBlockMessages Tip
cached_fork = cached 3 (some fork_2) []

abbrev cache : FsTipsetCache Tip
cache = record { list = cached_2 ∷ cached_1 ∷ []; max_size = 3 }

cache-IsValid : IsValid cache
cache-IsValid = record { present = (refl, (refl, tt)); linked = (refl, tt); bounded = omega arith }

other_front : front_equals cache.list cached_fork ≡ false
unfolding front_equals equals
other_front = refl

push_front-IsValid_example :
    (r : FsTipsetCache Tip × Option (TipsetBlockMessages Tip)) × (push_front 3 cache
        (some cached_fork)
      ≡ ok r)
    × IsValid r.0
    × (r.0.list ++ to_list r.1 ≡ cached_fork ∷ drop_until (is_parent fork_2) cache.list)
push_front-IsValid_example =
    push_front-IsValid 3 cache cached_fork fork_2 refl (omega arith) other_front cache-IsValid

push_front-Evicts_example :
    (r : FsTipsetCache Tip × Option (TipsetBlockMessages Tip)) × (push_front 3 cache
        (some cached_fork)
      ≡ ok r)
    × Evicts cache (cached_fork ∷ drop_until (is_parent fork_2) cache.list) r
push_front-Evicts_example =
    push_front-Evicts 3 cache cached_fork fork_2 refl (omega arith) (refl, (refl, tt)) other_front

abbrev nil_front : FsTipsetCache Tip
nil_front = record { list = cached 9 none [] ∷ []; max_size = 3 }

other_than_nil : front_equals nil_front.list cached_fork ≡ false
unfolding front_equals equals
other_than_nil = refl

push_front_diverges_example : push_front 7 nil_front (some cached_fork) ≡ fail out_of_fuel
push_front_diverges_example =
    push_front_diverges 7 nil_front cached_fork (cached 9 none []) fork_2 [] refl refl refl
      other_than_nil

abbrev cache_2 : FsTipsetCache Tip
cache_2 = record { list = cached_2 ∷ []; max_size = 3 }

cache_2-IsValid : IsValid cache_2
cache_2-IsValid = record { present = (refl, tt); linked = tt; bounded = omega arith }

has_room : full cache_2 ≡ false
unfolding full
has_room = refl

cached_1-Extends : Extends (back? cache_2.list) cached_1
unfolding back?
cached_1-Extends = refl

push_back-IsValid_example :
    IsValid (push_back cache_2 (some cached_1))
    × ((push_back cache_2 (some cached_1)).list ≡ (
        if back_equals cached_1 (back? cache_2.list)
        then cache_2.list
        else cache_2.list ++ cached_1 ∷ []))
    × ((push_back cache_2 (some cached_1)).max_size ≡ 3)
push_back-IsValid_example =
    push_back-IsValid cache_2 cached_1 cache_2-IsValid has_room refl cached_1-Extends

find_block_ofst_count-take_example :
    find_block_ofst_count cache (pos 0) (pos 1)
    ≡ take (suc (min 1 (size cache - 0))) (drop 0 (blocks cache))
find_block_ofst_count-take_example = find_block_ofst_count-take cache 0 1

lookups-find?_example :
    (find_block_id cache "t2" ≡ find? (has_cid "t2") (blocks cache))
    × (find_mesage_id cache "t2" ≡ find? (λ m. m.msg_cid == "t2") (mesage_all cache))
    × (find_mesage_block_method cache "t2" "Send"
        ≡ filter (has_method "Send") (searched cache "t2"))
lookups-find?_example = lookups-find? cache "t2" "Send"

find_mesage_address-prefixes_example :
    find_mesage_address cache "t02" "to" "" ≡ prefixes (concerns "t02" "to" "") cache.list
find_mesage_address-prefixes_example = find_mesage_address-prefixes cache "t02" "to" ""

find_tipset_in_height-ranged_example :
    find_tipset_in_height cache 0 2 ≡ ok (ranged 0 2 (reverse cache.list))
find_tipset_in_height-ranged_example =
    find_tipset_in_height-ranged cache 0 2 (refl, (refl, tt)) (ground arith)
