-- ===== src/Lib.antt =====
-- The filscan backend reads Filecoin's chain from a lotus node, keeps the newest tipsets in memory,
-- stores the older ones in MongoDB, and answers queries from both. This library models the parts that
-- decide what is kept and what is found.
--
-- Chain          tipsets, seen through the methods of lotus's `*types.TipSet` that are called, and the
--                structs of models/blocks.go, models/msg.go.
-- Actors         filscaner/force/factors/actor.go and filscaner/fs_mining_util.go: `parseActor`,
--                `LookupMethod`, `ParseActorMessage`.
-- BlockMessage   filscaner/fs_block_message.go: what is stored of a tipset (`build_models_data`), and
--                the bulk writes (BlockMessage/Chunks). Go maps are association lists.
-- TipsetCache    filscaner/fs_tipset_cache.go: the list of unconfirmed tipsets (`push_front`,
--                `push_back`), its queries (TipsetCache/Queries) and pages (TipsetCache/Paging). The
--                list is the Go list from front to back.
-- SyncedPath     filscaner/fs_sync_models.go: the stretches of the chain that are stored, in memory and
--                in a collection, which is an argument with its three calls (`PathStore`).
-- Syncer         filscaner/fs_syncer.go and filscaner/fs_loops.go: announced headers are handled, the
--                cache is filled, and what falls off it is handed on. It uses BlockMessage and
--                TipsetCache. The calls of lotus are an argument (`LotusApi`), whose answers may change
--                between the calls for one header and those for its handler. Syncer/Genesis is
--                `sync_to_genesis`, which uses SyncedPath too, as does Syncer/Safe, the handlers of safe
--                tipsets.
-- MinerCache     filscaner/fs_miner_cache.go: the states of miners by period, a table of rows, with the
--                operations in MinerCache and MinerCache/Update and a module for each of its laws. The
--                database (`MinerDb`) and the order in which `range` visits a Go map are arguments; of
--                that order only `VisitsAll` is assumed: it visits each entry, and nothing else.
-- MinerFeed      filscaner/fs_storage_miner_message_handler.go, `api_miner_state_at_tipset` of
--                filscaner/fs_api_utils.go, `models_update_miner` and `do_upsert_miners` of
--                filscaner/fs_models.go, and the loops of filscaner/fs_loops.go that call them: states of
--                miners come from lotus (`MinerApi`), go to a buffer of writes and to a channel, and from
--                there to the two caches of MinerCache. The loops' steps are `Action`s in any order.
-- Queue          controllers/tipset_queue.go: the queue of tipsets by height, its updates (Queue/Push,
--                Queue/Known, Queue/Remove, Queue/Header) and its queries (Queue/Queries; their
--                description is in Queue/Queries/Refine). `sort.Slice` is an argument.
-- Pages          controllers/tipsetqueue_DB.go with the queries of models/msg.go and models/blocks.go
--                that it calls: pages that start in the cache of tipsets and go on in the database. The
--                collections are an argument, and `Holds` says what they answer.
-- TipsetKey      `Tipsetkey_from_string` of utils/utils.go, on bytes. Cids and keys are arguments, and
--                `Texts` says how they are printed.
-- HappiLock      utils/happi_lock.go: the lock of the queue, as steps of goroutines.
-- Tests          concrete runs.
--
-- Names are those of the source in snake case, and spelled as there (`find_mesage_id`). A method that
-- changes its receiver returns the new one. A method that takes a mutex is one
-- step, except in HappiLock. A nil pointer is `none`; a dereference of nil, an index out of range and
-- an error value are faults of `Result`, and `is_panic` tells them apart; a caller that drops an error
-- does not drop a panic. A bulk write gives what is in the database behind it on an error too
-- (`Written`).
-- Heights are uint64, whose wrap-around is written out where the code subtracts (`sub_uint64`); other
-- numbers stay far below 2^63.
--
-- Loops that the code bounds by nothing run on fuel. In `push_front` any fuel above the number of
-- cached elements is enough; in `update_push` as much as the two heights are apart is; in
-- `fall_through` as much as the heights of lotus's tipsets is, where parents are lower;
-- `sync_to_genesis` has in Syncer/Genesis/Ends a fuel that is enough where heights fall, and in
-- Syncer/Genesis/Stored any.
-- The loop of `models_load` that does not end is stated for every fuel.
--
-- Not modelled: queries and aggregations decided by the database, the controllers, formatting with
-- floats, goroutines that retry, `sync_tipset_with_range`, encodings by reflection.
pub mod Prelude
pub mod Chain
pub mod Actors
pub mod BlockMessage
pub mod TipsetCache
pub mod SyncedPath
pub mod Syncer
pub mod Queue
pub mod Tests
pub mod HappiLock
pub mod MinerCache
pub mod Pages
pub mod TipsetKey
pub mod MinerFeed
