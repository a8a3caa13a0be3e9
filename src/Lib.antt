-- ===== src/Lib.antt =====
-- InfiniCache, an object cache on ephemeral cloud functions: the part of its proxy that keeps the
-- metadata of objects and decides where their chunks go, in Go, modelled over native numbers.
--
-- A client cuts an object into data and parity chunks. For each chunk the proxy asks the placer
-- (proxy/server/metastore/lru_placer.go), which looks the object up in the metadata store
-- (metastore.go) under its key and version (meta.go), and gives the chunk to an instance, whose
-- size it counts (proxy/lambdastore/meta.go); where an instance is full, a Clock LRU over the
-- objects evicts one, whose places the new object takes over.
--
-- Which file models which part; where a type or an operation has several words, the model's name
-- has them in lower case (GetOrInsert is get_or_insert):
--   * Keys, Keys/Laws: the keys of versions and chunks, proxy/server/metastore/meta.go; Decimal has
--     the decimal numerals that they contain.
--   * WaitGroup: common/sync/waitgroup.go.
--   * HashMap: common/util/hashmap, the map with a counter (mapcounter.go) over the wrapper
--     (hashmap.go) of a concurrent map. That map is another project's; HashMap/Interface has
--     its operations with the laws that it documents, and HashMap/Assoc an association list that
--     satisfies them.
--   * Metastore/Meta, Metastore/Flags: an object's metadata and the operations on its flags.
--   * Metastore/Store: metastore.go, GetOrInsert, Get and GetByVersion. Invariant has the
--     histories of versions, Publish, Insert and Outcome what GetOrInsert does, Get what Get does.
--   * Metastore/Lru: the two arrays of lru_placer.go, AddObject, TouchObject, evictMeta and
--     NextAvailableObject. Positions, Copy, Scan and Compact follow the compaction, and Evict the
--     eviction.
--   * Metastore/Placement: FindPlacement of lru_placer.go, with Slice.GetIndex and nextSlice of
--     proxy/server/cluster/static_cluster.go. Visits, Offers and Search follow the search for
--     a replacement, Stuck the searches that do not end; Place is about the result of the whole,
--     Slices about slices.
--   * Metastore/Placer: InsertAndPlace, Get and GetByVersion of lru_placer.go over the store and
--     the placement; Read is about Get.
--   * InstanceMeta: proxy/lambdastore/meta.go, sizes and logs.
--   * Backups: proxy/lambdastore/backups.go and common/types/backup_locator.go, the instances that
--     stand in for one that recovers. Backups/Reserve has Reserve, Serve and Iterate what Start,
--     the lookups and the iterator do afterwards; how instances answer a reservation is a
--     parameter, and the fallback iterator a list.
--   * Lifetime: lambda/lifetime, by which a cloud function ends an invocation before it is billed
--     for another tick: lifetime.go here, Lifetime/Session session.go, and timeout.go in
--     Lifetime/Ticks (when a timeout is due), Lifetime/Timer (the calls) and Lifetime/Loop (the loop
--     of validateTimeout, whose steps, the single checks of tryTimeout among them, interleave with
--     the calls in any order that the lock of the session allows). Sound, Once and Checks are about
--     the loop, Bounds about the ticks.
--   * Links: proxy/lambdastore/link_manager.go, the connections of an instance that wait for
--     requests. Links has the chain of buckets, Links/Queue and Links/Reset are about it;
--     Links/Workers has the requests for links, whose goroutines interleave at the places where
--     they wait or lock, with Requests, Counting and Counted about them; Links/Manager has
--     LinkManager, with Control and Dropped.
--   * Persist: proxy/cache, which buffers a chunk while it passes through the proxy. Persist has
--     common/util/closer.go, Persist/Intercept common/redeo/server/intercept_reader.go,
--     Persist/Chunk persist_chunk.go and Persist/Reader persist_chunk_reader.go; References
--     is about who holds a chunk, Delivery (with Slices and Storing) about what its readers get.
--   * Window: common/redeo/client/wnd.go, the requests of a client that were not answered yet.
--     Window has the buckets and the search in them, Window/Add, Window/Ack and Window/Recycle
--     AddRequest, AckRequest and the recycling, with Match, Filled and Found, with Rounds,
--     Loop, Ranges, Quiet, Advance and Ends, and with Collect about them.
--   * Group: proxy/server/cluster/group.go, the instances of a cluster under logical indexes, with
--     Resize (with Capacity) and Indexed about them.
--   * Tests: runs at small inputs.
--   * Base: lists and integers over native numbers.
--
-- State is passed explicitly: a heap from pointers, which are numbers, to metas stands for the
-- shared objects, so that two keys of the store may name one meta; a call returns the new state. What
-- the source does on a nil pointer or an index out of range is a result of its own.
-- A call runs without another between its steps, as under the locks of the placer, where the list
-- above does not say otherwise; the rounds
-- of the loop of GetOrInsert are functions of their own. Waiting is a predicate on the counter of
-- the wait group, not a blocked thread.
--
-- Fuel: GetOrInsert runs two rounds, and Get a round for each version and one more, which is shown
-- to be enough. The search for a replacement is on fuel because the loop of the source has no bound;
-- two rounds are shown to be enough under a condition, and no number of rounds without it.
-- Machine integers: sizes of instances wrap around at 2 ^ 64 and their chunk counters at 2 ^ 32, the
-- count of a wait group as an int32, and the durations of a timeout as int64; lengths, versions and
-- positions are far from their bounds and are not wrapped.
--
-- Not modelled: the network, the sessions and protocols of clients and instances, storage and
-- recovery in the cloud functions, and the pool that recycles metas, of which an object enters as
-- an argument of NewMeta; logs, metrics and times that are only recorded.
pub mod Base
pub mod Decimal
pub mod Keys
pub mod Lifetime
pub mod WaitGroup
pub mod HashMap
pub mod Metastore
pub mod InstanceMeta
pub mod Backups
pub mod Links
pub mod Persist
pub mod Window
pub mod Group
mod Tests
