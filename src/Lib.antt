-- ===== src/Lib.antt =====
-- A verification library of Agent-Mem-IO, a storage engine for vectors with a graph index.
--
-- The parts of the program, and the files that model them:
--
-- Buffer is the user-space buffer pool of src/buffer/buffer_pool.cpp. Buffer/Queue.antt is a
--   `std::list` with the map of its iterators; Buffer/Policy.antt is `TwoQueueEvictionPolicy`, which
--   names the page to evict; Buffer/Pool.antt and Buffer/Pool/Methods.antt are `BufferPoolManager`, one
--   definition per method, each a function from the pool before to the answer and the pool after. A
--   method that takes the lock twice is two functions, so that the second one can be stated for
--   any pool that it may find. Loading and flushing are the caller's functions, as in the code.
--   Buffer/Hubs.antt is the classification of hub nodes (eviction_policy.cpp) with its updates of the
--   policy and the pool, and Buffer/Page.antt the helpers of page.cpp.
-- Lsm is the write path of src/compaction. Lsm/MemTable.antt is the table in memory,
--   Lsm/Wal.antt the log in front of it (wal.cpp), Lsm/SsTable.antt the file of a flushed table and
--   Lsm/SsTable/Manager.antt the tables with their levels and filters (memtable.cpp), Lsm/Bloom.antt the
--   filter (memtable.h), Lsm/Merge.antt and Lsm/Merge/Compact.antt the compaction
--   (compaction_manager.cpp), Lsm/Worker.antt its thread as a relation of steps, and Lsm/Writer.antt
--   with Lsm/Writer/Start.antt `LsmWriteManager`, which composes them.
-- Graph is src/core/graph_index.cpp: Graph/Nav.antt has the adjacency lists, Graph/Prune.antt the
--   pruning, Graph/Search.antt the search, Graph/Builder.antt the construction and the incremental
--   insertion, which use both, and Graph/Index.antt `GraphIndex` with its file.
--   Graph/Visited.antt is the bitmap of src/core/visited_bitmap.h.
-- Disk is the index on disk of src/io/disk_layout.cpp: Disk/Record.antt is the record of a node,
--   Disk/Writer.antt writes one for each node, and Disk/Reader.antt reads them through the pool of
--   Buffer, as Disk/Reader/Pinned.antt does with pinned pages and
--   Disk/Reader/Batch.antt with lists of nodes.
-- Engine is src/engine with the input and output below it. Engine/IoEngine.antt is
--   `IoUringEngine` (src/io/io_uring_engine.cpp), with `IoEngine` in Engine/IoEngine/Facade.antt, over the
--   calls of liburing as a parameter; Engine/Prefetcher.antt is the prefetcher on top of it
--   (prefetcher.cpp); Engine/Query.antt is the search of `QueryProcessor`, on the interface `Calls` of
--   what it calls while it runs, which Engine/Processor.antt fills with the vectors from the pool or the
--   disk reader and with the prefetcher; and Engine/Storage.antt is `StorageEngine`
--   (storage_engine.cpp), which uses the write path, the index and the query processor.
-- Prelude has tests on numbers, lists, maps and bytes; Examples has concrete inputs.
--
-- Numbers are natural numbers, with the wrap-around of a fixed-width word written out where the code
-- can reach it. A float is its 32-bit pattern where the code only copies it, and an abstract value where
-- it computes with it. A pointer to a page is the bytes behind it. `std::unordered_map` is an
-- association list; what depends on the order of its iteration is stated without the order. The
-- clock is an argument, and so are the outcomes of the system calls that the code tests. A read past the end of a
-- file, after which the code uses variables that were never set, is the outcome `undefined`.
--
-- Loops are recursions on the list or the count that they run over. Three run on
-- fuel: the recovery of the log on the length of the file, which is more than its number of records,
-- and the two searches of the graph on the number of nodes, since each node becomes a candidate once.
--
-- The thread of the compaction and its callers interleave in steps: an access of one of the flags, or
-- what is done under the lock of the queue. What a compaction does to the tables meanwhile is no part
-- of these steps; Lsm/Merge/Compact.antt has it with no other caller in between. The other components
-- are entered by one caller at a time.
--
-- Not modelled: the batch of distances and the asynchronous reads of the disk index, the staged
-- builder, the single SSTable file of sstable.cpp, the search of query_processor.cpp, which nothing
-- calls; nor arithmetic on floats, product quantisation, and the command line with its benchmark.
pub mod Prelude
pub mod Buffer
pub mod Lsm
pub mod Graph
pub mod Disk
pub mod Engine
pub mod Examples
