-- ===== src/Lib.antt =====
-- AnyCache is a distributed cache for files. A master keeps the namespace, the registered workers and
-- where each block is; workers keep blocks of bytes in tiers of memory and disk, and pages for clients;
-- a file is cut into blocks whose ids hold its inode and the block's index.
--
-- Which file models what:
--   * Common: the block ids and arithmetic of src/common/types.h (BlockIds: MakeBlockId, GetInodeId,
--     GetBlockIndex, GetBlockCount, GetBlockLength), TierType (Tier) and StatusCode of
--     src/common/status.h (Status). A status keeps its code and loses its message.
--   * Worker/Policy: the interface CachePolicy of src/worker/cache_manager.h as a record of
--     operations, with the contract IsPolicy that CacheManager relies on. Policy/Lru is LRUPolicy with
--     the nodes of its list and the iterators of its map as addresses; Policy/Lfu is LFUPolicy.
--   * Worker/CacheManager: CacheManager of src/worker/cache_manager.cpp over any policy.
--   * Worker/StorageTier: StorageTier of src/worker/storage_tier.cpp, bytes included. The record Os
--     holds what malloc and the file calls answer in one call.
--   * Worker/LruCache and Worker/PageStore: ConcurrentLRUCache and PageStore of
--     src/worker/page_store.{h,cpp}. The page fetcher is a field, any function.
--   * Worker/MetaStore and Worker/BlockStore: MetaStore of src/worker/meta_store.cpp, and
--     BlockStore of src/worker/block_store.cpp with the queries and evictions in the module itself,
--     CreateBlock in Create, and reads, writes, promotion, removal and recovery in Access.
--   * Master/BlockMaster, Master/WorkerManager, Master/MountTable: the classes of those names in
--     src/master/. The factory of under file systems and the database's answers are parameters.
--   * Master/OwnerGroupDict: one half, owners or groups, of the class in src/master/inode_entry.h.
--   * Master/Inode and Master/InodeEntry: the struct Inode of src/master/inode_tree.h, and the bytes of
--     entries, keys and edges of src/master/inode_entry.h, with the layout of a little-endian machine.
--   * Master/InodeStore: InodeStore of src/master/inode_store.cpp over the interface of the database in
--     Common/Database: its reads, writes and scans are fields of a record, and what its documentation
--     promises of them is the record IsLawful, which Common/MapDatabase meets.
--   * Master/InodeTree: InodeTree of src/master/inode_tree.cpp, with and without a store. The module has
--     the state, the paths and the reads; Create has CreateFile and CreateDirectory, Remove has Delete
--     and the walks over a subtree, Change has Rename, CompleteFile and UpdateSize, and Recover has
--     Recover. Its other modules are proofs: Shape says what the links of a tree are, Paths what a path
--     means.
--   * Master/JournalWriter: JournalWriter of src/master/journal/journal_writer.{h,cpp}, with the bytes
--     on disk and those that its stream holds back. Replays, Histories and Flushes are proofs.
--   * Master/RaftJournal: RaftJournal of src/master/journal/raft_journal.{h,cpp} over JournalWriter, with
--     the turns of its election thread as calls.
--   * Master/FileSystemMaster: FileSystemMaster of src/master/file_system_master.{h,cpp}; Blocks has what
--     its calls do to the block master, Lifecycle what a deletion does over all parts.
--   * Base: what these share: lists and maps of the C++ library, lists with node addresses (Nodes) and
--     their agreement with a map of iterators (Nodes/Linked), and 64-bit words (Words).
--
-- How the parts meet: BlockStore asks CacheManager for victims and removes them from the StorageTier
-- that holds them and from the MetaStore; CacheManager asks its policy. PageStore keeps a reverse index
-- beside its ConcurrentLRUCache. FileSystemMaster
-- calls InodeTree, BlockMaster and WorkerManager, and RaftJournal its JournalWriter. The theorems on CacheManager hold of every policy with the contract,
-- and the two policies fill it.
--
-- State passing: every method is a function from the state to the state after it and its result, and a
-- history is a list of calls or a relation that steps through them, each call made after the one before
-- it has returned. Most classes guard their methods by a lock. BlockStore, PageStore and
-- FileSystemMaster do not: mu_ of BlockStore guards its map of tiers only, and PageStore takes the locks
-- of its cache and of its index in turn. Of these the theorems are about calls that do not overlap. A
-- result of `none` or `fault` stands for a call that does not return or that C++ leaves undefined; the
-- theorems state where it cannot occur.
--
-- Numbers: sizes, ids and counters are natural numbers with 64-bit wrap-around written out (+u64, -u64)
-- where the source computes with them. Times are counted from the clock's epoch and the clock is an
-- argument. The order of an association list stands for the iteration order of an unordered map.
--
-- Fuel: the search of LFUPolicy::Evict runs on 2 ^ 64 rounds, which visit every frequency; the loop of
-- GetEvictionCandidates runs on one round more than the policy has blocks, since every round takes one.
-- Both are shown to end within their fuel.
-- The loop of Replay runs on one turn for each byte of the file, since each turn that goes on takes some.
-- Delete takes its fuel as an argument, and `none` is a loop that is not done: without a store one turn
-- for each child in memory is enough, with one a bound on the depth of the tree.
--
-- Not modelled: RocksDB, the under file systems, gRPC servers and services, the client, FUSE,
-- configuration, logging and metrics, which call libraries or the operating system; and the data mover.
pub mod Base
pub mod Common
pub mod Worker
pub mod Master
