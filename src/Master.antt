-- ===== src/Master.antt =====
-- The master: src/master/.
pub mod BlockMaster
pub mod WorkerManager
pub mod MountTable
pub mod OwnerGroupDict
pub mod Inode
pub mod InodeEntry
pub mod InodeStore
pub mod InodeTree
pub mod JournalWriter
pub mod RaftJournal
pub mod FileSystemMaster
