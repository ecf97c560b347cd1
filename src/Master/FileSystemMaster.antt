-- ===== src/Master/FileSystemMaster.antt =====
-- `FileSystemMaster` of src/master/file_system_master.{h,cpp}: the calls of the master as sequences
-- of calls of its parts. Clocks are arguments, and the counters of metrics are left out. `k_internal`,
-- which the code returns nowhere here, stands for a read past the end of a row, which the reads of
-- the store never make.
pub mod Blocks
pub mod Lifecycle
mod Tests
mod StoredTests
use any_cache.Base.{
  ℕ, zero, suc, ◌-◌, Bool, true, false, Option, none, some, List, ltb, if◌then◌else◌, get_or,
}
use any_cache.Common.Status.{
  StatusCode, k_ok, k_already_exists, k_invalid_argument, k_internal, is_ok, Reply, done, failed,
  fault,
}
use any_cache.Common.BlockIds.{make_block_id, get_block_count}
use any_cache.Common.Database.{Database}
use any_cache.Common.Tier.{TierType}
use any_cache.Master.Inode.{Inode}
use any_cache.Master.InodeStore.{InodeStore}
use any_cache.Master.InodeTree.{InodeTree, get_inode_by_path, list_directory, set_store}
use any_cache.Master.InodeTree.Create
use any_cache.Master.InodeTree.Remove.{delete}
use any_cache.Master.InodeTree.Change
use any_cache.Master.InodeTree.Recover
use any_cache.Master.BlockMaster.{BlockMaster, remove_block, BlockLocationInfo}
use any_cache.Master.BlockMaster
use any_cache.Master.WorkerManager.{WorkerManager, select_worker_for_write}
use any_cache.Master.WorkerManager

-- The loop that removes the blocks of a file, from an index on, so many of them.
unfoldable pub remove_blocks : ℕ → ℕ → ℕ → BlockMaster → BlockMaster
unfolding make_block_id
remove_blocks inode_id first zero s = s
remove_blocks inode_id first (suc count) s =
    remove_blocks inode_id (suc first) count (remove_block (make_block_id inode_id first) s)

-- The blocks that `DeleteFile` removes: those of the file, if the path leads to one.
abbrev pub remove_file_blocks : Reply Inode → BlockMaster → BlockMaster
remove_file_blocks (failed status) s = s
remove_file_blocks fault s = s
remove_file_blocks (done inode) s =
    if inode.is_directory
    then s
    else remove_blocks inode.id 0 (get_block_count inode.size inode.block_size) s

-- The blocks that `TruncateFile` removes.
abbrev pub shrink_blocks : Inode → ℕ → BlockMaster → BlockMaster
shrink_blocks inode new_size s =
    let new_block_count = get_block_count new_size inode.block_size in
    let old_block_count = get_block_count inode.size inode.block_size in
    if ltb new_size inode.size
    then remove_blocks inode.id new_block_count (old_block_count - new_block_count) s
    else s

module _ (db : Database) where
  pub record FileSystemMaster : Type 0 where
    pub inode_tree : InodeTree db
    pub block_master : BlockMaster
    pub worker_mgr : WorkerManager

  -- `Init`, with what opening the store gives.
  unfoldable pub init : ℕ → Reply (InodeStore db) → FileSystemMaster → FileSystemMaster × StatusCode
  init now (failed status) m = (m, status)
  init now fault m = (m, k_internal)
  init now (done store) m =
      let (tree, status) = Recover.recover db now (set_store db (some store) m.inode_tree) in
      (record m { inode_tree = tree }, status)

  abbrev pub get_file_info : List ℕ → FileSystemMaster → Reply Inode
  get_file_info path m = get_inode_by_path db path m.inode_tree

  -- `CreateFile`, with the status, the id and the worker, 0 for no worker.
  unfoldable pub create_file :
      List ℕ → ℕ → ℕ → FileSystemMaster → FileSystemMaster × StatusCode × Option ℕ × Option ℕ
  create_file path mode now m =
      let (tree, status, id) = Create.create_file db path mode now m.inode_tree in
      (
        record m { inode_tree = tree },
        status,
        id,
        if is_ok status then some (get_or (select_worker_for_write m.worker_mgr) 0) else none,
      )

  abbrev pub complete_file : ℕ → ℕ → ℕ → FileSystemMaster → FileSystemMaster × StatusCode
  complete_file file_id size now m =
      let (tree, status) = Change.complete_file db file_id size now m.inode_tree in
      (record m { inode_tree = tree }, status)

  -- `DeleteFile`: the blocks go before the inode, whatever becomes of that.
  unfoldable pub delete_file :
      ℕ → List ℕ → Bool → FileSystemMaster → Option (FileSystemMaster × StatusCode)
  delete_file fuel path recursive m =
      let blocks = remove_file_blocks (get_inode_by_path db path m.inode_tree) m.block_master in
      elim (delete db fuel path recursive m.inode_tree) [
        | none ↦ none
        | some (tree, status) ↦ some (record m { inode_tree = tree; block_master = blocks }, status)
      ]

  abbrev pub rename_file : List ℕ → List ℕ → FileSystemMaster → FileSystemMaster × StatusCode
  rename_file src dst m =
      let (tree, status) = Change.rename db src dst m.inode_tree in
      (record m { inode_tree = tree }, status)

  abbrev pub list_status : List ℕ → FileSystemMaster → Reply (List Inode)
  list_status path m = list_directory db path m.inode_tree

  -- `Mkdir` of a directory that is there succeeds.
  abbrev pub if_exists_ok : StatusCode → StatusCode
  if_exists_ok k_already_exists = k_ok
  if_exists_ok status = status

  unfoldable pub mkdir :
      List ℕ → ℕ → Bool → (ℕ → ℕ) → FileSystemMaster → FileSystemMaster × StatusCode
  mkdir path mode recursive clock m =
      let (tree, status, id) = Create.create_directory db path mode recursive clock m.inode_tree in
      (record m { inode_tree = tree }, if_exists_ok status)

  -- `TruncateFile` of an inode: the blocks go before the size changes.
  unfoldable pub truncate_inode : Inode → ℕ → ℕ → FileSystemMaster → FileSystemMaster × StatusCode
  truncate_inode inode new_size now m =
      if inode.is_directory
      then (m, k_invalid_argument)
      else let (tree, status) = Change.update_size db inode.id new_size now m.inode_tree in
        (
          record m {
            inode_tree = tree;
            block_master = shrink_blocks inode new_size m.block_master;
          },
          status,
        )

  unfoldable pub truncate_file : List ℕ → ℕ → ℕ → FileSystemMaster → FileSystemMaster × StatusCode
  unfolding truncate_inode
  truncate_file path new_size now m = elim (get_inode_by_path db path m.inode_tree) [
    | failed status ↦ (m, status)
    | fault ↦ (m, k_internal)
    | done inode ↦ truncate_inode inode new_size now m
  ]

  abbrev pub get_block_locations : List ℕ → FileSystemMaster → List BlockLocationInfo
  get_block_locations block_ids m = BlockMaster.get_block_locations block_ids m.block_master

  abbrev pub report_block_location : ℕ → ℕ → List ℕ → TierType → FileSystemMaster → FileSystemMaster
  report_block_location block_id worker_id address tier m = record m {
    block_master = BlockMaster.add_block_location block_id worker_id address tier m.block_master;
  }

  abbrev pub register_worker : ℕ → List ℕ → ℕ → ℕ → FileSystemMaster → FileSystemMaster × ℕ
  register_worker now address capacity used m =
      let (workers, id) = WorkerManager.register_worker now address capacity used m.worker_mgr in
      (record m { worker_mgr = workers }, id)

  abbrev pub worker_heartbeat : ℕ → ℕ → ℕ → ℕ → FileSystemMaster → FileSystemMaster × StatusCode
  worker_heartbeat now id capacity used m =
      let (workers, status) = WorkerManager.heartbeat now id capacity used m.worker_mgr in
      (record m { worker_mgr = workers }, status)
