-- ===== src/Master/FileSystemMaster/Tests.antt =====
-- A file of one block in a directory: the theorems on it, and the block that a deletion of the
-- directory leaves behind.
use any_cache.Base.{
  refl, false, erase, ℕ, ◌+◌, ◌≤◌, ◌<◌, ◌≡◌, refl, true, false, some, List, [], ◌∷◌, find, insert,
  get_or, arith, u64, ℕ_discrete, nat_key, if◌then◌else◌, ◌-u64◌, ◌+u64◌, ltb, length, erase, ite,
}
use any_cache.Common.Status.{StatusCode, k_ok, done}
use any_cache.Common.Tier.{k_memory}
use any_cache.Common.BlockIds.{make_block_id, get_block_count, max_inode_id, block_index_span}
use any_cache.Common.Database.{Database}
use any_cache.Common.MapDatabase.{map_database}
use any_cache.Master.Inode.{Inode}
use any_cache.Master.OwnerGroupDict.{Name-discrete}
use any_cache.Master.InodeTree.{new_tree, split_path, resolve_parts, node_at, get_inode_by_path}
use any_cache.Master.InodeTree.Remove.{delete}
use any_cache.Master.InodeTree.Change.{update_size, sized, completed}
use any_cache.Master.InodeTree.Change
use any_cache.Master.InodeTree.Create
use any_cache.Master.InodeTree.Fresh.{new_tree-IsValid}
use any_cache.Master.InodeTree.Creation.{IsValid, create_file-Resolves}
use any_cache.Master.InodeTree.Directories.{create_directory-Resolves}
use any_cache.Master.InodeTree.Sizes.{sizes_lem}
use any_cache.Master.BlockMaster.{no_blocks, add_block_location}
use any_cache.Master.BlockMaster.Relation.{located}
use any_cache.Master.WorkerManager.{no_workers}
use any_cache.Master.FileSystemMaster.{
  FileSystemMaster, create_file, complete_file, delete_file, mkdir, truncate_file,
  report_block_location,
}
use any_cache.Master.FileSystemMaster.Blocks.{
  without_range, located-delete_file, located-truncate_file,
}

abbrev db : Database
db = map_database [] []

-- `/a` and `/a/b`.
abbrev path_a : List ℕ
path_a = 47 ∷ 97 ∷ []

abbrev path_b : List ℕ
path_b = 47 ∷ 97 ∷ 47 ∷ 98 ∷ []

abbrev clock : ℕ → ℕ
clock n = 1000 + n

abbrev fresh : FileSystemMaster db
fresh = record {
  inode_tree = new_tree db 1000;
  block_master = no_blocks;
  worker_mgr = no_workers 5000;
}

abbrev with_directory : FileSystemMaster db
with_directory = (mkdir db path_a 493 false clock fresh).0

abbrev with_file : FileSystemMaster db
with_file = (create_file db path_b 420 2000 with_directory).0

abbrev block : ℕ
block = make_block_id 3 0

abbrev master : FileSystemMaster db
master = report_block_location db block 1 [] k_memory (complete_file db 3 100 2001 with_file).0

abbrev file : Inode
file = node_at 3 master.inode_tree.dir_inodes

abbrev directory : Inode
directory = node_at 2 master.inode_tree.dir_inodes

file_found : get_inode_by_path db path_b master.inode_tree ≡ done file
unfolding get_inode_by_path resolve_parts create_file mkdir new_tree split_path find insert
    ℕ_discrete Name-discrete Change.complete_file Create.create_file Create.create_directory
file_found = refl

is_file : file.is_directory ≡ false
unfolding get_inode_by_path resolve_parts create_file mkdir new_tree split_path find insert
    ℕ_discrete Name-discrete Change.complete_file Create.create_file Create.create_directory
is_file = refl

id_three : file.id ≡ 3
unfolding get_inode_by_path resolve_parts create_file mkdir new_tree split_path find insert
    ℕ_discrete Name-discrete Change.complete_file Create.create_file Create.create_directory
id_three = refl

small_id : file.id ≤ max_inode_id
small_id = omega (arith, id_three)

one_block : get_block_count file.size file.block_size ≡ 1
unfolding get_inode_by_path resolve_parts create_file mkdir new_tree split_path find insert
    ℕ_discrete Name-discrete Change.complete_file Create.create_file Create.create_directory
    get_block_count ◌-u64◌ ◌+u64◌
one_block = refl

no_block : get_block_count 0 file.block_size ≡ 0
unfolding get_block_count
no_block = refl

bound : get_block_count file.size file.block_size ≤ block_index_span
bound = omega (arith, one_block)

located-truncate_file_example :
    (located block 1 (truncate_file db path_b 0 3000 master).0.block_master ≡ (
      if ltb 0 file.size
      then without_range file.id
          (get_block_count 0 file.block_size)
          (get_block_count file.size file.block_size)
          (λ c. located c 1 master.block_master)
          block
      else located block 1 master.block_master))
    × ((truncate_file db path_b 0 3000 master).0.worker_mgr ≡ master.worker_mgr)
    × ((truncate_file db path_b 0 3000 master).0.inode_tree
        ≡ (update_size db file.id 0 3000 master.inode_tree).0)
    × ((truncate_file db path_b 0 3000 master).1
        ≡ (update_size db file.id 0 3000 master.inode_tree).1)
located-truncate_file_example =
    located-truncate_file db path_b 0 3000 master file block 1 file_found is_file small_id bound
      (omega (arith, no_block))

abbrev after_delete : FileSystemMaster db × StatusCode
after_delete = get_or (delete_file db 3 path_b false master) (master, k_ok)

deleted : delete_file db 3 path_b false master ≡ some after_delete
unfolding get_inode_by_path resolve_parts create_file mkdir new_tree split_path find insert
    ℕ_discrete Name-discrete Change.complete_file Create.create_file Create.create_directory
    delete_file delete erase
deleted = refl

located-delete_file_example :
    (located block 1 after_delete.0.block_master
      ≡ without_range file.id 0
          (get_block_count file.size file.block_size)
          (λ c. located c 1 master.block_master)
          block)
    × (after_delete.0.worker_mgr ≡ master.worker_mgr)
located-delete_file_example =
    located-delete_file db 3 path_b false master file after_delete block 1 file_found is_file
      small_id bound deleted

mkdir_ids : fresh.inode_tree.next_id + length (split_path path_a) < u64
unfolding new_tree split_path
mkdir_ids = omega arith

with_directory-IsValid : IsValid db with_directory.inode_tree
unfolding mkdir
with_directory-IsValid =
    (create_directory-Resolves db path_a 493 false clock (new_tree db 1000)
      (new_tree-IsValid db 1000) mkdir_ids).0.valid

next_three : with_directory.inode_tree.next_id ≡ 3
unfolding get_inode_by_path resolve_parts create_file mkdir new_tree split_path find insert
    ℕ_discrete Name-discrete Change.complete_file Create.create_file Create.create_directory
next_three = refl

with_file-IsValid : IsValid db with_file.inode_tree
unfolding create_file
with_file-IsValid =
    (create_file-Resolves db path_b 420 2000 with_directory.inode_tree with_directory-IsValid
      (omega (arith, next_three))).0.valid

abbrev begun : Inode
begun = node_at 3 with_file.inode_tree.dir_inodes

begun_found : find 3 with_file.inode_tree.dir_inodes ≡ some begun
unfolding get_inode_by_path resolve_parts create_file mkdir new_tree split_path find insert
    ℕ_discrete Name-discrete Change.complete_file Create.create_file Create.create_directory
begun_found = refl

begun_file : begun.is_directory ≡ false
unfolding get_inode_by_path resolve_parts create_file mkdir new_tree split_path find insert
    ℕ_discrete Name-discrete Change.complete_file Create.create_file Create.create_directory
begun_file = refl

sizes_lem_runs :
    ((update_size db 3 100 2001 with_file.inode_tree).1 ≡ k_ok)
    × (IsValid db (update_size db 3 100 2001 with_file.inode_tree).0)
    × (find 3 (update_size db 3 100 2001 with_file.inode_tree).0.dir_inodes
        ≡ ite
            (ℕ_discrete 3 3)
            (some (sized 100 2001 begun))
            (find 3 with_file.inode_tree.dir_inodes))
    × ((Change.complete_file db 3 100 2001 with_file.inode_tree).1 ≡ k_ok)
    × (IsValid db (Change.complete_file db 3 100 2001 with_file.inode_tree).0)
    × (find 3 (Change.complete_file db 3 100 2001 with_file.inode_tree).0.dir_inodes
        ≡ ite
            (ℕ_discrete 3 3)
            (some (completed 100 2001 begun))
            (find 3 with_file.inode_tree.dir_inodes))
sizes_lem_runs =
    sizes_lem db 3 100 2001 begun with_file.inode_tree 3 with_file-IsValid begun_found begun_file

directory_found : get_inode_by_path db path_a master.inode_tree ≡ done directory
unfolding get_inode_by_path resolve_parts create_file mkdir new_tree split_path find insert
    ℕ_discrete Name-discrete Change.complete_file Create.create_file Create.create_directory
directory_found = refl

is_directory : directory.is_directory ≡ true
unfolding get_inode_by_path resolve_parts create_file mkdir new_tree split_path find insert
    ℕ_discrete Name-discrete Change.complete_file Create.create_file Create.create_directory
is_directory = refl

abbrev after_directory : FileSystemMaster db × StatusCode
after_directory = get_or (delete_file db 3 path_a true master) (master, k_ok)

directory_deleted : delete_file db 3 path_a true master ≡ some after_directory
unfolding get_inode_by_path resolve_parts create_file mkdir new_tree split_path find insert
    ℕ_discrete Name-discrete Change.complete_file Create.create_file Create.create_directory
    delete_file delete erase
directory_deleted = refl

-- The deletion succeeds, and the block of the file that was in the directory is still located.
directory_ok : after_directory.1 ≡ k_ok
unfolding get_inode_by_path resolve_parts create_file mkdir new_tree split_path find insert
    ℕ_discrete Name-discrete Change.complete_file Create.create_file Create.create_directory
    delete_file delete erase
directory_ok = refl

still_located : located block 1 after_directory.0.block_master ≡ true
unfolding get_inode_by_path resolve_parts create_file mkdir new_tree split_path find insert
    ℕ_discrete Name-discrete Change.complete_file Create.create_file Create.create_directory
    delete_file delete erase located no_blocks add_block_location make_block_id
still_located = refl
