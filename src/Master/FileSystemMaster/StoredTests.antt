-- ===== src/Master/FileSystemMaster/StoredTests.antt =====
-- The deletion of a file on a master that `Init` has given its store.
use any_cache.Base.{
  ℕ, ◌+◌, ◌≡◌, ◌≢◌, ◌-u64◌, ◌+u64◌, refl, true, false, some, List, [], ◌∷◌, find, find-All, insert,
  erase, get_or, arith, ℕ_discrete, nat_key,
}
use any_cache.Common.Status.{StatusCode, Reply, is_ok, k_ok, done, failed, fault}
use any_cache.Common.Tier.{k_memory}
use any_cache.Common.BlockIds.{make_block_id, get_block_count}
use any_cache.Common.Database.{Database, ColumnFamily-discrete, Bytes-discrete, written}
use any_cache.Common.MapDatabase.{map_database, no_rows}
use any_cache.Master.Inode.{Inode, new_inode}
use any_cache.Master.OwnerGroupDict.{Name-discrete, get_or_add, lookup}
use any_cache.Master.InodeEntry.{
  encode_big_endian64, serialize_inode_entry, deserialize_inode_entry,
}
use any_cache.Master.InodeStore.{
  InodeStore, get_inode, get_next_id, commit_batch, batch_put_inode, scan_directory_inodes,
  scan_all_edges,
}
use any_cache.Master.InodeTree.{new_tree, split_path, resolve_parts, get_inode_by_path}
use any_cache.Master.InodeTree.Create
use any_cache.Master.InodeTree.Change
use any_cache.Master.InodeTree.Recover
use any_cache.Master.InodeTree.Remove.{delete}
use any_cache.Master.BlockMaster.{no_blocks}
use any_cache.Master.BlockMaster.Relation.{located}
use any_cache.Master.WorkerManager.{no_workers}
use any_cache.Master.FileSystemMaster.{
  FileSystemMaster, init, create_file, complete_file, delete_file, mkdir, report_block_location,
}
use any_cache.Master.FileSystemMaster.Lifecycle.{HasDirectoriesOnly, delete_file-Gone}

abbrev db : Database
db = map_database [] []

-- `/a` and `/a/b`.
abbrev path_a : List ℕ
path_a = 47 ∷ 97 ∷ []

abbrev path_b : List ℕ
path_b = 47 ∷ 97 ∷ 47 ∷ 98 ∷ []

abbrev clock : ℕ → ℕ
clock n = 1000 + n

abbrev fresh : FileSystemMaster db
fresh = record {
  inode_tree = new_tree db 1000;
  block_master = no_blocks;
  worker_mgr = no_workers 5000;
}

abbrev store : InodeStore db
store = record {
  handle = no_rows;
  dict = record {
    owners = record { names = []; ids = []; dirty = false };
    groups = record { names = []; ids = []; dirty = false };
  };
}

abbrev started : FileSystemMaster db
started = (init db 1000 (done store) fresh).0

abbrev stored_file : FileSystemMaster db
stored_file = (create_file db path_b 420 2000 (mkdir db path_a 493 false clock started).0).0

abbrev stored_master : FileSystemMaster db
stored_master =
    report_block_location db (make_block_id 3 0) 1 [] k_memory
      (complete_file db 3 100 2001 stored_file).0

abbrev store_after : InodeStore db
store_after = get_or stored_master.inode_tree.store store

store_held : stored_master.inode_tree.store ≡ some store_after
unfolding get_inode_by_path resolve_parts create_file mkdir new_tree split_path find insert
    ℕ_discrete Name-discrete Change.complete_file Create.create_file Create.create_directory init
    Recover.recover scan_directory_inodes scan_all_edges commit_batch get_next_id get_inode written
    batch_put_inode serialize_inode_entry get_or_add ColumnFamily-discrete Bytes-discrete
    encode_big_endian64 deserialize_inode_entry lookup
store_held = refl

directories_only : HasDirectoriesOnly db stored_master.inode_tree
unfolding get_inode_by_path resolve_parts create_file mkdir new_tree split_path find insert
    ℕ_discrete Name-discrete Change.complete_file Create.create_file Create.create_directory init
    Recover.recover scan_directory_inodes scan_all_edges commit_batch get_next_id get_inode written
    batch_put_inode serialize_inode_entry get_or_add ColumnFamily-discrete Bytes-discrete
    encode_big_endian64 deserialize_inode_entry lookup
directories_only id node h =
    find-All (λ (e : ℕ × Inode). e.1.is_directory ≡ true) stored_master.inode_tree.dir_inodes id
      node (refl, (refl, tt)) h

abbrev inode_of : Reply Inode → Inode
inode_of (done inode) = inode
inode_of (failed status) = new_inode
inode_of fault = new_inode

abbrev file : Inode
file = inode_of (get_inode_by_path db path_b stored_master.inode_tree)

file_found : get_inode_by_path db path_b stored_master.inode_tree ≡ done file
unfolding get_inode_by_path resolve_parts create_file mkdir new_tree split_path find insert
    ℕ_discrete Name-discrete Change.complete_file Create.create_file Create.create_directory init
    Recover.recover scan_directory_inodes scan_all_edges commit_batch get_next_id get_inode written
    batch_put_inode serialize_inode_entry get_or_add ColumnFamily-discrete Bytes-discrete
    encode_big_endian64 deserialize_inode_entry lookup
file_found = refl

is_file : file.is_directory ≡ false
unfolding get_inode_by_path resolve_parts create_file mkdir new_tree split_path find insert
    ℕ_discrete Name-discrete Change.complete_file Create.create_file Create.create_directory init
    Recover.recover scan_directory_inodes scan_all_edges commit_batch get_next_id get_inode written
    batch_put_inode serialize_inode_entry get_or_add ColumnFamily-discrete Bytes-discrete
    encode_big_endian64 deserialize_inode_entry lookup
is_file = refl

id_three : file.id ≡ 3
unfolding get_inode_by_path resolve_parts create_file mkdir new_tree split_path find insert
    ℕ_discrete Name-discrete Change.complete_file Create.create_file Create.create_directory init
    Recover.recover scan_directory_inodes scan_all_edges commit_batch get_next_id get_inode written
    batch_put_inode serialize_inode_entry get_or_add ColumnFamily-discrete Bytes-discrete
    encode_big_endian64 deserialize_inode_entry lookup
id_three = refl

one_block : get_block_count file.size file.block_size ≡ 1
unfolding get_inode_by_path resolve_parts create_file mkdir new_tree split_path find insert
    ℕ_discrete Name-discrete Change.complete_file Create.create_file Create.create_directory init
    Recover.recover scan_directory_inodes scan_all_edges commit_batch get_next_id get_inode written
    batch_put_inode serialize_inode_entry get_or_add ColumnFamily-discrete Bytes-discrete
    encode_big_endian64 deserialize_inode_entry lookup get_block_count ◌-u64◌ ◌+u64◌
one_block = refl

abbrev after_delete : FileSystemMaster db × StatusCode
after_delete = get_or (delete_file db 3 path_b false stored_master) (stored_master, k_ok)

deleted : delete_file db 3 path_b false stored_master ≡ some after_delete
unfolding get_inode_by_path resolve_parts create_file mkdir new_tree split_path find insert
    ℕ_discrete Name-discrete Change.complete_file Create.create_file Create.create_directory init
    Recover.recover scan_directory_inodes scan_all_edges commit_batch get_next_id get_inode written
    batch_put_inode serialize_inode_entry get_or_add ColumnFamily-discrete Bytes-discrete
    encode_big_endian64 deserialize_inode_entry lookup delete_file delete erase
deleted = refl

deleted_ok : is_ok after_delete.1 ≡ true
unfolding get_inode_by_path resolve_parts create_file mkdir new_tree split_path find insert
    ℕ_discrete Name-discrete Change.complete_file Create.create_file Create.create_directory init
    Recover.recover scan_directory_inodes scan_all_edges commit_batch get_next_id get_inode written
    batch_put_inode serialize_inode_entry get_or_add ColumnFamily-discrete Bytes-discrete
    encode_big_endian64 deserialize_inode_entry lookup delete_file delete erase
deleted_ok = refl

delete_file-Gone_example :
    (located (make_block_id file.id 0) 1 after_delete.0.block_master ≡ false)
    × (get_inode_by_path db path_b after_delete.0.inode_tree ≢ done file)
delete_file-Gone_example =
    delete_file-Gone db 3 path_b false store_after stored_master file after_delete 0 1 file
      store_held directories_only file_found is_file (omega (arith, id_three))
      (omega (arith, one_block)) (omega (arith, one_block)) deleted deleted_ok
