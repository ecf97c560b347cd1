-- ===== src/Master/FileSystemMaster/Lifecycle.antt =====
-- The deletion of a file, over the parts of the master.
use any_cache.Base.{
  find, none, ℕ, ◌≤◌, ◌<◌, ◌≡◌, ◌≢◌, ◌⊎◌, inl, inr, refl, Bool, true, false, some, List, arith,
  Option-cases, nat_key,
}
use any_cache.Common.Status.{StatusCode, done, is_ok}
use any_cache.Common.BlockIds.{
  make_block_id, get_block_count, max_inode_id, block_index_span, get-make_block_id,
}
use any_cache.Common.Database.{Database}
use any_cache.Master.Inode.{Inode}
use any_cache.Master.InodeTree.{InodeTree, get_inode_by_path, split_path, resolve_parts}
use any_cache.Master.InodeTree.Remove.{delete}
use any_cache.Master.InodeStore.{InodeStore}
use any_cache.Master.InodeTree.StoredFiles.{delete-stored_file}
use any_cache.Master.BlockMaster.Relation.{located}
use any_cache.Master.FileSystemMaster.{FileSystemMaster, delete_file}
use any_cache.Master.FileSystemMaster.Blocks.{in_range, located-delete_file}

in_range-make_block_id :
    (inode_id last i : ℕ)
    → inode_id ≤ max_inode_id
    → last ≤ block_index_span
    → i < last
    → in_range inode_id 0 last (make_block_id inode_id i) ≡ true
in_range-make_block_id inode_id last i known bound below =
    let (id, index, small) = get-make_block_id inode_id i known (omega arith) in
    ground (arith, id, index, below)

module _ (db : Database) where
  -- A path that resolves to nothing has no inode.
  no_inode :
      (path : List ℕ) (t : InodeTree db) (inode : Inode)
      → ((id : ℕ) → resolve_parts (split_path path) t.root_id t.dir_inodes ≢ inr id)
      → get_inode_by_path db path t ≢ done inode
  unfolding get_inode_by_path
  no_inode path t inode gone = go (resolve_parts (split_path path) t.root_id t.dir_inodes) refl
    where
      go :
          (found : StatusCode ⊎ ℕ)
          → resolve_parts (split_path path) t.root_id t.dir_inodes ≡ found
          → get_inode_by_path db path t ≢ done inode
      go (inl status) resolves h = absurd (ground (arith, resolves, h))
      go (inr id) resolves h = absurd (gone id resolves)

  tree-delete_file :
      (fuel : ℕ) (path : List ℕ) (recursive : Bool) (m : FileSystemMaster db)
      (r : FileSystemMaster db × StatusCode)
      → delete_file db fuel path recursive m ≡ some r
      → delete db fuel path recursive m.inode_tree ≡ some (r.0.inode_tree, r.1)
  unfolding delete_file
  tree-delete_file fuel path recursive m r h =
      elim (Option-cases (delete db fuel path recursive m.inode_tree)) [
        | inl none_left ↦ absurd (ground (arith, h, none_left))
        | inr (after, deleted) ↦ ground (arith, h, deleted)
      ]

  -- In a tree with a store memory has directories only.
  abbrev pub HasDirectoriesOnly : InodeTree db → Type 0
  HasDirectoriesOnly t =
      (id : ℕ) (node : Inode) → find id t.dir_inodes ≡ some node → node.is_directory ≡ true

  -- The file of a path is in the store and not in memory.
  file_absent :
      (path : List ℕ) (t : InodeTree db) (inode : Inode)
      → HasDirectoriesOnly t
      → get_inode_by_path db path t ≡ done inode
      → inode.is_directory ≡ false
      → (id : ℕ) × (resolve_parts (split_path path) t.root_id t.dir_inodes ≡ inr id)
        × (find id t.dir_inodes ≡ none)
  unfolding get_inode_by_path
  file_absent path t inode only h is_file =
      go (resolve_parts (split_path path) t.root_id t.dir_inodes) refl
    where
      go :
          (found : StatusCode ⊎ ℕ)
          → resolve_parts (split_path path) t.root_id t.dir_inodes ≡ found
          → (id : ℕ) × (resolve_parts (split_path path) t.root_id t.dir_inodes ≡ inr id)
            × (find id t.dir_inodes ≡ none)
      go (inl status) resolves = absurd (ground (arith, resolves, h))
      go (inr id) resolves = elim (Option-cases (find id t.dir_inodes)) [
        | inl miss ↦ (id, resolves, miss)
        | inr (node, hit) ↦ absurd (ground (arith, resolves, h, hit, only id node hit, is_file))
      ]

  -- On a master with a store, as `Init` leaves it, whose memory has directories only: after a deletion
  -- of a file that succeeds, no worker is left in the index of locations for any block of the file,
  -- and asking for the file's information gives no inode. The id and the count of blocks are within
  -- the layout of block ids.
  pub delete_file-Gone :
      (fuel : ℕ) (path : List ℕ) (recursive : Bool) (store : InodeStore db)
      (m : FileSystemMaster db) (inode : Inode) (r : FileSystemMaster db × StatusCode) (i w : ℕ)
      (found : Inode)
      → m.inode_tree.store ≡ some store
      → HasDirectoriesOnly m.inode_tree
      → get_inode_by_path db path m.inode_tree ≡ done inode
      → inode.is_directory ≡ false
      → inode.id ≤ max_inode_id
      → get_block_count inode.size inode.block_size ≤ block_index_span
      → i < get_block_count inode.size inode.block_size
      → delete_file db fuel path recursive m ≡ some r
      → is_ok r.1 ≡ true
      → (located (make_block_id inode.id i) w r.0.block_master ≡ false)
        × (get_inode_by_path db path r.0.inode_tree ≢ done found)
  delete_file-Gone fuel path recursive store m inode r i w found has_store only is_inode is_file
        known bound below h succeeded =
      let b = make_block_id inode.id i in
      let count = get_block_count inode.size inode.block_size in
      let (blocks, workers) =
        located-delete_file db fuel path recursive m inode r b w is_inode is_file known bound h in
      let deleted = tree-delete_file fuel path recursive m r h in
      let (id, resolves, absent_) = file_absent path m.inode_tree inode only is_inode is_file in
      (
        ground (arith, blocks, in_range-make_block_id inode.id count i known bound below),
        no_inode path r.0.inode_tree found (λ j.
            delete-stored_file db fuel path recursive store m.inode_tree id j (r.0.inode_tree, r.1)
              has_store resolves absent_ deleted succeeded),
      )
