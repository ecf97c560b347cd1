-- ===== src/Master/FileSystemMaster/Blocks.antt =====
-- Which blocks the calls of the master remove.
use any_cache.Base.{
  ℕ, zero, suc, ◌+◌, ◌-◌, ◌≤◌, ◌≡◌, ap, ◌∙◌, Bool, false, ◌&&◌, some, List, ltb, leb, ◌==◌,
  if◌then◌else◌, ite, ℕ_discrete, arith, Option-cases, inl, inr,
}
use any_cache.Common.Status.{StatusCode, done}
use any_cache.Common.BlockIds.{
  make_block_id, get_block_count, get_inode_id, get_block_index, max_inode_id, block_index_span,
}
use any_cache.Common.Database.{Database}
use any_cache.Master.Inode.{Inode}
use any_cache.Master.InodeTree.{get_inode_by_path}
use any_cache.Master.InodeTree.Remove.{delete}
use any_cache.Master.InodeTree.Change.{update_size}
use any_cache.Master.BlockMaster.{BlockMaster, remove_block}
use any_cache.Master.BlockMaster.Relation.{located}
use any_cache.Master.BlockMaster.History.{lose_block_located}
use any_cache.Master.FileSystemMaster.{
  FileSystemMaster, remove_blocks, delete_file, truncate_file, truncate_inode,
}

-- A block of the inode, with an index from `first` on and below `last`.
abbrev pub in_range : ℕ → ℕ → ℕ → ℕ → Bool
in_range inode_id first last b =
    get_inode_id b == inode_id && (leb first (get_block_index b) && ltb (get_block_index b) last)

-- Where the blocks of a range are after all of them are lost.
abbrev pub without_range : ℕ → ℕ → ℕ → (ℕ → Bool) → ℕ → Bool
without_range inode_id first last at b = if in_range inode_id first last b then false else at b

range-empty : (inode_id first b : ℕ) → in_range inode_id first (first + 0) b ≡ false
unfolding get_inode_id get_block_index
range-empty inode_id first b = ground arith

-- The first block of a range, and the others.
range-step :
    (inode_id first count b : ℕ) (at : Bool)
    → inode_id ≤ max_inode_id
    → first + suc count ≤ block_index_span
    → (if in_range inode_id (suc first) (suc first + count) b
        then false
        else ite (ℕ_discrete (make_block_id inode_id first) b) false at)
      ≡ (if in_range inode_id first (first + suc count) b then false else at)
unfolding make_block_id get_inode_id get_block_index
range-step inode_id first count b at known bound = ground (arith, known, bound)

pub located-remove_blocks :
    (inode_id first count : ℕ) (s : BlockMaster) (b w : ℕ)
    → inode_id ≤ max_inode_id
    → first + count ≤ block_index_span
    → located b w (remove_blocks inode_id first count s)
      ≡ without_range inode_id first (first + count) (λ c. located c w s) b
unfolding remove_blocks
located-remove_blocks inode_id first zero s b w known bound =
    ground (arith, range-empty inode_id first b)
located-remove_blocks inode_id first (suc count) s b w known bound =
    located-remove_blocks inode_id (suc first) count (remove_block (make_block_id inode_id first) s)
      b w known (omega arith)
    ∙ ap (λ at. if in_range inode_id (suc first) (suc first + count) b then false else at)
        (lose_block_located (make_block_id inode_id first) s b w)
    ∙ range-step inode_id first count b (located b w s) known bound

module _ (db : Database) where
  -- Truncating a file takes exactly the blocks from the new count of blocks on out of the index of
  -- locations where the new size is smaller, and no block where it is not; it leaves the workers
  -- alone, and the tree and the status are those of the update of the size. The path leads to the
  -- file, and its id and its counts of blocks are within the layout of block ids.
  pub located-truncate_file :
      (path : List ℕ) (new_size now : ℕ) (m : FileSystemMaster db) (inode : Inode) (b w : ℕ)
      → get_inode_by_path db path m.inode_tree ≡ done inode
      → inode.is_directory ≡ false
      → inode.id ≤ max_inode_id
      → get_block_count inode.size inode.block_size ≤ block_index_span
      → get_block_count new_size inode.block_size ≤ block_index_span
      → (located b w (truncate_file db path new_size now m).0.block_master ≡ (
          if ltb new_size inode.size
          then without_range inode.id
              (get_block_count new_size inode.block_size)
              (get_block_count inode.size inode.block_size)
              (λ c. located c w m.block_master)
              b
          else located b w m.block_master))
        × ((truncate_file db path new_size now m).0.worker_mgr ≡ m.worker_mgr)
        × ((truncate_file db path new_size now m).0.inode_tree
            ≡ (update_size db inode.id new_size now m.inode_tree).0)
        × ((truncate_file db path new_size now m).1
            ≡ (update_size db inode.id new_size now m.inode_tree).1)
  unfolding truncate_file truncate_inode
  located-truncate_file path new_size now m inode b w is_inode is_file known bound new_bound =
      let new = get_block_count new_size inode.block_size in
      let old = get_block_count inode.size inode.block_size in
      let gone =
        located-remove_blocks inode.id new (old - new) m.block_master b w known (omega arith) in
      (
        ground (arith, is_inode, is_file, gone),
        ground (arith, is_inode, is_file),
        ground (arith, is_inode, is_file),
        ground (arith, is_inode, is_file),
      )

  -- Deleting a file takes all of its blocks, and no other, out of the index of locations, also where
  -- the deletion of the inode fails, and leaves the workers alone. The path leads to the file, and
  -- its id and its count of blocks are within the layout of block ids.
  pub located-delete_file :
      (fuel : ℕ) (path : List ℕ) (recursive : Bool) (m : FileSystemMaster db) (inode : Inode)
      (r : FileSystemMaster db × StatusCode) (b w : ℕ)
      → get_inode_by_path db path m.inode_tree ≡ done inode
      → inode.is_directory ≡ false
      → inode.id ≤ max_inode_id
      → get_block_count inode.size inode.block_size ≤ block_index_span
      → delete_file db fuel path recursive m ≡ some r
      → (located b w r.0.block_master
          ≡ without_range inode.id 0
              (get_block_count inode.size inode.block_size)
              (λ c. located c w m.block_master)
              b)
        × (r.0.worker_mgr ≡ m.worker_mgr)
  unfolding delete_file
  located-delete_file fuel path recursive m inode r b w is_inode is_file known bound h =
      let count = get_block_count inode.size inode.block_size in
      let gone = located-remove_blocks inode.id 0 count m.block_master b w known (omega arith) in
      elim (Option-cases (delete db fuel path recursive m.inode_tree)) [
        | inl none_left ↦ absurd (ground (arith, h, none_left))
        | inr (after, deleted) ↦ (
          ground (arith, is_inode, is_file, gone, h, deleted),
          ground (arith, is_inode, is_file, h, deleted),
        )
      ]
