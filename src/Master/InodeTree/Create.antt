-- ===== src/Master/InodeTree/Create.antt =====
-- `CreateFile` and `CreateDirectory` of src/master/inode_tree.cpp. A result holds the tree, the
-- status and what was written to `out_id`.
use any_cache.Base.{
  ℕ, suc, Bool, true, false, not, ◌&&◌, Option, none, some, List, [], ◌∷◌, insert, find, has,
  if◌then◌else◌, nat_key,
}
use any_cache.Common.Status.{
  StatusCode, k_ok, k_not_found, k_invalid_argument, k_already_exists, is_ok,
}
use any_cache.Common.Database.{Database}
use any_cache.Master.Inode.{Name, Inode, new_inode}
use any_cache.Master.OwnerGroupDict.{name_key}
use any_cache.Master.InodeStore.{InodeStore, commit_batch, batch_put_inode, batch_put_edge}
use any_cache.Master.InodeTree.{
  InodeTree, split_path, split_last, walk_parts, node_at, touch, update, with_child, allocate_id,
}

abbrev pub new_file : ℕ → ℕ → Name → ℕ → ℕ → Inode
new_file id parent_id name mode now = record new_inode {
  id = id;
  parent_id = parent_id;
  name = name;
  mode = mode;
  creation_time_ms = now;
  modification_time_ms = now;
  is_complete = false;
}

abbrev pub new_directory : ℕ → ℕ → Name → ℕ → ℕ → Inode
new_directory id parent_id name mode now = record new_inode {
  id = id;
  parent_id = parent_id;
  name = name;
  is_directory = true;
  mode = mode;
  creation_time_ms = now;
  modification_time_ms = now;
}

abbrev pub is_last : List Name → Bool
is_last [] = true
is_last (part ∷ parts) = false

module _ (db : Database) where
  -- One batch with a new inode and its edge.
  unfoldable pub commit_new : Inode → InodeStore db → InodeStore db × StatusCode
  commit_new inode store =
      let (dict, batch) = batch_put_inode inode.id inode store.dict [] in
      commit_batch db (batch_put_edge inode.parent_id inode.name inode.id batch)
        (record store { dict = dict })

  -- The parent gets a child; without a store the child goes into memory too.
  unfoldable pub add_file : Inode → InodeTree db → InodeTree db × StatusCode × Option ℕ
  unfolding commit_new update
  add_file inode t = elim t.store [
    | none ↦ (
      record t {
        dir_inodes =
            insert inode.id inode
              (update inode.parent_id (with_child inode.name inode.id) t.dir_inodes);
      },
      k_ok,
      some inode.id,
    )
    | some store ↦
        let (store', status) = commit_new inode store in
        if is_ok status
        then (
          record t {
            dir_inodes = update inode.parent_id (with_child inode.name inode.id) t.dir_inodes;
            store = some store';
          },
          k_ok,
          some inode.id,
        )
        else (record t { store = some store' }, status, none)
  ]

  unfoldable pub create_in : ℕ → Name → ℕ → ℕ → InodeTree db → InodeTree db × StatusCode × Option ℕ
  unfolding add_file allocate_id
  create_in parent_id name mode now t =
      let parent = node_at parent_id t.dir_inodes in
      if not parent.is_directory
      then (t, k_invalid_argument, none)
      else if has name parent.children
      then (t, k_already_exists, none)
      else let (t', new_id) = allocate_id db t in
        add_file (new_file new_id parent_id name mode now) t'

  -- What the loop over the directories of the path found.
  unfoldable pub create_below :
      Option ℕ → Name → ℕ → ℕ → InodeTree db → InodeTree db × StatusCode × Option ℕ
  unfolding create_in touch
  create_below none name mode now t = (t, k_not_found, none)
  create_below (some parent_id) name mode now t =
      create_in parent_id name mode now (record t { dir_inodes = touch parent_id t.dir_inodes })

  unfoldable pub create_parts :
      List Name → ℕ → ℕ → InodeTree db → InodeTree db × StatusCode × Option ℕ
  unfolding create_below split_last walk_parts
  create_parts [] mode now t = (t, k_invalid_argument, none)
  create_parts (part ∷ parts) mode now t =
      let (front, name) = split_last part parts in
      create_below (walk_parts front t.root_id t.dir_inodes) name mode now t

  unfoldable pub create_file : List ℕ → ℕ → ℕ → InodeTree db → InodeTree db × StatusCode × Option ℕ
  unfolding create_parts split_path
  create_file path mode now t = create_parts (split_path path) mode now t

  -- A new directory is persisted first where there is a store, then added to memory.
  unfoldable pub add_directory : Inode → InodeTree db → InodeTree db × StatusCode
  unfolding commit_new update
  add_directory inode t =
      let dirs =
        insert inode.id inode
          (update inode.parent_id (with_child inode.name inode.id) t.dir_inodes) in
      elim t.store [
        | none ↦ (record t { dir_inodes = dirs }, k_ok)
        | some store ↦
            let (store', status) = commit_new inode store in
            if is_ok status
            then (record t { dir_inodes = dirs; store = some store' }, k_ok)
            else (record t { store = some store' }, status)
      ]

  -- The rest of the loop of `CreateDirectory`, from the next directory on.
  abbrev pub Loop : Type 0
  Loop = ℕ → InodeTree db → InodeTree db × StatusCode × Option ℕ

  unfoldable pub continue_made :
      Loop → ℕ → InodeTree db × StatusCode → InodeTree db × StatusCode × Option ℕ
  continue_made continue_ new_id (made, status) =
      if is_ok status then continue_ new_id made else (made, status, none)

  -- On the child that a part of the path names, where there is one.
  unfoldable pub make_child :
      Loop
      → Option ℕ
      → Name
      → Bool
      → ℕ
      → ℕ
      → Bool
      → ℕ
      → InodeTree db
      → InodeTree db × StatusCode × Option ℕ
  unfolding add_directory allocate_id continue_made
  make_child continue_ (some child) part last current mode recursive now t =
      if last then (t, k_already_exists, some child) else continue_ child t
  make_child continue_ none part last current mode recursive now t =
      if not recursive && not last
      then (t, k_not_found, none)
      else let (t', new_id) = allocate_id db t in
        continue_made continue_ new_id
          (add_directory (new_directory new_id current part mode now) t')

  unfoldable pub make_step :
      Loop → Name → Bool → ℕ → ℕ → Bool → ℕ → InodeTree db → InodeTree db × StatusCode × Option ℕ
  unfolding make_child
  make_step continue_ part last current mode recursive now t =
      let node = node_at current t.dir_inodes in
      if not node.is_directory
      then (t, k_invalid_argument, none)
      else make_child continue_ (find part node.children) part last current mode recursive now t

  -- The loop of `CreateDirectory`; the clock is read once for each directory made.
  unfoldable pub make_directories :
      List Name → ℕ → ℕ → Bool → (ℕ → ℕ) → InodeTree db → InodeTree db × StatusCode × Option ℕ
  unfolding make_step touch
  make_directories [] current mode recursive clock t = (t, k_ok, some current)
  make_directories (part ∷ parts) current mode recursive clock t =
      make_step (λ id t'. make_directories parts id mode recursive (λ n. clock (suc n)) t') part
        (is_last parts) current mode recursive (clock 0)
        (record t { dir_inodes = touch current t.dir_inodes })

  unfoldable pub create_directory_parts :
      List Name → ℕ → Bool → (ℕ → ℕ) → InodeTree db → InodeTree db × StatusCode × Option ℕ
  unfolding make_directories
  create_directory_parts [] mode recursive clock t = (t, k_ok, some t.root_id)
  create_directory_parts (part ∷ parts) mode recursive clock t =
      make_directories (part ∷ parts) t.root_id mode recursive clock t

  unfoldable pub create_directory :
      List ℕ → ℕ → Bool → (ℕ → ℕ) → InodeTree db → InodeTree db × StatusCode × Option ℕ
  unfolding create_directory_parts split_path
  create_directory path mode recursive clock t =
      create_directory_parts (split_path path) mode recursive clock t
