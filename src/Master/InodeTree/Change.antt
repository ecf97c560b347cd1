-- ===== src/Master/InodeTree/Change.antt =====
-- `Rename`, `CompleteFile` and `UpdateSize` of src/master/inode_tree.cpp. `k_internal`, which the code
-- returns nowhere here, stands for a read past the end of a row, which `get_inode` never makes.
use any_cache.Base.{
  ℕ, Bool, true, false, not, Option, none, some, List, [], ◌∷◌, ◌⊎◌, inl, inr, find, has,
  if◌then◌else◌, nat_key,
}
use any_cache.Common.Status.{
  StatusCode, k_ok, k_not_found, k_invalid_argument, k_already_exists, k_internal, is_ok, done,
  failed, fault,
}
use any_cache.Common.Database.{Database}
use any_cache.Master.Inode.{Name, Inode}
use any_cache.Master.OwnerGroupDict.{name_key}
use any_cache.Master.InodeStore.{
  InodeStore, get_inode, commit_batch, batch_put_inode, batch_put_edge, batch_delete_edge,
}
use any_cache.Master.InodeTree.{
  InodeTree, Dirs, split_path, split_last, walk_parts, resolve_parts, node_at, touch, update,
  with_child,
}
use any_cache.Master.InodeTree.Remove.{without_child}

-- Where an inode is and where it goes.
pub record Move : Type 0 where
  pub src_id : ℕ
  pub old_parent_id : ℕ
  pub old_name : Name
  pub dst_parent_id : ℕ
  pub new_name : Name

abbrev pub moved : Move → Inode → Inode
moved m inode = record inode { parent_id = m.dst_parent_id; name = m.new_name }

-- The changes in the pure-memory mode.
unfoldable pub move_in_memory : Move → Dirs → Dirs
unfolding update
move_in_memory m dirs =
    update m.dst_parent_id (with_child m.new_name m.src_id)
      (update m.src_id (moved m) (update m.old_parent_id (without_child m.old_name) dirs))

-- The changes to memory when the batch is written.
unfoldable pub move_beside_store : Move → Bool → Dirs → Dirs
unfolding update
move_beside_store m is_dir dirs =
    let edges =
      update m.dst_parent_id (with_child m.new_name m.src_id)
        (update m.old_parent_id (without_child m.old_name) dirs) in
    if is_dir then update m.src_id (moved m) edges else edges

abbrev pub sized : ℕ → ℕ → Inode → Inode
sized size now inode = record inode { size = size; modification_time_ms = now }

abbrev pub completed : ℕ → ℕ → Inode → Inode
completed size now inode = record inode {
  size = size;
  is_complete = true;
  modification_time_ms = now;
}

module _ (db : Database) where
  -- One batch with an inode.
  unfoldable pub commit_inode : ℕ → Inode → InodeStore db → InodeStore db × StatusCode
  commit_inode id inode store =
      let (dict, batch) = batch_put_inode id inode store.dict [] in
      commit_batch db batch (record store { dict = dict })

  unfoldable pub commit_move : Move → Inode → InodeStore db → InodeStore db × StatusCode
  commit_move m inode store =
      let (dict, batch) = batch_put_inode m.src_id inode store.dict [] in
      commit_batch db
        (batch_put_edge m.dst_parent_id m.new_name m.src_id
          (batch_delete_edge m.old_parent_id m.old_name batch))
        (record store { dict = dict })

  unfoldable pub move_stored :
      Move → Inode → Bool → InodeStore db → InodeTree db → InodeTree db × StatusCode
  unfolding commit_move move_beside_store
  move_stored m inode is_dir store t =
      let (store', status) = commit_move m (moved m inode) store in
      if is_ok status
      then (
        record t { dir_inodes = move_beside_store m is_dir t.dir_inodes; store = some store' },
        k_ok,
      )
      else (record t { store = some store' }, status)

  -- An inode that is in memory.
  unfoldable pub move_known : Move → Inode → InodeTree db → InodeTree db × StatusCode
  unfolding move_in_memory move_stored
  move_known m inode t = elim t.store [
    | none ↦ (record t { dir_inodes = move_in_memory m t.dir_inodes }, k_ok)
    | some store ↦ move_stored m inode true store t
  ]

  -- A file that only the store has.
  unfoldable pub move_file :
      ℕ → List Name → Name → ℕ → Name → InodeTree db → InodeTree db × StatusCode
  unfolding move_stored walk_parts
  move_file src_id src_front src_name dst_parent_id new_name t = elim t.store [
    | none ↦ (t, k_not_found)
    | some store ↦ elim (walk_parts src_front t.root_id t.dir_inodes) [
      | none ↦ (t, k_not_found)
      | some pid ↦ elim (get_inode db src_id store) [
        | failed status ↦ (t, status)
        | fault ↦ (t, k_internal)
        | done inode ↦
            move_stored
              (record {
                src_id = src_id;
                old_parent_id = pid;
                old_name = src_name;
                dst_parent_id = dst_parent_id;
                new_name = new_name;
              })
              inode false store t
      ]
    ]
  ]

  -- With the source found and the parent of the destination too.
  unfoldable pub rename_to :
      ℕ → List Name → Name → ℕ → Name → InodeTree db → InodeTree db × StatusCode
  unfolding move_known move_file
  rename_to src_id src_front src_name dst_parent_id new_name t =
      let new_parent = node_at dst_parent_id t.dir_inodes in
      if not new_parent.is_directory
      then (t, k_invalid_argument)
      else if has new_name new_parent.children
      then (t, k_already_exists)
      else elim (find src_id t.dir_inodes) [
        | some inode ↦
            move_known
              (record {
                src_id = src_id;
                old_parent_id = inode.parent_id;
                old_name = inode.name;
                dst_parent_id = dst_parent_id;
                new_name = new_name;
              })
              inode t
        | none ↦ move_file src_id src_front src_name dst_parent_id new_name t
      ]

  -- With what the loop over the directories of the destination found.
  unfoldable pub rename_into :
      Option ℕ → ℕ → List Name → Name → Name → InodeTree db → InodeTree db × StatusCode
  unfolding rename_to touch
  rename_into none src_id src_front src_name new_name t = (t, k_not_found)
  rename_into (some dst_parent_id) src_id src_front src_name new_name t =
      rename_to src_id src_front src_name dst_parent_id new_name
        (record t { dir_inodes = touch dst_parent_id t.dir_inodes })

  -- With what the source resolves to.
  unfoldable pub rename_from :
      StatusCode ⊎ ℕ
      → List Name × Name
      → List Name × Name
      → InodeTree db
      → InodeTree db × StatusCode
  unfolding rename_into walk_parts
  rename_from (inl status) src dst t = (t, status)
  rename_from (inr src_id) (src_front, src_name) (dst_front, new_name) t =
      rename_into (walk_parts dst_front t.root_id t.dir_inodes) src_id src_front src_name new_name t

  unfoldable pub rename_parts : List Name → List Name → InodeTree db → InodeTree db × StatusCode
  unfolding rename_from resolve_parts split_last
  rename_parts [] dst_parts t = (t, k_invalid_argument)
  rename_parts (s ∷ ss) [] t = (t, k_invalid_argument)
  rename_parts (s ∷ ss) (d ∷ ds) t =
      rename_from (resolve_parts (s ∷ ss) t.root_id t.dir_inodes) (split_last s ss)
        (split_last d ds) t

  unfoldable pub rename : List ℕ → List ℕ → InodeTree db → InodeTree db × StatusCode
  unfolding rename_parts split_path
  rename src dst t = rename_parts (split_path src) (split_path dst) t

  unfoldable pub complete_stored :
      ℕ → ℕ → ℕ → InodeStore db → InodeTree db → InodeTree db × StatusCode
  unfolding commit_inode
  complete_stored id size now store t = elim (get_inode db id store) [
    | failed status ↦ (t, if has id t.dir_inodes then k_invalid_argument else k_not_found)
    | fault ↦ (t, k_internal)
    | done inode ↦
        if inode.is_directory
        then (t, k_invalid_argument)
        else let (store', status) = commit_inode id (completed size now inode) store in
          (record t { store = some store' }, status)
  ]

  unfoldable pub complete_file : ℕ → ℕ → ℕ → InodeTree db → InodeTree db × StatusCode
  unfolding complete_stored update
  complete_file id size now t = elim t.store [
    | some store ↦ complete_stored id size now store t
    | none ↦ elim (find id t.dir_inodes) [
      | none ↦ (t, k_not_found)
      | some inode ↦
          if inode.is_directory
          then (t, k_invalid_argument)
          else (record t { dir_inodes = update id (completed size now) t.dir_inodes }, k_ok)
    ]
  ]

  -- Memory has the new size before the batch is written.
  unfoldable pub resize_known : ℕ → ℕ → ℕ → Inode → InodeTree db → InodeTree db × StatusCode
  unfolding commit_inode update
  resize_known id new_size now inode t =
      let dirs = update id (sized new_size now) t.dir_inodes in
      elim t.store [
        | none ↦ (record t { dir_inodes = dirs }, k_ok)
        | some store ↦
            let (store', status) = commit_inode id (sized new_size now inode) store in
            (record t { dir_inodes = dirs; store = some store' }, status)
      ]

  unfoldable pub resize_file : ℕ → ℕ → ℕ → InodeTree db → InodeTree db × StatusCode
  unfolding commit_inode
  resize_file id new_size now t = elim t.store [
    | none ↦ (t, k_not_found)
    | some store ↦ elim (get_inode db id store) [
      | failed status ↦ (t, status)
      | fault ↦ (t, k_internal)
      | done inode ↦
          let (store', status) = commit_inode id (sized new_size now inode) store in
          (record t { store = some store' }, status)
    ]
  ]

  unfoldable pub update_size : ℕ → ℕ → ℕ → InodeTree db → InodeTree db × StatusCode
  unfolding resize_known resize_file
  update_size id new_size now t = elim (find id t.dir_inodes) [
    | some inode ↦ resize_known id new_size now inode t
    | none ↦ resize_file id new_size now t
  ]
