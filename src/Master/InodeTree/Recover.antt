-- ===== src/Master/InodeTree/Recover.antt =====
-- `Recover` of src/master/inode_tree.cpp. `k_internal`, which the code returns nowhere here, stands
-- for a scan that reads past the end of a key, which C++ leaves undefined.
use any_cache.Base.{
  ℕ, ◌+◌, ◌%◌, none, some, List, [], ◌∷◌, find, insert, leb, ltb, if◌then◌else◌, u64, nat_key,
}
use any_cache.Common.Status.{StatusCode, k_ok, k_internal, is_ok, Reply, done, failed, fault}
use any_cache.Common.Database.{Database}
use any_cache.Master.Inode.{Inode}
use any_cache.Master.OwnerGroupDict.{name_key}
use any_cache.Master.InodeStore.{
  InodeStore, Edge, scan_directory_inodes, scan_all_edges, get_next_id,
}
use any_cache.Master.InodeTree.{InodeTree, Dirs, update, with_child, root_inode}
use any_cache.Master.InodeTree.Change.{commit_inode}

-- The directories by their ids.
unfoldable pub load_directories : List Inode → Dirs → Dirs
load_directories [] dirs = dirs
load_directories (d ∷ ds) dirs = load_directories ds (insert d.id d dirs)

-- The children of the directories; an edge of an inode that is none is left out.
unfoldable pub load_edges : List Edge → Dirs → Dirs
unfolding update
load_edges [] dirs = dirs
load_edges (e ∷ edges) dirs = elim (find e.parent_id dirs) [
  | none ↦ load_edges edges dirs
  | some inode ↦ load_edges edges (update e.parent_id (with_child e.name e.child_id) dirs)
]

-- The highest id of a directory, at least 1.
unfoldable pub max_id : ℕ → Dirs → ℕ
max_id highest [] = highest
max_id highest ((id, inode) ∷ dirs) = max_id (if leb id highest then highest else id) dirs

unfoldable pub recovered_next_id : Reply ℕ → Dirs → ℕ
unfolding max_id
recovered_next_id (done id) dirs = if ltb 0 id then id else (max_id 1 dirs + 1) % u64
recovered_next_id (failed status) dirs = (max_id 1 dirs + 1) % u64
recovered_next_id fault dirs = (max_id 1 dirs + 1) % u64

module _ (db : Database) where
  -- A first start makes the root and persists it.
  unfoldable pub ensure_root : ℕ → InodeStore db → InodeTree db → InodeTree db × StatusCode
  unfolding commit_inode
  ensure_root now store t = elim (find t.root_id t.dir_inodes) [
    | some root ↦ (t, k_ok)
    | none ↦
        let (store', status) = commit_inode db t.root_id (root_inode t.root_id now) store in
        if is_ok status
        then (
          record t {
            dir_inodes = insert t.root_id (root_inode t.root_id now) t.dir_inodes;
            store = some store';
          },
          k_ok,
        )
        else (record t { store = some store' }, status)
  ]

  -- An error of a scan leaves what was loaded before it.
  unfoldable pub recover_edges : ℕ → Dirs → InodeStore db → InodeTree db → InodeTree db × StatusCode
  unfolding load_edges recovered_next_id ensure_root
  recover_edges now dirs store t = elim (scan_all_edges db store) [
    | failed status ↦ (record t { dir_inodes = dirs }, status)
    | fault ↦ (record t { dir_inodes = dirs }, k_internal)
    | done edges ↦
        let loaded = load_edges edges dirs in
        let next_id = recovered_next_id (get_next_id db store) loaded in
        ensure_root now store
          (record t { dir_inodes = loaded; next_id = next_id; alloc_end = next_id })
  ]

  unfoldable pub recover : ℕ → InodeTree db → InodeTree db × StatusCode
  unfolding load_directories recover_edges
  recover now t = elim t.store [
    | none ↦ (t, k_ok)
    | some store ↦ elim (scan_directory_inodes db store) [
      | failed status ↦ (record t { dir_inodes = [] }, status)
      | fault ↦ (record t { dir_inodes = [] }, k_internal)
      | done dirs ↦ recover_edges now (load_directories dirs []) store t
    ]
  ]
