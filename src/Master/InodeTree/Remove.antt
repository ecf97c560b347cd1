-- ===== src/Master/InodeTree/Remove.antt =====
-- `Delete` of src/master/inode_tree.cpp and its two private helpers. The loops over a subtree run on
-- fuel, and `none` is a loop that is not done.
use any_cache.Base.{
  ℕ, zero, suc, Bool, true, false, not, ◌&&◌, Option, none, some, List, [], ◌∷◌, ◌++◌, ◌⊎◌, inl,
  inr, Map, find, erase, length, ◌==◌, if◌then◌else◌, nat_key,
}
use any_cache.Common.Status.{StatusCode, k_ok, k_not_found, k_invalid_argument, is_ok}
use any_cache.Common.Database.{Database, WriteBatch}
use any_cache.Master.Inode.{Name, Inode}
use any_cache.Master.OwnerGroupDict.{name_key}
use any_cache.Master.InodeStore.{InodeStore, commit_batch, batch_delete_inode, batch_delete_edge}
use any_cache.Master.InodeTree.{
  InodeTree, Dirs, split_path, split_last, walk_parts, resolve_parts, update,
}

abbrev pub without_child : Name → Inode → Inode
without_child name inode = record inode { children = erase name inode.children }

-- `to_remove`, whose last element stands first.
unfoldable pub push_children : Map Name ℕ → List ℕ → List ℕ
push_children [] stack = stack
push_children ((name, child) ∷ children) stack = push_children children (child ∷ stack)

-- The loop of the pure-memory mode.
unfoldable pub remove_loop : ℕ → List ℕ → Dirs → Option Dirs
unfolding push_children
remove_loop fuel [] dirs = some dirs
remove_loop zero (rid ∷ stack) dirs = none
remove_loop (suc fuel) (rid ∷ stack) dirs = elim (find rid dirs) [
  | none ↦ remove_loop fuel stack dirs
  | some inode ↦ remove_loop fuel (push_children inode.children stack) (erase rid dirs)
]

-- An edge below the directory that is deleted, with the inode at its end.
pub record SubEdge : Type 0 where
  pub parent_id : ℕ
  pub name : Name
  pub child_id : ℕ

-- `CollectSubtreeForDeletion`: the edges and inodes in the order in which they are met. The caller
-- makes no use of the list of directories.
abbrev pub join : Option (List SubEdge) → Option (List SubEdge) → Option (List SubEdge)
join none rest = none
join (some edges) none = none
join (some edges) (some rest) = some (edges ++ rest)

unfoldable pub collect_children :
    (ℕ → Option (List SubEdge)) → Dirs → ℕ → Map Name ℕ → Option (List SubEdge)
collect_children sub dirs dir_id [] = some []
collect_children sub dirs dir_id ((name, child) ∷ children) =
    let here : SubEdge = record { parent_id = dir_id; name = name; child_id = child } in
    join (join (some (here ∷ [])) (elim (find child dirs) [ none ↦ some [] | some _ ↦ sub child ]))
      (collect_children sub dirs dir_id children)

unfoldable pub collect_subtree : ℕ → Dirs → ℕ → Option (List SubEdge)
unfolding collect_children
collect_subtree zero dirs dir_id = none
collect_subtree (suc fuel) dirs dir_id = elim (find dir_id dirs) [
  | none ↦ some []
  | some inode ↦ collect_children (collect_subtree fuel dirs) dirs dir_id inode.children
]

-- `RemoveDirSubtreeFromMemory`: first below each child, then the children themselves.
unfoldable pub erase_children : Map Name ℕ → Dirs → Dirs
erase_children [] dirs = dirs
erase_children ((name, child) ∷ children) dirs = erase_children children (erase child dirs)

unfoldable pub each_child : (ℕ → Dirs → Option Dirs) → Map Name ℕ → Dirs → Option Dirs
each_child sub [] dirs = some dirs
each_child sub ((name, child) ∷ children) dirs = elim (sub child dirs) [
  | none ↦ none
  | some dirs' ↦ each_child sub children dirs'
]

unfoldable pub remove_subtree : ℕ → ℕ → Dirs → Option Dirs
unfolding erase_children each_child
remove_subtree zero id dirs = none
remove_subtree (suc fuel) id dirs = elim (find id dirs) [
  | none ↦ some dirs
  | some inode ↦ elim (each_child (remove_subtree fuel) inode.children dirs) [
    | none ↦ none
    | some dirs' ↦ some (erase_children inode.children dirs')
  ]
]

unfoldable pub batch_delete_edges : List SubEdge → WriteBatch → WriteBatch
batch_delete_edges [] batch = batch
batch_delete_edges (edge ∷ edges) batch =
    batch_delete_edges edges (batch_delete_edge edge.parent_id edge.name batch)

unfoldable pub batch_delete_inodes : List SubEdge → WriteBatch → WriteBatch
batch_delete_inodes [] batch = batch
batch_delete_inodes (edge ∷ edges) batch =
    batch_delete_inodes edges (batch_delete_inode edge.child_id batch)

-- `pit->second.children.erase(target_name)`, where there is such a directory.
unfoldable pub drop_edge : ℕ → Name → Dirs → Dirs
unfolding update
drop_edge parent_id name dirs = elim (find parent_id dirs) [
  | none ↦ dirs
  | some inode ↦ update parent_id (without_child name) dirs
]

-- What the call leaves in memory when the batch is written.
unfoldable pub forget : ℕ → ℕ → Bool → Bool → Dirs → Option Dirs
unfolding remove_subtree
forget fuel id is_dir recursive dirs =
    if not is_dir
    then some dirs
    else if not recursive
    then some (erase id dirs)
    else elim (remove_subtree fuel id dirs) [ none ↦ none | some dirs' ↦ some (erase id dirs') ]

module _ (db : Database) where
  unfoldable pub delete_batch : ℕ → ℕ → ℕ → Name → Bool → Bool → Dirs → Option WriteBatch
  unfolding collect_subtree batch_delete_edges batch_delete_inodes
  delete_batch fuel id parent_id name is_dir recursive dirs =
      let batch = batch_delete_edge parent_id name (batch_delete_inode id []) in
      if is_dir && recursive
      then elim (collect_subtree fuel dirs id) [
        | none ↦ none
        | some edges ↦ some (batch_delete_inodes edges (batch_delete_edges edges batch))
      ]
      else some batch

  unfoldable pub delete_stored :
      ℕ
      → ℕ
      → ℕ
      → Name
      → Bool
      → Bool
      → InodeStore db
      → InodeTree db
      → Option (InodeTree db × StatusCode)
  unfolding delete_batch drop_edge forget
  delete_stored fuel id parent_id name is_dir recursive store t =
      elim (delete_batch fuel id parent_id name is_dir recursive t.dir_inodes) [
        | none ↦ none
        | some batch ↦
            let (store', status) = commit_batch db batch store in
            if not (is_ok status)
            then some (record t { store = some store' }, status)
            else elim (forget fuel id is_dir recursive (drop_edge parent_id name t.dir_inodes)) [
              | none ↦ none
              | some dirs ↦ some (record t { dir_inodes = dirs; store = some store' }, k_ok)
            ]
      ]

  unfoldable pub delete_in_memory :
      ℕ → ℕ → Inode → InodeTree db → Option (InodeTree db × StatusCode)
  unfolding update remove_loop
  delete_in_memory fuel id inode t =
      let dirs = update inode.parent_id (without_child inode.name) t.dir_inodes in
      elim (remove_loop fuel (id ∷ []) dirs) [
        | none ↦ none
        | some dirs' ↦ some (record t { dir_inodes = dirs' }, k_ok)
      ]

  -- A directory, or any inode where there is no store.
  unfoldable pub delete_known :
      ℕ → ℕ → Name → Inode → Bool → InodeTree db → Option (InodeTree db × StatusCode)
  unfolding delete_stored delete_in_memory
  delete_known fuel id name inode recursive t =
      if not (length inode.children == 0) && not recursive
      then some (t, k_invalid_argument)
      else elim t.store [
        | none ↦ delete_in_memory fuel id inode t
        | some store ↦ delete_stored fuel id inode.parent_id name true recursive store t
      ]

  -- A file that only the store has.
  unfoldable pub delete_file :
      ℕ → ℕ → List Name → Name → Bool → InodeTree db → Option (InodeTree db × StatusCode)
  unfolding delete_stored walk_parts
  delete_file fuel id front name recursive t = elim t.store [
    | none ↦ some (t, k_not_found)
    | some store ↦ elim (walk_parts front t.root_id t.dir_inodes) [
      | none ↦ some (t, k_not_found)
      | some parent_id ↦ delete_stored fuel id parent_id name false recursive store t
    ]
  ]

  -- With what memory has of the inode.
  unfoldable pub delete_found :
      ℕ
      → Option Inode
      → ℕ
      → List Name × Name
      → Bool
      → InodeTree db
      → Option (InodeTree db × StatusCode)
  unfolding delete_known delete_file
  delete_found fuel (some inode) id (front, name) recursive t =
      delete_known fuel id name inode recursive t
  delete_found fuel none id (front, name) recursive t = delete_file fuel id front name recursive t

  -- With what the path resolves to.
  unfoldable pub delete_resolved :
      ℕ
      → StatusCode ⊎ ℕ
      → List Name × Name
      → Bool
      → InodeTree db
      → Option (InodeTree db × StatusCode)
  unfolding delete_found
  delete_resolved fuel (inl status) ends recursive t = some (t, status)
  delete_resolved fuel (inr id) ends recursive t =
      delete_found fuel (find id t.dir_inodes) id ends recursive t

  unfoldable pub delete_parts :
      ℕ → List Name → Bool → InodeTree db → Option (InodeTree db × StatusCode)
  unfolding delete_resolved split_last resolve_parts
  delete_parts fuel [] recursive t = some (t, k_invalid_argument)
  delete_parts fuel (part ∷ parts) recursive t =
      delete_resolved fuel (resolve_parts (part ∷ parts) t.root_id t.dir_inodes)
        (split_last part parts) recursive t

  unfoldable pub delete : ℕ → List ℕ → Bool → InodeTree db → Option (InodeTree db × StatusCode)
  unfolding delete_parts split_path
  delete fuel path recursive t = delete_parts fuel (split_path path) recursive t
