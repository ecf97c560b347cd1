-- ===== src/Master/InodeTree.antt =====
-- `InodeTree` of src/master/inode_tree.{h,cpp}: its state, the paths, the ids and the calls that
-- only read. Without a store every inode is in memory; with one, memory has the directories and the
-- store has all. A call that the source makes under the lock is one step here.
pub mod Create
pub mod Remove
pub mod Change
pub mod Recover
pub mod Paths
pub mod Shape
pub mod Growth
pub mod Fresh
pub mod Creation
pub mod Directories
pub mod Moves
pub mod Renaming
pub mod Relocation
pub mod Pruning
pub mod Deletion
pub mod Absence
pub mod Subtrees
pub mod Sizes
pub mod StoredFiles
mod Tests
use any_cache.Base.{
  ℕ, suc, ◌+◌, ◌%◌, Bool, true, false, not, Option, none, some, List, [], ◌∷◌, ◌++◌, ◌⊎◌, inl, inr,
  Map, find, insert, has, length, leb, ◌==◌, if◌then◌else◌, u64, get_or, nat_key,
}
use any_cache.Common.Status.{
  StatusCode, k_ok, k_not_found, k_invalid_argument, Reply, done, failed, fault,
}
use any_cache.Common.Database.{Database}
use any_cache.Master.Inode.{Name, Inode, new_inode}
use any_cache.Master.OwnerGroupDict.{name_key}
use any_cache.Master.InodeStore.{
  InodeStore, get_inode, multi_get_inodes, commit_batch, batch_put_next_id,
}

abbrev pub Dirs : Type 0
Dirs = Map ℕ Inode

abbrev pub slash : ℕ
slash = 47

-- The pieces of a path between its slashes: the first, and the others.
unfoldable pub pieces : List ℕ → Name × List Name
pieces [] = ([], [])
pieces (c ∷ cs) =
    let (first, rest) = pieces cs in if c == slash then ([], first ∷ rest) else (c ∷ first, rest)

unfoldable pub non_empty : List Name → List Name
non_empty [] = []
non_empty ([] ∷ parts) = non_empty parts
non_empty ((c ∷ cs) ∷ parts) = (c ∷ cs) ∷ non_empty parts

unfoldable pub split_path : List ℕ → List Name
unfolding pieces non_empty
split_path path = let (first, rest) = pieces path in non_empty (first ∷ rest)

-- All parts but the last, and the last.
unfoldable pub split_last : Name → List Name → List Name × Name
split_last part [] = ([], part)
split_last part (next ∷ parts) = let (front, back) = split_last next parts in (part ∷ front, back)

-- `ResolvePathLocked` from one inode on.
unfoldable pub resolve_parts : List Name → ℕ → Dirs → StatusCode ⊎ ℕ
resolve_parts [] current dirs = inr current
resolve_parts (part ∷ parts) current dirs = elim (find current dirs) [
  | none ↦ inl k_not_found
  | some node ↦ elim node.is_directory [
    | false ↦ inl k_invalid_argument
    | true ↦ elim (find part node.children) [
      | none ↦ inl k_not_found
      | some child ↦ resolve_parts parts child dirs
    ]
  ]
]

-- The loops that look for a parent, which do not test for a directory; `none` is `NotFound`.
unfoldable pub walk_parts : List Name → ℕ → Dirs → Option ℕ
walk_parts [] current dirs = some current
walk_parts (part ∷ parts) current dirs = elim (find current dirs) [
  | none ↦ none
  | some node ↦ elim (find part node.children) [
    | none ↦ none
    | some child ↦ walk_parts parts child dirs
  ]
]

-- `dir_inodes_[id]`, which makes an inode with the initial values where there is none.
abbrev pub node_at : ℕ → Dirs → Inode
node_at id dirs = get_or (find id dirs) new_inode

unfoldable pub touch : ℕ → Dirs → Dirs
touch id dirs = elim (find id dirs) [ none ↦ insert id new_inode dirs | some inode ↦ dirs ]

-- An assignment through `dir_inodes_[id]`.
unfoldable pub update : ℕ → (Inode → Inode) → Dirs → Dirs
update id change dirs = insert id (change (node_at id dirs)) dirs

abbrev pub with_child : Name → ℕ → Inode → Inode
with_child name child inode = record inode { children = insert name child inode.children }

-- The inodes of the children that are in memory, and the ids of the others.
unfoldable pub in_memory : Map Name ℕ → Dirs → List Inode
in_memory [] dirs = []
in_memory ((name, child) ∷ children) dirs = elim (find child dirs) [
  | none ↦ in_memory children dirs
  | some inode ↦ inode ∷ in_memory children dirs
]

unfoldable pub not_in_memory : Map Name ℕ → Dirs → List ℕ
not_in_memory [] dirs = []
not_in_memory ((name, child) ∷ children) dirs = elim (find child dirs) [
  | none ↦ child ∷ not_in_memory children dirs
  | some inode ↦ not_in_memory children dirs
]

abbrev pub root_inode : ℕ → ℕ → Inode
root_inode root_id now = record new_inode {
  id = root_id;
  is_directory = true;
  mode = 493;
  creation_time_ms = now;
  modification_time_ms = now;
}

abbrev pub id_alloc_batch_size : ℕ
id_alloc_batch_size = 1000

module _ (db : Database) where
  pub record InodeTree : Type 0 where
    pub dir_inodes : Dirs
    pub root_id : ℕ
    pub next_id : ℕ
    pub alloc_end : ℕ
    pub store : Option (InodeStore db)

  unfoldable pub new_tree : ℕ → InodeTree
  new_tree now = record {
    dir_inodes = insert 1 (root_inode 1 now) [];
    root_id = 1;
    next_id = 2;
    alloc_end = 2;
    store = none;
  }

  abbrev pub set_store : Option (InodeStore db) → InodeTree → InodeTree
  set_store store t = record t { store = store }

  -- `AllocateId`: the outcome of writing the end of a new batch of ids is not looked at.
  unfoldable pub allocate_id : InodeTree → InodeTree × ℕ
  allocate_id t = elim t.store [
    | none ↦ (record t { next_id = (t.next_id + 1) % u64 }, t.next_id)
    | some store ↦
        if not (leb t.alloc_end t.next_id)
        then (record t { next_id = (t.next_id + 1) % u64 }, t.next_id)
        else let end = (t.next_id + id_alloc_batch_size) % u64 in
          (
            record t {
              next_id = (t.next_id + 1) % u64;
              alloc_end = end;
              store = some (commit_batch db (batch_put_next_id end []) store).0;
            },
            t.next_id,
          )
  ]

  unfoldable pub dir_count : InodeTree → ℕ
  dir_count t = length t.dir_inodes

  abbrev pub get_stored : ℕ → Option (InodeStore db) → Reply Inode
  get_stored id none = failed k_not_found
  get_stored id (some store) = get_inode db id store

  unfoldable pub get_inode_by_id : ℕ → InodeTree → Reply Inode
  get_inode_by_id id t = elim (find id t.dir_inodes) [
    | some inode ↦ done inode
    | none ↦ get_stored id t.store
  ]

  unfoldable pub get_inode_by_path : List ℕ → InodeTree → Reply Inode
  unfolding split_path resolve_parts
  get_inode_by_path path t = elim (resolve_parts (split_path path) t.root_id t.dir_inodes) [
    | inl status ↦ failed status
    | inr id ↦ elim (find id t.dir_inodes) [
      | some inode ↦ done inode
      | none ↦ get_stored id t.store
    ]
  ]

  unfoldable pub list_children : Inode → InodeTree → List Inode
  unfolding in_memory not_in_memory
  list_children inode t = elim t.store [
    | none ↦ in_memory inode.children t.dir_inodes
    | some store ↦
        in_memory inode.children t.dir_inodes
        ++ multi_get_inodes db (not_in_memory inode.children t.dir_inodes) store
  ]

  unfoldable pub list_directory : List ℕ → InodeTree → Reply (List Inode)
  unfolding list_children split_path resolve_parts
  list_directory path t = elim (resolve_parts (split_path path) t.root_id t.dir_inodes) [
    | inl status ↦ failed status
    | inr id ↦ elim (find id t.dir_inodes) [
      | none ↦ failed k_not_found
      | some inode ↦
          if inode.is_directory then done (list_children inode t) else failed k_invalid_argument
    ]
  ]
