-- ===== src/Master/InodeTree/Tests.antt =====
-- The theorems on a small tree, and the rename of a directory below itself.
use any_cache.Base.{
  ℕ, ◌+◌, ◌≤◌, ◌<◌, ◌≡◌, ◌≢◌, inl, inr, refl, true, false, some, is_some, List, [], ◌∷◌, find,
  insert, erase, get_or, find-All, ◌-◌, ℕ_discrete, IsMap, length, arith, u64, nat_key,
}
use any_cache.Common.Status.{StatusCode, is_ok, k_ok, k_not_found, k_invalid_argument}
use any_cache.Common.Database.{Database}
use any_cache.Common.MapDatabase.{map_database, no_rows}
use any_cache.Master.Inode.{Inode}
use any_cache.Master.InodeTree.{InodeTree, new_tree, resolve_parts, split_path}
use any_cache.Master.OwnerGroupDict.{Name-discrete}
use any_cache.Master.InodeTree.Shape.{down}
use any_cache.Master.InodeTree.Create.{create_file, create_directory}
use any_cache.Master.InodeTree.Change.{rename}
use any_cache.Master.InodeTree.Remove.{delete, delete_stored}
use any_cache.Master.InodeTree.Subtrees.{Below, Ranked, delete_stored-ends}
use any_cache.Master.InodeStore.{InodeStore}
use any_cache.Master.InodeTree.Fresh.{new_tree-IsValid}
use any_cache.Master.InodeTree.Creation.{IsValid, Extends, create_file-Resolves}
use any_cache.Master.InodeTree.Directories.{create_directory-Resolves}
use any_cache.Master.InodeTree.Relocation.{Avoids, directories, rename-IsValid, rename-Moves}
use any_cache.Master.InodeTree.Deletion.{fuel_for}
use any_cache.Master.InodeTree.Absence.{delete-ends, delete-Gone}

abbrev db : Database
db = map_database [] []

-- `/a`, `/a/b`, `/a/c` and `/d`.
abbrev path_a : List ℕ
path_a = 47 ∷ 97 ∷ []

abbrev path_b : List ℕ
path_b = 47 ∷ 97 ∷ 47 ∷ 98 ∷ []

abbrev path_c : List ℕ
path_c = 47 ∷ 97 ∷ 47 ∷ 99 ∷ []

abbrev path_d : List ℕ
path_d = 47 ∷ 100 ∷ []

abbrev clock : ℕ → ℕ
clock n = 1000 + n

abbrev empty : InodeTree db
empty = new_tree db 1000

abbrev one : InodeTree db
one = (create_directory db path_a 493 false clock empty).0

abbrev two : InodeTree db
two = (create_file db path_b 420 2000 one).0

empty-IsValid : IsValid db empty
empty-IsValid = new_tree-IsValid db 1000

split_b : split_path path_b ≡ (97 ∷ []) ∷ (98 ∷ []) ∷ []
unfolding split_path
split_b = refl

ids_left : empty.next_id + length (split_path path_a) < u64
unfolding new_tree split_path
ids_left = omega arith

one_next : one.next_id ≡ 3
unfolding rename resolve_parts delete create_file create_directory new_tree split_path find insert
    ℕ_discrete Name-discrete down erase
one_next = refl

ids_left_one : one.next_id + 1 < u64
ids_left_one = omega (arith, one_next)

create_directory-Resolves_example :
    Extends db empty (create_directory db path_a 493 false clock empty).0
    × ((id : ℕ)
        → (create_directory db path_a 493 false clock empty).2 ≡ some id
        → resolve_parts
            (split_path path_a)
            (create_directory db path_a 493 false clock empty).0.root_id
            (create_directory db path_a 493 false clock empty).0.dir_inodes
          ≡ inr id)
create_directory-Resolves_example =
    create_directory-Resolves db path_a 493 false clock empty empty-IsValid ids_left

one_valid : IsValid db one
one_valid =
    (create_directory-Resolves db path_a 493 false clock empty empty-IsValid ids_left).0.valid

create_file-Resolves_example :
    Extends db one (create_file db path_b 420 2000 one).0
    × ((id : ℕ)
        → (create_file db path_b 420 2000 one).2 ≡ some id
        → resolve_parts
            (split_path path_b)
            (create_file db path_b 420 2000 one).0.root_id
            (create_file db path_b 420 2000 one).0.dir_inodes
          ≡ inr id)
create_file-Resolves_example = create_file-Resolves db path_b 420 2000 one one_valid ids_left_one

two_valid : IsValid db two
two_valid = (create_file-Resolves db path_b 420 2000 one one_valid ids_left_one).0.valid

-- The inode of the file is the third.
created : (create_file db path_b 420 2000 one).2 ≡ some 3
unfolding rename resolve_parts delete create_file create_directory new_tree split_path find insert
    ℕ_discrete Name-discrete down erase
created = refl

rename-IsValid_runs : IsValid db (rename db path_b path_d two).0
rename-IsValid_runs = rename-IsValid db path_b path_d two two_valid

rename_ok : is_ok (rename db path_b path_d two).1 ≡ true
unfolding rename resolve_parts delete create_file create_directory new_tree split_path find insert
    ℕ_discrete Name-discrete down erase
rename_ok = refl

src_found : resolve_parts (split_path path_b) two.root_id two.dir_inodes ≡ inr 3
unfolding rename resolve_parts delete create_file create_directory new_tree split_path find insert
    ℕ_discrete Name-discrete down erase
src_found = refl

src-Avoids : Avoids 3 (directories (split_path path_b)) two.root_id two.dir_inodes
unfolding rename resolve_parts delete create_file create_directory new_tree split_path find insert
    ℕ_discrete Name-discrete down erase
src-Avoids = (omega arith, λ child h. ground (arith, h))

dst-Avoids : Avoids 3 (directories (split_path path_d)) two.root_id two.dir_inodes
unfolding rename resolve_parts delete create_file create_directory new_tree split_path find insert
    ℕ_discrete Name-discrete down erase
dst-Avoids = omega arith

rename-Moves_example :
    (resolve_parts
        (split_path path_d)
        (rename db path_b path_d two).0.root_id
        (rename db path_b path_d two).0.dir_inodes
      ≡ inr 3)
    × ((j : ℕ)
        → resolve_parts
            (split_path path_b)
            (rename db path_b path_d two).0.root_id
            (rename db path_b path_d two).0.dir_inodes
          ≢ inr j)
rename-Moves_example =
    rename-Moves db path_b path_d 3 two two_valid rename_ok src_found src-Avoids dst-Avoids

two_once : IsMap two.dir_inodes
unfolding rename resolve_parts delete create_file create_directory new_tree split_path find insert
    ℕ_discrete Name-discrete down erase
two_once = (refl, (refl, (refl, tt)))

enough : fuel_for two.dir_inodes ≤ 3
unfolding rename resolve_parts delete create_file create_directory new_tree split_path find insert
    ℕ_discrete Name-discrete down erase
enough = omega arith

delete-ends_example : is_some (delete db 3 path_a true two) ≡ true
delete-ends_example = delete-ends db 3 path_a true two two_valid two_once enough

abbrev after_delete : InodeTree db × StatusCode
after_delete = get_or (delete db 3 path_a true two) (two, k_ok)

deleted : delete db 3 path_a true two ≡ some after_delete
unfolding rename resolve_parts delete create_file create_directory new_tree split_path find insert
    ℕ_discrete Name-discrete down erase
deleted = refl

delete-Gone_example :
    IsValid db after_delete.0
    × (is_ok after_delete.1 ≡ true
        → (id : ℕ)
        → resolve_parts (split_path path_a) after_delete.0.root_id after_delete.0.dir_inodes
          ≢ inr id)
delete-Gone_example =
    delete-Gone db 3 path_a true two after_delete two_valid two_once enough deleted

delete_ok : after_delete.1 ≡ k_ok
unfolding rename resolve_parts delete create_file create_directory new_tree split_path find insert
    ℕ_discrete Name-discrete down erase
delete_ok = refl

abbrev store : InodeStore db
store = record {
  handle = no_rows;
  dict = record {
    owners = record { names = []; ids = []; dirty = false };
    groups = record { names = []; ids = []; dirty = false };
  };
}

-- The ids of this tree grow downwards.
abbrev rank : ℕ → ℕ
rank id = 10 - id

two_Ranked : Ranked rank two.dir_inodes
unfolding rename resolve_parts delete create_file create_directory new_tree split_path find insert
    ℕ_discrete Name-discrete down erase
two_Ranked id inode =
    find-All (λ (e : ℕ × Inode). Below rank (rank e.0) e.1.children) two.dir_inodes id inode
      ((omega arith, tt), ((omega arith, tt), (tt, tt)))

delete_stored-ends_example : is_some (delete_stored db 9 2 1 (97 ∷ []) true true store two) ≡ true
delete_stored-ends_example =
    delete_stored-ends rank db 9 2 1 (97 ∷ []) true true store two two_Ranked (omega arith)

-- The directory goes below itself: the call succeeds, and no path leads to it any more.
below_itself : (rename db path_a path_c two).1 ≡ k_ok
unfolding rename resolve_parts delete create_file create_directory new_tree split_path find insert
    ℕ_discrete Name-discrete down erase
below_itself = refl

lost :
    resolve_parts (split_path path_c) 1 (rename db path_a path_c two).0.dir_inodes ≡ inl k_not_found
unfolding rename resolve_parts delete create_file create_directory new_tree split_path find insert
    ℕ_discrete Name-discrete down erase
lost = refl

-- A directory that is not empty stays.
not_empty : (delete db 3 path_a false two) ≡ some (two, k_invalid_argument)
unfolding rename resolve_parts delete create_file create_directory new_tree split_path find insert
    ℕ_discrete Name-discrete down erase
not_empty = refl
