-- ===== src/Master/MountTable.antt =====
-- `MountTable` of src/master/mount_table.{h,cpp}: the mount points by path. A path is the list of
-- its bytes, compared as `std::string` compares. The factory of under file systems is a parameter,
-- and so is the status of the database's write.
pub mod Order
pub mod Longest
mod Tests
use any_cache.Base.{
  ℕ, Bool, true, false, Option, none, some, List, [], ◌∷◌, map, is_some, ◌==◌, if◌then◌else◌,
}
use any_cache.Common.Status.{
  StatusCode, is_ok, k_ok, k_not_found, k_already_exists, k_invalid_argument,
}
use Prim.Native.Nat.{compare, Ordering}

abbrev pub Path_ : Type 0
Path_ = List ℕ

-- `'/'`
abbrev pub slash : ℕ
slash = 47

pub record MountEntry (Ufs : Type 0) : Type 0 where
  pub anycache_path : Path_
  pub ufs_uri : List ℕ
  pub ufs : Ufs

-- The comparison of two paths, byte by byte.
unfoldable pub compare_paths : Path_ → Path_ → Ordering
compare_paths [] [] = Ordering.eq
compare_paths [] (y ∷ ys) = Ordering.lt
compare_paths (x ∷ xs) [] = Ordering.gt
compare_paths (x ∷ xs) (y ∷ ys) =
    let rest = compare_paths xs ys in
    elim (compare x y) [
      | Ordering.lt ↦ Ordering.lt
      | Ordering.eq ↦ rest
      | Ordering.gt ↦ Ordering.gt
    ]

-- What is left of a path after a prefix.
unfoldable pub strip_prefix : Path_ → Path_ → Option Path_
strip_prefix [] path = some path
strip_prefix (x ∷ xs) [] = none
strip_prefix (x ∷ xs) (y ∷ ys) = if x == y then strip_prefix xs ys else none

-- `mount_path.back() == '/'`, undefined on an empty path.
unfoldable pub ends_in_slash : Path_ → Option Bool
ends_in_slash [] = none
ends_in_slash (x ∷ []) = some (x == slash)
ends_in_slash (x ∷ y ∷ ys) = ends_in_slash (y ∷ ys)

-- The test of one mount point: no match, an undefined call, or the relative path.
pub data Match : Type 0 where
  no_match undefined : Match
  relative : Path_ → Match

unfoldable pub match_rest : Option Bool → Path_ → Match
match_rest closed [] = relative []
match_rest none (c ∷ cs) = undefined
match_rest (some closed) (c ∷ cs) =
    if c == slash then relative cs else if closed then relative (c ∷ cs) else no_match

unfoldable pub match_mount : Path_ → Path_ → Match
unfolding strip_prefix ends_in_slash match_rest
match_mount mount_path path = elim (strip_prefix mount_path path) [
  | none ↦ no_match
  | some rest ↦ match_rest (ends_in_slash mount_path) rest
]

-- The outcome of a resolution: the status `NotFound`, an undefined call, or the mount point and
-- the path below it.
pub data Resolved (Ufs : Type 0) : Type 0 where
  not_found fails : Resolved Ufs
  found : MountEntry Ufs → Path_ → Resolved Ufs

module _ {Ufs : Type 0} where
  unfoldable pub find_mount : Path_ → List (MountEntry Ufs) → Option (MountEntry Ufs)
  unfolding compare_paths
  find_mount path [] = none
  find_mount path (e ∷ es) =
      let rest = find_mount path es in
      elim (compare_paths e.anycache_path path) [ Ordering.eq ↦ some e | _ ↦ rest ]

  -- `mounts_[anycache_path] = entry`
  unfoldable pub insert_mount : MountEntry Ufs → List (MountEntry Ufs) → List (MountEntry Ufs)
  unfolding compare_paths
  insert_mount e [] = e ∷ []
  insert_mount e (f ∷ es) =
      let rest = insert_mount e es in
      elim (compare_paths e.anycache_path f.anycache_path) [
        | Ordering.lt ↦ e ∷ f ∷ es
        | Ordering.eq ↦ e ∷ es
        | Ordering.gt ↦ f ∷ rest
      ]

  unfoldable pub erase_mount : Path_ → List (MountEntry Ufs) → List (MountEntry Ufs)
  unfolding compare_paths
  erase_mount path [] = []
  erase_mount path (e ∷ es) =
      let rest = erase_mount path es in
      elim (compare_paths e.anycache_path path) [ Ordering.eq ↦ es | _ ↦ e ∷ rest ]

  unfoldable pub mount :
      (List ℕ → Option Ufs)
      → StatusCode
      → Path_
      → List ℕ
      → List (MountEntry Ufs)
      → List (MountEntry Ufs) × StatusCode
  unfolding find_mount insert_mount
  mount create persisted path uri mounts =
      if is_some (find_mount path mounts) then (mounts, k_already_exists) else elim (create uri) [
        | none ↦ (mounts, k_invalid_argument)
        | some ufs ↦
            if is_ok persisted
            then (
              insert_mount (record { anycache_path = path; ufs_uri = uri; ufs = ufs }) mounts,
              k_ok,
            )
            else (mounts, persisted)
      ]

  -- The loop over what the database holds: an entry whose file system cannot be made is skipped.
  unfoldable pub load_from_db :
      (List ℕ → Option Ufs) → List (Path_ × List ℕ) → List (MountEntry Ufs) → List (MountEntry Ufs)
  unfolding insert_mount
  load_from_db create [] mounts = mounts
  load_from_db create ((path, uri) ∷ rows) mounts = elim (create uri) [
    | none ↦ load_from_db create rows mounts
    | some ufs ↦
        load_from_db create rows
          (insert_mount (record { anycache_path = path; ufs_uri = uri; ufs = ufs }) mounts)
  ]

  unfoldable pub unmount :
      StatusCode → Path_ → List (MountEntry Ufs) → List (MountEntry Ufs) × StatusCode
  unfolding find_mount erase_mount
  unmount persisted path mounts =
      if is_some (find_mount path mounts)
      then if is_ok persisted then (erase_mount path mounts, k_ok) else (mounts, persisted)
      else (mounts, k_not_found)

  abbrev pub resolve_one : MountEntry Ufs → Match → Resolved Ufs
  resolve_one e no_match = not_found
  resolve_one e undefined = fails
  resolve_one e (relative path) = found e path

  -- What an earlier entry of the list adds: the loop runs from the last entry to the first.
  abbrev pub or_else : Resolved Ufs → Resolved Ufs → Resolved Ufs
  or_else not_found r = r
  or_else fails r = fails
  or_else (found e path) r = found e path

  unfoldable pub resolve : Path_ → List (MountEntry Ufs) → Resolved Ufs
  unfolding match_mount
  resolve path [] = not_found
  resolve path (e ∷ es) =
      or_else (resolve path es) (resolve_one e (match_mount e.anycache_path path))

  unfoldable pub get_mount_points : List (MountEntry Ufs) → List (Path_ × List ℕ)
  get_mount_points mounts = map (λ e. (e.anycache_path, e.ufs_uri)) mounts

  unfoldable pub is_mount_point : Path_ → List (MountEntry Ufs) → Bool
  unfolding find_mount
  is_mount_point path mounts = is_some (find_mount path mounts)
