-- ===== src/Master/MountTable/Tests.antt =====
-- The theorems on `MountTable` at the mount points `/` and `/a`, for the path `/a/b`.
use any_cache.Base.{ℕ, ◌≡◌, ◌⊎◌, refl, List, [], ◌∷◌, arith}
use any_cache.Master.MountTable.{Path_, slash, MountEntry, compare_paths, not_found, found, resolve}
use any_cache.Master.MountTable.Order.{IsSorted}
use any_cache.Master.MountTable.Longest.{Missed, Longest, resolve-Longest}
use Prim.Native.Nat.{Ordering}

abbrev path : Path_
path = slash ∷ 97 ∷ slash ∷ 98 ∷ []

abbrev root : MountEntry ℕ
root = record { anycache_path = slash ∷ []; ufs_uri = []; ufs = 0 }

abbrev a : MountEntry ℕ
a = record { anycache_path = slash ∷ 97 ∷ []; ufs_uri = []; ufs = 1 }

abbrev mounts : List (MountEntry ℕ)
mounts = root ∷ a ∷ []

in_order : compare_paths (slash ∷ []) (slash ∷ 97 ∷ []) ≡ Ordering.lt
unfolding compare_paths
in_order = refl

mounts-IsSorted : IsSorted mounts
mounts-IsSorted = ((in_order, tt), (tt, tt))

resolve-Longest_example :
    ((resolve path mounts ≡ not_found) × Missed path mounts)
    ⊎ ((e : MountEntry ℕ) × (below : Path_) × (resolve path mounts ≡ found e below)
        × Longest path e below mounts)
resolve-Longest_example =
    resolve-Longest path mounts mounts-IsSorted (omega arith, (omega arith, tt))
