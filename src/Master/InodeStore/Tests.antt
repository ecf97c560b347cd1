-- ===== src/Master/InodeStore/Tests.antt =====
-- The theorems on one directory and its edge.
use any_cache.Base.{◌≡◌, refl, true, false, List, [], ◌∷◌, map, arith, find}
use any_cache.Common.Status.{done}
use any_cache.Common.Database.{Database, IsLawful}
use any_cache.Common.MapDatabase.{map_database, map_database-IsLawful, no_rows}
use any_cache.Master.Inode.{Inode, new_inode}
use any_cache.Master.OwnerGroupDict.{Dict, lookup}
use any_cache.Master.OwnerGroupDict.Ids.{IsNamed}
use any_cache.Master.InodeEntry.{next_id_key, encode_next_id_value}
use any_cache.Master.InodeEntry.Roundtrip.{FitsEntry}
use any_cache.Master.InodeStore.{
  InodeStore, Edge, get_inode, get_next_id, commit_batch, batch_put_next_id, scan_directory_inodes,
  scan_all_edges,
}
use any_cache.Master.InodeStore.Commits.{
  put_and_commit, get_inode-commit_batch, get_next_id-commit_batch,
}
use any_cache.Master.InodeStore.Scans.{
  Row, of_inode, of_key, row_bytes, edge_bytes, directories_of, scans_lem,
}

abbrev no_names : Dict
no_names = record { names = []; ids = []; dirty = false }

no_names-IsNamed : IsNamed no_names
unfolding find
no_names-IsNamed s id e = absurd (ground (arith, e))

abbrev directory : Inode
directory = record new_inode {
  id = 2;
  parent_id = 1;
  name = 97 ∷ [];
  is_directory = true;
  owner = 117 ∷ [];
}

abbrev file : Inode
file = record new_inode { id = 3; parent_id = 2; name = 98 ∷ [] }

fits : FitsEntry directory
fits = record {
  parent = omega arith;
  size = omega arith;
  block_size = omega arith;
  created = omega arith;
  modified = omega arith;
  mode = omega arith;
}

file_fits : FitsEntry file
file_fits = record {
  parent = omega arith;
  size = omega arith;
  block_size = omega arith;
  created = omega arith;
  modified = omega arith;
  mode = omega arith;
}

-- Two inodes, and the row of the next id.
abbrev stored : List Row
stored =
    of_inode (record { inode = directory; owner_id = 0; group_id = 0 })
    ∷ of_inode (record { inode = file; owner_id = 0; group_id = 0 })
    ∷ of_key next_id_key (encode_next_id_value 1002)
    ∷ []

abbrev edges : List Edge
edges = record { parent_id = 2; name = 98 ∷ []; child_id = 3 } ∷ []

abbrev db : Database
db = map_database (map row_bytes stored) (map edge_bytes edges)

lawful : IsLawful db
lawful = map_database-IsLawful (map row_bytes stored) (map edge_bytes edges)

abbrev store : InodeStore db
store = record { handle = no_rows; dict = record { owners = no_names; groups = no_names } }

get_inode-commit_batch_example :
    get_inode db 2 (put_and_commit db lawful 2 directory store).0 ≡ done directory
unfolding commit_batch
get_inode-commit_batch_example =
    get_inode-commit_batch db lawful directory store (omega arith) fits no_names-IsNamed
      no_names-IsNamed (omega arith) (omega arith) refl

get_next_id-commit_batch_runs :
    get_next_id db (commit_batch db (batch_put_next_id 1002 []) store).0 ≡ done 1002
unfolding commit_batch
get_next_id-commit_batch_runs = get_next_id-commit_batch db lawful 1002 store (omega arith) refl

scans_lem_example :
    (scan_directory_inodes db store ≡ done (directories_of store.dict stored))
    × (scan_all_edges db store ≡ done edges)
scans_lem_example =
    scans_lem db stored edges store refl refl refl refl
      ((omega arith, fits), ((omega arith, file_fits), ((omega arith, omega arith), tt)))
      ((omega arith, omega arith), tt)

-- The file is no directory.
one_directory : directories_of store.dict stored ≡ record directory { owner = [] } ∷ []
unfolding lookup
one_directory = refl
