-- ===== src/Common/MapDatabase.antt =====
-- A database that meets the interface: a function from keys to values, with the rows of a scan
-- given beside it.
use any_cache.Base.{ℕ, true, List, refl, map, arith}
use any_cache.Common.Database.{
  Database, IsLawful, ColumnFamily, inodes_cf, edges_cf, Got, missing, written,
}

abbrev rows_of :
    List (List ℕ × List ℕ) → List (List ℕ × List ℕ) → ColumnFamily → List (List ℕ × List ℕ)
rows_of inodes edges inodes_cf = inodes
rows_of inodes edges edges_cf = edges

abbrev pub map_database : List (List ℕ × List ℕ) → List (List ℕ × List ℕ) → Database
map_database inodes edges = record {
  Handle = ColumnFamily → List ℕ → Got;
  get = λ h cf key. h cf key;
  multi_get = λ h cf keys. map (h cf) keys;
  write = λ h batch. (λ cf key. written cf key batch (h cf key), true);
  rows = λ h cf. rows_of inodes edges cf;
  scan_ok = λ h cf. true;
}

abbrev pub no_rows : ColumnFamily → List ℕ → Got
no_rows cf key = missing

pub map_database-IsLawful :
    (inodes edges : List (List ℕ × List ℕ)) → IsLawful (map_database inodes edges)
map_database-IsLawful inodes edges = record {
  get-write = λ h batch cf key ok. refl;
  write_failed = λ h batch bad. absurd (ground (arith, bad));
  multi_get-map = λ h cf keys. refl;
}
