-- ===== src/Master/InodeStore/Scans.antt =====
-- What the scans at a start read of the rows that the store writes.
use any_cache.Base.{
  ℕ, ◌<◌, ◌≤◌, ◌≡◌, refl, ap, sym, ◌∙◌, Bool, true, false, none, some, List, [], ◌∷◌, ◌++◌, All,
  map, length, ltb, if◌then◌else◌, arith, u64,
}
use any_cache.Common.Status.{done}
use any_cache.Common.Database.{Database, inodes_cf, edges_cf}
use any_cache.Master.Inode.{Inode}
use any_cache.Master.OwnerGroupDict.{lookup}
use any_cache.Master.InodeEntry.{
  OwnerGroupDict, encode_edge_key, encode_edge_value, encode_big_endian64, decode_big_endian64,
  encode_inode_key, owner_dict_key, header_bytes, has_directory_flag,
}
use any_cache.Master.InodeEntry.Words.{encode_nil, decode-encode_big_endian64}
use any_cache.Master.InodeEntry.Keys.{decode-encode_edge_key}
use any_cache.Master.InodeEntry.Roundtrip.{
  FitsEntry, deserialize-entry, field_flags, flags_directory, length-entry,
}
use any_cache.Master.InodeStore.{
  InodeStore, Edge, edge_row, edge_rows, keep_row, directory_row, directory_rows, is_special,
  scan_all_edges, scan_directory_inodes,
}

-- The row of an edge, and the numbers that it can hold.
abbrev pub edge_bytes : Edge → List ℕ × List ℕ
edge_bytes e = (encode_edge_key e.parent_id e.name, encode_edge_value e.child_id)

abbrev pub IsEdge : Edge → Type 0
IsEdge e = (e.parent_id < u64) × (e.child_id < u64)

long_key : (parent : ℕ) (name : List ℕ) → ltb (length (encode_edge_key parent name)) 8 ≡ false
unfolding encode_edge_key encode_big_endian64
long_key parent name = ground arith

long_value : (child : ℕ) → ltb (length (encode_edge_value child)) 8 ≡ false
unfolding encode_big_endian64
long_value child = refl

read_value : (id : ℕ) → id < u64 → decode_big_endian64 (encode_big_endian64 id) ≡ some id
read_value id small =
    ap decode_big_endian64 (sym (encode_nil id)) ∙ decode-encode_big_endian64 id [] small

edge_row-edge_bytes :
    (e : Edge) → IsEdge e → edge_row (edge_bytes e).0 (edge_bytes e).1 ≡ done (some e)
unfolding edge_row
edge_row-edge_bytes e fits =
    let key = decode-encode_edge_key e.parent_id e.name fits.0 in
    let child = read_value e.child_id fits.1 in
    let long = long_key e.parent_id e.name in
    ground (arith, key, child, long, long_value e.child_id)

-- The edges whose rows a scan meets are the edges that it returns, in the order of the rows.
edge_rows-map :
    (edges : List Edge) → All IsEdge edges → edge_rows (map edge_bytes edges) ≡ done edges
unfolding edge_rows
edge_rows-map [] fits = refl
edge_rows-map (e ∷ edges) fits =
    ap (λ r. keep_row r (edge_rows (map edge_bytes edges))) (edge_row-edge_bytes e fits.0)
    ∙ ap (keep_row (done (some e))) (edge_rows-map edges fits.1)

-- An inode as its row has it: with the ids of its owner and group, and without children.
pub record Stored : Type 0 where
  pub inode : Inode
  pub owner_id : ℕ
  pub group_id : ℕ

abbrev pub inode_bytes : Stored → List ℕ × List ℕ
inode_bytes s =
    (encode_inode_key s.inode.id, header_bytes s.inode s.owner_id s.group_id ++ s.inode.name)

abbrev pub IsStored : Stored → Type 0
IsStored s = (s.inode.id < owner_dict_key) × FitsEntry s.inode

abbrev pub read_back : OwnerGroupDict → Stored → Inode
read_back dict s = record s.inode {
  owner = lookup s.owner_id dict.owners.names;
  group = lookup s.group_id dict.groups.names;
  children = [];
}

-- A row of the column of inodes: an inode, or a special key with any value, as of the dictionaries and
-- of the next id.
pub data Row : Type 0 where
  of_inode : Stored → Row
  of_key : ℕ → List ℕ → Row

abbrev pub row_bytes : Row → List ℕ × List ℕ
row_bytes (of_inode s) = inode_bytes s
row_bytes (of_key key val) = (encode_big_endian64 key, val)

abbrev pub IsRow : Row → Type 0
IsRow (of_inode s) = IsStored s
IsRow (of_key key val) = (owner_dict_key ≤ key) × (key < u64)

-- The directories among the inodes of the rows.
abbrev pub directories_of : OwnerGroupDict → List Row → List Inode
directories_of dict [] = []
directories_of dict (of_key key val ∷ rows) = directories_of dict rows
directories_of dict (of_inode s ∷ rows) =
    let rest = directories_of dict rows in
    if s.inode.is_directory then read_back dict s ∷ rest else rest

ordinary : (id : ℕ) → id < owner_dict_key → is_special (encode_inode_key id) ≡ false
unfolding is_special
ordinary id small = let key = read_value id (omega arith) in ground (arith, key)

length-encode_big_endian64 : (key : ℕ) → length (encode_big_endian64 key) ≡ 8
unfolding encode_big_endian64
length-encode_big_endian64 key = refl

special : (key : ℕ) → owner_dict_key ≤ key → key < u64 → is_special (encode_big_endian64 key) ≡ true
unfolding is_special
special key big small =
    let read = read_value key small in
    let eight : length (encode_big_endian64 key) ≡ 8 = length-encode_big_endian64 key in
    ground (arith, read, eight, big)

directory_row-special :
    (dict : OwnerGroupDict) (key : ℕ) (val : List ℕ)
    → owner_dict_key ≤ key
    → key < u64
    → directory_row dict (encode_big_endian64 key) val ≡ done none
unfolding directory_row
directory_row-special dict key val big small = ground (arith, special key big small)

directory_row-inode_bytes :
    (dict : OwnerGroupDict) (s : Stored)
    → IsStored s
    → directory_row dict (inode_bytes s).0 (inode_bytes s).1
      ≡ done (if s.inode.is_directory then some (read_back dict s) else none)
unfolding directory_row
directory_row-inode_bytes dict s fits =
    let plain = ordinary s.inode.id fits.0 in
    let key = read_value s.inode.id (omega (arith, fits.0)) in
    let flags =
      ap has_directory_flag (field_flags s.inode s.owner_id s.group_id)
      ∙ flags_directory s.inode s.owner_id s.group_id s.inode.is_directory s.inode.is_complete in
    let long = length-entry s.inode s.owner_id s.group_id in
    let whole = deserialize-entry s.inode s.owner_id s.group_id s.inode.id dict fits.1 in
    ground (arith, plain, key, flags, long, whole)

-- Of the rows of inodes a scan returns the directories.
directory_rows-map :
    (dict : OwnerGroupDict) (rows : List Row)
    → All IsRow rows
    → directory_rows dict (map row_bytes rows) ≡ done (directories_of dict rows)
unfolding directory_rows
directory_rows-map dict [] fits = refl
directory_rows-map dict (of_key key val ∷ rows) fits =
    ap (λ r. keep_row r (directory_rows dict (map row_bytes rows)))
      (directory_row-special dict key val fits.0.0 fits.0.1)
    ∙ directory_rows-map dict rows fits.1
directory_rows-map dict (of_inode s ∷ rows) fits =
    let here = directory_row-inode_bytes dict s fits.0 in
    let rest = directory_rows-map dict rows fits.1 in
    ap (λ r. keep_row r (directory_rows dict (map row_bytes rows))) here
    ∙ ap (keep_row (done (if s.inode.is_directory then some (read_back dict s) else none))) rest
    ∙ kept s.inode.is_directory
  where
    kept :
        (b : Bool)
        → keep_row
            (done (if b then some (read_back dict s) else none))
            (done (directories_of dict rows))
          ≡ done
              (if b then read_back dict s ∷ directories_of dict rows else directories_of dict rows)
    kept true = refl
    kept false = refl

-- On a database whose rows are those of some inodes, special keys and edges, and whose iterators end without an
-- error, the scans at a start return exactly the directories, with the names that their ids stand
-- for, and exactly the edges: when the numbers fit their fields and no id of an inode is a special key.
pub scans_lem :
    (db : Database) (rows : List Row) (edges : List Edge) (store : InodeStore db)
    → db.rows store.handle inodes_cf ≡ map row_bytes rows
    → db.rows store.handle edges_cf ≡ map edge_bytes edges
    → db.scan_ok store.handle inodes_cf ≡ true
    → db.scan_ok store.handle edges_cf ≡ true
    → All IsRow rows
    → All IsEdge edges
    → (scan_directory_inodes db store ≡ done (directories_of store.dict rows))
      × (scan_all_edges db store ≡ done edges)
unfolding scan_directory_inodes scan_all_edges
scans_lem db rows edges store inode_rows_ edge_rows_ inodes_ok edges_ok fits fit =
    let inodes =
      ap (directory_rows store.dict) inode_rows_ ∙ directory_rows-map store.dict rows fits in
    let links = ap edge_rows edge_rows_ ∙ edge_rows-map edges fit in
    (ground (arith, inodes_ok, inodes), ground (arith, edges_ok, links))
