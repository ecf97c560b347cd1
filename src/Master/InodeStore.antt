-- ===== src/Master/InodeStore.antt =====
-- `InodeStore` of src/master/inode_store.{h,cpp}: inodes, edges and the next id as rows of a
-- database. A batch is built with the store, since the store may add its dictionary to it.
pub mod Commits
pub mod Scans
mod Tests
use any_cache.Base.{
  ℕ, suc, ◌+◌, Bool, true, false, not, ◌&&◌, ◌||◌, ◌==◌, Option, none, some, List, [], ◌∷◌, ◌++◌,
  map, length, leb, ltb, if◌then◌else◌, drop, take,
}
use any_cache.Common.Status.{StatusCode, k_ok, k_not_found, k_io_error, Reply, done, failed, fault}
use any_cache.Common.Database.{
  Database, ColumnFamily, inodes_cf, edges_cf, WriteBatch, put_op, delete_op, Got, value, missing,
  broken,
}
use any_cache.Master.Inode.{Inode}
use any_cache.Master.OwnerGroupDict.{Dict}
use any_cache.Master.InodeEntry.{
  OwnerGroupDict, is_dirty, clear_dirty, serialize_owners, serialize_groups, load_owners,
  load_groups, serialize_inode_entry, deserialize_inode_entry, encode_inode_key, decode_inode_key,
  encode_owner_dict_key, encode_group_dict_key, encode_next_id_key, encode_next_id_value,
  decode_next_id_value, encode_edge_key, decode_edge_key, encode_edge_value, decode_edge_value,
  header_size, owner_dict_key, field_at, has_directory_flag, decode_big_endian64,
}

unfoldable pub maybe_persist_dict : OwnerGroupDict → WriteBatch → OwnerGroupDict × WriteBatch
maybe_persist_dict dict batch =
    if is_dirty dict
    then (
      clear_dirty dict,
      batch
          ++ put_op inodes_cf encode_owner_dict_key (serialize_owners dict)
            ∷ put_op inodes_cf encode_group_dict_key (serialize_groups dict)
            ∷ [],
    )
    else (dict, batch)

-- `BatchPutInode` changes the dictionary, which its result holds beside the batch.
unfoldable pub batch_put_inode :
    ℕ → Inode → OwnerGroupDict → WriteBatch → OwnerGroupDict × WriteBatch
unfolding maybe_persist_dict
batch_put_inode id inode dict batch =
    let (dict', data_) = serialize_inode_entry inode dict in
    maybe_persist_dict dict' (batch ++ put_op inodes_cf (encode_inode_key id) data_ ∷ [])

abbrev pub batch_delete_inode : ℕ → WriteBatch → WriteBatch
batch_delete_inode id batch = batch ++ delete_op inodes_cf (encode_inode_key id) ∷ []

abbrev pub batch_put_edge : ℕ → List ℕ → ℕ → WriteBatch → WriteBatch
batch_put_edge parent_id child_name child_id batch =
    batch
    ++ put_op edges_cf (encode_edge_key parent_id child_name) (encode_edge_value child_id) ∷ []

abbrev pub batch_delete_edge : ℕ → List ℕ → WriteBatch → WriteBatch
batch_delete_edge parent_id child_name batch =
    batch ++ delete_op edges_cf (encode_edge_key parent_id child_name) ∷ []

abbrev pub batch_put_next_id : ℕ → WriteBatch → WriteBatch
batch_put_next_id next_id batch =
    batch ++ put_op inodes_cf encode_next_id_key (encode_next_id_value next_id) ∷ []

-- A row of a special key: the dictionaries and the next id.
unfoldable pub is_special : List ℕ → Bool
unfolding decode_big_endian64
is_special key =
    length key == 8
    && elim (decode_big_endian64 key) [ none ↦ false | some k ↦ leb owner_dict_key k ]

-- A row with the flag of a directory gives its inode; the key is read without a test of its length.
unfoldable pub directory_row : OwnerGroupDict → List ℕ → List ℕ → Reply (Option Inode)
unfolding is_special
directory_row dict key val =
    if is_special key || not (leb header_size (length val))
    then done none
    else if has_directory_flag (field_at 44 1 val)
    then elim (decode_inode_key key) [
      | none ↦ fault
      | some id ↦ done (some (deserialize_inode_entry id val dict))
    ]
    else done none

abbrev pub keep_row : {A : Type 0} → Reply (Option A) → Reply (List A) → Reply (List A)
keep_row (done none) rest = rest
keep_row (done (some a)) (done list) = done (a ∷ list)
keep_row (done (some a)) (failed status) = failed status
keep_row (done (some a)) fault = fault
keep_row (failed status) rest = failed status
keep_row fault rest = fault

unfoldable pub directory_rows : OwnerGroupDict → List (List ℕ × List ℕ) → Reply (List Inode)
unfolding directory_row
directory_rows dict [] = done []
directory_rows dict ((key, val) ∷ rows) =
    keep_row (directory_row dict key val) (directory_rows dict rows)

pub record Edge : Type 0 where
  pub parent_id : ℕ
  pub name : List ℕ
  pub child_id : ℕ

unfoldable pub edge_row : List ℕ → List ℕ → Reply (Option Edge)
edge_row key val =
    if ltb (length key) 8 || ltb (length val) 8
    then done none
    else let (parent_id, child_name) = decode_edge_key key in
      elim (decode_edge_value val) [
        | none ↦ fault
        | some child_id ↦
            done (some (record { parent_id = parent_id; name = child_name; child_id = child_id }))
      ]

unfoldable pub edge_rows : List (List ℕ × List ℕ) → Reply (List Edge)
unfolding edge_row
edge_rows [] = done []
edge_rows ((key, val) ∷ rows) = keep_row (edge_row key val) (edge_rows rows)

-- What the iterator's status makes of the rows read.
abbrev pub with_scan_status : {A : Type 0} → Bool → Reply A → Reply A
with_scan_status true reply = reply
with_scan_status false (done a) = failed k_io_error
with_scan_status false (failed status) = failed status
with_scan_status false fault = fault

-- `statuses[i].ok()`
unfoldable pub found_inodes : OwnerGroupDict → List ℕ → List Got → List Inode
found_inodes dict [] got = []
found_inodes dict (id ∷ ids) [] = []
found_inodes dict (id ∷ ids) (value data_ ∷ got) =
    deserialize_inode_entry id data_ dict ∷ found_inodes dict ids got
found_inodes dict (id ∷ ids) (missing ∷ got) = found_inodes dict ids got
found_inodes dict (id ∷ ids) (broken ∷ got) = found_inodes dict ids got

abbrev pub load_if_found :
    (List ℕ → OwnerGroupDict → OwnerGroupDict) → Got → OwnerGroupDict → OwnerGroupDict
load_if_found load_ (value data_) dict = load_ data_ dict
load_if_found load_ missing dict = dict
load_if_found load_ broken dict = dict

module _ (db : Database) where
  -- The open database and the dictionaries in memory.
  pub record InodeStore : Type 0 where
    pub handle : db.Handle
    pub dict : OwnerGroupDict

  -- `Open` on what `rocksdb::DB::Open` gave, `none` for an error, and the dictionaries before.
  unfoldable pub open_store : Option db.Handle → OwnerGroupDict → Reply InodeStore
  open_store none dict = failed k_io_error
  open_store (some handle) dict =
      let owners = load_if_found load_owners (db.get handle inodes_cf encode_owner_dict_key) dict in
      let both = load_if_found load_groups (db.get handle inodes_cf encode_group_dict_key) owners in
      done (record { handle = handle; dict = clear_dirty both })

  unfoldable pub get_inode : ℕ → InodeStore → Reply Inode
  get_inode id store = elim (db.get store.handle inodes_cf (encode_inode_key id)) [
    | missing ↦ failed k_not_found
    | broken ↦ failed k_io_error
    | value data_ ↦ done (deserialize_inode_entry id data_ store.dict)
  ]

  unfoldable pub multi_get_inodes : List ℕ → InodeStore → List Inode
  unfolding found_inodes
  multi_get_inodes [] store = []
  multi_get_inodes (id ∷ ids) store =
      found_inodes store.dict (id ∷ ids)
        (db.multi_get store.handle inodes_cf (map encode_inode_key (id ∷ ids)))

  unfoldable pub get_next_id : InodeStore → Reply ℕ
  get_next_id store = elim (db.get store.handle inodes_cf encode_next_id_key) [
    | missing ↦ failed k_not_found
    | broken ↦ failed k_io_error
    | value data_ ↦
        if ltb (length data_) 8 then failed k_io_error else done (decode_next_id_value data_)
  ]

  unfoldable pub commit_batch : WriteBatch → InodeStore → InodeStore × StatusCode
  commit_batch batch store =
      let (handle, ok) = db.write store.handle batch in
      (record store { handle = handle }, if ok then k_ok else k_io_error)

  unfoldable pub scan_directory_inodes : InodeStore → Reply (List Inode)
  unfolding directory_rows
  scan_directory_inodes store =
      with_scan_status (db.scan_ok store.handle inodes_cf)
        (directory_rows store.dict (db.rows store.handle inodes_cf))

  unfoldable pub scan_all_edges : InodeStore → Reply (List Edge)
  unfolding edge_rows
  scan_all_edges store =
      with_scan_status (db.scan_ok store.handle edges_cf)
        (edge_rows (db.rows store.handle edges_cf))
