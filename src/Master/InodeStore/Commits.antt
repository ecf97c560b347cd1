-- ===== src/Master/InodeStore/Commits.antt =====
-- What is read after a commit.
use any_cache.Base.{
  ℕ, ◌<◌, ◌≡◌, ◌≢◌, refl, ap, sym, ◌∙◌, true, some, List, [], ◌∷◌, length, if_pos, if_neg, inl, inr,
  arith, u64, Bool-cases,
}
use any_cache.Common.Status.{StatusCode, is_ok, done}
use any_cache.Common.Database.{
  Database, IsLawful, inodes_cf, WriteBatch, put_op, Got, value, written, ColumnFamily-discrete,
  Bytes-discrete,
}
use any_cache.Master.Inode.{Inode}
use any_cache.Master.OwnerGroupDict.Ids.{IsNamed}
use any_cache.Master.InodeEntry.{
  OwnerGroupDict, is_dirty, serialize_inode_entry, deserialize_inode_entry, encode_big_endian64,
  decode_big_endian64, encode_inode_key, owner_dict_key, group_dict_key, encode_owner_dict_key,
  encode_group_dict_key, serialize_owners, serialize_groups, encode_next_id_key,
  encode_next_id_value, native_bytes,
}
use any_cache.Master.InodeEntry.Words.{
  encode_nil, decode-encode_big_endian64, native_word-native_bytes,
}
use any_cache.Master.InodeEntry.Roundtrip.{FitsEntry, deserialize-serialize_inode_entry}
use any_cache.Master.InodeStore.{
  InodeStore, get_inode, get_next_id, commit_batch, batch_put_inode, batch_put_next_id,
  maybe_persist_dict,
}

encode_ne : (a b : ℕ) → a < u64 → b < u64 → a ≢ b → encode_big_endian64 a ≢ encode_big_endian64 b
encode_ne a b ha hb ne same =
    let read_a = decode-encode_big_endian64 a [] ha in
    let read_b = decode-encode_big_endian64 b [] hb in
    let both : some a ≡ some b =
      sym read_a ∙ ap decode_big_endian64 (encode_nil a ∙ same ∙ sym (encode_nil b)) ∙ read_b in
    ne (ground (arith, both))

written_own :
    (key data_ : List ℕ) (batch : WriteBatch) (old : Got)
    → written inodes_cf key (put_op inodes_cf key data_ ∷ batch) old
      ≡ written inodes_cf key batch (value data_)
unfolding written
written_own key data_ batch old = ap (written inodes_cf key batch) (
    if_pos (ColumnFamily-discrete inodes_cf inodes_cf) refl _ _
    ∙ if_pos (Bytes-discrete key key) refl _ _)

written_nil : (key : List ℕ) (got : Got) → written inodes_cf key [] got ≡ got
unfolding written
written_nil key got = refl

written_other :
    (key k data_ : List ℕ) (batch : WriteBatch) (old : Got)
    → k ≢ key
    → written inodes_cf key (put_op inodes_cf k data_ ∷ batch) old ≡ written inodes_cf key batch old
unfolding written
written_other key k data_ batch old ne = ap (written inodes_cf key batch) (
    if_pos (ColumnFamily-discrete inodes_cf inodes_cf) refl _ _
    ∙ if_neg (Bytes-discrete k key) ne _ _)

-- The row of the inode among the rows of a batch that holds it.
written-maybe_persist_dict :
    (id : ℕ) (data_ : List ℕ) (dict : OwnerGroupDict) (old : Got)
    → id < owner_dict_key
    → written inodes_cf
        (encode_inode_key id)
        (maybe_persist_dict dict (put_op inodes_cf (encode_inode_key id) data_ ∷ [])).1
        old
      ≡ value data_
unfolding maybe_persist_dict
written-maybe_persist_dict id data_ dict old small =
    let key = encode_inode_key id in
    let owners_ne = encode_ne owner_dict_key id (omega arith) (omega arith) (λ e. omega arith) in
    let groups_ne = encode_ne group_dict_key id (omega arith) (omega arith) (λ e. omega arith) in
    elim (Bool-cases (is_dirty dict)) [
      | inr clean ↦
          rw (clean, maybe_persist_dict)
            (written_own key data_ [] old ∙ written_nil key (value data_))
      | inl dirty ↦
          rw (dirty, maybe_persist_dict)
            (written_own key data_ _ old
              ∙ written_other key encode_owner_dict_key (serialize_owners dict) _ (value data_)
                  owners_ne
              ∙ written_other key encode_group_dict_key (serialize_groups dict) [] (value data_)
                  groups_ne
              ∙ written_nil key (value data_))
    ]

-- Persisting the dictionaries leaves what they read.
deserialize-maybe_persist_dict :
    (id : ℕ) (data_ : List ℕ) (dict : OwnerGroupDict) (batch : WriteBatch)
    → deserialize_inode_entry id data_ (maybe_persist_dict dict batch).0
      ≡ deserialize_inode_entry id data_ dict
unfolding maybe_persist_dict deserialize_inode_entry
deserialize-maybe_persist_dict id data_ dict batch = elim (Bool-cases (is_dirty dict)) [
  | inr clean ↦ rw (clean, maybe_persist_dict) refl
  | inl dirty ↦ rw (dirty, maybe_persist_dict) refl
]

module _ (db : Database) (lawful : IsLawful db) where
  -- The outcome of committing a batch that holds an inode.
  abbrev pub put_and_commit : ℕ → Inode → InodeStore db → InodeStore db × StatusCode
  put_and_commit id inode store =
      commit_batch db (batch_put_inode id inode store.dict []).1
        (record store { dict = (batch_put_inode id inode store.dict []).0 })

  write_ok :
      (batch : WriteBatch) (store : InodeStore db)
      → is_ok (commit_batch db batch store).1 ≡ true
      → (db.write store.handle batch).1 ≡ true
  unfolding commit_batch
  write_ok batch store ok = elim (Bool-cases (db.write store.handle batch).1) [
    | inl wrote ↦ wrote
    | inr bad ↦ absurd (ground (arith, ok, bad))
  ]

  -- A commit that succeeds gives the inode back to the next read of its id.
  committed-get_inode :
      (id : ℕ) (data_ : List ℕ) (batch : WriteBatch) (store : InodeStore db)
      → is_ok (commit_batch db batch store).1 ≡ true
      → ((old : Got) → written inodes_cf (encode_inode_key id) batch old ≡ value data_)
      → get_inode db id (commit_batch db batch store).0
        ≡ done (deserialize_inode_entry id data_ store.dict)
  unfolding commit_batch get_inode
  committed-get_inode id data_ batch store ok row =
      let wrote = write_ok batch store ok in
      let got =
        lawful.get-write store.handle batch inodes_cf (encode_inode_key id) wrote
        ∙ row (db.get store.handle inodes_cf (encode_inode_key id)) in
      ground (arith, got)

  -- After a batch with an inode is committed, a read of its id gives the inode, but for its
  -- children: when its id is none of the special keys, its numbers fit their fields, and both
  -- dictionaries name what their ids were given for and are not full.
  pub get_inode-commit_batch :
      (inode : Inode) (store : InodeStore db)
      → inode.id < owner_dict_key
      → FitsEntry inode
      → IsNamed store.dict.owners
      → IsNamed store.dict.groups
      → length store.dict.owners.names < 255
      → length store.dict.groups.names < 255
      → is_ok (put_and_commit inode.id inode store).1 ≡ true
      → get_inode db inode.id (put_and_commit inode.id inode store).0
        ≡ done (record inode { children = [] })
  unfolding batch_put_inode
  get_inode-commit_batch inode store small fits owners groups room_o room_g ok =
      let dict = (serialize_inode_entry inode store.dict).0 in
      let data_ = (serialize_inode_entry inode store.dict).1 in
      let batch = put_op inodes_cf (encode_inode_key inode.id) data_ ∷ [] in
      committed-get_inode inode.id data_ (maybe_persist_dict dict batch).1
        (record store { dict = (maybe_persist_dict dict batch).0 }) ok
        (λ old. written-maybe_persist_dict inode.id data_ dict old small)
      ∙ ap done (
          deserialize-maybe_persist_dict inode.id data_ dict batch
          ∙ deserialize-serialize_inode_entry inode store.dict fits owners groups room_o room_g)

  -- The next id that was committed is what a restart reads, whatever stood there before.
  pub get_next_id-commit_batch :
      (next_id : ℕ) (store : InodeStore db)
      → next_id < u64
      → is_ok (commit_batch db (batch_put_next_id next_id []) store).1 ≡ true
      → get_next_id db (commit_batch db (batch_put_next_id next_id []) store).0 ≡ done next_id
  unfolding commit_batch get_next_id native_bytes
  get_next_id-commit_batch next_id store small ok =
      let batch = batch_put_next_id next_id [] in
      let old = db.get store.handle inodes_cf encode_next_id_key in
      let got =
        lawful.get-write store.handle batch inodes_cf encode_next_id_key (write_ok batch store ok)
        ∙ written_own encode_next_id_key (encode_next_id_value next_id) [] old
        ∙ written_nil encode_next_id_key (value (encode_next_id_value next_id)) in
      let word = native_word-native_bytes 8 next_id small in ground (arith, got, word)
