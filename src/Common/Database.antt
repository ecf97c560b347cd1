-- ===== src/Common/Database.antt =====
-- What src/master/inode_store.cpp uses of the key-value database RocksDB: an interface, since the
-- code of the database is not part of the repository, and what its documentation promises.
use any_cache.Base.{ℕ, Bool, true, false, List, [], ◌∷◌, map, ◌≡◌, ite, ℕ_discrete}

-- The column families of the inode store.
pub data ColumnFamily : Type 0 where
  inodes_cf edges_cf : ColumnFamily

unfoldable pub ColumnFamily-discrete : Discrete ColumnFamily
ColumnFamily-discrete = hlevel

unfoldable pub Bytes-discrete : Discrete (List ℕ)
Bytes-discrete = hlevel ℕ_discrete

pub data WriteOp : Type 0 where
  put_op : ColumnFamily → List ℕ → List ℕ → WriteOp
  delete_op : ColumnFamily → List ℕ → WriteOp

-- `rocksdb::WriteBatch`: its operations in order.
abbrev pub WriteBatch : Type 0
WriteBatch = List WriteOp

-- What a read gives: a value, the status `NotFound`, or another error.
pub data Got : Type 0 where
  value : List ℕ → Got
  missing broken : Got

pub record Database : Type 1 where
  pub Handle : Type 0
  pub get : Handle → ColumnFamily → List ℕ → Got
  pub multi_get : Handle → ColumnFamily → List (List ℕ) → List Got
  -- With whether the write succeeded.
  pub write : Handle → WriteBatch → Handle × Bool
  -- The rows that an iterator meets from the first on, and whether it ends without an error.
  pub rows : Handle → ColumnFamily → List (List ℕ × List ℕ)
  pub scan_ok : Handle → ColumnFamily → Bool

-- What one key holds after the operations of a batch.
unfoldable pub written : ColumnFamily → List ℕ → WriteBatch → Got → Got
written cf key [] old = old
written cf key (put_op f k v ∷ batch) old =
    written cf key batch
      (ite (ColumnFamily-discrete f cf) (ite (Bytes-discrete k key) (value v) old) old)
written cf key (delete_op f k ∷ batch) old =
    written cf key batch
      (ite (ColumnFamily-discrete f cf) (ite (Bytes-discrete k key) missing old) old)

pub record IsLawful (db : Database) : Type 0 where
  pub get-write :
      (h : db.Handle) (batch : WriteBatch) (cf : ColumnFamily) (key : List ℕ)
      → (db.write h batch).1 ≡ true
      → db.get (db.write h batch).0 cf key ≡ written cf key batch (db.get h cf key)
  -- A batch is written whole or not at all.
  pub write_failed :
      (h : db.Handle) (batch : WriteBatch) → (db.write h batch).1 ≡ false → (db.write h batch).0 ≡ h
  pub multi_get-map :
      (h : db.Handle) (cf : ColumnFamily) (keys : List (List ℕ))
      → db.multi_get h cf keys ≡ map (db.get h cf) keys
