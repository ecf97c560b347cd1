-- ===== src/Worker/MetaStore.antt =====
-- `BlockMeta` and the `MetaStore` of src/worker/meta_store.{h,cpp}. Whether a put succeeds is an
-- argument: in memory it always does, and with RocksDB it may fail and then leaves the rows as they
-- are. Deletes take effect, as they do in memory. The clock counts from its epoch.
use any_cache.Base.{ℕ, Bool, true, false, Option, List, [], Map, find, insert, erase, nat_key, map}
use any_cache.Common.Status.{StatusCode, k_ok, k_io_error}
use any_cache.Common.Tier.{TierType}

pub record BlockMeta : Type 0 where
  pub block_id : ℕ
  pub length : ℕ
  pub tier : TierType
  pub create_time_ms : ℕ
  pub last_access_time_ms : ℕ
  pub access_count : ℕ

abbrev pub InMemoryMetaStore : Type 0
InMemoryMetaStore = Map ℕ BlockMeta

abbrev pub close : InMemoryMetaStore → InMemoryMetaStore
close store = []

abbrev pub put_block_meta :
    Bool → ℕ → BlockMeta → InMemoryMetaStore → InMemoryMetaStore × StatusCode
put_block_meta true id meta store = (insert id meta store, k_ok)
put_block_meta false id meta store = (store, k_io_error)

-- `none` is the status `NotFound`.
abbrev pub get_block_meta : ℕ → InMemoryMetaStore → Option BlockMeta
get_block_meta id store = find id store

abbrev pub delete_block_meta : ℕ → InMemoryMetaStore → InMemoryMetaStore
delete_block_meta id store = erase id store

abbrev pub scan_all : InMemoryMetaStore → List BlockMeta
scan_all store = map (λ e. e.1) store
