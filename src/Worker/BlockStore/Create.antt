-- ===== src/Worker/BlockStore/Create.antt =====
-- `CreateBlock` and `EnsureBlock` of src/worker/block_store.cpp.
use any_cache.Base.{ℕ, Bool, Option, none, some, List, [], ◌∷◌, insert, nat_key, ltb, if◌then◌else◌}
use any_cache.Common.Status.{StatusCode, is_ok, k_ok, k_resource_exhausted}
use any_cache.Common.Tier.{TierType}
use any_cache.Worker.Policy.{CachePolicy}
use any_cache.Worker.CacheManager.{on_block_insert}
use any_cache.Worker.MetaStore.{BlockMeta, InMemoryMetaStore, put_block_meta}
use any_cache.Worker.StorageTier.{Os, StorageTier, allocate_block, get_available_bytes}
use any_cache.Worker.BlockStore.{
  BlockStore, find_space, set_tier_at, has_block, evict_blocks, maybe_auto_evict,
}

abbrev pub new_meta : ℕ → ℕ → ℕ → TierType → BlockMeta
new_meta now id size tier = record {
  block_id = id;
  length = size;
  tier = tier;
  create_time_ms = now;
  last_access_time_ms = now;
  access_count = 0;
}

module _ (p : CachePolicy) where
  open p use {State}

  abbrev pub with_ok : Option (BlockStore State) → Option (BlockStore State × StatusCode)
  with_ok none = none
  with_ok (some s) = some (s, k_ok)

  -- The store once a tier and the metadata have the block.
  unfoldable pub record_block :
      ℕ → ℕ → ℕ → StorageTier → InMemoryMetaStore → BlockStore State → BlockStore State
  record_block id size i t meta_store s = record s {
    tiers = set_tier_at i t s.tiers;
    meta_store = meta_store;
    block_tier_map = insert id t.type s.block_tier_map;
    cache_mgr = on_block_insert p id size s.cache_mgr;
  }

  -- What the metadata store answers: an error leaves the block in its tier.
  unfoldable pub finish_put :
      ℕ
      → ℕ
      → ℕ
      → StorageTier
      → InMemoryMetaStore × StatusCode
      → BlockStore State
      → Option (BlockStore State × StatusCode)
  unfolding record_block
  finish_put id size i t (meta_store, status) s =
      if is_ok status
      then with_ok (maybe_auto_evict p t.type (record_block id size i t meta_store s))
      else some (record s { tiers = set_tier_at i t s.tiers; meta_store = meta_store }, status)

  unfoldable pub finish_create :
      Bool
      → ℕ
      → ℕ
      → ℕ
      → ℕ
      → StorageTier × StatusCode
      → BlockStore State
      → Option (BlockStore State × StatusCode)
  unfolding finish_put
  finish_create stores now id size i (t, status) s =
      if is_ok status
      then finish_put id size i t
          (put_block_meta stores id (new_meta now id size t.type) s.meta_store) s
      else some (record s { tiers = set_tier_at i t s.tiers }, status)

  -- After an eviction from the fastest tier, that tier or none.
  unfoldable pub create_evicted :
      Os → ℕ → ℕ → ℕ → Option (BlockStore State × List ℕ) → Option (BlockStore State × StatusCode)
  unfolding finish_create
  create_evicted os now id size none = none
  create_evicted os now id size (some (s, _)) = elim s.tiers [
    | [] ↦ none
    | t ∷ _ ↦
        if ltb (get_available_bytes t) size
        then some (s, k_resource_exhausted)
        else finish_create os.stores now id size 0 (allocate_block os id size t) s
  ]

  unfoldable pub create_block :
      Os → ℕ → ℕ → ℕ → BlockStore State → Option (BlockStore State × StatusCode)
  unfolding finish_create create_evicted
  create_block os now id size s = elim (find_space size s.tiers) [
    | some (i, t) ↦ finish_create os.stores now id size i (allocate_block os id size t) s
    | none ↦ elim s.tiers [
      | [] ↦ none
      | t ∷ _ ↦ create_evicted os now id size (evict_blocks p t.type size s)
    ]
  ]

  unfoldable pub ensure_block :
      Os → ℕ → ℕ → ℕ → BlockStore State → Option (BlockStore State × StatusCode)
  unfolding create_block
  ensure_block os now id size s =
      if has_block id s then some (s, k_ok) else create_block os now id size s
