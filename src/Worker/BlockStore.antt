-- ===== src/Worker/BlockStore.antt =====
-- `BlockStore` of src/worker/block_store.{h,cpp}, over any cache policy: which tier holds each
-- block, its metadata, and eviction from a tier. A pointer to a tier is its index; the file system
-- and the clock are arguments; `none` stands for a call that does not return or is undefined.
pub mod Create
pub mod Access
pub mod Index
pub mod Calls
pub mod History
mod Tests
use any_cache.Base.{
  ℕ, zero, suc, ◌+◌, ◌-◌, ◌≤◌, Bool, true, false, Option, none, some, List, [], ◌∷◌, ◌++◌, Map,
  find, has, insert, erase, nat_key, ltb, leb, ◌==◌, if◌then◌else◌, ite,
}
use any_cache.Common.Tier.{TierType, TierType-discrete, speed}
use any_cache.Worker.Policy.{CachePolicy}
use any_cache.Worker.CacheManager.{CacheManager, get_eviction_candidates}
use any_cache.Worker.CacheManager
use any_cache.Worker.MetaStore.{InMemoryMetaStore, delete_block_meta}
use any_cache.Worker.StorageTier.{StorageTier, get_available_bytes}
use any_cache.Worker.StorageTier

-- `usage > auto_evict_high_watermark` of the used bytes and the capacity, and the capacity times
-- `auto_evict_low_watermark`: the source computes them in floating point.
pub record Options : Type 0 where
  pub auto_promote_access_threshold : ℕ
  pub above_high_watermark : ℕ → ℕ → Bool
  pub low_watermark_bytes : ℕ → ℕ

pub record BlockStore (State : Type 0) : Type 0 where
  pub opts : Options
  pub tiers : List StorageTier
  pub cache_mgr : CacheManager State
  pub meta_store : InMemoryMetaStore
  pub block_tier_map : Map ℕ TierType

-- The constructor's sort: memory first, then SSD, then HDD.
unfoldable pub sort_in : StorageTier → List StorageTier → List StorageTier
sort_in t [] = t ∷ []
sort_in t (u ∷ us) =
    let rest = sort_in t us in if leb (speed t.type) (speed u.type) then t ∷ u ∷ us else u ∷ rest

unfoldable pub sort_tiers : List StorageTier → List StorageTier
unfolding sort_in
sort_tiers [] = []
sort_tiers (t ∷ ts) = sort_in t (sort_tiers ts)

abbrev pub next_tier : Option (ℕ × StorageTier) → Option (ℕ × StorageTier)
next_tier none = none
next_tier (some (i, t)) = some (suc i, t)

unfoldable pub find_tier : TierType → List StorageTier → Option (ℕ × StorageTier)
find_tier type [] = none
find_tier type (t ∷ ts) =
    ite (TierType-discrete t.type type) (some (0, t)) (next_tier (find_tier type ts))

-- The first tier with room for the block.
unfoldable pub find_space : ℕ → List StorageTier → Option (ℕ × StorageTier)
find_space size [] = none
find_space size (t ∷ ts) =
    let rest = next_tier (find_space size ts) in
    if leb size (get_available_bytes t) then some (0, t) else rest

-- What a call through a pointer leaves of the tier it points to.
abbrev pub set_tier_at : ℕ → StorageTier → List StorageTier → List StorageTier
set_tier_at i t' [] = []
set_tier_at zero t' (t ∷ ts) = t' ∷ ts
set_tier_at (suc i) t' (t ∷ ts) = t ∷ set_tier_at i t' ts

module _ {State : Type 0} where
  unfoldable pub find_block_tier : ℕ → BlockStore State → Option (ℕ × StorageTier)
  unfolding find_tier
  find_block_tier id s = elim (find id s.block_tier_map) [
    | none ↦ none
    | some type ↦ find_tier type s.tiers
  ]

  unfoldable pub has_block : ℕ → BlockStore State → Bool
  has_block id s = has id s.block_tier_map

  unfoldable pub get_tier_used_bytes : TierType → BlockStore State → ℕ
  unfolding find_tier
  get_tier_used_bytes type s = elim (find_tier type s.tiers) [
    | none ↦ 0
    | some (i, t) ↦ t.used_bytes
  ]

  unfoldable pub get_tier_capacity : TierType → BlockStore State → ℕ
  unfolding find_tier
  get_tier_capacity type s = elim (find_tier type s.tiers) [ none ↦ 0 | some (i, t) ↦ t.capacity ]

  unfoldable pub get_total_cached_bytes : BlockStore State → ℕ
  get_total_cached_bytes s = s.cache_mgr.total_cached_bytes

  -- The block leaves its tier, the metadata and the map.
  unfoldable pub drop_block : ℕ → ℕ → StorageTier → BlockStore State → BlockStore State
  drop_block id i t s = record s {
    tiers = set_tier_at i (StorageTier.remove_block id t).0 s.tiers;
    meta_store = delete_block_meta id s.meta_store;
    block_tier_map = erase id s.block_tier_map;
  }

  -- `t && t->GetType() == tier`
  unfoldable pub block_in_tier : ℕ → TierType → BlockStore State → Option (ℕ × StorageTier)
  unfolding find_block_tier
  block_in_tier bid tier s = elim (find_block_tier bid s) [
    | none ↦ none
    | some (i, t) ↦ ite (TierType-discrete t.type tier) (some (i, t)) none
  ]

  -- The loop over the candidates: those of other tiers are passed over.
  unfoldable pub evict_candidates : TierType → List ℕ → BlockStore State → BlockStore State × List ℕ
  unfolding block_in_tier drop_block
  evict_candidates tier [] s = (s, [])
  evict_candidates tier (bid ∷ bids) s = elim (block_in_tier bid tier s) [
    | none ↦ evict_candidates tier bids s
    | some (i, t) ↦
        let (s', evicted) = evict_candidates tier bids (drop_block bid i t s) in (s', bid ∷ evicted)
  ]

module _ (p : CachePolicy) where
  open p use {State}

  unfoldable pub evict_blocks : TierType → ℕ → BlockStore State → Option (BlockStore State × List ℕ)
  unfolding evict_candidates
  evict_blocks tier bytes_needed s = elim (get_eviction_candidates p bytes_needed s.cache_mgr) [
    | none ↦ none
    | some (m, candidates) ↦ some (evict_candidates tier candidates (record s { cache_mgr = m }))
  ]

  abbrev pub first_of : Option (BlockStore State × List ℕ) → Option (BlockStore State)
  first_of none = none
  first_of (some (s, _)) = some s

  -- The bytes to free, 0 where the tier is not above its high watermark.
  abbrev pub bytes_to_free : Options → StorageTier → ℕ
  bytes_to_free opts t =
      if t.capacity == 0
      then 0
      else if opts.above_high_watermark t.used_bytes t.capacity
      then (if ltb (opts.low_watermark_bytes t.capacity) t.used_bytes
          then t.used_bytes - opts.low_watermark_bytes t.capacity
          else 0)
      else 0

  unfoldable pub maybe_auto_evict : TierType → BlockStore State → Option (BlockStore State)
  unfolding find_tier evict_blocks
  maybe_auto_evict tier s = elim (find_tier tier s.tiers) [
    | none ↦ some s
    | some (i, t) ↦
        let to_free = bytes_to_free s.opts t in
        if to_free == 0 then some s else first_of (evict_blocks tier to_free s)
  ]

  -- The constructor: sorted tiers, and empty maps.
  unfoldable pub open_store : Options → List StorageTier → BlockStore State
  unfolding sort_tiers
  open_store opts tiers = record {
    opts = opts;
    tiers = sort_tiers tiers;
    cache_mgr = CacheManager.create p;
    meta_store = [];
    block_tier_map = [];
  }
