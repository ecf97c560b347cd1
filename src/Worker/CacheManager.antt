-- ===== src/Worker/CacheManager.antt =====
-- `CacheManager` of src/worker/cache_manager.{h,cpp}, over any policy. Sizes are `size_t`.
pub mod Accounts
pub mod Candidates
mod Tests
use any_cache.Base.{
  ℕ, zero, suc, Bool, true, false, ◌&&◌, Option, none, some, List, [], ◌∷◌, Map, find, insert,
  erase, nat_key, length, ltb, ◌==◌, if◌then◌else◌, ◌+u64◌, ◌-u64◌,
}
use any_cache.Worker.Policy.{CachePolicy, invalid_block_id}
use any_cache.Worker.Policy.Lru.{lru}
use any_cache.Worker.Policy.Lfu.{lfu}

pub data PolicyType : Type 0 where
  k_lru k_lfu : PolicyType

-- The switch of the constructor.
pub policy_of : PolicyType → CachePolicy
policy_of k_lru = lru
policy_of k_lfu = lfu

pub record CacheManager (State : Type 0) : Type 0 where
  pub policy : State
  pub block_sizes : Map ℕ ℕ
  pub total_cached_bytes : ℕ

module _ (p : CachePolicy) where
  open p use {State}

  abbrev pub create : CacheManager State
  create = record { policy = p.empty; block_sizes = []; total_cached_bytes = 0 }

  unfoldable pub on_block_access : ℕ → CacheManager State → CacheManager State
  on_block_access id m = record m { policy = p.on_access id m.policy }

  unfoldable pub on_block_insert : ℕ → ℕ → CacheManager State → CacheManager State
  on_block_insert id size m = record {
    policy = p.on_insert id m.policy;
    block_sizes = insert id size m.block_sizes;
    total_cached_bytes = m.total_cached_bytes +u64 size;
  }

  -- `total_cached_bytes_ -= it->second; block_sizes_.erase(it)`, where there is an entry.
  unfoldable pub forget : ℕ → CacheManager State → CacheManager State
  forget id m = elim (find id m.block_sizes) [
    | none ↦ m
    | some size ↦ record m {
      block_sizes = erase id m.block_sizes;
      total_cached_bytes = m.total_cached_bytes -u64 size;
    }
  ]

  unfoldable pub on_block_remove : ℕ → CacheManager State → CacheManager State
  unfolding forget
  on_block_remove id m = forget id (record m { policy = p.on_remove id m.policy })

  abbrev pub prepend :
      ℕ → Option (CacheManager State × List ℕ) → Option (CacheManager State × List ℕ)
  prepend v none = none
  prepend v (some (m, victims)) = some (m, v ∷ victims)

  -- What `freed` grows by.
  abbrev pub freed_with : Option ℕ → ℕ → ℕ
  freed_with none freed = freed
  freed_with (some size) freed = freed +u64 size

  -- The loop of `GetEvictionCandidates`; `none` where it is not done within its fuel.
  unfoldable pub evict_loop : ℕ → ℕ → ℕ → CacheManager State → Option (CacheManager State × List ℕ)
  evict_loop zero needed freed m = none
  evict_loop (suc fuel) needed freed m = elim (ltb freed needed && ltb 0 (p.size m.policy)) [
    | false ↦ some (m, [])
    | true ↦ elim (p.evict m.policy) [
      | none ↦ none
      | some (s, victim) ↦ elim (victim == invalid_block_id) [
        | true ↦ some (record m { policy = s }, [])
        | false ↦ prepend victim (
            evict_loop fuel needed (freed_with (find victim m.block_sizes) freed)
              (forget victim (record m { policy = s })))
      ]
    ]
  ]

  -- Each round takes a block from the policy, so its size is fuel enough.
  unfoldable pub get_eviction_candidates :
      ℕ → CacheManager State → Option (CacheManager State × List ℕ)
  get_eviction_candidates needed m = evict_loop (suc (p.size m.policy)) needed 0 m

  unfoldable pub get_cached_block_count : CacheManager State → ℕ
  get_cached_block_count m = length m.block_sizes

  unfoldable pub get_cached_bytes : CacheManager State → ℕ
  get_cached_bytes m = m.total_cached_bytes
