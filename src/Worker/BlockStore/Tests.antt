-- ===== src/Worker/BlockStore/Tests.antt =====
-- The theorem on `BlockStore` at a memory tier and a disk tier, with a block that was created.
use any_cache.Base.{◌*◌, ◌/◌, true, Option, some, List, [], ◌∷◌, nat_key, ltb}
use any_cache.Common.Status.{StatusCode}
use any_cache.Common.Tier.{k_memory, k_ssd}
use any_cache.Worker.Policy.Lru.{LruPolicy, lru}
use any_cache.Worker.StorageTier.{Os, StorageTier}
use any_cache.Worker.StorageTier
use any_cache.Worker.Policy.Lru
use any_cache.Worker.BlockStore.{Options, BlockStore, open_store}
use any_cache.Worker.BlockStore.Create.{create_block, new_meta}
use any_cache.Worker.BlockStore.History.{create}

abbrev opts : Options
opts = record {
  auto_promote_access_threshold = 3;
  above_high_watermark = λ used capacity. ltb (capacity * 95) (used * 100);
  low_watermark_bytes = λ capacity. capacity * 80 / 100;
}

abbrev tiers : List StorageTier
tiers = StorageTier.create k_ssd 100 ∷ StorageTier.create k_memory 10 ∷ []

abbrev answers : Os
answers = record { allocates = true; opens = true; truncates = true; moves = some 9; stores = true }

abbrev created : Option (BlockStore LruPolicy × StatusCode)
created = create_block lru answers 1000 7 4 (open_store lru opts tiers)

abbrev after : BlockStore LruPolicy
after = record {
  opts = opts;
  tiers =
      record {
        type = k_memory;
        capacity = 10;
        used_bytes = 4;
        blocks = (7, record { capacity = 4; buffer = 0 ∷ 0 ∷ 0 ∷ 0 ∷ [] }) ∷ [];
        files = [];
      }
      ∷ StorageTier.create k_ssd 100
      ∷ [];
  cache_mgr = record {
    policy = record { order = record { cells = (0, 7) ∷ []; fresh = 1 }; index = (7, 0) ∷ [] };
    block_sizes = (7, 4) ∷ [];
    total_cached_bytes = 4;
  };
  meta_store = (7, new_meta 1000 7 4 k_memory) ∷ [];
  block_tier_map = (7, k_memory) ∷ [];
}
