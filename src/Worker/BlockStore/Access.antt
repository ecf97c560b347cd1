-- ===== src/Worker/BlockStore/Access.antt =====
-- `ReadBlock`, `WriteBlock`, `RemoveBlock`, `PromoteBlock`, `MaybeAutoPromote` and `Recover` of
-- src/worker/block_store.cpp.
use any_cache.Base.{
  ℕ, Bool, false, Option, none, some, List, [], ◌∷◌, find, insert, erase, nat_key, ltb, ◌==◌,
  if◌then◌else◌, ite, ◌+u64◌,
}
use any_cache.Common.Status.{StatusCode, is_ok, k_ok, k_not_found, Reply, done, failed, fault}
use any_cache.Common.Tier.{TierType, TierType-discrete, k_memory, k_ssd, k_hdd}
use any_cache.Worker.Policy.{CachePolicy}
use any_cache.Worker.CacheManager.{on_block_access, on_block_insert, on_block_remove}
use any_cache.Worker.MetaStore.{
  BlockMeta, get_block_meta, put_block_meta, delete_block_meta, scan_all,
}
use any_cache.Worker.StorageTier.{Os, StorageTier, get_available_bytes, export_block, import_block}
use any_cache.Worker.StorageTier
use any_cache.Worker.BlockStore.{BlockStore, find_tier, set_tier_at, find_block_tier}

abbrev pub faster : TierType → Option TierType
faster k_hdd = some k_ssd
faster k_ssd = some k_memory
faster k_memory = none

-- The tier of the metadata holds the block.
unfoldable pub is_held : BlockMeta → List StorageTier → Bool
is_held meta tiers = elim (find_tier meta.tier tiers) [
  | none ↦ false
  | some (i, t) ↦ StorageTier.has_block meta.block_id t
]

module _ {State : Type 0} where
  -- The move to the new tier, once it has the block.
  unfoldable pub finish_promote :
      Bool → ℕ → ℕ → StorageTier → ℕ → StorageTier → TierType → BlockStore State → BlockStore State
  finish_promote stores id i src j dst target s = record s {
    tiers = set_tier_at i (StorageTier.remove_block id src).0 (set_tier_at j dst s.tiers);
    meta_store = elim (get_block_meta id s.meta_store) [
      | none ↦ s.meta_store
      | some meta ↦ (put_block_meta stores id (record meta { tier = target }) s.meta_store).0
    ];
    block_tier_map = insert id target s.block_tier_map;
  }

  -- What the import gave: a failed one leaves what it allocated in the target tier.
  unfoldable pub promote_imported :
      Bool
      → ℕ
      → ℕ
      → StorageTier
      → ℕ
      → TierType
      → BlockStore State
      → Option (StorageTier × StatusCode)
      → Option (BlockStore State × StatusCode)
  unfolding finish_promote
  promote_imported stores id i src j target s none = none
  promote_imported stores id i src j target s (some (dst, status)) =
      if is_ok status
      then some (finish_promote stores id i src j dst target s, k_ok)
      else some (record s { tiers = set_tier_at j dst s.tiers }, status)

  unfoldable pub promote_exported :
      Os
      → ℕ
      → ℕ
      → StorageTier
      → ℕ
      → StorageTier
      → TierType
      → BlockStore State
      → Reply (List ℕ)
      → Option (BlockStore State × StatusCode)
  unfolding promote_imported
  promote_exported os id i src j dst target s (done data_) =
      promote_imported os.stores id i src j target s (import_block os id data_ dst)
  promote_exported os id i src j dst target s (failed status) = some (s, status)
  promote_exported os id i src j dst target s fault = none

  unfoldable pub promote_block :
      Os → Os → ℕ → TierType → BlockStore State → Option (BlockStore State × StatusCode)
  unfolding promote_exported
  promote_block reads writes id target s = elim (find_block_tier id s) [
    | none ↦ some (s, k_not_found)
    | some (i, src) ↦
        ite (TierType-discrete src.type target) (some (s, k_ok)) (elim (find_tier target s.tiers) [
          | none ↦ some (s, k_not_found)
          | some (j, dst) ↦
              promote_exported writes id i src j dst target s (export_block reads id src)
        ])
  ]

  abbrev pub store_of : Option (BlockStore State × StatusCode) → Option (BlockStore State)
  store_of none = none
  store_of (some (s, _)) = some s

  unfoldable pub promote_if_space :
      Os → Os → ℕ → BlockMeta → TierType → BlockStore State → Option (BlockStore State)
  unfolding promote_block
  promote_if_space reads writes id meta target s = elim (find_tier target s.tiers) [
    | none ↦ some s
    | some (j, dst) ↦
        if ltb (get_available_bytes dst) meta.length
        then some s
        else store_of (promote_block reads writes id target s)
  ]

  unfoldable pub maybe_auto_promote :
      Os → Os → ℕ → BlockMeta → BlockStore State → Option (BlockStore State)
  unfolding promote_if_space
  maybe_auto_promote reads writes id meta s =
      if s.opts.auto_promote_access_threshold == 0
      then some s
      else if ltb meta.access_count s.opts.auto_promote_access_threshold
      then some s
      else elim (find id s.block_tier_map) [
        | none ↦ some s
        | some current ↦ elim (faster current) [
          | none ↦ some s
          | some target ↦ promote_if_space reads writes id meta target s
        ]
      ]

module _ (p : CachePolicy) where
  open p use {State}

  abbrev pub with_bytes :
      List ℕ → Option (BlockStore State) → Option (BlockStore State × Reply (List ℕ))
  with_bytes bytes none = none
  with_bytes bytes (some s) = some (s, done bytes)

  abbrev pub touched : ℕ → BlockMeta → BlockMeta
  touched now meta = record meta {
    last_access_time_ms = now;
    access_count = meta.access_count +u64 1;
  }

  -- The bookkeeping of a read that gave its bytes: it goes on where the metadata are not stored.
  unfoldable pub finish_read :
      Os
      → Os
      → ℕ
      → ℕ
      → BlockStore State
      → Reply (List ℕ)
      → Option (BlockStore State × Reply (List ℕ))
  finish_read reads writes now id s (done bytes) =
      let seen = record s { cache_mgr = on_block_access p id s.cache_mgr } in
      elim (get_block_meta id s.meta_store) [
        | none ↦ some (seen, done bytes)
        | some meta ↦ with_bytes bytes (
            maybe_auto_promote reads writes id (touched now meta) (record seen {
              meta_store = (put_block_meta reads.stores id (touched now meta) s.meta_store).0;
            }))
      ]
  finish_read reads writes now id s (failed status) = some (s, failed status)
  finish_read reads writes now id s fault = none

  unfoldable pub read_block :
      Os → Os → Os → ℕ → ℕ → ℕ → ℕ → BlockStore State → Option (BlockStore State × Reply (List ℕ))
  unfolding finish_read
  read_block os reads writes now id size offset s = elim (find_block_tier id s) [
    | none ↦ some (s, failed k_not_found)
    | some (i, t) ↦ finish_read reads writes now id s (StorageTier.read_block os id size offset t)
  ]

  unfoldable pub finish_write :
      ℕ → ℕ → BlockStore State → Reply StorageTier → Option (BlockStore State × StatusCode)
  finish_write id i s (done t) = some (
    record s { tiers = set_tier_at i t s.tiers; cache_mgr = on_block_access p id s.cache_mgr },
    k_ok,
  )
  finish_write id i s (failed status) = some (s, status)
  finish_write id i s fault = none

  unfoldable pub write_block :
      Os → ℕ → List ℕ → ℕ → BlockStore State → Option (BlockStore State × StatusCode)
  unfolding finish_write
  write_block os id bytes offset s = elim (find_block_tier id s) [
    | none ↦ some (s, k_not_found)
    | some (i, t) ↦ finish_write id i s (StorageTier.write_block os id bytes offset t)
  ]

  unfoldable pub remove_block : ℕ → BlockStore State → BlockStore State × StatusCode
  remove_block id s = (
    record s {
      tiers = elim (find_block_tier id s) [
        | none ↦ s.tiers
        | some (i, t) ↦ set_tier_at i (StorageTier.remove_block id t).0 s.tiers
      ];
      cache_mgr = on_block_remove p id s.cache_mgr;
      meta_store = delete_block_meta id s.meta_store;
      block_tier_map = erase id s.block_tier_map;
    },
    k_ok,
  )

  unfoldable pub recover_all : List BlockMeta → BlockStore State → BlockStore State
  unfolding is_held
  recover_all [] s = s
  recover_all (meta ∷ metas) s = recover_all metas (
      if is_held meta s.tiers
      then record s {
        block_tier_map = insert meta.block_id meta.tier s.block_tier_map;
        cache_mgr = on_block_insert p meta.block_id meta.length s.cache_mgr;
      }
      else record s { meta_store = delete_block_meta meta.block_id s.meta_store })

  unfoldable pub recover : BlockStore State → BlockStore State
  unfolding recover_all
  recover s = recover_all (scan_all s.meta_store) s
