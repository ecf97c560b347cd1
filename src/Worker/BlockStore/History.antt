-- ===== src/Worker/BlockStore/History.antt =====
-- The stores that calls to `BlockStore` reach from an empty one.
use any_cache.Base.{ℕ, ◌≡◌, some, List, nat_key}
use any_cache.Common.Status.{StatusCode, Reply}
use any_cache.Common.Tier.{TierType}
use any_cache.Worker.Policy.{CachePolicy}
use any_cache.Worker.StorageTier.{Os, StorageTier}
use any_cache.Worker.BlockStore.{BlockStore, Options, evict_blocks, open_store}
use any_cache.Worker.BlockStore.Create.{create_block, ensure_block}
use any_cache.Worker.BlockStore.Access.{promote_block, read_block, write_block, remove_block}

module _ (p : CachePolicy) where
  open p use {State}

  -- One call that returns, whatever the file system, the metadata store and the clock answer.
  pub data Call : BlockStore State → BlockStore State → Type 0 where
    create :
        (os : Os) (now id size : ℕ) {s s' : BlockStore State} {code : StatusCode}
        → create_block p os now id size s ≡ some (s', code)
        → Call s s'
    ensure :
        (os : Os) (now id size : ℕ) {s s' : BlockStore State} {code : StatusCode}
        → ensure_block p os now id size s ≡ some (s', code)
        → Call s s'
    read :
        (os reads writes : Os) (now id size offset : ℕ) {s s' : BlockStore State}
        {r : Reply (List ℕ)}
        → read_block p os reads writes now id size offset s ≡ some (s', r)
        → Call s s'
    write :
        (os : Os) (id : ℕ) (bytes : List ℕ) (offset : ℕ) {s s' : BlockStore State}
        {code : StatusCode}
        → write_block p os id bytes offset s ≡ some (s', code)
        → Call s s'
    promote :
        (reads writes : Os) (id : ℕ) (target : TierType) {s s' : BlockStore State}
        {code : StatusCode}
        → promote_block reads writes id target s ≡ some (s', code)
        → Call s s'
    evict :
        (tier : TierType) (needed : ℕ) {s s' : BlockStore State} {evicted : List ℕ}
        → evict_blocks p tier needed s ≡ some (s', evicted)
        → Call s s'
    remove : (id : ℕ) {s s' : BlockStore State} → (remove_block p id s).0 ≡ s' → Call s s'

  pub data Reach : BlockStore State → Type 0 where
    opened : (opts : Options) (tiers : List StorageTier) → Reach (open_store p opts tiers)
    then_call : {s s' : BlockStore State} → Reach s → Call s s' → Reach s'
