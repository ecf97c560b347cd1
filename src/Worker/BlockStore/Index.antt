-- ===== src/Worker/BlockStore/Index.antt =====
-- Every operation of `BlockStore` keeps the map of the blocks' tiers and the metadata store about
-- the same blocks.
use any_cache.Base.{
  ℕ, ◌≡◌, refl, ap, sym, ◌∙◌, inl, inr, Bool, true, false, Option, none, some, List, [], ◌∷◌, find,
  has, nat_key, ltb, ◌==◌, arith, if◌then◌else◌, Option-cases, has-insert, has-erase, ℕ_discrete,
  ite,
}
use any_cache.Common.Status.{StatusCode, is_ok, Reply, done, failed, fault}
use any_cache.Common.Tier.{TierType, TierType-discrete}
use any_cache.Worker.MetaStore.{InMemoryMetaStore, put_block_meta, BlockMeta}
use any_cache.Worker.StorageTier.{Os, StorageTier, import_block, export_block, get_available_bytes}
use any_cache.Worker.BlockStore.{
  BlockStore, find_tier, find_block_tier, drop_block, block_in_tier, evict_candidates,
}
use any_cache.Worker.BlockStore.Access.{
  finish_promote, promote_imported, promote_exported, promote_block, promote_if_space,
  maybe_auto_promote, store_of, faster,
}

abbrev pub IsIndexed : {State : Type 0} → BlockStore State → Type 0
IsIndexed s = (id : ℕ) → has id s.block_tier_map ≡ has id s.meta_store

-- A call that returns gives an indexed store.
abbrev pub Gives : {State : Type 0} {A : Type 0} → Option (BlockStore State × A) → Type 0
Gives {State} {A} r = (s : BlockStore State) (a : A) → r ≡ some (s, a) → IsIndexed s

-- A put for a block that is there changes no block's presence.
pub has-put_block_meta :
    (stores : Bool) (id k : ℕ) (meta : BlockMeta) (store : InMemoryMetaStore)
    → has id store ≡ true
    → has k (put_block_meta stores id meta store).0 ≡ has k store
has-put_block_meta true id k meta store there = ground (arith, has-insert id k meta store, there)
has-put_block_meta false id k meta store there = refl

module _ {State : Type 0} where
  drop_block-IsIndexed :
      (id i : ℕ) (t : StorageTier) (s : BlockStore State)
      → IsIndexed s
      → IsIndexed (drop_block id i t s)
  unfolding drop_block
  drop_block-IsIndexed id i t s h j =
      has-erase id j s.block_tier_map
      ∙ ap (ite (ℕ_discrete id j) false) (h j)
      ∙ sym (has-erase id j s.meta_store)

  pub evict_candidates-IsIndexed :
      (tier : TierType) (bids : List ℕ) (s : BlockStore State)
      → IsIndexed s
      → IsIndexed (evict_candidates tier bids s).0
  unfolding evict_candidates
  evict_candidates-IsIndexed tier [] s h = h
  evict_candidates-IsIndexed tier (bid ∷ bids) s h =
      elim (Option-cases (block_in_tier bid tier s)) [
        | inl gone ↦ rw (gone, evict_candidates) (evict_candidates-IsIndexed tier bids s h)
        | inr ((i, t), found) ↦
            rw (found, evict_candidates)
              (evict_candidates-IsIndexed tier bids (drop_block bid i t s)
                (drop_block-IsIndexed bid i t s h))
      ]

  -- The stores of a call that returns.
  abbrev pub Kept : {A : Type 0} → Option (BlockStore State × A) → Type 0
  Kept none = Unit
  Kept (some (s, _)) = IsIndexed s

  abbrev pub KeptStore : Option (BlockStore State) → Type 0
  KeptStore none = Unit
  KeptStore (some s) = IsIndexed s

  pub if-Kept :
      {A : Type 0} (b : Bool) (x y : Option (BlockStore State × A))
      → Kept x
      → Kept y
      → Kept (if b then x else y)
  if-Kept true x y hx hy = hx
  if-Kept false x y hx hy = hy

  pub if-KeptStore :
      (b : Bool) (x y : Option (BlockStore State))
      → KeptStore x
      → KeptStore y
      → KeptStore (if b then x else y)
  if-KeptStore true x y hx hy = hx
  if-KeptStore false x y hx hy = hy

  ite-Kept :
      {A P : Type 0} (d : Dec P) (x y : Option (BlockStore State × A))
      → Kept x
      → Kept y
      → Kept (ite d x y)
  ite-Kept (yes _) x y hx hy = hx
  ite-Kept (no _) x y hx hy = hy

  pub elim-Kept :
      {A B : Type 0} (o : Option B) (x : Option (BlockStore State × A))
      (f : B → Option (BlockStore State × A))
      → Kept x
      → ((b : B) → o ≡ some b → Kept (f b))
      → Kept (elim o [ none ↦ x | some b ↦ f b ])
  elim-Kept none x f hx hf = hx
  elim-Kept (some b) x f hx hf = hf b refl

  pub elim-KeptStore :
      {B : Type 0} (o : Option B) (x : Option (BlockStore State))
      (f : B → Option (BlockStore State))
      → KeptStore x
      → ((b : B) → o ≡ some b → KeptStore (f b))
      → KeptStore (elim o [ none ↦ x | some b ↦ f b ])
  elim-KeptStore none x f hx hf = hx
  elim-KeptStore (some b) x f hx hf = hf b refl

  has-find_block_tier :
      (id : ℕ) (s : BlockStore State) (e : ℕ × StorageTier)
      → find_block_tier id s ≡ some e
      → has id s.block_tier_map ≡ true
  unfolding find_block_tier
  has-find_block_tier id s e found = ground (arith, found)

  finish_promote-IsIndexed :
      (stores : Bool) (id i : ℕ) (src : StorageTier) (j : ℕ) (dst : StorageTier) (target : TierType)
      (s : BlockStore State)
      → has id s.block_tier_map ≡ true
      → IsIndexed s
      → IsIndexed (finish_promote stores id i src j dst target s)
  unfolding finish_promote
  finish_promote-IsIndexed stores id i src j dst target s here h k =
      elim (Option-cases (find id s.meta_store)) [
        | inl gone ↦ absurd (ground (arith, gone, here, h id))
        | inr (meta, there) ↦ ground (
          arith,
          there,
          here,
          h k,
          has-insert id k target s.block_tier_map,
          has-put_block_meta stores id k (record meta { tier = target }) s.meta_store,
        )
      ]

  promote_imported-Kept :
      (stores : Bool) (id i : ℕ) (src : StorageTier) (j : ℕ) (target : TierType)
      (s : BlockStore State) (r : Option (StorageTier × StatusCode))
      → has id s.block_tier_map ≡ true
      → IsIndexed s
      → Kept (promote_imported stores id i src j target s r)
  unfolding promote_imported
  promote_imported-Kept stores id i src j target s none here h = tt
  promote_imported-Kept stores id i src j target s (some (dst, code)) here h =
      if-Kept (is_ok code) _ _ (finish_promote-IsIndexed stores id i src j dst target s here h) h

  promote_exported-Kept :
      (os : Os) (id i : ℕ) (src : StorageTier) (j : ℕ) (dst : StorageTier) (target : TierType)
      (s : BlockStore State) (r : Reply (List ℕ))
      → has id s.block_tier_map ≡ true
      → IsIndexed s
      → Kept (promote_exported os id i src j dst target s r)
  unfolding promote_exported
  promote_exported-Kept os id i src j dst target s (done bytes) here h =
      promote_imported-Kept os.stores id i src j target s (import_block os id bytes dst) here h
  promote_exported-Kept os id i src j dst target s (failed code) here h = h
  promote_exported-Kept os id i src j dst target s fault here h = tt

  pub promote_block-Kept :
      (reads writes : Os) (id : ℕ) (target : TierType) (s : BlockStore State)
      → IsIndexed s
      → Kept (promote_block reads writes id target s)
  unfolding promote_block
  promote_block-Kept reads writes id target s h =
      elim-Kept (find_block_tier id s) _ _ h λ (i, src) found.
        ite-Kept (TierType-discrete src.type target) _ _ h (
          elim-Kept (find_tier target s.tiers) _ _ h λ (j, dst) _.
            promote_exported-Kept writes id i src j dst target s (export_block reads id src)
              (has-find_block_tier id s (i, src) found) h)

  store_of-Kept : (r : Option (BlockStore State × StatusCode)) → Kept r → KeptStore (store_of r)
  store_of-Kept none h = tt
  store_of-Kept (some (s, _)) h = h

  pub maybe_auto_promote-Kept :
      (reads writes : Os) (id : ℕ) (meta : BlockMeta) (s : BlockStore State)
      → IsIndexed s
      → KeptStore (maybe_auto_promote reads writes id meta s)
  unfolding maybe_auto_promote promote_if_space
  maybe_auto_promote-Kept reads writes id meta s h =
      if-KeptStore (s.opts.auto_promote_access_threshold == 0) _ _ h (
        if-KeptStore (ltb meta.access_count s.opts.auto_promote_access_threshold) _ _ h (
          elim-KeptStore (find id s.block_tier_map) _ _ h λ current _.
            elim-KeptStore (faster current) _ _ h λ target _.
              elim-KeptStore (find_tier target s.tiers) _ _ h λ (j, dst) _.
                if-KeptStore (ltb (get_available_bytes dst) meta.length) _ _ h (
                  store_of-Kept (promote_block reads writes id target s)
                    (promote_block-Kept reads writes id target s h))))
