-- ===== src/Worker/BlockStore/Calls.antt =====
-- Every history of calls to `BlockStore` keeps the map of the blocks' tiers and the metadata store
-- about the same blocks.
use any_cache.Base.{
  ℕ, ap, sym, ◌∙◌, false, Option, none, some, List, [], ◌∷◌, find, insert, nat_key, ltb, ◌==◌,
  arith, if◌then◌else◌, has-insert, has-erase, has-find, Bool, true, ℕ_discrete, ite,
}
use any_cache.Common.Status.{StatusCode, is_ok, k_resource_exhausted, Reply, done, failed, fault}
use any_cache.Common.Tier.{TierType}
use any_cache.Worker.Policy.{CachePolicy}
use any_cache.Worker.CacheManager.{get_eviction_candidates, on_block_access}
use any_cache.Worker.MetaStore.{BlockMeta, put_block_meta}
use any_cache.Worker.StorageTier.{
  Os, StorageTier, import_block, export_block, get_available_bytes, allocate_block,
}
use any_cache.Worker.StorageTier
use any_cache.Worker.BlockStore.{
  BlockStore, find_tier, find_space, find_block_tier, evict_blocks, first_of, maybe_auto_evict,
  bytes_to_free, has_block,
}
use any_cache.Worker.BlockStore.Create.{
  record_block, finish_put, finish_create, create_evicted, create_block, ensure_block, with_ok,
  new_meta,
}
use any_cache.Worker.BlockStore.Access.{
  maybe_auto_promote, finish_read, read_block, finish_write, write_block, remove_block, with_bytes,
  touched,
}
use any_cache.Worker.BlockStore.Index.{
  IsIndexed, Kept, KeptStore, evict_candidates-IsIndexed, if-Kept, if-KeptStore, elim-Kept,
  elim-KeptStore, maybe_auto_promote-Kept, has-put_block_meta,
}

module _ (p : CachePolicy) where
  open p use {State}

  pub evict_blocks-Kept :
      (tier : TierType) (needed : ℕ) (s : BlockStore State)
      → IsIndexed s
      → Kept (evict_blocks p tier needed s)
  unfolding evict_blocks
  evict_blocks-Kept tier needed s h =
      elim-Kept (get_eviction_candidates p needed s.cache_mgr) _ _ tt λ (m, candidates) _.
        evict_candidates-IsIndexed tier candidates (record s { cache_mgr = m }) h

  maybe_auto_evict-Kept :
      (tier : TierType) (s : BlockStore State) → IsIndexed s → KeptStore (maybe_auto_evict p tier s)
  unfolding maybe_auto_evict
  maybe_auto_evict-Kept tier s h = elim-KeptStore (find_tier tier s.tiers) _ _ h λ (i, t) _.
      if-KeptStore (bytes_to_free p s.opts t == 0) _ _ h (
        first (evict_blocks p tier (bytes_to_free p s.opts t) s)
          (evict_blocks-Kept tier (bytes_to_free p s.opts t) s h))
    where
      first : (r : Option (BlockStore State × List ℕ)) → Kept r → KeptStore (first_of p r)
      first none h = tt
      first (some (s, _)) h = h

  with_ok-Kept : (r : Option (BlockStore State)) → KeptStore r → Kept (with_ok p r)
  with_ok-Kept none h = tt
  with_ok-Kept (some s) h = h

  put-Kept :
      (stores : Bool) (now id size i : ℕ) (t : StorageTier) (s : BlockStore State)
      → IsIndexed s
      → Kept (
          finish_put p id size i t
            (put_block_meta stores id (new_meta now id size t.type) s.meta_store)
            s)
  unfolding finish_put record_block
  put-Kept false now id size i t s h = h
  put-Kept true now id size i t s h =
      with_ok-Kept (maybe_auto_evict p t.type stored) (maybe_auto_evict-Kept t.type stored recorded)
    where
      stored : BlockStore State
      stored = record_block p id size i t (insert id (new_meta now id size t.type) s.meta_store) s

      recorded : IsIndexed stored
      recorded j = ground (
        arith,
        h j,
        has-insert id j t.type s.block_tier_map,
        has-insert id j (new_meta now id size t.type) s.meta_store,
      )

  finish_create-Kept :
      (stores : Bool) (now id size i : ℕ) (r : StorageTier × StatusCode) (s : BlockStore State)
      → IsIndexed s
      → Kept (finish_create p stores now id size i r s)
  unfolding finish_create
  finish_create-Kept stores now id size i (t, code) s h =
      if-Kept (is_ok code) _ _ (put-Kept stores now id size i t s h) h

  create_evicted-Kept :
      (os : Os) (now id size : ℕ) (r : Option (BlockStore State × List ℕ))
      → Kept r
      → Kept (create_evicted p os now id size r)
  unfolding create_evicted
  create_evicted-Kept os now id size none h = tt
  create_evicted-Kept os now id size (some (s, evicted)) h =
      elim s.tiers
        as (λ tiers. Kept (elim tiers [
          | [] ↦ none
          | t ∷ _ ↦
              if ltb (get_available_bytes t) size
              then some (s, k_resource_exhausted)
              else finish_create p os.stores now id size 0 (allocate_block os id size t) s
        ])) [
          | [] ↦ tt
          | t ∷ _ ↦
              if-Kept (ltb (get_available_bytes t) size) _ _ h
                (finish_create-Kept os.stores now id size 0 (allocate_block os id size t) s h)
        ]

  pub create_block-Kept :
      (os : Os) (now id size : ℕ) (s : BlockStore State)
      → IsIndexed s
      → Kept (create_block p os now id size s)
  unfolding create_block
  create_block-Kept os now id size s h =
      elim-Kept (find_space size s.tiers) _ _
        (elim s.tiers
          as (λ tiers. Kept (elim tiers [
            | [] ↦ none
            | t ∷ _ ↦ create_evicted p os now id size (evict_blocks p t.type size s)
          ])) [
            | [] ↦ tt
            | t ∷ _ ↦
                create_evicted-Kept os now id size (evict_blocks p t.type size s)
                  (evict_blocks-Kept t.type size s h)
          ])
        λ (i, t) _. finish_create-Kept os.stores now id size i (allocate_block os id size t) s h

  finish_read-Kept :
      (reads writes : Os) (now id : ℕ) (s : BlockStore State) (r : Reply (List ℕ))
      → IsIndexed s
      → Kept (finish_read p reads writes now id s r)
  unfolding finish_read
  finish_read-Kept reads writes now id s (failed code) h = h
  finish_read-Kept reads writes now id s fault h = tt
  finish_read-Kept reads writes now id s (done bytes) h =
      elim-Kept (find id s.meta_store) _ _ h λ meta there.
        bytes_of (maybe_auto_promote reads writes id (touched p now meta) (after meta)) (
          maybe_auto_promote-Kept reads writes id (touched p now meta) (after meta) λ j.
            h j
            ∙ sym (
                has-put_block_meta reads.stores id j (touched p now meta) s.meta_store
                  (has-find id meta s.meta_store there)))
    where
      after : BlockMeta → BlockStore State
      after meta = record s {
        cache_mgr = on_block_access p id s.cache_mgr;
        meta_store = (put_block_meta reads.stores id (touched p now meta) s.meta_store).0;
      }

      bytes_of : (r : Option (BlockStore State)) → KeptStore r → Kept (with_bytes p bytes r)
      bytes_of none h = tt
      bytes_of (some s) h = h

  finish_write-Kept :
      (id i : ℕ) (s : BlockStore State) (r : Reply StorageTier)
      → IsIndexed s
      → Kept (finish_write p id i s r)
  unfolding finish_write
  finish_write-Kept id i s (done t) h = h
  finish_write-Kept id i s (failed code) h = h
  finish_write-Kept id i s fault h = tt

  pub read_block-Kept :
      (os reads writes : Os) (now id size offset : ℕ) (s : BlockStore State)
      → IsIndexed s
      → Kept (read_block p os reads writes now id size offset s)
  unfolding read_block
  read_block-Kept os reads writes now id size offset s h =
      elim-Kept (find_block_tier id s) _ _ h λ (i, t) _.
        finish_read-Kept reads writes now id s (StorageTier.read_block os id size offset t) h

  pub write_block-Kept :
      (os : Os) (id : ℕ) (bytes : List ℕ) (offset : ℕ) (s : BlockStore State)
      → IsIndexed s
      → Kept (write_block p os id bytes offset s)
  unfolding write_block
  write_block-Kept os id bytes offset s h =
      elim-Kept (find_block_tier id s) _ _ h
        λ (i, t) _. finish_write-Kept id i s (StorageTier.write_block os id bytes offset t) h

  pub remove_block-IsIndexed :
      (id : ℕ) (s : BlockStore State) → IsIndexed s → IsIndexed (remove_block p id s).0
  unfolding remove_block
  remove_block-IsIndexed id s h j =
      has-erase id j s.block_tier_map
      ∙ ap (ite (ℕ_discrete id j) false) (h j)
      ∙ sym (has-erase id j s.meta_store)

  pub ensure_block-Kept :
      (os : Os) (now id size : ℕ) (s : BlockStore State)
      → IsIndexed s
      → Kept (ensure_block p os now id size s)
  unfolding ensure_block
  ensure_block-Kept os now id size s h =
      if-Kept (has_block id s) _ _ h (create_block-Kept os now id size s h)
