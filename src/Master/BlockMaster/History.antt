-- ===== src/Master/BlockMaster/History.antt =====
-- Any history of calls to `BlockMaster` keeps both indexes equal to the relation between blocks
-- and workers that the calls describe.
use any_cache.Base.{
  ℕ, ◌≡◌, refl, sym, ◌∙◌, inl, inr, ite, Bool, true, false, none, List, [], ◌∷◌, find, nat_key,
  ℕ_discrete, arith, mem, ◌++◌, mem-nil, mem-set_insert, set_insert, Option-cases,
}
use any_cache.Common.Tier.{TierType}
use any_cache.Master.BlockMaster.{
  BlockLocationInfo, BlockMaster, no_blocks, locations_of, blocks_of, has_worker, set_tier,
  add_block_location, remove_block_location, remove_worker_blocks, remove_block,
}
use any_cache.Master.BlockMaster.Relation.{
  located, listed, has_worker-append, has_worker-set_tier, locations-insert, locations-erase,
  blocks-insert, blocks-erase, has_worker-drop_location, mem-drop_block, has_worker-drop_locations,
  mem-drop_from_workers,
}

pub data Call : Type 0 where
  add : ℕ → ℕ → List ℕ → TierType → Call
  remove : ℕ → ℕ → Call
  lose_worker : ℕ → Call
  lose_block : ℕ → Call

unfoldable pub apply : Call → BlockMaster → BlockMaster
apply (add b w address tier) s = add_block_location b w address tier s
apply (remove b w) s = remove_block_location b w s
apply (lose_worker w) s = remove_worker_blocks w s
apply (lose_block b) s = remove_block b s

-- What a call makes of a relation between blocks and workers.
unfoldable pub change : Call → (ℕ → ℕ → Bool) → ℕ → ℕ → Bool
change (add b w _ _) r c v = ite (ℕ_discrete b c) (ite (ℕ_discrete w v) true (r c v)) (r c v)
change (remove b w) r c v = ite (ℕ_discrete b c) (ite (ℕ_discrete w v) false (r c v)) (r c v)
change (lose_worker w) r c v = ite (ℕ_discrete w v) false (r c v)
change (lose_block b) r c v = ite (ℕ_discrete b c) false (r c v)

-- Both indexes hold the relation.
abbrev pub Holds : (ℕ → ℕ → Bool) → BlockMaster → Type 0
Holds r s = (c v : ℕ) → (located c v s ≡ r c v) × (listed c v s ≡ r c v)

add_located :
    (b w : ℕ) (address : List ℕ) (tier : TierType) (s : BlockMaster) (c v : ℕ)
    → located c v (add_block_location b w address tier s)
      ≡ ite (ℕ_discrete b c) (ite (ℕ_discrete w v) true (located c v s)) (located c v s)
unfolding add_block_location located has_worker
add_located b w address tier s c v =
    let locs = locations_of b s.block_locations in
    let info : BlockLocationInfo = record {
      block_id = b;
      worker_id = w;
      worker_address = address;
      tier = tier;
    } in
    ground (
      arith,
      locations-insert b c (set_tier w tier locs) s.block_locations,
      locations-insert b c (locs ++ info ∷ []) s.block_locations,
      has_worker-set_tier v w tier locs,
      has_worker-append v locs (info ∷ []),
    )

-- A location that was known already is not listed again: it is listed.
add_listed :
    (b w : ℕ) (address : List ℕ) (tier : TierType) (s : BlockMaster) (c v : ℕ)
    → listed b w s ≡ located b w s
    → listed c v (add_block_location b w address tier s)
      ≡ ite (ℕ_discrete b c) (ite (ℕ_discrete w v) true (listed c v s)) (listed c v s)
unfolding add_block_location located listed
add_listed b w address tier s c v h = ground (
  arith,
  h,
  blocks-insert w v (set_insert b (blocks_of w s.worker_blocks)) s.worker_blocks,
  mem-set_insert b c (blocks_of w s.worker_blocks),
)

blocks-unknown :
    (w : ℕ) (s : BlockMaster) → find w s.worker_blocks ≡ none → blocks_of w s.worker_blocks ≡ []
unfolding blocks_of
blocks-unknown w s gone = ground (arith, gone)

locations-unknown :
    (b : ℕ) (s : BlockMaster)
    → find b s.block_locations ≡ none
    → locations_of b s.block_locations ≡ []
unfolding locations_of
locations-unknown b s gone = ground (arith, gone)

removed_located :
    (b w : ℕ) (s : BlockMaster) (c v : ℕ)
    → located c v (remove_block_location b w s)
      ≡ ite (ℕ_discrete b c) (ite (ℕ_discrete w v) false (located c v s)) (located c v s)
unfolding remove_block_location located
removed_located b w s c v = has_worker-drop_location b w c v s.block_locations

removed_listed :
    (b w : ℕ) (s : BlockMaster) (c v : ℕ)
    → listed c v (remove_block_location b w s)
      ≡ ite (ℕ_discrete w v) (ite (ℕ_discrete b c) false (listed c v s)) (listed c v s)
unfolding remove_block_location listed
removed_listed b w s c v = mem-drop_block w b v c s.worker_blocks

lose_worker_located :
    (w : ℕ) (s : BlockMaster) (c v : ℕ)
    → listed c w s ≡ located c w s
    → located c v (remove_worker_blocks w s) ≡ ite (ℕ_discrete w v) false (located c v s)
unfolding remove_worker_blocks located listed blocks_of
lose_worker_located w s c v h = elim (Option-cases (find w s.worker_blocks)) [
  | inl gone ↦ ground (arith, gone, h, mem-nil c)
  | inr (bs, found) ↦ ground (arith, found, h, has_worker-drop_locations w bs c v s.block_locations)
]

lose_worker_listed :
    (w : ℕ) (s : BlockMaster) (c v : ℕ)
    → listed c v (remove_worker_blocks w s) ≡ ite (ℕ_discrete w v) false (listed c v s)
unfolding remove_worker_blocks listed
lose_worker_listed w s c v = elim (Option-cases (find w s.worker_blocks)) [
  | inl gone ↦ ground (arith, gone, mem-nil c, blocks-unknown w s gone)
  | inr (bs, found) ↦ ground (arith, found, blocks-erase w v s.worker_blocks, mem-nil c)
]

pub lose_block_located :
    (b : ℕ) (s : BlockMaster) (c v : ℕ)
    → located c v (remove_block b s) ≡ ite (ℕ_discrete b c) false (located c v s)
unfolding remove_block located has_worker
lose_block_located b s c v = elim (Option-cases (find b s.block_locations)) [
  | inl gone ↦ ground (arith, gone, locations-unknown b s gone)
  | inr (locs, found) ↦ ground (arith, found, locations-erase b c s.block_locations)
]

lose_block_listed :
    (b : ℕ) (s : BlockMaster) (c v : ℕ)
    → listed b v s ≡ located b v s
    → listed c v (remove_block b s) ≡ ite (ℕ_discrete b c) false (listed c v s)
unfolding remove_block located listed locations_of has_worker
lose_block_listed b s c v h = elim (Option-cases (find b s.block_locations)) [
  | inl gone ↦ ground (arith, gone, h)
  | inr (locs, found) ↦ ground (arith, found, h, mem-drop_from_workers b locs c v s.worker_blocks)
]

apply-Holds :
    (r : ℕ → ℕ → Bool) (k : Call) (s : BlockMaster) → Holds r s → Holds (change k r) (apply k s)
unfolding apply change
apply-Holds r (add b w address tier) s h c v =
    let same = (h b w).1 ∙ sym (h b w).0 in
    (
      ground (arith, add_located b w address tier s c v, h c v),
      ground (arith, add_listed b w address tier s c v same, h c v),
    )
apply-Holds r (remove b w) s h c v = (
  ground (arith, removed_located b w s c v, h c v),
  ground (arith, removed_listed b w s c v, h c v),
)
apply-Holds r (lose_worker w) s h c v =
    let same = (h c w).1 ∙ sym (h c w).0 in
    (
      ground (arith, lose_worker_located w s c v same, h c v),
      ground (arith, lose_worker_listed w s c v, h c v),
    )
apply-Holds r (lose_block b) s h c v =
    let same = (h b v).1 ∙ sym (h b v).0 in
    (
      ground (arith, lose_block_located b s c v, h c v),
      ground (arith, lose_block_listed b s c v same, h c v),
    )

-- The calls of a list, the last one first.
unfoldable pub run : List Call → BlockMaster
run [] = no_blocks
run (k ∷ ks) = apply k (run ks)

unfoldable pub related : List Call → ℕ → ℕ → Bool
related [] b w = false
related (k ∷ ks) b w = change k (related ks) b w

-- After any history of calls from the empty master, a block's locations name a worker exactly when
-- the worker's set names the block, and exactly when the calls, read as changes of a relation
-- between blocks and workers, relate the two.
pub run-related :
    (ks : List Call) (b w : ℕ)
    → (located b w (run ks) ≡ related ks b w) × (listed b w (run ks) ≡ related ks b w)
unfolding run related located has_worker locations_of find no_blocks listed mem blocks_of
run-related [] b w = (refl, refl)
run-related (k ∷ ks) b w = apply-Holds (related ks) k (run ks) (run-related ks) b w
