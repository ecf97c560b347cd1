-- ===== src/Master/BlockMaster/Relation.antt =====
-- The two indexes of `BlockMaster` hold one relation between blocks and workers.
use any_cache.Base.{
  ℕ, ◌≡◌, refl, inl, inr, ite, Bool, true, false, some, List, [], ◌∷◌, ◌++◌, Map, find, insert,
  erase, nat_key, ℕ_discrete, arith, mem, mem-set_erase, set_erase, find-insert, find-erase,
  Option-cases, if◌then◌else◌,
}
use any_cache.Common.Tier.{TierType}
use any_cache.Master.BlockMaster.{
  BlockLocationInfo, BlockMaster, locations_of, blocks_of, has_worker, set_tier, without_worker,
  drop_location, drop_block, drop_locations, drop_from_workers,
}

-- The block's locations name the worker; the worker's set names the block.
unfoldable pub located : ℕ → ℕ → BlockMaster → Bool
located b w s = has_worker w (locations_of b s.block_locations)

unfoldable pub listed : ℕ → ℕ → BlockMaster → Bool
listed b w s = mem b (blocks_of w s.worker_blocks)

pub has_worker-append :
    (w : ℕ) (xs ys : List BlockLocationInfo)
    → has_worker w (xs ++ ys) ≡ (if has_worker w xs then true else has_worker w ys)
unfolding has_worker
has_worker-append w [] ys = refl
has_worker-append w (x ∷ xs) ys = ground (arith, has_worker-append w xs ys)

pub has_worker-set_tier :
    (w v : ℕ) (t : TierType) (xs : List BlockLocationInfo)
    → has_worker w (set_tier v t xs) ≡ has_worker w xs
unfolding has_worker set_tier
has_worker-set_tier w v t [] = refl
has_worker-set_tier w v t (x ∷ xs) = ground (arith, has_worker-set_tier w v t xs)

has_worker-without :
    (w v : ℕ) (xs : List BlockLocationInfo)
    → has_worker w (without_worker v xs) ≡ ite (ℕ_discrete v w) false (has_worker w xs)
unfolding has_worker without_worker
has_worker-without w v [] = ground arith
has_worker-without w v (x ∷ xs) = ground (arith, has_worker-without w v xs)

pub locations-insert :
    (b c : ℕ) (xs : List BlockLocationInfo) (m : Map ℕ (List BlockLocationInfo))
    → locations_of c (insert b xs m) ≡ ite (ℕ_discrete b c) xs (locations_of c m)
unfolding locations_of
locations-insert b c xs m = ground (arith, find-insert b c xs m)

pub locations-erase :
    (b c : ℕ) (m : Map ℕ (List BlockLocationInfo))
    → locations_of c (erase b m) ≡ ite (ℕ_discrete b c) [] (locations_of c m)
unfolding locations_of
locations-erase b c m = ground (arith, find-erase b c m)

pub blocks-insert :
    (v w : ℕ) (xs : List ℕ) (m : Map ℕ (List ℕ))
    → blocks_of w (insert v xs m) ≡ ite (ℕ_discrete v w) xs (blocks_of w m)
unfolding blocks_of
blocks-insert v w xs m = ground (arith, find-insert v w xs m)

pub blocks-erase :
    (v w : ℕ) (m : Map ℕ (List ℕ))
    → blocks_of w (erase v m) ≡ ite (ℕ_discrete v w) [] (blocks_of w m)
unfolding blocks_of
blocks-erase v w m = ground (arith, find-erase v w m)

locations-drop_location :
    (b v c : ℕ) (m : Map ℕ (List BlockLocationInfo))
    → locations_of c (drop_location b v m)
      ≡ ite (ℕ_discrete b c) (without_worker v (locations_of b m)) (locations_of c m)
unfolding drop_location locations_of without_worker
locations-drop_location b v c m = elim (Option-cases (find b m)) [
  | inl gone ↦ ground (arith, gone)
  | inr (locs, there) ↦ left there (without_worker v locs) refl
]
  where
    left :
        {locs : List BlockLocationInfo}
        → find b m ≡ some locs
        → (rest : List BlockLocationInfo) → without_worker v locs ≡ rest
        → locations_of c (drop_location b v m)
          ≡ ite (ℕ_discrete b c) (without_worker v (locations_of b m)) (locations_of c m)
    left there [] e = ground (arith, there, e, find-erase b c m)
    left there (loc ∷ rest) e = ground (arith, there, e, find-insert b c (loc ∷ rest) m)

blocks-drop_block :
    (v b w : ℕ) (m : Map ℕ (List ℕ))
    → blocks_of w (drop_block v b m)
      ≡ ite (ℕ_discrete v w) (set_erase b (blocks_of v m)) (blocks_of w m)
unfolding drop_block blocks_of set_erase
blocks-drop_block v b w m = elim (Option-cases (find v m)) [
  | inl gone ↦ ground (arith, gone)
  | inr (bs, there) ↦ ground (arith, there, find-insert v w (set_erase b bs) m)
]

pub has_worker-drop_location :
    (b v c w : ℕ) (m : Map ℕ (List BlockLocationInfo))
    → has_worker w (locations_of c (drop_location b v m))
      ≡ ite
          (ℕ_discrete b c)
          (ite (ℕ_discrete v w) false (has_worker w (locations_of c m)))
          (has_worker w (locations_of c m))
has_worker-drop_location b v c w m =
    ground (arith, locations-drop_location b v c m, has_worker-without w v (locations_of b m))

pub mem-drop_block :
    (v b w c : ℕ) (m : Map ℕ (List ℕ))
    → mem c (blocks_of w (drop_block v b m))
      ≡ ite
          (ℕ_discrete v w)
          (ite (ℕ_discrete b c) false (mem c (blocks_of w m)))
          (mem c (blocks_of w m))
mem-drop_block v b w c m =
    ground (arith, blocks-drop_block v b w m, mem-set_erase b c (blocks_of v m))

pub has_worker-drop_locations :
    (v : ℕ) (bids : List ℕ) (c w : ℕ) (m : Map ℕ (List BlockLocationInfo))
    → has_worker w (locations_of c (drop_locations v bids m)) ≡ (
        if mem c bids
        then ite (ℕ_discrete v w) false (has_worker w (locations_of c m))
        else has_worker w (locations_of c m))
unfolding drop_locations mem
has_worker-drop_locations v [] c w m = refl
has_worker-drop_locations v (bid ∷ bids) c w m = ground (
  arith,
  has_worker-drop_locations v bids c w (drop_location bid v m),
  has_worker-drop_location bid v c w m,
)

pub mem-drop_from_workers :
    (b : ℕ) (locs : List BlockLocationInfo) (c w : ℕ) (m : Map ℕ (List ℕ))
    → mem c (blocks_of w (drop_from_workers b locs m)) ≡ (
        if has_worker w locs
        then ite (ℕ_discrete b c) false (mem c (blocks_of w m))
        else mem c (blocks_of w m))
unfolding drop_from_workers has_worker
mem-drop_from_workers b [] c w m = refl
mem-drop_from_workers b (loc ∷ locs) c w m = ground (
  arith,
  mem-drop_from_workers b locs c w (drop_block loc.worker_id b m),
  mem-drop_block loc.worker_id b w c m,
)
