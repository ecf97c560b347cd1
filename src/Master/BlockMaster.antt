-- ===== src/Master/BlockMaster.antt =====
-- `BlockMaster` of src/master/block_master.{h,cpp}: where each block is, kept by block and by
-- worker. The two indexes are separate maps that every operation updates together.
pub mod Relation
pub mod History
mod Tests
use any_cache.Base.{
  ℕ, ◌+◌, Bool, true, false, Option, none, some, List, [], ◌∷◌, ◌++◌, Map, find, insert, erase,
  length, nat_key, ℕ_discrete, ite, get_or, set_insert, set_erase, if◌then◌else◌,
}
use any_cache.Common.Tier.{TierType}

pub record BlockLocationInfo : Type 0 where
  pub block_id : ℕ
  pub worker_id : ℕ
  pub worker_address : List ℕ
  pub tier : TierType

pub record BlockMaster : Type 0 where
  pub block_locations : Map ℕ (List BlockLocationInfo)
  pub worker_blocks : Map ℕ (List ℕ)

unfoldable pub no_blocks : BlockMaster
no_blocks = record { block_locations = []; worker_blocks = [] }

-- `block_locations_[block_id]` and `worker_blocks_[worker_id]`
unfoldable pub locations_of : ℕ → Map ℕ (List BlockLocationInfo) → List BlockLocationInfo
locations_of block_id m = get_or (find block_id m) []

unfoldable pub blocks_of : ℕ → Map ℕ (List ℕ) → List ℕ
blocks_of worker_id m = get_or (find worker_id m) []

unfoldable pub has_worker : ℕ → List BlockLocationInfo → Bool
has_worker worker_id [] = false
has_worker worker_id (loc ∷ locs) =
    ite (ℕ_discrete loc.worker_id worker_id) true (has_worker worker_id locs)

-- The loop that gives the worker's first location the new tier.
unfoldable pub set_tier : ℕ → TierType → List BlockLocationInfo → List BlockLocationInfo
set_tier worker_id tier [] = []
set_tier worker_id tier (loc ∷ locs) =
    ite (ℕ_discrete loc.worker_id worker_id) ((record loc { tier = tier }) ∷ locs)
      (loc ∷ set_tier worker_id tier locs)

-- `std::remove_if` with the worker's id
unfoldable pub without_worker : ℕ → List BlockLocationInfo → List BlockLocationInfo
without_worker worker_id [] = []
without_worker worker_id (loc ∷ locs) =
    ite (ℕ_discrete loc.worker_id worker_id) (without_worker worker_id locs)
      (loc ∷ without_worker worker_id locs)

unfoldable pub get_block_locations : List ℕ → BlockMaster → List BlockLocationInfo
unfolding locations_of
get_block_locations [] s = []
get_block_locations (bid ∷ bids) s =
    locations_of bid s.block_locations ++ get_block_locations bids s

unfoldable pub add_block_location : ℕ → ℕ → List ℕ → TierType → BlockMaster → BlockMaster
unfolding locations_of blocks_of has_worker set_tier
add_block_location block_id worker_id address tier s =
    let locs = locations_of block_id s.block_locations in
    if has_worker worker_id locs
    then record s {
      block_locations = insert block_id (set_tier worker_id tier locs) s.block_locations;
    }
    else record {
      block_locations =
          insert block_id
            (locs
              ++ record {
                block_id = block_id;
                worker_id = worker_id;
                worker_address = address;
                tier = tier;
              }
                ∷ [])
            s.block_locations;
      worker_blocks =
          insert worker_id (set_insert block_id (blocks_of worker_id s.worker_blocks))
            s.worker_blocks;
    }

-- The worker leaves the block's locations, and a block without locations leaves the map.
unfoldable pub drop_location :
    ℕ → ℕ → Map ℕ (List BlockLocationInfo) → Map ℕ (List BlockLocationInfo)
unfolding without_worker
drop_location block_id worker_id m = elim (find block_id m) [
  | none ↦ m
  | some locs ↦ elim (without_worker worker_id locs) [
    | [] ↦ erase block_id m
    | loc ∷ rest ↦ insert block_id (loc ∷ rest) m
  ]
]

-- The block leaves the worker's set.
unfoldable pub drop_block : ℕ → ℕ → Map ℕ (List ℕ) → Map ℕ (List ℕ)
drop_block worker_id block_id m = elim (find worker_id m) [
  | none ↦ m
  | some blocks ↦ insert worker_id (set_erase block_id blocks) m
]

unfoldable pub remove_block_location : ℕ → ℕ → BlockMaster → BlockMaster
unfolding drop_location drop_block
remove_block_location block_id worker_id s = record {
  block_locations = drop_location block_id worker_id s.block_locations;
  worker_blocks = drop_block worker_id block_id s.worker_blocks;
}

unfoldable pub drop_locations :
    ℕ → List ℕ → Map ℕ (List BlockLocationInfo) → Map ℕ (List BlockLocationInfo)
unfolding drop_location
drop_locations worker_id [] m = m
drop_locations worker_id (bid ∷ bids) m =
    drop_locations worker_id bids (drop_location bid worker_id m)

unfoldable pub remove_worker_blocks : ℕ → BlockMaster → BlockMaster
unfolding drop_locations
remove_worker_blocks worker_id s = elim (find worker_id s.worker_blocks) [
  | none ↦ s
  | some blocks ↦ record {
    block_locations = drop_locations worker_id blocks s.block_locations;
    worker_blocks = erase worker_id s.worker_blocks;
  }
]

unfoldable pub drop_from_workers : ℕ → List BlockLocationInfo → Map ℕ (List ℕ) → Map ℕ (List ℕ)
unfolding drop_block
drop_from_workers block_id [] m = m
drop_from_workers block_id (loc ∷ locs) m =
    drop_from_workers block_id locs (drop_block loc.worker_id block_id m)

unfoldable pub remove_block : ℕ → BlockMaster → BlockMaster
unfolding drop_from_workers
remove_block block_id s = elim (find block_id s.block_locations) [
  | none ↦ s
  | some locs ↦ record {
    block_locations = erase block_id s.block_locations;
    worker_blocks = drop_from_workers block_id locs s.worker_blocks;
  }
]

unfoldable pub get_worker_blocks : ℕ → BlockMaster → List ℕ
unfolding blocks_of
get_worker_blocks worker_id s = blocks_of worker_id s.worker_blocks

unfoldable pub get_replica_count : ℕ → BlockMaster → ℕ
unfolding locations_of
get_replica_count block_id s = length (locations_of block_id s.block_locations)
