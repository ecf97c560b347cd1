-- ===== src/Common/Tests.antt =====
-- The theorems on block ids at a block of a small file.
use any_cache.Base.{◌≡◌, ◌<◌, arith, u64}
use any_cache.Common.BlockIds.{
  make_block_id, get_inode_id, get_block_index, get_block_count, total_length, get-make_block_id,
  total-get_block_length,
}

get-make_block_id_runs :
    (get_inode_id (make_block_id 5 3) ≡ 5)
    × (get_block_index (make_block_id 5 3) ≡ 3)
    × (make_block_id 5 3 < u64)
get-make_block_id_runs = get-make_block_id 5 3 (omega arith) (omega arith)

total-get_block_length_example : total_length 10 4 (get_block_count 10 4) ≡ 10
total-get_block_length_example =
    total-get_block_length 10 4 (omega arith) (omega arith) (omega arith)
