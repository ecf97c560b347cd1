-- ===== src/Master/BlockMaster/Tests.antt =====
-- The theorem on `BlockMaster` at a history that loses a worker.
use any_cache.Base.{◌≡◌, List, [], ◌∷◌}
use any_cache.Common.Tier.{k_memory, k_hdd}
use any_cache.Master.BlockMaster.Relation.{located, listed}
use any_cache.Master.BlockMaster.History.{
  Call, add, remove, lose_worker, lose_block, run, related, run-related,
}

-- The last call first.
abbrev calls : List Call
calls =
    lose_block 8
    ∷ add 8 1 [] k_hdd
    ∷ lose_worker 2
    ∷ remove 7 3
    ∷ add 7 3 [] k_memory
    ∷ add 7 2 [] k_memory
    ∷ add 7 1 [] k_memory
    ∷ []

run-related_example :
    (located 7 1 (run calls) ≡ related calls 7 1) × (listed 7 1 (run calls) ≡ related calls 7 1)
run-related_example = run-related calls 7 1
