-- ===== src/Worker/Policy/Lru/Tests.antt =====
-- The theorem on the LRU policy at a history that moves, removes and evicts blocks.
use any_cache.Base.{◌≡◌, List, [], ◌∷◌, length}
use any_cache.Worker.Policy.Lru.{empty, size}
use any_cache.Worker.Policy.Lru.Recency.{
  Call, accesses, inserts, removes, evicts, run, spec_run, recency, run-recency,
}

abbrev calls : List Call
calls = inserts 1 ∷ inserts 2 ∷ inserts 3 ∷ accesses 1 ∷ removes 3 ∷ evicts ∷ []

run-recency_example :
    (recency (run calls empty).0 ≡ (spec_run calls []).0)
    × ((run calls empty).1 ≡ (spec_run calls []).1)
    × (size (run calls empty).0 ≡ length (spec_run calls []).0)
run-recency_example = run-recency calls
