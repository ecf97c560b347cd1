-- ===== src/Worker/CacheManager/Tests.antt =====
-- The theorem on eviction candidates at a manager with two blocks, under the LRU policy.
use any_cache.Base.{some, ◌+◌, ◌%◌, u64, ◌≡◌, refl, none, find, insert, nat_key, arith, ℕ_discrete}
use any_cache.Worker.Policy.Lru.{LruPolicy, lru}
use any_cache.Worker.Policy.Lru.Contract.{lru-IsPolicy}
use any_cache.Worker.CacheManager.{CacheManager, create, on_block_insert, get_eviction_candidates}
use any_cache.Worker.CacheManager.Accounts.{
  IsValid, bytes, create-IsValid, insert-IsValid, reinsert_overcounts,
}
use any_cache.Worker.CacheManager.Candidates.{Outcome, candidates-Outcome}

abbrev one_block : CacheManager LruPolicy
one_block = on_block_insert lru 1 30 (create lru)

abbrev two_blocks : CacheManager LruPolicy
two_blocks = on_block_insert lru 2 50 one_block

first_absent : find 1 (create lru).block_sizes ≡ none
unfolding find
first_absent = refl

second_absent : find 2 one_block.block_sizes ≡ none
unfolding on_block_insert insert find ℕ_discrete
second_absent = refl

two_bytes : bytes two_blocks.block_sizes ≡ 80
unfolding on_block_insert insert ℕ_discrete
two_bytes = refl

two_blocks-IsValid : IsValid lru lru-IsPolicy two_blocks
two_blocks-IsValid =
    insert-IsValid lru lru-IsPolicy one_block 2 50
      (insert-IsValid lru lru-IsPolicy (create lru) 1 30 (create-IsValid lru lru-IsPolicy)
        (λ e. omega arith) (omega arith) first_absent)
      (λ e. omega arith) (omega arith) second_absent

candidates-Outcome_example :
    Outcome lru lru-IsPolicy 60 0 two_blocks (get_eviction_candidates lru 60 two_blocks)
candidates-Outcome_example =
    candidates-Outcome lru lru-IsPolicy 60 two_blocks two_blocks-IsValid (omega (arith, two_bytes))

second_there : find 2 two_blocks.block_sizes ≡ some 50
unfolding on_block_insert insert find ℕ_discrete
second_there = refl

reinsert_overcounts_example :
    (on_block_insert lru 2 10 two_blocks).total_cached_bytes
    ≡ (bytes (on_block_insert lru 2 10 two_blocks).block_sizes + 50) % u64
reinsert_overcounts_example =
    reinsert_overcounts lru 2 10 50 two_blocks two_blocks-IsValid.accounted second_there
