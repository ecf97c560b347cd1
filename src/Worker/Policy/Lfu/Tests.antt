-- ===== src/Worker/Policy/Lfu/Tests.antt =====
-- The theorems on the LFU policy's eviction after two insertions and an access.
use any_cache.Base.{
  ℕ, ◌≤◌, ◌≡◌, refl, some, List, [], ◌∷◌, ◌++◌, ◌<◌, All, find, insert, erase, nat_key, arith,
  ℕ_discrete, ◌+u64◌,
}
use any_cache.Worker.Policy.Lfu.{
  LfuPolicy, empty, on_access, on_insert, evict, size, list_at, move_up, store_list, remove,
}
use any_cache.Worker.Policy.Lfu.Ages.{
  Ages, age_access, age_insert, fresh, after_access, after_insert, evict-oldest,
}
use any_cache.Worker.Policy.Lfu.Least.{start, inserted, accessed, evict-least}

-- Block 1 was accessed once more than block 2.
abbrev two_blocks : LfuPolicy
two_blocks = on_access 1 (on_insert 2 (on_insert 1 empty))

tracks_two : size two_blocks ≡ 2
unfolding size on_access on_insert move_up store_list remove find insert erase ◌+u64◌ ℕ_discrete
tracks_two = refl

evict-least_runs :
    (q : LfuPolicy) × (v : ℕ) × (f : ℕ) × (rest : List ℕ) × (evict two_blocks ≡ some (q, v))
    × (find v two_blocks.freq_map ≡ some f)
    × (list_at f two_blocks.freq_lists ≡ v ∷ rest)
    × ((j g : ℕ) → find j two_blocks.freq_map ≡ some g → f ≤ g)
    × (q.freq_map ≡ erase v two_blocks.freq_map)
evict-least_runs =
    evict-least 3 two_blocks (accessed 1 (inserted 2 (inserted 1 start))) (omega arith)
      (omega (arith, tracks_two))

abbrev one_age : Ages
one_age = age_insert 1 (find {K = ℕ} 1 []) []

abbrev two_ages : Ages
two_ages = age_insert 2 (find 2 one_age) one_age

abbrev ages : Ages
ages = age_access 1 (find 1 two_ages) two_ages

evict-oldest_example :
    (q : LfuPolicy) × (v : ℕ) × (f : ℕ) × (front : Ages) × (back : Ages) × (evict two_blocks
      ≡ some (q, v))
    × (ages ≡ front ++ (v, f) ∷ back)
    × All (λ (e : ℕ × ℕ). f < e.1) front
    × All (λ (e : ℕ × ℕ). f ≤ e.1) back
evict-oldest_example =
    evict-oldest 3 ages two_blocks (after_access 1 (after_insert 2 (after_insert 1 fresh)))
      (omega arith) (omega (arith, tracks_two))
