-- ===== src/Worker/CacheManager/Accounts.antt =====
-- What `CacheManager` keeps: the policy tracks the blocks whose sizes it knows, and the total is
-- the sum of their sizes modulo 2 ^ 64.
use any_cache.Base.{
  ◌+◌, ◌%◌, ℕ, ◌%◌, ◌<◌, ◌≡◌, ◌≢◌, refl, sym, ap, ◌∙◌, inl, inr, ite, if_neg, true, false, none,
  some, Map, find, has, insert, erase, nat_key, ℕ_discrete, arith, IsMap, insert-IsMap, erase-IsMap,
  has-insert, has-erase, sizes, sizes-insert, sizes-erase, find-insert, find-erase, u64, ◌+u64◌,
  ◌-u64◌, Option-cases,
}
use any_cache.Worker.Policy.{CachePolicy, IsPolicy, invalid_block_id}
use any_cache.Worker.CacheManager.{
  CacheManager, create, on_block_access, on_block_insert, on_block_remove, forget,
}

abbrev pub itself : ℕ → ℕ
itself n = n

-- The bytes of all the blocks.
abbrev pub bytes : Map ℕ ℕ → ℕ
bytes = sizes itself

-- The total is that of the sizes, and no block has the invalid id.
pub record IsAccounted (block_sizes : Map ℕ ℕ) (total : ℕ) : Type 0 where
  pub distinct : IsMap block_sizes
  pub proper : has invalid_block_id block_sizes ≡ false
  pub sized : (id size : ℕ) → find id block_sizes ≡ some size → size < u64
  pub sum : total ≡ bytes block_sizes % u64

insert-IsAccounted :
    (id size : ℕ) (m : Map ℕ ℕ) (total : ℕ)
    → IsAccounted m total
    → id ≢ invalid_block_id
    → size < u64
    → find id m ≡ none
    → IsAccounted (insert id size m) (total +u64 size)
unfolding ◌+u64◌
insert-IsAccounted id size m total a ne small miss = record {
  distinct = insert-IsMap id size m a.distinct;
  proper =
      has-insert id invalid_block_id size m
      ∙ if_neg (ℕ_discrete id invalid_block_id) ne _ _
      ∙ a.proper;
  sized = λ j s h. ground (arith, find-insert id j size m, a.sized j s);
  sum = ground (arith, sizes-insert itself id size m, miss, a.sum);
}

erase-IsAccounted :
    (id size : ℕ) (m : Map ℕ ℕ) (total : ℕ)
    → IsAccounted m total
    → find id m ≡ some size
    → IsAccounted (erase id m) (total -u64 size)
unfolding ◌-u64◌
erase-IsAccounted id size m total a hit = record {
  distinct = erase-IsMap id m a.distinct;
  proper = ground (arith, has-erase id invalid_block_id m, a.proper);
  sized = λ j s h. ground (arith, find-erase id j m, a.sized j s);
  sum = ground (arith, sizes-erase itself id m a.distinct, hit, a.sum, a.sized id size hit);
}

absent_has :
    (id j : ℕ) (m : Map ℕ ℕ) → find id m ≡ none → ite (ℕ_discrete id j) false (has j m) ≡ has j m
absent_has id j m miss = ground (arith, miss)

module _ (p : CachePolicy) (c : IsPolicy p) where
  pub record IsValid (m : CacheManager p.State) : Type 0 where
    pub policy_valid : c.IsValid m.policy
    pub tracked : (id : ℕ) → c.tracks id m.policy ≡ has id m.block_sizes
    pub accounted : IsAccounted m.block_sizes m.total_cached_bytes

  pub create-IsValid : IsValid (create p)
  unfolding find
  create-IsValid = record {
    policy_valid = c.empty-IsValid;
    tracked = c.tracks-empty;
    accounted = record { distinct = tt; proper = refl; sized = λ id size h. cc; sum = refl };
  }

  module _ (m : CacheManager p.State) where
    pub access-IsValid : (id : ℕ) → IsValid m → IsValid (on_block_access p id m)
    unfolding on_block_access
    access-IsValid id v = record {
      policy_valid = c.access-IsValid id m.policy v.policy_valid;
      tracked = λ j. c.tracks-access j id m.policy v.policy_valid ∙ v.tracked j;
      accounted = v.accounted;
    }

    -- A new block is counted once.
    pub insert-IsValid :
        (id size : ℕ)
        → IsValid m
        → id ≢ invalid_block_id
        → size < u64
        → find id m.block_sizes ≡ none
        → IsValid (on_block_insert p id size m)
    unfolding on_block_insert
    insert-IsValid id size v ne small miss = record {
      policy_valid = c.insert-IsValid id m.policy v.policy_valid;
      tracked = λ j.
          c.tracks-insert j id m.policy v.policy_valid
          ∙ ap (ite (ℕ_discrete id j) true) (v.tracked j)
          ∙ sym (has-insert id j size m.block_sizes);
      accounted =
          insert-IsAccounted id size m.block_sizes m.total_cached_bytes v.accounted ne small miss;
    }

    -- Forgetting a block that the policy let go of.
    pub forget-IsValid :
        (id : ℕ) (s : p.State)
        → c.IsValid s
        → ((j : ℕ) → c.tracks j s ≡ ite (ℕ_discrete id j) false (has j m.block_sizes))
        → IsAccounted m.block_sizes m.total_cached_bytes
        → IsValid (forget p id (record m { policy = s }))
    unfolding forget
    forget-IsValid id s ok gone a = elim (Option-cases (find id m.block_sizes)) [
      | inl miss ↦
          rw (miss, forget)
            (record {
              policy_valid = ok;
              tracked = λ j. gone j ∙ absent_has id j m.block_sizes miss;
              accounted = a;
            })
      | inr (size, hit) ↦
          rw (hit, forget)
            (record {
              policy_valid = ok;
              tracked = λ j. gone j ∙ sym (has-erase id j m.block_sizes);
              accounted = erase-IsAccounted id size m.block_sizes m.total_cached_bytes a hit;
            })
    ]

    pub remove-IsValid : (id : ℕ) → IsValid m → IsValid (on_block_remove p id m)
    unfolding on_block_remove
    remove-IsValid id v =
        forget-IsValid id (p.on_remove id m.policy) (c.remove-IsValid id m.policy v.policy_valid)
          (λ j.
            c.tracks-remove j id m.policy v.policy_valid
            ∙ ap (ite (ℕ_discrete id j) false) (v.tracked j))
          v.accounted

-- Inserting a block that the manager has already counts it twice: the total exceeds the bytes of
-- the blocks by the block's old size, up to the wrap-around.
pub reinsert_overcounts :
    (p : CachePolicy) (id size old : ℕ) (m : CacheManager p.State)
    → IsAccounted m.block_sizes m.total_cached_bytes
    → find id m.block_sizes ≡ some old
    → (on_block_insert p id size m).total_cached_bytes
      ≡ (bytes (on_block_insert p id size m).block_sizes + old) % u64
unfolding on_block_insert ◌+u64◌
reinsert_overcounts p id size old m a hit =
    ground (arith, sizes-insert itself id size m.block_sizes, hit, a.sum)
