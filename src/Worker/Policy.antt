-- ===== src/Worker/Policy.antt =====
-- The interface `CachePolicy` of src/worker/cache_manager.h, and what `CacheManager` relies on.
pub mod Lru
pub mod Lfu
use any_cache.Base.{ℕ, zero, suc, ◌<◌, ◌≡◌, ◌⊎◌, ite, Bool, true, false, Option, some, ℕ_discrete}

-- `kInvalidBlockId`
abbrev pub invalid_block_id : ℕ
invalid_block_id = 0

-- The virtual methods over a policy's own state. `evict` gives `none` where the call does not return.
pub record CachePolicy : Type 1 where
  pub State : Type 0
  pub empty : State
  pub on_access : ℕ → State → State
  pub on_insert : ℕ → State → State
  pub on_remove : ℕ → State → State
  pub evict : State → Option (State × ℕ)
  pub size : State → ℕ

module _ (p : CachePolicy) where
  open p use {State, empty, on_access, on_insert, on_remove, evict, size}

  -- An eviction returns a tracked block, and that block alone is tracked no more.
  abbrev pub Evicts : (State → Type 0) → (ℕ → State → Bool) → State → Type 0
  Evicts IsValid tracks s =
      (s' : State) × (v : ℕ) × (evict s ≡ some (s', v))
      × IsValid s'
      × (tracks v s ≡ true)
      × ((j : ℕ) → tracks j s' ≡ ite (ℕ_discrete v j) false (tracks j s))
      × (size s ≡ suc (size s'))

  -- The contract: the blocks a policy tracks, and how each method changes them.
  pub record IsPolicy : Type 1 where
    pub IsValid : State → Type 0
    pub tracks : ℕ → State → Bool
    pub empty-IsValid : IsValid empty
    pub tracks-empty : (j : ℕ) → tracks j empty ≡ false
    pub access-IsValid : (id : ℕ) (s : State) → IsValid s → IsValid (on_access id s)
    pub insert-IsValid : (id : ℕ) (s : State) → IsValid s → IsValid (on_insert id s)
    pub remove-IsValid : (id : ℕ) (s : State) → IsValid s → IsValid (on_remove id s)
    pub tracks-access : (j id : ℕ) (s : State) → IsValid s → tracks j (on_access id s) ≡ tracks j s
    pub tracks-insert :
        (j id : ℕ) (s : State)
        → IsValid s
        → tracks j (on_insert id s) ≡ ite (ℕ_discrete id j) true (tracks j s)
    pub tracks-remove :
        (j id : ℕ) (s : State)
        → IsValid s
        → tracks j (on_remove id s) ≡ ite (ℕ_discrete id j) false (tracks j s)
    pub evicts : (s : State) → IsValid s → 0 < size s → Evicts IsValid tracks s
    pub tracked_size : (j : ℕ) (s : State) → IsValid s → tracks j s ≡ true → 0 < size s
