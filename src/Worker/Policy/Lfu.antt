-- ===== src/Worker/Policy/Lfu.antt =====
-- `LFUPolicy` of src/worker/cache_manager.{h,cpp}: the frequency of each block, the blocks of each
-- frequency by age, and a lower bound from which `Evict` looks upwards. Frequencies are `uint64_t`.
pub mod Lists
pub mod Tracking
pub mod Steps
pub mod Seek
pub mod Evict
pub mod Least
pub mod Ages
mod Tests
use any_cache.Base.{
  ℕ, zero, suc, ◌≡◌, ite, Bool, true, false, ◌&&◌, ◌||◌, Option, none, some, List, [], ◌∷◌, ◌++◌,
  Map, find, insert, erase, length, nat_key, ℕ_discrete, get_or, ◌==◌, if◌then◌else◌, ltb, ◌+u64◌,
  u64,
}
use any_cache.Worker.Policy.{CachePolicy, invalid_block_id}

pub record LfuPolicy : Type 0 where
  pub freq_map : Map ℕ ℕ
  pub freq_lists : Map ℕ (List ℕ)
  pub min_freq : ℕ

abbrev pub empty : LfuPolicy
empty = record { freq_map = []; freq_lists = []; min_freq = 0 }

-- `lst.remove(id)`
pub remove : ℕ → List ℕ → List ℕ
remove id [] = []
remove id (x ∷ xs) = ite (ℕ_discrete x id) (remove id xs) (x ∷ remove id xs)

-- `freq_lists_[f]`: an absent list is made, empty.
abbrev pub list_at : ℕ → Map ℕ (List ℕ) → List ℕ
list_at f lists = get_or (find f lists) []

abbrev pub is_empty : List ℕ → Bool
is_empty [] = true
is_empty (x ∷ xs) = false

-- Writes a list back, or erases it if it is empty.
pub store_list : ℕ → List ℕ → Map ℕ (List ℕ) → Map ℕ (List ℕ)
store_list f xs lists = if is_empty xs then erase f lists else insert f xs lists

pub move_up : ℕ → ℕ → ℕ → LfuPolicy → LfuPolicy
unfolding store_list
move_up id old new p =
    let old_list = remove id (list_at old p.freq_lists) in
    let lists = store_list old old_list p.freq_lists in
    record {
      freq_map = insert id new p.freq_map;
      freq_lists = insert new (list_at new lists ++ id ∷ []) lists;
      min_freq = if is_empty old_list && p.min_freq == old then new else p.min_freq;
    }

pub on_access : ℕ → LfuPolicy → LfuPolicy
unfolding move_up
on_access id p = elim (find id p.freq_map) [ none ↦ p | some old ↦ move_up id old (old +u64 1) p ]

pub on_insert : ℕ → LfuPolicy → LfuPolicy
unfolding on_access
on_insert id p = elim (find id p.freq_map) [
  | none ↦ record {
    freq_map = insert id 1 p.freq_map;
    freq_lists = insert 1 (list_at 1 p.freq_lists ++ id ∷ []) p.freq_lists;
    min_freq = 1;
  }
  | some _ ↦ on_access id p
]

pub on_remove : ℕ → LfuPolicy → LfuPolicy
unfolding store_list
on_remove id p = elim (find id p.freq_map) [
  | none ↦ p
  | some freq ↦ record {
    freq_map = erase id p.freq_map;
    freq_lists = store_list freq (remove id (list_at freq p.freq_lists)) p.freq_lists;
    min_freq = p.min_freq;
  }
]

-- The loop of `Evict`: the first frequency from `min` up, wrapping, whose list has a block.
pub seek : ℕ → ℕ → Map ℕ (List ℕ) → Option ℕ
seek zero min lists = none
seek (suc fuel) min lists =
    let next = seek fuel (min +u64 1) lists in
    if is_empty (list_at min lists) then next else some min

take_first : ℕ → List ℕ → LfuPolicy → Option (LfuPolicy × ℕ)
take_first f [] p = none
take_first f (victim ∷ rest) p = some (
  record {
    freq_map = erase victim p.freq_map;
    freq_lists = store_list f rest p.freq_lists;
    min_freq = f;
  },
  victim,
)

evict_at : Option ℕ → LfuPolicy → Option (LfuPolicy × ℕ)
unfolding take_first
evict_at none p = none
evict_at (some f) p = take_first f (list_at f p.freq_lists) p

-- 2 ^ 64 rounds visit every frequency: past them the loop has no list to find.
pub evict : LfuPolicy → Option (LfuPolicy × ℕ)
unfolding evict_at
evict p =
    if ltb 0 (length p.freq_map)
    then evict_at (seek u64 p.min_freq p.freq_lists) p
    else some (p, invalid_block_id)

pub size : LfuPolicy → ℕ
size p = length p.freq_map

abbrev pub lfu : CachePolicy
lfu = record {
  State = LfuPolicy;
  empty = empty;
  on_access = on_access;
  on_insert = on_insert;
  on_remove = on_remove;
  evict = evict;
  size = size;
}
