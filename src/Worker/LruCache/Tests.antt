-- ===== src/Worker/LruCache/Tests.antt =====
-- The theorems on the LRU cache at a cache of two entries.
use any_cache.Base.{ℕ, ◌≡◌, [], drop, take, map, nat_key, arith}
use any_cache.Worker.LruCache.{LruCache, create, evict_n}
use any_cache.Worker.LruCache.Entries.{IsValid, entries, key_of, create-IsValid, Got, get-Got}
use any_cache.Worker.LruCache.Puts.{Put, put-Put}
use any_cache.Worker.LruCache.Evict.{Removed, remove-Removed, evict_n-entries}

abbrev empty : LruCache ℕ ℕ
empty = record { max_entries = 2; order = record { cells = []; fresh = 0 }; index = [] }

empty-IsValid : IsValid empty
unfolding create
empty-IsValid = create-IsValid 2 (omega arith)

one : Put 1 10 empty
one = put-Put 1 10 empty empty-IsValid

-- Full: a third key takes the place of the first.
two : Put 2 20 one.after
two = put-Put 2 20 one.after one.valid

put-Put_example : Put 3 30 two.after
put-Put_example = put-Put 3 30 two.after two.valid

get-Got_runs : Got 1 two.after
get-Got_runs = get-Got 1 two.after two.valid

remove-Removed_runs : Removed 1 two.after
remove-Removed_runs = remove-Removed 1 two.after two.valid

evict_n-entries_runs :
    IsValid (evict_n 1 two.after).0
    × (entries (evict_n 1 two.after).0 ≡ drop 1 (entries two.after))
    × ((evict_n 1 two.after).1 ≡ map key_of (take 1 (entries two.after)))
evict_n-entries_runs = evict_n-entries 1 two.after two.valid
