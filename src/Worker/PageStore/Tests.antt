-- ===== src/Worker/PageStore/Tests.antt =====
-- The theorems on `PageStore` at an empty store, and at one with a page written.
use any_cache.Base.{
  ite, ℕ_discrete, ℕ, ℕ, ◌≡◌, refl, false, none, some, [], ◌∷◌, find, nat_key, arith,
}
use any_cache.Common.Status.{done}
use any_cache.Worker.LruCache.{LruCache}
use any_cache.Worker.LruCache
use any_cache.Worker.LruCache.Entries.{IsValid, create-IsValid}
use any_cache.Worker.PageStore.{
  PageKey, page_key, PageStore, PageFetcher, page_at, read_page, write_page, invalidate_file,
}
use any_cache.Worker.PageStore.Tracking.{cached, IsTracked, write_page-IsTracked}
use any_cache.Worker.PageStore.Invalidate.{invalidate_file-IsTracked}
use any_cache.Worker.PageStore.Reads.{read_page-write_page, read_page-read_page}

abbrev fetch : PageFetcher
fetch file_id page = done (file_id ∷ page ∷ [])

abbrev store : PageStore
store = record {
  page_size = 4096;
  cache = record { max_entries = 2; order = record { cells = []; fresh = 0 }; index = [] };
  fetcher = some fetch;
  file_page_index = [];
}

store-IsValid : IsValid store.cache
unfolding LruCache.create
store-IsValid = create-IsValid 2 (omega arith)

none_cached : (key : PageKey) → LruCache.contains key store.cache ≡ false
unfolding LruCache.contains find
none_cached key = refl

store-IsTracked : IsTracked store
store-IsTracked f i h = absurd (ground (arith, none_cached (page_at f i), h))

read_page-write_page_example :
    (s' : PageStore) × (write_page 1 0 (7 ∷ []) store ≡ some s')
    × IsValid s'.cache
    × ((read_page 1 0 s').1 ≡ done (7 ∷ []))
read_page-write_page_example = read_page-write_page 1 0 (7 ∷ []) store store-IsValid

read_page-read_page_runs :
    (s' : PageStore) × (read_page 1 0 store ≡ (s', done (1 ∷ 0 ∷ [])))
    × IsValid s'.cache
    × ((read_page 1 0 (record s' { fetcher = none })).1 ≡ done (1 ∷ 0 ∷ []))
read_page-read_page_runs =
    read_page-read_page 1 0 store fetch (1 ∷ 0 ∷ []) none store-IsValid (none_cached (page_at 1 0))
      refl refl

-- The store after the write of a page of file 1.
page_written :
    (s' : PageStore) × (write_page 1 0 (7 ∷ []) store ≡ some s')
    × IsValid s'.cache
    × ((read_page 1 0 s').1 ≡ done (7 ∷ []))
page_written = read_page-write_page 1 0 (7 ∷ []) store store-IsValid

abbrev one_page : PageStore
one_page = page_written.0

one_page-IsTracked : IsTracked one_page
one_page-IsTracked = write_page-IsTracked 1 0 (7 ∷ []) store one_page store-IsTracked page_written.1

invalidate_file-IsTracked_example :
    ((g i : ℕ)
      → cached g i (invalidate_file 1 one_page) ≡ ite (ℕ_discrete 1 g) false (cached g i one_page))
    × IsTracked (invalidate_file 1 one_page)
invalidate_file-IsTracked_example = invalidate_file-IsTracked 1 one_page one_page-IsTracked
