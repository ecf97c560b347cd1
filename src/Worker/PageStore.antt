-- ===== src/Worker/PageStore.antt =====
-- `PageStore` of src/worker/page_store.{h,cpp}: pages cached by file and index, and for each file
-- the indices of its pages that were cached.
pub mod Tracking
pub mod Invalidate
pub mod Reads
mod Tests
use any_cache.Base.{
  ℕ, zero, suc, ◌+◌, Bool, true, false, Option, none, some, List, [], ◌∷◌, ◌++◌, Key, Map, find,
  has, insert, erase, length, nat_key, ℕ_discrete, get_or, if◌then◌else◌, ◌+u64◌, map, ◌≡◌,
}
use any_cache.Common.Status.{StatusCode, k_ok, k_internal, Reply, done, failed, fault}
use any_cache.Worker.LruCache.{LruCache}
use any_cache.Worker.LruCache

pub record PageKey : Type 0 where
  pub file_id : ℕ
  pub page_index : ℕ

pub PageKey-discrete : Discrete PageKey
PageKey-discrete = hlevel ℕ_discrete

instance abbrev pub page_key : Key PageKey
page_key = record { dec = PageKey-discrete }

pub record PageData : Type 0 where
  pub bytes : List ℕ
  pub dirty : Bool

-- `PageFetcher`: the bytes of a page from the backing store, or an error.
abbrev pub PageFetcher : Type 0
PageFetcher = ℕ → ℕ → Reply (List ℕ)

pub record PageStore : Type 0 where
  pub page_size : ℕ
  pub cache : LruCache PageKey PageData
  pub fetcher : Option PageFetcher
  pub file_page_index : Map ℕ (Map ℕ (Unit {0}))

unfoldable pub create : ℕ → ℕ → PageStore
create page_size max_pages = record {
  page_size = page_size;
  cache = LruCache.create max_pages;
  fetcher = none;
  file_page_index = [];
}

unfoldable pub set_page_fetcher : PageFetcher → PageStore → PageStore
set_page_fetcher f s = record s { fetcher = some f }

-- `file_page_index_[file_id]`
abbrev pub pages_of : ℕ → PageStore → Map ℕ (Unit {0})
pages_of file_id s = get_or (find file_id s.file_page_index) []

pub track_page : ℕ → ℕ → PageStore → PageStore
track_page file_id page_index s = record s {
  file_page_index = insert file_id (insert page_index tt (pages_of file_id s)) s.file_page_index;
}

pub untrack_file : ℕ → PageStore → PageStore
untrack_file file_id s = record s { file_page_index = erase file_id s.file_page_index }

abbrev pub page_at : ℕ → ℕ → PageKey
page_at file_id page_index = record { file_id = file_id; page_index = page_index }

-- `cache_.Put(key, page); TrackPage(file_id, page_index)`; `none` where `Put` is undefined.
pub cache_page : ℕ → ℕ → PageData → PageStore → Option PageStore
unfolding track_page
cache_page file_id page_index page s =
    elim (LruCache.put (page_at file_id page_index) page s.cache) [
      | none ↦ none
      | some cache ↦ some (track_page file_id page_index (record s { cache = cache }))
    ]

-- The bytes copied to the caller, with the store after the call.
read_fetched : ℕ → ℕ → Reply (List ℕ) → PageStore → PageStore × Reply (List ℕ)
unfolding cache_page
read_fetched file_id page_index (failed status) s = (s, failed status)
read_fetched file_id page_index fault s = (s, fault)
read_fetched file_id page_index (done bytes) s =
    elim (cache_page file_id page_index (record { bytes = bytes; dirty = false }) s) [
      | none ↦ (s, fault)
      | some s' ↦ (s', done bytes)
    ]

read_miss : ℕ → ℕ → PageStore → PageStore × Reply (List ℕ)
unfolding read_fetched
read_miss file_id page_index s = elim s.fetcher [
  | none ↦ (s, failed k_internal)
  | some fetch ↦ read_fetched file_id page_index (fetch file_id page_index) s
]

read_got :
    ℕ → ℕ → PageStore → LruCache PageKey PageData × Option PageData → PageStore × Reply (List ℕ)
unfolding read_miss
read_got file_id page_index s (cache, some page) = (record s { cache = cache }, done page.bytes)
read_got file_id page_index s (cache, none) =
    read_miss file_id page_index (record s { cache = cache })

pub read_page : ℕ → ℕ → PageStore → PageStore × Reply (List ℕ)
unfolding read_got
read_page file_id page_index s =
    read_got file_id page_index s (LruCache.get (page_at file_id page_index) s.cache)

pub write_page : ℕ → ℕ → List ℕ → PageStore → Option PageStore
unfolding cache_page
write_page file_id page_index bytes s =
    cache_page file_id page_index (record { bytes = bytes; dirty = true }) s

-- One round of the prefetch loop: a page that is cached, has no fetcher or fails is passed over.
prefetch_fetched : ℕ → ℕ → Reply (List ℕ) → PageStore → Option PageStore
unfolding cache_page
prefetch_fetched file_id page (done bytes) s =
    cache_page file_id page (record { bytes = bytes; dirty = false }) s
prefetch_fetched file_id page (failed _) s = some s
prefetch_fetched file_id page fault s = none

prefetch_one : ℕ → ℕ → PageStore → Option PageStore
unfolding prefetch_fetched
prefetch_one file_id page s =
    if LruCache.contains (page_at file_id page) s.cache then some s else elim s.fetcher [
      | none ↦ some s
      | some fetch ↦ prefetch_fetched file_id page (fetch file_id page) s
    ]

pub prefetch_pages : ℕ → ℕ → ℕ → PageStore → Option PageStore
unfolding prefetch_one
prefetch_pages file_id start zero s = some s
prefetch_pages file_id start (suc count) s = elim (prefetch_one file_id start s) [
  | none ↦ none
  | some s' ↦ prefetch_pages file_id (start +u64 1) count s'
]

pub evict : ℕ → PageStore → PageStore
evict pages_to_free s = record s { cache = (LruCache.evict_n pages_to_free s.cache).0 }

erase_pages : ℕ → Map ℕ (Unit {0}) → LruCache PageKey PageData → LruCache PageKey PageData
erase_pages file_id [] cache = cache
erase_pages file_id ((page, _) ∷ pages) cache =
    erase_pages file_id pages (LruCache.remove (page_at file_id page) cache)

pub invalidate_file : ℕ → PageStore → PageStore
unfolding erase_pages
invalidate_file file_id s = elim (find file_id s.file_page_index) [
  | none ↦ s
  | some pages ↦ record s {
    cache = erase_pages file_id pages s.cache;
    file_page_index = erase file_id s.file_page_index;
  }
]

pub get_page_size : PageStore → ℕ
get_page_size s = s.page_size

pub get_cached_page_count : PageStore → ℕ
get_cached_page_count s = LruCache.size s.cache
