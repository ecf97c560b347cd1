-- ===== src/Worker/PageStore/Reads.antt =====
-- What a page reads as after it was written or fetched.
use any_cache.Base.{ℕ, ◌≡◌, ◌∙◌, true, false, Option, none, some, List, nat_key, arith}
use any_cache.Common.Status.{StatusCode, done, failed}
use any_cache.Worker.LruCache.{LruCache, value_of}
use any_cache.Worker.LruCache
use any_cache.Worker.LruCache.Entries.{IsValid, get-Got}
use any_cache.Worker.LruCache.Puts.{put-Put, lookup-Put}
use any_cache.Worker.LruCache.Keys.{get_miss}
use any_cache.Worker.PageStore.{
  PageKey, page_key, PageData, PageStore, PageFetcher, track_page, page_at, cache_page,
  read_fetched, read_miss, read_got, read_page, write_page,
}

-- Caching a page succeeds, and the page is then a hit.
pub record Cached (file_id page : ℕ) (d : PageData) (s : PageStore) : Type 0 where
  pub after : PageStore
  pub result : cache_page file_id page d s ≡ some after
  pub valid : IsValid after.cache
  pub hit : (LruCache.get (page_at file_id page) after.cache).1 ≡ some d

cache_page-Cached :
    (file_id page : ℕ) (d : PageData) (s : PageStore) → IsValid s.cache → Cached file_id page d s
unfolding cache_page
cache_page-Cached file_id page d s v =
    let p = put-Put (page_at file_id page) d s.cache v in
    record {
      after = track_page file_id page (record s { cache = p.after });
      result = ground (arith, p.result);
      valid = p.valid;
      hit =
          (get-Got (page_at file_id page) p.after p.valid).value
          ∙ lookup-Put (page_at file_id page) d s.cache p;
    }

read_hit :
    (file_id page : ℕ) (d : PageData) (s : PageStore)
    → (LruCache.get (page_at file_id page) s.cache).1 ≡ some d
    → (read_page file_id page s).1 ≡ done d.bytes
unfolding read_page read_got
read_hit file_id page d s h = go (LruCache.get (page_at file_id page) s.cache) h
  where
    go :
        (r : LruCache PageKey PageData × Option PageData)
        → r.1 ≡ some d
        → (read_got file_id page s r).1 ≡ done d.bytes
    go (c, none) e = absurd (ground (arith, e))
    go (c, some d') e = ground (arith, e)

-- On a store whose cache is valid a page write succeeds, keeps the cache valid, and the page then
-- reads as the bytes written.
pub read_page-write_page :
    (file_id page : ℕ) (bytes : List ℕ) (s : PageStore)
    → IsValid s.cache
    → (s' : PageStore) × (write_page file_id page bytes s ≡ some s')
      × IsValid s'.cache
      × ((read_page file_id page s').1 ≡ done bytes)
unfolding write_page
read_page-write_page file_id page bytes s v =
    let c = cache_page-Cached file_id page (record { bytes = bytes; dirty = true }) s v in
    (c.after, c.result, c.valid, read_hit file_id page _ c.after c.hit)

-- A read of a page that is not cached, from a fetcher that fails, returns its error and changes
-- nothing.
pub read_page_failed :
    (file_id page : ℕ) (s : PageStore) (fetch : PageFetcher) (code : StatusCode)
    → LruCache.contains (page_at file_id page) s.cache ≡ false
    → s.fetcher ≡ some fetch
    → fetch file_id page ≡ failed code
    → read_page file_id page s ≡ (s, failed code)
unfolding read_page read_got read_miss read_fetched
read_page_failed file_id page s fetch code miss set gives =
    ground (arith, get_miss (page_at file_id page) s.cache miss, set, gives)

-- On a store whose cache is valid, a read of a page that is not cached returns the bytes that the
-- fetcher gives for it, keeps the cache valid, and caches them: the next read returns them too,
-- whatever fetcher is set in between.
pub read_page-read_page :
    (file_id page : ℕ) (s : PageStore) (fetch : PageFetcher) (bytes : List ℕ)
    (other : Option PageFetcher)
    → IsValid s.cache
    → LruCache.contains (page_at file_id page) s.cache ≡ false
    → s.fetcher ≡ some fetch
    → fetch file_id page ≡ done bytes
    → (s' : PageStore) × (read_page file_id page s ≡ (s', done bytes))
      × IsValid s'.cache
      × ((read_page file_id page (record s' { fetcher = other })).1 ≡ done bytes)
unfolding read_page read_got read_miss read_fetched
read_page-read_page file_id page s fetch bytes other v miss set gives =
    let c = cache_page-Cached file_id page (record { bytes = bytes; dirty = false }) s v in
    (
      c.after,
      ground (arith, get_miss (page_at file_id page) s.cache miss, set, gives, c.result),
      c.valid,
      read_hit file_id page _ (record c.after { fetcher = other }) c.hit,
    )
