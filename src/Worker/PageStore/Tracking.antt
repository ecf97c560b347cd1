-- ===== src/Worker/PageStore/Tracking.antt =====
-- The reverse index names every cached page, and reads, writes, prefetches and evictions keep it so.
use any_cache.Base.{
  ℕ, zero, suc, ◌≡◌, refl, ap, sym, subst, ◌∙◌, ite, inl, inr, Bool, true, false, Option, none,
  some, List, has, insert, nat_key, ℕ_discrete, arith, Option-cases, Bool-cases, has-insert,
  find-insert, ◌+u64◌,
}
use any_cache.Common.Status.{Reply, done, failed, fault}
use any_cache.Worker.LruCache.{LruCache}
use any_cache.Worker.LruCache
use any_cache.Worker.LruCache.Keys.{contains-get, contains-put, contains-evict_n}
use any_cache.Worker.PageStore.{
  PageKey, page_key, PageData, PageStore, pages_of, track_page, page_at, cache_page, read_fetched,
  read_miss, read_got, read_page, write_page, prefetch_fetched, prefetch_one, prefetch_pages, evict,
}

abbrev pub cached : ℕ → ℕ → PageStore → Bool
cached file_id page s = LruCache.contains (page_at file_id page) s.cache

abbrev pub IsTracked : PageStore → Type 0
IsTracked s = (f i : ℕ) → cached f i s ≡ true → has i (pages_of f s) ≡ true

pub has-track_page :
    (f i file_id page : ℕ) (s : PageStore)
    → has i (pages_of f (track_page file_id page s))
      ≡ ite
          (ℕ_discrete file_id f)
          (ite (ℕ_discrete page i) true (has i (pages_of file_id s)))
          (has i (pages_of f s))
unfolding track_page
has-track_page f i file_id page s = ground (
  arith,
  find-insert file_id f (insert page tt (pages_of file_id s)) s.file_page_index,
  has-insert page i tt (pages_of file_id s),
)

pub page_at-injective : (f g i j : ℕ) → page_at f i ≡ page_at g j → (f ≡ g) × (i ≡ j)
page_at-injective f g i j h =
    (ap (λ (k : PageKey). k.file_id) h, ap (λ (k : PageKey). k.page_index) h)

cache_page-IsTracked :
    (file_id page : ℕ) (data_ : PageData) (s s' : PageStore)
    → IsTracked s
    → cache_page file_id page data_ s ≡ some s'
    → IsTracked s'
unfolding cache_page
cache_page-IsTracked file_id page data_ s s' t e f i h =
    elim (Option-cases (LruCache.put (page_at file_id page) data_ s.cache)) [
      | inl stuck ↦ absurd (ground (arith, stuck, e))
      | inr (cache, put) ↦
          let same : track_page file_id page (record s { cache = cache }) ≡ s' =
            ground (arith, put, e) in
          rw (← same) (
            has-track_page f i file_id page (record s { cache = cache })
            ∙ elim (contains-put (page_at f i) (page_at file_id page) data_ s.cache cache put
                (subst (λ x. cached f i x ≡ true) (sym same) h)) [
                  | inl new ↦
                      let (a, b) = page_at-injective file_id f page i new in ground (arith, a, b)
                  | inr old ↦ ground (arith, t f i old)
                ])
    ]

read_miss-IsTracked :
    (file_id page : ℕ) (s : PageStore) → IsTracked s → IsTracked (read_miss file_id page s).0
unfolding read_miss
read_miss-IsTracked file_id page s t = elim (Option-cases s.fetcher) [
  | inl none_set ↦ rw (none_set, read_miss) t
  | inr (fetch, set) ↦ rw (set, read_miss) (go fetch (fetch file_id page) refl)
]
  where
    go :
        (fetch : ℕ → ℕ → Reply (List ℕ)) (r : Reply (List ℕ))
        → fetch file_id page ≡ r
        → IsTracked (read_fetched file_id page r s).0
    go fetch (failed status) e = t
    go fetch fault e = t
    go fetch (done bytes) e =
        elim (Option-cases (cache_page file_id page (record { bytes = bytes; dirty = false }) s)) [
          | inl stuck ↦ rw (stuck, read_fetched) t
          | inr (s', put) ↦ rw (put, read_fetched) (cache_page-IsTracked file_id page _ s s' t put)
        ]

pub read_page-IsTracked :
    (file_id page : ℕ) (s : PageStore) → IsTracked s → IsTracked (read_page file_id page s).0
unfolding read_page read_got
read_page-IsTracked file_id page s t =
    go (LruCache.get (page_at file_id page) s.cache)
      (λ f i h. t f i (sym (contains-get (page_at f i) (page_at file_id page) s.cache) ∙ h))
  where
    go :
        (r : LruCache PageKey PageData × Option PageData)
        → IsTracked (record s { cache = r.0 })
        → IsTracked (read_got file_id page s r).0
    go (cache, some hit) t' = t'
    go (cache, none) t' = read_miss-IsTracked file_id page (record s { cache = cache }) t'

pub write_page-IsTracked :
    (file_id page : ℕ) (bytes : List ℕ) (s s' : PageStore)
    → IsTracked s
    → write_page file_id page bytes s ≡ some s'
    → IsTracked s'
unfolding write_page
write_page-IsTracked file_id page bytes s s' t e = cache_page-IsTracked file_id page _ s s' t e

prefetch_fetched-IsTracked :
    (file_id page : ℕ) (r : Reply (List ℕ)) (s s' : PageStore)
    → IsTracked s
    → prefetch_fetched file_id page r s ≡ some s'
    → IsTracked s'
unfolding prefetch_fetched
prefetch_fetched-IsTracked file_id page (done bytes) s s' t e =
    cache_page-IsTracked file_id page _ s s' t e
prefetch_fetched-IsTracked file_id page (failed _) s s' t e =
    subst IsTracked (let same : s ≡ s' = ground (arith, e) in same) t
prefetch_fetched-IsTracked file_id page fault s s' t e = absurd (ground (arith, e))

prefetch_one-IsTracked :
    (file_id page : ℕ) (s s' : PageStore)
    → IsTracked s
    → prefetch_one file_id page s ≡ some s'
    → IsTracked s'
unfolding prefetch_one
prefetch_one-IsTracked file_id page s s' t e = elim (Bool-cases (cached file_id page s)) [
  | inl there ↦ subst IsTracked (let same : s ≡ s' = ground (arith, there, e) in same) t
  | inr miss ↦ elim (Option-cases s.fetcher) [
    | inl none_set ↦
        subst IsTracked (let same : s ≡ s' = ground (arith, miss, none_set, e) in same) t
    | inr (fetch, set) ↦
        prefetch_fetched-IsTracked file_id page (fetch file_id page) s s' t
          (ground (arith, miss, set, e))
  ]
]

pub prefetch_pages-IsTracked :
    (file_id start count : ℕ) (s s' : PageStore)
    → IsTracked s
    → prefetch_pages file_id start count s ≡ some s'
    → IsTracked s'
unfolding prefetch_pages
prefetch_pages-IsTracked file_id start zero s s' t e =
    subst IsTracked (let same : s ≡ s' = ground (arith, e) in same) t
prefetch_pages-IsTracked file_id start (suc count) s s' t e =
    elim (Option-cases (prefetch_one file_id start s)) [
      | inl stuck ↦ absurd (ground (arith, stuck, e))
      | inr (u, one) ↦
          prefetch_pages-IsTracked file_id (start +u64 1) count u s'
            (prefetch_one-IsTracked file_id start s u t one) (ground (arith, one, e))
    ]

pub evict-IsTracked : (n : ℕ) (s : PageStore) → IsTracked s → IsTracked (evict n s)
unfolding evict
evict-IsTracked n s t f i h = t f i (contains-evict_n (page_at f i) n s.cache h)
