-- ===== src/Worker/PageStore/Invalidate.antt =====
-- Invalidating a file clears all its pages, since the reverse index names every cached page.
use any_cache.Base.{
  at_number, ite, ℕ, ◌≡◌, ◌≢◌, refl, ◌∙◌, if_neg, inl, inr, true, false, none, some, [], ◌∷◌, Map,
  find, has, nat_key, ℕ_discrete, arith, Option-cases, Bool-cases, find-erase_ne,
}
use any_cache.Worker.LruCache.{LruCache}
use any_cache.Worker.LruCache
use any_cache.Worker.LruCache.Keys.{contains-remove}
use any_cache.Worker.PageStore.{
  PageKey, page_key, PageKey-discrete, PageData, PageStore, page_at, erase_pages, invalidate_file,
}
use any_cache.Worker.PageStore.Tracking.{cached, IsTracked, page_at-injective}

erase_pages-sub :
    (file_id : ℕ) (key : PageKey) (pages : Map ℕ (Unit {0})) (c : LruCache PageKey PageData)
    → LruCache.contains key (erase_pages file_id pages c) ≡ true
    → LruCache.contains key c ≡ true
unfolding erase_pages
erase_pages-sub file_id key [] c h = h
erase_pages-sub file_id key ((page, _) ∷ pages) c h = ground (
  arith,
  erase_pages-sub file_id key pages (LruCache.remove (page_at file_id page) c) h,
  contains-remove key (page_at file_id page) c,
)

erase_pages-clears :
    (file_id i : ℕ) (pages : Map ℕ (Unit {0})) (c : LruCache PageKey PageData)
    → has i pages ≡ true
    → LruCache.contains (page_at file_id i) (erase_pages file_id pages c) ≡ false
unfolding erase_pages find
erase_pages-clears file_id i [] c h = cc
erase_pages-clears file_id i ((page, _) ∷ pages) c h = elim (ℕ_discrete page i) [
  | no other ↦
      erase_pages-clears file_id i pages (LruCache.remove (page_at file_id page) c)
        (ground (arith, other, h))
  | yes same ↦
      elim (Bool-cases (
        LruCache.contains (page_at file_id i)
          (erase_pages file_id pages (LruCache.remove (page_at file_id page) c)))) [
            | inr gone ↦ gone
            | inl left ↦ absurd (
                ground (
                  arith,
                  same,
                  erase_pages-sub file_id (page_at file_id i) pages
                      (LruCache.remove (page_at file_id page) c) left,
                  contains-remove (page_at file_id i) (page_at file_id page) c,
                ))
          ]
]

erase_pages-others :
    (file_id g i : ℕ) (pages : Map ℕ (Unit {0})) (c : LruCache PageKey PageData)
    → file_id ≢ g
    → LruCache.contains (page_at g i) (erase_pages file_id pages c)
      ≡ LruCache.contains (page_at g i) c
unfolding erase_pages
erase_pages-others file_id g i [] c ne = refl
erase_pages-others file_id g i ((page, _) ∷ pages) c ne =
    erase_pages-others file_id g i pages (LruCache.remove (page_at file_id page) c) ne
    ∙ contains-remove (page_at g i) (page_at file_id page) c
    ∙ if_neg (PageKey-discrete (page_at file_id page) (page_at g i))
        (λ e. ne (page_at-injective file_id g page i e).0) _ _

known-clears :
    (file_id : ℕ) (s : PageStore) (pages : Map ℕ (Unit {0}))
    → IsTracked s
    → find file_id s.file_page_index ≡ some pages
    → (i : ℕ) → LruCache.contains (page_at file_id i) (erase_pages file_id pages s.cache) ≡ false
known-clears file_id s pages t known i =
    elim (Bool-cases (LruCache.contains (page_at file_id i) (erase_pages file_id pages s.cache))) [
      | inr clear ↦ clear
      | inl left ↦ erase_pages-clears file_id i pages s.cache (
          ground (
            arith,
            known,
            t file_id i (erase_pages-sub file_id (page_at file_id i) pages s.cache left),
          ))
    ]

unknown-clear :
    (file_id : ℕ) (s : PageStore)
    → IsTracked s
    → find file_id s.file_page_index ≡ none
    → (i : ℕ) → cached file_id i s ≡ false
unfolding find
unknown-clear file_id s t unknown i = elim (Bool-cases (cached file_id i s)) [
  | inl there ↦ ground (arith, unknown, t file_id i there)
  | inr gone ↦ gone
]

pub invalidated_pages :
    (file_id : ℕ) (s : PageStore)
    → IsTracked s
    → ((i : ℕ) → cached file_id i (invalidate_file file_id s) ≡ false)
      × ((g i : ℕ) → file_id ≢ g → cached g i (invalidate_file file_id s) ≡ cached g i s)
      × IsTracked (invalidate_file file_id s)
unfolding invalidate_file
invalidated_pages file_id s t = elim (Option-cases (find file_id s.file_page_index)) [
  | inl unknown ↦
      rw (unknown, invalidate_file) (unknown-clear file_id s t unknown, (λ g i ne. refl), t)
  | inr (pages, known) ↦
      rw (known, invalidate_file)
        (
          known-clears file_id s pages t known,
          (λ g i ne. erase_pages-others file_id g i pages s.cache ne),
          (λ g i left. elim (ℕ_discrete file_id g) [
            | yes same ↦ absurd (ground (arith, same, left, known-clears file_id s pages t known i))
            | no other ↦ ground (
              arith,
              find-erase_ne file_id g s.file_page_index other,
              t g i (erase_pages-sub file_id (page_at g i) pages s.cache left),
            )
          ]),
        )
]

-- Invalidating a file in a store whose reverse index names every cached page leaves no page of the
-- file cached, leaves the pages of other files cached or not as they were, and keeps the index so.
pub invalidate_file-IsTracked :
    (file_id : ℕ) (s : PageStore)
    → IsTracked s
    → ((g i : ℕ)
        → cached g i (invalidate_file file_id s) ≡ ite (ℕ_discrete file_id g) false (cached g i s))
      × IsTracked (invalidate_file file_id s)
invalidate_file-IsTracked file_id s t =
    let (gone, others, kept) = invalidated_pages file_id s t in
    (
      (λ g i.
          at_number (λ f. cached f i (invalidate_file file_id s)) (λ f. cached f i s) file_id false
            (gone i) (λ f ne. others f i ne) g),
      kept,
    )
