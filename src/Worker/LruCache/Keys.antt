-- ===== src/Worker/LruCache/Keys.antt =====
-- Which keys are cached after each call.
use any_cache.Base.{
  ℕ, zero, suc, ◌≡◌, refl, ite, inl, inr, ◌⊎◌, true, false, none, some, List, [], ◌∷◌, Key, Map,
  find, has, erase, length, nat_key, arith, leb, Option-cases, Bool-cases, has-insert, has-erase,
}
use any_cache.Worker.LruCache.{
  LruCache, get, put, pop_lru, make_room, append, contains, remove, evict_cells, evict_n,
}

-- What an erased key leaves cached was cached.
erased_sub :
    {K : Type 0} ⦃key : Key K⦄ (j k : K) (m : Map K ℕ) → has j (erase k m) ≡ true → has j m ≡ true
erased_sub j k m h = ground (arith, has-erase k j m, h)

module _ {K V : Type 0} ⦃key : Key K⦄ where
  pub contains-get : (j k : K) (c : LruCache K V) → contains j (get k c).0 ≡ contains j c
  unfolding get contains
  contains-get j k c = elim (Option-cases (find k c.index)) [
    | inl miss ↦ rw (miss, get)
    | inr (it, hit) ↦ rw (hit, get)
  ]

  pub get_miss : (k : K) (c : LruCache K V) → contains k c ≡ false → get k c ≡ (c, none)
  unfolding get contains
  get_miss k c h = elim (Option-cases (find k c.index)) [
    | inl miss ↦ rw (miss, get)
    | inr (it, hit) ↦ absurd (ground (arith, hit, h))
  ]

  pub contains-remove :
      (j k : K) (c : LruCache K V)
      → contains j (remove k c) ≡ ite (key.dec k j) false (contains j c)
  unfolding remove contains
  contains-remove j k c = elim (Option-cases (find k c.index)) [
    | inl miss ↦ rw (miss, remove) (absent (key.dec k j) miss)
    | inr (it, hit) ↦ rw (hit, remove) (has-erase k j c.index)
  ]
    where
      absent :
          (d : Dec (k ≡ j)) → find k c.index ≡ none → has j c.index ≡ ite d false (has j c.index)
      absent (yes same) miss = ground (arith, same, miss)
      absent (no other) miss = refl

  pop_lru-sub :
      (j : K) (cells : List (ℕ × (K × V))) (c c' : LruCache K V)
      → pop_lru cells c ≡ some c'
      → has j c'.index ≡ true
      → has j c.index ≡ true
  unfolding pop_lru
  pop_lru-sub j [] c c' e h = absurd (ground (arith, e))
  pop_lru-sub j ((n, a) ∷ rest) c c' e h = erased_sub j a.0 c.index (ground (arith, e, h))

  -- A put caches its key, and no other key that was not cached.
  pub contains-put :
      (j k : K) (v : V) (c c' : LruCache K V)
      → put k v c ≡ some c'
      → contains j c' ≡ true
      → (k ≡ j) ⊎ (contains j c ≡ true)
  unfolding put append make_room contains
  contains-put j k v c c' e h = elim (Option-cases (find k c.index)) [
    | inr (it, hit) ↦ inr (ground (arith, hit, e, h))
    | inl miss ↦ elim (Option-cases (make_room c)) [
      | inl stuck ↦ absurd (ground (arith, miss, stuck, e))
      | inr (m, made) ↦ elim (key.dec k j) [
        | yes same ↦ inl same
        | no other ↦
            let there : has j m.index ≡ true =
              ground (arith, miss, made, e, h, other, has-insert k j m.order.fresh m.index) in
            inr (elim (Bool-cases (leb c.max_entries (length c.index))) [
              | inl full ↦ pop_lru-sub j c.order.cells c m (ground (arith, made, full)) there
              | inr short ↦ ground (arith, made, short, there)
            ])
      ]
    ]
  ]

  evict_cells-sub :
      (j : K) (count : ℕ) (cells : List (ℕ × (K × V))) (c : LruCache K V)
      → has j (evict_cells count cells c).0.index ≡ true
      → has j c.index ≡ true
  unfolding evict_cells
  evict_cells-sub j zero cells c h = h
  evict_cells-sub j (suc count) [] c h = h
  evict_cells-sub j (suc count) ((n, e) ∷ rest) c h =
      erased_sub j e.0 c.index
        (evict_cells-sub j count rest (record c { index = erase e.0 c.index }) h)

  pub contains-evict_n :
      (j : K) (count : ℕ) (c : LruCache K V)
      → contains j (evict_n count c).0 ≡ true
      → contains j c ≡ true
  unfolding evict_n contains
  contains-evict_n j count c h = evict_cells-sub j count c.order.cells c h
