-- ===== src/Worker/LruCache/Entries.antt =====
-- The cache refines the list of its entries, least recently used first.
use any_cache.Base.{
  ℕ, ◌≤◌, ◌<◌, ◌≡◌, refl, ◌∙◌, inl, inr, none, some, List, [], ◌∷◌, ◌++◌, Key, find, erase, length,
  nat_key, arith, Option-cases,
}
use any_cache.Base.Nodes.{splice_back-hit, values, values-push}
use any_cache.Base.Nodes.Linked.{Linked, without, lookup, without_hit, lookup_hit, lookup_miss}
use any_cache.Base.Nodes.Steps.{Linked-move}
use any_cache.Worker.LruCache.{LruCache, create, value_of, get}

module _ {K V : Type 0} ⦃key : Key K⦄ where
  abbrev pub key_of : K × V → K
  key_of e = e.0

  -- The links hold, and the cache has room for at least one entry and no more than its bound.
  pub record IsValid (c : LruCache K V) : Type 0 where
    pub linked : Linked key_of c.order.cells c.order.fresh c.index
    pub bounded : length c.index ≤ c.max_entries
    pub roomy : 0 < c.max_entries

  unfoldable pub entries : LruCache K V → List (K × V)
  entries c = values c.order.cells

  pub create-IsValid : (n : ℕ) → 0 < n → IsValid (create {K = K} {V = V} n)
  unfolding create find
  create-IsValid n h = record {
    linked = record {
      cells_distinct = tt;
      keys_distinct = tt;
      below = λ m e. refl;
      to_node = λ k m e. cc;
      to_key = λ m a e. cc;
      count = refl;
    };
    bounded = omega arith;
    roomy = h;
  }

  -- `Get` returns the value of the entry with the key and makes that entry the last; on a miss it
  -- changes nothing.
  pub record Got (k : K) (c : LruCache K V) : Type 0 where
    pub valid : IsValid (get k c).0
    pub value : (get k c).1 ≡ value_of (lookup key_of k (entries c))
    pub order : entries (get k c).0 ≡ elim (lookup key_of k (entries c)) [
      | none ↦ entries c
      | some e ↦ without key_of k (entries c) ++ e ∷ []
    ]

  -- On a valid cache `Get` keeps it valid and returns the value of the entry with the key; on a hit
  -- that entry becomes the most recent one, on a miss the entries stay as they are.
  pub get-Got : (k : K) (c : LruCache K V) → IsValid c → Got k c
  unfolding get entries
  get-Got k c v = elim (Option-cases (find k c.index)) [
    | inl miss ↦
        let gone = lookup_miss key_of v.linked k miss in
        record {
          valid = rw (miss, get) v;
          value = rw (miss, get, gone, value_of);
          order = rw (miss, get, gone);
        }
    | inr (it, hit) ↦
        let (e, at, same) = v.linked.to_node k it hit in
        let there = lookup_hit key_of v.linked k it hit ∙ at in
        let moved = splice_back-hit it e c.order at in
        record {
          valid =
              rw (hit, get, moved)
                (record {
                  linked = Linked-move key_of v.linked it e at;
                  bounded = v.bounded;
                  roomy = v.roomy;
                });
          value = rw (hit, get, there, at);
          order =
              rw (hit, get, there, moved, without_hit key_of v.linked k it hit)
                (values-push it e (erase it c.order.cells));
        }
  ]
