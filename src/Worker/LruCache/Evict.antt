-- ===== src/Worker/LruCache/Evict.antt =====
-- `Erase` and `EvictN` on the list of entries.
use any_cache.Base.{
  ℕ, zero, suc, ◌≡◌, refl, ap, inl, inr, List, [], ◌∷◌, map, take, drop, Key, find, erase, nat_key,
  arith, Option-cases, length-erase-le,
}
use any_cache.Base.Nodes.{erase_node, values, values-nil, values-cons}
use any_cache.Base.Nodes.Linked.{without, without_hit, without_miss}
use any_cache.Base.Nodes.Steps.{Linked-drop, Linked-pop}
use any_cache.Worker.LruCache.{LruCache, remove, evict_cells, evict_n}
use any_cache.Worker.LruCache.Entries.{key_of, IsValid, entries}

module _ {K V : Type 0} ⦃key : Key K⦄ where
  pub record Removed (k : K) (c : LruCache K V) : Type 0 where
    pub valid : IsValid (remove k c)
    pub order : entries (remove k c) ≡ without key_of k (entries c)

  -- On a valid cache `Erase` keeps it valid, drops the key's entry and keeps the others in their
  -- order.
  pub remove-Removed : (k : K) (c : LruCache K V) → IsValid c → Removed k c
  unfolding remove entries erase_node
  remove-Removed k c v = elim (Option-cases (find k c.index)) [
    | inl miss ↦ record {
      valid = rw (miss, remove) v;
      order = rw (miss, remove, without_miss key_of v.linked k miss);
    }
    | inr (it, hit) ↦ record {
      valid =
          rw (hit, remove)
            (record {
              linked = Linked-drop key_of v.linked k it hit;
              bounded = omega (arith, length-erase-le k c.index, v.bounded);
              roomy = v.roomy;
            });
      order = rw (hit, remove, without_hit key_of v.linked k it hit);
    }
  ]

  -- The state that the eviction loop starts in, with its cells apart.
  abbrev holding : List (ℕ × (K × V)) → LruCache K V → LruCache K V
  holding cells c = record c { order = record { cells = cells; fresh = c.order.fresh } }

  evict_cells-entries :
      (count : ℕ) (cells : List (ℕ × (K × V))) (c : LruCache K V)
      → IsValid (holding cells c)
      → IsValid (evict_cells count cells c).0
        × (entries (evict_cells count cells c).0 ≡ drop count (values cells))
        × ((evict_cells count cells c).1 ≡ map key_of (take count (values cells)))
  unfolding evict_cells entries
  evict_cells-entries zero cells c v = (v, refl, refl)
  evict_cells-entries (suc count) [] c v = (v, rw values-nil, rw values-nil)
  evict_cells-entries (suc count) ((n, e) ∷ rest) c v =
      let c' : LruCache K V = record c { index = erase e.0 c.index } in
      let v' : IsValid (holding rest c') = record {
        linked = Linked-pop key_of n e rest c.order.fresh c.index v.linked;
        bounded = omega (arith, length-erase-le e.0 c.index, v.bounded);
        roomy = v.roomy;
      } in
      let (valid, left, keys) = evict_cells-entries count rest c' v' in
      (valid, rw values-cons left, rw values-cons (ap (◌∷◌ e.0) keys))

  -- On a valid cache `EvictN` keeps it valid and drops the least recently used entries, as many as it is asked for if there are that
  -- many, and returns their keys in that order.
  pub evict_n-entries :
      (count : ℕ) (c : LruCache K V)
      → IsValid c
      → IsValid (evict_n count c).0
        × (entries (evict_n count c).0 ≡ drop count (entries c))
        × ((evict_n count c).1 ≡ map key_of (take count (entries c)))
  unfolding evict_n entries
  evict_n-entries count c v = evict_cells-entries count c.order.cells c v
