-- ===== src/Worker/Policy/Lru/Contract.antt =====
-- `LRUPolicy` meets the contract of `CachePolicy`.
use any_cache.Base.{
  ℕ, ◌<◌, ◌≡◌, refl, inl, inr, ite, Bool, true, false, some, List, [], ◌∷◌, Map, find, has, length,
  nat_key, arith, Option-cases, ℕ_discrete, has-insert, has-erase, has-find, find-first,
  length-erase_present,
}
use any_cache.Base.Nodes.Linked.{Linked}
use any_cache.Base.Nodes.{erase_node}
use any_cache.Base.Nodes.Steps.{Linked-pop}
use any_cache.Worker.Policy.{IsPolicy, Evicts}
use any_cache.Worker.Policy.Lru.{
  LruPolicy, on_access, on_insert, on_remove, evict_from, evict, size, lru,
}
use any_cache.Worker.Policy.Lru.Recency.{
  IsValid, itself, access-IsValid, insert-IsValid, remove-IsValid, empty-IsValid,
}

abbrev tracks : ℕ → LruPolicy → Bool
tracks j p = has j p.index

tracks-access : (j id : ℕ) (p : LruPolicy) → IsValid p → tracks j (on_access id p) ≡ tracks j p
unfolding on_access erase_node
tracks-access j id p l = elim (Option-cases (find id p.index)) [
  | inl miss ↦ rw (miss, on_access)
  | inr (it, hit) ↦
      rw (hit, on_access)
        (ground (arith, has-insert id j p.order.fresh p.index, has-find id it p.index hit))
]

tracks-insert :
    (j id : ℕ) (p : LruPolicy)
    → IsValid p
    → tracks j (on_insert id p) ≡ ite (ℕ_discrete id j) true (tracks j p)
unfolding on_insert erase_node
tracks-insert j id p l = elim (Option-cases (find id p.index)) [
  | inl miss ↦ rw (miss, on_insert) (has-insert id j p.order.fresh p.index)
  | inr (it, hit) ↦ rw (hit, on_insert) (has-insert id j p.order.fresh p.index)
]

tracks-remove :
    (j id : ℕ) (p : LruPolicy)
    → IsValid p
    → tracks j (on_remove id p) ≡ ite (ℕ_discrete id j) false (tracks j p)
unfolding on_remove
tracks-remove j id p l = elim (Option-cases (find id p.index)) [
  | inl miss ↦ rw (miss, on_remove) (ground (arith, miss))
  | inr (it, hit) ↦ rw (hit, on_remove) (has-erase id j p.index)
]

evict_from-Evicts :
    (cells : List (ℕ × ℕ)) (p : LruPolicy)
    → Linked itself cells p.order.fresh p.index
    → p.order.cells ≡ cells
    → 0 < size p
    → Evicts lru IsValid tracks p
unfolding evict evict_from size
evict_from-Evicts [] p l e h = absurd (omega (arith, l.count))
evict_from-Evicts ((n, id) ∷ rest) p l e h = (
  (evict_from ((n, id) ∷ rest) p).0,
  id,
  rw e,
  Linked-pop itself n id rest p.order.fresh p.index l,
  has-find id n p.index here,
  (λ j. has-erase id j p.index),
  omega (arith, length-erase_present id n p.index l.keys_distinct here),
)
  where
    here : find id p.index ≡ some n
    here = l.to_key n id (find-first n id rest)

tracked_size : (j : ℕ) (p : LruPolicy) → IsValid p → tracks j p ≡ true → 0 < size p
unfolding size find
tracked_size j p l h = go p.index h
  where
    go : (m : Map ℕ ℕ) → has j m ≡ true → 0 < length m
    go [] h = cc
    go (c ∷ m) h = omega arith

-- The LRU policy meets the contract, with the blocks of `map_` as those tracked: each method keeps
-- it valid and tracks what it should, and an eviction from a valid policy that has blocks returns,
-- with a tracked block that alone is tracked no more.
pub lru-IsPolicy : IsPolicy lru
unfolding find
lru-IsPolicy = record {
  IsValid = IsValid;
  tracks = tracks;
  empty-IsValid = empty-IsValid;
  tracks-empty = λ j. refl;
  access-IsValid = access-IsValid;
  insert-IsValid = insert-IsValid;
  remove-IsValid = remove-IsValid;
  tracks-access = tracks-access;
  tracks-insert = tracks-insert;
  tracks-remove = tracks-remove;
  evicts = λ p l h. evict_from-Evicts p.order.cells p l refl h;
  tracked_size = tracked_size;
}
