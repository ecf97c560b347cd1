-- ===== src/Worker/LruCache.antt =====
-- `ConcurrentLRUCache` of src/worker/page_store.h: `order_`, least recently used first, and `map_`
-- from keys to iterators into it. Each method runs under the cache's lock, so calls are a sequence.
pub mod Entries
pub mod Puts
pub mod Evict
pub mod Keys
mod Tests
use any_cache.Base.{
  ℕ, zero, suc, Bool, true, false, Option, none, some, List, [], ◌∷◌, Key, Map, find, has, insert,
  erase, length, nat_key, leb, if◌then◌else◌,
}
use any_cache.Base.Nodes.{Nodes, no_nodes, push_back, erase_node, set_node, splice_back}

pub record LruCache (K V : Type 0) : Type 0 where
  pub max_entries : ℕ
  pub order : Nodes (K × V)
  pub index : Map K ℕ

module _ {K V : Type 0} ⦃key : Key K⦄ where
  unfoldable pub create : ℕ → LruCache K V
  create max_entries = record { max_entries = max_entries; order = no_nodes; index = [] }

  pub value_of : Option (K × V) → Option V
  value_of none = none
  value_of (some (k, v)) = some v

  -- `Get`: the cache after it, and the value of a hit.
  pub get : K → LruCache K V → LruCache K V × Option V
  unfolding value_of
  get k c = elim (find k c.index) [
    | none ↦ (c, none)
    | some it ↦ (record c { order = splice_back it c.order }, value_of (find it c.order.cells))
  ]

  -- `it->second->second = value`
  pub set_value : ℕ → V → Option (K × V) → Nodes (K × V) → Nodes (K × V)
  set_value it v none l = l
  set_value it v (some (k, _)) l = set_node it (k, v) l

  -- `map_.erase(front.first); order_.pop_front()`; the front of an empty list is undefined.
  pub pop_lru : List (ℕ × (K × V)) → LruCache K V → Option (LruCache K V)
  pop_lru [] c = none
  pop_lru ((_, e) ∷ rest) c = some (record c {
    order = record { cells = rest; fresh = c.order.fresh };
    index = erase e.0 c.index;
  })

  pub make_room : LruCache K V → Option (LruCache K V)
  unfolding pop_lru
  make_room c = if leb c.max_entries (length c.index) then pop_lru c.order.cells c else some c

  pub append : K → V → Option (LruCache K V) → Option (LruCache K V)
  append k v none = none
  append k v (some c) =
      some (record c { order = push_back (k, v) c.order; index = insert k c.order.fresh c.index })

  -- `none` where the behaviour is undefined.
  pub put : K → V → LruCache K V → Option (LruCache K V)
  unfolding set_value make_room append
  put k v c = elim (find k c.index) [
    | none ↦ append k v (make_room c)
    | some it ↦
        some (record c { order = splice_back it (set_value it v (find it c.order.cells) c.order) })
  ]

  unfoldable pub contains : K → LruCache K V → Bool
  contains k c = has k c.index

  pub remove : K → LruCache K V → LruCache K V
  remove k c = elim (find k c.index) [
    | none ↦ c
    | some it ↦ record c { order = erase_node it c.order; index = erase k c.index }
  ]

  pub size : LruCache K V → ℕ
  size c = length c.index

  pub clear : LruCache K V → LruCache K V
  clear c = record c { order = record { cells = []; fresh = c.order.fresh }; index = [] }

  -- The loop of `EvictN`, which ends at the count or at the empty list.
  pub evict_cells : ℕ → List (ℕ × (K × V)) → LruCache K V → LruCache K V × List K
  evict_cells zero cells c =
      (record c { order = record { cells = cells; fresh = c.order.fresh } }, [])
  evict_cells (suc count) [] c =
      (record c { order = record { cells = []; fresh = c.order.fresh } }, [])
  evict_cells (suc count) ((_, e) ∷ rest) c =
      let more = evict_cells count rest (record c { index = erase e.0 c.index }) in
      (more.0, e.0 ∷ more.1)

  pub evict_n : ℕ → LruCache K V → LruCache K V × List K
  unfolding evict_cells
  evict_n count c = evict_cells count c.order.cells c
