-- ===== src/Worker/Policy/Lru.antt =====
-- `LRUPolicy` of src/worker/cache_manager.{h,cpp}: `order_`, front first to go, and `map_` from
-- block ids to iterators into it.
pub mod Recency
pub mod Contract
mod Tests
use any_cache.Base.{
  ℕ, ◌≡◌, ite, Option, none, some, List, [], ◌∷◌, Map, find, insert, erase, length, nat_key,
}
use any_cache.Base.Nodes.{Nodes, no_nodes, push_back, erase_node}
use any_cache.Worker.Policy.{CachePolicy, invalid_block_id}

pub record LruPolicy : Type 0 where
  pub order : Nodes ℕ
  pub index : Map ℕ ℕ

abbrev pub empty : LruPolicy
empty = record { order = no_nodes; index = [] }

-- `order_.erase(it); order_.push_back(id); map_[id] = std::prev(order_.end())`
renew : ℕ → ℕ → LruPolicy → LruPolicy
renew id it p = record {
  order = push_back id (erase_node it p.order);
  index = insert id (erase_node it p.order).fresh p.index;
}

pub on_access : ℕ → LruPolicy → LruPolicy
unfolding renew
on_access id p = elim (find id p.index) [ none ↦ p | some it ↦ renew id it p ]

unfoldable pub on_insert : ℕ → LruPolicy → LruPolicy
unfolding renew
on_insert id p = elim (find id p.index) [
  | none ↦ record { order = push_back id p.order; index = insert id p.order.fresh p.index }
  | some it ↦ renew id it p
]

pub on_remove : ℕ → LruPolicy → LruPolicy
on_remove id p = elim (find id p.index) [
  | none ↦ p
  | some it ↦ record { order = erase_node it p.order; index = erase id p.index }
]

evict_from : List (ℕ × ℕ) → LruPolicy → LruPolicy × ℕ
evict_from [] p = (p, invalid_block_id)
evict_from ((_, victim) ∷ rest) p = (
  record { order = record { cells = rest; fresh = p.order.fresh }; index = erase victim p.index },
  victim,
)

pub evict : LruPolicy → LruPolicy × ℕ
unfolding evict_from
evict p = evict_from p.order.cells p

pub size : LruPolicy → ℕ
size p = length p.index

abbrev pub lru : CachePolicy
lru = record {
  State = LruPolicy;
  empty = empty;
  on_access = on_access;
  on_insert = on_insert;
  on_remove = on_remove;
  evict = λ p. some (evict p);
  size = size;
}
