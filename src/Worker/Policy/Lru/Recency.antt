-- ===== src/Worker/Policy/Lru/Recency.antt =====
-- `LRUPolicy` refines the list of its blocks by recency, oldest first.
use any_cache.Base.{
  ℕ, ◌≡◌, refl, inl, inr, none, some, List, [], ◌∷◌, ◌++◌, find, erase, length, nat_key, arith,
  Option-cases, ap, ◌∙◌,
}
use any_cache.Base.Nodes.{
  push_back, erase_node, values, values-push, values-nil, values-cons, length-values,
}
use any_cache.Base.Nodes.Linked.{
  Linked, without, lookup, without_hit, without_miss, lookup_hit, lookup_miss,
}
use any_cache.Base.Nodes.Steps.{Linked-add, Linked-drop, Linked-renew, Linked-pop}
use any_cache.Worker.Policy.{invalid_block_id}
use any_cache.Worker.Policy.Lru.{
  LruPolicy, empty, on_access, on_insert, on_remove, evict_from, evict, size,
}

abbrev pub itself : ℕ → ℕ
itself id = id

abbrev pub IsValid : LruPolicy → Type 0
IsValid p = Linked itself p.order.cells p.order.fresh p.index

pub recency : LruPolicy → List ℕ
recency p = values p.order.cells

-- The four calls on the list.
pub data Call : Type 0 where
  accesses inserts removes : ℕ → Call
  evicts : Call

spec_evict : List ℕ → List ℕ × ℕ
spec_evict [] = ([], invalid_block_id)
spec_evict (id ∷ ids) = (ids, id)

pub spec : Call → List ℕ → List ℕ × ℕ
unfolding spec_evict
spec (accesses id) ids = elim (lookup itself id ids) [
  | none ↦ (ids, invalid_block_id)
  | some _ ↦ (without itself id ids ++ id ∷ [], invalid_block_id)
]
spec (inserts id) ids = (without itself id ids ++ id ∷ [], invalid_block_id)
spec (removes id) ids = (without itself id ids, invalid_block_id)
spec evicts ids = spec_evict ids

pub step : Call → LruPolicy → LruPolicy × ℕ
step (accesses id) p = (on_access id p, invalid_block_id)
step (inserts id) p = (on_insert id p, invalid_block_id)
step (removes id) p = (on_remove id p, invalid_block_id)
step evicts p = evict p

-- What one call must keep: the links, and the agreement with the list.
pub record Agrees (c : Call) (p : LruPolicy) : Type 0 where
  pub valid : IsValid (step c p).0
  pub order : recency (step c p).0 ≡ (spec c (recency p)).0
  pub result : (step c p).1 ≡ (spec c (recency p)).1

access-Agrees : (id : ℕ) (p : LruPolicy) → IsValid p → Agrees (accesses id) p
unfolding step spec on_access recency push_back erase_node
access-Agrees id p l = elim (Option-cases (find id p.index)) [
  | inl miss ↦
      let gone = lookup_miss itself l id miss in
      record {
        valid = rw (miss, on_access) l;
        order = rw (miss, on_access, gone, spec);
        result = rw (gone, spec);
      }
  | inr (it, hit) ↦
      let (e, at, same) = l.to_node id it hit in
      let there = lookup_hit itself l id it hit ∙ at in
      record {
        valid = rw (hit, on_access) (Linked-renew itself l id it hit);
        order =
            rw (hit, on_access, there, spec, without_hit itself l id it hit)
              (values-push p.order.fresh id (erase it p.order.cells));
        result = rw (there, spec);
      }
]

insert-Agrees : (id : ℕ) (p : LruPolicy) → IsValid p → Agrees (inserts id) p
unfolding step spec on_insert recency push_back erase_node
insert-Agrees id p l = elim (Option-cases (find id p.index)) [
  | inl miss ↦ record {
    valid = rw (miss, on_insert) (Linked-add itself l id miss);
    order =
        rw (miss, on_insert, without_miss itself l id miss)
          (values-push p.order.fresh id p.order.cells);
    result = refl;
  }
  | inr (it, hit) ↦ record {
    valid = rw (hit, on_insert) (Linked-renew itself l id it hit);
    order =
        rw (hit, on_insert, without_hit itself l id it hit)
          (values-push p.order.fresh id (erase it p.order.cells));
    result = refl;
  }
]

remove-Agrees : (id : ℕ) (p : LruPolicy) → IsValid p → Agrees (removes id) p
unfolding step spec on_remove recency erase_node
remove-Agrees id p l = elim (Option-cases (find id p.index)) [
  | inl miss ↦ record {
    valid = rw (miss, on_remove) l;
    order = rw (miss, on_remove, without_miss itself l id miss);
    result = refl;
  }
  | inr (it, hit) ↦ record {
    valid = rw (hit, on_remove) (Linked-drop itself l id it hit);
    order = rw (hit, on_remove, without_hit itself l id it hit);
    result = refl;
  }
]

evict_from-Agrees :
    (cells : List (ℕ × ℕ)) (p : LruPolicy)
    → Linked itself cells p.order.fresh p.index
    → IsValid p
    → p.order.cells ≡ cells
    → IsValid (evict_from cells p).0
      × (recency (evict_from cells p).0 ≡ (spec evicts (values cells)).0)
      × ((evict_from cells p).1 ≡ (spec evicts (values cells)).1)
unfolding evict_from spec recency
evict_from-Agrees [] p l v e = (v, rw (e, values-nil), rw values-nil)
evict_from-Agrees ((n, id) ∷ rest) p l v e =
    (Linked-pop itself n id rest p.order.fresh p.index l, rw values-cons, rw values-cons)

evict-Agrees : (p : LruPolicy) → IsValid p → Agrees evicts p
unfolding step evict recency
evict-Agrees p l =
    let (valid, order, result) = evict_from-Agrees p.order.cells p l l refl in
    record { valid = valid; order = order; result = result }

-- Each call keeps the links, and does to the list and returns what the list says.
pub step-Agrees : (c : Call) (p : LruPolicy) → IsValid p → Agrees c p
step-Agrees (accesses id) p l = access-Agrees id p l
step-Agrees (inserts id) p l = insert-Agrees id p l
step-Agrees (removes id) p l = remove-Agrees id p l
step-Agrees evicts p l = evict-Agrees p l

pub access-IsValid : (id : ℕ) (p : LruPolicy) → IsValid p → IsValid (on_access id p)
unfolding step
access-IsValid id p l = (step-Agrees (accesses id) p l).valid

pub insert-IsValid : (id : ℕ) (p : LruPolicy) → IsValid p → IsValid (on_insert id p)
unfolding step
insert-IsValid id p l = (step-Agrees (inserts id) p l).valid

pub remove-IsValid : (id : ℕ) (p : LruPolicy) → IsValid p → IsValid (on_remove id p)
unfolding step
remove-IsValid id p l = (step-Agrees (removes id) p l).valid

pub size-recency : (p : LruPolicy) → IsValid p → size p ≡ length (recency p)
unfolding size recency
size-recency p l = omega (arith, l.count, length-values p.order.cells)

-- A history of calls, with the results that they return.
pub run : List Call → LruPolicy → LruPolicy × List ℕ
run [] p = (p, [])
run (c ∷ cs) p = let later = run cs (step c p).0 in (later.0, (step c p).1 ∷ later.1)

pub spec_run : List Call → List ℕ → List ℕ × List ℕ
spec_run [] ids = (ids, [])
spec_run (c ∷ cs) ids =
    let later = spec_run cs (spec c ids).0 in (later.0, (spec c ids).1 ∷ later.1)

run-valid :
    (cs : List Call) (p : LruPolicy)
    → IsValid p
    → IsValid (run cs p).0
      × (recency (run cs p).0 ≡ (spec_run cs (recency p)).0)
      × ((run cs p).1 ≡ (spec_run cs (recency p)).1)
unfolding run spec_run
run-valid [] p l = (l, refl, refl)
run-valid (c ∷ cs) p l =
    let s = step-Agrees c p l in
    let (valid, order, results) = run-valid cs (step c p).0 s.valid in
    rw (← s.order, ← s.result) (valid, order, ap (◌∷◌ (step c p).1) results)

pub empty-IsValid : IsValid empty
unfolding find
empty-IsValid = record {
  cells_distinct = tt;
  keys_distinct = tt;
  below = λ n h. refl;
  to_node = λ k n h. cc;
  to_key = λ n e h. cc;
  count = refl;
}

-- Whatever the history of accesses, insertions, removals and evictions from the empty policy, every
-- eviction returns what the list by recency returns: its oldest block, or the invalid id if it is
-- empty; the nodes then hold that list, and `Size` is its length.
pub run-recency :
    (cs : List Call)
    → (recency (run cs empty).0 ≡ (spec_run cs []).0)
      × ((run cs empty).1 ≡ (spec_run cs []).1)
      × (size (run cs empty).0 ≡ length (spec_run cs []).0)
unfolding recency
run-recency cs =
    let (valid, order, results) = run-valid cs empty empty-IsValid in
    let start : recency empty ≡ [] = values-nil in
    let order' = order ∙ ap (λ ids. (spec_run cs ids).0) start in
    (
      order',
      results ∙ ap (λ ids. (spec_run cs ids).1) start,
      size-recency (run cs empty).0 valid ∙ ap length order',
    )
