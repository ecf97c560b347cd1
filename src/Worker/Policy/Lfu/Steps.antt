-- ===== src/Worker/Policy/Lfu/Steps.antt =====
-- The methods of `LFUPolicy` that do not evict keep the frequencies and the lists in step.
use any_cache.Base.{
  mem-nil, ℕ, ◌<◌, ◌≡◌, ◌≢◌, inl, inr, ite, if_neg, Bool, true, false, some, List, [], ◌∷◌, ◌++◌,
  Map, find, has, insert, nat_key, arith, ℕ_discrete, Option-cases, ◌+u64◌, u64, has-insert,
  has-erase, has-find, ◌∙◌,
}
use any_cache.Worker.Policy.Lfu.{
  LfuPolicy, empty, remove, list_at, store_list, move_up, on_access, on_insert, on_remove,
}
use any_cache.Worker.Policy.Lfu.Lists.{list_at-insert, list_at-store}
use any_cache.Worker.Policy.Lfu.Tracking.{IsValid, Tracks-move, Tracks-add, Tracks-drop}

pub next_freq : (f : ℕ) → f < u64 → (f ≢ f +u64 1) × (f +u64 1 < u64)
unfolding ◌+u64◌
next_freq f h = (omega arith, omega arith)

-- The lists after a move.
list_at-move :
    (g id old new : ℕ) (lists : Map ℕ (List ℕ))
    → old ≢ new
    → let lists' = store_list old (remove id (list_at old lists)) lists in
      list_at g (insert new (list_at new lists' ++ id ∷ []) lists')
      ≡ ite
          (ℕ_discrete new g)
          (list_at new lists ++ id ∷ [])
          (ite (ℕ_discrete old g) (remove id (list_at old lists)) (list_at g lists))
list_at-move g id old new lists ne =
    let xs = remove id (list_at old lists) in
    let lists' = store_list old xs lists in
    let kept : list_at new lists' ≡ list_at new lists =
      list_at-store new old xs lists ∙ if_neg (ℕ_discrete old new) ne _ _ in
    list_at-insert g new (list_at new lists' ++ id ∷ []) lists'
    ∙ ground (arith, kept, list_at-store g old xs lists)

move_up-IsValid :
    (id old new : ℕ) (p : LfuPolicy)
    → IsValid p
    → find id p.freq_map ≡ some old
    → old ≢ new
    → new < u64
    → IsValid (move_up id old new p)
unfolding move_up
move_up-IsValid id old new p t hit ne in_range =
    Tracks-move t id old new (move_up id old new p).min_freq _ hit ne in_range
      (ground (arith, in_range, t.min_range)) (λ g. list_at-move g id old new p.freq_lists ne)

pub access-IsValid : (id : ℕ) (p : LfuPolicy) → IsValid p → IsValid (on_access id p)
unfolding on_access
access-IsValid id p t = elim (Option-cases (find id p.freq_map)) [
  | inl miss ↦ rw (miss, on_access) t
  | inr (old, hit) ↦
      let (ne, in_range) = next_freq old (t.range id old hit) in
      rw (hit, on_access) (move_up-IsValid id old (old +u64 1) p t hit ne in_range)
]

pub insert-IsValid : (id : ℕ) (p : LfuPolicy) → IsValid p → IsValid (on_insert id p)
unfolding on_insert
insert-IsValid id p t = elim (Option-cases (find id p.freq_map)) [
  | inl miss ↦
      rw (miss, on_insert)
        (Tracks-add t id 1 1 _ miss (omega arith) (omega arith)
          (λ g. list_at-insert g 1 (list_at 1 p.freq_lists ++ id ∷ []) p.freq_lists))
  | inr (old, hit) ↦ rw (hit, on_insert) (access-IsValid id p t)
]

pub remove-IsValid : (id : ℕ) (p : LfuPolicy) → IsValid p → IsValid (on_remove id p)
unfolding on_remove
remove-IsValid id p t = elim (Option-cases (find id p.freq_map)) [
  | inl miss ↦ rw (miss, on_remove) t
  | inr (f, hit) ↦
      rw (hit, on_remove)
        (Tracks-drop t id f p.min_freq _ hit t.min_range
          (λ g. list_at-store g f (remove id (list_at f p.freq_lists)) p.freq_lists))
]

abbrev pub tracks : ℕ → LfuPolicy → Bool
tracks j p = has j p.freq_map

pub tracks-access : (j id : ℕ) (p : LfuPolicy) → tracks j (on_access id p) ≡ tracks j p
unfolding on_access
tracks-access j id p = elim (Option-cases (find id p.freq_map)) [
  | inl miss ↦ rw (miss, on_access)
  | inr (old, hit) ↦
      rw (hit, on_access)
        (ground (arith, has-insert id j (old +u64 1) p.freq_map, has-find id old p.freq_map hit))
]

pub tracks-insert :
    (j id : ℕ) (p : LfuPolicy) → tracks j (on_insert id p) ≡ ite (ℕ_discrete id j) true (tracks j p)
unfolding on_insert
tracks-insert j id p = elim (Option-cases (find id p.freq_map)) [
  | inl miss ↦ rw (miss, on_insert) (has-insert id j 1 p.freq_map)
  | inr (old, hit) ↦
      rw (hit, on_insert) (ground (arith, tracks-access j id p, has-find id old p.freq_map hit))
]

pub tracks-remove :
    (j id : ℕ) (p : LfuPolicy)
    → tracks j (on_remove id p) ≡ ite (ℕ_discrete id j) false (tracks j p)
unfolding on_remove
tracks-remove j id p = elim (Option-cases (find id p.freq_map)) [
  | inl miss ↦ rw (miss, on_remove) (ground (arith, miss))
  | inr (f, hit) ↦ rw (hit, on_remove) (has-erase id j p.freq_map)
]

pub empty-IsValid : IsValid empty
unfolding find
empty-IsValid = record {
  freq_keys = tt;
  listed = λ id f h. cc;
  indexed = λ f id h. ground (arith, mem-nil id, h);
  once = λ f. tt;
  range = λ id f h. cc;
  min_range = omega arith;
}
