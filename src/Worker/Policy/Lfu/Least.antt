-- ===== src/Worker/Policy/Lfu/Least.antt =====
-- The block that `LFUPolicy::Evict` picks, after any history that is short of 2 ^ 64 calls.
use any_cache.Base.{
  mem, mem-nil, mem-first, ℕ, suc, ◌+◌, ◌%◌, ◌≤◌, ◌<◌, ◌≡◌, ◌≢◌, inl, inr, true, false, some, List,
  [], ◌∷◌, Map, find, erase, nat_key, arith, Option-cases, Bool-cases, u64, find-insert, find-erase,
  ◌+u64◌, ◌-u64◌, subst,
}
use any_cache.Worker.Policy.Lfu.{
  LfuPolicy, empty, remove, list_at, is_empty, move_up, on_access, on_insert, on_remove, evict,
  size,
}
use any_cache.Worker.Policy.Lfu.Lists.{mem-remove}
use any_cache.Worker.Policy.Lfu.Tracking.{IsValid}
use any_cache.Worker.Policy.Lfu.Steps.{
  access-IsValid, insert-IsValid, remove-IsValid, empty-IsValid,
}
use any_cache.Worker.Policy.Lfu.Seek.{dist}
use any_cache.Worker.Policy.Lfu.Evict.{Evicted, evict-Evicted, used-InUse}

-- The states that a number of calls lead to.
pub data Reach : ℕ → LfuPolicy → Type 0 where
  start : Reach 0 empty
  accessed : {n : ℕ} {p : LfuPolicy} (id : ℕ) → Reach n p → Reach (suc n) (on_access id p)
  inserted : {n : ℕ} {p : LfuPolicy} (id : ℕ) → Reach n p → Reach (suc n) (on_insert id p)
  removed : {n : ℕ} {p : LfuPolicy} (id : ℕ) → Reach n p → Reach (suc n) (on_remove id p)
  evicted :
      {n : ℕ} {p : LfuPolicy} (q : LfuPolicy) (v : ℕ)
      → Reach n p
      → 0 < size p
      → evict p ≡ some (q, v)
      → Reach (suc n) q

-- Every frequency lies between `min_freq_` and the number of calls.
abbrev pub Between : ℕ → ℕ → Map ℕ ℕ → Type 0
Between n min freqs = (id f : ℕ) → find id freqs ≡ some f → (min ≤ f) × (1 ≤ f) × (f ≤ n)

abbrev pub IsBounded : ℕ → LfuPolicy → Type 0
IsBounded n p = Between n p.min_freq p.freq_map

-- Where the list of the block's old frequency becomes empty, no other block has that frequency.
alone :
    (id old : ℕ) (p : LfuPolicy)
    → IsValid p
    → is_empty (remove id (list_at old p.freq_lists)) ≡ true
    → (j : ℕ) → id ≢ j
    → find j p.freq_map ≢ some old
alone id old p t e j ne h =
    ground (arith, t.listed j old h, mem-remove j id (list_at old p.freq_lists), nothing)
  where
    nothing : mem j (remove id (list_at old p.freq_lists)) ≡ false
    nothing = go (remove id (list_at old p.freq_lists)) e
      where
        go : (xs : List ℕ) → is_empty xs ≡ true → mem j xs ≡ false
        go [] h = mem-nil j
        go (x ∷ xs) h = cc

move_up-IsBounded :
    (n id old : ℕ) (p : LfuPolicy)
    → IsValid p
    → IsBounded n p
    → suc n < u64
    → find id p.freq_map ≡ some old
    → IsBounded (suc n) (move_up id old (old +u64 1) p)
unfolding move_up ◌+u64◌
move_up-IsBounded n id old p t b room hit j f h =
    elim (Bool-cases (is_empty (remove id (list_at old p.freq_lists)))) [
      | inl e ↦ ground (
        arith,
        b id old hit,
        b j f,
        find-insert id j ((old + 1) % u64) p.freq_map,
        alone id old p t e j,
        e,
      )
      | inr e ↦
          ground (arith, b id old hit, b j f, find-insert id j ((old + 1) % u64) p.freq_map, e)
    ]

widen : (n : ℕ) (p : LfuPolicy) → IsBounded n p → IsBounded (suc n) p
widen n p b id f h = omega (arith, b id f h)

access-IsBounded :
    (n id : ℕ) (p : LfuPolicy)
    → IsValid p
    → IsBounded n p
    → suc n < u64
    → IsBounded (suc n) (on_access id p)
unfolding on_access
access-IsBounded n id p t b room = elim (Option-cases (find id p.freq_map)) [
  | inl miss ↦ rw (miss, on_access) (widen n p b)
  | inr (old, hit) ↦ rw (hit, on_access) (move_up-IsBounded n id old p t b room hit)
]

insert-IsBounded :
    (n id : ℕ) (p : LfuPolicy)
    → IsValid p
    → IsBounded n p
    → suc n < u64
    → IsBounded (suc n) (on_insert id p)
unfolding on_insert
insert-IsBounded n id p t b room = elim (Option-cases (find id p.freq_map)) [
  | inl miss ↦ rw (miss, on_insert) (λ j f h. ground (arith, find-insert id j 1 p.freq_map, b j f))
  | inr (old, hit) ↦ rw (hit, on_insert) (access-IsBounded n id p t b room)
]

remove-IsBounded : (n id : ℕ) (p : LfuPolicy) → IsBounded n p → IsBounded (suc n) (on_remove id p)
unfolding on_remove
remove-IsBounded n id p b = elim (Option-cases (find id p.freq_map)) [
  | inl miss ↦ rw (miss, on_remove) (widen n p b)
  | inr (f, hit) ↦ rw (hit, on_remove) (λ j g h. ground (arith, find-erase id j p.freq_map, b j g))
]

-- With no frequency below `min_freq_`, nearest upwards is least.
dist_mono : (min f g : ℕ) → min ≤ f → min ≤ g → f < u64 → g < u64 → dist min f ≤ dist min g → f ≤ g
unfolding ◌-u64◌
dist_mono min f g hf hg rf rg h = omega arith

victim_freq :
    (p : LfuPolicy) → IsValid p → (e : Evicted p) → find e.victim p.freq_map ≡ some e.found.freq
victim_freq p t e = t.indexed e.found.freq e.victim (rw e.oldest (mem-first e.victim e.rest))

pub least :
    (n : ℕ) (p : LfuPolicy)
    → IsValid p
    → IsBounded n p
    → (e : Evicted p) → (j g : ℕ) → find j p.freq_map ≡ some g
    → e.found.freq ≤ g
least n p t b e j g h =
    dist_mono p.min_freq e.found.freq g (b e.victim e.found.freq (victim_freq p t e)).0 (b j g h).0
      e.found.in_range (t.range j g h) (e.found.nearest g (t.range j g h) (used-InUse p t j g h))

Evicted-IsBounded :
    (n : ℕ) (p : LfuPolicy)
    → IsValid p
    → IsBounded n p
    → (e : Evicted p) → IsBounded (suc n) e.after
Evicted-IsBounded n p t b e j f h =
    ground (arith, e.freqs, e.min, find-erase e.victim j p.freq_map, b j f, least n p t b e j f, h)

pub record Good (n : ℕ) (p : LfuPolicy) : Type 0 where
  pub valid : IsValid p
  pub bounded : IsBounded n p

pub Reach-Good : {n : ℕ} {p : LfuPolicy} → Reach n p → n < u64 → Good n p
unfolding find
Reach-Good start room = record { valid = empty-IsValid; bounded = λ id f h. cc }
Reach-Good (accessed {n} {p} id r) room =
    let g = Reach-Good r (omega arith) in
    record {
      valid = access-IsValid id p g.valid;
      bounded = access-IsBounded n id p g.valid g.bounded room;
    }
Reach-Good (inserted {n} {p} id r) room =
    let g = Reach-Good r (omega arith) in
    record {
      valid = insert-IsValid id p g.valid;
      bounded = insert-IsBounded n id p g.valid g.bounded room;
    }
Reach-Good (removed {n} {p} id r) room =
    let g = Reach-Good r (omega arith) in
    record { valid = remove-IsValid id p g.valid; bounded = remove-IsBounded n id p g.bounded }
Reach-Good (evicted {n} {p} q v r h eq) room =
    let g = Reach-Good r (omega arith) in
    let e = evict-Evicted p g.valid h in
    let same : e.after ≡ q = ground (arith, e.result, eq) in
    subst (Good (suc n)) same
      (record { valid = e.valid; bounded = Evicted-IsBounded n p g.valid g.bounded e })

-- From any state that fewer than 2 ^ 64 calls lead to and that tracks a block, `Evict` returns, and
-- its victim is a tracked block with the least frequency of all, the first in the list of that
-- frequency.
pub evict-least :
    (n : ℕ) (p : LfuPolicy)
    → Reach n p
    → n < u64
    → 0 < size p
    → (q : LfuPolicy) × (v : ℕ) × (f : ℕ) × (rest : List ℕ) × (evict p ≡ some (q, v))
      × (find v p.freq_map ≡ some f)
      × (list_at f p.freq_lists ≡ v ∷ rest)
      × ((j g : ℕ) → find j p.freq_map ≡ some g → f ≤ g)
      × (q.freq_map ≡ erase v p.freq_map)
evict-least n p r room h =
    let g = Reach-Good r room in
    let e = evict-Evicted p g.valid h in
    (
      e.after,
      e.victim,
      e.found.freq,
      e.rest,
      e.result,
      victim_freq p g.valid e,
      e.oldest,
      least n p g.valid g.bounded e,
      e.freqs,
    )
