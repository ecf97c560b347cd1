-- ===== src/Worker/Policy/Lfu/Evict.antt =====
-- `LFUPolicy::Evict` returns, and meets the contract of `CachePolicy`.
use any_cache.Base.{
  mem, Once, mem-nil, mem-first, ℕ, ◌<◌, ◌≡◌, refl, ite, true, false, some, List, [], ◌∷◌, Map,
  find, has, erase, nat_key, arith, ℕ_discrete, u64, length, has-find, has-erase, find-first,
  length-erase_present, ◌-u64◌, sym, ap, subst, ◌∙◌, lt→ltb,
}
use any_cache.Worker.Policy.{IsPolicy, Evicts}
use any_cache.Worker.Policy.Lfu.{
  LfuPolicy, remove, list_at, is_empty, store_list, seek, take_first, evict_at, evict, size, lfu,
}
use any_cache.Worker.Policy.Lfu.Lists.{list_at-store, remove-first}
use any_cache.Worker.Policy.Lfu.Tracking.{IsValid, Tracks-drop}
use any_cache.Worker.Policy.Lfu.Steps.{
  tracks, access-IsValid, insert-IsValid, remove-IsValid, tracks-access, tracks-insert,
  tracks-remove, empty-IsValid,
}
use any_cache.Worker.Policy.Lfu.Seek.{Found, InUse, seek-Found, dist}

pub used-InUse :
    (p : LfuPolicy) → IsValid p → (id f : ℕ) → find id p.freq_map ≡ some f → InUse p.freq_lists f
used-InUse p t id f h = go (list_at f p.freq_lists) (t.listed id f h)
  where
    go : (xs : List ℕ) → mem id xs ≡ true → is_empty xs ≡ false
    go [] m = ground (arith, mem-nil id, m)
    go (x ∷ xs) m = refl

dist-lt : (min f : ℕ) → dist min f < u64
unfolding ◌-u64◌
dist-lt min f = omega arith

-- The loop ends at a frequency in use, whatever the block that shows that there is one.
pub seek_used :
    (p : LfuPolicy)
    → IsValid p
    → (id f : ℕ) → find id p.freq_map ≡ some f
    → Found p.freq_lists p.min_freq (seek u64 p.min_freq p.freq_lists)
seek_used p t id f h =
    seek-Found p.freq_lists u64 p.min_freq f t.min_range (t.range id f h) (used-InUse p t id f h)
      (dist-lt p.min_freq f)

-- The outcome: the oldest block of the frequency found, which leaves both maps.
pub record Evicted (p : LfuPolicy) : Type 0 where
  pub after : LfuPolicy
  pub victim : ℕ
  pub rest : List ℕ
  pub found : Found p.freq_lists p.min_freq (seek u64 p.min_freq p.freq_lists)
  pub result : evict p ≡ some (after, victim)
  pub oldest : list_at found.freq p.freq_lists ≡ victim ∷ rest
  pub freqs : after.freq_map ≡ erase victim p.freq_map
  pub lists :
      (g : ℕ)
      → list_at g after.freq_lists ≡ ite (ℕ_discrete found.freq g) rest (list_at g p.freq_lists)
  pub min : after.min_freq ≡ found.freq
  pub valid : IsValid after

take_first-Evicted :
    (p : LfuPolicy) (xs : List ℕ)
    → IsValid p
    → (found : Found p.freq_lists p.min_freq (seek u64 p.min_freq p.freq_lists))
    → list_at found.freq p.freq_lists ≡ xs
    → 0 < size p
    → Evicted p
unfolding evict evict_at take_first size
take_first-Evicted p [] t found e h =
    let none_left : is_empty [] ≡ false = subst (λ xs. is_empty xs ≡ false) e found.in_use in cc
take_first-Evicted p (victim ∷ rest) t found e h = record {
  after = after;
  victim = victim;
  rest = rest;
  found = found;
  result = rw (lt→ltb 0 (length p.freq_map) h, found.result, evict_at, e);
  oldest = e;
  freqs = refl;
  lists = λ g. list_at-store g found.freq rest p.freq_lists;
  min = refl;
  valid = Tracks-drop t victim found.freq found.freq _ here found.in_range λ g.
      list_at-store g found.freq rest p.freq_lists
      ∙ ap (λ xs. ite (ℕ_discrete found.freq g) xs (list_at g p.freq_lists)) (sym removed);
}
  where
    after : LfuPolicy
    after = record {
      freq_map = erase victim p.freq_map;
      freq_lists = store_list found.freq rest p.freq_lists;
      min_freq = found.freq;
    }

    here : find victim p.freq_map ≡ some found.freq
    here = t.indexed found.freq victim (rw e (mem-first victim rest))

    removed : remove victim (list_at found.freq p.freq_lists) ≡ rest
    removed = ap (remove victim) e ∙ remove-first victim rest (subst Once e (t.once found.freq))

some_freq : (m : Map ℕ ℕ) → 0 < length m → (id : ℕ) × (f : ℕ) × (find id m ≡ some f)
some_freq [] h = absurd (omega arith)
some_freq ((id, f) ∷ m) h = (id, f, find-first id f m)

pub evict-Evicted : (p : LfuPolicy) → IsValid p → 0 < size p → Evicted p
unfolding size
evict-Evicted p t h =
    let (id, f, at) = some_freq p.freq_map h in
    take_first-Evicted p _ t (seek_used p t id f at) refl h

evicts : (p : LfuPolicy) → IsValid p → 0 < size p → Evicts lfu IsValid tracks p
unfolding size
evicts p t h =
    let e = evict-Evicted p t h in
    let here : find e.victim p.freq_map ≡ some e.found.freq =
      t.indexed e.found.freq e.victim (rw e.oldest (mem-first e.victim e.rest)) in
    (
      e.after,
      e.victim,
      e.result,
      e.valid,
      has-find e.victim e.found.freq p.freq_map here,
      (λ j. ap (has j) e.freqs ∙ has-erase e.victim j p.freq_map),
      omega (
        arith,
        ap length e.freqs,
        length-erase_present e.victim e.found.freq p.freq_map t.freq_keys here,
      ),
    )

tracked_size : (j : ℕ) (p : LfuPolicy) → tracks j p ≡ true → 0 < size p
unfolding size find
tracked_size j p h = go p.freq_map h
  where
    go : (m : Map ℕ ℕ) → has j m ≡ true → 0 < length m
    go [] h = cc
    go (c ∷ m) h = omega arith

-- The LFU policy meets the contract, with the blocks of `freq_map_` as those tracked: each method keeps
-- it valid and tracks what it should, and an eviction from a valid policy that has blocks returns,
-- with a tracked block that alone is tracked no more.
pub lfu-IsPolicy : IsPolicy lfu
unfolding find
lfu-IsPolicy = record {
  IsValid = IsValid;
  tracks = tracks;
  empty-IsValid = empty-IsValid;
  tracks-empty = λ j. refl;
  access-IsValid = access-IsValid;
  insert-IsValid = insert-IsValid;
  remove-IsValid = remove-IsValid;
  tracks-access = λ j id p t. tracks-access j id p;
  tracks-insert = λ j id p t. tracks-insert j id p;
  tracks-remove = λ j id p t. tracks-remove j id p;
  evicts = evicts;
  tracked_size = λ j p t. tracked_size j p;
}
