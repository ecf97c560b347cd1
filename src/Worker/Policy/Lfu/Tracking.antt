-- ===== src/Worker/Policy/Lfu/Tracking.antt =====
-- The frequencies and the lists of `LFUPolicy` name the same blocks.
use any_cache.Base.{
  mem, Once, ℕ, ◌<◌, ◌≡◌, ◌≢◌, ite, true, false, none, some, List, [], ◌∷◌, ◌++◌, Map, find, insert,
  erase, IsMap, insert-IsMap, erase-IsMap, nat_key, arith, ℕ_discrete, find-insert, find-erase, u64,
}
use any_cache.Worker.Policy.Lfu.{LfuPolicy, remove, list_at}
use any_cache.Worker.Policy.Lfu.Lists.{mem-remove, mem-append_one, remove-Once, append_one-Once}

-- The lists of a map, as a function of the frequency.
pub record Tracks (freqs : Map ℕ ℕ) (lists : ℕ → List ℕ) (min : ℕ) : Type 0 where
  pub freq_keys : IsMap freqs
  pub listed : (id f : ℕ) → find id freqs ≡ some f → mem id (lists f) ≡ true
  pub indexed : (f id : ℕ) → mem id (lists f) ≡ true → find id freqs ≡ some f
  pub once : (f : ℕ) → Once (lists f)
  pub range : (id f : ℕ) → find id freqs ≡ some f → f < u64
  pub min_range : min < u64

abbrev pub IsValid : LfuPolicy → Type 0
IsValid p = Tracks p.freq_map (λ f. list_at f p.freq_lists) p.min_freq

module _ {freqs : Map ℕ ℕ} {lists : ℕ → List ℕ} {min : ℕ} (t : Tracks freqs lists min) where
  pub unlisted : (id f g : ℕ) → find id freqs ≡ some f → f ≢ g → mem id (lists g) ≡ false
  unlisted id f g h ne = ground (arith, t.indexed g id, h)

  -- A block moves from one list to the back of another.
  pub Tracks-move :
      (id old new min' : ℕ) (lists' : ℕ → List ℕ)
      → find id freqs ≡ some old
      → old ≢ new
      → new < u64
      → min' < u64
      → ((g : ℕ)
          → lists' g
            ≡ ite
                (ℕ_discrete new g)
                (lists new ++ id ∷ [])
                (ite (ℕ_discrete old g) (remove id (lists old)) (lists g)))
      → Tracks (insert id new freqs) lists' min'
  Tracks-move id old new min' lists' hit ne in_range min_ok at = record {
    freq_keys = insert-IsMap id new freqs t.freq_keys;
    listed = λ j f h. rw (at f) (
        ground (
          arith,
          find-insert id j new freqs,
          t.listed j f,
          mem-append_one j id (lists new),
          mem-remove j id (lists old),
        ));
    indexed = λ f j h. ground (
      arith,
      at f,
      find-insert id j new freqs,
      t.indexed f j,
      t.indexed new j,
      t.indexed old j,
      mem-append_one j id (lists new),
      mem-remove j id (lists old),
    );
    once = λ f. rw (at f) (
        ground (
          arith,
          t.once f,
          append_one-Once id (lists new) (unlisted id old new hit ne) (t.once new),
          remove-Once id (lists old) (t.once old),
        ));
    range = λ j f h. ground (arith, find-insert id j new freqs, t.range j f);
    min_range = min_ok;
  }

  -- A new block goes to the back of a list.
  pub Tracks-add :
      (id new min' : ℕ) (lists' : ℕ → List ℕ)
      → find id freqs ≡ none
      → new < u64
      → min' < u64
      → ((g : ℕ) → lists' g ≡ ite (ℕ_discrete new g) (lists new ++ id ∷ []) (lists g))
      → Tracks (insert id new freqs) lists' min'
  Tracks-add id new min' lists' miss in_range min_ok at = record {
    freq_keys = insert-IsMap id new freqs t.freq_keys;
    listed = λ j f h.
        rw (at f) (
          ground
            (arith, find-insert id j new freqs, t.listed j f, mem-append_one j id (lists new)));
    indexed = λ f j h. ground (
      arith,
      at f,
      find-insert id j new freqs,
      t.indexed f j,
      t.indexed new j,
      mem-append_one j id (lists new),
    );
    once = λ f.
        rw (at f) (ground (arith, t.once f, append_one-Once id (lists new) fresh (t.once new)));
    range = λ j f h. ground (arith, find-insert id j new freqs, t.range j f);
    min_range = min_ok;
  }
    where
      fresh : mem id (lists new) ≡ false
      fresh = ground (arith, t.indexed new id, miss)

  -- A block goes from its list.
  pub Tracks-drop :
      (id f min' : ℕ) (lists' : ℕ → List ℕ)
      → find id freqs ≡ some f
      → min' < u64
      → ((g : ℕ) → lists' g ≡ ite (ℕ_discrete f g) (remove id (lists f)) (lists g))
      → Tracks (erase id freqs) lists' min'
  Tracks-drop id f min' lists' hit min_ok at = record {
    freq_keys = erase-IsMap id freqs t.freq_keys;
    listed = λ j g h.
        rw (at g) (ground (arith, find-erase id j freqs, t.listed j g, mem-remove j id (lists f)));
    indexed = λ g j h. ground (
      arith,
      at g,
      find-erase id j freqs,
      t.indexed g j,
      t.indexed f j,
      mem-remove j id (lists f),
    );
    once = λ g. rw (at g) (ground (arith, t.once g, remove-Once id (lists f) (t.once f)));
    range = λ j g h. ground (arith, find-erase id j freqs, t.range j g);
    min_range = min_ok;
  }
