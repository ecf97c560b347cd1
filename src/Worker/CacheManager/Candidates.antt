-- ===== src/Worker/CacheManager/Candidates.antt =====
-- `GetEvictionCandidates` returns, and frees what it was asked for or everything.
use any_cache.Base.{
  ℕ, zero, suc, ◌+◌, ◌-◌, ◌≤◌, ◌<◌, ◌≡◌, ◌⊎◌, refl, sym, ap, ◌∙◌, inl, inr, ite, true, false, ◌&&◌,
  Option, none, some, List, [], ◌∷◌, ◌++◌, Map, find, has, erase, nat_key, ℕ_discrete, arith, mem,
  mem-nil, mem-cons, Once, sizes-erase, size_at-le, find-erase, u64, ◌+u64◌, Option-cases,
  Bool-cases, ltb, ◌==◌, if◌then◌else◌,
}
use any_cache.Worker.Policy.{CachePolicy, IsPolicy, invalid_block_id}
use any_cache.Worker.CacheManager.{
  CacheManager, forget, evict_loop, prepend, freed_with, get_eviction_candidates,
}
use any_cache.Worker.CacheManager.Accounts.{IsAccounted, IsValid, bytes, itself, forget-IsValid}

module _ (p : CachePolicy) (c : IsPolicy p) where
  -- What a run of the loop with `freed` bytes so far comes to: no victim twice, every victim was
  -- there and is gone, nothing else changed, enough is freed or nothing is left, and without the
  -- last victim it would not have been enough.
  pub record Outcome (needed freed : ℕ) (m : CacheManager p.State)
      (r : Option (CacheManager p.State × List ℕ)) : Type 0 where
    pub after : CacheManager p.State
    pub victims : List ℕ
    pub result : r ≡ some (after, victims)
    pub valid : IsValid p c after
    pub once : Once victims
    pub were : (id : ℕ) → mem id victims ≡ true → has id m.block_sizes ≡ true
    pub kept :
        (id : ℕ)
        → find id after.block_sizes ≡ (if mem id victims then none else find id m.block_sizes)
    pub shrinks : bytes after.block_sizes ≤ bytes m.block_sizes
    pub enough :
        (needed ≤ freed + (bytes m.block_sizes - bytes after.block_sizes))
        ⊎ ((id : ℕ) → has id after.block_sizes ≡ false)
    pub tight :
        ((victims ≡ []) × (bytes after.block_sizes ≡ bytes m.block_sizes))
        ⊎ ((front : List ℕ) × (last size : ℕ) × (victims ≡ front ++ last ∷ [])
            × (find last m.block_sizes ≡ some size)
            × (freed + (bytes m.block_sizes - bytes after.block_sizes) < needed + size))

  module _ (needed : ℕ) where
    stop :
        (freed : ℕ) (m : CacheManager p.State)
        → IsValid p c m
        → (needed ≤ freed) ⊎ (p.size m.policy ≡ 0)
        → Outcome needed freed m (some (m, []))
    stop freed m v done = record {
      after = m;
      victims = [];
      result = refl;
      valid = v;
      once = tt;
      were = λ id h. ground (arith, mem-nil id, h);
      kept = λ id. rw (mem-nil id);
      shrinks = omega arith;
      enough = elim done [
        | inl h ↦ inl (omega arith)
        | inr h ↦ inr (λ id. elim (Bool-cases (has id m.block_sizes)) [
          | inl there ↦
              absurd
                (omega (arith, c.tracked_size id m.policy v.policy_valid (v.tracked id ∙ there)))
          | inr gone ↦ gone
        ])
      ];
      tight = inl (refl, refl);
    }

    -- One victim more, before a run from the state without it.
    more :
        (freed victim size : ℕ) (m m' : CacheManager p.State)
        (r : Option (CacheManager p.State × List ℕ))
        → IsValid p c m
        → freed < needed
        → freed + size < u64
        → find victim m.block_sizes ≡ some size
        → m'.block_sizes ≡ erase victim m.block_sizes
        → Outcome needed (freed + size) m' r
        → Outcome needed freed m (prepend p victim r)
    more freed victim size m m' r v less room hit gone o = record {
      after = o.after;
      victims = victim ∷ o.victims;
      result = ap (prepend p victim) o.result;
      valid = o.valid;
      once = (
        elim (Bool-cases (mem victim o.victims)) [
          | inl again ↦
              ground (arith, o.were victim again, gone, find-erase victim victim m.block_sizes)
          | inr no_more ↦ no_more
        ],
        o.once,
      );
      were = λ id h. ground (
        arith,
        mem-cons id victim o.victims,
        o.were id,
        gone,
        hit,
        find-erase victim id m.block_sizes,
      );
      kept = λ id. ground (
        arith,
        mem-cons id victim o.victims,
        o.kept id,
        gone,
        hit,
        find-erase victim id m.block_sizes,
      );
      shrinks = omega (arith, o.shrinks, spent);
      enough = elim o.enough [ inl h ↦ inl (omega (arith, h, spent, o.shrinks)) | inr h ↦ inr h ];
      tight = inr (elim o.tight [
        | inl (no_more, same) ↦
            ([], victim, size, ap (λ vs. victim ∷ vs) no_more, hit, omega (arith, same, spent))
        | inr (front, last, s, ends, at, h) ↦ (
          victim ∷ front,
          last,
          s,
          ap (λ vs. victim ∷ vs) ends,
          ground (arith, gone, at, find-erase victim last m.block_sizes),
          omega (arith, h, spent, o.shrinks),
        )
      ]);
    }
      where
        spent : bytes m'.block_sizes + size ≡ bytes m.block_sizes
        spent =
            ground (arith, gone, hit, sizes-erase itself victim m.block_sizes v.accounted.distinct)

    forget-sizes :
        (victim size : ℕ) (m : CacheManager p.State)
        → find victim m.block_sizes ≡ some size
        → (forget p victim m).block_sizes ≡ erase victim m.block_sizes
    unfolding forget
    forget-sizes victim size m hit = rw (hit, forget)

    forget-policy : (victim : ℕ) (m : CacheManager p.State) → (forget p victim m).policy ≡ m.policy
    unfolding forget
    forget-policy victim m = ground arith

    freed_exact :
        (freed victim size : ℕ) (m : Map ℕ ℕ)
        → find victim m ≡ some size
        → freed + bytes m < u64
        → (freed_with p (find victim m) freed ≡ freed + size) × (freed + size < u64)
    unfolding ◌+u64◌
    freed_exact freed victim size m hit room = ground (arith, hit, size_at-le itself victim m)

    victim_proper :
        (victim size total : ℕ) (m : Map ℕ ℕ)
        → IsAccounted m total
        → find victim m ≡ some size
        → (victim == invalid_block_id) ≡ false
    victim_proper victim size total m a hit = elim (Bool-cases (victim == invalid_block_id)) [
      | inl same ↦ ground (arith, a.proper, hit, same)
      | inr other ↦ other
    ]

    has-some : (id : ℕ) (m : Map ℕ ℕ) → has id m ≡ true → (size : ℕ) × (find id m ≡ some size)
    has-some id m h = elim (Option-cases (find id m)) [
      | inl miss ↦ absurd (ground (arith, h, miss))
      | inr hit ↦ hit
    ]

    -- Enough fuel for every block that the policy tracks, and no sum beyond 2 ^ 64.
    loop-Outcome :
        (fuel freed : ℕ) (m : CacheManager p.State)
        → IsValid p c m
        → p.size m.policy < fuel
        → freed + bytes m.block_sizes < u64
        → Outcome needed freed m (evict_loop p fuel needed freed m)
    unfolding evict_loop
    loop-Outcome zero freed m v enough room = absurd (omega arith)
    loop-Outcome (suc fuel) freed m v enough room =
        elim (Bool-cases (ltb freed needed && ltb 0 (p.size m.policy))) [
          | inr over ↦ rw (over, evict_loop) (stop freed m v (ground (arith, over)))
          | inl busy ↦
              let (s, victim, evicts, valid, tracked, gone, size_less) =
                c.evicts m.policy v.policy_valid (ground (arith, busy)) in
              let (size, hit) = has-some victim m.block_sizes (sym (v.tracked victim) ∙ tracked) in
              let (exact, in_range) = freed_exact freed victim size m.block_sizes hit room in
              let m' = forget p victim (record m { policy = s }) in
              let erased = forget-sizes victim size (record m { policy = s }) hit in
              rw
                (
                  busy,
                  evict_loop,
                  evicts,
                  victim_proper victim size m.total_cached_bytes m.block_sizes v.accounted hit,
                  exact,
                )
                (more freed victim size m m' _ v (ground (arith, busy)) in_range hit erased (
                  loop-Outcome fuel (freed + size) m'
                    (forget-IsValid p c m victim s valid
                      (λ j. gone j ∙ ap (ite (ℕ_discrete victim j) false) (v.tracked j))
                      v.accounted)
                    (rw (forget-policy victim (record m { policy = s })) (omega (arith, size_less)))
                    (ground (
                      arith,
                      erased,
                      hit,
                      room,
                      sizes-erase itself victim m.block_sizes v.accounted.distinct,
                    ))))
        ]

    -- For any policy with the contract, on a valid manager whose blocks come to less than 2 ^ 64
    -- bytes the call returns: its victims are distinct cached blocks and exactly what leaves the
    -- sizes, the manager is valid after it, the bytes freed reach what was needed or no block is
    -- left, and without the last of the victims they would have been fewer than needed.
    pub candidates-Outcome :
        (m : CacheManager p.State)
        → IsValid p c m
        → bytes m.block_sizes < u64
        → Outcome needed 0 m (get_eviction_candidates p needed m)
    unfolding get_eviction_candidates
    candidates-Outcome m v room =
        loop-Outcome (suc (p.size m.policy)) 0 m v (omega arith) (omega arith)
