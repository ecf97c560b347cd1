-- ===== src/Worker/Policy/Lfu/Seek.antt =====
-- The search of `Evict` for the lowest frequency in use.
use any_cache.Base.{
  ℕ, zero, suc, ◌≤◌, ◌<◌, ◌≡◌, ◌≢◌, inl, inr, false, Option, some, List, Map, arith, ◌+u64◌, ◌-u64◌,
  u64, Bool-cases,
}
use any_cache.Worker.Policy.Lfu.{list_at, is_empty, seek}

-- How many steps upwards, wrapping, lead from one frequency to another.
abbrev pub dist : ℕ → ℕ → ℕ
dist min f = f -u64 min

dist-next : (min f : ℕ) → min < u64 → f < u64 → min ≢ f → dist min f ≡ suc (dist (min +u64 1) f)
unfolding ◌+u64◌ ◌-u64◌
dist-next min f hm hf ne = omega arith

next-lt : (min : ℕ) → min +u64 1 < u64
unfolding ◌+u64◌
next-lt min = omega arith

dist_self : (min : ℕ) → dist min min ≡ 0
unfolding ◌-u64◌
dist_self min = omega arith

module _ (lists : Map ℕ (List ℕ)) where
  abbrev pub InUse : ℕ → Type 0
  InUse f = is_empty (list_at f lists) ≡ false

  -- The frequency found is in use, and none in use is nearer.
  pub record Found (min : ℕ) (r : Option ℕ) : Type 0 where
    pub freq : ℕ
    pub result : r ≡ some freq
    pub in_use : InUse freq
    pub in_range : freq < u64
    pub nearest : (h : ℕ) → h < u64 → InUse h → dist min freq ≤ dist min h

  pub seek-Found :
      (fuel min f : ℕ)
      → min < u64
      → f < u64
      → InUse f
      → dist min f < fuel
      → Found min (seek fuel min lists)
  unfolding seek
  seek-Found zero min f hm hf used far = absurd (omega arith)
  seek-Found (suc fuel) min f hm hf used far = elim (Bool-cases (is_empty (list_at min lists))) [
    | inr here ↦ record {
      freq = min;
      result = rw here;
      in_use = here;
      in_range = hm;
      nearest = λ h hh hu. omega (arith, dist_self min);
    }
    | inl skip ↦
        let other : (h : ℕ) → InUse h → min ≢ h = λ h hu e. ground (arith, skip, hu, e) in
        let rest =
          seek-Found fuel (min +u64 1) f (next-lt min) hf used
            (omega (arith, dist-next min f hm hf (other f used))) in
        record {
          freq = rest.freq;
          result = rw skip rest.result;
          in_use = rest.in_use;
          in_range = rest.in_range;
          nearest = λ h hh hu. omega (
            arith,
            dist-next min rest.freq hm rest.in_range (other rest.freq rest.in_use),
            dist-next min h hm hh (other h hu),
            rest.nearest h hh hu,
          );
        }
  ]
