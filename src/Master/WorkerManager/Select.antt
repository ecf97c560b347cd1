-- ===== src/Master/WorkerManager/Select.antt =====
-- `WorkerManager::SelectWorkerForWrite` picks a live worker with the most space.
use any_cache.Base.{
  ℕ, ◌-◌, ◌≤◌, ◌<◌, ◌≡◌, refl, sym, subst, inl, inr, ◌⊎◌, true, none, some, [], ◌∷◌, Map, All,
  nat_key, arith, ltb, ◌&&◌, Bool-cases, u64, ◌-u64◌,
}
use any_cache.Master.WorkerManager.{
  WorkerState, WorkerManager, available, select, select_worker_for_write,
}

-- The worker stands in the map under the id.
abbrev pub Stands : ℕ → WorkerState → Map ℕ WorkerState → Type 0
Stands id w [] = ⊥
Stands id w ((i, v) ∷ workers) = ((i ≡ id) × (v ≡ w)) ⊎ Stands id w workers

abbrev pub IsHonest : ℕ × WorkerState → Type 0
IsHonest (id, w) = (0 < id) × (w.used_bytes ≤ w.capacity_bytes) × (w.capacity_bytes < u64)

-- The space a worker has left, and the claim that no live worker of the list has more than `n`.
abbrev pub free : WorkerState → ℕ
free w = w.capacity_bytes - w.used_bytes

abbrev pub Below : ℕ → Map ℕ WorkerState → Type 0
Below n workers = All (λ (e : ℕ × WorkerState). e.1.alive ≡ true → free e.1 ≤ n) workers

abbrev pub Best : ℕ → Map ℕ WorkerState → Type 0
Best id workers =
    (w : WorkerState) × Stands id w workers
    × (w.alive ≡ true)
    × (0 < free w)
    × Below (free w) workers

available-free :
    (w : WorkerState)
    → w.used_bytes ≤ w.capacity_bytes
    → w.capacity_bytes < u64
    → available w ≡ free w
unfolding available ◌-u64◌
available-free w h b = omega arith

-- What the loop may return: its start, with no more space anywhere, or a worker with more.
abbrev Chosen : ℕ → ℕ → ℕ → Map ℕ WorkerState → Type 0
Chosen r b a workers =
    ((r ≡ b) × Below a workers)
    ⊎ ((w : WorkerState) × Stands r w workers
        × (w.alive ≡ true)
        × (a < free w)
        × Below (free w) workers)

Chosen-better :
    (r b a id : ℕ) (w : WorkerState) (workers : Map ℕ WorkerState)
    → w.alive ≡ true
    → a < free w
    → Chosen r id (free w) workers
    → Chosen r b a ((id, w) ∷ workers)
Chosen-better r b a id w workers alive more (inl (e, below)) =
    inr (w, inl (sym e, refl), alive, more, ((λ _. omega arith), below))
Chosen-better r b a id w workers alive more (inr (v, there, lives, less, below)) =
    inr (v, inr there, lives, omega arith, ((λ _. omega arith), below))

Chosen-worse :
    (r b a id : ℕ) (w : WorkerState) (workers : Map ℕ WorkerState)
    → (w.alive ≡ true → free w ≤ a)
    → Chosen r b a workers
    → Chosen r b a ((id, w) ∷ workers)
Chosen-worse r b a id w workers worse (inl (e, below)) = inl (e, (worse, below))
Chosen-worse r b a id w workers worse (inr (v, there, lives, less, below)) =
    inr (v, inr there, lives, less, ((λ alive. ground (arith, worse alive)), below))

select-Chosen :
    (b a : ℕ) (workers : Map ℕ WorkerState)
    → All IsHonest workers
    → Chosen (select b a workers) b a workers
unfolding select
select-Chosen b a [] h = inl (refl, tt)
select-Chosen b a ((id, w) ∷ workers) h =
    let exact = available-free w h.0.1 h.0.2 in
    elim (Bool-cases (w.alive && ltb a (available w))) [
      | inl better ↦
          let step : select id (free w) workers ≡ select b a ((id, w) ∷ workers) =
            ground (arith, better, exact) in
          Chosen-better (select b a ((id, w) ∷ workers)) b a id w workers (ground arith)
            (ground arith)
            (subst (λ r. Chosen r id (free w) workers) step (select-Chosen id (free w) workers h.1))
      | inr worse ↦
          let step : select b a workers ≡ select b a ((id, w) ∷ workers) = ground (arith, worse) in
          Chosen-worse (select b a ((id, w) ∷ workers)) b a id w workers (λ alive. ground arith)
            (subst (λ r. Chosen r b a workers) step (select-Chosen b a workers h.1))
    ]

Stands-nonzero :
    (id : ℕ) (w : WorkerState) (workers : Map ℕ WorkerState)
    → All IsHonest workers
    → Stands id w workers
    → 0 < id
Stands-nonzero id w [] h there = elim there [ ]
Stands-nonzero id w ((i, v) ∷ workers) h (inl (e, _)) = ground (arith, e, h.0.0)
Stands-nonzero id w ((i, v) ∷ workers) h (inr there) = Stands-nonzero id w workers h.1 there

-- When every worker has an id other than 0 and reports no more than its capacity, a worker is
-- selected exactly when a live one has space left, and the one selected is alive and has at least
-- as much space left as every live worker.
pub select-Best :
    (s : WorkerManager)
    → All IsHonest s.workers
    → ((select_worker_for_write s ≡ none) × Below 0 s.workers)
      ⊎ ((id : ℕ) × (select_worker_for_write s ≡ some id) × Best id s.workers)
unfolding select_worker_for_write
select-Best s h = go (select-Chosen 0 0 s.workers h)
  where
    go :
        Chosen (select 0 0 s.workers) 0 0 s.workers
        → ((select_worker_for_write s ≡ none) × Below 0 s.workers)
          ⊎ ((id : ℕ) × (select_worker_for_write s ≡ some id) × Best id s.workers)
    go (inl (e, below)) = inl (ground (arith, e), below)
    go (inr (w, there, alive, more, below)) = inr (
      select 0 0 s.workers,
      ground (arith, Stands-nonzero (select 0 0 s.workers) w s.workers h there),
      (w, there, alive, more, below),
    )
