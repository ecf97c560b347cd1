-- ===== src/Master/WorkerManager/Liveness.antt =====
-- `WorkerManager::CheckHeartbeats` and the reports that keep a worker alive.
use any_cache.Base.{
  ℕ, ◌+◌, ◌-◌, ◌≤◌, ◌≡◌, refl, ap, sym, subst, inl, inr, true, false, List, [], ◌∷◌, ◌<◌, ◌⊎◌, Map,
  All, nat_key, length, arith, Bool-cases,
}
use any_cache.Master.WorkerManager.{
  WorkerState, WorkerManager, check, expired, check_heartbeats, count_live, get_worker_count,
}

-- A live worker of the entry has reported within the timeout.
abbrev pub IsRecent : ℕ → ℕ → ℕ × WorkerState → Type 0
IsRecent now timeout (id, w) = w.alive ≡ true → now - w.last_heartbeat_ms ≤ timeout

check_lem :
    (now timeout : ℕ) (workers : Map ℕ WorkerState)
    → (count_live workers
        ≡ count_live (check now timeout workers).0 + length (check now timeout workers).1)
      × All (IsRecent now timeout) (check now timeout workers).0
      × (check now timeout (check now timeout workers).0 ≡ ((check now timeout workers).0, []))
unfolding check expired count_live
check_lem now timeout [] = (refl, tt, refl)
check_lem now timeout ((id, w) ∷ workers) =
    let (counts, recent, again) = check_lem now timeout workers in
    let rest = check now timeout workers in
    elim (Bool-cases (expired now timeout w)) [
      | inl late ↦
          let marked : check now timeout ((id, w) ∷ workers)
              ≡ ((id, record w { alive = false }) ∷ rest.0, id ∷ rest.1) =
            ground (arith, late) in
          (
            ground (arith, late, counts),
            subst (λ r. All (IsRecent now timeout) r.0) (sym marked)
                ((λ alive. absurd (ground (arith, alive))), recent),
            ground (arith, late, again),
          )
      | inr fine ↦
          let kept : check now timeout ((id, w) ∷ workers) ≡ ((id, w) ∷ rest.0, rest.1) =
            ground (arith, fine) in
          (
            ground (arith, fine, counts),
            subst (λ r. All (IsRecent now timeout) r.0) (sym kept)
                ((λ alive. ground (arith, alive, fine)), recent),
            ground (arith, fine, again),
          )
    ]

-- A live worker whose last report is older than the timeout.
abbrev pub IsLate : ℕ → ℕ → WorkerState → Type 0
IsLate now timeout w = (w.alive ≡ true) × (timeout < now - w.last_heartbeat_ms)

-- What a check does to each worker: the late ones are marked dead, and the others stay as they are.
abbrev pub Marked : ℕ → ℕ → Map ℕ WorkerState → Map ℕ WorkerState → Type 0
Marked now timeout [] [] = Unit
Marked now timeout [] (v ∷ vs) = ⊥
Marked now timeout (w ∷ ws) [] = ⊥
Marked now timeout (w ∷ ws) (v ∷ vs) =
    ((w.0 ≡ v.0)
      × ((IsLate now timeout w.1 × (v.1 ≡ record w.1 { alive = false }))
          ⊎ ((¬ IsLate now timeout w.1) × (v.1 ≡ w.1))))
    × Marked now timeout ws vs

-- The ids are those of the late workers, in their order.
abbrev pub Reported : ℕ → ℕ → Map ℕ WorkerState → List ℕ → Type 0
Reported now timeout [] ids = ids ≡ []
Reported now timeout (w ∷ ws) ids =
    (IsLate now timeout w.1 × ((rest : List ℕ) × (ids ≡ w.0 ∷ rest) × Reported now timeout ws rest))
    ⊎ ((¬ IsLate now timeout w.1) × Reported now timeout ws ids)

check-Marked :
    (now timeout : ℕ) (workers : Map ℕ WorkerState)
    → Marked now timeout workers (check now timeout workers).0
      × Reported now timeout workers (check now timeout workers).1
unfolding check expired
check-Marked now timeout [] = (tt, refl)
check-Marked now timeout ((id, w) ∷ workers) =
    let (marked, reported) = check-Marked now timeout workers in
    let rest = check now timeout workers in
    elim (Bool-cases (expired now timeout w)) [
      | inl late ↦
          let step : check now timeout ((id, w) ∷ workers)
              ≡ ((id, record w { alive = false }) ∷ rest.0, id ∷ rest.1) =
            ground (arith, late) in
          let is_late : IsLate now timeout w = (ground (arith, late), ground (arith, late)) in
          subst
            (λ r.
              Marked now timeout ((id, w) ∷ workers) r.0
              × Reported now timeout ((id, w) ∷ workers) r.1)
            (sym step)
            (((refl, inl (is_late, refl)), marked), inl (is_late, (rest.1, refl, reported)))
      | inr fine ↦
          let step : check now timeout ((id, w) ∷ workers) ≡ ((id, w) ∷ rest.0, rest.1) =
            ground (arith, fine) in
          let not_late : ¬ IsLate now timeout w = λ l. absurd (ground (arith, l.0, l.1, fine)) in
          subst
            (λ r.
              Marked now timeout ((id, w) ∷ workers) r.0
              × Reported now timeout ((id, w) ∷ workers) r.1)
            (sym step) (((refl, inr (not_late, refl)), marked), inr (not_late, reported))
    ]

-- A check marks dead exactly the live workers whose last report is older than the timeout and leaves
-- the others as they are, and returns the ids of exactly these workers, in their order; it takes as
-- many workers off the live count; afterwards every live worker has reported within the timeout, and
-- a second check at the same time returns nothing and changes nothing.
pub check_heartbeats_lem :
    (now : ℕ) (s : WorkerManager)
    → Marked now s.heartbeat_timeout_ms s.workers (check_heartbeats now s).0.workers
      × Reported now s.heartbeat_timeout_ms s.workers (check_heartbeats now s).1
      × (get_worker_count s
          ≡ get_worker_count (check_heartbeats now s).0 + length (check_heartbeats now s).1)
      × All (IsRecent now s.heartbeat_timeout_ms) (check_heartbeats now s).0.workers
      × (check_heartbeats now (check_heartbeats now s).0 ≡ ((check_heartbeats now s).0, []))
unfolding check_heartbeats get_worker_count
check_heartbeats_lem now s =
    let (counts, recent, again) = check_lem now s.heartbeat_timeout_ms s.workers in
    let (marked, reported) = check-Marked now s.heartbeat_timeout_ms s.workers in
    (marked, reported, counts, recent, ap (λ r. (record s { workers = r.0 }, r.1)) again)
