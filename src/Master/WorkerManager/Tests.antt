-- ===== src/Master/WorkerManager/Tests.antt =====
-- The theorems on `WorkerManager` at three workers, one of them silent.
use any_cache.Base.{ℕ, ◌+◌, ◌≡◌, ◌⊎◌, true, false, none, some, [], ◌∷◌, All, length, arith}
use any_cache.Master.WorkerManager.{
  WorkerState, WorkerManager, select_worker_for_write, check_heartbeats, get_worker_count,
}
use any_cache.Master.WorkerManager.Select.{Below, Best, select-Best}
use any_cache.Master.WorkerManager.Liveness.{IsRecent, Marked, Reported, check_heartbeats_lem}

abbrev worker : ℕ → ℕ → ℕ → WorkerState
worker id used last = record {
  id = id;
  address = id ∷ [];
  capacity_bytes = 100;
  used_bytes = used;
  last_heartbeat_ms = last;
  alive = true;
}

abbrev three : WorkerManager
three = record {
  workers =
      (1, worker 1 50 9000)
      ∷ (2, worker 2 20 1000)
      ∷ (3, record (worker 3 0 0) { alive = false })
      ∷ [];
  next_id = 4;
  heartbeat_timeout_ms = 5000;
}

select-Best_example :
    ((select_worker_for_write three ≡ none) × Below 0 three.workers)
    ⊎ ((id : ℕ) × (select_worker_for_write three ≡ some id) × Best id three.workers)
select-Best_example = select-Best three (
  (omega arith, omega arith, omega arith),
  ((omega arith, omega arith, omega arith), ((omega arith, omega arith, omega arith), tt)),
)

check_heartbeats_lem_example :
    Marked 10000 5000 three.workers (check_heartbeats 10000 three).0.workers
    × Reported 10000 5000 three.workers (check_heartbeats 10000 three).1
    × (get_worker_count three
        ≡ get_worker_count (check_heartbeats 10000 three).0
          + length (check_heartbeats 10000 three).1)
    × All (IsRecent 10000 5000) (check_heartbeats 10000 three).0.workers
    × (check_heartbeats 10000 (check_heartbeats 10000 three).0
        ≡ ((check_heartbeats 10000 three).0, []))
check_heartbeats_lem_example = check_heartbeats_lem 10000 three
