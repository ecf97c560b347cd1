-- ===== src/Master/WorkerManager.antt =====
-- `WorkerManager` of src/master/worker_manager.{h,cpp}: the registered workers, their space and
-- whether they are alive. The clock `NowMs` is an argument; times are counted from its epoch.
pub mod Select
pub mod Liveness
mod Tests
use any_cache.Base.{
  ℕ, ◌+◌, ◌-◌, ◌≡◌, Bool, true, false, ◌&&◌, Option, none, some, List, [], ◌∷◌, Map, find, insert,
  nat_key, ltb, ◌==◌, if◌then◌else◌, ◌+u64◌, ◌-u64◌, ite, ℕ_discrete,
}
use any_cache.Common.Status.{StatusCode, k_ok, k_not_found, k_unavailable}

-- An address is the list of its bytes.
pub Address-discrete : Discrete (List ℕ)
Address-discrete = hlevel ℕ_discrete

pub record WorkerState : Type 0 where
  pub id : ℕ
  pub address : List ℕ
  pub capacity_bytes : ℕ
  pub used_bytes : ℕ
  pub last_heartbeat_ms : ℕ
  pub alive : Bool

-- `w.address == address`
abbrev pub is_address : List ℕ → WorkerState → Bool
is_address address w = ite (Address-discrete w.address address) true false

pub record WorkerManager : Type 0 where
  pub workers : Map ℕ WorkerState
  pub next_id : ℕ
  pub heartbeat_timeout_ms : ℕ

unfoldable pub no_workers : ℕ → WorkerManager
no_workers heartbeat_timeout_ms = record {
  workers = [];
  next_id = 1;
  heartbeat_timeout_ms = heartbeat_timeout_ms;
}

-- A report of a live worker: its space, at the time of the report.
unfoldable pub report : ℕ → ℕ → ℕ → WorkerState → WorkerState
report now capacity used w = record w {
  capacity_bytes = capacity;
  used_bytes = used;
  last_heartbeat_ms = now;
  alive = true;
}

-- The loop over the workers for the address: the first worker that has it is updated where it
-- stands and its id is returned.
unfoldable pub reregister :
    List ℕ → (WorkerState → WorkerState) → Map ℕ WorkerState → Option (Map ℕ WorkerState × ℕ)
reregister address f [] = none
reregister address f ((id, w) ∷ workers) =
    let rest = reregister address f workers in
    if is_address address w
    then some ((id, f w) ∷ workers, id)
    else elim rest [ none ↦ none | some (workers', found) ↦ some ((id, w) ∷ workers', found) ]

unfoldable pub register_worker : ℕ → List ℕ → ℕ → ℕ → WorkerManager → WorkerManager × ℕ
unfolding report reregister
register_worker now address capacity used s =
    elim (reregister address (report now capacity used) s.workers) [
      | some (workers, id) ↦ (record s { workers = workers }, id)
      | none ↦ (
        record s {
          next_id = s.next_id +u64 1;
          workers =
              insert s.next_id
                (record {
                  id = s.next_id;
                  address = address;
                  capacity_bytes = capacity;
                  used_bytes = used;
                  last_heartbeat_ms = now;
                  alive = true;
                })
                s.workers;
        },
        s.next_id,
      )
    ]

unfoldable pub heartbeat : ℕ → ℕ → ℕ → ℕ → WorkerManager → WorkerManager × StatusCode
unfolding report
heartbeat now id capacity used s = elim (find id s.workers) [
  | none ↦ (s, k_not_found)
  | some w ↦ (record s { workers = insert id (report now capacity used w) s.workers }, k_ok)
]

unfoldable pub get_worker : ℕ → WorkerManager → Option WorkerState
get_worker id s = find id s.workers

unfoldable pub live : Map ℕ WorkerState → List WorkerState
live [] = []
live ((_, w) ∷ workers) = if w.alive then w ∷ live workers else live workers

unfoldable pub get_live_workers : WorkerManager → List WorkerState
unfolding live
get_live_workers s = live s.workers

-- `w.capacity_bytes - w.used_bytes`, which wraps when a worker reports more than its capacity.
unfoldable pub available : WorkerState → ℕ
available w = w.capacity_bytes -u64 w.used_bytes

-- The loop of the selection: the best id so far and what it has available.
unfoldable pub select : ℕ → ℕ → Map ℕ WorkerState → ℕ
unfolding available
select best_id best_avail [] = best_id
select best_id best_avail ((id, w) ∷ workers) =
    if w.alive && ltb best_avail (available w)
    then select id (available w) workers
    else select best_id best_avail workers

-- `none` is the status `Unavailable`.
unfoldable pub select_worker_for_write : WorkerManager → Option ℕ
unfolding select
select_worker_for_write s = let best = select 0 0 s.workers in if best == 0 then none else some best

unfoldable pub expired : ℕ → ℕ → WorkerState → Bool
expired now timeout w = w.alive && ltb timeout (now - w.last_heartbeat_ms)

-- The loop that marks the workers that timed out and gathers their ids.
unfoldable pub check : ℕ → ℕ → Map ℕ WorkerState → Map ℕ WorkerState × List ℕ
unfolding expired
check now timeout [] = ([], [])
check now timeout ((id, w) ∷ workers) =
    let (rest, dead) = check now timeout workers in
    if expired now timeout w
    then ((id, record w { alive = false }) ∷ rest, id ∷ dead)
    else ((id, w) ∷ rest, dead)

unfoldable pub check_heartbeats : ℕ → WorkerManager → WorkerManager × List ℕ
unfolding check
check_heartbeats now s =
    let (workers, dead) = check now s.heartbeat_timeout_ms s.workers in
    (record s { workers = workers }, dead)

unfoldable pub count_live : Map ℕ WorkerState → ℕ
count_live [] = 0
count_live ((_, w) ∷ workers) = if w.alive then 1 + count_live workers else count_live workers

unfoldable pub get_worker_count : WorkerManager → ℕ
unfolding count_live
get_worker_count s = count_live s.workers
