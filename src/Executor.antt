-- ===== src/Executor.antt =====
-- localpost/threadtools/_executor.py: `_WorkerPoolBase` and `WorkerExecutor`. A step is one critical
-- section under `_cond`, or the run of a task. Which waiting worker `notify` picks is `threading`'s
-- choice: the argument `notify` says how the list of workers changes.
pub mod Invariant
pub mod Shutdown
mod Tests
use localpost_py.Prelude.{
  ℕ, ◌+◌, ◌-◌, ◌≡◌, Bool, true, false, not, ◌||◌, Option, none, some, List, [], ◌∷◌, ◌++◌,
  get_elem?, set, length, ◌==◌, if◌then◌else◌,
}

-- Where a worker thread stands: about to take the lock, in `_cond.wait` with no notification yet,
-- in `_cond.wait` and about to go on, in `task.run()`, or past the end of `_run_worker`.
pub data Worker {ℓ} (T : Type ℓ) : Type ℓ where
  ready waiting notified exited : Worker T
  running : T → Worker T

-- The fields of `_WorkerPoolBase` and the workers that were spawned. `submitted` and `started` are
-- the tasks that went into the queue and came out of it since the start.
pub record Pool {ℓ} (T : Type ℓ) : Type ℓ where
  pub queue : List T
  pub idle : ℕ
  pub worker_count : ℕ
  pub opened : Bool
  pub closed : Bool
  pub workers : List (Worker T)
  pub submitted : List T
  pub started : List T

pub data Event {ℓ} (T : Type ℓ) : Type ℓ where
  enters : Event T
  submits : T → Event T
  stops : Event T
  exits : Event T
  runs : ℕ → Event T
  wakes : ℕ → Event T

module _ {ℓ} {T : Type ℓ} where
  pub new : Pool T
  new = record {
    queue = [];
    idle = 0;
    worker_count = 0;
    opened = false;
    closed = false;
    workers = [];
    submitted = [];
    started = [];
  }

  -- `__enter__`; `none` is the `RuntimeError`
  pub enter : Pool T → Option (Pool T)
  enter p = if p.closed then none else some (record p { opened = true })

  -- `notify_all`
  abbrev pub notify_all : List (Worker T) → List (Worker T)
  notify_all [] = []
  notify_all (waiting ∷ ws) = notified ∷ notify_all ws
  notify_all (w ∷ ws) = w ∷ notify_all ws

  pub mark_closed : Pool T → Pool T × Bool
  mark_closed p =
      if p.closed
      then (p, false)
      else (record p { closed = true; workers = notify_all p.workers }, true)

  pub stop : Pool T → Pool T
  unfolding mark_closed
  stop p = if p.opened then (mark_closed p).0 else p

  -- `_spawn_worker`, and the count that `submit` keeps beside it
  spawn_worker : Pool T → Pool T
  spawn_worker p = record p { workers = p.workers ++ ready ∷ []; worker_count = p.worker_count + 1 }

  to_worker : ℕ → Worker T → Pool T → Pool T
  to_worker i w p = record p { workers = set p.workers i w }

  -- the rest of the critical section once the wait is over: `idle` goes down, and the worker takes
  -- the next task or returns
  take_task : ℕ → List T → Pool T → Pool T
  unfolding to_worker
  take_task i [] p = to_worker i exited (record p { idle = p.idle - 1 })
  take_task i (task ∷ rest) p =
      to_worker i (running task)
        (record p { queue = rest; idle = p.idle - 1; started = p.started ++ task ∷ [] })

  abbrev is_empty : List T → Bool
  is_empty [] = true
  is_empty (t ∷ ts) = false

  -- the test of the inner loop of `_run_worker`
  wait_or_take : ℕ → Pool T → Pool T
  unfolding take_task to_worker
  wait_or_take i p =
      if is_empty p.queue
      then if p.closed then take_task i p.queue p else to_worker i waiting p
      else take_task i p.queue p

  -- the next part of `_run_worker`
  work : ℕ → Worker T → Pool T → Pool T
  unfolding wait_or_take
  work i ready p = wait_or_take i (record p { idle = p.idle + 1 })
  work i waiting p = p
  work i notified p = wait_or_take i p
  work i (running task) p = to_worker i ready p
  work i exited p = p

  -- a wait that ends for no reason
  wake : ℕ → Worker T → Pool T → Pool T
  unfolding to_worker
  wake i waiting p = to_worker i notified p
  wake i w p = p

-- a call that raises leaves the pool as it was
abbrev pub or_same {ℓ} : {T : Type ℓ} → Pool T → Option (Pool T) → Pool T
or_same p none = p
or_same p (some q) = q

module _ {ℓ} {T : Type ℓ} (notify : List (Worker T) → List (Worker T)) where
  -- the queue grows, a worker is spawned if none is idle, and one is notified
  enlist : T → Pool T → Pool T
  unfolding spawn_worker
  enlist task p =
      let q = record p { queue = p.queue ++ task ∷ []; submitted = p.submitted ++ task ∷ [] } in
      let q' = if q.idle == 0 then spawn_worker q else q in
      record q' { workers = notify q'.workers }

  -- `none` is the `RuntimeError`
  pub submit : T → Pool T → Option (Pool T)
  unfolding enlist
  submit task p = if not p.opened || p.closed then none else some (enlist task p)

  pub step : Pool T → Event T → Pool T
  unfolding enter submit stop mark_closed work wake
  step p enters = or_same p (enter p)
  step p (submits task) = or_same p (submit task p)
  step p stops = stop p
  step p exits = (mark_closed p).0
  step p (runs i) = elim (get_elem? p.workers i) [ none ↦ p | some w ↦ work i w p ]
  step p (wakes i) = elim (get_elem? p.workers i) [ none ↦ p | some w ↦ wake i w p ]

  pub run_all : Pool T → List (Event T) → Pool T
  run_all p [] = p
  run_all p (e ∷ es) = run_all (step p e) es
