-- ===== src/Executor/Invariant.antt =====
-- localpost/threadtools/_executor.py: what holds of a pool whatever its callers and workers do.
use mathlib.Core.List.{append_assoc}
use localpost_py.Prelude.{
  ℕ, zero, suc, ◌+◌, ◌≡◌, ◌<◌, refl, sym, ap, ◌∙◌, Bool, true, false, not, ◌||◌, some, List, [],
  ◌∷◌, ◌++◌, get_elem?, set, length, length-append, length-set, arith, Bool-cases, Option-cases,
  ◌==◌, inl, inr, ◌⊎◌,
}
use localpost_py.Executor.{
  Worker, ready, waiting, notified, exited, running, Pool, Event, enters, submits, stops, exits,
  runs, wakes, new, enter, notify_all, mark_closed, stop, to_worker, take_task, wait_or_take, work,
  wake, submit, step, run_all, spawn_worker, enlist, or_same,
}

-- 1 for a worker that is inside `_cond.wait`, whether or not it was notified
abbrev waits {ℓ} : {T : Type ℓ} → Worker T → ℕ
waits waiting = 1
waits notified = 1
waits _ = 0

abbrev pub idle_in {ℓ} : {T : Type ℓ} → List (Worker T) → ℕ
idle_in [] = 0
idle_in (w ∷ ws) = waits w + idle_in ws

-- a worker that will come to look at the queue with no further notification
abbrev is_active {ℓ} : {T : Type ℓ} → Worker T → Bool
is_active ready = true
is_active notified = true
is_active (running task) = true
is_active _ = false

abbrev pub has_active {ℓ} : {T : Type ℓ} → List (Worker T) → Bool
has_active [] = false
has_active (w ∷ ws) = is_active w || has_active ws

-- What `Condition.notify` promises: the waiting stay the waiting, and if somebody waits, then
-- somebody is about to go on.
pub record IsNotify {T : Type 0} (notify : List (Worker T) → List (Worker T)) : Type 0 where
  pub same_length : (ws : List (Worker T)) → length (notify ws) ≡ length ws
  pub same_idle : (ws : List (Worker T)) → idle_in (notify ws) ≡ idle_in ws
  pub keeps_active : (ws : List (Worker T)) → has_active ws ≡ true → has_active (notify ws) ≡ true
  pub wakes_one : (ws : List (Worker T)) → 0 < idle_in ws → has_active (notify ws) ≡ true

pub record Inv {T : Type 0} (p : Pool T) : Type 0 where
  pub idle_counted : p.idle ≡ idle_in p.workers
  pub workers_counted : p.worker_count ≡ length p.workers
  pub history : p.submitted ≡ p.started ++ p.queue
  pub attended : (p.queue ≡ []) ⊎ (has_active p.workers ≡ true)

module _ {T : Type 0} where
  idle_in-append : (ws vs : List (Worker T)) → idle_in (ws ++ vs) ≡ idle_in ws + idle_in vs
  idle_in-append [] vs = omega arith
  idle_in-append (w ∷ ws) vs = omega (arith, idle_in-append ws vs)

  has_active-append :
      (ws vs : List (Worker T)) → has_active vs ≡ true → has_active (ws ++ vs) ≡ true
  has_active-append [] vs h = h
  has_active-append (w ∷ ws) vs h = ground (arith, has_active-append ws vs h)

  idle_in-set :
      (ws : List (Worker T)) (i : ℕ) (old new : Worker T)
      → get_elem? ws i ≡ some old
      → idle_in (set ws i new) + waits old ≡ idle_in ws + waits new
  idle_in-set [] i old new e = ground arith
  idle_in-set (w ∷ ws) zero old new e = ground arith
  idle_in-set (w ∷ ws) (suc i) old new e = omega (arith, idle_in-set ws i old new e)

  has_active-set :
      (ws : List (Worker T)) (i : ℕ) (old new : Worker T)
      → get_elem? ws i ≡ some old
      → is_active new ≡ true
      → has_active (set ws i new) ≡ true
  has_active-set [] i old new e a = ground arith
  has_active-set (w ∷ ws) zero old new e a = ground arith
  has_active-set (w ∷ ws) (suc i) old new e a = ground (arith, has_active-set ws i old new e a)

  idle_in-notify_all : (ws : List (Worker T)) → idle_in (notify_all ws) ≡ idle_in ws
  idle_in-notify_all [] = refl
  idle_in-notify_all (waiting ∷ ws) = omega (arith, idle_in-notify_all ws)
  idle_in-notify_all (w ∷ ws) = omega (arith, idle_in-notify_all ws)

  length-notify_all : (ws : List (Worker T)) → length (notify_all ws) ≡ length ws
  length-notify_all [] = refl
  length-notify_all (waiting ∷ ws) = omega (arith, length-notify_all ws)
  length-notify_all (w ∷ ws) = omega (arith, length-notify_all ws)

  has_active-notify_all :
      (ws : List (Worker T)) → has_active ws ≡ true → has_active (notify_all ws) ≡ true
  has_active-notify_all [] h = cc
  has_active-notify_all (waiting ∷ ws) h = refl
  has_active-notify_all (w ∷ ws) h = ground (arith, has_active-notify_all ws)

  -- one worker moves on to a place where it will look at the queue
  moved-Inv :
      (i : ℕ) (old new : Worker T) (p : Pool T)
      → get_elem? p.workers i ≡ some old
      → waits new ≡ waits old
      → is_active new ≡ true
      → Inv p
      → Inv (to_worker i new p)
  unfolding to_worker
  moved-Inv i old new p e w a v = record {
    idle_counted = omega (arith, v.idle_counted, idle_in-set p.workers i old new e);
    workers_counted = rw length-set v.workers_counted;
    history = v.history;
    attended = inr (has_active-set p.workers i old new e a);
  }

  enter-Inv : (p : Pool T) → Inv p → Inv (or_same p (enter p))
  unfolding enter
  enter-Inv p v = ground arith

  mark_closed-Inv : (p : Pool T) → Inv p → Inv (mark_closed p).0
  unfolding mark_closed
  mark_closed-Inv p v = ground (
    arith,
    idle_in-notify_all p.workers,
    length-notify_all p.workers,
    has_active-notify_all p.workers,
  )

  stop-Inv : (p : Pool T) → Inv p → Inv (stop p)
  unfolding stop
  stop-Inv p v = ground (arith, mark_closed-Inv p)

  -- Worker `i`, which stood at `old`, holds the lock and counts as idle.
  record IsLocked (p : Pool T) (i : ℕ) (old : Worker T) : Type 0 where
    at : get_elem? p.workers i ≡ some old
    idle_held : p.idle + waits old ≡ idle_in p.workers + 1
    workers_counted : p.worker_count ≡ length p.workers
    history : p.submitted ≡ p.started ++ p.queue

  module _ (i : ℕ) (old : Worker T) (p : Pool T) (k : IsLocked p i old) where
    take_task-Inv : (tasks : List T) → p.queue ≡ tasks → Inv (take_task i tasks p)
    unfolding take_task
    take_task-Inv [] q = record {
      idle_counted = omega (arith, k.idle_held, idle_in-set p.workers i old exited k.at);
      workers_counted = rw length-set k.workers_counted;
      history = k.history;
      attended = inl q;
    }
    take_task-Inv (task ∷ rest) q = record {
      idle_counted = omega (arith, k.idle_held, idle_in-set p.workers i old (running task) k.at);
      workers_counted = rw length-set k.workers_counted;
      history =
          k.history
          ∙ ap (λ (l : List T). p.started ++ l) q
          ∙ sym (append_assoc p.started (task ∷ []) rest);
      attended = inr (has_active-set p.workers i old (running task) k.at refl);
    }

    wait-Inv : p.queue ≡ [] → Inv (to_worker i waiting p)
    unfolding to_worker
    wait-Inv q = record {
      idle_counted = omega (arith, k.idle_held, idle_in-set p.workers i old waiting k.at);
      workers_counted = rw length-set k.workers_counted;
      history = k.history;
      attended = inl q;
    }

    queue_cases : (tasks : List T) → p.queue ≡ tasks → Inv (wait_or_take i p)
    unfolding wait_or_take
    queue_cases [] q = elim (Bool-cases p.closed) [
      | inl c ↦ rw (q, wait_or_take, c) (rw (q, c) at (take_task-Inv [] q))
      | inr c ↦ rw (q, wait_or_take, c) (rw (q, c) at (wait-Inv q))
    ]
    queue_cases (task ∷ rest) q = rw (q, wait_or_take) (take_task-Inv (task ∷ rest) q)

    wait_or_take-Inv : Inv (wait_or_take i p)
    wait_or_take-Inv = queue_cases p.queue refl

  work-Inv :
      (i : ℕ) (w : Worker T) (p : Pool T)
      → get_elem? p.workers i ≡ some w
      → Inv p
      → Inv (work i w p)
  unfolding work
  work-Inv i ready p e v =
      wait_or_take-Inv i ready (record p { idle = p.idle + 1 })
        (record {
          at = e;
          idle_held = omega (arith, v.idle_counted);
          workers_counted = v.workers_counted;
          history = v.history;
        })
  work-Inv i waiting p e v = v
  work-Inv i notified p e v = wait_or_take-Inv i notified p (record {
    at = e;
    idle_held = omega (arith, v.idle_counted);
    workers_counted = v.workers_counted;
    history = v.history;
  })
  work-Inv i (running task) p e v = moved-Inv i (running task) ready p e refl refl v
  work-Inv i exited p e v = v

  wake-Inv :
      (i : ℕ) (w : Worker T) (p : Pool T)
      → get_elem? p.workers i ≡ some w
      → Inv p
      → Inv (wake i w p)
  unfolding wake
  wake-Inv i waiting p e v = moved-Inv i waiting notified p e refl refl v
  wake-Inv i w p e v = v

module _ {T : Type 0} (notify : List (Worker T) → List (Worker T)) (n : IsNotify notify) where
  -- Once somebody is active or waits, a notification leaves somebody active.
  notified-Inv :
      (p : Pool T)
      → p.idle ≡ idle_in p.workers
      → p.worker_count ≡ length p.workers
      → p.submitted ≡ p.started ++ p.queue
      → (has_active p.workers ≡ true) ⊎ (0 < idle_in p.workers)
      → Inv (record p { workers = notify p.workers })
  notified-Inv p i w h a = record {
    idle_counted = omega (arith, n.same_idle p.workers);
    workers_counted = omega (arith, n.same_length p.workers);
    history = h;
    attended = elim a [
      | inl x ↦ inr (n.keeps_active p.workers x)
      | inr x ↦ inr (n.wakes_one p.workers x)
    ];
  }

  enlist-Inv : (task : T) (p : Pool T) → Inv p → Inv (enlist notify task p)
  unfolding enlist spawn_worker
  enlist-Inv task p v = elim (Bool-cases (p.idle == 0)) [
    | inl z ↦
        rw (z, enlist)
          (notified-Inv _ (omega (arith, v.idle_counted, idle_in-append p.workers (ready ∷ [])))
            (omega (arith, v.workers_counted, length-append p.workers (ready ∷ []))) longer
            (inl (has_active-append p.workers (ready ∷ []) refl)))
    | inr z ↦
        rw (z, enlist)
          (notified-Inv _ v.idle_counted v.workers_counted longer
            (inr (ground (arith, v.idle_counted))))
  ]
    where
      longer : p.submitted ++ task ∷ [] ≡ p.started ++ (p.queue ++ task ∷ [])
      longer =
          ap (λ (l : List T). l ++ task ∷ []) v.history ∙ append_assoc p.started p.queue (task ∷ [])

  submit-Inv : (task : T) (p : Pool T) → Inv p → Inv (or_same p (submit notify task p))
  unfolding submit
  submit-Inv task p v = elim (Bool-cases (not p.opened || p.closed)) [
    | inl r ↦ rw (r, submit) v
    | inr r ↦ rw (r, submit) (enlist-Inv task p v)
  ]

  step-Inv : (p : Pool T) (e : Event T) → Inv p → Inv (step notify p e)
  unfolding step
  step-Inv p enters v = enter-Inv p v
  step-Inv p (submits task) v = submit-Inv task p v
  step-Inv p stops v = stop-Inv p v
  step-Inv p exits v = mark_closed-Inv p v
  step-Inv p (runs i) v = elim (Option-cases (get_elem? p.workers i)) [
    | inl e ↦ rw (e, step) v
    | inr (w, e) ↦ rw (e, step) (work-Inv i w p e v)
  ]
  step-Inv p (wakes i) v = elim (Option-cases (get_elem? p.workers i)) [
    | inl e ↦ rw (e, step) v
    | inr (w, e) ↦ rw (e, step) (wake-Inv i w p e v)
  ]

  pub run_all-Inv : (p : Pool T) (es : List (Event T)) → Inv p → Inv (run_all notify p es)
  unfolding run_all
  run_all-Inv p [] v = v
  run_all-Inv p (e ∷ es) v = run_all-Inv (step notify p e) es (step-Inv p e v)
