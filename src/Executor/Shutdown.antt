-- ===== src/Executor/Shutdown.antt =====
-- localpost/threadtools/_executor.py: what `submit` and `stop` guarantee over any run.
use localpost_py.Prelude.{
  ℕ, ◌≡◌, ◌≤◌, ◌<◌, refl, sym, ap, ◌∙◌, true, false, none, some, List, [], ◌∷◌, ◌++◌, length,
  length-append, arith, inl, inr,
}
use mathlib.Core.List.{append-nil}
use localpost_py.Executor.{
  Worker, Pool, Event, new, enter, mark_closed, stop, work, wake, submit, step, run_all, enters,
  submits, stops, exits, runs, wakes, wait_or_take,
}
use localpost_py.Executor.Invariant.{IsNotify, Inv, has_active, run_all-Inv}

new-Inv : {T : Type 0} → Inv (new {T = T})
unfolding new
new-Inv = record {
  idle_counted = refl;
  workers_counted = refl;
  history = refl;
  attended = inl refl;
}

module _ {T : Type 0} (notify : List (Worker T) → List (Worker T)) (n : IsNotify notify) where
  -- Whatever callers and workers do: `_idle` counts the workers that wait, `worker_count` those
  -- that were spawned, tasks start in the order in which they were submitted, and while the queue
  -- holds a task some worker is at work or about to look at the queue.
  pub reached-Inv : (es : List (Event T)) → Inv (run_all notify new es)
  reached-Inv es = run_all-Inv notify n new es new-Inv

  -- Once no worker is at work or about to look at the queue, as when all have exited and been
  -- joined, every task that was ever accepted has been started, in order.
  pub quiet_is_drained :
      (es : List (Event T))
      → has_active (run_all notify new es).workers ≡ false
      → (run_all notify new es).started ≡ (run_all notify new es).submitted
  quiet_is_drained es quiet =
      let p = run_all notify new es in
      elim (reached-Inv es).attended [
        | inl drained ↦
            sym (append-nil p.started)
            ∙ ap (λ (l : List T). p.started ++ l) (sym drained)
            ∙ sym (reached-Inv es).history
        | inr busy ↦ cc
      ]

module _ {T : Type 0} (notify : List (Worker T) → List (Worker T)) where
  wait_or_take_closed :
      (i : ℕ) (p : Pool T)
      → ((wait_or_take i p).closed ≡ p.closed) × ((wait_or_take i p).submitted ≡ p.submitted)
  unfolding wait_or_take
  wait_or_take_closed i p = ground arith

  step_closed :
      (p : Pool T) (e : Event T)
      → p.closed ≡ true
      → ((step notify p e).closed ≡ true) × ((step notify p e).submitted ≡ p.submitted)
  unfolding step enter submit stop mark_closed work wake
  step_closed p enters h = ground arith
  step_closed p (submits task) h = ground arith
  step_closed p stops h = ground arith
  step_closed p exits h = ground arith
  step_closed p (runs i) h = ground (arith, wait_or_take_closed i p)
  step_closed p (wakes i) h = ground arith

  -- Closing is for good: after any further events `submit` raises, and no task was accepted.
  pub closed_for_good :
      (p : Pool T) (es : List (Event T)) (task : T)
      → p.closed ≡ true
      → (submit notify task (run_all notify p es) ≡ none)
        × ((run_all notify p es).submitted ≡ p.submitted)
  unfolding run_all submit
  closed_for_good p [] task h = (ground arith, refl)
  closed_for_good p (e ∷ es) task h =
      let (c, s) = step_closed p e h in
      let (r, t) = closed_for_good (step notify p e) es task c in (r, t ∙ s)

  -- The test `_idle == 0` also counts workers that were notified and have not yet gone on. So a
  -- pool whose queue already has a task for each idle worker accepts one more, spawns no worker,
  -- and then holds more tasks than it has idle workers.
  pub submit_claims_idle :
      (p q : Pool T) (task : T)
      → 0 < p.idle
      → p.idle ≤ length p.queue
      → submit notify task p ≡ some q
      → (q.worker_count ≡ p.worker_count) × (q.idle < length q.queue)
  unfolding submit
  submit_claims_idle p q task some_idle claimed e =
      ground (arith, length-append p.queue (task ∷ []))
