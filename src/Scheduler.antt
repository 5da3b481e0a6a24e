-- ===== src/Scheduler.antt =====
-- localpost/scheduler/_scheduler.py: tasks with their subscribers, templates of triggers, and the run of a
-- scheduled task. anyio's memory object streams are a record of functions; a stream stands for both of
-- its ends. A trigger is the events that it yields.
pub mod Publishing
pub mod Documented
pub mod Lasting
pub mod Delivering
pub mod Triggers
mod Tests
use localpost_py.Prelude.{
  ℕ, zero, suc, ◌+◌, ◌-◌, Bool, true, false, Option, none, some, List, [], ◌∷◌, ◌++◌, map, length,
  get_elem?, set, ◌==◌, if◌then◌else◌,
}
use localpost_py.Bytes.{Bytes}

-- `Result` of localpost/_utils.py; an exception is its text
pub data Result (R : Type 0) : Type 0 where
  ok : R → Result R
  failure : Bytes → Result R

-- what `send_nowait` answers: the stream with the item, `WouldBlock`, `BrokenResourceError` for a closed
-- receiving end and `ClosedResourceError` for a closed sending end
pub data Sending (S : Type 0) : Type 0 where
  sent : S → Sending S
  would_block broken_resource closed_resource : Sending S

-- `create` is given the size of the buffer, `none` for `math.inf`, and `close` closes the sending end
pub record Streams (R S : Type 0) : Type 0 where
  pub create : Option ℕ → S
  pub send_nowait : Result R → S → Sending S
  pub close : S → S

-- The exit stack `_cm` closes the subscribers; it also closes those that were deleted from the list,
-- whose receiving ends are closed.
pub record Task (S : Type 0) : Type 0 where
  pub subscribers : List S
  pub users : ℕ
  pub finished : Bool

pub data Outcome (A : Type 0) : Type 0 where
  done : A → Outcome A
  raised : A → Outcome A

abbrev pub fresh : {S : Type 0} → Task S
fresh = record { subscribers = []; users = 0; finished = false }

abbrev pub delete_at : {A : Type 0} → ℕ → List A → List A
delete_at i [] = []
delete_at zero (x ∷ xs) = xs
delete_at (suc i) (x ∷ xs) = x ∷ delete_at i xs

abbrev with_subscribers : {S : Type 0} → Task S → Outcome (List S) → Outcome (Task S)
with_subscribers t (done subs) = done (record t { subscribers = subs })
with_subscribers t (raised subs) = raised (record t { subscribers = subs })

-- `__aenter__`
pub enter : {S : Type 0} → Task S → Task S
enter t = record t { users = suc t.users }

module _ {R S : Type 0} (st : Streams R S) where
  -- `subscribe`; `none` is the `RuntimeError`
  pub subscribe : Option ℕ → Task S → Option (Task S)
  subscribe buffer_max_size t =
      if t.finished
      then none
      else some (record t { subscribers = t.subscribers ++ st.create buffer_max_size ∷ [] })

  -- The loop of `_publish_result` at index `i`: it walks over the list that `del` shortens.
  publish_loop : ℕ → Result R → ℕ → List S → Outcome (List S)
  publish_loop zero r i subs = done subs
  publish_loop (suc fuel) r i subs = elim (get_elem? subs i) [
    | none ↦ done subs
    | some s ↦ elim (st.send_nowait r s) [
      | sent next ↦ publish_loop fuel r (suc i) (set subs i next)
      | would_block ↦ publish_loop fuel r (suc i) subs
      | broken_resource ↦ publish_loop fuel r (suc i) (delete_at i subs)
      | closed_resource ↦ raised subs
    ]
  ]

  -- `_publish_result`; each turn looks at one place further, so the length is fuel enough
  pub publish_result : Result R → Task S → Outcome (Task S)
  unfolding publish_loop
  publish_result r t = with_subscribers t (publish_loop (length t.subscribers) r 0 t.subscribers)

  -- `__aexit__`
  pub exit : Task S → Task S
  exit t =
      let users = t.users - 1 in
      if users == 0
      then record t { users = users; finished = true; subscribers = map st.close t.subscribers }
      else record t { users = users }

  module _ {E : Type 0} (handle : E → Result R) where
    -- `__call__`: the result of the handler, an exception included, is published
    pub call : E → Task S → Outcome (Task S)
    unfolding publish_result
    call event t = publish_result (handle event) t

    -- the loop over the events of the trigger
    pub handle_events : List E → Task S → Outcome (Task S)
    unfolding call
    handle_events [] t = done t
    handle_events (e ∷ es) t = elim (call e t) [ raised u ↦ raised u | done u ↦ handle_events es u ]

    abbrev leave : Outcome (Task S) → Outcome (Task S)
    leave (done t) = done (exit t)
    leave (raised t) = raised (exit t)

    -- `_ScheduledTask.run`
    pub run : List E → Task S → Outcome (Task S)
    unfolding handle_events exit enter
    run events t = leave (handle_events events (enter t))

-- `ScheduledTaskTemplate`, of middlewares that keep the type of events
pub record Template (E : Type 0) : Type 0 where
  pub factory : List E
  pub queue : List (List E → List E)

-- `__floordiv__`
abbrev pub floordiv : {E : Type 0} → Template E → (List E → List E) → Template E
floordiv t decorator = record t { queue = t.queue ++ decorator ∷ [] }

abbrev decorate : {E : Type 0} → List E → List (List E → List E) → List E
decorate tf [] = tf
decorate tf (d ∷ ds) = decorate (d tf) ds

-- `tf`
pub tf : {E : Type 0} → Template E → List E
tf t = decorate t.factory t.queue
