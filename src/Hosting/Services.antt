-- ===== src/Hosting/Services.antt =====
-- localpost/hosting/_host.py: `ServiceLifetime.start` and `_run`, for services that start others. A
-- service is its number; its task runs in the task group of the service that started it. anyio's task
-- group waits for its tasks, cancels them when its scope is cancelled or its body raises, and swallows
-- the cancellation of its own scope.
mod Table
pub mod States
pub mod Order
pub mod Children
mod Tests
use localpost_py.Prelude.{
  ℕ, zero, suc, Bool, true, false, not, ◌&&◌, ◌||◌, Option, none, some, List, [], ◌∷◌, ◌++◌,
  get_elem?, ◌==◌, if◌then◌else◌,
}
use localpost_py.Hosting.{
  Exception, cancelled_error, error, ServiceLifetime, new, shutdown, set_started, set_shutting_down,
  set_exit_code, end_with,
}

-- `body`: the service function runs. `closing`: it has ended, the group waits for its tasks.
-- `cleaning`: the group has ended, the deferred cleanups run. `done`: `_run` has ended.
pub data Phase : Type 0 where
  body done : Phase
  closing cleaning : Option Exception → Phase

-- `above` are the services whose task groups it runs in, from the inside; `cancelling` is its own
-- cancel scope.
pub record Service : Type 0 where
  pub lifetime : ServiceLifetime
  pub above : List ℕ
  pub phase : Phase
  pub cancelling : Bool

abbrev pub is_done : Phase → Bool
is_done done = true
is_done p = false

-- the task group has ended
abbrev pub has_left : Phase → Bool
has_left done = true
has_left (cleaning e) = true
has_left p = false

abbrev pub modify : ℕ → (Service → Service) → List Service → List Service
modify i f [] = []
modify zero f (s ∷ ss) = f s ∷ ss
modify (suc i) f (s ∷ ss) = s ∷ modify i f ss

abbrev pub is_child_of : ℕ → Service → Bool
is_child_of j s = elim s.above [ [] ↦ false | k ∷ ks ↦ k == j ]

abbrev pub are_done : ℕ → List Service → Bool
are_done j [] = true
are_done j (s ∷ ss) = (not (is_child_of j s) || is_done s.phase) && are_done j ss

abbrev pub is_cancelling : ℕ → List Service → Bool
is_cancelling j ss = elim (get_elem? ss j) [ none ↦ false | some s ↦ s.cancelling ]

abbrev pub any_cancelling : List ℕ → List Service → Bool
any_cancelling [] ss = false
any_cancelling (j ∷ js) ss = is_cancelling j ss || any_cancelling js ss

abbrev pub child_of : ℕ → Service → Service
child_of j s = record { lifetime = new; above = j ∷ s.above; phase = body; cancelling = false }

-- `start`, which raises when the task group has ended
pub start : ℕ → List Service → List Service
unfolding new
start j ss = elim (get_elem? ss j) [
  | none ↦ ss
  | some s ↦ if has_left s.phase then ss else ss ++ child_of j s ∷ []
]

-- a call of the lifetime or of its view
pub data Call : Type 0 where
  marks_started : Call
  marks_shutting_down shuts_down : Option ℕ → Call
  sets_exit_code : ℕ → Call

abbrev or_same : ServiceLifetime → Option ServiceLifetime → ServiceLifetime
or_same lt none = lt
or_same lt (some l) = l

-- a call that raises changes nothing
pub call : Call → ServiceLifetime → ServiceLifetime
unfolding set_started set_shutting_down shutdown set_exit_code
call marks_started lt = or_same lt (set_started lt)
call (marks_shutting_down r) lt = or_same lt (set_shutting_down r lt)
call (shuts_down r) lt = shutdown r lt
call (sets_exit_code n) lt = or_same lt (set_exit_code n lt)

abbrev pub on_call : Call → Service → Service
on_call c s = record s { lifetime = call c s.lifetime }

-- `ServiceLifetimeView.stop`
abbrev pub on_stop : Service → Service
on_stop s = record s { cancelling = true }

-- the service function returns
pub on_return : Service → Service
on_return s = elim s.phase [ body ↦ record s { phase = closing none; cancelling = true } | p ↦ s ]

-- the service function, or another task of the group, raises
pub on_raise : ℕ → Service → Service
on_raise e s = elim s.phase [
  | body ↦ record s { phase = closing (some (error e)); cancelling = true }
  | closing x ↦ record s { phase = closing (some (error e)); cancelling = true }
  | p ↦ s
]

-- the cancellation of its own scope reaches the service function
pub on_unwind : Service → Service
on_unwind s = elim s.phase [
  | body ↦ if s.cancelling then record s { phase = closing none } else s
  | p ↦ s
]

-- the cancellation of an outer scope reaches the service function, or the wait for the group
pub on_cancel : Service → Service
on_cancel s = elim s.phase [
  | body ↦ record s { phase = closing (some cancelled_error) }
  | closing x ↦ elim x [ none ↦ record s { phase = closing (some cancelled_error) } | some e ↦ s ]
  | p ↦ s
]

-- the end of the task group
pub on_leave : Service → Service
on_leave s = elim s.phase [ closing x ↦ record s { phase = cleaning x } | p ↦ s ]

abbrev pub or_else : Option Exception → Option Exception → Option Exception
or_else none x = x
or_else (some e) x = some e

-- the end of the cleanups, which may raise, and of `_run`
pub on_finish : Option Exception → Service → Service
unfolding end_with
on_finish r s = elim s.phase [
  | cleaning x ↦ record s { phase = done; lifetime = end_with (or_else r x) s.lifetime }
  | p ↦ s
]

pub data Event : Type 0 where
  starts stops returns unwinds cancels leaves : ℕ → Event
  calls : ℕ → Call → Event
  raises : ℕ → ℕ → Event
  finishes : ℕ → Option Exception → Event

abbrev pub is_cancelled_above : ℕ → List Service → Bool
is_cancelled_above i ss = elim (get_elem? ss i) [
  | none ↦ false
  | some s ↦ any_cancelling s.above ss
]

pub step : List Service → Event → List Service
unfolding start call on_return on_raise on_unwind on_cancel on_leave on_finish
step ss (starts j) = start j ss
step ss (calls i c) = modify i (on_call c) ss
step ss (stops i) = modify i on_stop ss
step ss (returns i) = modify i on_return ss
step ss (raises i e) = modify i (on_raise e) ss
step ss (unwinds i) = modify i on_unwind ss
step ss (cancels i) = if is_cancelled_above i ss then modify i on_cancel ss else ss
step ss (leaves i) = if are_done i ss then modify i on_leave ss else ss
step ss (finishes i r) = modify i (on_finish r) ss

pub run_all : List Service → List Event → List Service
run_all ss [] = ss
run_all ss (e ∷ es) = run_all (step ss e) es

-- a service that `run` has just called `_run` for
pub root : List Service
unfolding new
root = record { lifetime = new; above = []; phase = body; cancelling = false } ∷ []
