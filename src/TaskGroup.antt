-- ===== src/TaskGroup.antt =====
-- localpost/threadtools/_task_group.py. A future is its number, in the order in which the executor
-- made them; exceptions are the numbers of the exception objects, since the group compares them by
-- identity. A step is one critical section of the group, a call of the executor's `submit`, or the end
-- of a task; `create_task` is three of them.
pub mod Errors
mod Tests
use localpost_py.Prelude.{
  ℕ, ◌+◌, ◌-◌, Bool, true, false, not, ◌||◌, Option, none, some, List, [], ◌∷◌, ◌++◌, get_elem?,
  set, length, ◌==◌, if◌then◌else◌,
}

pub data Status : Type 0 where
  pending succeeded cancelled : Status
  failed : ℕ → Status

pub record TaskGroup : Type 0 where
  pub tasks : List ℕ
  pub opened : Bool
  pub closed : Bool

-- `creating` calls of `create_task` have passed their test and not yet submitted, and the futures of
-- `unlisted` are submitted and not yet appended. `drained` is an `__exit__` that has found nothing
-- pending and has not yet closed the group; `failed` is the list that it then took. `listed` is the
-- history of what was appended, and `listed_then` that history as it was when the list was taken.
pub record System : Type 0 where
  pub group : TaskGroup
  pub futures : List Status
  pub creating : ℕ
  pub unlisted : List ℕ
  pub listed : List ℕ
  pub drained : Bool
  pub failed : Option (List ℕ)
  pub listed_then : List ℕ

pub data Event : Type 0 where
  enters checks submits drains closes : Event
  adds calls_back : ℕ → Event
  finishes : ℕ → Status → Event

pub new : System
new = record {
  group = record { tasks = []; opened = false; closed = false };
  futures = [];
  creating = 0;
  unlisted = [];
  listed = [];
  drained = false;
  failed = none;
  listed_then = [];
}

-- `__enter__`; `none` is the `RuntimeError`
enter : TaskGroup → Option TaskGroup
enter g = if g.closed then none else some (record g { opened = true })

-- the test of `create_task`
may_create : TaskGroup → Bool
may_create g = not (g.closed || not g.opened)

-- `list.remove`, which the source calls where a missing element is no error
abbrev pub remove : ℕ → List ℕ → List ℕ
remove i [] = []
remove i (j ∷ js) = if i == j then js else j ∷ remove i js

-- `_on_done`
on_done : ℕ → Option Status → TaskGroup → TaskGroup
on_done i (some succeeded) g = record g { tasks = remove i g.tasks }
on_done i f g = g

abbrev is_pending : Option Status → Bool
is_pending (some pending) = true
is_pending f = false

-- the test of the first loop of `__exit__`
pub any_pending : List Status → List ℕ → Bool
any_pending fs [] = false
any_pending fs (i ∷ is) = is_pending (get_elem? fs i) || any_pending fs is

abbrev pub error_of : Option Status → List ℕ
error_of (some (failed e)) = e ∷ []
error_of f = []

-- the second loop of `__exit__`
pub collect : List Status → List ℕ → List ℕ
collect fs [] = []
collect fs (i ∷ is) = error_of (get_elem? fs i) ++ collect fs is

abbrev contains : ℕ → List ℕ → Bool
contains e [] = false
contains e (x ∷ xs) = e == x || contains e xs

-- the exception of the body goes in front, unless it is one of the others
pub with_body : Option ℕ → List ℕ → List ℕ
with_body none errors = errors
with_body (some e) errors = if contains e errors then errors else e ∷ errors

-- The exceptions that `__exit__` raises in the end. `Future.exception` waits for its task, so `none` is
-- that the list was not taken yet, or that a task in it is pending.
pub exit : Option ℕ → System → Option (List ℕ)
unfolding collect with_body any_pending
exit body s = elim s.failed [
  | none ↦ none
  | some ts ↦
      if any_pending s.futures ts then none else some (with_body body (collect s.futures ts))
]

abbrev or_same : TaskGroup → Option TaskGroup → TaskGroup
or_same g none = g
or_same g (some h) = h

abbrev settle : ℕ → Status → Option Status → System → System
settle i status (some pending) s = record s { futures = set s.futures i status }
settle i status f s = s

pub step : System → Event → System
unfolding enter may_create on_done any_pending
step s enters = record s { group = or_same s.group (enter s.group) }
step s checks = if may_create s.group then record s { creating = s.creating + 1 } else s
step s submits = if s.creating == 0 then s else record s {
  futures = s.futures ++ pending ∷ [];
  unlisted = s.unlisted ++ length s.futures ∷ [];
  creating = s.creating - 1;
}
step s (adds i) =
    if contains i s.unlisted
    then record s {
      group = record s.group { tasks = s.group.tasks ++ i ∷ [] };
      unlisted = remove i s.unlisted;
      listed = s.listed ++ i ∷ [];
    }
    else s
step s (finishes i status) = settle i status (get_elem? s.futures i) s
step s (calls_back i) = record s { group = on_done i (get_elem? s.futures i) s.group }
step s drains = if any_pending s.futures s.group.tasks then s else record s { drained = true }
step s closes =
    if s.drained
    then record s {
      group = record s.group { closed = true };
      drained = false;
      failed = some s.group.tasks;
      listed_then = s.listed;
    }
    else s

pub run_all : System → List Event → System
run_all s [] = s
run_all s (e ∷ es) = run_all (step s e) es
