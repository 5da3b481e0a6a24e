-- ===== src/Hosting.antt =====
-- localpost/hosting/_host.py: `ServiceLifetime`, its view and the states. The calls run on the event
-- loop's thread, whatever thread makes them, so each is one step. An `Event` is a Boolean that is only
-- ever set. Reasons and exceptions are known by numbers.
pub mod Services
use localpost_py.Prelude.{
  ℕ, ◌≤◌, Bool, true, false, not, ◌||◌, Option, none, some, leb, if◌then◌else◌,
}

pub data Exception : Type 0 where
  cancelled_error : Exception
  error : ℕ → Exception

pub data ServiceState : Type 0 where
  starting running : ServiceState
  shutting_down_for : Option ℕ → ServiceState
  stopped_with : Option ℕ → Option Exception → ServiceState

pub record ServiceLifetime : Type 0 where
  pub started : Bool
  pub shutting_down : Bool
  pub stopped : Bool
  pub shutdown_reason : Option ℕ
  pub exception : Option Exception
  pub set_code : Option ℕ

pub new : ServiceLifetime
new = record {
  started = false;
  shutting_down = false;
  stopped = false;
  shutdown_reason = none;
  exception = none;
  set_code = none;
}

pub state : ServiceLifetime → ServiceState
state lt =
    if lt.stopped
    then stopped_with lt.shutdown_reason lt.exception
    else if lt.shutting_down
    then shutting_down_for lt.shutdown_reason
    else if lt.started
    then running
    else starting

-- `ServiceLifetimeView.shutdown`
pub shutdown : Option ℕ → ServiceLifetime → ServiceLifetime
shutdown reason lt =
    if lt.stopped || lt.shutting_down
    then lt
    else record lt { shutdown_reason = reason; shutting_down = true }

-- `none` is the `AssertionError`
pub set_started : ServiceLifetime → Option ServiceLifetime
set_started lt = if lt.stopped then none else some (record lt { started = true })

pub set_shutting_down : Option ℕ → ServiceLifetime → Option ServiceLifetime
set_shutting_down reason lt =
    if lt.stopped
    then none
    else if lt.shutting_down
    then some lt
    else some (record lt { shutdown_reason = reason; shutting_down = true })

-- the setter; `none` is the `ValueError`
pub set_exit_code : ℕ → ServiceLifetime → Option ServiceLifetime
set_exit_code value lt = if leb value 255 then some (record lt { set_code = some value }) else none

pub exit_code : ServiceLifetime → ℕ
exit_code lt = elim lt.set_code [
  | some value ↦ value
  | none ↦ elim lt.exception [ none ↦ 0 | some e ↦ 1 ]
]

-- the end of `_run`
pub end_with : Option Exception → ServiceLifetime → ServiceLifetime
end_with none lt = record lt { stopped = true }
end_with (some e) lt = record lt { exception = some e; stopped = true }
