-- ===== src/Hosting/Services/Tests.antt =====
-- localpost/hosting/_host.py: runs of a service with a child.
use localpost_py.Prelude.{◌≡◌, refl, true, false, none, some, List, [], ◌∷◌, get_elem?}
use localpost_py.Hosting.{
  cancelled_error, ServiceLifetime, running, state, new, shutdown, set_started, exit_code, end_with,
}
use localpost_py.Hosting.Services.{
  Service, body, done, start, call, marks_started, shuts_down, on_return, on_cancel, on_leave,
  on_finish, Event, starts, returns, cancels, leaves, calls, finishes, step, run_all, root,
}
use localpost_py.Hosting.Services.Order.{lifetimes_advance}
use localpost_py.Hosting.Services.States.{Becomes}
use localpost_py.Hosting.Services.Children.{children_stop_first}

-- a service starts a child and says that it has started
abbrev begun : List Event
begun = starts 0 ∷ calls 0 marks_started ∷ []

-- it is shut down and returns, which cancels the child
abbrev ended : List Event
ended =
    calls 0 (shuts_down (some 7))
    ∷ leaves 0
    ∷ returns 0
    ∷ leaves 0
    ∷ cancels 1
    ∷ leaves 1
    ∷ finishes 1 none
    ∷ leaves 0
    ∷ finishes 0 none
    ∷ []

abbrev idle : ServiceLifetime
idle = record {
  started = true;
  shutting_down = false;
  stopped = false;
  shutdown_reason = none;
  exception = none;
  set_code = none;
}

abbrev cancelled : ServiceLifetime
cancelled = record {
  started = false;
  shutting_down = false;
  stopped = true;
  shutdown_reason = none;
  exception = some cancelled_error;
  set_code = none;
}

abbrev over : ServiceLifetime
over = record {
  started = true;
  shutting_down = true;
  stopped = true;
  shutdown_reason = some 7;
  exception = none;
  set_code = none;
}

lifetimes_advance_example :
    (t : Service) × (get_elem? (run_all (run_all root begun) ended) 0 ≡ some t)
    × Becomes running (state t.lifetime)
unfolding run_all step root start call new set_started state
lifetimes_advance_example =
    lifetimes_advance begun ended 0
      (record { lifetime = idle; above = []; phase = body; cancelling = false }) refl

abbrev after : List Service
after =
    record { lifetime = over; above = []; phase = done; cancelling = true }
    ∷ record { lifetime = cancelled; above = 0 ∷ []; phase = done; cancelling = false }
    ∷ []

children_stop_first_example : cancelled.stopped ≡ true
unfolding run_all step root start call new set_started shutdown on_return on_cancel on_leave
    on_finish end_with
children_stop_first_example =
    children_stop_first (starts 0 ∷ calls 0 marks_started ∷ ended) 1 0
      (record { lifetime = cancelled; above = 0 ∷ []; phase = done; cancelling = false })
      (record { lifetime = over; above = []; phase = done; cancelling = true }) refl refl refl refl

codes : (exit_code over ≡ 0) × (exit_code cancelled ≡ 1)
unfolding exit_code
codes = (refl, refl)
