-- ===== src/TaskGroup/Tests.antt =====
-- localpost/threadtools/_task_group.py: runs of small groups, and the theorem applied to one.
use localpost_py.Prelude.{ℕ, ◌≡◌, refl, none, some, List, [], ◌∷◌, ◌++◌}
use localpost_py.TaskGroup.{
  Event, failed, succeeded, enters, checks, submits, adds, drains, closes, finishes, calls_back,
  new, exit, step, run_all,
}

-- `create_task` of one thread
abbrev creates : ℕ → List Event
creates i = checks ∷ submits ∷ adds i ∷ []

-- Three tasks: the first succeeds and is dropped, the others fail out of order.
abbrev three_tasks : List Event
three_tasks =
    enters
    ∷ (creates 0
        ++ (creates 1
            ++ (finishes 0 succeeded
                ∷ (creates 2
                    ++ (calls_back 0
                        ∷ finishes 2 (failed 8)
                        ∷ finishes 1 (failed 7)
                        ∷ drains
                        ∷ closes
                        ∷ [])))))

-- the errors are in the order of the list, not in that in which the tasks ended
raised : exit (some 5) (run_all new three_tasks) ≡ some (5 ∷ 7 ∷ 8 ∷ [])
unfolding exit run_all step new
raised = refl

raised_once : exit (some 8) (run_all new three_tasks) ≡ some (7 ∷ 8 ∷ [])
unfolding exit run_all step new
raised_once = refl

-- Two threads create tasks at the same time: the one that submits first is appended second.
swapped :
    exit none (
      run_all new (
        enters
        ∷ checks
        ∷ checks
        ∷ submits
        ∷ submits
        ∷ adds 1
        ∷ adds 0
        ∷ finishes 0 (failed 7)
        ∷ finishes 1 (failed 8)
        ∷ drains
        ∷ closes
        ∷ []))
    ≡ some (8 ∷ 7 ∷ [])
unfolding exit run_all step new
swapped = refl

-- A task that passes the test of `create_task` before the group closes and is appended after: the
-- exit does not wait for it, and its exception is not raised.
late_task_lost :
    exit none (
      run_all new
        (enters ∷ checks ∷ drains ∷ closes ∷ submits ∷ adds 0 ∷ finishes 0 (failed 7) ∷ []))
    ≡ some []
unfolding exit run_all step new
late_task_lost = refl
