-- ===== src/Executor/Tests.antt =====
-- localpost/threadtools/_executor.py: runs of small pools, and the theorems applied to them.
use localpost_py.Prelude.{ℕ, ◌≡◌, ◌<◌, refl, true, none, List, [], ◌∷◌, length, arith}
use localpost_py.Executor.{
  Worker, waiting, notified, Pool, Event, new, submit, step, run_all, enters, submits, exits, runs,
  enter,
}
use localpost_py.Executor.Invariant.{IsNotify, Inv, has_active, idle_in}
use localpost_py.Executor.Shutdown.{reached-Inv, closed_for_good}

-- the first waiting worker of the list is woken
abbrev notify_first : List (Worker ℕ) → List (Worker ℕ)
notify_first [] = []
notify_first (waiting ∷ ws) = notified ∷ ws
notify_first (w ∷ ws) = w ∷ notify_first ws

same_length_first : (ws : List (Worker ℕ)) → length (notify_first ws) ≡ length ws
same_length_first [] = refl
same_length_first (waiting ∷ ws) = refl
same_length_first (w ∷ ws) = omega (arith, same_length_first ws)

same_idle_first : (ws : List (Worker ℕ)) → idle_in (notify_first ws) ≡ idle_in ws
same_idle_first [] = refl
same_idle_first (waiting ∷ ws) = refl
same_idle_first (w ∷ ws) = omega (arith, same_idle_first ws)

keeps_active_first :
    (ws : List (Worker ℕ)) → has_active ws ≡ true → has_active (notify_first ws) ≡ true
keeps_active_first [] h = cc
keeps_active_first (waiting ∷ ws) h = refl
keeps_active_first (w ∷ ws) h = ground (arith, keeps_active_first ws)

wakes_one_first : (ws : List (Worker ℕ)) → 0 < idle_in ws → has_active (notify_first ws) ≡ true
wakes_one_first [] h = absurd (omega arith)
wakes_one_first (waiting ∷ ws) h = refl
wakes_one_first (w ∷ ws) h = ground (arith, wakes_one_first ws)

notify_first-IsNotify : IsNotify notify_first
notify_first-IsNotify = record {
  same_length = same_length_first;
  same_idle = same_idle_first;
  keeps_active = keeps_active_first;
  wakes_one = wakes_one_first;
}

-- A worker is spawned for task 1 and then waits; tasks 2 and 3 come before it goes on.
abbrev two_at_once : List (Event ℕ)
two_at_once = enters ∷ submits 1 ∷ runs 0 ∷ runs 0 ∷ runs 0 ∷ submits 2 ∷ []

abbrev shut_down : List (Event ℕ)
shut_down =
    enters
    ∷ submits 1
    ∷ submits 2
    ∷ runs 0
    ∷ exits
    ∷ runs 0
    ∷ runs 1
    ∷ runs 0
    ∷ runs 1
    ∷ runs 0
    ∷ runs 1
    ∷ runs 1
    ∷ []

claimed : Pool ℕ
claimed = run_all notify_first new two_at_once

claimed_pool : (claimed.idle ≡ 1) × (claimed.queue ≡ 2 ∷ []) × (claimed.workers ≡ notified ∷ [])
unfolding claimed run_all step enter submit new
claimed_pool = (refl, refl, refl)

reached-Inv_example : Inv (run_all notify_first new two_at_once)
reached-Inv_example = reached-Inv notify_first notify_first-IsNotify two_at_once

closed_for_good_example :
    (submit notify_first 7 (run_all notify_first (run_all notify_first new shut_down) two_at_once)
      ≡ none)
    × ((run_all notify_first (run_all notify_first new shut_down) two_at_once).submitted
        ≡ (run_all notify_first new shut_down).submitted)
closed_for_good_example =
    closed_for_good notify_first (run_all notify_first new shut_down) two_at_once 7
      (unfold run_all step enter submit new in refl)
