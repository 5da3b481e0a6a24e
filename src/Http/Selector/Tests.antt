-- ===== src/Http/Selector/Tests.antt =====
-- localpost/http/_base.py: runs of the selector.
use localpost_py.Prelude.{
  ℕ, ◌+◌, ◌≡◌, ◌≢◌, ◌&&◌, refl, true, false, some, List, [], ◌∷◌, get_elem?, arith, if◌then◌else◌,
}
use localpost_py.Http.Selector.{
  Selector, Event, accepts, posts, borrows, gives_back, closes_tracked, drains, ticks,
  sets_close_at, run_all, start, is_registered, is_tracked, shutdown, step, close, track,
  apply_track, post_track, stop_tracking, post_cleanup, drain_ops, drain, cleanup_stale, find_stale,
  sweep, sweep_conn,
}
use localpost_py.Http.Selector.Watched.{count_in}
use localpost_py.Http.Selector.Reached.{tracked_is_watched}
use localpost_py.Http.Selector.Shutdown.{shutdown_closes_tracked}

-- one connection accepted, borrowed and given back, another one posted by an acceptor
abbrev served : List Event
served = accepts 10 ∷ borrows 0 ∷ posts 11 ∷ gives_back 0 ∷ []

-- and then a sweep
abbrev swept_after : List Event
swept_after = accepts 10 ∷ sets_close_at 0 50 ∷ ticks ∷ posts 11 ∷ drains 100 ∷ []

apart : ◌≢◌ {A = ℕ} 3 4
apart = ground arith

tracked_is_watched_example :
    (count_in 0 (run_all (start 3 4) served).ops
        + (if is_registered 0 (run_all (start 3 4) served) then 1 else 0)
      ≡ 1)
    × (is_registered 0 (run_all (start 3 4) served) && false ≡ false)
unfolding run_all step close track apply_track post_track stop_tracking start
tracked_is_watched_example =
    tracked_is_watched 3 4 served apart refl 0
      (record { fd = 10; tracked = true; is_open = true; close_at = 0 }) refl

shutdown_closes_tracked_example :
    (get_elem? (shutdown 3 (run_all (start 3 4) served)).conns 1
      ≡ some (record { fd = 11; tracked = false; is_open = false; close_at = 0 }))
    × ((shutdown 3 (run_all (start 3 4) served)).ops ≡ [])
    × ((shutdown 3 (run_all (start 3 4) served)).shutting_down ≡ true)
unfolding run_all step close track apply_track post_track stop_tracking start
shutdown_closes_tracked_example =
    shutdown_closes_tracked 3 4 served apart refl 1
      (record { fd = 11; tracked = true; is_open = true; close_at = 0 }) refl

stale_is_swept : (run_all (start 3 4) swept_after).swept ≡ 0 ∷ []
unfolding run_all step track apply_track post_track post_cleanup drain_ops drain cleanup_stale
    find_stale sweep sweep_conn start
stale_is_swept = refl

-- A worker closes a connection that it gave back; the descriptor goes to a new connection before the
-- queue is drained: the new connection is tracked, and neither registered nor queued.
abbrev reused : Selector
reused = run_all (start 3 4) (accepts 10 ∷ closes_tracked 0 ∷ accepts 10 ∷ drains 5 ∷ [])

new_connection_lost :
    (is_tracked 1 reused ≡ true) × (is_registered 1 reused ≡ false) × (reused.ops ≡ [])
unfolding run_all step close track apply_track drain_ops drain start
new_connection_lost = (refl, refl, refl)
