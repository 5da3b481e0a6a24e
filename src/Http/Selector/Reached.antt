-- ===== src/Http/Selector/Reached.antt =====
-- localpost/http/_base.py: where the connections stand after any calls of the selector's thread and of workers.
use localpost_py.Prelude.{
  ℕ, ◌+◌, ◌≡◌, ◌≢◌, refl, sym, ap, ◌∙◌, Bool, true, false, not, ◌&&◌, ◌||◌, some, List, [], ◌∷◌,
  ◌++◌, length, get_elem?, arith, Bool-cases, Option-cases, inl, inr, if◌then◌else◌,
}
use localpost_py.Http.Selector.{
  Conn, op_cleanup, Selector, find_key, update, post_cleanup, is_registered, is_key, is_reserved,
  is_used, is_tracked, fresh, add_conn, Event, accepts, posts, borrows, gives_back, closes_here,
  closes_there, closes_tracked, drains, ticks, sets_close_at, step, run_all, start,
}
use localpost_py.Http.Selector.Watched.{Inv, count_in, count_keys}
use localpost_py.Http.Selector.Kept.{change-Inv, get_elem?-append}
use localpost_py.Http.Selector.Kept.{change-Inv, get_elem?-append}
use localpost_py.Http.Selector.Queue.{count_in-cleanup, no_close-cleanup, rebase}
use localpost_py.Http.Selector.Operations.{
  Good, track-Good, stop_tracking-Good, close-Good, accept-Good, post_track-Good, drain_ops-Good,
  update-out,
}

-- every event but a worker's closing of a connection that it gave back
abbrev pub is_orderly : Event → Bool
is_orderly (closes_tracked i) = false
is_orderly e = true

step-Good : (s : Selector) (e : Event) → is_orderly e ≡ true → Good s → Good (step s e)
unfolding step
step-Good s (accepts fd) o inv =
    elim (Bool-cases (is_used fd s.conns || is_reserved (find_key fd s.fd_to_key))) [
      | inl g ↦ rw g inv
      | inr g ↦ rw g (
          track-Good true (length s.conns) (add_conn fd s)
            (accept-Good fd s (ground (arith, g)) inv))
    ]
step-Good s (posts fd) o inv =
    elim (Bool-cases (is_used fd s.conns || is_reserved (find_key fd s.fd_to_key))) [
      | inl g ↦ rw g inv
      | inr g ↦ rw g (
          post_track-Good (length s.conns) (add_conn fd s) (fresh fd)
            (ground (arith, get_elem?-append s.conns (fresh fd) (length s.conns))) refl
            (accept-Good fd s (ground (arith, g)) inv))
    ]
step-Good s (borrows i) o inv = elim (Bool-cases (is_registered i s)) [
  | inl g ↦ rw g (stop_tracking-Good i s g inv)
  | inr g ↦ rw g inv
]
step-Good s (gives_back i) o inv = track-Good false i s inv
step-Good s (closes_here i) o inv = elim (Bool-cases (is_registered i s)) [
  | inl g ↦ rw g (close-Good true i s (inr (refl, g)) inv)
  | inr g ↦ elim (Bool-cases (is_tracked i s)) [
    | inl h ↦ rw (g, h) inv
    | inr h ↦ rw (g, h) (close-Good true i s (inl h) inv)
  ]
]
step-Good s (closes_there i) o inv = elim (Bool-cases (is_tracked i s)) [
  | inl h ↦ rw h inv
  | inr h ↦ rw h (close-Good false i s (inl h) inv)
]
step-Good s (closes_tracked i) o inv = cc o
step-Good s (drains now) o inv = drain_ops-Good now s inv
step-Good s ticks o inv =
    rebase (s.ops ++ op_cleanup ∷ []) s (post_cleanup s) refl refl refl (record {
      placed = λ j c e.
          ap (λ n. n + count_keys j c s.fd_to_key) (count_in-cleanup j s.ops) ∙ inv.placed j c e;
      live = inv.live;
      distinct = inv.distinct;
      keyed = inv.keyed;
      known = λ j e. count_in-cleanup j s.ops ∙ inv.known j e;
      calm = no_close-cleanup s.ops inv.calm;
      table = inv.table;
      running = inv.running;
    })
step-Good s (sets_close_at i n) o inv = elim (Option-cases (get_elem? s.conns i)) [
  | inl h ↦
      rebase s.ops s (record s { conns = update i (λ c. record c { close_at = n }) s.conns })
        (sym (update-out i (λ c. record c { close_at = n }) s.conns h)) refl refl inv
  | inr (c, h) ↦
      change-Inv i (λ c. record c { close_at = n }) (λ c. refl) (λ c o. o) s.ops s.ops s c h
        (inv.placed i c h) (inv.live i c h) (λ j g. refl) inv.calm inv
]

abbrev pub all_orderly : List Event → Bool
all_orderly [] = true
all_orderly (e ∷ es) = is_orderly e && all_orderly es

run_all-Good :
    (es : List Event) (s : Selector) → all_orderly es ≡ true → Good s → Good (run_all s es)
unfolding run_all
run_all-Good [] s o inv = inv
run_all-Good (e ∷ es) s o inv =
    run_all-Good es (step s e) (ground (arith, o)) (step-Good s e (ground (arith, o)) inv)

start-Good : (wakeup_r listener : ℕ) → wakeup_r ≢ listener → Good (start wakeup_r listener)
unfolding start
start-Good wakeup_r listener apart = record {
  placed = λ i c e. cc e;
  live = λ i c e r. cc e;
  distinct = λ i j c d e g oc od same. cc e;
  keyed = λ fd i k. (fresh fd, ground (arith, k), refl);
  known = λ i e. refl;
  calm = refl;
  table = (ground (arith, apart), (refl, tt));
  running = refl;
}

pub reached-Inv :
    (wakeup_r listener : ℕ) (es : List Event)
    → wakeup_r ≢ listener
    → all_orderly es ≡ true
    → Inv (run_all (start wakeup_r listener) es).ops (run_all (start wakeup_r listener) es)
reached-Inv wakeup_r listener es apart o =
    run_all-Good es (start wakeup_r listener) o (start-Good wakeup_r listener apart)

-- After any events in which no worker closes a connection that it already gave back: a tracked
-- connection is either registered or in the queue once, and not both; a connection that is not
-- tracked is neither; and a registered connection is open.
pub tracked_is_watched :
    (wakeup_r listener : ℕ) (es : List Event)
    → wakeup_r ≢ listener
    → all_orderly es ≡ true
    → (i : ℕ) (c : Conn) → get_elem? (run_all (start wakeup_r listener) es).conns i ≡ some c
    → (count_in i (run_all (start wakeup_r listener) es).ops
          + (if is_registered i (run_all (start wakeup_r listener) es) then 1 else 0)
        ≡ (if c.tracked then 1 else 0))
      × (is_registered i (run_all (start wakeup_r listener) es) && not c.is_open ≡ false)
tracked_is_watched wakeup_r listener es apart o i c e =
    let s = run_all (start wakeup_r listener) es in
    let inv = reached-Inv wakeup_r listener es apart o in
    let reg : is_registered i s ≡ is_key i (find_key c.fd s.fd_to_key) = ground (arith, e) in
    (
      ap (λ b. count_in i s.ops + (if b then 1 else 0)) reg ∙ inv.placed i c e,
      ground (arith, reg, inv.live i c e),
    )
