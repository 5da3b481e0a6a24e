-- ===== src/Http/Selector/Queue.antt =====
-- localpost/http/_base.py: `_apply_track` and `_drain_ops` keep where the connections stand.
use localpost_py.Prelude.{
  ℕ, ◌+◌, ◌≡◌, refl, Bool, true, false, some, List, [], ◌∷◌, ◌++◌, get_elem?, arith, Bool-cases,
  Option-cases, inl, inr, ◌==◌, if◌then◌else◌,
}
use localpost_py.Http.Selector.{
  Conn, Op, op_track, op_close, op_cleanup, Selector, update, shut, mark_tracked, close_conn,
  apply_track, drain,
}
use localpost_py.Http.Selector.Watched.{Inv, count_in, no_close, count_keys}
use localpost_py.Http.Selector.Kept.{change-Inv, register-Inv}
use localpost_py.Http.Selector.Sweep.{cleanup_stale-Inv}

pub count_in-append :
    (i j : ℕ) (q : List Op)
    → count_in j (q ++ op_track i ∷ []) ≡ count_in j q + (if i == j then 1 else 0)
count_in-append i j [] = ground arith
count_in-append i j (op_track k ∷ q) = ground (arith, count_in-append i j q)
count_in-append i j (op_close fd ∷ q) = count_in-append i j q
count_in-append i j (op_cleanup ∷ q) = count_in-append i j q

pub count_in-cleanup : (j : ℕ) (q : List Op) → count_in j (q ++ op_cleanup ∷ []) ≡ count_in j q
count_in-cleanup j [] = refl
count_in-cleanup j (op_track k ∷ q) = ground (arith, count_in-cleanup j q)
count_in-cleanup j (op_close fd ∷ q) = count_in-cleanup j q
count_in-cleanup j (op_cleanup ∷ q) = count_in-cleanup j q

pub no_close-append :
    (i : ℕ) (q : List Op) → no_close q ≡ true → no_close (q ++ op_track i ∷ []) ≡ true
no_close-append i [] e = refl
no_close-append i (op_track k ∷ q) e = no_close-append i q e
no_close-append i (op_close fd ∷ q) e = e
no_close-append i (op_cleanup ∷ q) e = no_close-append i q e

pub no_close-cleanup : (q : List Op) → no_close q ≡ true → no_close (q ++ op_cleanup ∷ []) ≡ true
no_close-cleanup [] e = refl
no_close-cleanup (op_track k ∷ q) e = no_close-cleanup q e
no_close-cleanup (op_close fd ∷ q) e = e
no_close-cleanup (op_cleanup ∷ q) e = no_close-cleanup q e

-- the same, whatever the other fields hold
pub rebase :
    (q : List Op) (s t : Selector)
    → s.conns ≡ t.conns
    → s.fd_to_key ≡ t.fd_to_key
    → s.shutting_down ≡ t.shutting_down
    → Inv q s
    → Inv q t
rebase q s t e g h inv =
    let moved : Inv q
        (record s { conns = t.conns; fd_to_key = t.fd_to_key; shutting_down = t.shutting_down }) =
      rw (← e, ← g, ← h)
        (record {
          placed = inv.placed;
          live = inv.live;
          distinct = inv.distinct;
          keyed = inv.keyed;
          known = inv.known;
          calm = inv.calm;
          table = inv.table;
          running = inv.running;
        }) in
    record {
      placed = moved.placed;
      live = moved.live;
      distinct = moved.distinct;
      keyed = moved.keyed;
      known = moved.known;
      calm = moved.calm;
      table = moved.table;
      running = moved.running;
    }

-- an untracked connection, or the first of the queue, is closed
pub shut_unqueued :
    (i : ℕ) (q q' : List Op) (s : Selector) (c : Conn)
    → get_elem? s.conns i ≡ some c
    → count_in i q' + count_keys i c s.fd_to_key ≡ 0
    → ((j : ℕ) → i == j ≡ false → count_in j q' ≡ count_in j q)
    → no_close q' ≡ true
    → Inv q s
    → Inv q' (close_conn i s)
shut_unqueued i q q' s c e none_left others calm inv =
    change-Inv i shut (λ c. refl) (λ c o. cc o) q q' s c e none_left
      (λ r. ground (arith, none_left, r)) others calm inv

pub apply_track-Inv :
    (i : ℕ) (q : List Op) (s : Selector) → Inv (op_track i ∷ q) s → Inv q (apply_track i s)
unfolding apply_track
apply_track-Inv i q s inv = elim (Option-cases (get_elem? s.conns i)) [
  | inl e ↦ ground (arith, inv.known i e)
  | inr (c, e) ↦ elim (Bool-cases c.is_open) [
    | inl g ↦ rw (apply_track, e, g) (register-Inv i q s c e g inv)
    | inr g ↦
        rw (apply_track, e, g)
          (shut_unqueued i (op_track i ∷ q) q s c e (ground (arith, inv.placed i c e))
            (λ j h. ground (arith, h)) inv.calm inv)
  ]
]

pub drain-Inv :
    (now : ℕ) (q r : List Op) (due : Bool) (s : Selector)
    → r ≡ []
    → Inv q s
    → Inv r (drain now q due s)
unfolding drain
drain-Inv now [] r due s e inv = elim (Bool-cases due) [
  | inl g ↦ rw (g, e) (cleanup_stale-Inv [] now s inv)
  | inr g ↦ rw (g, e) inv
]
drain-Inv now (op_track i ∷ q) r due s e inv =
    drain-Inv now q r due (apply_track i s) e (apply_track-Inv i q s inv)
drain-Inv now (op_close fd ∷ q) r due s e inv = ground (arith, inv.calm)
drain-Inv now (op_cleanup ∷ q) r due s e inv = drain-Inv now q r true s e (record {
  placed = inv.placed;
  live = inv.live;
  distinct = inv.distinct;
  keyed = inv.keyed;
  known = inv.known;
  calm = inv.calm;
  table = inv.table;
  running = inv.running;
})

pub mark_queued :
    (i : ℕ) (q' : List Op) (s : Selector) (c : Conn)
    → get_elem? s.conns i ≡ some c
    → c.tracked ≡ false
    → ((j : ℕ) → count_in j q' ≡ count_in j s.ops + (if i == j then 1 else 0))
    → no_close q' ≡ true
    → Inv s.ops s
    → Inv q' (record s { conns = update i mark_tracked s.conns })
mark_queued i q' s c e off counts calm inv =
    change-Inv i mark_tracked (λ c. refl) (λ c o. o) s.ops q' s c e
      (ground (arith, inv.placed i c e, off, counts i)) (λ r. inv.live i c e r)
      (λ j g. ground (arith, counts j, g)) calm inv
