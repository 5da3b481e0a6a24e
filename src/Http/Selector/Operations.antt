-- ===== src/Http/Selector/Operations.antt =====
-- localpost/http/_base.py: every operation of the selector keeps where the connections stand.
use localpost_py.Prelude.{
  ℕ, zero, suc, ◌≡◌, ◌⊎◌, refl, sym, ap, ◌∙◌, subst, Bool, true, false, none, some, List, [], ◌∷◌,
  ◌++◌, get_elem?, arith, Bool-cases, Option-cases, inl, inr, if◌then◌else◌,
}
use localpost_py.Http.Selector.{
  Conn, Op, op_track, op_close, op_cleanup, Selector, drop_key, update, shut, untrack, mark_tracked,
  close_conn, apply_track, track, stop_tracking, post_track, close, sweep_conn, find_stale, sweep,
  cleanup_stale, drain, drain_ops, is_registered, is_used, is_tracked, add_conn,
}
use localpost_py.Http.Selector.Watched.{release-Inv, Inv}
use localpost_py.Http.Selector.Kept.{add_conn-Inv}
use localpost_py.Http.Selector.Kept.{add_conn-Inv}
use localpost_py.Http.Selector.Queue.{
  count_in-append, no_close-append, rebase, shut_unqueued, apply_track-Inv, drain-Inv, mark_queued,
}

abbrev pub Good : Selector → Type 0
Good s = Inv s.ops s

apply_track-ops : (i : ℕ) (s : Selector) → (apply_track i s).ops ≡ s.ops
unfolding apply_track
apply_track-ops i s = elim (Option-cases (get_elem? s.conns i)) [
  | inl e ↦ rw (apply_track, e) refl
  | inr (c, e) ↦ elim (Bool-cases c.is_open) [
    | inl g ↦ rw (apply_track, e, g) refl
    | inr g ↦ rw (apply_track, e, g) refl
  ]
]

pub update-out :
    (i : ℕ) (f : Conn → Conn) (cs : List Conn) → get_elem? cs i ≡ none → update i f cs ≡ cs
update-out i f [] e = refl
update-out zero f (c ∷ cs) e = cc e
update-out (suc i) f (c ∷ cs) e = ap (λ ds. c ∷ ds) (update-out i f cs e)

close_conn-Good :
    (i : ℕ) (s : Selector) (c : Conn)
    → get_elem? s.conns i ≡ some c
    → c.tracked ≡ false
    → Good s
    → Good (close_conn i s)
close_conn-Good i s c e off inv = rebase s.ops (close_conn i s) (close_conn i s) refl refl refl (
    shut_unqueued i s.ops s.ops s c e (ground (arith, inv.placed i c e, off)) (λ j g. refl) inv.calm
      inv)

-- a connection that is not tracked is queued
queue-Good :
    (i : ℕ) (s : Selector) (c : Conn)
    → get_elem? s.conns i ≡ some c
    → c.tracked ≡ false
    → Good s
    → Good (record s { conns = update i mark_tracked s.conns; ops = s.ops ++ op_track i ∷ [] })
queue-Good i s c e off inv =
    rebase (s.ops ++ op_track i ∷ []) (record s { conns = update i mark_tracked s.conns })
      (record s { conns = update i mark_tracked s.conns; ops = s.ops ++ op_track i ∷ [] }) refl refl
      refl
      (mark_queued i (s.ops ++ op_track i ∷ []) s c e off (λ j. count_in-append i j s.ops)
        (no_close-append i s.ops inv.calm) inv)

track-tracked :
    (here : Bool) (i : ℕ) (s : Selector) (c : Conn)
    → get_elem? s.conns i ≡ some c
    → s.shutting_down ≡ false
    → c.tracked ≡ true
    → track here i s ≡ s
unfolding track
track-tracked here i s c e g h = ground (arith, e, g, h)

track-untracked :
    (here : Bool) (i : ℕ) (s : Selector) (c : Conn)
    → get_elem? s.conns i ≡ some c
    → s.shutting_down ≡ false
    → c.tracked ≡ false
    → track here i s ≡ (
        if here
        then apply_track i (record s { conns = update i mark_tracked s.conns })
        else record s { conns = update i mark_tracked s.conns; ops = s.ops ++ op_track i ∷ [] })
unfolding track
track-untracked here i s c e g h = ground (arith, e, g, h)

pub track-Good : (here : Bool) (i : ℕ) (s : Selector) → Good s → Good (track here i s)
unfolding track
track-Good here i s inv = elim (Option-cases (get_elem? s.conns i)) [
  | inl e ↦ rw (track, e) inv
  | inr (c, e) ↦ elim (Bool-cases c.tracked) [
    | inl g ↦ subst Good (sym (track-tracked here i s c e inv.running g)) inv
    | inr g ↦
        let marked : Selector = record s { conns = update i mark_tracked s.conns } in
        subst Good (sym (track-untracked here i s c e inv.running g)) (elim (Bool-cases here) [
          | inr h ↦ rw h (queue-Good i s c e g inv)
          | inl h ↦ rw h (
              subst (λ q. Inv q (apply_track i marked)) (sym (apply_track-ops i marked))
                (apply_track-Inv i s.ops marked
                  (mark_queued i (op_track i ∷ s.ops) s c e g (λ j. ground arith) inv.calm inv)))
        ])
  ]
]

release-Good :
    (f : Conn → Conn)
    → ((c : Conn) → (f c).fd ≡ c.fd)
    → ((c : Conn) → (f c).is_open ≡ true → c.is_open ≡ true)
    → ((c : Conn) → (f c).tracked ≡ false)
    → (i : ℕ) (s : Selector) (c : Conn) → get_elem? s.conns i ≡ some c
    → is_registered i s ≡ true
    → Good s
    → Good (record s { conns = update i f s.conns; fd_to_key = drop_key c.fd s.fd_to_key })
release-Good f same shrinks off i s c e r inv =
    release-Inv i f same shrinks s.ops s c off e (ground (arith, r, e)) inv

pub stop_tracking-Good :
    (i : ℕ) (s : Selector) → is_registered i s ≡ true → Good s → Good (stop_tracking i s)
unfolding stop_tracking
stop_tracking-Good i s r inv = elim (Option-cases (get_elem? s.conns i)) [
  | inl e ↦ rw (stop_tracking, e) inv
  | inr (c, e) ↦
      rw (stop_tracking, e) (release-Good untrack (λ c. refl) (λ c o. o) (λ c. refl) i s c e r inv)
]

pub close-Good :
    (here : Bool) (i : ℕ) (s : Selector)
    → is_tracked i s ≡ false ⊎ (here ≡ true) × (is_registered i s ≡ true)
    → Good s
    → Good (close here i s)
unfolding close
close-Good here i s may inv = elim (Option-cases (get_elem? s.conns i)) [
  | inl e ↦ rw (close, e) inv
  | inr (c, e) ↦ elim (Bool-cases c.tracked) [
    | inr g ↦ rw (close, e, g) (close_conn-Good i s c e g inv)
    | inl g ↦ elim may [
      | inl off ↦ ground (arith, off, e, g)
      | inr (h, r) ↦
          rw (close, e, g, h)
            (release-Good shut (λ c. refl) (λ c o. cc o) (λ c. refl) i s c e r inv)
    ]
  ]
]

pub accept-Good :
    (fd : ℕ) (s : Selector) → is_used fd s.conns ≡ false → Good s → Good (add_conn fd s)
accept-Good fd s u inv = add_conn-Inv s.ops s fd u inv

pub post_track-Good :
    (i : ℕ) (s : Selector) (c : Conn)
    → get_elem? s.conns i ≡ some c
    → c.tracked ≡ false
    → Good s
    → Good (post_track i s)
unfolding post_track
post_track-Good i s c e g inv =
    let queued : post_track i s
        ≡ record s { conns = update i mark_tracked s.conns; ops = s.ops ++ op_track i ∷ [] } =
      ground (arith, inv.running) in
    subst Good (sym queued) (queue-Good i s c e g inv)

sweep-ops : (is : List ℕ) (s : Selector) → (sweep is s).ops ≡ s.ops
unfolding sweep sweep_conn
sweep-ops [] s = refl
sweep-ops (i ∷ is) s = sweep-ops is (sweep_conn i s) ∙ elim (Option-cases (get_elem? s.conns i)) [
  | inl e ↦ rw (sweep_conn, e) refl
  | inr (c, e) ↦ rw (sweep_conn, e) refl
]

drain-ops : (now : ℕ) (q : List Op) (due : Bool) (s : Selector) → (drain now q due s).ops ≡ s.ops
unfolding drain cleanup_stale
drain-ops now [] due s = elim (Bool-cases due) [
  | inl g ↦ rw g (sweep-ops (find_stale now s.conns s.fd_to_key) s)
  | inr g ↦ rw g refl
]
drain-ops now (op_track i ∷ q) due s = drain-ops now q due (apply_track i s) ∙ apply_track-ops i s
drain-ops now (op_close fd ∷ q) due s =
    drain-ops now q due (record s { fd_to_key = drop_key fd s.fd_to_key })
drain-ops now (op_cleanup ∷ q) due s = drain-ops now q true s

pub drain_ops-Good : (now : ℕ) (s : Selector) → Good s → Good (drain_ops now s)
unfolding drain_ops
drain_ops-Good now s inv =
    subst (λ q. Inv q (drain_ops now s)) (sym (drain-ops now s.ops false (record s { ops = [] })))
      (drain-Inv now s.ops [] false (record s { ops = [] }) refl
        (rebase s.ops s (record s { ops = [] }) refl refl refl inv))
