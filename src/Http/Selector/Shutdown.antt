-- ===== src/Http/Selector/Shutdown.antt =====
-- localpost/http/_base.py: what `Selector.shutdown` leaves.
use localpost_py.Prelude.{
  ℕ, ◌≡◌, ◌≢◌, refl, sym, ap, ◌∙◌, Bool, true, false, not, ◌||◌, some, List, [], ◌∷◌, get_elem?,
  arith, Bool-cases, inl, inr, ◌==◌, if◌then◌else◌,
}
use localpost_py.Http.Selector.{
  Conn, Callback, drain_wakeup, accept_listener, conn_at, Op, op_track, op_close, op_cleanup,
  Selector, find_key, drop_key, update, shut, close_conn, is_key, Event, run_all, start,
}
use localpost_py.Http.Selector.{close_queued, close_keys, shutdown}
use localpost_py.Http.Selector.Watched.{IsTable, Inv, some_inj, get_elem?-update, count_in}
use localpost_py.Http.Selector.Kept.{is_key-conn_at}
use localpost_py.Http.Selector.Reached.{all_orderly, reached-Inv}

abbrev shut_if : Bool → Conn → Conn
shut_if b c = if b then shut c else c

abbrev key_in : ℕ → List (ℕ × Callback) → Bool
key_in i [] = false
key_in i ((fd, k) ∷ ks) = is_key i (some k) || key_in i ks

shut-twice : (a b : Bool) (c : Conn) → shut_if a (shut_if b c) ≡ shut_if (a || b) c
shut-twice true true c = refl
shut-twice true false c = refl
shut-twice false b c = refl

get_elem?-shut :
    (i j : ℕ) (cs : List Conn) (c : Conn)
    → get_elem? cs j ≡ some c
    → get_elem? (update i shut cs) j ≡ some (shut_if (i == j) c)
get_elem?-shut i j cs c e = ground (arith, e, get_elem?-update i j shut cs)

close_queued-conns :
    (q : List Op) (s : Selector) (j : ℕ) (c : Conn)
    → get_elem? s.conns j ≡ some c
    → get_elem? (close_queued q s).conns j ≡ some (shut_if (not (count_in j q == 0)) c)
unfolding close_queued
close_queued-conns [] s j c e = e
close_queued-conns (op_track i ∷ q) s j c e =
    close_queued-conns q (close_conn i s) j (shut_if (i == j) c) (get_elem?-shut i j s.conns c e)
    ∙ ap some
        (shut-twice (not (count_in j q == 0)) (i == j) c ∙ ap (λ b. shut_if b c) (ground arith))
close_queued-conns (op_close fd ∷ q) s j c e = close_queued-conns q s j c e
close_queued-conns (op_cleanup ∷ q) s j c e = close_queued-conns q s j c e

close_queued-rest :
    (q : List Op) (s : Selector)
    → ((close_queued q s).fd_to_key ≡ s.fd_to_key)
      × ((close_queued q s).ops ≡ s.ops)
      × ((close_queued q s).shutting_down ≡ s.shutting_down)
unfolding close_queued
close_queued-rest [] s = (refl, refl, refl)
close_queued-rest (op_track i ∷ q) s = close_queued-rest q (close_conn i s)
close_queued-rest (op_close fd ∷ q) s = close_queued-rest q s
close_queued-rest (op_cleanup ∷ q) s = close_queued-rest q s

close_keys-conns :
    (ks : List (ℕ × Callback)) (s : Selector) (j : ℕ) (c : Conn)
    → get_elem? s.conns j ≡ some c
    → get_elem? (close_keys ks s).conns j ≡ some (shut_if (key_in j ks) c)
unfolding close_keys
close_keys-conns [] s j c e = e
close_keys-conns ((fd, conn_at i) ∷ ks) s j c e =
    close_keys-conns ks
      (record s { conns = update i shut s.conns; fd_to_key = drop_key fd s.fd_to_key }) j
      (shut_if (i == j) c) (get_elem?-shut i j s.conns c e)
    ∙ ap some (shut-twice (key_in j ks) (i == j) c ∙ ap (λ b. shut_if b c) (ground arith))
close_keys-conns ((fd, drain_wakeup) ∷ ks) s j c e = close_keys-conns ks s j c e
close_keys-conns ((fd, accept_listener) ∷ ks) s j c e = close_keys-conns ks s j c e

close_keys-rest :
    (ks : List (ℕ × Callback)) (s : Selector)
    → ((close_keys ks s).ops ≡ s.ops) × ((close_keys ks s).shutting_down ≡ s.shutting_down)
unfolding close_keys
close_keys-rest [] s = (refl, refl)
close_keys-rest ((fd, conn_at i) ∷ ks) s =
    close_keys-rest ks
      (record s { conns = update i shut s.conns; fd_to_key = drop_key fd s.fd_to_key })
close_keys-rest ((fd, drain_wakeup) ∷ ks) s = close_keys-rest ks s
close_keys-rest ((fd, accept_listener) ∷ ks) s = close_keys-rest ks s

key_in-found :
    (i : ℕ) (ks : List (ℕ × Callback))
    → key_in i ks ≡ true
    → IsTable ks
    → (fd : ℕ) × (find_key fd ks ≡ some (conn_at i))
key_in-found i [] e t = cc e
key_in-found i ((f, k) ∷ ks) e (new, t) = elim (Bool-cases (is_key i (some k))) [
  | inl g ↦ (f, ground arith ∙ is_key-conn_at i (some k) g)
  | inr g ↦ let (fd, h) = key_in-found i ks (ground (arith, e, g)) t in (fd, ground (arith, h, new))
]

key_in-find :
    (i fd : ℕ) (ks : List (ℕ × Callback)) → is_key i (find_key fd ks) ≡ true → key_in i ks ≡ true
key_in-find i fd [] e = cc e
key_in-find i fd ((f, k) ∷ ks) e = elim (Bool-cases (f == fd)) [
  | inl g ↦ ground (arith, e, g)
  | inr g ↦ ground (arith, key_in-find i fd ks (ground (arith, e, g)))
]

-- a connection is called by some descriptor exactly if its own calls it
key_in-own :
    (q : List Op) (s : Selector) (i : ℕ) (c : Conn)
    → Inv q s
    → get_elem? s.conns i ≡ some c
    → key_in i s.fd_to_key ≡ is_key i (find_key c.fd s.fd_to_key)
key_in-own q s i c inv e = elim (Bool-cases (key_in i s.fd_to_key)) [
  | inl g ↦
      let (fd, h) = key_in-found i s.fd_to_key g inv.table in
      let (d, k, same) = inv.keyed fd i h in
      g
      ∙ sym (
          ap (λ n. is_key i (find_key n s.fd_to_key))
            (ap (λ x. x.fd) (some_inj c d (sym e ∙ k)) ∙ same)
          ∙ ap (is_key i) h
          ∙ ground arith)
  | inr g ↦ ground (arith, g, key_in-find i c.fd s.fd_to_key)
]

-- After any events in which no worker closes a connection that it already gave back, `shutdown`
-- closes every connection that is tracked, whether it is registered or waits in the queue, touches no
-- other, and leaves the queue empty and the selector shutting down.
pub shutdown_closes_tracked :
    (wakeup_r listener : ℕ) (es : List Event)
    → wakeup_r ≢ listener
    → all_orderly es ≡ true
    → (i : ℕ) (c : Conn) → get_elem? (run_all (start wakeup_r listener) es).conns i ≡ some c
    → (get_elem? (shutdown wakeup_r (run_all (start wakeup_r listener) es)).conns i
        ≡ some (if c.tracked then shut c else c))
      × ((shutdown wakeup_r (run_all (start wakeup_r listener) es)).ops ≡ [])
      × ((shutdown wakeup_r (run_all (start wakeup_r listener) es)).shutting_down ≡ true)
unfolding shutdown
shutdown_closes_tracked wakeup_r listener es apart o i c e =
    let s = run_all (start wakeup_r listener) es in
    let inv = reached-Inv wakeup_r listener es apart o in
    let begun : Selector = record s { shutting_down = true; ops = [] } in
    let drained = close_queued s.ops begun in
    let (keys, ops, down) = close_queued-rest s.ops begun in
    let (ops', down') = close_keys-rest drained.fd_to_key drained in
    let first = close_queued-conns s.ops begun i c e in
    let second =
      close_keys-conns drained.fd_to_key drained i (shut_if (not (count_in i s.ops == 0)) c)
        first in
    let both = ap (λ ks. key_in i ks) keys ∙ key_in-own s.ops s i c inv e in
    (
      second
          ∙ ap some (
              shut-twice (key_in i drained.fd_to_key) (not (count_in i s.ops == 0)) c
              ∙ ap (λ b. shut_if b c) (ground (arith, both, inv.placed i c e))),
      ops' ∙ ops,
      down' ∙ down,
    )
