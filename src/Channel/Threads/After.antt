-- ===== src/Channel/Threads/After.antt =====
-- localpost/threadtools/_channel.py: each step of a thread keeps the invariant.
use localpost_py.Prelude.{
  ℕ, ◌≡◌, sym, ap, ◌∙◌, Bool, true, false, Option, some, List, [], get_elem?, All-set,
  All-get_elem?, if◌then◌else◌, Bool-cases, inl, inr,
}
use localpost_py.Channel.{
  Channel, Result, ok, err, Pass, raised, blocked, passed, is_rendezvous, deadline, expired,
}
use localpost_py.Channel.Flow.{
  Flow, EnterFlow, AwaitFlow, GetFlow, PutNowaitFlow, GetNowaitFlow, leave-Flow, clone_send-Flow,
  clone_receive-Flow, close_send-Flow, close_receive-Flow, stop_waiting-Flow, put_await-Flow,
  put_enter-Flow, put_nowait-Flow, get-Flow, get_nowait-Flow,
}
use localpost_py.Channel.Threads.Cases.{run_all_keeps}
use localpost_py.Channel.Threads.{
  System, Thread, Event, Call, begin, advance, step, run_all, expire, puts, gets, puts_nowait,
  gets_nowait, clones_send, clones_receive, closes_send, closes_receive, closed_at, idle, done,
  entering, wait_entering, awaiting, wait_awaiting, getting, wait_getting, to_thread, after_enter,
  after_await, after_get, after_put_nowait, after_get_nowait, after_clone_send, after_clone_receive,
  after_deadline, failed,
}
use localpost_py.Channel.Threads.Invariant.{
  Inv, HasTarget, IsNumber, stayed-Inv, put-Inv, got-Inv, next-IsNumber, consumed-IsNumber,
}

module _ {A : Type 0} (s : System A) (t : ℕ) (v : Inv s) where
  to_thread-Inv :
      (new : Thread A) → HasTarget s.channel.capacity s.sent s.taken new → Inv (to_thread t new s)
  unfolding to_thread
  to_thread-Inv new g = record {
    sound = v.sound;
    history = v.history;
    counted = v.counted;
    targets = All-set _ s.threads t new v.targets g;
  }

  after_enter-Inv :
      (tx : ℕ) (item : A) (d : Option ℕ) (r : Pass ℕ × Channel A)
      → EnterFlow item s.channel r
      → Inv (after_enter t tx item d r s)
  unfolding after_enter
  after_enter-Inv tx item d (raised x, c) f = stayed-Inv s c t _ _ _ f tt v
  after_enter-Inv tx item d (blocked, c) f = stayed-Inv s c t _ _ _ f tt v
  after_enter-Inv tx item d (passed target, c) (f, g) =
      elim (Bool-cases (is_rendezvous c.capacity)) [
        | inl r ↦
            let q = sym (ap is_rendezvous f.capacity) ∙ r in
            rw r (put-Inv s c t _ item f (q, next-IsNumber s item target v q (g q)) v)
        | inr r ↦ rw r (put-Inv s c t _ item f tt v)
      ]

  after_await-Inv :
      (tx : ℕ) (item : A) (target : ℕ) (d : Option ℕ) (r : Pass Bool × Channel A)
      → (is_rendezvous s.channel.capacity ≡ true) × IsNumber target item s.sent
      → AwaitFlow target s.channel r
      → Inv (after_await t tx item target d r s)
  unfolding after_await
  after_await-Inv tx item target d (raised x, c) (q, n) f = stayed-Inv s c t _ _ _ f tt v
  after_await-Inv tx item target d (blocked, c) (q, n) f = stayed-Inv s c t _ _ _ f (q, n) v
  after_await-Inv tx item target d (passed true, c) (q, n) (f, le) =
      stayed-Inv s c t _ _ _ f (consumed-IsNumber s item target v q le n) v
  after_await-Inv tx item target d (passed false, c) (q, n) f = stayed-Inv s c t _ _ _ f tt v

  after_get-Inv :
      (rx : ℕ) (d : Option ℕ) (r : Pass A × Channel A)
      → GetFlow s.channel r
      → Inv (after_get t rx d r s)
  unfolding after_get
  after_get-Inv rx d (raised x, c) f = stayed-Inv s c t _ _ _ f tt v
  after_get-Inv rx d (blocked, c) f = stayed-Inv s c t _ _ _ f tt v
  after_get-Inv rx d (passed a, c) f = got-Inv s c t _ a f tt v

  after_put_nowait-Inv :
      (item : A) (r : Result (Unit {0}) × Channel A)
      → PutNowaitFlow item s.channel r
      → Inv (after_put_nowait t item r s)
  unfolding after_put_nowait
  after_put_nowait-Inv item (ok u, c) f = put-Inv s c t _ item f tt v
  after_put_nowait-Inv item (err e, c) f = stayed-Inv s c t _ _ _ f tt v

  after_get_nowait-Inv :
      (r : Result A × Channel A) → GetNowaitFlow s.channel r → Inv (after_get_nowait t r s)
  unfolding after_get_nowait
  after_get_nowait-Inv (ok a, c) f = got-Inv s c t _ a f tt v
  after_get_nowait-Inv (err e, c) f = stayed-Inv s c t _ _ _ f tt v

  after_clone_send-Inv :
      (r : Result (Unit {0}) × Channel A) → Flow s.channel r.1 [] [] → Inv (after_clone_send t r s)
  unfolding after_clone_send
  after_clone_send-Inv (ok u, c) f = stayed-Inv s c t _ _ _ f tt v
  after_clone_send-Inv (err e, c) f = stayed-Inv s c t _ _ _ f tt v

  after_clone_receive-Inv :
      (r : Result (Unit {0}) × Channel A)
      → Flow s.channel r.1 [] []
      → Inv (after_clone_receive t r s)
  unfolding after_clone_receive
  after_clone_receive-Inv (ok u, c) f = stayed-Inv s c t _ _ _ f tt v
  after_clone_receive-Inv (err e, c) f = stayed-Inv s c t _ _ _ f tt v

  -- `_deadline` does not touch the channel
  after_deadline-Inv :
      (th : Option ℕ → Thread A) (r : Result (Option ℕ))
      → ((d : Option ℕ) → HasTarget s.channel.capacity s.sent s.taken (th d))
      → Inv (after_deadline t th r s)
  unfolding after_deadline
  after_deadline-Inv th (ok d) g = to_thread-Inv (th d) (g d)
  after_deadline-Inv th (err e) g = to_thread-Inv (done (failed e)) tt

module _ {A : Type 0} (notify : List ℕ → List ℕ) where
  begin-Inv : (s : System A) (t now : ℕ) (call : Call A) → Inv s → Inv (begin notify t call now s)
  unfolding begin to_thread
  begin-Inv s t now (puts tx item timeout) v =
      after_deadline-Inv s t v _ (deadline timeout now) (λ d. tt)
  begin-Inv s t now (gets rx timeout) v =
      after_deadline-Inv s t v _ (deadline timeout now) (λ d. tt)
  begin-Inv s t now (puts_nowait tx item) v =
      after_put_nowait-Inv s t v item _
        (put_nowait-Flow notify (closed_at s.senders tx) item s.channel)
  begin-Inv s t now (gets_nowait rx) v =
      after_get_nowait-Inv s t v _ (get_nowait-Flow notify (closed_at s.receivers rx) s.channel)
  begin-Inv s t now (clones_send tx) v =
      after_clone_send-Inv s t v _ (clone_send-Flow (closed_at s.senders tx) s.channel)
  begin-Inv s t now (clones_receive rx) v =
      after_clone_receive-Inv s t v _ (clone_receive-Flow (closed_at s.receivers rx) s.channel)
  begin-Inv s t now (closes_send tx) v =
      stayed-Inv s _ t _ _ _ (close_send-Flow (closed_at s.senders tx) s.channel) tt v
  begin-Inv s t now (closes_receive rx) v =
      stayed-Inv s _ t _ _ _ (close_receive-Flow (closed_at s.receivers rx) s.channel) tt v

  -- a wait that is over; it goes on at `new`
  woken-Inv :
      (s : System A) (t : ℕ) (new : Thread A) (held : Bool) (c : Channel A)
      → Flow s.channel c [] []
      → HasTarget s.channel.capacity s.sent s.taken new
      → Inv s
      → Inv (if held then s else to_thread t new (record s { channel = c }))
  unfolding to_thread
  woken-Inv s t new true c f g v = v
  woken-Inv s t new false c f g v = stayed-Inv s c t new _ _ f g v

  advance-Inv :
      (s : System A) (t now : ℕ) (th : Thread A)
      → get_elem? s.threads t ≡ some th
      → Inv s
      → Inv (advance notify t now th s)
  unfolding advance
  advance-Inv s t now idle e v = v
  advance-Inv s t now (done r) e v = v
  advance-Inv s t now (entering tx item d) e v =
      after_enter-Inv s t v tx item d _
        (put_enter-Flow notify (closed_at s.senders tx) (expired d now) item t s.channel)
  advance-Inv s t now (wait_entering tx item d) e v =
      woken-Inv s t _ _ _ (leave-Flow s.channel) tt v
  advance-Inv s t now (awaiting tx item target d) e v =
      after_await-Inv s t v tx item target d _ (All-get_elem? _ s.threads t v.targets e)
        (put_await-Flow (closed_at s.senders tx) (expired d now) target t s.channel)
  advance-Inv s t now (wait_awaiting tx item target d) e v =
      woken-Inv s t _ _ _ (leave-Flow s.channel) (All-get_elem? _ s.threads t v.targets e) v
  advance-Inv s t now (getting rx d) e v =
      after_get-Inv s t v rx d _
        (get-Flow notify (closed_at s.receivers rx) (expired d now) t s.channel)
  advance-Inv s t now (wait_getting rx d) e v =
      woken-Inv s t _ _ _ (stop_waiting-Flow s.channel) tt v

  expire-Inv : (s : System A) (t : ℕ) → Inv s → Inv (step notify s (expire t))
  unfolding step
  expire-Inv s t v = record {
    sound = record {
      handoffs = v.sound.handoffs;
      no_handoffs = v.sound.no_handoffs;
      within = v.sound.within;
    };
    history = v.history;
    counted = v.counted;
    targets = v.targets;
  }

  pub run_all-Inv : (s : System A) (evs : List (Event A)) → Inv s → Inv (run_all notify s evs)
  run_all-Inv =
      run_all_keeps notify Inv (λ s t now call th e m v. begin-Inv s t now call v) advance-Inv
        expire-Inv
