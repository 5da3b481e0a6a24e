-- ===== src/Channel/Threads.antt =====
-- localpost/threadtools/_channel.py: any number of threads on one channel. A step is one critical
-- section of one thread, and an event says whose, so a list of events is an interleaving.
pub mod Cases
pub mod Counts
pub mod Invariant
pub mod After
pub mod Safety
mod Tests
use localpost_py.Prelude.{
  ℕ, zero, suc, ℤ, Bool, true, false, ◌||◌, Option, none, some, List, [], ◌∷◌, ◌++◌, get_elem?, set,
  ◌==◌, if◌then◌else◌,
}
use localpost_py.Channel.{
  Error, Result, ok, err, Channel, Pass, raised, blocked, passed, deadline, expired, is_rendezvous,
  leave, clone_send, clone_receive, close_send, close_receive, stop_waiting, put_await, put_nowait,
  put_enter, get_nowait, get,
}

-- What the last call of a thread came to. `consumed` and `abandoned` both stand for the `None` that
-- a blocking `put` in rendezvous mode returns, by which of its two tests; `target` is its `my_target`.
pub data Reply {ℓ} (A : Type ℓ) : Type ℓ where
  failed : Error → Reply A
  returned : Reply A
  received : A → Reply A
  consumed : A → ℕ → Reply A
  abandoned : A → ℕ → Reply A

-- Where a thread stands. `entering`, `awaiting` and `getting` are about to take the lock; the
-- `wait_…` ones are inside `Condition.wait`. The first number is the end of the channel in use.
pub data Thread {ℓ} (A : Type ℓ) : Type ℓ where
  idle : Thread A
  entering wait_entering : ℕ → A → Option ℕ → Thread A
  awaiting wait_awaiting : ℕ → A → ℕ → Option ℕ → Thread A
  getting wait_getting : ℕ → Option ℕ → Thread A
  done : Reply A → Thread A

pub data Call {ℓ} (A : Type ℓ) : Type ℓ where
  puts : ℕ → A → Option ℤ → Call A
  gets : ℕ → Option ℤ → Call A
  puts_nowait : ℕ → A → Call A
  gets_nowait : ℕ → Call A
  clones_send clones_receive closes_send closes_receive : ℕ → Call A

-- `start t call now` and `run t now` are steps of thread `t`; `expire t` ends its wait with no
-- notification, by its timeout or for no reason at all.
pub data Event {ℓ} (A : Type ℓ) : Type ℓ where
  start : ℕ → Call A → ℕ → Event A
  run : ℕ → ℕ → Event A
  expire : ℕ → Event A

-- `senders` and `receivers` hold `_closed` of each end that there is; `sent` and `taken` are the
-- items that went into the buffer and came out of it since the start.
pub record System {ℓ} (A : Type ℓ) : Type ℓ where
  pub channel : Channel A
  pub senders : List Bool
  pub receivers : List Bool
  pub threads : List (Thread A)
  pub sent : List A
  pub taken : List A

abbrev pub mem : ℕ → List ℕ → Bool
mem t [] = false
mem t (u ∷ us) = t == u || mem t us

abbrev pub drop_thread : ℕ → List ℕ → List ℕ
drop_thread t [] = []
drop_thread t (u ∷ us) = if t == u then us else u ∷ drop_thread t us

-- `_closed` of an end; one that does not exist cannot be used, and counts as closed
abbrev closed_at : List Bool → ℕ → Bool
closed_at ends i = elim (get_elem? ends i) [ none ↦ true | some b ↦ b ]

module _ {ℓ} {A : Type ℓ} where
  to_thread : ℕ → Thread A → System A → System A
  to_thread t th s = record s { threads = set s.threads t th }

  unit_reply : Result (Unit {0}) → Reply A
  unit_reply (ok _) = Reply.returned
  unit_reply (err e) = failed e

  after_put_nowait : ℕ → A → Result (Unit {0}) × Channel A → System A → System A
  unfolding to_thread unit_reply
  after_put_nowait t item (ok u, c) s =
      to_thread t (done Reply.returned) (record s { channel = c; sent = s.sent ++ item ∷ [] })
  after_put_nowait t item (err e, c) s = to_thread t (done (failed e)) (record s { channel = c })

  after_enter : ℕ → ℕ → A → Option ℕ → Pass ℕ × Channel A → System A → System A
  unfolding to_thread is_rendezvous
  after_enter t tx item d (raised e, c) s = to_thread t (done (failed e)) (record s { channel = c })
  after_enter t tx item d (blocked, c) s =
      to_thread t (wait_entering tx item d) (record s { channel = c })
  after_enter t tx item d (passed target, c) s =
      to_thread t
        (if is_rendezvous c.capacity then awaiting tx item target d else done Reply.returned)
        (record s { channel = c; sent = s.sent ++ item ∷ [] })

  after_await : ℕ → ℕ → A → ℕ → Option ℕ → Pass Bool × Channel A → System A → System A
  unfolding to_thread
  after_await t tx item target d (raised e, c) s =
      to_thread t (done (failed e)) (record s { channel = c })
  after_await t tx item target d (blocked, c) s =
      to_thread t (wait_awaiting tx item target d) (record s { channel = c })
  after_await t tx item target d (passed true, c) s =
      to_thread t (done (consumed item target)) (record s { channel = c })
  after_await t tx item target d (passed false, c) s =
      to_thread t (done (abandoned item target)) (record s { channel = c })

  after_get : ℕ → ℕ → Option ℕ → Pass A × Channel A → System A → System A
  unfolding to_thread
  after_get t rx d (raised e, c) s = to_thread t (done (failed e)) (record s { channel = c })
  after_get t rx d (blocked, c) s = to_thread t (wait_getting rx d) (record s { channel = c })
  after_get t rx d (passed item, c) s =
      to_thread t (done (received item)) (record s { channel = c; taken = s.taken ++ item ∷ [] })

  after_get_nowait : ℕ → Result A × Channel A → System A → System A
  unfolding to_thread
  after_get_nowait t (ok item, c) s =
      to_thread t (done (received item)) (record s { channel = c; taken = s.taken ++ item ∷ [] })
  after_get_nowait t (err e, c) s = to_thread t (done (failed e)) (record s { channel = c })

  -- a clone is a new open end
  after_clone_send : ℕ → Result (Unit {0}) × Channel A → System A → System A
  unfolding to_thread
  after_clone_send t (ok u, c) s =
      to_thread t (done Reply.returned)
        (record s { channel = c; senders = s.senders ++ false ∷ [] })
  after_clone_send t (err e, c) s = to_thread t (done (failed e)) (record s { channel = c })

  after_clone_receive : ℕ → Result (Unit {0}) × Channel A → System A → System A
  unfolding to_thread
  after_clone_receive t (ok u, c) s =
      to_thread t (done Reply.returned)
        (record s { channel = c; receivers = s.receivers ++ false ∷ [] })
  after_clone_receive t (err e, c) s = to_thread t (done (failed e)) (record s { channel = c })

  -- `_deadline` runs before the loop
  after_deadline : ℕ → (Option ℕ → Thread A) → Result (Option ℕ) → System A → System A
  unfolding to_thread
  after_deadline t th (ok d) s = to_thread t (th d) s
  after_deadline t th (err e) s = to_thread t (done (failed e)) s

abbrev pub idles {ℓ} : {A : Type ℓ} → ℕ → List (Thread A)
idles zero = []
idles (suc n) = idle ∷ idles n

-- What `Channel.create` returns, with one end of each kind and `n` threads to use them.
pub opened {ℓ} : {A : Type ℓ} → Channel A → ℕ → System A
opened c n = record {
  channel = c;
  senders = false ∷ [];
  receivers = false ∷ [];
  threads = idles n;
  sent = [];
  taken = [];
}

-- a thread makes a call only when its last one has returned
abbrev pub may_start {ℓ} : {A : Type ℓ} → Thread A → Bool
may_start idle = true
may_start (done r) = true
may_start _ = false

module _ {ℓ} {A : Type ℓ} (notify : List ℕ → List ℕ) where
  pub begin : ℕ → Call A → ℕ → System A → System A
  unfolding after_deadline after_put_nowait after_get_nowait after_clone_send after_clone_receive
      to_thread
  begin t (puts tx item timeout) now s =
      after_deadline t (λ d. entering tx item d) (deadline timeout now) s
  begin t (gets rx timeout) now s = after_deadline t (λ d. getting rx d) (deadline timeout now) s
  begin t (puts_nowait tx item) now s =
      after_put_nowait t item (put_nowait notify (closed_at s.senders tx) item s.channel) s
  begin t (gets_nowait rx) now s =
      after_get_nowait t (get_nowait notify (closed_at s.receivers rx) s.channel) s
  begin t (clones_send tx) now s =
      after_clone_send t (clone_send (closed_at s.senders tx) s.channel) s
  begin t (clones_receive rx) now s =
      after_clone_receive t (clone_receive (closed_at s.receivers rx) s.channel) s
  begin t (closes_send tx) now s = to_thread t (done Reply.returned) (record s {
    channel = close_send (closed_at s.senders tx) s.channel;
    senders = set s.senders tx true;
  })
  begin t (closes_receive rx) now s = to_thread t (done Reply.returned) (record s {
    channel = close_receive (closed_at s.receivers rx) s.channel;
    receivers = set s.receivers rx true;
  })

  -- The next critical section of a thread that is in a call. One that waits goes on if no
  -- condition holds it any more.
  pub advance : ℕ → ℕ → Thread A → System A → System A
  unfolding after_enter after_await after_get to_thread
  advance t now idle s = s
  advance t now (done r) s = s
  advance t now (entering tx item d) s =
      after_enter t tx item d
        (put_enter notify (closed_at s.senders tx) (expired d now) item t s.channel) s
  advance t now (wait_entering tx item d) s =
      if mem t s.channel.not_full
      then s
      else to_thread t (entering tx item d) (record s { channel = leave s.channel })
  advance t now (awaiting tx item target d) s =
      after_await t tx item target d
        (put_await (closed_at s.senders tx) (expired d now) target t s.channel) s
  advance t now (wait_awaiting tx item target d) s =
      if mem t s.channel.not_full
      then s
      else to_thread t (awaiting tx item target d) (record s { channel = leave s.channel })
  advance t now (getting rx d) s =
      after_get t rx d (get notify (closed_at s.receivers rx) (expired d now) t s.channel) s
  advance t now (wait_getting rx d) s =
      if mem t s.channel.not_empty
      then s
      else to_thread t (getting rx d) (record s { channel = stop_waiting s.channel })

  pub step : System A → Event A → System A
  unfolding begin advance
  step s (start t call now) = elim (get_elem? s.threads t) [
    | none ↦ s
    | some th ↦ if may_start th then begin t call now s else s
  ]
  step s (run t now) = elim (get_elem? s.threads t) [ none ↦ s | some th ↦ advance t now th s ]
  step s (expire t) = record s {
    channel = record s.channel {
      not_empty = drop_thread t s.channel.not_empty;
      not_full = drop_thread t s.channel.not_full;
    };
  }

  pub run_all : System A → List (Event A) → System A
  run_all s [] = s
  run_all s (e ∷ es) = run_all (step s e) es
