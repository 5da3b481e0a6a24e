-- ===== src/Channel/Threads/Counts.antt =====
-- localpost/threadtools/_channel.py: the counters of the shared state are true.
use localpost_py.Prelude.{
  ℕ, zero, suc, ◌≡◌, refl, ◌+◌, Bool, true, false, not, Option, some, List, [], ◌∷◌, arith,
  get_elem?, set, count_if, count_if-append, if◌then◌else◌,
}
use localpost_py.Channel.{
  Channel, leave, clone_send, clone_receive, close_send, close_receive, stop_waiting, put_await,
  put_nowait, put_enter, get_nowait, get, deadline, can_put, take, expired, Pass, raised, blocked,
  passed,
}
use localpost_py.Channel.Threads.Cases.{run_all_keeps}
use localpost_py.Channel.Threads.{
  System, Thread, Event, Call, begin, advance, step, run_all, expire, puts, gets, puts_nowait,
  gets_nowait, clones_send, clones_receive, closes_send, closes_receive, closed_at, idle, done,
  entering, wait_entering, awaiting, wait_awaiting, getting, wait_getting, may_start, to_thread,
  after_enter, after_await, after_get, failed, received,
}

-- 1 for a thread that waits in `get`
abbrev pub waits_in_get {ℓ} : {A : Type ℓ} → Thread A → ℕ
waits_in_get (wait_getting rx d) = 1
waits_in_get _ = 0

abbrev pub waiting_in {ℓ} : {A : Type ℓ} → List (Thread A) → ℕ
waiting_in [] = 0
waiting_in (th ∷ ths) = waits_in_get th + waiting_in ths

waiting_in-set {ℓ} :
    {A : Type ℓ} (ths : List (Thread A)) (t : ℕ) (old new : Thread A)
    → get_elem? ths t ≡ some old
    → waiting_in (set ths t new) + waits_in_get old ≡ waiting_in ths + waits_in_get new
waiting_in-set [] t old new e = ground arith
waiting_in-set (th ∷ ths) zero old new e = ground arith
waiting_in-set (th ∷ ths) (suc t) old new e = omega (arith, waiting_in-set ths t old new e)

-- Each counter of `ChannelState` counts what its name says.
pub record IsCounted {ℓ} {A : Type ℓ} (s : System A) : Type 0 where
  pub senders : s.channel.open_send_channels ≡ count_if not s.senders
  pub receivers : s.channel.open_receive_channels ≡ count_if not s.receivers
  pub waiting : s.channel.waiting_receivers ≡ waiting_in s.threads

count_if-set_closed :
    (ends : List Bool) (i : ℕ)
    → count_if not (set ends i true) + (if closed_at ends i then 0 else 1) ≡ count_if not ends
count_if-set_closed [] i = omega arith
count_if-set_closed (b ∷ ends) zero = ground arith
count_if-set_closed (b ∷ ends) (suc i) = ground (arith, count_if-set_closed ends i)

-- an operation that only moves items, threads and handoffs
record SameCounters {ℓ} {A : Type ℓ} (c c' : Channel A) : Type 0 where
  send : c'.open_send_channels ≡ c.open_send_channels
  receive : c'.open_receive_channels ≡ c.open_receive_channels
  waiting : c'.waiting_receivers ≡ c.waiting_receivers

abbrev waits {ℓ} : {A : Type ℓ} → Pass A → ℕ
waits blocked = 1
waits _ = 0

-- A thread moves between two places that are not the wait of `get`.
moved-IsCounted {ℓ} :
    {A : Type ℓ} (s : System A) (c : Channel A) (t : ℕ) (old new : Thread A) (xs ys : List A)
    → get_elem? s.threads t ≡ some old
    → waits_in_get old ≡ 0
    → waits_in_get new ≡ 0
    → IsCounted s
    → SameCounters s.channel c
    → IsCounted (record s { channel = c; threads = set s.threads t new; sent = xs; taken = ys })
moved-IsCounted s c t old new xs ys e o n h k = ground (arith, waiting_in-set s.threads t old new)

leave-SameCounters {ℓ} : {A : Type ℓ} (c : Channel A) → SameCounters c (leave c)
unfolding leave
leave-SameCounters c = ground arith

module _ {ℓ} {A : Type ℓ} (s : System A) (t : ℕ) (h : IsCounted s) where
  after_enter-IsCounted :
      (tx : ℕ) (item : A) (d : Option ℕ) (r : Pass ℕ × Channel A)
      → get_elem? s.threads t ≡ some (entering tx item d)
      → SameCounters s.channel r.1
      → IsCounted (after_enter t tx item d r s)
  unfolding after_enter
  after_enter-IsCounted tx item d (raised x, c) e k = moved-IsCounted s c t _ _ _ _ e refl refl h k
  after_enter-IsCounted tx item d (blocked, c) e k = moved-IsCounted s c t _ _ _ _ e refl refl h k
  after_enter-IsCounted tx item d (passed target, c) e k =
      moved-IsCounted s c t _ _ _ _ e refl (ground arith) h k

  after_await-IsCounted :
      (tx : ℕ) (item : A) (target : ℕ) (d : Option ℕ) (r : Pass Bool × Channel A)
      → get_elem? s.threads t ≡ some (awaiting tx item target d)
      → SameCounters s.channel r.1
      → IsCounted (after_await t tx item target d r s)
  unfolding after_await
  after_await-IsCounted tx item target d (raised x, c) e k =
      moved-IsCounted s c t _ _ _ _ e refl refl h k
  after_await-IsCounted tx item target d (blocked, c) e k =
      moved-IsCounted s c t _ _ _ _ e refl refl h k
  after_await-IsCounted tx item target d (passed true, c) e k =
      moved-IsCounted s c t _ _ _ _ e refl refl h k
  after_await-IsCounted tx item target d (passed false, c) e k =
      moved-IsCounted s c t _ _ _ _ e refl refl h k

  -- `get` counts itself among the waiting when it blocks
  after_get-IsCounted :
      (rx : ℕ) (d : Option ℕ) (r : Pass A × Channel A)
      → get_elem? s.threads t ≡ some (getting rx d)
      → r.1.open_send_channels ≡ s.channel.open_send_channels
      → r.1.open_receive_channels ≡ s.channel.open_receive_channels
      → r.1.waiting_receivers ≡ s.channel.waiting_receivers + waits r.0
      → IsCounted (after_get t rx d r s)
  unfolding after_get
  after_get-IsCounted rx d (raised x, c) e p q w =
      ground (arith, waiting_in-set s.threads t (getting rx d) (done (failed x)))
  after_get-IsCounted rx d (blocked, c) e p q w =
      ground (arith, waiting_in-set s.threads t (getting rx d) (wait_getting rx d))
  after_get-IsCounted rx d (passed a, c) e p q w =
      ground (arith, waiting_in-set s.threads t (getting rx d) (done (received a)))

may_start-waits {ℓ} : {A : Type ℓ} (th : Thread A) → may_start th ≡ true → waits_in_get th ≡ 0
may_start-waits th m = ground arith

module _ {ℓ} {A : Type ℓ} (notify : List ℕ → List ℕ) where
  module _ (s : System A) (t now : ℕ) (th : Thread A) (e : get_elem? s.threads t ≡ some th)
      (m : may_start th ≡ true) (h : IsCounted s) where
    moves :
        (new : Thread A)
        → waiting_in (set s.threads t new) ≡ waiting_in s.threads + waits_in_get new
    moves new = omega (arith, waiting_in-set s.threads t th new e, may_start-waits th m)

    begin-IsCounted : (call : Call A) → IsCounted (begin notify t call now s)
    unfolding begin clone_send clone_receive close_send close_receive leave put_nowait get_nowait
        take deadline
    begin-IsCounted (puts tx item timeout) = grind (arith, moves)
    begin-IsCounted (gets rx timeout) = grind (arith, moves)
    begin-IsCounted (puts_nowait tx item) = grind (arith, moves)
    begin-IsCounted (gets_nowait rx) = grind (arith, moves)
    begin-IsCounted (clones_send tx) =
        grind (arith, moves, count_if-append not s.senders (false ∷ []))
    begin-IsCounted (clones_receive rx) =
        grind (arith, moves, count_if-append not s.receivers (false ∷ []))
    begin-IsCounted (closes_send tx) = grind (arith, moves, count_if-set_closed s.senders tx)
    begin-IsCounted (closes_receive rx) = grind (arith, moves, count_if-set_closed s.receivers rx)

  put_enter-SameCounters :
      (closed late : Bool) (item : A) (t : ℕ) (c : Channel A)
      → SameCounters c (put_enter notify closed late item t c).1
  unfolding put_enter leave can_put
  put_enter-SameCounters closed late item t c = ground arith

  put_await-SameCounters :
      (closed late : Bool) (target t : ℕ) (c : Channel A)
      → SameCounters c (put_await closed late target t c).1
  unfolding put_await leave
  put_await-SameCounters closed late target t c = ground arith

  get_counters :
      (closed late : Bool) (t : ℕ) (c : Channel A)
      → let (r, c') = get notify closed late t c in
        (c'.open_send_channels ≡ c.open_send_channels)
        × (c'.open_receive_channels ≡ c.open_receive_channels)
        × (c'.waiting_receivers ≡ c.waiting_receivers + waits r)
  unfolding get leave take
  get_counters closed late t c = ground arith

  -- a wait of `put` that is over
  woken-IsCounted :
      (s : System A) (t : ℕ) (old new : Thread A) (held : Bool)
      → get_elem? s.threads t ≡ some old
      → waits_in_get old ≡ 0
      → waits_in_get new ≡ 0
      → IsCounted s
      → IsCounted (if held then s else to_thread t new (record s { channel = leave s.channel }))
  unfolding to_thread
  woken-IsCounted s t old new true e o n h = h
  woken-IsCounted s t old new false e o n h =
      moved-IsCounted s _ t old new _ _ e o n h (leave-SameCounters s.channel)

  woken_get-IsCounted :
      (s : System A) (t rx : ℕ) (d : Option ℕ) (held : Bool)
      → get_elem? s.threads t ≡ some (wait_getting rx d)
      → IsCounted s
      → IsCounted (
          if held
          then s
          else to_thread t (getting rx d) (record s { channel = stop_waiting s.channel }))
  unfolding to_thread stop_waiting leave
  woken_get-IsCounted s t rx d held e h =
      ground (arith, waiting_in-set s.threads t (wait_getting rx d) (getting rx d))

  advance-IsCounted :
      (s : System A) (t now : ℕ) (th : Thread A)
      → get_elem? s.threads t ≡ some th
      → IsCounted s
      → IsCounted (advance notify t now th s)
  unfolding advance
  advance-IsCounted s t now idle e h = h
  advance-IsCounted s t now (done r) e h = h
  advance-IsCounted s t now (entering tx item d) e h =
      after_enter-IsCounted s t h tx item d _ e (put_enter-SameCounters _ _ item t s.channel)
  advance-IsCounted s t now (wait_entering tx item d) e h = woken-IsCounted s t _ _ _ e refl refl h
  advance-IsCounted s t now (awaiting tx item target d) e h =
      after_await-IsCounted s t h tx item target d _ e
        (put_await-SameCounters _ _ target t s.channel)
  advance-IsCounted s t now (wait_awaiting tx item target d) e h =
      woken-IsCounted s t _ _ _ e refl refl h
  advance-IsCounted s t now (getting rx d) e h =
      let (p, q, w) = get_counters (closed_at s.receivers rx) (expired d now) t s.channel in
      after_get-IsCounted s t h rx d _ e p q w
  advance-IsCounted s t now (wait_getting rx d) e h = woken_get-IsCounted s t rx d _ e h

expire-IsCounted {ℓ} :
    {A : Type ℓ} (notify : List ℕ → List ℕ) (s : System A) (t : ℕ)
    → IsCounted s
    → IsCounted (step notify s (expire t))
unfolding step
expire-IsCounted notify s t h = ground arith

pub run_all-IsCounted {ℓ} :
    {A : Type ℓ} (notify : List ℕ → List ℕ) (s : System A) (events : List (Event A))
    → IsCounted s
    → IsCounted (run_all notify s events)
run_all-IsCounted notify =
    run_all_keeps notify IsCounted
      (λ s t now call th e m h. begin-IsCounted notify s t now th e m h call)
      (advance-IsCounted notify) (expire-IsCounted notify)
