-- ===== src/Scheduler/Tests.antt =====
-- localpost/scheduler at concrete tasks, over streams that keep all that was sent.
use localpost_py.Prelude.{
  ℕ, ◌≡◌, ◌≢◌, refl, sym, ap, ◌∙◌, Bool, true, false, Option, none, some, List, [], ◌∷◌, ◌++◌,
  length, leb, ◌==◌, if◌then◌else◌, pos,
}
use localpost_py.Bytes.{codes}
use localpost_py.Scheduler.{
  Result, ok, failure, Sending, sent, would_block, broken_resource, closed_resource, Streams, Task,
  done, fresh, subscribe, publish_result, publish_loop, enter, exit,
}
use localpost_py.Scheduler.Documented.{Observer, IsReady, IsDocumented}
use localpost_py.Scheduler.Publishing.{reach, subscribers_of, publish_result-reach}
use localpost_py.Scheduler.Lasting.{Step, Reached, is_raised, Reached-publish_result}
use localpost_py.Scheduler.Triggers.{Yielded, take_first}

record Stream : Type 0 where
  pub items : List (Result ℕ)
  pub bound : Option ℕ
  pub sending : Bool
  pub reading : Bool

abbrev is_full : Stream → Bool
is_full s = elim s.bound [ none ↦ false | some n ↦ leb n (length s.items) ]

abbrev with_item : Result ℕ → Stream → Stream
with_item r s = record s { items = s.items ++ r ∷ [] }

abbrev send : Bool → Bool → Bool → Stream → Sending Stream
send false reading full next = closed_resource
send true false full next = broken_resource
send true true true next = would_block
send true true false next = sent next

abbrev streams : Streams ℕ Stream
streams = record {
  create = λ n. record { items = []; bound = n; sending = true; reading = true };
  send_nowait = λ r s. send s.sending s.reading (is_full s) (with_item r s);
  close = λ s. record s { sending = false };
}

abbrev unbounded : Option ℕ → Bool
unbounded none = true
unbounded (some n) = false

abbrev observer : Observer ℕ Stream
observer = record {
  is_open = λ s. s.sending;
  is_read = λ s. s.reading;
  is_unbounded = λ s. unbounded s.bound;
  received = λ s. s.items;
}

send-open : (a b c : Bool) (next : Stream) → a ≡ true → send a b c next ≢ closed_resource
send-open true false c next h k = cc k
send-open true true true next h k = cc k
send-open true true false next h k = cc k
send-open false b c next h k = cc h

send-sent : (a b c : Bool) (next u : Stream) → send a b c next ≡ sent u → next ≡ u
send-sent false b c next u h = cc h
send-sent true false c next u h = cc h
send-sent true true true next u h = cc h
send-sent true true false next u h = cc h

not_full : (s : Stream) → unbounded s.bound ≡ true → is_full s ≡ false
not_full s h = bounded s.bound (length s.items) h
  where
    bounded :
        (b : Option ℕ) (n : ℕ)
        → unbounded b ≡ true
        → elim b [ none ↦ false | some m ↦ leb m n ] ≡ false
    bounded none n h = refl
    bounded (some m) n h = cc h

streams-IsDocumented : IsDocumented streams observer
streams-IsDocumented = record {
  created_open = λ n. refl;
  open_sends = λ r s h. send-open s.sending s.reading (is_full s) (with_item r s) h;
  sent_open = λ r s next h k.
      sym (ap (λ u. u.sending) (send-sent s.sending s.reading (is_full s) (with_item r s) next k))
      ∙ h;
  accepts = λ r s h. record {
    next = with_item r s;
    is_sent = rw (h.open_end, h.read_end, not_full s h.unbounded) refl;
    ready = record { open_end = h.open_end; read_end = h.read_end; unbounded = h.unbounded };
    last = refl;
  };
  close_keeps = λ s. refl;
}

abbrev stream : List (Result ℕ) → Bool → Stream
stream items reading = record { items = items; bound = none; sending = true; reading = reading }

abbrev task : List Stream → Task Stream
task subs = record { subscribers = subs; users = 0; finished = false }

-- three subscribers, of whom the first is gone
abbrev gone_first : List Stream
gone_first = stream [] false ∷ stream [] true ∷ stream [] true ∷ []

publish_result-reach_example :
    subscribers_of (publish_result streams (ok 7) (task gone_first))
    ≡ reach streams (ok 7) false gone_first
publish_result-reach_example = publish_result-reach streams (ok 7) (task gone_first)

-- The second subscriber, which is read, does not have the result.
second_misses :
    publish_result streams (ok 7) (task gone_first)
    ≡ done (task (stream [] true ∷ stream (ok 7 ∷ []) true ∷ []))
unfolding publish_result publish_loop
second_misses = refl

-- a subscription, one user and a result
Reached-publish_result_example :
    is_raised (publish_result streams (ok 7) (enter (task (stream [] true ∷ [])))) ≡ false
Reached-publish_result_example =
    Reached-publish_result streams observer (ok 7) (enter (task (stream [] true ∷ [])))
      streams-IsDocumented
      (Reached.goes_on
        (Reached.goes_on Reached.starts
          (Step.subscribes none fresh (task (stream [] true ∷ [])) (unfold subscribe in refl)))
        (Step.enters (task (stream [] true ∷ []))))
      (unfold enter in refl)

-- The last user leaves before another comes: the result of the other is not published, and `call` raises.
late_user_raises :
    is_raised
      (publish_result streams (ok 7) (enter (exit streams (enter (task (stream [] true ∷ []))))))
    ≡ true
unfolding publish_result publish_loop enter exit
late_user_raises = refl

-- odd events fail
abbrev handle_odd : ℕ → Result ℕ
handle_odd n =
    if n == 1 then failure (codes "odd") else if n == 3 then failure (codes "odd") else ok n

abbrev four_events : List ℕ
four_events = 0 ∷ 1 ∷ 2 ∷ 4 ∷ []

abbrev first_two : List ℕ → Yielded ℕ
first_two source = elim (take_first (pos 2)) [
  | none ↦ record { events = []; left = source }
  | some f ↦ f source
]

abbrev ready : IsReady observer (stream [] true)
ready = record { open_end = refl; read_end = refl; unbounded = refl }
