-- ===== src/Channel/Threads/Safety.antt =====
-- localpost/threadtools/_channel.py: what holds of a channel whatever its threads do, from
-- `Channel.create` on, and where its threads can be left waiting.
use localpost_py.Prelude.{
  ℕ, zero, suc, ◌≡◌, refl, Option, some, none, List, [], ◌++◌, arith, ℤ, get_elem?, All,
  All-get_elem?,
}
use localpost_py.Channel.{Channel, ok, create, leave}
use localpost_py.Channel.Flow.{Fits, IsSound}
use localpost_py.Channel.Threads.Counts.{IsCounted, run_all-IsCounted, waiting_in}
use localpost_py.Channel.Threads.Invariant.{Inv, HasTarget, IsNumber}
use localpost_py.Channel.Threads.After.{run_all-Inv}
use localpost_py.Channel.Threads.{Event, run_all, done, consumed, idles, opened}

module _ {A : Type 0} where
  idles-HasTarget :
      (n : ℕ) (capacity : Option ℕ) (xs ys : List A) → All (HasTarget capacity xs ys) (idles n)
  idles-HasTarget zero capacity xs ys = tt
  idles-HasTarget (suc n) capacity xs ys = (tt, idles-HasTarget n capacity xs ys)

waiting_in-idles : (A : Type 0) (n : ℕ) → waiting_in (idles {A = A} n) ≡ 0
waiting_in-idles A zero = refl
waiting_in-idles A (suc n) = omega (arith, waiting_in-idles A n)

Fits-zero : (capacity : Option ℕ) → Fits capacity 0
Fits-zero none = tt
Fits-zero (some zero) = tt
Fits-zero (some (suc k)) = omega arith

module _ {A : Type 0} (capacity : Option ℤ) (c : Channel A) (n : ℕ)
    (made : create capacity ≡ ok c) where
  buffer-create : c.buffer ≡ []
  unfolding create leave
  buffer-create = ground arith

  opened-Inv : Inv (opened c n)
  unfolding create opened leave
  opened-Inv = record {
    sound = record {
      handoffs = ground arith;
      no_handoffs = λ _. ground arith;
      within = rw buffer-create (Fits-zero c.capacity);
    };
    history = rw buffer-create refl;
    counted = λ _. ground arith;
    targets = idles-HasTarget n _ [] [];
  }

  pub opened-IsCounted : IsCounted (opened c n)
  unfolding create opened leave
  opened-IsCounted = record {
    senders = ground arith;
    receivers = ground arith;
    waiting = rw (waiting_in-idles A n) (ground arith);
  }

module _ {A : Type 0} (notify : List ℕ → List ℕ) (capacity : Option ℤ) (c : Channel A) (n : ℕ)
    (made : create capacity ≡ ok c) (events : List (Event A)) where
  reached-Inv : Inv (run_all notify (opened c n) events)
  reached-Inv = run_all-Inv notify (opened c n) events (opened-Inv capacity c n made)

  -- A channel is a queue and loses nothing: after any interleaving of any calls, and whichever
  -- waiters `notify` picks, the items that went in are those that came out, in that order,
  -- followed by those in the buffer.
  pub channel_fifo :
      let s = run_all notify (opened c n) events in s.sent ≡ s.taken ++ s.channel.buffer
  channel_fifo = reached-Inv.history

  -- A blocking `put` on a rendezvous channel that returns because its item was consumed is right:
  -- the item that came out of the buffer as number `my_target` is its own.
  pub consumed_is_own :
      (t : ℕ) (item : A) (target : ℕ)
      → get_elem? (run_all notify (opened c n) events).threads t
        ≡ some (done (consumed item target))
      → IsNumber target item (run_all notify (opened c n) events).taken
  consumed_is_own t item target e =
      All-get_elem? _ (run_all notify (opened c n) events).threads t reached-Inv.targets e

  -- No more handoffs are ever pending than there are items in the buffer, none at all but in
  -- rendezvous mode, and a channel of capacity N > 0 never holds more than N items.
  pub reached-IsSound : IsSound (run_all notify (opened c n) events).channel
  reached-IsSound = reached-Inv.sound

  -- The counters are right after any interleaving: `open_send_channels` and
  -- `open_receive_channels` count the ends that are not closed, and `waiting_receivers` counts the
  -- threads that wait in `get`.
  pub reached-IsCounted : IsCounted (run_all notify (opened c n) events)
  reached-IsCounted = run_all-IsCounted notify _ events (opened-IsCounted capacity c n made)
