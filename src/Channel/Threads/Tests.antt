-- ===== src/Channel/Threads/Tests.antt =====
-- localpost/threadtools/_channel.py: runs of small systems, and the theorems applied to them.
use localpost_py.Prelude.{ℕ, ◌≡◌, refl, true, some, none, List, [], ◌∷◌, ◌++◌, pos, get_elem?}
use localpost_py.Channel.{
  Channel, ok, create, leave, can_put, get, put_enter, put_await, deadline, expired, take,
}
use localpost_py.Channel.Flow.{IsSound}
use localpost_py.Channel.Threads.Invariant.{IsNumber}
use localpost_py.Channel.Threads.Safety.{channel_fifo, consumed_is_own, reached-IsSound}
use localpost_py.Channel.Threads.{
  Event, step, run_all, start, run, puts, gets, done, consumed, received, wait_entering,
  wait_getting, opened,
}

-- the waiter that has waited longest is woken
abbrev oldest_first : List ℕ → List ℕ
oldest_first [] = []
oldest_first (t ∷ ts) = ts

abbrev rendezvous : Channel ℕ
rendezvous = record {
  buffer = [];
  capacity = some 0;
  open_send_channels = 1;
  open_receive_channels = 1;
  waiting_receivers = 0;
  pending_handoffs = 0;
  items_consumed = 0;
  not_empty = [];
  not_full = [];
}

made : create (some (pos 0)) ≡ ok rendezvous
unfolding create leave
made = refl

-- Threads 0 and 1 put 10 and 20; thread 2 gets one item.
abbrev one_taken : List (Event ℕ)
one_taken =
    start 0 (puts 0 10 none) 0
    ∷ run 0 0
    ∷ run 0 0
    ∷ start 1 (puts 0 20 none) 0
    ∷ run 1 0
    ∷ start 2 (gets 0 none) 0
    ∷ run 2 0
    ∷ run 0 0
    ∷ run 0 0
    ∷ []

-- Then thread 2 gets once more.
abbrev stuck : List (Event ℕ)
stuck = one_taken ++ start 2 (gets 0 none) 0 ∷ run 2 0 ∷ []

one_taken_ends :
    let s = run_all oldest_first (opened rendezvous 3) one_taken in
    s.threads ≡ done (consumed 10 1) ∷ wait_entering 0 20 none ∷ done (received 10) ∷ []
unfolding run_all step opened put_enter put_await get can_put leave deadline expired take
one_taken_ends = refl

-- The sender of 20 waits for room, though there is room, and the receiver waits for an item.
stuck_ends :
    let s = run_all oldest_first (opened rendezvous 3) stuck in
    (get_elem? s.threads 1 ≡ some (wait_entering 0 20 none))
    × (get_elem? s.threads 2 ≡ some (wait_getting 0 none))
    × (can_put s.channel ≡ ok true)
    × (s.channel.buffer ≡ [])
unfolding run_all step opened put_enter put_await get can_put leave deadline expired take
stuck_ends = (refl, refl, refl, refl)

channel_fifo_example :
    let s = run_all oldest_first (opened rendezvous 3) one_taken in
    s.sent ≡ s.taken ++ s.channel.buffer
channel_fifo_example = channel_fifo oldest_first (some (pos 0)) rendezvous 3 made one_taken

consumed_is_own_example : IsNumber 1 10 (run_all oldest_first (opened rendezvous 3) one_taken).taken
consumed_is_own_example =
    consumed_is_own oldest_first (some (pos 0)) rendezvous 3 made one_taken 0 10 1 (
      unfold run_all step opened put_enter put_await get can_put leave deadline expired take in
      refl)

reached-IsSound_example : IsSound (run_all oldest_first (opened rendezvous 3) one_taken).channel
reached-IsSound_example = reached-IsSound oldest_first (some (pos 0)) rendezvous 3 made one_taken
