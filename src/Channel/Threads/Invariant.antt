-- ===== src/Channel/Threads/Invariant.antt =====
-- localpost/threadtools/_channel.py: where every item is, and whose item a blocked `put` waits for.
use mathlib.Core.List.{append-nil, append_assoc}
use localpost_py.Prelude.{
  ℕ, suc, ◌+◌, ◌≤◌, ◌≡◌, sym, ap, ◌∙◌, Bool, true, Option, some, List, [], ◌∷◌, ◌++◌, arith,
  get_elem?, set, length, length-append, All, All-set, All-map, get_elem?-append_left,
  get_elem?-append_inv, get_elem?-append_length,
}
use localpost_py.Channel.{Channel, is_rendezvous}
use localpost_py.Channel.Flow.{IsSound, Flow}
use localpost_py.Channel.Threads.{
  System, Thread, Reply, idle, done, entering, wait_entering, awaiting, wait_awaiting, getting,
  wait_getting, failed, received, consumed,
}

-- The item is the one that was number `target`, counted from 1.
abbrev pub IsNumber : {A : Type 0} → ℕ → A → List A → Type 0
IsNumber target item xs = (i : ℕ) × (target ≡ suc i) × (get_elem? xs i ≡ some item)

-- A sender that waits for its item has that item's number, and one that was told "consumed" has
-- seen the item with its number go out.
abbrev pub HasTarget : {A : Type 0} → Option ℕ → List A → List A → Thread A → Type 0
HasTarget capacity sent taken (awaiting tx item target d) =
    (is_rendezvous capacity ≡ true) × IsNumber target item sent
HasTarget capacity sent taken (wait_awaiting tx item target d) =
    (is_rendezvous capacity ≡ true) × IsNumber target item sent
HasTarget capacity sent taken (done (consumed item target)) = IsNumber target item taken
HasTarget capacity sent taken _ = Unit {0}

pub record Inv {A : Type 0} (s : System A) : Type 0 where
  pub sound : IsSound s.channel
  pub history : s.sent ≡ s.taken ++ s.channel.buffer
  pub counted : is_rendezvous s.channel.capacity ≡ true → s.channel.items_consumed ≡ length s.taken
  pub targets : All (HasTarget s.channel.capacity s.sent s.taken) s.threads

module _ {A : Type 0} where
  IsNumber-append :
      (target : ℕ) (item : A) (xs ys : List A)
      → IsNumber target item xs
      → IsNumber target item (xs ++ ys)
  IsNumber-append target item xs ys (i, e, g) = (i, e, get_elem?-append_left xs ys i g)

  HasTarget-grow :
      (capacity : Option ℕ) (sent taken ins outs : List A) (th : Thread A)
      → HasTarget capacity sent taken th
      → HasTarget capacity (sent ++ ins) (taken ++ outs) th
  HasTarget-grow k sent taken ins outs (awaiting tx item target d) (r, n) =
      (r, IsNumber-append target item sent ins n)
  HasTarget-grow k sent taken ins outs (wait_awaiting tx item target d) (r, n) =
      (r, IsNumber-append target item sent ins n)
  HasTarget-grow k sent taken ins outs (done (consumed item target)) n =
      IsNumber-append target item taken outs n
  HasTarget-grow k sent taken ins outs (done (failed e)) n = tt
  HasTarget-grow k sent taken ins outs (done Reply.returned) n = tt
  HasTarget-grow k sent taken ins outs (done (received a)) n = tt
  HasTarget-grow k sent taken ins outs (done (Reply.abandoned a t)) n = tt
  HasTarget-grow k sent taken ins outs idle n = tt
  HasTarget-grow k sent taken ins outs (entering tx item d) n = tt
  HasTarget-grow k sent taken ins outs (wait_entering tx item d) n = tt
  HasTarget-grow k sent taken ins outs (getting rx d) n = tt
  HasTarget-grow k sent taken ins outs (wait_getting rx d) n = tt

  history-Flow :
      (c c' : Channel A) (sent taken ins outs : List A)
      → sent ≡ taken ++ c.buffer
      → Flow c c' ins outs
      → sent ++ ins ≡ (taken ++ outs) ++ c'.buffer
  history-Flow c c' sent taken ins outs h f =
      ap (λ (l : List A). l ++ ins) h
      ∙ append_assoc taken c.buffer ins
      ∙ ap (λ (l : List A). taken ++ l) f.items
      ∙ sym (append_assoc taken outs c'.buffer)

  -- One critical section of thread `t`, which leaves it at `new`.
  moved-Inv :
      (s : System A) (c : Channel A) (t : ℕ) (new : Thread A) (ins outs : List A)
      (senders receivers : List Bool)
      → Flow s.channel c ins outs
      → HasTarget s.channel.capacity (s.sent ++ ins) (s.taken ++ outs) new
      → Inv s
      → Inv (record {
        channel = c;
        senders = senders;
        receivers = receivers;
        threads = set s.threads t new;
        sent = s.sent ++ ins;
        taken = s.taken ++ outs;
      })
  moved-Inv s c t new ins outs senders receivers f g v = record {
    sound = f.sound v.sound;
    history = history-Flow s.channel c s.sent s.taken ins outs v.history f;
    counted = λ r.
        let q = sym (ap is_rendezvous f.capacity) ∙ r in
        omega (arith, f.consumed q, v.counted q, length-append s.taken outs);
    targets = rw f.capacity (
        All-set _ s.threads t new
          (All-map _ _ s.threads (λ th. HasTarget-grow _ s.sent s.taken ins outs th) v.targets) g);
  }

  pub stayed-Inv :
      (s : System A) (c : Channel A) (t : ℕ) (new : Thread A) (senders receivers : List Bool)
      → Flow s.channel c [] []
      → HasTarget s.channel.capacity s.sent s.taken new
      → Inv s
      → Inv (record s {
        channel = c;
        senders = senders;
        receivers = receivers;
        threads = set s.threads t new;
      })
  stayed-Inv s c t new senders receivers f g v =
      rw (append-nil s.sent, append-nil s.taken) at
        (moved-Inv s c t new [] [] senders receivers f
          (rw (append-nil s.sent, append-nil s.taken) g) v)

  pub put-Inv :
      (s : System A) (c : Channel A) (t : ℕ) (new : Thread A) (item : A)
      → Flow s.channel c (item ∷ []) []
      → HasTarget s.channel.capacity (s.sent ++ item ∷ []) s.taken new
      → Inv s
      → Inv (record s { channel = c; threads = set s.threads t new; sent = s.sent ++ item ∷ [] })
  put-Inv s c t new item f g v =
      rw (append-nil s.taken) at
        (moved-Inv s c t new (item ∷ []) [] s.senders s.receivers f (rw (append-nil s.taken) g) v)

  pub got-Inv :
      (s : System A) (c : Channel A) (t : ℕ) (new : Thread A) (item : A)
      → Flow s.channel c [] (item ∷ [])
      → HasTarget s.channel.capacity s.sent (s.taken ++ item ∷ []) new
      → Inv s
      → Inv (record s { channel = c; threads = set s.threads t new; taken = s.taken ++ item ∷ [] })
  got-Inv s c t new item f g v =
      rw (append-nil s.sent) at
        (moved-Inv s c t new [] (item ∷ []) s.senders s.receivers f (rw (append-nil s.sent) g) v)

  -- the number of the item that goes in next
  pub next-IsNumber :
      (s : System A) (item : A) (target : ℕ)
      → Inv s
      → is_rendezvous s.channel.capacity ≡ true
      → target ≡ s.channel.items_consumed + (length s.channel.buffer + 1)
      → IsNumber target item (s.sent ++ item ∷ [])
  next-IsNumber s item target v r e = (
    length s.sent,
    omega (
      arith,
      v.counted r,
      ap (λ (l : List A). length l) v.history,
      length-append s.taken s.channel.buffer,
    ),
    get_elem?-append_length s.sent item [],
  )

  -- A number that has been consumed is that of an item that has gone out.
  pub consumed-IsNumber :
      (s : System A) (item : A) (target : ℕ)
      → Inv s
      → is_rendezvous s.channel.capacity ≡ true
      → target ≤ s.channel.items_consumed
      → IsNumber target item s.sent
      → IsNumber target item s.taken
  consumed-IsNumber s item target v r le (i, e, g) = (
    i,
    e,
    get_elem?-append_inv s.taken s.channel.buffer i (omega (arith, v.counted r))
        (rw v.history at g),
  )
