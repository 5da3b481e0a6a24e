-- ===== src/Channel.antt =====
-- localpost/threadtools/_channel.py: the state shared by the two ends of a channel, and each
-- critical section of its operations as a function of that state. A condition variable is the list
-- of the threads that wait on it, longest first. Which waiter `notify` picks is `threading`'s
-- choice, so it is the argument `notify`, the list that is left after one call of it.
pub mod Flow
pub mod Threads
use localpost_py.Prelude.{
  ℕ, zero, ◌+◌, ◌-◌, ℤ, pos, negsuc, Bool, true, false, ◌||◌, Option, none, some, List, [], ◌∷◌,
  ◌++◌, length, ltb, leb, ◌==◌, if◌then◌else◌,
}

pub data Error : Type 0 where
  closed_resource would_block end_of_stream timeout_error value_error : Error

pub data Result {ℓ} (A : Type ℓ) : Type ℓ where
  ok : A → Result A
  err : Error → Result A

pub record Channel {ℓ} (A : Type ℓ) : Type ℓ where
  pub buffer : List A
  pub capacity : Option ℕ
  pub open_send_channels : ℕ
  pub open_receive_channels : ℕ
  pub waiting_receivers : ℕ
  pub pending_handoffs : ℕ
  pub items_consumed : ℕ
  pub not_empty : List ℕ
  pub not_full : List ℕ

-- `_deadline`; the clock is a number that the caller passes in
pub deadline : Option ℤ → ℕ → Result (Option ℕ)
deadline none now = ok none
deadline (some (pos t)) now = ok (some (now + t))
deadline (some (negsuc t)) now = err value_error

-- `wait_for is not None and wait_for <= 0`
pub expired : Option ℕ → ℕ → Bool
expired none now = false
expired (some d) now = leb d now

-- `state.capacity == 0`
pub is_rendezvous : Option ℕ → Bool
is_rendezvous none = false
is_rendezvous (some n) = n == 0

-- `self.capacity is None or len(self.buffer) < self.capacity`
pub has_room : Option ℕ → ℕ → Bool
has_room none n = true
has_room (some cap) n = ltb n cap

-- What one pass of the loop of `put` or `get` comes to: an exception, a wait on the condition, or
-- the value that it goes on with.
pub data Pass {ℓ} (A : Type ℓ) : Type ℓ where
  raised : Error → Pass A
  blocked : Pass A
  passed : A → Pass A

module _ {ℓ} {A : Type ℓ} where
  pub new : Option ℤ → Result (Channel A)
  new capacity = elim capacity [
    | none ↦ ok (empty none)
    | some c ↦ elim c [ pos n ↦ ok (empty (some n)) | negsuc n ↦ err value_error ]
  ]
    where
      empty : Option ℕ → Channel A
      empty c = record {
        buffer = [];
        capacity = c;
        open_send_channels = 0;
        open_receive_channels = 0;
        waiting_receivers = 0;
        pending_handoffs = 0;
        items_consumed = 0;
        not_empty = [];
        not_full = [];
      }

  -- `ChannelState.__exit__`
  pub leave : Channel A → Channel A
  leave c =
      if c.open_send_channels == 0 || c.open_receive_channels == 0
      then record c { not_empty = []; not_full = [] }
      else c

  -- one end of each kind is open at first
  open_both : Result (Channel A) → Result (Channel A)
  open_both (ok c) = ok (
      leave (record c {
        open_send_channels = c.open_send_channels + 1;
        open_receive_channels = c.open_receive_channels + 1;
      }))
  open_both (err e) = err e

  pub create : Option ℤ → Result (Channel A)
  unfolding new open_both
  create capacity = open_both (new capacity)

  pub can_put : Channel A → Result Bool
  unfolding is_rendezvous has_room
  can_put c =
      if c.open_receive_channels == 0
      then err closed_resource
      else if is_rendezvous c.capacity
      then ok (ltb c.pending_handoffs c.waiting_receivers || length c.buffer == 0)
      else ok (has_room c.capacity (length c.buffer))

  pub can_put_nowait : Channel A → Result Bool
  unfolding is_rendezvous has_room
  can_put_nowait c =
      if c.open_receive_channels == 0
      then err closed_resource
      else if is_rendezvous c.capacity
      then ok (ltb c.pending_handoffs c.waiting_receivers)
      else ok (has_room c.capacity (length c.buffer))

  -- `clone` of an end that may be closed, and `close`, which acts once
  pub clone_send : Bool → Channel A → Result (Unit {0}) × Channel A
  clone_send true c = (err closed_resource, leave c)
  clone_send false c = (ok tt, leave (record c { open_send_channels = c.open_send_channels + 1 }))

  pub clone_receive : Bool → Channel A → Result (Unit {0}) × Channel A
  clone_receive true c = (err closed_resource, leave c)
  clone_receive false c =
      (ok tt, leave (record c { open_receive_channels = c.open_receive_channels + 1 }))

  pub close_send : Bool → Channel A → Channel A
  close_send true c = leave c
  close_send false c =
      leave
        (record c { open_send_channels = c.open_send_channels - 1; not_empty = []; not_full = [] })

  pub close_receive : Bool → Channel A → Channel A
  close_receive true c = leave c
  close_receive false c = leave (record c {
    open_receive_channels = c.open_receive_channels - 1;
    not_empty = [];
    not_full = [];
  })

  -- the end of a wait in `get`, which is the end of that pass too
  pub stop_waiting : Channel A → Channel A
  stop_waiting c = leave (record c { waiting_receivers = c.waiting_receivers - 1 })

  -- Phase 2 of `put`: has the item with this target been consumed? `true` is yes, `false` is that
  -- nobody is left to consume it.
  pub put_await : Bool → Bool → ℕ → ℕ → Channel A → Pass Bool × Channel A
  put_await true late target thread c = (raised closed_resource, leave c)
  put_await false late target thread c =
      if leb target c.items_consumed
      then (passed true, leave c)
      else if c.open_receive_channels == 0
      then (passed false, leave c)
      else if late
      then (raised timeout_error, leave c)
      else (blocked, record c { not_full = c.not_full ++ thread ∷ [] })

module _ {ℓ} {A : Type ℓ} (notify : List ℕ → List ℕ) where
  -- the item goes in, with a handoff if the test passes
  append_item : Bool → A → Channel A → Channel A
  append_item handoff item c = record c {
    buffer = c.buffer ++ item ∷ [];
    pending_handoffs = if handoff then c.pending_handoffs + 1 else c.pending_handoffs;
    not_empty = notify c.not_empty;
  }

  pub put_nowait : Bool → A → Channel A → Result (Unit {0}) × Channel A
  unfolding append_item is_rendezvous
  put_nowait true item c = (err closed_resource, leave c)
  put_nowait false item c = elim (can_put_nowait c) [
    | err e ↦ (err e, leave c)
    | ok room ↦
        if room
        then (ok tt, leave (append_item (is_rendezvous c.capacity) item c))
        else (err would_block, leave c)
  ]

  -- Phase 1 of `put`; it goes on with `my_target`, which is 0 but in rendezvous mode.
  pub put_enter : Bool → Bool → A → ℕ → Channel A → Pass ℕ × Channel A
  unfolding append_item is_rendezvous
  put_enter true late item thread c = (raised closed_resource, leave c)
  put_enter false late item thread c = elim (can_put c) [
    | err e ↦ (raised e, leave c)
    | ok room ↦
        if room
        then elim (is_rendezvous c.capacity) [
          | false ↦ (passed 0, leave (append_item false item c))
          | true ↦
              let handoff = ltb c.pending_handoffs c.waiting_receivers in
              (
                passed (c.items_consumed + (length c.buffer + 1)),
                leave (append_item handoff item c),
              )
        ]
        else if late
        then (raised timeout_error, leave c)
        else (blocked, record c { not_full = c.not_full ++ thread ∷ [] })
  ]

  -- `_take`: `popleft`, which wants an item
  pub take : Channel A → Option (A × Channel A)
  unfolding is_rendezvous
  take c = elim c.buffer [
    | [] ↦ none
    | item ∷ rest ↦
        if is_rendezvous c.capacity
        then some (
          item,
          record c {
            buffer = rest;
            items_consumed = c.items_consumed + 1;
            pending_handoffs = c.pending_handoffs - 1;
            not_full = notify c.not_full;
          },
        )
        else some (item, record c { buffer = rest; not_full = notify c.not_full })
  ]

  pub get_nowait : Bool → Channel A → Result A × Channel A
  get_nowait true c = (err closed_resource, leave c)
  get_nowait false c = elim (take c) [
    | some (item, c') ↦ (ok item, leave c')
    | none ↦
        if c.open_send_channels == 0
        then (err end_of_stream, leave c)
        else (err would_block, leave c)
  ]

  pub get : Bool → Bool → ℕ → Channel A → Pass A × Channel A
  get true late thread c = (raised closed_resource, leave c)
  get false late thread c = elim (take c) [
    | some (item, c') ↦ (passed item, leave c')
    | none ↦
        if c.open_send_channels == 0
        then (raised end_of_stream, leave c)
        else if late
        then (raised timeout_error, leave c)
        else (
          blocked,
          record c {
            waiting_receivers = c.waiting_receivers + 1;
            not_empty = c.not_empty ++ thread ∷ [];
          },
        )
  ]
