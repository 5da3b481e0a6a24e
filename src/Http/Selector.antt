-- ===== src/Http/Selector.antt =====
-- localpost/http/_base.py: `Selector` with its op queue, `BaseHTTPConn.close`, and the two connection
-- handlers. The map of the operating system's selector is an association list by file descriptor;
-- registering, modifying and unregistering are what `selectors` documents. A connection is its number
-- in `conns`. Events are the calls of the selector's thread and of workers, one at a time.
pub mod Watched
pub mod Kept
pub mod Shutdown
pub mod Sweep
pub mod Queue
pub mod Operations
pub mod Reached
mod Tests
use localpost_py.Prelude.{
  ℕ, zero, suc, ◌+◌, ◌%◌, Bool, true, false, not, ◌&&◌, ◌||◌, Option, none, some, List, [], ◌∷◌,
  ◌++◌, length, get_elem?, ltb, ◌==◌, if◌then◌else◌,
}

-- `is_open` is the socket's state; `close_at` is 0 for none, as the source's test takes it
pub record Conn : Type 0 where
  pub fd : ℕ
  pub tracked : Bool
  pub is_open : Bool
  pub close_at : ℕ

pub data Callback : Type 0 where
  drain_wakeup accept_listener : Callback
  conn_at : ℕ → Callback

pub data Op : Type 0 where
  op_track op_close : ℕ → Op
  op_cleanup : Op

-- `swept` are the connections that `emit_stale_408` was called for, the last first.
pub record Selector : Type 0 where
  pub conns : List Conn
  pub fd_to_key : List (ℕ × Callback)
  pub ops : List Op
  pub shutting_down : Bool
  pub swept : List ℕ

abbrev pub find_key : ℕ → List (ℕ × Callback) → Option Callback
find_key fd [] = none
find_key fd ((f, k) ∷ ks) = if f == fd then some k else find_key fd ks

-- `register`, or `modify` of a descriptor that is there
abbrev pub set_key : ℕ → Callback → List (ℕ × Callback) → List (ℕ × Callback)
set_key fd k [] = (fd, k) ∷ []
set_key fd k ((f, l) ∷ ks) = if f == fd then (f, k) ∷ ks else (f, l) ∷ set_key fd k ks

-- `unregister`; a descriptor that is not there is the `KeyError` that the callers swallow
abbrev pub drop_key : ℕ → List (ℕ × Callback) → List (ℕ × Callback)
drop_key fd [] = []
drop_key fd ((f, l) ∷ ks) = let rest = drop_key fd ks in if f == fd then rest else (f, l) ∷ rest

abbrev pub update : ℕ → (Conn → Conn) → List Conn → List Conn
update i f [] = []
update zero f (c ∷ cs) = f c ∷ cs
update (suc i) f (c ∷ cs) = c ∷ update i f cs

abbrev pub shut : Conn → Conn
shut c = record c { tracked = false; is_open = false }

abbrev pub untrack : Conn → Conn
untrack c = record c { tracked = false }

abbrev pub mark_tracked : Conn → Conn
mark_tracked c = record c { tracked = true }

abbrev pub close_conn : ℕ → Selector → Selector
close_conn i s = record s { conns = update i shut s.conns }

-- `_apply_track`: a closed socket cannot be registered
pub apply_track : ℕ → Selector → Selector
apply_track i s = elim (get_elem? s.conns i) [
  | none ↦ s
  | some c ↦
      if c.is_open
      then record s { fd_to_key = set_key c.fd (conn_at i) s.fd_to_key }
      else close_conn i s
]

-- `track`; the first argument says whether the caller is the selector's thread
pub track : Bool → ℕ → Selector → Selector
unfolding apply_track
track here i s = elim (get_elem? s.conns i) [
  | none ↦ s
  | some c ↦
      if s.shutting_down
      then close_conn i s
      else if c.tracked
      then s
      else if here
      then apply_track i (record s { conns = update i mark_tracked s.conns })
      else record s { conns = update i mark_tracked s.conns; ops = s.ops ++ op_track i ∷ [] }
]

pub stop_tracking : ℕ → Selector → Selector
stop_tracking i s = elim (get_elem? s.conns i) [
  | none ↦ s
  | some c ↦ record s { conns = update i untrack s.conns; fd_to_key = drop_key c.fd s.fd_to_key }
]

pub post_track : ℕ → Selector → Selector
post_track i s =
    if s.shutting_down
    then close_conn i s
    else record s { conns = update i mark_tracked s.conns; ops = s.ops ++ op_track i ∷ [] }

pub post_cleanup : Selector → Selector
post_cleanup s = record s { ops = s.ops ++ op_cleanup ∷ [] }

-- `BaseHTTPConn.close`
pub close : Bool → ℕ → Selector → Selector
close here i s = elim (get_elem? s.conns i) [
  | none ↦ s
  | some c ↦
      if not c.tracked
      then close_conn i s
      else if here
      then record s { conns = update i shut s.conns; fd_to_key = drop_key c.fd s.fd_to_key }
      else record s { conns = update i shut s.conns; ops = s.ops ++ op_close c.fd ∷ [] }
]

-- `data.close_at and now > data.close_at`
abbrev pub is_stale : ℕ → Conn → Bool
is_stale now c = not (c.close_at == 0) && ltb c.close_at now

-- one connection of the sweep
pub sweep_conn : ℕ → Selector → Selector
sweep_conn i s = elim (get_elem? s.conns i) [
  | none ↦ s
  | some c ↦ record s {
    conns = update i shut s.conns;
    fd_to_key = drop_key c.fd s.fd_to_key;
    swept = i ∷ s.swept;
  }
]

-- `_find_stale`
pub find_stale : ℕ → List Conn → List (ℕ × Callback) → List ℕ
find_stale now cs [] = []
find_stale now cs ((fd, conn_at i) ∷ ks) =
    let rest = find_stale now cs ks in
    elim (get_elem? cs i) [ none ↦ rest | some c ↦ if is_stale now c then i ∷ rest else rest ]
find_stale now cs ((fd, k) ∷ ks) = find_stale now cs ks

pub sweep : List ℕ → Selector → Selector
unfolding sweep_conn
sweep [] s = s
sweep (i ∷ is) s = sweep is (sweep_conn i s)

-- `_cleanup_stale`
pub cleanup_stale : ℕ → Selector → Selector
unfolding find_stale sweep
cleanup_stale now s = sweep (find_stale now s.conns s.fd_to_key) s

-- `_drain_ops`, with `cleanup_due`; time is read when the sweep is due
pub drain : ℕ → List Op → Bool → Selector → Selector
unfolding apply_track cleanup_stale
drain now [] due s = if due then cleanup_stale now s else s
drain now (op_track i ∷ ops) due s = drain now ops due (apply_track i s)
drain now (op_close fd ∷ ops) due s =
    drain now ops due (record s { fd_to_key = drop_key fd s.fd_to_key })
drain now (op_cleanup ∷ ops) due s = drain now ops true s

pub drain_ops : ℕ → Selector → Selector
unfolding drain
drain_ops now s = drain now s.ops false (record s { ops = [] })

-- what `shutdown` does with the ops that are left
pub close_queued : List Op → Selector → Selector
close_queued [] s = s
close_queued (op_track i ∷ ops) s = close_queued ops (close_conn i s)
close_queued (op ∷ ops) s = close_queued ops s

-- and with the keys
pub close_keys : List (ℕ × Callback) → Selector → Selector
close_keys [] s = s
close_keys ((fd, conn_at i) ∷ ks) s =
    close_keys ks (record s { conns = update i shut s.conns; fd_to_key = drop_key fd s.fd_to_key })
close_keys ((fd, k) ∷ ks) s = close_keys ks s

-- `shutdown`; the first argument is the descriptor of the wakeup pipe
pub shutdown : ℕ → Selector → Selector
unfolding close_queued close_keys
shutdown wakeup_r s =
    let drained = close_queued s.ops (record s { shutting_down = true; ops = [] }) in
    let closed = close_keys drained.fd_to_key drained in
    record closed { fd_to_key = drop_key wakeup_r closed.fd_to_key }

abbrev pub is_key : ℕ → Option Callback → Bool
is_key i (some (conn_at j)) = j == i
is_key i k = false

abbrev pub is_registered : ℕ → Selector → Bool
is_registered i s = elim (get_elem? s.conns i) [
  | none ↦ false
  | some c ↦ is_key i (find_key c.fd s.fd_to_key)
]

-- the descriptor of the wakeup pipe or of the listening socket
abbrev pub is_reserved : Option Callback → Bool
is_reserved (some drain_wakeup) = true
is_reserved (some accept_listener) = true
is_reserved k = false

abbrev pub is_used : ℕ → List Conn → Bool
is_used fd [] = false
is_used fd (c ∷ cs) = c.is_open && c.fd == fd || is_used fd cs

abbrev pub is_tracked : ℕ → Selector → Bool
is_tracked i s = elim (get_elem? s.conns i) [ none ↦ false | some c ↦ c.tracked ]

abbrev pub fresh : ℕ → Conn
fresh fd = record { fd = fd; tracked = false; is_open = true; close_at = 0 }

abbrev pub add_conn : ℕ → Selector → Selector
add_conn fd s = record s { conns = s.conns ++ fresh fd ∷ [] }

-- `accepts` and `posts` are `TrackHere` and `RoundRobinAcceptor` on a new socket; the kernel gives
-- it a descriptor that no open file has. `borrows`, and `closes_here` of a tracked connection, come
-- from the connection's own callback, so it is registered. `closes_tracked` is a worker that
-- closes a connection after it gave it back, and `closes_there` one that has not.
pub data Event : Type 0 where
  accepts posts borrows gives_back closes_here closes_there closes_tracked drains : ℕ → Event
  ticks : Event
  sets_close_at : ℕ → ℕ → Event

pub step : Selector → Event → Selector
unfolding track post_track stop_tracking close post_cleanup drain_ops
step s (accepts fd) =
    if is_used fd s.conns || is_reserved (find_key fd s.fd_to_key)
    then s
    else track true (length s.conns) (add_conn fd s)
step s (posts fd) =
    if is_used fd s.conns || is_reserved (find_key fd s.fd_to_key)
    then s
    else post_track (length s.conns) (add_conn fd s)
step s (borrows i) = if is_registered i s then stop_tracking i s else s
step s (gives_back i) = track false i s
step s (closes_here i) = if is_registered i s || not (is_tracked i s) then close true i s else s
step s (closes_there i) = if is_tracked i s then s else close false i s
step s (closes_tracked i) = if is_tracked i s then close false i s else s
step s (drains now) = drain_ops now s
step s ticks = post_cleanup s
step s (sets_close_at i n) = record s { conns = update i (λ c. record c { close_at = n }) s.conns }

pub run_all : Selector → List Event → Selector
run_all s [] = s
run_all s (e ∷ es) = run_all (step s e) es

-- a selector with its wakeup pipe and a listening socket
pub start : ℕ → ℕ → Selector
start wakeup_r listener = record {
  conns = [];
  fd_to_key = (wakeup_r, drain_wakeup) ∷ (listener, accept_listener) ∷ [];
  ops = [];
  shutting_down = false;
  swept = [];
}
