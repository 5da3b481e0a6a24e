-- ===== src/Http/Cancel.antt =====
-- localpost/http/_cancel.py: the cancellation token of a request and `check_cancelled`. What `recv`
-- with `MSG_PEEK` does is the socket's choice, an argument; the record counts those calls.
pub mod Lasting
mod Tests
use localpost_py.Prelude.{
  ℕ, suc, Bool, true, false, ◌||◌, Option, none, some, List, [], ◌∷◌, if◌then◌else◌,
}
use localpost_py.Bytes.{Bytes}

-- `blocking` is the `BlockingIOError`, `failed` any other `OSError`
pub data Peek : Type 0 where
  blocking failed : Peek
  peeked : Bytes → Peek

-- `shutdown` is the event that all tokens share.
pub record RequestCancel : Type 0 where
  pub event : Bool
  pub shutdown : Bool
  pub peeks : ℕ

pub new : RequestCancel
new = record { event = false; shutdown = false; peeks = 0 }

pub cancel : RequestCancel → RequestCancel
cancel token = record token { event = true }

pub fired : RequestCancel → Bool
fired token = token.event || token.shutdown

-- `is_cancelled` after the call of `recv`
abbrev probe : Peek → RequestCancel → Bool × RequestCancel
probe blocking token = (false, token)
probe failed token = (true, record token { event = true })
probe (peeked []) token = (true, record token { event = true })
probe (peeked (b ∷ bs)) token = (false, token)

pub is_cancelled : Peek → RequestCancel → Bool × RequestCancel
unfolding fired
is_cancelled peek token =
    if fired token then (true, token) else probe peek (record token { peeks = suc token.peeks })

pub data Outcome : Type 0 where
  returned request_cancelled lookup_error : Outcome

abbrev pub outcome_of : Bool → Outcome
outcome_of true = request_cancelled
outcome_of false = returned

-- `check_cancelled`, with the token of the current context if it has one
pub check_cancelled : Peek → Option RequestCancel → Outcome
unfolding is_cancelled
check_cancelled peek none = lookup_error
check_cancelled peek (some token) = outcome_of (is_cancelled peek token).0

pub data Event : Type 0 where
  cancels shuts_down : Event
  checks : Peek → Event

pub step : RequestCancel → Event → RequestCancel
unfolding cancel is_cancelled
step token cancels = cancel token
step token shuts_down = record token { shutdown = true }
step token (checks peek) = (is_cancelled peek token).1

pub run_all : RequestCancel → List Event → RequestCancel
run_all token [] = token
run_all token (e ∷ es) = run_all (step token e) es
