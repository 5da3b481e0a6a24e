-- ===== src/Scheduler/Documented.antt =====
-- anyio's memory object streams, as localpost/scheduler uses them: what can be seen of a stream, and what
-- is documented of creating, sending and closing.
use localpost_py.Prelude.{ℕ, ◌≡◌, ◌≢◌, Bool, true, Option, List, [], ◌∷◌, ◌++◌}
use localpost_py.Scheduler.{Result, sent, closed_resource, Streams}

-- whether the sending and the receiving end are open, whether the buffer has no bound, and the items sent
pub record Observer (R S : Type 0) : Type 0 where
  pub is_open : S → Bool
  pub is_read : S → Bool
  pub is_unbounded : S → Bool
  pub received : S → List (Result R)

-- a stream that takes whatever is sent
pub record IsReady {R S : Type 0} (ob : Observer R S) (s : S) : Type 0 where
  pub open_end : ob.is_open s ≡ true
  pub read_end : ob.is_read s ≡ true
  pub unbounded : ob.is_unbounded s ≡ true

pub record Accepts {R S : Type 0} (st : Streams R S) (ob : Observer R S) (r : Result R) (s : S)
    : Type 0 where
  pub next : S
  pub is_sent : st.send_nowait r s ≡ sent next
  pub ready : IsReady ob next
  pub last : ob.received next ≡ ob.received s ++ r ∷ []

pub record IsDocumented {R S : Type 0} (st : Streams R S) (ob : Observer R S) : Type 0 where
  pub created_open : (n : Option ℕ) → ob.is_open (st.create n) ≡ true
  pub open_sends :
      (r : Result R) (s : S) → ob.is_open s ≡ true → st.send_nowait r s ≢ closed_resource
  pub sent_open :
      (r : Result R) (s next : S)
      → ob.is_open s ≡ true
      → st.send_nowait r s ≡ sent next
      → ob.is_open next ≡ true
  pub accepts : (r : Result R) (s : S) → IsReady ob s → Accepts st ob r s
  pub close_keeps : (s : S) → ob.received (st.close s) ≡ ob.received s
