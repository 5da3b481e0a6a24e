-- ===== src/Http/Body/Fine.antt =====
-- localpost/http/server_httptools.py: when `receive` does not raise.
use localpost_py.Prelude.{
  ℕ, ◌+◌, ◌≤◌, ◌≡◌, refl, sym, subst, if◌then◌else◌, false, none, List, [], ◌∷◌, ◌++◌, length,
  length-append, arith, Bool-cases, inl, inr,
}
use localpost_py.Bytes.{Bytes}
use localpost_py.Http.Body.{
  Callback, body_data, message_complete, next_head, Packet, Intake, on_body, on_message_complete,
  on_callbacks, Fed, feed, drop, Received, got, failed, take_buffered, and_receive, is_waiting,
  receive,
}
use localpost_py.Http.Body.Packets.{
  on_body-IsReading, on_callbacks-IsReading, length-drop, same_rest, feed-fed, data_in, completes,
  data_of, IsOfOne, AreOfOne, rest_of, IsReading, on_callbacks_lem, waiting-rest_of,
}

abbrev pub AreGood : List Packet → Type 0
AreGood [] = Unit {0}
AreGood (p ∷ ps) = (p.is_bad ≡ false) × AreGood ps

-- There is nothing to complain of: the parser takes the packets, and the body that is to come does not
-- exceed the limit.
pub record IsFine (max_size : ℕ) (ps : List Packet) (c : Intake) : Type 0 where
  pub good : AreGood ps
  pub unnoted : c.body_too_large ≡ none
  pub fits : length (rest_of ps c) ≤ max_size

on_body-fits :
    (m : ℕ) (x : Bytes) (c : Intake)
    → IsReading m c
    → c.body_too_large ≡ none
    → length c.buffer + length x ≤ m
    → ((on_body m x c).body_too_large ≡ none) × ((on_body m x c).buffer ≡ c.buffer ++ x)
unfolding on_body
on_body-fits m x c r e h =
    (ground (arith, r.small, r.unanswered, e, h), ground (arith, r.small, r.unanswered, e, h))

on_callbacks-fits :
    (m : ℕ) (ks : List Callback) (c : Intake)
    → IsOfOne ks
    → IsReading m c
    → c.body_too_large ≡ none
    → length c.buffer + length (data_in ks) ≤ m
    → (on_callbacks m ks c).body_too_large ≡ none
unfolding on_callbacks
on_callbacks-fits m [] c o r e h = e
on_callbacks-fits m (body_data x ∷ ks) c o r e h =
    let (f, b) = on_body-fits m x c r e (omega (arith, h, length-append x (data_in ks))) in
    on_callbacks-fits m ks (on_body m x c) o (on_body-IsReading m x c r) f
      (rw (b, length-append c.buffer x) (omega (arith, h, length-append x (data_in ks))))
on_callbacks-fits m (message_complete ∷ ks) c o r e h =
    on_callbacks-fits m ks (on_message_complete c) o
      (record { small = r.small; unanswered = r.unanswered; bounded = r.bounded }) e h
on_callbacks-fits m (next_head n ∷ ks) c o r e h = absurd o

abbrev pub StaysFine : ℕ → Received → Type 0
StaysFine m (got chunk ps d) = IsFine m ps d
StaysFine m (failed f ps) = ⊥

take_buffered-StaysFine :
    (m size : ℕ) (ps : List Packet) (c : Intake)
    → IsFine m ps c
    → StaysFine m (take_buffered size ps c)
take_buffered-StaysFine m size ps c f = record {
  good = f.good;
  unnoted = f.unnoted;
  fits =
      let more = if c.eom then [] else data_of ps in
      omega (
        arith,
        f.fits,
        length-append c.buffer more,
        length-append (drop size c.buffer) more,
        length-drop size c.buffer,
      );
}

pub receive-StaysFine :
    (m size : ℕ) (ps : List Packet) (c : Intake)
    → AreOfOne ps
    → IsReading m c
    → IsFine m ps c
    → StaysFine m (receive m size ps c)
unfolding receive feed
receive-StaysFine m size [] c o r f = take_buffered-StaysFine m size [] c f
receive-StaysFine m size (p ∷ ps) c o r f = elim (Bool-cases (is_waiting c)) [
  | inr g ↦ rw g (take_buffered-StaysFine m size (p ∷ ps) c f)
  | inl g ↦
      let after = on_callbacks m p.callbacks c in
      let reading = on_callbacks-IsReading m p.callbacks c o.0 r in
      let (no_buffer, no_end) = waiting-rest_of (p ∷ ps) c g in
      let more = if completes p.callbacks then [] else data_of ps in
      let size_of : length (rest_of (p ∷ ps) c)
          ≡ length c.buffer + (length (data_in p.callbacks) + length more) =
        rw
          (
            no_end,
            length-append c.buffer (data_in p.callbacks ++ more),
            length-append (data_in p.callbacks) more,
          )
          refl in
      let h = on_callbacks-fits m p.callbacks c o.0 r f.unnoted (omega (arith, f.fits, size_of)) in
      let (a, kept, ends) = on_callbacks_lem m p.callbacks c o.0 r h in
      let same = same_rest after.buffer after.eom p.callbacks ps c no_end kept ends in
      let goal : Fed → Type 0 = λ x. StaysFine m (and_receive (receive m size ps) ps x) in
      rw g (
        subst goal (sym (feed-fed m p c f.good.0 h)) (
          receive-StaysFine m size ps after o.1 reading (record {
            good = f.good.1;
            unnoted = h;
            fits = subst (λ x. length x ≤ m) (sym same) f.fits;
          })))
]

-- it fails only if something is wrong
abbrev pub FailsOnly : ℕ → List Packet → Intake → Received → Type 0
FailsOnly m ps c (got chunk rest d) = Unit {0}
FailsOnly m ps c (failed f rest) = ¬ IsFine m ps c

pub fails_only :
    (m : ℕ) (ps : List Packet) (c : Intake) (x : Received)
    → (IsFine m ps c → StaysFine m x)
    → FailsOnly m ps c x
fails_only m ps c (got chunk rest d) k = tt
fails_only m ps c (failed f rest) k = k
