-- ===== src/Http/Body/Packets.antt =====
-- localpost/http/server_httptools.py: the body in packets, and what one packet does to a connection.
use localpost_py.Prelude.{
  ℕ, zero, suc, ◌+◌, ◌≤◌, ◌≡◌, refl, sym, ap, ◌∙◌, ◌⊎◌, ◌||◌, if◌then◌else◌, Bool, true, false,
  none, some, List, [], ◌∷◌, ◌++◌, length, length-append, ltb, arith, Bool-cases, inl, inr,
}
use mathlib.Core.List.{append_assoc, append-nil}
use localpost_py.Bytes.{Bytes, is_empty}
use localpost_py.Http.Body.{
  Callback, body_data, message_complete, next_head, Packet, Intake, on_body, on_message_complete,
  on_callbacks, fed, protocol_error, raises_too_large, feed, take, drop, is_waiting,
}

-- the body in a packet, and whether its message ends there
abbrev pub data_in : List Callback → Bytes
data_in [] = []
data_in (body_data chunk ∷ ks) = chunk ++ data_in ks
data_in (k ∷ ks) = data_in ks

abbrev pub completes : List Callback → Bool
completes [] = false
completes (message_complete ∷ ks) = true
completes (k ∷ ks) = completes ks

-- the body in packets: what is there up to the packet in which the message ends
abbrev pub data_of : List Packet → Bytes
data_of [] = []
data_of (p ∷ ps) = data_in p.callbacks ++ (if completes p.callbacks then [] else data_of ps)

-- no packet has the head of another message
abbrev pub IsOfOne : List Callback → Type 0
IsOfOne [] = Unit {0}
IsOfOne (next_head n ∷ ks) = ⊥
IsOfOne (k ∷ ks) = IsOfOne ks

abbrev pub AreOfOne : List Packet → Type 0
AreOfOne [] = Unit {0}
AreOfOne (p ∷ ps) = IsOfOne p.callbacks × AreOfOne ps

-- what a connection has of the body, with the packets that are to come
abbrev pub rest_of : List Packet → Intake → Bytes
rest_of ps c = c.buffer ++ (if c.eom then [] else data_of ps)

-- A connection whose request is read: it is not too large so far, and was not answered without
-- borrowing.
pub record IsReading (max_size : ℕ) (c : Intake) : Type 0 where
  pub small : c.oversize ≡ false
  pub unanswered : c.answered_inline ≡ false
  pub bounded : length c.buffer ≤ max_size

pub on_body-IsReading :
    (m : ℕ) (chunk : Bytes) (c : Intake) → IsReading m c → IsReading m (on_body m chunk c)
unfolding on_body
on_body-IsReading m chunk c r = elim (Bool-cases (ltb m (length c.buffer + length chunk))) [
  | inl g ↦ record {
    small = ground (arith, r.small, r.unanswered, g);
    unanswered = ground (arith, r.small, r.unanswered, g);
    bounded = ground (arith, r.small, r.unanswered, g, r.bounded);
  }
  | inr g ↦ record {
    small = ground (arith, r.small, r.unanswered, g);
    unanswered = ground (arith, r.small, r.unanswered, g);
    bounded = ground (arith, r.small, r.unanswered, g, length-append c.buffer chunk);
  }
]

-- an error that was noted stays, and without one nothing is dropped
pub on_body_lem :
    (m : ℕ) (chunk : Bytes) (c : Intake)
    → IsReading m c
    → (on_body m chunk c).body_too_large ≡ none
    → (c.body_too_large ≡ none) × ((on_body m chunk c).buffer ≡ c.buffer ++ chunk)
unfolding on_body
on_body_lem m chunk c r e =
    (ground (arith, r.small, r.unanswered, e), ground (arith, r.small, r.unanswered, e))

pub on_callbacks-IsReading :
    (m : ℕ) (ks : List Callback) (c : Intake)
    → IsOfOne ks
    → IsReading m c
    → IsReading m (on_callbacks m ks c)
unfolding on_callbacks
on_callbacks-IsReading m [] c o r = r
on_callbacks-IsReading m (body_data x ∷ ks) c o r =
    on_callbacks-IsReading m ks (on_body m x c) o (on_body-IsReading m x c r)
on_callbacks-IsReading m (message_complete ∷ ks) c o r =
    on_callbacks-IsReading m ks (on_message_complete c) o
      (record { small = r.small; unanswered = r.unanswered; bounded = r.bounded })
on_callbacks-IsReading m (next_head n ∷ ks) c o r = absurd o

on_body-eom : (m : ℕ) (x : Bytes) (c : Intake) → (on_body m x c).eom ≡ c.eom
unfolding on_body
on_body-eom m x c = ground arith

-- without an error nothing is dropped, and the end is seen
pub on_callbacks_lem :
    (m : ℕ) (ks : List Callback) (c : Intake)
    → IsOfOne ks
    → IsReading m c
    → (on_callbacks m ks c).body_too_large ≡ none
    → (c.body_too_large ≡ none)
      × ((on_callbacks m ks c).buffer ≡ c.buffer ++ data_in ks)
      × ((on_callbacks m ks c).eom ≡ c.eom || completes ks)
unfolding on_callbacks
on_callbacks_lem m [] c o r e = (e, sym (append-nil c.buffer), ground arith)
on_callbacks_lem m (body_data x ∷ ks) c o r e =
    let (a, b, f) = on_callbacks_lem m ks (on_body m x c) o (on_body-IsReading m x c r) e in
    let (a', b') = on_body_lem m x c r a in
    (
      a',
      b ∙ ap (λ y. y ++ data_in ks) b' ∙ append_assoc c.buffer x (data_in ks),
      f ∙ ap (λ y. y || completes ks) (on_body-eom m x c),
    )
on_callbacks_lem m (message_complete ∷ ks) c o r e =
    let (a, b, f) =
      on_callbacks_lem m ks (on_message_complete c) o
        (record { small = r.small; unanswered = r.unanswered; bounded = r.bounded }) e in
    (a, b, f ∙ ground arith)
on_callbacks_lem m (next_head n ∷ ks) c o r e = absurd o

pub take-drop : (n : ℕ) (cs : Bytes) → take n cs ++ drop n cs ≡ cs
take-drop zero cs = refl
take-drop (suc n) [] = refl
take-drop (suc n) (c ∷ cs) = ap (λ x. c ∷ x) (take-drop n cs)

pub length-take : (n : ℕ) (cs : Bytes) → length (take n cs) ≤ n
length-take zero cs = omega arith
length-take (suc n) [] = omega arith
length-take (suc n) (c ∷ cs) = ground (arith, length-take n cs)

pub length-drop : (n : ℕ) (cs : Bytes) → length (drop n cs) ≤ length cs
length-drop zero cs = omega arith
length-drop (suc n) [] = omega arith
length-drop (suc n) (c ∷ cs) = ground (arith, length-drop n cs)

-- the message has ended, or the peer has closed
abbrev pub IsAtEnd : List Packet → Intake → Type 0
IsAtEnd ps c = (c.buffer ≡ []) × ((c.eom ≡ true) ⊎ (ps ≡ []))

module _ (m : ℕ) (p : Packet) (c : Intake) where
  pub feed-bad : p.is_bad ≡ true → feed m p c ≡ protocol_error (on_callbacks m p.callbacks c)
  unfolding feed
  feed-bad e = ground (arith, e)

  pub feed-fed :
      p.is_bad ≡ false
      → (on_callbacks m p.callbacks c).body_too_large ≡ none
      → feed m p c ≡ fed (on_callbacks m p.callbacks c)
  unfolding feed
  feed-fed e h = ground (arith, e, h)

  pub feed-too_large :
      (n : ℕ)
      → p.is_bad ≡ false
      → (on_callbacks m p.callbacks c).body_too_large ≡ some n
      → feed m p c
        ≡ raises_too_large n (record (on_callbacks m p.callbacks c) { body_too_large = none })
  unfolding feed
  feed-too_large n e h = ground (arith, e, h)

pub same_rest :
    (b : Bytes) (e : Bool) (ks : List Callback) (ps : List Packet) (c : Intake)
    → c.eom ≡ false
    → b ≡ c.buffer ++ data_in ks
    → e ≡ c.eom || completes ks
    → b ++ (if e then [] else data_of ps)
      ≡ c.buffer ++ (if c.eom then [] else data_in ks ++ (if completes ks then [] else data_of ps))
same_rest b e ks ps c no_end kept ends =
    let same : e ≡ completes ks = ends ∙ ap (λ x. x || completes ks) no_end in
    rw (no_end, kept, same)
      (append_assoc c.buffer (data_in ks) (if completes ks then [] else data_of ps))

-- while nothing is buffered and the message goes on, the body is that of the packets
pub waiting-rest_of :
    (ps : List Packet) (c : Intake) → is_waiting c ≡ true → (c.buffer ≡ []) × (c.eom ≡ false)
waiting-rest_of ps c h = (empty_buffer c.buffer (ground (arith, h)), ground (arith, h))
  where
    empty_buffer : (b : Bytes) → is_empty b ≡ true → b ≡ []
    empty_buffer [] e = refl
    empty_buffer (x ∷ b) e = cc e
