-- ===== src/Http/Body/Tests.antt =====
-- localpost/http/server_httptools.py: bodies in packets.
use localpost_py.Prelude.{◌≡◌, refl, true, false, none, List, [], ◌∷◌, arith}
use localpost_py.Bytes.{codes}
use localpost_py.Http.Body.{
  Callback, body_data, message_complete, next_head, Packet, Intake, on_body, on_callbacks, feed,
  receive, whole, read_body,
}
use localpost_py.Http.Body.Packets.{IsReading}

abbrev packet : List Callback → Packet
packet ks = record { callbacks = ks; is_bad = false }

abbrev packets : List Packet
packets =
    packet (body_data (codes "abc") ∷ [])
    ∷ packet (body_data (codes "def") ∷ [])
    ∷ packet (message_complete ∷ [])
    ∷ []

abbrev waiting : Intake
waiting = record {
  buffer = [];
  eom = false;
  oversize = false;
  answered_inline = false;
  body_too_large = none;
}

abbrev reading : IsReading 4 waiting
reading = record { small = refl; unanswered = refl; bounded = omega arith }

abbrev left : Intake
left = record {
  buffer = codes "c";
  eom = false;
  oversize = false;
  answered_inline = false;
  body_too_large = none;
}

abbrev ended : Intake
ended = record {
  buffer = [];
  eom = true;
  oversize = false;
  answered_inline = false;
  body_too_large = none;
}

-- A body of six bytes is read whole although `max_body_size` is four, since the limit is that of the
-- buffer and each packet is read before the next.
limit_passed : read_body 7 4 3 10 [] packets waiting ≡ whole (codes "abcdef") [] ended
unfolding read_body receive feed on_callbacks on_body
limit_passed = refl

-- The end of a request and the head of the next one, pipelined, come in one packet: the body that is
-- read is lost.
pipelined_lost :
    read_body 7 4 3 10 []
      (packet (body_data (codes "abc") ∷ message_complete ∷ next_head none ∷ []) ∷ [])
      waiting
    ≡ whole [] [] waiting
unfolding read_body receive feed on_callbacks on_body
pipelined_lost = refl

-- The peer closes before the message has ended: what it has sent is returned as the body.
cut_off :
    read_body 7 4 3 10 [] (packet (body_data (codes "abc") ∷ []) ∷ []) waiting
    ≡ whole (codes "abc") [] waiting
unfolding read_body receive feed on_callbacks on_body
cut_off = refl
