-- ===== src/Http/Body.antt =====
-- localpost/http/server_httptools.py: how a request body is taken in, `on_body` to `receive`, and
-- `read_body` of localpost/http/_body.py. What the parser calls for a packet is given with the packet;
-- the packets that the socket has yet to deliver are a list, whose end is the peer's.
pub mod Packets
pub mod Fine
pub mod Order
pub mod Reading
mod Tests
use localpost_py.Prelude.{
  ℕ, zero, suc, ◌+◌, ◌≤◌, Bool, true, false, not, ◌&&◌, ◌||◌, Option, none, some, List, [], ◌∷◌,
  ◌++◌, length, leb, ltb, if◌then◌else◌,
}
use localpost_py.Bytes.{Bytes, is_empty}

-- `next_head` is the end of the head of another message in the same packet, with its Content-Length
-- if that exceeds `max_body_size`. What the handler does that it calls is left out.
pub data Callback : Type 0 where
  body_data : Bytes → Callback
  message_complete : Callback
  next_head : Option ℕ → Callback

-- `is_bad`: `feed_data` raises after these calls
pub record Packet : Type 0 where
  pub callbacks : List Callback
  pub is_bad : Bool

-- the fields of the connection that a body goes through; `answered_inline` is a response that was
-- started by a handler that has not borrowed the connection
pub record Intake : Type 0 where
  pub buffer : Bytes
  pub eom : Bool
  pub oversize : Bool
  pub answered_inline : Bool
  pub body_too_large : Option ℕ

pub on_body : ℕ → Bytes → Intake → Intake
on_body max_size chunk c =
    if c.oversize
    then c
    else if c.answered_inline
    then c
    else if ltb max_size (length c.buffer + length chunk)
    then record c { body_too_large = some (length c.buffer + length chunk) }
    else record c { buffer = c.buffer ++ chunk }

abbrev pub on_message_complete : Intake → Intake
on_message_complete c = record c { eom = true }

-- `on_message_begin` and `on_headers_complete`
abbrev pub on_next_head : Option ℕ → Intake → Intake
on_next_head none c = record c { oversize = false; buffer = []; eom = false }
on_next_head (some n) c = record c { oversize = true; body_too_large = some n }

pub on_callbacks : ℕ → List Callback → Intake → Intake
unfolding on_body
on_callbacks max_size [] c = c
on_callbacks max_size (body_data chunk ∷ ks) c = on_callbacks max_size ks (on_body max_size chunk c)
on_callbacks max_size (message_complete ∷ ks) c = on_callbacks max_size ks (on_message_complete c)
on_callbacks max_size (next_head n ∷ ks) c = on_callbacks max_size ks (on_next_head n c)

pub data Fed : Type 0 where
  fed protocol_error : Intake → Fed
  raises_too_large : ℕ → Intake → Fed

-- `_feed`
pub feed : ℕ → Packet → Intake → Fed
unfolding on_callbacks
feed max_size p c =
    let after = on_callbacks max_size p.callbacks c in
    if p.is_bad then protocol_error after else elim after.body_too_large [
      | none ↦ fed after
      | some n ↦ raises_too_large n (record after { body_too_large = none })
    ]

abbrev pub take : ℕ → Bytes → Bytes
take zero cs = []
take (suc n) [] = []
take (suc n) (c ∷ cs) = c ∷ take n cs

abbrev pub drop : ℕ → Bytes → Bytes
drop zero cs = cs
drop (suc n) [] = []
drop (suc n) (c ∷ cs) = drop n cs

-- what is read, the packets that are left, and the connection
pub data Received : Type 0 where
  got : Bytes → List Packet → Intake → Received
  failed : Fed → List Packet → Received

abbrev pub take_buffered : ℕ → List Packet → Intake → Received
take_buffered size ps c = got (take size c.buffer) ps (record c { buffer = drop size c.buffer })

abbrev pub is_waiting : Intake → Bool
is_waiting c = is_empty c.buffer && not c.eom

abbrev pub and_receive : (Intake → Received) → List Packet → Fed → Received
and_receive read ps (fed d) = read d
and_receive read ps (protocol_error d) = failed (protocol_error d) ps
and_receive read ps (raises_too_large n d) = failed (raises_too_large n d) ps

-- `receive`; at the end of the packets the peer has closed
pub receive : ℕ → ℕ → List Packet → Intake → Received
unfolding feed
receive max_size size [] c = take_buffered size [] c
receive max_size size (p ∷ ps) c =
    let more = and_receive (receive max_size size ps) ps (feed max_size p c) in
    if is_waiting c then more else take_buffered size (p ∷ ps) c

-- `no_fuel` stands for a loop that is not over
pub data Read : Type 0 where
  whole : Bytes → List Packet → Intake → Read
  exceeds : ℕ → Read
  broken : Fed → Read
  no_fuel : Read

abbrev pub and_read : (Bytes → List Packet → Intake → Read) → ℕ → Bytes → Received → Read
and_read again limit buf (failed f ps) = broken f
and_read again limit buf (got chunk ps d) =
    if is_empty chunk
    then whole buf ps d
    else if ltb limit (length buf + length chunk)
    then exceeds (length buf + length chunk)
    else again (buf ++ chunk) ps d

-- `read_body` from what was read so far; the fuel bounds the calls of `receive`
pub read_body : ℕ → ℕ → ℕ → ℕ → Bytes → List Packet → Intake → Read
unfolding receive
read_body zero max_size size limit buf ps c = no_fuel
read_body (suc fuel) max_size size limit buf ps c =
    and_read (read_body fuel max_size size limit) limit buf (receive max_size size ps c)
