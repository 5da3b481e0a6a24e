-- ===== src/Http/Connection.antt =====
-- localpost/http/server_httptools.py: a connection between requests, from the parser's callbacks for a
-- head to `_loop`. What the parser calls for the data of a `recv` is given with it. The handler is an
-- argument, with the recovery from what it raises, and so is the dispatch that a streaming pool defers.
pub mod Heads
pub mod Rounds
mod Tests
use localpost_py.Prelude.{
  ℕ, ℤ, pos, negsuc, Bool, true, false, not, ◌&&◌, ◌||◌, Option, none, some, List, [], ◌∷◌, ◌++◌,
  ltb, ◌==◌, if◌then◌else◌,
}
use localpost_py.Bytes.{Bytes, codes, bytes_eq, is_empty, lower, partition}
use localpost_py.Bytes.Decimal.{parse_int}
use localpost_py.Http.Types.{Headers}
use localpost_py.Http.Body.{Intake, on_body}

-- `Request`. In the source `headers` is the list that `cur_headers` is, so later trailers join it; here it
-- is as it stands at the end of the head.
pub record Head : Type 0 where
  pub method : Bytes
  pub target : Bytes
  pub path : Bytes
  pub query_string : Bytes
  pub headers : Headers
  pub http_version : Bytes

-- the fields of `_HTTPReqCtx` that the connection reads
pub record Exchange : Type 0 where
  pub request : Head
  pub keep_alive : Bool
  pub continue_sent : Bool

pub data Wire : Type 0 where
  bad_request payload_too_large : Wire

-- `intake` is what a body goes through, `wires` the canned answers that were sent
pub record Conn : Type 0 where
  pub cur_target : Bytes
  pub cur_target_buf : Option Bytes
  pub cur_headers : Headers
  pub cur_expect_100 : Bool
  pub ctx : Option Exchange
  pub intake : Intake
  pub message_complete : Bool
  pub deferred : Bool
  pub close_after_response : Bool
  pub response_started : Bool
  pub tracked : Bool
  pub idle : Bool
  pub wires : List Wire

pub on_message_begin : Conn → Conn
on_message_begin c = record c {
  cur_target = [];
  cur_target_buf = none;
  cur_headers = [];
  cur_expect_100 = false;
  intake = record c.intake { oversize = false };
}

pub on_url : Bytes → Conn → Conn
on_url url c =
    if is_empty c.cur_target then record c { cur_target = url } else elim c.cur_target_buf [
      | none ↦ record c { cur_target_buf = some (c.cur_target ++ url) }
      | some buf ↦ record c { cur_target_buf = some (buf ++ url) }
    ]

-- `value.rstrip(b" \t")`
abbrev pub trimmed : Bytes → Bytes
trimmed [] = []
trimmed (c ∷ cs) =
    let rest = trimmed cs in if is_empty rest && (c == 32 || c == 9) then [] else c ∷ rest

abbrev pub asks_continue : Bytes × Bytes → Bool
asks_continue (name, value) =
    bytes_eq (lower name) (codes "expect")
    && bytes_eq (lower (trimmed value)) (codes "100-continue")

pub on_header : Bytes × Bytes → Conn → Conn
on_header (name, value) c = record c {
  cur_headers = c.cur_headers ++ (lower name, trimmed value) ∷ [];
  cur_expect_100 = if asks_continue (name, value) then true else c.cur_expect_100;
}

-- `none` also for a value that is no number
pub content_length : Headers → Option ℤ
content_length [] = none
content_length ((name, value) ∷ hs) =
    if bytes_eq name (codes "content-length") then parse_int value else content_length hs

abbrev pub exceeds : ℕ → Option ℤ → Option ℕ
exceeds max_size none = none
exceeds max_size (some (negsuc n)) = none
exceeds max_size (some (pos n)) = if ltb max_size n then some n else none

abbrev pub flattened : Conn → Bytes
flattened c = elim c.cur_target_buf [ none ↦ c.cur_target | some buf ↦ buf ]

-- the envelope that `on_headers_complete` builds
pub request_of : Bytes → Bytes → Conn → Head
request_of method version c =
    let target = flattened c in
    let (path, found, query_string) = partition b'?' target in
    record {
      method = method;
      target = target;
      path = path;
      query_string = query_string;
      headers = c.cur_headers;
      http_version = version;
    }

pub data Callback : Type 0 where
  message_begin : Callback
  url body : Bytes → Callback
  header : Bytes × Bytes → Callback
  headers_complete : Bytes → Bytes → Bool → Callback
  message_complete : Callback

abbrev answered_inline : Conn → Bool
answered_inline c = c.response_started && (c.tracked && elim c.ctx [ none ↦ false | some x ↦ true ])

-- what a `recv` gives; `is_bad` is a parser error after these callbacks
pub data Recv : Type 0 where
  would_block end_of_stream : Recv
  data_of : List Callback → (is_bad : Bool) → Recv

pub data Ended : Type 0 where
  returned : Conn → List Recv → Ended
  protocol_error too_large failed_assertion : Conn → Ended

-- how `_feed` ends
pub data Fed : Type 0 where
  fed : Conn → Fed
  fed_error fed_too_large : Conn → Fed

pub close : Conn → Conn
close c = record c { tracked = false }

pub reset_for_next_request : Conn → Conn
reset_for_next_request c = record c {
  ctx = none;
  intake = record c.intake { buffer = []; eom = false };
  message_complete = false;
  response_started = false;
  close_after_response = false;
  deferred = false;
  idle = true;
}

-- the first half of a turn of `_loop`
pub data Turn : Type 0 where
  stops reads asserts : Conn → Turn

pub settle : Conn → Turn
unfolding close reset_for_next_request
settle c =
    if not c.tracked then stops c else if not c.message_complete then reads c else elim c.ctx [
      | none ↦ asserts c
      | some x ↦
          if c.close_after_response || not x.keep_alive
          then stops (close c)
          else reads (reset_for_next_request c)
    ]

abbrev and_feed : (Conn → Ended) → Fed → Ended
and_feed again (fed c) = again c
and_feed again (fed_error c) = protocol_error c
and_feed again (fed_too_large c) = too_large c

-- `_try_send_wire`, where sending does not fail
abbrev try_send_wire : Wire → Conn → Conn
try_send_wire w c = if c.response_started then c else record c { wires = c.wires ++ w ∷ [] }

-- the end of `on_headers_complete`; `ctx` is the request's, as the handler leaves it
abbrev answered : Conn → Conn
answered c = elim c.ctx [
  | none ↦ c
  | some x ↦
      if c.tracked && (c.response_started && (c.cur_expect_100 && not x.continue_sent))
      then record c { close_after_response = true; message_complete = true }
      else c
]

module _ (max_size : ℕ) (handler : Head → Conn → Conn) (dispatch : Conn → Conn) where
  pub on_headers_complete : Bytes → Bytes → Bool → Conn → Conn
  unfolding request_of content_length
  on_headers_complete method version keep_alive c =
      let flat = record c { cur_target = flattened c; cur_target_buf = none } in
      elim (exceeds max_size (content_length c.cur_headers)) [
        | some n ↦ record flat {
          intake = record c.intake { body_too_large = some n; oversize = true };
        }
        | none ↦
            let request = request_of method version c in
            answered (
              handler request (record flat {
                ctx =
                    some (record {
                      request = request;
                      keep_alive = keep_alive;
                      continue_sent = false;
                    });
                intake = record c.intake { buffer = []; eom = false };
                message_complete = false;
              }))
      ]

  pub on_callback : Callback → Conn → Conn
  unfolding on_message_begin on_url on_header on_headers_complete
  on_callback message_begin c = on_message_begin c
  on_callback (url u) c = on_url u c
  on_callback (header h) c = on_header h c
  on_callback (headers_complete m v k) c = on_headers_complete m v k c
  on_callback (body chunk) c = record c {
    intake = on_body max_size chunk (record c.intake { answered_inline = answered_inline c });
  }
  on_callback message_complete c = record c {
    intake = record c.intake { eom = true };
    message_complete = true;
  }

  pub on_callbacks : List Callback → Conn → Conn
  unfolding on_callback
  on_callbacks [] c = c
  on_callbacks (k ∷ ks) c = on_callbacks ks (on_callback k c)

  -- `_feed`
  pub feed : List Callback → Bool → Conn → Fed
  unfolding on_callbacks
  feed ks is_bad c =
      let after = on_callbacks ks c in
      if is_bad
      then fed_error (record after { deferred = false })
      else elim after.intake.body_too_large [
        | some n ↦ fed_too_large (record after {
          intake = record after.intake { body_too_large = none };
          deferred = false;
        })
        | none ↦
            fed (if after.deferred then dispatch (record after { deferred = false }) else after)
      ]

  -- `_loop`, over what `recv` will give; at its end it would block
  pub loop : List Recv → Conn → Ended
  unfolding settle feed
  loop [] c = elim (settle c) [
    | stops d ↦ returned d []
    | asserts d ↦ failed_assertion d
    | reads d ↦ returned d []
  ]
  loop (r ∷ rs) c =
      let again = loop rs in
      elim (settle c) [
        | stops d ↦ returned d (r ∷ rs)
        | asserts d ↦ failed_assertion d
        | reads d ↦ elim r [
          | would_block ↦ returned d rs
          | end_of_stream ↦ returned (close d) rs
          | data_of ks is_bad ↦ and_feed again (feed ks is_bad (record d { idle = false }))
        ]
      ]

  -- `__call__`; `none` is the failed assertion
  pub on_ready : List Recv → Conn → Option Conn
  unfolding loop
  on_ready rs c = elim (loop rs c) [
    | returned d left ↦ some d
    | protocol_error d ↦ some (close (try_send_wire bad_request d))
    | too_large d ↦ some (close (try_send_wire payload_too_large d))
    | failed_assertion d ↦ none
  ]
