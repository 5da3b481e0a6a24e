-- ===== src/Http/Connection/Tests.antt =====
-- localpost/http/server_httptools.py at concrete connections.
use localpost_py.Prelude.{◌≡◌, ◌⊎◌, refl, true, false, none, List, [], ◌∷◌, ◌++◌}
use localpost_py.Bytes.{Bytes, codes, lower}
use localpost_py.Http.Types.{Headers}
use localpost_py.Http.Connection.{
  Head, Conn, request_of, Callback, message_begin, url, header, headers_complete, message_complete,
  body, on_callbacks, would_block, end_of_stream, data_of, returned, loop, on_message_begin, on_url,
  on_header, on_headers_complete, on_callback, settle, feed,
}
use localpost_py.Http.Connection.Heads.{
  concat, normalised, any_asks_continue, head_callbacks, on_callbacks-head,
}
use localpost_py.Http.Connection.Rounds.{IsAfterBlock, loop-returned}

-- a handler that answers at once, and a connection that has served another request
abbrev answer : Head → Conn → Conn
answer r c = record c { response_started = true }

abbrev deferring : Conn → Conn
deferring c = c

abbrev used : Conn
used = record {
  cur_target = codes "/old";
  cur_target_buf = none;
  cur_headers = (codes "expect", codes "100-continue") ∷ [];
  cur_expect_100 = true;
  ctx = none;
  intake = record {
    buffer = [];
    eom = false;
    oversize = false;
    answered_inline = false;
    body_too_large = none;
  };
  message_complete = false;
  deferred = false;
  close_after_response = false;
  response_started = false;
  tracked = true;
  idle = true;
  wires = [];
}

abbrev host : Headers
host = (codes "Host", codes "example.org \t") ∷ []

-- the target in two pieces
abbrev pieces : List Bytes
pieces = codes "/books?li" ∷ codes "mit=3" ∷ []

on_callbacks-head_example :
    let d = on_callbacks 10 answer deferring (head_callbacks pieces host) used in
    let r = request_of (codes "GET") (codes "1.1") d in
    (r.target ≡ concat pieces)
    × ((r.path ++ b'?' ∷ r.query_string ≡ concat pieces)
        ⊎ ((r.path ≡ concat pieces) × (r.query_string ≡ [])))
    × (r.headers ≡ normalised host)
    × (d.cur_expect_100 ≡ any_asks_continue host)
on_callbacks-head_example =
    on_callbacks-head 10 answer deferring pieces host (codes "GET") (codes "1.1") used

-- one whole request, after which the socket would block
abbrev one_request : List Callback
one_request =
    message_begin
    ∷ url (codes "/a")
    ∷ headers_complete (codes "GET") (codes "1.1") true
    ∷ message_complete
    ∷ []

abbrev served : Conn
served = record used { cur_target = codes "/a"; cur_headers = []; cur_expect_100 = false }

one_served :
    loop 10 answer deferring (data_of one_request false ∷ would_block ∷ end_of_stream ∷ []) used
    ≡ returned served (end_of_stream ∷ [])
unfolding loop feed settle on_callbacks on_callback on_message_begin on_url on_headers_complete
one_served = refl

loop-returned_example :
    (served.message_complete ≡ false)
    × IsAfterBlock
        (data_of one_request false ∷ would_block ∷ end_of_stream ∷ [])
        (end_of_stream ∷ [])
loop-returned_example =
    loop-returned 10 answer deferring (data_of one_request false ∷ would_block ∷ end_of_stream ∷ [])
      (end_of_stream ∷ []) used served one_served refl

-- Trailers of a chunked body come as headers too: in the source they go to the list that the request of
-- the handler has, which is the one that `cur_headers` is.
abbrev with_trailer : List Callback
with_trailer =
    message_begin
    ∷ url (codes "/a")
    ∷ headers_complete (codes "POST") (codes "1.1") true
    ∷ body (codes "x")
    ∷ header (codes "X-User", codes "admin")
    ∷ message_complete
    ∷ []

trailer_collected :
    (on_callbacks 10 answer deferring with_trailer used).cur_headers
    ≡ (codes "x-user", codes "admin") ∷ []
unfolding on_callbacks on_callback on_message_begin on_url on_headers_complete on_header lower
trailer_collected = refl
