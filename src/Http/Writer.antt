-- ===== src/Http/Writer.antt =====
-- localpost/http/server_httptools.py: how a response is written, with `scan_response_headers`,
-- `_native_stream` and the reason phrases of localpost/http/_base.py. What `_send_all` is given is
-- kept in order; a socket that fails raises out of all of this.
pub mod Chunked
pub mod Wire
pub mod Scanning
mod Tests
use localpost_py.Prelude.{
  ℕ, ◌+◌, Bool, true, false, not, ◌&&◌, ◌||◌, Option, none, some, List, [], ◌∷◌, ◌++◌, length, leb,
  ltb, ◌==◌, if◌then◌else◌,
}
use localpost_py.Bytes.{Bytes, codes, bytes_eq, is_empty, lower, contains}
use localpost_py.Bytes.Decimal.{print_ℕ}
use localpost_py.Bytes.Hex.{print_hex}
use localpost_py.Http.Types.{Headers, Response}

abbrev crlf : Bytes
crlf = 13 ∷ 10 ∷ []

-- `REASON_PHRASES.get(code, b"")`
pub reason_phrase : ℕ → Bytes
reason_phrase code = look_up phrases
  where
    phrases : List (ℕ × Bytes)
    phrases =
        (100, codes "Continue")
        ∷ (200, codes "OK")
        ∷ (204, codes "No Content")
        ∷ (301, codes "Moved Permanently")
        ∷ (302, codes "Found")
        ∷ (304, codes "Not Modified")
        ∷ (400, codes "Bad Request")
        ∷ (401, codes "Unauthorized")
        ∷ (403, codes "Forbidden")
        ∷ (404, codes "Not Found")
        ∷ (405, codes "Method Not Allowed")
        ∷ (408, codes "Request Timeout")
        ∷ (413, codes "Payload Too Large")
        ∷ (417, codes "Expectation Failed")
        ∷ (500, codes "Internal Server Error")
        ∷ (501, codes "Not Implemented")
        ∷ (502, codes "Bad Gateway")
        ∷ (503, codes "Service Unavailable")
        ∷ []

    look_up : List (ℕ × Bytes) → Bytes
    look_up [] = []
    look_up ((c, phrase) ∷ ps) = if c == code then phrase else look_up ps

abbrev header_lines : Headers → Bytes
header_lines [] = []
header_lines ((name, value) ∷ hs) = name ++ (codes ": " ++ (value ++ (crlf ++ header_lines hs)))

-- `_serialize_response`
pub serialize_response : Response → Bytes
unfolding reason_phrase print_ℕ
serialize_response r =
    codes "HTTP/1.1 "
    ++ (print_ℕ r.status_code
        ++ (codes " "
            ++ ((if is_empty r.reason then reason_phrase r.status_code else r.reason)
                ++ (crlf ++ (header_lines r.headers ++ crlf)))))

-- `_response_allows_body`
pub response_allows_body : Bytes → ℕ → Bool
response_allows_body method code =
    not (bytes_eq method (codes "HEAD"))
    && not (leb 100 code && ltb code 200 || code == 204 || code == 304)

pub record Scan : Type 0 where
  pub has_close : Bool
  pub has_framing : Bool
  pub has_chunked : Bool

scan_from : Scan → Headers → Scan
unfolding lower contains
scan_from s [] = s
scan_from s ((name, value) ∷ hs) =
    let n = lower name in
    scan_from
      (if bytes_eq n (codes "connection") && contains (codes "close") (lower value)
        then record s { has_close = true }
        else if bytes_eq n (codes "content-length")
        then record s { has_framing = true }
        else if bytes_eq n (codes "transfer-encoding")
        then record s {
          has_framing = true;
          has_chunked = contains (codes "chunked") (lower value) || s.has_chunked;
        }
        else s)
      hs

pub scan_response_headers : Headers → Scan
unfolding scan_from
scan_response_headers hs =
    scan_from (record { has_close = false; has_framing = false; has_chunked = false }) hs

-- `_HTTPReqCtx` with the two flags of its connection. `sent` is what `_send_all` was given.
pub record ReqCtx : Type 0 where
  pub method : Bytes
  pub keep_alive : Bool
  pub response_status : Option ℕ
  pub chunked : Bool
  pub pending : Option Bytes
  pub body_allowed : Bool
  pub close_after_response : Bool
  pub given_back : Bool
  pub sent : List Bytes

pub new : Bytes → Bool → ReqCtx
new method keep_alive = record {
  method = method;
  keep_alive = keep_alive;
  response_status = none;
  chunked = false;
  pending = none;
  body_allowed = true;
  close_after_response = false;
  given_back = false;
  sent = [];
}

-- `_send_all`, after which nothing is pending
abbrev pub flush : Bytes → ReqCtx → ReqCtx
flush payload c = record c { pending = none; sent = c.sent ++ payload ∷ [] }

abbrev pub auto_framed : Response → Response
auto_framed r = record r {
  headers = r.headers ++ (codes "transfer-encoding", codes "chunked") ∷ [];
}

-- `start_response` of a final response
pub start_response : Response → ReqCtx → ReqCtx
unfolding response_allows_body scan_response_headers serialize_response
start_response r c =
    let allowed = response_allows_body c.method r.status_code in
    let scan = scan_response_headers r.headers in
    record c {
      response_status = some r.status_code;
      body_allowed = allowed;
      close_after_response = scan.has_close || not c.keep_alive || c.close_after_response;
      chunked = allowed && (not scan.has_framing || scan.has_chunked) || c.chunked;
      pending =
          some (serialize_response (if allowed && not scan.has_framing then auto_framed r else r));
    }

-- and of an informational one
pub start_informational : Response → ReqCtx → ReqCtx
unfolding serialize_response
start_informational r c = record c { sent = c.sent ++ serialize_response r ∷ [] }

pub frame : Bool → Bytes → Bytes
unfolding print_hex
frame chunked chunk =
    if chunked && not (is_empty chunk)
    then print_hex (length chunk) ++ (crlf ++ (chunk ++ crlf))
    else chunk

pub send : Bytes → ReqCtx → ReqCtx
unfolding frame
send chunk c =
    if not c.body_allowed
    then elim c.pending [ none ↦ c | some head ↦ flush head c ]
    else elim c.pending [
      | some head ↦ flush (head ++ frame c.chunked chunk) c
      | none ↦ if is_empty chunk then c else flush (frame c.chunked chunk) c
    ]

pub finish_response : ReqCtx → ReqCtx
finish_response c =
    let terminator : Bytes = if c.chunked then codes "0" ++ (crlf ++ crlf) else [] in
    let flushed : ReqCtx = elim c.pending [
      | some head ↦ flush (head ++ terminator) c
      | none ↦ if is_empty terminator then c else flush terminator c
    ] in
    record flushed { given_back = true }

pub complete : Response → Option Bytes → ReqCtx → ReqCtx
unfolding start_response send finish_response
complete r none c = finish_response (start_response r c)
complete r (some body) c = finish_response (send body (start_response r c))

-- `_native_stream`: each chunk comes with whether `check_cancelled` raises before it is sent
pub send_chunks : List (Bool × Bytes) → ReqCtx → ReqCtx
unfolding send finish_response
send_chunks [] c = finish_response c
send_chunks ((cancelled, chunk) ∷ chunks) c =
    let rest = send_chunks chunks (send chunk c) in if cancelled then c else rest

pub stream : Response → List (Bool × Bytes) → ReqCtx → ReqCtx
unfolding start_response send_chunks
stream r chunks c = send_chunks chunks (start_response r c)
