-- ===== src/Http/Static.antt =====
-- localpost/http/static.py: the handler of static files. Paths, the file system, MIME types, URL
-- decoding and HTTP dates are the operating system's and Python's: the record `FileSystem` has what
-- the handler calls. A request is answered by the one call on `ctx` that ends it.
pub mod Ranges
pub mod Containment
pub mod Replies
mod Tests
use localpost_py.Prelude.{
  ℕ, zero, suc, ◌+◌, ◌-◌, ◌/◌, ◌%◌, ℤ, pos, negsuc, Bool, true, false, not, ◌&&◌, ◌||◌, Option,
  none, some, List, [], ◌∷◌, ◌++◌, length, ltb, leb, ◌==◌, if◌then◌else◌,
}
use Prim.Native.Nat.{min}
use localpost_py.Bytes.{
  Bytes, codes, bytes_eq, is_empty, lower, strip, partition, split, drop_prefix, has_byte, lstrip,
}
use localpost_py.Bytes.Decimal.{print_ℕ, parse_int}
use localpost_py.Bytes.Hex.{hex_from}
use localpost_py.Http.Types.{Headers, Request, Response}

pub record Stat : Type 0 where
  pub is_regular : Bool
  pub size : ℕ
  pub mtime : ℕ
  pub mtime_ns : ℕ

-- `none` is the exception that the source catches. `resolve_under d t` is `(d / t).resolve()`.
-- `can_open` is false where `open("rb")` raises; a file that was opened is the path it was opened at.
pub record FileSystem (P : Type 0) : Type 0 where
  pub unquote : Bytes → Option Bytes
  pub resolve_under : P → Bytes → P
  pub is_relative_to : P → P → Bool
  pub is_dir : P → Option Bool
  pub stat : P → Option Stat
  pub can_open : P → Bool
  pub guess_type : P → Option Bytes
  pub format_date : ℕ → Bytes
  pub parse_date : Bytes → Option ℤ

pub record Config (P : Type 0) : Type 0 where
  pub root : P
  pub url_prefix : Bytes
  pub cache_control : Option Bytes
  pub index : Option Bytes

-- `open_error` is the `OSError` of opening a file, which leaves the handler.
pub data Reply (P : Type 0) : Type 0 where
  complete : Response → Option Bytes → Reply P
  sendfile : Response → P → ℕ → ℕ → Reply P
  open_error : P → Reply P

-- `_parse_range`: no range to serve, one past the end, or an offset and a length
pub data Range : Type 0 where
  ignored unsatisfiable : Range
  satisfiable : ℕ → ℕ → Range

suffix_range : Option ℤ → ℕ → Range
suffix_range none size = ignored
suffix_range (some (negsuc n)) size = ignored
suffix_range (some (pos n)) size =
    if n == 0 then ignored else satisfiable (size - min n size) (min n size)

-- with both ends; `end < start` is also true of every negative end
closed_range : ℕ → Option ℤ → ℕ → Range
closed_range start none size = ignored
closed_range start (some (negsuc n)) size = ignored
closed_range start (some (pos end)) size =
    if ltb end start then ignored else satisfiable start (min end (size - 1) - start + 1)

started_range : Option ℤ → Bytes → ℕ → Range
unfolding closed_range
started_range none end_b size = ignored
started_range (some (negsuc n)) end_b size = ignored
started_range (some (pos start)) end_b size =
    if leb size start
    then unsatisfiable
    else if is_empty end_b
    then satisfiable start (size - start)
    else closed_range start (parse_int end_b) size

-- the spec with its two sides of the `-`
from_ends : Bytes → Bytes → ℕ → Range
unfolding suffix_range started_range
from_ends start_b end_b size =
    if size == 0
    then unsatisfiable
    else if is_empty start_b
    then if is_empty end_b then ignored else suffix_range (parse_int end_b) size
    else started_range (parse_int start_b) end_b size

pub parse_range : Bytes → ℕ → Range
unfolding from_ends
parse_range header size =
    let (unit, has_spec, spec) = partition b'=' (strip header) in
    let (start_b, sep, end_b) = partition b'-' spec in
    if not (bytes_eq (lower unit) (codes "bytes")) || is_empty spec
    then ignored
    else if has_byte b',' spec
    then ignored
    else if not sep
    then ignored
    else from_ends start_b end_b size

-- `_etag`
pub etag_of : Stat → Bytes
unfolding hex_from
etag_of st =
    b'"'
    ∷ (hex_from (suc st.size) st.size
        ++ (b'-' ∷ (hex_from (suc st.mtime_ns) st.mtime_ns ++ b'"' ∷ [])))

-- a weak tag compares as the strong one
abbrev bare_tag : Bytes → Bytes
bare_tag tag = elim (drop_prefix (codes "W/") tag) [ some rest ↦ rest | none ↦ tag ]

abbrev any_tag : Bytes → List Bytes → Bool
any_tag bare [] = false
any_tag bare (t ∷ ts) = bytes_eq (bare_tag (strip t)) bare || any_tag bare ts

-- `_if_none_match_matches`
pub if_none_match_matches : Bytes → Bytes → Bool
if_none_match_matches header etag =
    bytes_eq (strip header) (codes "*") || any_tag (bare_tag etag) (split b',' header)

-- `_headers_index`: the last value of a name wins
pub find_header : Bytes → Headers → Option Bytes
find_header name [] = none
find_header name ((n, v) ∷ hs) = elim (find_header name hs) [
  | some w ↦ some w
  | none ↦ if bytes_eq n name then some v else none
]

abbrev text_headers : Bytes → Headers
text_headers body =
    (codes "content-type", codes "text/plain; charset=utf-8")
    ∷ (codes "content-length", print_ℕ (length body))
    ∷ []

abbrev plain : ℕ → Headers → Response
plain status headers = record { status_code = status; headers = headers; reason = [] }

abbrev unless_head : Bytes → Bytes → Option Bytes
unless_head method body = if bytes_eq method (codes "HEAD") then none else some body

pub method_not_allowed : {P : Type 0} → Reply P
method_not_allowed =
    let body = codes "Method Not Allowed" in
    complete (plain 405 ((codes "allow", codes "GET, HEAD") ∷ text_headers body)) (some body)

-- `_send_not_found`
pub send_not_found : {P : Type 0} → Bytes → Reply P
send_not_found method =
    let body = codes "Not Found" in
    complete (plain 404 (text_headers body)) (unless_head method body)

abbrev with_cache_control : Option Bytes → Headers
with_cache_control none = []
with_cache_control (some cc_bytes) = (codes "cache-control", cc_bytes) ∷ []

-- `_send_not_modified`
pub send_not_modified : {P : Type 0} → Bytes → Bytes → Option Bytes → Reply P
send_not_modified etag last_modified cache_control =
    complete
      (plain 304 (
        (codes "etag", etag)
        ∷ (codes "last-modified", last_modified)
        ∷ with_cache_control cache_control))
      none

-- `_send_range_not_satisfiable`
pub send_range_not_satisfiable : {P : Type 0} → Bytes → ℕ → Bytes → Bytes → Reply P
send_range_not_satisfiable method size etag last_modified =
    let body = codes "Range Not Satisfiable" in
    complete
      (plain 416 (
        text_headers body
        ++ ((codes "content-range", codes "bytes */" ++ print_ℕ size)
            ∷ (codes "etag", etag)
            ∷ (codes "last-modified", last_modified)
            ∷ [])))
      (unless_head method body)

-- `decoded.lstrip("/")`
abbrev pub strip_slashes : Bytes → Bytes
strip_slashes [] = []
strip_slashes (c ∷ cs) = if c == b'/' then strip_slashes cs else c ∷ cs

-- `any(p == ".." for p in segments)`
pub has_dots : List Bytes → Bool
has_dots [] = false
has_dots (p ∷ ps) = bytes_eq p (codes "..") || has_dots ps

module _ {P : Type 0} (fs : FileSystem P) (config : Config P) where
  abbrev contained : P → Option P
  contained candidate = if fs.is_relative_to candidate config.root then some candidate else none

  -- the directory's index
  pub resolve_index : P → Option P
  resolve_index candidate = elim config.index [
    | none ↦ none
    | some index ↦ contained (fs.resolve_under candidate index)
  ]

  -- `_resolve`
  pub resolve : Bytes → Option P
  unfolding has_dots resolve_index
  resolve rel = elim (fs.unquote rel) [
    | none ↦ none
    | some decoded ↦
        if has_byte 0 decoded
        then none
        else if has_dots (split b'/' decoded)
        then none
        else elim (contained (fs.resolve_under config.root (strip_slashes decoded))) [
          | none ↦ none
          | some candidate ↦ elim (fs.is_dir candidate) [
            | none ↦ none
            | some true ↦ resolve_index candidate
            | some false ↦ some candidate
          ]
        ]
  ]

  -- `_if_modified_since_satisfied`; `none` is a header that is no date
  pub if_modified_since_satisfied : Bytes → ℕ → Bool
  if_modified_since_satisfied header mtime = elim (fs.parse_date header) [
    | none ↦ false
    | some (negsuc n) ↦ false
    | some (pos since) ↦ leb mtime since
  ]

  -- `_content_type`
  content_type : P → Bytes
  content_type path = elim (fs.guess_type path) [
    | none ↦ codes "application/octet-stream"
    | some mime ↦ if is_empty mime then codes "application/octet-stream" else mime
  ]

  -- the two conditions of a 304
  pub is_not_modified : Headers → Stat → Bool
  unfolding if_modified_since_satisfied
  is_not_modified headers st = elim (find_header (codes "if-none-match") headers) [
    | some inm ↦ if_none_match_matches inm (etag_of st)
    | none ↦ elim (find_header (codes "if-modified-since") headers) [
      | none ↦ false
      | some ims ↦ if_modified_since_satisfied ims st.mtime
    ]
  ]

  abbrev content_range : ℕ → ℕ → ℕ → Headers
  content_range offset length size =
      (
        codes "content-range",
        codes "bytes "
            ++ (print_ℕ offset
                ++ (b'-' ∷ (print_ℕ (offset + length - 1) ++ (b'/' ∷ print_ℕ size)))),
      )
      ∷ []

  -- the answer with a body, from the response headers on
  pub send : Bytes → P → Stat → ℕ → ℕ → ℕ → Headers → Reply P
  unfolding content_type
  send method target st status offset length range =
      let response = plain status (
        (codes "content-type", content_type target)
        ∷ (codes "content-length", print_ℕ length)
        ∷ (codes "etag", etag_of st)
        ∷ (codes "last-modified", fs.format_date st.mtime)
        ∷ (codes "accept-ranges", codes "bytes")
        ∷ (range ++ with_cache_control config.cache_control)) in
      if bytes_eq method (codes "HEAD") || length == 0
      then complete response none
      else if fs.can_open target
      then sendfile response target offset length
      else open_error target

  -- from the `Range` header on
  pub send_range : Bytes → P → Stat → Range → Reply P
  unfolding send
  send_range method target st ignored = send method target st 200 0 st.size []
  send_range method target st unsatisfiable =
      send_range_not_satisfiable method st.size (etag_of st) (fs.format_date st.mtime)
  send_range method target st (satisfiable offset length) =
      send method target st 206 offset length (content_range offset length st.size)

  pub range_of : Headers → ℕ → Range
  range_of headers size = elim (find_header (codes "range") headers) [
    | none ↦ ignored
    | some rng ↦ parse_range rng size
  ]

  -- a file that is there
  pub send_file : Request → P → Stat → Reply P
  unfolding is_not_modified range_of send_range
  send_file request target st =
      if is_not_modified request.headers st
      then send_not_modified (etag_of st) (fs.format_date st.mtime) config.cache_control
      else send_range request.method target st (range_of request.headers st.size)

  abbrev pub answers : Bytes → Bool
  answers method = bytes_eq method (codes "GET") || bytes_eq method (codes "HEAD")

  -- the path after the prefix, the file it names, and what `stat` says of it
  pub find_file : Request → Option (P × Stat)
  unfolding resolve
  find_file request = elim (drop_prefix config.url_prefix request.path) [
    | none ↦ none
    | some rel ↦ elim (resolve rel) [
      | none ↦ none
      | some target ↦ elim (fs.stat target) [
        | none ↦ none
        | some st ↦ if st.is_regular then some (target, st) else none
      ]
    ]
  ]

  -- `static_handler`'s `handle`
  pub handle : Request → Reply P
  unfolding find_file send_file
  handle request =
      if not (answers request.method) then method_not_allowed else elim (find_file request) [
        | none ↦ send_not_found request.method
        | some (target, st) ↦ send_file request target st
      ]
