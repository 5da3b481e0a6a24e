-- ===== src/Openapi/Operation/Responding.antt =====
-- localpost/openapi/_operation_core.py: the headers of an operation's answer, and how the connection
-- (localpost/http/server_httptools.py) frames it.
use localpost_py.Prelude.{
  ◌≡◌, refl, ap, ◌∙◌, Bool, true, false, not, ◌&&◌, ◌||◌, Option, List, [], ◌∷◌, ◌++◌, length,
  if◌then◌else◌, arith, Bool-cases, inl, inr,
}
use mathlib.Core.List.{append-nil}
use localpost_py.Bytes.{Bytes, codes, bytes_eq, is_empty, lower}
use localpost_py.Bytes.Laws.{bytes_eq_refl}
use localpost_py.Bytes.Decimal.{print_ℕ}
use localpost_py.Http.Types.{Headers, has_header}
use localpost_py.Http.Writer.{scan_response_headers}
use localpost_py.Http.Writer.Scanning.{
  scan_response_headers-content_length, scan_response_headers-unchunking, IsUnchunking,
  single-IsUnchunking, none-IsUnchunking,
}
use localpost_py.Http.Compress.Rewriting.{values_of}
use localpost_py.Openapi.{OpResult}
use localpost_py.Openapi.Operation.{Encoded, added, build_http_response}

values_of-append :
    (name : Bytes) (hs ks : Headers)
    → values_of name (hs ++ ks) ≡ values_of name hs ++ values_of name ks
unfolding values_of
values_of-append name [] ks = refl
values_of-append name ((n, v) ∷ hs) ks = ground (arith, values_of-append name hs ks)

values_of-absent :
    (name : Bytes) (hs : Headers) → has_header name hs ≡ false → values_of name hs ≡ []
unfolding values_of
values_of-absent name [] h = refl
values_of-absent name ((n, v) ∷ hs) h = ground (arith, h, values_of-absent name hs)

has_header-append :
    (name : Bytes) (hs ks : Headers)
    → has_header name (hs ++ ks) ≡ has_header name hs || has_header name ks
has_header-append name [] ks = refl
has_header-append name ((n, v) ∷ hs) ks = ground (arith, has_header-append name hs ks)

-- what a header is set to, or else what `build_http_response` puts there
abbrev pub set_or : Bytes → Headers → List Bytes → List Bytes
set_or name hs vs = if has_header name hs then values_of name hs else vs

set_or-added :
    (name value : Bytes) (hs : Headers) (b c : Bool)
    → lower name ≡ name
    → b ≡ not (has_header name hs) && c
    → values_of name hs ++ values_of name (added b name value)
      ≡ set_or name hs (if c then value ∷ [] else [])
unfolding values_of
set_or-added name value hs b c low e = elim (Bool-cases (has_header name hs)) [
  | inl g ↦ rw (e, g) (append-nil (values_of name hs))
  | inr g ↦ rw (e, g, values_of-absent name hs g) (own c)
]
  where
    own : (d : Bool) → values_of name (added d name value) ≡ (if d then value ∷ [] else [])
    own true = ground (arith, low, bytes_eq_refl name, ap (λ n. bytes_eq n name) low)
    own false = refl

-- a header of another name does not count
values_of-other :
    (name n v : Bytes) (b : Bool)
    → bytes_eq (lower n) name ≡ false
    → values_of name (added b n v) ≡ []
unfolding values_of
values_of-other name n v true h = rw h refl
values_of-other name n v false h = refl

has_header-added :
    (name v : Bytes) (hs ks : Headers)
    → lower name ≡ name
    → has_header name (hs ++ (ks ++ added (not (has_header name hs)) name v)) ≡ true
has_header-added name v hs ks low =
    has_header-append name hs (ks ++ added (not (has_header name hs)) name v)
    ∙ ap (λ b. has_header name hs || b)
        (has_header-append name ks (added (not (has_header name hs)) name v))
    ∙ last (has_header name hs)
  where
    last : (b : Bool) → b || (has_header name ks || has_header name (added (not b) name v)) ≡ true
    last true = refl
    last false = ground (arith, bytes_eq_refl name, ap (λ n. bytes_eq n name) low)

lower_length : lower (codes "content-length") ≡ codes "content-length"
unfolding lower
lower_length = refl

lower_type : lower (codes "content-type") ≡ codes "content-type"
unfolding lower
lower_type = refl

-- the values of a header in the three parts of the answer's headers
values_of-parts :
    (name : Bytes) (hs typed sized : Headers)
    → values_of name (hs ++ (typed ++ sized))
      ≡ values_of name hs ++ (values_of name typed ++ values_of name sized)
values_of-parts name hs typed sized =
    values_of-append name hs (typed ++ sized)
    ∙ ap (λ vs. values_of name hs ++ vs) (values_of-append name typed sized)

no_type :
    (name v : Bytes) (b : Bool)
    → bytes_eq (codes "content-type") name ≡ false
    → values_of name (added b (codes "content-type") v) ≡ []
no_type name v b h =
    values_of-other name (codes "content-type") v b (ap (λ n. bytes_eq n name) lower_type ∙ h)

no_length :
    (name v : Bytes) (b : Bool)
    → bytes_eq (codes "content-length") name ≡ false
    → values_of name (added b (codes "content-length") v) ≡ []
no_length name v b h =
    values_of-other name (codes "content-length") v b (ap (λ n. bytes_eq n name) lower_length ∙ h)

added-IsUnchunking :
    (b : Bool) (n v : Bytes)
    → bytes_eq (lower n) (codes "transfer-encoding") ≡ false
    → IsUnchunking (added b n v)
added-IsUnchunking true n v h = single-IsUnchunking n v h
added-IsUnchunking false n v h = none-IsUnchunking

-- The answer to a result has a content length, which is the body's unless the result sets it; it has a
-- content type, which is the encoder's if the body is not empty and the result does not set it; other
-- headers are the result's own; and the connection adds no transfer coding to it, and chunks the body
-- exactly if the result's own headers say that it is chunked.
pub build_http_response-framed :
    {V : Type 0} (encode : Option V → Encoded) (r : OpResult V)
    → let hs = (build_http_response encode r).0.headers in
      let e = encode r.body in
      (values_of (codes "content-length") hs
        ≡ set_or (codes "content-length") r.headers (print_ℕ (length e.content) ∷ []))
      × (values_of (codes "content-type") hs
          ≡ set_or (codes "content-type") r.headers (
              if not (is_empty e.content) && not (is_empty e.content_type)
              then e.content_type ∷ []
              else []))
      × ((name : Bytes)
          → bytes_eq (codes "content-length") name ≡ false
          → bytes_eq (codes "content-type") name ≡ false
          → values_of name hs ≡ values_of name r.headers)
      × ((scan_response_headers hs).has_framing ≡ true)
      × ((scan_response_headers hs).has_chunked ≡ (scan_response_headers r.headers).has_chunked)
unfolding build_http_response
build_http_response-framed encode r =
    let e = encode r.body in
    let hs = r.headers in
    let has_type =
      not (is_empty e.content)
      && (not (has_header (codes "content-type") hs) && not (is_empty e.content_type)) in
    let lengthless = not (has_header (codes "content-length") hs) in
    let size = print_ℕ (length e.content) in
    let typed = added has_type (codes "content-type") e.content_type in
    let sized = added lengthless (codes "content-length") size in
    (
      values_of-parts (codes "content-length") hs typed sized
          ∙ ap
              (λ vs.
                values_of (codes "content-length") hs
                ++ (vs ++ values_of (codes "content-length") sized))
              (no_type (codes "content-length") e.content_type has_type refl)
          ∙ set_or-added (codes "content-length") size hs lengthless true lower_length
              (ground arith),
      values_of-parts (codes "content-type") hs typed sized
          ∙ ap
              (λ vs.
                values_of (codes "content-type") hs
                ++ (values_of (codes "content-type") typed ++ vs))
              (no_length (codes "content-type") size lengthless refl)
          ∙ ap (λ vs. values_of (codes "content-type") hs ++ vs)
              (append-nil (values_of (codes "content-type") typed))
          ∙ set_or-added (codes "content-type") e.content_type hs has_type
              (not (is_empty e.content) && not (is_empty e.content_type)) lower_type (ground arith),
      λ name k l.
          values_of-parts name hs typed sized
          ∙ ap (λ vs. values_of name hs ++ (vs ++ values_of name sized))
              (no_type name e.content_type has_type l)
          ∙ ap (λ vs. values_of name hs ++ vs) (no_length name size lengthless k)
          ∙ append-nil (values_of name hs),
      scan_response_headers-content_length (hs ++ (typed ++ sized))
          (has_header-added (codes "content-length") size hs typed lower_length),
      scan_response_headers-unchunking hs typed sized
          (added-IsUnchunking has_type (codes "content-type") e.content_type
            (ap (λ n. bytes_eq n (codes "transfer-encoding")) lower_type))
          (added-IsUnchunking lengthless (codes "content-length") size
            (ap (λ n. bytes_eq n (codes "transfer-encoding")) lower_length)),
    )
