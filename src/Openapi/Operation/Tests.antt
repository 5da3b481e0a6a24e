-- ===== src/Openapi/Operation/Tests.antt =====
-- localpost/openapi at concrete operations; values are texts.
use localpost_py.Prelude.{
  ◌≡◌, refl, Bool, true, false, inl, inr, none, some, List, [], ◌∷◌, map, ◌||◌, if◌then◌else◌,
}
use localpost_py.Bytes.{Bytes, codes, bytes_eq, lower, has_byte, drop_prefix}
use localpost_py.Bytes.Decimal.{print_ℕ}
use localpost_py.Http.Writer.{scan_response_headers}
use localpost_py.Http.Compress.Rewriting.{values_of}
use localpost_py.Http.Template.{UriTemplate, parse, match, literal, variable}
use localpost_py.Openapi.{
  one_type, str_type, plain, ok, created, unauthorized, not_found, status_code, OpResult, from_path,
  from_query, from_body, Parameter,
}
use localpost_py.Openapi.Shapes.{
  Member, none_member, result_member, value_member, stream_member, has_code, ResponseShape,
  text_event_stream, extract_response_shapes, Returned, returned_none, returned_value, as_result,
}
use localpost_py.Openapi.Resolvers.{resolve}
use localpost_py.Openapi.Resolvers.Tests.{text, no_custom, book_id, limit, at}
use localpost_py.Openapi.Operation.{
  Adapters, pick_factory, build_arg_resolvers, Operation, made, create, Argument, value_argument,
  arguments, Encoded, encode_body, build_http_response, resolve_arguments, run_core, buffer_body,
  FunctionMiddleware, call_middleware, run_chain, CustomDoc, has_response, build_responses,
  Contribution, build_spec,
}
use localpost_py.Openapi.Operation.Binding.{any_missing, match-any_missing}
use localpost_py.Openapi.Operation.Answers.{
  response_at, any_declares, build_spec-responses, run_core-documented,
}
use localpost_py.Openapi.Operation.Responding.{set_or, build_http_response-framed}

abbrev adapters : Adapters
adapters = record {
  is_body = λ t. elim t [ one_type (plain n) ↦ true | _ ↦ false ];
  is_ctx = λ t. false;
}

abbrev no_custom_doc : CustomDoc Bytes
no_custom_doc n p doc = doc

abbrev books : UriTemplate
books = record {
  template = codes "/books/{id}";
  variable_names = codes "id" ∷ [];
  parts = literal (codes "/books/") ∷ variable (codes "id") ∷ literal [] ∷ [];
}

abbrev any_identifier : Bytes → Bool
any_identifier n = true

books_parsed : parse any_identifier (codes "/books/{id}") ≡ some books
unfolding parse has_byte
books_parsed = refl

books_matched : match books (codes "/books/42") ≡ some ((codes "id", codes "42") ∷ [])
unfolding match drop_prefix
books_matched = refl

-- `Book | NotFound[str] | None`, for one parameter from the path and one from the query
abbrev returns : List Member
returns = value_member (plain 7) ∷ result_member created (some (plain 7)) ∷ none_member ∷ []

abbrev find_book : Operation Bytes
find_book = record {
  parameters =
      (book_id, some (from_path (some (codes "id"))))
      ∷ (limit, some (from_query (some (codes "limit"))))
      ∷ [];
  return_shapes = (extract_response_shapes (some returns)).0;
  null_is_not_found = true;
  needs_body = false;
}

find_book-made :
    create adapters (codes "id" ∷ []) (book_id ∷ limit ∷ []) (some returns) ≡ made find_book
unfolding create build_arg_resolvers pick_factory extract_response_shapes
find_book-made = refl

find_book-resolved :
    resolve_arguments text no_custom find_book.parameters (buffer_body false (at (codes "2") [] []))
    ≡ (
      arguments (value_argument (some (codes "2")) ∷ value_argument none ∷ []),
      record (at (codes "2") [] []) { query_cache = some [] },
    )
unfolding resolve_arguments resolve
find_book-resolved = refl

match-any_missing_example : any_missing ((codes "id", codes "42") ∷ []) find_book.parameters ≡ false
match-any_missing_example =
    match-any_missing any_identifier (codes "/books/{id}") books adapters (book_id ∷ limit ∷ [])
      (some returns) find_book (codes "/books/42") ((codes "id", codes "42") ∷ []) books_parsed
      find_book-made books_matched

-- a book, or nothing
abbrev find : List (Argument Bytes) → Returned Bytes
find (value_argument (some id) ∷ args) =
    if bytes_eq id (codes "42") then returned_value (codes "Dune") else returned_none
find args = returned_none

-- a middleware that may answer 401, 404 or what the operation answers
abbrev guard : Contribution Bytes
guard = record {
  parameters = [];
  shapes =
      (extract_response_shapes
        (some (result_member unauthorized none ∷ result_member not_found (some (plain 9)) ∷ []))).0;
}

run_core-documented_example :
    has_response
      (status_code (run_core text no_custom find find_book (at (codes "2") [] [])).0.result_class)
      (build_spec no_custom_doc find_book (guard ∷ [])).responses
    ≡ true
run_core-documented_example =
    run_core-documented no_custom_doc text no_custom find adapters (codes "id" ∷ [])
      (book_id ∷ limit ∷ []) returns find_book (guard ∷ []) (at (codes "2") [] [])
      (record (at (codes "2") [] []) { query_cache = some [] })
      (value_argument (some (codes "2")) ∷ value_argument none ∷ []) (λ n p doc. refl)
      find_book-made find_book-resolved (inr (inr (inl tt))) refl

-- the middleware's 401 is added, and its 404 does not replace the operation's
build_spec-responses_example :
    (has_response 404 (build_spec no_custom_doc find_book (guard ∷ [])).responses
      ≡ has_code 404 find_book.return_shapes || any_declares 404 (guard ∷ []))
    × ((s : ResponseShape)
        → response_at 404 (build_responses find_book.return_shapes []) ≡ some s
        → response_at 404 (build_spec no_custom_doc find_book (guard ∷ [])).responses ≡ some s)
build_spec-responses_example =
    build_spec-responses no_custom_doc (λ n p doc. refl) find_book (guard ∷ []) 404

abbrev plain_text : Bytes → Encoded
plain_text v = record { content = v; content_type = codes "text/plain; charset=utf-8" }

abbrev dune : OpResult Bytes
dune = record {
  result_class = ok;
  body = some (codes "Dune");
  headers = (codes "Content-Type", codes "text/html") ∷ [];
}

build_http_response-framed_example :
    let hs = (build_http_response (encode_body plain_text) dune).0.headers in
    (values_of (codes "content-length") hs
      ≡ set_or (codes "content-length") dune.headers (print_ℕ 4 ∷ []))
    × (values_of (codes "content-type") hs
        ≡ set_or (codes "content-type") dune.headers (codes "text/plain; charset=utf-8" ∷ []))
    × ((name : Bytes)
        → bytes_eq (codes "content-length") name ≡ false
        → bytes_eq (codes "content-type") name ≡ false
        → values_of name hs ≡ values_of name dune.headers)
    × ((scan_response_headers hs).has_framing ≡ true)
    × ((scan_response_headers hs).has_chunked ≡ (scan_response_headers dune.headers).has_chunked)
build_http_response-framed_example = build_http_response-framed (encode_body plain_text) dune

-- A result that is chunked by its own headers has a content length as well.
both_framings :
    let r = record dune { headers = (codes "Transfer-Encoding", codes "chunked") ∷ [] } in
    let hs = (build_http_response (encode_body plain_text) r).0.headers in
    (values_of (codes "content-length") hs ≡ codes "4" ∷ [])
    × (values_of (codes "transfer-encoding") hs ≡ codes "chunked" ∷ [])
unfolding build_http_response values_of lower print_ℕ
both_framings = (refl, refl)

-- `Created[Book] | NotFound[str] | None`: `None` is answered 200, which the document does not have.
abbrev created_or_none : List Member
created_or_none =
    result_member created (some (plain 7))
    ∷ result_member not_found (some (plain 8))
    ∷ none_member
    ∷ []

undocumented_200 :
    let (shapes, null) = extract_response_shapes (some created_or_none) in
    ((as_result {V = Bytes} null returned_none).result_class ≡ ok) × (has_code 200 shapes ≡ false)
unfolding extract_response_shapes as_result
undocumented_200 = (refl, refl)

-- a list of a function whose annotation is `Iterable[T]` is sent as a value, and documented as a stream
iterable_as_json :
    (map
        (λ s. s.content_type)
        (extract_response_shapes (some (stream_member (some (plain 7)) ∷ []))).0
      ≡ text_event_stream ∷ [])
    × ((as_result false (returned_value (codes "Dune"))).result_class ≡ ok)
unfolding extract_response_shapes as_result
iterable_as_json = (refl, refl)

-- A body parameter of a middleware reads the body before the operation has buffered it: whatever the
-- request sends, the middleware has an empty body.
abbrev body_text : Parameter Bytes
body_text = record {
  name = codes "raw";
  annotation = some (one_type str_type);
  explicit = some from_body;
  default = none;
}

abbrev echo : FunctionMiddleware text no_custom
echo = record {
  parameters = (body_text, some from_body) ∷ [];
  target = λ args next ctx. (
    record {
      result_class = ok;
      body = elim args [ value_argument v ∷ more ↦ v | _ ↦ none ];
      headers = [];
    },
    ctx,
  );
}

middleware_body_empty :
    (run_chain text no_custom
      (echo ∷ [])
      (run_core text no_custom find find_book)
      (at [] [] (codes "hello"))).0.body
    ≡ some []
unfolding run_chain call_middleware resolve_arguments resolve
middleware_body_empty = refl
