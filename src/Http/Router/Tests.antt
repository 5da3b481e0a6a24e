-- ===== src/Http/Router/Tests.antt =====
-- localpost/http/router.py at concrete templates, routes and paths.
use localpost_py.Prelude.{
  ℕ, ◌≡◌, ◌≢◌, refl, Bool, not, none, some, List, [], ◌∷◌, map, length, if◌then◌else◌,
}
use localpost_py.Bytes.{Bytes, codes, is_empty, drop_prefix, has_byte}
use localpost_py.Http.Types.{get, post, parse_method}
use localpost_py.Http.Template.{
  literal, variable, UriTemplate, parse, match, names, literal_prefix_len,
}
use localpost_py.Http.Template.Matching.{Fits, ends, text, segment, match-Fits, Fits-match}
use localpost_py.Http.Template.Parsing.{print_parts, parse_roundtrip, first_literal}
use localpost_py.Http.Router.{
  dispatch, unicode_decode_error, Routes, Route, same_method, add, has_duplicate, from_routes,
  compile_route, match_ok, match_not_found, match_method_not_allowed, any_match, match_routes,
  format_allow_header, build_method_not_allowed,
}
use localpost_py.Http.Router.Dispatch.{offered, first_found, or_answer, match_routes_lem}
use localpost_py.Http.Router.Building.{from_routes-IsCompiled}
use localpost_py.Http.Router.Combined.{is_matched}
use localpost_py.Http.Router.Unique.{IsBuilt, add-IsBuilt}

abbrev identifier : Bytes → Bool
identifier n = not (is_empty n)

abbrev book : UriTemplate
book = record {
  template = codes "/a/{x}";
  variable_names = codes "x" ∷ [];
  parts = literal (codes "/a/") ∷ variable (codes "x") ∷ literal [] ∷ [];
}

abbrev author : UriTemplate
author = record {
  template = codes "/a/b";
  variable_names = [];
  parts = literal (codes "/a/b") ∷ [];
}

abbrev book_args : List (Bytes × Bytes)
book_args = (codes "x", codes "7") ∷ []

book_parsed : parse identifier (codes "/a/{x}") ≡ some book
unfolding parse has_byte
book_parsed = refl

book_matched : match book (codes "/a/7") ≡ some book_args
unfolding match drop_prefix
book_matched = refl

slash_refused : match book (codes "/a/7/8") ≡ none
unfolding match drop_prefix
slash_refused = refl

parse_roundtrip_example :
    (print_parts book.parts ≡ codes "/a/{x}")
    × (book.template ≡ codes "/a/{x}")
    × (book.variable_names ≡ names book.parts)
    × (length (first_literal book.parts) ≡ literal_prefix_len (codes "/a/{x}"))
parse_roundtrip_example = parse_roundtrip identifier (codes "/a/{x}") book_parsed

match-Fits_example : Fits book.parts (codes "/a/7") book_args
match-Fits_example = match-Fits book (codes "/a/7") book_args book_matched

Fits-match_example : match book (codes "/a/7") ≢ none
Fits-match_example = Fits-match book (codes "/a/7") book_args (
    text (codes "/a/") (
      segment (codes "x") (codes "7") (record { filled = refl; no_slash = unfold has_byte in refl })
        (text [] (ends [] refl))))

-- the variable template first, then the longer literal one
abbrev builder : Routes ℕ
builder = (book, (get, 1) ∷ (post, 2) ∷ []) ∷ (author, (get, 3) ∷ []) ∷ []

abbrev routes : List (Route ℕ)
routes = map compile_route ((author, (get, 3) ∷ []) ∷ (book, (get, 1) ∷ (post, 2) ∷ []) ∷ [])

builder_compiled : from_routes builder ≡ some routes
unfolding from_routes has_byte literal_prefix_len
builder_compiled = refl

-- POST at the path of both templates is the second route's
post_falls_through :
    match_routes (codes "/a/b") (codes "POST") routes
    ≡ match_ok 2 post book ((codes "x", codes "b") ∷ [])
unfolding match_routes any_match compile_route match drop_prefix parse_method same_method has_byte
post_falls_through = refl

match_routes_lem_example : match_routes (codes "/a/b") (codes "PUT") routes ≡ (
    if is_matched (codes "/a/b") routes
    then or_answer
        (codes "/a/b")
        (match_method_not_allowed
          (build_method_not_allowed (format_allow_header (offered (codes "/a/b") routes))))
        (first_found (codes "/a/b") (parse_method (codes "PUT")) routes)
    else match_not_found)
match_routes_lem_example =
    match_routes_lem (codes "/a/b") (codes "PUT") routes
      (from_routes-IsCompiled builder routes (refl, (refl, tt)) builder_compiled)

abbrev with_post : Routes ℕ
with_post = (book, (get, 1) ∷ (post, 2) ∷ []) ∷ (author, (get, 3) ∷ (post, 4) ∷ []) ∷ []

post_added : add identifier post (codes "/a/b") 4 builder ≡ some with_post
unfolding add same_method
post_added = refl

add-IsBuilt_example : IsBuilt {H = ℕ} with_post × (from_routes with_post ≢ none)
unfolding has_duplicate
add-IsBuilt_example =
    add-IsBuilt identifier post (codes "/a/b") 4 builder _ post_added
      (record { distinct = refl; filled = (refl, (refl, tt)) })

method_undecoded : dispatch (codes "/a/b") (b'P' ∷ 200 ∷ []) routes ≡ unicode_decode_error
unfolding dispatch
method_undecoded = refl
