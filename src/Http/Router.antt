-- ===== src/Http/Router.antt =====
-- localpost/http/router.py: `Routes` (the builder), `Router.from_routes` and the dispatch. Handlers
-- are of any type `H`; a `dict` is an association list in insertion order, keyed by the template's
-- text for `Routes.paths`, whose keys `add` looks up by that text.
pub mod Dispatch
pub mod Building
pub mod Unique
pub mod Combined
mod Tests
use localpost_py.Prelude.{
  ℕ, suc, ◌+◌, ◌-◌, Bool, true, false, ◌&&◌, ◌||◌, Option, none, some, List, [], ◌∷◌, ◌++◌, map,
  length, ltb, leb, ◌==◌, if◌then◌else◌,
}
use localpost_py.Bytes.{Bytes, codes, bytes_eq, is_empty, join}
use localpost_py.Bytes.Decimal.{print_ℕ}
use localpost_py.Http.Types.{
  Headers, Response, Method, method_name, all_methods, parse_method, connect, delete, get, head,
  options, patch, post, put, trace,
}
use localpost_py.Http.Template.{
  UriTemplate, parse, match_parts, reprefixed, match, literal_prefix_len,
}

unfoldable pub same_method : Method → Method → Bool
same_method m n = bytes_eq (method_name m) (method_name n)

abbrev pub Methods : Type 0 → Type 0
Methods H = List (Method × H)

abbrev pub handles : {H : Type 0} → Method → Methods H → Bool
handles m [] = false
handles m ((n, h) ∷ ms) = same_method m n || handles m ms

-- `method_map.get(method)`
abbrev pub get_handler : {H : Type 0} → Method → Methods H → Option H
get_handler m [] = none
get_handler m ((n, h) ∷ ms) = if same_method m n then some h else get_handler m ms

-- `method_map[method] = handler`
abbrev pub set_handler : {H : Type 0} → Method → H → Methods H → Methods H
set_handler m h [] = (m, h) ∷ []
set_handler m h ((n, k) ∷ ms) = if same_method m n then (n, h) ∷ ms else (n, k) ∷ set_handler m h ms

abbrev pub filter_methods : (Method → Bool) → List Method → List Method
filter_methods p [] = []
filter_methods p (m ∷ ms) = if p m then m ∷ filter_methods p ms else filter_methods p ms

-- `_format_allow_header` of the methods that pass the test; sorting a set of enum members by value
-- is to go through the enum in that order
pub format_allow_header : (Method → Bool) → Bytes
format_allow_header p = join (codes ", ") (map method_name (filter_methods p all_methods))

-- the reason phrases of `http.client.responses` for the two statuses that the router answers with
abbrev phrase : ℕ → Bytes
phrase status =
    if status == 404
    then codes "Not Found"
    else if status == 405
    then codes "Method Not Allowed"
    else codes "Unknown"

build_plain_response : ℕ → Bytes → Headers → Response
build_plain_response status body extra = record {
  status_code = status;
  headers =
      (codes "content-type", codes "text/plain")
      ∷ (codes "content-length", print_ℕ (length body))
      ∷ extra;
  reason = phrase status;
}

pub not_found : Response × Bytes
unfolding build_plain_response
not_found = let body = codes "Not Found" in (build_plain_response 404 body [], body)

pub build_method_not_allowed : Bytes → Response × Bytes
unfolding build_plain_response
build_method_not_allowed allow =
    let body = codes "Method Not Allowed" in
    (build_plain_response 405 body ((codes "Allow", allow) ∷ []), body)

-- `Routes`: the templates with their method tables
abbrev pub Routes : Type 0 → Type 0
Routes H = List (UriTemplate × Methods H)

pub record Route (H : Type 0) : Type 0 where
  pub template : UriTemplate
  pub methods : Methods H
  pub allow_header : Bytes
  pub method_not_allowed : Response × Bytes

abbrev to_upper : ℕ → ℕ
to_upper c = if leb b'a' c && leb c b'z' then c - 32 else c

module _ {H : Type 0} where
  -- `_find_template` and `setdefault`, then the assignment; `none` if the template is not there
  add_existing : Method → Bytes → H → Routes H → Option (Routes H)
  add_existing m t h [] = none
  add_existing m t h ((u, ms) ∷ rs) =
      let rest = add_existing m t h rs in
      if bytes_eq u.template t
      then some ((u, set_handler m h ms) ∷ rs)
      else elim rest [ none ↦ none | some rs' ↦ some ((u, ms) ∷ rs') ]

  abbrev append_new : Method → H → Routes H → Option UriTemplate → Option (Routes H)
  append_new m h rs none = none
  append_new m h rs (some u) = some (rs ++ (u, (m, h) ∷ []) ∷ [])

  -- `Routes.add` with an `HTTPMethod`; `none` is the `re.error` of a bad template
  pub add : (Bytes → Bool) → Method → Bytes → H → Routes H → Option (Routes H)
  unfolding add_existing
  add identifier m t h rs = elim (add_existing m t h rs) [
    | some rs' ↦ some rs'
    | none ↦ append_new m h rs (parse identifier t)
  ]

  -- `Routes.add` with a name; `none` is also the `ValueError` of an unknown method
  pub add_named : (Bytes → Bool) → Bytes → Bytes → H → Routes H → Option (Routes H)
  unfolding add
  add_named identifier name t h rs = elim (parse_method (map to_upper name)) [
    | none ↦ none
    | some m ↦ add identifier m t h rs
  ]

  -- the guard of `from_routes`
  abbrev has_template : Bytes → Routes H → Bool
  has_template t [] = false
  has_template t ((u, ms) ∷ rs) = bytes_eq t u.template || has_template t rs

  pub has_duplicate : Routes H → Bool
  has_duplicate [] = false
  has_duplicate ((u, ms) ∷ rs) = has_template u.template rs || has_duplicate rs

  abbrev pub prefix_of : UriTemplate × Methods H → ℕ
  prefix_of r = literal_prefix_len r.0.template

  -- `sorted(…, reverse=True)`, which is stable: a route goes before those of a shorter prefix, or
  -- of the same one, that came after it
  insert_route : UriTemplate × Methods H → Routes H → Routes H
  insert_route r [] = r ∷ []
  insert_route r (s ∷ rs) =
      let rest = insert_route r rs in
      if leb (prefix_of s) (prefix_of r) then r ∷ s ∷ rs else s ∷ rest

  pub sort_routes : Routes H → Routes H
  unfolding insert_route
  sort_routes [] = []
  sort_routes (r ∷ rs) = insert_route r (sort_routes rs)

  pub compile_route : UriTemplate × Methods H → Route H
  compile_route (t, ms) =
      let allow = format_allow_header (λ m. handles m ms) in
      record {
        template = t;
        methods = ms;
        allow_header = allow;
        method_not_allowed = build_method_not_allowed allow;
      }

  -- `Router.from_routes`; `none` is the `ValueError` of a duplicate template
  pub from_routes : Routes H → Option (List (Route H))
  unfolding has_duplicate sort_routes compile_route
  from_routes rs = if has_duplicate rs then none else some (map compile_route (sort_routes rs))

pub data MatchResult (H : Type 0) : Type 0 where
  match_ok : H → Method → UriTemplate → List (Bytes × Bytes) → MatchResult H
  match_not_found : MatchResult H
  match_method_not_allowed : Response × Bytes → MatchResult H
  assertion_error : MatchResult H

abbrev pub has_args : Option (List (Bytes × Bytes)) → Bool
has_args none = false
has_args (some args) = true

abbrev find_for : {H : Type 0} → Option Method → Methods H → Option (Method × H)
find_for none ms = none
find_for (some m) ms = elim (get_handler m ms) [ none ↦ none | some h ↦ some (m, h) ]

any_method : (Method → Bool) → List Method → Bool
any_method p [] = false
any_method p (m ∷ ms) = p m || any_method p ms

-- what `_match` returns after its loop
after_loop : {H : Type 0} → (Method → Bool) → ℕ → Option (Response × Bytes) → MatchResult H
after_loop allowed matched single =
    if matched == 1
    then elim single [ some answer ↦ match_method_not_allowed answer | none ↦ assertion_error ]
    else if any_method allowed all_methods
    then match_method_not_allowed (build_method_not_allowed (format_allow_header allowed))
    else assertion_error

module _ {H : Type 0} (path : Bytes) where
  -- the alternatives of the combined pattern, from number `i`
  any_alternative : ℕ → List (Route H) → Bool
  any_alternative i [] = false
  any_alternative i (r ∷ rs) =
      has_args (match_parts (reprefixed (b'r' ∷ print_ℕ i) r.template.parts) path)
      || any_alternative (suc i) rs

  -- does the combined pattern match?
  pub any_match : List (Route H) → Bool
  unfolding any_alternative
  any_match rs = any_alternative 0 rs

  -- the loop, with `allowed_methods`, `matched_routes` and `single_route_405`
  match_loop :
      Option Method
      → List (Route H)
      → (Method → Bool)
      → ℕ
      → Option (Response × Bytes)
      → MatchResult H
  match_loop method [] allowed matched single = after_loop allowed matched single
  match_loop method (r ∷ rs) allowed matched single = elim (match r.template path) [
    | none ↦ match_loop method rs allowed matched single
    | some args ↦ elim (find_for method r.methods) [
      | some (m, h) ↦ match_ok h m r.template args
      | none ↦
          match_loop method rs (λ m. allowed m || handles m r.methods) (matched + 1)
            (some r.method_not_allowed)
    ]
  ]

  -- `Router._match`
  pub match_routes : Bytes → List (Route H) → MatchResult H
  unfolding any_match match_loop
  match_routes method_str rs =
      if any_match rs
      then match_loop (parse_method method_str) rs (λ m. false) 0 none
      else match_not_found

-- what the handler does with the context: complete it with an answer, or attach the match and call
-- the route's handler; or it raises
pub data Dispatched (H : Type 0) : Type 0 where
  completed : Response → Bytes → Dispatched H
  called : H → Method → UriTemplate → List (Bytes × Bytes) → Dispatched H
  raised unicode_decode_error : Dispatched H

abbrev hand_on : {H : Type 0} → MatchResult H → Dispatched H
hand_on (match_ok h m t args) = called h m t args
hand_on match_not_found = completed not_found.0 not_found.1
hand_on (match_method_not_allowed answer) = completed answer.0 answer.1
hand_on assertion_error = raised

-- `decode("ascii")`
abbrev is_ascii : Bytes → Bool
is_ascii [] = true
is_ascii (c ∷ cs) = ltb c 128 && is_ascii cs

-- `as_handler`'s `dispatch`
dispatch : {H : Type 0} → Bytes → Bytes → List (Route H) → Dispatched H
unfolding match_routes
dispatch path method rs =
    if is_ascii method then hand_on (match_routes path method rs) else unicode_decode_error
