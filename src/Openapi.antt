-- ===== src/Openapi.antt =====
-- localpost/openapi/results.py and the data of localpost/openapi/resolvers.py and _operation_core.py:
-- types as annotations name them, parameters, results and the request context. Python's and msgspec's
-- conversions are the record `Python`; descriptions, which are passed through as they are, are left out.
pub mod Resolvers
pub mod Shapes
pub mod Operation
use localpost_py.Prelude.{
  ℕ, Bool, true, false, Option, none, some, List, [], ◌∷◌, ◌==◌, if◌then◌else◌,
}
use localpost_py.Bytes.{Bytes, codes, bytes_eq}

-- What stands in an annotation. `sequence_of` is `list`, `set`, `tuple`, `frozenset` or `Sequence` of
-- an element type, `plain` any other type, by number.
pub data Atom : Type 0 where
  str_type int_type float_type bool_type bytes_type any_type none_type : Atom
  sequence_of : Atom → Atom
  plain : ℕ → Atom

-- `typing` flattens unions, so their members are no unions
pub data Annotation : Type 0 where
  one_type : Atom → Annotation
  union_of : List Atom → Annotation

-- the classes of results, and a subclass of `OpResult` with its code and description
pub data ResultClass : Type 0 where
  op_result ok created accepted no_content event_stream : ResultClass
  bad_request unauthorized forbidden not_found conflict unprocessable : ResultClass
  too_many_requests internal_server_error : ResultClass
  subclass : ℕ → Bytes → ResultClass

-- `_status_code`
abbrev pub status_code : ResultClass → ℕ
status_code op_result = 200
status_code ok = 200
status_code created = 201
status_code accepted = 202
status_code no_content = 204
status_code event_stream = 200
status_code bad_request = 400
status_code unauthorized = 401
status_code forbidden = 403
status_code not_found = 404
status_code conflict = 409
status_code unprocessable = 422
status_code too_many_requests = 429
status_code internal_server_error = 500
status_code (subclass code text) = code

-- `_description`
pub description : ResultClass → Bytes
description op_result = codes "Successful response"
description ok = codes "Successful response"
description created = codes "Created"
description accepted = codes "Accepted"
description no_content = codes "No Content"
description event_stream = codes "Successful response"
description bad_request = codes "Bad Request"
description unauthorized = codes "Unauthorized"
description forbidden = codes "Forbidden"
description not_found = codes "Not Found"
description conflict = codes "Conflict"
description unprocessable = codes "Unprocessable Entity"
description too_many_requests = codes "Too Many Requests"
description internal_server_error = codes "Internal Server Error"
description (subclass code text) = text

-- `body` is `none` for `None`
pub record OpResult (V : Type 0) : Type 0 where
  pub result_class : ResultClass
  pub body : Option V
  pub headers : List (Bytes × Bytes)

-- a conversion's value, or the text of the `ValueError` or `ValidationError`
pub data Converted (V : Type 0) : Type 0 where
  converted : V → Converted V
  rejected : Bytes → Converted V

pub record Python (V : Type 0) : Type 0 where
  pub of_str : Bytes → V
  pub of_bytes : Bytes → V
  pub of_bool : Bool → V
  pub of_list : List V → V
  pub int_of : Bytes → Converted V
  pub float_of : Bytes → Converted V
  pub convert : ℕ → Bytes → Converted V
  pub convert_sequence : Atom → Bytes → Converted V
  pub convert_union : List Atom → Bytes → Converted V
  pub convert_none : Bytes → Converted V
  pub lower : Bytes → Bytes
  pub encode : Bytes → Bytes
  pub repr : Bytes → Bytes
  pub utf8 : Bytes → Converted V
  pub decode_body : Annotation → Bytes → Converted V
  pub parse_qs : Bytes → List (Bytes × List Bytes)

-- where a parameter comes from, with the name that was given; `other_factory` is a user's own
pub data Factory : Type 0 where
  from_path from_query from_header : Option Bytes → Factory
  from_body : Factory
  other_factory : ℕ → Factory

-- `inspect.Parameter`: `annotation` is `none` for `Parameter.empty`, and `explicit` is the first
-- factory that `Annotated` has. A default that is `None` is `some none`.
pub record Parameter (V : Type 0) : Type 0 where
  pub name : Bytes
  pub annotation : Option Annotation
  pub explicit : Option Factory
  pub default : Option (Option V)

-- `attrs` has the match of the router and the two caches; `incoming` is the body that `read_body` gives
pub record Ctx : Type 0 where
  pub path_args : List (Bytes × Bytes)
  pub query_string : Bytes
  pub headers : List (Bytes × Bytes)
  pub incoming : Bytes
  pub query_cache : Option (List (Bytes × List Bytes))
  pub body_cache : Option Bytes

-- what a resolver returns: an argument, which may be `None` or the context itself, or a result that
-- ends the operation
pub data Resolved (V : Type 0) : Type 0 where
  argument : Option V → Resolved V
  the_context : Resolved V
  refused : OpResult V → Resolved V

abbrev pub get {ℓ} : {A : Type ℓ} → Bytes → List (Bytes × A) → Option A
get k [] = none
get k ((j, v) ∷ m) = if bytes_eq j k then some v else get k m
