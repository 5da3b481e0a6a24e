-- ===== src/Openapi/Shapes.antt =====
-- localpost/openapi/_operation_core.py: the responses that a return annotation announces, and how the
-- value that a function returns becomes a result (`Operation._run_core` of operation.py).
pub mod Documented
use localpost_py.Prelude.{
  ℕ, ltb, Bool, true, false, not, ◌&&◌, ◌||◌, Option, none, some, List, [], ◌∷◌, ◌++◌, ◌==◌,
  if◌then◌else◌,
}
use localpost_py.Bytes.{Bytes, codes, is_empty}
use localpost_py.Openapi.{
  Atom, ResultClass, ok, no_content, event_stream, not_found, status_code, description, OpResult,
}

pub data ContentType : Type 0 where
  json text_event_stream : ContentType

pub record ResponseShape : Type 0 where
  pub status_code : ℕ
  pub description : Bytes
  pub body_type : Option Atom
  pub content_type : ContentType

-- A member of a return annotation: `NoneType`, a class of results with its argument, a generator,
-- iterator, iterable or `EventStream` with its element type, or any other type.
pub data Member : Type 0 where
  none_member : Member
  result_member : ResultClass → Option Atom → Member
  stream_member : Option Atom → Member
  value_member : Atom → Member

abbrev pub success_text : Bytes
success_text = codes "Successful response"

abbrev shape : ℕ → Bytes → Option Atom → ContentType → ResponseShape
shape code text body content = record {
  status_code = code;
  description = text;
  body_type = body;
  content_type = content;
}

-- the shape of a member that is not `None`
pub shape_of : Member → ResponseShape
unfolding description
shape_of none_member = shape 200 success_text none json
shape_of (stream_member t) = shape 200 success_text t text_event_stream
shape_of (value_member t) = shape 200 success_text (some t) json
shape_of (result_member event_stream t) =
    shape (status_code event_stream) (description event_stream) t text_event_stream
shape_of (result_member no_content t) =
    shape (status_code no_content) (description no_content) none json
shape_of (result_member c t) = shape (status_code c) (description c) t json

abbrev pub code_of : Member → ℕ
code_of (result_member c t) = status_code c
code_of m = 200

abbrev pub has_code : ℕ → List ResponseShape → Bool
has_code code [] = false
has_code code (s ∷ ss) = s.status_code == code || has_code code ss

pub record Extraction : Type 0 where
  pub shapes : List ResponseShape
  pub has_success : Bool
  pub has_none : Bool

abbrev pub is_success : Member → Bool
is_success (result_member event_stream t) = true
is_success (result_member c t) = ltb (status_code c) 400
is_success m = true

-- one turn of the loop over the members
pub add_member : Member → Extraction → Extraction
unfolding shape_of
add_member none_member e = record e { has_none = true }
add_member m e = record e {
  has_success = is_success m || e.has_success;
  shapes = if has_code (code_of m) e.shapes then e.shapes else e.shapes ++ shape_of m ∷ [];
}

pub add_members : List Member → Extraction → Extraction
unfolding add_member
add_members [] e = e
add_members (m ∷ ms) e = add_members ms (add_member m e)

-- `null_is_not_found`
abbrev pub null_is_not_found : Extraction → Bool
null_is_not_found e = e.has_none && (e.has_success && not (has_code 404 e.shapes))

-- after the loop
pub announce : Extraction → List ResponseShape × Bool
unfolding description
announce e =
    if null_is_not_found e
    then (e.shapes ++ shape (status_code not_found) (description not_found) none json ∷ [], true)
    else if not e.has_success && is_empty e.shapes
    then (shape 200 success_text none json ∷ [], false)
    else (e.shapes, false)

abbrev pub nothing_yet : Extraction
nothing_yet = record { shapes = []; has_success = false; has_none = false }

-- `extract_response_shapes`; `none` is a function without a return annotation
unfoldable pub extract_response_shapes : Option (List Member) → List ResponseShape × Bool
unfolding add_members announce
extract_response_shapes none = (shape 200 success_text none json ∷ [], false)
extract_response_shapes (some ms) = announce (add_members ms nothing_yet)

-- what a function returns: `None`, a result, an iterator or `EventStream`, or another value
pub data Returned (V : Type 0) : Type 0 where
  returned_none : Returned V
  returned_result : OpResult V → Returned V
  returned_stream returned_value : V → Returned V

-- the end of `_run_core`
unfoldable pub as_result : {V : Type 0} → Bool → Returned V → OpResult V
as_result null (returned_result r) = r
as_result null (returned_stream v) = record {
  result_class = event_stream;
  body = some v;
  headers = [];
}
as_result null returned_none =
    if null
    then record { result_class = not_found; body = none; headers = [] }
    else record { result_class = ok; body = none; headers = [] }
as_result null (returned_value v) = record { result_class = ok; body = some v; headers = [] }
