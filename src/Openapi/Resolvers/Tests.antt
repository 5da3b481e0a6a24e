-- ===== src/Openapi/Resolvers/Tests.antt =====
-- localpost/openapi/resolvers.py at concrete parameters; values are texts.
use localpost_py.Prelude.{
  ℕ, ◌≡◌, refl, Bool, true, false, not, none, some, [], ◌∷◌, ◌==◌, if◌then◌else◌,
}
use localpost_py.Bytes.{Bytes, codes}
use localpost_py.Openapi.{
  one_type, union_of, int_type, none_type, plain, bad_request, Converted, converted, rejected,
  Python, from_query, from_body, Parameter, Ctx, Resolved, argument, refused,
}
use localpost_py.Openapi.Resolvers.{
  unwrap_optional, is_optional_param, ParameterDoc, query, parameter_doc, body_doc, query_args,
  cast_atom, cast_str, convert_body, resolve_body, resolve_query, resolve,
}
use localpost_py.Openapi.Resolvers.Required.{is_refused, is_enough, sent, resolve-documented}

-- `int` of digits is the digits, and of anything else a `ValueError`
abbrev digits_only : Bytes → Bool
digits_only [] = true
digits_only (c ∷ cs) =
    if c == b'4' then digits_only cs else if c == b'2' then digits_only cs else false

abbrev int_of : Bytes → Converted Bytes
int_of s = if digits_only s then converted s else rejected (codes "invalid literal")

abbrev pub text : Python Bytes
text = record {
  of_str = λ s. s;
  of_bytes = λ s. s;
  of_bool = λ b. if b then codes "True" else codes "False";
  of_list = λ vs. elim vs [ [] ↦ [] | v ∷ more ↦ v ];
  int_of = int_of;
  float_of = int_of;
  convert = λ n s. converted s;
  convert_sequence = λ t s. converted s;
  convert_union = λ ts s. converted s;
  convert_none = λ s. rejected (codes "expected null");
  lower = λ s. s;
  encode = λ s. s;
  repr = λ s. s;
  utf8 = converted;
  decode_body = λ t s. converted s;
  parse_qs = λ s. (codes "limit", s ∷ []) ∷ [];
}

abbrev pub no_custom : ℕ → Parameter Bytes → Ctx → Resolved Bytes × Ctx
no_custom n p ctx = (argument none, ctx)

abbrev pub book_id : Parameter Bytes
book_id = record {
  name = codes "id";
  annotation = some (one_type int_type);
  explicit = none;
  default = none;
}

abbrev pub limit : Parameter Bytes
limit = record {
  name = codes "limit";
  annotation = some (union_of (int_type ∷ none_type ∷ []));
  explicit = none;
  default = none;
}

abbrev pub payload : Parameter Bytes
payload = record {
  name = codes "b";
  annotation = some (one_type (plain 1));
  explicit = none;
  default = some none;
}

abbrev pub at : Bytes → Bytes → Bytes → Ctx
at id q body = record {
  path_args = (codes "id", id) ∷ [];
  query_string = q;
  headers = [];
  incoming = body;
  query_cache = none;
  body_cache = none;
}

abbrev limit_doc : ParameterDoc
limit_doc = record {
  name = codes "limit";
  location = query;
  required = false;
  target = one_type int_type;
}

limit-documented : parameter_doc (from_query none) limit ≡ some limit_doc
unfolding parameter_doc is_optional_param unwrap_optional
limit-documented = refl

-- text that is no number is refused, nothing is not
resolve-documented_example :
    is_refused (resolve text no_custom (some (from_query none)) limit (at [] (codes "many") [])).0
    ≡ not (is_enough text limit_doc (sent text query (codes "limit") (at [] (codes "many") [])))
resolve-documented_example =
    resolve-documented text no_custom (from_query none) limit (at [] (codes "many") []) limit_doc
      limit-documented

limit_absent :
    is_refused (resolve text no_custom (some (from_query none)) limit (at [] [] [])).0 ≡ false
unfolding resolve resolve_query is_optional_param unwrap_optional query_args
limit_absent = refl

limit_rejected :
    is_refused (resolve text no_custom (some (from_query none)) limit (at [] (codes "many") [])).0
    ≡ true
unfolding resolve resolve_query is_optional_param unwrap_optional query_args cast_str cast_atom
limit_rejected = refl

-- The document says that the body of a parameter with a default is not required, but a request without
-- a body is answered 400.
default_body_documented : body_doc from_body payload ≡ some (false, one_type (plain 1))
unfolding body_doc
default_body_documented = refl

default_body_refused : resolve text no_custom (some from_body) payload (at [] [] []) ≡ (
  refused (record {
    result_class = bad_request;
    body = some (codes "Invalid request body: empty request body");
    headers = [];
  }),
  at [] [] [],
)
unfolding resolve resolve_body convert_body
default_body_refused = refl
