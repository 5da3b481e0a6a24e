-- ===== src/Openapi/Resolvers.antt =====
-- localpost/openapi/resolvers.py: the resolvers of parameters, and what they say in the document.
pub mod Required
pub mod Tests
use localpost_py.Prelude.{
  ℕ, Bool, true, false, not, ◌&&◌, ◌||◌, Option, none, some, List, [], ◌∷◌, ◌++◌, map, ◌==◌,
  if◌then◌else◌,
}
use localpost_py.Bytes.{Bytes, codes, bytes_eq, is_empty}
use localpost_py.Openapi.{
  Atom, str_type, int_type, float_type, bool_type, bytes_type, any_type, none_type, sequence_of,
  plain, Annotation, one_type, union_of, bad_request, OpResult, Converted, converted, rejected,
  Python, Factory, from_path, from_query, from_header, from_body, other_factory, Parameter, Ctx,
  Resolved, argument, the_context, refused, get,
}

-- `_unwrap_annotated`: `explicit` and the annotation are apart already
abbrev pub unwrap_annotated : Option Annotation → Annotation
unwrap_annotated none = one_type any_type
unwrap_annotated (some t) = t

abbrev is_none : Atom → Bool
is_none none_type = true
is_none t = false

abbrev without_none : List Atom → List Atom
without_none [] = []
without_none (t ∷ ts) = if is_none t then without_none ts else t ∷ without_none ts

abbrev has_none : List Atom → Bool
has_none [] = false
has_none (t ∷ ts) = is_none t || has_none ts

abbrev union : List Atom → Annotation
union (t ∷ []) = one_type t
union ts = union_of ts

-- `_unwrap_optional`
pub unwrap_optional : Annotation → Annotation × Bool
unwrap_optional (one_type t) = (one_type t, false)
unwrap_optional (union_of ts) =
    if has_none ts then (union (without_none ts), true) else (union_of ts, false)

pub record Target (V : Type 0) : Type 0 where
  pub target : Annotation
  pub optional : Bool
  pub default : Option V

-- `_is_optional_param`
pub is_optional_param : {V : Type 0} → Parameter V → Target V
unfolding unwrap_optional
is_optional_param p =
    let target = unwrap_annotated p.annotation in
    let (inner, is_nullable) = unwrap_optional target in
    elim p.default [
      | some d ↦ record { target = inner; optional = true; default = d }
      | none ↦
          if is_nullable
          then record { target = inner; optional = true; default = none }
          else record { target = target; optional = false; default = none }
    ]

-- `_list_element_type`
abbrev pub list_element_type : Annotation → Option Atom
list_element_type (one_type (sequence_of t)) = some t
list_element_type t = none

-- `ParameterLocation`
pub data Location : Type 0 where
  path query header : Location

-- `openapi_spec.Parameter`, with the type that its schema is made from
pub record ParameterDoc : Type 0 where
  pub name : Bytes
  pub location : Location
  pub required : Bool
  pub target : Annotation

-- `given or name`
abbrev pub name_or : Option Bytes → Bytes → Bytes
name_or none name = name
name_or (some []) name = name
name_or (some (c ∷ cs)) name = c ∷ cs

-- `-` for `_`
abbrev dashed : Bytes → Bytes
dashed [] = []
dashed (c ∷ cs) = (if c == b'_' then b'-' else c) ∷ dashed cs

abbrev pub header_doc_name : {V : Type 0} → Option Bytes → Parameter V → Bytes
header_doc_name given p = name_or given (dashed p.name)

-- `FromPath.update_doc`
abbrev pub path_doc : {V : Type 0} → Option Bytes → Parameter V → ParameterDoc
path_doc given p = record {
  name = name_or given p.name;
  location = path;
  required = true;
  target = unwrap_annotated p.annotation;
}

-- `FromQuery.update_doc`
abbrev pub query_doc : {V : Type 0} → Option Bytes → Parameter V → ParameterDoc
query_doc given p =
    let t = is_optional_param p in
    record {
      name = name_or given p.name;
      location = query;
      required = not t.optional;
      target = t.target;
    }

-- `FromHeader.update_doc`
abbrev pub header_doc : {V : Type 0} → Option Bytes → Parameter V → ParameterDoc
header_doc given p =
    let t = is_optional_param p in
    record {
      name = header_doc_name given p;
      location = header;
      required = not t.optional;
      target = t.target;
    }

-- the `update_doc` of the three that describe a parameter
unfoldable pub parameter_doc : {V : Type 0} → Factory → Parameter V → Option ParameterDoc
parameter_doc (from_path given) p = some (path_doc given p)
parameter_doc (from_query given) p = some (query_doc given p)
parameter_doc (from_header given) p = some (header_doc given p)
parameter_doc f p = none

-- and that of `FromBody`: whether the body is required, with its type
unfoldable pub body_doc : {V : Type 0} → Factory → Parameter V → Option (Bool × Annotation)
body_doc from_body p =
    some (elim p.default [ none ↦ true | some d ↦ false ], unwrap_annotated p.annotation)
body_doc f p = none

abbrev pub values_at : Bytes → List (Bytes × List Bytes) → List Bytes
values_at k m = elim (get k m) [ none ↦ [] | some vs ↦ vs ]

module _ {V : Type 0} (py : Python V) where
  truthy_words : List Bytes
  truthy_words = codes "true" ∷ codes "1" ∷ codes "yes" ∷ codes "on" ∷ []

  abbrev one_of : Bytes → List Bytes → Bool
  one_of w [] = false
  one_of w (v ∷ vs) = bytes_eq w v || one_of w vs

  -- `_cast_str` to one type
  pub cast_atom : Bytes → Atom → Converted V
  unfolding truthy_words
  cast_atom value str_type = converted (py.of_str value)
  cast_atom value any_type = converted (py.of_str value)
  cast_atom value int_type = py.int_of value
  cast_atom value float_type = py.float_of value
  cast_atom value bool_type = converted (py.of_bool (one_of (py.lower value) truthy_words))
  cast_atom value bytes_type = converted (py.of_bytes (py.encode value))
  cast_atom value none_type = py.convert_none value
  cast_atom value (sequence_of t) = py.convert_sequence t value
  cast_atom value (plain n) = py.convert n value

  -- `_cast_str`
  pub cast_str : Bytes → Annotation → Converted V
  unfolding cast_atom
  cast_str value (one_type t) = cast_atom value t
  cast_str value (union_of ts) = py.convert_union ts value

  -- the list comprehension of `FromQuery`, which the first failure ends
  pub cast_all : List Bytes → Atom → Converted (List V)
  unfolding cast_atom
  cast_all [] t = converted []
  cast_all (v ∷ vs) t = elim (cast_atom v t) [
    | rejected e ↦ rejected e
    | converted x ↦ elim (cast_all vs t) [
      | rejected e ↦ rejected e
      | converted xs ↦ converted (x ∷ xs)
    ]
  ]

  abbrev pub bad : Bytes → Resolved V
  bad message =
      refused (record { result_class = bad_request; body = some (py.of_str message); headers = [] })

  -- `try` around a conversion, with what stands before the exception's text
  abbrev pub or_bad : Bytes → Converted V → Resolved V
  or_bad prefix (converted v) = argument (some v)
  or_bad prefix (rejected e) = bad (prefix ++ e)

  -- `FromPath`
  pub resolve_path : Option Bytes → Parameter V → Ctx → Resolved V
  unfolding cast_str
  resolve_path given p ctx =
      let var_name = name_or given p.name in
      elim (get var_name ctx.path_args) [
        | none ↦ bad (codes "Missing path parameter: " ++ var_name)
        | some raw ↦
            or_bad (codes "Invalid path parameter " ++ (py.repr var_name ++ codes ": "))
              (cast_str raw (unwrap_annotated p.annotation))
      ]

  -- `_query_args`: the parsed query, and the context that keeps it
  pub query_args : Ctx → List (Bytes × List Bytes) × Ctx
  query_args ctx = elim ctx.query_cache [
    | some cached ↦ (cached, ctx)
    | none ↦
        let parsed : List (Bytes × List Bytes) =
          if is_empty ctx.query_string then [] else py.parse_qs ctx.query_string in
        (parsed, record ctx { query_cache = some parsed })
  ]

  abbrev pub absent : Target V → Bytes → Resolved V
  absent t message = if t.optional then argument t.default else bad message

  abbrev listed : Converted (List V) → Converted V
  listed (converted vs) = converted (py.of_list vs)
  listed (rejected e) = rejected e

  -- the values of a key, which are cast as the target asks
  abbrev pub cast_values : List Bytes → Bytes → Annotation → Converted V
  cast_values vs first target = elim (list_element_type target) [
    | some t ↦ listed (cast_all vs t)
    | none ↦ cast_str first target
  ]

  -- `FromQuery`
  pub resolve_query : Option Bytes → Parameter V → Ctx → Resolved V × Ctx
  unfolding query_args cast_str cast_all is_optional_param
  resolve_query given p ctx =
      let name = name_or given p.name in
      let t = is_optional_param p in
      let (args, next) = query_args ctx in
      let values : List Bytes = values_at name args in
      elim values [
        | [] ↦ (absent t (codes "Missing required query parameter: " ++ name), next)
        | v ∷ vs ↦ (
          or_bad (codes "Invalid query parameter " ++ (py.repr name ++ codes ": "))
              (cast_values (v ∷ vs) v t.target),
          next,
        )
      ]

  abbrev pub header_name : Option Bytes → Parameter V → Bytes
  header_name given p = py.lower (header_doc_name given p)

  -- `FromHeader`
  pub resolve_header : Option Bytes → Parameter V → Ctx → Resolved V
  unfolding cast_str is_optional_param
  resolve_header given p ctx =
      let name = header_name given p in
      let t = is_optional_param p in
      elim (get name ctx.headers) [
        | none ↦ absent t (codes "Missing required header: " ++ name)
        | some value ↦
            or_bad (codes "Invalid header " ++ (py.repr name ++ codes ": "))
              (cast_str value t.target)
      ]

  abbrev body_of : Ctx → Bytes
  body_of ctx = elim ctx.body_cache [ none ↦ [] | some body ↦ body ]

  -- the converter that `FromBody` picks, without a converter of the user's
  pub convert_body : Annotation → Bytes → Converted V
  convert_body (one_type bytes_type) body = converted (py.of_bytes body)
  convert_body (one_type str_type) body = py.utf8 body
  convert_body t body =
      if is_empty body then rejected (codes "empty request body") else py.decode_body t body

  -- `FromBody`
  pub resolve_body : Parameter V → Ctx → Resolved V
  unfolding convert_body
  resolve_body p ctx =
      or_bad (codes "Invalid request body: ")
        (convert_body (unwrap_annotated p.annotation) (body_of ctx))

  -- the resolver that a factory makes; a user's own is `custom`
  unfoldable pub resolve :
      (ℕ → Parameter V → Ctx → Resolved V × Ctx)
      → Option Factory
      → Parameter V
      → Ctx
      → Resolved V × Ctx
  unfolding resolve_path resolve_query resolve_header resolve_body
  resolve custom (some (from_path given)) p ctx = (resolve_path given p ctx, ctx)
  resolve custom (some (from_query given)) p ctx = resolve_query given p ctx
  resolve custom (some (from_header given)) p ctx = (resolve_header given p ctx, ctx)
  resolve custom (some from_body) p ctx = (resolve_body p ctx, ctx)
  resolve custom (some (other_factory n)) p ctx = custom n p ctx
  resolve custom none p ctx = (the_context, ctx)
