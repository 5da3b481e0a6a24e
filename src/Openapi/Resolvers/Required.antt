-- ===== src/Openapi/Resolvers/Required.antt =====
-- localpost/openapi/resolvers.py: what the document says of a parameter, against what its resolver asks.
use localpost_py.Prelude.{
  ℕ, ◌≡◌, refl, subst, Bool, true, false, not, Option, none, some, List, [], ◌∷◌, ◌++◌, arith,
}
use mathlib.Core.Option.{some-injective}
use localpost_py.Bytes.{Bytes, codes}
use localpost_py.Openapi.{
  Annotation, Converted, converted, rejected, Python, Factory, from_path, from_query, from_header,
  from_body, other_factory, Parameter, Ctx, Resolved, refused, get,
}
use localpost_py.Openapi.Resolvers.{
  unwrap_annotated, Target, is_optional_param, Location, path, query, header, ParameterDoc, name_or,
  header_doc_name, header_name, parameter_doc, cast_str, query_args, cast_values, values_at, or_bad,
  absent, resolve_path, resolve_query, resolve_header, resolve,
}

abbrev pub is_refused : {V : Type 0} → Resolved V → Bool
is_refused (refused r) = true
is_refused a = false

abbrev pub is_converted : {V : Type 0} → Converted V → Bool
is_converted (converted v) = true
is_converted (rejected e) = false

abbrev listed : {A : Type 0} → Option A → List A
listed none = []
listed (some a) = a ∷ []

-- Read from the document alone: what a request gives for a parameter, and whether that is enough.
module _ {V : Type 0} (py : Python V) where
  abbrev pub sent : Location → Bytes → Ctx → List Bytes
  sent path name ctx = listed (get name ctx.path_args)
  sent query name ctx = values_at name (query_args py ctx).0
  sent header name ctx = listed (get (py.lower name) ctx.headers)

  abbrev converts : Location → Bytes → List Bytes → Annotation → Bool
  converts query v vs t = is_converted (cast_values py (v ∷ vs) v t)
  converts l v vs t = is_converted (cast_str py v t)

  abbrev pub is_enough : ParameterDoc → List Bytes → Bool
  is_enough d [] = not d.required
  is_enough d (v ∷ vs) = converts d.location v vs d.target

  or_bad-refused :
      (prefix : Bytes) (c : Converted V) → is_refused (or_bad py prefix c) ≡ not (is_converted c)
  or_bad-refused prefix (converted v) = refl
  or_bad-refused prefix (rejected e) = refl

  resolve_path-refused :
      (given : Option Bytes) (p : Parameter V) (ctx : Ctx) (o : Option Bytes)
      → get (name_or given p.name) ctx.path_args ≡ o
      → is_refused (resolve_path py given p ctx)
        ≡ not (
            is_enough
              (record {
                name = name_or given p.name;
                location = path;
                required = true;
                target = unwrap_annotated p.annotation;
              })
              (listed o))
  unfolding resolve_path
  resolve_path-refused given p ctx none e = rw (e, is_refused) refl
  resolve_path-refused given p ctx (some v) e =
      rw (e, is_refused)
        (or_bad-refused
          (codes "Invalid path parameter " ++ (py.repr (name_or given p.name) ++ codes ": "))
          (cast_str py v (unwrap_annotated p.annotation)))

  absent-refused :
      (t : Target V) (message : Bytes)
      → is_refused (absent py t message) ≡ not (not (not t.optional))
  absent-refused t message = ground arith

  resolve_header-refused :
      (given : Option Bytes) (p : Parameter V) (ctx : Ctx) (o : Option Bytes)
      → get (py.lower (header_doc_name given p)) ctx.headers ≡ o
      → is_refused (resolve_header py given p ctx)
        ≡ not (
            is_enough
              (record {
                name = header_doc_name given p;
                location = header;
                required = not (is_optional_param p).optional;
                target = (is_optional_param p).target;
              })
              (listed o))
  unfolding resolve_header
  resolve_header-refused given p ctx none e =
      rw (e, is_refused)
        (absent-refused (is_optional_param p)
          (codes "Missing required header: " ++ header_name py given p))
  resolve_header-refused given p ctx (some v) e =
      rw (e, is_refused)
        (or_bad-refused
          (codes "Invalid header " ++ (py.repr (header_name py given p) ++ codes ": "))
          (cast_str py v (is_optional_param p).target))

  resolve_query-refused :
      (given : Option Bytes) (p : Parameter V) (ctx : Ctx) (vs : List Bytes)
      → values_at (name_or given p.name) (query_args py ctx).0 ≡ vs
      → is_refused (resolve_query py given p ctx).0
        ≡ not (
            is_enough
              (record {
                name = name_or given p.name;
                location = query;
                required = not (is_optional_param p).optional;
                target = (is_optional_param p).target;
              })
              vs)
  unfolding resolve_query
  resolve_query-refused given p ctx [] e =
      rw (e, is_refused)
        (absent-refused (is_optional_param p)
          (codes "Missing required query parameter: " ++ name_or given p.name))
  resolve_query-refused given p ctx (v ∷ vs) e =
      rw (e, is_refused)
        (or_bad-refused
          (codes "Invalid query parameter " ++ (py.repr (name_or given p.name) ++ codes ": "))
          (cast_values py (v ∷ vs) v (is_optional_param p).target))

-- A resolver of a parameter that the document describes answers with a result exactly when what the
-- request sends under the documented name and in the documented place is not enough: nothing, and the
-- document says that the parameter is required, or text that does not convert to the documented type.
pub resolve-documented :
    {V : Type 0} (py : Python V) (custom : ℕ → Parameter V → Ctx → Resolved V × Ctx) (f : Factory)
    (p : Parameter V) (ctx : Ctx) (d : ParameterDoc)
    → parameter_doc f p ≡ some d
    → is_refused (resolve py custom (some f) p ctx).0
      ≡ not (is_enough py d (sent py d.location d.name ctx))
unfolding parameter_doc resolve
resolve-documented py custom (from_path given) p ctx d h =
    subst
      (λ c.
        is_refused (resolve_path py given p ctx)
        ≡ not (is_enough py c (sent py c.location c.name ctx)))
      (some-injective _ d h) (resolve_path-refused py given p ctx _ refl)
resolve-documented py custom (from_query given) p ctx d h =
    subst
      (λ c.
        is_refused (resolve_query py given p ctx).0
        ≡ not (is_enough py c (sent py c.location c.name ctx)))
      (some-injective _ d h) (resolve_query-refused py given p ctx _ refl)
resolve-documented py custom (from_header given) p ctx d h =
    subst
      (λ c.
        is_refused (resolve_header py given p ctx)
        ≡ not (is_enough py c (sent py c.location c.name ctx)))
      (some-injective _ d h) (resolve_header-refused py given p ctx _ refl)
resolve-documented py custom from_body p ctx d h = cc h
resolve-documented py custom (other_factory n) p ctx d h = cc h
