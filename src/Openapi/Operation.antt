-- ===== src/Openapi/Operation.antt =====
-- localpost/openapi/_operation_core.py, operation.py and middleware.py: how an operation is made from a
-- function's signature, and how it answers. The function itself is an argument; it is given the
-- resolved arguments in order.
pub mod Binding
pub mod Answers
pub mod Responding
mod Tests
use localpost_py.Prelude.{
  ℕ, Bool, true, false, not, ◌&&◌, ◌||◌, Option, none, some, List, [], ◌∷◌, ◌++◌, length, ◌==◌,
  if◌then◌else◌,
}
use localpost_py.Bytes.{Bytes, codes, bytes_eq, is_empty, lower}
use localpost_py.Bytes.Decimal.{print_ℕ}
use localpost_py.Http.Types.{Headers, Response, has_header}
use localpost_py.Openapi.{
  Atom, none_type, Annotation, one_type, union_of, ResultClass, event_stream, status_code, OpResult,
  Python, Factory, from_path, from_query, from_header, from_body, other_factory, Parameter, Ctx,
  Resolved, argument, the_context, refused, get,
}
use localpost_py.Openapi.Resolvers.{
  unwrap_annotated, name_or, resolve, ParameterDoc, parameter_doc, body_doc,
}
use localpost_py.Openapi.Shapes.{
  ResponseShape, Member, extract_response_shapes, Returned, as_result,
}

abbrev pub one_of : Bytes → List Bytes → Bool
one_of n [] = false
one_of n (m ∷ ms) = bytes_eq n m || one_of n ms

-- `is_body` is `is_body_type` of a type, which the adapters answer, and `is_ctx` whether it is one of
-- `ctx_types`; both are asked of what is left of `Annotated`
pub record Adapters : Type 0 where
  pub is_body : Annotation → Bool
  pub is_ctx : Annotation → Bool

-- `_pick_factory`; `none` is the context
pub pick_factory : {V : Type 0} → Adapters → List Bytes → Parameter V → Option Factory
pick_factory a path_vars p = elim p.explicit [
  | some f ↦ some f
  | none ↦
      if one_of p.name path_vars
      then some (from_path (some p.name))
      else if a.is_ctx (unwrap_annotated p.annotation)
      then none
      else if a.is_body (unwrap_annotated p.annotation)
      then some from_body
      else some (from_query (some p.name))
]

abbrev pub Bound : Type 0 → Type 0
Bound V = List (Parameter V × Option Factory)

-- `build_arg_resolvers`, for a signature without `*args` and `**kwargs`
pub build_arg_resolvers : {V : Type 0} → Adapters → List Bytes → List (Parameter V) → Bound V
unfolding pick_factory
build_arg_resolvers a path_vars [] = []
build_arg_resolvers a path_vars (p ∷ ps) =
    (p, pick_factory a path_vars p) ∷ build_arg_resolvers a path_vars ps

pub record Operation (V : Type 0) : Type 0 where
  pub parameters : Bound V
  pub return_shapes : List ResponseShape
  pub null_is_not_found : Bool
  pub needs_body : Bool

-- the two `ValueError`s of `create`
pub data BindingError : Type 0 where
  no_such_variable : Bytes → BindingError
  unbound_variables : List Bytes → BindingError

pub data Created (V : Type 0) : Type 0 where
  made : Operation V → Created V
  invalid : BindingError → Created V

abbrev pub path_name : {V : Type 0} → Parameter V × Option Factory → Option Bytes
path_name (p, some (from_path given)) = some (name_or given p.name)
path_name (p, f) = none

-- the names that the parameters bind, in order
abbrev pub bound_names : {V : Type 0} → Bound V → List Bytes
bound_names [] = []
bound_names (b ∷ bs) = elim (path_name b) [ none ↦ bound_names bs | some n ↦ n ∷ bound_names bs ]

-- the first of the names that the template has not
abbrev pub first_foreign : List Bytes → List Bytes → Option Bytes
first_foreign vars [] = none
first_foreign vars (n ∷ ns) = if one_of n vars then first_foreign vars ns else some n

-- `path_var_names - bound_path_vars`
abbrev pub without : List Bytes → List Bytes → List Bytes
without bound [] = []
without bound (v ∷ vs) = if one_of v bound then without bound vs else v ∷ without bound vs

abbrev is_body_factory : Option Factory → Bool
is_body_factory (some from_body) = true
is_body_factory f = false

abbrev pub any_body : {V : Type 0} → Bound V → Bool
any_body [] = false
any_body ((p, f) ∷ bs) = is_body_factory f || any_body bs

-- the operation, unless a name or a variable is left over
abbrev pub checked : {V : Type 0} → Option Bytes → List Bytes → Operation V → Created V
checked (some n) vs op = invalid (no_such_variable n)
checked none (v ∷ vs) op = invalid (unbound_variables (v ∷ vs))
checked none [] op = made op

-- `create`, from the variables of the template, the signature and the return annotation
pub create :
    {V : Type 0} → Adapters → List Bytes → List (Parameter V) → Option (List Member) → Created V
unfolding build_arg_resolvers extract_response_shapes
create a path_vars ps returns =
    let bs = build_arg_resolvers a path_vars ps in
    let (shapes, null) = extract_response_shapes returns in
    checked (first_foreign path_vars (bound_names bs)) (without (bound_names bs) path_vars)
      (record {
        parameters = bs;
        return_shapes = shapes;
        null_is_not_found = null;
        needs_body = any_body bs;
      })

-- what a keyword argument is: a value, `None`, or the context
pub data Argument (V : Type 0) : Type 0 where
  value_argument : Option V → Argument V
  context_argument : Argument V

-- the arguments, or the result that ends the operation
pub data Arguments (V : Type 0) : Type 0 where
  arguments : List (Argument V) → Arguments V
  ended : OpResult V → Arguments V

abbrev pub with_first : {V : Type 0} → Argument V → Arguments V → Arguments V
with_first a (arguments args) = arguments (a ∷ args)
with_first a (ended r) = ended r

-- `encode_body` of a result's body, with its content type, which may be empty
pub record Encoded : Type 0 where
  pub content : Bytes
  pub content_type : Bytes

-- `headers.append` under an `if`
abbrev pub added : Bool → Bytes → Bytes → Headers
added true name value = (name, value) ∷ []
added false name value = []

-- `build_http_response`
pub build_http_response : {V : Type 0} → (Option V → Encoded) → OpResult V → Response × Bytes
build_http_response encode r =
    let e = encode r.body in
    let typed =
      added
        (not (is_empty e.content)
          && (not (has_header (codes "content-type") r.headers) && not (is_empty e.content_type)))
        (codes "content-type") e.content_type in
    let sized =
      added (not (has_header (codes "content-length") r.headers)) (codes "content-length")
        (print_ℕ (length e.content)) in
    (
      record {
        status_code = status_code r.result_class;
        headers = r.headers ++ (typed ++ sized);
        reason = [];
      },
      e.content,
    )

-- `None` is passed through as no bytes
abbrev pub encode_body : {V : Type 0} → (V → Encoded) → Option V → Encoded
encode_body encode none = record { content = []; content_type = [] }
encode_body encode (some v) = encode v

abbrev pub buffer_body : Bool → Ctx → Ctx
buffer_body needs ctx = elim ctx.body_cache [
  | some body ↦ ctx
  | none ↦ if needs then record ctx { body_cache = some ctx.incoming } else ctx
]

module _ {V : Type 0} (py : Python V) (custom : ℕ → Parameter V → Ctx → Resolved V × Ctx) where
  -- the loop over `arg_resolvers`
  pub resolve_arguments : Bound V → Ctx → Arguments V × Ctx
  unfolding resolve
  resolve_arguments [] ctx = (arguments [], ctx)
  resolve_arguments ((p, f) ∷ bs) ctx =
      let (answer, next) = resolve py custom f p ctx in
      let (rest, last) = resolve_arguments bs next in
      elim answer [
        | refused r ↦ (ended r, next)
        | argument v ↦ (with_first (value_argument v) rest, last)
        | the_context ↦ (with_first context_argument rest, last)
      ]

  -- `_run_core`
  pub run_core : (List (Argument V) → Returned V) → Operation V → Ctx → OpResult V × Ctx
  unfolding resolve_arguments as_result
  run_core fn op ctx =
      let (answer, next) = resolve_arguments op.parameters (buffer_body op.needs_body ctx) in
      elim answer [
        | ended r ↦ (r, next)
        | arguments args ↦ (as_result op.null_is_not_found (fn args), next)
      ]

  abbrev pub ApiOperation : Type 0
  ApiOperation = Ctx → OpResult V × Ctx

  -- a function of `op_middleware`: its parameters but `call_next`, and what it does with the rest
  pub record FunctionMiddleware : Type 0 where
    pub parameters : Bound V
    pub target : List (Argument V) → ApiOperation → ApiOperation

  -- `_FunctionMiddleware.__call__`
  pub call_middleware : FunctionMiddleware → ApiOperation → ApiOperation
  unfolding resolve_arguments
  call_middleware mw call_next ctx =
      let (answer, next) = resolve_arguments mw.parameters ctx in
      elim answer [ ended r ↦ (r, next) | arguments args ↦ mw.target args call_next next ]

  -- the chain that `_run` builds, the first middleware outermost
  pub run_chain : List FunctionMiddleware → ApiOperation → ApiOperation
  unfolding call_middleware
  run_chain [] core = core
  run_chain (mw ∷ mws) core = call_middleware mw (run_chain mws core)

-- the part of an operation of the document that parameters and responses make
pub record OperationDoc : Type 0 where
  pub parameters : List ParameterDoc
  pub request_body : Option (Bool × Annotation)
  pub responses : List (ℕ × ResponseShape)

-- the `update_doc` of users' own factories
abbrev pub CustomDoc : Type 0 → Type 0
CustomDoc V = ℕ → Parameter V → OperationDoc → OperationDoc

-- `update_doc` of one factory
pub document_parameter :
    {V : Type 0} → CustomDoc V → Parameter V → Factory → OperationDoc → OperationDoc
unfolding parameter_doc body_doc
document_parameter custom p (other_factory n) doc = custom n p doc
document_parameter custom p f doc =
    let described : OperationDoc = elim (parameter_doc f p) [
      | none ↦ doc
      | some d ↦ record doc { parameters = doc.parameters ++ d ∷ [] }
    ] in
    elim (body_doc f p) [ none ↦ described | some b ↦ record described { request_body = some b } ]

-- the loop over the factories
pub document_parameters : {V : Type 0} → CustomDoc V → Bound V → OperationDoc → OperationDoc
unfolding document_parameter
document_parameters custom [] doc = doc
document_parameters custom ((p, none) ∷ bs) doc = document_parameters custom bs doc
document_parameters custom ((p, some f) ∷ bs) doc =
    document_parameters custom bs (document_parameter custom p f doc)

abbrev pub has_response : ℕ → List (ℕ × ResponseShape) → Bool
has_response code [] = false
has_response code ((c, s) ∷ rs) = c == code || has_response code rs

-- `responses[code] = …`
abbrev pub set_response : ResponseShape → List (ℕ × ResponseShape) → List (ℕ × ResponseShape)
set_response s [] = (s.status_code, s) ∷ []
set_response s ((c, r) ∷ rs) =
    if c == s.status_code then (c, s) ∷ rs else (c, r) ∷ set_response s rs

-- `build_responses`
pub build_responses : List ResponseShape → List (ℕ × ResponseShape) → List (ℕ × ResponseShape)
build_responses [] rs = rs
build_responses (s ∷ ss) rs = build_responses ss (set_response s rs)

-- the loop of `contribute_operation`, which leaves the codes that are there
pub add_responses : List (ℕ × ResponseShape) → List (ℕ × ResponseShape) → List (ℕ × ResponseShape)
add_responses [] rs = rs
add_responses ((c, s) ∷ more) rs =
    add_responses more (if has_response c rs then rs else rs ++ (c, s) ∷ [])

-- what a middleware of `op_middleware` adds to the document: its parameters and its responses
pub record Contribution (V : Type 0) : Type 0 where
  pub parameters : Bound V
  pub shapes : List ResponseShape

-- `contribute_operation`
pub contribute_operation : {V : Type 0} → CustomDoc V → Contribution V → OperationDoc → OperationDoc
unfolding document_parameters add_responses build_responses
contribute_operation custom m doc =
    let described = document_parameters custom m.parameters doc in
    record described { responses = add_responses (build_responses m.shapes []) described.responses }

abbrev pub contribute_all :
    {V : Type 0} → CustomDoc V → List (Contribution V) → OperationDoc → OperationDoc
contribute_all custom [] doc = doc
contribute_all custom (m ∷ ms) doc = contribute_all custom ms (contribute_operation custom m doc)

-- `build_spec`
pub build_spec : {V : Type 0} → CustomDoc V → Operation V → List (Contribution V) → OperationDoc
unfolding document_parameters build_responses contribute_operation
build_spec custom op ms =
    let empty : OperationDoc = record { parameters = []; request_body = none; responses = [] } in
    let described = document_parameters custom op.parameters empty in
    contribute_all custom ms (record described { responses = build_responses op.return_shapes [] })
