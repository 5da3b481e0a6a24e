-- ===== src/Openapi/Operation/Answers.antt =====
-- localpost/openapi/operation.py, middleware.py and _operation_core.py: the statuses that an operation
-- answers with, against the responses of its document.
use localpost_py.Prelude.{
  ℕ, ◌≡◌, refl, sym, ap, ◌∙◌, subst, Bool, true, false, not, ◌&&◌, ◌||◌, Option, none, some, List,
  [], ◌∷◌, ◌++◌, ◌==◌, if◌then◌else◌, arith, Bool-cases, ==_iff, inl, inr,
}
use localpost_py.Bytes.{Bytes}
use localpost_py.Openapi.{
  status_code, Factory, from_path, from_query, from_header, from_body, other_factory, Parameter,
  Ctx, Python, Resolved,
}
use localpost_py.Openapi.Shapes.{ResponseShape, Member, has_code, Returned, as_result}
use localpost_py.Openapi.Shapes.Documented.{
  ConformsToAny, is_none, tells_none, returned_is_announced,
}
use localpost_py.Openapi.Operation.{
  Adapters, Bound, Operation, made, create, OperationDoc, CustomDoc, document_parameter,
  document_parameters, has_response, set_response, build_responses, add_responses, Contribution,
  contribute_operation, contribute_all, build_spec, arguments, resolve_arguments, run_core,
  buffer_body, Argument,
}
use localpost_py.Openapi.Operation.Binding.{checked-made}

abbrev Responses : Type 0
Responses = List (ℕ × ResponseShape)

-- `responses.get(code)`
abbrev pub response_at : ℕ → Responses → Option ResponseShape
response_at code [] = none
response_at code ((c, s) ∷ rs) = if c == code then some s else response_at code rs

response_at-append :
    (code c : ℕ) (t : ResponseShape) (rs : Responses) (s : ResponseShape)
    → response_at code rs ≡ some s
    → response_at code (rs ++ (c, t) ∷ []) ≡ some s
response_at-append code c t [] s h = cc h
response_at-append code c t ((d, u) ∷ rs) s h = ground (arith, h, response_at-append code c t rs s)

-- what is there stays when more is added
add_responses-at :
    (code : ℕ) (more rs : Responses) (s : ResponseShape)
    → response_at code rs ≡ some s
    → response_at code (add_responses more rs) ≡ some s
unfolding add_responses
add_responses-at code [] rs s h = h
add_responses-at code ((c, t) ∷ more) rs s h =
    add_responses-at code more _ s (keep (has_response c rs))
  where
    keep : (b : Bool) → response_at code (if b then rs else rs ++ (c, t) ∷ []) ≡ some s
    keep true = h
    keep false = response_at-append code c t rs s h

has_response-append :
    (code c : ℕ) (t : ResponseShape) (rs : Responses)
    → has_response code (rs ++ (c, t) ∷ []) ≡ has_response code rs || c == code
has_response-append code c t [] = ground arith
has_response-append code c t ((d, u) ∷ rs) = ground (arith, has_response-append code c t rs)

add_one-has :
    (code c : ℕ) (t : ResponseShape) (rs : Responses)
    → has_response code (if has_response c rs then rs else rs ++ (c, t) ∷ [])
      ≡ has_response code rs || c == code
add_one-has code c t rs = elim (Bool-cases (has_response c rs)) [
  | inr g ↦ rw g (has_response-append code c t rs)
  | inl g ↦ elim (Bool-cases (c == code)) [
    | inr h ↦ rw (g, h) (ground arith)
    | inl h ↦ rw (g, h) (ap (λ k. has_response k rs) (sym ((==_iff c code).0 h)) ∙ g ∙ ground arith)
  ]
]

add_responses-has :
    (code : ℕ) (more rs : Responses)
    → has_response code (add_responses more rs) ≡ has_response code rs || has_response code more
unfolding add_responses
add_responses-has code [] rs = ground arith
add_responses-has code ((c, t) ∷ more) rs =
    add_responses-has code more _
    ∙ ap (λ b. b || has_response code more) (add_one-has code c t rs)
    ∙ ground arith

set_response-has :
    (code : ℕ) (s : ResponseShape) (rs : Responses)
    → has_response code (set_response s rs) ≡ has_response code rs || s.status_code == code
set_response-has code s [] = ground arith
set_response-has code s ((c, t) ∷ rs) = elim (Bool-cases (c == s.status_code)) [
  | inl g ↦
      rw (g)
        (ap (λ k. k == code || has_response code rs) ((==_iff c s.status_code).0 g) ∙ ground arith)
  | inr g ↦ rw (g) (ground (arith, set_response-has code s rs))
]

build_responses-has :
    (code : ℕ) (ss : List ResponseShape) (rs : Responses)
    → has_response code (build_responses ss rs) ≡ has_response code rs || has_code code ss
unfolding build_responses
build_responses-has code [] rs = ground arith
build_responses-has code (s ∷ ss) rs =
    build_responses-has code ss (set_response s rs)
    ∙ ap (λ b. b || has_code code ss) (set_response-has code s rs)
    ∙ ground arith

-- Users' factories may add to the parameters and the body, and leave the responses alone.
abbrev pub KeepsResponses : {V : Type 0} → CustomDoc V → Type 0
KeepsResponses {V} custom =
    (n : ℕ) (p : Parameter V) (doc : OperationDoc) → (custom n p doc).responses ≡ doc.responses

-- a middleware of the list declares the status
abbrev pub any_declares : {V : Type 0} → ℕ → List (Contribution V) → Bool
any_declares code [] = false
any_declares code (m ∷ ms) = has_code code m.shapes || any_declares code ms

module _ {V : Type 0} (custom : CustomDoc V) (keeps : KeepsResponses custom) where
  document_parameter-responses :
      (p : Parameter V) (f : Factory) (doc : OperationDoc)
      → (document_parameter custom p f doc).responses ≡ doc.responses
  unfolding document_parameter
  document_parameter-responses p (from_path given) doc = refl
  document_parameter-responses p (from_query given) doc = refl
  document_parameter-responses p (from_header given) doc = refl
  document_parameter-responses p from_body doc = refl
  document_parameter-responses p (other_factory n) doc = keeps n p doc

  document_parameters-responses :
      (bs : Bound V) (doc : OperationDoc)
      → (document_parameters custom bs doc).responses ≡ doc.responses
  unfolding document_parameters
  document_parameters-responses [] doc = refl
  document_parameters-responses ((p, none) ∷ bs) doc = document_parameters-responses bs doc
  document_parameters-responses ((p, some f) ∷ bs) doc =
      document_parameters-responses bs (document_parameter custom p f doc)
      ∙ document_parameter-responses p f doc

  contribute_operation-responses :
      (m : Contribution V) (doc : OperationDoc)
      → (contribute_operation custom m doc).responses
        ≡ add_responses (build_responses m.shapes []) doc.responses
  unfolding contribute_operation
  contribute_operation-responses m doc =
      ap (add_responses (build_responses m.shapes []))
        (document_parameters-responses m.parameters doc)

  contribute_all-at :
      (code : ℕ) (ms : List (Contribution V)) (doc : OperationDoc) (s : ResponseShape)
      → response_at code doc.responses ≡ some s
      → response_at code (contribute_all custom ms doc).responses ≡ some s
  contribute_all-at code [] doc s h = h
  contribute_all-at code (m ∷ ms) doc s h =
      contribute_all-at code ms (contribute_operation custom m doc) s (
        ap (response_at code) (contribute_operation-responses m doc)
        ∙ add_responses-at code (build_responses m.shapes []) doc.responses s h)

  contribute_all-has :
      (code : ℕ) (ms : List (Contribution V)) (doc : OperationDoc)
      → has_response code (contribute_all custom ms doc).responses
        ≡ has_response code doc.responses || any_declares code ms
  contribute_all-has code [] doc = ground arith
  contribute_all-has code (m ∷ ms) doc =
      contribute_all-has code ms (contribute_operation custom m doc)
      ∙ ap (λ rs. has_response code rs || any_declares code ms)
          (contribute_operation-responses m doc)
      ∙ ap (λ b. b || any_declares code ms)
          (add_responses-has code (build_responses m.shapes []) doc.responses
            ∙ ap (λ b. has_response code doc.responses || b) (build_responses-has code m.shapes []))
      ∙ ground arith

  -- The document of an operation has a response for exactly the statuses that the operation or one of
  -- its middlewares announces, and where the operation announces one, the response is the operation's
  -- own, if users' factories leave the responses alone.
  pub build_spec-responses :
      (op : Operation V) (ms : List (Contribution V)) (code : ℕ)
      → (has_response code (build_spec custom op ms).responses
          ≡ has_code code op.return_shapes || any_declares code ms)
        × ((s : ResponseShape)
            → response_at code (build_responses op.return_shapes []) ≡ some s
            → response_at code (build_spec custom op ms).responses ≡ some s)
  unfolding build_spec
  build_spec-responses op ms code = (
    contribute_all-has code ms _
        ∙ ap (λ b. b || any_declares code ms) (build_responses-has code op.return_shapes []),
    λ s h. contribute_all-at code ms _ s h,
  )

create-announces :
    {V : Type 0} (a : Adapters) (vars : List Bytes) (ps : List (Parameter V))
    (returns : List Member) (op : Operation V) (r : Returned V)
    → create a vars ps (some returns) ≡ made op
    → ConformsToAny returns r
    → is_none r && not (tells_none returns) ≡ false
    → has_code (status_code (as_result op.null_is_not_found r).result_class) op.return_shapes ≡ true
unfolding create
create-announces a vars ps returns op r created conforms tells =
    let (known, claimed, same) = checked-made _ _ _ op created in
    subst
      (λ o.
        has_code (status_code (as_result o.null_is_not_found r).result_class) o.return_shapes
        ≡ true)
      same (returned_is_announced returns r conforms tells)

run_core-answer :
    {V : Type 0} (py : Python V) (resolver : ℕ → Parameter V → Ctx → Resolved V × Ctx)
    (fn : List (Argument V) → Returned V) (op : Operation V) (ctx next : Ctx)
    (args : List (Argument V))
    → resolve_arguments py resolver op.parameters (buffer_body op.needs_body ctx)
      ≡ (arguments args, next)
    → (run_core py resolver fn op ctx).0 ≡ as_result op.null_is_not_found (fn args)
unfolding run_core
run_core-answer py resolver fn op ctx next args e = rw (e, run_core) refl

-- What an operation that `create` makes answers is documented: if the arguments resolve and the
-- function returns a value of its return annotation, the status of the result has a response in the
-- document, unless the value is `None` and the annotation does not tell what `None` becomes. Users'
-- factories leave the responses of the document alone.
pub run_core-documented :
    {V : Type 0} (custom : CustomDoc V) (py : Python V)
    (resolver : ℕ → Parameter V → Ctx → Resolved V × Ctx) (fn : List (Argument V) → Returned V)
    (a : Adapters) (vars : List Bytes) (ps : List (Parameter V)) (returns : List Member)
    (op : Operation V) (mws : List (Contribution V)) (ctx next : Ctx) (args : List (Argument V))
    → KeepsResponses custom
    → create a vars ps (some returns) ≡ made op
    → resolve_arguments py resolver op.parameters (buffer_body op.needs_body ctx)
      ≡ (arguments args, next)
    → ConformsToAny returns (fn args)
    → is_none (fn args) && not (tells_none returns) ≡ false
    → has_response
        (status_code (run_core py resolver fn op ctx).0.result_class)
        (build_spec custom op mws).responses
      ≡ true
run_core-documented custom py resolver fn a vars ps returns op mws ctx next args keeps created
      resolved conforms tells =
    let code = status_code (as_result op.null_is_not_found (fn args)).result_class in
    ap (λ r. has_response (status_code r.result_class) (build_spec custom op mws).responses)
      (run_core-answer py resolver fn op ctx next args resolved)
    ∙ (build_spec-responses custom keeps op mws code).0
    ∙ ap (λ b. b || any_declares code mws)
        (create-announces a vars ps returns op (fn args) created conforms tells)
