-- ===== src/Openapi/Operation/Binding.antt =====
-- localpost/openapi/operation.py: which path variables the parameters of an operation bind.
use localpost_py.Prelude.{
  ◌≡◌, refl, sym, ap, ◌∙◌, subst, Bool, true, false, Option, none, some, Option-cases, List, [],
  ◌∷◌, arith, Bool-cases,
}
use localpost_py.Prelude.{◌≢◌, inl, inr}
use localpost_py.Bytes.{Bytes, bytes_eq}
use localpost_py.Bytes.Laws.{bytes_eq→eq, bytes_eq_refl, bytes_eq_sym}
use localpost_py.Openapi.{Factory, Parameter, get}
use localpost_py.Openapi.Shapes.{Member}
use localpost_py.Openapi.Operation.{
  one_of, Adapters, build_arg_resolvers, Bound, Operation, made, path_name, bound_names,
  first_foreign, without, checked, create,
}
use localpost_py.Http.Template.{UriTemplate, parse, match, Part, names}
use localpost_py.Http.Template.Parsing.{parse_roundtrip}
use localpost_py.Http.Template.Matching.{Fits, match-Fits}

first_foreign-one_of :
    (vars ns : List Bytes) (n : Bytes)
    → first_foreign vars ns ≡ none
    → one_of n ns ≡ true
    → one_of n vars ≡ true
first_foreign-one_of vars [] n h k = cc k
first_foreign-one_of vars (m ∷ ns) n h k = elim (Bool-cases (bytes_eq n m)) [
  | inl g ↦ rw (bytes_eq→eq n m g) (ground (arith, h))
  | inr g ↦ first_foreign-one_of vars ns n (ground (arith, h)) (ground (arith, k, g))
]

without-one_of :
    (bound vars : List Bytes) (n : Bytes)
    → without bound vars ≡ []
    → one_of n vars ≡ true
    → one_of n bound ≡ true
without-one_of bound [] n h k = cc k
without-one_of bound (m ∷ vars) n h k = elim (Bool-cases (bytes_eq n m)) [
  | inl g ↦ rw (bytes_eq→eq n m g) (ground (arith, h))
  | inr g ↦ without-one_of bound vars n (ground (arith, h)) (ground (arith, k, g))
]

same_truth : (a b : Bool) → (a ≡ true → b ≡ true) → (b ≡ true → a ≡ true) → a ≡ b
same_truth true b f g = sym (f refl)
same_truth false true f g = g refl
same_truth false false f g = refl

module _ {V : Type 0} where
  pub checked-made :
      (o : Option Bytes) (vs : List Bytes) (op op' : Operation V)
      → checked o vs op ≡ made op'
      → (o ≡ none) × (vs ≡ []) × (op ≡ op')
  checked-made (some n) vs op op' h = cc h
  checked-made none (v ∷ vs) op op' h = cc h
  checked-made none [] op op' h = (refl, refl, cc h)

  -- The names that the parameters of an operation bind with `FromPath` are the variables of its path
  -- template, when `create` makes the operation.
  pub create-bound_names :
      (a : Adapters) (vars : List Bytes) (ps : List (Parameter V)) (returns : Option (List Member))
      (op : Operation V)
      → create a vars ps returns ≡ made op
      → (n : Bytes) → one_of n (bound_names op.parameters) ≡ one_of n vars
  unfolding create
  create-bound_names a vars ps returns op h n =
      let (known, claimed, same) =
        checked-made (first_foreign vars (bound_names (build_arg_resolvers a vars ps)))
          (without (bound_names (build_arg_resolvers a vars ps)) vars) _ op h in
      subst (λ bs. one_of n (bound_names bs) ≡ one_of n vars) (ap (λ o. o.parameters) same)
        (same_truth _ _
          (first_foreign-one_of vars (bound_names (build_arg_resolvers a vars ps)) n known)
          (without-one_of (bound_names (build_arg_resolvers a vars ps)) vars n claimed))

  -- a parameter whose variable the arguments have not
  abbrev pub any_missing : List (Bytes × Bytes) → Bound V → Bool
  any_missing args [] = false
  any_missing args (b ∷ bs) = elim (path_name b) [
    | none ↦ any_missing args bs
    | some n ↦ elim (get n args) [ none ↦ true | some v ↦ any_missing args bs ]
  ]

  bound_names-skip :
      (b : Parameter V × Option Factory) (bs : Bound V)
      → path_name b ≡ none
      → bound_names (b ∷ bs) ≡ bound_names bs
  bound_names-skip b bs e = rw (e, bound_names) refl

  bound_names-bind :
      (b : Parameter V × Option Factory) (bs : Bound V) (n : Bytes)
      → path_name b ≡ some n
      → bound_names (b ∷ bs) ≡ n ∷ bound_names bs
  bound_names-bind b bs n e = rw (e, bound_names) refl

  no_missing :
      (args : List (Bytes × Bytes)) (bs : Bound V)
      → ((n : Bytes) → one_of n (bound_names bs) ≡ true → get n args ≢ none)
      → any_missing args bs ≡ false
  no_missing args [] h = refl
  no_missing args (b ∷ bs) h = elim (Option-cases (path_name b)) [
    | inl e ↦
        rw (e, any_missing)
          (no_missing args bs (λ n k. h n (ap (one_of n) (bound_names-skip b bs e) ∙ k)))
    | inr (n, e) ↦ elim (Option-cases (get n args)) [
      | inl g ↦
          absurd
            (h n (ap (one_of n) (bound_names-bind b bs n e) ∙ ground (arith, bytes_eq_refl n)) g)
      | inr (v, g) ↦
          rw (e, g, any_missing)
            (no_missing args bs
              (λ m k. h m (ap (one_of m) (bound_names-bind b bs n e) ∙ ground (arith, k))))
    ]
  ]

Fits-get :
    (ps : List Part) (cs : Bytes) (args : List (Bytes × Bytes))
    → Fits ps cs args
    → (n : Bytes) → one_of n (names ps) ≡ true
    → get n args ≢ none
Fits-get ps cs args (Fits.ends c e) n h k = cc h
Fits-get ps cs args (Fits.text l rest) n h k = Fits-get _ _ _ rest n h k
Fits-get ps cs args (Fits.segment m v one rest) n h k = elim (Bool-cases (bytes_eq n m)) [
  | inl g ↦ ground (arith, h, g, bytes_eq_sym m n)
  | inr g ↦ Fits-get _ _ _ rest n (ground (arith, h, g, bytes_eq_sym m n)) (ground (arith, k, g))
]

-- When an operation that `create` makes for a path template is reached by a path that the template
-- matches, no parameter that is bound to a path variable finds it missing.
pub match-any_missing :
    {V : Type 0} (identifier : Bytes → Bool) (text : Bytes) (t : UriTemplate) (a : Adapters)
    (ps : List (Parameter V)) (returns : Option (List Member)) (op : Operation V) (uri : Bytes)
    (args : List (Bytes × Bytes))
    → parse identifier text ≡ some t
    → create a t.variable_names ps returns ≡ made op
    → match t uri ≡ some args
    → any_missing args op.parameters ≡ false
match-any_missing identifier text t a ps returns op uri args parsed created matched =
    let (printed, kept, variables, front) = parse_roundtrip identifier text parsed in
    no_missing args op.parameters (λ n k.
      Fits-get t.parts uri args (match-Fits t uri args matched) n (
        ap (one_of n) (sym variables)
        ∙ sym (create-bound_names a t.variable_names ps returns op created n)
        ∙ k))
