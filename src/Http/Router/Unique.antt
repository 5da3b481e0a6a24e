-- ===== src/Http/Router/Unique.antt =====
-- localpost/http/router.py: what `Routes.add` leaves can be compiled.
use localpost_py.Prelude.{
  ◌≡◌, ◌≢◌, refl, Bool, false, ◌||◌, none, some, [], ◌∷◌, ◌++◌, arith, inl, inr, Bool-cases,
  Option-cases, All-append, ◌∙◌,
}
use localpost_py.Bytes.{Bytes, bytes_eq, is_empty}
use localpost_py.Bytes.Laws.{bytes_eq_sym}
use localpost_py.Http.Types.{Method}
use localpost_py.Http.Template.{UriTemplate, parse}
use localpost_py.Http.Template.Parsing.{parse_roundtrip}
use localpost_py.Http.Router.{
  Methods, Routes, set_handler, add_existing, add, has_template, has_duplicate, from_routes,
}
use localpost_py.Http.Router.Building.{HasMethods}

module _ {H : Type 0} where
  is_empty-set : (m : Method) (h : H) (ms : Methods H) → is_empty (set_handler m h ms) ≡ false
  is_empty-set m h [] = refl
  is_empty-set m h ((n, k) ∷ ms) = ground arith

  -- No template stands twice in the builder, and no method table is empty.
  pub record IsBuilt (rs : Routes H) : Type 0 where
    pub distinct : has_duplicate rs ≡ false
    pub filled : HasMethods rs

  -- an assignment to a table that is there
  existing_template :
      (m : Method) (t u : Bytes) (h : H) (rs rs' : Routes H)
      → add_existing m t h rs ≡ some rs'
      → has_template u rs' ≡ has_template u rs
  unfolding add_existing
  existing_template m t u h [] rs' e = cc
  existing_template m t u h ((v, ms) ∷ rs) rs' e = elim (Bool-cases (bytes_eq v.template t)) [
    | inl here ↦
        let made : (v, set_handler m h ms) ∷ rs ≡ rs' = ground (arith, e, here) in rw (← made) refl
    | inr there ↦ elim (Option-cases (add_existing m t h rs)) [
      | inl x ↦ ground (arith, e, there, x)
      | inr (more, x) ↦
          let made : (v, ms) ∷ more ≡ rs' = ground (arith, e, there, x) in
          rw (← made, existing_template m t u h rs more x) refl
    ]
  ]

  existing-IsBuilt :
      (m : Method) (t : Bytes) (h : H) (rs rs' : Routes H)
      → add_existing m t h rs ≡ some rs'
      → IsBuilt rs
      → IsBuilt rs'
  unfolding add_existing has_duplicate
  existing-IsBuilt m t h [] rs' e b = cc
  existing-IsBuilt m t h ((v, ms) ∷ rs) rs' e b = elim (Bool-cases (bytes_eq v.template t)) [
    | inl here ↦
        let made : (v, set_handler m h ms) ∷ rs ≡ rs' = ground (arith, e, here) in
        rw (← made) (record { distinct = b.distinct; filled = (is_empty-set m h ms, b.filled.1) })
    | inr there ↦ elim (Option-cases (add_existing m t h rs)) [
      | inl x ↦ ground (arith, e, there, x)
      | inr (more, x) ↦
          let made : (v, ms) ∷ more ≡ rs' = ground (arith, e, there, x) in
          let k =
            existing-IsBuilt m t h rs more x
              (record { distinct = ground (arith, b.distinct); filled = b.filled.1 }) in
          rw (← made) (record {
            distinct =
                ground
                  (arith, b.distinct, k.distinct, existing_template m t v.template h rs more x);
            filled = (b.filled.0, k.filled);
          })
    ]
  ]

  -- a template that is not there yet
  new_template :
      (m : Method) (t : Bytes) (h : H) (rs : Routes H)
      → add_existing m t h rs ≡ none
      → has_template t rs ≡ false
  unfolding add_existing
  new_template m t h [] e = refl
  new_template m t h ((v, ms) ∷ rs) e =
      ground (arith, e, new_template m t h rs, bytes_eq_sym v.template t)

  has_template-append :
      (u : Bytes) (rs : Routes H) (v : UriTemplate) (ms : Methods H)
      → has_template u (rs ++ (v, ms) ∷ []) ≡ (has_template u rs || bytes_eq u v.template)
  has_template-append u [] v ms = ground arith
  has_template-append u ((w, ns) ∷ rs) v ms = ground (arith, has_template-append u rs v ms)

  append-distinct :
      (rs : Routes H) (v : UriTemplate) (ms : Methods H)
      → has_duplicate rs ≡ false
      → has_template v.template rs ≡ false
      → has_duplicate (rs ++ (v, ms) ∷ []) ≡ false
  unfolding has_duplicate
  append-distinct [] v ms d n = refl
  append-distinct ((w, ns) ∷ rs) v ms d n = ground (
    arith,
    d,
    n,
    append-distinct rs v ms,
    has_template-append w.template rs v ms,
    bytes_eq_sym w.template v.template,
  )

  compiles : {rs : Routes H} → IsBuilt rs → IsBuilt rs × (from_routes rs ≢ none)
  unfolding from_routes
  compiles b = (b, λ e. ground (arith, e, b.distinct))

  -- `Routes.add` never puts a template in twice and never leaves a method table empty, so a builder
  -- that was filled through it always compiles.
  pub add-IsBuilt :
      (identifier : Bytes → Bool) (m : Method) (t : Bytes) (h : H) (rs rs' : Routes H)
      → add identifier m t h rs ≡ some rs'
      → IsBuilt rs
      → IsBuilt rs' × (from_routes rs' ≢ none)
  unfolding add
  add-IsBuilt identifier m t h rs rs' e b = elim (Option-cases (add_existing m t h rs)) [
    | inr (more, x) ↦ compiles (existing-IsBuilt m t h rs rs' (x ∙ ground (arith, e, x)) b)
    | inl x ↦ elim (Option-cases (parse identifier t)) [
      | inl y ↦ ground (arith, e, x, y)
      | inr (v, y) ↦
          let made : rs ++ (v, (m, h) ∷ []) ∷ [] ≡ rs' = ground (arith, e, x, y) in
          let same = (parse_roundtrip identifier t y).1 in
          rw (← made) (
            compiles (record {
              distinct =
                  append-distinct rs v ((m, h) ∷ []) b.distinct (rw same (new_template m t h rs x));
              filled = All-append _ rs _ b.filled (refl, tt);
            }))
    ]
  ]
