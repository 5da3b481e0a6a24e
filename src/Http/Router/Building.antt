-- ===== src/Http/Router/Building.antt =====
-- localpost/http/router.py: what `Routes.add` registers, and the order that `from_routes` makes.
use localpost_py.Prelude.{
  ℕ, ◌≡◌, ◌≤◌, refl, subst, sym, ap, ◌∙◌, Bool, true, false, ◌&&◌, Option, none, some, List, [],
  ◌∷◌, ◌++◌, map, ◌==◌, leb, arith, inl, inr, Bool-cases, Option-cases, All, if◌then◌else◌,
}
use localpost_py.Bytes.{Bytes, bytes_eq, is_empty}
use localpost_py.Bytes.Laws.{bytes_eq_iff}
use localpost_py.Http.Types.{Method, method_name, parse_method, parse_method-name}
use localpost_py.Http.Template.{UriTemplate, parse}
use localpost_py.Http.Template.Parsing.{parse_roundtrip}
use localpost_py.Http.Router.Dispatch.{IsCompiled}
use localpost_py.Http.Router.{
  Methods, Routes, Route, get_handler, set_handler, same_method, add_existing, add, prefix_of,
  insert_route, sort_routes, compile_route, from_routes,
}

same_method→eq : (m n : Method) → same_method m n ≡ true → m ≡ n
unfolding same_method
same_method→eq m n e =
    let names : method_name m ≡ method_name n = (bytes_eq_iff _ _).0 e in
    cc (parse_method-name m, parse_method-name n, ap parse_method names)

-- two names are not both the third's
same_method_trans :
    (n m p : Method) → same_method n m ≡ true → same_method n p ≡ true → same_method m p ≡ true
same_method_trans n m p e f =
    let q : m ≡ n = sym (same_method→eq n m e) in subst (λ x. same_method x p ≡ true) (sym q) f

bytes_eq-meet : (v t u : Bytes) → bytes_eq v u ≡ true → bytes_eq t u ≡ true → bytes_eq v t ≡ true
bytes_eq-meet v t u e f =
    (bytes_eq_iff v t).1 ((bytes_eq_iff v u).0 e ∙ sym ((bytes_eq_iff t u).0 f))

module _ {H : Type 0} where
  -- Longer literal prefixes come first.
  abbrev pub IsOrdered : Routes H → Type 0
  IsOrdered [] = Unit {0}
  IsOrdered (r ∷ rs) = All (λ s. prefix_of s ≤ prefix_of r) rs × IsOrdered rs

  -- the routes with one length of prefix
  abbrev pub of_prefix : ℕ → Routes H → Routes H
  of_prefix k [] = []
  of_prefix k (r ∷ rs) = if prefix_of r == k then r ∷ of_prefix k rs else of_prefix k rs

  All-insert :
      (n : ℕ) (r : UriTemplate × Methods H) (rs : Routes H)
      → prefix_of r ≤ n
      → All (λ s. prefix_of s ≤ n) rs
      → All (λ s. prefix_of s ≤ n) (insert_route r rs)
  unfolding insert_route
  All-insert n r [] h a = (h, tt)
  All-insert n r (s ∷ rs) h a = ground (arith, h, a, All-insert n r rs h a.1)

  All-lower :
      (m n : ℕ) (rs : Routes H)
      → m ≤ n
      → All (λ s. prefix_of s ≤ m) rs
      → All (λ s. prefix_of s ≤ n) rs
  All-lower m n [] h a = tt
  All-lower m n (s ∷ rs) h a = (omega (arith, a.0), All-lower m n rs h a.1)

  insert-IsOrdered :
      (r : UriTemplate × Methods H) (rs : Routes H) → IsOrdered rs → IsOrdered (insert_route r rs)
  unfolding insert_route
  insert-IsOrdered r [] o = (tt, tt)
  insert-IsOrdered r (s ∷ rs) o = elim (Bool-cases (leb (prefix_of s) (prefix_of r))) [
    | inl h ↦
        let le : prefix_of s ≤ prefix_of r = ground (arith, h) in
        rw h ((le, All-lower (prefix_of s) (prefix_of r) rs le o.0), o)
    | inr h ↦
        rw h (All-insert (prefix_of s) r rs (ground (arith, h)) o.0, insert-IsOrdered r rs o.1)
  ]

  sort-IsOrdered : (rs : Routes H) → IsOrdered (sort_routes rs)
  unfolding sort_routes
  sort-IsOrdered [] = tt
  sort-IsOrdered (r ∷ rs) = insert-IsOrdered r (sort_routes rs) (sort-IsOrdered rs)

  of_prefix-insert :
      (k : ℕ) (r : UriTemplate × Methods H) (rs : Routes H)
      → of_prefix k (insert_route r rs) ≡ of_prefix k (r ∷ rs)
  unfolding insert_route
  of_prefix-insert k r [] = refl
  of_prefix-insert k r (s ∷ rs) = ground (arith, of_prefix-insert k r rs)

  of_prefix-sort : (k : ℕ) (rs : Routes H) → of_prefix k (sort_routes rs) ≡ of_prefix k rs
  unfolding sort_routes
  of_prefix-sort k [] = refl
  of_prefix-sort k (r ∷ rs) =
      of_prefix-insert k r (sort_routes rs) ∙ ground (arith, of_prefix-sort k rs)

  -- `from_routes` compiles the routes of the builder in an order in which longer literal prefixes
  -- come first and routes with prefixes of one length keep the order of registration.
  pub from_routes_order :
      (rs : Routes H) (routes : List (Route H)) (k : ℕ)
      → from_routes rs ≡ some routes
      → (ordered : Routes H) × (routes ≡ map compile_route ordered)
        × IsOrdered ordered
        × (of_prefix k ordered ≡ of_prefix k rs)
  unfolding from_routes
  from_routes_order rs routes k e =
      (sort_routes rs, ground (arith, e), sort-IsOrdered rs, of_prefix-sort k rs)

  abbrev pub HasMethods : Routes H → Type 0
  HasMethods = All (λ r. is_empty r.1 ≡ false)

  insert-HasMethods :
      (r : UriTemplate × Methods H) (rs : Routes H)
      → is_empty r.1 ≡ false
      → HasMethods rs
      → HasMethods (insert_route r rs)
  unfolding insert_route
  insert-HasMethods r [] h a = (h, tt)
  insert-HasMethods r (s ∷ rs) h a = ground (arith, h, a, insert-HasMethods r rs h a.1)

  sort-HasMethods : (rs : Routes H) → HasMethods rs → HasMethods (sort_routes rs)
  unfolding sort_routes
  sort-HasMethods [] a = tt
  sort-HasMethods (r ∷ rs) a = insert-HasMethods r (sort_routes rs) a.0 (sort-HasMethods rs a.1)

  compiled : (rs : Routes H) → HasMethods rs → All IsCompiled (map compile_route rs)
  unfolding compile_route
  compiled [] a = tt
  compiled (r ∷ rs) a = (record { has_method = a.0; answer = refl }, compiled rs a.1)

  -- A builder whose method tables are not empty compiles to routes with the right `Allow` header.
  pub from_routes-IsCompiled :
      (rs : Routes H) (routes : List (Route H))
      → HasMethods rs
      → from_routes rs ≡ some routes
      → All IsCompiled routes
  unfolding from_routes
  from_routes-IsCompiled rs routes a e =
      let same : map compile_route (sort_routes rs) ≡ routes = ground (arith, e) in
      subst (λ l. All IsCompiled l) same (compiled (sort_routes rs) (sort-HasMethods rs a))

  -- the handler that a builder holds for a method of a template
  pub handler_at : Method → Bytes → Routes H → Option H
  handler_at m t [] = none
  handler_at m t ((u, ms) ∷ rs) =
      if bytes_eq u.template t then get_handler m ms else handler_at m t rs

  get_handler-set :
      (m n : Method) (h : H) (ms : Methods H)
      → get_handler n (set_handler m h ms) ≡ (if same_method n m then some h else get_handler n ms)
  get_handler-set m n h [] = refl
  get_handler-set m n h ((p, k) ∷ ms) = elim (Bool-cases (same_method m p)) [
    | inl e ↦
        let q : m ≡ p = same_method→eq m p e in
        let r : same_method n m ≡ same_method n p = ap (same_method n) q in rw e (ground (arith, r))
    | inr e ↦ rw e (ground (arith, get_handler-set m n h ms, same_method_trans n m p, e))
  ]

  -- what the two branches of `add` leave
  add_existing-lookup :
      (m n : Method) (t u : Bytes) (h : H) (rs rs' : Routes H)
      → add_existing m t h rs ≡ some rs'
      → handler_at n u rs' ≡ (if bytes_eq t u && same_method n m then some h else handler_at n u rs)
  unfolding add_existing handler_at
  add_existing-lookup m n t u h [] rs' e = cc
  add_existing-lookup m n t u h ((v, ms) ∷ rs) rs' e = elim (Bool-cases (bytes_eq v.template t)) [
    | inl here ↦
        let made : (v, set_handler m h ms) ∷ rs ≡ rs' = ground (arith, e, here) in
        let same : bytes_eq v.template u ≡ bytes_eq t u =
          ap (λ (x : Bytes). bytes_eq x u) ((bytes_eq_iff _ _).0 here) in
        rw (← made) (ground (arith, get_handler-set m n h ms, same))
    | inr there ↦ elim (Option-cases (add_existing m t h rs)) [
      | inl x ↦ ground (arith, e, there, x)
      | inr (more, x) ↦
          let made : (v, ms) ∷ more ≡ rs' = ground (arith, e, there, x) in
          rw (← made) (
            ground
              (arith, add_existing-lookup m n t u h rs more x, bytes_eq-meet v.template t u, there))
    ]
  ]

  append_new-lookup :
      (m n : Method) (t u : Bytes) (h : H) (rs : Routes H) (v : UriTemplate)
      → v.template ≡ t
      → add_existing m t h rs ≡ none
      → handler_at n u (rs ++ (v, (m, h) ∷ []) ∷ [])
        ≡ (if bytes_eq t u && same_method n m then some h else handler_at n u rs)
  unfolding add_existing handler_at
  append_new-lookup m n t u h [] v same e = rw same (ground arith)
  append_new-lookup m n t u h ((w, ms) ∷ rs) v same e =
      ground (arith, append_new-lookup m n t u h rs v same, bytes_eq-meet w.template t u, e)

  -- `Routes.add` sets the handler of its method at its template, whether the template was there or
  -- not, and changes no other.
  pub handler_at-add :
      (identifier : Bytes → Bool) (m n : Method) (t u : Bytes) (h : H) (rs rs' : Routes H)
      → add identifier m t h rs ≡ some rs'
      → handler_at n u rs' ≡ (if bytes_eq t u && same_method n m then some h else handler_at n u rs)
  unfolding add
  handler_at-add identifier m n t u h rs rs' e = elim (Option-cases (add_existing m t h rs)) [
    | inr (more, x) ↦ add_existing-lookup m n t u h rs rs' (x ∙ ground (arith, e, x))
    | inl x ↦ elim (Option-cases (parse identifier t)) [
      | inl y ↦ ground (arith, e, x, y)
      | inr (v, y) ↦
          let made : rs ++ (v, (m, h) ∷ []) ∷ [] ≡ rs' = ground (arith, e, x, y) in
          rw (← made) (append_new-lookup m n t u h rs v (parse_roundtrip identifier t y).1 x)
    ]
  ]
