-- ===== src/Http/Router/Dispatch.antt =====
-- localpost/http/router.py: `Router._match` against a description with no loop.
use mathlib.Core.Path.{fun_ext}
use native.Mathlib.Nat.{add-zero, zero-add, add_assoc}
use localpost_py.Prelude.{
  ℕ, ◌+◌, ◌≡◌, refl, subst, ==_iff, sym, ap, ◌∙◌, Bool, true, false, ◌||◌, Option, none, some, List,
  [], ◌∷◌, ◌==◌, arith, inl, inr, Bool-cases, Option-cases, All, ◌<◌, if◌then◌else◌,
}
use localpost_py.Bytes.{Bytes, is_empty}
use localpost_py.Http.Types.{
  Method, Response, all_methods, parse_method, connect, delete, get, head, options, patch, post,
  put, trace,
}
use localpost_py.Http.Template.{match}
use localpost_py.Http.Router.Combined.{is_matched, any_match-is_matched}
use localpost_py.Http.Router.{
  Methods, same_method, handles, Route, MatchResult, match_ok, match_not_found,
  match_method_not_allowed, has_args, find_for, any_method, after_loop, match_loop, match_routes,
  format_allow_header, build_method_not_allowed,
}

abbrev pub or_else {ℓ} : {A : Type ℓ} → Option A → Option A → Option A
or_else none b = b
or_else (some a) b = some a

or_assoc : (a b c : Bool) → (a || (b || c)) ≡ ((a || b) || c)
or_assoc a b c = ground arith

or_false : (a : Bool) → (a || false) ≡ a
or_false a = ground arith

module _ {H : Type 0} (path : Bytes) where
  -- some route with a matching template offers the method
  pub offered : List (Route H) → Method → Bool
  offered [] m = false
  offered (r ∷ rs) m =
      if has_args (match r.template path) then handles m r.methods || offered rs m else offered rs m

  abbrev pub found_at :
      Route H → Option (List (Bytes × Bytes)) → Option (Method × H) → Option (MatchResult H)
  found_at r (some args) (some (m, h)) = some (match_ok h m r.template args)
  found_at r _ _ = none

  -- the first route whose template matches and that has a handler for the method
  unfoldable pub first_found : Option Method → List (Route H) → Option (MatchResult H)
  first_found method [] = none
  first_found method (r ∷ rs) =
      or_else (found_at r (match r.template path) (find_for method r.methods))
        (first_found method rs)

  matching : List (Route H) → ℕ
  matching [] = 0
  matching (r ∷ rs) = (if has_args (match r.template path) then 1 else 0) + matching rs

  last_405 : Option (Response × Bytes) → List (Route H) → Option (Response × Bytes)
  last_405 single [] = single
  last_405 single (r ∷ rs) =
      last_405 (if has_args (match r.template path) then some r.method_not_allowed else single) rs

  abbrev pub or_answer : MatchResult H → Option (MatchResult H) → MatchResult H
  or_answer a none = a
  or_answer a (some b) = b

  offered_miss :
      (r : Route H) (rs : List (Route H))
      → match r.template path ≡ none
      → offered (r ∷ rs) ≡ offered rs
  unfolding offered
  offered_miss r rs e = fun_ext λ m. rw e refl

  offered_hit :
      (r : Route H) (rs : List (Route H)) {args : List (Bytes × Bytes)} (allowed : Method → Bool)
      → match r.template path ≡ some args
      → ◌≡◌ {A = Method → Bool}
          (λ m. allowed m || offered (r ∷ rs) m)
          (λ m. (allowed m || handles m r.methods) || offered rs m)
  unfolding offered
  offered_hit r rs allowed e =
      fun_ext λ m. rw e (or_assoc (allowed m) (handles m r.methods) (offered rs m))

  loop-eq :
      (method : Option Method) (rs : List (Route H)) (allowed : Method → Bool) (matched : ℕ)
      (single : Option (Response × Bytes))
      → match_loop path method rs allowed matched single
        ≡ or_answer
            (after_loop
              (λ m. allowed m || offered rs m)
              (matched + matching rs)
              (last_405 single rs))
            (first_found method rs)
  unfolding match_loop first_found matching last_405
  loop-eq method [] allowed matched single =
      let same : allowed ≡ (λ m. allowed m || offered [] m) =
        unfold offered in fun_ext (λ m. sym (or_false (allowed m))) in
      rw add-zero (ap (λ (p : Method → Bool). after_loop p matched single) same)
  loop-eq method (r ∷ rs) allowed matched single = elim (Option-cases (match r.template path)) [
    | inl e ↦
        rw (e, match_loop, offered_miss r rs e, zero-add) (loop-eq method rs allowed matched single)
    | inr (args, e) ↦ elim (Option-cases (find_for method r.methods)) [
      | inl f ↦
          rw (e, match_loop, f, offered_hit r rs allowed e, ← add_assoc)
            (loop-eq method rs (λ m. allowed m || handles m r.methods) (matched + 1)
              (some r.method_not_allowed))
      | inr ((m, h), f) ↦ rw (e, match_loop, f) refl
    ]
  ]

  -- none of the templates matches
  matching_none :
      (rs : List (Route H)) (single : Option (Response × Bytes))
      → matching rs ≡ 0
      → (offered rs ≡ (λ m. false)) × (last_405 single rs ≡ single)
  unfolding matching last_405 offered
  matching_none [] single z = (refl, refl)
  matching_none (r ∷ rs) single z = elim (Option-cases (match r.template path)) [
    | inl e ↦
        let rest = matching_none rs single (ground (arith, e, z)) in
        (offered_miss r rs e ∙ rest.0, rw (e, last_405) rest.1)
    | inr (args, e) ↦ absurd (ground (arith, e, z))
  ]

-- what `from_routes` makes of a method table, which `add` never leaves empty
pub record IsCompiled {H : Type 0} (r : Route H) : Type 0 where
  pub has_method : is_empty r.methods ≡ false
  pub answer :
      r.method_not_allowed
      ≡ build_method_not_allowed (format_allow_header (λ m. handles m r.methods))

any_method_first :
    {H : Type 0} (ms : Methods H)
    → is_empty ms ≡ false
    → any_method (λ m. handles m ms) all_methods ≡ true
unfolding any_method same_method
any_method_first [] e = cc
any_method_first ((connect, h) ∷ ms) e = refl
any_method_first ((delete, h) ∷ ms) e = ground arith
any_method_first ((get, h) ∷ ms) e = ground arith
any_method_first ((head, h) ∷ ms) e = ground arith
any_method_first ((options, h) ∷ ms) e = ground arith
any_method_first ((patch, h) ∷ ms) e = ground arith
any_method_first ((post, h) ∷ ms) e = ground arith
any_method_first ((put, h) ∷ ms) e = ground arith
any_method_first ((trace, h) ∷ ms) e = ground arith

any_method_mono :
    (p q : Method → Bool) (ms : List Method)
    → any_method p ms ≡ true
    → any_method (λ m. p m || q m) ms ≡ true
unfolding any_method
any_method_mono p q [] h = h
any_method_mono p q (m ∷ ms) h = ground (arith, h, any_method_mono p q ms)

module _ {H : Type 0} (path : Bytes) where
  offered_here :
      (r : Route H) (rs : List (Route H)) {args : List (Bytes × Bytes)}
      → match r.template path ≡ some args
      → offered path (r ∷ rs) ≡ (λ m. handles m r.methods || offered path rs m)
  unfolding offered
  offered_here r rs e = fun_ext λ m. rw e refl

  -- exactly one template matches: the answer of that route is the answer for what is offered
  matching_one :
      (rs : List (Route H)) (single : Option (Response × Bytes))
      → All IsCompiled rs
      → matching path rs ≡ 1
      → last_405 path single rs
        ≡ some (build_method_not_allowed (format_allow_header (offered path rs)))
  unfolding matching last_405
  matching_one [] single c z = absurd (omega arith)
  matching_one (r ∷ rs) single c z = elim (Option-cases (match r.template path)) [
    | inl e ↦
        rw (e, last_405, offered_miss path r rs e)
          (matching_one rs single c.1 (ground (arith, e, z)))
    | inr (args, e) ↦
        let (no_more, last) =
          matching_none path rs (some r.method_not_allowed) (ground (arith, e, z)) in
        let same : offered path (r ∷ rs) ≡ (λ m. handles m r.methods) =
          offered_here r rs e ∙ rw no_more (fun_ext λ m. or_false (handles m r.methods)) in
        rw (e, last_405)
          (last
            ∙ ap some (
                c.0.answer
                ∙ ap (λ (p : Method → Bool). build_method_not_allowed (format_allow_header p))
                    (sym same)))
  ]

  is_matched-matching : (rs : List (Route H)) → is_matched path rs ≡ true → 0 < matching path rs
  unfolding matching
  is_matched-matching [] h = cc
  is_matched-matching (r ∷ rs) h = ground (arith, h, is_matched-matching rs)

  -- where a template matches, some method is offered
  something_offered :
      (rs : List (Route H))
      → All IsCompiled rs
      → is_matched path rs ≡ true
      → any_method (offered path rs) all_methods ≡ true
  something_offered [] c h = cc
  something_offered (r ∷ rs) c h = elim (Option-cases (match r.template path)) [
    | inl e ↦ rw (offered_miss path r rs e) (something_offered rs c.1 (ground (arith, e, h)))
    | inr (args, e) ↦
        subst (λ p. any_method p all_methods ≡ true) (sym (offered_here r rs e))
          (any_method_mono (λ m. handles m r.methods) (offered path rs) all_methods
            (any_method_first r.methods c.0.has_method))
  ]

  -- what `match_loop` ends with, by the three cases of `after_loop`
  after_loop-eq :
      (rs : List (Route H)) (single : Option (Response × Bytes))
      → All IsCompiled rs
      → is_matched path rs ≡ true
      → after_loop {H = H} (offered path rs) (matching path rs) (last_405 path single rs)
        ≡ match_method_not_allowed
            (build_method_not_allowed (format_allow_header (offered path rs)))
  unfolding after_loop
  after_loop-eq rs single c h = elim (Bool-cases (matching path rs == 1)) [
    | inl one ↦ rw (one, after_loop, matching_one rs single c ((==_iff _ _).0 one)) refl
    | inr many ↦ rw (many, after_loop) (rw (something_offered rs c h) refl)
  ]

  -- `_match` is this choice: 404 if no template matches; else the handler of the first route that
  -- has a matching template and the method; else 405, and `Allow` lists exactly the methods that
  -- the routes with a matching template offer. The assertion after the loop is never reached.
  pub match_routes_lem :
      (method_str : Bytes) (rs : List (Route H))
      → All IsCompiled rs
      → match_routes path method_str rs ≡ (
          if is_matched path rs
          then or_answer path
              (match_method_not_allowed
                (build_method_not_allowed (format_allow_header (offered path rs))))
              (first_found path (parse_method method_str) rs)
          else match_not_found)
  unfolding match_routes
  match_routes_lem method_str rs c =
      rw (any_match-is_matched path rs) (elim (Bool-cases (is_matched path rs)) [
        | inl h ↦
            rw (h, loop-eq path (parse_method method_str) rs (λ m. false) 0 none, zero-add)
              (ap
                (λ (a : MatchResult H).
                  or_answer path a (first_found path (parse_method method_str) rs))
                (after_loop-eq rs none c h))
        | inr h ↦ rw h refl
      ])
