-- ===== src/Di/Answers.antt =====
-- localpost/di/_services.py: when resolution ends.
use localpost_py.Prelude.{
  ℕ, zero, suc, ◌<◌, ◌≡◌, refl, ap, Bool, true, false, ◌&&◌, some, List, [], ◌∷◌, arith, Bool-cases,
  Option-cases, inl, inr, All, All-map, ◌==◌,
}
use localpost_py.Di.{
  Value, Factory, instance_of, wired, ServiceDescriptor, ServiceRegistry, World, Provider, State,
  Outcome, ok, fails, out_of_fuel, and_then, push, get_descriptor, cached, construct, instantiate,
  walk, from_factory, resolve, resolve_all,
}

abbrev pub is_answer : {A : Type 0} → Outcome A → Bool
is_answer (ok a s) = true
is_answer (fails e s) = true
is_answer out_of_fuel = false

abbrev pub deps_of : Factory → List ℕ
deps_of (instance_of n) = []
deps_of (wired deps) = deps

-- The services that a factory asks for rank below its own.
abbrev pub IsAbove : (ℕ → ℕ) → ServiceDescriptor → Type 0
IsAbove rank d = All (λ x. rank x < rank d.service_type) (deps_of d.factory)

and_then_answers :
    {A B : Type 0} (o : Outcome A) (f : A → State → Outcome B)
    → is_answer o ≡ true
    → ((a : A) (s : State) → is_answer (f a s) ≡ true)
    → is_answer (and_then o f) ≡ true
and_then_answers (ok a s) f h k = k a s
and_then_answers (fails e s) f h k = refl
and_then_answers out_of_fuel f h k = h

resolve_all_answers :
    (r : ℕ → State → Outcome Value) (ts : List ℕ) (s : State)
    → All (λ t. (s : State) → is_answer (r t s) ≡ true) ts
    → is_answer (resolve_all r ts s) ≡ true
unfolding resolve_all
resolve_all_answers r [] s h = refl
resolve_all_answers r (t ∷ ts) s h = and_then_answers (r t s) _ (h.0 s) (λ v s'.
    and_then_answers (resolve_all r ts s') _ (resolve_all_answers r ts s' h.1) (λ vs s''. refl))

module _ (world : World) (registry : ServiceRegistry) where
  construct_answers :
      (t : ℕ) (args : List Value) (s : State) → is_answer (construct world registry t args s) ≡ true
  unfolding construct
  construct_answers t args s = ground arith

  from_factory_answers :
      (r : ℕ → State → Outcome Value) (t : ℕ) (f : Factory) (s : State)
      → All (λ x. (s' : State) → is_answer (r x s') ≡ true) (deps_of f)
      → is_answer (from_factory world registry r t f s) ≡ true
  unfolding from_factory
  from_factory_answers r t (instance_of n) s h = refl
  from_factory_answers r t (wired deps) s h =
      and_then_answers (resolve_all r deps s) _ (resolve_all_answers r deps s h)
        (construct_answers t)

  instantiate_answers :
      (r : ℕ → State → Outcome Value) (d : ServiceDescriptor) (s : State)
      → All (λ x. (s' : State) → is_answer (r x s') ≡ true) (deps_of d.factory)
      → is_answer (instantiate world registry r d s) ≡ true
  unfolding instantiate
  instantiate_answers r d s h =
      and_then_answers (from_factory world registry r d.service_type d.factory s) _
        (from_factory_answers r d.service_type d.factory s h) (λ v s'. refl)

  push_answers : (p : Provider) (o : Outcome Value) → is_answer (push p o) ≡ is_answer o
  push_answers p (ok v s) = refl
  push_answers p (fails e s) = refl
  push_answers p out_of_fuel = refl

  walk_answers :
      (b : ServiceDescriptor → State → Outcome Value) (t : ℕ) (ps : List Provider) (clock : ℕ)
      → ((k : ℕ) (d : ServiceDescriptor) (s : State)
          → get_descriptor t k registry ≡ some d
          → is_answer (b d s) ≡ true)
      → is_answer (walk world registry b t ps clock) ≡ true
  unfolding walk
  walk_answers b t [] clock h = refl
  walk_answers b t (p ∷ ps) clock h = elim (Bool-cases (t == world.provider_type)) [
    | inl e ↦ rw e refl
    | inr e ↦ elim (Bool-cases (t == p.scope_type)) [
      | inl f ↦ rw (e, f) refl
      | inr f ↦ elim (Option-cases (cached world registry t p.services)) [
        | inr (v, g) ↦ rw (e, f, g) refl
        | inl g ↦ elim (Option-cases (get_descriptor t p.scope_type registry)) [
          | inr (d, k) ↦ rw (e, f, g, k) (h p.scope_type d _ k)
          | inl k ↦
              rw (e, f, g, k, push_answers p (walk world registry b t ps clock))
                (walk_answers b t ps clock h)
        ]
      ]
    ]
  ]

get_descriptor_type :
    (rank : ℕ → ℕ) (t k : ℕ) (ds : ServiceRegistry) (d : ServiceDescriptor)
    → All (IsAbove rank) ds
    → get_descriptor t k ds ≡ some d
    → (d.service_type ≡ t) × IsAbove rank d
get_descriptor_type rank t k [] d h e = cc
get_descriptor_type rank t k (c ∷ ds) d h e =
    elim (Bool-cases (c.service_type == t && c.scope_type == k)) [
      | inl g ↦ let same : c ≡ d = ground (arith, g, e) in rw (← same) (ground (arith, g), h.0)
      | inr g ↦ get_descriptor_type rank t k ds d h.1 (ground (arith, g, e))
    ]

module _ (world : World) (registry : ServiceRegistry) (rank : ℕ → ℕ)
    (above : All (IsAbove rank) registry) where
  -- Where services can be ranked so that each asks only for lower ones, that is where dependencies
  -- have no cycle, fuel above a service's rank is enough to resolve it, from any state of any chain
  -- of scopes: `resolve` returns an object or raises, and never recurses for ever.
  pub resolve_answers :
      (fuel t : ℕ) (s : State) → rank t < fuel → is_answer (resolve world registry fuel t s) ≡ true
  unfolding resolve
  resolve_answers zero t s h = absurd (omega (arith, h))
  resolve_answers (suc fuel) t s h =
      walk_answers world registry (instantiate world registry (resolve world registry fuel)) t
        s.chain s.clock
        λ k d s' e.
          let found = get_descriptor_type rank t k registry d above e in
          instantiate_answers world registry (resolve world registry fuel) d s' (
            All-map (λ x. rank x < rank d.service_type) _ (deps_of d.factory)
              (λ x lt s''. resolve_answers fuel x s'' (below x d.service_type found.0 lt)) found.1)
    where
      below : (x u : ℕ) → u ≡ t → rank x < rank u → rank x < fuel
      below x u e lt = omega (arith, h, lt, ap rank e)
