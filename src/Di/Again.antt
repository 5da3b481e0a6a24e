-- ===== src/Di/Again.antt =====
-- localpost/di/_services.py: a service that was resolved is there.
use localpost_py.Prelude.{
  ℕ, zero, suc, ◌≡◌, refl, sym, ap, ◌∙◌, subst, true, false, none, some, List, [], ◌∷◌, map, arith,
  Bool-cases, Option-cases, inl, inr, ◌==◌,
}
use localpost_py.Di.{
  Value, Factory, instance_of, wired, ServiceDescriptor, ServiceRegistry, World, Provider, State,
  Outcome, ok, fails, out_of_fuel, and_then, push, store, store_in, get_service, set_service,
  get_descriptor, cached, construct, from_factory, instantiate, walk, resolve, resolve_all,
}
use localpost_py.Di.Layers.Walk.{get_descriptor-service_type}

-- the scopes keep their types
abbrev types_of : List Provider → List ℕ
types_of ps = map (λ p. p.scope_type) ps

abbrev SameTypes : {A : Type 0} → List Provider → Outcome A → Type 0
SameTypes ps (ok a s) = types_of s.chain ≡ types_of ps
SameTypes ps (fails e s) = Unit {0}
SameTypes ps out_of_fuel = Unit {0}

SameTypes-and_then :
    {A B : Type 0} (ps : List Provider) (o : Outcome A) (f : A → State → Outcome B)
    → SameTypes ps o
    → ((a : A) (s : State) → types_of s.chain ≡ types_of ps → SameTypes ps (f a s))
    → SameTypes ps (and_then o f)
SameTypes-and_then ps (ok a s) f h k = k a s h
SameTypes-and_then ps (fails e s) f h k = tt
SameTypes-and_then ps out_of_fuel f h k = tt

SameTypes-move :
    {A : Type 0} (ps qs : List Provider) (o : Outcome A)
    → types_of qs ≡ types_of ps
    → SameTypes qs o
    → SameTypes ps o
SameTypes-move ps qs (ok a s) e h = h ∙ e
SameTypes-move ps qs (fails x s) e h = tt
SameTypes-move ps qs out_of_fuel e h = tt

store_in-types :
    (t : ℕ) (v : Value) (ps : List Provider) (clock : ℕ)
    → types_of (store_in t v ps clock).chain ≡ types_of ps
unfolding store_in
store_in-types t v [] clock = refl
store_in-types t v (p ∷ ps) clock = refl

get_service-set_same :
    (t : ℕ) (v : Value) (services : List (ℕ × Value))
    → get_service t (set_service t v services) ≡ some v
get_service-set_same t v [] = ground arith
get_service-set_same t v ((u, w) ∷ vs) = ground (arith, get_service-set_same t v vs)

module _ (world : World) (registry : ServiceRegistry) where
  abbrev KeepsTypes : (ℕ → State → Outcome Value) → Type 0
  KeepsTypes r = (t : ℕ) (s : State) → SameTypes s.chain (r t s)

  resolve_all-types :
      (r : ℕ → State → Outcome Value) (ts : List ℕ) (s : State)
      → KeepsTypes r
      → SameTypes s.chain (resolve_all r ts s)
  unfolding resolve_all
  resolve_all-types r [] s k = refl
  resolve_all-types r (t ∷ ts) s k = SameTypes-and_then s.chain (r t s) _ (k t s) (λ v s' e.
      SameTypes-move s.chain s'.chain _ e (
        SameTypes-and_then s'.chain (resolve_all r ts s') _ (resolve_all-types r ts s' k)
          (λ vs s'' e'. e')))

  construct-types :
      (t : ℕ) (args : List Value) (s : State)
      → SameTypes s.chain (construct world registry t args s)
  unfolding construct
  construct-types t args s = elim (Bool-cases (world.raises t args s.clock)) [
    | inl e ↦ rw e tt
    | inr e ↦ rw e refl
  ]

  from_factory-types :
      (r : ℕ → State → Outcome Value) (t : ℕ) (f : Factory) (s : State)
      → KeepsTypes r
      → SameTypes s.chain (from_factory world registry r t f s)
  unfolding from_factory
  from_factory-types r t (instance_of n) s k = refl
  from_factory-types r t (wired deps) s k =
      SameTypes-and_then s.chain (resolve_all r deps s) _ (resolve_all-types r deps s k)
        (λ args s' e. SameTypes-move s.chain s'.chain _ e (construct-types t args s'))

  instantiate-types :
      (r : ℕ → State → Outcome Value) (d : ServiceDescriptor) (s : State)
      → KeepsTypes r
      → SameTypes s.chain (instantiate world registry r d s)
  unfolding instantiate
  instantiate-types r d s k =
      SameTypes-and_then s.chain (from_factory world registry r d.service_type d.factory s) _
        (from_factory-types r d.service_type d.factory s k)
        (λ v s' e. store_in-types d.service_type v s'.chain s'.clock ∙ e)

  push-types :
      (p : Provider) (ps : List Provider) (o : Outcome Value)
      → SameTypes ps o
      → SameTypes (p ∷ ps) (push p o)
  push-types p ps (ok v s) h = ap (λ (l : List ℕ). p.scope_type ∷ l) h
  push-types p ps (fails e s) h = tt
  push-types p ps out_of_fuel h = tt

  walk-types :
      (r : ℕ → State → Outcome Value) (t : ℕ) (ps : List Provider) (clock : ℕ)
      → KeepsTypes r
      → SameTypes ps (walk world registry (instantiate world registry r) t ps clock)
  unfolding walk
  walk-types r t [] clock k = tt
  walk-types r t (p ∷ ps) clock k = elim (Bool-cases (t == world.provider_type)) [
    | inl e ↦ rw e refl
    | inr e ↦ elim (Bool-cases (t == p.scope_type)) [
      | inl f ↦ rw (e, f) refl
      | inr f ↦ elim (Option-cases (cached world registry t p.services)) [
        | inr (v, g) ↦ rw (e, f, g) refl
        | inl g ↦ elim (Option-cases (get_descriptor t p.scope_type registry)) [
          | inr (d, m) ↦
              rw (e, f, g, m) (instantiate-types r d (record { chain = p ∷ ps; clock = clock }) k)
          | inl m ↦ rw (e, f, g, m) (push-types p ps _ (walk-types r t ps clock k))
        ]
      ]
    ]
  ]

  resolve-types : (fuel : ℕ) → KeepsTypes (resolve world registry fuel)
  unfolding resolve
  resolve-types zero t s = tt
  resolve-types (suc fuel) t s =
      walk-types (resolve world registry fuel) t s.chain s.clock (resolve-types fuel)

  -- an outcome that the same call gives again, without making anything
  abbrev Repeats : ℕ → Outcome Value → Type 0
  Repeats t (ok v s) =
      (b : ServiceDescriptor → State → Outcome Value)
      → walk world registry b t s.chain s.clock ≡ ok v s
  Repeats t (fails e s) = Unit {0}
  Repeats t out_of_fuel = Unit {0}

  module _ (truthy : (v : Value) → world.truthy v ≡ true) where
    cached-set_service :
        (t : ℕ) (v : Value) (services : List (ℕ × Value))
        → cached world registry t (set_service t v services) ≡ some v
    unfolding cached
    cached-set_service t v services = rw (cached, get_service-set_same t v services, truthy v) refl

    store_in-Repeats :
        (t k : ℕ) (v : Value) (c : List Provider) (clock : ℕ) (types : List ℕ)
        → t == world.provider_type ≡ false
        → t == k ≡ false
        → types_of c ≡ k ∷ types
        → Repeats t (ok v (store_in t v c clock))
    unfolding walk store_in
    store_in-Repeats t k v [] clock types e f same = cc
    store_in-Repeats t k v (q ∷ qs) clock types e f same =
        λ b. rw (e, other q.scope_type (cc (same)), cached-set_service t v q.services) refl
      where
        other : (j : ℕ) → j ≡ k → t == j ≡ false
        other j g = rw g f

    stored-Repeats :
        (t : ℕ) (p : Provider) (ps : List Provider) (o : Outcome Value)
        → t == world.provider_type ≡ false
        → t == p.scope_type ≡ false
        → SameTypes (p ∷ ps) o
        → Repeats t (and_then o λ v s. ok v (store t v s))
    stored-Repeats t p ps (ok v s) e f same =
        store_in-Repeats t p.scope_type v s.chain s.clock (types_of ps) e f same
    stored-Repeats t p ps (fails x s) e f same = tt
    stored-Repeats t p ps out_of_fuel e f same = tt

    push-Repeats :
        (t : ℕ) (p : Provider) (o : Outcome Value)
        → t == world.provider_type ≡ false
        → t == p.scope_type ≡ false
        → cached world registry t p.services ≡ none
        → get_descriptor t p.scope_type registry ≡ none
        → Repeats t o
        → Repeats t (push p o)
    unfolding walk
    push-Repeats t p (ok v s) e f g k again = λ b. rw (e, f, g, k, again b) refl
    push-Repeats t p (fails x s) e f g k again = tt
    push-Repeats t p out_of_fuel e f g k again = tt

    instantiate-Repeats :
        (r : ℕ → State → Outcome Value) (t : ℕ) (p : Provider) (ps : List Provider) (clock : ℕ)
        (d : ServiceDescriptor)
        → d.service_type ≡ t
        → t == world.provider_type ≡ false
        → t == p.scope_type ≡ false
        → KeepsTypes r
        → Repeats d.service_type
            (instantiate world registry r d (record { chain = p ∷ ps; clock = clock }))
    unfolding instantiate
    instantiate-Repeats r t p ps clock d same e f keeps =
        stored-Repeats d.service_type p ps _
          (subst (λ u. u == world.provider_type ≡ false) (sym same) e)
          (subst (λ u. u == p.scope_type ≡ false) (sym same) f)
          (from_factory-types r d.service_type d.factory (record { chain = p ∷ ps; clock = clock })
            keeps)

    walk-Repeats :
        (r : ℕ → State → Outcome Value) (t : ℕ) (ps : List Provider) (clock : ℕ)
        → KeepsTypes r
        → Repeats t (walk world registry (instantiate world registry r) t ps clock)
    unfolding walk
    walk-Repeats r t [] clock keeps = tt
    walk-Repeats r t (p ∷ ps) clock keeps = elim (Bool-cases (t == world.provider_type)) [
      | inl e ↦ rw e (λ b. rw (walk, e) refl)
      | inr e ↦ elim (Bool-cases (t == p.scope_type)) [
        | inl f ↦ rw (e, f) (λ b. rw (walk, e, f) refl)
        | inr f ↦ elim (Option-cases (cached world registry t p.services)) [
          | inr (v, g) ↦ rw (e, f, g) (λ b. rw (walk, e, f, g) refl)
          | inl g ↦ elim (Option-cases (get_descriptor t p.scope_type registry)) [
            | inr (d, k) ↦
                rw (e, f, g, k)
                  (subst
                    (λ u.
                      Repeats u
                        (instantiate world registry r d (record { chain = p ∷ ps; clock = clock })))
                    (get_descriptor-service_type world registry t p.scope_type registry d k)
                    (instantiate-Repeats r t p ps clock d
                      (get_descriptor-service_type world registry t p.scope_type registry d k) e f
                      keeps))
            | inl k ↦ rw (e, f, g, k) (push-Repeats t p _ e f g k (walk-Repeats r t ps clock keeps))
          ]
        ]
      ]
    ]

    -- A service is made once in a scope, if every object is truthy: after `resolve` returned an
    -- object, the same call, with any fuel at all, returns that object and leaves everything as it is.
    pub resolve_again :
        (fuel more t : ℕ) (s s' : State) (v : Value)
        → resolve world registry fuel t s ≡ ok v s'
        → resolve world registry (suc more) t s' ≡ ok v s'
    unfolding resolve
    resolve_again zero more t s s' v h = cc
    resolve_again (suc fuel) more t s s' v h =
        subst (Repeats t) h
          (walk-Repeats (resolve world registry fuel) t s.chain s.clock (resolve-types fuel))
          (instantiate world registry (resolve world registry more))
