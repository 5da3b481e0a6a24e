-- ===== src/Di/Layers.antt =====
-- localpost/di/_services.py: what the exit stacks of the scopes hold, whatever was resolved.
pub mod Walk
pub mod Runs
use localpost_py.Prelude.{
  ℕ, zero, suc, ◌≡◌, ◌≢◌, refl, sym, ap, ◌∙◌, subst, Bool, true, false, ◌&&◌, ◌||◌, Option, none,
  some, List, [], ◌∷◌, ◌++◌, length, arith, Bool-cases, Option-cases, inl, inr, All, All-map, ◌==◌,
  if◌then◌else◌,
}
use localpost_py.Di.{
  Value, Factory, instance_of, wired, ServiceDescriptor, ServiceRegistry, World, Provider, State,
  Error, Outcome, ok, fails, out_of_fuel, and_then, push, store, store_in, get_service, set_service,
  get_descriptor, cached, construct, from_factory, instantiate, walk, resolve, resolve_all, create,
  eager, open_scope, blank, close_scope, Event, opens, resolves, creates, closes, state_after, step,
  run_all, start, given, made, scope_at, provider_at,
}
use localpost_py.Di.Answers.{deps_of}

-- the stack has an entry of the service
abbrev pub holds : ℕ → List (ℕ × ℕ) → Bool
holds t [] = false
holds t ((u, n) ∷ es) = u == t || holds t es

-- Scopes keep their types, and what a stack held it still holds.
pub data Grows : List Provider → List Provider → Type 0 where
  nothing : Grows [] []
  grows :
      {p q : Provider} {ps qs : List Provider}
      → q.scope_type ≡ p.scope_type
      → ((t : ℕ) → holds t p.entered ≡ true → holds t q.entered ≡ true)
      → Grows ps qs
      → Grows (p ∷ ps) (q ∷ qs)

pub Grows-refl : (ps : List Provider) → Grows ps ps
Grows-refl [] = nothing
Grows-refl (p ∷ ps) = grows refl (λ t h. h) (Grows-refl ps)

pub Grows-trans : {ps qs rs : List Provider} → Grows ps qs → Grows qs rs → Grows ps rs
Grows-trans nothing nothing = nothing
Grows-trans (grows e f g) (grows e' f' g') = grows (e' ∙ e) (λ t h. f' t (f t h)) (Grows-trans g g')

module _ (world : World) (registry : ServiceRegistry) where
  -- a service that a provider for scopes of type `k` makes itself, and no provider further out
  abbrev pub is_own : ℕ → ℕ → Bool
  is_own k t =
      if t == world.provider_type
      then false
      else if t == k
      then false
      else elim (get_descriptor t k registry) [ none ↦ false | some d ↦ true ]

  -- the own services that the service's factory asks for are all there
  abbrev pub HasDeps : ℕ → List (ℕ × ℕ) → ℕ → Type 0
  HasDeps k es t =
      (d : ServiceDescriptor)
      → get_descriptor t k registry ≡ some d
      → All (λ x. is_own k x ≡ true → holds x es ≡ true) (deps_of d.factory)

  -- Every entry of the stack stands above those of the services that it was made from.
  abbrev pub IsLayered : ℕ → List (ℕ × ℕ) → Type 0
  IsLayered k [] = Unit {0}
  IsLayered k ((t, n) ∷ es) = HasDeps k es t × IsLayered k es

  -- what is cached was entered
  abbrev pub IsBacked : List (ℕ × Value) → List (ℕ × ℕ) → Type 0
  IsBacked services es = (t : ℕ) → get_service t services ≢ none → holds t es ≡ true

  pub record IsSettled (p : Provider) : Type 0 where
    pub layered : IsLayered p.scope_type p.entered
    pub backed : IsBacked p.services p.entered

  -- a dependency that is there after it was resolved
  abbrev pub IsHome : ℕ → List Provider → Type 0
  IsHome t [] = Unit {0}
  IsHome t (p ∷ ps) = is_own p.scope_type t ≡ true → holds t p.entered ≡ true

  -- from one state of the chain to another
  abbrev pub IsKept : List Provider → State → Type 0
  IsKept ps s = All IsSettled s.chain × Grows ps s.chain

  -- the outcome of `resolve`
  abbrev pub IsFine : ℕ → List Provider → Outcome Value → Type 0
  IsFine t ps (ok v s) = IsKept ps s × IsHome t s.chain
  IsFine t ps (fails e s) = IsKept ps s
  IsFine t ps out_of_fuel = Unit {0}

  IsHome-Grows : (t : ℕ) {ps qs : List Provider} → Grows ps qs → IsHome t ps → IsHome t qs
  IsHome-Grows t nothing h = tt
  IsHome-Grows t (grows {p = p} {q = q} e f g) h =
      λ own. f t (h (subst (λ k. is_own k t ≡ true) e own))

  -- the outcome of several
  abbrev AllFine : List ℕ → List Provider → Outcome (List Value) → Type 0
  AllFine ts ps (ok vs s) = IsKept ps s × All (λ t. IsHome t s.chain) ts
  AllFine ts ps (fails e s) = IsKept ps s
  AllFine ts ps out_of_fuel = Unit {0}

  -- `resolve` is good at a service if it keeps any settled chain so
  abbrev pub IsGood : (ℕ → State → Outcome Value) → Type 0
  IsGood r = (t : ℕ) (s : State) → All IsSettled s.chain → IsFine t s.chain (r t s)

  AllFine-weaken :
      (t : ℕ) (ts : List ℕ) (ps qs : List Provider) (v : Value) (o : Outcome (List Value))
      → Grows ps qs
      → IsHome t qs
      → AllFine ts qs o
      → AllFine (t ∷ ts) ps (and_then o λ vs s. ok (v ∷ vs) s)
  AllFine-weaken t ts ps qs v (ok vs s) g h ((a, g'), homes) =
      ((a, Grows-trans g g'), (IsHome-Grows t g' h, homes))
  AllFine-weaken t ts ps qs v (fails e s) g h (a, g') = (a, Grows-trans g g')
  AllFine-weaken t ts ps qs v out_of_fuel g h f = tt

  pub resolve_all-AllFine :
      (r : ℕ → State → Outcome Value) (ts : List ℕ) (s : State)
      → IsGood r
      → All IsSettled s.chain
      → AllFine ts s.chain (resolve_all r ts s)
  unfolding resolve_all
  resolve_all-AllFine r [] s good a = ((a, Grows-refl s.chain), tt)
  resolve_all-AllFine r (t ∷ ts) s good a =
      step (r t s) (good t s a) (λ s' a'. resolve_all-AllFine r ts s' good a')
    where
      step :
          (o : Outcome Value)
          → IsFine t s.chain o
          → ((s' : State) → All IsSettled s'.chain → AllFine ts s'.chain (resolve_all r ts s'))
          → AllFine
              (t ∷ ts)
              s.chain
              (and_then o λ v s'. and_then (resolve_all r ts s') λ vs s''. ok (v ∷ vs) s'')
      step (ok v s') ((a', g), home) rest =
          AllFine-weaken t ts s.chain s'.chain v (resolve_all r ts s') g home (rest s' a')
      step (fails e s') f rest = f
      step out_of_fuel f rest = tt

  set_service-IsBacked :
      (t n : ℕ) (v : Value) (services : List (ℕ × Value)) (es : List (ℕ × ℕ))
      → IsBacked services es
      → IsBacked (set_service t v services) ((t, n) ∷ es)
  set_service-IsBacked t n v services es b u h = elim (Bool-cases (t == u)) [
    | inl e ↦ rw e refl
    | inr e ↦ rw e (b u (λ none_there. h (get_service-set t v services u e ∙ none_there)))
  ]
    where
      get_service-set :
          (t : ℕ) (v : Value) (services : List (ℕ × Value)) (u : ℕ)
          → t == u ≡ false
          → get_service u (set_service t v services) ≡ get_service u services
      get_service-set t v [] u e = rw e refl
      get_service-set t v ((x, w) ∷ vs) u e = ground (arith, e, get_service-set t v vs u e)

  -- the head of the chain makes the service, by the descriptor
  abbrev MadeAt : ℕ → ServiceDescriptor → List Provider → Type 0
  MadeAt t d [] = Unit {0}
  MadeAt t d (p ∷ ps) = get_descriptor t p.scope_type registry ≡ some d

  MadeAt-Grows :
      (t : ℕ) (d : ServiceDescriptor) {ps qs : List Provider}
      → Grows ps qs
      → MadeAt t d ps
      → MadeAt t d qs
  MadeAt-Grows t d nothing m = tt
  MadeAt-Grows t d (grows e f g) m = rw e m

  homes→HasDeps :
      (t : ℕ) (d : ServiceDescriptor) (q : Provider) (qs : List Provider)
      → MadeAt t d (q ∷ qs)
      → All (λ x. IsHome x (q ∷ qs)) (deps_of d.factory)
      → HasDeps q.scope_type q.entered t
  homes→HasDeps t d q qs m homes d' e =
      let same : d ≡ d' = cc (m, e) in
      subst
        (λ c.
          All (λ x. is_own q.scope_type x ≡ true → holds x q.entered ≡ true) (deps_of c.factory))
        same homes

  -- entering a service that was made from what is there
  store_in-IsKept :
      (t : ℕ) (v : Value) (d : ServiceDescriptor) (clock : ℕ) {ps c : List Provider}
      → Grows ps c
      → MadeAt t d c
      → All (λ x. IsHome x c) (deps_of d.factory)
      → All IsSettled c
      → IsKept ps (store_in t v c clock) × IsHome t (store_in t v c clock).chain
  unfolding store_in
  store_in-IsKept t v d clock nothing m homes a = ((tt, nothing), tt)
  store_in-IsKept t v d clock (grows {p = p} {q = q} {qs = qs} e f g) m homes a = (
    (
      (
        record {
          layered = (homes→HasDeps t d q qs m homes, a.0.layered);
          backed = set_service-IsBacked t clock v q.services q.entered a.0.backed;
        },
        a.1,
      ),
      grows e (λ u h. ground (arith, f u h)) g,
    ),
    λ own. ground arith,
  )

  -- a made object is entered
  made-IsFine :
      (t : ℕ) (d : ServiceDescriptor) (ps : List Provider)
      → MadeAt t d ps
      → (o : Outcome (List Value)) → AllFine (deps_of d.factory) ps o
      → IsFine t ps (and_then (and_then o (construct world registry t)) λ v s'. ok v (store t v s'))
  unfolding construct
  made-IsFine t d ps m (ok args s) ((a, g), homes) =
      elim (Bool-cases (world.raises t args s.clock)) [
        | inl e ↦ rw e (a, g)
        | inr e ↦ rw e (store_in-IsKept t (made s.clock) d s.clock g (MadeAt-Grows t d g m) homes a)
      ]
  made-IsFine t d ps m (fails e s) k = k
  made-IsFine t d ps m out_of_fuel k = tt

  pub instantiate-IsFine :
      (r : ℕ → State → Outcome Value) (d : ServiceDescriptor) (s : State)
      → IsGood r
      → MadeAt d.service_type d s.chain
      → All IsSettled s.chain
      → IsFine d.service_type s.chain (instantiate world registry r d s)
  unfolding instantiate from_factory
  instantiate-IsFine r d s good m a = by_factory d.factory refl
    where
      by_factory :
          (f : Factory)
          → d.factory ≡ f
          → IsFine d.service_type s.chain (instantiate world registry r d s)
      by_factory (instance_of n) e =
          rw (instantiate, e)
            (store_in-IsKept d.service_type (given n) d s.clock (Grows-refl s.chain) m (rw e tt) a)
      by_factory (wired deps) e =
          rw (instantiate, e)
            (made-IsFine d.service_type d s.chain m (resolve_all r deps s)
              (rw e (resolve_all-AllFine r deps s good a)))
