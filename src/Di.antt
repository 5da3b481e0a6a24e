-- ===== src/Di.antt =====
-- localpost/di/_services.py: the registry, the providers of nested scopes, and resolution. A service
-- type is a number; the constructors that a factory calls are the services' own code, so the record
-- `World` says which calls raise and which objects are falsy. Resolution is the work of one thread,
-- the one that holds the provider's lock. `resolve` runs on fuel, since dependencies may be cyclic:
-- `out_of_fuel` at any fuel is Python's unbounded recursion.
pub mod Answers
pub mod Again
pub mod Layers
mod Tests
use localpost_py.Prelude.{
  ℕ, zero, suc, ◌+◌, ◌≡◌, Bool, true, false, ◌&&◌, ◌||◌, Option, none, some, List, [], ◌∷◌, ◌++◌,
  length, ◌==◌, if◌then◌else◌,
}

-- an object: a provider or a scope by the number of the scopes around it, a registered instance, or
-- what a constructor made, by the time of the call
pub data Value : Type 0 where
  provider_at scope_at given made : ℕ → Value

-- `register_instance`, or a factory with the types of its parameters
pub data Factory : Type 0 where
  instance_of : ℕ → Factory
  wired : List ℕ → Factory

pub record ServiceDescriptor : Type 0 where
  pub service_type : ℕ
  pub scope_type : ℕ
  pub factory : Factory
  pub create_on_enter : Bool

abbrev pub ServiceRegistry : Type 0
ServiceRegistry = List ServiceDescriptor

-- `provider_type` is `ServiceProvider` itself; `raises t args time` says that the call raises.
pub record World : Type 0 where
  pub provider_type : ℕ
  pub truthy : Value → Bool
  pub raises : ℕ → List Value → ℕ → Bool

abbrev is_for : ℕ → ℕ → ServiceDescriptor → Bool
is_for t k d = d.service_type == t && d.scope_type == k

-- `ServiceRegistry.get`
abbrev pub get_descriptor : ℕ → ℕ → ServiceRegistry → Option ServiceDescriptor
get_descriptor t k [] = none
get_descriptor t k (d ∷ ds) = if is_for t k d then some d else get_descriptor t k ds

-- `ServiceRegistry.register`: the assignment to the dictionary
pub register : ServiceDescriptor → ServiceRegistry → ServiceRegistry
register d [] = d ∷ []
register d (e ∷ ds) = if is_for d.service_type d.scope_type e then d ∷ ds else e ∷ register d ds

-- `DefaultServiceProvider`: `entered` is the exit stack of its scope, the last entry first, each with
-- its service and the time
pub record Provider : Type 0 where
  pub scope_type : ℕ
  pub services : List (ℕ × Value)
  pub entered : List (ℕ × ℕ)

-- the provider, its parent, and so on to `NULL_PROVIDER`, which is the empty chain
pub record State : Type 0 where
  pub chain : List Provider
  pub clock : ℕ

pub data Error : Type 0 where
  not_registered factory_raised : ℕ → Error

pub data Outcome (A : Type 0) : Type 0 where
  ok : A → State → Outcome A
  fails : Error → State → Outcome A
  out_of_fuel : Outcome A

abbrev pub and_then : {A B : Type 0} → Outcome A → (A → State → Outcome B) → Outcome B
and_then (ok a s) f = f a s
and_then (fails e s) f = fails e s
and_then out_of_fuel f = out_of_fuel

abbrev pub get_service : ℕ → List (ℕ × Value) → Option Value
get_service t [] = none
get_service t ((u, v) ∷ vs) = if u == t then some v else get_service t vs

-- `{**services, t: v}`
abbrev pub set_service : ℕ → Value → List (ℕ × Value) → List (ℕ × Value)
set_service t v [] = (t, v) ∷ []
set_service t v ((u, w) ∷ vs) = if u == t then (u, v) ∷ vs else (u, w) ∷ set_service t v vs

-- what an outer provider did, seen from the inner one
abbrev pub push : Provider → Outcome Value → Outcome Value
push p (ok v s) = ok v (record s { chain = p ∷ s.chain })
push p (fails e s) = fails e (record s { chain = p ∷ s.chain })
push p out_of_fuel = out_of_fuel

-- `scope.enter` and the assignment to `services`, at the head of the chain
pub store_in : ℕ → Value → List Provider → ℕ → State
store_in t v [] clock = record { chain = []; clock = clock }
store_in t v (p ∷ ps) clock = record {
  chain = record p { services = set_service t v p.services; entered = (t, clock) ∷ p.entered } ∷ ps;
  clock = suc clock;
}

abbrev pub store : ℕ → Value → State → State
store t v s = store_in t v s.chain s.clock

-- one `resolve` for each parameter, in order
pub resolve_all : (ℕ → State → Outcome Value) → List ℕ → State → Outcome (List Value)
resolve_all resolve [] s = ok [] s
resolve_all resolve (t ∷ ts) s =
    and_then (resolve t s) λ v s'. and_then (resolve_all resolve ts s') λ vs s''. ok (v ∷ vs) s''

module _ (world : World) (registry : ServiceRegistry) where
  -- `if resolved_service := self.services.get(service_type)`
  pub cached : ℕ → List (ℕ × Value) → Option Value
  cached t services = elim (get_service t services) [
    | none ↦ none
    | some v ↦ if world.truthy v then some v else none
  ]

  -- the call of the constructor
  pub construct : ℕ → List Value → State → Outcome Value
  construct t args s =
      if world.raises t args s.clock
      then fails (factory_raised t) (record s { clock = suc s.clock })
      else ok (made s.clock) s

  -- what entering the factory's context manager gives
  pub from_factory : (ℕ → State → Outcome Value) → ℕ → Factory → State → Outcome Value
  unfolding construct
  from_factory resolve t (instance_of n) s = ok (given n) s
  from_factory resolve t (wired deps) s = and_then (resolve_all resolve deps s) (construct t)

  -- `self.scope.enter(descriptor.factory(self))` and what follows it
  pub instantiate : (ℕ → State → Outcome Value) → ServiceDescriptor → State → Outcome Value
  unfolding from_factory store_in
  instantiate resolve d s =
      and_then (from_factory resolve d.service_type d.factory s)
        λ v s'. ok v (store d.service_type v s')

  -- `resolve` from the provider at the head of the chain outwards
  pub walk : (ServiceDescriptor → State → Outcome Value) → ℕ → List Provider → ℕ → Outcome Value
  unfolding cached
  walk build t [] clock = fails (not_registered t) (record { chain = []; clock = clock })
  walk build t (p ∷ ps) clock =
      let outer = walk build t ps clock in
      let s : State = record { chain = p ∷ ps; clock = clock } in
      if t == world.provider_type
      then ok (provider_at (length ps)) s
      else if t == p.scope_type
      then ok (scope_at (length ps)) s
      else elim (cached t p.services) [
        | some v ↦ ok v s
        | none ↦ elim (get_descriptor t p.scope_type registry) [
          | some d ↦ build d s
          | none ↦ push p outer
        ]
      ]

  pub resolve : ℕ → ℕ → State → Outcome Value
  unfolding walk instantiate
  resolve zero t s = out_of_fuel
  resolve (suc fuel) t s = walk (instantiate (resolve fuel)) t s.chain s.clock

  -- `create`, with the dependencies that are not given by name
  pub create : ℕ → ℕ → List ℕ → State → Outcome Value
  unfolding resolve construct
  create fuel t deps s =
      and_then (resolve_all (resolve fuel) deps s) λ args s'.
        and_then (construct t args s') λ v s''. ok v (record s'' { clock = suc s''.clock })

  -- the loop over the descriptors in `scope`
  pub eager : ℕ → ℕ → List ServiceDescriptor → State → Outcome (List Value)
  unfolding resolve
  eager fuel k [] s = ok [] s
  eager fuel k (d ∷ ds) s =
      if d.scope_type == k && d.create_on_enter
      then and_then (resolve fuel d.service_type s) (λ v. eager fuel k ds)
      else eager fuel k ds s

  abbrev pub blank : ℕ → Provider
  blank k = record { scope_type = k; services = []; entered = [] }

  -- entering `app_scope`, or a nested scope of the type
  pub open_scope : ℕ → ℕ → State → Outcome (List Value)
  unfolding eager
  open_scope fuel k s = eager fuel k registry (record s { chain = blank k ∷ s.chain })

-- leaving the innermost scope: what its exit stack closes, in order
pub close_scope : State → List (ℕ × ℕ) × State
close_scope s = elim s.chain [ [] ↦ ([], s) | p ∷ ps ↦ (p.entered, record s { chain = ps }) ]

pub data Event : Type 0 where
  opens resolves : ℕ → Event
  creates : ℕ → List ℕ → Event
  closes : Event

abbrev pub state_after : {A : Type 0} → State → Outcome A → State
state_after s (ok a s') = s'
state_after s (fails e s') = s'
state_after s out_of_fuel = s

pub start : State
start = record { chain = []; clock = 0 }

module _ (world : World) (registry : ServiceRegistry) (fuel : ℕ) where
  pub step : State → Event → State
  unfolding open_scope create close_scope
  step s (opens k) = state_after s (open_scope world registry fuel k s)
  step s (resolves t) = state_after s (resolve world registry fuel t s)
  step s (creates t deps) = state_after s (create world registry fuel t deps s)
  step s closes = (close_scope s).1

  pub run_all : State → List Event → State
  run_all s [] = s
  run_all s (e ∷ es) = run_all (step s e) es
