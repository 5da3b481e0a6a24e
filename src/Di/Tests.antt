-- ===== src/Di/Tests.antt =====
-- localpost/di/_services.py at a small registry.
use localpost_py.Prelude.{ℕ, ◌-◌, ◌≡◌, refl, true, false, List, [], ◌∷◌, arith, leb, if◌then◌else◌}
use localpost_py.Di.{
  made, wired, ServiceDescriptor, ServiceRegistry, World, Provider, State, ok, out_of_fuel, cached,
  step, open_scope, eager, walk, instantiate, from_factory, construct, store_in, resolve_all,
  resolve, Event, opens, resolves, closes, run_all, start, close_scope,
}
use localpost_py.Di.Answers.{is_answer, resolve_answers}
use localpost_py.Di.Again.{resolve_again}
use localpost_py.Di.Layers.{IsLayered}
use localpost_py.Di.Layers.Runs.{closes_in_layers}

abbrev app : ℕ
app = 10

abbrev request : ℕ
request = 11

abbrev provider : ℕ
provider = 100

abbrev database : ℕ
database = 3

abbrev page_cache : ℕ
page_cache = 2

abbrev handler : ℕ
handler = 1

abbrev described : ℕ → ℕ → List ℕ → ServiceDescriptor
described t k deps = record {
  service_type = t;
  scope_type = k;
  factory = wired deps;
  create_on_enter = false;
}

-- the cache asks for the database, and the handler of a request for both and its own provider
abbrev services : ServiceRegistry
services =
    described handler request (page_cache ∷ database ∷ provider ∷ [])
    ∷ described page_cache app (database ∷ [])
    ∷ described database app []
    ∷ []

abbrev rank : ℕ → ℕ
rank t = if leb 4 t then 0 else 4 - t

abbrev sound : World
sound = record { provider_type = provider; truthy = λ v. true; raises = λ t args time. false }

-- in a request, inside the application
abbrev opened : State
opened = run_all sound services 9 start (opens app ∷ opens request ∷ [])

abbrev after_handler : State
after_handler = run_all sound services 9 start (opens app ∷ opens request ∷ resolves handler ∷ [])

handler_comes_once : resolve sound services 9 handler opened ≡ ok (made 2) after_handler
unfolding resolve run_all start step open_scope eager walk cached instantiate from_factory construct
    store_in resolve_all close_scope
handler_comes_once = refl

-- a world whose objects are falsy, as an empty container is
abbrev falsy : World
falsy = record { provider_type = provider; truthy = λ v. false; raises = λ t args time. false }

-- the second `resolve` of one scope makes another object
falsy_comes_anew :
    resolve falsy services 9 database
      (run_all falsy services 9 start (opens app ∷ resolves database ∷ []))
    ≡ ok
        (made 1)
        (run_all falsy services 9 start (opens app ∷ resolves database ∷ resolves database ∷ []))
unfolding resolve run_all start step open_scope eager walk cached instantiate from_factory construct
    store_in resolve_all close_scope
falsy_comes_anew = refl

-- a service that asks for itself
cycle_never_answers :
    resolve sound
      (described database app (database ∷ []) ∷ [])
      9
      database
      (run_all sound [] 9 start (opens app ∷ []))
    ≡ out_of_fuel
unfolding resolve run_all start step open_scope eager walk cached instantiate from_factory construct
    store_in resolve_all close_scope
cycle_never_answers = refl

resolve_answers_example : is_answer (resolve sound services 4 handler opened) ≡ true
resolve_answers_example =
    resolve_answers sound services rank
      ((omega arith, (omega arith, (omega arith, tt))), ((omega arith, tt), (tt, tt))) 4 handler
      opened (omega arith)

resolve_again_example : resolve sound services 1 handler after_handler ≡ ok (made 2) after_handler
resolve_again_example =
    resolve_again sound services (λ v. refl) 9 0 handler opened after_handler (made 2)
      handler_comes_once

abbrev request_scope : Provider
request_scope = record {
  scope_type = request;
  services = (handler, made 2) ∷ [];
  entered = (handler, 2) ∷ [];
}

abbrev app_scope : Provider
app_scope = record {
  scope_type = app;
  services = (database, made 0) ∷ (page_cache, made 1) ∷ [];
  entered = (page_cache, 1) ∷ (database, 0) ∷ [];
}

abbrev requests : List Event
requests = opens app ∷ opens request ∷ resolves handler ∷ closes ∷ []

closes_in_layers_example :
    IsLayered sound services app (close_scope (run_all sound services 9 start requests)).0
unfolding resolve run_all start step open_scope eager walk cached instantiate from_factory construct
    store_in resolve_all close_scope
closes_in_layers_example = closes_in_layers sound services 9 requests app_scope [] refl
