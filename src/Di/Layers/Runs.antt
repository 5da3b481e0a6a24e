-- ===== src/Di/Layers/Runs.antt =====
-- localpost/di/_services.py: the exit stacks after any run.
use localpost_py.Prelude.{ℕ, ◌≡◌, refl, subst, ◌&&◌, List, [], ◌∷◌, Bool-cases, inl, inr, All, ◌==◌}
use localpost_py.Di.{
  Value, ServiceDescriptor, ServiceRegistry, World, Provider, State, Outcome, ok, fails,
  out_of_fuel, and_then, construct, resolve, resolve_all, create, eager, open_scope, blank,
  close_scope, Event, opens, resolves, creates, closes, state_after, step, run_all, start,
}
use localpost_py.Di.Layers.{IsSettled, IsFine, AllFine, IsLayered, resolve_all-AllFine}
use localpost_py.Di.Layers.Walk.{resolve-IsFine}

module _ (world : World) (registry : ServiceRegistry) where
  -- the chain after an outcome
  abbrev Settles : {A : Type 0} → Outcome A → Type 0
  Settles (ok a s) = All (IsSettled world registry) s.chain
  Settles (fails e s) = All (IsSettled world registry) s.chain
  Settles out_of_fuel = Unit {0}

  IsFine→Settles :
      (t : ℕ) (ps : List Provider) (o : Outcome Value) → IsFine world registry t ps o → Settles o
  IsFine→Settles t ps (ok v s) f = f.0.0
  IsFine→Settles t ps (fails e s) f = f.0
  IsFine→Settles t ps out_of_fuel f = tt

  AllFine→Settles :
      (ts : List ℕ) (ps : List Provider) (o : Outcome (List Value))
      → AllFine world registry ts ps o
      → Settles o
  AllFine→Settles ts ps (ok v s) f = f.0.0
  AllFine→Settles ts ps (fails e s) f = f.0
  AllFine→Settles ts ps out_of_fuel f = tt

  Settles-and_then :
      {A B : Type 0} (o : Outcome A) (f : A → State → Outcome B)
      → Settles o
      → ((a : A) (s : State) → All (IsSettled world registry) s.chain → Settles (f a s))
      → Settles (and_then o f)
  Settles-and_then (ok a s) f h k = k a s h
  Settles-and_then (fails e s) f h k = h
  Settles-and_then out_of_fuel f h k = tt

  construct-Settles :
      (t : ℕ) (args : List Value) (s : State)
      → All (IsSettled world registry) s.chain
      → Settles (construct world registry t args s)
  unfolding construct
  construct-Settles t args s a = elim (Bool-cases (world.raises t args s.clock)) [
    | inl e ↦ rw e a
    | inr e ↦ rw e a
  ]

  resolve-Settles :
      (fuel t : ℕ) (s : State)
      → All (IsSettled world registry) s.chain
      → Settles (resolve world registry fuel t s)
  resolve-Settles fuel t s a = IsFine→Settles t s.chain _ (resolve-IsFine world registry fuel t s a)

  eager-Settles :
      (fuel k : ℕ) (ds : List ServiceDescriptor) (s : State)
      → All (IsSettled world registry) s.chain
      → Settles (eager world registry fuel k ds s)
  unfolding eager
  eager-Settles fuel k [] s a = a
  eager-Settles fuel k (d ∷ ds) s a = elim (Bool-cases (d.scope_type == k && d.create_on_enter)) [
    | inl e ↦ rw e (
        Settles-and_then (resolve world registry fuel d.service_type s) _
          (resolve-Settles fuel d.service_type s a) (λ v s' a'. eager-Settles fuel k ds s' a'))
    | inr e ↦ rw e (eager-Settles fuel k ds s a)
  ]

  open_scope-Settles :
      (fuel k : ℕ) (s : State)
      → All (IsSettled world registry) s.chain
      → Settles (open_scope world registry fuel k s)
  unfolding open_scope
  open_scope-Settles fuel k s a =
      eager-Settles fuel k registry (record s { chain = blank world registry k ∷ s.chain })
        (record { layered = tt; backed = λ t h. absurd (h refl) }, a)

  create-Settles :
      (fuel t : ℕ) (deps : List ℕ) (s : State)
      → All (IsSettled world registry) s.chain
      → Settles (create world registry fuel t deps s)
  unfolding create
  create-Settles fuel t deps s a =
      Settles-and_then (resolve_all (resolve world registry fuel) deps s) _
        (AllFine→Settles deps s.chain _ (
          resolve_all-AllFine world registry (resolve world registry fuel) deps s
            (resolve-IsFine world registry fuel) a))
        (λ args s' a'.
          Settles-and_then (construct world registry t args s') _ (construct-Settles t args s' a')
            (λ v s'' a''. a''))

  after :
      {A : Type 0} (s : State) (o : Outcome A)
      → All (IsSettled world registry) s.chain
      → Settles o
      → All (IsSettled world registry) (state_after s o).chain
  after s (ok x s') a h = h
  after s (fails e s') a h = h
  after s out_of_fuel a h = a

  step-IsSettled :
      (fuel : ℕ) (s : State) (e : Event)
      → All (IsSettled world registry) s.chain
      → All (IsSettled world registry) (step world registry fuel s e).chain
  unfolding step close_scope
  step-IsSettled fuel s (opens k) a = after s _ a (open_scope-Settles fuel k s a)
  step-IsSettled fuel s (resolves t) a = after s _ a (resolve-Settles fuel t s a)
  step-IsSettled fuel s (creates t deps) a = after s _ a (create-Settles fuel t deps s a)
  step-IsSettled fuel s closes a = by_chain s.chain refl a
    where
      by_chain :
          (c : List Provider)
          → s.chain ≡ c
          → All (IsSettled world registry) c
          → All (IsSettled world registry) (close_scope s).1.chain
      by_chain [] e b = rw (close_scope, e) (rw e b)
      by_chain (p ∷ ps) e b = rw (close_scope, e) b.1

  run_all-IsSettled :
      (fuel : ℕ) (s : State) (es : List Event)
      → All (IsSettled world registry) s.chain
      → All (IsSettled world registry) (run_all world registry fuel s es).chain
  unfolding run_all
  run_all-IsSettled fuel s [] a = a
  run_all-IsSettled fuel s (e ∷ es) a =
      run_all-IsSettled fuel (step world registry fuel s e) es (step-IsSettled fuel s e a)

  -- Whatever was opened, resolved, created and closed before, and whichever calls raised: what the
  -- exit stack of a scope closes comes before everything of that scope that it was made from, so no
  -- service outlives a dependency in its scope.
  pub closes_in_layers :
      (fuel : ℕ) (es : List Event) (p : Provider) (ps : List Provider)
      → (run_all world registry fuel start es).chain ≡ p ∷ ps
      → IsLayered world registry p.scope_type (close_scope (run_all world registry fuel start es)).0
  unfolding close_scope start
  closes_in_layers fuel es p ps e =
      let settled : All (IsSettled world registry) (p ∷ ps) =
        subst (λ c. All (IsSettled world registry) c) e (run_all-IsSettled fuel start es tt) in
      rw (close_scope, e) settled.0.layered
