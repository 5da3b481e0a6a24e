-- ===== src/Di/Layers/Walk.antt =====
-- localpost/di/_services.py: resolution keeps the exit stacks in layers.
use localpost_py.Prelude.{
  ℕ, zero, suc, ◌≡◌, refl, sym, subst, true, false, ◌&&◌, some, List, [], ◌∷◌, length, arith,
  Bool-cases, Option-cases, inl, inr, All, ◌==◌,
}
use localpost_py.Di.{
  Value, ServiceDescriptor, ServiceRegistry, World, Provider, State, Outcome, ok, fails,
  out_of_fuel, push, get_service, get_descriptor, cached, instantiate, walk, resolve, scope_at,
  provider_at,
}
use localpost_py.Di.Layers.{
  holds, nothing, grows, Grows-refl, is_own, IsSettled, IsFine, IsGood, instantiate-IsFine,
}

module _ (world : World) (registry : ServiceRegistry) where
  push-IsFine :
      (t : ℕ) (p : Provider) (ps : List Provider) (o : Outcome Value)
      → IsSettled world registry p
      → is_own world registry p.scope_type t ≡ false
      → IsFine world registry t ps o
      → IsFine world registry t (p ∷ ps) (push p o)
  push-IsFine t p ps (ok v s) settled other ((a, g), home) =
      (((settled, a), grows refl (λ u h. h) g), λ own. ground (arith, own, other))
  push-IsFine t p ps (fails e s) settled other (a, g) = ((settled, a), grows refl (λ u h. h) g)
  push-IsFine t p ps out_of_fuel settled other f = tt

  unchanged-IsFine :
      (t : ℕ) (p : Provider) (ps : List Provider) (v : Value) (clock : ℕ)
      → All (IsSettled world registry) (p ∷ ps)
      → (is_own world registry p.scope_type t ≡ true → holds t p.entered ≡ true)
      → IsFine world registry t (p ∷ ps) (ok v (record { chain = p ∷ ps; clock = clock }))
  unchanged-IsFine t p ps v clock a home = ((a, Grows-refl (p ∷ ps)), home)

  cached→holds :
      (t : ℕ) (p : Provider) (v : Value)
      → IsSettled world registry p
      → cached world registry t p.services ≡ some v
      → holds t p.entered ≡ true
  unfolding cached
  cached→holds t p v settled e = elim (Option-cases (get_service t p.services)) [
    | inl f ↦ ground (arith, e, f)
    | inr (w, f) ↦ settled.backed t (λ g. ground (arith, f, g))
  ]

  pub get_descriptor-service_type :
      (t k : ℕ) (ds : ServiceRegistry) (d : ServiceDescriptor)
      → get_descriptor t k ds ≡ some d
      → d.service_type ≡ t
  get_descriptor-service_type t k [] d e = cc
  get_descriptor-service_type t k (c ∷ ds) d e =
      elim (Bool-cases (c.service_type == t && c.scope_type == k)) [
        | inl g ↦ let same : c ≡ d = ground (arith, g, e) in rw (← same) (ground (arith, g))
        | inr g ↦ get_descriptor-service_type t k ds d (ground (arith, g, e))
      ]

  walk-IsFine :
      (r : ℕ → State → Outcome Value) (t : ℕ) (ps : List Provider) (clock : ℕ)
      → IsGood world registry r
      → All (IsSettled world registry) ps
      → IsFine world registry t ps (walk world registry (instantiate world registry r) t ps clock)
  unfolding walk
  walk-IsFine r t [] clock good a = (tt, nothing)
  walk-IsFine r t (p ∷ ps) clock good a = elim (Bool-cases (t == world.provider_type)) [
    | inl e ↦
        rw e (
          unchanged-IsFine t p ps (provider_at (length ps)) clock a (λ own. ground (arith, e, own)))
    | inr e ↦ elim (Bool-cases (t == p.scope_type)) [
      | inl f ↦
          rw (e, f)
            (unchanged-IsFine t p ps (scope_at (length ps)) clock a (λ own. ground (arith, f, own)))
      | inr f ↦ elim (Option-cases (cached world registry t p.services)) [
        | inr (v, g) ↦
            rw (e, f, g) (unchanged-IsFine t p ps v clock a (λ own. cached→holds t p v a.0 g))
        | inl g ↦ elim (Option-cases (get_descriptor t p.scope_type registry)) [
          | inr (d, k) ↦
              let same = get_descriptor-service_type t p.scope_type registry d k in
              rw (e, f, g, k)
                (subst
                  (λ u.
                    IsFine world registry u (p ∷ ps)
                      (instantiate world registry r d (record { chain = p ∷ ps; clock = clock })))
                  same
                  (instantiate-IsFine world registry r d (record { chain = p ∷ ps; clock = clock })
                    good (subst (λ u. get_descriptor u p.scope_type registry ≡ some d) (sym same) k)
                    a))
          | inl k ↦
              rw (e, f, g, k)
                (push-IsFine t p ps _ a.0 (ground (arith, k)) (walk-IsFine r t ps clock good a.1))
        ]
      ]
    ]
  ]

  -- resolution, with any fuel, keeps every scope's stack in layers
  pub resolve-IsFine : (fuel : ℕ) → IsGood world registry (resolve world registry fuel)
  unfolding resolve
  resolve-IsFine zero t s a = tt
  resolve-IsFine (suc fuel) t s a =
      walk-IsFine (resolve world registry fuel) t s.chain s.clock (resolve-IsFine fuel) a
