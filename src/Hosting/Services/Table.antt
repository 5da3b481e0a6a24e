-- ===== src/Hosting/Services/Table.antt =====
-- localpost/hosting/_host.py: looking up a service after one was changed or started.
use localpost_py.Prelude.{
  ℕ, zero, suc, ◌≡◌, ◌⊎◌, inl, inr, refl, sym, ap, ◌∙◌, none, some, List, [], ◌∷◌, ◌++◌, get_elem?,
  arith, Option-cases, ◌==◌, if◌then◌else◌,
}
use localpost_py.Hosting.Services.{Service, modify}

pub some_inj : (s t : Service) → some s ≡ some t → s ≡ t
some_inj s t e = cc e

pub modify-some :
    (i j : ℕ) (f : Service → Service) (ss : List Service) (s : Service)
    → get_elem? ss j ≡ some s
    → get_elem? (modify i f ss) j ≡ some (if i == j then f s else s)
modify-some i j f [] s e = cc e
modify-some zero zero f (t ∷ ss) s e = ap some (ap f (some_inj t s e))
modify-some zero (suc j) f (t ∷ ss) s e = ground (arith, e)
modify-some (suc i) zero f (t ∷ ss) s e = ground (arith, e)
modify-some (suc i) (suc j) f (t ∷ ss) s e = ground (arith, modify-some i j f ss s e)

modify-none :
    (i j : ℕ) (f : Service → Service) (ss : List Service)
    → get_elem? ss j ≡ none
    → get_elem? (modify i f ss) j ≡ none
modify-none i j f [] e = refl
modify-none zero zero f (t ∷ ss) e = cc e
modify-none zero (suc j) f (t ∷ ss) e = e
modify-none (suc i) zero f (t ∷ ss) e = e
modify-none (suc i) (suc j) f (t ∷ ss) e = modify-none i j f ss e

pub modify-inv :
    (i j : ℕ) (f : Service → Service) (ss : List Service) (t : Service)
    → get_elem? (modify i f ss) j ≡ some t
    → (s : Service) × (get_elem? ss j ≡ some s) × (t ≡ (if i == j then f s else s))
modify-inv i j f ss t e = elim (Option-cases (get_elem? ss j)) [
  | inl h ↦ cc (modify-none i j f ss h, e)
  | inr (s, h) ↦ (s, h, some_inj t (if i == j then f s else s) (sym e ∙ modify-some i j f ss s h))
]

pub append-some :
    (ss : List Service) (t s : Service) (j : ℕ)
    → get_elem? ss j ≡ some s
    → get_elem? (ss ++ t ∷ []) j ≡ some s
append-some [] t s j e = cc e
append-some (u ∷ ss) t s zero e = e
append-some (u ∷ ss) t s (suc j) e = append-some ss t s j e

pub append-inv :
    (ss : List Service) (t s : Service) (j : ℕ)
    → get_elem? (ss ++ t ∷ []) j ≡ some s
    → (get_elem? ss j ≡ some s) ⊎ (t ≡ s)
append-inv [] t s zero e = inr (some_inj t s e)
append-inv [] t s (suc j) e = cc e
append-inv (u ∷ ss) t s zero e = inl e
append-inv (u ∷ ss) t s (suc j) e = append-inv ss t s j e
