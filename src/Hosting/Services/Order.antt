-- ===== src/Hosting/Services/Order.antt =====
-- localpost/hosting/_host.py: the states of a service, in their order.
use localpost_py.Prelude.{
  ℕ, zero, suc, ◌≡◌, refl, sym, ap, ◌∙◌, subst, some, List, [], ◌∷◌, get_elem?, Bool-cases,
  Option-cases, inl, inr, ◌==◌, if◌then◌else◌,
}
use localpost_py.Hosting.{state, new}
use localpost_py.Hosting.Services.{
  Service, modify, start, has_left, child_of, on_call, on_stop, on_return, on_raise, on_unwind,
  on_cancel, on_leave, on_finish, is_cancelled_above, are_done, Event, starts, stops, returns,
  unwinds, cancels, leaves, calls, raises, finishes, step, run_all, root,
}
use localpost_py.Hosting.Services.Table.{some_inj, modify-some, modify-inv, append-some, append-inv}
use localpost_py.Hosting.Services.States.{
  Becomes, Becomes-refl, Becomes-trans, IsCoherent, IsNext, Keeps-IsNext, on_call-IsNext,
  on_stop-Keeps, on_return-Keeps, on_raise-Keeps, on_unwind-Keeps, on_cancel-Keeps, on_leave-Keeps,
  on_finish-IsNext,
}

abbrev AllCoherent : List Service → Type 0
AllCoherent ss = (i : ℕ) (s : Service) → get_elem? ss i ≡ some s → IsCoherent s

abbrev AllNext : List Service → List Service → Type 0
AllNext ss ts =
    (i : ℕ) (s : Service)
    → get_elem? ss i ≡ some s
    → (t : Service) × (get_elem? ts i ≡ some t) × Becomes (state s.lifetime) (state t.lifetime)

AllNext-refl : (ss : List Service) → AllNext ss ss
AllNext-refl ss i s e = (s, e, Becomes-refl (state s.lifetime))

modify-AllNext :
    (i : ℕ) (f : Service → Service) (ss : List Service)
    → ((s : Service) → IsCoherent s → IsNext s (f s))
    → AllCoherent ss
    → AllNext ss (modify i f ss) × AllCoherent (modify i f ss)
modify-AllNext i f ss next c = (
  λ j s e. (
    if i == j then f s else s,
    modify-some i j f ss s e,
    elim (Bool-cases (i == j)) [
      | inl g ↦ rw g (next s (c j s e)).0
      | inr g ↦ rw g (Becomes-refl (state s.lifetime))
    ],
  ),
  λ j t e.
      let (s, h, k) = modify-inv i j f ss t e in
      elim (Bool-cases (i == j)) [
        | inl g ↦ subst IsCoherent (sym (k ∙ ap (λ b. if b then f s else s) g)) (next s (c j s h)).1
        | inr g ↦ subst IsCoherent (sym (k ∙ ap (λ b. if b then f s else s) g)) (c j s h)
      ],
)

start-AllNext :
    (j : ℕ) (ss : List Service)
    → AllCoherent ss
    → AllNext ss (start j ss) × AllCoherent (start j ss)
unfolding start new
start-AllNext j ss c = elim (Option-cases (get_elem? ss j)) [
  | inl e ↦ rw (start, e) (AllNext-refl ss, c)
  | inr (s, e) ↦ elim (Bool-cases (has_left s.phase)) [
    | inl g ↦ rw (start, e, g) (AllNext-refl ss, c)
    | inr g ↦
        rw (start, e, g)
          (
            λ i t h. (t, append-some ss (child_of j s) t i h, Becomes-refl (state t.lifetime)),
            λ i t h. elim (append-inv ss (child_of j s) t i h) [
              | inl k ↦ c i t k
              | inr k ↦ subst IsCoherent k refl
            ],
          )
  ]
]

step-AllNext :
    (ss : List Service) (e : Event)
    → AllCoherent ss
    → AllNext ss (step ss e) × AllCoherent (step ss e)
unfolding step
step-AllNext ss (starts j) c = start-AllNext j ss c
step-AllNext ss (calls i x) c = modify-AllNext i (on_call x) ss (on_call-IsNext x) c
step-AllNext ss (stops i) c = modify-AllNext i on_stop ss (Keeps-IsNext on_stop on_stop-Keeps) c
step-AllNext ss (returns i) c =
    modify-AllNext i on_return ss (Keeps-IsNext on_return on_return-Keeps) c
step-AllNext ss (raises i e) c =
    modify-AllNext i (on_raise e) ss (Keeps-IsNext (on_raise e) (on_raise-Keeps e)) c
step-AllNext ss (unwinds i) c =
    modify-AllNext i on_unwind ss (Keeps-IsNext on_unwind on_unwind-Keeps) c
step-AllNext ss (cancels i) c = elim (Bool-cases (is_cancelled_above i ss)) [
  | inl g ↦ rw g (modify-AllNext i on_cancel ss (Keeps-IsNext on_cancel on_cancel-Keeps) c)
  | inr g ↦ rw g (AllNext-refl ss, c)
]
step-AllNext ss (leaves i) c = elim (Bool-cases (are_done i ss)) [
  | inl g ↦ rw g (modify-AllNext i on_leave ss (Keeps-IsNext on_leave on_leave-Keeps) c)
  | inr g ↦ rw g (AllNext-refl ss, c)
]
step-AllNext ss (finishes i r) c = modify-AllNext i (on_finish r) ss (on_finish-IsNext r) c

run_all-AllNext :
    (es : List Event) (ss : List Service)
    → AllCoherent ss
    → AllNext ss (run_all ss es) × AllCoherent (run_all ss es)
unfolding run_all
run_all-AllNext [] ss c = (AllNext-refl ss, c)
run_all-AllNext (e ∷ es) ss c =
    let (first, c') = step-AllNext ss e c in
    let (rest, c'') = run_all-AllNext es (step ss e) c' in
    (
      λ i s h.
          let (t, k, b) = first i s h in
          let (u, l, d) = rest i t k in
          (u, l, Becomes-trans (state s.lifetime) (state t.lifetime) (state u.lifetime) b d),
      c'',
    )

root-AllCoherent : AllCoherent root
unfolding root new
root-AllCoherent zero s e = subst IsCoherent (some_inj _ s e) refl
root-AllCoherent (suc i) s e = cc e

pub reached-AllCoherent : (es : List Event) → AllCoherent (run_all root es)
reached-AllCoherent es = (run_all-AllNext es root root-AllCoherent).1

-- Services and their children follow the abstract machine of states, whatever happens, in whatever
-- order: a service that is in some state after the events `es` is there after any further events `fs`,
-- in a state that the machine allows after it.
pub lifetimes_advance :
    (es fs : List Event) (i : ℕ) (s : Service)
    → get_elem? (run_all root es) i ≡ some s
    → (t : Service) × (get_elem? (run_all (run_all root es) fs) i ≡ some t)
      × Becomes (state s.lifetime) (state t.lifetime)
lifetimes_advance es fs i s e =
    (run_all-AllNext fs (run_all root es) (reached-AllCoherent es)).0 i s e
