-- ===== src/Hosting/Services/Children.antt =====
-- localpost/hosting/_host.py: a service ends after its children.
use localpost_py.Prelude.{
  ℕ, zero, suc, ◌≡◌, refl, sym, ap, ◌∙◌, subst, Bool, true, false, not, ◌&&◌, ◌||◌, Option, some,
  List, [], ◌∷◌, get_elem?, arith, Bool-cases, Option-cases, inl, inr, ◌⊎◌, ◌==◌, ==_iff,
  if◌then◌else◌,
}
use localpost_py.Hosting.{Exception, new}
use localpost_py.Hosting.Services.{
  Service, is_done, has_left, is_child_of, modify, start, child_of, Call, on_call, on_stop,
  on_return, on_raise, on_unwind, on_cancel, on_leave, on_finish, is_cancelled_above, are_done,
  Event, starts, stops, returns, unwinds, cancels, leaves, calls, raises, finishes, step, run_all,
  root,
}
use localpost_py.Hosting.Services.Table.{some_inj, modify-inv, append-inv}
use localpost_py.Hosting.Services.Order.{reached-AllCoherent}

-- where a task group has ended, the tasks in it have
abbrev IsNested : List Service → Type 0
IsNested ss =
    (i j : ℕ) (s t : Service)
    → get_elem? ss i ≡ some s
    → get_elem? ss j ≡ some t
    → is_child_of j s ≡ true
    → has_left t.phase ≡ true
    → is_done s.phase ≡ true

when_child : (c d e : Bool) → c ≡ true → (not c || d) && e ≡ true → d ≡ true
when_child c d e h g = ground (arith, h, g)

are_done_lem :
    (j i : ℕ) (ss : List Service) (s : Service)
    → are_done j ss ≡ true
    → get_elem? ss i ≡ some s
    → is_child_of j s ≡ true
    → is_done s.phase ≡ true
are_done_lem j i [] s d e c = cc e
are_done_lem j zero (u ∷ ss) s d e c =
    let same = some_inj u s e in
    let child : is_child_of j u ≡ true = subst (λ x. is_child_of j x ≡ true) (sym same) c in
    sym (ap (λ x. is_done x.phase) same)
    ∙ when_child (is_child_of j u) (is_done u.phase) (are_done j ss) child d
are_done_lem j (suc i) (u ∷ ss) s d e c = are_done_lem j i ss s (ground (arith, d)) e c

-- a change that leaves who started the service, and reopens nothing
abbrev Keeps : (Service → Service) → Type 0
Keeps f =
    (s : Service) → ((f s).above ≡ s.above) × (is_done s.phase ≡ true → is_done (f s).phase ≡ true)

-- and ends no task group
abbrev KeepsGroup : (Service → Service) → Type 0
KeepsGroup f = (s : Service) → has_left (f s).phase ≡ true → has_left s.phase ≡ true

modify-IsNested :
    (i : ℕ) (f : Service → Service) (ss : List Service)
    → Keeps f
    → (are_done i ss ≡ true) ⊎ KeepsGroup f
    → IsNested ss
    → IsNested (modify i f ss)
modify-IsNested i f ss k group nested a b s t e g child left =
    let (s', e', p) = modify-inv i a f ss s e in
    let (t', g', q) = modify-inv i b f ss t g in
    let s_above : s.above ≡ s'.above =
      ap (λ x. x.above) p
      ∙ elim (Bool-cases (i == a)) [ inl h ↦ rw h (k s').0 | inr h ↦ rw h refl ] in
    let child' : is_child_of b s' ≡ true =
      ap (λ l. elim l as (λ x. Bool) [ [] ↦ false | x ∷ xs ↦ x == b ]) (sym s_above) ∙ child in
    let left_if : (c : Bool) → (i == b) ≡ c → has_left (if c then f t' else t').phase ≡ true =
      λ c h. sym (ap (λ x. has_left x.phase) (q ∙ ap (λ c. if c then f t' else t') h)) ∙ left in
    let ended : is_done s'.phase ≡ true = elim (Bool-cases (i == b)) [
      | inl h ↦ elim group [
        | inl d ↦
            are_done_lem i a ss s' d e'
              (subst (λ n. is_child_of n s' ≡ true) (sym ((==_iff i b).0 h)) child')
        | inr closed ↦ nested a b s' t' e' g' child' (closed t' (left_if true h))
      ]
      | inr h ↦ nested a b s' t' e' g' child' (left_if false h)
    ] in
    ap (λ x. is_done x.phase) p
    ∙ elim (Bool-cases (i == a)) [ inl h ↦ rw h ((k s').1 ended) | inr h ↦ rw h ended ]

start-IsNested : (j : ℕ) (ss : List Service) → IsNested ss → IsNested (start j ss)
unfolding start new
start-IsNested j ss nested = elim (Option-cases (get_elem? ss j)) [
  | inl e ↦ rw (start, e) nested
  | inr (s, e) ↦ elim (Bool-cases (has_left s.phase)) [
    | inl g ↦ rw (start, e, g) nested
    | inr g ↦
        rw (start, e, g)
          (λ a b u t h k child left. elim (append-inv ss (child_of j s) t b k) [
            | inr q ↦ cc (ap (λ x. has_left x.phase) q ∙ left)
            | inl q ↦ elim (append-inv ss (child_of j s) u a h) [
              | inl p ↦ nested a b u t p q child left
              | inr p ↦
                  let j_is_b : j ≡ b = (==_iff j b).0 (ap (is_child_of b) p ∙ child) in
                  let t_is_s = some_inj t s (sym q ∙ ap (get_elem? ss) (sym j_is_b) ∙ e) in
                  cc (sym left ∙ ap (λ x. has_left x.phase) t_is_s ∙ g)
            ]
          ])
  ]
]

on_call-Keeps : (c : Call) → Keeps (on_call c)
on_call-Keeps c s = (refl, λ h. h)

on_stop-Keeps : Keeps on_stop
on_stop-Keeps s = (refl, λ h. h)

on_return-Keeps : Keeps on_return
unfolding on_return
on_return-Keeps s = (ground arith, λ h. ground (arith, h))

on_raise-Keeps : (e : ℕ) → Keeps (on_raise e)
unfolding on_raise
on_raise-Keeps e s = (ground arith, λ h. ground (arith, h))

on_unwind-Keeps : Keeps on_unwind
unfolding on_unwind
on_unwind-Keeps s = (ground arith, λ h. ground (arith, h))

on_cancel-Keeps : Keeps on_cancel
unfolding on_cancel
on_cancel-Keeps s = (ground arith, λ h. ground (arith, h))

on_finish-Keeps : (r : Option Exception) → Keeps (on_finish r)
unfolding on_finish
on_finish-Keeps r s = (ground arith, λ h. ground (arith, h))

on_leave-Keeps : Keeps on_leave
unfolding on_leave
on_leave-Keeps s = (ground arith, λ h. ground (arith, h))

on_return-KeepsGroup : KeepsGroup on_return
unfolding on_return
on_return-KeepsGroup s h = ground (arith, h)

on_raise-KeepsGroup : (e : ℕ) → KeepsGroup (on_raise e)
unfolding on_raise
on_raise-KeepsGroup e s h = ground (arith, h)

on_unwind-KeepsGroup : KeepsGroup on_unwind
unfolding on_unwind
on_unwind-KeepsGroup s h = ground (arith, h)

on_cancel-KeepsGroup : KeepsGroup on_cancel
unfolding on_cancel
on_cancel-KeepsGroup s h = ground (arith, h)

on_finish-KeepsGroup : (r : Option Exception) → KeepsGroup (on_finish r)
unfolding on_finish
on_finish-KeepsGroup r s h = ground (arith, h)

step-IsNested : (ss : List Service) (e : Event) → IsNested ss → IsNested (step ss e)
unfolding step
step-IsNested ss (starts j) n = start-IsNested j ss n
step-IsNested ss (calls i x) n =
    modify-IsNested i (on_call x) ss (on_call-Keeps x) (inr (λ s h. h)) n
step-IsNested ss (stops i) n = modify-IsNested i on_stop ss on_stop-Keeps (inr (λ s h. h)) n
step-IsNested ss (returns i) n =
    modify-IsNested i on_return ss on_return-Keeps (inr on_return-KeepsGroup) n
step-IsNested ss (raises i e) n =
    modify-IsNested i (on_raise e) ss (on_raise-Keeps e) (inr (on_raise-KeepsGroup e)) n
step-IsNested ss (unwinds i) n =
    modify-IsNested i on_unwind ss on_unwind-Keeps (inr on_unwind-KeepsGroup) n
step-IsNested ss (cancels i) n = elim (Bool-cases (is_cancelled_above i ss)) [
  | inl g ↦ rw g (modify-IsNested i on_cancel ss on_cancel-Keeps (inr on_cancel-KeepsGroup) n)
  | inr g ↦ rw g n
]
step-IsNested ss (leaves i) n = elim (Bool-cases (are_done i ss)) [
  | inl g ↦ rw g (modify-IsNested i on_leave ss on_leave-Keeps (inl g) n)
  | inr g ↦ rw g n
]
step-IsNested ss (finishes i r) n =
    modify-IsNested i (on_finish r) ss (on_finish-Keeps r) (inr (on_finish-KeepsGroup r)) n

run_all-IsNested : (es : List Event) (ss : List Service) → IsNested ss → IsNested (run_all ss es)
unfolding run_all
run_all-IsNested [] ss n = n
run_all-IsNested (e ∷ es) ss n = run_all-IsNested es (step ss e) (step-IsNested ss e n)

root-IsNested : IsNested root
unfolding root new
root-IsNested i zero s t e g c l = cc (ap (λ x. has_left x.phase) (some_inj _ t g) ∙ l)
root-IsNested i (suc j) s t e g c l = cc g

-- Whatever happens, in whatever order: once a service's task group has ended, so before its deferred
-- cleanups run and before it is stopped, every service that it started is stopped.
pub children_stop_first :
    (es : List Event) (i j : ℕ) (s t : Service)
    → get_elem? (run_all root es) i ≡ some s
    → get_elem? (run_all root es) j ≡ some t
    → is_child_of j s ≡ true
    → has_left t.phase || t.lifetime.stopped ≡ true
    → s.lifetime.stopped ≡ true
children_stop_first es i j s t e g c l =
    let left : has_left t.phase ≡ true = ground (arith, l, reached-AllCoherent es j t g) in
    reached-AllCoherent es i s e ∙ run_all-IsNested es root root-IsNested i j s t e g c left
