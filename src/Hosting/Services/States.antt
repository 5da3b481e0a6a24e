-- ===== src/Hosting/Services/States.antt =====
-- localpost/hosting/_host.py: the states of a service, and what each step makes of them.
use localpost_py.Prelude.{
  ℕ, ◌≡◌, refl, sym, ap, ◌∙◌, subst, Bool, true, false, Option, none, some, List, arith, Bool-cases,
  inl, inr, leb,
}
use localpost_py.Hosting.{
  Exception, ServiceState, starting, running, shutting_down_for, stopped_with, ServiceLifetime,
  state, shutdown, set_started, set_shutting_down, set_exit_code, end_with,
}
use localpost_py.Hosting.Services.{
  Service, Phase, is_done, body, done, closing, cleaning, Call, marks_started, marks_shutting_down,
  shuts_down, sets_exit_code, call, on_call, on_stop, on_return, on_raise, on_unwind, on_cancel,
  on_leave, on_finish, or_else,
}

-- The abstract machine of a service's state: starting, running, shutting down for a reason, stopped.
-- A state may be skipped and none is left backwards; the reason that shutting down began with
-- stays, and nothing of a stopped service changes.
abbrev pub Becomes : ServiceState → ServiceState → Type 0
Becomes starting t = Unit {0}
Becomes running starting = ⊥
Becomes running t = Unit {0}
Becomes (shutting_down_for r) (shutting_down_for q) = r ≡ q
Becomes (shutting_down_for r) (stopped_with q e) = r ≡ q
Becomes (shutting_down_for r) t = ⊥
Becomes (stopped_with r e) t = t ≡ stopped_with r e

pub Becomes-refl : (s : ServiceState) → Becomes s s
Becomes-refl starting = tt
Becomes-refl running = tt
Becomes-refl (shutting_down_for r) = refl
Becomes-refl (stopped_with r e) = refl

pub Becomes-trans : (s t u : ServiceState) → Becomes s t → Becomes t u → Becomes s u
Becomes-trans starting t u a b = tt
Becomes-trans running starting u a b = absurd a
Becomes-trans running running u a b = b
Becomes-trans running (shutting_down_for r) starting a b = b
Becomes-trans running (shutting_down_for r) running a b = tt
Becomes-trans running (shutting_down_for r) (shutting_down_for q) a b = tt
Becomes-trans running (shutting_down_for r) (stopped_with q e) a b = tt
Becomes-trans running (stopped_with r e) u a b = subst (Becomes running) (sym b) tt
Becomes-trans (shutting_down_for r) starting u a b = absurd a
Becomes-trans (shutting_down_for r) running u a b = absurd a
Becomes-trans (shutting_down_for r) (shutting_down_for q) starting a b = b
Becomes-trans (shutting_down_for r) (shutting_down_for q) running a b = b
Becomes-trans (shutting_down_for r) (shutting_down_for q) (shutting_down_for p) a b = a ∙ b
Becomes-trans (shutting_down_for r) (shutting_down_for q) (stopped_with p e) a b = a ∙ b
Becomes-trans (shutting_down_for r) (stopped_with q e) u a b =
    subst (Becomes (shutting_down_for r)) (sym b) a
Becomes-trans (stopped_with r e) t u a b = subst (λ x. Becomes x u) a b

abbrev lifetime_of : Bool → Bool → Bool → Option ℕ → Option Exception → Option ℕ → ServiceLifetime
lifetime_of a b c r e k = record {
  started = a;
  shutting_down = b;
  stopped = c;
  shutdown_reason = r;
  exception = e;
  set_code = k;
}

call-Becomes :
    (c : Call) (a b d : Bool) (r : Option ℕ) (e : Option Exception) (k : Option ℕ)
    → Becomes (state (lifetime_of a b d r e k)) (state (call c (lifetime_of a b d r e k)))
unfolding call state shutdown set_started set_shutting_down set_exit_code
call-Becomes marks_started a b true r e k = refl
call-Becomes marks_started a true false r e k = refl
call-Becomes marks_started true false false r e k = tt
call-Becomes marks_started false false false r e k = tt
call-Becomes (marks_shutting_down q) a b true r e k = refl
call-Becomes (marks_shutting_down q) a true false r e k = refl
call-Becomes (marks_shutting_down q) true false false r e k = tt
call-Becomes (marks_shutting_down q) false false false r e k = tt
call-Becomes (shuts_down q) a b true r e k = refl
call-Becomes (shuts_down q) a true false r e k = refl
call-Becomes (shuts_down q) true false false r e k = tt
call-Becomes (shuts_down q) false false false r e k = tt
call-Becomes (sets_exit_code n) a b d r e k = elim (Bool-cases (leb n 255)) [
  | inl g ↦ rw g (Becomes-refl (state (lifetime_of a b d r e k)))
  | inr g ↦ rw g (Becomes-refl (state (lifetime_of a b d r e k)))
]

-- a service is stopped when `_run` has ended, and not before
abbrev pub IsCoherent : Service → Type 0
IsCoherent s = s.lifetime.stopped ≡ is_done s.phase

abbrev pub IsNext : Service → Service → Type 0
IsNext s t = Becomes (state s.lifetime) (state t.lifetime) × IsCoherent t

abbrev service_of : ServiceLifetime → List ℕ → Phase → Bool → Service
service_of lt above phase cancelling = record {
  lifetime = lt;
  above = above;
  phase = phase;
  cancelling = cancelling;
}

same_IsNext :
    (s t : Service)
    → s.lifetime ≡ t.lifetime
    → is_done s.phase ≡ is_done t.phase
    → IsCoherent s
    → IsNext s t
same_IsNext s t e p c = (
  subst (λ l. Becomes (state s.lifetime) (state l)) e (Becomes-refl (state s.lifetime)),
  ap (λ l. l.stopped) (sym e) ∙ c ∙ p,
)

call-stopped : (c : Call) (lt : ServiceLifetime) → (call c lt).stopped ≡ lt.stopped
unfolding call shutdown set_started set_shutting_down set_exit_code
call-stopped marks_started lt = ground (arith)
call-stopped (marks_shutting_down r) lt = ground (arith)
call-stopped (shuts_down r) lt = ground (arith)
call-stopped (sets_exit_code n) lt = ground (arith)

pub on_call-IsNext : (c : Call) (s : Service) → IsCoherent s → IsNext s (on_call c s)
on_call-IsNext c s h =
    let lt = s.lifetime in
    (
      call-Becomes c lt.started lt.shutting_down lt.stopped lt.shutdown_reason lt.exception
          lt.set_code,
      call-stopped c lt ∙ h,
    )

-- a change of the phase alone, that neither ends `_run` nor follows its end
abbrev pub Keeps : (Service → Service) → Type 0
Keeps f = (s : Service) → ((f s).lifetime ≡ s.lifetime) × (is_done (f s).phase ≡ is_done s.phase)

pub Keeps-IsNext : (f : Service → Service) → Keeps f → (s : Service) → IsCoherent s → IsNext s (f s)
Keeps-IsNext f k s h = let (a, b) = k s in same_IsNext s (f s) (sym a) (sym b) h

pub on_stop-Keeps : Keeps on_stop
on_stop-Keeps s = (ground arith, ground arith)

pub on_return-Keeps : Keeps on_return
unfolding on_return
on_return-Keeps s = (ground arith, ground arith)

pub on_raise-Keeps : (e : ℕ) → Keeps (on_raise e)
unfolding on_raise
on_raise-Keeps e s = (ground arith, ground arith)

pub on_unwind-Keeps : Keeps on_unwind
unfolding on_unwind
on_unwind-Keeps s = (ground arith, ground arith)

pub on_cancel-Keeps : Keeps on_cancel
unfolding on_cancel
on_cancel-Keeps s = (ground arith, ground arith)

pub on_leave-Keeps : Keeps on_leave
unfolding on_leave
on_leave-Keeps s = (ground arith, ground arith)

end-Becomes :
    (x : Option Exception) (a b d : Bool) (r : Option ℕ) (e : Option Exception) (k : Option ℕ)
    → d ≡ false
    → Becomes (state (lifetime_of a b d r e k)) (state (end_with x (lifetime_of a b d r e k)))
unfolding state end_with
end-Becomes x a b true r e k h = cc h
end-Becomes none a true false r e k h = refl
end-Becomes none true false false r e k h = tt
end-Becomes none false false false r e k h = tt
end-Becomes (some y) a true false r e k h = refl
end-Becomes (some y) true false false r e k h = tt
end-Becomes (some y) false false false r e k h = tt

pub on_finish-IsNext :
    (r : Option Exception) (s : Service) → IsCoherent s → IsNext s (on_finish r s)
unfolding on_finish end_with
on_finish-IsNext r s h = by_phase s.lifetime s.above s.phase s.cancelling h
  where
    by_phase :
        (lt : ServiceLifetime) (a : List ℕ) (p : Phase) (c : Bool)
        → lt.stopped ≡ is_done p
        → IsNext (service_of lt a p c) (on_finish r (service_of lt a p c))
    by_phase lt a (cleaning x) c g = (
      end-Becomes (or_else r x) lt.started lt.shutting_down lt.stopped lt.shutdown_reason
          lt.exception lt.set_code g,
      ground arith,
    )
    by_phase lt a body c g = (Becomes-refl (state lt), g)
    by_phase lt a (closing x) c g = (Becomes-refl (state lt), g)
    by_phase lt a done c g = (Becomes-refl (state lt), g)
