-- ===== src/Channel/Threads/Cases.antt =====
-- localpost/threadtools/_channel.py: what to prove for a property to survive every step.
use localpost_py.Prelude.{
  ℕ, ◌≡◌, true, Bool-cases, Option-cases, inl, inr, some, List, [], ◌∷◌, get_elem?,
}
use localpost_py.Channel.Threads.{
  System, Thread, Event, Call, begin, advance, may_start, step, start, run, expire, run_all,
}

module _ {ℓ κ} {A : Type ℓ} (notify : List ℕ → List ℕ) (P : System A → Type κ)
    (begins : (s : System A) (t now : ℕ) (call : Call A) (th : Thread A)
      → get_elem? s.threads t ≡ some th
      → may_start th ≡ true
      → P s
      → P (begin notify t call now s))
    (advances : (s : System A) (t now : ℕ) (th : Thread A)
      → get_elem? s.threads t ≡ some th
      → P s
      → P (advance notify t now th s))
    (expires : (s : System A) (t : ℕ) → P s → P (step notify s (expire t))) where
  pub step_keeps : (s : System A) (ev : Event A) → P s → P (step notify s ev)
  unfolding step
  step_keeps s (start t call now) h = elim (Option-cases (get_elem? s.threads t)) [
    | inl e ↦ rw (e, step) h
    | inr (th, e) ↦ elim (Bool-cases (may_start th)) [
      | inl m ↦ rw (e, step, m) (begins s t now call th e m h)
      | inr m ↦ rw (e, step, m) h
    ]
  ]
  step_keeps s (run t now) h = elim (Option-cases (get_elem? s.threads t)) [
    | inl e ↦ rw (e, step) h
    | inr (th, e) ↦ rw (e, step) (advances s t now th e h)
  ]
  step_keeps s (expire t) h = expires s t h

  pub run_all_keeps : (s : System A) (evs : List (Event A)) → P s → P (run_all notify s evs)
  unfolding run_all
  run_all_keeps s [] h = h
  run_all_keeps s (ev ∷ evs) h = run_all_keeps (step notify s ev) evs (step_keeps s ev h)
