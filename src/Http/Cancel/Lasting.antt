-- ===== src/Http/Cancel/Lasting.antt =====
-- localpost/http/_cancel.py: a request that is cancelled stays so.
use localpost_py.Prelude.{◌≡◌, refl, ◌∙◌, true, some, List, [], ◌∷◌, arith}
use localpost_py.Http.Cancel.{
  Peek, blocking, failed, peeked, RequestCancel, fired, is_cancelled, check_cancelled,
  request_cancelled, Event, cancels, shuts_down, checks, cancel, step, run_all,
}

is_cancelled-fired :
    (peek : Peek) (token : RequestCancel)
    → (is_cancelled peek token).0 ≡ true
    → fired (is_cancelled peek token).1 ≡ true
unfolding is_cancelled fired
is_cancelled-fired blocking token h = ground (arith, h)
is_cancelled-fired failed token h = ground arith
is_cancelled-fired (peeked []) token h = ground arith
is_cancelled-fired (peeked (b ∷ bs)) token h = ground (arith, h)

fired_once :
    (peek : Peek) (token : RequestCancel)
    → fired token ≡ true
    → is_cancelled peek token ≡ (true, token)
unfolding is_cancelled
fired_once peek token h = rw h refl

step-fired :
    (token : RequestCancel) (e : Event)
    → fired token ≡ true
    → (fired (step token e) ≡ true) × ((step token e).peeks ≡ token.peeks)
unfolding step fired cancel
step-fired token cancels h = (refl, refl)
step-fired token shuts_down h = (ground arith, refl)
step-fired token (checks peek) h = rw (step, fired_once peek token h) (h, refl)

run_all-fired :
    (token : RequestCancel) (es : List Event)
    → fired token ≡ true
    → (fired (run_all token es) ≡ true) × ((run_all token es).peeks ≡ token.peeks)
unfolding run_all
run_all-fired token [] h = (h, refl)
run_all-fired token (e ∷ es) h =
    let (f, p) = step-fired token e h in
    let (g, q) = run_all-fired (step token e) es f in (g, q ∙ p)

-- Once `is_cancelled` has answered true, whatever happens next and whatever the socket then says,
-- `check_cancelled` raises `RequestCancelled`, and the socket is never asked again.
pub cancelled_for_good :
    (peek later : Peek) (token : RequestCancel) (es : List Event)
    → (is_cancelled peek token).0 ≡ true
    → let end = run_all (is_cancelled peek token).1 es in
      (check_cancelled later (some end) ≡ request_cancelled)
      × ((is_cancelled later end).1.peeks ≡ (is_cancelled peek token).1.peeks)
unfolding check_cancelled
cancelled_for_good peek later token es h =
    let (f, p) = run_all-fired (is_cancelled peek token).1 es (is_cancelled-fired peek token h) in
    let once = fired_once later (run_all (is_cancelled peek token).1 es) f in rw once (refl, p)
