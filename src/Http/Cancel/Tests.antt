-- ===== src/Http/Cancel/Tests.antt =====
-- localpost/http/_cancel.py at a client that goes away.
use localpost_py.Prelude.{◌≡◌, refl, some, List, [], ◌∷◌}
use localpost_py.Bytes.{codes}
use localpost_py.Http.Cancel.{
  blocking, peeked, new, is_cancelled, check_cancelled, request_cancelled, Event, checks,
  shuts_down, run_all,
}
use localpost_py.Http.Cancel.Lasting.{cancelled_for_good}

abbrev afterwards : List Event
afterwards = checks (peeked (codes "x")) ∷ shuts_down ∷ checks blocking ∷ []

cancelled_for_good_example :
    (check_cancelled blocking (some (run_all (is_cancelled (peeked []) new).1 afterwards))
      ≡ request_cancelled)
    × ((is_cancelled blocking (run_all (is_cancelled (peeked []) new).1 afterwards)).1.peeks
        ≡ (is_cancelled (peeked []) new).1.peeks)
unfolding is_cancelled new
cancelled_for_good_example = cancelled_for_good (peeked []) blocking new afterwards refl
