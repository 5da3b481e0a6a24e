-- ===== src/Scheduler/Triggers.antt =====
-- localpost/scheduler/_trigger.py and _cond.py: the events that `After` and the middlewares yield.
pub mod Timing
use localpost_py.Prelude.{
  ℕ, zero, suc, ◌+◌, ◌≡◌, refl, ap, ◌∙◌, Bool, true, false, not, ◌&&◌, ◌||◌, Option, none, some,
  List, [], ◌∷◌, ◌++◌, map, ltb, leb, ◌==◌, if◌then◌else◌, ℤ, pos, negsuc, arith,
}
use localpost_py.Bytes.{Bytes}
use localpost_py.Scheduler.{Result, ok, failure, Template, floordiv, decorate, tf}

-- `take` and `drop` of the first `n` items
abbrev pub take {ℓ} : {A : Type ℓ} → List A → ℕ → List A
take [] n = []
take (x ∷ xs) zero = []
take (x ∷ xs) (suc n) = x ∷ take xs n

abbrev pub drop {ℓ} : {A : Type ℓ} → List A → ℕ → List A
drop [] n = []
drop (x ∷ xs) zero = x ∷ xs
drop (x ∷ xs) (suc n) = drop xs n

-- what a middleware yields, and what it leaves in its source
pub record Yielded (E : Type 0) : Type 0 where
  pub events : List E
  pub left : List E

abbrev yield_first : {E : Type 0} → E → Yielded E → Yielded E
yield_first e y = record { events = e ∷ y.events; left = y.left }

-- the loop of `take_first`
take_loop : {E : Type 0} → ℕ → ℕ → List E → Yielded E
take_loop n iter_n [] = record { events = []; left = [] }
take_loop n iter_n (e ∷ es) =
    let rest = take_loop n (suc iter_n) es in
    if leb n (suc iter_n) then record { events = e ∷ []; left = es } else yield_first e rest

-- `take_first`; `none` is the `ValueError`
unfoldable pub take_first : {E : Type 0} → ℤ → Option (List E → Yielded E)
unfolding take_loop
take_first (negsuc n) = none
take_first (pos zero) = some (λ source. record { events = []; left = source })
take_first (pos (suc n)) = some (take_loop (suc n) 0)

-- `delay`: with each event, whether the task is shutting down after the sleep
pub delay : {E : Type 0} → List (E × Bool) → List E
delay [] = []
delay ((e, shutting_down) ∷ es) = let rest = delay es in if shutting_down then [] else e ∷ rest

-- `After`: what it yields for the results that its stream has until it ends
pub after : {R : Type 0} → List (Result R) → List R
after [] = []
after (ok v ∷ rs) = v ∷ after rs
after (failure e ∷ rs) = after rs
