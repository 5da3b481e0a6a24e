-- ===== src/Scheduler/Triggers/Timing.antt =====
-- localpost/scheduler/_trigger.py and _cond.py: how many events.
use localpost_py.Prelude.{
  ℕ, zero, suc, ◌+◌, ◌≡◌, refl, ap, ◌∙◌, sym, true, false, some, List, [], ◌∷◌, leb, pos, arith,
}
use mathlib.Core.Option.{some-injective}
use localpost_py.Scheduler.Triggers.{take, drop, Yielded, take_loop, take_first}

take_zero : {E : Type 0} (es : List E) → take es 0 ≡ []
take_zero [] = refl
take_zero (e ∷ es) = refl

drop_zero : {E : Type 0} (es : List E) → drop es 0 ≡ es
drop_zero [] = refl
drop_zero (e ∷ es) = refl

take_loop-take :
    {E : Type 0} (n m i : ℕ) (es : List E)
    → n ≡ suc (m + i)
    → ((take_loop n i es).events ≡ take es (suc m)) × ((take_loop n i es).left ≡ drop es (suc m))
unfolding take_loop
take_loop-take n m i [] h = (refl, refl)
take_loop-take n zero i (e ∷ es) h =
    let last : leb n (suc i) ≡ true = ground (arith, h) in
    rw last (ap (λ l. e ∷ l) (sym (take_zero es)), sym (drop_zero es))
take_loop-take n (suc m) i (e ∷ es) h =
    let more : leb n (suc i) ≡ false = ground (arith, h) in
    let (events, left) = take_loop-take n m (suc i) es (omega (arith, h)) in
    rw more (ap (λ l. e ∷ l) events, left)

-- `take_first(n)` yields the first `n` events and takes no more than those from its source.
pub take_first-take :
    {E : Type 0} (n : ℕ) (source : List E)
    → (f : List E → Yielded E) → take_first (pos n) ≡ some f
    → ((f source).events ≡ take source n) × ((f source).left ≡ drop source n)
unfolding take_first
take_first-take zero source f h =
    let same = some-injective _ f h in
    (
      ap (λ g. (g source).events) (sym same) ∙ sym (take_zero source),
      ap (λ g. (g source).left) (sym same) ∙ sym (drop_zero source),
    )
take_first-take (suc n) source f h =
    let same = some-injective _ f h in
    let (events, left) = take_loop-take (suc n) n 0 source (omega arith) in
    (ap (λ g. (g source).events) (sym same) ∙ events, ap (λ g. (g source).left) (sym same) ∙ left)
