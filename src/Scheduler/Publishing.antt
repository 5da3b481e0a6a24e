-- ===== src/Scheduler/Publishing.antt =====
-- localpost/scheduler/_scheduler.py: which subscribers a published result reaches.
use localpost_py.Prelude.{
  ℕ, zero, suc, ◌≤◌, ◌≡◌, refl, sym, ap, ◌∙◌, Bool, true, false, none, List, [], ◌∷◌, ◌++◌, length,
  get_elem?, set, arith, get_elem?-append_length, length-append,
}
use mathlib.Core.List.{append_assoc}
use localpost_py.Scheduler.{
  Result, Sending, sent, would_block, broken_resource, closed_resource, Streams, Task, Outcome,
  done, raised, delete_at, publish_loop, with_subscribers, publish_result,
}

abbrev pub onto : {A : Type 0} → List A → Outcome (List A) → Outcome (List A)
onto pre (done xs) = done (pre ++ xs)
onto pre (raised xs) = raised (pre ++ xs)

onto-append :
    {A : Type 0} (xs ys : List A) (o : Outcome (List A)) → onto (xs ++ ys) o ≡ onto xs (onto ys o)
onto-append xs ys (done zs) = ap done (append_assoc xs ys zs)
onto-append xs ys (raised zs) = ap raised (append_assoc xs ys zs)

get_elem?-beyond : {A : Type 0} (xs : List A) (i : ℕ) → length xs ≤ i → get_elem? xs i ≡ none
get_elem?-beyond [] i h = refl
get_elem?-beyond (x ∷ xs) zero h = ground (arith, h)
get_elem?-beyond (x ∷ xs) (suc i) h = get_elem?-beyond xs i (omega (arith, h))

set-append :
    {A : Type 0} (xs : List A) (a b : A) (ys : List A)
    → set (xs ++ a ∷ ys) (length xs) b ≡ xs ++ b ∷ ys
set-append [] a b ys = refl
set-append (x ∷ xs) a b ys = ap (λ l. x ∷ l) (set-append xs a b ys)

delete_at-append :
    {A : Type 0} (xs : List A) (a : A) (ys : List A)
    → delete_at (length xs) (xs ++ a ∷ ys) ≡ xs ++ ys
delete_at-append [] a ys = refl
delete_at-append (x ∷ xs) a ys = ap (λ l. x ∷ l) (delete_at-append xs a ys)

module _ {R S : Type 0} (st : Streams R S) (r : Result R) where
  -- Each subscriber in turn: one that takes the result has it, one whose buffer is full keeps what it has,
  -- and one that nobody reads is dropped, and the one after it is passed over.
  abbrev pub reach : Bool → List S → Outcome (List S)
  reach pass_over [] = done []
  reach true (s ∷ ss) = onto (s ∷ []) (reach false ss)
  reach false (s ∷ ss) = elim (st.send_nowait r s) [
    | sent next ↦ onto (next ∷ []) (reach false ss)
    | would_block ↦ onto (s ∷ []) (reach false ss)
    | broken_resource ↦ reach true ss
    | closed_resource ↦ raised (s ∷ ss)
  ]

  -- one turn of the loop, by the answer of the subscriber
  abbrev turn : ℕ → ℕ → List S → Sending S → Outcome (List S)
  turn fuel i subs (sent next) = publish_loop st fuel r (suc i) (set subs i next)
  turn fuel i subs would_block = publish_loop st fuel r (suc i) subs
  turn fuel i subs broken_resource = publish_loop st fuel r (suc i) (delete_at i subs)
  turn fuel i subs closed_resource = raised subs

  publish_loop-turn :
      (fuel : ℕ) (pre : List S) (s : S) (ss : List S)
      → publish_loop st (suc fuel) r (length pre) (pre ++ s ∷ ss)
        ≡ turn fuel (length pre) (pre ++ s ∷ ss) (st.send_nowait r s)
  unfolding publish_loop
  publish_loop-turn fuel pre s ss = rw (get_elem?-append_length pre s ss, publish_loop) refl

  publish_loop-end :
      (fuel : ℕ) (i : ℕ) (subs : List S)
      → length subs ≤ i
      → publish_loop st fuel r i subs ≡ done subs
  unfolding publish_loop
  publish_loop-end zero i subs h = refl
  publish_loop-end (suc fuel) i subs h = rw (get_elem?-beyond subs i h, publish_loop) refl

  -- from the place after `pre`, the loop with this much fuel does what it should
  abbrev Reaches : ℕ → Type 0
  Reaches fuel =
      (pre rest : List S)
      → length rest ≤ fuel
      → publish_loop st fuel r (length pre) (pre ++ rest) ≡ onto pre (reach false rest)

  publish_loop-next :
      (fuel : ℕ) (pre : List S) (s : S) (ss : List S)
      → Reaches fuel
      → length ss ≤ fuel
      → publish_loop st fuel r (suc (length pre)) (pre ++ s ∷ ss)
        ≡ onto pre (onto (s ∷ []) (reach false ss))
  publish_loop-next fuel pre s ss go h =
      ap (λ i. publish_loop st fuel r i (pre ++ s ∷ ss)) (omega (arith, length-append pre (s ∷ [])))
      ∙ ap (publish_loop st fuel r (length (pre ++ s ∷ []))) (sym (append_assoc pre (s ∷ []) ss))
      ∙ go (pre ++ s ∷ []) ss h
      ∙ onto-append pre (s ∷ []) (reach false ss)

  publish_loop-answered :
      (fuel : ℕ) (pre : List S) (s : S) (ss : List S)
      → Reaches fuel
      → length ss ≤ fuel
      → (o : Sending S)
      → turn fuel (length pre) (pre ++ s ∷ ss) o
        ≡ onto pre (elim o [
          | sent next ↦ onto (next ∷ []) (reach false ss)
          | would_block ↦ onto (s ∷ []) (reach false ss)
          | broken_resource ↦ reach true ss
          | closed_resource ↦ raised (s ∷ ss)
        ])
  publish_loop-answered fuel pre s ss go h (sent next) =
      ap (publish_loop st fuel r (suc (length pre))) (set-append pre s next ss)
      ∙ publish_loop-next fuel pre next ss go h
  publish_loop-answered fuel pre s ss go h would_block = publish_loop-next fuel pre s ss go h
  publish_loop-answered fuel pre s ss go h closed_resource = refl
  publish_loop-answered fuel pre s [] go h broken_resource =
      ap (publish_loop st fuel r (suc (length pre))) (delete_at-append pre s [])
      ∙ publish_loop-end fuel (suc (length pre)) (pre ++ []) (omega (arith, length-append pre []))
  publish_loop-answered fuel pre s (t ∷ ss) go h broken_resource =
      ap (publish_loop st fuel r (suc (length pre))) (delete_at-append pre s (t ∷ ss))
      ∙ publish_loop-next fuel pre t ss go (omega (arith, h))

  publish_loop-reach : (fuel : ℕ) → Reaches fuel
  unfolding publish_loop
  publish_loop-reach zero pre [] h = refl
  publish_loop-reach zero pre (s ∷ ss) h = absurd (omega (arith, h))
  publish_loop-reach (suc fuel) pre [] h =
      publish_loop-end (suc fuel) (length pre) (pre ++ []) (omega (arith, length-append pre []))
  publish_loop-reach (suc fuel) pre (s ∷ ss) h =
      publish_loop-turn fuel pre s ss
      ∙ publish_loop-answered fuel pre s ss (publish_loop-reach fuel) (omega (arith, h))
          (st.send_nowait r s)

abbrev pub subscribers_of : {S : Type 0} → Outcome (Task S) → Outcome (List S)
subscribers_of (done t) = done t.subscribers
subscribers_of (raised t) = raised t.subscribers

-- The loop of `_publish_result`, which walks over a list while `del` shortens it, does this: each
-- subscriber in turn takes the result, one whose buffer is full goes without, one that nobody reads is
-- dropped, and the subscriber after a dropped one is passed over; a subscriber that is closed ends the
-- loop with an exception.
pub publish_result-reach :
    {R S : Type 0} (st : Streams R S) (r : Result R) (t : Task S)
    → subscribers_of (publish_result st r t) ≡ reach st r false t.subscribers
unfolding publish_result
publish_result-reach {S = S} st r t =
    same (publish_loop st (length t.subscribers) r 0 t.subscribers)
    ∙ publish_loop-reach st r (length t.subscribers) [] t.subscribers (omega arith)
    ∙ bare (reach st r false t.subscribers)
  where
    same : (o : Outcome (List S)) → subscribers_of (with_subscribers t o) ≡ o
    same (done subs) = refl
    same (raised subs) = refl

    bare : (o : Outcome (List S)) → onto [] o ≡ o
    bare (done subs) = refl
    bare (raised subs) = refl
