-- ===== src/Scheduler/Lasting.antt =====
-- localpost/scheduler/_scheduler.py: the life of a task that several scheduled tasks may share.
use localpost_py.Prelude.{
  ℕ, ◌-◌, ◌==◌, ◌≡◌, ◌≢◌, refl, sym, ap, ◌∙◌, subst, Bool, true, false, Option, none, some, List,
  [], ◌∷◌, ◌++◌, map, set, get_elem?, if◌then◌else◌, All, All-append, All-set, All-get_elem?,
  length,
}
use mathlib.Core.Option.{some-injective}
use localpost_py.Scheduler.{
  Result, Sending, sent, would_block, broken_resource, closed_resource, Streams, Task, Outcome,
  done, raised, fresh, subscribe, publish_loop, with_subscribers, publish_result, enter, exit,
}
use localpost_py.Scheduler.Documented.{Observer, IsDocumented}
use localpost_py.Scheduler.Publishing.{reach, onto, subscribers_of, publish_result-reach}

module _ {R S : Type 0} (st : Streams R S) (ob : Observer R S) where
  -- What can happen to a task: a subscription, a user that comes or goes, a result, and whatever the
  -- reader of a subscriber's stream does, which leaves the sending end as it is.
  pub data Step : Task S → Task S → Type 0 where
    subscribes : (n : Option ℕ) (t u : Task S) → subscribe st n t ≡ some u → Step t u
    enters : (t : Task S) → Step t (enter t)
    exits : (t : Task S) → t.users ≢ 0 → Step t (exit st t)
    publishes : (r : Result R) (t u : Task S) → publish_result st r t ≡ done u → Step t u
    reads :
        (i : ℕ) (s next : S) (t : Task S)
        → get_elem? t.subscribers i ≡ some s
        → ob.is_open next ≡ ob.is_open s
        → Step t (record t { subscribers = set t.subscribers i next })

  pub data Reached : Task S → Type 0 where
    starts : Reached fresh
    goes_on : {t u : Task S} → Reached t → Step t u → Reached u

  abbrev AllOpen : List S → Type 0
  AllOpen subs = All (λ s. ob.is_open s ≡ true) subs

  abbrev pub IsLasting : Task S → Type 0
  IsLasting t = t.finished ≡ false → AllOpen t.subscribers

  abbrev OpenOutcome : Outcome (List S) → Type 0
  OpenOutcome (done subs) = AllOpen subs
  OpenOutcome (raised subs) = ⊥

  module _ (doc : IsDocumented st ob) where
    onto-OpenOutcome :
        (s : S) (o : Outcome (List S))
        → ob.is_open s ≡ true
        → OpenOutcome o
        → OpenOutcome (onto (s ∷ []) o)
    onto-OpenOutcome s (done subs) h k = (h, k)
    onto-OpenOutcome s (raised subs) h k = k

    -- an open subscriber's answer, with the rest
    answered-OpenOutcome :
        (r : Result R) (s : S) (ss : List S) (o : Sending S)
        → st.send_nowait r s ≡ o
        → ob.is_open s ≡ true
        → OpenOutcome (reach st r false ss)
        → OpenOutcome (reach st r true ss)
        → OpenOutcome (elim o [
          | sent next ↦ onto (next ∷ []) (reach st r false ss)
          | would_block ↦ onto (s ∷ []) (reach st r false ss)
          | broken_resource ↦ reach st r true ss
          | closed_resource ↦ raised (s ∷ ss)
        ])
    answered-OpenOutcome r s ss (sent next) e h k l =
        onto-OpenOutcome next (reach st r false ss) (doc.sent_open r s next h e) k
    answered-OpenOutcome r s ss would_block e h k l = onto-OpenOutcome s (reach st r false ss) h k
    answered-OpenOutcome r s ss broken_resource e h k l = l
    answered-OpenOutcome r s ss closed_resource e h k l = doc.open_sends r s h e

    reach-OpenOutcome :
        (r : Result R) (b : Bool) (subs : List S) → AllOpen subs → OpenOutcome (reach st r b subs)
    reach-OpenOutcome r b [] h = tt
    reach-OpenOutcome r true (s ∷ ss) h =
        onto-OpenOutcome s (reach st r false ss) h.0 (reach-OpenOutcome r false ss h.1)
    reach-OpenOutcome r false (s ∷ ss) h =
        answered-OpenOutcome r s ss (st.send_nowait r s) refl h.0 (reach-OpenOutcome r false ss h.1)
          (reach-OpenOutcome r true ss h.1)

    publish_result-open :
        (r : Result R) (t : Task S)
        → AllOpen t.subscribers
        → OpenOutcome (subscribers_of (publish_result st r t))
    publish_result-open r t h =
        subst OpenOutcome (sym (publish_result-reach st r t))
          (reach-OpenOutcome r false t.subscribers h)

  abbrev subscribed : Bool → Option ℕ → Task S → Option (Task S)
  subscribed b n t =
      if b then none else some (record t { subscribers = t.subscribers ++ st.create n ∷ [] })

  subscribed-some :
      (b : Bool) (n : Option ℕ) (t u : Task S)
      → subscribed b n t ≡ some u
      → (t.finished ≡ u.finished) × (t.subscribers ++ st.create n ∷ [] ≡ u.subscribers)
  subscribed-some true n t u h = cc h
  subscribed-some false n t u h =
      let same =
        some-injective (record t { subscribers = t.subscribers ++ st.create n ∷ [] }) u h in
      (ap (λ v. v.finished) same, ap (λ v. v.subscribers) same)

  abbrev finished_of : Outcome (Task S) → Bool
  finished_of (done t) = t.finished
  finished_of (raised t) = t.finished

  publish_result-finished :
      (r : Result R) (t : Task S) → finished_of (publish_result st r t) ≡ t.finished
  unfolding publish_result
  publish_result-finished r t = kept (publish_loop st (length t.subscribers) r 0 t.subscribers)
    where
      kept : (o : Outcome (List S)) → finished_of (with_subscribers t o) ≡ t.finished
      kept (done subs) = refl
      kept (raised subs) = refl

  IsLasting-left :
      (b : Bool) (n : ℕ) (subs : List S) (t : Task S)
      → IsLasting t
      → IsLasting (
          if b
          then record t { users = n; finished = true; subscribers = subs }
          else record t { users = n })
  IsLasting-left true n subs t h f = cc f
  IsLasting-left false n subs t h f = h f

  Step-IsLasting : (t u : Task S) → IsDocumented st ob → Step t u → IsLasting t → IsLasting u
  unfolding enter exit subscribe
  Step-IsLasting t u doc (subscribes n _ _ e) h f =
      let (same, subs) = subscribed-some t.finished n t u e in
      subst AllOpen subs (
        All-append (λ s. ob.is_open s ≡ true) t.subscribers (st.create n ∷ []) (h (same ∙ f))
          (doc.created_open n, tt))
  Step-IsLasting t u doc (enters _) h f = h f
  Step-IsLasting t u doc (exits _ some_user) h f =
      IsLasting-left (t.users - 1 == 0) (t.users - 1) (map st.close t.subscribers) t h f
  Step-IsLasting t u doc (publishes r _ _ e) h f =
      subst (λ o. OpenOutcome (subscribers_of o)) e
        (publish_result-open doc r t (h (sym (publish_result-finished r t) ∙ ap finished_of e ∙ f)))
  Step-IsLasting t u doc (reads i s next _ e same) h f =
      All-set (λ s. ob.is_open s ≡ true) t.subscribers i next (h f)
        (same ∙ All-get_elem? (λ s. ob.is_open s ≡ true) t.subscribers i (h f) e)

  Reached-IsLasting : (t : Task S) → IsDocumented st ob → Reached t → IsLasting t
  Reached-IsLasting t doc starts f = tt
  Reached-IsLasting t doc (goes_on {t = u} before step) f =
      Step-IsLasting u t doc step (Reached-IsLasting u doc before) f

abbrev pub is_raised : {A : Type 0} → Outcome A → Bool
is_raised (done x) = false
is_raised (raised x) = true

-- As long as the last user of a task has not left, however subscriptions, users, results and readers
-- come and go, publishing a result ends without an exception, if streams are as documented.
pub Reached-publish_result :
    {R S : Type 0} (st : Streams R S) (ob : Observer R S) (r : Result R) (t : Task S)
    → IsDocumented st ob
    → Reached st ob t
    → t.finished ≡ false
    → is_raised (publish_result st r t) ≡ false
Reached-publish_result {S = S} st ob r t doc reached f =
    open_done (publish_result st r t)
      (publish_result-open st ob doc r t (Reached-IsLasting st ob t doc reached f))
  where
    open_done : (o : Outcome (Task S)) → OpenOutcome st ob (subscribers_of o) → is_raised o ≡ false
    open_done (done u) h = refl
    open_done (raised u) h = absurd h
