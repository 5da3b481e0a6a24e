-- ===== src/Scheduler/Delivering.antt =====
-- localpost/scheduler: what the subscribers of a task have when it is done, and a task that is scheduled
-- after it.
use localpost_py.Prelude.{
  ◌-◌, ◌==◌, ◌≡◌, refl, sym, ap, ◌∙◌, subst, Bool, true, false, List, [], ◌∷◌, ◌++◌, map,
  if◌then◌else◌, All,
}
use mathlib.Core.List.{append_assoc, append-nil}
use localpost_py.Scheduler.{
  Result, Streams, Task, Outcome, done, raised, publish_result, enter, exit, call, handle_events,
  leave, run, Template, floordiv,
}
use localpost_py.Scheduler.Triggers.{Yielded, after}
use localpost_py.Scheduler.Documented.{Observer, IsReady, IsDocumented}
use localpost_py.Scheduler.Publishing.{reach, subscribers_of, publish_result-reach}

module _ {R S : Type 0} (st : Streams R S) (ob : Observer R S) (doc : IsDocumented st ob) where
  abbrev pub AllReady : List S → Type 0
  AllReady subs = All (IsReady ob) subs

  -- every subscriber has these results after those that it had
  abbrev Has : List (Result R) → List S → List S → Type 0
  Has rs [] [] = Unit {0}
  Has rs (s ∷ ss) (t ∷ ts) = (ob.received t ≡ ob.received s ++ rs) × Has rs ss ts
  Has rs ss ts = ⊥

  pub record IsReached (r : Result R) (subs : List S) : Type 0 where
    pub next : List S
    pub is_done : reach st r false subs ≡ done next
    pub ready : AllReady next
    pub has : Has (r ∷ []) subs next

  reach-ready : (r : Result R) (subs : List S) → AllReady subs → IsReached r subs
  reach-ready r [] h = record { next = []; is_done = refl; ready = tt; has = tt }
  reach-ready r (s ∷ ss) h =
      let one = doc.accepts r s h.0 in
      let rest = reach-ready r ss h.1 in
      record {
        next = one.next ∷ rest.next;
        is_done = rw (one.is_sent, reach, rest.is_done) refl;
        ready = (one.ready, rest.ready);
        has = (one.last, rest.has);
      }

  Has-nil : (subs : List S) → Has [] subs subs
  Has-nil [] = tt
  Has-nil (s ∷ ss) = (sym (append-nil (ob.received s)), Has-nil ss)

  Has-trans :
      (rs qs : List (Result R)) (xs ys zs : List S)
      → Has rs xs ys
      → Has qs ys zs
      → Has (rs ++ qs) xs zs
  Has-trans rs qs [] [] [] h k = tt
  Has-trans rs qs [] [] (c ∷ zs) h k = absurd k
  Has-trans rs qs [] (b ∷ ys) zs h k = absurd h
  Has-trans rs qs (a ∷ xs) [] zs h k = absurd h
  Has-trans rs qs (a ∷ xs) (b ∷ ys) [] h k = absurd k
  Has-trans rs qs (a ∷ xs) (b ∷ ys) (c ∷ zs) h k = (
    k.0 ∙ ap (λ l. l ++ qs) h.0 ∙ append_assoc (ob.received a) rs qs,
    Has-trans rs qs xs ys zs h.1 k.1,
  )

  Has-closed : (rs : List (Result R)) (xs ys : List S) → Has rs xs ys → Has rs xs (map st.close ys)
  Has-closed rs [] [] h = tt
  Has-closed rs [] (b ∷ ys) h = absurd h
  Has-closed rs (a ∷ xs) [] h = absurd h
  Has-closed rs (a ∷ xs) (b ∷ ys) h = (doc.close_keeps b ∙ h.0, Has-closed rs xs ys h.1)

  -- a task that ended without an exception, with the subscribers that it has then
  pub record IsDone (o : Outcome (Task S)) (rs : List (Result R)) (subs : List S) : Type 0 where
    pub next : Task S
    pub is_done : o ≡ done next
    pub has : Has rs subs next.subscribers

  from_subscribers :
      (o : Outcome (Task S)) (subs : List S)
      → subscribers_of o ≡ done subs
      → (t : Task S) × (o ≡ done t) × (t.subscribers ≡ subs)
  from_subscribers (done t) subs h = (t, refl, cc h)
  from_subscribers (raised t) subs h = cc h

  module _ {E : Type 0} (handle : E → Result R) where
    handle_events-ready :
        (es : List E) (t : Task S)
        → AllReady t.subscribers
        → IsDone (handle_events st handle es t) (map handle es) t.subscribers
    unfolding handle_events call
    handle_events-ready [] t h = record { next = t; is_done = refl; has = Has-nil t.subscribers }
    handle_events-ready (e ∷ es) t h =
        let one = reach-ready (handle e) t.subscribers h in
        let (u, published, subs) =
          from_subscribers (publish_result st (handle e) t) one.next
            (publish_result-reach st (handle e) t ∙ one.is_done) in
        let rest = handle_events-ready es u (subst AllReady (sym subs) one.ready) in
        record {
          next = rest.next;
          is_done = rw (published, handle_events) rest.is_done;
          has =
              Has-trans (handle e ∷ []) (map handle es) t.subscribers u.subscribers
                rest.next.subscribers (subst (Has (handle e ∷ []) t.subscribers) (sym subs) one.has)
                rest.has;
        }

    exit-Has :
        (rs : List (Result R)) (subs : List S) (t : Task S)
        → Has rs subs t.subscribers
        → Has rs subs (exit st t).subscribers
    unfolding exit
    exit-Has rs subs t h = left (t.users - 1 == 0)
      where
        left :
            (b : Bool)
            → Has rs subs
                (if b
                  then record t {
                    users = t.users - 1;
                    finished = true;
                    subscribers = map st.close t.subscribers;
                  }
                  else record t { users = t.users - 1 }).subscribers
        left true = Has-closed rs subs t.subscribers h
        left false = h

    -- A scheduled task handles every event of its trigger and ends without an exception, and each subscriber
    -- that is read all along and whose buffer has no bound has the results of all of them, in order and
    -- once, if all subscribers are so, and streams are as documented.
    pub run-delivers :
        (events : List E) (t : Task S)
        → AllReady t.subscribers
        → IsDone (run st handle events t) (map handle events) t.subscribers
    unfolding run enter
    run-delivers events t h =
        let all = handle_events-ready events (enter t) h in
        record {
          next = exit st all.next;
          is_done = ap (leave st handle) all.is_done;
          has = exit-Has (map handle events) t.subscribers all.next all.has;
        }

abbrev task_of : {S : Type 0} → Task S → Outcome (Task S) → Task S
task_of d (done t) = t
task_of d (raised t) = d

-- the trigger `after(target) // take_first(n)`, by what the stream of `after` has
abbrev pub chain : {R : Type 0} → List (Result R) → (List R → Yielded R) → Template R
chain received first =
    floordiv (record { factory = after received; queue = [] }) (λ source. (first source).events)
