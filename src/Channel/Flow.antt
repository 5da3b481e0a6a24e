-- ===== src/Channel/Flow.antt =====
-- localpost/threadtools/_channel.py: what one critical section does to the buffer.
use mathlib.Core.List.{append-nil}
use localpost_py.Prelude.{
  ℕ, zero, suc, ◌≤◌, ◌+◌, ◌≡◌, refl, sym, ap, ◌∙◌, subst, Option-cases, Bool, true, false, Option,
  none, some, List, [], ◌∷◌, ◌++◌, arith, length, length-append, Bool-cases, inl, inr, ◌⊎◌,
}
use localpost_py.Channel.{
  Channel, Error, Result, ok, err, Pass, raised, blocked, passed, is_rendezvous, has_room, leave,
  clone_send, clone_receive, close_send, close_receive, stop_waiting, put_await, can_put,
  can_put_nowait, append_item, put_nowait, put_enter, take, get_nowait, get,
}

-- A bounded buffer holds no more than its capacity.
abbrev pub Fits : Option ℕ → ℕ → Type 0
Fits none n = Unit {0}
Fits (some zero) n = Unit {0}
Fits (some (suc cap)) n = n ≤ suc cap

-- No more handoffs are pending than there are items, none at all but in rendezvous mode, and a
-- bounded buffer is within its capacity.
pub record IsSound {ℓ} {A : Type ℓ} (c : Channel A) : Type 0 where
  pub handoffs : c.pending_handoffs ≤ length c.buffer
  pub no_handoffs : is_rendezvous c.capacity ≡ false → c.pending_handoffs ≡ 0
  pub within : Fits c.capacity (length c.buffer)

-- From `c` to `c'` the items `ins` came in at the end and `outs` went out in front.
pub record Flow {A : Type 0} (c c' : Channel A) (ins outs : List A) : Type 0 where
  pub capacity : c'.capacity ≡ c.capacity
  pub items : c.buffer ++ ins ≡ outs ++ c'.buffer
  pub consumed :
      is_rendezvous c.capacity ≡ true → c'.items_consumed ≡ c.items_consumed + length outs
  pub sound : IsSound c → IsSound c'

abbrev pub EnterFlow : {A : Type 0} → A → Channel A → Pass ℕ × Channel A → Type 0
EnterFlow item c (passed target, c') =
    Flow c c' (item ∷ []) []
    × (is_rendezvous c.capacity ≡ true → target ≡ c.items_consumed + (length c.buffer + 1))
EnterFlow item c (raised e, c') = Flow c c' [] []
EnterFlow item c (blocked, c') = Flow c c' [] []

abbrev pub AwaitFlow : {A : Type 0} → ℕ → Channel A → Pass Bool × Channel A → Type 0
AwaitFlow target c (passed true, c') = Flow c c' [] [] × (target ≤ c.items_consumed)
AwaitFlow target c (passed false, c') = Flow c c' [] []
AwaitFlow target c (raised e, c') = Flow c c' [] []
AwaitFlow target c (blocked, c') = Flow c c' [] []

abbrev pub GetFlow : {A : Type 0} → Channel A → Pass A × Channel A → Type 0
GetFlow c (passed item, c') = Flow c c' [] (item ∷ [])
GetFlow c (raised e, c') = Flow c c' [] []
GetFlow c (blocked, c') = Flow c c' [] []

abbrev pub PutNowaitFlow : {A : Type 0} → A → Channel A → Result (Unit {0}) × Channel A → Type 0
PutNowaitFlow item c (ok u, c') = Flow c c' (item ∷ []) []
PutNowaitFlow item c (err e, c') = Flow c c' [] []

abbrev pub GetNowaitFlow : {A : Type 0} → Channel A → Result A × Channel A → Type 0
GetNowaitFlow c (ok item, c') = Flow c c' [] (item ∷ [])
GetNowaitFlow c (err e, c') = Flow c c' [] []

module _ {A : Type 0} where
  -- the same buffer, budget and count of items
  Flow-still :
      (c c' : Channel A)
      → c'.capacity ≡ c.capacity
      → c'.buffer ≡ c.buffer
      → c'.pending_handoffs ≡ c.pending_handoffs
      → c'.items_consumed ≡ c.items_consumed
      → Flow c c' [] []
  Flow-still c c' k b p i = record {
    capacity = k;
    items = rw (append-nil, b);
    consumed = λ r. omega arith;
    sound = λ s. record {
      handoffs = rw (b, p) s.handoffs;
      no_handoffs = λ r. cc (s.no_handoffs (sym (ap is_rendezvous k) ∙ r));
      within = rw (k, b) s.within;
    };
  }

  pub leave-Flow : (c : Channel A) → Flow c (leave c) [] []
  unfolding leave
  leave-Flow c = Flow-still c (leave c) (ground arith) (ground arith) (ground arith) (ground arith)

  pub clone_send-Flow : (b : Bool) (c : Channel A) → Flow c (clone_send b c).1 [] []
  unfolding clone_send leave
  clone_send-Flow b c = Flow-still c _ (ground arith) (ground arith) (ground arith) (ground arith)

  pub clone_receive-Flow : (b : Bool) (c : Channel A) → Flow c (clone_receive b c).1 [] []
  unfolding clone_receive leave
  clone_receive-Flow b c =
      Flow-still c _ (ground arith) (ground arith) (ground arith) (ground arith)

  pub close_send-Flow : (b : Bool) (c : Channel A) → Flow c (close_send b c) [] []
  unfolding close_send leave
  close_send-Flow b c = Flow-still c _ (ground arith) (ground arith) (ground arith) (ground arith)

  pub close_receive-Flow : (b : Bool) (c : Channel A) → Flow c (close_receive b c) [] []
  unfolding close_receive leave
  close_receive-Flow b c =
      Flow-still c _ (ground arith) (ground arith) (ground arith) (ground arith)

  pub stop_waiting-Flow : (c : Channel A) → Flow c (stop_waiting c) [] []
  unfolding stop_waiting leave
  stop_waiting-Flow c = Flow-still c _ (ground arith) (ground arith) (ground arith) (ground arith)

  Flow-leave :
      (c c' : Channel A) (ins outs : List A) → Flow c c' ins outs → Flow c (leave c') ins outs
  unfolding leave
  Flow-leave c c' ins outs f = record {
    capacity = ground (arith, f.capacity);
    items = ground (arith, f.items);
    consumed = λ r. ground (arith, f.consumed r);
    sound = λ s.
        let t = f.sound s in
        record {
          handoffs = ground (arith, t.handoffs);
          no_handoffs = keep_none t.no_handoffs;
          within = ground (arith, t.within);
        };
  }
    where
      keep_none :
          (is_rendezvous c'.capacity ≡ false → c'.pending_handoffs ≡ 0)
          → is_rendezvous (leave c').capacity ≡ false
          → (leave c').pending_handoffs ≡ 0
      keep_none g r = ground (arith, g (ground arith))

  blocked-Flow :
      (c : Channel A) (t : ℕ) → Flow c (record c { not_full = c.not_full ++ t ∷ [] }) [] []
  blocked-Flow c t = Flow-still c _ refl refl refl refl

  pub put_await-Flow :
      (closed late : Bool) (target t : ℕ) (c : Channel A)
      → AwaitFlow target c (put_await closed late target t c)
  unfolding put_await
  put_await-Flow true late target t c = leave-Flow c
  put_await-Flow false late target t c = ground (arith, leave-Flow c, blocked-Flow c t)

-- the tests of `put` and `put_nowait` leave room for one more
room_Fits :
    (capacity : Option ℕ) (n : ℕ)
    → is_rendezvous capacity ≡ false
    → has_room capacity n ≡ true
    → Fits capacity (n + 1)
unfolding is_rendezvous has_room
room_Fits none n r h = tt
room_Fits (some zero) n r h = tt
room_Fits (some (suc n')) n r h = ground arith

rendezvous_Fits : (capacity : Option ℕ) (n : ℕ) → is_rendezvous capacity ≡ true → Fits capacity n
unfolding is_rendezvous
rendezvous_Fits none n r = tt
rendezvous_Fits (some zero) n r = tt
rendezvous_Fits (some (suc n')) n r = ground arith

Fits-smaller : (capacity : Option ℕ) (n : ℕ) → Fits capacity (suc n) → Fits capacity n
Fits-smaller none n h = tt
Fits-smaller (some zero) n h = tt
Fits-smaller (some (suc m)) n h = omega arith

-- the three outcomes of a test that may raise
tested : (r : Result Bool) → (((e : Error) × (r ≡ err e)) ⊎ (r ≡ ok false)) ⊎ (r ≡ ok true)
tested (err e) = inl (inl (e, refl))
tested (ok false) = inl (inr refl)
tested (ok true) = inr refl

module _ {A : Type 0} (notify : List ℕ → List ℕ) where
  append_item-Flow :
      (handoff : Bool) (item : A) (c : Channel A)
      → Fits c.capacity (length c.buffer + 1)
      → (is_rendezvous c.capacity ≡ false → handoff ≡ false)
      → Flow c (append_item notify handoff item c) (item ∷ []) []
  unfolding append_item
  append_item-Flow handoff item c room none_else = record {
    capacity = refl;
    items = refl;
    consumed = λ r. omega arith;
    sound = λ s. record {
      handoffs = ground (arith, s.handoffs, length-append c.buffer (item ∷ []));
      no_handoffs = λ r. rw (none_else r) (s.no_handoffs r);
      within = rw (length-append c.buffer (item ∷ [])) room;
    };
  }

  can_put-Fits : (c : Channel A) → can_put c ≡ ok true → Fits c.capacity (length c.buffer + 1)
  unfolding can_put
  can_put-Fits c e = elim (Bool-cases (is_rendezvous c.capacity)) [
    | inl r ↦ rendezvous_Fits _ _ r
    | inr r ↦ room_Fits _ _ r (ground arith)
  ]

  can_put_nowait-Fits :
      (c : Channel A) → can_put_nowait c ≡ ok true → Fits c.capacity (length c.buffer + 1)
  unfolding can_put_nowait
  can_put_nowait-Fits c e = elim (Bool-cases (is_rendezvous c.capacity)) [
    | inl r ↦ rendezvous_Fits _ _ r
    | inr r ↦ room_Fits _ _ r (ground arith)
  ]

  entered-Flow :
      (handoff : Bool) (item : A) (c : Channel A)
      → Fits c.capacity (length c.buffer + 1)
      → (is_rendezvous c.capacity ≡ false → handoff ≡ false)
      → Flow c (leave (append_item notify handoff item c)) (item ∷ []) []
  entered-Flow handoff item c room none_else =
      Flow-leave c _ _ _ (append_item-Flow handoff item c room none_else)

  pub put_enter-Flow :
      (closed late : Bool) (item : A) (t : ℕ) (c : Channel A)
      → EnterFlow item c (put_enter notify closed late item t c)
  unfolding put_enter
  put_enter-Flow true late item t c = leave-Flow c
  put_enter-Flow false late item t c = elim (tested (can_put c)) [
    | inl (inl (x, e)) ↦ rw (e, put_enter) (leave-Flow c)
    | inl (inr e) ↦ rw (e, put_enter) (ground (arith, leave-Flow c, blocked-Flow c t))
    | inr e ↦
        rw (e, put_enter)
          (elim (Bool-cases (is_rendezvous c.capacity)) [
            | inl r ↦ rw r (entered-Flow _ item c (can_put-Fits c e) (λ q. cc), λ _. refl)
            | inr r ↦ rw r (entered-Flow false item c (can_put-Fits c e) (λ _. refl), λ x. cc)
          ])
  ]

  pub put_nowait-Flow :
      (closed : Bool) (item : A) (c : Channel A)
      → PutNowaitFlow item c (put_nowait notify closed item c)
  unfolding put_nowait
  put_nowait-Flow true item c = leave-Flow c
  put_nowait-Flow false item c = elim (tested (can_put_nowait c)) [
    | inl (inl (x, e)) ↦ rw (e, put_nowait) (leave-Flow c)
    | inl (inr e) ↦ rw (e, put_nowait) (leave-Flow c)
    | inr e ↦ rw (e, put_nowait) (entered-Flow _ item c (can_put_nowait-Fits c e) (λ r. r))
  ]

  -- what `_take` finds, and does
  abbrev TakeFlow : Channel A → Option (A × Channel A) → Type 0
  TakeFlow c none = c.buffer ≡ []
  TakeFlow c (some (item, c')) = Flow c c' [] (item ∷ [])

  take_cases : (c : Channel A) (xs : List A) → c.buffer ≡ xs → TakeFlow c (take notify c)
  unfolding take
  take_cases c [] e = rw (e, take) refl
  take_cases c (x ∷ xs) e = elim (Bool-cases (is_rendezvous c.capacity)) [
    | inl r ↦
        rw (e, take, r)
          (record {
            capacity = refl;
            items = append-nil (x ∷ xs);
            consumed = λ _. refl;
            sound = λ s. record {
              handoffs = omega (arith, s.handoffs);
              no_handoffs = λ q. cc;
              within = rendezvous_Fits _ _ r;
            };
          })
    | inr r ↦
        rw (e, take, r)
          (record {
            capacity = refl;
            items = append-nil (x ∷ xs);
            consumed = λ q. cc;
            sound = λ s. record {
              handoffs = omega (arith, s.no_handoffs r);
              no_handoffs = s.no_handoffs;
              within = Fits-smaller c.capacity (length xs) s.within;
            };
          })
  ]

  take-Flow : (c : Channel A) → TakeFlow c (take notify c)
  take-Flow c = take_cases c c.buffer refl

  blocked_get-Flow :
      (c : Channel A) (t : ℕ)
      → Flow c
          (record c {
            waiting_receivers = c.waiting_receivers + 1;
            not_empty = c.not_empty ++ t ∷ [];
          })
          []
          []
  blocked_get-Flow c t = Flow-still c _ refl refl refl refl

  -- `get` and `get_nowait` go by what `take` gives
  pub get-Flow :
      (closed late : Bool) (t : ℕ) (c : Channel A) → GetFlow c (get notify closed late t c)
  unfolding get
  get-Flow true late t c = leave-Flow c
  get-Flow false late t c = elim (Option-cases (take notify c)) [
    | inl e ↦ rw (e, get) (ground (arith, leave-Flow c, blocked_get-Flow c t))
    | inr ((item, c'), e) ↦ rw (e, get) (Flow-leave c c' _ _ (subst (TakeFlow c) e (take-Flow c)))
  ]

  pub get_nowait-Flow :
      (closed : Bool) (c : Channel A) → GetNowaitFlow c (get_nowait notify closed c)
  unfolding get_nowait
  get_nowait-Flow true c = leave-Flow c
  get_nowait-Flow false c = elim (Option-cases (take notify c)) [
    | inl e ↦ rw (e, get_nowait) (ground (arith, leave-Flow c))
    | inr ((item, c'), e) ↦
        rw (e, get_nowait) (Flow-leave c c' _ _ (subst (TakeFlow c) e (take-Flow c)))
  ]
