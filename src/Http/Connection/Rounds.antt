-- ===== src/Http/Connection/Rounds.antt =====
-- localpost/http/server_httptools.py: how `_loop` ends.
use localpost_py.Prelude.{
  ℕ, ◌≡◌, ◌⊎◌, inl, inr, refl, sym, subst, Bool, true, false, not, ◌||◌, Option, none, some, List,
  [], ◌∷◌, if◌then◌else◌, Bool-cases,
}
use localpost_py.Http.Connection.{
  Head, Exchange, Conn, Callback, Recv, would_block, end_of_stream, data_of, Ended, returned,
  protocol_error, too_large, failed_assertion, Fed, fed, fed_error, fed_too_large, Turn, stops,
  reads, asserts, settle, close, reset_for_next_request, and_feed, feed, loop,
}

-- `left` is what comes after a `recv` that would block
abbrev pub IsAfterBlock : List Recv → List Recv → Type 0
IsAfterBlock [] left = left ≡ []
IsAfterBlock (would_block ∷ rs) left = (left ≡ rs) ⊎ IsAfterBlock rs left
IsAfterBlock (r ∷ rs) left = IsAfterBlock rs left

abbrev IsSettled : List Recv → Ended → Type 0
IsSettled rs (returned c left) =
    c.tracked ≡ true → (c.message_complete ≡ false) × IsAfterBlock rs left
IsSettled rs e = Unit {0}

abbrev IsSettledTurn : Turn → Type 0
IsSettledTurn (stops c) = c.tracked ≡ false
IsSettledTurn (reads c) = c.message_complete ≡ false
IsSettledTurn (asserts c) = Unit {0}

settle-IsSettledTurn : (c : Conn) → IsSettledTurn (settle c)
unfolding settle close reset_for_next_request
settle-IsSettledTurn c = elim (Bool-cases c.tracked) [
  | inr g ↦ rw g refl
  | inl g ↦ elim (Bool-cases c.message_complete) [
    | inr h ↦ rw (g, h) refl
    | inl h ↦ rw (g, h) (of_exchange c.ctx)
  ]
]
  where
    ends :
        (b : Bool) → IsSettledTurn (if b then stops (close c) else reads (reset_for_next_request c))
    ends true = refl
    ends false = refl

    of_exchange :
        (o : Option Exchange)
        → IsSettledTurn (elim o [
          | none ↦ asserts c
          | some x ↦
              if c.close_after_response || not x.keep_alive
              then stops (close c)
              else reads (reset_for_next_request c)
        ])
    of_exchange none = tt
    of_exchange (some x) = ends (c.close_after_response || not x.keep_alive)

IsSettled-fed :
    (ks : List Callback) (is_bad : Bool) (rs : List Recv) (e : Ended)
    → IsSettled rs e
    → IsSettled (data_of ks is_bad ∷ rs) e
IsSettled-fed ks is_bad rs (returned c left) h = h
IsSettled-fed ks is_bad rs (protocol_error c) h = tt
IsSettled-fed ks is_bad rs (too_large c) h = tt
IsSettled-fed ks is_bad rs (failed_assertion c) h = tt

module _ (max_size : ℕ) (handler : Head → Conn → Conn) (dispatch : Conn → Conn) where
  again-IsSettled :
      (ks : List Callback) (is_bad : Bool) (rs : List Recv) (f : Fed)
      → ((c : Conn) → IsSettled rs (loop max_size handler dispatch rs c))
      → IsSettled (data_of ks is_bad ∷ rs) (and_feed (loop max_size handler dispatch rs) f)
  again-IsSettled ks is_bad rs (fed c) go =
      IsSettled-fed ks is_bad rs (loop max_size handler dispatch rs c) (go c)
  again-IsSettled ks is_bad rs (fed_error c) go = tt
  again-IsSettled ks is_bad rs (fed_too_large c) go = tt

  loop-IsSettled : (rs : List Recv) (c : Conn) → IsSettled rs (loop max_size handler dispatch rs c)
  unfolding loop
  loop-IsSettled [] c = last (settle c) (settle-IsSettledTurn c)
    where
      last :
          (t : Turn)
          → IsSettledTurn t
          → IsSettled [] (elim t [
            | stops d ↦ returned d []
            | asserts d ↦ failed_assertion d
            | reads d ↦ returned d []
          ])
      last (stops d) h = λ k. cc (sym h, k)
      last (reads d) h = λ k. (h, refl)
      last (asserts d) h = tt
  loop-IsSettled (r ∷ rs) c = turn r (settle c) (settle-IsSettledTurn c) (loop-IsSettled rs)
    where
      turn :
          (r : Recv) (t : Turn)
          → IsSettledTurn t
          → ((e : Conn) → IsSettled rs (loop max_size handler dispatch rs e))
          → IsSettled (r ∷ rs) (elim t [
            | stops d ↦ returned d (r ∷ rs)
            | asserts d ↦ failed_assertion d
            | reads d ↦ elim r [
              | would_block ↦ returned d rs
              | end_of_stream ↦ returned (close d) rs
              | data_of ks is_bad ↦
                  and_feed
                    (loop max_size handler dispatch rs)
                    (feed max_size handler dispatch ks is_bad (record d { idle = false }))
            ]
          ])
      turn r (stops d) h go = λ k. cc (sym h, k)
      turn r (asserts d) h go = tt
      turn would_block (reads d) h go = λ k. (h, inl refl)
      turn end_of_stream (reads d) h go = λ k. unfold close in cc k
      turn (data_of ks is_bad) (reads d) h go =
          again-IsSettled ks is_bad rs
            (feed max_size handler dispatch ks is_bad (record d { idle = false })) go

  -- When `_loop` returns and the connection is still the selector's, it has read all that the socket gave
  -- up to a `recv` that would block, and the connection does not stand at a complete message.
  pub loop-returned :
      (rs left : List Recv) (c d : Conn)
      → loop max_size handler dispatch rs c ≡ returned d left
      → d.tracked ≡ true
      → (d.message_complete ≡ false) × IsAfterBlock rs left
  loop-returned rs left c d e = subst (IsSettled rs) e (loop-IsSettled rs c)
