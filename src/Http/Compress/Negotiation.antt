-- ===== src/Http/Compress/Negotiation.antt =====
-- localpost/http/compress.py: `_negotiate` against a description with no dictionary and no loop state.
use localpost_py.Prelude.{
  ◌≡◌, refl, sym, ◌∙◌, Bool, false, Option, none, some, List, [], ◌∷◌, arith, Bool-cases, inl, inr,
  All, if◌then◌else◌,
}
use localpost_py.Bytes.{Bytes, codes, bytes_eq, split}
use localpost_py.Bytes.Laws.{bytes_eq_iff}
use localpost_py.Http.Compress.{
  Floats, tokens_of, get_q, set_q, read_tokens, or_star, allows, pick, negotiate,
}

-- what the last token of the name says
pub last_q : {Q : Type 0} → Bytes → List (Bytes × Q) → Option Q
last_q name [] = none
last_q name ((n, q) ∷ tokens) =
    or_star (last_q name tokens) (if bytes_eq name n then some q else none)

-- The client accepts an encoding if the last element that names it, or in the absence of one the
-- last `*`, has a positive q.
pub accepts : {Q : Type 0} → Floats Q → List (Bytes × Q) → Bytes → Bool
unfolding last_q
accepts floats tokens name =
    allows floats (or_star (last_q name tokens) (last_q (codes "*") tokens))

abbrev pub find : (Bytes → Bool) → List Bytes → Option Bytes
find p [] = none
find p (x ∷ xs) = if p x then some x else find p xs

module _ {Q : Type 0} where
  or_star_assoc : (a b c : Option Q) → or_star (or_star a b) c ≡ or_star a (or_star b c)
  or_star_assoc none b c = refl
  or_star_assoc (some q) b c = refl

  get_q-set_q :
      (name n : Bytes) (q : Q) (qs : List (Bytes × Q))
      → get_q name (set_q n q qs)
        ≡ or_star (if bytes_eq name n then some q else none) (get_q name qs)
  get_q-set_q name n q [] = ground arith
  get_q-set_q name n q ((m, p) ∷ qs) = elim (Bool-cases (bytes_eq n m)) [
    | inl e ↦
        let same : n ≡ m = (bytes_eq_iff n m).0 e in
        rw (e, same) (elim (Bool-cases (bytes_eq name m)) [ inl f ↦ rw f refl | inr f ↦ rw f refl ])
    | inr e ↦ elim (Bool-cases (bytes_eq name m)) [
      | inl f ↦
          let same : name ≡ m = (bytes_eq_iff name m).0 f in
          elim (Bool-cases (bytes_eq name n)) [
            | inl g ↦
                let other : n ≡ m = sym ((bytes_eq_iff name n).0 g) ∙ same in
                ground (arith, e, (bytes_eq_iff n m).1 other)
            | inr g ↦ rw (e, f, g) refl
          ]
      | inr f ↦ rw (e, f, get_q-set_q name n q qs) refl
    ]
  ]

  read_tokens-get_q :
      (tokens qs : List (Bytes × Q)) (star_q : Option Q) (name : Bytes)
      → bytes_eq name (codes "*") ≡ false
      → get_q name (read_tokens tokens qs star_q).0 ≡ or_star (last_q name tokens) (get_q name qs)
  unfolding read_tokens last_q
  read_tokens-get_q [] qs star_q name h = refl
  read_tokens-get_q ((n, q) ∷ tokens) qs star_q name h =
      elim (Bool-cases (bytes_eq n (codes "*"))) [
        | inl e ↦
            let star : n ≡ codes "*" = (bytes_eq_iff n (codes "*")).0 e in
            rw (e, star, h, or_star_assoc (last_q name tokens) none (get_q name qs))
              (read_tokens-get_q tokens qs (some q) name h)
        | inr e ↦
            rw
              (
                e,
                or_star_assoc (last_q name tokens) (if bytes_eq name n then some q else none)
                    (get_q name qs),
                ← get_q-set_q name n q qs,
              )
              (read_tokens-get_q tokens (set_q n q qs) star_q name h)
      ]

  read_tokens-star :
      (tokens qs : List (Bytes × Q)) (star_q : Option Q)
      → (read_tokens tokens qs star_q).1 ≡ or_star (last_q (codes "*") tokens) star_q
  unfolding read_tokens last_q
  read_tokens-star [] qs star_q = refl
  read_tokens-star ((n, q) ∷ tokens) qs star_q = elim (Bool-cases (bytes_eq n (codes "*"))) [
    | inl e ↦
        let star : n ≡ codes "*" = (bytes_eq_iff n (codes "*")).0 e in
        rw (e, star, or_star_assoc (last_q (codes "*") tokens) (some q) star_q)
          (read_tokens-star tokens qs (some q))
    | inr e ↦
        rw (e, star_differs n e, or_star_assoc (last_q (codes "*") tokens) none star_q)
          (read_tokens-star tokens (set_q n q qs) star_q)
  ]
    where
      star_differs : (n : Bytes) → bytes_eq n (codes "*") ≡ false → bytes_eq (codes "*") n ≡ false
      star_differs [] e = refl
      star_differs (c ∷ []) e = ground (arith, e)
      star_differs (c ∷ d ∷ n) e = ground (arith, e)

  or_star-none : (a : Option Q) → or_star a none ≡ a
  or_star-none none = refl
  or_star-none (some q) = refl

  allows-accepts :
      (floats : Floats Q) (tokens : List (Bytes × Q)) (p : Bytes)
      → bytes_eq p (codes "*") ≡ false
      → allows floats
          (or_star (get_q p (read_tokens tokens [] none).0) (read_tokens tokens [] none).1)
        ≡ accepts floats tokens p
  unfolding accepts
  allows-accepts floats tokens p h =
      rw
        (
          read_tokens-get_q tokens [] none p h,
          read_tokens-star tokens [] none,
          or_star-none (last_q p tokens),
          or_star-none (last_q (codes "*") tokens),
        )
        refl

  pick-find :
      (floats : Floats Q) (tokens : List (Bytes × Q)) (prefs : List Bytes)
      → All (λ p. bytes_eq p (codes "*") ≡ false) prefs
      → pick floats (read_tokens tokens [] none).0 (read_tokens tokens [] none).1 prefs
        ≡ find (accepts floats tokens) prefs
  unfolding pick
  pick-find floats tokens [] h = refl
  pick-find floats tokens (p ∷ ps) h =
      rw (allows-accepts floats tokens p h.0, pick-find floats tokens ps h.1) refl

  -- `_negotiate` returns the first of the server's encodings, none of which is `*`, that the client
  -- accepts: the last element that names it has a positive q or, if none names it, the last `*` has.
  pub negotiate-find :
      (floats : Floats Q) (accept_encoding : Bytes) (server_pref : List Bytes)
      → All (λ p. bytes_eq p (codes "*") ≡ false) server_pref
      → negotiate floats accept_encoding server_pref
        ≡ find (accepts floats (tokens_of floats (split b',' accept_encoding))) server_pref
  unfolding negotiate
  negotiate-find floats accept_encoding server_pref h =
      pick-find floats (tokens_of floats (split b',' accept_encoding)) server_pref h
