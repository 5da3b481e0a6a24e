-- ===== src/Http/Compress/Rewriting.antt =====
-- localpost/http/compress.py: the headers of a compressed response.
use localpost_py.Prelude.{
  ℕ, ◌≡◌, ◌⊎◌, refl, sym, ◌∙◌, Bool, true, false, some, List, [], ◌∷◌, length, arith, Bool-cases,
  inl, inr, if◌then◌else◌,
}
use localpost_py.Bytes.{Bytes, codes, bytes_eq, lower}
use localpost_py.Bytes.Laws.{bytes_eq_iff, bytes_eq_sym}
use localpost_py.Bytes.Decimal.{print_ℕ}
use localpost_py.Http.Types.{Headers, Response}
use localpost_py.Http.Compress.{
  closing, rewrite_from, rewrite_headers, is_compressible_response, complete,
}

-- the values of a header, in order
unfoldable pub values_of : Bytes → Headers → List Bytes
values_of name [] = []
values_of name ((n, v) ∷ hs) =
    let rest = values_of name hs in if bytes_eq (lower n) name then v ∷ rest else rest

abbrev length_values : ℕ → Bool → List Bytes
length_values new_length cl_replaced = if cl_replaced then [] else print_ℕ new_length ∷ []

rewrite_from-content_length :
    (encoding : Bytes) (new_length : ℕ) (vary_seen cl_replaced : Bool) (hs : Headers)
    → values_of (codes "content-length") (rewrite_from encoding new_length vary_seen cl_replaced hs)
      ≡ length_values new_length cl_replaced
unfolding rewrite_from values_of lower
rewrite_from-content_length encoding new_length true true [] = refl
rewrite_from-content_length encoding new_length true false [] = refl
rewrite_from-content_length encoding new_length false true [] = refl
rewrite_from-content_length encoding new_length false false [] = refl
rewrite_from-content_length encoding new_length vary_seen cl_replaced ((n, v) ∷ hs) = ground (
  arith,
  rewrite_from-content_length encoding new_length vary_seen cl_replaced hs,
  rewrite_from-content_length encoding new_length vary_seen true hs,
  rewrite_from-content_length encoding new_length true cl_replaced hs,
)

-- Whatever `Content-Length` headers there were, `_rewrite_headers` leaves exactly one, with the new
-- length.
pub rewrite_headers-content_length :
    (hs : Headers) (encoding : Bytes) (new_length : ℕ)
    → values_of (codes "content-length") (rewrite_headers hs encoding new_length)
      ≡ print_ℕ new_length ∷ []
unfolding rewrite_headers
rewrite_headers-content_length hs encoding new_length =
    rewrite_from-content_length encoding new_length false false hs

-- the headers that the rewriting may change
abbrev pub is_kept : Bytes → Bool
is_kept name =
    if bytes_eq name (codes "content-length")
    then false
    else if bytes_eq name (codes "vary")
    then false
    else if bytes_eq name (codes "content-encoding")
    then false
    else true

bytes_eq-other : (n a b : Bytes) → bytes_eq n a ≡ true → bytes_eq b a ≡ false → bytes_eq n b ≡ false
bytes_eq-other n a b e f = elim (Bool-cases (bytes_eq n b)) [
  | inl g ↦
      let same : b ≡ a = sym ((bytes_eq_iff n b).0 g) ∙ (bytes_eq_iff n a).0 e in
      ground (arith, f, (bytes_eq_iff b a).1 same)
  | inr g ↦ g
]

module _ (name encoding : Bytes) (new_length : ℕ) (kept : is_kept name ≡ true) where
  closing_cases :
      bytes_eq (codes "content-length") name ≡ false
      → bytes_eq (codes "vary") name ≡ false
      → bytes_eq (codes "content-encoding") name ≡ false
      → (vary_seen cl_replaced : Bool)
      → values_of name (closing encoding new_length vary_seen cl_replaced) ≡ []
  unfolding values_of lower
  closing_cases l v e true true = rw e refl
  closing_cases l v e true false = rw (l, e) refl
  closing_cases l v e false true = rw (v, e) refl
  closing_cases l v e false false = rw (l, v, e) refl

  closing_keeps :
      (vary_seen cl_replaced : Bool)
      → values_of name (closing encoding new_length vary_seen cl_replaced) ≡ []
  unfolding values_of lower
  closing_keeps vary_seen cl_replaced =
      let not_length : bytes_eq (codes "content-length") name ≡ false =
        bytes_eq_sym (codes "content-length") name ∙ ground (arith, kept) in
      let not_vary : bytes_eq (codes "vary") name ≡ false =
        bytes_eq_sym (codes "vary") name ∙ ground (arith, kept) in
      let not_encoding : bytes_eq (codes "content-encoding") name ≡ false =
        bytes_eq_sym (codes "content-encoding") name ∙ ground (arith, kept) in
      closing_cases not_length not_vary not_encoding vary_seen cl_replaced

  rewrite_from_keeps :
      (vary_seen cl_replaced : Bool) (hs : Headers)
      → values_of name (rewrite_from encoding new_length vary_seen cl_replaced hs)
        ≡ values_of name hs
  unfolding rewrite_from values_of
  rewrite_from_keeps vary_seen cl_replaced [] = closing_keeps vary_seen cl_replaced
  rewrite_from_keeps vary_seen cl_replaced ((n, v) ∷ hs) =
      elim (Bool-cases (bytes_eq (lower n) (codes "content-length"))) [
        | inl e ↦
            let other =
              bytes_eq-other (lower n) (codes "content-length") name e (ground (arith, kept)) in
            ground (
              arith,
              e,
              other,
              rewrite_from_keeps vary_seen cl_replaced hs,
              rewrite_from_keeps vary_seen true hs,
            )
        | inr e ↦ elim (Bool-cases (bytes_eq (lower n) (codes "vary"))) [
          | inl f ↦
              let other = bytes_eq-other (lower n) (codes "vary") name f (ground (arith, kept)) in
              rw (e, f, other) (rewrite_from_keeps true cl_replaced hs)
          | inr f ↦ rw (e, f, rewrite_from_keeps vary_seen cl_replaced hs) refl
        ]
      ]

-- Every header but Content-Length, Vary and Content-Encoding keeps its values, in their order.
pub rewrite_headers_keeps :
    (name : Bytes) (hs : Headers) (encoding : Bytes) (new_length : ℕ)
    → is_kept name ≡ true
    → values_of name (rewrite_headers hs encoding new_length) ≡ values_of name hs
unfolding rewrite_headers
rewrite_headers_keeps name hs encoding new_length kept =
    rewrite_from_keeps name encoding new_length kept false false hs

-- What `complete` hands on is the response as it was or, if it is compressed, the encoded body with
-- the same status under a Content-Length that is its length.
pub complete_framed :
    (encode : Bytes → Bytes → Bytes) (encoding : Bytes) (min_size : ℕ) (types : List Bytes)
    (method : Bytes) (response : Response) (body : Bytes)
    → let out = complete encode encoding min_size types method response (some body) in
      (out ≡ (response, some body))
      ⊎ (out.1 ≡ some (encode encoding body))
        × (out.0.status_code ≡ response.status_code)
        × (values_of (codes "content-length") out.0.headers
            ≡ print_ℕ (length (encode encoding body)) ∷ [])
unfolding complete
complete_framed encode encoding min_size types method response body =
    elim (Bool-cases (is_compressible_response response (some body) method min_size types)) [
      | inr e ↦ rw e (inl refl)
      | inl e ↦ rw e (
          inr (
            refl,
            refl,
            rewrite_headers-content_length response.headers encoding
                (length (encode encoding body)),
          ))
    ]
