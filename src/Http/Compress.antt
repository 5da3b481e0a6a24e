-- ===== src/Http/Compress.antt =====
-- localpost/http/compress.py: the negotiation of an encoding, the choice of responses to compress,
-- and the rewritten headers. The compressors are third-party code: functions that are arguments. So
-- are Python's floats, as `Floats`. A name is its bytes: those that are not ASCII never equal an
-- encoding's name, as the source's replacement character does not.
pub mod Negotiation
pub mod Eligibility
pub mod Rewriting
pub mod Streaming
pub mod Arguments
mod Tests
use localpost_py.Prelude.{
  ℕ, Bool, true, false, not, ◌&&◌, ◌||◌, Option, none, some, List, [], ◌∷◌, ◌++◌, length, ltb, leb,
  ◌==◌, if◌then◌else◌,
}
use localpost_py.Bytes.{
  Bytes, codes, bytes_eq, is_empty, lower, strip, partition, split, contains, join,
}
use localpost_py.Bytes.Decimal.{print_ℕ}
use localpost_py.Http.Types.{Headers, Request, Response}

-- what the negotiation does with floats; `none` is the `ValueError`
pub record Floats (Q : Type 0) : Type 0 where
  pub one : Q
  pub zero : Q
  pub parse : Bytes → Option Q
  pub is_positive : Q → Bool

abbrev value_or {ℓ} : {A : Type ℓ} → A → Option A → A
value_or a none = a
value_or a (some b) = b

module _ {Q : Type 0} (floats : Floats Q) where
  -- the loop over the parameters, which a `q` ends
  q_of : List Bytes → Q
  q_of [] = floats.one
  q_of (param ∷ params) =
      let (k, kv_sep, v) = partition b'=' (strip param) in
      let rest = q_of params in
      if kv_sep && bytes_eq (lower (strip k)) (codes "q")
      then value_or floats.zero (floats.parse (strip v))
      else rest

  -- one element of the header, if it is not empty
  pub token_of : Bytes → Option (Bytes × Q)
  unfolding q_of
  token_of raw =
      let (name_b, sep, params) = partition b';' (strip raw) in
      if is_empty (strip raw)
      then none
      else some (lower (strip name_b), if sep then q_of (split b';' params) else floats.one)

  pub tokens_of : List Bytes → List (Bytes × Q)
  tokens_of [] = []
  tokens_of (raw ∷ raws) = elim (token_of raw) [
    | none ↦ tokens_of raws
    | some token ↦ token ∷ tokens_of raws
  ]

abbrev pub get_q : {Q : Type 0} → Bytes → List (Bytes × Q) → Option Q
get_q name [] = none
get_q name ((n, q) ∷ qs) = if bytes_eq name n then some q else get_q name qs

-- `qs[name] = q`
abbrev pub set_q : {Q : Type 0} → Bytes → Q → List (Bytes × Q) → List (Bytes × Q)
set_q name q [] = (name, q) ∷ []
set_q name q ((n, p) ∷ qs) = if bytes_eq name n then (n, q) ∷ qs else (n, p) ∷ set_q name q qs

-- the loop over the tokens, with `qs` and `star_q`
pub read_tokens :
    {Q : Type 0} → List (Bytes × Q) → List (Bytes × Q) → Option Q → List (Bytes × Q) × Option Q
read_tokens [] qs star_q = (qs, star_q)
read_tokens ((name, q) ∷ tokens) qs star_q =
    if bytes_eq name (codes "*")
    then read_tokens tokens qs (some q)
    else read_tokens tokens (set_q name q qs) star_q

abbrev pub or_star : {Q : Type 0} → Option Q → Option Q → Option Q
or_star none star_q = star_q
or_star (some q) star_q = some q

module _ {Q : Type 0} (floats : Floats Q) where
  abbrev pub allows : Option Q → Bool
  allows none = false
  allows (some q) = floats.is_positive q

  -- the loop over the server's preferences
  pub pick : List (Bytes × Q) → Option Q → List Bytes → Option Bytes
  pick qs star_q [] = none
  pick qs star_q (pref ∷ prefs) =
      if allows (or_star (get_q pref qs) star_q) then some pref else pick qs star_q prefs

  -- `_negotiate`
  pub negotiate : Bytes → List Bytes → Option Bytes
  unfolding token_of tokens_of read_tokens pick
  negotiate accept_encoding server_pref =
      let (qs, star_q) = read_tokens (tokens_of floats (split b',' accept_encoding)) [] none in
      pick qs star_q server_pref

-- `_get_header`
pub get_header : Headers → Bytes → Option Bytes
get_header [] name = none
get_header ((n, v) ∷ hs) name =
    if bytes_eq (lower n) (lower name) then some v else get_header hs name

abbrev pub one_of : Bytes → List Bytes → Bool
one_of x [] = false
one_of x (y ∷ ys) = bytes_eq x y || one_of x ys

-- the guards on the status
pub is_bodiless : ℕ → Bool
is_bodiless status =
    status == 204 || status == 304 || (leb 100 status && ltb status 200) || status == 206

-- the tests on one header
pub is_encoded : Bytes → Bool
is_encoded value =
    let v = lower (strip value) in not (is_empty v) && not (bytes_eq v (codes "identity"))

pub is_untransformable : Bytes → Bool
is_untransformable value = contains (codes "no-transform") (lower value)

pub has_main_type : List Bytes → Bytes → Bool
has_main_type types value = one_of (lower (strip (partition b';' value).0)) types

-- the loop over the headers; `lengthless` is the rule of the streaming path
pub check_headers : Bool → List Bytes → Bool → Headers → Bool
unfolding is_encoded is_untransformable has_main_type
check_headers lengthless types has_compressible_type [] = has_compressible_type
check_headers lengthless types has_compressible_type ((name, value) ∷ hs) =
    let n = lower name in
    let rest = check_headers lengthless types has_compressible_type hs in
    let rest_typed =
      check_headers lengthless types (has_compressible_type || has_main_type types value) hs in
    if lengthless && bytes_eq n (codes "content-length")
    then false
    else if bytes_eq n (codes "content-encoding")
    then if is_encoded value then false else rest
    else if bytes_eq n (codes "cache-control")
    then if is_untransformable value then false else rest
    else if bytes_eq n (codes "content-type")
    then rest_typed
    else rest

-- `_is_compressible_response`
pub is_compressible_response : Response → Option Bytes → Bytes → ℕ → List Bytes → Bool
unfolding is_bodiless check_headers
is_compressible_response response none method min_size types = false
is_compressible_response response (some body) method min_size types =
    not (bytes_eq method (codes "HEAD"))
    && not (ltb (length body) min_size)
    && not (is_bodiless response.status_code)
    && check_headers false types false response.headers

-- `_is_streaming_eligible`
pub is_streaming_eligible : Response → Bytes → List Bytes → Bool
unfolding is_bodiless check_headers
is_streaming_eligible response method types =
    not (bytes_eq method (codes "HEAD"))
    && not (is_bodiless response.status_code)
    && check_headers true types false response.headers

stripped_tokens : List Bytes → List Bytes
stripped_tokens [] = []
stripped_tokens (t ∷ ts) =
    let rest = stripped_tokens ts in if is_empty (strip t) then rest else strip t ∷ rest

abbrev any_lower : Bytes → List Bytes → Bool
any_lower name [] = false
any_lower name (t ∷ ts) = bytes_eq (lower t) name || any_lower name ts

-- `_merge_vary`
pub merge_vary : Bytes → Bytes
unfolding stripped_tokens
merge_vary existing =
    let tokens = stripped_tokens (split b',' (strip existing)) in
    if bytes_eq (strip existing) (codes "*")
    then existing
    else if any_lower (codes "accept-encoding") tokens
    then existing
    else join (codes ", ") (tokens ++ codes "Accept-Encoding" ∷ [])

-- what follows the loop of `_rewrite_headers`
abbrev pub closing : Bytes → ℕ → Bool → Bool → Headers
closing encoding new_length vary_seen cl_replaced =
    (if cl_replaced then [] else (codes "content-length", print_ℕ new_length) ∷ [])
    ++ ((if vary_seen then [] else (codes "vary", codes "Accept-Encoding") ∷ [])
        ++ (codes "content-encoding", encoding) ∷ [])

-- `_rewrite_headers`, with its two flags
pub rewrite_from : Bytes → ℕ → Bool → Bool → Headers → Headers
unfolding merge_vary
rewrite_from encoding new_length vary_seen cl_replaced [] =
    closing encoding new_length vary_seen cl_replaced
rewrite_from encoding new_length vary_seen cl_replaced ((name, value) ∷ hs) =
    if bytes_eq (lower name) (codes "content-length")
    then if cl_replaced
      then rewrite_from encoding new_length vary_seen cl_replaced hs
      else (name, print_ℕ new_length) ∷ rewrite_from encoding new_length vary_seen true hs
    else if bytes_eq (lower name) (codes "vary")
    then (name, merge_vary value) ∷ rewrite_from encoding new_length true cl_replaced hs
    else (name, value) ∷ rewrite_from encoding new_length vary_seen cl_replaced hs

pub rewrite_headers : Headers → Bytes → ℕ → Headers
unfolding rewrite_from
rewrite_headers headers encoding new_length = rewrite_from encoding new_length false false headers

-- `_CompressedCtx.complete`: what it calls `complete` of the inner context with
pub complete :
    (Bytes → Bytes → Bytes)
    → Bytes
    → ℕ
    → List Bytes
    → Bytes
    → Response
    → Option Bytes
    → Response × Option Bytes
unfolding is_compressible_response rewrite_headers
complete encode encoding min_size types method response none = (response, none)
complete encode encoding min_size types method response (some body) =
    let compressed = encode encoding body in
    if is_compressible_response response (some body) method min_size types
    then (
      record response { headers = rewrite_headers response.headers encoding (length compressed) },
      some compressed,
    )
    else (response, some body)

-- `compress_handler`'s `wrapped`: the encoding of the context that it puts around the inner one
pub chosen_encoding : {Q : Type 0} → Floats Q → List Bytes → Request → Option Bytes
unfolding negotiate get_header
chosen_encoding floats server_pref request =
    elim (get_header request.headers (codes "accept-encoding")) [
      | none ↦ none
      | some accept ↦
          if bytes_eq request.method (codes "HEAD")
          then none
          else negotiate floats accept server_pref
    ]
