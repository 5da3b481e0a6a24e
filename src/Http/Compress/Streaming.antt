-- ===== src/Http/Compress/Streaming.antt =====
-- localpost/http/compress.py: the chunks and the headers of a streamed response. The incremental
-- compressor is third-party code: an `Encoder` over a state of its own.
use mathlib.Core.List.{append-nil, append_assoc}
use localpost_py.Prelude.{
  ◌≡◌, ◌⊎◌, refl, sym, ap, ◌∙◌, Bool, true, false, Option, some, List, [], ◌∷◌, ◌++◌, arith,
  Bool-cases, inl, inr, if◌then◌else◌,
}
use localpost_py.Bytes.{Bytes, codes, bytes_eq, is_empty, lower}
use localpost_py.Http.Types.{Headers, Response}
use localpost_py.Http.Compress.Rewriting.{values_of}
use localpost_py.Http.Compress.{merge_vary, is_streaming_eligible}

pub record Encoder (S : Type 0) : Type 0 where
  pub compress : Bytes → S → Bytes × S
  pub flush : S → Bytes × S
  pub finish : S → Bytes

-- what is yielded if it is not empty
abbrev unless_empty : Bytes → List Bytes
unless_empty out = if is_empty out then [] else out ∷ []

unfoldable pub concat : List Bytes → Bytes
concat [] = []
concat (c ∷ cs) = c ++ concat cs

module _ {S : Type 0} (encoder : Encoder S) where
  -- one input chunk, compressed and flushed
  abbrev pub block : Bytes → S → Bytes × S
  block chunk s =
      let (out, s') = encoder.compress chunk s in
      let (marker, s'') = encoder.flush s' in (out ++ marker, s'')

  -- `_compress_stream`
  pub compress_stream : List Bytes → S → List Bytes
  compress_stream [] s = unless_empty (encoder.finish s)
  compress_stream (chunk ∷ chunks) s =
      if is_empty chunk
      then chunk ∷ compress_stream chunks s
      else unless_empty (block chunk s).0 ++ compress_stream chunks (block chunk s).1

-- `_streaming_rewrite_headers`, with its flag
streaming_rewrite_from : Bytes → Bool → Headers → Headers
streaming_rewrite_from encoding vary_seen [] =
    (if vary_seen then [] else (codes "vary", codes "Accept-Encoding") ∷ [])
    ++ (codes "content-encoding", encoding) ∷ []
streaming_rewrite_from encoding vary_seen ((name, value) ∷ hs) =
    if bytes_eq (lower name) (codes "content-length")
    then streaming_rewrite_from encoding vary_seen hs
    else if bytes_eq (lower name) (codes "vary")
    then (name, merge_vary value) ∷ streaming_rewrite_from encoding true hs
    else (name, value) ∷ streaming_rewrite_from encoding vary_seen hs

pub streaming_rewrite_headers : Headers → Bytes → Headers
unfolding streaming_rewrite_from
streaming_rewrite_headers headers encoding = streaming_rewrite_from encoding false headers

-- `_CompressedCtx.stream`: what it calls `stream` of the inner context with
pub stream :
    {S : Type 0}
    → Encoder S
    → S
    → Bytes
    → List Bytes
    → Bytes
    → Response
    → List Bytes
    → Response × List Bytes
unfolding compress_stream streaming_rewrite_headers
stream encoder s encoding types method response chunks =
    if is_streaming_eligible response method types
    then (
      record response { headers = streaming_rewrite_headers response.headers encoding },
      compress_stream encoder chunks s,
    )
    else (response, chunks)

empty→nil : (c : Bytes) → is_empty c ≡ true → c ≡ []
empty→nil [] e = refl
empty→nil (b ∷ c) e = cc

concat-unless_empty :
    (out : Bytes) (cs : List Bytes) → concat (unless_empty out ++ cs) ≡ out ++ concat cs
unfolding concat
concat-unless_empty [] cs = refl
concat-unless_empty (b ∷ out) cs = refl

-- a call of an incremental compressor before it is finished
pub data Op : Type 0 where
  feeds : Bytes → Op
  flushes : Op

abbrev pub input : List Op → Bytes
input [] = []
input (feeds c ∷ ops) = c ++ input ops
input (flushes ∷ ops) = input ops

-- all that it writes, from these calls to the last
abbrev pub written : {S : Type 0} → Encoder S → List Op → S → Bytes
written encoder [] s = encoder.finish s
written encoder (feeds c ∷ ops) s =
    (encoder.compress c s).0 ++ written encoder ops (encoder.compress c s).1
written encoder (flushes ∷ ops) s = (encoder.flush s).0 ++ written encoder ops (encoder.flush s).1

-- What such a compressor documents: whatever it is called with, and wherever it is flushed, the decoder
-- gives the input back from all that it writes.
pub record IsDecoded {S : Type 0} (encoder : Encoder S) (s : S) (decode : Bytes → Option Bytes)
    : Type 0 where
  pub decodes : (ops : List Op) → decode (written encoder ops s) ≡ some (input ops)

-- the calls that `_compress_stream` makes: none for an empty chunk
abbrev ops_of : List Bytes → List Op
ops_of [] = []
ops_of (c ∷ cs) = let rest = ops_of cs in if is_empty c then rest else feeds c ∷ flushes ∷ rest

input-ops_of : (cs : List Bytes) → input (ops_of cs) ≡ concat cs
unfolding concat
input-ops_of [] = refl
input-ops_of (c ∷ cs) = elim (Bool-cases (is_empty c)) [
  | inl e ↦ rw (e, empty→nil c e, input-ops_of cs) refl
  | inr e ↦ rw (e, concat, input-ops_of cs) refl
]

module _ {S : Type 0} (encoder : Encoder S) where
  concat-compress_stream :
      (chunks : List Bytes) (s : S)
      → concat (compress_stream encoder chunks s) ≡ written encoder (ops_of chunks) s
  unfolding compress_stream concat
  concat-compress_stream [] s =
      ap concat (sym (append-nil (unless_empty (encoder.finish s))))
      ∙ concat-unless_empty (encoder.finish s) []
      ∙ append-nil (encoder.finish s)
  concat-compress_stream (c ∷ cs) s = elim (Bool-cases (is_empty c)) [
    | inl e ↦ rw (e, empty→nil c e) (concat-compress_stream cs s)
    | inr e ↦
        let (out, s') = encoder.compress c s in
        let (marker, s'') = encoder.flush s' in
        rw e (
          concat-unless_empty (out ++ marker) (compress_stream encoder cs s'')
          ∙ ap (λ x. (out ++ marker) ++ x) (concat-compress_stream cs s'')
          ∙ append_assoc out marker (written encoder (ops_of cs) s''))
  ]

  -- Over a compressor whose decoder gives the input back from all that is written, whatever the calls:
  -- a client that decodes the concatenated chunks of `_compress_stream` gets the handler's chunks in
  -- order, empty ones or not.
  pub compress_stream_roundtrip :
      (s : S) (decode : Bytes → Option Bytes) (chunks : List Bytes)
      → IsDecoded encoder s decode
      → decode (concat (compress_stream encoder chunks s)) ≡ some (concat chunks)
  compress_stream_roundtrip s decode chunks h =
      ap decode (concat-compress_stream chunks s)
      ∙ h.decodes (ops_of chunks)
      ∙ ap some (input-ops_of chunks)

streaming_rewrite_from-content_length :
    (encoding : Bytes) (vary_seen : Bool) (hs : Headers)
    → values_of (codes "content-length") (streaming_rewrite_from encoding vary_seen hs) ≡ []
unfolding streaming_rewrite_from values_of lower
streaming_rewrite_from-content_length encoding true [] = refl
streaming_rewrite_from-content_length encoding false [] = refl
streaming_rewrite_from-content_length encoding vary_seen ((n, v) ∷ hs) = ground (
  arith,
  streaming_rewrite_from-content_length encoding vary_seen hs,
  streaming_rewrite_from-content_length encoding true hs,
)

-- A streamed response is handed on as it was, or else with its status, the chunks of the compressor,
-- and no Content-Length at all, so the server has to frame it by itself.
pub stream_framed :
    {S : Type 0} (encoder : Encoder S) (s : S) (encoding : Bytes) (types : List Bytes)
    (method : Bytes) (response : Response) (chunks : List Bytes)
    → let out = stream encoder s encoding types method response chunks in
      (out ≡ (response, chunks))
      ⊎ (out.1 ≡ compress_stream encoder chunks s)
        × (out.0.status_code ≡ response.status_code)
        × (values_of (codes "content-length") out.0.headers ≡ [])
unfolding stream streaming_rewrite_headers
stream_framed encoder s encoding types method response chunks =
    elim (Bool-cases (is_streaming_eligible response method types)) [
      | inr e ↦ rw e (inl refl)
      | inl e ↦
          rw e (
            inr (refl, refl, streaming_rewrite_from-content_length encoding false response.headers))
    ]
