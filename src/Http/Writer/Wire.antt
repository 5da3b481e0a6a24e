-- ===== src/Http/Writer/Wire.antt =====
-- localpost/http/server_httptools.py: what a streamed response puts on the wire.
use localpost_py.Prelude.{
  ◌≡◌, refl, sym, ap, ◌∙◌, Bool, true, false, not, ◌&&◌, ◌||◌, Option, none, some, List, [], ◌∷◌,
  ◌++◌, if◌then◌else◌, arith, Bool-cases, inl, inr,
}
use mathlib.Core.List.{append_assoc, append-nil}
use localpost_py.Bytes.{Bytes, is_empty}
use localpost_py.Http.Types.{Response}
use localpost_py.Http.Writer.{
  ReqCtx, new, flush, frame, send, finish_response, send_chunks, stream, start_response,
  serialize_response, auto_framed, response_allows_body, scan_response_headers,
}
use localpost_py.Http.Writer.Chunked.{concat, frames, last_chunk, read_chunked, read_chunked-frames}

abbrev waiting : Option Bytes → Bytes
waiting none = []
waiting (some head) = head

-- what was sent and what waits to be
abbrev flat : ReqCtx → Bytes
flat c = concat c.sent ++ waiting c.pending

abbrev terminator : Bool → Bytes
terminator chunked = if chunked then last_chunk else []

abbrev body_part : ReqCtx → Bytes → Bytes
body_part c chunk = if c.body_allowed then frame c.chunked chunk else []

abbrev pub uncancelled : List Bytes → List (Bool × Bytes)
uncancelled [] = []
uncancelled (c ∷ cs) = (false, c) ∷ uncancelled cs

concat-append : (ps : List Bytes) (p : Bytes) → concat (ps ++ p ∷ []) ≡ concat ps ++ p
concat-append [] p = append-nil p
concat-append (q ∷ ps) p =
    ap (λ x. q ++ x) (concat-append ps p) ∙ sym (append_assoc q (concat ps) p)

flat-flush : (p : Bytes) (c : ReqCtx) → flat (flush p c) ≡ concat c.sent ++ p
flat-flush p c = append-nil (concat (c.sent ++ p ∷ [])) ∙ concat-append c.sent p

frame_empty : (b : Bool) (c : Bytes) → is_empty c ≡ true → frame b c ≡ []
unfolding frame
frame_empty b [] e = ground arith
frame_empty b (x ∷ c) e = cc e

abbrev context : ReqCtx → Option Bytes → Bool → ReqCtx
context c pending allowed = record c { pending = pending; body_allowed = allowed }

send_flat :
    (chunk : Bytes) (c : ReqCtx) (p : Option Bytes) (a : Bool)
    → flat (send chunk (context c p a)) ≡ flat (context c p a) ++ body_part (context c p a) chunk
unfolding send
send_flat chunk c none false = sym (append-nil (flat (context c none false)))
send_flat chunk c (some h) false =
    flat-flush h (context c (some h) false) ∙ sym (append-nil (flat (context c (some h) false)))
send_flat chunk c (some h) true =
    flat-flush (h ++ frame c.chunked chunk) (context c (some h) true)
    ∙ sym (append_assoc (concat c.sent) h (frame c.chunked chunk))
send_flat chunk c none true = elim (Bool-cases (is_empty chunk)) [
  | inl e ↦ rw (frame_empty c.chunked chunk e, e) (sym (append-nil (flat (context c none true))))
  | inr e ↦
      ap
        (λ b.
          flat (
            if b then context c none true else flush (frame c.chunked chunk) (context c none true)))
        e
      ∙ flat-flush (frame c.chunked chunk) (context c none true)
      ∙ ap (λ x. x ++ frame c.chunked chunk) (sym (append-nil (concat c.sent)))
]

send_flags :
    (chunk : Bytes) (c : ReqCtx) (p : Option Bytes) (a : Bool)
    → ((send chunk (context c p a)).chunked ≡ c.chunked)
      × ((send chunk (context c p a)).body_allowed ≡ a)
unfolding send
send_flags chunk c none false = (refl, refl)
send_flags chunk c (some h) false = (refl, refl)
send_flags chunk c (some h) true = (refl, refl)
send_flags chunk c none true = elim (Bool-cases (is_empty chunk)) [
  | inl e ↦ rw e (refl, refl)
  | inr e ↦ rw e (refl, refl)
]

abbrev ended : ReqCtx → Option Bytes → Bool → ReqCtx
ended c pending chunked = record c { pending = pending; chunked = chunked }

finish_flat :
    (c : ReqCtx) (p : Option Bytes) (ch : Bool)
    → concat (finish_response (ended c p ch)).sent ≡ flat (ended c p ch) ++ terminator ch
unfolding finish_response
finish_flat c (some h) true =
    concat-append c.sent (h ++ last_chunk) ∙ sym (append_assoc (concat c.sent) h last_chunk)
finish_flat c (some h) false =
    concat-append c.sent (h ++ []) ∙ sym (append_assoc (concat c.sent) h [])
finish_flat c none true =
    concat-append c.sent last_chunk ∙ ap (λ x. x ++ last_chunk) (sym (append-nil (concat c.sent)))
finish_flat c none false = sym (append-nil (concat c.sent ++ []) ∙ append-nil (concat c.sent))

abbrev rest_of : Bool → Bool → List Bytes → Bytes
rest_of chunked allowed cs = (if allowed then frames chunked cs else []) ++ terminator chunked

first_of :
    (chunked allowed : Bool) (x : Bytes) (cs : List Bytes)
    → (if allowed then frame chunked x else []) ++ rest_of chunked allowed cs
      ≡ rest_of chunked allowed (x ∷ cs)
first_of chunked true x cs =
    sym (append_assoc (frame chunked x) (frames chunked cs) (terminator chunked))
first_of chunked false x cs = refl

nothing_left : (b : Bool) (t : Bytes) → t ≡ (if b then [] else []) ++ t
nothing_left true t = refl
nothing_left false t = refl

send_chunks-flat :
    (cs : List Bytes) (c : ReqCtx)
    → concat (send_chunks (uncancelled cs) c).sent
      ≡ flat c ++ ((if c.body_allowed then frames c.chunked cs else []) ++ terminator c.chunked)
unfolding send_chunks
send_chunks-flat [] c =
    finish_flat c c.pending c.chunked
    ∙ ap (λ x. flat c ++ x) (nothing_left c.body_allowed (terminator c.chunked))
send_chunks-flat (x ∷ cs) c =
    let (same_chunked, same_allowed) = send_flags x c c.pending c.body_allowed in
    send_chunks-flat cs (send x c)
    ∙ ap (λ b. flat (send x c) ++ rest_of b (send x c).body_allowed cs) same_chunked
    ∙ ap (λ b. flat (send x c) ++ rest_of c.chunked b cs) same_allowed
    ∙ ap (λ x. x ++ rest_of c.chunked c.body_allowed cs) (send_flat x c c.pending c.body_allowed)
    ∙ append_assoc (flat c) (body_part c x) (rest_of c.chunked c.body_allowed cs)
    ∙ ap (λ x. flat c ++ x) (first_of c.chunked c.body_allowed x cs)

-- the body on the wire, by whether the method and the status allow one and whether it is chunked
abbrev pub Carries : Bool → Bool → Bytes → Bytes → Type 0
Carries false chunked wire content = wire ≡ []
Carries true false wire content = wire ≡ content
Carries true true wire content = read_chunked wire ≡ some content

frames_plain : (cs : List Bytes) → frames false cs ≡ concat cs
unfolding frame
frames_plain [] = refl
frames_plain (c ∷ cs) = ap (λ x. c ++ x) (frames_plain cs)

carried :
    (chunked allowed : Bool) (cs : List Bytes)
    → Carries allowed chunked (rest_of (allowed && chunked) allowed cs) (concat cs)
carried chunked false cs = refl
carried false true cs = append-nil (frames false cs) ∙ frames_plain cs
carried true true cs = read_chunked-frames cs

-- whether the body of an answer to the method is sent in chunks, where it may have one
abbrev pub wants_chunks : Response → Bool
wants_chunks r =
    not (scan_response_headers r.headers).has_framing
    || (scan_response_headers r.headers).has_chunked

or_false : (b : Bool) → b || false ≡ b
or_false true = refl
or_false false = refl

-- A response that is streamed to its end on a fresh context is given to `_send_all` as the status line
-- and the headers, with `Transfer-Encoding: chunked` added exactly if a body is allowed and the response
-- frames none, and then a body: nothing if none is allowed; what a reader of chunked bodies reads as the
-- chunks, joined, if the response frames none or itself has `Transfer-Encoding: chunked`; and the chunks
-- as they are if it has another framing.
pub stream_readable :
    (method : Bytes) (keep_alive : Bool) (r : Response) (cs : List Bytes)
    → (wire : Bytes) × (concat (stream r (uncancelled cs) (new method keep_alive)).sent
        ≡ serialize_response (
            if response_allows_body method r.status_code
              && not (scan_response_headers r.headers).has_framing
            then auto_framed r
            else r)
          ++ wire)
      × Carries (response_allows_body method r.status_code) (wants_chunks r) wire (concat cs)
unfolding stream start_response new
stream_readable method keep_alive r cs =
    let c = start_response r (new method keep_alive) in
    let chunked : Bool = response_allows_body method r.status_code && wants_chunks r in
    (
      rest_of chunked (response_allows_body method r.status_code) cs,
      send_chunks-flat cs c
          ∙ ap (λ b. flat c ++ rest_of b (response_allows_body method r.status_code) cs)
              (or_false chunked),
      carried (wants_chunks r) (response_allows_body method r.status_code) cs,
    )
