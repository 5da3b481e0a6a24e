-- ===== src/Http/Static/Replies.antt =====
-- The answers of `static_handler`'s `handle` in localpost/http/static.py.
use localpost_py.Prelude.{
  ℕ, ◌+◌, ◌≤◌, ◌<◌, ◌≡◌, ◌⊎◌, ◌↔◌, refl, subst, sym, ap, ◌∙◌, pos, negsuc, true, false, ◌||◌,
  Option, none, some, [], ◌∷◌, ◌++◌, ◌==◌, arith, Bool-cases, Option-cases, inl, inr,
}
use localpost_py.Bytes.{Bytes, codes, bytes_eq}
use localpost_py.Bytes.Laws.{bytes_eq_iff}
use localpost_py.Bytes.Decimal.{print_ℕ}
use localpost_py.Http.Types.{Headers, Request, Response}
use localpost_py.Http.Static.{
  Stat, FileSystem, Config, Reply, complete, sendfile, open_error, Range, ignored, unsatisfiable,
  satisfiable, etag_of, if_none_match_matches, find_header, answers, find_file, is_not_modified,
  if_modified_since_satisfied, range_of, with_cache_control, content_range, send, send_range,
  send_file, handle, method_not_allowed, send_not_found, send_not_modified,
  send_range_not_satisfiable,
}
use localpost_py.Http.Static.Ranges.{InFile, parse_range-InFile}

-- the status that is sent, and 0 where none is
abbrev pub status_of : {P : Type 0} → Reply P → ℕ
status_of (complete response body) = response.status_code
status_of (sendfile response file offset length) = response.status_code
status_of (open_error file) = 0

-- bytes of this very file, as many as the header says, from within it
abbrev pub SendsWithin : {P : Type 0} → P → ℕ → Bytes → Reply P → Type 0
SendsWithin target size method (complete response body) = Unit
SendsWithin target size method (open_error file) = Unit
SendsWithin target size method (sendfile response file offset length) =
    (file ≡ target)
    × (bytes_eq method (codes "HEAD") ≡ false)
    × (0 < length)
    × (offset + length ≤ size)
    × (find_header (codes "content-length") response.headers ≡ some (print_ℕ length))

find_header_second :
    (content_type n tag date accept : Bytes) (rest : Headers)
    → find_header (codes "content-length") rest ≡ none
    → find_header (codes "content-length") (
        (codes "content-type", content_type)
        ∷ (codes "content-length", n)
        ∷ (codes "etag", tag)
        ∷ (codes "last-modified", date)
        ∷ (codes "accept-ranges", accept)
        ∷ rest)
      ≡ some n
unfolding find_header
find_header_second content_type n tag date accept rest h = rw (find_header, h) refl

no_content_length :
    (cache_control : Option Bytes)
    → find_header (codes "content-length") (with_cache_control cache_control) ≡ none
unfolding find_header
no_content_length none = refl
no_content_length (some cc_bytes) = refl

get_of :
    (method : Bytes)
    → bytes_eq method (codes "GET") || bytes_eq method (codes "HEAD") ≡ true
    → bytes_eq method (codes "HEAD") ≡ false
    → method ≡ codes "GET"
get_of method e h = (bytes_eq_iff method (codes "GET")).0 (ground (arith, e, h))

module _ {P : Type 0} (fs : FileSystem P) (config : Config P) where
  -- The reasons for a 304: an `If-None-Match` that matches or, without that header, a date that the
  -- file is no younger than.
  abbrev pub IsFresh : Headers → Stat → Type 0
  IsFresh headers st =
      ((inm : Bytes) × (find_header (codes "if-none-match") headers ≡ some inm)
        × (if_none_match_matches inm (etag_of st) ≡ true))
      ⊎ (find_header (codes "if-none-match") headers ≡ none)
        × (ims : Bytes) × (since : ℕ) × (find_header (codes "if-modified-since") headers ≡ some ims)
        × (fs.parse_date ims ≡ some (pos since))
        × (st.mtime ≤ since)

  since→IsFresh :
      (headers : Headers) (st : Stat) (ims : Bytes)
      → find_header (codes "if-none-match") headers ≡ none
      → find_header (codes "if-modified-since") headers ≡ some ims
      → if_modified_since_satisfied fs config ims st.mtime ≡ true
      → IsFresh headers st
  unfolding if_modified_since_satisfied
  since→IsFresh headers st ims no_inm e h = elim (Option-cases (fs.parse_date ims)) [
    | inl p ↦ ground (arith, p, h)
    | inr (pos since, p) ↦ inr (no_inm, ims, since, e, p, ground (arith, p, h))
    | inr (negsuc n, p) ↦ ground (arith, p, h)
  ]

  is_not_modified→IsFresh :
      (headers : Headers) (st : Stat)
      → is_not_modified fs config headers st ≡ true
      → IsFresh headers st
  unfolding is_not_modified
  is_not_modified→IsFresh headers st h =
      elim (Option-cases (find_header (codes "if-none-match") headers)) [
        | inr (inm, e) ↦ inl (inm, e, ground (arith, e, h))
        | inl e ↦ elim (Option-cases (find_header (codes "if-modified-since") headers)) [
          | inl f ↦ ground (arith, e, f, h)
          | inr (ims, f) ↦ since→IsFresh headers st ims e f (ground (arith, e, f, h))
        ]
      ]

  IsFresh→is_not_modified :
      (headers : Headers) (st : Stat)
      → IsFresh headers st
      → is_not_modified fs config headers st ≡ true
  unfolding is_not_modified if_modified_since_satisfied
  IsFresh→is_not_modified headers st (inl (inm, e, m)) = rw (is_not_modified, e) m
  IsFresh→is_not_modified headers st (inr (e, ims, since, f, p, le)) =
      rw (is_not_modified, e, f, if_modified_since_satisfied, p) (ground (arith, le))

  status_of-send_range :
      (method : Bytes) (target : P) (st : Stat) (r : Range)
      → status_of (send_range fs config method target st r) == 304 ≡ false
  unfolding send_range send send_range_not_satisfiable
  status_of-send_range method target st ignored = ground arith
  status_of-send_range method target st unsatisfiable = refl
  status_of-send_range method target st (satisfiable o l) = ground arith

  handle_found :
      (request : Request) (target : P) (st : Stat)
      → answers fs config request.method ≡ true
      → find_file fs config request ≡ some (target, st)
      → handle fs config request ≡ send_file fs config request target st
  unfolding handle
  handle_found request target st a f = rw (a, f) refl

  -- For GET or HEAD and a file that is found, the answer is 304 exactly if its `If-None-Match` header
  -- matches the file's tag or, when it has no such header, its `If-Modified-Since` header reads as a
  -- date that the file's modification time is not after.
  pub handle_not_modified :
      (request : Request) (target : P) (st : Stat)
      → answers fs config request.method ≡ true
      → find_file fs config request ≡ some (target, st)
      → (status_of (handle fs config request) ≡ 304) ↔ IsFresh request.headers st
  unfolding send_file send_not_modified
  handle_not_modified request target st a f =
      let found = handle_found request target st a f in
      elim (Bool-cases (is_not_modified fs config request.headers st)) [
        | inl e ↦ (
          λ h. is_not_modified→IsFresh request.headers st e,
          λ fresh. ap status_of found ∙ (rw e refl),
        )
        | inr e ↦ (
          λ h. ground (
            arith,
            e,
            h,
            found,
            status_of-send_range request.method target st
                (range_of fs config request.headers st.size),
          ),
          λ fresh. ground (e, arith, IsFresh→is_not_modified request.headers st fresh),
        )
      ]

  send-SendsWithin :
      (method : Bytes) (target : P) (st : Stat) (status o l : ℕ) (extra : Headers)
      → o + l ≤ st.size
      → find_header (codes "content-length") (extra ++ with_cache_control config.cache_control)
        ≡ none
      → SendsWithin target st.size method (send fs config method target st status o l extra)
  unfolding send
  send-SendsWithin method target st status o l extra h none_later =
      elim (Bool-cases (bytes_eq method (codes "HEAD"))) [
        | inl head ↦ rw head tt
        | inr other ↦ elim (Bool-cases (l == 0)) [
          | inl none_to_send ↦ rw (other, none_to_send) tt
          | inr some_to_send ↦ elim (Bool-cases (fs.can_open target)) [
            | inr shut ↦ rw (other, some_to_send, shut) tt
            | inl opened ↦
                rw (other, some_to_send, opened)
                  (
                    refl,
                    other,
                    ground (arith, some_to_send),
                    h,
                    find_header_second _ _ _ _ _ _ none_later,
                  )
          ]
        ]
      ]

  send_range-SendsWithin :
      (method : Bytes) (target : P) (st : Stat) (r : Range)
      → InFile st.size r
      → SendsWithin target st.size method (send_range fs config method target st r)
  unfolding send_range find_header send_range_not_satisfiable
  send_range-SendsWithin method target st ignored h =
      send-SendsWithin method target st 200 0 st.size [] (omega arith)
        (no_content_length config.cache_control)
  send_range-SendsWithin method target st unsatisfiable h = tt
  send_range-SendsWithin method target st (satisfiable o l) h =
      send-SendsWithin method target st 206 o l (content_range fs config o l st.size) h.1
        (rw (find_header, no_content_length config.cache_control) refl)

  range_of-InFile : (headers : Headers) (size : ℕ) → InFile size (range_of fs config headers size)
  unfolding range_of
  range_of-InFile headers size = elim (Option-cases (find_header (codes "range") headers)) [
    | inl e ↦ rw (range_of, e) tt
    | inr (rng, e) ↦ rw (range_of, e) (parse_range-InFile rng size)
  ]

  send_file-SendsWithin :
      (request : Request) (target : P) (st : Stat)
      → SendsWithin target st.size request.method (send_file fs config request target st)
  unfolding send_file send_not_modified
  send_file-SendsWithin request target st =
      elim (Bool-cases (is_not_modified fs config request.headers st)) [
        | inl e ↦ rw e tt
        | inr e ↦ rw e (
            send_range-SendsWithin request.method target st _
              (range_of-InFile request.headers st.size))
      ]

  -- If the handler sends bytes of an open file then the request is GET, the file is the one that was
  -- found for the request, at least one byte is sent, the slice lies within the size that `stat` gave
  -- for it, and the response's Content-Length is the number of bytes sent.
  pub handle-SendsWithin :
      (request : Request) (response : Response) (file : P) (offset length : ℕ)
      → handle fs config request ≡ sendfile response file offset length
      → (request.method ≡ codes "GET")
        × (st : Stat) × (find_file fs config request ≡ some (file, st))
        × (0 < length)
        × (offset + length ≤ st.size)
        × (find_header (codes "content-length") response.headers ≡ some (print_ℕ length))
  unfolding handle method_not_allowed send_not_found
  handle-SendsWithin request response file offset length h =
      elim (Bool-cases (answers fs config request.method)) [
        | inr e ↦ ground (arith, e, h)
        | inl e ↦ elim (Option-cases (find_file fs config request)) [
          | inl f ↦ ground (arith, e, f, h)
          | inr ((target, st), f) ↦
              let sent : SendsWithin target st.size request.method
                  (sendfile response file offset length) =
                subst (SendsWithin target st.size request.method)
                  (sym (handle_found request target st e f) ∙ h)
                  (send_file-SendsWithin request target st) in
              (
                get_of request.method e sent.1,
                st,
                f ∙ ap (λ t. some (t, st)) (sym sent.0),
                sent.2,
                sent.3,
                sent.4,
              )
        ]
      ]
