-- ===== src/Http/Writer/Scanning.antt =====
-- localpost/http/server_httptools.py: which headers `scan_response_headers` takes for the framing.
use localpost_py.Prelude.{
  ◌≡◌, refl, ap, ◌∙◌, true, false, [], ◌∷◌, ◌++◌, arith, Bool-cases, inl, inr,
}
use localpost_py.Bytes.{Bytes, codes, bytes_eq, lower}
use localpost_py.Bytes.Laws.{bytes_eq→eq}
use localpost_py.Http.Types.{Headers, has_header}
use localpost_py.Http.Writer.{Scan, scan_from, scan_response_headers}

-- what is found stays found
scan_from-has_framing :
    (hs : Headers) (s : Scan) → s.has_framing ≡ true → (scan_from s hs).has_framing ≡ true
unfolding scan_from
scan_from-has_framing [] s h = h
scan_from-has_framing ((n, v) ∷ hs) s h = scan_from-has_framing hs _ (ground (arith, h))

scan_from-content_length :
    (hs : Headers) (s : Scan)
    → has_header (codes "content-length") hs ≡ true
    → (scan_from s hs).has_framing ≡ true
unfolding scan_from
scan_from-content_length [] s h = cc h
scan_from-content_length ((n, v) ∷ hs) s h =
    elim (Bool-cases (bytes_eq (lower n) (codes "content-length"))) [
      | inr g ↦ scan_from-content_length hs _ (ground (arith, h, g))
      | inl g ↦
          scan_from-has_framing hs _ (rw (bytes_eq→eq (lower n) (codes "content-length") g) refl)
    ]

pub scan_response_headers-content_length :
    (hs : Headers)
    → has_header (codes "content-length") hs ≡ true
    → (scan_response_headers hs).has_framing ≡ true
unfolding scan_response_headers
scan_response_headers-content_length hs h = scan_from-content_length hs _ h

scan_from-append :
    (hs ks : Headers) (s : Scan) → scan_from s (hs ++ ks) ≡ scan_from (scan_from s hs) ks
unfolding scan_from
scan_from-append [] ks s = refl
scan_from-append (h ∷ hs) ks s = scan_from-append hs ks _

-- a header of another name does not say that the response is chunked
scan_from-other :
    (n v : Bytes) (s : Scan)
    → bytes_eq (lower n) (codes "transfer-encoding") ≡ false
    → (scan_from s ((n, v) ∷ [])).has_chunked ≡ s.has_chunked
unfolding scan_from
scan_from-other n v s h = ground (arith, h)

pub IsUnchunking : Headers → Type 0
IsUnchunking ks = (s : Scan) → (scan_from s ks).has_chunked ≡ s.has_chunked

pub scan_response_headers-unchunking :
    (hs ks ls : Headers)
    → IsUnchunking ks
    → IsUnchunking ls
    → (scan_response_headers (hs ++ (ks ++ ls))).has_chunked
      ≡ (scan_response_headers hs).has_chunked
unfolding scan_response_headers IsUnchunking
scan_response_headers-unchunking hs ks ls f g =
    ap (λ s. s.has_chunked) (scan_from-append hs (ks ++ ls) _ ∙ scan_from-append ks ls _)
    ∙ g _
    ∙ f _

pub single-IsUnchunking :
    (n v : Bytes)
    → bytes_eq (lower n) (codes "transfer-encoding") ≡ false
    → IsUnchunking ((n, v) ∷ [])
unfolding IsUnchunking
single-IsUnchunking n v h s = scan_from-other n v s h

pub none-IsUnchunking : IsUnchunking []
unfolding IsUnchunking scan_from
none-IsUnchunking s = refl
