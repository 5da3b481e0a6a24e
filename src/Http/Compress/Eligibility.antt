-- ===== src/Http/Compress/Eligibility.antt =====
-- localpost/http/compress.py: which headers let a response be compressed.
use localpost_py.Prelude.{
  ◌≡◌, Bool, true, false, not, ◌&&◌, ◌||◌, List, [], ◌∷◌, arith, Bool-cases, inl, inr,
}
use localpost_py.Bytes.{Bytes, codes, bytes_eq, lower}
use localpost_py.Bytes.Laws.{bytes_eq_iff}
use localpost_py.Http.Types.{Headers}
use localpost_py.Http.Compress.{is_encoded, is_untransformable, has_main_type, check_headers}

-- some header of the name has a value that passes the test
pub some_value : Bytes → (Bytes → Bool) → Headers → Bool
some_value name test [] = false
some_value name test ((n, v) ∷ hs) = bytes_eq (lower n) name && test v || some_value name test hs

abbrev any_value : Bytes → Bool
any_value v = true

abbrev pub allowed_by : Bool → List Bytes → Bool → Headers → Bool
allowed_by lengthless types typed hs =
    not (lengthless && some_value (codes "content-length") any_value hs)
    && not (some_value (codes "content-encoding") is_encoded hs)
    && not (some_value (codes "cache-control") is_untransformable hs)
    && (typed || some_value (codes "content-type") (has_main_type types) hs)

-- The loop over the headers passes exactly the headers with no `Content-Encoding` but `identity` or
-- an empty one, no `Cache-Control` that says `no-transform`, and some `Content-Type` of the given
-- types; on the streaming path, also no `Content-Length`. Their order does not matter.
pub check_headers_lem :
    (lengthless : Bool) (types : List Bytes) (typed : Bool) (hs : Headers)
    → check_headers lengthless types typed hs ≡ allowed_by lengthless types typed hs
unfolding check_headers some_value
check_headers_lem lengthless types typed [] = ground arith
check_headers_lem lengthless types typed ((n, v) ∷ hs) =
    elim (Bool-cases (bytes_eq (lower n) (codes "content-length"))) [
      | inl e ↦
          let same = (bytes_eq_iff (lower n) (codes "content-length")).0 e in
          rw (same, check_headers_lem lengthless types typed hs) (ground arith)
      | inr e ↦ elim (Bool-cases (bytes_eq (lower n) (codes "content-encoding"))) [
        | inl f ↦
            let same = (bytes_eq_iff (lower n) (codes "content-encoding")).0 f in
            rw (same, check_headers_lem lengthless types typed hs) (ground arith)
        | inr f ↦ elim (Bool-cases (bytes_eq (lower n) (codes "cache-control"))) [
          | inl g ↦
              let same = (bytes_eq_iff (lower n) (codes "cache-control")).0 g in
              rw (same, check_headers_lem lengthless types typed hs) (ground arith)
          | inr g ↦ elim (Bool-cases (bytes_eq (lower n) (codes "content-type"))) [
            | inl k ↦
                let same = (bytes_eq_iff (lower n) (codes "content-type")).0 k in
                rw (same, check_headers_lem lengthless types (typed || has_main_type types v) hs)
                  (ground arith)
            | inr k ↦ rw (e, f, g, k, check_headers_lem lengthless types typed hs) (ground arith)
          ]
        ]
      ]
    ]
