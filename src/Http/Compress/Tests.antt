-- ===== src/Http/Compress/Tests.antt =====
-- localpost/http/compress.py at concrete headers.
use localpost_py.Prelude.{ℕ, ◌≡◌, refl, ap, Option, none, some, List, [], ◌∷◌, ◌++◌, ltb, pos, ℤ}
use localpost_py.Bytes.{Bytes, codes, split, strip, lower, partition, join}
use localpost_py.Bytes.Decimal.{parse_int}
use localpost_py.Http.Types.{Headers, Response}
use localpost_py.Http.Compress.Streaming.{
  Encoder, concat, compress_stream, Op, feeds, flushes, input, written, stream,
  compress_stream_roundtrip,
}
use localpost_py.Http.Compress.{Floats, tokens_of, negotiate, merge_vary, complete}
use localpost_py.Http.Compress.Negotiation.{accepts, find, negotiate-find}

-- whole numbers for floats
abbrev whole : Option ℤ → Option ℕ
whole (some (pos n)) = some n
whole z = none

abbrev whole_floats : Floats ℕ
whole_floats = record { one = 1; zero = 0; parse = λ b. whole (parse_int b); is_positive = ltb 0 }

abbrev preferences : List Bytes
preferences = codes "br" ∷ codes "gzip" ∷ []

gzip_chosen : negotiate whole_floats (codes "br;q=0, *") preferences ≡ some (codes "gzip")
unfolding negotiate split strip lower partition parse_int
gzip_chosen = refl

none_chosen : negotiate whole_floats (codes "br;q=0, gzip;level=3;q=x") preferences ≡ none
unfolding negotiate split strip lower partition parse_int
none_chosen = refl

vary_merged : merge_vary (codes "Origin") ≡ codes "Origin, Accept-Encoding"
unfolding merge_vary split strip lower join
vary_merged = refl

negotiate-find_example :
    negotiate whole_floats (codes "br;q=0, *") preferences
    ≡ find
        (accepts whole_floats (tokens_of whole_floats (split b',' (codes "br;q=0, *"))))
        preferences
negotiate-find_example =
    negotiate-find whole_floats (codes "br;q=0, *") preferences (refl, (refl, tt))

abbrev page : Headers
page =
    (codes "Content-Type", codes "text/html; charset=utf-8")
    ∷ (codes "Content-Length", codes "4")
    ∷ (codes "X-Id", codes "9")
    ∷ []

-- an encoder that marks the body
abbrev marked : Bytes → Bytes → Bytes
marked encoding body = b'!' ∷ body

abbrev answer : Response
answer = record { status_code = 200; headers = page; reason = [] }

abbrev completed : Response × Option Bytes
completed =
    complete marked (codes "gzip") 2 (codes "text/html" ∷ []) (codes "GET") answer
      (some (codes "abcd"))

abbrev State : Type 0
State = Unit

-- stores the chunks as they are
abbrev store : Encoder State
store = record { compress = λ c s. (c, s); flush = λ s. ([], s); finish = λ s. [] }

abbrev three_chunks : List Bytes
three_chunks = codes "ab" ∷ [] ∷ codes "c" ∷ []

store-written : (ops : List Op) → written store ops tt ≡ input ops
store-written [] = refl
store-written (feeds c ∷ ops) = ap (λ b. c ++ b) (store-written ops)
store-written (flushes ∷ ops) = store-written ops

compress_stream_roundtrip_example :
    some (concat (compress_stream store three_chunks tt)) ≡ some (concat three_chunks)
compress_stream_roundtrip_example =
    compress_stream_roundtrip store tt (λ b. some b) three_chunks
      (record { decodes = λ ops. ap some (store-written ops) })

abbrev streamed : Response × List Bytes
streamed = stream store tt (codes "gzip") (codes "text/html" ∷ []) (codes "GET") answer three_chunks
