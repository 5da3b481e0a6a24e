-- ===== src/Http/Writer/Tests.antt =====
-- localpost/http/server_httptools.py: responses on the wire.
use localpost_py.Prelude.{◌≡◌, refl, true, some, List, [], ◌∷◌, ◌++◌}
use localpost_py.Bytes.{Bytes, codes, lower, contains}
use localpost_py.Bytes.Decimal.{print_ℕ}
use localpost_py.Bytes.Hex.{print_hex}
use localpost_py.Http.Types.{Response}
use localpost_py.Http.Writer.{
  new, stream, complete, send, send_chunks, finish_response, start_response, serialize_response,
  response_allows_body, scan_response_headers, scan_from, reason_phrase, auto_framed, frame,
}
use localpost_py.Http.Writer.Chunked.{concat, read_chunked}
use localpost_py.Http.Writer.Wire.{uncancelled, stream_readable}

abbrev plain : Response
plain = record { status_code = 200; headers = (codes "x", codes "y") ∷ []; reason = [] }

abbrev parts : List Bytes
parts = codes "ab" ∷ [] ∷ codes "c" ∷ []

stream_readable_example :
    (wire : Bytes) × (concat (stream plain (uncancelled parts) (new (codes "GET") true)).sent
      ≡ serialize_response (auto_framed plain) ++ wire)
    × (read_chunked wire ≡ some (codes "abc"))
unfolding response_allows_body scan_response_headers scan_from lower contains
stream_readable_example = stream_readable (codes "GET") true plain parts

-- an empty chunk is not written, since it would end the body
chunks_written :
    (stream plain (uncancelled parts) (new (codes "GET") true)).sent
    ≡ (codes "HTTP/1.1 200 OK\r\nx: y\r\ntransfer-encoding: chunked\r\n\r\n2\r\nab\r\n")
      ∷ codes "1\r\nc\r\n"
      ∷ codes "0\r\n\r\n"
      ∷ []
unfolding stream send_chunks send finish_response start_response new serialize_response
    response_allows_body scan_response_headers scan_from lower contains reason_phrase print_ℕ
    print_hex frame
chunks_written = refl

-- a HEAD request is answered by the headers alone
head_is_bare :
    (complete plain (some (codes "ab")) (new (codes "HEAD") true)).sent
    ≡ codes "HTTP/1.1 200 OK\r\nx: y\r\n\r\n" ∷ []
unfolding complete send finish_response start_response new serialize_response response_allows_body
    scan_response_headers scan_from lower contains reason_phrase print_ℕ
head_is_bare = refl
