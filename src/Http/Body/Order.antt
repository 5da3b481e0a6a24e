-- ===== src/Http/Body/Order.antt =====
-- localpost/http/server_httptools.py: what `receive` gives, in which order, and how much is buffered.
use localpost_py.Prelude.{ℕ, ◌≤◌, ◌≡◌, ◌<◌, List, [], ◌++◌, length}
use localpost_py.Bytes.{Bytes}
use localpost_py.Http.Body.{
  Intake, Fed, fed, protocol_error, raises_too_large, Received, got, failed,
}
use localpost_py.Http.Body.Packets.{AreOfOne, rest_of, IsReading, IsAtEnd}

abbrev connection : Fed → Intake
connection (fed d) = d
connection (protocol_error d) = d
connection (raises_too_large n d) = d

-- What is read, then what the connection has of the body, is the body that it had before; no more is
-- read than was asked for, nothing is read only at the end, and no more is ever buffered than the limit.
abbrev pub ReadsOn : ℕ → ℕ → Bytes → Received → Type 0
ReadsOn m size before (got chunk ps d) =
    (chunk ++ rest_of ps d ≡ before)
    × (length chunk ≤ size)
    × (chunk ≡ [] → 0 < size → IsAtEnd ps d)
    × AreOfOne ps
    × IsReading m d
ReadsOn m size before (failed f ps) = IsReading m (connection f)
