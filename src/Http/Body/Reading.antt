-- ===== src/Http/Body/Reading.antt =====
-- localpost/http/_body.py: what `read_body` returns.
use localpost_py.Prelude.{ℕ, ◌≤◌, ◌<◌, ◌≡◌, List, length}
use localpost_py.Bytes.{Bytes}
use localpost_py.Http.Body.{Read, whole, exceeds, broken, no_fuel}
use localpost_py.Http.Body.Packets.{IsAtEnd}

-- A body that is returned is all of what was to come, up to the end of the message or of the
-- connection, and within the limit; an excess is over the limit, and no more than was to come; and
-- `receive` raises only where things are not fine.
abbrev pub IsWhole : Type 0 → ℕ → Bytes → Read → Type 0
IsWhole Fine limit before (whole body ps d) = (body ≡ before) × IsAtEnd ps d × (length body ≤ limit)
IsWhole Fine limit before (exceeds n) = (limit < n) × (n ≤ length before)
IsWhole Fine limit before (broken f) = ¬ Fine
IsWhole Fine limit before no_fuel = ⊥
