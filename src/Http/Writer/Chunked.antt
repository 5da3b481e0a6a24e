-- ===== src/Http/Writer/Chunked.antt =====
-- localpost/http/server_httptools.py: the chunks of a body are read back.
use localpost_py.Prelude.{
  ℕ, zero, suc, ◌≤◌, ◌<◌, ◌≡◌, refl, sym, ap, ◌∙◌, Bool, true, false, Option, none, some, List, [],
  ◌∷◌, ◌++◌, length, length-append, ◌==◌, if◌then◌else◌, arith, Bool-cases, inl, inr, All,
}
use mathlib.Core.List.{append_assoc}
use localpost_py.Bytes.{Bytes, codes, is_empty, partition, drop_prefix, bytes_eq}
use localpost_py.Bytes.Hex.{print_hex, read_hex, read_hex-print_hex, print_hex-All, IsVisible}
use localpost_py.Http.Writer.{frame}

abbrev take_bytes : ℕ → Bytes → Option (Bytes × Bytes)
take_bytes zero cs = some ([], cs)
take_bytes (suc n) [] = none
take_bytes (suc n) (c ∷ cs) = elim (take_bytes n cs) [ none ↦ none | some (x, y) ↦ some (c ∷ x, y) ]

abbrev prepend : Bytes → Option Bytes → Option Bytes
prepend xs none = none
prepend xs (some ys) = some (xs ++ ys)

-- the data of a chunk and what follows it, after its size
abbrev take_chunk : ℕ → Bytes → Option (Bytes × Bytes)
take_chunk n cs = elim (take_bytes n cs) [
  | none ↦ none
  | some (chunk, rest) ↦ elim (drop_prefix (13 ∷ 10 ∷ []) rest) [
    | none ↦ none
    | some r ↦ some (chunk, r)
  ]
]

-- the size on a line, and what follows the line
abbrev read_size : Bytes × Bool × Bytes → Option (ℕ × Bytes)
read_size (line, found, rest) = elim (drop_prefix (10 ∷ []) rest) [
  | none ↦ none
  | some after ↦ elim (read_hex line) [ none ↦ none | some n ↦ some (n, after) ]
]

abbrev prepend_to : (Bytes → Option Bytes) → Option (Bytes × Bytes) → Option Bytes
prepend_to read none = none
prepend_to read (some (chunk, rest)) = prepend chunk (read rest)

abbrev read_sized : (Bytes → Option Bytes) → Option (ℕ × Bytes) → Option Bytes
read_sized read none = none
read_sized read (some (n, rest)) =
    if n == 0
    then (if bytes_eq rest (13 ∷ 10 ∷ []) then some [] else none)
    else prepend_to read (take_chunk n rest)

-- A reader of chunked bodies, as RFC 7230 has them, without extensions and trailers; its fuel is a
-- bound on the chunks.
pub read_from : ℕ → Bytes → Option Bytes
unfolding drop_prefix partition read_hex
read_from zero cs = none
read_from (suc fuel) cs = read_sized (read_from fuel) (read_size (partition 13 cs))

-- every chunk takes a byte at least
pub read_chunked : Bytes → Option Bytes
unfolding read_from
read_chunked cs = read_from (suc (length cs)) cs

abbrev pub concat : List Bytes → Bytes
concat [] = []
concat (p ∷ ps) = p ++ concat ps

abbrev pub frames : Bool → List Bytes → Bytes
frames chunked [] = []
frames chunked (c ∷ cs) = frame chunked c ++ frames chunked cs

partition-visible :
    (cs rest : Bytes) → All IsVisible cs → partition 13 (cs ++ 13 ∷ rest) ≡ (cs, true, rest)
unfolding partition
partition-visible [] rest h = refl
partition-visible (c ∷ cs) rest h = ground (arith, h.0, partition-visible cs rest h.1)

take_bytes-append : (cs rest : Bytes) → take_bytes (length cs) (cs ++ rest) ≡ some (cs, rest)
take_bytes-append [] rest = refl
take_bytes-append (c ∷ cs) rest = ground (arith, take_bytes-append cs rest)

read_size-frame :
    (n : ℕ) (rest : Bytes)
    → read_size (partition 13 (print_hex n ++ 13 ∷ 10 ∷ rest)) ≡ some (n, rest)
unfolding drop_prefix
read_size-frame n rest =
    ap read_size (partition-visible (print_hex n) (10 ∷ rest) (print_hex-All n))
    ∙ rw (read_size, read_hex-print_hex n) refl

take_chunk-append :
    (cs rest : Bytes) → take_chunk (length cs) (cs ++ 13 ∷ 10 ∷ rest) ≡ some (cs, rest)
unfolding drop_prefix
take_chunk-append cs rest = rw (take_chunk, take_bytes-append cs (13 ∷ 10 ∷ rest)) refl

abbrev pub last_chunk : Bytes
last_chunk = codes "0" ++ (13 ∷ 10 ∷ 13 ∷ 10 ∷ [])

-- one chunk with what follows it
frame-append :
    (c rest : Bytes)
    → is_empty c ≡ false
    → frame true c ++ rest ≡ print_hex (length c) ++ 13 ∷ 10 ∷ (c ++ 13 ∷ 10 ∷ rest)
unfolding frame
frame-append c rest e = rw e (
    append_assoc (print_hex (length c)) (13 ∷ 10 ∷ (c ++ 13 ∷ 10 ∷ [])) rest
    ∙ ap (λ x. print_hex (length c) ++ 13 ∷ 10 ∷ x) (append_assoc c (13 ∷ 10 ∷ []) rest))

read_from-chunk :
    (fuel : ℕ) (c rest : Bytes)
    → is_empty c ≡ false
    → read_from (suc fuel) (frame true c ++ rest) ≡ prepend c (read_from fuel rest)
unfolding read_from
read_from-chunk fuel c rest e =
    ap (read_from (suc fuel)) (frame-append c rest e)
    ∙ ap (read_sized (read_from fuel)) (read_size-frame (length c) (c ++ 13 ∷ 10 ∷ rest))
    ∙ rw (filled c e) (ap (prepend_to (read_from fuel)) (take_chunk-append c rest))
  where
    filled : (c : Bytes) → is_empty c ≡ false → length c == 0 ≡ false
    filled [] e = cc e
    filled (x ∷ c) e = ground arith

frame-empty : (b : Bool) (c : Bytes) → is_empty c ≡ true → frame b c ≡ []
unfolding frame
frame-empty b [] e = ground arith
frame-empty b (x ∷ c) e = cc e

nothing : (c : Bytes) → is_empty c ≡ true → c ≡ []
nothing [] e = refl
nothing (x ∷ c) e = cc e

abbrev pieces : List Bytes → ℕ
pieces [] = 0
pieces (c ∷ cs) = if is_empty c then pieces cs else suc (pieces cs)

read_from-frames :
    (fuel : ℕ) (cs : List Bytes)
    → pieces cs < fuel
    → read_from fuel (frames true cs ++ last_chunk) ≡ some (concat cs)
unfolding read_from
read_from-frames zero cs h = absurd (omega arith)
read_from-frames (suc fuel) [] h = refl
read_from-frames (suc fuel) (c ∷ cs) h = elim (Bool-cases (is_empty c)) [
  | inl e ↦ rw (frame-empty true c e) (
      read_from-frames (suc fuel) cs (ground (arith, h, e))
      ∙ ap some (ap (λ x. x ++ concat cs) (sym (nothing c e))))
  | inr e ↦
      ap (read_from (suc fuel)) (append_assoc (frame true c) (frames true cs) last_chunk)
      ∙ read_from-chunk fuel c (frames true cs ++ last_chunk) e
      ∙ ap (prepend c) (read_from-frames fuel cs (ground (arith, h, e)))
]

length-frame : (c : Bytes) → is_empty c ≡ false → 1 ≤ length (frame true c)
unfolding frame
length-frame c e =
    rw (e, length-append (print_hex (length c)) (13 ∷ 10 ∷ (c ++ 13 ∷ 10 ∷ []))) (omega arith)

pieces-fit : (cs : List Bytes) → pieces cs ≤ length (frames true cs)
pieces-fit [] = omega arith
pieces-fit (c ∷ cs) = elim (Bool-cases (is_empty c)) [
  | inl e ↦ rw (e, frame-empty true c e) (pieces-fit cs)
  | inr e ↦
      ground
        (arith, e, length-append (frame true c) (frames true cs), length-frame c e, pieces-fit cs)
]

-- What was framed chunk by chunk, and ended, is read back.
pub read_chunked-frames :
    (cs : List Bytes) → read_chunked (frames true cs ++ last_chunk) ≡ some (concat cs)
unfolding read_chunked
read_chunked-frames cs =
    read_from-frames (suc (length (frames true cs ++ last_chunk))) cs
      (ground (arith, pieces-fit cs, length-append (frames true cs) last_chunk))
