-- ===== src/Http/Static/Ranges.antt =====
-- The ranges that `_parse_range` of localpost/http/static.py returns.
use localpost_py.Prelude.{
  ℕ, ◌+◌, ◌-◌, ◌≤◌, ◌<◌, ◌≡◌, refl, ℤ, pos, negsuc, true, false, not, ◌||◌, Option, none, some, [],
  ◌∷◌, ◌++◌, ltb, leb, ◌==◌, arith, Bool-cases, inl, inr, All, All-append,
}
use Prim.Native.Nat.{min}
use localpost_py.Bytes.{
  Bytes, codes, bytes_eq, is_empty, lower, strip, lstrip, rstrip, is_space, partition, has_byte,
}
use localpost_py.Bytes.Decimal.{
  print_ℕ, parse_int, is_long, IsDigit, print_ℕ-All, print_ℕ_filled, parse_int-print_ℕ,
}
use localpost_py.Http.Static.{
  Range, ignored, unsatisfiable, satisfiable, suffix_range, closed_range, started_range, from_ends,
  parse_range,
}

-- a slice of a file of the size, not empty
abbrev pub InFile : ℕ → Range → Type 0
InFile size ignored = Unit
InFile size unsatisfiable = Unit
InFile size (satisfiable o l) = (0 < l) × (o + l ≤ size)

suffix_range-InFile :
    (n : Option ℤ) (size : ℕ) → size == 0 ≡ false → InFile size (suffix_range n size)
unfolding suffix_range
suffix_range-InFile none size h = tt
suffix_range-InFile (some (negsuc n)) size h = tt
suffix_range-InFile (some (pos n)) size h = elim (Bool-cases (n == 0)) [
  | inl e ↦ rw e tt
  | inr e ↦ rw e (ground (arith, h, e), ground (arith, h, e))
]

closed_range-InFile :
    (start : ℕ) (end : Option ℤ) (size : ℕ)
    → start < size
    → InFile size (closed_range start end size)
unfolding closed_range
closed_range-InFile start none size h = tt
closed_range-InFile start (some (negsuc n)) size h = tt
closed_range-InFile start (some (pos end)) size h = elim (Bool-cases (ltb end start)) [
  | inl e ↦ rw e tt
  | inr e ↦ rw e (omega arith, ground (arith, h, e))
]

started_range-InFile :
    (start : Option ℤ) (end_b : Bytes) (size : ℕ) → InFile size (started_range start end_b size)
unfolding started_range
started_range-InFile none end_b size = tt
started_range-InFile (some (negsuc n)) end_b size = tt
started_range-InFile (some (pos start)) end_b size = elim (Bool-cases (leb size start)) [
  | inl e ↦ rw e tt
  | inr e ↦ elim (Bool-cases (is_empty end_b)) [
    | inl f ↦ rw (e, f) (ground (arith, e), ground (arith, e))
    | inr f ↦ rw (e, f) (closed_range-InFile start (parse_int end_b) size (ground (arith, e)))
  ]
]

from_ends-InFile : (start_b end_b : Bytes) (size : ℕ) → InFile size (from_ends start_b end_b size)
unfolding from_ends
from_ends-InFile start_b end_b size = elim (Bool-cases (size == 0)) [
  | inl e ↦ rw e tt
  | inr e ↦ elim (Bool-cases (is_empty start_b)) [
    | inl f ↦ elim (Bool-cases (is_empty end_b)) [
      | inl g ↦ rw (e, f, g) tt
      | inr g ↦ rw (e, f, g) (suffix_range-InFile (parse_int end_b) size e)
    ]
    | inr f ↦ rw (e, f) (started_range-InFile (parse_int start_b) end_b size)
  ]
]

-- Every range that `_parse_range` finds satisfiable, for any header and any size of the file, is at
-- least one byte long and lies within the file.
pub parse_range-InFile : (header : Bytes) (size : ℕ) → InFile size (parse_range header size)
unfolding parse_range
parse_range-InFile header size =
    let parts = partition b'=' (strip header) in
    let ends = partition b'-' parts.2 in
    elim (Bool-cases (not (bytes_eq (lower parts.0) (codes "bytes")) || is_empty parts.2)) [
      | inl e ↦ rw e tt
      | inr e ↦ elim (Bool-cases (has_byte b',' parts.2)) [
        | inl f ↦ rw (e, f) tt
        | inr f ↦ elim (Bool-cases (not ends.1)) [
          | inl g ↦ rw (e, f, g) tt
          | inr g ↦ rw (e, f, g) (from_ends-InFile ends.0 ends.2 size)
        ]
      ]
    ]

abbrev IsVisible : ℕ → Type 0
IsVisible c = 33 ≤ c

lstrip-IsVisible : (cs : Bytes) → All IsVisible cs → lstrip cs ≡ cs
unfolding lstrip
lstrip-IsVisible [] h = refl
lstrip-IsVisible (c ∷ cs) h = unfold is_space in ground (arith, h.0)

rstrip-IsVisible : (cs : Bytes) → All IsVisible cs → rstrip cs ≡ cs
unfolding rstrip
rstrip-IsVisible [] h = refl
rstrip-IsVisible (c ∷ cs) h = unfold is_space in ground (arith, h.0, rstrip-IsVisible cs h.1)

strip-IsVisible : (cs : Bytes) → All IsVisible cs → strip cs ≡ cs
unfolding strip
strip-IsVisible cs h = rw (lstrip-IsVisible cs h) (rstrip-IsVisible cs h)

digits-IsVisible : (cs : Bytes) → All IsDigit cs → All IsVisible cs
digits-IsVisible [] h = tt
digits-IsVisible (c ∷ cs) h = (omega (arith, h.0), digits-IsVisible cs h.1)

abbrev range_spec : ℕ → ℕ → Bytes
range_spec first last = print_ℕ first ++ b'-' ∷ print_ℕ last

range_spec-IsVisible : (first last : ℕ) → All IsVisible (range_spec first last)
range_spec-IsVisible first last =
    All-append IsVisible (print_ℕ first) (b'-' ∷ print_ℕ last)
      (digits-IsVisible (print_ℕ first) (print_ℕ-All first))
      (omega arith, digits-IsVisible (print_ℕ last) (print_ℕ-All last))

partition-digits :
    (cs rest : Bytes) → All IsDigit cs → partition b'-' (cs ++ b'-' ∷ rest) ≡ (cs, true, rest)
unfolding partition
partition-digits [] rest h = refl
partition-digits (c ∷ cs) rest h = rw (partition-digits cs rest h.1) (ground (arith, h.0))

has_byte-digits :
    (cs rest : Bytes) → All IsDigit cs → has_byte b',' (cs ++ rest) ≡ has_byte b',' rest
unfolding has_byte
has_byte-digits [] rest h = refl
has_byte-digits (c ∷ cs) rest h = ground (arith, h.0, has_byte-digits cs rest h.1)

no_comma : (cs : Bytes) → All IsDigit cs → has_byte b',' cs ≡ false
unfolding has_byte
no_comma [] h = refl
no_comma (c ∷ cs) h = ground (arith, h.0, no_comma cs h.1)

not_empty-append : (cs rest : Bytes) → is_empty rest ≡ false → is_empty (cs ++ rest) ≡ false
not_empty-append [] rest h = h
not_empty-append (c ∷ cs) rest h = refl

eq_zero_positive : (size : ℕ) → 0 < size → size == 0 ≡ false
eq_zero_positive size h = ground (arith, h)

leb-false : (m n : ℕ) → n < m → leb m n ≡ false
leb-false m n h = ground (arith, h)

ltb-false : (m n : ℕ) → n ≤ m → ltb m n ≡ false
ltb-false m n h = ground (arith, h)

from_ends-print :
    (first last size : ℕ)
    → first ≤ last
    → first < size
    → is_long (print_ℕ first) ≡ false
    → is_long (print_ℕ last) ≡ false
    → from_ends (print_ℕ first) (print_ℕ last) size
      ≡ satisfiable first (min last (size - 1) - first + 1)
unfolding from_ends started_range closed_range
from_ends-print first last size le lt short brief =
    rw
      (
        eq_zero_positive size (omega arith),
        print_ℕ_filled first,
        parse_int-print_ℕ first short,
        leb-false size first lt,
        print_ℕ_filled last,
        parse_int-print_ℕ last brief,
        ltb-false last first le,
      )
      refl

-- For `first ≤ last` and `first` inside the file, the header `bytes=first-last` with the two numbers
-- in decimal, if `int` reads as many digits, is served from `first`, up to `last` or the end of the file, whichever comes first.
pub parse_range-print :
    (first last size : ℕ)
    → first ≤ last
    → first < size
    → is_long (print_ℕ first) ≡ false
    → is_long (print_ℕ last) ≡ false
    → parse_range (codes "bytes=" ++ range_spec first last) size
      ≡ satisfiable first (min last (size - 1) - first + 1)
unfolding parse_range partition has_byte lower
parse_range-print first last size le lt short brief =
    let visible : All IsVisible (codes "bytes=" ++ range_spec first last) =
      All-append IsVisible (codes "bytes=") (range_spec first last)
        (omega arith, (omega arith, (omega arith, (omega arith, (omega arith, (omega arith, tt))))))
        (range_spec-IsVisible first last) in
    rw
      (
        strip-IsVisible (codes "bytes=" ++ range_spec first last) visible,
        partition-digits (print_ℕ first) (print_ℕ last) (print_ℕ-All first),
        has_byte-digits (print_ℕ first) (b'-' ∷ print_ℕ last) (print_ℕ-All first),
        no_comma (print_ℕ last) (print_ℕ-All last),
        not_empty-append (print_ℕ first) (b'-' ∷ print_ℕ last) refl,
        from_ends-print first last size le lt short brief,
      )
      refl
