-- ===== src/Bytes/Decimal.antt =====
-- `str(n)` of a number, and `int(b)` of `bytes`.
use localpost_py.Prelude.{
  ℕ, zero, suc, ◌+◌, ◌-◌, ◌*◌, ◌/◌, ◌%◌, ◌≤◌, ◌<◌, ◌≡◌, refl, ℤ, pos, negsuc, Bool, true, false,
  ◌&&◌, Option, none, some, [], ◌∷◌, ◌++◌, ltb, leb, ◌==◌, if◌then◌else◌, arith, Bool-cases, inl,
  inr, All, All-append,
}
use localpost_py.Bytes.{Bytes, strip, lstrip, rstrip, is_empty}

print_from : ℕ → ℕ → Bytes
print_from zero n = []
print_from (suc fuel) n =
    let front = print_from fuel (n / 10) in
    if ltb n 10 then (48 + n) ∷ [] else front ++ (48 + n % 10) ∷ []

-- `str(n).encode("ascii")`
unfoldable pub print_ℕ : ℕ → Bytes
unfolding print_from
print_ℕ n = print_from (suc n) n

-- The digits read so far and whether the last byte was one: `int` allows one `_` between digits.
digit_step : Option (ℕ × Bool) → ℕ → Option (ℕ × Bool)
digit_step none c = none
digit_step (some (n, after_digit)) c =
    if leb 48 c && leb c 57
    then some (n * 10 + (c - 48), true)
    else if c == 95 && after_digit
    then some (n, false)
    else none

digits : Option (ℕ × Bool) → Bytes → Option (ℕ × Bool)
unfolding digit_step
digits st [] = st
digits st (c ∷ cs) = digits (digit_step st c) cs

abbrev whole : Option (ℕ × Bool) → Option ℕ
whole (some (n, true)) = some n
whole st = none

parse_digits : Bytes → Option ℕ
unfolding digits
parse_digits cs = whole (digits (some (0, false)) cs)

abbrev negate : ℕ → ℤ
negate zero = pos 0
negate (suc n) = negsuc n

signed : Bytes → Option ℤ
unfolding parse_digits
signed [] = none
signed (c ∷ cs) =
    if c == b'-'
    then elim (parse_digits cs) [ none ↦ none | some n ↦ some (negate n) ]
    else elim (parse_digits (if c == b'+' then cs else c ∷ cs)) [
      | none ↦ none
      | some n ↦ some (pos n)
    ]

digit_count : Bytes → ℕ
digit_count [] = 0
digit_count (c ∷ cs) = let rest = digit_count cs in if leb 48 c && leb c 57 then suc rest else rest

-- Python's default limit on the digits of a number
pub is_long : Bytes → Bool
unfolding digit_count
is_long cs = ltb 4300 (digit_count cs)

-- `int(b)`; `none` is the `ValueError`, which too many digits also are.
unfoldable pub parse_int : Bytes → Option ℤ
unfolding signed is_long
parse_int cs = if is_long cs then none else signed (strip cs)

digits-append :
    (st : Option (ℕ × Bool)) (cs : Bytes) (c : ℕ)
    → digits st (cs ++ c ∷ []) ≡ digit_step (digits st cs) c
unfolding digits
digits-append st [] c = refl
digits-append st (d ∷ cs) c = digits-append (digit_step st d) cs c

digits-print_from :
    (fuel n : ℕ) → n < fuel → digits (some (0, false)) (print_from fuel n) ≡ some (n, true)
unfolding print_from
digits-print_from zero n h = absurd (omega arith)
digits-print_from (suc fuel) n h = elim (Bool-cases (ltb n 10)) [
  | inl short ↦ rw short (unfold digits digit_step in ground (arith, short))
  | inr long ↦
      rw (long, digits-append, digits-print_from fuel (n / 10) (ground (arith, long)))
        (unfold digit_step in ground arith)
]

parse_digits-print_ℕ : (n : ℕ) → parse_digits (print_ℕ n) ≡ some n
unfolding parse_digits print_ℕ
parse_digits-print_ℕ n = rw (digits-print_from (suc n) n (omega arith)) refl

abbrev pub IsDigit : ℕ → Type 0
IsDigit c = (48 ≤ c) × (c ≤ 57)

print_from-All : (fuel n : ℕ) → n < fuel → All IsDigit (print_from fuel n)
unfolding print_from
print_from-All zero n h = tt
print_from-All (suc fuel) n h = elim (Bool-cases (ltb n 10)) [
  | inl short ↦ rw short ((omega arith, ground (arith, short)), tt)
  | inr long ↦ rw long (
      All-append IsDigit (print_from fuel (n / 10)) ((48 + n % 10) ∷ [])
        (print_from-All fuel (n / 10) (ground (arith, long))) ((omega arith, omega arith), tt))
]

pub print_ℕ-All : (n : ℕ) → All IsDigit (print_ℕ n)
unfolding print_ℕ
print_ℕ-All n = print_from-All (suc n) n (omega arith)

is_empty-snoc : (cs : Bytes) (c : ℕ) → is_empty (cs ++ c ∷ []) ≡ false
is_empty-snoc [] c = refl
is_empty-snoc (d ∷ cs) c = refl

print_from_filled : (fuel n : ℕ) → is_empty (print_from (suc fuel) n) ≡ false
unfolding print_from
print_from_filled fuel n = ground (arith, is_empty-snoc (print_from fuel (n / 10)) (48 + n % 10))

pub print_ℕ_filled : (n : ℕ) → is_empty (print_ℕ n) ≡ false
unfolding print_ℕ
print_ℕ_filled n = print_from_filled n n

lstrip-digits : (cs : Bytes) → All IsDigit cs → lstrip cs ≡ cs
unfolding lstrip
lstrip-digits [] h = refl
lstrip-digits (c ∷ cs) h = ground (arith, h.0)

rstrip-digits : (cs : Bytes) → All IsDigit cs → rstrip cs ≡ cs
unfolding rstrip
rstrip-digits [] h = refl
rstrip-digits (c ∷ cs) h = ground (arith, h.0, rstrip-digits cs h.1)

signed-digits :
    (cs : Bytes) (n : ℕ)
    → is_empty cs ≡ false
    → All IsDigit cs
    → parse_digits cs ≡ some n
    → signed cs ≡ some (pos n)
unfolding signed
signed-digits [] n f h e = cc
signed-digits (c ∷ cs) n f h e = ground (arith, h.0, e)

-- `int` reads what `str` writes, if it is not too long.
pub parse_int-print_ℕ : (n : ℕ) → is_long (print_ℕ n) ≡ false → parse_int (print_ℕ n) ≡ some (pos n)
unfolding parse_int strip
parse_int-print_ℕ n short =
    rw (short, lstrip-digits (print_ℕ n) (print_ℕ-All n), rstrip-digits (print_ℕ n) (print_ℕ-All n))
      (signed-digits (print_ℕ n) n (print_ℕ_filled n) (print_ℕ-All n) (parse_digits-print_ℕ n))
