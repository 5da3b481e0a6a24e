-- ===== src/Bytes/Hex.antt =====
-- `f"{n:x}"` of a number, and reading it back.
use localpost_py.Prelude.{
  ℕ, zero, suc, ◌+◌, ◌-◌, ◌*◌, ◌/◌, ◌%◌, ◌<◌, ◌≡◌, refl, ap, ◌∙◌, ◌&&◌, Option, none, some, [], ◌∷◌,
  ◌++◌, ltb, leb, if◌then◌else◌, arith, Bool-cases, inl, inr, All, All-append,
}
use localpost_py.Bytes.{Bytes}

unfoldable pub hex_digit : ℕ → ℕ
hex_digit d = if ltb d 10 then 48 + d else 87 + d

unfoldable pub hex_from : ℕ → ℕ → Bytes
unfolding hex_digit
hex_from zero n = []
hex_from (suc fuel) n =
    let front = hex_from fuel (n / 16) in
    if ltb n 16 then hex_digit n ∷ [] else front ++ hex_digit (n % 16) ∷ []

unfoldable pub print_hex : ℕ → Bytes
unfolding hex_from
print_hex n = hex_from (suc n) n

-- lower-case digits only
unfoldable pub hex_value : ℕ → Option ℕ
hex_value c =
    if leb 48 c && leb c 57
    then some (c - 48)
    else if leb 97 c && leb c 102
    then some (c - 87)
    else none

hex_step : Option ℕ → ℕ → Option ℕ
unfolding hex_value
hex_step none c = none
hex_step (some n) c = elim (hex_value c) [ none ↦ none | some d ↦ some (n * 16 + d) ]

read_from : Option ℕ → Bytes → Option ℕ
unfolding hex_step
read_from st [] = st
read_from st (c ∷ cs) = read_from (hex_step st c) cs

unfoldable pub read_hex : Bytes → Option ℕ
unfolding read_from
read_hex cs = read_from (some 0) cs

read_from-append :
    (st : Option ℕ) (cs : Bytes) (c : ℕ)
    → read_from st (cs ++ c ∷ []) ≡ hex_step (read_from st cs) c
unfolding read_from
read_from-append st [] c = refl
read_from-append st (d ∷ cs) c = read_from-append (hex_step st d) cs c

hex_value-hex_digit : (d : ℕ) → d < 16 → hex_value (hex_digit d) ≡ some d
unfolding hex_value hex_digit
hex_value-hex_digit d h = ground (arith, h)

hex_step-digit : (n d : ℕ) → d < 16 → hex_step (some n) (hex_digit d) ≡ some (n * 16 + d)
unfolding hex_step
hex_step-digit n d h = rw (hex_step, hex_value-hex_digit d h) refl

read_from-hex_from : (fuel n : ℕ) → n < fuel → read_from (some 0) (hex_from fuel n) ≡ some n
unfolding hex_from
read_from-hex_from zero n h = absurd (omega arith)
read_from-hex_from (suc fuel) n h = elim (Bool-cases (ltb n 16)) [
  | inl short ↦
      rw short
        (unfold read_from in (hex_step-digit 0 n (ground (arith, short)) ∙ ap some (omega arith)))
  | inr long ↦
      rw
        (
          long,
          read_from-append,
          read_from-hex_from fuel (n / 16) (ground (arith, long)),
          hex_step-digit (n / 16) (n % 16) (omega arith),
        )
        (ground arith)
]

-- Reading what was printed gives the number.
pub read_hex-print_hex : (n : ℕ) → read_hex (print_hex n) ≡ some n
unfolding read_hex print_hex
read_hex-print_hex n = read_from-hex_from (suc n) n (omega arith)

-- no digit is the carriage return
abbrev pub IsVisible : ℕ → Type 0
IsVisible c = 13 < c

hex_digit-IsVisible : (d : ℕ) → IsVisible (hex_digit d)
unfolding hex_digit
hex_digit-IsVisible d = ground arith

hex_from-All : (fuel n : ℕ) → All IsVisible (hex_from fuel n)
unfolding hex_from
hex_from-All zero n = tt
hex_from-All (suc fuel) n = elim (Bool-cases (ltb n 16)) [
  | inl short ↦ rw short (hex_digit-IsVisible n, tt)
  | inr long ↦ rw long (
      All-append IsVisible (hex_from fuel (n / 16)) (hex_digit (n % 16) ∷ [])
        (hex_from-All fuel (n / 16)) (hex_digit-IsVisible (n % 16), tt))
]

pub print_hex-All : (n : ℕ) → All IsVisible (print_hex n)
unfolding print_hex
print_hex-All n = hex_from-All (suc n) n
