-- ===== src/Http/Template/Parsing.antt =====
-- localpost/http/router.py: `URITemplate.parse` and `_literal_prefix_len` against the text.
use mathlib.Core.List.{append_assoc}
use localpost_py.Prelude.{
  ◌+◌, ◌≡◌, refl, sym, ◌∙◌, Bool, true, some, List, [], ◌∷◌, ◌++◌, ◌==◌, length, length-append,
  arith, inl, inr, Bool-cases, ◌&&◌,
}
use localpost_py.Bytes.{Bytes, has_byte}
use localpost_py.Http.Template.{
  Part, literal, variable, UriTemplate, Mode, in_literal, in_name, opens, parse_from, parse, names,
  literal_prefix_len,
}

-- The template that a sequence of parts comes from.
pub print_parts : List Part → Bytes
print_parts [] = []
print_parts (literal l ∷ ps) = l ++ print_parts ps
print_parts (variable n ∷ ps) = b'{' ∷ (n ++ b'}' ∷ print_parts ps)

abbrev held : Mode → Bytes
held (in_literal l) = l
held (in_name l n) = l ++ b'{' ∷ n

print-parse_from : (m : Mode) (cs : Bytes) → print_parts (parse_from m cs) ≡ held m ++ cs
unfolding print_parts parse_from
print-parse_from (in_literal l) [] = refl
print-parse_from (in_name l n) [] = refl
print-parse_from (in_literal l) (c ∷ cs) = elim (Bool-cases (c == b'{' && opens cs)) [
  | inl start ↦
      let brace : c ≡ b'{' = ground (arith, start) in
      rw start (print-parse_from (in_name l []) cs ∙ rw (append_assoc, brace) refl)
  | inr other ↦
      rw other (print-parse_from (in_literal (l ++ c ∷ [])) cs ∙ append_assoc l (c ∷ []) cs)
]
print-parse_from (in_name l n) (c ∷ cs) = elim (Bool-cases (c == b'}')) [
  | inl stop ↦
      let brace : c ≡ b'}' = ground (arith, stop) in
      rw stop (
        rw (print-parse_from (in_literal []) cs, brace)
          (sym (append_assoc l (b'{' ∷ n) (b'}' ∷ cs))))
  | inr other ↦ rw other (
      print-parse_from (in_name l (n ++ c ∷ [])) cs
      ∙ rw (append_assoc, append_assoc, append_assoc) refl)
]

-- the text before the first variable, if `parse` made these parts
abbrev pub first_literal : List Part → Bytes
first_literal (literal l ∷ ps) = l
first_literal ps = []

opens_closed : (cs : Bytes) → opens cs ≡ true → has_byte b'}' cs ≡ true
unfolding has_byte
opens_closed [] h = cc
opens_closed (c ∷ cs) h = ground arith

name_length :
    (l n cs : Bytes) → has_byte b'}' cs ≡ true → first_literal (parse_from (in_name l n) cs) ≡ l
unfolding parse_from has_byte
name_length l n [] h = cc
name_length l n (c ∷ cs) h = elim (Bool-cases (c == b'}')) [
  | inl stop ↦ rw stop refl
  | inr other ↦ rw other (name_length l (n ++ c ∷ []) cs (ground (arith, h, other)))
]

prefix_length :
    (l cs : Bytes)
    → length (first_literal (parse_from (in_literal l) cs)) ≡ length l + literal_prefix_len cs
unfolding parse_from literal_prefix_len
prefix_length l [] = omega arith
prefix_length l (c ∷ cs) = elim (Bool-cases (c == b'{' && opens cs)) [
  | inl start ↦
      rw (start, name_length l [] cs (opens_closed cs (ground (arith, start)))) (omega arith)
  | inr other ↦ rw other (omega (arith, prefix_length (l ++ c ∷ []) cs, length-append l (c ∷ [])))
]

-- `parse` keeps the text: printing the parts of a template gives the template back, and the
-- prefix by which the router orders its routes is the literal part in front.
pub parse_roundtrip :
    (identifier : Bytes → Bool) (template : Bytes) {t : UriTemplate}
    → parse identifier template ≡ some t
    → (print_parts t.parts ≡ template)
      × (t.template ≡ template)
      × (t.variable_names ≡ names t.parts)
      × (length (first_literal t.parts) ≡ literal_prefix_len template)
unfolding parse
parse_roundtrip identifier template e =
    let printed = print-parse_from (in_literal []) template in
    let front = prefix_length [] template in
    (ground (arith, e, printed), ground (arith, e), ground (arith, e), ground (arith, e, front))
