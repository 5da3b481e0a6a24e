-- ===== src/Http/Template.antt =====
-- localpost/http/router.py: `URITemplate`. The pattern that `parse` compiles is a sequence of parts,
-- literal text and `[^/]+` groups in turn, and `match` is what `re` does with it: a group takes as
-- much as it can and gives back byte by byte. `re.compile` rejects a group name that is no
-- identifier or is used twice; which names are identifiers is the argument `identifier`.
pub mod Matching
pub mod Parsing
pub mod Renaming
use localpost_py.Prelude.{
  ℕ, zero, suc, Bool, true, false, not, ◌&&◌, ◌||◌, Option, none, some, List, [], ◌∷◌, ◌++◌, ◌==◌,
  if◌then◌else◌,
}
use localpost_py.Bytes.{Bytes, bytes_eq, is_empty, has_byte, drop_prefix}

pub data Part : Type 0 where
  literal variable : Bytes → Part

pub record UriTemplate : Type 0 where
  pub template : Bytes
  pub variable_names : List Bytes
  pub parts : List Part

-- Inside literal text, or inside the name of a variable that follows some literal text.
pub data Mode : Type 0 where
  in_literal : Bytes → Mode
  in_name : Bytes → Bytes → Mode

-- After `{`, does `[^}]+}` match?
abbrev pub opens : Bytes → Bool
opens [] = false
opens (c ∷ cs) = not (c == b'}') && has_byte b'}' cs

abbrev next_mode : Mode → ℕ → Bytes → Mode
next_mode (in_literal l) c cs =
    if c == b'{' && opens cs then in_name l [] else in_literal (l ++ c ∷ [])
next_mode (in_name l n) c cs = if c == b'}' then in_literal [] else in_name l (n ++ c ∷ [])

abbrev emitted : Mode → ℕ → List Part
emitted (in_literal l) c = []
emitted (in_name l n) c = if c == b'}' then literal l ∷ variable n ∷ [] else []

-- the loop over `_VAR_PATTERN.finditer(template)`
parse_from : Mode → Bytes → List Part
parse_from (in_literal l) [] = literal l ∷ []
parse_from (in_name l n) [] = literal (l ++ b'{' ∷ n) ∷ []
parse_from m (c ∷ cs) = emitted m c ++ parse_from (next_mode m c cs) cs

abbrev pub names : List Part → List Bytes
names [] = []
names (literal l ∷ ps) = names ps
names (variable n ∷ ps) = n ∷ names ps

abbrev one_of : Bytes → List Bytes → Bool
one_of n [] = false
one_of n (m ∷ ms) = bytes_eq n m || one_of n ms

-- what `re.compile` asks of the group names
abbrev compiles : (Bytes → Bool) → List Bytes → Bool
compiles identifier [] = true
compiles identifier (n ∷ ns) = identifier n && not (one_of n ns) && compiles identifier ns

-- `none` is the `re.error`
unfoldable pub parse : (Bytes → Bool) → Bytes → Option UriTemplate
unfolding parse_from
parse identifier t =
    let ps = parse_from (in_literal []) t in
    if compiles identifier (names ps)
    then some (record { template = t; variable_names = names ps; parts = ps })
    else none

-- `$` also matches before a newline that ends the text
abbrev pub at_end : Bytes → Bool
at_end [] = true
at_end (c ∷ cs) = c == 10 && is_empty cs

-- A group `[^/]+` and what follows it, `rest`: the longest value comes first.
greedy {ℓ} : {R : Type ℓ} → (Bytes → Option R) → Bytes → Option (Bytes × R)
greedy rest [] = none
greedy rest (c ∷ cs) =
    let longer = greedy rest cs in
    let here = rest cs in
    if c == b'/' then none else elim longer [
      | some (v, r) ↦ some (c ∷ v, r)
      | none ↦ elim here [ some r ↦ some (c ∷ [], r) | none ↦ none ]
    ]

abbrev bind_name : Bytes → Option (Bytes × List (Bytes × Bytes)) → Option (List (Bytes × Bytes))
bind_name n none = none
bind_name n (some (v, args)) = some ((n, v) ∷ args)

abbrev and_then :
    Option Bytes → (Bytes → Option (List (Bytes × Bytes))) → Option (List (Bytes × Bytes))
and_then none k = none
and_then (some cs) k = k cs

-- `_regex.match(uri)` and `groupdict`
pub match_parts : List Part → Bytes → Option (List (Bytes × Bytes))
unfolding greedy
match_parts [] cs = if at_end cs then some [] else none
match_parts (literal l ∷ ps) cs = and_then (drop_prefix l cs) (match_parts ps)
match_parts (variable n ∷ ps) cs = bind_name n (greedy (match_parts ps) cs)

unfoldable pub match : UriTemplate → Bytes → Option (List (Bytes × Bytes))
unfolding match_parts
match t uri = match_parts t.parts uri

-- `_literal_prefix_len`
unfoldable pub literal_prefix_len : Bytes → ℕ
literal_prefix_len [] = zero
literal_prefix_len (c ∷ cs) =
    let rest = suc (literal_prefix_len cs) in if c == b'{' && opens cs then zero else rest

-- `_reprefixed_regex_source`: the parts of the template, its groups renamed
abbrev pub reprefixed : Bytes → List Part → List Part
reprefixed prefix [] = []
reprefixed prefix (literal l ∷ ps) = literal l ∷ reprefixed prefix ps
reprefixed prefix (variable n ∷ ps) = variable (prefix ++ b'_' ∷ n) ∷ reprefixed prefix ps
