-- ===== src/Http/Template/Renaming.antt =====
-- localpost/http/router.py: patterns whose groups are renamed.
use localpost_py.Prelude.{
  ◌≡◌, refl, Bool, true, false, Option, none, some, List, [], ◌∷◌, arith, Option-cases, inl, inr,
}
use localpost_py.Bytes.{Bytes, drop_prefix}
use localpost_py.Http.Template.{Part, literal, variable, greedy, bind_name, match_parts, reprefixed}

abbrev pub is_some {ℓ} : {A : Type ℓ} → Option A → Bool
is_some none = false
is_some (some a) = true

-- whether a group can be filled depends on what follows it by success alone
greedy-is_some :
    {R : Type 0} (k l : Bytes → Option R)
    → ((cs : Bytes) → is_some (k cs) ≡ is_some (l cs))
    → (cs : Bytes) → is_some (greedy k cs) ≡ is_some (greedy l cs)
unfolding greedy
greedy-is_some k l h [] = refl
greedy-is_some k l h (c ∷ cs) = ground (arith, greedy-is_some k l h cs, h cs)

bind_name-has_args :
    (m n : Bytes) (x y : Option (Bytes × List (Bytes × Bytes)))
    → is_some x ≡ is_some y
    → is_some (bind_name m x) ≡ is_some (bind_name n y)
bind_name-has_args m n none none h = refl
bind_name-has_args m n (some x) (some y) h = refl
bind_name-has_args m n none (some y) h = cc h
bind_name-has_args m n (some x) none h = cc h

-- Renaming the groups of a pattern does not change what it matches.
pub match_parts-reprefixed :
    (prefix : Bytes) (ps : List Part) (cs : Bytes)
    → is_some (match_parts (reprefixed prefix ps) cs) ≡ is_some (match_parts ps cs)
unfolding match_parts
match_parts-reprefixed prefix [] cs = refl
match_parts-reprefixed prefix (literal l ∷ ps) cs = elim (Option-cases (drop_prefix l cs)) [
  | inl e ↦ rw e refl
  | inr (after, e) ↦ rw e (match_parts-reprefixed prefix ps after)
]
match_parts-reprefixed prefix (variable n ∷ ps) cs = bind_name-has_args _ _ _ _ (
    greedy-is_some (match_parts (reprefixed prefix ps)) (match_parts ps)
      (match_parts-reprefixed prefix ps) cs)
