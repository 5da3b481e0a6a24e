-- ===== src/Http/Router/Combined.antt =====
-- localpost/http/router.py: the combined pattern, whose groups are renamed, and the templates' own.
use localpost_py.Prelude.{ℕ, suc, ◌≡◌, refl, Bool, false, ◌||◌, Option, none, some, List, [], ◌∷◌}
use localpost_py.Bytes.{Bytes}
use localpost_py.Bytes.Decimal.{print_ℕ}
use localpost_py.Http.Template.{match_parts, reprefixed, match}
use localpost_py.Http.Template.Renaming.{is_some, match_parts-reprefixed}
use localpost_py.Http.Router.{Route, has_args, any_alternative, any_match}

has_args-is_some : (x : Option (List (Bytes × Bytes))) → has_args x ≡ is_some x
has_args-is_some none = refl
has_args-is_some (some x) = refl

module _ {H : Type 0} (path : Bytes) where
  -- the template of some route matches the path
  abbrev pub is_matched : List (Route H) → Bool
  is_matched [] = false
  is_matched (r ∷ rs) = has_args (match r.template path) || is_matched rs

  any_alternative-is_matched :
      (i : ℕ) (rs : List (Route H)) → any_alternative path i rs ≡ is_matched rs
  unfolding any_alternative match
  any_alternative-is_matched i [] = refl
  any_alternative-is_matched i (r ∷ rs) =
      rw
        (
          has_args-is_some (match_parts r.template.parts path),
          has_args-is_some (match_parts (reprefixed (b'r' ∷ print_ℕ i) r.template.parts) path),
          match_parts-reprefixed (b'r' ∷ print_ℕ i) r.template.parts path,
          any_alternative-is_matched (suc i) rs,
        )
        refl

  -- The combined pattern of a router matches exactly the paths that the template of some route does.
  pub any_match-is_matched : (rs : List (Route H)) → any_match path rs ≡ is_matched rs
  unfolding any_match
  any_match-is_matched rs = any_alternative-is_matched 0 rs
