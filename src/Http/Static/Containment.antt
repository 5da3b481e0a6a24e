-- ===== src/Http/Static/Containment.antt =====
-- `_resolve` of localpost/http/static.py against the root.
use localpost_py.Prelude.{
  ◌≡◌, ◌⊎◌, ◌↔◌, refl, sym, ap, ◌∙◌, true, false, none, some, arith, Bool-cases, Option-cases, inl,
  inr,
}
use localpost_py.Bytes.{Bytes, split, has_byte}
use localpost_py.Http.Static.{FileSystem, Config, has_dots, strip_slashes, resolve_index, resolve}

module _ {P : Type 0} (fs : FileSystem P) (config : Config P) where
  -- no directory, or the index of one
  abbrev pub IsFound : P → P → Type 0
  IsFound candidate target =
      (fs.is_dir candidate ≡ some false) × (target ≡ candidate)
      ⊎ (fs.is_dir candidate ≡ some true)
        × (index : Bytes) × (config.index ≡ some index)
        × (target ≡ fs.resolve_under candidate index)
        × (fs.is_relative_to target config.root ≡ true)

  -- What a resolved path went through: the decoded text has no NUL and no `..` segment, and the path
  -- that it names under the root is inside it.
  abbrev pub IsVetted : Bytes → P → Type 0
  IsVetted decoded target =
      let candidate = fs.resolve_under config.root (strip_slashes decoded) in
      (has_byte 0 decoded ≡ false)
      × (has_dots (split b'/' decoded) ≡ false)
      × (fs.is_relative_to candidate config.root ≡ true)
      × IsFound candidate target

  resolve_index→IsFound :
      (candidate target : P)
      → fs.is_dir candidate ≡ some true
      → resolve_index fs config candidate ≡ some target
      → IsFound candidate target
  unfolding resolve_index
  resolve_index→IsFound candidate target dir h = elim (Option-cases config.index) [
    | inl e ↦ ground (arith, e, h)
    | inr (index, e) ↦ inr (dir, index, e, ground (arith, e, h), ground (arith, e, h))
  ]

  IsFound→resolve :
      (rel decoded : Bytes) (target : P)
      → fs.unquote rel ≡ some decoded
      → IsVetted decoded target
      → resolve fs config rel ≡ some target
  unfolding resolve resolve_index
  IsFound→resolve rel decoded target e (nul, dots, inside, inl (dir, same)) =
      rw (resolve, e, nul, dots, inside, dir) (ap some (sym same))
  IsFound→resolve rel decoded target e (nul, dots, inside, inr (dir, index, i, same, again)) =
      rw (resolve, e, nul, dots, inside, dir, i, sym same, again) refl

  from_candidate :
      (candidate target : P)
      → elim (fs.is_dir candidate) [
        | none ↦ none
        | some true ↦ resolve_index fs config candidate
        | some false ↦ some candidate
      ]
        ≡ some target
      → IsFound candidate target
  from_candidate candidate target h = elim (Option-cases (fs.is_dir candidate)) [
    | inl e ↦ ground (arith, e, h)
    | inr (true, e) ↦ resolve_index→IsFound candidate target e (ground (arith, e, h))
    | inr (false, e) ↦ inl (e, ground (arith, e, h))
  ]

  -- `_resolve` after its checks
  resolve_vetted :
      (rel decoded : Bytes)
      → fs.unquote rel ≡ some decoded
      → has_byte 0 decoded ≡ false
      → has_dots (split b'/' decoded) ≡ false
      → fs.is_relative_to (fs.resolve_under config.root (strip_slashes decoded)) config.root ≡ true
      → resolve fs config rel
        ≡ elim (fs.is_dir (fs.resolve_under config.root (strip_slashes decoded))) [
          | none ↦ none
          | some true ↦
              resolve_index fs config (fs.resolve_under config.root (strip_slashes decoded))
          | some false ↦ some (fs.resolve_under config.root (strip_slashes decoded))
        ]
  unfolding resolve
  resolve_vetted rel decoded e nul dots inside = rw (resolve, e, nul, dots, inside) refl

  -- `_resolve` returns a path exactly for a decoded text with no NUL and no `..` segment whose path
  -- is inside the root: that path if it is no directory, else the configured index of the directory
  -- if that is inside the root too.
  pub resolve_iff :
      (rel : Bytes) (target : P)
      → (resolve fs config rel ≡ some target)
        ↔ ((decoded : Bytes) × (fs.unquote rel ≡ some decoded) × IsVetted decoded target)
  unfolding resolve
  resolve_iff rel target = (
    λ h. elim (Option-cases (fs.unquote rel)) [
      | inl e ↦ ground (arith, e, h)
      | inr (decoded, e) ↦ elim (Bool-cases (has_byte 0 decoded)) [
        | inl nul ↦ ground (arith, e, nul, h)
        | inr nul ↦ elim (Bool-cases (has_dots (split b'/' decoded))) [
          | inl dots ↦ ground (arith, e, nul, dots, h)
          | inr dots ↦
              let candidate = fs.resolve_under config.root (strip_slashes decoded) in
              elim (Bool-cases (fs.is_relative_to candidate config.root)) [
                | inl inside ↦ (
                  decoded,
                  e,
                  (
                    nul,
                    dots,
                    inside,
                    from_candidate candidate target
                        (sym (resolve_vetted rel decoded e nul dots inside) ∙ h),
                  ),
                )
                | inr inside ↦ ground (arith, e, nul, dots, inside, h)
              ]
        ]
      ]
    ],
    λ (decoded, e, vetted). IsFound→resolve rel decoded target e vetted,
  )
