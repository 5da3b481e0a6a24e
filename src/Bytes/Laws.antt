-- ===== src/Bytes/Laws.antt =====
-- Equality and prefixes of `bytes`.
use localpost_py.Prelude.{
  ◌≡◌, ◌↔◌, refl, sym, ◌∙◌, true, some, [], ◌∷◌, ◌++◌, arith, Bool-cases, inl, inr,
}
use localpost_py.Bytes.{Bytes, bytes_eq, drop_prefix}

pub bytes_eq→eq : (cs ds : Bytes) → bytes_eq cs ds ≡ true → cs ≡ ds
bytes_eq→eq [] [] h = refl
bytes_eq→eq [] (d ∷ ds) h = cc
bytes_eq→eq (c ∷ cs) [] h = cc
bytes_eq→eq (c ∷ cs) (d ∷ ds) h = ground (arith, bytes_eq→eq cs ds)

pub bytes_eq_refl : (cs : Bytes) → bytes_eq cs cs ≡ true
bytes_eq_refl [] = refl
bytes_eq_refl (c ∷ cs) = ground (arith, bytes_eq_refl cs)

pub eq→bytes_eq : (cs ds : Bytes) → cs ≡ ds → bytes_eq cs ds ≡ true
eq→bytes_eq cs ds e = rw e (bytes_eq_refl ds)

pub bytes_eq_iff : (cs ds : Bytes) → (bytes_eq cs ds ≡ true) ↔ (cs ≡ ds)
bytes_eq_iff cs ds = (bytes_eq→eq cs ds, eq→bytes_eq cs ds)

pub bytes_eq_sym : (s t : Bytes) → bytes_eq s t ≡ bytes_eq t s
bytes_eq_sym s t = elim (Bool-cases (bytes_eq s t)) [
  | inl e ↦ e ∙ sym ((bytes_eq_iff t s).1 (sym ((bytes_eq_iff s t).0 e)))
  | inr e ↦ elim (Bool-cases (bytes_eq t s)) [
    | inl f ↦ cc (e, (bytes_eq_iff s t).1 (sym ((bytes_eq_iff t s).0 f)))
    | inr f ↦ e ∙ sym f
  ]
]

pub drop_prefix-append : (ps cs : Bytes) → drop_prefix ps (ps ++ cs) ≡ some cs
unfolding drop_prefix
drop_prefix-append [] cs = refl
drop_prefix-append (p ∷ ps) cs = ground (arith, drop_prefix-append ps cs)

pub drop_prefix→append :
    (ps cs : Bytes) {rest : Bytes} → drop_prefix ps cs ≡ some rest → cs ≡ ps ++ rest
unfolding drop_prefix
drop_prefix→append [] cs h = cc
drop_prefix→append (p ∷ ps) [] h = cc
drop_prefix→append (p ∷ ps) (c ∷ cs) {rest} h =
    ground (arith, drop_prefix→append ps cs {rest = rest})
