-- ===== src/Http/Template/Matching.antt =====
-- localpost/http/router.py: which paths a template matches, and with which arguments.
use localpost_py.Prelude.{
  ℕ, ◌≡◌, ◌≢◌, refl, subst, ap, ◌∙◌, true, false, Option, none, some, List, [], ◌∷◌, ◌++◌, ◌==◌,
  arith, inl, inr, Bool-cases, Option-cases,
}
use localpost_py.Bytes.{Bytes, has_byte, is_empty, drop_prefix}
use localpost_py.Bytes.Laws.{drop_prefix-append, drop_prefix→append}
use localpost_py.Http.Template.{
  Part, literal, variable, UriTemplate, at_end, greedy, match_parts, match,
}

-- A value of a variable: not empty, and within one segment.
pub record IsSegment (v : Bytes) : Type 0 where
  pub filled : is_empty v ≡ false
  pub no_slash : has_byte b'/' v ≡ false

-- The path is the template with a segment in place of each variable, up to one last newline.
pub data Fits : List Part → Bytes → List (Bytes × Bytes) → Type 0 where
  ends : (cs : Bytes) → at_end cs ≡ true → Fits [] cs []
  text :
      (l : Bytes) {ps : List Part} {cs : Bytes} {args : List (Bytes × Bytes)}
      → Fits ps cs args
      → Fits (literal l ∷ ps) (l ++ cs) args
  segment :
      (n v : Bytes) {ps : List Part} {cs : Bytes} {args : List (Bytes × Bytes)}
      → IsSegment v
      → Fits ps cs args
      → Fits (variable n ∷ ps) (v ++ cs) ((n, v) ∷ args)

module _ {R : Type 0} (rest : Bytes → Option R) where
  -- what a group took, and where it left off
  pub record IsTaken (cs v : Bytes) (r : R) : Type 0 where
    pub one_segment : IsSegment v
    pub after : Bytes
    pub split_at : cs ≡ v ++ after
    pub goes_on : rest after ≡ some r

  IsTaken-longer :
      (c : ℕ) (cs v' v : Bytes) (r' r : R)
      → (c == b'/') ≡ false
      → IsTaken cs v' r'
      → c ∷ v' ≡ v
      → r' ≡ r
      → IsTaken (c ∷ cs) v r
  unfolding has_byte
  IsTaken-longer c cs v' v r' r n k ev er = record {
    one_segment = record {
      filled = rw (← ev) refl;
      no_slash = rw (← ev) (ground (arith, k.one_segment.no_slash));
    };
    after = k.after;
    split_at = rw (← ev) (ap (λ (l : Bytes). c ∷ l) k.split_at);
    goes_on = k.goes_on ∙ ap some er;
  }

  IsTaken-here :
      (c : ℕ) (cs v : Bytes) (r' r : R)
      → (c == b'/') ≡ false
      → rest cs ≡ some r'
      → c ∷ [] ≡ v
      → r' ≡ r
      → IsTaken (c ∷ cs) v r
  unfolding has_byte
  IsTaken-here c cs v r' r n e ev er = record {
    one_segment = record { filled = rw (← ev) refl; no_slash = rw (← ev) (ground arith) };
    after = cs;
    split_at = rw (← ev) refl;
    goes_on = e ∙ ap some er;
  }

  greedy_sound : (cs v : Bytes) (r : R) → greedy rest cs ≡ some (v, r) → IsTaken cs v r
  unfolding greedy
  greedy_sound [] v r e = cc
  greedy_sound (c ∷ cs) v r e = elim (Bool-cases (c == b'/')) [
    | inl slash ↦ ground (arith, slash, e)
    | inr other ↦ elim (Option-cases (greedy rest cs)) [
      | inl short ↦ elim (Option-cases (rest cs)) [
        | inl x ↦ ground (arith, e)
        | inr (r', x) ↦ IsTaken-here c cs v r' r other x (ground (arith, e)) (ground (arith, e))
      ]
      | inr ((v', r'), long) ↦
          IsTaken-longer c cs v' v r' r other (greedy_sound cs v' r' long) (ground (arith, e))
            (ground (arith, e))
    ]
  ]

  greedy_complete :
      (v after : Bytes) → IsSegment v → rest after ≢ none → greedy rest (v ++ after) ≢ none
  unfolding greedy has_byte
  greedy_complete [] after s h = cc
  greedy_complete (c ∷ []) after s h = ground (arith, s.no_slash, h)
  greedy_complete (c ∷ d ∷ v) after s h = ground (
    arith,
    s.no_slash,
    greedy_complete (d ∷ v) after (record { filled = refl; no_slash = ground (arith, s.no_slash) })
        h,
  )

-- A match is a fit, with the arguments that it reports.
pub match_parts-Fits :
    (ps : List Part) (cs : Bytes) (args : List (Bytes × Bytes))
    → match_parts ps cs ≡ some args
    → Fits ps cs args
unfolding match_parts
match_parts-Fits [] cs args e = elim (Bool-cases (at_end cs)) [
  | inl over ↦
      let same : [] ≡ args = ground (arith, e, over) in
      subst (λ a. Fits [] cs a) same (ends cs over)
  | inr more ↦ ground (arith, e, more)
]
match_parts-Fits (literal l ∷ ps) cs args e = elim (Option-cases (drop_prefix l cs)) [
  | inl missing ↦ ground (arith, e, missing)
  | inr (after, found) ↦
      rw (drop_prefix→append l cs found)
        (text l (match_parts-Fits ps after args (ground (arith, e, found))))
]
match_parts-Fits (variable n ∷ ps) cs args e = elim (Option-cases (greedy (match_parts ps) cs)) [
  | inl nothing ↦ ground (arith, e, nothing)
  | inr ((v, rest), taken) ↦
      let k = greedy_sound (match_parts ps) cs v rest taken in
      let same : (n, v) ∷ rest ≡ args = ground (arith, e, taken) in
      subst (λ a. Fits (variable n ∷ ps) cs a) same
        (rw k.split_at (segment n v k.one_segment (match_parts-Fits ps k.after rest k.goes_on)))
]

-- Where some arguments fit, there is a match.
pub Fits-match_parts :
    (ps : List Part) (cs : Bytes) (args : List (Bytes × Bytes))
    → Fits ps cs args
    → match_parts ps cs ≢ none
unfolding match_parts
Fits-match_parts _ _ _ (ends cs e) = ground (arith, e)
Fits-match_parts _ _ _ (text l {ps} {cs} {args} f) =
    rw (drop_prefix-append l cs) (Fits-match_parts ps cs args f)
Fits-match_parts _ _ _ (segment n v {ps} {cs} {args} s f) =
    let found = greedy_complete (match_parts ps) v cs s (Fits-match_parts ps cs args f) in
    elim (Option-cases (greedy (match_parts ps) (v ++ cs))) [
      | inl nothing ↦ absurd (found nothing)
      | inr ((w, rest), taken) ↦ λ e. ground (arith, e, taken)
    ]

-- Whatever a template matches fits it: the path is the template's text with one segment, not empty
-- and free of slashes, in place of each variable, up to one newline that may end the path, and the
-- arguments are those segments by name.
pub match-Fits :
    (t : UriTemplate) (uri : Bytes) (args : List (Bytes × Bytes))
    → match t uri ≡ some args
    → Fits t.parts uri args
unfolding match
match-Fits t uri args e = match_parts-Fits t.parts uri args e

-- No fit is missed: a path that is the template with segments in place of its variables, up to one
-- newline that may end the path, matches.
pub Fits-match :
    (t : UriTemplate) (uri : Bytes) (args : List (Bytes × Bytes))
    → Fits t.parts uri args
    → match t uri ≢ none
unfolding match
Fits-match t uri args f = Fits-match_parts t.parts uri args f
