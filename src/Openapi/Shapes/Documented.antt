-- ===== src/Openapi/Shapes/Documented.antt =====
-- localpost/openapi/_operation_core.py: the statuses that a function's annotation announces.
use localpost_py.Prelude.{
  ℕ, ◌≡◌, ◌⊎◌, inl, inr, refl, sym, ap, ◌∙◌, subst, Bool, true, false, not, ◌&&◌, ◌||◌, none, some,
  List, [], ◌∷◌, ◌++◌, ◌==◌, if◌then◌else◌, arith, Bool-cases, ==_iff,
}
use localpost_py.Bytes.{is_empty}
use localpost_py.Openapi.{not_found, status_code, description}
use localpost_py.Openapi.Shapes.{
  json, ResponseShape, Member, none_member, result_member, stream_member, value_member, shape_of,
  code_of, has_code, Extraction, is_success, add_member, add_members, null_is_not_found, announce,
  nothing_yet, extract_response_shapes, Returned, returned_none, returned_result, returned_stream,
  returned_value, as_result,
}

-- A value is of a member: a result of that very class, anything but `None` and results otherwise.
abbrev pub Conforms : {V : Type 0} → Member → Returned V → Type 0
Conforms none_member returned_none = Unit {0}
Conforms none_member r = ⊥
Conforms (result_member c t) (returned_result r) = r.result_class ≡ c
Conforms (result_member c t) r = ⊥
Conforms m (returned_stream v) = Unit {0}
Conforms m (returned_value v) = Unit {0}
Conforms m r = ⊥

abbrev pub ConformsToAny : {V : Type 0} → List Member → Returned V → Type 0
ConformsToAny [] r = ⊥
ConformsToAny (m ∷ ms) r = Conforms m r ⊎ ConformsToAny ms r

abbrev pub is_none : {V : Type 0} → Returned V → Bool
is_none returned_none = true
is_none r = false

abbrev is_none_member : Member → Bool
is_none_member none_member = true
is_none_member m = false

abbrev any_none : List Member → Bool
any_none [] = false
any_none (m ∷ ms) = is_none_member m || any_none ms

abbrev all_none : List Member → Bool
all_none [] = true
all_none (m ∷ ms) = is_none_member m && all_none ms

abbrev any_success : List Member → Bool
any_success [] = false
any_success (m ∷ ms) = not (is_none_member m) && is_success m || any_success ms

abbrev announces : ℕ → List Member → Bool
announces code [] = false
announces code (m ∷ ms) = not (is_none_member m) && code_of m == code || announces code ms

-- Whether the annotation says what `None` becomes: no other member, or some success and no result of
-- status 404.
abbrev pub tells_none : List Member → Bool
tells_none ms = all_none ms || any_success ms && not (announces 404 ms)

has_code-append :
    (code : ℕ) (ss : List ResponseShape) (s : ResponseShape)
    → has_code code (ss ++ s ∷ []) ≡ has_code code ss || s.status_code == code
has_code-append code [] s = ground arith
has_code-append code (t ∷ ss) s = ground (arith, has_code-append code ss s)

shape_of-code : (m : Member) → (shape_of m).status_code ≡ code_of m
unfolding shape_of
shape_of-code m = ground arith

-- a shape is added unless its status is there
grow-code :
    (code : ℕ) (m : Member) (ss : List ResponseShape)
    → has_code code (if has_code (code_of m) ss then ss else ss ++ shape_of m ∷ [])
      ≡ has_code code ss || code_of m == code
grow-code code m ss = elim (Bool-cases (has_code (code_of m) ss)) [
  | inr g ↦ rw (g, has_code-append code ss (shape_of m), shape_of-code m) refl
  | inl g ↦ elim (Bool-cases (code_of m == code)) [
    | inr h ↦ rw (g, h) (ground arith)
    | inl h ↦
        rw (g, h) (ap (λ c. has_code c ss) (sym ((==_iff (code_of m) code).0 h)) ∙ g ∙ ground arith)
  ]
]

or_false : (b : Bool) → b ≡ b || false
or_false true = refl
or_false false = refl

add_member-code :
    (code : ℕ) (m : Member) (e : Extraction)
    → has_code code (add_member m e).shapes
      ≡ has_code code e.shapes || (not (is_none_member m) && code_of m == code)
unfolding add_member
add_member-code code none_member e = or_false (has_code code e.shapes)
add_member-code code (result_member c t) e = grow-code code (result_member c t) e.shapes
add_member-code code (stream_member t) e = grow-code code (stream_member t) e.shapes
add_member-code code (value_member t) e = grow-code code (value_member t) e.shapes

add_members-code :
    (code : ℕ) (ms : List Member) (e : Extraction)
    → has_code code (add_members ms e).shapes ≡ has_code code e.shapes || announces code ms
unfolding add_members
add_members-code code [] e = or_false (has_code code e.shapes)
add_members-code code (m ∷ ms) e =
    add_members-code code ms (add_member m e)
    ∙ ap (λ b. b || announces code ms) (add_member-code code m e)
    ∙ ground arith

add_members-has_none :
    (ms : List Member) (e : Extraction) → (add_members ms e).has_none ≡ e.has_none || any_none ms
unfolding add_members add_member
add_members-has_none [] e = or_false e.has_none
add_members-has_none (none_member ∷ ms) e =
    ground (arith, add_members-has_none ms (add_member none_member e))
add_members-has_none (result_member c t ∷ ms) e =
    add_members-has_none ms (add_member (result_member c t) e)
add_members-has_none (stream_member t ∷ ms) e =
    add_members-has_none ms (add_member (stream_member t) e)
add_members-has_none (value_member t ∷ ms) e =
    add_members-has_none ms (add_member (value_member t) e)

add_members-has_success :
    (ms : List Member) (e : Extraction)
    → (add_members ms e).has_success ≡ e.has_success || any_success ms
unfolding add_members add_member
add_members-has_success [] e = or_false e.has_success
add_members-has_success (none_member ∷ ms) e = add_members-has_success ms (add_member none_member e)
add_members-has_success (result_member c t ∷ ms) e =
    ground (arith, add_members-has_success ms (add_member (result_member c t) e))
add_members-has_success (stream_member t ∷ ms) e =
    ground (arith, add_members-has_success ms (add_member (stream_member t) e))
add_members-has_success (value_member t ∷ ms) e =
    ground (arith, add_members-has_success ms (add_member (value_member t) e))

all_none-shapes :
    (ms : List Member) (e : Extraction) → all_none ms ≡ true → (add_members ms e).shapes ≡ e.shapes
unfolding add_members add_member
all_none-shapes [] e h = refl
all_none-shapes (none_member ∷ ms) e h = all_none-shapes ms (add_member none_member e) h
all_none-shapes (result_member c t ∷ ms) e h = cc h
all_none-shapes (stream_member t ∷ ms) e h = cc h
all_none-shapes (value_member t ∷ ms) e h = cc h

all_none-success : (ms : List Member) → all_none ms ≡ true → any_success ms ≡ false
all_none-success [] h = refl
all_none-success (none_member ∷ ms) h = all_none-success ms h
all_none-success (result_member c t ∷ ms) h = cc h
all_none-success (stream_member t ∷ ms) h = cc h
all_none-success (value_member t ∷ ms) h = cc h

-- what a value that is not `None` becomes has the status of the member that it is of
Conforms-code :
    {V : Type 0} (null : Bool) (m : Member) (r : Returned V)
    → Conforms m r
    → is_none r ≡ false
    → not (is_none_member m) && code_of m == status_code (as_result null r).result_class ≡ true
unfolding as_result
Conforms-code null none_member returned_none c n = cc n
Conforms-code null none_member (returned_result r) c n = absurd c
Conforms-code null none_member (returned_stream v) c n = absurd c
Conforms-code null none_member (returned_value v) c n = absurd c
Conforms-code null (result_member k t) returned_none c n = absurd c
Conforms-code null (result_member k t) (returned_result r) c n = ground (arith, ap status_code c)
Conforms-code null (result_member k t) (returned_stream v) c n = absurd c
Conforms-code null (result_member k t) (returned_value v) c n = absurd c
Conforms-code null (stream_member t) returned_none c n = absurd c
Conforms-code null (stream_member t) (returned_result r) c n = absurd c
Conforms-code null (stream_member t) (returned_stream v) c n = refl
Conforms-code null (stream_member t) (returned_value v) c n = refl
Conforms-code null (value_member t) returned_none c n = absurd c
Conforms-code null (value_member t) (returned_result r) c n = absurd c
Conforms-code null (value_member t) (returned_stream v) c n = refl
Conforms-code null (value_member t) (returned_value v) c n = refl

ConformsToAny-announces :
    {V : Type 0} (null : Bool) (ms : List Member) (r : Returned V)
    → ConformsToAny ms r
    → is_none r ≡ false
    → announces (status_code (as_result null r).result_class) ms ≡ true
ConformsToAny-announces null [] r c n = absurd c
ConformsToAny-announces null (m ∷ ms) r (inl c) n = ground (arith, Conforms-code null m r c n)
ConformsToAny-announces null (m ∷ ms) r (inr c) n =
    ground (arith, ConformsToAny-announces null ms r c n)

none-member :
    {V : Type 0} (m : Member) (r : Returned V)
    → Conforms m r
    → is_none r ≡ true
    → is_none_member m ≡ true
none-member none_member r c n = refl
none-member (result_member k t) returned_none c n = absurd c
none-member (result_member k t) (returned_result r) c n = cc n
none-member (result_member k t) (returned_stream v) c n = absurd c
none-member (result_member k t) (returned_value v) c n = absurd c
none-member (stream_member t) returned_none c n = absurd c
none-member (stream_member t) (returned_result r) c n = absurd c
none-member (stream_member t) (returned_stream v) c n = cc n
none-member (stream_member t) (returned_value v) c n = cc n
none-member (value_member t) returned_none c n = absurd c
none-member (value_member t) (returned_result r) c n = absurd c
none-member (value_member t) (returned_stream v) c n = cc n
none-member (value_member t) (returned_value v) c n = cc n

none-any_none :
    {V : Type 0} (ms : List Member) (r : Returned V)
    → ConformsToAny ms r
    → is_none r ≡ true
    → any_none ms ≡ true
none-any_none [] r c n = absurd c
none-any_none (m ∷ ms) r (inl c) n = ground (arith, none-member m r c n)
none-any_none (m ∷ ms) r (inr c) n = ground (arith, none-any_none ms r c n)

is_none-returned : {V : Type 0} (r : Returned V) → is_none r ≡ true → r ≡ returned_none
is_none-returned returned_none n = refl
is_none-returned (returned_result r) n = cc n
is_none-returned (returned_stream v) n = cc n
is_none-returned (returned_value v) n = cc n

no_shapes : (ss : List ResponseShape) → is_empty ss ≡ true → ss ≡ []
no_shapes [] e = refl
no_shapes (s ∷ ss) e = cc e

-- a status of a shape that was collected stays among the announced ones
announce-code :
    (code : ℕ) (e : Extraction)
    → has_code code e.shapes ≡ true
    → has_code code (announce e).0 ≡ true
unfolding announce
announce-code code e h = elim (Bool-cases (null_is_not_found e)) [
  | inl g ↦
      rw (announce, g)
        (has_code-append code e.shapes (record {
          status_code = 404;
          description = description not_found;
          body_type = none;
          content_type = json;
        })
          ∙ ground (arith, h))
  | inr g ↦ elim (Bool-cases (is_empty e.shapes)) [
    | inl k ↦ cc (sym h, ap (has_code code) (no_shapes e.shapes k))
    | inr k ↦ rw (announce, g, k) (ground (arith, h))
  ]
]

announce-null :
    (e : Extraction)
    → null_is_not_found e ≡ true
    → ((announce e).1 ≡ true) × (has_code 404 (announce e).0 ≡ true)
unfolding announce
announce-null e h =
    rw (announce, h)
      (
        refl,
        has_code-append 404 e.shapes (record {
          status_code = 404;
          description = description not_found;
          body_type = none;
          content_type = json;
        })
            ∙ ground arith,
      )

announce-nothing :
    (e : Extraction)
    → e.has_success ≡ false
    → e.shapes ≡ []
    → ((announce e).1 ≡ false) × (has_code 200 (announce e).0 ≡ true)
unfolding announce
announce-nothing e h k = (ground (arith, h, k), ground (arith, h, k))

abbrev extraction : List Member → Extraction
extraction ms = add_members ms nothing_yet

announced-code :
    (code : ℕ) (ms : List Member)
    → announces code ms ≡ true
    → has_code code (announce (extraction ms)).0 ≡ true
announced-code code ms h =
    announce-code code (extraction ms) (add_members-code code ms nothing_yet ∙ h)

none-code :
    (V : Type 0) (ms : List Member)
    → any_none ms ≡ true
    → tells_none ms ≡ true
    → has_code
        (status_code (as_result {V = V} (announce (extraction ms)).1 returned_none).result_class)
        (announce (extraction ms)).0
      ≡ true
unfolding as_result
none-code V ms any tells = elim (Bool-cases (all_none ms)) [
  | inl g ↦
      let (flag, code) =
        announce-nothing (extraction ms)
          (add_members-has_success ms nothing_yet ∙ all_none-success ms g)
          (all_none-shapes ms nothing_yet g) in
      rw flag code
  | inr g ↦
      let (flag, code) = announce-null (extraction ms) (
        ground (
          arith,
          any,
          g,
          tells,
          add_members-has_none ms nothing_yet,
          add_members-has_success ms nothing_yet,
          add_members-code 404 ms nothing_yet,
        )) in
      rw flag code
]

-- A value that is of its function's return annotation becomes a result whose status the document
-- announces, if the value is not `None` or the annotation tells what `None` becomes.
pub returned_is_announced :
    {V : Type 0} (ms : List Member) (r : Returned V)
    → ConformsToAny ms r
    → is_none r && not (tells_none ms) ≡ false
    → has_code
        (status_code (as_result (extract_response_shapes (some ms)).1 r).result_class)
        (extract_response_shapes (some ms)).0
      ≡ true
unfolding extract_response_shapes
returned_is_announced {V} ms r c h = elim (Bool-cases (is_none r)) [
  | inr g ↦
      announced-code (status_code (as_result (announce (extraction ms)).1 r).result_class) ms
        (ConformsToAny-announces (announce (extraction ms)).1 ms r c g)
  | inl g ↦
      subst
        (λ x.
          has_code (status_code (as_result (announce (extraction ms)).1 x).result_class)
            (announce (extraction ms)).0
          ≡ true)
        (sym (is_none-returned r g))
        (none-code V ms (none-any_none ms r c g) (ground (arith, g, h)))
]
