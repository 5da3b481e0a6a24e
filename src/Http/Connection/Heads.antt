-- ===== src/Http/Connection/Heads.antt =====
-- localpost/http/server_httptools.py: the head that a request is built from.
use localpost_py.Prelude.{
  ℕ, ◌≡◌, refl, sym, ap, ◌∙◌, subst, ◌⊎◌, ==_iff, Bool, true, false, ◌||◌, Option, none, some, List,
  [], ◌∷◌, ◌++◌, map, ◌==◌, arith, Bool-cases, inl, inr,
}
use mathlib.Core.List.{append_assoc, append-nil}
use localpost_py.Bytes.{Bytes, is_empty, lower, partition}
use localpost_py.Http.Types.{Headers}
use localpost_py.Http.Connection.{
  Head, Conn, trimmed, asks_continue, flattened, request_of, on_message_begin, on_url, on_header,
  Callback, message_begin, url, header, on_callback, on_callbacks,
}

abbrev pub concat : List Bytes → Bytes
concat [] = []
concat (u ∷ us) = u ++ concat us

abbrev pub normalised : Headers → Headers
normalised [] = []
normalised ((name, value) ∷ hs) = (lower name, trimmed value) ∷ normalised hs

abbrev pub any_asks_continue : Headers → Bool
any_asks_continue [] = false
any_asks_continue (h ∷ hs) = asks_continue h || any_asks_continue hs

-- the callbacks for the head of a message, as the data arrives in pieces
abbrev pub head_callbacks : List Bytes → Headers → List Callback
head_callbacks us hs = message_begin ∷ (map url us ++ map header hs)

partition-joined :
    (sep : ℕ) (cs : Bytes)
    → let (before, found, after) = partition sep cs in
      (before ++ sep ∷ after ≡ cs) ⊎ ((before ≡ cs) × (after ≡ []))
unfolding partition
partition-joined sep [] = inr (refl, refl)
partition-joined sep (c ∷ cs) = elim (Bool-cases (c == sep)) [
  | inl g ↦ rw g (inl (ap (λ x. x ∷ cs) (sym ((==_iff c sep).0 g))))
  | inr g ↦ rw g (elim (partition-joined sep cs) [
    | inl h ↦ inl (ap (λ l. c ∷ l) h)
    | inr h ↦ inr (ap (λ l. c ∷ l) h.0, h.1)
  ])
]

-- what a connection has of the head so far
record IsParsed (target : Bytes) (hs : Headers) (expects : Bool) (c : Conn) : Type 0 where
  pub target_so_far : flattened c ≡ target
  pub in_pieces : is_empty c.cur_target ≡ true → c.cur_target_buf ≡ none
  pub headers_so_far : c.cur_headers ≡ hs
  pub expects_so_far : c.cur_expect_100 ≡ expects

on_url-IsParsed :
    (u : Bytes) (c : Conn) (target : Bytes) (hs : Headers) (expects : Bool)
    → IsParsed target hs expects c
    → IsParsed (target ++ u) hs expects (on_url u c)
unfolding on_url
on_url-IsParsed u c target hs expects p = with_fields c.cur_target c.cur_target_buf p
  where
    with_fields :
        (t : Bytes) (b : Option Bytes)
        → IsParsed target hs expects (record c { cur_target = t; cur_target_buf = b })
        → IsParsed
            (target ++ u)
            hs
            expects
            (on_url u (record c { cur_target = t; cur_target_buf = b }))
    with_fields [] none q = record {
      target_so_far = ap (λ l. l ++ u) q.target_so_far;
      in_pieces = λ e. refl;
      headers_so_far = q.headers_so_far;
      expects_so_far = q.expects_so_far;
    }
    with_fields [] (some b) q = cc (q.in_pieces refl)
    with_fields (x ∷ t) none q = record {
      target_so_far = ap (λ l. l ++ u) q.target_so_far;
      in_pieces = λ e. cc e;
      headers_so_far = q.headers_so_far;
      expects_so_far = q.expects_so_far;
    }
    with_fields (x ∷ t) (some b) q = record {
      target_so_far = ap (λ l. l ++ u) q.target_so_far;
      in_pieces = λ e. cc e;
      headers_so_far = q.headers_so_far;
      expects_so_far = q.expects_so_far;
    }

on_header-IsParsed :
    (h : Bytes × Bytes) (c : Conn) (target : Bytes) (hs : Headers) (expects : Bool)
    → IsParsed target hs expects c
    → IsParsed target (hs ++ normalised (h ∷ [])) (expects || asks_continue h) (on_header h c)
unfolding on_header
on_header-IsParsed (name, value) c target hs expects p = record {
  target_so_far = p.target_so_far;
  in_pieces = p.in_pieces;
  headers_so_far = ap (λ l. l ++ (lower name, trimmed value) ∷ []) p.headers_so_far;
  expects_so_far = ground (arith, p.expects_so_far);
}

-- the request of a head that was parsed
abbrev IsHeadOf : Bytes → Headers → Bool → Head → Conn → Type 0
IsHeadOf target hs expects r d =
    (r.target ≡ target)
    × ((r.path ++ b'?' ∷ r.query_string ≡ target) ⊎ ((r.path ≡ target) × (r.query_string ≡ [])))
    × (r.headers ≡ hs)
    × (d.cur_expect_100 ≡ expects)

IsParsed-IsHeadOf :
    (method version : Bytes) (target : Bytes) (hs : Headers) (expects : Bool) (d : Conn)
    → IsParsed target hs expects d
    → IsHeadOf target hs expects (request_of method version d) d
unfolding request_of
IsParsed-IsHeadOf method version target hs expects d p = (
  p.target_so_far,
  subst
      (λ t.
        let (before, found, after) = partition b'?' (flattened d) in
        (before ++ b'?' ∷ after ≡ t) ⊎ ((before ≡ t) × (after ≡ [])))
      p.target_so_far (partition-joined b'?' (flattened d)),
  p.headers_so_far,
  p.expects_so_far,
)

module _ (max_size : ℕ) (handler : Head → Conn → Conn) (dispatch : Conn → Conn) where
  urls-IsParsed :
      (us : List Bytes) (ks : List Callback) (c : Conn) (target : Bytes) (hs : Headers)
      (expects : Bool)
      → IsParsed target hs expects c
      → (d : Conn) × IsParsed (target ++ concat us) hs expects d
        × (on_callbacks max_size handler dispatch (map url us ++ ks) c
            ≡ on_callbacks max_size handler dispatch ks d)
  unfolding on_callbacks on_callback
  urls-IsParsed [] ks c target hs expects p = (c, rw (append-nil target) p, refl)
  urls-IsParsed (u ∷ us) ks c target hs expects p =
      let (d, q, e) =
        urls-IsParsed us ks (on_url u c) (target ++ u) hs expects
          (on_url-IsParsed u c target hs expects p) in
      (d, subst (λ t. IsParsed t hs expects d) (append_assoc target u (concat us)) q, e)

  headers-IsParsed :
      (more : Headers) (c : Conn) (target : Bytes) (hs : Headers) (expects : Bool)
      → IsParsed target hs expects c
      → IsParsed target
          (hs ++ normalised more)
          (expects || any_asks_continue more)
          (on_callbacks max_size handler dispatch (map header more) c)
  unfolding on_callbacks on_callback
  headers-IsParsed [] c target hs expects p = record {
    target_so_far = p.target_so_far;
    in_pieces = p.in_pieces;
    headers_so_far = p.headers_so_far ∙ sym (append-nil hs);
    expects_so_far = ground (arith, p.expects_so_far);
  }
  headers-IsParsed ((name, value) ∷ more) c target hs expects p =
      let q =
        headers-IsParsed more (on_header (name, value) c) target
          (hs ++ normalised ((name, value) ∷ [])) (expects || asks_continue (name, value))
          (on_header-IsParsed (name, value) c target hs expects p) in
      record {
        target_so_far = q.target_so_far;
        in_pieces = q.in_pieces;
        headers_so_far =
            q.headers_so_far ∙ append_assoc hs (normalised ((name, value) ∷ [])) (normalised more);
        expects_so_far = q.expects_so_far ∙ ground arith;
      }

  -- Whatever a connection has served before, and in however many pieces the target arrives, the request
  -- that is built at the end of a head has the target, which its path and query string make up, and the
  -- headers of this head alone, with their names in lower case and their values trimmed at the end, and
  -- the connection knows whether this head asks for `100 Continue`.
  pub on_callbacks-head :
      (us : List Bytes) (hs : Headers) (method version : Bytes) (c : Conn)
      → let d = on_callbacks max_size handler dispatch (head_callbacks us hs) c in
        let r = request_of method version d in
        (r.target ≡ concat us)
        × ((r.path ++ b'?' ∷ r.query_string ≡ concat us)
            ⊎ ((r.path ≡ concat us) × (r.query_string ≡ [])))
        × (r.headers ≡ normalised hs)
        × (d.cur_expect_100 ≡ any_asks_continue hs)
  unfolding on_callbacks on_callback on_message_begin
  on_callbacks-head us hs method version c =
      let fresh : IsParsed [] [] false (on_message_begin c) = record {
        target_so_far = refl;
        in_pieces = λ e. refl;
        headers_so_far = refl;
        expects_so_far = refl;
      } in
      let (d, p, e) = urls-IsParsed us (map header hs) (on_message_begin c) [] [] false fresh in
      let q = headers-IsParsed hs d (concat us) [] false p in
      IsParsed-IsHeadOf method version (concat us) (normalised hs) (any_asks_continue hs)
        (on_callbacks max_size handler dispatch (head_callbacks us hs) c)
        (subst (IsParsed (concat us) (normalised hs) (any_asks_continue hs)) (sym e) q)
