-- ===== src/Http/Selector/Kept.antt =====
-- localpost/http/_base.py: the changes of one connection keep where the connections stand.
use localpost_py.Prelude.{
  ℕ, zero, suc, ◌+◌, ◌≡◌, ◌⊎◌, refl, sym, ap, ◌∙◌, subst, true, false, Option, none, some, List, [],
  ◌∷◌, ◌++◌, length, get_elem?, arith, Bool-cases, inl, inr, ◌==◌, ==_iff, if◌then◌else◌,
}
use localpost_py.Http.Selector.{
  Conn, Callback, drain_wakeup, accept_listener, conn_at, Op, op_track, Selector, find_key, set_key,
  update, is_key, is_used, fresh, add_conn,
}
use localpost_py.Http.Selector.Watched.{
  count_in, no_close, count_keys, Inv, find_key-set_key, is_key-set, set_key-IsTable, some_inj,
  update-inv, update-forth, update-none, update-IsDistinct,
}

pub conn_at_inj : (i j : ℕ) → some (conn_at i) ≡ some (conn_at j) → i ≡ j
conn_at_inj i j e = cc e

-- a change of connection `i` and of the queue that leaves the table
module _ (i : ℕ) (f : Conn → Conn) (same_fd : (c : Conn) → (f c).fd ≡ c.fd)
    (shrinks : (c : Conn) → (f c).is_open ≡ true → c.is_open ≡ true) where
  pub change-Inv :
      (q q' : List Op) (s : Selector) (c : Conn)
      → get_elem? s.conns i ≡ some c
      → count_in i q' + count_keys i c s.fd_to_key ≡ (if (f c).tracked then 1 else 0)
      → (is_key i (find_key c.fd s.fd_to_key) ≡ true → (f c).is_open ≡ true)
      → ((j : ℕ) → i == j ≡ false → count_in j q' ≡ count_in j q)
      → no_close q' ≡ true
      → Inv q s
      → Inv q' (record s { conns = update i f s.conns })
  change-Inv q q' s c here placed_i live_i others calm inv = record {
    placed = λ j d e. elim (update-inv i j f s.conns d e) [
      | inl (g, (c', h, k)) ↦
          let same : c' ≡ c = some_inj c' c (sym h ∙ sym (ap (get_elem? s.conns) g) ∙ here) in
          let fc : f c ≡ d = ap f (sym same) ∙ k in
          subst (λ x. count_in x q' + count_keys x d s.fd_to_key ≡ (if d.tracked then 1 else 0)) g
            (subst
              (λ n.
                count_in i q' + (if is_key i (find_key n s.fd_to_key) then 1 else 0)
                ≡ (if d.tracked then 1 else 0))
              (sym (same_fd c) ∙ ap (λ x. x.fd) fc)
              (placed_i ∙ ap (λ x. if x.tracked then 1 else 0) fc))
      | inr (g, h) ↦ ap (λ n. n + count_keys j d s.fd_to_key) (others j g) ∙ inv.placed j d h
    ];
    live = λ j d e k. elim (update-inv i j f s.conns d e) [
      | inl (g, (c', h, m)) ↦
          let same : c' ≡ c = some_inj c' c (sym h ∙ sym (ap (get_elem? s.conns) g) ∙ here) in
          let fc : f c ≡ d = ap f (sym same) ∙ m in
          ap (λ x. x.is_open) (sym fc)
          ∙ live_i (
              subst (λ x. is_key x (find_key c.fd s.fd_to_key) ≡ true) (sym g)
                (subst (λ n. is_key j (find_key n s.fd_to_key) ≡ true)
                  (ap (λ x. x.fd) (sym fc) ∙ same_fd c) k))
      | inr (g, h) ↦ inv.live j d h k
    ];
    distinct = update-IsDistinct i f same_fd shrinks s.conns inv.distinct;
    keyed = λ fd j k.
        let (x, e, g) = inv.keyed fd j k in
        let (y, e', g') = update-forth i f same_fd shrinks s.conns j x e in (y, e', g' ∙ g);
    known = λ j e. elim (Bool-cases (i == j)) [
      | inl g ↦
          let gone = update-none i f same_fd shrinks s.conns j e in
          cc (gone, here, (==_iff i j).0 g)
      | inr g ↦ others j g ∙ inv.known j (update-none i f same_fd shrinks s.conns j e)
    ];
    calm = calm;
    table = inv.table;
    running = inv.running;
  }

-- the first of the queue is registered
pub register-Inv :
    (i : ℕ) (q : List Op) (s : Selector) (c : Conn)
    → get_elem? s.conns i ≡ some c
    → c.is_open ≡ true
    → Inv (op_track i ∷ q) s
    → Inv q (record s { fd_to_key = set_key c.fd (conn_at i) s.fd_to_key })
register-Inv i q s c here opened inv = record {
  placed = λ j d e. elim (Bool-cases (i == j)) [
    | inl g ↦
        let same : d ≡ c =
          some_inj d c (sym e ∙ sym (ap (get_elem? s.conns) ((==_iff i j).0 g)) ∙ here) in
        ground
          (arith, ap (λ x. x.fd) same, is_key-set i j c.fd d.fd s.fd_to_key, inv.placed j d e, g)
    | inr g ↦
        let apart : c.fd == d.fd ≡ true → is_key j (find_key d.fd s.fd_to_key) ≡ false = λ fds.
          elim (Bool-cases (is_key j (find_key d.fd s.fd_to_key))) [
            | inl r ↦ ground (
              arith,
              g,
              inv.distinct i j c d here e opened (inv.live j d e r) ((==_iff c.fd d.fd).0 fds),
            )
            | inr r ↦ r
          ] in
        ground (arith, apart, is_key-set i j c.fd d.fd s.fd_to_key, inv.placed j d e, g)
  ];
  live = λ j d e k. elim (Bool-cases (i == j)) [
    | inl g ↦
        ap (λ x. x.is_open)
          (some_inj d c (sym e ∙ sym (ap (get_elem? s.conns) ((==_iff i j).0 g)) ∙ here))
        ∙ opened
    | inr g ↦ inv.live j d e (ground (arith, k, is_key-set i j c.fd d.fd s.fd_to_key, g))
  ];
  distinct = inv.distinct;
  keyed = λ fd j k. elim (Bool-cases (c.fd == fd)) [
    | inl g ↦ (
      c,
      ap (get_elem? s.conns) (
            sym (
              conn_at_inj i j
                (ground (arith, k, g, find_key-set_key c.fd fd (conn_at i) s.fd_to_key))))
          ∙ here,
      (==_iff c.fd fd).0 g,
    )
    | inr g ↦
        inv.keyed fd j (ground (arith, k, g, find_key-set_key c.fd fd (conn_at i) s.fd_to_key))
  ];
  known = λ j e. ground (arith, inv.known j e);
  calm = inv.calm;
  table = set_key-IsTable c.fd (conn_at i) s.fd_to_key inv.table;
  running = inv.running;
}

pub get_elem?-append :
    (cs : List Conn) (c : Conn) (j : ℕ)
    → get_elem? (cs ++ c ∷ []) j ≡ (if length cs == j then some c else get_elem? cs j)
get_elem?-append [] c zero = refl
get_elem?-append [] c (suc j) = ground arith
get_elem?-append (b ∷ cs) c zero = ground arith
get_elem?-append (b ∷ cs) c (suc j) = ground (arith, get_elem?-append cs c j)

pub get_elem?-length : (cs : List Conn) → get_elem? cs (length cs) ≡ none
get_elem?-length [] = refl
get_elem?-length (c ∷ cs) = get_elem?-length cs

get_elem?-append-some :
    (cs : List Conn) (c d : Conn) (j : ℕ)
    → get_elem? cs j ≡ some d
    → get_elem? (cs ++ c ∷ []) j ≡ some d
get_elem?-append-some [] c d j e = cc e
get_elem?-append-some (b ∷ cs) c d zero e = e
get_elem?-append-some (b ∷ cs) c d (suc j) e = get_elem?-append-some cs c d j e

get_elem?-append-none :
    (cs : List Conn) (c : Conn) (j : ℕ) → get_elem? (cs ++ c ∷ []) j ≡ none → get_elem? cs j ≡ none
get_elem?-append-none [] c j e = refl
get_elem?-append-none (b ∷ cs) c zero e = e
get_elem?-append-none (b ∷ cs) c (suc j) e = get_elem?-append-none cs c j e

pub is_key-conn_at : (i : ℕ) (k : Option Callback) → is_key i k ≡ true → k ≡ some (conn_at i)
is_key-conn_at i none e = cc e
is_key-conn_at i (some drain_wakeup) e = cc e
is_key-conn_at i (some accept_listener) e = cc e
is_key-conn_at i (some (conn_at j)) e = ap (λ n. some (conn_at n)) ((==_iff j i).0 e)

unused :
    (fd : ℕ) (cs : List Conn) (i : ℕ) (c : Conn)
    → is_used fd cs ≡ false
    → get_elem? cs i ≡ some c
    → c.is_open ≡ true
    → c.fd == fd ≡ false
unused fd [] i c u e o = cc e
unused fd (b ∷ cs) zero c u e o =
    let same = some_inj b c e in ground (arith, u, o, ap (λ x. x.is_open) same, ap (λ x. x.fd) same)
unused fd (b ∷ cs) (suc i) c u e o = unused fd cs i c (ground (arith, u)) e o

append-inv :
    (cs : List Conn) (c d : Conn) (j : ℕ)
    → get_elem? (cs ++ c ∷ []) j ≡ some d
    → (length cs ≡ j) × (c ≡ d) ⊎ (length cs == j ≡ false) × (get_elem? cs j ≡ some d)
append-inv cs c d j e = elim (Bool-cases (length cs == j)) [
  | inl g ↦
      inl ((==_iff (length cs) j).0 g, some_inj c d (ground (arith, e, g, get_elem?-append cs c j)))
  | inr g ↦ inr (g, ground (arith, e, g, get_elem?-append cs c j))
]

-- a new connection with a descriptor that no open one has
pub add_conn-Inv :
    (q : List Op) (s : Selector) (fd : ℕ)
    → is_used fd s.conns ≡ false
    → Inv q s
    → Inv q (add_conn fd s)
add_conn-Inv q s fd u inv =
    let nowhere = get_elem?-length s.conns in
    let new : is_key (length s.conns) (find_key fd s.fd_to_key) ≡ false =
      elim (Bool-cases (is_key (length s.conns) (find_key fd s.fd_to_key))) [
        | inl r ↦
            let (x, e, g) =
              inv.keyed fd (length s.conns)
                (is_key-conn_at (length s.conns) (find_key fd s.fd_to_key) r) in
            cc (nowhere, e)
        | inr r ↦ r
      ] in
    record {
      placed = λ j d e. elim (append-inv s.conns (fresh fd) d j e) [
        | inl (g, h) ↦
            subst (λ x. count_in j q + count_keys j x s.fd_to_key ≡ (if x.tracked then 1 else 0)) h
              (subst (λ n. count_in n q + count_keys n (fresh fd) s.fd_to_key ≡ 0) g
                (ground (arith, new, inv.known (length s.conns) nowhere)))
        | inr (g, h) ↦ inv.placed j d h
      ];
      live = λ j d e k. elim (append-inv s.conns (fresh fd) d j e) [
        | inl (g, h) ↦ ap (λ x. x.is_open) (sym h)
        | inr (g, h) ↦ inv.live j d h k
      ];
      distinct = λ i j c d e h oc od same. elim (append-inv s.conns (fresh fd) c i e) [
        | inl (g, k) ↦ elim (append-inv s.conns (fresh fd) d j h) [
          | inl (g', k') ↦ sym g ∙ g'
          | inr (g', k') ↦ ground (arith, unused fd s.conns j d u k' od, same, ap (λ x. x.fd) k)
        ]
        | inr (g, k) ↦ elim (append-inv s.conns (fresh fd) d j h) [
          | inl (g', k') ↦ ground (arith, unused fd s.conns i c u k oc, same, ap (λ x. x.fd) k')
          | inr (g', k') ↦ inv.distinct i j c d k k' oc od same
        ]
      ];
      keyed = λ fd' j k.
          let (x, e, g) = inv.keyed fd' j k in
          (x, get_elem?-append-some s.conns (fresh fd) x j e, g);
      known = λ j e. inv.known j (get_elem?-append-none s.conns (fresh fd) j e);
      calm = inv.calm;
      table = inv.table;
      running = inv.running;
    }
