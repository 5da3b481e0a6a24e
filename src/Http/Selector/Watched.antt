-- ===== src/Http/Selector/Watched.antt =====
-- localpost/http/_base.py: where a tracked connection stands.
use localpost_py.Prelude.{
  ℕ, zero, suc, ◌+◌, ◌≡◌, ◌⊎◌, refl, sym, ap, ◌∙◌, Bool, true, false, Option, none, some, List, [],
  ◌∷◌, get_elem?, arith, Bool-cases, Option-cases, inl, inr, ◌==◌, ==_iff, if◌then◌else◌,
}
use localpost_py.Http.Selector.{
  Conn, Callback, conn_at, Op, op_track, op_close, Selector, find_key, set_key, drop_key, update,
  is_key,
}

-- how often the queue has the connection
abbrev pub count_in : ℕ → List Op → ℕ
count_in i [] = 0
count_in i (op_track j ∷ q) = (if j == i then 1 else 0) + count_in i q
count_in i (op ∷ q) = count_in i q

abbrev pub no_close : List Op → Bool
no_close [] = true
no_close (op_close fd ∷ q) = false
no_close (op ∷ q) = no_close q

-- 1 if the connection's descriptor calls it
abbrev pub count_keys : ℕ → Conn → List (ℕ × Callback) → ℕ
count_keys i c ks = if is_key i (find_key c.fd ks) then 1 else 0

-- no descriptor is in the table twice
abbrev pub IsTable : List (ℕ × Callback) → Type 0
IsTable [] = Unit {0}
IsTable ((f, k) ∷ ks) = (find_key f ks ≡ none) × IsTable ks

-- The state with a queue `q` left to drain: a tracked connection is registered once or queued once
-- and not both, an untracked one neither.
pub record Inv (q : List Op) (s : Selector) : Type 0 where
  pub placed :
      (i : ℕ) (c : Conn)
      → get_elem? s.conns i ≡ some c
      → count_in i q + count_keys i c s.fd_to_key ≡ (if c.tracked then 1 else 0)
  pub live :
      (i : ℕ) (c : Conn)
      → get_elem? s.conns i ≡ some c
      → is_key i (find_key c.fd s.fd_to_key) ≡ true
      → c.is_open ≡ true
  pub distinct :
      (i j : ℕ) (c d : Conn)
      → get_elem? s.conns i ≡ some c
      → get_elem? s.conns j ≡ some d
      → c.is_open ≡ true
      → d.is_open ≡ true
      → c.fd ≡ d.fd
      → i ≡ j
  pub keyed :
      (fd i : ℕ)
      → find_key fd s.fd_to_key ≡ some (conn_at i)
      → (c : Conn) × (get_elem? s.conns i ≡ some c) × (c.fd ≡ fd)
  pub known : (i : ℕ) → get_elem? s.conns i ≡ none → count_in i q ≡ 0
  pub calm : no_close q ≡ true
  pub table : IsTable s.fd_to_key
  pub running : s.shutting_down ≡ false

pub find_key-set_key :
    (fd g : ℕ) (k : Callback) (ks : List (ℕ × Callback))
    → find_key g (set_key fd k ks) ≡ (if fd == g then some k else find_key g ks)
find_key-set_key fd g k [] = refl
find_key-set_key fd g k ((f, l) ∷ ks) = ground (arith, find_key-set_key fd g k ks)

pub find_key-drop_key :
    (fd g : ℕ) (ks : List (ℕ × Callback))
    → find_key g (drop_key fd ks) ≡ (if fd == g then none else find_key g ks)
find_key-drop_key fd g [] = ground arith
find_key-drop_key fd g ((f, l) ∷ ks) = ground (arith, find_key-drop_key fd g ks)

pub set_key-IsTable :
    (fd : ℕ) (k : Callback) (ks : List (ℕ × Callback)) → IsTable ks → IsTable (set_key fd k ks)
set_key-IsTable fd k [] t = (refl, tt)
set_key-IsTable fd k ((f, l) ∷ ks) (e, t) = elim (Bool-cases (f == fd)) [
  | inl g ↦ rw g (e, t)
  | inr g ↦ rw g (ground (arith, e, g, find_key-set_key fd f k ks), set_key-IsTable fd k ks t)
]

drop_key-IsTable : (fd : ℕ) (ks : List (ℕ × Callback)) → IsTable ks → IsTable (drop_key fd ks)
drop_key-IsTable fd [] t = tt
drop_key-IsTable fd ((f, l) ∷ ks) (e, t) = elim (Bool-cases (f == fd)) [
  | inl g ↦ rw g (drop_key-IsTable fd ks t)
  | inr g ↦ rw g (ground (arith, e, g, find_key-drop_key fd f ks), drop_key-IsTable fd ks t)
]

pub is_key_unique : (i j : ℕ) (k : Option Callback) → is_key i k ≡ true → is_key j k ≡ true → i ≡ j
is_key_unique i j k e g = ground arith

pub is_key-drop :
    (j fd g : ℕ) (ks : List (ℕ × Callback))
    → is_key j (find_key g (drop_key fd ks)) ≡ (if fd == g then false else is_key j (find_key g ks))
is_key-drop j fd g ks = ground (arith, find_key-drop_key fd g ks)

pub is_key-set :
    (i j fd g : ℕ) (ks : List (ℕ × Callback))
    → is_key j (find_key g (set_key fd (conn_at i) ks))
      ≡ (if fd == g then i == j else is_key j (find_key g ks))
is_key-set i j fd g ks = ground (arith, find_key-set_key fd g (conn_at i) ks)

pub some_inj : (c d : Conn) → some c ≡ some d → c ≡ d
some_inj c d e = cc e

abbrev map_conn : (Conn → Conn) → Option Conn → Option Conn
map_conn f none = none
map_conn f (some c) = some (f c)

pub get_elem?-update :
    (i j : ℕ) (f : Conn → Conn) (cs : List Conn)
    → get_elem? (update i f cs) j ≡ (if i == j then map_conn f (get_elem? cs j) else get_elem? cs j)
get_elem?-update i j f [] = ground arith
get_elem?-update zero zero f (c ∷ cs) = refl
get_elem?-update zero (suc j) f (c ∷ cs) = ground arith
get_elem?-update (suc i) zero f (c ∷ cs) = ground arith
get_elem?-update (suc i) (suc j) f (c ∷ cs) = ground (arith, get_elem?-update i j f cs)

pub update-inv :
    (i j : ℕ) (f : Conn → Conn) (cs : List Conn) (d : Conn)
    → get_elem? (update i f cs) j ≡ some d
    → (i ≡ j) × ((c : Conn) × (get_elem? cs j ≡ some c) × (f c ≡ d))
      ⊎ (i == j ≡ false) × (get_elem? cs j ≡ some d)
update-inv i j f cs d e = elim (Bool-cases (i == j)) [
  | inr g ↦ inr (g, ground (arith, g, e, get_elem?-update i j f cs))
  | inl g ↦ elim (Option-cases (get_elem? cs j)) [
    | inl h ↦ ground (arith, g, h, e, get_elem?-update i j f cs)
    | inr (c, h) ↦
        inl ((==_iff i j).0 g, (c, h, ground (arith, g, h, e, get_elem?-update i j f cs)))
  ]
]

abbrev pub IsDistinct : List Conn → Type 0
IsDistinct cs =
    (i j : ℕ) (c d : Conn)
    → get_elem? cs i ≡ some c
    → get_elem? cs j ≡ some d
    → c.is_open ≡ true
    → d.is_open ≡ true
    → c.fd ≡ d.fd
    → i ≡ j

-- a change of one connection that leaves its descriptor and opens nothing
module _ (i : ℕ) (f : Conn → Conn) (same_fd : (c : Conn) → (f c).fd ≡ c.fd)
    (shrinks : (c : Conn) → (f c).is_open ≡ true → c.is_open ≡ true) where
  pub update-back :
      (cs : List Conn) (j : ℕ) (d : Conn)
      → get_elem? (update i f cs) j ≡ some d
      → (c : Conn) × (get_elem? cs j ≡ some c)
        × (d.fd ≡ c.fd)
        × (d.is_open ≡ true → c.is_open ≡ true)
  update-back cs j d e = elim (update-inv i j f cs d e) [
    | inl (g, (c, h, k)) ↦ (c, h, rw (← k) (same_fd c), λ o. shrinks c (rw k o))
    | inr (g, h) ↦ (d, h, refl, λ o. o)
  ]

  pub update-forth :
      (cs : List Conn) (j : ℕ) (c : Conn)
      → get_elem? cs j ≡ some c
      → (d : Conn) × (get_elem? (update i f cs) j ≡ some d) × (d.fd ≡ c.fd)
  update-forth cs j c e = elim (Bool-cases (i == j)) [
    | inl g ↦ (f c, ground (arith, g, e, get_elem?-update i j f cs), same_fd c)
    | inr g ↦ (c, ground (arith, g, e, get_elem?-update i j f cs), refl)
  ]

  pub update-none :
      (cs : List Conn) (j : ℕ) → get_elem? (update i f cs) j ≡ none → get_elem? cs j ≡ none
  update-none cs j e = elim (Option-cases (get_elem? cs j)) [
    | inl h ↦ h
    | inr (c, h) ↦ let (d, k, fd) = update-forth cs j c h in cc (e, k)
  ]

  pub update-IsDistinct : (cs : List Conn) → IsDistinct cs → IsDistinct (update i f cs)
  update-IsDistinct cs distinct j k c d e g oc od same =
      let (c', e', fc, lc) = update-back cs j c e in
      let (d', g', fd, ld) = update-back cs k d g in
      distinct j k c' d' e' g' (lc oc) (ld od) (sym fc ∙ same ∙ fd)

  -- a registered connection that is taken off
  pub release-Inv :
      (q : List Op) (s : Selector) (c : Conn)
      → ((x : Conn) → (f x).tracked ≡ false)
      → get_elem? s.conns i ≡ some c
      → is_key i (find_key c.fd s.fd_to_key) ≡ true
      → Inv q s
      → Inv q (record s { conns = update i f s.conns; fd_to_key = drop_key c.fd s.fd_to_key })
  release-Inv q s c off here registered inv = record {
    placed = λ j d e. elim (update-inv i j f s.conns d e) [
      | inl (g, (c', h, k)) ↦
          let same : d.fd ≡ c.fd =
            ap (λ x. x.fd) (sym k)
            ∙ same_fd c'
            ∙ ap (λ x. x.fd) (some_inj c' c (sym h ∙ sym (ap (get_elem? s.conns) g) ∙ here)) in
          let off' : d.tracked ≡ false = ap (λ x. x.tracked) (sym k) ∙ off c' in
          let once : count_in j q + count_keys i c s.fd_to_key ≡ (if c.tracked then 1 else 0) =
            ap (λ x. count_in x q + count_keys i c s.fd_to_key) (sym g) ∙ inv.placed i c here in
          ground (arith, is_key-drop j c.fd d.fd s.fd_to_key, same, off', once, registered)
      | inr (g, h) ↦ ground (
        arith,
        is_key-drop j c.fd d.fd s.fd_to_key,
        inv.placed j d h,
        registered,
        g,
        is_key_unique i j (find_key c.fd s.fd_to_key) registered,
      )
    ];
    live = λ j d e k. elim (update-inv i j f s.conns d e) [
      | inl (g, (c', h, m)) ↦
          let same : d.fd ≡ c.fd =
            ap (λ x. x.fd) (sym m)
            ∙ same_fd c'
            ∙ ap (λ x. x.fd) (some_inj c' c (sym h ∙ sym (ap (get_elem? s.conns) g) ∙ here)) in
          ground (arith, is_key-drop j c.fd d.fd s.fd_to_key, same, k)
      | inr (g, h) ↦ inv.live j d h (ground (arith, is_key-drop j c.fd d.fd s.fd_to_key, k))
    ];
    distinct = update-IsDistinct s.conns inv.distinct;
    keyed = λ fd j k.
        let (x, e, g) = inv.keyed fd j (ground (arith, k, find_key-drop_key c.fd fd s.fd_to_key)) in
        let (y, e', g') = update-forth s.conns j x e in (y, e', g' ∙ g);
    known = λ j e. inv.known j (update-none s.conns j e);
    calm = inv.calm;
    table = drop_key-IsTable c.fd s.fd_to_key inv.table;
    running = inv.running;
  }
