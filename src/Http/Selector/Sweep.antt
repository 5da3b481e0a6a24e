-- ===== src/Http/Selector/Sweep.antt =====
-- localpost/http/_base.py: `_cleanup_stale` keeps where the connections stand.
use localpost_py.Prelude.{
  ℕ, ◌≡◌, refl, sym, ap, ◌∙◌, Bool, true, false, ◌||◌, some, List, [], ◌∷◌, get_elem?, arith,
  Bool-cases, Option-cases, inl, inr, ◌==◌, if◌then◌else◌,
}
use localpost_py.Http.Selector.{
  Conn, Callback, drain_wakeup, accept_listener, conn_at, Op, Selector, find_key, shut, sweep_conn,
  find_stale, sweep, cleanup_stale, is_key, is_stale,
}
use localpost_py.Http.Selector.Watched.{
  IsTable, release-Inv, Inv, is_key-drop, is_key_unique, some_inj, get_elem?-update,
}

abbrev pub IsRegistered : ℕ → Selector → Type 0
IsRegistered i s =
    (c : Conn) × (get_elem? s.conns i ≡ some c) × (is_key i (find_key c.fd s.fd_to_key) ≡ true)

abbrev is_in : ℕ → List ℕ → Bool
is_in i [] = false
is_in i (j ∷ js) = j == i || is_in i js

-- registered connections, each once
abbrev CanSweep : List ℕ → Selector → Type 0
CanSweep [] s = Unit {0}
CanSweep (i ∷ is) s = IsRegistered i s × (is_in i is ≡ false) × CanSweep is s

sweep_conn-IsRegistered :
    (i j : ℕ) (s : Selector)
    → i == j ≡ false
    → IsRegistered i s
    → IsRegistered j s
    → IsRegistered j (sweep_conn i s)
unfolding sweep_conn
sweep_conn-IsRegistered i j s apart (c, e, r) (d, e', r') =
    rw (sweep_conn, e)
      (
        d,
        ground (arith, e', apart, get_elem?-update i j shut s.conns),
        ground (
          arith,
          is_key-drop j c.fd d.fd s.fd_to_key,
          r,
          r',
          apart,
          is_key_unique i j (find_key c.fd s.fd_to_key) r,
        ),
      )

sweep_conn-CanSweep :
    (i : ℕ) (is : List ℕ) (s : Selector)
    → is_in i is ≡ false
    → IsRegistered i s
    → CanSweep is s
    → CanSweep is (sweep_conn i s)
sweep_conn-CanSweep i [] s e r can = tt
sweep_conn-CanSweep i (j ∷ is) s e r (r', new, can) = (
  sweep_conn-IsRegistered i j s (ground (arith, e)) r r',
  new,
  sweep_conn-CanSweep i is s (ground (arith, e)) r can,
)

sweep_conn-Inv :
    (q : List Op) (i : ℕ) (s : Selector) → IsRegistered i s → Inv q s → Inv q (sweep_conn i s)
unfolding sweep_conn
sweep_conn-Inv q i s (c, e, r) inv =
    rw (sweep_conn, e)
      (let kept = release-Inv i shut (λ c. refl) (λ c o. cc o) q s c (λ c. refl) e r inv in
        record {
          placed = kept.placed;
          live = kept.live;
          distinct = kept.distinct;
          keyed = kept.keyed;
          known = kept.known;
          calm = kept.calm;
          table = kept.table;
          running = kept.running;
        })

sweep-Inv :
    (q : List Op) (is : List ℕ) (s : Selector) → CanSweep is s → Inv q s → Inv q (sweep is s)
unfolding sweep
sweep-Inv q [] s can inv = inv
sweep-Inv q (i ∷ is) s (r, new, can) inv =
    sweep-Inv q is (sweep_conn i s) (sweep_conn-CanSweep i is s new r can)
      (sweep_conn-Inv q i s r inv)

find_stale-found :
    (now : ℕ) (cs : List Conn) (ks : List (ℕ × Callback)) (i : ℕ)
    → is_in i (find_stale now cs ks) ≡ true
    → IsTable ks
    → (fd : ℕ) × (find_key fd ks ≡ some (conn_at i))
unfolding find_stale
find_stale-found now cs [] i e t = cc e
find_stale-found now cs ((f, drain_wakeup) ∷ ks) i e (new, t) =
    let (fd, h) = find_stale-found now cs ks i e t in (fd, ground (arith, new, h))
find_stale-found now cs ((f, accept_listener) ∷ ks) i e (new, t) =
    let (fd, h) = find_stale-found now cs ks i e t in (fd, ground (arith, new, h))
find_stale-found now cs ((f, conn_at j) ∷ ks) i e (new, t) =
    elim (Bool-cases (is_in i (find_stale now cs ks))) [
      | inl g ↦ let (fd, h) = find_stale-found now cs ks i g t in (fd, ground (arith, new, h))
      | inr g ↦
          let same : j == i ≡ true = elim (Option-cases (get_elem? cs j)) [
            | inl h ↦ ground (arith, h, e, g)
            | inr (c, h) ↦ ground (arith, h, e, g)
          ] in
          (f, ground (arith, same))
    ]

find_stale-cons :
    (now : ℕ) (cs : List Conn) (ks : List (ℕ × Callback)) (f i : ℕ) (c : Conn)
    → get_elem? cs i ≡ some c
    → find_stale now cs ((f, conn_at i) ∷ ks)
      ≡ (if is_stale now c then i ∷ find_stale now cs ks else find_stale now cs ks)
unfolding find_stale
find_stale-cons now cs ks f i c e = ground (arith, e)

find_stale-CanSweep :
    (q : List Op) (now : ℕ) (s : Selector) (ks : List (ℕ × Callback))
    → Inv q s
    → IsTable ks
    → ((fd : ℕ) (k : Callback) → find_key fd ks ≡ some k → find_key fd s.fd_to_key ≡ some k)
    → CanSweep (find_stale now s.conns ks) s
unfolding find_stale
find_stale-CanSweep q now s [] inv t sub = tt
find_stale-CanSweep q now s ((f, drain_wakeup) ∷ ks) inv (new, t) sub =
    find_stale-CanSweep q now s ks inv t (λ fd k e. sub fd k (ground (arith, new, e)))
find_stale-CanSweep q now s ((f, accept_listener) ∷ ks) inv (new, t) sub =
    find_stale-CanSweep q now s ks inv t (λ fd k e. sub fd k (ground (arith, new, e)))
find_stale-CanSweep q now s ((f, conn_at i) ∷ ks) inv (new, t) sub =
    let can = find_stale-CanSweep q now s ks inv t (λ fd k e. sub fd k (ground (arith, new, e))) in
    let found = sub f (conn_at i) (ground arith) in
    let (c, e, fd) = inv.keyed f i found in
    elim (Bool-cases (is_stale now c)) [
      | inr g ↦ rw (find_stale-cons now s.conns ks f i c e, g) can
      | inl g ↦
          rw (find_stale-cons now s.conns ks f i c e, g)
            (
              (
                c,
                e,
                ap (λ n. is_key i (find_key n s.fd_to_key)) fd ∙ ap (is_key i) found ∙ ground arith,
              ),
              elim (Bool-cases (is_in i (find_stale now s.conns ks))) [
                | inr h ↦ h
                | inl h ↦
                    let (fd', k) = find_stale-found now s.conns ks i h t in
                    let (c', e', same) =
                      inv.keyed fd' i (sub fd' (conn_at i) (ground (arith, k, new))) in
                    let both : f ≡ fd' =
                      sym fd ∙ ap (λ x. x.fd) (some_inj c c' (sym e ∙ e')) ∙ same in
                    cc (both, k, new)
              ],
              can,
            )
    ]

pub cleanup_stale-Inv :
    (q : List Op) (now : ℕ) (s : Selector) → Inv q s → Inv q (cleanup_stale now s)
unfolding cleanup_stale
cleanup_stale-Inv q now s inv =
    sweep-Inv q (find_stale now s.conns s.fd_to_key) s
      (find_stale-CanSweep q now s s.fd_to_key inv inv.table (λ fd k e. e)) inv
