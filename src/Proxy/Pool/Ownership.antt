-- ===== src/Proxy/Pool/Ownership.antt =====
-- No stream of the transport is lost.
use wanopt_proxy.Common.{
  ℕ, ◌+◌, ◌-◌, ◌≡◌, refl, ap, ◌∙◌, arith, true, some, List, [], ◌∷◌, length, ◌==◌, ==_refl,
  if◌then◌else◌, if-either, Bool-cases, Option-cases, inl, inr,
}
use wanopt_proxy.Proxy.Pool.{
  removed, Pool, make, begin_dial, fail_dial, finish_dial, close_conn, close_each, close_all, Event,
  begins, fails, finishes, closes_all, closes, step, run,
}

-- Every stream that was opened is in the pool or closed, the gauge counts those in the pool, and a
-- pool that is closing is empty.
pub record IsOwned (p : Pool) : Type 0 where
  pub owned : p.opened ≡ length p.conns + p.closed
  pub gauged : p.active ≡ length p.conns
  pub emptied : p.closing ≡ true → p.conns ≡ []

-- The same where the pool need not be empty yet.
record IsCounted (p : Pool) : Type 0 where
  owned : p.opened ≡ length p.conns + p.closed
  gauged : p.active ≡ length p.conns

pub length-removed :
    (id : ℕ) (l rest : List ℕ) → removed id l ≡ some rest → length l ≡ length rest + 1
length-removed id [] rest h = absurd (cc h)
length-removed id (x ∷ l) rest h = elim (Bool-cases (x == id)) [
  | inl t ↦ let e : l ≡ rest = cc (rw t at h) in omega (arith, ap (λ (k : List ℕ). length k) e)
  | inr t ↦ elim (Option-cases (removed id l)) [
    | inl q ↦ absurd (cc (rw (t, q) at h))
    | inr (m, q) ↦
        let e : (x ∷ m) ≡ rest = cc (rw (t, q) at h) in
        omega (arith, ap (λ (k : List ℕ). length k) e, length-removed id l m q)
  ]
]

close_conn-IsCounted : (id : ℕ) (p : Pool) → IsCounted p → IsCounted (close_conn id p)
unfolding close_conn
close_conn-IsCounted id p h = elim (Option-cases (removed id p.conns)) [
  | inl q ↦ rw (q, close_conn) h
  | inr (rest, q) ↦
      let n = length-removed id p.conns rest q in
      rw (q, close_conn)
        (record { owned = omega (arith, n, h.owned); gauged = omega (arith, n, h.gauged) })
]

pub first-removed : (x : ℕ) (l conns : List ℕ) → conns ≡ x ∷ l → removed x conns ≡ some l
first-removed x l conns e = rw (e, ==_refl x) refl

close_first :
    (x : ℕ) (l : List ℕ) (p : Pool)
    → p.conns ≡ x ∷ l
    → ((close_conn x p).conns ≡ l) × ((close_conn x p).closing ≡ p.closing)
unfolding close_conn
close_first x l p e =
    let q = first-removed x l p.conns e in (rw (q, close_conn) refl, rw (q, close_conn) refl)

-- A connection of an empty pool is not there to be closed.
close_conn-empty :
    (id : ℕ) (p : Pool)
    → IsOwned p
    → (close_conn id p).closing ≡ true
    → (close_conn id p).conns ≡ []
unfolding close_conn
close_conn-empty id p h t = elim (Option-cases (removed id p.conns)) [
  | inl q ↦ rw (q, close_conn) (h.emptied (rw (q, close_conn) at t))
  | inr (rest, q) ↦ absurd (cc (rw (h.emptied (rw (q, close_conn) at t)) at q))
]

close_each-IsCounted :
    (p : Pool)
    → IsCounted p
    → (l : List ℕ) → p.conns ≡ l
    → IsCounted (close_each l p)
      × ((close_each l p).conns ≡ [])
      × ((close_each l p).closing ≡ p.closing)
unfolding close_each close_conn
close_each-IsCounted p h [] e = (h, e, refl)
close_each-IsCounted p h (x ∷ l) e =
    let (conns, closing) = close_first x l p e in
    let (counted, empty, same) =
      close_each-IsCounted (close_conn x p) (close_conn-IsCounted x p h) l conns in
    (counted, empty, same ∙ closing)

step-IsOwned : (e : Event) (p : Pool) → IsOwned p → IsOwned (step e p)
unfolding step begin_dial fail_dial finish_dial close_all close_conn
step-IsOwned begins p h =
    if-either IsOwned p.closing p (record p { dialing = p.dialing + 1 }) (λ t. h)
      (λ t. record { owned = h.owned; gauged = h.gauged; emptied = h.emptied })
step-IsOwned fails p h =
    if-either IsOwned (p.dialing == 0) p (record p { dialing = p.dialing - 1 }) (λ t. h)
      (λ t. record { owned = h.owned; gauged = h.gauged; emptied = h.emptied })
step-IsOwned finishes p h =
    let p1 = record p { dialing = p.dialing - 1; opened = p.opened + 1; active = p.active + 1 } in
    let turned = record p1 { closed = p1.closed + 1; active = p1.active - 1 } in
    let kept = record p1 { conns = p1.opened ∷ p1.conns } in
    if-either IsOwned (p.dialing == 0) p (if p.closing then turned else kept) (λ t. h)
      (λ t.
        if-either IsOwned p.closing turned kept
          (λ u. record {
            owned = omega (arith, h.owned);
            gauged = omega (arith, h.gauged);
            emptied = h.emptied;
          })
          (λ u. record {
            owned = omega (arith, h.owned);
            gauged = omega (arith, h.gauged);
            emptied = λ v. absurd (cc (u, v));
          }))
step-IsOwned closes_all p h =
    let (counted, empty, _) =
      close_each-IsCounted (record p { closing = true })
        (record { owned = h.owned; gauged = h.gauged }) p.conns refl in
    record { owned = counted.owned; gauged = counted.gauged; emptied = λ t. empty }
step-IsOwned (closes id) p h =
    let counted = close_conn-IsCounted id p (record { owned = h.owned; gauged = h.gauged }) in
    record { owned = counted.owned; gauged = counted.gauged; emptied = close_conn-empty id p h }

run-IsOwned : (es : List Event) (p : Pool) → IsOwned p → IsOwned (run es p)
unfolding run
run-IsOwned [] p h = h
run-IsOwned (e ∷ es) p h = run-IsOwned es (step e p) (step-IsOwned e p h)

-- After any sequence of dials, their ends, closes and `closeAll`: every stream that the tunnel gave
-- the transport is in its pool or closed, the gauge of active streams counts those in the pool, and
-- once the pool is closing it is empty, also of dials that ended since.
pub run-make-IsOwned : (es : List Event) → IsOwned (run es make)
run-make-IsOwned es =
    run-IsOwned es make (record { owned = refl; gauged = refl; emptied = λ t. refl })
