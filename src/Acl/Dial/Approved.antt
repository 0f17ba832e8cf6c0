-- ===== src/Acl/Dial/Approved.antt =====
-- `DialContext` connects only to endpoints that `Resolve` has approved.
use wanopt_proxy.Common.{
  ℕ, suc, ◌≡◌, refl, Bool, true, false, not, ◌||◌, Option, none, some, List, [], ◌∷◌, In, All-In,
  length, if-either, Bool-cases, Option-cases, Result-cases, inl, inr, Error, Result, ok, ◌==◌,
}
use wanopt_proxy.Protocol.Address.{Address}
use wanopt_proxy.Net.{Net}
use wanopt_proxy.Acl.Rules.{Acl}
use wanopt_proxy.Acl.Policy.{normalized}
use wanopt_proxy.Acl.Resolve.{IpAddr, Slot, resolve}
use wanopt_proxy.Acl.Resolve.Sound.{Permitted, resolve_sound}
use wanopt_proxy.Acl.Dial.{
  Dialer, attempt_timeout, dial_from, dial_addresses, family, keeps, Side, primary, fallback, start,
  Event, race, results, dial_families, dial_context,
}
use wanopt_proxy.Acl.Dial.Race.{race_sound}

-- The connection is the answer to a dial of one of the addresses.
pub Dialed : Dialer → List Address → ℕ → Type 0
Dialed d addresses conn =
    (a : Address) × In a addresses × (timeout : ℕ) × (d.dial timeout a ≡ ok conn)

Dialed-weaken :
    (d : Dialer) (xs ys : List Address) (conn : ℕ)
    → ((a : Address) → In a xs → In a ys)
    → Dialed d xs conn
    → Dialed d ys conn
unfolding Dialed
Dialed-weaken d xs ys conn f (a, i, t, e) = (a, f a i, t, e)

dial_from-Dialed :
    (d : Dialer) (i : ℕ) (last : Option Error) (addresses : List Address) (conn : ℕ)
    → dial_from d i last addresses ≡ ok (some conn)
    → Dialed d addresses conn
unfolding dial_from Dialed
dial_from-Dialed d i none [] conn h = absurd (cc h)
dial_from-Dialed d i (some e) [] conn h = absurd (cc h)
dial_from-Dialed d i last (a ∷ rest) conn h =
    let timeout = attempt_timeout d.deadline_at (d.now i) (suc (length rest)) in
    elim (Bool-cases (timeout == 0)) [
      | inl t ↦ absurd (cc (rw t at h))
      | inr t ↦ elim (Result-cases (d.dial timeout a)) [
        | inl (c, e) ↦ (a, inl refl, timeout, cc (rw (t, e) at h))
        | inr (f, e) ↦ elim (Option-cases (d.canceled i)) [
          | inr (g, k) ↦ absurd (cc (rw (t, e, k) at h))
          | inl k ↦
              let (b, j, u, q) =
                dial_from-Dialed d (suc i) (some f) rest conn (rw (t, e, k) at h) in
              (b, inr j, u, q)
        ]
      ]
    ]

family-In :
    (same : Bool) (kind : ℕ) (l : List Address) (a : Address) → In a (family same kind l) → In a l
unfolding family
family-In same kind [] a h = h
family-In same kind (b ∷ l) a h =
    let rest = family same kind l in
    if-either (λ (m : List Address). In a m → In a (b ∷ l)) (keeps same (b.atyp == kind)) (b ∷ rest)
      rest (λ t i. elim i [ inl e ↦ inl e | inr j ↦ inr (family-In same kind l a j) ])
      (λ t i. inr (family-In same kind l a i)) h

results-Dialed :
    (d : Side → Dialer) (kind : ℕ) (addresses : List Address) (side : Side) (conn : ℕ)
    → results d kind addresses side ≡ ok (some conn)
    → Dialed (d side) addresses conn
unfolding dial_addresses
results-Dialed d kind addresses primary conn h =
    Dialed-weaken (d primary) (family true kind addresses) addresses conn
      (family-In true kind addresses) (dial_from-Dialed (d primary) 0 none _ conn h)
results-Dialed d kind addresses fallback conn h =
    Dialed-weaken (d fallback) (family false kind addresses) addresses conn
      (family-In false kind addresses) (dial_from-Dialed (d fallback) 0 none _ conn h)

race-Dialed :
    (d : Side → Dialer) (kind : ℕ) (addresses : List Address) (es : List Event) (conn : ℕ)
    → (race (results d kind addresses) es start).answer ≡ some (ok (some conn))
    → (side : Side) × Dialed (d side) addresses conn
race-Dialed d kind addresses es conn h =
    let (side, _, e) = (race_sound (results d kind addresses) es).0.won (some conn) h in
    (side, results-Dialed d kind addresses side conn e)

abbrev Returns : (Side → Dialer) → List Address → ℕ → Option (Result (Option ℕ)) → Type 0
Returns d addresses conn answer =
    answer ≡ some (ok (some conn)) → (side : Side) × Dialed (d side) addresses conn

single-Dialed :
    (d : Side → Dialer) (addresses : List Address) (conn : ℕ)
    → Returns d addresses conn (some (dial_addresses (d primary) addresses))
unfolding dial_addresses
single-Dialed d addresses conn h =
    (primary, dial_from-Dialed (d primary) 0 none addresses conn (cc h))

families-Dialed :
    (d : Side → Dialer) (es : List Event) (addresses : List Address) (conn : ℕ)
    → Returns d addresses conn (dial_families d es addresses)
unfolding dial_families
families-Dialed d es [] conn h = single-Dialed d [] conn h
families-Dialed d es (a ∷ rest) conn h =
    if-either (Returns d (a ∷ rest) conn) (length (family false a.atyp (a ∷ rest)) == 0)
      (some (dial_addresses (d primary) (family true a.atyp (a ∷ rest))))
      (race (results d a.atyp (a ∷ rest)) es start).answer
      (λ t k. (primary, results-Dialed d a.atyp (a ∷ rest) primary conn (cc k)))
      (λ t. race-Dialed d a.atyp (a ∷ rest) es conn) h

dial_context-Dialed :
    (tcp : Bool) (addresses : List Address) (d : Side → Dialer) (es : List Event) (conn : ℕ)
    → dial_context tcp (ok addresses) d es ≡ some (ok (some conn))
    → (side : Side) × Dialed (d side) addresses conn
unfolding dial_context
dial_context-Dialed tcp addresses d es conn h =
    if-either (Returns d addresses conn) (not tcp || length addresses == 1)
      (some (dial_addresses (d primary) addresses)) (dial_families d es addresses)
      (λ t. single-Dialed d addresses conn) (λ t. families-Dialed d es addresses conn) h

-- A connection that `DialContext` returns, for any network and any course of its race, was dialed
-- at an endpoint that is permitted for the normalized request: a numeric address with the request's
-- port that passes the policy both as itself and under the requested name.
pub dial_context-resolve :
    (net : Net) (policy : Option Acl) (slot : Slot) (lookup : List ℕ → Result (List IpAddr))
    (addr : Address) (tcp : Bool) (d : Side → Dialer) (es : List Event) (conn : ℕ)
    → dial_context tcp (resolve net policy slot lookup addr) d es ≡ some (ok (some conn))
    → (a : Address) × (normalized net addr ≡ ok a)
      × (side : Side) × (b : Address) × Permitted policy a b
      × (timeout : ℕ) × ((d side).dial timeout b ≡ ok conn)
unfolding Dialed dial_context
dial_context-resolve net policy slot lookup addr tcp d es conn h =
    elim (Result-cases (resolve net policy slot lookup addr)) [
      | inr (e, q) ↦ absurd (cc (rw q at h))
      | inl (out, q) ↦
          let (a, n, _, good) = resolve_sound net policy slot lookup addr out q in
          let (side, (b, i, timeout, e)) = dial_context-Dialed tcp out d es conn (rw q at h) in
          (a, n, side, b, All-In (Permitted policy a) out b good i, timeout, e)
    ]
