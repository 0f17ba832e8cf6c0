-- ===== src/Acl/Resolve/Sound.antt =====
-- What `Resolve` lets through.
use wanopt_proxy.Common.{
  ℕ, ◌≡◌, ◌≢◌, refl, arith, true, false, not, ◌&&◌, ◌||◌, Option, none, some, List, [], ◌∷◌, length,
  any, All, ◌==◌, if◌then◌else◌, Bool-cases, inl, inr, Result, ok, err, acl_denied, fail_if, ◌>>=◌,
  ◌>>◌, ok-injective, >>=-eq-ok, ◌⊎◌,
}
use mathlib.Core.Path.{subst}
use wanopt_proxy.Net.{Net}
use wanopt_proxy.Protocol.Address.{Address, atyp_domain}
use wanopt_proxy.Acl.Rules.{Acl, ports_allowed, match_any}
use wanopt_proxy.Acl.Policy.{normalized, allowed, hosts_allowed, resolved_allowed}
use wanopt_proxy.Acl.Policy.Normal.{normalized-normalized}
use wanopt_proxy.Acl.Resolve.{
  IpAddr, unmap, candidate, screen, Slot, resolve_name, resolve, or_denied, name_denied, take_slot,
  same_ip,
}

-- A destination that may be dialed for the request `a`: a numeric address with the port of the
-- request, whose port the policy permits, that no deny rule matches, by its own address or by the
-- name, and that an allow rule matches unless there is none.
abbrev pub PassesPolicy : Acl → Address → Address → Type 0
PassesPolicy l a c =
    (ports_allowed (some l) a.port ≡ true)
    × (match_any l.deny_hosts a ≡ false)
    × (match_any l.deny_hosts c ≡ false)
    × ((l.allow_hosts ≡ [])
        ⊎ (match_any l.allow_hosts a ≡ true)
        ⊎ (match_any l.allow_hosts c ≡ true))

abbrev pub Permitted : Option Acl → Address → Address → Type 0
Permitted none a c = (c.atyp ≢ atyp_domain) × (c.port ≡ a.port)
Permitted (some l) a c = (c.atyp ≢ atyp_domain) × (c.port ≡ a.port) × PassesPolicy l a c

candidate_numeric :
    (port : ℕ) (ip : IpAddr)
    → ((candidate port ip).atyp ≢ atyp_domain) × ((candidate port ip).port ≡ port)
unfolding candidate
candidate_numeric port ip = ground arith

no_rules {ℓ} : {A : Type ℓ} (xs : List A) → (length xs == 0) ≡ true → xs ≡ []
no_rules [] h = refl
no_rules (x ∷ xs) h = ground arith

resolved_allowed-parts :
    (l : Acl) (a c : Address) → resolved_allowed (some l) a c ≡ true → PassesPolicy l a c
unfolding resolved_allowed
resolved_allowed-parts l a c h = ground (arith, no_rules l.allow_hosts)

candidate-Permitted :
    (policy : Option Acl) (a : Address) (ip : IpAddr)
    → resolved_allowed policy a (candidate a.port ip) ≡ true
    → Permitted policy a (candidate a.port ip)
candidate-Permitted none a ip h = candidate_numeric a.port ip
candidate-Permitted (some l) a ip h =
    let (t, p) = candidate_numeric a.port ip in
    (t, p, resolved_allowed-parts l a (candidate a.port ip) h)

screen-Permitted :
    (policy : Option Acl) (a : Address) (seen ips : List IpAddr)
    → All (Permitted policy a) (screen policy a seen ips)
unfolding screen
screen-Permitted policy a seen [] = tt
screen-Permitted policy a seen (answer ∷ ips) =
    elim (Bool-cases
      (length (unmap answer).bytes == 0 || any (λ s. same_ip s (unmap answer)) seen)) [
        | inl skip ↦ rw skip (screen-Permitted policy a seen ips)
        | inr new ↦
            elim (Bool-cases (resolved_allowed policy a (candidate a.port (unmap answer)))) [
              | inl good ↦
                  rw (new, good)
                    (
                      candidate-Permitted policy a (unmap answer) good,
                      screen-Permitted policy a (unmap answer ∷ seen) ips,
                    )
              | inr bad ↦ rw (new, bad) (screen-Permitted policy a (unmap answer ∷ seen) ips)
            ]
      ]

or_denied_ok : (xs out : List Address) → or_denied xs ≡ ok out → (xs ≡ out) × (out ≢ [])
or_denied_ok [] out h = absurd (cc h)
or_denied_ok (x ∷ xs) out h = (ok-injective h, λ e. cc)

name_step :
    (policy : Option Acl) (slot : Slot) (lookup : List ℕ → Result (List IpAddr)) (a : Address)
    (out : List Address)
    → resolve_name policy slot lookup a ≡ ok out
    → (out ≢ []) × All (Permitted policy a) out
unfolding resolve_name
name_step policy slot lookup a out h =
    let (_, _, h1) =
      >>=-eq-ok (fail_if (name_denied policy a) acl_denied)
        (λ _. take_slot slot >>= λ _. lookup a.host >>= λ ips. or_denied (screen policy a [] ips))
        h in
    let (_, _, h2) =
      >>=-eq-ok (take_slot slot) (λ _. lookup a.host >>= λ ips. or_denied (screen policy a [] ips))
        h1 in
    let (ips, _, h3) = >>=-eq-ok (lookup a.host) (λ ips. or_denied (screen policy a [] ips)) h2 in
    let (e, n) = or_denied_ok (screen policy a [] ips) out h3 in
    (n, subst (All (Permitted policy a)) e (screen-Permitted policy a [] ips))

literal_parts :
    (l : Acl) (a : Address)
    → (ports_allowed (some l) a.port && hosts_allowed (some l) a) ≡ true
    → PassesPolicy l a a
unfolding hosts_allowed
literal_parts l a h = ground (arith, no_rules l.allow_hosts)

literal_step :
    (net : Net) (policy : Option Acl) (addr a : Address)
    → normalized net addr ≡ ok a
    → (a.atyp == atyp_domain) ≡ false
    → allowed net policy a ≡ true
    → Permitted policy a a
unfolding allowed
literal_step net none addr a n t h = (λ d. ground arith, refl)
literal_step net (some l) addr a n t h = (
  λ d. ground arith,
  refl,
  literal_parts l a (rw (normalized-normalized net addr a n, allowed) at h),
)

-- The two ways on from a normalized request with a permitted port.
abbrev by_type :
    Net → Option Acl → Slot → (List ℕ → Result (List IpAddr)) → Address → Result (List Address)
by_type net policy slot lookup a =
    if a.atyp == atyp_domain
    then resolve_name policy slot lookup a
    else if allowed net policy a
    then ok (a ∷ [])
    else err acl_denied

abbrev checked_request :
    Net → Option Acl → Slot → (List ℕ → Result (List IpAddr)) → Address → Result (List Address)
checked_request net policy slot lookup a =
    fail_if (not (ports_allowed policy a.port)) acl_denied >> by_type net policy slot lookup a

type_step :
    (net : Net) (policy : Option Acl) (slot : Slot) (lookup : List ℕ → Result (List IpAddr))
    (addr a : Address) (out : List Address)
    → normalized net addr ≡ ok a
    → by_type net policy slot lookup a ≡ ok out
    → (out ≢ []) × All (Permitted policy a) out
type_step net policy slot lookup addr a out n h = elim (Bool-cases (a.atyp == atyp_domain)) [
  | inl t ↦ name_step policy slot lookup a out (rw t at h)
  | inr t ↦ elim (Bool-cases (allowed net policy a)) [
    | inl good ↦
        subst (λ xs. (xs ≢ []) × All (Permitted policy a) xs) (ok-injective (rw (t, good) at h))
          (λ e. cc, (literal_step net policy addr a n t good, tt))
    | inr bad ↦ absurd (cc (rw (t, bad) at h))
  ]
]

-- Whatever the lookup answers, each address that `Resolve` returns for a request is numeric, has
-- the request's port, and passes the policy both as itself and under the name; and there is one.
-- The request that the addresses are held against is its normalized form.
pub resolve_sound :
    (net : Net) (policy : Option Acl) (slot : Slot) (lookup : List ℕ → Result (List IpAddr))
    (addr : Address) (out : List Address)
    → resolve net policy slot lookup addr ≡ ok out
    → (a : Address) × (normalized net addr ≡ ok a) × (out ≢ []) × All (Permitted policy a) out
unfolding resolve
resolve_sound net policy slot lookup addr out h =
    let (a, n, h1) = >>=-eq-ok (normalized net addr) (checked_request net policy slot lookup) h in
    let (_, _, h2) =
      >>=-eq-ok (fail_if (not (ports_allowed policy a.port)) acl_denied)
        (λ _. by_type net policy slot lookup a) h1 in
    let (e, all_ok) = type_step net policy slot lookup addr a out n h2 in (a, n, e, all_ok)

-- A name that a deny rule matches is refused before any lookup, whatever the lookup would say.
pub resolve_denied :
    (net : Net) (l : Acl) (slot : Slot) (lookup : List ℕ → Result (List IpAddr)) (addr a : Address)
    → normalized net addr ≡ ok a
    → match_any l.deny_hosts a ≡ true
    → resolve net (some l) slot lookup addr ≡ err acl_denied
unfolding resolve allowed hosts_allowed resolve_name
resolve_denied net l slot lookup addr a n d = ground (arith, normalized-normalized net addr a n)
