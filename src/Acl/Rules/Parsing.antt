-- ===== src/Acl/Rules/Parsing.antt =====
-- What `New` returns.
use wanopt_proxy.Common.{
  ℕ, ◌≤◌, ◌≡◌, ◌⊎◌, inl, inr, ◌≢◌, refl, arith, true, false, ◌||◌, Option, none, some, List, [],
  ◌∷◌, length, any, All, Bool-cases, Option-cases, ◌==◌, ok, ◌>>=◌, >>=-eq-ok, ok-injective, ℤ, pos,
  negsuc, below, above, to_nat,
}
use mathlib.Core.Path.{subst}
use wanopt_proxy.Net.{Net}
use wanopt_proxy.Acl.Names.{canonical_name, valid_name}
use wanopt_proxy.Acl.Rules.{
  Rule, Acl, parse_rule, parse_rules, parse_ports, make, cidr_rule, ip_rule, domain_rule, trim_star,
  trim_space,
}

abbrev pub IsPort : ℕ → Type 0
IsPort p = (1 ≤ p) × (p ≤ 65535)

-- A rule names a network or a valid domain, and not both.
abbrev pub IsProper : Rule → Type 0
IsProper r = ((r.cidr ≢ none) × (r.domain ≡ [])) ⊎ ((r.cidr ≡ none) × (valid_name r.domain ≡ true))

IsPort-step : (p : ℤ) → (below p 1 || above p 65535) ≡ false → IsPort (to_nat p)
IsPort-step (pos p) h = ground arith
IsPort-step (negsuc p) h = absurd (cc h)

parse_ports-IsPort : (ps : List ℤ) (out : List ℕ) → parse_ports ps ≡ ok out → All IsPort out
unfolding parse_ports
parse_ports-IsPort [] out h = subst (All IsPort) (ok-injective h) tt
parse_ports-IsPort (p ∷ ps) out h = elim (Bool-cases (below p 1 || above p 65535)) [
  | inl bad ↦ absurd (cc (rw bad at h))
  | inr good ↦
      let (rest, e, h1) =
        >>=-eq-ok (parse_ports ps) (λ rest. ok (to_nat p ∷ rest)) (rw good at h) in
      subst (All IsPort) (ok-injective h1) (IsPort-step p good, parse_ports-IsPort ps rest e)
]

domain_rule-IsProper : (s : List ℕ) (r : Rule) → domain_rule s ≡ ok r → IsProper r
unfolding domain_rule
domain_rule-IsProper s r h = elim (Bool-cases (valid_name s)) [
  | inl v ↦ subst IsProper (ok-injective (rw v at h)) (inr (refl, v))
  | inr n ↦ absurd (cc (rw n at h))
]

ip_rule-IsProper : (ip : List ℕ) → IsProper (ip_rule ip)
unfolding ip_rule
ip_rule-IsProper ip = ground arith

cidr_rule-IsProper : (c : Option (List ℕ × List ℕ)) (r : Rule) → cidr_rule c ≡ ok r → IsProper r
unfolding cidr_rule
cidr_rule-IsProper none r h = absurd (cc h)
cidr_rule-IsProper (some (ip, mask)) r h = subst IsProper (ok-injective h) (inl (λ e. cc, refl))

module _ (net : Net) where
  parse_rule-IsProper : (s : List ℕ) (r : Rule) → parse_rule net s ≡ ok r → IsProper r
  unfolding parse_rule
  parse_rule-IsProper s r h = elim (Bool-cases (any (λ c. c == b'/') s)) [
    | inl slash ↦ cidr_rule-IsProper (net.parse_cidr s) r (rw slash at h)
    | inr none_ ↦ elim (Option-cases (net.parse_ip s)) [
      | inl e ↦
          domain_rule-IsProper (canonical_name net (trim_star s)) r (rw (none_, e, parse_rule) at h)
      | inr (ip, e) ↦
          subst IsProper (ok-injective (rw (none_, e, parse_rule) at h)) (ip_rule-IsProper ip)
    ]
  ]

  parse_rules-IsProper :
      (specs : List (List ℕ)) (out : List Rule) → parse_rules net specs ≡ ok out → All IsProper out
  unfolding parse_rules
  parse_rules-IsProper [] out h = subst (All IsProper) (ok-injective h) tt
  parse_rules-IsProper (spec ∷ specs) out h =
      elim (Bool-cases (length (trim_space net spec) == 0)) [
        | inl blank ↦ parse_rules-IsProper specs out (rw blank at h)
        | inr filled ↦
            let (r, e, h1) =
              >>=-eq-ok (parse_rule net (trim_space net spec))
                (λ r. parse_rules net specs >>= λ rs. ok (r ∷ rs)) (rw filled at h) in
            let (rs, e', h2) = >>=-eq-ok (parse_rules net specs) (λ rs. ok (r ∷ rs)) h1 in
            subst (All IsProper) (ok-injective h2)
              (parse_rule-IsProper (trim_space net spec) r e, parse_rules-IsProper specs rs e')
      ]

  -- A policy that `New` accepts holds ports from 1 to 65535 only, and each of its rules is either a
  -- network or a domain with a valid name.
  pub make_sound :
      (allow_hosts deny_hosts : List (List ℕ)) (allow_ports deny_ports : List ℤ) (l : Acl)
      → make net allow_hosts deny_hosts allow_ports deny_ports ≡ ok l
      → All IsProper l.allow_hosts
        × All IsProper l.deny_hosts
        × All IsPort l.allow_ports
        × All IsPort l.deny_ports
  unfolding make
  make_sound allow_hosts deny_hosts allow_ports deny_ports l h =
      let (ah, e1, h1) =
        >>=-eq-ok (parse_rules net allow_hosts)
          (λ ah. parse_rules net deny_hosts >>= λ dh. parse_ports allow_ports >>= λ ap.
            parse_ports deny_ports >>= λ dp. ok (policy ah dh ap dp))
          h in
      let (dh, e2, h2) =
        >>=-eq-ok (parse_rules net deny_hosts)
          (λ dh. parse_ports allow_ports >>= λ ap.
            parse_ports deny_ports >>= λ dp. ok (policy ah dh ap dp))
          h1 in
      let (ap, e3, h3) =
        >>=-eq-ok (parse_ports allow_ports)
          (λ ap. parse_ports deny_ports >>= λ dp. ok (policy ah dh ap dp)) h2 in
      let (dp, e4, h4) = >>=-eq-ok (parse_ports deny_ports) (λ dp. ok (policy ah dh ap dp)) h3 in
      subst
        (λ (p : Acl).
          All IsProper p.allow_hosts
          × All IsProper p.deny_hosts
          × All IsPort p.allow_ports
          × All IsPort p.deny_ports)
        (ok-injective h4)
        (
          parse_rules-IsProper allow_hosts ah e1,
          parse_rules-IsProper deny_hosts dh e2,
          parse_ports-IsPort allow_ports ap e3,
          parse_ports-IsPort deny_ports dp e4,
        )
    where
      policy : List Rule → List Rule → List ℕ → List ℕ → Acl
      policy ah dh ap dp = record {
        allow_hosts = ah;
        deny_hosts = dh;
        allow_ports = ap;
        deny_ports = dp;
      }
