-- ===== src/Acl/Rules/Matching.antt =====
-- Which addresses a rule matches.
use wanopt_proxy.Common.{
  ℕ, ◌≡◌, ◌≢◌, ◌↔◌, ◌⊎◌, inl, inr, refl, arith, true, false, ◌||◌, none, List, [], ◌∷◌, ◌++◌,
  length, ◌==◌, bytes_eq, bytes_eq→eq, bytes_eq_refl, Bool-cases, ==→eq,
}
use wanopt_proxy.Protocol.Address.{Address, atyp_domain}
use wanopt_proxy.Acl.Names.{has_suffix}
use wanopt_proxy.Acl.Names.Suffix.{has_suffix_iff}
use wanopt_proxy.Acl.Rules.{rule_matches, domain_matches}

-- The name is the domain, or ends in a dot and the domain.
abbrev pub IsWithin : List ℕ → List ℕ → Type 0
IsWithin domain host = (host ≡ domain) ⊎ ((front : List ℕ) × (host ≡ front ++ (b'.' ∷ domain)))

IsWithin-test :
    (domain host : List ℕ)
    → ((bytes_eq host domain || has_suffix host (b'.' ∷ domain)) ≡ true) ↔ IsWithin domain host
IsWithin-test domain host = (read, build)
  where
    read : (bytes_eq host domain || has_suffix host (b'.' ∷ domain)) ≡ true → IsWithin domain host
    read h = elim (Bool-cases (bytes_eq host domain)) [
      | inl same ↦ inl (bytes_eq→eq host domain same)
      | inr other ↦ inr ((has_suffix_iff host (b'.' ∷ domain)).0 (rw other at h))
    ]

    build : IsWithin domain host → (bytes_eq host domain || has_suffix host (b'.' ∷ domain)) ≡ true
    build (inl e) = rw (e, bytes_eq_refl domain)
    build (inr f) = let s = (has_suffix_iff host (b'.' ∷ domain)).1 f in ground arith

-- A domain rule matches a name exactly when the name is its domain or a subdomain of it, and it
-- matches no numeric address.
pub domain_rule_iff :
    (domain : List ℕ) (a : Address)
    → domain ≢ []
    → (rule_matches (record { cidr = none; domain = domain }) a ≡ true)
      ↔ ((a.atyp ≡ atyp_domain) × IsWithin domain a.host)
unfolding rule_matches
domain_rule_iff [] a n = absurd (n refl)
domain_rule_iff (d ∷ ds) a n = (read, build)
  where
    filled : (length (d ∷ ds) == 0) ≡ false
    filled = ground arith

    read : domain_matches (d ∷ ds) a ≡ true → (a.atyp ≡ atyp_domain) × IsWithin (d ∷ ds) a.host
    read h = elim (Bool-cases (a.atyp == atyp_domain)) [
      | inl t ↦
          (==→eq a.atyp atyp_domain t, (IsWithin-test (d ∷ ds) a.host).0 (rw (filled, t) at h))
      | inr t ↦ absurd (cc (rw (filled, t) at h))
    ]

    build : (a.atyp ≡ atyp_domain) × IsWithin (d ∷ ds) a.host → domain_matches (d ∷ ds) a ≡ true
    build (t, w) = let e = (IsWithin-test (d ∷ ds) a.host).1 w in ground arith
