-- ===== src/Acl/Policy/Normal.antt =====
-- What `normalized` returns, and that it is stable.
use wanopt_proxy.Common.{
  ℕ, ◌≡◌, ◌≢◌, refl, arith, true, false, ◌||◌, none, some, List, [], length, ◌==◌, Bool-cases,
  Option-cases, ==→eq, ok-injective, inl, inr, ok,
}
use mathlib.Core.Path.{subst}
use wanopt_proxy.Net.{Net, to4, to16, length-to4, length-to16}
use wanopt_proxy.Protocol.Address.{Address, atyp_ipv4, atyp_ipv6, atyp_domain}
use wanopt_proxy.Protocol.Address.RoundTrip.{to4_self, to16_self}
use wanopt_proxy.Acl.Names.{canonical_name, valid_name}
use wanopt_proxy.Acl.Names.Canonical.{canonical_name-valid_name}
use wanopt_proxy.Acl.Policy.{normal_ip, normal_name, normalized}

-- The three forms of a normalized address.
pub data IsNormal (net : Net) (a : Address) : Type 0 where
  ipv4 : a.atyp ≡ atyp_ipv4 → length a.ip ≡ 4 → IsNormal net a
  ipv6 : a.atyp ≡ atyp_ipv6 → to4 a.ip ≡ none → length a.ip ≡ 16 → IsNormal net a
  name :
      a.atyp ≡ atyp_domain → valid_name a.host ≡ true → net.parse_ip a.host ≡ none → IsNormal net a

to16-longer : (ip v6 : List ℕ) → to4 ip ≡ none → to16 ip ≡ some v6 → ip ≡ v6
unfolding to4 to16
to16-longer ip v6 n h = ground arith

module _ (net : Net) where
  -- What `normalized` keeps of the address that it was given.
  abbrev From : ℕ → Address → Type 0
  From port b = IsNormal net b × (b.port ≡ port)

  normal_ip-IsNormal : (a b : Address) → normal_ip a ≡ ok b → From a.port b
  unfolding normal_ip
  normal_ip-IsNormal a b h = elim (Option-cases (to4 a.ip)) [
    | inr (v4, e) ↦
        subst (From a.port) (ok-injective (rw (e, normal_ip) at h))
          (ipv4 refl (length-to4 a.ip v4 e), refl)
    | inl e ↦ elim (Option-cases (to16 a.ip)) [
      | inr (v6, f) ↦
          subst (From a.port) (ok-injective (rw (e, f, normal_ip) at h))
            (ipv6 refl (rw (to16-longer a.ip v6 e f) at e) (length-to16 a.ip v6 f), refl)
      | inl f ↦ absurd (cc (rw (e, f, normal_ip) at h))
    ]
  ]

  normal_name-IsNormal :
      (a b : Address) (host : List ℕ)
      → a.atyp ≡ atyp_domain
      → normal_name net a host ≡ ok b
      → From a.port b
  unfolding normal_name
  normal_name-IsNormal a b host t h = elim (Option-cases (net.parse_ip host)) [
    | inr (ip, e) ↦
        normal_ip-IsNormal (record a { ip = ip; host = [] }) b (rw (e, normal_name) at h)
    | inl e ↦ elim (Bool-cases (valid_name host)) [
      | inl v ↦ subst (From a.port) (ok-injective (rw (e, v, normal_name) at h)) (name t v e, refl)
      | inr n ↦ absurd (cc (rw (e, n, normal_name) at h))
    ]
  ]

  -- A normalized address has one of the three forms, and the port of the address, which is not 0.
  pub normalized-IsNormal :
      (a b : Address) → normalized net a ≡ ok b → IsNormal net b × (b.port ≡ a.port) × (b.port ≢ 0)
  unfolding normalized
  normalized-IsNormal a b h = elim (Bool-cases (a.port == 0)) [
    | inl zero_port ↦ absurd (cc (rw zero_port at h))
    | inr p ↦ elim (Bool-cases (a.atyp == atyp_domain)) [
      | inl d ↦ with_port p (
          normal_name-IsNormal a b (canonical_name net a.host) (==→eq a.atyp atyp_domain d)
            (rw (p, d) at h))
      | inr nd ↦ elim (Bool-cases (a.atyp == atyp_ipv4 || a.atyp == atyp_ipv6)) [
        | inl i ↦ with_port p (normal_ip-IsNormal a b (rw (p, nd, i) at h))
        | inr ni ↦ absurd (cc (rw (p, nd, ni) at h))
      ]
    ]
  ]
    where
      with_port :
          (a.port == 0) ≡ false → From a.port b → IsNormal net b × (b.port ≡ a.port) × (b.port ≢ 0)
      with_port p (n, e) = (n, e, ground arith)

  -- A normalized address is normalized to itself.
  pub IsNormal-normalized : (a : Address) → IsNormal net a → a.port ≢ 0 → normalized net a ≡ ok a
  unfolding normalized normal_ip normal_name
  IsNormal-normalized a (ipv4 t l) p = ground (arith, to4_self a.ip l)
  IsNormal-normalized a (ipv6 t n l) p = ground (arith, to16_self a.ip l)
  IsNormal-normalized a (name t v n) p = ground (arith, canonical_name-valid_name net a.host v)

  -- Normalizing twice is normalizing once.
  pub normalized-normalized : (a b : Address) → normalized net a ≡ ok b → normalized net b ≡ ok b
  normalized-normalized a b h =
      let (n, _, p) = normalized-IsNormal a b h in IsNormal-normalized b n p
