-- ===== src/Acl/Policy.antt =====
-- internal/acl/acl.go: `normalized`, `Allowed` and `resolvedAllowed`.
pub mod Normal
use wanopt_proxy.Common.{
  ℕ, ◌≡◌, Bool, true, false, not, ◌&&◌, ◌||◌, Option, none, some, List, [], ◌∷◌, length, ◌==◌,
  if◌then◌else◌, Result, ok, err, Error, acl_address, fail_if, ◌>>=◌, ◌>>◌,
}
use wanopt_proxy.Net.{Net, to4, to16}
use wanopt_proxy.Protocol.Address.{Address, atyp_ipv4, atyp_ipv6, atyp_domain}
use wanopt_proxy.Acl.Names.{canonical_name, valid_name}
use wanopt_proxy.Acl.Rules.{Acl, ports_allowed, match_any}

-- The end of `normalized`: an IP address in its shortest form.
unfoldable pub normal_ip : Address → Result Address
normal_ip a = elim (to4 a.ip) [
  | some v4 ↦ ok (record a { atyp = atyp_ipv4; ip = v4 })
  | none ↦ elim (to16 a.ip) [
    | some v6 ↦ ok (record a { atyp = atyp_ipv6; ip = v6 })
    | none ↦ err acl_address
  ]
]

normal_name : Net → Address → List ℕ → Result Address
unfolding normal_ip
normal_name net a host = elim (net.parse_ip host) [
  | some ip ↦ normal_ip (record a { ip = ip; host = [] })
  | none ↦ if valid_name host then ok (record a { host = host }) else err acl_address
]

unfoldable pub normalized : Net → Address → Result Address
unfolding normal_name
normalized net a =
    if a.port == 0
    then err acl_address
    else if a.atyp == atyp_domain
    then normal_name net a (canonical_name net a.host)
    else if a.atyp == atyp_ipv4 || a.atyp == atyp_ipv6
    then normal_ip a
    else err acl_address

-- The host part of a decision: deny wins, and an empty allow list permits.
unfoldable pub hosts_allowed : Option Acl → Address → Bool
hosts_allowed none a = true
hosts_allowed (some l) a =
    not (match_any l.deny_hosts a) && (length l.allow_hosts == 0 || match_any l.allow_hosts a)

-- `Allowed`.
unfoldable pub allowed : Net → Option Acl → Address → Bool
unfolding hosts_allowed
allowed net l addr = elim (normalized net addr) [
  | err e ↦ false
  | ok a ↦ ports_allowed l a.port && hosts_allowed l a
]

-- `resolvedAllowed`.
unfoldable pub resolved_allowed : Option Acl → Address → Address → Bool
resolved_allowed none original ip = true
resolved_allowed (some l) original ip =
    ports_allowed (some l) original.port
    && not (match_any l.deny_hosts original || match_any l.deny_hosts ip)
    && (length l.allow_hosts == 0 || match_any l.allow_hosts original || match_any l.allow_hosts ip)
