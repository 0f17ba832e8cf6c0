-- ===== src/Acl/Resolve.antt =====
-- internal/acl/acl.go: `Resolver.Resolve`.
pub mod Sound
use wanopt_proxy.Common.{
  ℕ, ◌≡◌, Bool, true, false, not, ◌&&◌, ◌||◌, Option, none, some, List, [], ◌∷◌, length, take, drop,
  any, ◌==◌, if◌then◌else◌, bytes_eq, Result, ok, err, Error, IoError, io, acl_denied, acl_busy,
  fail_if, ◌>>=◌, ◌>>◌,
}
use wanopt_proxy.Net.{Net, v4_prefix}
use wanopt_proxy.Protocol.Address.{Address, atyp_ipv4, atyp_ipv6, atyp_domain}
use wanopt_proxy.Acl.Rules.{Acl, ports_allowed, match_any}
use wanopt_proxy.Acl.Policy.{normalized, allowed, resolved_allowed}

-- A netip.Addr: 4 or 16 bytes and a zone, or no bytes for an address that is not valid.
pub record IpAddr : Type 0 where
  pub bytes : List ℕ
  pub zone : List ℕ

-- `Unmap`, which leaves an IPv4-mapped address without its zone.
unfoldable pub unmap : IpAddr → IpAddr
unmap a =
    if length a.bytes == 16 && bytes_eq (take 12 a.bytes) v4_prefix
    then record { bytes = drop 12 a.bytes; zone = [] }
    else a

abbrev same_ip : IpAddr → IpAddr → Bool
same_ip a b = bytes_eq a.bytes b.bytes && bytes_eq a.zone b.zone

-- The destination that an answer of the lookup stands for.
unfoldable pub candidate : ℕ → IpAddr → Address
candidate port ip = record {
  atyp = if length ip.bytes == 4 then atyp_ipv4 else atyp_ipv6;
  host = [];
  ip = ip.bytes;
  port = port;
}

-- The loop over the answers, with the keys of the map `seen`.
unfoldable pub screen : Option Acl → Address → List IpAddr → List IpAddr → List Address
screen policy a seen [] = []
screen policy a seen (answer ∷ answers) =
    let ip = unmap answer in
    let skip = screen policy a seen answers in
    let rest = screen policy a (ip ∷ seen) answers in
    if length ip.bytes == 0 || any (λ s. same_ip s ip) seen
    then skip
    else if resolved_allowed policy a (candidate a.port ip)
    then candidate a.port ip ∷ rest
    else rest

-- The branch that the select statement takes: the context is done, a slot is free, or neither.
pub data Slot : Type 0 where
  done : IoError → Slot
  free : Slot
  busy : Slot

abbrev take_slot : Slot → Result (Unit {0})
take_slot (done e) = err (io e)
take_slot free = ok tt
take_slot busy = err acl_busy

abbrev name_denied : Option Acl → Address → Bool
name_denied none a = false
name_denied (some l) a = match_any l.deny_hosts a

abbrev or_denied : List Address → Result (List Address)
or_denied [] = err acl_denied
or_denied (a ∷ as') = ok (a ∷ as')

-- The part of `Resolve` for a name.
unfoldable pub resolve_name :
    Option Acl → Slot → (List ℕ → Result (List IpAddr)) → Address → Result (List Address)
resolve_name policy slot lookup a = do
  fail_if (name_denied policy a) acl_denied
  take_slot slot
  ips ← lookup a.host
  or_denied (screen policy a [] ips)

-- `Resolve`. `lookup` is `LookupNetIP` within the timeout, and the slot is given back on return.
unfoldable pub resolve :
    Net → Option Acl → Slot → (List ℕ → Result (List IpAddr)) → Address → Result (List Address)
unfolding resolve_name
resolve net policy slot lookup addr = do
  a ← normalized net addr
  fail_if (not (ports_allowed policy a.port)) acl_denied
  if a.atyp == atyp_domain
      then resolve_name policy slot lookup a
      else if allowed net policy a
      then ok (a ∷ [])
      else err acl_denied
