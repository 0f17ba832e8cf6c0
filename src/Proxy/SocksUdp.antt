-- ===== src/Proxy/SocksUdp.antt =====
-- internal/proxy/socks_udp.go: the datagrams of a UDP association and the pinning of its source.
pub mod Framing
pub mod Pinning
use wanopt_proxy.Common.{
  ℕ, ◌+◌, ◌-◌, ◌≡◌, Bool, true, false, not, ◌&&◌, ◌||◌, Option, none, some, List, [], ◌∷◌, ◌++◌,
  length, get_or, drop, any, ltb, ◌==◌, bytes_eq, if◌then◌else◌, IoError, eof, unexpected_eof,
  Error, io, Result, ok, err, fail_if, ◌>>=◌, ◌>>◌, Reader, bad_socks_udp, udp_too_large,
}
use wanopt_proxy.Net.{Net}
use wanopt_proxy.Protocol.Address.{Address, atyp_domain, encode, read_address}
use wanopt_proxy.Protocol.Datagram.{Datagram, max_udp_payload}

-- `parseSOCKSUDP`: the target and the payload.
unfoldable pub parse_socks_udp : Net → List ℕ → Result (Address × List ℕ)
parse_socks_udp net b =
    fail_if (ltb (length b) 4) (io unexpected_eof)
    >> fail_if (not (get_or b 0 0 == 0) || not (get_or b 1 0 == 0) || not (get_or b 2 0 == 0))
        bad_socks_udp
    >> (read_address net (record { bytes = drop 3 b; ending = eof }) >>= λ (addr, r).
        fail_if (addr.port == 0 || (addr.atyp == atyp_domain && length addr.host == 0))
          bad_socks_udp
        >> fail_if (ltb max_udp_payload (length r.bytes)) udp_too_large
        >> ok (addr, drop (length b - length r.bytes) b))

-- `buildSOCKSUDP`.
unfoldable pub build_socks_udp : Address → List ℕ → List ℕ
build_socks_udp src payload = encode src (0 ∷ 0 ∷ 0 ∷ []) ++ payload

-- A net.UDPAddr.
pub record Endpoint : Type 0 where
  pub ip : List ℕ
  pub zone : List ℕ
  pub port : ℕ

pub data Drop : Type 0 where
  from_source size invalid send_failed : Drop

-- The association: the peer of its control connection, the port that was asked for, the source
-- once it is pinned, the drops, what was handed to the session with the endpoint that it came
-- from, and what went back.
pub record State : Type 0 where
  pub peer_ip : List ℕ
  pub peer_zone : List ℕ
  pub requested_port : ℕ
  pub source : Option Endpoint
  pub drops : List Drop
  pub forwarded : List (Endpoint × Address × List ℕ)
  pub returned : List (Endpoint × List ℕ)

abbrev pub drop_for : Drop → State → State
drop_for reason s = record s { drops = s.drops ++ (reason ∷ []) }

abbrev pub moved : Option Endpoint → Endpoint → Bool
moved none from = false
moved (some to) from = not (to.port == from.port) || not (bytes_eq to.zone from.zone)

abbrev pub drop_error : Error → Drop
drop_error udp_too_large = size
drop_error _ = invalid

abbrev pub pin : Option Endpoint → Endpoint → Option Endpoint
pin none from = some from
pin (some to) from = some to

-- `IP.Equal` of the package net, the text functions of that package, and the resolver.
module _ (ip_equal : List ℕ → List ℕ → Bool) where
  -- `validUDPSource`, where `lookup` is the resolver's answer for a name.
  unfoldable pub valid_udp_source :
      (List ℕ → Bool) → (List ℕ → Option (List (List ℕ))) → Address → List ℕ → Bool
  valid_udp_source is_unspecified lookup a peer =
      if not (a.atyp == atyp_domain)
      then is_unspecified a.ip || ip_equal a.ip peer
      else elim (lookup a.host) [ none ↦ false | some ips ↦ any (λ ip. ip_equal ip peer) ips ]

  unfoldable pub refused : Endpoint → State → Bool
  refused from s =
      not (ip_equal from.ip s.peer_ip)
      || (not (length s.peer_zone == 0) && not (bytes_eq from.zone s.peer_zone))
      || (not (s.requested_port == 0) && not (from.port == s.requested_port))
      || moved s.source from

  module _ (net : Net) where
    -- One pass of the loop on the socket. The session's `Send` records its own failures.
    unfoldable pub from_socket : Endpoint → List ℕ → State → State
    unfolding refused
    from_socket from packet s =
        if refused from s then drop_for from_source s else elim (parse_socks_udp net packet) [
          | err e ↦ drop_for (drop_error e) s
          | ok (target, payload) ↦ record s {
            source = pin s.source from;
            forwarded = s.forwarded ++ ((from, target, payload) ∷ []);
          }
        ]

-- One datagram of the session, where `sends` is whether the write to the socket succeeds.
unfoldable pub from_session : Datagram → Bool → State → State
from_session dg sends s = elim s.source [
  | none ↦ drop_for from_source s
  | some to ↦
      if ltb max_udp_payload (length dg.payload)
      then drop_for size s
      else if not sends
      then drop_for send_failed s
      else record s { returned = s.returned ++ ((to, build_socks_udp dg.addr dg.payload) ∷ []) }
]
