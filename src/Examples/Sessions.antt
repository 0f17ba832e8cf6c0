-- ===== src/Examples/Sessions.antt =====
-- The theorems on UDP at concrete inputs.
use wanopt_proxy.Common.{◌≤◌, ◌≡◌, refl, arith, true, false, none, List, [], ◌∷◌, bytes_eq, ok, pos}
use wanopt_proxy.Common.{Reader, Sink, Option, read_full, write, eof, ◌≢◌}
use wanopt_proxy.Examples.Values.{net, texts}
use wanopt_proxy.Protocol.Address.{Address, read_address, atyp_ipv4, validate, wire_form}
use wanopt_proxy.Net.{to4}
use wanopt_proxy.Protocol.Datagram.{Datagram}
use wanopt_proxy.Proxy.Socks.{
  relays, cmd_connect, socks_handshake, read_socks_request, handle_socks, dispatch, socks_connect,
  write_socks_reply, rep_success, zero_ip, relay_if, reply_bytes, bound_field, DialFailure,
}
use wanopt_proxy.Proxy.Socks.Negotiated.{handle_socks_sound}
use wanopt_proxy.Proxy.SocksUdp
use wanopt_proxy.Proxy.SocksUdp.{Endpoint, parse_socks_udp, build_socks_udp}
use wanopt_proxy.Proxy.SocksUdp.Framing.{parse_socks_udp-build_socks_udp}
use wanopt_proxy.Proxy.SocksUdp.Pinning
use wanopt_proxy.Proxy.SocksUdp.Pinning.{Event, arrives, answers, IsPinned, run-IsPinned}
use wanopt_proxy.UdpNat
use wanopt_proxy.UdpNat.{Options, begin_send, make}
use wanopt_proxy.UdpNat.Steps.{Reachable, starts, next, begins}
use wanopt_proxy.UdpNat.Bounds
use wanopt_proxy.UdpNat.Bounds.{Reachable-IsBounded}
use wanopt_proxy.Client.Sessions
use wanopt_proxy.Client.Sessions.{Call, opens, closes, sends, shuts_down, run-IsBounded}
use wanopt_proxy.Client

abbrev target : Address
target = record { atyp = atyp_ipv4; host = []; ip = 1 ∷ 2 ∷ 3 ∷ 4 ∷ []; port = 53 }

target_valid : validate net target ≡ true
unfolding validate to4
target_valid = refl

parse_socks_udp-build_socks_udp_example :
    parse_socks_udp net (build_socks_udp target (7 ∷ 8 ∷ [])) ≡ ok (wire_form target, 7 ∷ 8 ∷ [])
parse_socks_udp-build_socks_udp_example =
    parse_socks_udp-build_socks_udp net target (7 ∷ 8 ∷ []) target_valid (omega arith)
      (λ e. ground arith) (λ e. ground arith) (omega arith)

abbrev datagram : Datagram
datagram = record { session_id = 1; addr = target; payload = 7 ∷ 8 ∷ [] }

abbrev peer : Endpoint
peer = record { ip = 10 ∷ []; zone = []; port = 4000 }

abbrev intruder : Endpoint
intruder = record { ip = 10 ∷ []; zone = []; port = 4001 }

abbrev association : SocksUdp.State
association = record {
  peer_ip = 10 ∷ [];
  peer_zone = [];
  requested_port = 0;
  source = none;
  drops = [];
  forwarded = [];
  returned = [];
}

abbrev events : List Event
events =
    arrives peer (build_socks_udp target (7 ∷ []))
    ∷ arrives intruder (build_socks_udp target (8 ∷ []))
    ∷ answers datagram true
    ∷ []

run-IsPinned_example : IsPinned bytes_eq net (Pinning.run bytes_eq net events association)
run-IsPinned_example = run-IsPinned bytes_eq net events association (tt, tt)

abbrev options : Options
options = record {
  max_flows = pos 2;
  queue_size = pos 0;
  workers = pos 9;
  new_flows_per_second = pos 1;
  max_payload = pos 5000;
  idle_timeout = pos 0;
}

abbrev begun : UdpNat.State
begun = (begin_send texts 2000 datagram (make options 1000)).0

later : (make options 1000).token_time ≤ 2000
unfolding make
later = ground arith

reached : Reachable texts options 1000 begun
reached = next (make options 1000) begun starts (begins 2000 datagram (make options 1000) later)

Reachable-IsBounded_example : Bounds.IsBounded begun
Reachable-IsBounded_example = Reachable-IsBounded texts options 1000 begun reached

abbrev calls : List Call
calls =
    opens
    ∷ opens
    ∷ opens
    ∷ closes 1
    ∷ sends 2 false target (7 ∷ []) (ok none)
    ∷ shuts_down
    ∷ opens
    ∷ []

run-IsBounded_example : Sessions.IsBounded (Sessions.run net calls (Client.make 2))
run-IsBounded_example = run-IsBounded net calls 2

-- A client that offers no authentication and asks for the target.
abbrev client : Reader
client = record { bytes = 5 ∷ 1 ∷ 0 ∷ 5 ∷ 1 ∷ 0 ∷ 1 ∷ 1 ∷ 2 ∷ 3 ∷ 4 ∷ 0 ∷ 53 ∷ []; ending = eof }

abbrev output : Sink
output = record { taken = []; plan = [] }

abbrev reachable : Address → Option DialFailure
reachable a = none

relayed : (handle_socks net reachable client output).1 ≡ relays target
unfolding handle_socks socks_handshake read_socks_request dispatch socks_connect relay_if
    write_socks_reply reply_bytes bound_field read_full write read_address validate to4
relayed = refl

handle_socks_sound_example :
    (target.port ≢ 0)
    × (reachable target ≡ none)
    × ((write_socks_reply rep_success zero_ip 0 (socks_handshake client output).1).0 ≡ none)
    × (r1 : Reader) × (r2 : Reader) × ((socks_handshake client output).0 ≡ ok r1)
    × (read_socks_request net r1 ≡ ok (cmd_connect, target, r2))
handle_socks_sound_example = handle_socks_sound reachable net client output target relayed
