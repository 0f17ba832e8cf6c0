-- ===== src/Examples/Connections.antt =====
-- The theorems on the life of connections and streams at concrete inputs.
use wanopt_proxy.Common.{ℕ, Result, refl, ◌+◌, ◌<◌, ◌≤◌, pos, negsuc}
use wanopt_proxy.Common.{
  ◌≡◌, Bool, true, false, Option, none, some, List, [], ◌∷◌, All, any, Error, no_capacity,
  dial_failed, ok, eof, Reader, Sink,
}
use wanopt_proxy.Examples.Values.{codec, crypto}
use wanopt_proxy.Protocol.Address.{Address, atyp_ipv4}
use wanopt_proxy.Compress.Decoder
use wanopt_proxy.Compress.Decoder.{decopy, done}
use wanopt_proxy.Compress.Decoder.Total.{decopy-IsTotal}
use wanopt_proxy.Admission.{Budget}
use wanopt_proxy.Client.Open.{Network, Pool, open_tcp}
use wanopt_proxy.Client.Open.Permits.{Settles, open_tcp-Settles}
use wanopt_proxy.Client.Run
use wanopt_proxy.Client.Run.{Round, Dial}
use wanopt_proxy.Client.Run.Connections.{IsSingle, IsWait, IsStopped, run-make_sound}
use wanopt_proxy.Client.Stream
use wanopt_proxy.Client.Stream.{Call, closes, half_closes, loses_connection, ends, run-releases}
use wanopt_proxy.Tunnel.Credentials.{Snapshot, accepts}
use wanopt_proxy.Server.Connections
use wanopt_proxy.Server.Connections.{
  accepts_conn, watches, runs_on_cancel, arms, registers, times_out, authenticates, ends_serving,
  finishes, ticks, leaves_loop, closes_down,
}
use wanopt_proxy.Server.Connections.Invariant.{IsSound}
use wanopt_proxy.Server.Connections.Deadline.{IsClosing, run-IsSound}
use wanopt_proxy.Protocol.Frame.{StreamRequest, ctrl_ping}
use wanopt_proxy.Server.{answer_pings, ready}
use wanopt_proxy.Server.Proxying.{Proxied, proxy_stream, IsConcluded, proxy_stream_sound}
use wanopt_proxy.Client.Heartbeat.{
  heartbeat, heartbeat_times, repeated, clean, heartbeat-answer_pings,
}
use wanopt_proxy.Client.Options
use wanopt_proxy.Client.Options.{new-available}
use wanopt_proxy.Tunnel.Quic
use wanopt_proxy.Tunnel.Quic.{
  new_quic_config, configure_congestion, congestion_available, new_quic_config-IsUsable,
}
use wanopt_proxy.Relay
use wanopt_proxy.Relay.{relay, pipe, up, down, cancels}
use wanopt_proxy.Relay.HalfClose.{IsOrderly, both-IsOrderly}
use wanopt_proxy.Metrics
use wanopt_proxy.Metrics.Labels.{word_queue, word_dial}
use wanopt_proxy.Metrics.{Metrics, drops, tracks, cleans_up, fails}
use wanopt_proxy.Metrics.Cardinality.{IsBounded, run-IsSeries}

-- A block, and a second one that is cut short.
abbrev cut : Reader
cut = record { bytes = 0 ∷ 0 ∷ 1 ∷ 0 ∷ 1 ∷ 9 ∷ 0 ∷ 0 ∷ []; ending = eof }

abbrev sink : Sink
sink = record { taken = []; plan = [] }

decopy-IsTotal_example :
    (s : Decoder.State) × (e : Option Error) × (decopy codec sink cut ≡ done s e)
decopy-IsTotal_example = decopy-IsTotal codec sink cut

abbrev target : Address
target = record { atyp = atyp_ipv4; host = []; ip = 1 ∷ 2 ∷ 3 ∷ 4 ∷ []; port = 443 }

-- The server answers the CONNECT, and compresses where it is asked to.
abbrev network : Network
network = record {
  live = none;
  opened = none;
  header_sent = none;
  response = ok 200;
  connect_canceled = none;
  request_sent = λ r. none;
  reply = λ r. ok (0, r.flags);
  canceled = none;
}

abbrev budget : Budget
budget = record { limit = 2; slots = 0; observe = false; ups = 0; downs = 0; leases = [] }

abbrev pool : Pool
pool = record {
  active = budget;
  codecs = budget;
  pending = 0;
  max_pending = 4;
  opened = 0;
  aborted = 0;
  rejected_streams = 0;
  rejected_pending = 0;
  fallbacks = 0;
}

open_tcp-Settles_example : Settles pool (open_tcp network target true true pool)
open_tcp-Settles_example = open_tcp-Settles network target true true pool

abbrev dial : Option Error → Dial
dial answer = record {
  dialed = answer;
  net = network;
  exported = none;
  authenticated = none;
  canceled = none;
}

abbrev round : Bool → Option Error → Round
round stops answer = record {
  done_before = stops;
  dial = dial answer;
  done_after = false;
  random = 123456789;
  done_waiting = false;
}

-- A dial that fails, one that succeeds, and the end.
abbrev course : List Round
course = round false (some (dial_failed 1)) ∷ round false none ∷ round true none ∷ []

run-make_sound_example :
    All IsSingle (Run.run course (Run.make (3 ∷ []))).moments
    × All IsWait (Run.run course (Run.make (3 ∷ []))).last.waits
    × ((Run.run course (Run.make (3 ∷ []))).returned ≡ true
        → IsStopped (Run.run course (Run.make (3 ∷ []))).last)
    × (any (λ r. r.done_before) course ≡ true
        → (Run.run course (Run.make (3 ∷ []))).returned ≡ true)
run-make_sound_example = run-make_sound course (3 ∷ [])

abbrev calls : List Call
calls = half_closes ∷ closes ∷ loses_connection ∷ closes ∷ []

run-releases_example : (Stream.run calls Stream.fresh).releases ≡ 1
run-releases_example = run-releases calls

abbrev credentials : Snapshot
credentials = record {
  primary = 1 ∷ 2 ∷ [];
  previous = [];
  expires = none;
  cert = record { chain = 1; has_key = true };
}

-- Two connections are registered, of which one authenticates and the other one runs out of time. A
-- third one has its slot, and starts only behind `closeConnections`.
abbrev events : List Connections.Event
events =
    accepts_conn 1
    ∷ accepts_conn 2
    ∷ watches 1
    ∷ watches 2
    ∷ arms 1
    ∷ arms 2
    ∷ registers 1
    ∷ registers 2
    ∷ authenticates 5 1 (some (crypto.sha256 (1 ∷ 2 ∷ []))) true
    ∷ times_out 1
    ∷ times_out 2
    ∷ ticks 6
    ∷ ends_serving 2
    ∷ finishes 2
    ∷ accepts_conn 3
    ∷ leaves_loop
    ∷ closes_down
    ∷ closes_down
    ∷ watches 3
    ∷ runs_on_cancel 3
    ∷ []

-- What is left of it: the connections by number, with what they were closed with.
abbrev codes : List Connections.Entry → List (ℕ × Option ℕ)
codes [] = []
codes (e ∷ es) = (e.id, e.closed) ∷ codes es

closed_all :
    codes (Connections.run crypto events (Connections.make 2 8 credentials)).conns
    ≡ (3, some 0) ∷ (1, some 0) ∷ []
unfolding Connections.run Connections.make ready accepts
closed_all = refl

run-IsSound_example :
    IsSound (Connections.run crypto events (Connections.make 2 8 credentials))
    × IsClosing (Connections.run crypto events (Connections.make 2 8 credentials))
run-IsSound_example = run-IsSound crypto events 2 8 credentials

-- The upward direction ends cleanly, the other one with an error.
abbrev directions : List Relay.Event
directions = Relay.ends up none none ∷ Relay.ends down (some no_capacity) none ∷ cancels ∷ []

both-IsOrderly_example :
    IsOrderly true true (relay directions Relay.make)
    × IsOrderly false false (pipe false directions Relay.make)
both-IsOrderly_example = both-IsOrderly directions false

abbrev counts : List Metrics.Call
counts =
    drops word_queue
    ∷ drops (1 ∷ [])
    ∷ fails word_dial none
    ∷ tracks 7 true
    ∷ tracks 7 false
    ∷ cleans_up 0
    ∷ cleans_up 0
    ∷ []

run-IsSeries_example :
    (m : Metrics) × (Metrics.run counts (some Metrics.new) ≡ some m) × IsBounded m
run-IsSeries_example = run-IsSeries counts

-- A request for compression that is dialed, answered and relayed.
abbrev wanted : Result StreamRequest
wanted = ok (record { cmd = 1; flags = 1; addr = target })

proxy_stream_sound_example :
    (p : Proxied) × (proxy_stream wanted none true none false budget ≡ some p)
    × IsConcluded budget none false p
proxy_stream_sound_example = proxy_stream_sound wanted none true none false budget

heartbeat-answer_pings_example :
    (heartbeat 3
        (record { bytes = (answer_pings (repeated 3 ctrl_ping) (clean [])).taken; ending = eof })
        (clean [])
      ≡ (clean (repeated 3 ctrl_ping), true))
    × ((heartbeat_times 60000000000).0 + (heartbeat_times 60000000000).1 ≤ 60000000000)
heartbeat-answer_pings_example = heartbeat-answer_pings 3 60000000000 eof

-- The defaults, with limits of streams that are negative.
abbrev options : Options.Options
options = record {
  congestion_control = [];
  max_active_streams = negsuc 4;
  max_compressed_streams = negsuc 0;
  idle_timeout = pos 0;
  handshake_timeout = pos 0;
  request_timeout = pos 0;
  max_pending_requests = pos 0;
  max_udp_sessions = pos 0;
  max_stream_recv_window = 0;
  max_conn_recv_window = 0;
}

available : congestion_available false [] ≡ true
unfolding congestion_available
available = refl

new-available_example :
    (c : Options.Client) × (Options.new false true options ≡ some c)
    × (0 < c.active.limit)
    × (0 < c.codecs.limit)
    × (c.active.limit ≡ 128)
    × ((c.codecs.limit ≤ c.active.limit) × (c.codecs.limit ≤ 16))
    × (0 < c.request_timeout)
    × Quic.IsUsable c.quic
new-available_example = new-available false true options available
