-- ===== src/UdpNat.antt =====
-- internal/server/udp.go: the server's end of the UDP sessions of one tunnel connection. A worker
-- and the mutex are steps of one state: `begin_send` is what `send` does under the mutex, and
-- `finish_send` what it does behind the dial, under the mutex again. A flow is known by its socket.
pub mod Steps
pub mod Bounds
use wanopt_proxy.Common.{
  ℕ, ◌+◌, ◌-◌, ◌*◌, ◌≡◌, Bool, true, false, not, ◌&&◌, ◌||◌, Option, none, some, List, [], ◌∷◌,
  ◌++◌, length, ltb, leb, ◌==◌, bytes_eq, min, if◌then◌else◌, IoError, Error, acl_denied, acl_busy,
  Result, ok, err, ℤ, pos, negsuc, above, below, to_nat,
}
use wanopt_proxy.Net.{Net}
use wanopt_proxy.Protocol.Address.{Address}
use wanopt_proxy.Protocol.Address.Text.{Text, to_string}
use wanopt_proxy.Protocol.Datagram.{
  Datagram, encode_datagram, decode_datagram, max_udp_payload, max_udp_datagram_size,
}

-- `UDPOptions`, with times in nanoseconds.
pub record Options : Type 0 where
  pub max_flows : ℤ
  pub queue_size : ℤ
  pub workers : ℤ
  pub new_flows_per_second : ℤ
  pub max_payload : ℤ
  pub idle_timeout : ℤ

-- The same behind `defaults`.
pub record Limits : Type 0 where
  pub max_flows : ℕ
  pub queue_size : ℕ
  pub workers : ℕ
  pub new_flows_per_second : ℕ
  pub max_payload : ℕ
  pub idle_timeout : ℕ

abbrev pub second : ℕ
second = 1000000000

abbrev positive_or : ℤ → ℕ → ℕ
positive_or p default = if above p 0 then to_nat p else default

-- `UDPOptions.defaults`.
unfoldable pub defaults : Options → Limits
defaults o =
    let flows = positive_or o.max_flows 256 in
    record {
      max_flows = flows;
      queue_size = positive_or o.queue_size 128;
      workers = min (positive_or o.workers 4) flows;
      new_flows_per_second = positive_or o.new_flows_per_second 32;
      max_payload =
          if above o.max_payload 0 && not (above o.max_payload max_udp_payload)
          then to_nat o.max_payload
          else max_udp_payload;
      idle_timeout = positive_or o.idle_timeout (60 * second);
    }

-- The reasons of `drop`.
pub data Drop : Type 0 where
  unauthenticated size closing queue_full limit rate acl dns send_failed invalid : Drop

-- The session and the text of the target, which `flowKey` joins with a bar.
abbrev pub Key : Type 0
Key = ℕ × List ℕ

abbrev pub key_eq : Key → Key → Bool
key_eq (i, s) (j, t) = i == j && bytes_eq s t

pub record Flow : Type 0 where
  pub socket : ℕ
  pub session_id : ℕ
  pub target : Address
  pub last_seen : ℕ

-- `udpNAT`. The tokens are counted in billionths, exactly where the source has a float64. The
-- metrics are the drops, the gauge of flows and the bytes; `sent` is what went to the sockets and
-- to the peer. `started` and `dials`, the time of the start and the dials begun, are for statements only.
pub record State : Type 0 where
  pub opt : Limits
  pub authenticated : Bool
  pub cancelled : Bool
  pub queue : List Datagram
  pub packets : List (Flow × List ℕ)
  pub flows : List (Key × Flow)
  pub pending : List Key
  pub closed : Bool
  pub tokens : ℕ
  pub token_time : ℕ
  pub drops : List Drop
  pub opened : ℕ
  pub retired : ℕ
  pub up : ℕ
  pub down : ℕ
  pub peer : List (List ℕ)
  pub started : ℕ
  pub dials : ℕ

-- `makeUDPNAT` at the time `now`.
unfoldable pub make : Options → ℕ → State
unfolding defaults
make o now = record {
  opt = defaults o;
  authenticated = false;
  cancelled = false;
  queue = [];
  packets = [];
  flows = [];
  pending = [];
  closed = false;
  tokens = (defaults o).new_flows_per_second * second;
  token_time = now;
  drops = [];
  opened = 0;
  retired = 0;
  up = 0;
  down = 0;
  peer = [];
  started = now;
  dials = 0;
}

abbrev pub lookup : Key → List (Key × Flow) → Option Flow
lookup k [] = none
lookup k ((k', f) ∷ rest) = if key_eq k k' then some f else lookup k rest

abbrev pub remove : Key → List (Key × Flow) → List (Key × Flow)
remove k [] = []
remove k ((k', f) ∷ rest) =
    let others = remove k rest in if key_eq k k' then others else (k', f) ∷ others

abbrev pub has : Key → List Key → Bool
has k [] = false
has k (k' ∷ rest) = key_eq k k' || has k rest

abbrev pub delete : Key → List Key → List Key
delete k [] = []
delete k (k' ∷ rest) = let others = delete k rest in if key_eq k k' then others else k' ∷ others

-- `f.lastSeen = now`, for the flow of a socket.
abbrev pub touch : ℕ → ℕ → List (Key × Flow) → List (Key × Flow)
touch socket now [] = []
touch socket now ((k, f) ∷ rest) =
    (k, if f.socket == socket then record f { last_seen = now } else f) ∷ touch socket now rest

abbrev pub drop_for : Drop → State → State
drop_for reason n = record n { drops = n.drops ++ (reason ∷ []) }

-- The send on a channel of the capacity `opt.QueueSize` under a `default`.
abbrev enqueue : Datagram → State → State
enqueue dg n =
    if ltb (length n.queue) n.opt.queue_size
    then record n { queue = n.queue ++ (dg ∷ []) }
    else drop_for queue_full n

abbrev enqueue_packet : Flow → List ℕ → State → State
enqueue_packet f payload n =
    if ltb (length n.packets) n.opt.queue_size
    then record n { packets = n.packets ++ ((f, payload) ∷ []) }
    else drop_for queue_full n

abbrev pub route : Option Flow → Datagram → State → State
route none dg n = enqueue dg n
route (some f) dg n = enqueue_packet f dg.payload n

-- The tokens at the time `now`.
abbrev pub refilled : ℕ → State → ℕ
refilled now n =
    min (n.tokens + (now - n.token_time) * n.opt.new_flows_per_second)
      (n.opt.new_flows_per_second * second)

-- How `send` goes on behind the first hold of the mutex.
pub data Next : Type 0 where
  stop : Next
  write_to : Flow → Next
  dial : Next

-- What a dial makes: a UDP socket, or some other connection.
pub data Remote : Type 0 where
  udp_socket : ℕ → Remote
  other_conn : Remote

abbrev pub dial_drop : Error → Drop
dial_drop acl_denied = acl
dial_drop acl_busy = limit
dial_drop _ = dns

-- `write` of a payload of a flow, whose socket answers with the bytes sent or an error.
unfoldable pub write : ℕ → Flow → Result ℕ → State → State
write now f answer n =
    if n.closed
    then n
    else let n' = record n { flows = touch f.socket now n.flows } in
      elim answer [ ok sent ↦ record n' { up = n'.up + sent } | err e ↦ drop_for send_failed n' ]

module _ (tx : Text) where
  abbrev pub key_of : Datagram → Key
  key_of dg = (dg.session_id, to_string tx dg.addr)

  -- `forward`.
  unfoldable pub forward : Datagram → State → State
  forward dg n =
      if not n.authenticated
      then drop_for unauthenticated n
      else if ltb n.opt.max_payload (length dg.payload)
      then drop_for size n
      else if n.cancelled
      then drop_for closing n
      else route (lookup (key_of dg) n.flows) dg n

  unfoldable pub admit_new : ℕ → Key → State → State × Next
  admit_new now key n =
      if has key n.pending
      then (drop_for queue_full n, stop)
      else if leb n.opt.max_flows (length n.flows + length n.pending)
      then (drop_for limit n, stop)
      else let n' = record n { tokens = refilled now n; token_time = now } in
        if ltb n'.tokens second then (drop_for rate n', stop) else (
          record n' {
            tokens = n'.tokens - second;
            pending = key ∷ n'.pending;
            dials = n'.dials + 1;
          },
          dial,
        )

  -- `send`, up to the dial.
  unfoldable pub begin_send : ℕ → Datagram → State → State × Next
  begin_send now dg n = if n.closed then (n, stop) else elim (lookup (key_of dg) n.flows) [
    | some f ↦ (record n { flows = touch f.socket now n.flows }, write_to f)
    | none ↦ admit_new now (key_of dg) n
  ]

  -- The new flow, if there is one.
  unfoldable pub finish_send : ℕ → Datagram → Result Remote → State → State × Next
  finish_send now dg answer n =
      let n' = record n { pending = delete (key_of dg) n.pending } in
      elim answer [
        | err e ↦ (drop_for (dial_drop e) n', stop)
        | ok remote ↦ if n'.closed then (n', stop) else elim remote [
          | other_conn ↦ (drop_for send_failed n', stop)
          | udp_socket s ↦
              let f : Flow = record {
                socket = s;
                session_id = dg.session_id;
                target = dg.addr;
                last_seen = now;
              } in
              (
                record n' {
                  flows = (key_of dg, f) ∷ remove (key_of dg) n'.flows;
                  opened = n'.opened + 1;
                },
                write_to f,
              )
        ]
      ]

-- A packet of `packetWorker`, whose context may be done: the packet, if it is to be written.
unfoldable pub next_packet : State → State × Option (Flow × List ℕ)
next_packet n = elim n.packets [
  | [] ↦ (n, none)
  | packet ∷ rest ↦ (record n { packets = rest }, if n.cancelled then none else some packet)
]

-- A datagram of `worker`: the one that is to be sent.
unfoldable pub next_datagram : State → State × Option Datagram
next_datagram n = elim n.queue [
  | [] ↦ (n, none)
  | dg ∷ rest ↦
      (record n { queue = rest }, if not n.cancelled && n.authenticated then some dg else none)
]

-- The deferred end of `pumpReplies`.
unfoldable pub retire : Key → Flow → State → State
retire key f n = elim (lookup key n.flows) [
  | none ↦ n
  | some g ↦
      if g.socket == f.socket
      then record n { flows = remove key n.flows; retired = n.retired + 1 }
      else n
]

-- A read of a flow's socket: the bytes in the buffer, and an error or none.
pub data ReadError : Type 0 where
  net_closed timeout broken : ReadError

-- One pass of the loop of `pumpReplies` at the time `now`, where `last_seen` is the flow's and
-- `sends` whether the tunnel takes the datagram: `true` for another pass.
unfoldable pub pump : ℕ → Flow → List ℕ × Option ReadError → Bool → State → State × Bool
pump now f (bytes, e) sends n =
    if n.closed || n.cancelled
    then (n, false)
    else if ltb n.opt.max_payload (length bytes)
    then (drop_for size n, true)
    else elim e [
      | some timeout ↦ (n, not (leb n.opt.idle_timeout (now - f.last_seen)))
      | some net_closed ↦ (n, false)
      | some broken ↦ (n, false)
      | none ↦
          let n' = record n { flows = touch f.socket now n.flows } in
          let out = encode_datagram f.session_id f.target bytes in
          if ltb max_udp_datagram_size (length out)
          then (drop_for size n', true)
          else if not sends
          then (drop_for send_failed n', true)
          else (record n' { down = n'.down + length bytes; peer = n'.peer ++ (out ∷ []) }, true)
    ]

-- `close`.
unfoldable pub close : State → State
close n = record n { cancelled = true; closed = true }

module _ (net : Net) (tx : Text) where
  -- One datagram of `serveDatagrams`.
  unfoldable pub serve_datagram : List ℕ → State → State
  serve_datagram bytes n =
      if not n.authenticated
      then drop_for unauthenticated n
      else if ltb max_udp_datagram_size (length bytes)
      then drop_for size n
      else elim (decode_datagram net bytes) [ err e ↦ drop_for invalid n | ok dg ↦ forward tx dg n ]
