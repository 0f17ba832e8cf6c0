-- ===== src/Client.antt =====
-- internal/client/client.go: the client's side of a proxy stream and of the UDP sessions.
pub mod Streams
pub mod Open
pub mod Stream
pub mod Run
pub mod Heartbeat
pub mod Options
pub mod Sessions
use wanopt_proxy.Common.{
  ℕ, ◌+◌, ◌/◌, ◌%◌, ◌≡◌, Bool, true, false, not, ◌&&◌, ◌||◌, Option, none, some, List, [], ◌∷◌,
  ◌++◌, length, ltb, leb, min, ◌==◌, if◌then◌else◌, Error, no_capacity, bad_address,
  payload_too_large, zero_port, unrequested_flags, client_closed, dial_failed, Result, ok, err,
  ◌>>=◌, ◌>>◌, or_error,
}
use wanopt_proxy.Net.{Net, is_some}
use wanopt_proxy.Admission.{Budget, try_acquire, release}
use wanopt_proxy.Protocol.Address.{Address, validate}
use wanopt_proxy.Protocol.Datagram.{
  Datagram, encode_datagram, decode_datagram, max_udp_payload, max_udp_datagram_size,
}
use wanopt_proxy.Protocol.Frame.{StreamRequest, cmd_tcp_connect, flag_compress, status_ok}

-- The codec lease of `OpenTCP`: taken only where compression is wanted and enabled.
unfoldable pub want_codec : Bool → Bool → Budget → Budget × Option ℕ
want_codec wanted enabled codecs = if wanted && enabled then try_acquire codecs else (codecs, none)

-- The request of `OpenTCP`: its flag is set only when a codec lease exists.
unfoldable pub open_request : Address → Option ℕ → StreamRequest
open_request target codec = record {
  cmd = cmd_tcp_connect;
  flags = if is_some codec then flag_compress else 0;
  addr = target;
}

-- The reply's status.
abbrev pub check_status : ℕ → Result (Unit {0})
check_status status = if not (status == status_ok) then err (dial_failed status) else ok tt

-- The reply's flags against those of the request: whether the stream is compressed.
abbrev pub check_flags : StreamRequest → ℕ → Result Bool
check_flags req flags =
    if not (flags / 2 == 0) || (flags % 2 == 1 && not (req.flags % 2 == 1))
    then err unrequested_flags
    else ok (flags % 2 == 1)

-- The end of `OpenTCP`, behind the reply to its request, with the context's error at that point.
unfoldable pub accept_reply : StreamRequest → Option Error → ℕ × ℕ → Result Bool
accept_reply req canceled (status, flags) = do
  check_status status
  or_error canceled
  check_flags req flags

-- The codec lease of an accepted stream goes back at once where the server does not compress.
unfoldable pub keep_codec : Bool → Option ℕ → Budget → Option (Budget × Option ℕ)
keep_codec true codec codecs = some (codecs, codec)
keep_codec false codec codecs = elim (release codec codecs) [
  | none ↦ none
  | some codecs' ↦ some (codecs', none)
]

-- `HTTPIdleCapacity`.
unfoldable pub http_idle_capacity : ℕ → ℕ → Bool → ℕ
http_idle_capacity max_active max_compressed compression =
    if compression then min (max_active / 2) (max_compressed / 2) else max_active / 2

-- The reasons of `UDPDrop`.
pub data Drop : Type 0 where
  invalid closing size send_failed queue_full : Drop

-- A UDP session: what waits in `recv`, whose capacity is 32, and whether `done` is closed.
pub record Session : Type 0 where
  pub id : ℕ
  pub waiting : List Datagram
  pub is_done : Bool

abbrev pub recv_capacity : ℕ
recv_capacity = 32

-- The UDP part of the client: `sent` went to the tunnel. `sequence` is a uint64 in the source; it is
-- not followed to its 2 ^ 64th session, where it would start again.
pub record State : Type 0 where
  pub max_sessions : ℕ
  pub stopped : Bool
  pub sequence : ℕ
  pub routes : List Session
  pub drops : List Drop
  pub sent : List (List ℕ)

unfoldable pub make : ℕ → State
make limit = record {
  max_sessions = limit;
  stopped = false;
  sequence = 0;
  routes = [];
  drops = [];
  sent = [];
}

abbrev pub drop_for : Drop → State → State
drop_for reason s = record s { drops = s.drops ++ (reason ∷ []) }

abbrev pub without : ℕ → List Session → List Session
without id [] = []
without id (s ∷ rest) = let others = without id rest in if s.id == id then others else s ∷ others

-- `NewUDPSession`: the client, and the session's id or the error.
unfoldable pub new_session : State → State × Result ℕ
new_session s =
    if s.stopped
    then (s, err client_closed)
    else if leb s.max_sessions (length s.routes)
    then (s, err no_capacity)
    else let id = s.sequence + 1 in
      (
        record s {
          sequence = id;
          routes = record { id = id; waiting = []; is_done = false } ∷ s.routes;
        },
        ok id,
      )

-- `UDPSession.Close`.
unfoldable pub close_session : ℕ → State → State
close_session id s = record s { routes = without id s.routes }

-- The deferred end of `Run`.
unfoldable pub shut_down : State → State
shut_down s = record s { stopped = true; routes = [] }

-- `UDPSession.Send`, where `tunnel` is the error of `getConn`, or whether the tunnel takes the
-- datagram.
unfoldable pub send :
    Net → ℕ → Bool → Address → List ℕ → Result (Option Error) → State → State × Option Error
send net id is_done target payload tunnel s =
    if not (validate net target)
    then (drop_for invalid s, some bad_address)
    else if target.port == 0
    then (drop_for invalid s, some zero_port)
    else if is_done
    then (drop_for closing s, some client_closed)
    else if ltb max_udp_payload (length payload)
    then (drop_for size s, some payload_too_large)
    else elim tunnel [
      | err e ↦ (drop_for send_failed s, some e)
      | ok answer ↦
          let out = encode_datagram id target payload in
          if ltb max_udp_datagram_size (length out)
          then (drop_for size s, some payload_too_large)
          else elim answer [
            | some e ↦ (drop_for send_failed s, some e)
            | none ↦ (record s { sent = s.sent ++ (out ∷ []) }, none)
          ]
    ]

-- The delivery to the session of an id, if it has one: the sessions behind it, and the drop.
abbrev pub deliver : Datagram → List Session → List Session × Option Drop
deliver dg [] = ([], some closing)
deliver dg (s ∷ rest) =
    let (others, d) = deliver dg rest in
    if s.id == dg.session_id
    then (if s.is_done
        then (s ∷ rest, none)
        else if ltb (length s.waiting) recv_capacity
        then (record s { waiting = s.waiting ++ (dg ∷ []) } ∷ rest, none)
        else (s ∷ rest, some queue_full))
    else (s ∷ others, d)

abbrev pub drop_if : Option Drop → State → State
drop_if none s = s
drop_if (some d) s = drop_for d s

-- One datagram of `dispatchDatagrams`.
unfoldable pub dispatch : Net → List ℕ → State → State
dispatch net bytes s = elim (decode_datagram net bytes) [
  | err e ↦ drop_for invalid s
  | ok dg ↦ let (routes, d) = deliver dg s.routes in drop_if d (record s { routes = routes })
]
