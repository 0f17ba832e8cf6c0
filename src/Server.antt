-- ===== src/Server.antt =====
-- internal/server/server.go: what the server does with a request on a tunnel connection, up to the
-- relay: the gate of `serveHTTP`, the control stream, and the negotiation of a proxy stream.
pub mod Gate
pub mod Connections
pub mod Proxying
use wanopt_proxy.Common.{
  ℕ, ◌+◌, ◌-◌, ◌%◌, ◌≡◌, Bool, true, false, not, ◌&&◌, ◌||◌, Option, none, some, List, [], ◌∷◌,
  length, ltb, ◌==◌, bytes_eq, get_or, if◌then◌else◌, IoError, Error, key_revoked, Result, ok, err,
  Reader, read_full, Sink, write,
}
use wanopt_proxy.Net.{is_some}
use wanopt_proxy.Admission.{Budget, try_acquire, release}
use wanopt_proxy.Protocol.Frame.{
  StreamRequest, cmd_tcp_connect, flag_compress, ctrl_ping, ctrl_pong, status_ok,
  status_general_err, status_conn_refused, status_host_unreach, status_not_allowed,
}
use wanopt_proxy.Tunnel.Auth.{Crypto}
use wanopt_proxy.Tunnel.Credentials.{Snapshot, accepts}

-- The authority of a request: one of the two of the tunnel, or any other host.
pub data Authority : Type 0 where
  control_authority proxy_authority other_host : Authority

-- A request: whether the method is CONNECT, the host, and the version header.
pub record Request : Type 0 where
  pub connect : Bool
  pub host : Authority
  pub version : List ℕ

-- The gate's part of `connState`: `streams` of `max_streams` slots are taken.
pub record Conn : Type 0 where
  pub control_started : Bool
  pub authed : Bool
  pub auth_key : Option (List ℕ)
  pub streams : ℕ
  pub max_streams : ℕ

pub data Answer : Type 0 where
  cover_site : Answer
  status : ℕ → Answer
  serves_control serves_proxy : Answer

-- The answer to a request, and what it holds until the handler returns: a lease of the budget of
-- streams, and a slot of the connection.
pub record Entered : Type 0 where
  pub answer : Answer
  pub conn : Conn
  pub active : Budget
  pub lease : Option ℕ
  pub slot : Bool

abbrev pub turn_away : Answer → Conn → Budget → Entered
turn_away a conn active = record {
  answer = a;
  conn = conn;
  active = active;
  lease = none;
  slot = false;
}

abbrev pub is_tunnel : Authority → Bool
is_tunnel control_authority = true
is_tunnel proxy_authority = true
is_tunnel other_host = false

-- The text of the protocol's version.
abbrev pub version_text : List ℕ
version_text = b'2' ∷ []

module _ (c : Crypto) where
  abbrev pub accepts_key : ℕ → Snapshot → Option (List ℕ) → Bool
  accepts_key now s none = false
  accepts_key now s (some id) = accepts c now s id

  unfoldable pub enter_control : Bool → Conn → Budget → Entered
  enter_control http3 conn active =
      if conn.control_started
      then turn_away (status 409) conn active
      else turn_away (if http3 then serves_control else status 505)
          (record conn { control_started = true }) active

  -- Behind the two checks of the key, with the answer of `TryAcquire`.
  unfoldable pub enter_slot : Bool → Conn → Budget × Option ℕ → Entered
  enter_slot http3 conn (active, none) = turn_away (status 503) conn active
  enter_slot http3 conn (active, some l) =
      if ltb conn.streams conn.max_streams
      then record {
        answer = if http3 then serves_proxy else status 505;
        conn = record conn { streams = conn.streams + 1 };
        active = active;
        lease = some l;
        slot = true;
      }
      else record {
        answer = status 503;
        conn = conn;
        active = active;
        lease = some l;
        slot = false;
      }

  unfoldable pub enter_proxy : ℕ → Snapshot → Bool → Conn → Budget → Entered
  enter_proxy now s http3 conn active =
      if not conn.authed
      then turn_away (status 403) conn active
      else if not (accepts_key now s conn.auth_key)
      then turn_away (status 403) conn active
      else enter_slot http3 conn (try_acquire active)

  unfoldable pub enter_tunnel : ℕ → Snapshot → Bool → Authority → Conn → Budget → Entered
  enter_tunnel now s http3 control_authority conn active = enter_control http3 conn active
  enter_tunnel now s http3 proxy_authority conn active = enter_proxy now s http3 conn active
  enter_tunnel now s http3 other_host conn active = turn_away cover_site conn active

  -- `serveHTTP` up to the handler, on a connection whose state the context carries; `http3` is
  -- whether the writer gives its stream.
  unfoldable pub enter : ℕ → Snapshot → Bool → Request → Conn → Budget → Entered
  enter now s http3 r conn active =
      if not r.connect || not (is_tunnel r.host)
      then turn_away cover_site conn active
      else if not (bytes_eq r.version version_text)
      then turn_away (status 400) conn active
      else enter_tunnel now s http3 r.host conn active

  -- The deferred calls: the slot of the connection, and then the lease.
  unfoldable pub leave : Entered → Option (Conn × Budget)
  leave e =
      let conn =
        if e.slot
        then (if e.conn.streams == 0
            then none
            else some (record e.conn { streams = e.conn.streams - 1 }))
        else some e.conn in
      elim conn [
        | none ↦ none
        | some conn' ↦ elim (release e.lease e.active) [ none ↦ none | some b ↦ some (conn', b) ]
      ]

  -- The callback of `handleControl` on the hash of the key that a client has proved.
  unfoldable pub ready : ℕ → Snapshot → List ℕ → Conn → Option Error × Conn
  ready now s id conn =
      let conn' = record conn { auth_key = some id } in
      if accepts c now s id
      then (none, record conn' { authed = true })
      else (some key_revoked, conn')

-- The loop of `handleControl` behind the authentication: the replies written until the control
-- stream ends, brings anything but a ping, or takes no more writes. A pass reads one byte, so that
-- there are no more passes than bytes.
unfoldable pub answer_pings : List ℕ → Sink → Sink
answer_pings [] w = w
answer_pings (b ∷ bs) w =
    if not (b == ctrl_ping)
    then w
    else let ((n, e), w') = write (ctrl_pong ∷ []) w in if is_some e then w' else answer_pings bs w'

-- The error of a dial: refused by the policy, out of time, or another.
pub data DialFailure : Type 0 where
  denied_by_policy timed_out other_failure : DialFailure

-- `dialStatus`, and the status of a denied dial.
unfoldable pub dial_status : DialFailure → ℕ
dial_status denied_by_policy = status_not_allowed
dial_status timed_out = status_host_unreach
dial_status other_failure = status_conn_refused

-- What `handleProxy` sends, and whether it relays, and whether compressed: no reply, a refusal, or
-- the reply before the relay.
pub data Served : Type 0 where
  no_reply : Served
  refuses : ℕ → Served
  relays : Bool → Served

abbrev codec_granted : Bool → Budget → Budget × Option ℕ
codec_granted true codecs = try_acquire codecs
codec_granted false codecs = (codecs, none)

abbrev pub has_flag : ℕ → Bool
has_flag flags = flags % 2 == 1

-- `handleProxy` up to its reply: what was read from the stream, the dial's answer, whether the
-- server compresses, and the budget of codecs.
unfoldable pub handle_proxy :
    Result StreamRequest → Option DialFailure → Bool → Budget → Served × Budget × Option ℕ
handle_proxy (err e) dialed compression codecs = (no_reply, codecs, none)
handle_proxy (ok req) (some e) compression codecs =
    if not (req.cmd == cmd_tcp_connect)
    then (refuses status_general_err, codecs, none)
    else (refuses (dial_status e), codecs, none)
handle_proxy (ok req) none compression codecs =
    if not (req.cmd == cmd_tcp_connect)
    then (refuses status_general_err, codecs, none)
    else let (codecs', lease) = codec_granted (compression && has_flag req.flags) codecs in
      (relays (is_some lease), codecs', lease)

-- The status and the flags of the reply.
unfoldable pub reply_of : Served → Option (ℕ × ℕ)
reply_of no_reply = none
reply_of (refuses s) = some (s, 0)
reply_of (relays compressed) = some (status_ok, if compressed then flag_compress else 0)
