-- ===== src/Proxy/Http.antt =====
-- internal/proxy/http.go: what the HTTP proxy does with a request, up to the forwarding or the relay.
pub mod Targets
use wanopt_proxy.Common.{
  ℕ, ◌+◌, ◌-◌, ◌≡◌, Bool, true, false, not, ◌&&◌, ◌||◌, Option, none, some, List, [], ◌∷◌, length,
  take, drop, get_or, any, ◌==◌, if◌then◌else◌, Error, Result, ok, err,
}
use wanopt_proxy.Net.{Net, is_some}
use wanopt_proxy.Protocol.Address.{Address}
use wanopt_proxy.Protocol.Address.Text.{Text, parse_address}
use wanopt_proxy.Proxy.Socks.{DialFailure, at_capacity, dial_error, other_failure, counts_dial_err}

abbrev left_bracket : ℕ
left_bracket = 91

abbrev right_bracket : ℕ
right_bracket = 93

abbrev colon : ℕ
colon = 58

abbrev bracketed : List ℕ → Bool
bracketed s = get_or s 0 0 == left_bracket && get_or (drop (length s - 1) s) 0 0 == right_bracket

-- `ensurePort`.
unfoldable pub ensure_port : Net → Text → List ℕ → List ℕ → List ℕ
ensure_port net tx hostport port =
    let inner = take (length hostport - 2) (drop 1 hostport) in
    if is_some (tx.split_host_port hostport)
    then hostport
    else if bracketed hostport && is_some (net.parse_ip inner)
    then tx.join inner port
    else if is_some (net.parse_ip hostport)
    then tx.join hostport port
    else if any (λ b. b == colon) hostport
    then hostport
    else tx.join hostport port

-- `capacityHTTPStatus`.
unfoldable pub capacity_http_status : DialFailure → ℕ
capacity_http_status at_capacity = 503
capacity_http_status (dial_error status) = 502
capacity_http_status other_failure = 502

-- A request: whether the method is CONNECT, the Host header, whether there is a body, and of the URL
-- whether the scheme is http, the host, and whether it names a user.
pub record Request : Type 0 where
  pub connect : Bool
  pub host : List ℕ
  pub has_body : Bool
  pub http_scheme : Bool
  pub url_host : List ℕ
  pub has_user : Bool

-- The answers to a CONNECT behind its dial: whether the connection can be taken over, and whether the
-- reply is written and flushed.
pub record Hijack : Type 0 where
  pub hijacked : Bool
  pub written : Bool
  pub flushed : Bool

-- What becomes of a request. `rejects` has the status, and whether the connection is to be closed;
-- `drops` leaves a client without an answer, with the remote end closed.
pub data Handled : Type 0 where
  rejects : ℕ → Bool → Handled
  forwards : Address → Handled
  drops : Handled
  relays : Bool → Handled

-- A handled request, the address it dialed, and whether the dial counts as an error.
pub record Outcome : Type 0 where
  pub handled : Handled
  pub dialed : Option Address
  pub dial_error_counted : Bool

abbrev without_dial : Handled → Outcome
without_dial h = record { handled = h; dialed = none; dial_error_counted = false }

-- `rejectHTTP`.
unfoldable pub reject_http : Request → ℕ → Handled
reject_http r status = rejects status r.has_body

-- `ParseAddress`, and the check of the port.
unfoldable pub target : Net → Text → List ℕ → Option Address
target net tx hostport = elim (parse_address net tx hostport) [
  | err e ↦ none
  | ok a ↦ if a.port == 0 then none else some a
]

abbrev port_443 : List ℕ
port_443 = b'4' ∷ b'4' ∷ b'3' ∷ []

abbrev port_80 : List ℕ
port_80 = b'8' ∷ b'0' ∷ []

abbrev takeover : Hijack → Bool → Handled
takeover h compressed = if h.hijacked && h.written && h.flushed then relays compressed else drops

-- The dial of `httpConnect` and what follows it.
unfoldable pub connect_to :
    (Address → Option DialFailure × Bool) → Hijack → Request → Address → Outcome
unfolding reject_http capacity_http_status
connect_to dial h r a =
    let (failure, compressed) = dial a in
    elim failure [
      | some f ↦ record {
        handled = reject_http r (capacity_http_status f);
        dialed = some a;
        dial_error_counted = counts_dial_err f;
      }
      | none ↦ record {
        handled = takeover h compressed;
        dialed = some a;
        dial_error_counted = false;
      }
    ]

-- `httpConnect`. The dial answers with its error or nil, and with whether the stream is compressed.
unfoldable pub http_connect :
    Net → Text → (Address → Option DialFailure × Bool) → Hijack → Request → Outcome
unfolding target ensure_port connect_to
http_connect net tx dial h r = elim (target net tx (ensure_port net tx r.host port_443)) [
  | none ↦ without_dial (reject_http r 400)
  | some a ↦ if r.has_body then without_dial (reject_http r 400) else connect_to dial h r a
]

-- The handler of `httpHandler`; a forwarded request is dialed by the transport.
unfoldable pub handle_http :
    Net → Text → (Address → Option DialFailure × Bool) → Hijack → Request → Outcome
unfolding http_connect
handle_http net tx dial h r =
    if r.connect
    then http_connect net tx dial h r
    else if not r.http_scheme || length r.url_host == 0 || r.has_user
    then without_dial (reject_http r 400)
    else elim (target net tx (ensure_port net tx r.url_host port_80)) [
      | none ↦ without_dial (reject_http r 400)
      | some a ↦ without_dial (forwards a)
    ]
