-- ===== src/Client/Run.antt =====
-- internal/client/client.go: `Run`, with `dialAuth`, `setConn` and `clearConn`. Times are in
-- nanoseconds.
pub mod Connections
use wanopt_proxy.Common.{
  ℕ, ◌+◌, ◌-◌, ◌*◌, ◌/◌, ◌%◌, ◌≡◌, Bool, true, false, Option, none, some, List, [], ◌∷◌, ◌++◌, min,
  if◌then◌else◌, Error, Result, ok, err, ◌>>◌, or_error, ◌==◌,
}
use wanopt_proxy.Client.Open.{Network, handshake}

abbrev pub initial_backoff : ℕ
initial_backoff = 500000000

abbrev pub max_backoff : ℕ
max_backoff = 30000000000

-- The connections are numbered; `opened` of them were dialed and `closed` of these are closed.
-- `woken` is how often `ready` was closed, `routes` the ids of the UDP sessions, and `ended` those
-- that were stopped. `tracked` is the gauge of `TrackConnection`.
pub record Tunnel : Type 0 where
  pub running : Bool
  pub stopped : Bool
  pub live : Option ℕ
  pub woken : ℕ
  pub opened : ℕ
  pub closed : ℕ
  pub tracked : ℕ
  pub reconnects : ℕ
  pub backoff : ℕ
  pub waits : List ℕ
  pub routes : List ℕ
  pub ended : List ℕ

-- The steps of `dialAuth`: the dial, the control stream, the exporter and the authentication, and
-- the context at the end. `net` is what `openTunnelStream` is answered.
pub record Dial : Type 0 where
  pub dialed : Option Error
  pub net : Network
  pub exported : Option Error
  pub authenticated : Option Error
  pub canceled : Option Error

abbrev authenticate : Dial → Result (Unit {0})
authenticate d =
    or_error d.net.opened
    >> handshake d.net
    >> or_error d.exported
    >> or_error d.authenticated
    >> or_error d.canceled

-- `dialAuth`: a connection on which anything fails is closed.
unfoldable pub dial_auth : Dial → Tunnel → Tunnel × Option Error
dial_auth d t = elim d.dialed [
  | some e ↦ (t, some e)
  | none ↦
      let t1 = record t { opened = t.opened + 1 } in
      elim (authenticate d) [
        | err e ↦ (record t1 { closed = t1.closed + 1 }, some e)
        | ok done ↦ (t1, none)
      ]
]

-- `setConn`, and `TrackConnection`. The connection is the one dialed last.
unfoldable pub set_conn : Tunnel → Tunnel
set_conn t = record t { live = some t.opened; woken = t.woken + 1; tracked = t.tracked + 1 }

abbrev same_conn : Option ℕ → ℕ → Bool
same_conn none n = false
same_conn (some m) n = m == n

-- `clearConn`.
unfoldable pub clear_conn : ℕ → Tunnel → Tunnel
clear_conn n t = if same_conn t.live n then record t { live = none } else t

-- `CloseWithError` and the cleanup of the metrics.
unfoldable pub close_conn : Tunnel → Tunnel
close_conn t = record t { closed = t.closed + 1; tracked = t.tracked - 1 }

-- The deferred function of `Run`.
unfoldable pub stop : Tunnel → Tunnel
stop t = record t {
  stopped = true;
  live = none;
  woken = t.woken + 1;
  routes = [];
  ended = t.ended ++ t.routes;
}

-- One round of the loop: whether the context is done before it and behind the dial or the
-- heartbeat, the dial, what `rand` gives, and whether the wait is canceled.
pub record Round : Type 0 where
  pub done_before : Bool
  pub dial : Dial
  pub done_after : Bool
  pub random : ℕ
  pub done_waiting : Bool

-- `Int64N n` of a random number.
abbrev int64n : ℕ → ℕ → ℕ
int64n n random = random % n

-- The wait and the longer backoff. A canceled wait is a return.
unfoldable pub pause : Round → Tunnel → Tunnel × Bool
pause r t =
    let half = t.backoff / 2 in
    let t1 = record t {
      reconnects = t.reconnects + 1;
      waits = t.waits ++ ((half + int64n (half + 1) r.random) ∷ []);
    } in
    if r.done_waiting
    then (t1, true)
    else (record t1 { backoff = min (t1.backoff * 2) max_backoff }, false)

-- The moments of a round between which other goroutines run, the last first, and whether the round
-- ends with a return.
pub record Passed : Type 0 where
  pub moments : List Tunnel
  pub last : Tunnel
  pub returned : Bool

abbrev pass : List Tunnel → Tunnel × Bool → Passed
pass l (t, returned) = record { moments = t ∷ l; last = t; returned = returned }

-- The part of a round behind a successful dial: the heartbeat runs between the first two moments.
unfoldable pub serve : Round → Tunnel → Passed
unfolding pause set_conn clear_conn close_conn
serve r t =
    let t1 = set_conn (record t { backoff = initial_backoff }) in
    let t2 = clear_conn t.opened t1 in
    let t3 = close_conn t2 in
    pass (t3 ∷ t2 ∷ t1 ∷ []) (if r.done_after then (t3, true) else pause r t3)

unfoldable pub round : Round → Tunnel → Passed
unfolding serve dial_auth
round r t =
    if r.done_before
    then pass [] (t, true)
    else let (t1, failure) = dial_auth r.dial t in
      elim failure [
        | some e ↦ pass (t1 ∷ []) (if r.done_after then (t1, true) else pause r t1)
        | none ↦ serve r t1
      ]

-- The loop, on the rounds that there are: the moments so far, the last first, and whether `Run`
-- has returned.
unfoldable pub rounds : List Round → Tunnel → Passed
unfolding round
rounds [] t = record { moments = t ∷ []; last = t; returned = false }
rounds (r ∷ rs) t =
    let p = round r t in
    let rest = rounds rs p.last in
    if p.returned then p else record rest { moments = rest.moments ++ p.moments }

-- `Run` on a client, called once; a second call returns at once.
unfoldable pub run : List Round → Tunnel → Passed
unfolding rounds stop
run rs t =
    if t.running
    then record { moments = t ∷ []; last = t; returned = true }
    else let p = rounds rs (record t { running = true; backoff = initial_backoff }) in
      if p.returned
      then record { moments = stop p.last ∷ p.moments; last = stop p.last; returned = true }
      else p

-- The tunnel of a new client.
abbrev pub make : List ℕ → Tunnel
make routes = record {
  running = false;
  stopped = false;
  live = none;
  woken = 0;
  opened = 0;
  closed = 0;
  tracked = 0;
  reconnects = 0;
  backoff = initial_backoff;
  waits = [];
  routes = routes;
  ended = [];
}
