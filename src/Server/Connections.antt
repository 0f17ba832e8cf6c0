-- ===== src/Server/Connections.antt =====
-- internal/server/server.go: the accepted connections: `Serve` with its deferred function, `handleConn`
-- step by step, the control stream's part in them, and `closeConnections`;
-- internal/server/credentials.go: `ReloadCredentials`.
pub mod Entries
pub mod Invariant
pub mod Deadline
use wanopt_proxy.Common.{
  ℕ, ◌+◌, ◌-◌, ◌≡◌, Bool, true, false, not, ◌&&◌, Option, none, some, List, [], ◌∷◌, ltb, ◌==◌,
  if◌then◌else◌, Error,
}
use wanopt_proxy.Net.{is_some}
use wanopt_proxy.Tunnel.Auth.{Crypto}
use wanopt_proxy.Tunnel.Credentials.{Time, Certificate, Snapshot, accepts, update}
use wanopt_proxy.Server.{Conn, ready}

-- An accepted connection, from its slot to the end of its goroutine: whether `handleConn` has given
-- its function to `context.AfterFunc`, has made `authTimer`, has entered the connection in `states`,
-- and is behind `ServeQUICConn`; whether the timer is armed; and the code of the first
-- `CloseWithError`, which is the one that counts.
pub record Entry : Type 0 where
  pub id : ℕ
  pub conn : Conn
  pub watched : Bool
  pub timed : Bool
  pub registered : Bool
  pub ended : Bool
  pub armed : Bool
  pub closed : Option ℕ

-- Where `Serve` is: in its loop, behind it, behind `cancel` and `ln.Close`, behind
-- `closeConnections`, or behind `wg.Wait`.
pub data Phase : Type 0 where
  looping left stopped swept returned : Phase

abbrev pub is_looping : Phase → Bool
is_looping looping = true
is_looping left = false
is_looping stopped = false
is_looping swept = false
is_looping returned = false

-- `taken` slots are full; `canceled` is whether `serveCtx` is done. `conns` are the connections whose
-- goroutine runs, and `gone` those whose goroutine has ended.
pub record Server : Type 0 where
  pub max_connections : ℕ
  pub max_streams : ℕ
  pub taken : ℕ
  pub phase : Phase
  pub canceled : Bool
  pub conns : List Entry
  pub gone : List Entry
  pub rejected : ℕ
  pub credentials : Snapshot

unfoldable pub make : ℕ → ℕ → Snapshot → Server
make max_connections max_streams credentials = record {
  max_connections = max_connections;
  max_streams = max_streams;
  taken = 0;
  phase = looping;
  canceled = false;
  conns = [];
  gone = [];
  rejected = 0;
  credentials = credentials;
}

-- `CloseWithError`.
abbrev pub close : ℕ → Entry → Entry
close code e = elim e.closed [ none ↦ record e { closed = some code } | some k ↦ e ]

-- What is done to the connection of an id.
abbrev pub at_id : ℕ → (Entry → Entry) → List Entry → List Entry
at_id id f [] = []
at_id id f (e ∷ es) = let rest = at_id id f es in if e.id == id then f e ∷ rest else e ∷ rest

abbrev pub each : (Entry → Entry) → List Entry → List Entry
each f [] = []
each f (e ∷ es) = f e ∷ each f es

-- The connection that has the id and is behind `ServeQUICConn`, and the others.
abbrev pub removed : ℕ → List Entry → Option (Entry × List Entry)
removed id [] = none
removed id (e ∷ es) =
    let rest = removed id es in
    if (e.id == id) && e.ended
    then some (e, es)
    else elim rest [ none ↦ none | some (g, l) ↦ some (g, e ∷ l) ]

-- What is done to a connection that is in `states`.
abbrev pub served : (Entry → Entry) → Entry → Entry
served f e = if e.registered then f e else e

-- A connection whose goroutine is started, and nothing more.
unfoldable pub accepted : ℕ → ℕ → Entry
accepted max_streams id = record {
  id = id;
  conn = record {
    control_started = false;
    authed = false;
    auth_key = none;
    streams = 0;
    max_streams = max_streams;
  };
  watched = false;
  timed = false;
  registered = false;
  ended = false;
  armed = false;
  closed = none;
}

-- A connection that `Accept` gives.
unfoldable pub accept : ℕ → Server → Server
unfolding accepted
accept id s =
    if not (is_looping s.phase)
    then s
    else if ltb s.taken s.max_connections
    then record s { taken = s.taken + 1; conns = accepted s.max_streams id ∷ s.conns }
    else record s { rejected = s.rejected + 1 }

-- `handleConn` registers its function with the context.
unfoldable pub watch : Entry → Entry
watch e = record e { watched = true }

-- That function, which runs once the context is done, or at once where it is done already.
unfoldable pub on_cancel : Bool → Entry → Entry
on_cancel canceled e = if canceled && e.watched then close 0 e else e

-- `authTimer` is made, next.
unfoldable pub arm : Entry → Entry
arm e = if e.watched && not e.timed then record e { timed = true; armed = true } else e

-- The connection enters `states`, next.
unfoldable pub register : Entry → Entry
register e = if e.timed then record e { registered = true } else e

-- The function of `authTimer`.
unfoldable pub time_out : Entry → Entry
time_out e =
    if e.armed
    then (if e.conn.authed
        then record e { armed = false }
        else close 1 (record e { armed = false }))
    else e

-- `ServeQUICConn` returns, and the deferred function closes the connection.
unfoldable pub end : Entry → Entry
end e = let c = close 0 e in record c { ended = true }

-- The rest of the deferred calls, in one step: the connection leaves `states`, its timer and its
-- function are stopped, and its slot is free.
unfoldable pub finish : ℕ → Server → Server
finish id s = elim (removed id s.conns) [
  | none ↦ s
  | some (e, rest) ↦ record s { conns = rest; gone = e ∷ s.gone; taken = s.taken - 1 }
]

-- `closeConnections`; its list and the closes of it are one step.
unfoldable pub close_connections : Server → Server
close_connections s = record s { conns = each (served (close 0)) s.conns }

-- The loop of `Serve` ends, as `Accept` gives an error, for the context or for a reason of its own.
abbrev pub leave_from : Phase → Phase
leave_from looping = left
leave_from left = left
leave_from stopped = stopped
leave_from swept = swept
leave_from returned = returned

unfoldable pub leave : Server → Server
leave s = record s { phase = leave_from s.phase }

-- The next call of the deferred function of `Serve`: `cancel` with `ln.Close`, `closeConnections`, and
-- `wg.Wait`, which passes once no goroutine of a connection runs.
unfoldable pub close_down : Phase → Server → Server
unfolding close_connections
close_down looping s = s
close_down left s = record s { phase = stopped; canceled = true }
close_down stopped s = let s1 = close_connections s in record s1 { phase = swept }
close_down swept s = if s.taken == 0 then record s { phase = returned } else s
close_down returned s = s

-- What happens to the server, in any order: at `now` for those that read the clock.
pub data Event : Type 0 where
  accepts_conn watches runs_on_cancel arms registers times_out ends_control ends_serving finishes :
      ℕ → Event
  authenticates : ℕ → ℕ → Option (List ℕ) → Bool → Event
  reloads : ℕ → List ℕ → List ℕ → Time → Certificate → Event
  ticks : ℕ → Event
  cancels leaves_loop closes_down : Event

module _ (c : Crypto) where
  -- `handleControl` up to its loop, on the hash of the key that the client has proved, if it has;
  -- `sent` is whether the server's own proof went out.
  unfoldable pub control : ℕ → Snapshot → Option (List ℕ) → Bool → Entry → Entry
  control now s none sent e = close 1 e
  control now s (some key) sent e =
      let (failure, conn) = ready c now s key e.conn in
      elim failure [
        | some f ↦ close 1 (record e { conn = conn })
        | none ↦ let e1 = record e { conn = conn; armed = false } in if sent then e1 else close 1 e1
      ]

  abbrev is_revoked : ℕ → Snapshot → Option (List ℕ) → Bool
  is_revoked now s none = false
  is_revoked now s (some key) = not (accepts c now s key)

  -- `revokeUnauthorized` on one connection.
  unfoldable pub revoke : ℕ → Snapshot → Entry → Entry
  revoke now s e = if is_revoked now s e.conn.auth_key then close 1 e else e

  -- `ReloadCredentials`.
  unfoldable pub reload : ℕ → List ℕ → List ℕ → Time → Certificate → Server → Option Error × Server
  unfolding revoke
  reload now primary previous expires cert s =
      let (failure, credentials) = update now primary previous expires cert s.credentials in
      elim failure [
        | some e ↦ (some e, s)
        | none ↦ (
          none,
          record s {
            credentials = credentials;
            conns = each (served (revoke now credentials)) s.conns;
          },
        )
      ]

  -- `cancels` is the caller's context; the others are the functions above, each at one connection or
  -- at the server.
  unfoldable pub step : Event → Server → Server
  unfolding accept watch on_cancel arm register time_out end control revoke reload finish leave
      close_down
  step (accepts_conn id) s = accept id s
  step (watches id) s = record s { conns = at_id id watch s.conns }
  step (runs_on_cancel id) s = record s { conns = at_id id (on_cancel s.canceled) s.conns }
  step (arms id) s = record s { conns = at_id id arm s.conns }
  step (registers id) s = record s { conns = at_id id register s.conns }
  step (times_out id) s = record s { conns = at_id id time_out s.conns }
  step (authenticates now id key sent) s = record s {
    conns = at_id id (served (control now s.credentials key sent)) s.conns;
  }
  step (ends_control id) s = record s { conns = at_id id (served (close 0)) s.conns }
  step (ends_serving id) s = record s { conns = at_id id (served end) s.conns }
  step (finishes id) s = finish id s
  step (reloads now primary previous expires cert) s =
      (reload now primary previous expires cert s).1
  step (ticks now) s = record s { conns = each (served (revoke now s.credentials)) s.conns }
  step cancels s = record s { canceled = true }
  step leaves_loop s = leave s
  step closes_down s = close_down s.phase s

  unfoldable pub run : List Event → Server → Server
  unfolding step
  run [] s = s
  run (e ∷ es) s = run es (step e s)
