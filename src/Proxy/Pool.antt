-- ===== src/Proxy/Pool.antt =====
-- internal/proxy/http.go: the connections that `httpTransport` owns, and internal/proxy/proxy.go: the
-- client connections that `track` admits. Connections are numbered.
pub mod Ownership
pub mod Slots
use wanopt_proxy.Common.{
  ℕ, ◌+◌, ◌-◌, ◌≡◌, Bool, true, false, not, Option, none, some, List, [], ◌∷◌, length, ltb, ◌==◌,
  if◌then◌else◌,
}

-- Without one entry of a number; `none` where there is none. A connection is in a pool once.
abbrev pub removed : ℕ → List ℕ → Option (List ℕ)
removed id [] = none
removed id (x ∷ xs) =
    let rest = removed id xs in
    if x == id then some xs else elim rest [ none ↦ none | some l ↦ some (x ∷ l) ]

-- The transport's pool: `dialing` dials run, `opened` streams were given to it by the tunnel, and
-- `closed` of them are closed. `active` is the gauge ActiveStreams.
pub record Pool : Type 0 where
  pub closing : Bool
  pub dialing : ℕ
  pub opened : ℕ
  pub closed : ℕ
  pub active : ℕ
  pub conns : List ℕ

abbrev pub make : Pool
make = record { closing = false; dialing = 0; opened = 0; closed = 0; active = 0; conns = [] }

-- `DialContext` up to its dial; a pool that is closing refuses.
unfoldable pub begin_dial : Pool → Pool
begin_dial p = if p.closing then p else record p { dialing = p.dialing + 1 }

-- The end of a dial that gave no stream.
unfoldable pub fail_dial : Pool → Pool
fail_dial p = if p.dialing == 0 then p else record p { dialing = p.dialing - 1 }

-- The end of a dial that gave a stream, which goes into the pool, or is closed at once where the pool
-- is closing.
unfoldable pub finish_dial : Pool → Pool
finish_dial p =
    if p.dialing == 0
    then p
    else let p1 = record p {
      dialing = p.dialing - 1;
      opened = p.opened + 1;
      active = p.active + 1;
    } in
      if p.closing
      then record p1 { closed = p1.closed + 1; active = p1.active - 1 }
      else record p1 { conns = p1.opened ∷ p1.conns }

-- `Close` of a connection of the pool: its `Once` releases it, and that of its meter lowers the gauge.
unfoldable pub close_conn : ℕ → Pool → Pool
close_conn id p = elim (removed id p.conns) [
  | none ↦ p
  | some rest ↦ record p { conns = rest; closed = p.closed + 1; active = p.active - 1 }
]

-- The loop of `closeAll`.
unfoldable pub close_each : List ℕ → Pool → Pool
unfolding close_conn
close_each [] p = p
close_each (id ∷ ids) p = close_each ids (close_conn id p)

-- `closeAll` up to its wait for the dials: the flag, the list and the closes of it are one step, where
-- the source closes behind its lock. A dial that ends in between sees the flag, as it does here.
unfoldable pub close_all : Pool → Pool
unfolding close_each
close_all p = close_each p.conns (record p { closing = true })

pub data Event : Type 0 where
  begins fails finishes closes_all : Event
  closes : ℕ → Event

unfoldable pub step : Event → Pool → Pool
unfolding begin_dial fail_dial finish_dial close_conn close_all
step begins p = begin_dial p
step fails p = fail_dial p
step finishes p = finish_dial p
step closes_all p = close_all p
step (closes id) p = close_conn id p

unfoldable pub run : List Event → Pool → Pool
unfolding step
run [] p = p
run (e ∷ es) p = run es (step e p)

-- The listeners' connections: `taken` of `max_connections` slots, and those that `track` refused.
-- A connection takes its slot and enters the map in one step, and gives both back in one step.
pub record Listener : Type 0 where
  pub max_connections : ℕ
  pub taken : ℕ
  pub accepted : ℕ
  pub refused : ℕ
  pub conns : List ℕ

-- `track`: a connection without a slot is closed.
unfoldable pub track : Listener → Listener
track l =
    if ltb l.taken l.max_connections
    then record l {
      taken = l.taken + 1;
      accepted = l.accepted + 1;
      conns = (l.accepted + 1) ∷ l.conns;
    }
    else record l { refused = l.refused + 1 }

-- `Close` of a tracked connection.
unfoldable pub release : ℕ → Listener → Listener
release id l = elim (removed id l.conns) [
  | none ↦ l
  | some rest ↦ record l { conns = rest; taken = l.taken - 1 }
]

unfoldable pub release_each : List ℕ → Listener → Listener
unfolding release
release_each [] l = l
release_each (id ∷ ids) l = release_each ids (release id l)

-- `closeConnections`.
unfoldable pub close_connections : Listener → Listener
unfolding release_each
close_connections l = release_each l.conns l

-- Both listeners, with no connection yet.
abbrev pub listen : ℕ → Listener
listen max_connections = record {
  max_connections = max_connections;
  taken = 0;
  accepted = 0;
  refused = 0;
  conns = [];
}

pub data Admission : Type 0 where
  tracks stops : Admission
  releases : ℕ → Admission

unfoldable pub admit : List Admission → Listener → Listener
unfolding track release close_connections
admit [] l = l
admit (tracks ∷ es) l = admit es (track l)
admit (stops ∷ es) l = admit es (close_connections l)
admit (releases id ∷ es) l = admit es (release id l)
