-- ===== src/Server/Connections/Deadline.antt =====
-- No connection is served without authentication and without a deadline for it, and none outlives
-- `Serve`.
use wanopt_proxy.Common.{ℕ, ◌≡◌, refl, arith, true, List, [], ◌∷◌, All, ◌&&◌, if-either}
use wanopt_proxy.Tunnel.Auth.{Crypto}
use wanopt_proxy.Tunnel.Credentials.{Snapshot}
use wanopt_proxy.Server.Connections.{
  Entry, Server, make, close, each, served, watch, on_cancel, arm, register, end, time_out, control,
  revoke, close_connections, Event, accepts_conn, watches, runs_on_cancel, arms, registers,
  times_out, ends_control, ends_serving, finishes, authenticates, reloads, ticks, cancels,
  leaves_loop, closes_down, step, run,
}
use wanopt_proxy.Server.Connections.Entries.{
  IsGuarded, IsClosed, each-All, close-IsClosed, served-close-IsSafe, watch-IsSafe,
  on_cancel-IsSafe, arm-IsSafe, register-IsSafe, end-IsSafe, time_out-IsSafe, control-IsSafe,
  revoke-IsSafe,
}
use wanopt_proxy.Server.Connections.Invariant.{
  is_canceling, IsSound, at_id-IsSound, each-IsSound, accept-IsSound, finish-IsSound,
  reload-IsSound, phase-IsSound, leave-IsSound, close_down-IsSound,
}

-- `closeConnections` leaves no connection open that is in `states`; and behind `cancel` any other one
-- is closed by the function that its goroutine has given, or will give, to `context.AfterFunc`.
pub record IsClosing (s : Server) : Type 0 where
  pub listed : All (λ e. e.registered ≡ true → IsClosed e) (close_connections s).conns
  pub unlisted :
      is_canceling s.phase ≡ true → All IsClosed (each (on_cancel s.canceled) (each watch s.conns))

Step-IsSound : (c : Crypto) (e : Event) (s : Server) → IsSound s → IsSound (step c e s)
unfolding step
Step-IsSound c (accepts_conn id) s k = accept-IsSound id s k
Step-IsSound c (watches id) s k = at_id-IsSound id watch s watch-IsSafe k
Step-IsSound c (runs_on_cancel id) s k =
    at_id-IsSound id (on_cancel s.canceled) s (on_cancel-IsSafe s.canceled) k
Step-IsSound c (arms id) s k = at_id-IsSound id arm s arm-IsSafe k
Step-IsSound c (registers id) s k = at_id-IsSound id register s register-IsSafe k
Step-IsSound c (times_out id) s k = at_id-IsSound id time_out s time_out-IsSafe k
Step-IsSound c (authenticates now id key sent) s k =
    at_id-IsSound id (served (control c now s.credentials key sent)) s
      (control-IsSafe c now s.credentials key sent) k
Step-IsSound c (ends_control id) s k =
    at_id-IsSound id (served (close 0)) s (served-close-IsSafe 0) k
Step-IsSound c (ends_serving id) s k = at_id-IsSound id (served end) s end-IsSafe k
Step-IsSound c (finishes id) s k = finish-IsSound id s k
Step-IsSound c (reloads now primary previous expires cert) s k =
    reload-IsSound c now primary previous expires cert s k
Step-IsSound c (ticks now) s k =
    each-IsSound (served (revoke c now s.credentials)) s (revoke-IsSafe c now s.credentials) k
Step-IsSound c cancels s k = phase-IsSound s s.phase true (λ q. refl) k.joined k
Step-IsSound c leaves_loop s k = leave-IsSound s k
Step-IsSound c closes_down s k = close_down-IsSound s.phase s refl k

from-IsSound : (c : Crypto) (es : List Event) (s : Server) → IsSound s → IsSound (run c es s)
unfolding run
from-IsSound c [] s k = k
from-IsSound c (e ∷ es) s k = from-IsSound c es (step c e s) (Step-IsSound c e s k)

start-IsSound : (n m : ℕ) (credentials : Snapshot) → IsSound (make n m credentials)
unfolding make
start-IsSound n m credentials = record {
  slots = refl;
  bounded = omega arith;
  entries = tt;
  gone = tt;
  stops = λ q. absurd (cc q);
  joined = λ q. refl;
}

close-served : (e : Entry) → (served (close 0) e).registered ≡ true → IsClosed (served (close 0) e)
close-served e =
    if-either (λ (x : Entry). x.registered ≡ true → IsClosed x) e.registered (close 0 e) e
      (λ t q. close-IsClosed 0 e) (λ t q. absurd (cc (t, q)))

on_cancel-watched : (e : Entry) → e.watched ≡ true → IsClosed (on_cancel true e)
unfolding on_cancel
on_cancel-watched e w =
    if-either IsClosed (true && e.watched) (close 0 e) e (λ t. close-IsClosed 0 e)
      (λ t. absurd (cc (w, t)))

IsSound-IsClosing : (s : Server) → IsSound s → IsClosing s
unfolding close_connections watch
IsSound-IsClosing s k = record {
  listed =
      each-All IsGuarded (λ e. e.registered ≡ true → IsClosed e) (served (close 0))
        (λ e h. close-served e) s.conns k.entries;
  unlisted = λ q. rw (k.stops q) (
      each-All (λ e. e.watched ≡ true) IsClosed (on_cancel true) on_cancel-watched
        (each watch s.conns)
        (each-All IsGuarded (λ e. e.watched ≡ true) watch (λ e h. refl) s.conns k.entries));
}

-- After any interleaving of the steps of `Serve`, of its deferred function and of the connections'
-- goroutines, with timeouts, authentications, reloads, ticks and a context that ends at any time, on a
-- new server: one slot is taken for each connection whose goroutine runs and at most `MaxConnections`
-- are; every connection that is open and whose `handleConn` has made the timer, which every one in
-- `states` has, is authenticated under a key or has its deadline armed, and only one in `states` is
-- authenticated; every connection whose goroutine has ended is closed, and none runs once `Serve` has
-- returned. `closeConnections` leaves no connection of `states` open; and behind the `cancel` of the
-- deferred function every connection, entered in `states` or not yet, is closed by the function of
-- its `context.AfterFunc`, as soon as `handleConn` has given it.
pub run-IsSound :
    (c : Crypto) (es : List Event) (max_connections max_streams : ℕ) (credentials : Snapshot)
    → IsSound (run c es (make max_connections max_streams credentials))
      × IsClosing (run c es (make max_connections max_streams credentials))
run-IsSound c es n m credentials =
    let k = from-IsSound c es (make n m credentials) (start-IsSound n m credentials) in
    (k, IsSound-IsClosing (run c es (make n m credentials)) k)
