-- ===== src/Relay.antt =====
-- internal/proxy/proxy.go: `relay`, and internal/server/server.go: `pipe`: the two directions of a
-- TCP stream, each copied by its own goroutine, and the loop that waits for both.
pub mod HalfClose
use wanopt_proxy.Common.{
  ℕ, ◌+◌, ◌≡◌, Bool, true, false, not, ◌&&◌, ◌||◌, Option, none, some, List, [], ◌∷◌, if◌then◌else◌,
  Error,
}
use wanopt_proxy.Net.{is_some}

pub data Direction : Type 0 where
  up down : Direction

-- A goroutine: whether it has reported its result, and whether it closed the writing half of its
-- destination.
pub record Half : Type 0 where
  pub reported : Bool
  pub closed_write : Bool

-- `failures` counts the results that are errors; `aborted` is whether both ends were closed for
-- good; `returned` whether the function has.
pub record Relay : Type 0 where
  pub upward : Half
  pub downward : Half
  pub failures : ℕ
  pub canceled : Bool
  pub aborted : Bool
  pub returned : Bool

abbrev idle : Half
idle = record { reported = false; closed_write = false }

abbrev pub make : Relay
make = record {
  upward = idle;
  downward = idle;
  failures = 0;
  canceled = false;
  aborted = false;
  returned = false;
}

abbrev pub half : Direction → Relay → Half
half up r = r.upward
half down r = r.downward

abbrev set_half : Direction → Half → Relay → Relay
set_half up h r = record r { upward = h }
set_half down h r = record r { downward = h }

-- The result of a goroutine: the error of its copy, or that of the half-close behind a clean end,
-- if one is made.
abbrev pub result : Option Error → Option (Option Error) → Option Error
result (some e) fin = some e
result none none = none
result none (some answer) = answer

-- The loop's receive of a result, with the abort behind an error.
unfoldable pub receive : Option Error → Relay → Relay
receive none r = r
receive (some e) r = record r { failures = r.failures + 1; aborted = true }

-- What happens: a goroutine ends, with the error of its copy and the answer to its half-close, or
-- the context is canceled.
pub data Event : Type 0 where
  ends : Direction → Option Error → Option Error → Event
  cancels : Event

-- A result that is sent and received; a goroutine sends one.
unfoldable pub report : Direction → Option Error → Option (Option Error) → Relay → Relay
unfolding receive
report d copied fin r =
    if (half d r).reported
    then r
    else receive (result copied fin) (
        set_half d (record { reported = true; closed_write = not (is_some copied) && is_some fin })
          r)

-- The AfterFunc, while it is armed.
unfoldable pub cancel : Relay → Relay
cancel r = if r.returned then r else record r { canceled = true; aborted = true }

abbrev both_reported : Relay → Bool
both_reported r = r.upward.reported && r.downward.reported

-- The return of `relay` behind both results: the deferred abort.
unfoldable pub relay_return : Relay → Relay
relay_return r = if both_reported r then record r { returned = true; aborted = true } else r

-- The return of `pipe`, which leaves the ends to its caller.
unfoldable pub pipe_return : Relay → Relay
pipe_return r = if both_reported r then record r { returned = true } else r

-- `relay`, on what happens to it.
unfoldable pub relay : List Event → Relay → Relay
unfolding report cancel relay_return
relay [] r = r
relay (ends d copied fin ∷ es) r = relay es (relay_return (report d copied (some fin) r))
relay (cancels ∷ es) r = relay es (cancel r)

-- The half-close of `pipe`: a remote connection that has no `CloseWrite` is left as it is.
abbrev pipe_close : Bool → Direction → Option Error → Option (Option Error)
pipe_close can_close_write up fin = if can_close_write then some fin else none
pipe_close can_close_write down fin = some fin

-- `pipe`, on what happens to it; the flag is whether the remote connection has `CloseWrite`.
unfoldable pub pipe : Bool → List Event → Relay → Relay
unfolding report cancel pipe_return
pipe can [] r = r
pipe can (ends d copied fin ∷ es) r =
    pipe can es (pipe_return (report d copied (pipe_close can d fin) r))
pipe can (cancels ∷ es) r = pipe can es (cancel r)
