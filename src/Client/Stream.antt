-- ===== src/Client/Stream.antt =====
-- internal/client/client.go: `Close` and `CloseWrite` of a stream, and the release of its leases.
use wanopt_proxy.Common.{
  ℕ, ◌+◌, ◌≡◌, refl, ap, ◌∙◌, Bool, true, false, ◌||◌, List, [], ◌∷◌, ◌++◌, any, if◌then◌else◌,
  arith,
}

-- The calls on the HTTP/3 request stream.
pub data Effect : Type 0 where
  closes_write cancels_read cancels_write : Effect

-- `Once` of `Close`, `writeClosed`, the `Once` of the release with the number of times that it ran
-- its function, and whether the AfterFunc on the connection's context is still armed.
pub record Stream : Type 0 where
  pub close_once : Bool
  pub write_closed : Bool
  pub release_once : Bool
  pub releases : ℕ
  pub armed : Bool
  pub effects : List Effect

-- The stream that `OpenTCP` gives.
abbrev pub fresh : Stream
fresh = record {
  close_once = false;
  write_closed = false;
  release_once = false;
  releases = 0;
  armed = true;
  effects = [];
}

abbrev effect : Effect → Stream → Stream
effect e s = record s { effects = s.effects ++ (e ∷ []) }

-- The function `release` of `OpenTCP`.
abbrev release : Stream → Stream
release s =
    if s.release_once then s else record s { release_once = true; releases = s.releases + 1 }

-- `CloseWrite`.
unfoldable pub close_write : Stream → Stream
close_write s = if s.write_closed then s else effect closes_write (record s { write_closed = true })

abbrev cancel_write : Stream → Stream
cancel_write s = if s.write_closed then s else effect cancels_write s

-- `Close`.
unfoldable pub close : Stream → Stream
close s =
    if s.close_once
    then s
    else cancel_write
        (effect cancels_read (release (record s { close_once = true; armed = false })))

-- The end of the tunnel connection, which runs the AfterFunc if it is armed.
unfoldable pub connection_ends : Stream → Stream
connection_ends s = if s.armed then release (record s { armed = false }) else s

pub data Call : Type 0 where
  closes half_closes loses_connection : Call

unfoldable pub step : Call → Stream → Stream
unfolding close close_write connection_ends
step closes s = close s
step half_closes s = close_write s
step loses_connection s = connection_ends s

unfoldable pub run : List Call → Stream → Stream
unfolding step
run [] s = s
run (c ∷ cs) s = run cs (step c s)

-- Whether a call ends the stream.
abbrev pub ends : Call → Bool
ends closes = true
ends half_closes = false
ends loses_connection = true

-- The function has run exactly if the stream was closed or its connection lost, by `b`.
record IsCounted (b : Bool) (s : Stream) : Type 0 where
  counted : s.releases ≡ (if s.release_once then 1 else 0)
  released : s.release_once ≡ b
  closed : s.close_once ≡ true → b ≡ true
  unarmed : s.armed ≡ false → b ≡ true

Step-IsCounted :
    (c : Call) (b : Bool) (s : Stream) → IsCounted b s → IsCounted (b || ends c) (step c s)
unfolding step close close_write connection_ends
Step-IsCounted closes b s h = ground arith
Step-IsCounted half_closes b s h = ground arith
Step-IsCounted loses_connection b s h = ground arith

run-IsCounted :
    (cs : List Call) (b : Bool) (s : Stream)
    → IsCounted b s
    → IsCounted (b || any ends cs) (run cs s)
unfolding run
run-IsCounted [] false s h = h
run-IsCounted [] true s h = h
run-IsCounted (c ∷ cs) false s h = run-IsCounted cs (ends c) (step c s) (Step-IsCounted c false s h)
run-IsCounted (c ∷ cs) true s h = run-IsCounted cs true (step c s) (Step-IsCounted c true s h)

-- However often and in whatever order a stream is closed, half-closed and loses its connection, its
-- leases are given back exactly once if it was closed or lost its connection, and not before.
pub run-releases : (cs : List Call) → (run cs fresh).releases ≡ (if any ends cs then 1 else 0)
run-releases cs =
    let h =
      run-IsCounted cs false fresh
        (record { counted = refl; released = refl; closed = λ e. cc e; unarmed = λ e. cc e }) in
    h.counted ∙ ap (λ (b : Bool). if b then 1 else 0) h.released
