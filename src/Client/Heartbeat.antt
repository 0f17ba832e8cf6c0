-- ===== src/Client/Heartbeat.antt =====
-- internal/client/client.go: `runHeartbeat`. Times are in nanoseconds.
use wanopt_proxy.Common.{
  ℕ, zero, suc, ◌+◌, ◌*◌, ◌/◌, ◌≡◌, ◌≤◌, sym, ap, ◌∙◌, arith, Bool, true, false, Option, none, some,
  List, [], ◌∷◌, ◌++◌, min, ◌==◌, if◌then◌else◌, IoError, ok, err, Reader, read_full, Sink, write,
  write_ok, read_full-append, append_assoc, append-nil, get_or,
}
use wanopt_proxy.Protocol.Frame.{ctrl_ping, ctrl_pong}
use wanopt_proxy.Server.{answer_pings}

abbrev second : ℕ
second = 1000000000

-- The interval between pings, and the time that the answer to one may take.
unfoldable pub heartbeat_times : ℕ → ℕ × ℕ
heartbeat_times idle = (min (10 * second) (idle / 3), min (15 * second) (idle / 2))

-- The answer to a ping: one byte that is a pong, and the reader behind it.
abbrev pong : Reader → Option Reader
pong r = elim (read_full 1 r) [
  | err e ↦ none
  | ok (b, r') ↦ if get_or b 0 0 == ctrl_pong then some r' else none
]

-- The loop of `runHeartbeat` on its ticks: the pings written, and whether the loop still runs behind
-- the last of the ticks.
unfoldable pub heartbeat : ℕ → Reader → Sink → Sink × Bool
heartbeat zero r w = (w, true)
heartbeat (suc ticks) r w =
    let ((n, e), w') = write (ctrl_ping ∷ []) w in
    elim e [
      | some failure ↦ (w', false)
      | none ↦ elim (pong r) [ none ↦ (w', false) | some r' ↦ heartbeat ticks r' w' ]
    ]

abbrev pub repeated : ℕ → ℕ → List ℕ
repeated zero b = []
repeated (suc n) b = b ∷ repeated n b

abbrev pub clean : List ℕ → Sink
clean old = record { taken = old; plan = [] }

answered :
    (n : ℕ) (old : List ℕ)
    → answer_pings (repeated n ctrl_ping) (clean old) ≡ clean (old ++ repeated n ctrl_pong)
unfolding answer_pings
answered zero old = ap clean (sym (append-nil old))
answered (suc n) old =
    rw (write_ok (ctrl_pong ∷ []) old, answer_pings)
      (answered n (old ++ (ctrl_pong ∷ []))
        ∙ ap clean (append_assoc old (ctrl_pong ∷ []) (repeated n ctrl_pong)))

pong_read :
    (bytes : List ℕ) (e : IoError)
    → pong (record { bytes = ctrl_pong ∷ bytes; ending = e })
      ≡ some (record { bytes = bytes; ending = e })
pong_read bytes e = rw (read_full-append (ctrl_pong ∷ []) bytes e, pong)

kept_alive :
    (n : ℕ) (rest old : List ℕ) (e : IoError)
    → heartbeat n (record { bytes = repeated n ctrl_pong ++ rest; ending = e }) (clean old)
      ≡ (clean (old ++ repeated n ctrl_ping), true)
unfolding heartbeat
kept_alive zero rest old e = ap (λ (l : List ℕ). (clean l, true)) (sym (append-nil old))
kept_alive (suc n) rest old e =
    rw
      (
        write_ok (ctrl_ping ∷ []) old,
        heartbeat,
        pong_read (repeated n ctrl_pong ++ rest) e,
        write_ok (ctrl_ping ∷ []) old,
      )
      (kept_alive n rest (old ++ (ctrl_ping ∷ [])) e
        ∙ ap (λ (l : List ℕ). (clean l, true))
            (append_assoc old (ctrl_ping ∷ []) (repeated n ctrl_ping)))

-- The client's heartbeat and the server's loop for any number of ticks: from the pongs with which the
-- server answers the client's pings, over streams that do not fail, the client's loop goes on, and it
-- has written just those pings. The interval and the wait for an answer together fit into the idle
-- timeout.
pub heartbeat-answer_pings :
    (ticks idle : ℕ) (e : IoError)
    → (heartbeat ticks
          (record {
            bytes = (answer_pings (repeated ticks ctrl_ping) (clean [])).taken;
            ending = e;
          })
          (clean [])
        ≡ (clean (repeated ticks ctrl_ping), true))
      × ((heartbeat_times idle).0 + (heartbeat_times idle).1 ≤ idle)
unfolding heartbeat_times
heartbeat-answer_pings ticks idle e = (
  rw (answered ticks []) (rw (append-nil (repeated ticks ctrl_pong)) at (kept_alive ticks [] [] e)),
  omega arith,
)
