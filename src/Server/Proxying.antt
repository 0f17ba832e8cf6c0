-- ===== src/Server/Proxying.antt =====
-- internal/server/server.go: `handleProxy` as a whole, with the codec lease and the remote connection
-- that it gives back.
use wanopt_proxy.Common.{
  ℕ, ◌≡◌, refl, ap, Bool, true, false, not, ◌&&◌, Option, none, some, ◌==◌, if◌then◌else◌, Error,
  Result, ok, err, if-either,
}
use wanopt_proxy.Net.{is_some}
use wanopt_proxy.Admission.{Budget, release}
use wanopt_proxy.Admission.Leases.{IsHeld, IsHeld-none, try_acquire-IsHeld}
use wanopt_proxy.Protocol.Frame.{StreamRequest, cmd_tcp_connect}
use wanopt_proxy.Server.{
  DialFailure, Served, no_reply, refuses, relays, handle_proxy, has_flag, codec_granted, reply_of,
}

-- What happens to a stream: the codecs behind it, the remote connections that were dialed and closed,
-- the reply that was sent, the change of the gauge ActiveStreams up and down (of a server with
-- metrics), and the compression of the relay, if it came to one.
pub record Proxied : Type 0 where
  pub codecs : Budget
  pub dialed : ℕ
  pub closed : ℕ
  pub reply : Option (ℕ × ℕ)
  pub ups : ℕ
  pub downs : ℕ
  pub relayed : Option Bool

abbrev without_remote : Budget → Option (ℕ × ℕ) → Proxied
without_remote codecs reply = record {
  codecs = codecs;
  dialed = 0;
  closed = 0;
  reply = reply;
  ups = 0;
  downs = 0;
  relayed = none;
}

-- The part of `handleProxy` behind a dial that succeeded: `sent` is the error of the reply's write,
-- `canceled` whether the context had ended by then. The deferred calls close the remote connection
-- and release the lease.
abbrev with_remote : Budget → Bool → Option Error → Bool → Proxied
with_remote codecs compressed sent canceled =
    let runs : Bool = not (is_some sent) && not canceled in
    record {
      codecs = codecs;
      dialed = 1;
      closed = 1;
      reply = reply_of (relays compressed);
      ups = if runs then 1 else 0;
      downs = if runs then 1 else 0;
      relayed = if runs then some compressed else none;
    }

abbrev conclude : Served → Budget → Option Error → Bool → Proxied
conclude no_reply codecs sent canceled = without_remote codecs none
conclude (refuses s) codecs sent canceled = without_remote codecs (reply_of (refuses s))
conclude (relays c) codecs sent canceled = with_remote codecs c sent canceled

-- `handleProxy`; `none` means that the release of the lease blocks.
unfoldable pub proxy_stream :
    Result StreamRequest → Option DialFailure → Bool → Option Error → Bool → Budget → Option Proxied
unfolding handle_proxy reply_of
proxy_stream req dialed compression sent canceled codecs =
    let (served, codecs', lease) = handle_proxy req dialed compression codecs in
    elim (release lease codecs') [
      | none ↦ none
      | some back ↦ some (conclude served back sent canceled)
    ]

abbrev IsTaken : Budget → Served × Budget × Option ℕ → Type 0
IsTaken codecs h = IsHeld codecs h.1 h.2

granted-IsHeld :
    (t : Bool) (codecs : Budget)
    → IsHeld codecs (codec_granted t codecs).0 (codec_granted t codecs).1
granted-IsHeld true codecs = try_acquire-IsHeld codecs
granted-IsHeld false codecs = IsHeld-none codecs

handle_proxy-IsHeld :
    (req : Result StreamRequest) (dialed : Option DialFailure) (compression : Bool)
    (codecs : Budget)
    → IsTaken codecs (handle_proxy req dialed compression codecs)
unfolding handle_proxy
handle_proxy-IsHeld (err e) dialed compression codecs = IsHeld-none codecs
handle_proxy-IsHeld (ok req) (some e) compression codecs =
    if-either (IsTaken codecs) (not (req.cmd == cmd_tcp_connect)) _ _ (λ t. IsHeld-none codecs)
      (λ t. IsHeld-none codecs)
handle_proxy-IsHeld (ok req) none compression codecs =
    if-either (IsTaken codecs) (not (req.cmd == cmd_tcp_connect)) _ _ (λ t. IsHeld-none codecs)
      (λ t. granted-IsHeld (compression && has_flag req.flags) codecs)

-- What a concluded stream has given back, and when it came to a relay.
pub record IsConcluded (codecs : Budget) (sent : Option Error) (canceled : Bool) (p : Proxied)
    : Type 0 where
  pub slots : p.codecs.slots ≡ codecs.slots
  pub closed : p.closed ≡ p.dialed
  pub gauged : p.downs ≡ p.ups
  pub relayed :
      (c : Bool)
      → p.relayed ≡ some c
      → (sent ≡ none) × (canceled ≡ false) × (p.reply ≡ reply_of (relays c))

conclude-IsConcluded :
    (served : Served) (codecs back : Budget) (sent : Option Error) (canceled : Bool)
    → back.slots ≡ codecs.slots
    → IsConcluded codecs sent canceled (conclude served back sent canceled)
conclude-IsConcluded no_reply codecs back sent canceled h = record {
  slots = h;
  closed = refl;
  gauged = refl;
  relayed = λ c e. absurd (cc e);
}
conclude-IsConcluded (refuses s) codecs back sent canceled h = record {
  slots = h;
  closed = refl;
  gauged = refl;
  relayed = λ c e. absurd (cc e);
}
conclude-IsConcluded (relays b) codecs back (some e) canceled h = record {
  slots = h;
  closed = refl;
  gauged = refl;
  relayed = λ c q. absurd (cc q);
}
conclude-IsConcluded (relays b) codecs back none true h = record {
  slots = h;
  closed = refl;
  gauged = refl;
  relayed = λ c q. absurd (cc q);
}
conclude-IsConcluded (relays b) codecs back none false h = record {
  slots = h;
  closed = refl;
  gauged = refl;
  relayed = λ c q. (refl, refl, ap (λ (x : Bool). reply_of (relays x)) (cc q));
}

-- Whatever a stream brings and the dial answers, `handleProxy` does not block on its codec lease and
-- gives it back, closes each remote connection that it dialed, and leaves the gauge of active streams
-- as it was; it relays only behind a reply that was written before the context ended, and with the
-- compression that this reply names.
pub proxy_stream_sound :
    (req : Result StreamRequest) (dialed : Option DialFailure) (compression : Bool)
    (sent : Option Error) (canceled : Bool) (codecs : Budget)
    → (p : Proxied) × (proxy_stream req dialed compression sent canceled codecs ≡ some p)
      × IsConcluded codecs sent canceled p
unfolding proxy_stream
proxy_stream_sound req dialed compression sent canceled codecs =
    let h = handle_proxy req dialed compression codecs in
    let (_, (back, e, slots)) = handle_proxy-IsHeld req dialed compression codecs in
    (
      conclude h.0 back sent canceled,
      rw (e, proxy_stream),
      conclude-IsConcluded h.0 codecs back sent canceled slots,
    )
