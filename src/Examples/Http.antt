-- ===== src/Examples/Http.antt =====
-- The theorems on the HTTP proxy at concrete inputs.
use wanopt_proxy.Common.{
  ◌≡◌, Bool, true, false, Option, none, some, List, [], ◌∷◌, any, eof, closed,
}
use wanopt_proxy.Examples.Values.{net, texts}
use wanopt_proxy.Protocol.Address.{Address}
use wanopt_proxy.Proxy.Socks.{DialFailure, at_capacity}
use wanopt_proxy.Proxy.Http.{Request, Hijack, handle_http}
use wanopt_proxy.Proxy.Http.Targets.{IsHandled, handle_http_sound}
use wanopt_proxy.Proxy.Pool
use wanopt_proxy.Proxy.Pool.{
  begins, finishes, closes_all, Admission, Listener, tracks, releases, admit, listen,
  close_connections,
}
use wanopt_proxy.Proxy.Pool.Ownership.{IsOwned, run-make-IsOwned}
use wanopt_proxy.Proxy.Pool.Slots.{IsAdmitted, admit-listen_sound}
use wanopt_proxy.Proxy.CompressedConn
use wanopt_proxy.Proxy.CompressedConn.{encoder_ends, decoder_ends, read_error}
use wanopt_proxy.Proxy.CompressedConn.Ends.{IsConn, is_clean_end, run_sound}

abbrev dial : Address → Option DialFailure × Bool
dial a = (some at_capacity, false)

abbrev hijack : Hijack
hijack = record { hijacked = true; written = true; flushed = true }

-- CONNECT 1.2.3.4, without a port.
abbrev request : Request
request = record {
  connect = true;
  host = b'1' ∷ b'.' ∷ b'2' ∷ b'.' ∷ b'3' ∷ b'.' ∷ b'4' ∷ [];
  has_body = false;
  http_scheme = false;
  url_host = [];
  has_user = false;
}

handle_http_sound_example :
    IsHandled net texts dial hijack request (handle_http net texts dial hijack request)
handle_http_sound_example = handle_http_sound net texts dial hijack request

-- One dial ends before the pool closes, and one behind it.
abbrev dials : List Pool.Event
dials = begins ∷ begins ∷ finishes ∷ closes_all ∷ finishes ∷ []

run-make-IsOwned_example : IsOwned (Pool.run dials Pool.make)
run-make-IsOwned_example = run-make-IsOwned dials

abbrev course : List CompressedConn.Event
course = decoder_ends none ∷ encoder_ends ∷ []

run_sound_example :
    IsConn (CompressedConn.run course CompressedConn.new)
    × (read_error (CompressedConn.run course CompressedConn.new) (some closed) ≡ some eof
        → any is_clean_end course ≡ true)
run_sound_example = run_sound course

-- Three clients come where two are allowed, and one of the two leaves.
abbrev clients : List Admission
clients = tracks ∷ tracks ∷ tracks ∷ releases 1 ∷ []

admit-listen_sound_example :
    IsAdmitted (admit clients (listen 2))
    × ((close_connections (admit clients (listen 2))).conns ≡ [])
    × ((close_connections (admit clients (listen 2))).taken ≡ 0)
admit-listen_sound_example = admit-listen_sound 2 clients
