-- ===== src/Proxy/CompressedConn.antt =====
-- internal/proxy/compressed_conn.go: a compressed tunnel stream as a plain connection, with a codec
-- goroutine for each direction.
pub mod Ends
use wanopt_proxy.Common.{
  ℕ, ◌-◌, ◌≡◌, Bool, true, false, ◌&&◌, Option, none, some, List, [], ◌∷◌, ◌==◌, if◌then◌else◌,
  Error, IoError, eof, closed,
}

-- `remaining` goroutines run: `encoding` and `decoding` are whether they still do. `aborted` is
-- whether the `Once` of `abort` has run, which closes the pipe and the tunnel stream; `done` whether
-- the channel is closed.
pub record Conn : Type 0 where
  pub encoding : Bool
  pub decoding : Bool
  pub remaining : ℕ
  pub aborted : Bool
  pub read_eof : Bool
  pub done : Bool

-- `newCompressedHTTPConn`.
abbrev pub new : Conn
new = record {
  encoding = true;
  decoding = true;
  remaining = 2;
  aborted = false;
  read_eof = false;
  done = false;
}

-- `abort`.
abbrev pub abort : Conn → Conn
abort c = record c { aborted = true }

-- `finish`.
unfoldable pub finish : Conn → Conn
finish c =
    let left = c.remaining - 1 in
    record c { aborted = true; remaining = left; done = if left == 0 then true else c.done }

-- What happens: the encoder ends; the decoder ends, with its error or none; `Close` is called.
pub data Event : Type 0 where
  encoder_ends closes : Event
  decoder_ends : Option Error → Event

abbrev clean : Option Error → Bool
clean none = true
clean (some e) = false

unfoldable pub step : Event → Conn → Conn
unfolding finish
step encoder_ends c = if c.encoding then finish (record c { encoding = false }) else c
step (decoder_ends e) c =
    if c.decoding then finish (record c { decoding = false; read_eof = clean e }) else c
step closes c = abort c

unfoldable pub run : List Event → Conn → Conn
unfolding step
run [] c = c
run (e ∷ es) c = run es (step e c)

-- `Close` returns once `done` is closed.
abbrev pub close_returns : Conn → Bool
close_returns c = c.done

abbrev is_closed : IoError → Bool
is_closed closed = true
is_closed _ = false

-- The error of `Read`, from the error of the pipe's `Read`, where `closed` is `io.ErrClosedPipe`.
unfoldable pub read_error : Conn → Option IoError → Option IoError
read_error c none = none
read_error c (some e) = some (if is_closed e && c.read_eof then eof else e)
