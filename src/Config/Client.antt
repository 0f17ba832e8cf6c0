-- ===== src/Config/Client.antt =====
-- internal/config/config.go: the client's settings and `LoadClient`.
use wanopt_proxy.Common.{
  ℕ, Bool, true, false, not, ◌&&◌, none, some, List, [], ◌∷◌, length, bytes_eq, ◌==◌, if◌then◌else◌,
  Result, ok, err, fail_if, ◌>>=◌, ◌>>◌, ℤ, pos, less_int, min_int, codecs_exceed_streams, bad_pin,
  same_pin, not_loopback, overlapping,
}
use wanopt_proxy.Tunnel.Credentials.{Time}
use wanopt_proxy.Config.Limits.{
  Parsers, is_empty, bounded, decode_psk, validate_endpoint, Timeouts, validate_common,
  validate_overlap,
}
use wanopt_proxy.Config.Server.{congestion, streams_or_default}

abbrev default_socks : List ℕ
default_socks =
    b'1' ∷ b'2' ∷ b'7' ∷ b'.' ∷ b'0' ∷ b'.' ∷ b'0' ∷ b'.' ∷ b'1' ∷ b':' ∷ b'1' ∷ b'0' ∷ b'8' ∷ b'0'
    ∷ []

pub record Client : Type 0 where
  pub congestion_control : List ℕ
  pub next_pin : List ℕ
  pub next_pin_expires : Time
  pub max_active_streams : ℤ
  pub max_compressed_streams : ℤ
  pub timeouts : Timeouts
  pub max_pending_requests : ℤ
  pub max_udp_sessions : ℤ
  pub max_connections : ℤ
  pub proxy_idle_timeout_sec : ℤ
  pub http_response_header_timeout_sec : ℤ
  pub max_header_bytes : ℤ
  pub allow_remote_proxy : Bool
  pub disable_session_resumption : Bool
  pub server : List ℕ
  pub psk : List ℕ
  pub pin : List ℕ
  pub alpn : List ℕ
  pub socks_listen : List ℕ
  pub http_listen : List ℕ
  pub enable_0rtt : Bool
  pub compression : Bool
  pub metrics_listen : List ℕ
  pub max_stream_recv_window_mb : ℤ
  pub max_conn_recv_window_mb : ℤ

module _ (ps : Parsers) where
  abbrev check_pin : List ℕ → Result (Unit {0})
  check_pin pin = elim (ps.base64 pin) [
    | none ↦ err bad_pin
    | some hash ↦ fail_if (not (length hash == 32)) bad_pin
  ]

  unfoldable pub check_next_pin : Client → Result (Unit {0})
  check_next_pin c =
      if is_empty c.next_pin
      then ok tt
      else check_pin c.next_pin >> fail_if (bytes_eq c.next_pin c.pin) same_pin

  abbrev host_of : List ℕ → List ℕ
  host_of addr = elim (ps.split_host_port addr) [ none ↦ [] | some (host, port) ↦ host ]

  -- One listener's address.
  unfoldable pub check_listener : Bool → List ℕ → Result (Unit {0})
  check_listener allow_remote addr =
      if is_empty addr
      then ok tt
      else validate_endpoint ps addr false
        >> fail_if (not allow_remote && not (ps.is_loopback (host_of addr))) not_loopback

  -- The table of checks, from its first entry to the comparison behind it.
  unfoldable pub check_client_limits : Client → Result Client
  check_client_limits c =
      let streams = streams_or_default c.max_active_streams in
      bounded streams (pos 128) 1 4096 >>= λ active.
      bounded c.max_compressed_streams (min_int 16 streams) 1 128 >>= λ codecs.
      bounded c.max_connections (pos 256) 1 65536 >>= λ connections.
      bounded c.max_pending_requests (pos 256) 1 65536 >>= λ pending.
      bounded c.max_udp_sessions (pos 128) 1 65536 >>= λ sessions.
      bounded c.proxy_idle_timeout_sec (pos 300) 1 86400 >>= λ idle.
      bounded c.http_response_header_timeout_sec (pos 120) 1 3600 >>= λ header.
      bounded c.max_header_bytes (pos 65536) 1024 1048576 >>= λ size.
      fail_if (less_int active codecs) codecs_exceed_streams
      >> ok (record c {
        max_active_streams = active;
        max_compressed_streams = codecs;
        max_connections = connections;
        max_pending_requests = pending;
        max_udp_sessions = sessions;
        proxy_idle_timeout_sec = idle;
        http_response_header_timeout_sec = header;
        max_header_bytes = size;
      })

  -- `LoadClient` behind `load`, at the time `now`.
  unfoldable pub load_client : ℕ → Client → Result Client
  load_client now c =
      validate_endpoint ps c.server true
      >> validate_overlap now c.next_pin c.next_pin_expires
      >> check_next_pin c
      >> check_pin c.pin
      >> (decode_psk ps c.psk >>= λ key.
          validate_common ps c.alpn c.metrics_listen c.timeouts c.max_stream_recv_window_mb
            c.max_conn_recv_window_mb
          >>= λ timeouts.
              (let socks =
                  if is_empty c.socks_listen && is_empty c.http_listen
                  then default_socks
                  else c.socks_listen in
                check_listener c.allow_remote_proxy socks
                >> check_listener c.allow_remote_proxy c.http_listen
                >> fail_if (not (is_empty socks) && bytes_eq socks c.http_listen) overlapping
                >> (congestion c.congestion_control >>= λ control. check_client_limits (record c {
                  socks_listen = socks;
                  timeouts = timeouts;
                  congestion_control = control;
                }))))
