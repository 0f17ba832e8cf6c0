-- ===== src/Config/Server.antt =====
-- internal/config/config.go: the server's settings and `LoadServer`.
use wanopt_proxy.Common.{
  ℕ, Bool, false, not, ◌&&◌, ◌||◌, Option, none, some, List, [], ◌∷◌, any, bytes_eq, if◌then◌else◌,
  Result, ok, err, fail_if, ◌>>=◌, ◌>>◌, ℤ, pos, below, above, is_zero, less_int, min_int,
  previous_is_primary, lone_certificate, no_certificate, bad_decoy, bad_acl_port, bad_congestion,
  codecs_exceed_streams,
}
use wanopt_proxy.Tunnel.Credentials.{Time}
use wanopt_proxy.Config.Limits.{
  Url, Parsers, is_empty, bounded, decode_psk, validate_endpoint, Timeouts, validate_common,
  validate_overlap,
}

-- The words of the settings, as bytes.
abbrev pub reno : List ℕ
reno = b'r' ∷ b'e' ∷ b'n' ∷ b'o' ∷ []

abbrev pub bbr : List ℕ
bbr = b'b' ∷ b'b' ∷ b'r' ∷ []

abbrev off : List ℕ
off = b'o' ∷ b'f' ∷ b'f' ∷ []

abbrev builtin : List ℕ
builtin = b'b' ∷ b'u' ∷ b'i' ∷ b'l' ∷ b't' ∷ b'i' ∷ b'n' ∷ []

abbrev dir_word : List ℕ
dir_word = b'd' ∷ b'i' ∷ b'r' ∷ []

abbrev proxy_word : List ℕ
proxy_word = b'p' ∷ b'r' ∷ b'o' ∷ b'x' ∷ b'y' ∷ []

abbrev http : List ℕ
http = b'h' ∷ b't' ∷ b't' ∷ b'p' ∷ []

abbrev https : List ℕ
https = b'h' ∷ b't' ∷ b't' ∷ b'p' ∷ b's' ∷ []

abbrev default_listen : List ℕ
default_listen = b':' ∷ b'4' ∷ b'2' ∷ b'4' ∷ b'2' ∷ []

pub record Acl : Type 0 where
  pub allow : List (List ℕ)
  pub deny : List (List ℕ)
  pub allow_ports : List ℤ
  pub deny_ports : List ℤ

pub record Decoy : Type 0 where
  pub mode : List ℕ
  pub upstream : List ℕ
  pub dir : List ℕ
  pub site_name : List ℕ

pub record Udp : Type 0 where
  pub max_flows : ℤ
  pub queue_size : ℤ
  pub workers : ℤ
  pub new_flows_per_second : ℤ
  pub max_payload : ℤ
  pub idle_timeout_sec : ℤ

pub record Server : Type 0 where
  pub congestion_control : List ℕ
  pub previous_psk : List ℕ
  pub previous_psk_expires : Time
  pub max_active_streams : ℤ
  pub max_compressed_streams : ℤ
  pub timeouts : Timeouts
  pub max_connections : ℤ
  pub max_streams_per_connection : ℤ
  pub dns_timeout_sec : ℤ
  pub dns_concurrency : ℤ
  pub udp : Udp
  pub allow_ephemeral_cert : Bool
  pub listen : List ℕ
  pub psk : List ℕ
  pub alpn : List ℕ
  pub cert_file : List ℕ
  pub key_file : List ℕ
  pub acl : Acl
  pub decoy : Decoy
  pub allow_0rtt : Bool
  pub compression : Bool
  pub metrics_listen : List ℕ
  pub max_stream_recv_window_mb : ℤ
  pub max_conn_recv_window_mb : ℤ

-- The congestion controller of either program.
unfoldable pub congestion : List ℕ → Result (List ℕ)
congestion cc =
    let chosen = if is_empty cc then reno else cc in
    if bytes_eq chosen reno || bytes_eq chosen bbr then ok chosen else err bad_congestion

-- The two budgets of either program: the streams, the compressed streams, and the comparison
-- that follows the table of checks.
abbrev pub streams_or_default : ℤ → ℤ
streams_or_default p = if is_zero p then pos 128 else p

module _ (ps : Parsers) where
  unfoldable pub check_previous : Server → Result (Unit {0})
  check_previous c =
      if is_empty c.previous_psk
      then ok tt
      else decode_psk ps c.previous_psk >>= λ old.
          decode_psk ps c.psk >>= λ primary. fail_if (bytes_eq old primary) previous_is_primary

  unfoldable pub check_certificate : Server → Result (Unit {0})
  check_certificate c =
      fail_if
        ((is_empty c.cert_file && not (is_empty c.key_file))
          || (not (is_empty c.cert_file) && is_empty c.key_file))
        lone_certificate
      >> fail_if (is_empty c.cert_file && not c.allow_ephemeral_cert) no_certificate

  abbrev resolve_path : List ℕ → List ℕ
  resolve_path p = if not (is_empty p) && not (ps.is_abs p) then ps.beside p else p

  unfoldable pub resolve_paths : Server → Server
  resolve_paths c = record c {
    cert_file = resolve_path c.cert_file;
    key_file = resolve_path c.key_file;
    decoy = record c.decoy { dir = resolve_path c.decoy.dir };
  }

  check_upstream : Option Url → Result (Unit {0})
  check_upstream none = err bad_decoy
  check_upstream (some u) =
      fail_if
        (is_empty u.host
          || (not (bytes_eq u.scheme http) && not (bytes_eq u.scheme https))
          || u.has_user)
        bad_decoy

  unfoldable pub check_decoy : Decoy → Result Decoy
  unfolding check_upstream
  check_decoy given =
      let d = if is_empty given.mode then record given { mode = off } else given in
      if bytes_eq d.mode off || bytes_eq d.mode builtin
      then ok d
      else if bytes_eq d.mode dir_word
      then fail_if (is_empty d.dir) bad_decoy >> ok d
      else if bytes_eq d.mode proxy_word
      then check_upstream (ps.parse_url d.upstream) >> ok d
      else err bad_decoy

  unfoldable pub check_ports : Acl → Result (Unit {0})
  check_ports a =
      fail_if
        (any (λ p. below p 1 || above p 65535) a.allow_ports
          || any (λ p. below p 1 || above p 65535) a.deny_ports)
        bad_acl_port

  unfoldable pub check_udp : Udp → Result Udp
  check_udp u = bounded u.max_flows (pos 256) 1 65536 >>= λ flows.
      bounded u.queue_size (pos 128) 1 4096 >>= λ queue.
      bounded u.workers (pos 4) 1 64 >>= λ workers.
      bounded u.new_flows_per_second (pos 32) 1 4096 >>= λ rate.
      bounded u.max_payload (pos 850) 1 850 >>= λ payload.
      bounded u.idle_timeout_sec (pos 60) 1 3600 >>= λ idle. ok (record {
        max_flows = flows;
        queue_size = queue;
        workers = workers;
        new_flows_per_second = rate;
        max_payload = payload;
        idle_timeout_sec = idle;
      })

  -- The table of checks, from its first entry to the comparison behind it.
  unfoldable pub check_limits : Server → Result Server
  check_limits c =
      let streams = streams_or_default c.max_active_streams in
      bounded streams (pos 128) 1 4096 >>= λ active.
      bounded c.max_compressed_streams (min_int 16 streams) 1 128 >>= λ codecs.
      bounded c.max_connections (pos 256) 1 65536 >>= λ connections.
      bounded c.max_streams_per_connection (pos 128) 2 4096 >>= λ per_connection.
      bounded c.dns_timeout_sec (pos 5) 1 60 >>= λ dns_timeout.
      bounded c.dns_concurrency (pos 32) 1 256 >>= λ dns. check_udp c.udp >>= λ udp.
      fail_if (less_int active codecs) codecs_exceed_streams
      >> ok (record c {
        max_active_streams = active;
        max_compressed_streams = codecs;
        max_connections = connections;
        max_streams_per_connection = per_connection;
        dns_timeout_sec = dns_timeout;
        dns_concurrency = dns;
        udp = udp;
      })

  -- `LoadServer` behind `load`, at the time `now`.
  unfoldable pub load_server : ℕ → Server → Result Server
  load_server now c =
      validate_overlap now c.previous_psk c.previous_psk_expires
      >> check_previous c
      >> (let listen = if is_empty c.listen then default_listen else c.listen in
          validate_endpoint ps listen false
          >> (decode_psk ps c.psk >>= λ key.
              validate_common ps c.alpn c.metrics_listen c.timeouts c.max_stream_recv_window_mb
                c.max_conn_recv_window_mb
              >>= λ timeouts.
                  check_certificate c
                  >> (let c1 = resolve_paths (record c { listen = listen; timeouts = timeouts }) in
                      check_decoy c1.decoy >>= λ decoy.
                      check_ports c1.acl
                      >> (congestion c1.congestion_control >>= λ control.
                          check_limits
                            (record c1 { decoy = decoy; congestion_control = control })))))
