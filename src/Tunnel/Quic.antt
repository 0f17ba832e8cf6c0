-- ===== src/Tunnel/Quic.antt =====
-- internal/tunnel/quicconf.go and internal/tunnel/congestion.go: the settings of a QUIC connection.
-- Times are in nanoseconds.
use wanopt_proxy.Common.{
  ℕ, ◌*◌, ◌/◌, ◌≡◌, ◌≤◌, ◌<◌, arith, Bool, true, false, not, ◌&&◌, ◌||◌, Option, none, some, List,
  length, min, ◌==◌, bytes_eq, if◌then◌else◌, if-either, Bool-cases, inl, inr, ℤ, pos, is_zero,
  positive_or, positive_or-positive,
}
use mathlib.Core.Path.{subst}
use wanopt_proxy.Metrics.Labels.{word_bbr, word_reno}

-- The controller's name, the times, the windows, and the limit of incoming streams, which may be
-- negative for none.
pub record Options : Type 0 where
  pub congestion_control : List ℕ
  pub idle_timeout : ℤ
  pub handshake_timeout : ℤ
  pub max_stream_recv_window : ℕ
  pub max_conn_recv_window : ℕ
  pub max_incoming_streams : ℤ

pub record Config : Type 0 where
  pub handshake_idle_timeout : ℕ
  pub max_idle_timeout : ℕ
  pub keep_alive_period : ℕ
  pub initial_stream_window : ℕ
  pub max_stream_window : ℕ
  pub initial_connection_window : ℕ
  pub max_connection_window : ℕ
  pub max_incoming_streams : ℤ
  pub bbr : Bool

-- `CongestionAvailable`; `bbr` is whether this build has its configurer.
unfoldable pub congestion_available : Bool → List ℕ → Bool
congestion_available bbr mode =
    length mode == 0 || bytes_eq mode word_reno || (bytes_eq mode word_bbr && bbr)

-- `configureCongestion`; `none` is the panic.
unfoldable pub configure_congestion : Bool → List ℕ → Config → Option Config
unfolding congestion_available
configure_congestion bbr mode c =
    if not (congestion_available bbr mode)
    then none
    else if bytes_eq mode word_bbr
    then some (record c { bbr = true })
    else some c

abbrev pub nonzero_or : ℕ → ℕ → ℕ
nonzero_or n d = if n == 0 then d else n

abbrev mebibyte : ℕ
mebibyte = 1024 * 1024

abbrev kibibyte : ℕ
kibibyte = 1024

abbrev second : ℕ
second = 1000000000

-- `NewQUICConfig`.
unfoldable pub new_quic_config : Bool → Options → Option Config
unfolding configure_congestion
new_quic_config bbr o =
    let idle = positive_or o.idle_timeout (60 * second) in
    let streams = nonzero_or o.max_stream_recv_window (16 * mebibyte) in
    let connection = nonzero_or o.max_conn_recv_window (24 * mebibyte) in
    configure_congestion bbr o.congestion_control (record {
      handshake_idle_timeout = positive_or o.handshake_timeout (10 * second) / 2;
      max_idle_timeout = idle;
      keep_alive_period = idle / 3;
      initial_stream_window = min (512 * kibibyte) streams;
      max_stream_window = streams;
      initial_connection_window = min (768 * kibibyte) connection;
      max_connection_window = connection;
      max_incoming_streams =
          if is_zero o.max_incoming_streams then pos 128 else o.max_incoming_streams;
      bbr = false;
    })

-- A connection that is kept alive in time, whose windows are not empty and start within their limits.
pub record IsUsable (c : Config) : Type 0 where
  pub kept_alive : 3 * c.keep_alive_period ≤ c.max_idle_timeout
  pub idle : 0 < c.max_idle_timeout
  pub stream_window :
      (0 < c.initial_stream_window) × (c.initial_stream_window ≤ c.max_stream_window)
  pub connection_window :
      (0 < c.initial_connection_window) × (c.initial_connection_window ≤ c.max_connection_window)

nonzero_or-positive : (n d : ℕ) → 0 < d → 0 < nonzero_or n d
nonzero_or-positive n d h = ground arith

configure_congestion-IsUsable :
    (bbr : Bool) (mode : List ℕ) (c d : Config)
    → IsUsable c
    → configure_congestion bbr mode c ≡ some d
    → IsUsable d
unfolding configure_congestion
configure_congestion-IsUsable bbr mode c d h =
    if-either (λ (o : Option Config). o ≡ some d → IsUsable d) (not (congestion_available bbr mode))
      none (if bytes_eq mode word_bbr then some (record c { bbr = true }) else some c)
      (λ t e. absurd (cc e))
      (λ t.
        if-either (λ (o : Option Config). o ≡ some d → IsUsable d) (bytes_eq mode word_bbr)
          (some (record c { bbr = true })) (some c)
          (λ u e.
            let q : record c { bbr = true } ≡ d = cc e in
            subst IsUsable q (record {
              kept_alive = h.kept_alive;
              idle = h.idle;
              stream_window = h.stream_window;
              connection_window = h.connection_window;
            }))
          (λ u e. let q : c ≡ d = cc e in subst IsUsable q h))

-- Settings that `NewQUICConfig` returns, for any options: the keep-alive comes at least three times
-- in an idle timeout, which is not 0, and both windows start above 0 and within their limits.
pub new_quic_config-IsUsable :
    (bbr : Bool) (o : Options) (c : Config) → new_quic_config bbr o ≡ some c → IsUsable c
unfolding new_quic_config
new_quic_config-IsUsable bbr o c =
    let idle = positive_or o.idle_timeout (60 * second) in
    let streams = nonzero_or o.max_stream_recv_window (16 * mebibyte) in
    let connection = nonzero_or o.max_conn_recv_window (24 * mebibyte) in
    let a : 0 < idle = positive_or-positive o.idle_timeout (60 * second) (omega arith) in
    let b : 0 < streams =
      nonzero_or-positive o.max_stream_recv_window (16 * mebibyte) (omega arith) in
    let d : 0 < connection =
      nonzero_or-positive o.max_conn_recv_window (24 * mebibyte) (omega arith) in
    configure_congestion-IsUsable bbr o.congestion_control _ c (record {
      kept_alive = omega arith;
      idle = a;
      stream_window = (omega (arith, b), omega arith);
      connection_window = (omega (arith, d), omega arith);
    })

configure_congestion-available :
    (bbr : Bool) (mode : List ℕ) (c : Config)
    → congestion_available bbr mode ≡ true
    → (d : Config) × (configure_congestion bbr mode c ≡ some d)
unfolding configure_congestion
configure_congestion-available bbr mode c h = elim (Bool-cases (bytes_eq mode word_bbr)) [
  | inl t ↦ (record c { bbr = true }, rw (h, t, configure_congestion))
  | inr t ↦ (c, rw (h, t, configure_congestion))
]

-- `NewQUICConfig` does not panic where the build has the controller.
pub new_quic_config-available :
    (bbr : Bool) (o : Options)
    → congestion_available bbr o.congestion_control ≡ true
    → (c : Config) × (new_quic_config bbr o ≡ some c)
unfolding new_quic_config
new_quic_config-available bbr o h = configure_congestion-available bbr o.congestion_control _ h
