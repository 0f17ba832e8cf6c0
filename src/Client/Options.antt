-- ===== src/Client/Options.antt =====
-- internal/client/client.go: `New`. Times are in nanoseconds.
use wanopt_proxy.Common.{
  ℕ, zero, suc, ◌*◌, ◌≡◌, ◌≤◌, ◌<◌, refl, arith, Bool, true, Option, none, some, List, [], min, ltb,
  ℤ, pos, negsuc, positive_or, positive_or-positive, Bool-cases, inl, inr,
}
use wanopt_proxy.Admission.{Budget, make}
use wanopt_proxy.Tunnel.Quic
use wanopt_proxy.Tunnel.Quic.{
  Config, new_quic_config, congestion_available, new_quic_config-available, IsUsable,
  new_quic_config-IsUsable,
}

abbrev second : ℕ
second = 1000000000

pub record Options : Type 0 where
  pub congestion_control : List ℕ
  pub max_active_streams : ℤ
  pub max_compressed_streams : ℤ
  pub idle_timeout : ℤ
  pub handshake_timeout : ℤ
  pub request_timeout : ℤ
  pub max_pending_requests : ℤ
  pub max_udp_sessions : ℤ
  pub max_stream_recv_window : ℕ
  pub max_conn_recv_window : ℕ

-- A client behind `New`: its settings, its budgets and its QUIC configuration.
pub record Client : Type 0 where
  pub idle_timeout : ℕ
  pub handshake_timeout : ℕ
  pub request_timeout : ℕ
  pub max_pending_requests : ℕ
  pub max_udp_sessions : ℕ
  pub active : Budget
  pub codecs : Budget
  pub quic : Config

abbrev built : Options → Budget → Budget → Config → Client
built o active codecs quic = record {
  idle_timeout = positive_or o.idle_timeout (60 * second);
  handshake_timeout = positive_or o.handshake_timeout (10 * second);
  request_timeout = positive_or o.request_timeout (15 * second);
  max_pending_requests = positive_or o.max_pending_requests 256;
  max_udp_sessions = positive_or o.max_udp_sessions 128;
  active = active;
  codecs = codecs;
  quic = quic;
}

-- The three parts of `New` that can panic, in the order of the source.
abbrev assemble : Options → Option Budget → Option Budget → Option Config → Option Client
assemble o none codecs quic = none
assemble o (some active) none quic = none
assemble o (some active) (some codecs) none = none
assemble o (some active) (some codecs) (some quic) = some (built o active codecs quic)

-- The options of `NewQUICConfig`.
abbrev quic_options : Options → Quic.Options
quic_options o = record {
  congestion_control = o.congestion_control;
  idle_timeout = pos (positive_or o.idle_timeout (60 * second));
  handshake_timeout = pos (positive_or o.handshake_timeout (10 * second));
  max_stream_recv_window = o.max_stream_recv_window;
  max_conn_recv_window = o.max_conn_recv_window;
  max_incoming_streams = negsuc 0;
}

-- `New`; `none` is a panic, `bbr` whether the build has that controller, and `observe` whether there
-- are metrics.
unfoldable pub new : Bool → Bool → Options → Option Client
new bbr observe o =
    let active = positive_or o.max_active_streams 128 in
    assemble o (make active observe)
      (make (positive_or o.max_compressed_streams (min 16 active)) observe)
      (new_quic_config bbr (quic_options o))

made :
    (limit : ℕ) (observe : Bool)
    → 0 < limit
    → (b : Budget) × (make limit observe ≡ some b) × (b.limit ≡ limit)
unfolding make
made limit observe h = elim (Bool-cases (ltb limit 1)) [
  | inl t ↦ absurd (ground arith)
  | inr t ↦ (
    record { limit = limit; slots = 0; observe = observe; ups = 0; downs = 0; leases = [] },
    rw (t, make),
    refl,
  )
]

-- A limit that is the setting where that is positive, and otherwise is as `P` says.
abbrev pub IsSetting : ℤ → (ℕ → Type 0) → ℕ → Type 0
IsSetting (pos zero) P limit = P limit
IsSetting (pos (suc n)) P limit = limit ≡ suc n
IsSetting (negsuc n) P limit = P limit

positive_or-IsSetting :
    (v : ℤ) (P : ℕ → Type 0) (d limit : ℕ) → limit ≡ positive_or v d → P d → IsSetting v P limit
positive_or-IsSetting (pos zero) P d limit e h = rw e h
positive_or-IsSetting (pos (suc n)) P d limit e h = ground (arith, e)
positive_or-IsSetting (negsuc n) P d limit e h = rw e h

-- For any options, `New` does not panic where the build has the controller. The new client admits at
-- least one stream and one compressed stream: as many as the options say where they say a positive
-- number, and where they say zero or a negative one, 128 streams, and no more compressed streams than
-- streams and than 16. Its requests have some time, and its QUIC settings are usable.
pub new-available :
    (bbr observe : Bool) (o : Options)
    → congestion_available bbr o.congestion_control ≡ true
    → (c : Client) × (new bbr observe o ≡ some c)
      × (0 < c.active.limit)
      × (0 < c.codecs.limit)
      × IsSetting o.max_active_streams (λ n. n ≡ 128) c.active.limit
      × IsSetting o.max_compressed_streams (λ n. (n ≤ c.active.limit) × (n ≤ 16)) c.codecs.limit
      × (0 < c.request_timeout)
      × IsUsable c.quic
unfolding new
new-available bbr observe o h =
    let n = positive_or o.max_active_streams 128 in
    let m = positive_or o.max_compressed_streams (min 16 n) in
    let hn : 0 < n = positive_or-positive o.max_active_streams 128 (omega arith) in
    let hm : 0 < m = positive_or-positive o.max_compressed_streams (min 16 n) (omega (arith, hn)) in
    let (active, ea, la) = made n observe hn in
    let (codecs, ec, lc) = made m observe hm in
    let (quic, eq) = new_quic_config-available bbr (quic_options o) h in
    (
      built o active codecs quic,
      rw (ea, ec, eq, new),
      omega (arith, la, hn),
      omega (arith, lc, hm),
      positive_or-IsSetting o.max_active_streams _ 128 active.limit la refl,
      positive_or-IsSetting o.max_compressed_streams _ (min 16 n) codecs.limit lc
          (omega (arith, la), omega arith),
      positive_or-positive o.request_timeout (15 * second) (omega arith),
      new_quic_config-IsUsable bbr (quic_options o) quic eq,
    )
