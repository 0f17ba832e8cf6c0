-- ===== src/Metrics.antt =====
-- internal/metrics/metrics.go and internal/metrics/operations.go: the counters, their labels, and the
-- tracked connections. Connections are numbered; a nil *Metrics is `none`.
pub mod Labels
pub mod Tracked
pub mod Cardinality
use wanopt_proxy.Common.{
  ℕ, ◌+◌, ◌-◌, ◌%◌, ◌^◌, ◌≡◌, Bool, true, false, Option, none, some, List, [], ◌∷◌, any, ltb, ◌==◌,
  bytes_eq, if◌then◌else◌, length,
}
use wanopt_proxy.Metrics.Labels.{
  Label, word_up, word_down, word_error, word_capacity, word_canceled, word_timeout, word_bbr,
  word_reno, drop_reasons, resources, stages, latency_stages, known_or_other,
}

-- A counter for each value of its labels.
abbrev pub Vec : Type 0
Vec = List (List Label × ℕ)

abbrev same_labels : List Label → List Label → Bool
same_labels [] [] = true
same_labels [] (y ∷ ys) = false
same_labels (x ∷ xs) [] = false
same_labels (x ∷ xs) (y ∷ ys) = if bytes_eq x y then same_labels xs ys else false

-- `WithLabelValues`, and a change of that counter, which is 0 at first.
unfoldable pub change : List Label → (ℕ → ℕ) → Vec → Vec
change key f [] = (key, f 0) ∷ []
change key f ((k, m) ∷ rest) =
    let others = change key f rest in if same_labels k key then (k, f m) ∷ rest else (k, m) ∷ others

-- `Add`.
abbrev pub bump : List Label → ℕ → Vec → Vec
bump key n v = change key (λ m. m + n) v

-- `Set`.
abbrev pub put : List Label → ℕ → Vec → Vec
put key n v = change key (λ m. n) v

-- The encoder's statistics of `Compression`, where the time is in nanoseconds.
pub record Stats : Type 0 where
  pub input : ℕ
  pub output : ℕ
  pub attempted : ℕ
  pub skipped : ℕ
  pub compressed : ℕ
  pub seconds : ℕ

pub record Metrics : Type 0 where
  pub rejected : Vec
  pub failures : Vec
  pub udp_drops : Vec
  pub udp_packets : Vec
  pub latency : Vec
  pub controller : Vec
  pub up : ℕ
  pub down : ℕ
  pub udp_flows : ℕ
  pub codec_fallback : ℕ
  pub codec : Stats
  pub tls_resumptions : ℕ
  pub gauge : ℕ
  pub connections : List ℕ
  -- For each cleanup function that was given out, its connection, and whether its `Once` has run.
  pub cleanups : List (ℕ × Bool)

unfoldable pub new : Metrics
new = record {
  rejected = [];
  failures = [];
  udp_drops = [];
  udp_packets = [];
  latency = [];
  controller = [];
  up = 0;
  down = 0;
  udp_flows = 0;
  codec_fallback = 0;
  codec = record { input = 0; output = 0; attempted = 0; skipped = 0; compressed = 0; seconds = 0 };
  tls_resumptions = 0;
  gauge = 0;
  connections = [];
  cleanups = [];
}

-- The early return on nil.
abbrev pub unless_nil : (Metrics → Metrics) → Option Metrics → Option Metrics
unless_nil f none = none
unless_nil f (some m) = some (f m)

-- `AddUp` and `AddDown`, on a number that is not negative.
unfoldable pub add_up : ℕ → Metrics → Metrics
add_up n m = record m { up = m.up + n }

unfoldable pub add_down : ℕ → Metrics → Metrics
add_down n m = record m { down = m.down + n }

-- `UDPDrop`.
unfoldable pub udp_drop : Label → Metrics → Metrics
udp_drop reason m = record m {
  udp_drops = bump (known_or_other drop_reasons reason ∷ []) 1 m.udp_drops;
}

-- `UDPDatagram`.
unfoldable pub udp_datagram : Label → ℕ → Metrics → Metrics
unfolding add_up add_down
udp_datagram direction n m =
    if bytes_eq direction word_up
    then add_up n (record m { udp_packets = bump (word_up ∷ []) 1 m.udp_packets })
    else add_down n (record m { udp_packets = bump (word_down ∷ []) 1 m.udp_packets })

-- `Rejected`.
unfoldable pub reject : Label → Metrics → Metrics
reject resource m = record m {
  rejected = bump (known_or_other resources resource ∷ []) 1 m.rejected;
}

-- An error as `Failure` sees it, by `errors.Is` and `errors.As`.
pub record Cause : Type 0 where
  pub is_capacity : Bool
  pub is_canceled : Bool
  pub is_deadline : Bool
  pub is_timeout : Bool

unfoldable pub reason_of : Cause → Label
reason_of e =
    if e.is_capacity
    then word_capacity
    else if e.is_canceled
    then word_canceled
    else if e.is_deadline
    then word_timeout
    else if e.is_timeout
    then word_timeout
    else word_error

-- `Failure`; a nil error is `none`.
unfoldable pub fail : Label → Option Cause → Metrics → Metrics
unfolding reason_of
fail stage none m = m
fail stage (some e) m = record m {
  failures = bump (known_or_other stages stage ∷ reason_of e ∷ []) 1 m.failures;
}

-- `Observe`.
unfoldable pub observe : Label → ℕ → Metrics → Metrics
observe stage elapsed m = record m {
  latency = bump (known_or_other latency_stages stage ∷ []) elapsed m.latency;
}

-- `Controller`.
unfoldable pub set_controller : Label → Metrics → Metrics
set_controller mode m =
    let name : Label = if bytes_eq mode word_bbr then word_bbr else word_reno in
    record m { controller = put (name ∷ []) 1 m.controller }

-- `Compression`.
unfoldable pub compression : Stats → Metrics → Metrics
compression s m = record m {
  codec = record {
    input = m.codec.input + s.input;
    output = m.codec.output + s.output;
    attempted = m.codec.attempted + s.attempted;
    skipped = m.codec.skipped + s.skipped;
    compressed = m.codec.compressed + s.compressed;
    seconds = m.codec.seconds + s.seconds;
  };
}

-- `CodecFallback`.
unfoldable pub fall_back : Metrics → Metrics
fall_back m = record m { codec_fallback = m.codec_fallback + 1 }

abbrev pub is_tracked : ℕ → List ℕ → Bool
is_tracked conn l = any (λ c. c == conn) l

-- `trackConnection`: a connection that is tracked already gets a cleanup that does nothing, which is
-- one whose `Once` has run.
unfoldable pub track : ℕ → Bool → Metrics → Metrics
track conn resumed m =
    if is_tracked conn m.connections
    then record m { cleanups = (conn, true) ∷ m.cleanups }
    else record m {
      connections = conn ∷ m.connections;
      gauge = m.gauge + 1;
      tls_resumptions = if resumed then m.tls_resumptions + 1 else m.tls_resumptions;
      cleanups = (conn, false) ∷ m.cleanups;
    }

-- Without a connection; a map has it once.
abbrev pub dropped : ℕ → List ℕ → List ℕ
dropped conn [] = []
dropped conn (c ∷ cs) = let rest = dropped conn cs in if c == conn then rest else c ∷ rest

-- The cleanup of a number: the connection that it is to stop tracking, if its `Once` has not run,
-- and the cleanups behind the call.
abbrev pub use_cleanup : ℕ → List (ℕ × Bool) → Option ℕ × List (ℕ × Bool)
use_cleanup i [] = (none, [])
use_cleanup i ((conn, ran) ∷ rest) =
    let (found, others) = use_cleanup i rest in
    if i == length rest
    then (if ran then none else some conn, (conn, true) ∷ rest)
    else (found, (conn, ran) ∷ others)

-- A call of the cleanup `i`; the first that was given out is 0.
unfoldable pub cleanup : ℕ → Metrics → Metrics
cleanup i m =
    let (found, cleanups) = use_cleanup i m.cleanups in
    elim found [
      | none ↦ record m { cleanups = cleanups }
      | some conn ↦ record m {
        cleanups = cleanups;
        connections = dropped conn m.connections;
        gauge = m.gauge - 1;
      }
    ]

-- The calls, on metrics that are not nil.
pub data Call : Type 0 where
  drops rejects controls : Label → Call
  datagrams observes : Label → ℕ → Call
  fails : Label → Option Cause → Call
  compresses : Stats → Call
  falls_back : Call
  tracks : ℕ → Bool → Call
  cleans_up : ℕ → Call

unfoldable pub step : Call → Metrics → Metrics
unfolding udp_drop reject set_controller udp_datagram observe fail compression fall_back track
    cleanup
step (drops reason) m = udp_drop reason m
step (rejects resource) m = reject resource m
step (controls mode) m = set_controller mode m
step (datagrams direction n) m = udp_datagram direction n m
step (observes stage elapsed) m = observe stage elapsed m
step (fails stage e) m = fail stage e m
step (compresses s) m = compression s m
step falls_back m = fall_back m
step (tracks conn resumed) m = track conn resumed m
step (cleans_up i) m = cleanup i m

unfoldable pub run : List Call → Option Metrics → Option Metrics
unfolding step
run [] m = m
run (c ∷ cs) m = run cs (unless_nil (step c) m)

-- What `ConnectionStats` gives.
pub record ConnStats : Type 0 where
  pub rtt : ℕ
  pub cwnd : ℕ
  pub lost : ℕ

-- `Collect`: the largest round trip, and the sums, which wrap at 64 bits.
unfoldable pub collect : (ℕ → ConnStats) → List ℕ → ConnStats
collect stats [] = record { rtt = 0; cwnd = 0; lost = 0 }
collect stats (c ∷ cs) =
    let rest = collect stats cs in
    record {
      rtt = if ltb rest.rtt (stats c).rtt then (stats c).rtt else rest.rtt;
      cwnd = ((stats c).cwnd + rest.cwnd) % 2 ^ 64;
      lost = ((stats c).lost + rest.lost) % 2 ^ 64;
    }
