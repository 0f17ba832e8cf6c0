-- ===== src/Lib.antt =====
-- wanopt-proxy: a local SOCKS5 and HTTP proxy whose connections run over one authenticated HTTP/3
-- tunnel to a server that dials their destinations. Paths are from the repository's root.
--
-- Parts, and how they interact. The client (internal/client) opens proxy streams and UDP sessions
-- over a tunnel; each end of a stream speaks the frames of internal/protocol and may compress
-- with internal/compress. The server (internal/server) lets a request in behind the
-- authentication of internal/tunnel, asks the policy of internal/acl, and keeps the UDP flows.
-- Budgets of internal/admission bound streams and codecs at both ends. The local listeners are
-- internal/proxy, and internal/config checks the settings.
--
-- - Common: what the modules share. Bytes are numbers and slices and strings are lists; Go's
--   (value, error) is `Result`; `Io` has io.Reader as what a stream still delivers with the error
--   behind it, and io.Writer as a plan of short writes and errors; `Int` is Go's int.
-- - Net: package net, as far as addresses are bytes; its text functions are the record `Net`.
-- - Protocol: internal/protocol. Address has `Encode`, `ReadAddress`, `decodeAddress` and
--   `Validate`, Address/Text has `String` and `ParseAddress`, Frame has the request and the reply
--   of a stream, Datagram the UDP envelope, and Varint the uvarint of encoding/binary. A uvarint
--   of a 64-bit number has at most ten groups, which is the bound of the writer's recursion.
-- - Admission: internal/admission/budget.go; each lease has its `sync.Once`.
-- - Acl: internal/acl/acl.go. Names, Rules, Policy, Resolve and Dial follow the file from top to
--   bottom; the DNS answer is an argument. In Dial, what the clock, the context and the network
--   answer to the attempts of `dialAddresses` is the record `Dialer`, and the `select` of
--   `DialContext` is a step on what it takes.
-- - Compress: internal/compress/compress.go. Encoder is `CopyObserved` over the reads of its
--   source, Decoder is `Decopy`; compress/flate is the record `Codec`. The decoder's fuel is one
--   more than the bytes of its stream, and each round takes at least one.
-- - Tunnel: internal/tunnel/auth.go and credentials.go, and internal/server/credentials.go. The MAC
--   and the hash are the record `Crypto`; the time is an argument. Quic is quicconf.go and
--   congestion.go.
-- - Config: internal/config/config.go and rotation.go. The parsers of the libraries are the record
--   `Parsers`.
-- - UdpNat: internal/server/udp.go as one state, on which the goroutines take steps
--   (UdpNat/Steps); what happens under one hold of the mutex is one step.
-- - Relay: `relay` of internal/proxy/proxy.go and `pipe` of internal/server/server.go, on the ends of
--   their two copies and the cancellation.
-- - Metrics: internal/metrics/metrics.go and operations.go; a counter with labels is a list of its
--   series. A nil *Metrics is `none`.
-- - Proxy: internal/proxy/socks5.go and socks_udp.go; Http has the requests of http.go, Pool the
--   connections of its transport and those that proxy.go tracks, CompressedConn is
--   compressed_conn.go.
-- - Server: internal/server/server.go, the gate of a request, the control stream, and the
--   negotiation of a proxy stream; Connections has `Serve` with its deferred function, `handleConn`,
--   the authentication timer and the revocation of internal/server/credentials.go as steps on one
--   state, where a connection has its slot before it is watched, timed and registered; Proxying is
--   `handleProxy` as a whole.
-- - Client: internal/client/client.go, the negotiation of a stream and the UDP sessions; Open is
--   `OpenTCP` with all its permits, Stream the life of a stream, Run the reconnection with
--   `dialAuth`, Heartbeat its heartbeat, Options is `New`. What the
--   network answers to one call is the record `Network`; the rounds of `Run` are a list, which ends
--   where the run is looked at.
-- - Examples: the theorems at concrete inputs.
--
-- Not modelled: QUIC, HTTP/3 and TLS, the accept loops of the local listeners and their deadlines, the
-- forwarding of net/http, the registration and export of the metrics, the decoy site, the reading of
-- files, and the programs around the packages. Durations are numbers of seconds or nanoseconds,
-- and the token count of the UDP table is exact where the source has a float64.
pub mod Common
pub mod Net
pub mod Protocol
pub mod Admission
pub mod Acl
pub mod Compress
pub mod Tunnel
pub mod Config
pub mod UdpNat
pub mod Relay
pub mod Metrics
pub mod Proxy
pub mod Server
pub mod Client
pub mod Examples
