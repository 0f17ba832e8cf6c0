-- ===== src/Protocol/Frame.antt =====
-- internal/protocol/frame.go: the header of a proxy stream and the reply to it.
pub mod RoundTrip
use wanopt_proxy.Common.{
  ℕ, ◌+◌, ◌≡◌, Bool, true, false, not, Option, none, some, List, [], ◌∷◌, ◌++◌, length, get_or,
  ◌==◌, if◌then◌else◌, Result, ok, err, Error, io, bad_address, unsupported_version, fail_if,
  IoError, Reader, read_full, Sink, write_full, ◌>>=◌, ◌>>◌,
}
use wanopt_proxy.Net.{Net}
use wanopt_proxy.Protocol.Address.{Address, validate, encode, read_address}

abbrev pub version : ℕ
version = 2

abbrev pub cmd_tcp_connect : ℕ
cmd_tcp_connect = 1

abbrev pub flag_compress : ℕ
flag_compress = 1

abbrev pub ctrl_ping : ℕ
ctrl_ping = 1

abbrev pub ctrl_pong : ℕ
ctrl_pong = 2

abbrev pub status_ok : ℕ
status_ok = 0

abbrev pub status_general_err : ℕ
status_general_err = 1

abbrev pub status_conn_refused : ℕ
status_conn_refused = 2

abbrev pub status_host_unreach : ℕ
status_host_unreach = 3

abbrev pub status_not_allowed : ℕ
status_not_allowed = 4

pub record StreamRequest : Type 0 where
  pub cmd : ℕ
  pub flags : ℕ
  pub addr : Address

-- The bytes of a request, which go out in one write.
unfoldable pub request_bytes : StreamRequest → List ℕ
request_bytes rq = encode rq.addr (version ∷ rq.cmd ∷ rq.flags ∷ [])

module _ (net : Net) where
  -- `StreamRequest.WriteTo`: the error if any, and the writer behind the call. An address that is
  -- not valid stops the call before the write.
  unfoldable pub write_request : StreamRequest → Sink → Option Error × Sink
  unfolding request_bytes
  write_request rq w =
      if validate net rq.addr
      then (let (e, w') = write_full (request_bytes rq) w in
          (elim e [ none ↦ none | some e' ↦ some (io e') ], w'))
      else (some bad_address, w)

  -- `ReadStreamRequest`.
  unfoldable pub read_stream_request : Reader → Result (StreamRequest × Reader)
  read_stream_request r = do
    (hdr, r') ← read_full 3 r
    fail_if (not (get_or hdr 0 0 == version)) unsupported_version
    (addr, r'') ← read_address net r'
    ok (record { cmd = get_or hdr 1 0; flags = get_or hdr 2 0; addr = addr }, r'')

-- `WriteReply`.
unfoldable pub write_reply : ℕ → ℕ → Sink → Option IoError × Sink
write_reply status flags w = write_full (status ∷ flags ∷ []) w

-- `ReadReply`.
unfoldable pub read_reply : Reader → Result ((ℕ × ℕ) × Reader)
read_reply r = do (b, r') ← read_full 2 r; ok ((get_or b 0 0, get_or b 1 0), r')
