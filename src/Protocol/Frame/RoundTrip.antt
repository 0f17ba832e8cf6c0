-- ===== src/Protocol/Frame/RoundTrip.antt =====
-- What one side writes on a proxy stream is what the other side reads.
use wanopt_proxy.Common.{
  ℕ, ◌<◌, ◌^◌, ◌≡◌, true, none, List, [], ◌∷◌, ◌++◌, append_assoc, ok, IoError, Sink, write_full_ok,
  read_full-append,
}
use wanopt_proxy.Net.{Net}
use wanopt_proxy.Protocol.Address.{validate, encode, wire_form}
use wanopt_proxy.Protocol.Address.Bounds.{encode-append}
use wanopt_proxy.Protocol.Address.RoundTrip.{read_address-encode}
use wanopt_proxy.Protocol.Frame.{
  StreamRequest, request_bytes, write_request, read_stream_request, write_reply, read_reply,
  version,
}

module _ (net : Net) (e : IoError) where
  read-request_bytes :
      (rq : StreamRequest) (rest : List ℕ)
      → validate net rq.addr ≡ true
      → rq.addr.port < 2 ^ 16
      → read_stream_request net (record { bytes = request_bytes rq ++ rest; ending = e })
        ≡ ok (record rq { addr = wire_form rq.addr }, record { bytes = rest; ending = e })
  unfolding read_stream_request request_bytes
  read-request_bytes rq rest v p = rw (
    encode-append rq.addr (version ∷ rq.cmd ∷ rq.flags ∷ []),
    append_assoc (version ∷ rq.cmd ∷ rq.flags ∷ []) (encode rq.addr []) rest,
    read_full-append (version ∷ rq.cmd ∷ rq.flags ∷ []) (encode rq.addr [] ++ rest) e,
    read_address-encode net e rest rq.addr v p,
  )

  -- A request for a valid address and a 16-bit port, written to a writer that does not fail and
  -- read back, is the request with its address in wire form; bytes behind it stay unread.
  pub read_stream_request-write_request :
      (rq : StreamRequest) (rest : List ℕ)
      → validate net rq.addr ≡ true
      → rq.addr.port < 2 ^ 16
      → (w : Sink) × (write_request net rq (record { taken = []; plan = [] }) ≡ (none, w))
        × (read_stream_request net (record { bytes = w.taken ++ rest; ending = e })
            ≡ ok (record rq { addr = wire_form rq.addr }, record { bytes = rest; ending = e }))
  unfolding write_request
  read_stream_request-write_request rq rest v p = (
    record { taken = request_bytes rq; plan = [] },
    rw (v, write_full_ok (request_bytes rq) []),
    read-request_bytes rq rest v p,
  )

-- A reply written to a writer that does not fail reads back as its status and flags.
pub read_reply-write_reply :
    (e : IoError) (status flags : ℕ) (rest : List ℕ)
    → (w : Sink) × (write_reply status flags (record { taken = []; plan = [] }) ≡ (none, w))
      × (read_reply (record { bytes = w.taken ++ rest; ending = e })
          ≡ ok ((status, flags), record { bytes = rest; ending = e }))
unfolding write_reply read_reply
read_reply-write_reply e status flags rest = (
  record { taken = status ∷ flags ∷ []; plan = [] },
  write_full_ok (status ∷ flags ∷ []) [],
  rw (read_full-append (status ∷ flags ∷ []) rest e),
)
