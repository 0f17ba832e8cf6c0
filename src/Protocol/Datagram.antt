-- ===== src/Protocol/Datagram.antt =====
-- internal/protocol/frame.go: the UDP envelope, `[version][session id: uvarint][address][payload]`.
pub mod RoundTrip
pub mod Bounds
use wanopt_proxy.Common.{
  ℕ, ◌+◌, ◌-◌, ◌≡◌, Bool, true, false, not, ◌||◌, Option, none, some, List, [], ◌∷◌, ◌++◌, length,
  get_or, drop, ◌==◌, ltb, if◌then◌else◌, Result, ok, err, Error, bad_datagram_header,
  bad_session_id, payload_too_large, fail_if, ◌>>=◌, ◌>>◌,
}
use wanopt_proxy.Net.{Net}
use wanopt_proxy.Protocol.Address.{Address, encode, decode_address}
use wanopt_proxy.Protocol.Varint.{append_uvarint, uvarint}
use wanopt_proxy.Protocol.Frame.{version}

abbrev pub max_udp_payload : ℕ
max_udp_payload = 850

abbrev pub max_udp_datagram_size : ℕ
max_udp_datagram_size = 1120

pub record Datagram : Type 0 where
  pub session_id : ℕ
  pub addr : Address
  pub payload : List ℕ

-- `EncodeDatagram`.
unfoldable pub encode_datagram : ℕ → Address → List ℕ → List ℕ
encode_datagram sid addr payload = encode addr (append_uvarint (version ∷ []) sid) ++ payload

-- `n <= 0` of `Uvarint` is an error.
abbrev or_bad_session {ℓ} : {A : Type ℓ} → Option A → Result A
or_bad_session none = err bad_session_id
or_bad_session (some a) = ok a

-- `DecodeDatagram`.
unfoldable pub decode_datagram : Net → List ℕ → Result Datagram
decode_datagram net buf = do
  fail_if
      (ltb (length buf) 2
        || ltb max_udp_datagram_size (length buf)
        || not (get_or buf 0 0 == version))
      bad_datagram_header
  (sid, n) ← or_bad_session (uvarint (drop 1 buf))
  let off = 1 + n
  (addr, used) ← decode_address net (drop off buf)
  let off' = off + used
  fail_if (ltb max_udp_payload (length buf - off')) payload_too_large
  ok (record { session_id = sid; addr = addr; payload = drop off' buf })
