-- ===== src/Examples/Protocol.antt =====
-- The theorems on the protocol at concrete inputs.
use wanopt_proxy.Common.{
  ℕ, ◌≤◌, ◌≡◌, refl, arith, true, none, some, List, [], ◌∷◌, ◌++◌, length, drop, ok, eof, Reader,
  Sink,
}
use wanopt_proxy.Examples.Values.{net}
use wanopt_proxy.Net.{to4}
use wanopt_proxy.Protocol.Address.{
  Address, atyp_ipv4, atyp_domain, validate, encode, read_address, decode_address, wire_form,
}
use wanopt_proxy.Protocol.Address.Agree.{after_decode, after_read, decode_address-read_address}
use wanopt_proxy.Protocol.Address.RoundTrip.{read_address-encode}
use wanopt_proxy.Protocol.Varint.{append_uvarint, uvarint, uvarint-append_uvarint}
use wanopt_proxy.Protocol.Frame.{StreamRequest, write_request, read_stream_request}
use wanopt_proxy.Protocol.Frame.RoundTrip.{read_stream_request-write_request}
use wanopt_proxy.Protocol.Datagram.{
  Datagram, encode_datagram, decode_datagram, max_udp_payload, max_udp_datagram_size,
}
use wanopt_proxy.Protocol.Datagram.Bounds.{decode_datagram_sound}
use wanopt_proxy.Protocol.Datagram.RoundTrip.{decode_datagram-encode_datagram}

abbrev name_addr : Address
name_addr = record { atyp = atyp_domain; host = b'a' ∷ b'.' ∷ b'b' ∷ []; ip = []; port = 443 }

name_valid : validate net name_addr ≡ true
unfolding validate
name_valid = refl

abbrev stream : List ℕ → Reader
stream b = record { bytes = b; ending = eof }

read_address-encode_example :
    read_address net (stream (encode name_addr [] ++ (7 ∷ [])))
    ≡ ok (wire_form name_addr, stream (7 ∷ []))
read_address-encode_example =
    read_address-encode net eof (7 ∷ []) name_addr name_valid (omega arith)

decode_datagram-encode_datagram_example :
    decode_datagram net (encode_datagram 300 name_addr (1 ∷ 2 ∷ []))
    ≡ ok (record { session_id = 300; addr = wire_form name_addr; payload = 1 ∷ 2 ∷ [] })
decode_datagram-encode_datagram_example =
    decode_datagram-encode_datagram net 300 name_addr (1 ∷ 2 ∷ []) (omega arith) name_valid
      (omega arith) (omega arith)

abbrev wire : List ℕ
wire = 2 ∷ 5 ∷ 1 ∷ 1 ∷ 2 ∷ 3 ∷ 4 ∷ 0 ∷ 53 ∷ 9 ∷ []

abbrev received : Datagram
received = record {
  session_id = 5;
  addr = record { atyp = atyp_ipv4; host = []; ip = 1 ∷ 2 ∷ 3 ∷ 4 ∷ []; port = 53 };
  payload = 9 ∷ [];
}

wire_decodes : decode_datagram net wire ≡ ok received
unfolding decode_datagram uvarint decode_address validate to4
wire_decodes = refl

decode_datagram_sound_example :
    (length wire ≤ max_udp_datagram_size)
    × (validate net received.addr ≡ true)
    × (length received.payload ≤ max_udp_payload)
    × ((n : ℕ) × (received.payload ≡ drop n wire))
decode_datagram_sound_example = decode_datagram_sound net wire received wire_decodes

decode_address-read_address_example :
    after_decode
      (3 ∷ 1 ∷ b'a' ∷ 0 ∷ 1 ∷ 8 ∷ [])
      (decode_address net (3 ∷ 1 ∷ b'a' ∷ 0 ∷ 1 ∷ 8 ∷ []))
    ≡ after_read (read_address net (stream (3 ∷ 1 ∷ b'a' ∷ 0 ∷ 1 ∷ 8 ∷ [])))
decode_address-read_address_example =
    decode_address-read_address net eof (3 ∷ 1 ∷ b'a' ∷ 0 ∷ 1 ∷ 8 ∷ [])

uvarint-append_uvarint_example :
    uvarint (append_uvarint [] 300 ++ (1 ∷ [])) ≡ some (300, length (append_uvarint [] 300))
uvarint-append_uvarint_example = uvarint-append_uvarint 300 (1 ∷ []) (omega arith)

abbrev request : StreamRequest
request = record { cmd = 1; flags = 1; addr = name_addr }

read_stream_request-write_request_example :
    (w : Sink) × (write_request net request (record { taken = []; plan = [] }) ≡ (none, w))
    × (read_stream_request net (record { bytes = w.taken ++ (5 ∷ []); ending = eof })
        ≡ ok (
          record request { addr = wire_form request.addr },
          record { bytes = 5 ∷ []; ending = eof },
        ))
read_stream_request-write_request_example =
    read_stream_request-write_request net eof request (5 ∷ []) name_valid (omega arith)
