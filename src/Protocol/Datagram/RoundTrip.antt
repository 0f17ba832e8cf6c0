-- ===== src/Protocol/Datagram/RoundTrip.antt =====
-- `DecodeDatagram` after `EncodeDatagram`.
use wanopt_proxy.Common.{
  ℕ, suc, ◌+◌, ◌-◌, ◌≤◌, ◌<◌, ◌^◌, ◌≡◌, refl, arith, true, some, List, [], ◌∷◌, ◌++◌, length,
  length-append, drop, length-drop, drop-drop, drop-append, append_assoc, ok, err, Result, eof, ap,
  sym, ◌∙◌, le→ltb_false,
}
use wanopt_proxy.Net.{Net}
use wanopt_proxy.Protocol.Address.{Address, validate, encode, decode_address, wire_form}
use wanopt_proxy.Protocol.Address.Bounds.{encode-append}
use wanopt_proxy.Protocol.Address.Agree.{after_decode, decode_address-read_address}
use wanopt_proxy.Protocol.Address.RoundTrip.{read_address-encode}
use wanopt_proxy.Protocol.Varint.{
  append_uvarint, groups, length-append_uvarint, uvarint, uvarint-append_uvarint,
}
use wanopt_proxy.Protocol.Datagram.{
  encode_datagram, decode_datagram, max_udp_payload, max_udp_datagram_size,
}
use wanopt_proxy.Protocol.Datagram.Bounds.{length-encode_datagram}

after_decode-some :
    (buf : List ℕ) (d : Result (Address × ℕ)) {a : Address} {l : List ℕ}
    → after_decode buf d ≡ some (a, l)
    → (n : ℕ) × (d ≡ ok (a, n)) × (drop n buf ≡ l)
after_decode-some buf (ok (a, n)) h = (n, ground arith, ground arith)
after_decode-some buf (err e) h = cc

-- `decodeAddress` on what `Encode` wrote consumes exactly that.
pub decode_address-encode :
    (net : Net) (a : Address) (rest : List ℕ)
    → validate net a ≡ true
    → a.port < 2 ^ 16
    → (n : ℕ) × (decode_address net (encode a [] ++ rest) ≡ ok (wire_form a, n))
      × (drop n (encode a [] ++ rest) ≡ rest)
decode_address-encode net a rest v p =
    after_decode-some (encode a [] ++ rest) (decode_address net (encode a [] ++ rest)) (
      decode_address-read_address net eof (encode a [] ++ rest)
      ∙ rw (read_address-encode net eof rest a v p))

append_uvarint-cons : (b : List ℕ) (x : ℕ) → append_uvarint b x ≡ b ++ append_uvarint [] x
unfolding append_uvarint
append_uvarint-cons b x = refl

datagram_parts :
    (sid : ℕ) (a : Address) (payload : List ℕ)
    → encode_datagram sid a payload ≡ 2 ∷ (append_uvarint [] sid ++ (encode a [] ++ payload))
unfolding encode_datagram append_uvarint
datagram_parts sid a payload =
    rw (encode-append a (2 ∷ groups 9 sid), append_assoc (2 ∷ groups 9 sid) (encode a []) payload)

decode_parts :
    (net : Net) (body : List ℕ) (sid k n : ℕ) (a : Address) (payload : List ℕ)
    → 1 ≤ length body
    → length body < max_udp_datagram_size
    → uvarint body ≡ some (sid, k)
    → decode_address net (drop k body) ≡ ok (a, n)
    → drop n (drop k body) ≡ payload
    → length payload ≤ max_udp_payload
    → decode_datagram net (2 ∷ body) ≡ ok (record { session_id = sid; addr = a; payload = payload })
unfolding decode_datagram
decode_parts net body sid k n a payload lo hi u d r s = rw (
  le→ltb_false (suc (length body)) 2 (omega arith),
  le→ltb_false 1120 (suc (length body)) (omega arith),
  u,
  skip,
  d,
  rest,
  tail,
  le→ltb_false 850 (length payload) s,
)
  where
    skip : drop (1 + k) (2 ∷ body) ≡ drop k body
    skip = sym (drop-drop 1 k (2 ∷ body))

    rest : drop (1 + k + n) (2 ∷ body) ≡ payload
    rest = sym (drop-drop (1 + k) n (2 ∷ body)) ∙ ap (drop n) skip ∙ r

    tail : suc (length body) - (1 + k + n) ≡ length payload
    tail = sym (length-drop (1 + k + n) (2 ∷ body)) ∙ ap length rest

-- A datagram for a 64-bit session id, a valid address with a 16-bit port and a payload within the
-- limit decodes to that session id, the wire form of the address, and the payload.
pub decode_datagram-encode_datagram :
    (net : Net) (sid : ℕ) (a : Address) (payload : List ℕ)
    → sid < 2 ^ 64
    → validate net a ≡ true
    → a.port < 2 ^ 16
    → length payload ≤ max_udp_payload
    → decode_datagram net (encode_datagram sid a payload)
      ≡ ok (record { session_id = sid; addr = wire_form a; payload = payload })
unfolding decode_datagram
decode_datagram-encode_datagram net sid a payload hs v p hp =
    let (n, e, d) = decode_address-encode net a payload v p in
    let body : List ℕ = append_uvarint [] sid ++ (encode a [] ++ payload) in
    let skip : drop (length (append_uvarint [] sid)) body ≡ encode a [] ++ payload =
      drop-append (append_uvarint [] sid) (encode a [] ++ payload) in
    let size : length (2 ∷ body) ≤ max_udp_datagram_size =
      rw (datagram_parts sid a payload) at (length-encode_datagram net sid a payload v hp) in
    rw (datagram_parts sid a payload) (
      decode_parts net body sid (length (append_uvarint [] sid)) n (wire_form a) payload
        (rw (length-append (append_uvarint [] sid) (encode a [] ++ payload))
          (omega (arith, length-append_uvarint [] sid)))
        (omega arith) (uvarint-append_uvarint sid (encode a [] ++ payload) hs) (rw skip e)
        (rw skip d) hp)
