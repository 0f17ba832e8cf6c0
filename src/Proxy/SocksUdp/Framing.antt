-- ===== src/Proxy/SocksUdp/Framing.antt =====
-- What a SOCKS5 UDP datagram carries survives its framing.
use wanopt_proxy.Common.{
  ℕ, ◌-◌, ◌≤◌, ◌<◌, ◌^◌, ◌≡◌, ◌≢◌, refl, ap, ◌∙◌, arith, true, false, List, [], ◌∷◌, ◌++◌, length,
  length-append, drop, drop-append, eof, ok, ltb, le→ltb_false, ◌==◌, ◌||◌, ◌&&◌, false, Bool-cases,
  inl, inr,
}
use wanopt_proxy.Net.{Net}
use wanopt_proxy.Protocol.Address.{
  Address, atyp_domain, atyp_ipv4, atyp_ipv6, be16, validate, encode, wire_form,
}
use wanopt_proxy.Protocol.Address.Bounds.{encode-append}
use wanopt_proxy.Protocol.Address.RoundTrip.{read_address-encode}
use wanopt_proxy.Protocol.Datagram.{max_udp_payload}
use wanopt_proxy.Proxy.SocksUdp.{parse_socks_udp, build_socks_udp}

encode-nonempty : (a : Address) → 2 ≤ length (encode a [])
unfolding encode
encode-nonempty a = omega (arith, length-append _ (be16 a.port))

wire-accepted :
    (a : Address)
    → a.port ≢ 0
    → (a.atyp ≡ atyp_domain → length a.host ≢ 0)
    → ((wire_form a).port == 0
        || ((wire_form a).atyp == atyp_domain && length (wire_form a).host == 0))
      ≡ false
unfolding wire_form
wire-accepted a z d = elim (Bool-cases (a.atyp == atyp_ipv4)) [
  | inl t ↦ rw t (ground arith)
  | inr t ↦ rw t (elim (Bool-cases (a.atyp == atyp_ipv6)) [
    | inl u ↦ rw u (ground arith)
    | inr u ↦ rw u (ground arith)
  ])
]

payload-drop :
    (e payload : List ℕ)
    → drop (length (0 ∷ 0 ∷ 0 ∷ (e ++ payload)) - length payload) (0 ∷ 0 ∷ 0 ∷ (e ++ payload))
      ≡ payload
payload-drop e payload =
    ap (λ (k : ℕ). drop k (0 ∷ 0 ∷ 0 ∷ (e ++ payload))) size ∙ drop-append (0 ∷ 0 ∷ 0 ∷ e) payload
  where
    size : length (0 ∷ 0 ∷ 0 ∷ (e ++ payload)) - length payload ≡ length (0 ∷ 0 ∷ 0 ∷ e)
    size = omega (arith, length-append e payload)

-- A datagram built for a valid address with a 16-bit port that is not 0, a name that is not empty
-- if it is a name, and a payload within the limit is parsed to the wire form of the address and
-- that payload.
pub parse_socks_udp-build_socks_udp :
    (net : Net) (a : Address) (payload : List ℕ)
    → validate net a ≡ true
    → a.port < 2 ^ 16
    → a.port ≢ 0
    → (a.atyp ≡ atyp_domain → length a.host ≢ 0)
    → length payload ≤ max_udp_payload
    → parse_socks_udp net (build_socks_udp a payload) ≡ ok (wire_form a, payload)
unfolding parse_socks_udp build_socks_udp
parse_socks_udp-build_socks_udp net a payload v p z d h =
    let big : ltb (length (0 ∷ 0 ∷ 0 ∷ (encode a [] ++ payload))) 4 ≡ false =
      le→ltb_false _ _ (omega (arith, encode-nonempty a, length-append (encode a []) payload)) in
    let small : ltb max_udp_payload (length payload) ≡ false =
      le→ltb_false max_udp_payload (length payload) h in
    rw
      (
        encode-append a (0 ∷ 0 ∷ 0 ∷ []),
        big,
        read_address-encode net eof payload a v p,
        wire-accepted a z d,
        small,
        payload-drop (encode a []) payload,
      )
      refl
