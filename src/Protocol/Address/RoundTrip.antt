-- ===== src/Protocol/Address/RoundTrip.antt =====
-- `ReadAddress` after `Encode`.
use wanopt_proxy.Common.{
  ℕ, ◌<◌, ◌^◌, ◌≡◌, arith, true, some, List, [], ◌∷◌, ◌++◌, length, append_assoc, Reader, IoError,
  ok, read_full_exact, read_full-append,
}
use wanopt_proxy.Net.{Net, to4, to16}
use wanopt_proxy.Protocol.Address.{
  Address, validate, encode, be16, be16_value, wire_form, read_address, read_port, read_ip,
  read_domain, blank, atyp_ipv4, atyp_ipv6, atyp_domain,
}
use wanopt_proxy.Protocol.Address.Bounds.{
  ValidForm, valid_form, ipv4, ipv6, domain, encode_ipv4, encode_ipv6, encode_domain,
}

pub be16_value-be16 : (p : ℕ) → p < 2 ^ 16 → be16_value (be16 p) ≡ p
be16_value-be16 p h = omega arith

pub to4_self : (v4 : List ℕ) → length v4 ≡ 4 → to4 v4 ≡ some v4
unfolding to4
to4_self v4 h = rw h

pub to16_self : (v6 : List ℕ) → length v6 ≡ 16 → to16 v6 ≡ some v6
unfolding to16
to16_self v6 h = rw h

wire_ipv4 :
    (a : Address) (v4 : List ℕ)
    → a.atyp ≡ atyp_ipv4
    → to4 a.ip ≡ some v4
    → wire_form a ≡ record { atyp = atyp_ipv4; host = []; ip = v4; port = a.port }
unfolding wire_form
wire_ipv4 a v4 t s = ground arith

wire_ipv6 :
    (a : Address) (v6 : List ℕ)
    → a.atyp ≡ atyp_ipv6
    → to16 a.ip ≡ some v6
    → wire_form a ≡ record { atyp = atyp_ipv6; host = []; ip = v6; port = a.port }
unfolding wire_form
wire_ipv6 a v6 t s = ground arith

wire_domain :
    (a : Address)
    → a.atyp ≡ atyp_domain
    → wire_form a ≡ record { atyp = atyp_domain; host = a.host; ip = []; port = a.port }
unfolding wire_form
wire_domain a t = ground arith

module _ (net : Net) (e : IoError) (rest : List ℕ) where
  abbrev stream : List ℕ → Reader
  stream l = record { bytes = l; ending = e }

  read_port-be16 :
      (a : Address) (p : ℕ)
      → p < 2 ^ 16
      → validate net (record a { port = p }) ≡ true
      → read_port net a (stream (be16 p ++ rest)) ≡ ok (record a { port = p }, stream rest)
  unfolding read_port
  read_port-be16 a p h v = rw (read_full-append (be16 p) rest e, be16_value-be16 p h, v)

  read_ip-encode :
      (t size : ℕ) (ip : List ℕ) (p : ℕ)
      → length ip ≡ size
      → p < 2 ^ 16
      → validate net (record { atyp = t; host = []; ip = ip; port = p }) ≡ true
      → read_ip net t size (stream (ip ++ (be16 p ++ rest)))
        ≡ ok (record { atyp = t; host = []; ip = ip; port = p }, stream rest)
  unfolding read_ip
  read_ip-encode t size ip p s h v =
      rw (read_full_exact size ip (be16 p ++ rest) e s)
        (read_port-be16 (record (blank net t) { ip = ip }) p h v)

  read_domain-encode :
      (host : List ℕ) (p : ℕ)
      → p < 2 ^ 16
      → validate net (record { atyp = atyp_domain; host = host; ip = []; port = p }) ≡ true
      → read_domain net (stream (length host ∷ (host ++ (be16 p ++ rest))))
        ≡ ok (record { atyp = atyp_domain; host = host; ip = []; port = p }, stream rest)
  unfolding read_domain
  read_domain-encode host p h v =
      rw
        (
          read_full-append (length host ∷ []) (host ++ (be16 p ++ rest)) e,
          read_full-append host (be16 p ++ rest) e,
        )
        (read_port-be16 (record (blank net atyp_domain) { host = host }) p h v)

  wire-valid :
      (a : Address) → ValidForm a → validate net a ≡ true → validate net (wire_form a) ≡ true
  unfolding validate wire_form
  wire-valid a (ipv4 t v4 s l) v = rw (t, s, to4_self v4 l)
  wire-valid a (ipv6 t v6 s l) v = rw (t, s, to16_self v6 l)
  wire-valid a (domain t h) v = ground arith

  form-read :
      (a : Address)
      → ValidForm a
      → a.port < 2 ^ 16
      → validate net (wire_form a) ≡ true
      → read_address net (stream (encode a [] ++ rest)) ≡ ok (wire_form a, stream rest)
  unfolding read_address
  form-read a (ipv4 t v4 s l) p v =
      rw
        (
          encode_ipv4 a [] v4 t s,
          append_assoc v4 (be16 a.port) rest,
          wire_ipv4 a v4 t s,
          read_full-append (atyp_ipv4 ∷ []) (v4 ++ (be16 a.port ++ rest)) e,
        )
        (read_ip-encode atyp_ipv4 4 v4 a.port l p (rw (wire_ipv4 a v4 t s) at v))
  form-read a (ipv6 t v6 s l) p v =
      rw
        (
          encode_ipv6 a [] v6 t s,
          append_assoc v6 (be16 a.port) rest,
          wire_ipv6 a v6 t s,
          read_full-append (atyp_ipv6 ∷ []) (v6 ++ (be16 a.port ++ rest)) e,
        )
        (read_ip-encode atyp_ipv6 16 v6 a.port l p (rw (wire_ipv6 a v6 t s) at v))
  form-read a (domain t h) p v =
      rw
        (
          encode_domain a [] t h,
          append_assoc a.host (be16 a.port) rest,
          wire_domain a t,
          read_full-append (atyp_domain ∷ []) (length a.host ∷ (a.host ++ (be16 a.port ++ rest))) e,
        )
        (read_domain-encode a.host a.port p (rw (wire_domain a t) at v))

  -- Reading what `Encode` wrote for a valid address, with anything behind it, gives the wire form
  -- of the address and leaves what stood behind. The port is a 16-bit number.
  pub read_address-encode :
      (a : Address)
      → validate net a ≡ true
      → a.port < 2 ^ 16
      → read_address net (stream (encode a [] ++ rest)) ≡ ok (wire_form a, stream rest)
  read_address-encode a v p =
      form-read a (valid_form net a v) p (wire-valid a (valid_form net a v) v)
