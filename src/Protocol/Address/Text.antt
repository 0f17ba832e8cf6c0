-- ===== src/Protocol/Address/Text.antt =====
-- internal/protocol/address.go: an address as the text host:port.
use wanopt_proxy.Common.{
  ℕ, ◌≡◌, ◌<◌, ◌^◌, refl, true, Option, none, some, List, [], length, ltb, ◌==◌, if◌then◌else◌,
  Result, ok, err, bad_port, bad_address, domain_too_long, fail_if, ◌>>◌, Bool-cases, Option-cases,
  inl, inr, >>=-eq-ok, ok-injective,
}
use wanopt_proxy.Net.{Net, to4, to16, or_nil}
use wanopt_proxy.Protocol.Address.{Address, atyp_ipv4, atyp_ipv6, atyp_domain, validate, checked}

-- The text functions of the Go library: `IP.String`, `strconv.Itoa`, `net.JoinHostPort` and
-- `net.SplitHostPort`, and `strconv.ParseUint` with 16 bits.
pub record Text : Type 0 where
  pub ip_text : List ℕ → List ℕ
  pub itoa : ℕ → List ℕ
  pub join : List ℕ → List ℕ → List ℕ
  pub split_host_port : List ℕ → Option (List ℕ × List ℕ)
  pub parse_uint16 : List ℕ → Option ℕ
  pub parse_uint16-bound : (s : List ℕ) (n : ℕ) → parse_uint16 s ≡ some n → n < 2 ^ 16

-- `Address.String`.
unfoldable pub to_string : Text → Address → List ℕ
to_string tx a =
    tx.join (if a.atyp == atyp_domain then a.host else tx.ip_text a.ip) (tx.itoa a.port)

module _ (net : Net) where
  -- The address of an IP address.
  unfoldable pub from_ip : List ℕ → ℕ → Address
  from_ip ip port = elim (to4 ip) [
    | some v4 ↦ record { atyp = atyp_ipv4; host = []; ip = v4; port = port }
    | none ↦ record { atyp = atyp_ipv6; host = []; ip = or_nil (to16 ip); port = port }
  ]

  -- The address of a host, which is the text of an IP address or a name.
  unfoldable pub from_host : List ℕ → ℕ → Result Address
  from_host host port = elim (net.parse_ip host) [
    | some ip ↦ checked net (from_ip ip port)
    | none ↦
        fail_if (ltb 255 (length host)) domain_too_long
        >> checked net (record { atyp = atyp_domain; host = host; ip = []; port = port })
  ]

  -- `ParseAddress`.
  unfoldable pub parse_address : Text → List ℕ → Result Address
  parse_address tx hostport = elim (tx.split_host_port hostport) [
    | none ↦ err bad_address
    | some (host, port_text) ↦ elim (tx.parse_uint16 port_text) [
      | none ↦ err bad_port
      | some port ↦ from_host host port
    ]
  ]

  checked-valid :
      (a b : Address) → checked net a ≡ ok b → (validate net b ≡ true) × (b.port ≡ a.port)
  checked-valid a b h = elim (Bool-cases (validate net a)) [
    | inl t ↦ rw (← ok-injective (rw t at h)) (t, refl)
    | inr t ↦ absurd (cc (rw t at h))
  ]

  from_ip-port : (ip : List ℕ) (port : ℕ) → (from_ip ip port).port ≡ port
  unfolding from_ip
  from_ip-port ip port = elim (Option-cases (to4 ip)) [
    | inl e ↦ rw (e, from_ip) refl
    | inr (v4, e) ↦ rw (e, from_ip) refl
  ]

  from_host-valid :
      (host : List ℕ) (port : ℕ) (a : Address)
      → from_host host port ≡ ok a
      → (validate net a ≡ true) × (a.port ≡ port)
  unfolding from_host
  from_host-valid host port a h = elim (Option-cases (net.parse_ip host)) [
    | inl e ↦
        let (_, _, h') =
          >>=-eq-ok (fail_if (ltb 255 (length host)) domain_too_long)
            (λ _. checked net (record { atyp = atyp_domain; host = host; ip = []; port = port }))
            (rw (e, from_host) at h) in
        checked-valid (record { atyp = atyp_domain; host = host; ip = []; port = port }) a h'
    | inr (ip, e) ↦
        let (v, p) = checked-valid (from_ip ip port) a (rw (e, from_host) at h) in
        (v, rw (from_ip-port ip port) at p)
  ]

  -- An address that `ParseAddress` makes of a text passes `Validate` and has a 16-bit port, so
  -- that its wire form can be read back.
  pub parse_address_sound :
      (tx : Text) (hostport : List ℕ) (a : Address)
      → parse_address tx hostport ≡ ok a
      → (validate net a ≡ true) × (a.port < 2 ^ 16)
  unfolding parse_address
  parse_address_sound tx hostport a h = elim (Option-cases (tx.split_host_port hostport)) [
    | inl e ↦ absurd (cc (rw (e, parse_address) at h))
    | inr ((host, port_text), e) ↦ elim (Option-cases (tx.parse_uint16 port_text)) [
      | inl f ↦ absurd (cc (rw (e, f, parse_address) at h))
      | inr (port, f) ↦
          let (v, p) = from_host-valid host port a (rw (e, f, parse_address) at h) in
          (v, rw p (tx.parse_uint16-bound port_text port f))
    ]
  ]
