-- ===== src/Protocol/Address/Sound.antt =====
-- What the parsers of an address let through.
use wanopt_proxy.Common.{
  ℕ, ◌+◌, ◌≤◌, ◌≡◌, arith, true, List, length, get_or, take, drop, ltb, ◌==◌, ok, Bool-cases, inl,
  inr,
}
use wanopt_proxy.Net.{Net}
use wanopt_proxy.Protocol.Address.{
  Address, validate, checked, decode_port, decode_ip, decode_domain, decode_body, decode_address,
  atyp_ipv4, atyp_ipv6, atyp_domain, blank,
}

module _ (net : Net) where
  checked_ok : (a : Address) {b : Address} → checked net a ≡ ok b → (validate net b ≡ true)
  checked_ok a h = ground arith

  decode_port_ok :
      (a : Address) (buf : List ℕ) (off : ℕ) {b : Address} {n : ℕ}
      → decode_port net a buf off ≡ ok (b, n)
      → (validate net b ≡ true) × (n ≡ off + 2)
  unfolding decode_port
  decode_port_ok a buf off h = ground arith

  decode_ip_ok :
      (t size : ℕ) (buf : List ℕ) {b : Address} {n : ℕ}
      → decode_ip net t size buf ≡ ok (b, n)
      → (validate net b ≡ true) × (n ≤ length buf)
  unfolding decode_ip
  decode_ip_ok t size buf h =
      ground (
        arith,
        decode_port_ok (record (blank net t) { ip = take size (drop 1 buf) }) buf (1 + size),
      )

  decode_domain_ok :
      (buf : List ℕ) {b : Address} {n : ℕ}
      → decode_domain net buf ≡ ok (b, n)
      → (validate net b ≡ true) × (n ≤ length buf)
  unfolding decode_domain
  decode_domain_ok buf h = ground (
    arith,
    decode_port_ok (record (blank net 3) { host = take (get_or buf 1 0) (drop 2 buf) }) buf
        (2 + get_or buf 1 0),
  )

  decode_body_ok :
      (t : ℕ) (buf : List ℕ) {b : Address} {n : ℕ}
      → decode_body net t buf ≡ ok (b, n)
      → (validate net b ≡ true) × (n ≤ length buf)
  decode_body_ok t buf h = elim (Bool-cases (t == atyp_ipv4)) [
    | inl e ↦ decode_ip_ok 1 4 buf (rw e at h)
    | inr n4 ↦ elim (Bool-cases (t == atyp_ipv6)) [
      | inl e ↦ decode_ip_ok 4 16 buf (rw (n4, e) at h)
      | inr n6 ↦ elim (Bool-cases (t == atyp_domain)) [
        | inl e ↦ decode_domain_ok buf (rw (n4, n6, e) at h)
        | inr nd ↦ absurd (cc (rw (n4, n6, nd) at h))
      ]
    ]
  ]

  -- `decodeAddress` returns valid addresses only, and never uses more than the buffer holds.
  pub decode_address_ok :
      (buf : List ℕ) {b : Address} {n : ℕ}
      → decode_address net buf ≡ ok (b, n)
      → (validate net b ≡ true) × (n ≤ length buf)
  unfolding decode_address
  decode_address_ok buf h = elim (Bool-cases (ltb (length buf) 1)) [
    | inl short ↦ absurd (cc (rw short at h))
    | inr long ↦ decode_body_ok (get_or buf 0 0) buf (rw long at h)
  ]
