-- ===== src/Protocol/Address/Agree.antt =====
-- The two parsers of an address, on a stream and on a buffer.
use wanopt_proxy.Common.{
  ℕ, suc, ◌+◌, ◌≤◌, ◌<◌, ◌≡◌, refl, ap, sym, ◌∙◌, arith, false, Option, none, some, List, [], ◌∷◌,
  length, take, drop, length-drop, drop-drop, ltb, Bool-cases, inl, inr, Result, ok, err, IoError,
  Reader, read_full, ◌>>=◌, ltb→lt, ltb_false→le, le→ltb_false, read_full_enough, read_full_short,
}
use wanopt_proxy.Net.{Net}
use wanopt_proxy.Protocol.Address.{
  Address, read_port, read_ip, read_domain, read_address, decode_port, decode_ip, decode_domain,
  decode_address, atyp_domain, atyp_ipv4, atyp_ipv6, blank, checked, be16_value, read_body,
  decode_body,
}

abbrev pub after_read : Result (Address × Reader) → Option (Address × List ℕ)
after_read (ok (a, r)) = some (a, r.bytes)
after_read (err e) = none

abbrev pub after_decode : List ℕ → Result (Address × ℕ) → Option (Address × List ℕ)
after_decode buf (ok (a, n)) = some (a, drop n buf)
after_decode buf (err e) = none

module _ (net : Net) (e : IoError) where
  abbrev stream : List ℕ → Reader
  stream l = record { bytes = l; ending = e }

  port-agree :
      (a : Address) (buf rest : List ℕ) (off : ℕ)
      → drop off buf ≡ rest
      → off + 2 ≤ length buf
      → after_decode buf (decode_port net a buf off) ≡ after_read (read_port net a (stream rest))
  unfolding decode_port read_port
  port-agree a buf rest off eq h =
      rw
        (
          ← eq,
          read_full_enough 2 (drop off buf) e (omega (arith, length-drop off buf)),
          drop-drop off 2 buf,
        )
        (checked_cases (checked net (record a { port = be16_value (take 2 (drop off buf)) })))
    where
      checked_cases :
          (c : Result Address)
          → after_decode buf (c >>= λ addr. ok (addr, off + 2))
            ≡ after_read
                (c >>= λ addr. ok (addr, record { bytes = drop (off + 2) buf; ending = e }))
      checked_cases (ok x) = refl
      checked_cases (err x) = refl

  port_short :
      (a : Address) (l : List ℕ) → length l < 2 → after_read (read_port net a (stream l)) ≡ none
  unfolding read_port
  port_short a l h = rw (read_full_short 2 l e h)

  -- A body of `size` bytes, then the port.
  abbrev read_then : (List ℕ → Address) → ℕ → List ℕ → Result (Address × Reader)
  read_then mk size l = read_full size (stream l) >>= λ p. read_port net (mk p.0) p.1

  then_short :
      (mk : List ℕ → Address) (size : ℕ) (l : List ℕ)
      → length l < size + 2
      → after_read (read_then mk size l) ≡ none
  then_short mk size l h = elim (Bool-cases (ltb (length l) size)) [
    | inl lt ↦ rw (read_full_short size l e (ltb→lt _ _ lt))
    | inr ge ↦ rw (read_full_enough size l e (ltb_false→le _ _ ge)) (
        port_short (mk (take size l)) (drop size l)
          (omega (arith, length-drop size l, ltb_false→le _ _ ge)))
  ]

  then-agree :
      (mk : List ℕ → Address) (size off : ℕ) (buf l : List ℕ)
      → drop off buf ≡ l
      → length buf ≡ off + length l
      → size + 2 ≤ length l
      → after_decode buf (decode_port net (mk (take size l)) buf (off + size))
        ≡ after_read (read_then mk size l)
  then-agree mk size off buf l eq len h = rw (read_full_enough size l e (omega arith)) (
      port-agree (mk (take size l)) buf (drop size l) (off + size)
        (sym (drop-drop off size buf) ∙ ap (drop size) eq) (omega arith))

  ip-agree :
      (atyp size b : ℕ) (l : List ℕ)
      → after_decode (b ∷ l) (decode_ip net atyp size (b ∷ l))
        ≡ after_read (read_ip net atyp size (stream l))
  unfolding decode_ip read_ip
  ip-agree atyp size b l = elim (Bool-cases (ltb (length (b ∷ l)) (1 + size + 2))) [
    | inl short ↦ rw short (
        sym (
          then_short (λ ip. record (blank net atyp) { ip = ip }) size l
            (omega (arith, ltb→lt _ _ short))))
    | inr enough ↦ rw enough (
        then-agree (λ ip. record (blank net atyp) { ip = ip }) size 1 (b ∷ l) l refl (omega arith)
          (omega (arith, ltb_false→le _ _ enough)))
  ]

  domain-agree :
      (b : ℕ) (l : List ℕ)
      → after_decode (b ∷ l) (decode_domain net (b ∷ l)) ≡ after_read (read_domain net (stream l))
  unfolding decode_domain read_domain
  domain-agree b [] = rw (read_full_short 1 [] e (omega arith))
  domain-agree b (d ∷ l) =
      rw
        (
          read_full_enough 1 (d ∷ l) e (omega arith),
          le→ltb_false (length (b ∷ d ∷ l)) 2 (omega arith),
        )
        (elim (Bool-cases (ltb (length (b ∷ d ∷ l)) (2 + d + 2))) [
          | inl short ↦ rw short (
              sym (
                then_short (λ h. record (blank net atyp_domain) { host = h }) d l
                  (omega (arith, ltb→lt _ _ short))))
          | inr enough ↦ rw enough (
              then-agree (λ h. record (blank net atyp_domain) { host = h }) d 2 (b ∷ d ∷ l) l refl
                (omega arith) (omega (arith, ltb_false→le _ _ enough)))
        ])

  body-agree :
      (b : ℕ) (l : List ℕ)
      → after_decode (b ∷ l) (decode_body net b (b ∷ l)) ≡ after_read (read_body net b (stream l))
  body-agree b l =
      ground (arith, ip-agree atyp_ipv4 4 b l, ip-agree atyp_ipv6 16 b l, domain-agree b l)

  -- On every buffer the two parsers give the same address and leave the same bytes, or both fail:
  -- `decodeAddress` on the buffer, and `ReadAddress` on a stream of the same bytes however it ends.
  pub decode_address-read_address :
      (buf : List ℕ)
      → after_decode buf (decode_address net buf) ≡ after_read (read_address net (stream buf))
  unfolding decode_address read_address
  decode_address-read_address [] = rw (read_full_short 1 [] e (omega arith))
  decode_address-read_address (b ∷ l) =
      rw (read_full_enough 1 (b ∷ l) e (omega arith), lt_one (length l)) (body-agree b l)
    where
      lt_one : (n : ℕ) → ltb (suc n) 1 ≡ false
      lt_one n = ground arith
