-- ===== src/Protocol/Datagram/Bounds.antt =====
-- The size of an envelope, and what every decoded datagram satisfies.
use wanopt_proxy.Common.{
  ℕ, ◌+◌, ◌-◌, ◌≤◌, ◌≡◌, arith, true, false, not, ◌||◌, Option, none, some, List, [], ◌∷◌, length,
  length-append, get_or, drop, length-drop, ok, err, Result, fail_if, ◌>>=◌, ◌>>◌, ltb,
  payload_too_large, Bool-cases, inl, inr, refl, ◌==◌,
}
use wanopt_proxy.Net.{Net}
use wanopt_proxy.Protocol.Address.{Address, validate, encode, decode_address}
use wanopt_proxy.Protocol.Address.Bounds.{length-encode, encode-append}
use wanopt_proxy.Protocol.Address.Sound.{decode_address_ok}
use wanopt_proxy.Protocol.Varint.{append_uvarint, uvarint, length-append_uvarint}
use wanopt_proxy.Protocol.Datagram.{
  Datagram, or_bad_session, encode_datagram, decode_datagram, max_udp_payload,
  max_udp_datagram_size,
}

-- A payload within the limit, under any session id and a valid address, makes a datagram that the
-- size checks of the sender and of the receiver let pass.
pub length-encode_datagram :
    (net : Net) (sid : ℕ) (addr : Address) (payload : List ℕ)
    → validate net addr ≡ true
    → length payload ≤ max_udp_payload
    → length (encode_datagram sid addr payload) ≤ max_udp_datagram_size
unfolding encode_datagram
length-encode_datagram net sid addr payload v h =
    rw
      (
        length-append (encode addr (append_uvarint (2 ∷ []) sid)) payload,
        encode-append addr (append_uvarint (2 ∷ []) sid),
        length-append (append_uvarint (2 ∷ []) sid) (encode addr []),
      )
      (omega (arith, length-append_uvarint (2 ∷ []) sid, length-encode net addr v))

module _ (net : Net) (buf : List ℕ) (dg : Datagram) where
  -- What the last two steps of `DecodeDatagram` ensure of their result.
  abbrev Tail : Type 0
  Tail =
      (validate net dg.addr ≡ true)
      × (length dg.payload ≤ max_udp_payload)
      × ((n : ℕ) × (dg.payload ≡ drop n buf))

  size_step :
      (sid off : ℕ) (a : Address)
      → validate net a ≡ true
      → (fail_if (ltb max_udp_payload (length buf - off)) payload_too_large
          >> ok (record { session_id = sid; addr = a; payload = drop off buf }))
        ≡ ok dg
      → Tail
  size_step sid off a v h = (ground arith, ground (arith, length-drop off buf), (off, ground arith))

  address_step :
      (sid off : ℕ)
      → (decode_address net (drop off buf) >>= λ p.
          fail_if (ltb max_udp_payload (length buf - (off + p.1))) payload_too_large
          >> ok (record { session_id = sid; addr = p.0; payload = drop (off + p.1) buf }))
        ≡ ok dg
      → Tail
  address_step sid off = go (decode_address net (drop off buf)) refl
    where
      go :
          (d : Result (Address × ℕ))
          → decode_address net (drop off buf) ≡ d
          → (d >>= λ p.
              fail_if (ltb max_udp_payload (length buf - (off + p.1))) payload_too_large
              >> ok (record { session_id = sid; addr = p.0; payload = drop (off + p.1) buf }))
            ≡ ok dg
          → Tail
      go (ok (a, used)) e h =
          size_step sid (off + used) a (decode_address_ok net (drop off buf) e).0 h
      go (err x) e h = absurd (cc h)

  -- A decoded datagram is small and has a valid address: its payload is within the limit and is the
  -- end of the buffer, which is itself within the limit for datagrams.
  pub decode_datagram_sound :
      decode_datagram net buf ≡ ok dg
      → (length buf ≤ max_udp_datagram_size)
        × (validate net dg.addr ≡ true)
        × (length dg.payload ≤ max_udp_payload)
        × ((n : ℕ) × (dg.payload ≡ drop n buf))
  unfolding decode_datagram
  decode_datagram_sound h =
      elim (Bool-cases (
        ltb (length buf) 2
        || ltb max_udp_datagram_size (length buf)
        || not (get_or buf 0 0 == 2))) [
          | inl bad ↦ absurd (cc (rw bad at h))
          | inr good ↦
              let (v, s, w) = go (uvarint (drop 1 buf)) (rw good at h) in (small good, v, s, w)
        ]
    where
      small :
          (ltb (length buf) 2
              || ltb max_udp_datagram_size (length buf)
              || not (get_or buf 0 0 == 2))
            ≡ false
          → length buf ≤ max_udp_datagram_size
      small g = ground arith

      go :
          (u : Option (ℕ × ℕ))
          → (or_bad_session u >>= λ p. decode_address net (drop (1 + p.1) buf) >>= λ q.
              fail_if (ltb max_udp_payload (length buf - (1 + p.1 + q.1))) payload_too_large
              >> ok (record { session_id = p.0; addr = q.0; payload = drop (1 + p.1 + q.1) buf }))
            ≡ ok dg
          → Tail
      go none h' = absurd (cc h')
      go (some (sid, n)) h' = address_step sid (1 + n) h'
