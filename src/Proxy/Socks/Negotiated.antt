-- ===== src/Proxy/Socks/Negotiated.antt =====
-- What a connection has been through before it is relayed.
use wanopt_proxy.Common.{
  ℕ, ◌≡◌, ◌≢◌, refl, ap, ◌∙◌, arith, false, Option, none, some, IoError, ok, Reader, Sink, ◌==◌,
  ==→eq, Bool-cases, Option-cases, Result-cases, inl, inr,
}
use mathlib.Core.Path.{ap₂}
use wanopt_proxy.Net.{Net}
use wanopt_proxy.Protocol.Address.{Address}
use wanopt_proxy.Proxy.Socks.{
  cmd_connect, cmd_udp_associate, socks_handshake, read_socks_request, DialFailure, relays,
  socks_connect, dispatch, handle_socks, refuse, relay_if, write_socks_reply, rep_success, zero_ip,
}

relay_if-relays :
    (e : Option IoError) (addr a : Address) → relay_if e addr ≡ relays a → (e ≡ none) × (addr ≡ a)
unfolding relay_if
relay_if-relays none addr a h = (refl, cc)
relay_if-relays (some e) addr a h = absurd (cc h)

filled : (addr : Address) → (addr.port == 0) ≡ false → addr.port ≢ 0
filled addr u z = ground arith

module _ (dial : Address → Option DialFailure) where
  connect-relays :
      (addr a : Address) (w : Sink)
      → (socks_connect dial addr w).1 ≡ relays a
      → (addr ≡ a) × (dial addr ≡ none) × ((write_socks_reply rep_success zero_ip 0 w).0 ≡ none)
  unfolding socks_connect
  connect-relays addr a w h = elim (Option-cases (dial addr)) [
    | inr (e, t) ↦ absurd (cc (rw (t, socks_connect) at h))
    | inl t ↦
        let (written, same) =
          relay_if-relays (write_socks_reply rep_success zero_ip 0 w).0 addr a
            (rw (t, socks_connect) at h) in
        (same, t, written)
  ]

  dispatch-relays :
      (cmd : ℕ) (addr a : Address) (w : Sink)
      → (dispatch dial cmd addr w).1 ≡ relays a
      → (cmd ≡ cmd_connect)
        × (addr ≡ a)
        × (a.port ≢ 0)
        × (dial a ≡ none)
        × ((write_socks_reply rep_success zero_ip 0 w).0 ≡ none)
  unfolding dispatch refuse
  dispatch-relays cmd addr a w h = elim (Bool-cases (cmd == cmd_connect)) [
    | inl t ↦ elim (Bool-cases (addr.port == 0)) [
      | inl u ↦ absurd (cc (rw (t, u, dispatch, refuse) at h))
      | inr u ↦
          let (same, dialed, written) = connect-relays addr a w (rw (t, u, dispatch) at h) in
          (==→eq cmd cmd_connect t, same, rw (← same) (filled addr u), rw (← same) dialed, written)
    ]
    | inr t ↦ elim (Bool-cases (cmd == cmd_udp_associate)) [
      | inl u ↦ absurd (cc (rw (t, u, dispatch) at h))
      | inr u ↦ absurd (cc (rw (t, u, dispatch, refuse) at h))
    ]
  ]

  -- A connection is relayed to an address only behind a handshake that succeeded and a CONNECT
  -- request for that address with a port that is not 0, once the tunnel has dialed it and the reply
  -- of success is written.
  pub handle_socks_sound :
      (net : Net) (r : Reader) (w : Sink) (a : Address)
      → (handle_socks net dial r w).1 ≡ relays a
      → (a.port ≢ 0)
        × (dial a ≡ none)
        × ((write_socks_reply rep_success zero_ip 0 (socks_handshake r w).1).0 ≡ none)
        × (r1 : Reader) × (r2 : Reader) × ((socks_handshake r w).0 ≡ ok r1)
        × (read_socks_request net r1 ≡ ok (cmd_connect, a, r2))
  unfolding handle_socks refuse
  handle_socks_sound net r w a h = elim (Result-cases (socks_handshake r w).0) [
    | inr (e, q) ↦ absurd (cc (rw (q, handle_socks) at h))
    | inl (r1, q) ↦ elim (Result-cases (read_socks_request net r1)) [
      | inr (e, p) ↦ absurd (cc (rw (q, p, handle_socks, refuse) at h))
      | inl ((cmd, addr, r2), p) ↦
          let (is_connect, same, port, dialed, written) =
            dispatch-relays cmd addr a (socks_handshake r w).1 (rw (q, p, handle_socks) at h) in
          (
            port,
            dialed,
            written,
            r1,
            r2,
            q,
            p ∙ ap (λ (t : ℕ × Address). ok (t.0, t.1, r2)) (ap₂ (λ x y. (x, y)) is_connect same),
          )
    ]
  ]
