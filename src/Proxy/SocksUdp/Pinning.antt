-- ===== src/Proxy/SocksUdp/Pinning.antt =====
-- The source of a UDP association is pinned once.
use wanopt_proxy.Common.{
  ℕ, ◌≡◌, inl, inr, refl, arith, Bool, true, false, not, Option, none, some, List, [], ◌∷◌, ◌++◌,
  length, All, All-append, All-weaken, bytes_eq→eq, ltb, Bool-cases, Option-cases, Result-cases,
}
use wanopt_proxy.Net.{Net}
use wanopt_proxy.Protocol.Address.{Address}
use wanopt_proxy.Protocol.Datagram.{Datagram, max_udp_payload}
use wanopt_proxy.Proxy.SocksUdp.{
  Endpoint, State, refused, moved, pin, from_socket, from_session, parse_socks_udp, build_socks_udp,
}

-- A packet from the socket or a datagram from the session.
pub data Event : Type 0 where
  arrives : Endpoint → List ℕ → Event
  answers : Datagram → Bool → Event

module _ (ip_equal : List ℕ → List ℕ → Bool) (net : Net) where
  unfoldable pub step : Event → State → State
  unfolding from_socket from_session
  step (arrives from packet) s = from_socket ip_equal net from packet s
  step (answers dg sends) s = from_session dg sends s

  unfoldable pub run : List Event → State → State
  run [] s = s
  run (e ∷ es) s = run es (step e s)

  -- The peer's own address and, at the pinned port and zone, the pinned source.
  abbrev pub IsFromSource : State → Endpoint → Type 0
  IsFromSource s from =
      (ip_equal from.ip s.peer_ip ≡ true)
      × (src : Endpoint) × (s.source ≡ some src)
      × (from.port ≡ src.port)
      × (from.zone ≡ src.zone)

  abbrev pub IsPinned : State → Type 0
  IsPinned s =
      All (λ (f : Endpoint × Address × List ℕ). IsFromSource s f.0) s.forwarded
      × All (λ (r : Endpoint × List ℕ). s.source ≡ some r.0) s.returned

  -- The source as it is behind a packet from `from`.
  abbrev PinnedBy : Endpoint → Option Endpoint → Type 0
  PinnedBy from o =
      (src : Endpoint) × (pin o from ≡ some src) × (from.port ≡ src.port) × (from.zone ≡ src.zone)

  not_moved : (o : Option Endpoint) (from : Endpoint) → moved o from ≡ false → PinnedBy from o
  not_moved none from h = (from, refl, refl, refl)
  not_moved (some to) from h =
      (to, refl, ground arith, ground (arith, bytes_eq→eq to.zone from.zone))

  let_in :
      (from : Endpoint) (s : State)
      → refused ip_equal from s ≡ false
      → (ip_equal from.ip s.peer_ip ≡ true) × (moved s.source from ≡ false)
  unfolding refused
  let_in from s h = ground arith

  accepted : Endpoint → Address × List ℕ → State → State
  accepted from p s = record s {
    source = pin s.source from;
    forwarded = s.forwarded ++ ((from, p.0, p.1) ∷ []);
  }

  stays : (o : Option Endpoint) (from src : Endpoint) → o ≡ some src → pin o from ≡ some src
  stays none from src h = absurd (cc h)
  stays (some to) from src h = h

  accepted-IsPinned :
      (from : Endpoint) (p : Address × List ℕ) (s : State)
      → refused ip_equal from s ≡ false
      → IsPinned s
      → IsPinned (accepted from p s)
  unfolding accepted
  accepted-IsPinned from p s t h =
      let (good, still) = let_in from s t in
      let (src, e', q', z') = not_moved s.source from still in
      (
        All-append (λ (f : Endpoint × Address × List ℕ). IsFromSource (accepted from p s) f.0)
            s.forwarded ((from, p.0, p.1) ∷ [])
            (All-weaken (λ (f : Endpoint × Address × List ℕ). IsFromSource s f.0)
              (λ (f : Endpoint × Address × List ℕ). IsFromSource (accepted from p s) f.0)
              (λ f (i, src, e, q, z). (i, src, stays s.source from src e, q, z)) s.forwarded h.0)
            ((good, src, e', q', z'), tt),
        All-weaken (λ (r : Endpoint × List ℕ). s.source ≡ some r.0)
            (λ (r : Endpoint × List ℕ). pin s.source from ≡ some r.0)
            (λ r e. stays s.source from r.0 e) s.returned h.1,
      )

  arrive-IsPinned :
      (from : Endpoint) (packet : List ℕ) (s : State)
      → IsPinned s
      → IsPinned (from_socket ip_equal net from packet s)
  unfolding from_socket accepted
  arrive-IsPinned from packet s h = elim (Bool-cases (refused ip_equal from s)) [
    | inl t ↦ rw (t, from_socket) h
    | inr t ↦ elim (Result-cases (parse_socks_udp net packet)) [
      | inr (e, q) ↦ rw (t, q, from_socket) h
      | inl (p, q) ↦ rw (t, q, from_socket) (accepted-IsPinned from p s t h)
    ]
  ]

  answer-IsPinned :
      (dg : Datagram) (sends : Bool) (s : State) → IsPinned s → IsPinned (from_session dg sends s)
  unfolding from_session
  answer-IsPinned dg sends s h = elim (Option-cases s.source) [
    | inl e ↦ rw (e, from_session) h
    | inr (to, e) ↦ elim (Bool-cases (ltb max_udp_payload (length dg.payload))) [
      | inl t ↦ rw (e, t, from_session) h
      | inr t ↦ elim (Bool-cases (not sends)) [
        | inl u ↦ rw (e, t, u, from_session) h
        | inr u ↦
            rw (e, t, u, from_session)
              (
                h.0,
                All-append (λ (r : Endpoint × List ℕ). s.source ≡ some r.0) s.returned
                    ((to, build_socks_udp dg.addr dg.payload) ∷ []) h.1 (e, tt),
              )
      ]
    ]
  ]

  -- Whatever arrives in whatever order at an association for which this holds so far, as it does for
  -- a new one, whose logs are empty: every datagram that was handed to the tunnel came from the peer's
  -- address and from the one port and zone of the pinned source, and every answer went to that source.
  pub run-IsPinned : (es : List Event) (s : State) → IsPinned s → IsPinned (run es s)
  unfolding run step
  run-IsPinned [] s h = h
  run-IsPinned ((arrives from packet) ∷ es) s h =
      run-IsPinned es (from_socket ip_equal net from packet s) (arrive-IsPinned from packet s h)
  run-IsPinned ((answers dg sends) ∷ es) s h =
      run-IsPinned es (from_session dg sends s) (answer-IsPinned dg sends s h)
