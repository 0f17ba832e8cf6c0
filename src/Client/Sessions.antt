-- ===== src/Client/Sessions.antt =====
-- The UDP sessions of a client.
use wanopt_proxy.Common.{
  ℕ, ◌+◌, ◌≤◌, ◌≡◌, refl, arith, Bool, true, false, not, Option, none, some, List, [], ◌∷◌, length,
  length-append, All, All-weaken, Error, Result, ok, err, Result-cases, Bool-cases, inl, inr, ◌==◌,
  ltb, leb, if◌then◌else◌,
}
use wanopt_proxy.Net.{Net}
use wanopt_proxy.Protocol.Address.{Address, validate}
use wanopt_proxy.Protocol.Datagram.{
  Datagram, decode_datagram, encode_datagram, max_udp_payload, max_udp_datagram_size,
}
use wanopt_proxy.Client.{
  drop_if, Drop, Session, State, recv_capacity, make, without, new_session, close_session,
  shut_down, send, deliver, dispatch,
}

pub data Call : Type 0 where
  opens shuts_down : Call
  closes : ℕ → Call
  sends : ℕ → Bool → Address → List ℕ → Result (Option Error) → Call
  receives : List ℕ → Call

abbrev pub IsSession : ℕ → Session → Type 0
IsSession sequence s = (s.id ≤ sequence) × (length s.waiting ≤ recv_capacity)

-- The sessions are within the limit, their ids are ones that were given out, and what waits in
-- each is within the capacity of its channel.
abbrev pub IsBounded : State → Type 0
IsBounded s = (length s.routes ≤ s.max_sessions) × All (IsSession s.sequence) s.routes

length-without : (id : ℕ) (l : List Session) → length (without id l) ≤ length l
length-without id [] = ground arith
length-without id (s ∷ l) = ground (arith, length-without id l)

without-All : (n id : ℕ) (l : List Session) → All (IsSession n) l → All (IsSession n) (without id l)
without-All n id [] h = tt
without-All n id (s ∷ l) h = elim (Bool-cases (s.id == id)) [
  | inl t ↦ rw t (without-All n id l h.1)
  | inr t ↦ rw t (h.0, without-All n id l h.1)
]

Kept : ℕ → List Session → List Session → Type 0
Kept n l l' = (length l' ≡ length l) × All (IsSession n) l'

deliver-Kept :
    (n : ℕ) (dg : Datagram) (l : List Session) → All (IsSession n) l → Kept n l (deliver dg l).0
unfolding Kept
deliver-Kept n dg [] h = (refl, tt)
deliver-Kept n dg (s ∷ l) h =
    let (size, rest) = deliver-Kept n dg l h.1 in
    elim (Bool-cases (s.id == dg.session_id)) [
      | inr t ↦ rw t (ground (arith, size), (h.0, rest))
      | inl t ↦ elim (Bool-cases s.is_done) [
        | inl u ↦ rw (t, u) (refl, h)
        | inr u ↦ elim (Bool-cases (ltb (length s.waiting) recv_capacity)) [
          | inl v ↦
              rw (t, u, v) (refl, ((h.0.0, ground (arith, length-append s.waiting (dg ∷ []))), h.1))
          | inr v ↦ rw (t, u, v) (refl, h)
        ]
      ]
    ]

module _ (net : Net) where
  unfoldable pub step : Call → State → State
  unfolding new_session close_session shut_down send dispatch
  step opens s = (new_session s).0
  step shuts_down s = shut_down s
  step (closes id) s = close_session id s
  step (sends id is_done target payload tunnel) s = (send net id is_done target payload tunnel s).0
  step (receives bytes) s = dispatch net bytes s

  unfoldable pub run : List Call → State → State
  run [] s = s
  run (c ∷ cs) s = run cs (step c s)

  open-IsBounded : (s : State) → IsBounded s → IsBounded (new_session s).0
  unfolding new_session
  open-IsBounded s b = elim (Bool-cases s.stopped) [
    | inl t ↦ rw (t, new_session) b
    | inr t ↦ elim (Bool-cases (leb s.max_sessions (length s.routes))) [
      | inl u ↦ rw (t, u, new_session) b
      | inr u ↦
          rw (t, u, new_session)
            (
              ground arith,
              (
                (ground arith, ground arith),
                All-weaken (IsSession s.sequence) (IsSession (s.sequence + 1)) (λ x h. ground arith)
                    s.routes b.1,
              ),
            )
    ]
  ]

  drop_if-IsBounded : (d : Option Drop) (s : State) → IsBounded s → IsBounded (drop_if d s)
  drop_if-IsBounded none s b = b
  drop_if-IsBounded (some d) s b = b

  dispatch-IsBounded : (bytes : List ℕ) (s : State) → IsBounded s → IsBounded (dispatch net bytes s)
  unfolding dispatch Kept
  dispatch-IsBounded bytes s b = elim (Result-cases (decode_datagram net bytes)) [
    | inr (e, q) ↦ rw (q, dispatch) b
    | inl (dg, q) ↦
        let (size, rest) = deliver-Kept s.sequence dg s.routes b.1 in
        rw (q, dispatch)
          (drop_if-IsBounded (deliver dg s.routes).1 (record s { routes = (deliver dg s.routes).0 })
            (ground (arith, size), rest))
  ]

  either :
      (x y : State × Option Error) (t : Bool)
      → IsBounded x.0
      → IsBounded y.0
      → IsBounded (if t then x else y).0
  either x y true hx hy = hx
  either x y false hx hy = hy

  send-IsBounded :
      (id : ℕ) (is_done : Bool) (target : Address) (payload : List ℕ)
      (tunnel : Result (Option Error)) (s : State)
      → IsBounded s
      → IsBounded (send net id is_done target payload tunnel s).0
  unfolding send
  send-IsBounded id is_done target payload (err e) s b = either _ _ (not (validate net target)) b (
      either _ _ (target.port == 0) b
        (either _ _ is_done b (either _ _ (ltb max_udp_payload (length payload)) b b)))
  send-IsBounded id is_done target payload (ok none) s b =
      either _ _ (not (validate net target)) b (
        either _ _ (target.port == 0) b (
          either _ _ is_done b (
            either _ _ (ltb max_udp_payload (length payload)) b (
              either _ _ (ltb max_udp_datagram_size (length (encode_datagram id target payload))) b
                b))))
  send-IsBounded id is_done target payload (ok (some e)) s b =
      either _ _ (not (validate net target)) b (
        either _ _ (target.port == 0) b (
          either _ _ is_done b (
            either _ _ (ltb max_udp_payload (length payload)) b (
              either _ _ (ltb max_udp_datagram_size (length (encode_datagram id target payload))) b
                b))))

  start-IsBounded : (limit : ℕ) → IsBounded (make limit)
  unfolding make
  start-IsBounded limit = (ground arith, tt)

  Step-IsBounded : (c : Call) (s : State) → IsBounded s → IsBounded (step c s)
  unfolding step close_session shut_down
  Step-IsBounded opens s b = open-IsBounded s b
  Step-IsBounded shuts_down s b = (ground arith, tt)
  Step-IsBounded (closes id) s b =
      (ground (arith, length-without id s.routes), without-All s.sequence id s.routes b.1)
  Step-IsBounded (sends id is_done target payload tunnel) s b =
      send-IsBounded id is_done target payload tunnel s b
  Step-IsBounded (receives bytes) s b = dispatch-IsBounded bytes s b

  from-IsBounded : (cs : List Call) (s : State) → IsBounded s → IsBounded (run cs s)
  unfolding run
  from-IsBounded [] s b = b
  from-IsBounded (c ∷ cs) s b = from-IsBounded cs (step c s) (Step-IsBounded c s b)

  -- After any sequence of calls on a new client the sessions are at most `MaxUDPSessions`, each has
  -- an id that the counter has given out, and at most 32 datagrams wait in it.
  pub run-IsBounded : (cs : List Call) (limit : ℕ) → IsBounded (run cs (make limit))
  run-IsBounded cs limit = from-IsBounded cs (make limit) (start-IsBounded limit)
