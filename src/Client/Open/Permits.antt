-- ===== src/Client/Open/Permits.antt =====
-- What a call of `OpenTCP` keeps, and what it gives back.
use wanopt_proxy.Common.{
  ℕ, ◌+◌, ◌≡◌, refl, ap, ◌∙◌, Bool, true, false, not, ◌&&◌, Option, none, some, ltb, ◌==◌, ◌%◌, ◌/◌,
  if◌then◌else◌, Bool-cases, Option-cases, Result-cases, arith, inl, inr, Error, Result, ok, err,
  no_capacity, >>=-eq-ok, >>-eq-ok, ◌>>=◌, ◌>>◌, or_error,
}
use wanopt_proxy.Net.{is_some}
use wanopt_proxy.Admission.{Budget, try_acquire, release, receive}
use wanopt_proxy.Admission.Leases.{IsHeld, IsHeld-none, try_acquire-IsHeld, receive-suc}
use wanopt_proxy.Protocol.Address.{Address}
use wanopt_proxy.Client.{want_codec, open_request, accept_reply, check_status, check_flags}
use wanopt_proxy.Client.Open.{
  Network, Pool, Opened, handshake, abort, open_tunnel_stream, take_codec, exchange, give_back,
  fail, hand_off, negotiate, connect, leave, open_tcp,
}

-- The permits after a call. A failed call has given back all it took, and aborted the request
-- stream that it opened, if any; a call that gives a stream keeps a lease for it, a codec lease
-- exactly if the stream is compressed, and its request stream.
pub record IsFailed (p p' : Pool) : Type 0 where
  pub active : p'.active.slots ≡ p.active.slots
  pub codecs : p'.codecs.slots ≡ p.codecs.slots
  pub pending : p'.pending ≡ p.pending
  pub streams : p'.opened + p.aborted ≡ p.opened + p'.aborted

pub record IsOpened (p p' : Pool) (s : Opened) : Type 0 where
  pub active : p'.active.slots ≡ p.active.slots + 1
  pub codecs : p'.codecs.slots ≡ p.codecs.slots + (if s.compressed then 1 else 0)
  pub owner : is_some s.codec ≡ s.compressed
  pub pending : p'.pending ≡ p.pending
  pub streams : p'.opened + p.aborted ≡ p.opened + p'.aborted + 1

abbrev pub IsSettled : Pool → Pool → Result Opened → Type 0
IsSettled p p' (err e) = IsFailed p p'
IsSettled p p' (ok s) = IsOpened p p' s

abbrev pub Settles : Pool → Option (Pool × Result Opened) → Type 0
Settles p answer = (p' : Pool) × (r : Result Opened) × (answer ≡ some (p', r)) × IsSettled p p' r

want_codec-IsHeld :
    (wanted enabled : Bool) (b : Budget)
    → IsHeld b (want_codec wanted enabled b).0 (want_codec wanted enabled b).1
unfolding want_codec
want_codec-IsHeld wanted enabled b = elim (Bool-cases (wanted && enabled)) [
  | inl t ↦ rw (t, want_codec) (try_acquire-IsHeld b)
  | inr t ↦ rw (t, want_codec) (IsHeld-none b)
]

raw_flags :
    (target : Address) (flags : ℕ)
    → check_flags (open_request target none) flags ≡ ok true
    → false ≡ true
unfolding open_request
raw_flags target flags h = elim (Bool-cases (not (flags / 2 == 0))) [
  | inl u ↦ absurd (cc (rw u at h))
  | inr u ↦ elim (Bool-cases (flags % 2 == 1)) [
    | inl t ↦ absurd (cc (rw (u, t) at h))
    | inr t ↦ absurd (cc (rw (u, t) at h))
  ]
]

-- The server cannot have a stream compressed that was not offered so.
exchange-codec :
    (net : Network) (target : Address) (codec : Option ℕ)
    → exchange net (open_request target codec) ≡ ok true
    → is_some codec ≡ true
unfolding exchange accept_reply open_request
exchange-codec net target (some l) h = refl
exchange-codec net target none h =
    let req = open_request target none in
    let h1 =
      >>-eq-ok (or_error (net.request_sent req)) (net.reply req >>= accept_reply req net.canceled)
        h in
    let ((status, flags), _, h2) = >>=-eq-ok (net.reply req) (accept_reply req net.canceled) h1 in
    let h3 = >>-eq-ok (check_status status) (or_error net.canceled >> check_flags req flags) h2 in
    raw_flags target flags (>>-eq-ok (or_error net.canceled) (check_flags req flags) h3)

-- A pool behind `p` in which a lease and a codec lease are held, and `n` more streams are open than
-- aborted.
record IsMid (p q : Pool) (lease codec : Option ℕ) (n : ℕ) : Type 0 where
  active : IsHeld p.active q.active lease
  codecs : IsHeld p.codecs q.codecs codec
  pending : q.pending ≡ p.pending
  streams : q.opened + p.aborted ≡ p.opened + q.aborted + n

give_back-eq :
    (q : Pool) (l : ℕ) (codec : Option ℕ) (a c : Budget)
    → release (some l) q.active ≡ some a
    → release codec q.codecs ≡ some c
    → give_back l codec q ≡ some (record q { active = a; codecs = c })
unfolding give_back
give_back-eq q l codec a c ha hc = rw (ha, hc, give_back)

fail-Settles :
    (p q : Pool) (l : ℕ) (codec : Option ℕ) (e : Error)
    → IsMid p q (some l) codec 0
    → Settles p (fail l codec e q)
fail-Settles p q l codec e m =
    let (_, (a, ha, hs)) = m.active in
    let (_, (c, hc, ht)) = m.codecs in
    (
      record q { active = a; codecs = c },
      err e,
      rw (give_back-eq q l codec a c ha hc, fail),
      record { active = hs; codecs = ht; pending = m.pending; streams = omega (arith, m.streams) },
    )

hand_off-Settles :
    (p q : Pool) (compressed : Bool) (l : ℕ) (codec : Option ℕ)
    → (compressed ≡ true → is_some codec ≡ true)
    → IsMid p q (some l) codec 1
    → Settles p (hand_off compressed l codec q)
unfolding hand_off
hand_off-Settles p q false l codec o m =
    let (_, (c, hc, ht)) = m.codecs in
    (
      record q { codecs = c },
      ok (record { compressed = false; lease = l; codec = none }),
      rw (hc, hand_off),
      record {
        active = m.active.0;
        codecs = omega (arith, ht);
        owner = refl;
        pending = m.pending;
        streams = m.streams;
      },
    )
hand_off-Settles p q true l none o m = absurd (cc (o refl))
hand_off-Settles p q true l (some k) o m = (
  q,
  ok (record { compressed = true; lease = l; codec = some k }),
  refl,
  record {
    active = m.active.0;
    codecs = m.codecs.0;
    owner = refl;
    pending = m.pending;
    streams = m.streams;
  },
)

take_codec-IsMid :
    (wanted enabled : Bool) (p q : Pool) (l n : ℕ)
    → IsMid p q (some l) none n
    → IsMid p (take_codec wanted enabled q).0 (some l) (take_codec wanted enabled q).1 n
unfolding take_codec
take_codec-IsMid wanted enabled p q l n m =
    let (slots, (c, hc, hs)) = want_codec-IsHeld wanted enabled q.codecs in
    let same = m.codecs.0 in
    record {
      active = m.active;
      codecs = (omega (arith, slots, same), (c, hc, omega (arith, hs, same)));
      pending = m.pending;
      streams = m.streams;
    }

-- The stream that the CONNECT exchange gives is open; one that it gives up is aborted.
open_tunnel_stream-IsMid :
    (net : Network) (p q : Pool) (l : ℕ)
    → IsMid p q (some l) none 0
    → IsMid p
        (open_tunnel_stream net q).0
        (some l)
        none
        (if is_some (open_tunnel_stream net q).1 then 0 else 1)
unfolding open_tunnel_stream
open_tunnel_stream-IsMid net p q l m = elim (Option-cases net.opened) [
  | inr (e, eq) ↦ rw (eq, open_tunnel_stream) m
  | inl o ↦ elim (Result-cases (handshake net)) [
    | inr (e, eq) ↦
        rw (o, eq, open_tunnel_stream)
          (record {
            active = m.active;
            codecs = m.codecs;
            pending = m.pending;
            streams = omega (arith, m.streams);
          })
    | inl (_, eq) ↦
        rw (o, eq, open_tunnel_stream)
          (record {
            active = m.active;
            codecs = m.codecs;
            pending = m.pending;
            streams = omega (arith, m.streams);
          })
  ]
]

module _ (net : Network) (target : Address) (wanted enabled : Bool) where
  negotiate-Settles :
      (p q : Pool) (l : ℕ)
      → IsMid p q (some l) none 1
      → Settles p (negotiate net target wanted enabled l q)
  unfolding negotiate
  negotiate-Settles p q l m =
      let codec = (take_codec wanted enabled q).1 in
      let q1 = (take_codec wanted enabled q).0 in
      let m1 = take_codec-IsMid wanted enabled p q l 1 m in
      elim (Result-cases (exchange net (open_request target codec))) [
        | inl (compressed, e) ↦
            rw (e, negotiate)
              (hand_off-Settles p q1 compressed l codec
                (λ t. exchange-codec net target codec (rw t at e)) m1)
        | inr (e, eq) ↦
            rw (eq, negotiate)
              (fail-Settles p (abort q1) l codec e (record {
                active = m1.active;
                codecs = m1.codecs;
                pending = m1.pending;
                streams = omega (arith, m1.streams);
              }))
      ]

  connect-Settles :
      (p q : Pool) (l : ℕ)
      → IsMid p q (some l) none 0
      → Settles p (connect net target wanted enabled l q)
  unfolding connect
  connect-Settles p q l m =
      let q1 = (open_tunnel_stream net q).0 in
      let m1 = open_tunnel_stream-IsMid net p q l m in
      elim (Option-cases net.live) [
        | inr (e, eq) ↦ rw (eq, connect) (fail-Settles p q l none e m)
        | inl live ↦ elim (Option-cases (open_tunnel_stream net q).1) [
          | inr (e, eq) ↦ rw (live, eq, connect) (fail-Settles p q1 l none e (rw eq at m1))
          | inl eq ↦ rw (live, eq, connect) (negotiate-Settles p q1 l (rw eq at m1))
        ]
      ]

-- The pool with one more place of `pending` taken.
abbrev joined : Pool → Pool
joined p = record p { pending = p.pending + 1 }

left-IsSettled :
    (p p' : Pool) (r : Result Opened)
    → IsSettled (joined p) p' r
    → (receive p'.pending ≡ some p.pending) × IsSettled p (record p' { pending = p.pending }) r
left-IsSettled p p' (err e) h = (
  ap receive h.pending ∙ receive-suc p.pending,
  record { active = h.active; codecs = h.codecs; pending = refl; streams = h.streams },
)
left-IsSettled p p' (ok s) h = (
  ap receive h.pending ∙ receive-suc p.pending,
  record {
    active = h.active;
    codecs = h.codecs;
    owner = h.owner;
    pending = refl;
    streams = h.streams;
  },
)

leave-Settles :
    (p : Pool) (answer : Option (Pool × Result Opened))
    → Settles (joined p) answer
    → Settles p (leave answer)
leave-Settles p answer (p', r, e, h) =
    let (back, settled) = left-IsSettled p p' r h in
    (record p' { pending = p.pending }, r, rw (e, back, leave), settled)

-- Whatever the network answers, `OpenTCP` does not block on its permits, and accounts for all of
-- them: when it fails it has given back its lease, its codec lease and its place among the pending
-- requests, and aborted the request stream if it opened one; when it gives a stream, that stream
-- holds one lease, and a codec lease exactly if it is compressed, and nothing else is held.
pub open_tcp-Settles :
    (net : Network) (target : Address) (wanted enabled : Bool) (p : Pool)
    → Settles p (open_tcp net target wanted enabled p)
unfolding open_tcp
open_tcp-Settles net target wanted enabled p = elim (Option-cases (try_acquire p.active).1) [
  | inl full ↦
      rw (full, open_tcp)
        (
          _,
          err no_capacity,
          refl,
          record { active = refl; codecs = refl; pending = refl; streams = refl },
        )
  | inr (l, got) ↦
      let held = rw got at (try_acquire-IsHeld p.active) in
      let m : IsMid p (record p { active = (try_acquire p.active).0 }) (some l) none 0 = record {
        active = held;
        codecs = IsHeld-none p.codecs;
        pending = refl;
        streams = omega arith;
      } in
      elim (Bool-cases (ltb p.pending p.max_pending)) [
        | inr t ↦
            rw (got, t, open_tcp)
              (fail-Settles p _ l none no_capacity (record {
                active = m.active;
                codecs = m.codecs;
                pending = m.pending;
                streams = m.streams;
              }))
        | inl t ↦
            rw (got, t, open_tcp)
              (leave-Settles p _ (
                connect-Settles net target wanted enabled (joined p) _ l (record {
                  active = m.active;
                  codecs = m.codecs;
                  pending = refl;
                  streams = m.streams;
                })))
      ]
]
