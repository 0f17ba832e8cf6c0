-- ===== src/Client/Run/Connections.antt =====
-- The connections of `Run`.
use wanopt_proxy.Common.{
  ℕ, ◌+◌, ◌/◌, ◌≡◌, ◌≤◌, ◌<◌, ◌%◌, refl, arith, Bool, true, false, Option, none, some, List, [],
  ◌∷◌, ◌++◌, All, any, All-append, Bool-cases, Option-cases, Result-cases, inl, inr, if◌then◌else◌,
  ==_refl, Error,
}
use native.Mathlib.Nat.{mod-lt}
use wanopt_proxy.Client.Run.{
  Tunnel, Dial, Round, Passed, dial_auth, authenticate, set_conn, clear_conn, close_conn, pause,
  serve, round, rounds, stop, run, make, initial_backoff, max_backoff, pass, int64n,
}

abbrev pub IsWait : ℕ → Type 0
IsWait w = (initial_backoff / 2 ≤ w) × (w ≤ max_backoff)

-- The backoff and the waits are bounded.
record IsPaced (t : Tunnel) : Type 0 where
  low : initial_backoff ≤ t.backoff
  high : t.backoff ≤ max_backoff
  waited : All IsWait t.waits

-- No connection is open.
pub record IsIdle (t : Tunnel) : Type 0 where
  pub unset : t.live ≡ none
  pub balanced : t.opened ≡ t.closed
  pub untracked : t.tracked ≡ 0

-- At most one connection is open, and the one that is handed out is the open one.
pub record IsSingle (t : Tunnel) : Type 0 where
  pub low : t.closed ≤ t.opened
  pub high : t.opened ≤ t.closed + 1
  pub tracked : t.tracked ≤ 1
  pub current : (n : ℕ) → t.live ≡ some n → (n ≡ t.opened) × (t.opened ≡ t.closed + 1)

IsSingle-unset :
    (t : Tunnel)
    → t.live ≡ none
    → t.closed ≤ t.opened
    → t.opened ≤ t.closed + 1
    → t.tracked ≤ 1
    → IsSingle t
IsSingle-unset t u low high tracked = record {
  low = low;
  high = high;
  tracked = tracked;
  current = λ n e. absurd (cc (u, e));
}

IsIdle-IsSingle : (t : Tunnel) → IsIdle t → IsSingle t
IsIdle-IsSingle t h =
    IsSingle-unset t h.unset (omega (arith, h.balanced)) (omega (arith, h.balanced))
      (omega (arith, h.untracked))

-- A round from an idle tunnel ends with one.
record IsRound (p : Passed) : Type 0 where
  single : All IsSingle p.moments
  idle : IsIdle p.last
  paced : IsPaced p.last

pause-IsIdle : (r : Round) (t : Tunnel) → IsIdle t → IsIdle (pause r t).0
unfolding pause
pause-IsIdle r t h = elim (Bool-cases r.done_waiting) [
  | inl e ↦
      rw (e, pause) (record { unset = h.unset; balanced = h.balanced; untracked = h.untracked })
  | inr e ↦
      rw (e, pause) (record { unset = h.unset; balanced = h.balanced; untracked = h.untracked })
]

pause-IsWait :
    (t : Tunnel) → IsPaced t → (n : ℕ) → IsWait (t.backoff / 2 + int64n (t.backoff / 2 + 1) n)
pause-IsWait t h n =
    let draw : n % (t.backoff / 2 + 1) < t.backoff / 2 + 1 = mod-lt n (omega arith) in
    (omega (arith, h.low), omega (arith, h.high, draw))

pause-IsPaced : (r : Round) (t : Tunnel) → IsPaced t → IsPaced (pause r t).0
unfolding pause
pause-IsPaced r t h =
    let waited : All IsWait
        (t.waits ++ ((t.backoff / 2 + int64n (t.backoff / 2 + 1) r.random) ∷ [])) =
      All-append IsWait t.waits _ h.waited (pause-IsWait t h r.random, tt) in
    elim (Bool-cases r.done_waiting) [
      | inl e ↦ rw (e, pause) (record { low = h.low; high = h.high; waited = waited })
      | inr e ↦
          rw (e, pause) (record { low = omega (arith, h.low); high = omega arith; waited = waited })
    ]

end-IsRound :
    (l : List Tunnel) (done : Bool) (r : Round) (t : Tunnel)
    → All IsSingle l
    → IsIdle t
    → IsPaced t
    → IsRound (pass l (if done then (t, true) else pause r t))
end-IsRound l true r t hl hi hp = record {
  single = (IsIdle-IsSingle t hi, hl);
  idle = hi;
  paced = hp;
}
end-IsRound l false r t hl hi hp = record {
  single = (IsIdle-IsSingle (pause r t).0 (pause-IsIdle r t hi), hl);
  idle = pause-IsIdle r t hi;
  paced = pause-IsPaced r t hp;
}

-- A connection is open that was not handed out yet.
record IsReady (t : Tunnel) : Type 0 where
  unset : t.live ≡ none
  balanced : t.opened ≡ t.closed + 1
  untracked : t.tracked ≡ 0

abbrev IsDialed : Option Error → Tunnel → Type 0
IsDialed (some e) t = IsIdle t
IsDialed none t = IsReady t

dial_auth-IsDialed :
    (d : Dial) (t : Tunnel) → IsIdle t → IsDialed (dial_auth d t).1 (dial_auth d t).0
unfolding dial_auth
dial_auth-IsDialed d t h = elim (Option-cases d.dialed) [
  | inr (e, q) ↦ rw (q, dial_auth) h
  | inl q ↦ elim (Result-cases (authenticate d)) [
    | inr (e, a) ↦
        rw (q, a, dial_auth)
          (record {
            unset = h.unset;
            balanced = omega (arith, h.balanced);
            untracked = h.untracked;
          })
    | inl (_, a) ↦
        rw (q, a, dial_auth)
          (record {
            unset = h.unset;
            balanced = omega (arith, h.balanced);
            untracked = h.untracked;
          })
  ]
]

dial_auth-IsPaced : (d : Dial) (t : Tunnel) → IsPaced t → IsPaced (dial_auth d t).0
unfolding dial_auth
dial_auth-IsPaced d t h = elim (Option-cases d.dialed) [
  | inr (e, q) ↦ rw (q, dial_auth) h
  | inl q ↦ elim (Result-cases (authenticate d)) [
    | inr (e, a) ↦ rw (q, a, dial_auth) (record { low = h.low; high = h.high; waited = h.waited })
    | inl (_, a) ↦ rw (q, a, dial_auth) (record { low = h.low; high = h.high; waited = h.waited })
  ]
]

serve-IsRound : (r : Round) (t : Tunnel) → IsReady t → IsPaced t → IsRound (serve r t)
unfolding serve set_conn clear_conn close_conn
serve-IsRound r t h hp =
    let b = h.balanced in
    let u = h.untracked in
    rw (==_refl t.opened, serve, clear_conn)
      (end-IsRound _ r.done_after r _
        (
          IsSingle-unset _ refl (omega (arith, b)) (omega (arith, b)) (omega (arith, u)),
          (
            IsSingle-unset _ refl (omega (arith, b)) (omega (arith, b)) (omega (arith, u)),
            (
              record {
                low = omega (arith, b);
                high = omega (arith, b);
                tracked = omega (arith, u);
                current = λ n e. (cc e, b);
              },
              tt,
            ),
          ),
        )
        (record { unset = refl; balanced = b; untracked = omega (arith, u) })
        (record { low = omega arith; high = omega arith; waited = hp.waited }))

round-IsRound : (r : Round) (t : Tunnel) → IsIdle t → IsPaced t → IsRound (round r t)
unfolding round
round-IsRound r t hi hp =
    let d = dial_auth-IsDialed r.dial t hi in
    let p = dial_auth-IsPaced r.dial t hp in
    let t1 = (dial_auth r.dial t).0 in
    elim (Bool-cases r.done_before) [
      | inl e ↦
          rw (e, round) (record { single = (IsIdle-IsSingle t hi, tt); idle = hi; paced = hp })
      | inr e ↦ elim (Option-cases (dial_auth r.dial t).1) [
        | inr (f, q) ↦
            rw (e, q, round)
              (end-IsRound (t1 ∷ []) r.done_after r t1 (IsIdle-IsSingle t1 (rw q at d), tt)
                (rw q at d) p)
        | inl q ↦ rw (e, q, round) (serve-IsRound r t1 (rw q at d) p)
      ]
    ]

rounds-IsRound : (rs : List Round) (t : Tunnel) → IsIdle t → IsPaced t → IsRound (rounds rs t)
unfolding rounds
rounds-IsRound [] t hi hp = record { single = (IsIdle-IsSingle t hi, tt); idle = hi; paced = hp }
rounds-IsRound (r ∷ rs) t hi hp =
    let p = round-IsRound r t hi hp in
    let rest = rounds-IsRound rs (round r t).last p.idle p.paced in
    elim (Bool-cases (round r t).returned) [
      | inl e ↦ rw (e, rounds) p
      | inr e ↦
          rw (e, rounds)
            (record {
              single =
                  All-append IsSingle (rounds rs (round r t).last).moments (round r t).moments
                    rest.single p.single;
              idle = rest.idle;
              paced = rest.paced;
            })
    ]

rounds-returned :
    (rs : List Round) (t : Tunnel)
    → any (λ r. r.done_before) rs ≡ true
    → (rounds rs t).returned ≡ true
unfolding rounds round
rounds-returned [] t h = absurd (cc h)
rounds-returned (r ∷ rs) t h = elim (Bool-cases (round r t).returned) [
  | inl e ↦ rw (e, rounds) e
  | inr e ↦ elim (Bool-cases r.done_before) [
    | inl d ↦ absurd (cc (rw (d, round) at e))
    | inr d ↦ rw (e, rounds) (rounds-returned rs (round r t).last (rw d at h))
  ]
]

-- The client is stopped, no connection is open or handed out, and the UDP sessions are gone.
pub record IsStopped (t : Tunnel) : Type 0 where
  pub stopped : t.stopped ≡ true
  pub idle : IsIdle t
  pub routes : t.routes ≡ []

-- `Run` on a new client, whatever the network, the clock and the random numbers give in its rounds:
-- at every moment at most one connection is open and tracked, and the one that is handed out is
-- the open one; every wait is at least 250 ms and at most 30 s; and when `Run` returns, the client
-- is stopped, every connection it opened is closed, and no UDP session is left. It has returned once
-- a round has found the context done at its beginning.
pub run-make_sound :
    (rs : List Round) (routes : List ℕ)
    → All IsSingle (run rs (make routes)).moments
      × All IsWait (run rs (make routes)).last.waits
      × ((run rs (make routes)).returned ≡ true → IsStopped (run rs (make routes)).last)
      × (any (λ r. r.done_before) rs ≡ true → (run rs (make routes)).returned ≡ true)
unfolding run stop
run-make_sound rs routes =
    let start = record (make routes) { running = true; backoff = initial_backoff } in
    let p =
      rounds-IsRound rs start (record { unset = refl; balanced = refl; untracked = refl })
        (record { low = omega arith; high = omega arith; waited = tt }) in
    elim (Bool-cases (rounds rs start).returned) [
      | inl e ↦
          rw (e, run)
            (
              (
                IsIdle-IsSingle _ (record {
                  unset = refl;
                  balanced = p.idle.balanced;
                  untracked = p.idle.untracked;
                }),
                p.single,
              ),
              p.paced.waited,
              λ h. record {
                stopped = refl;
                idle = record {
                  unset = refl;
                  balanced = p.idle.balanced;
                  untracked = p.idle.untracked;
                };
                routes = refl;
              },
              λ h. refl,
            )
      | inr e ↦
          rw (e, run)
            (
              p.single,
              p.paced.waited,
              λ h. absurd (cc (e, h)),
              λ h. absurd (cc (rounds-returned rs start h, e)),
            )
    ]
