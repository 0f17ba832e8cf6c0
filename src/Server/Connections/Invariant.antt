-- ===== src/Server/Connections/Invariant.antt =====
-- What every operation keeps of the connections of a server.
use wanopt_proxy.Common.{
  ℕ, ◌+◌, ◌≡◌, ◌≢◌, ◌≤◌, refl, ap, arith, Bool, true, false, Option, none, some, List, [], ◌∷◌,
  length, All, ltb, ltb→lt, ◌==◌, ◌&&◌, not, if-either, Bool-cases, Option-cases, inl, inr,
}
use wanopt_proxy.Tunnel.Auth.{Crypto}
use wanopt_proxy.Tunnel.Credentials.{update, Time, Certificate}
use wanopt_proxy.Server.Connections.{
  is_looping, Entry, Phase, looping, left, stopped, swept, returned, Server, close, at_id, each,
  removed, served, accepted, accept, revoke, reload, finish, close_connections, leave_from, leave,
  close_down,
}
use wanopt_proxy.Server.Connections.Entries.{
  IsGuarded, IsClosed, IsSafe, length-at_id, length-each, at_id-All, each-All, served-close-IsSafe,
  revoke-IsSafe,
}

-- Whether the deferred function of `Serve` is behind its `cancel`.
abbrev pub is_canceling : Phase → Bool
is_canceling looping = false
is_canceling left = false
is_canceling stopped = true
is_canceling swept = true
is_canceling returned = true

-- One slot is taken for each connection whose goroutine runs, within the limit; those that are gone
-- are closed; and once `Serve` has returned no goroutine runs.
pub record IsSound (s : Server) : Type 0 where
  pub slots : s.taken ≡ length s.conns
  pub bounded : s.taken ≤ s.max_connections
  pub entries : All IsGuarded s.conns
  pub gone : All IsClosed s.gone
  pub stops : is_canceling s.phase ≡ true → s.canceled ≡ true
  pub joined : s.phase ≡ returned → s.conns ≡ []

empty_of-length : (l : List Entry) → length l ≡ 0 → l ≡ []
empty_of-length [] e = refl
empty_of-length (x ∷ l) e = absurd (omega (arith, e))

-- What is done to connections alone.
conns-IsSound :
    (s : Server) (l : List Entry)
    → length l ≡ length s.conns
    → All IsGuarded l
    → IsSound s
    → IsSound (record s { conns = l })
conns-IsSound s l n a k = record {
  slots = omega (arith, k.slots, n);
  bounded = k.bounded;
  entries = a;
  gone = k.gone;
  stops = k.stops;
  joined = λ q. let e = k.joined q in empty_of-length l (rw e at n);
}

pub at_id-IsSound :
    (id : ℕ) (f : Entry → Entry) (s : Server)
    → IsSafe f
    → IsSound s
    → IsSound (record s { conns = at_id id f s.conns })
at_id-IsSound id f s h k =
    conns-IsSound s (at_id id f s.conns) (length-at_id id f s.conns)
      (at_id-All IsGuarded id f h s.conns k.entries) k

pub each-IsSound :
    (f : Entry → Entry) (s : Server)
    → IsSafe f
    → IsSound s
    → IsSound (record s { conns = each f s.conns })
each-IsSound f s h k =
    conns-IsSound s (each f s.conns) (length-each f s.conns)
      (each-All IsGuarded IsGuarded f h s.conns k.entries) k

accepted-IsGuarded : (m id : ℕ) → IsGuarded (accepted m id)
unfolding accepted
accepted-IsGuarded m id = record {
  guarded = λ o t a. absurd (cc t);
  keyed = λ q. absurd (cc q);
  timed = λ q. absurd (cc q);
  listed = λ q. absurd (cc q);
  over = λ q. absurd (cc q);
}

returned_not : (p : Phase) → not (is_looping p) ≡ false → p ≢ returned
returned_not looping q e = cc e
returned_not left q e = cc e
returned_not stopped q e = cc e
returned_not swept q e = cc e
returned_not returned q e = cc q

pub accept-IsSound : (id : ℕ) (s : Server) → IsSound s → IsSound (accept id s)
unfolding accept
accept-IsSound id s k =
    if-either IsSound (not (is_looping s.phase)) _ _ (λ l. k)
      (λ l.
        if-either IsSound (ltb s.taken s.max_connections) _ _
          (λ t. record {
            slots = omega (arith, k.slots);
            bounded = omega (arith, ltb→lt s.taken s.max_connections t);
            entries = (accepted-IsGuarded s.max_streams id, k.entries);
            gone = k.gone;
            stops = k.stops;
            joined = λ q. absurd (returned_not s.phase l q);
          })
          (λ t. record {
            slots = k.slots;
            bounded = k.bounded;
            entries = k.entries;
            gone = k.gone;
            stops = k.stops;
            joined = k.joined;
          }))

abbrev IsRest : List Entry → Option (Entry × List Entry) → Type 0
IsRest l none = Unit {0}
IsRest l (some (e, rest)) =
    (length l ≡ length rest + 1)
    × (e.ended ≡ true)
    × (All IsGuarded l → IsGuarded e × All IsGuarded rest)

removed-IsRest : (id : ℕ) (l : List Entry) → IsRest l (removed id l)
removed-IsRest id [] = tt
removed-IsRest id (e ∷ l) = elim (Bool-cases ((e.id == id) && e.ended)) [
  | inl t ↦ rw t (omega arith, ground (arith, t), λ a. a)
  | inr t ↦ elim (Option-cases (removed id l)) [
    | inl q ↦ rw (t, q) tt
    | inr ((g, rest), q) ↦
        let h = rw q at (removed-IsRest id l) in
        rw (t, q) (omega (arith, h.0), h.1, λ a. let b = h.2 a.1 in (b.0, (a.0, b.1)))
  ]
]

pub finish-IsSound : (id : ℕ) (s : Server) → IsSound s → IsSound (finish id s)
unfolding finish
finish-IsSound id s k = elim (Option-cases (removed id s.conns)) [
  | inl q ↦ rw (q, finish) k
  | inr ((e, rest), q) ↦
      let h = rw q at (removed-IsRest id s.conns) in
      let (g, a) = h.2 k.entries in
      rw (q, finish)
        (record {
          slots = omega (arith, k.slots, h.0);
          bounded = omega (arith, k.bounded);
          entries = a;
          gone = (g.over h.1, k.gone);
          stops = k.stops;
          joined = λ p. absurd (omega (arith, h.0, ap (λ (l : List Entry). length l) (k.joined p)));
        })
]

pub reload-IsSound :
    (c : Crypto) (now : ℕ) (primary previous : List ℕ) (expires : Time) (cert : Certificate)
    (s : Server)
    → IsSound s
    → IsSound (reload c now primary previous expires cert s).1
unfolding reload
reload-IsSound c now primary previous expires cert s k =
    let u = update now primary previous expires cert s.credentials in
    elim (Option-cases u.0) [
      | inr (e, q) ↦ rw (q, reload) k
      | inl q ↦
          rw (q, reload)
            (each-IsSound (served (revoke c now u.1)) (record s { credentials = u.1 })
              (revoke-IsSafe c now u.1)
              (record {
                slots = k.slots;
                bounded = k.bounded;
                entries = k.entries;
                gone = k.gone;
                stops = k.stops;
                joined = k.joined;
              }))
    ]

-- A new place of `Serve`.
pub phase-IsSound :
    (s : Server) (p : Phase) (canceled : Bool)
    → (is_canceling p ≡ true → canceled ≡ true)
    → (p ≡ returned → s.conns ≡ [])
    → IsSound s
    → IsSound (record s { phase = p; canceled = canceled })
phase-IsSound s p canceled stops joined k = record {
  slots = k.slots;
  bounded = k.bounded;
  entries = k.entries;
  gone = k.gone;
  stops = stops;
  joined = joined;
}

pub leave-IsSound : (s : Server) → IsSound s → IsSound (leave s)
unfolding leave
leave-IsSound s k =
    elim s.phase as (λ p. s.phase ≡ p → IsSound (record s { phase = leave_from p })) [
      | looping ↦ λ e. phase-IsSound s left s.canceled (λ q. absurd (cc q)) (λ q. absurd (cc q)) k
      | left ↦ λ e. phase-IsSound s left s.canceled (λ q. absurd (cc q)) (λ q. absurd (cc q)) k
      | stopped ↦ λ e. phase-IsSound s stopped s.canceled (rw e at k.stops) (λ q. absurd (cc q)) k
      | swept ↦ λ e. phase-IsSound s swept s.canceled (rw e at k.stops) (λ q. absurd (cc q)) k
      | returned ↦ λ e. phase-IsSound s returned s.canceled (rw e at k.stops) (λ q. k.joined e) k
    ]
      refl

pub close_down-IsSound :
    (p : Phase) (s : Server) → s.phase ≡ p → IsSound s → IsSound (close_down p s)
unfolding close_down close_connections
close_down-IsSound looping s e k = k
close_down-IsSound left s e k = phase-IsSound s stopped true (λ q. refl) (λ q. absurd (cc q)) k
close_down-IsSound stopped s e k =
    let s1 = close_connections s in
    let h = each-IsSound (served (close 0)) s (served-close-IsSafe 0) k in
    phase-IsSound s1 swept s1.canceled (λ q. rw e at k.stops refl) (λ q. absurd (cc q)) h
close_down-IsSound swept s e k =
    if-either IsSound (s.taken == 0) _ _
      (λ t.
        phase-IsSound s returned s.canceled (rw e at k.stops)
          (λ q. empty_of-length s.conns (ground (arith, t, k.slots))) k)
      (λ t. k)
close_down-IsSound returned s e k = k
