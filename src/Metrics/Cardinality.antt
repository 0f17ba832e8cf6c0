-- ===== src/Metrics/Cardinality.antt =====
-- The series of the metrics stay within fixed sets.
use wanopt_proxy.Common.{
  ℕ, ◌≡◌, refl, Bool, true, none, some, List, [], ◌∷◌, ◌++◌, All, In, any, bytes_eq, bytes_eq→eq,
  if◌then◌else◌, if-either, Bool-cases, Option-cases, inl, inr,
}
use wanopt_proxy.Metrics.Labels.{
  Label, word_up, word_down, word_error, word_capacity, word_canceled, word_timeout, word_bbr,
  word_reno, word_other, drop_reasons, resources, stages, latency_stages, known_or_other,
}
use wanopt_proxy.Metrics.{
  Vec, same_labels, change, bump, Metrics, new, Cause, reason_of, Call, drops, rejects, controls,
  datagrams, observes, fails, compresses, falls_back, tracks, cleans_up, step, run, udp_drop,
  reject, set_controller, udp_datagram, observe, fail, compression, fall_back, track, cleanup,
  add_up, add_down, is_tracked, use_cleanup,
}
use wanopt_proxy.Metrics.Tracked.{Tracks, track-IsTracked, cleanup-IsTracked}

-- The labels are of these sets, one set for each position.
abbrev pub Labelled : List (List Label) → List Label → Type 0
Labelled [] [] = Unit {0}
Labelled [] (l ∷ ls) = ⊥
Labelled (s ∷ sets) [] = ⊥
Labelled (s ∷ sets) (l ∷ ls) = In l s × Labelled sets ls

abbrev pub Series : List (List Label) → Vec → Type 0
Series sets v = All (λ (c : List Label × ℕ). Labelled sets c.0) v

change-Series :
    (sets : List (List Label)) (key : List Label) (f : ℕ → ℕ) (v : Vec)
    → Labelled sets key
    → Series sets v
    → Series sets (change key f v)
unfolding change
change-Series sets key f [] k h = (k, tt)
change-Series sets key f ((l, n) ∷ v) k h =
    if-either (Series sets) (same_labels l key) ((l, f n) ∷ v) ((l, n) ∷ change key f v)
      (λ t. (h.0, h.1)) (λ t. (h.0, change-Series sets key f v k h.1))

any-In :
    (label : Label) (cases rest : List Label)
    → any (bytes_eq label) cases ≡ true
    → In label (cases ++ rest)
any-In label [] rest h = absurd (cc h)
any-In label (c ∷ cases) rest h = elim (Bool-cases (bytes_eq label c)) [
  | inl t ↦ inl (bytes_eq→eq label c t)
  | inr t ↦ inr (any-In label cases rest (rw t at h))
]

other-In : (cases : List Label) → In word_other (cases ++ (word_other ∷ []))
other-In [] = inl refl
other-In (c ∷ cases) = inr (other-In cases)

abbrev pub or_other : List Label → List Label
or_other cases = cases ++ (word_other ∷ [])

known_or_other-In :
    (cases : List Label) (label : Label) → In (known_or_other cases label) (or_other cases)
unfolding known_or_other
known_or_other-In cases label =
    if-either (λ (l : Label). In l (or_other cases)) (any (bytes_eq label) cases) label word_other
      (λ t. any-In label cases (word_other ∷ []) t) (λ t. other-In cases)

abbrev pub reasons : List Label
reasons = word_capacity ∷ word_canceled ∷ word_timeout ∷ word_error ∷ []

reason_of-In : (e : Cause) → In (reason_of e) reasons
unfolding reason_of
reason_of-In e =
    let P = λ (l : Label). In l reasons in
    if-either P e.is_capacity word_capacity _ (λ t. inl refl)
      (λ t.
        if-either P e.is_canceled word_canceled _ (λ u. inr (inl refl))
          (λ u.
            if-either P e.is_deadline word_timeout _ (λ v. inr (inr (inl refl)))
              (λ v.
                if-either P e.is_timeout word_timeout word_error (λ w. inr (inr (inl refl)))
                  (λ w. inr (inr (inr (inl refl)))))))

-- Every series has labels of its fixed sets: the rejections, the failures by stage and reason, the
-- drops and datagrams of UDP, the latencies and the controller.
abbrev pub IsLabelled : Metrics → Type 0
IsLabelled m =
    Series (or_other resources ∷ []) m.rejected
    × Series (or_other stages ∷ reasons ∷ []) m.failures
    × Series (or_other drop_reasons ∷ []) m.udp_drops
    × Series ((word_up ∷ word_down ∷ []) ∷ []) m.udp_packets
    × Series (or_other latency_stages ∷ []) m.latency
    × Series ((word_bbr ∷ word_reno ∷ []) ∷ []) m.controller

-- And the gauge counts the tracked connections.
abbrev pub IsBounded : Metrics → Type 0
IsBounded m = IsLabelled m × Tracks m

-- One series that changes under labels of its sets.
one_label :
    (cases : List Label) (label : Label) (f : ℕ → ℕ) (v : Vec)
    → Series (or_other cases ∷ []) v
    → Series (or_other cases ∷ []) (change (known_or_other cases label ∷ []) f v)
one_label cases label f v h =
    change-Series (or_other cases ∷ []) (known_or_other cases label ∷ []) f v
      (known_or_other-In cases label, tt) h

abbrev packets : List (List Label)
packets = (word_up ∷ word_down ∷ []) ∷ []

abbrev controllers : List (List Label)
controllers = (word_bbr ∷ word_reno ∷ []) ∷ []

datagram-IsBounded :
    (direction : Label) (n : ℕ) (m : Metrics) → IsBounded m → IsBounded (udp_datagram direction n m)
unfolding udp_datagram add_up add_down
datagram-IsBounded direction n m ((a, b, c, d, e, f), g) =
    if-either IsBounded (bytes_eq direction word_up)
      (add_up n (record m { udp_packets = bump (word_up ∷ []) 1 m.udp_packets }))
      (add_down n (record m { udp_packets = bump (word_down ∷ []) 1 m.udp_packets }))
      (λ t.
        ((a, b, c, change-Series packets (word_up ∷ []) _ m.udp_packets (inl refl, tt) d, e, f), g))
      (λ t. (
        (
          a,
          b,
          c,
          change-Series packets (word_down ∷ []) _ m.udp_packets (inr (inl refl), tt) d,
          e,
          f,
        ),
        g,
      ))

controller-IsBounded :
    (mode : Label) (m : Metrics) → IsBounded m → IsBounded (set_controller mode m)
unfolding set_controller
controller-IsBounded mode m ((a, b, c, d, e, f), g) =
    let name : Label = if bytes_eq mode word_bbr then word_bbr else word_reno in
    let known =
      if-either (λ (l : Label). In l (word_bbr ∷ word_reno ∷ [])) (bytes_eq mode word_bbr) word_bbr
        word_reno (λ t. inl refl) (λ t. inr (inl refl)) in
    ((a, b, c, d, e, change-Series controllers (name ∷ []) _ m.controller (known, tt) f), g)

track-keeps :
    (conn : ℕ) (resumed : Bool) (m : Metrics) → IsBounded m → IsBounded (track conn resumed m)
unfolding track
track-keeps conn resumed m (h, g) = (
  if-either IsLabelled (is_tracked conn m.connections)
      (record m { cleanups = (conn, true) ∷ m.cleanups }) _ (λ t. h) (λ t. h),
  track-IsTracked conn resumed m g,
)

cleanup-keeps : (i : ℕ) (m : Metrics) → IsBounded m → IsBounded (cleanup i m)
unfolding cleanup
cleanup-keeps i m (h, g) = (
  elim (Option-cases (use_cleanup i m.cleanups).0) [
    | inl e ↦ rw (e, cleanup) h
    | inr (conn, e) ↦ rw (e, cleanup) h
  ],
  cleanup-IsTracked i m g,
)

step-IsBounded : (call : Call) (m : Metrics) → IsBounded m → IsBounded (step call m)
unfolding step udp_drop reject observe fail compression fall_back
step-IsBounded (drops reason) m ((a, b, c, d, e, f), g) =
    ((a, b, one_label drop_reasons reason _ m.udp_drops c, d, e, f), g)
step-IsBounded (rejects resource) m ((a, b, c, d, e, f), g) =
    ((one_label resources resource _ m.rejected a, b, c, d, e, f), g)
step-IsBounded (controls mode) m h = controller-IsBounded mode m h
step-IsBounded (datagrams direction n) m h = datagram-IsBounded direction n m h
step-IsBounded (observes stage n) m ((a, b, c, d, e, f), g) =
    ((a, b, c, d, one_label latency_stages stage _ m.latency e, f), g)
step-IsBounded (fails stage none) m h = h
step-IsBounded (fails stage (some k)) m ((a, b, c, d, e, f), g) = (
  (
    a,
    change-Series (or_other stages ∷ reasons ∷ []) (known_or_other stages stage ∷ reason_of k ∷ [])
        _ m.failures (known_or_other-In stages stage, (reason_of-In k, tt)) b,
    c,
    d,
    e,
    f,
  ),
  g,
)
step-IsBounded (compresses s) m h = h
step-IsBounded falls_back m h = h
step-IsBounded (tracks conn resumed) m h = track-keeps conn resumed m h
step-IsBounded (cleans_up i) m h = cleanup-keeps i m h

from-IsBounded :
    (cs : List Call) (m : Metrics)
    → IsBounded m
    → (m' : Metrics) × (run cs (some m) ≡ some m') × IsBounded m'
unfolding run
from-IsBounded [] m h = (m, refl, h)
from-IsBounded (c ∷ cs) m h = from-IsBounded cs (step c m) (step-IsBounded c m h)

start-IsBounded : IsBounded new
unfolding new
start-IsBounded = ((tt, tt, tt, tt, tt, tt), record { waits = refl; distinct = tt; counted = refl })

-- After any sequence of calls, with any strings as labels: every series of the metrics has labels of
-- the fixed sets that `IsBounded` lists; and the gauge of connections is their number, which are
-- those whose cleanup has not run yet, however often a connection is tracked or a cleanup called.
pub run-IsSeries : (cs : List Call) → (m : Metrics) × (run cs (some new) ≡ some m) × IsBounded m
run-IsSeries cs = from-IsBounded cs new start-IsBounded
