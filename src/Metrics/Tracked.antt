-- ===== src/Metrics/Tracked.antt =====
-- The gauge of connections.
use wanopt_proxy.Common.{
  ℕ, ◌+◌, ◌≡◌, refl, ap, sym, ◌∙◌, arith, Bool, true, false, Option, none, some, List, [], ◌∷◌,
  length, ◌==◌, if-either, Bool-cases, Option-cases, inl, inr, ==→eq, ==_refl,
}
use wanopt_proxy.Metrics.{Metrics, is_tracked, track, dropped, use_cleanup, cleanup}

-- The connections whose cleanup has not run.
abbrev pub waiting : List (ℕ × Bool) → List ℕ
waiting [] = []
waiting ((conn, true) ∷ l) = waiting l
waiting ((conn, false) ∷ l) = conn ∷ waiting l

abbrev Distinct : List ℕ → Type 0
Distinct [] = Unit {0}
Distinct (c ∷ cs) = (is_tracked c cs ≡ false) × Distinct cs

-- The connections are those whose cleanup has not run, each once, and the gauge counts them.
pub record IsTracked (connections : List ℕ) (cleanups : List (ℕ × Bool)) (gauge : ℕ) : Type 0 where
  pub waits : connections ≡ waiting cleanups
  pub distinct : Distinct connections
  pub counted : gauge ≡ length connections

abbrev pub Tracks : Metrics → Type 0
Tracks m = IsTracked m.connections m.cleanups m.gauge

dropped-other : (c : ℕ) (l : List ℕ) → is_tracked c l ≡ false → dropped c l ≡ l
dropped-other c [] h = refl
dropped-other c (d ∷ l) h = elim (Bool-cases (d == c)) [
  | inl t ↦ absurd (cc (rw t at h))
  | inr t ↦ rw t (ap (λ (k : List ℕ). d ∷ k) (dropped-other c l (rw t at h)))
]

dropped-untracked :
    (c d : ℕ) (l : List ℕ) → is_tracked c l ≡ false → is_tracked c (dropped d l) ≡ false
dropped-untracked c d [] h = refl
dropped-untracked c d (e ∷ l) h = elim (Bool-cases (e == c)) [
  | inl t ↦ absurd (cc (rw t at h))
  | inr t ↦ elim (Bool-cases (e == d)) [
    | inl u ↦ rw u (dropped-untracked c d l (rw t at h))
    | inr u ↦ rw (u, t) (dropped-untracked c d l (rw t at h))
  ]
]

dropped-Distinct : (d : ℕ) (l : List ℕ) → Distinct l → Distinct (dropped d l)
dropped-Distinct d [] h = tt
dropped-Distinct d (c ∷ l) h = elim (Bool-cases (c == d)) [
  | inl t ↦ rw t (dropped-Distinct d l h.1)
  | inr t ↦ rw t (dropped-untracked c d l h.0, dropped-Distinct d l h.1)
]

-- What a cleanup does to the connections that wait.
IsUsed : List (ℕ × Bool) → Option ℕ → List (ℕ × Bool) → Type 0
IsUsed l none l' = waiting l' ≡ waiting l
IsUsed l (some conn) l' =
    (waiting l' ≡ dropped conn (waiting l))
    × ((is_tracked conn (waiting l) ≡ true) × (length (waiting l) ≡ length (waiting l') + 1))

behind_ran :
    (c : ℕ) (l l' : List (ℕ × Bool)) (o : Option ℕ)
    → IsUsed l o l'
    → IsUsed ((c, true) ∷ l) o ((c, true) ∷ l')
unfolding IsUsed
behind_ran c l l' none h = h
behind_ran c l l' (some conn) h = h

behind_waiting :
    (c : ℕ) (l l' : List (ℕ × Bool)) (o : Option ℕ)
    → is_tracked c (waiting l) ≡ false
    → IsUsed l o l'
    → IsUsed ((c, false) ∷ l) o ((c, false) ∷ l')
unfolding IsUsed
behind_waiting c l l' none d h = ap (λ (k : List ℕ). c ∷ k) h
behind_waiting c l l' (some conn) d h = elim (Bool-cases (c == conn)) [
  | inl t ↦ absurd (cc (==→eq c conn t, d, h.1.0))
  | inr t ↦ rw t (ap (λ (k : List ℕ). c ∷ k) h.0, (h.1.0, omega (arith, h.1.1)))
]

use_first :
    (c : ℕ) (l : List (ℕ × Bool))
    → is_tracked c (waiting l) ≡ false
    → IsUsed ((c, false) ∷ l) (some c) ((c, true) ∷ l)
unfolding IsUsed
use_first c l d = rw (==_refl c) (sym (dropped-other c (waiting l) d), (refl, omega arith))

abbrev Uses : List (ℕ × Bool) → Option ℕ × List (ℕ × Bool) → Type 0
Uses l u = IsUsed l u.0 u.1

use_cleanup-IsUsed : (i : ℕ) (l : List (ℕ × Bool)) → Distinct (waiting l) → Uses l (use_cleanup i l)
unfolding IsUsed
use_cleanup-IsUsed i [] h = refl
use_cleanup-IsUsed i ((c, true) ∷ l) h =
    let u = use_cleanup i l in
    if-either (Uses ((c, true) ∷ l)) (i == length l) (none, (c, true) ∷ l) (u.0, (c, true) ∷ u.1)
      (λ t. refl) (λ t. behind_ran c l u.1 u.0 (use_cleanup-IsUsed i l h))
use_cleanup-IsUsed i ((c, false) ∷ l) h =
    let u = use_cleanup i l in
    if-either (Uses ((c, false) ∷ l)) (i == length l) (some c, (c, true) ∷ l)
      (u.0, (c, false) ∷ u.1) (λ t. use_first c l h.0)
      (λ t. behind_waiting c l u.1 u.0 h.0 (use_cleanup-IsUsed i l h.1))

pub track-IsTracked :
    (conn : ℕ) (resumed : Bool) (m : Metrics) → Tracks m → Tracks (track conn resumed m)
unfolding track
track-IsTracked conn resumed m h =
    if-either Tracks (is_tracked conn m.connections)
      (record m { cleanups = (conn, true) ∷ m.cleanups }) _
      (λ t. record { waits = h.waits; distinct = h.distinct; counted = h.counted })
      (λ t. record {
        waits = ap (λ (k : List ℕ). conn ∷ k) h.waits;
        distinct = (t, h.distinct);
        counted = omega (arith, h.counted);
      })

pub cleanup-IsTracked : (i : ℕ) (m : Metrics) → Tracks m → Tracks (cleanup i m)
unfolding cleanup IsUsed
cleanup-IsTracked i m h =
    let u = use_cleanup-IsUsed i m.cleanups (rw h.waits at h.distinct) in
    let found = (use_cleanup i m.cleanups).0 in
    elim (Option-cases found) [
      | inl e ↦
          rw (e, cleanup)
            (record {
              waits = h.waits ∙ sym (rw e at u);
              distinct = h.distinct;
              counted = h.counted;
            })
      | inr (conn, e) ↦
          let v = rw e at u in
          let gone : dropped conn m.connections ≡ waiting (use_cleanup i m.cleanups).1 =
            ap (dropped conn) h.waits ∙ sym v.0 in
          rw (e, cleanup)
            (record {
              waits = gone;
              distinct = dropped-Distinct conn m.connections h.distinct;
              counted = omega (
                arith,
                h.counted,
                ap (λ (k : List ℕ). length k) h.waits,
                ap (λ (k : List ℕ). length k) gone,
                v.1.1,
              );
            })
    ]
