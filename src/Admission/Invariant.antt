-- ===== src/Admission/Invariant.antt =====
-- The slots in use are the leases that are not released yet.
use wanopt_proxy.Common.{
  ℕ, zero, suc, ◌+◌, ◌≤◌, ◌<◌, ◌≡◌, ◌≢◌, refl, arith, Bool, true, false, Option, none, some, List,
  [], ◌∷◌, ◌++◌, length, ltb, Bool-cases, inl, inr, ◌-◌, ap, ◌↔◌, ◌⊎◌,
}
use wanopt_proxy.Admission.{
  Budget, make, try_acquire, is_done, mark_done, release, receive, bump, Call, acquires, releases,
  step, run,
}

abbrev pub outstanding : List Bool → ℕ
outstanding [] = 0
outstanding (false ∷ ds) = outstanding ds + 1
outstanding (true ∷ ds) = outstanding ds

pub record IsSound (b : Budget) : Type 0 where
  pub held : b.slots ≡ outstanding b.leases
  pub bounded : b.slots ≤ b.limit
  pub gauged : b.observe ≡ true → b.ups ≡ b.downs + b.slots

outstanding-append : (ds : List Bool) → outstanding (ds ++ (false ∷ [])) ≡ outstanding ds + 1
outstanding-append [] = refl
outstanding-append (false ∷ ds) = omega (arith, outstanding-append ds)
outstanding-append (true ∷ ds) = outstanding-append ds

outstanding-mark_done :
    (ds : List Bool) (l : ℕ)
    → is_done ds l ≡ false
    → outstanding ds ≡ outstanding (mark_done ds l) + 1
outstanding-mark_done [] l h = absurd (cc h)
outstanding-mark_done (false ∷ ds) zero h = refl
outstanding-mark_done (true ∷ ds) zero h = absurd (cc h)
outstanding-mark_done (false ∷ ds) (suc l) h = omega (arith, outstanding-mark_done ds l h)
outstanding-mark_done (true ∷ ds) (suc l) h = outstanding-mark_done ds l h

make-IsSound : (limit : ℕ) (observe : Bool) {b : Budget} → make limit observe ≡ some b → IsSound b
unfolding make
make-IsSound limit observe h = ground arith

try_acquire-IsSound : {b : Budget} → IsSound b → IsSound (try_acquire b).0
unfolding try_acquire
try_acquire-IsSound {b} s = ground (arith, outstanding-append b.leases)

receive-some : (n : ℕ) → 0 < n → receive n ≡ some (n - 1)
receive-some zero h = absurd (omega arith)
receive-some (suc n) h = ap some (omega arith)

abbrev released : Budget → ℕ → Budget
released b l = record b {
  slots = b.slots - 1;
  downs = bump b.observe b.downs;
  leases = mark_done b.leases l;
}

released-IsSound :
    (b : Budget) (l : ℕ) → is_done b.leases l ≡ false → IsSound b → IsSound (released b l)
released-IsSound b l fresh s = record {
  held = omega (arith, s.held, outstanding-mark_done b.leases l fresh);
  bounded = omega (arith, s.bounded);
  gauged =
      λ o. let e = s.gauged o in let m = outstanding-mark_done b.leases l fresh in ground arith;
}

release_fresh :
    (b : Budget) (l : ℕ)
    → IsSound b
    → is_done b.leases l ≡ false
    → release (some l) b ≡ some (released b l)
unfolding release
release_fresh b l s fresh =
    rw (fresh, receive-some b.slots (omega (arith, s.held, outstanding-mark_done b.leases l fresh)))

-- `Release` never blocks in a sound budget, and leaves it sound: the slot of a lease is given back
-- at its first release, and a later one, like that of nil, changes nothing.
pub release_total :
    (l : Option ℕ) (b : Budget) → IsSound b → (b' : Budget) × (release l b ≡ some b') × IsSound b'
unfolding release
release_total none b s = (b, refl, s)
release_total (some l) b s = elim (Bool-cases (is_done b.leases l)) [
  | inl done ↦ (b, rw done, s)
  | inr fresh ↦ (released b l, release_fresh b l s fresh, released-IsSound b l fresh s)
]

step_total : (c : Call) (b : Budget) → IsSound b → (b' : Budget) × (step b c ≡ some b') × IsSound b'
unfolding step
step_total acquires b s = ((try_acquire b).0, refl, try_acquire-IsSound s)
step_total (releases l) b s = release_total l b s

run_total :
    (cs : List Call) (b : Budget) → IsSound b → (b' : Budget) × (run b cs ≡ some b') × IsSound b'
unfolding run
run_total [] b s = (b, refl, s)
run_total (c ∷ cs) b s =
    let (b1, e, s1) = step_total c b s in
    let (b2, e2, s2) = run_total cs b1 s1 in (b2, rw (e, run) e2, s2)

-- From a new budget every sequence of calls runs to its end without blocking, and then the slots
-- in use are the leases handed out and not released, at most the limit; the calls of an observer
-- add up to their number.
pub run-make_total :
    (limit : ℕ) (observe : Bool) (cs : List Call) {b : Budget}
    → make limit observe ≡ some b
    → (b' : Budget) × (run b cs ≡ some b') × IsSound b'
run-make_total limit observe cs {b} h = run_total cs b (make-IsSound limit observe h)

-- In a sound budget an acquisition succeeds exactly when fewer leases are outstanding than the limit.
pub try_acquire_iff :
    (b : Budget) → IsSound b → ((try_acquire b).1 ≢ none) ↔ (outstanding b.leases < b.limit)
unfolding try_acquire
try_acquire_iff b s = (λ h. go (Bool-cases (ltb b.slots b.limit)) h, λ h e. ground arith)
  where
    go :
        (ltb b.slots b.limit ≡ true) ⊎ (ltb b.slots b.limit ≡ false)
        → (try_acquire b).1 ≢ none
        → outstanding b.leases < b.limit
    go (inl room) h = ground arith
    go (inr full) h = absurd (h (rw full))

-- After a release of an outstanding lease the next acquisition succeeds.
pub try_acquire-release :
    (b b' : Budget) (l : ℕ)
    → IsSound b
    → is_done b.leases l ≡ false
    → release (some l) b ≡ some b'
    → (try_acquire b').1 ≡ some (length b'.leases)
unfolding try_acquire
try_acquire-release b b' l s fresh h =
    ground (arith, release_fresh b l s fresh, outstanding-mark_done b.leases l fresh)
