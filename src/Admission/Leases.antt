-- ===== src/Admission/Leases.antt =====
-- A lease that was just handed out can be given back.
use wanopt_proxy.Common.{
  ℕ, suc, ◌+◌, ◌≡◌, refl, Bool, false, Option, none, some, List, [], ◌∷◌, ◌++◌, length, ltb,
  Bool-cases, arith, inl, inr, ap,
}
use wanopt_proxy.Admission.{Budget, try_acquire, release, is_done, receive, mark_done, bump}

abbrev pub count : Option ℕ → ℕ
count none = 0
count (some l) = 1

-- The second budget is the first with the lease taken, if there is one, and giving the lease back
-- does not block and restores the slots.
abbrev pub IsHeld : Budget → Budget → Option ℕ → Type 0
IsHeld b b' o =
    (b'.slots ≡ b.slots + count o)
    × ((b'' : Budget) × (release o b' ≡ some b'') × (b''.slots ≡ b.slots))

is_done-fresh : (ds : List Bool) → is_done (ds ++ (false ∷ [])) (length ds) ≡ false
is_done-fresh [] = refl
is_done-fresh (d ∷ ds) = is_done-fresh ds

pub IsHeld-none : (b : Budget) → IsHeld b b none
unfolding release
IsHeld-none b = (ground arith, (b, refl, refl))

abbrev after : Budget → ℕ → ℕ → Budget
after b n k = record b { slots = k; downs = bump b.observe b.downs; leases = mark_done b.leases n }

pub receive-suc : (n : ℕ) → receive (n + 1) ≡ some n
receive-suc n = ap receive shift
  where
    shift : n + 1 ≡ suc n
    shift = omega arith

release-fresh :
    (b : Budget) (n : ℕ) (k : ℕ)
    → is_done b.leases n ≡ false
    → receive b.slots ≡ some k
    → (b'' : Budget) × (release (some n) b ≡ some b'') × (b''.slots ≡ k)
unfolding release
release-fresh b n k h e = (after b n k, rw (h, e), refl)

pub try_acquire-IsHeld : (b : Budget) → IsHeld b (try_acquire b).0 (try_acquire b).1
unfolding try_acquire
try_acquire-IsHeld b = elim (Bool-cases (ltb b.slots b.limit)) [
  | inr t ↦ rw (t, try_acquire) (IsHeld-none b)
  | inl t ↦
      rw (t, try_acquire)
        (
          refl,
          release-fresh _ (length b.leases) b.slots (is_done-fresh b.leases) (receive-suc b.slots),
        )
]
