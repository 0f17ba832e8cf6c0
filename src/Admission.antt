-- ===== src/Admission.antt =====
-- internal/admission/budget.go: a nonblocking budget of slots and its leases. The leases that a
-- budget has handed out are numbered from 0, and `leases` holds, for each, whether the function of
-- its `sync.Once` has run. The slots are the entries of the channel.
pub mod Invariant
pub mod Leases
use wanopt_proxy.Common.{
  ℕ, zero, suc, ◌+◌, ◌≡◌, Bool, true, false, Option, none, some, List, [], ◌∷◌, ◌++◌, length, ltb,
  if◌then◌else◌,
}

pub record Budget : Type 0 where
  pub limit : ℕ
  pub slots : ℕ
  -- Whether there is an observer, and its calls with 1 and with -1.
  pub observe : Bool
  pub ups : ℕ
  pub downs : ℕ
  pub leases : List Bool

-- `New`; `none` is the panic.
unfoldable pub make : ℕ → Bool → Option Budget
make limit observe =
    if ltb limit 1
    then none
    else some
        (record { limit = limit; slots = 0; observe = observe; ups = 0; downs = 0; leases = [] })

-- `InUse`.
abbrev pub in_use : Budget → ℕ
in_use b = b.slots

abbrev bump : Bool → ℕ → ℕ
bump seen n = if seen then n + 1 else n

-- `TryAcquire`: the send on the channel goes through if there is room.
unfoldable pub try_acquire : Budget → Budget × Option ℕ
try_acquire b =
    if ltb b.slots b.limit
    then (
      record b {
        slots = b.slots + 1;
        ups = bump b.observe b.ups;
        leases = b.leases ++ (false ∷ []);
      },
      some (length b.leases),
    )
    else (b, none)

-- Whether a lease's `Once` has run. A lease that was never handed out does not exist.
abbrev is_done : List Bool → ℕ → Bool
is_done [] l = true
is_done (d ∷ ds) zero = d
is_done (d ∷ ds) (suc l) = is_done ds l

abbrev mark_done : List Bool → ℕ → List Bool
mark_done [] l = []
mark_done (d ∷ ds) zero = true ∷ ds
mark_done (d ∷ ds) (suc l) = d ∷ mark_done ds l

-- The receive from the channel, which blocks when the channel is empty: `none`.
abbrev pub receive : ℕ → Option ℕ
receive zero = none
receive (suc n) = some n

abbrev give_back : Budget → ℕ → Option ℕ → Option Budget
give_back b l none = none
give_back b l (some n) =
    some (record b { slots = n; downs = bump b.observe b.downs; leases = mark_done b.leases l })

-- `Release`, of a lease or of nil; `none` means that the call blocks.
pub release : Option ℕ → Budget → Option Budget
release none b = some b
release (some l) b = if is_done b.leases l then some b else give_back b l (receive b.slots)

pub data Call : Type 0 where
  acquires : Call
  releases : Option ℕ → Call

unfoldable pub step : Budget → Call → Option Budget
unfolding try_acquire release
step b acquires = some (try_acquire b).0
step b (releases l) = release l b

-- Any sequence of calls, from whatever goroutines.
unfoldable pub run : Budget → List Call → Option Budget
run b [] = some b
run b (c ∷ cs) = elim (step b c) [ none ↦ none | some b' ↦ run b' cs ]
