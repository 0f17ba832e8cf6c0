-- ===== src/Acl/Dial.antt =====
-- internal/acl/acl.go: `NewResolver`, `DialContext` and `dialAddresses`. Times are in nanoseconds,
-- and connections are numbers.
pub mod Race
pub mod Approved
use wanopt_proxy.Common.{
  ℕ, zero, suc, ◌+◌, ◌-◌, ◌*◌, ◌/◌, ◌≡◌, Bool, true, false, not, ◌||◌, Option, none, some, List, [],
  ◌∷◌, ◌++◌, length, ltb, ◌==◌, if◌then◌else◌, IoError, deadline, Error, io, joined, Result, ok,
  err, ℤ, pos, negsuc, above, to_nat,
}
use wanopt_proxy.Protocol.Address.{Address}

abbrev pub second : ℕ
second = 1000000000

-- `NewResolver`: the timeout and the number of slots.
unfoldable pub new_resolver : ℤ → ℤ → ℕ × ℕ
new_resolver timeout concurrency = (
  if above timeout 0 then to_nat timeout else 5 * second,
  if above concurrency 0 then to_nat concurrency else 32,
)

-- What the context, the clock and the network answer to the attempts of one `dialAddresses`, which
-- are counted from 0.
pub record Dialer : Type 0 where
  pub deadline_at : Option ℕ
  pub now : ℕ → ℕ
  pub dial : ℕ → Address → Result ℕ
  pub canceled : ℕ → Option Error

-- The timeout of an attempt, where `left` addresses are to be tried. Once the deadline has passed it
-- is 0 here and negative in the source, which is refused in the same way.
unfoldable pub attempt_timeout : Option ℕ → ℕ → ℕ → ℕ
attempt_timeout none now left = 10 * second
attempt_timeout (some d) now left =
    let remaining = (d - now) / left in
    if ltb remaining (10 * second) then remaining else 10 * second

-- The end of `dialAddresses`: the last error, and neither a connection nor an error where there was
-- no address.
abbrev ending : Option Error → Result (Option ℕ)
ending none = ok none
ending (some e) = err e

-- The loop of `dialAddresses` from the attempt `i` on.
unfoldable pub dial_from : Dialer → ℕ → Option Error → List Address → Result (Option ℕ)
unfolding attempt_timeout
dial_from d i last [] = ending last
dial_from d i last (a ∷ rest) =
    let timeout = attempt_timeout d.deadline_at (d.now i) (suc (length rest)) in
    if timeout == 0 then err (io deadline) else elim (d.dial timeout a) [
      | ok conn ↦ ok (some conn)
      | err e ↦ elim (d.canceled i) [ some f ↦ err f | none ↦ dial_from d (suc i) (some e) rest ]
    ]

-- `dialAddresses`.
unfoldable pub dial_addresses : Dialer → List Address → Result (Option ℕ)
unfolding dial_from
dial_addresses d addresses = dial_from d 0 none addresses

abbrev keeps : Bool → Bool → Bool
keeps true same = same
keeps false same = not same

-- The two families: the addresses of the first one's kind, and the others.
unfoldable pub family : Bool → ℕ → List Address → List Address
family first kind [] = []
family first kind (a ∷ rest) =
    let others = family first kind rest in
    if keeps first (a.atyp == kind) then a ∷ others else others

pub data Side : Type 0 where
  primary fallback : Side

-- The loop of `DialContext`: whether the fallback was started, the first error, the sides that have
-- ended, the return, and the connections that were closed because nobody took them.
pub record State : Type 0 where
  pub started : Bool
  pub first_error : Option Error
  pub primary_ended : Bool
  pub fallback_ended : Bool
  pub answer : Option (Result (Option ℕ))
  pub dropped : List ℕ

abbrev pub start : State
start = record {
  started = false;
  first_error = none;
  primary_ended = false;
  fallback_ended = false;
  answer = none;
  dropped = [];
}

-- What the loop's `select` takes, or, behind the return, a goroutine's.
pub data Event : Type 0 where
  expires : Event
  cancels : Error → Event
  finishes : Side → Event

-- An error that the loop receives, behind the first error there was.
abbrev pub after_error : Option Error → Error → State → State
after_error (some f) e s = record s { answer = some (err (joined f e)) }
after_error none e s = record s { first_error = some e; started = true }

-- A result that the loop receives.
unfoldable pub take_result : Result (Option ℕ) → State → State
take_result (ok conn) s = record s { answer = some (ok conn) }
take_result (err e) s = after_error s.first_error e s

-- A result that nobody receives any more, since the context is canceled by the return.
unfoldable pub drop_result : Result (Option ℕ) → State → State
drop_result (ok (some conn)) s = record s { dropped = conn ∷ s.dropped }
drop_result (ok none) s = s
drop_result (err e) s = s

abbrev pub is_answered : State → Bool
is_answered s = elim s.answer [ none ↦ false | some r ↦ true ]

abbrev pub give : Result (Option ℕ) → State → State
give r s = if is_answered s then drop_result r s else take_result r s

abbrev pub is_primary : Side → Bool
is_primary primary = true
is_primary fallback = false

abbrev pub flag : Side → State → Bool
flag side s = if is_primary side then s.primary_ended else s.fallback_ended

abbrev pub runs : Side → State → Bool
runs side s = is_primary side || s.started

abbrev pub mark : Side → State → State
mark side s = record s {
  primary_ended = is_primary side || s.primary_ended;
  fallback_ended = not (is_primary side) || s.fallback_ended;
}

-- One step, where `result` is what the `dialAddresses` of each side gives. A side ends once, and the
-- fallback only where it was started.
unfoldable pub step : (Side → Result (Option ℕ)) → Event → State → State
unfolding take_result drop_result
step result expires s = if is_answered s then s else record s { started = true }
step result (cancels e) s = if is_answered s then s else record s { answer = some (err e) }
step result (finishes side) s =
    if flag side s || not (runs side s) then s else give (result side) (mark side s)

unfoldable pub race : (Side → Result (Option ℕ)) → List Event → State → State
unfolding step
race result [] s = s
race result (e ∷ es) s = race result es (step result e s)

abbrev pub results : (Side → Dialer) → ℕ → List Address → Side → Result (Option ℕ)
results d kind addresses primary = dial_addresses (d primary) (family true kind addresses)
results d kind addresses fallback = dial_addresses (d fallback) (family false kind addresses)

-- `DialContext` behind the race's guard; `none` where the race is still going on.
unfoldable pub dial_families :
    (Side → Dialer) → List Event → List Address → Option (Result (Option ℕ))
unfolding race dial_addresses family
dial_families d es [] = some (dial_addresses (d primary) [])
dial_families d es (a ∷ rest) =
    if length (family false a.atyp (a ∷ rest)) == 0
    then some (dial_addresses (d primary) (family true a.atyp (a ∷ rest)))
    else (race (results d a.atyp (a ∷ rest)) es start).answer

-- `DialContext` on the answer of `Resolve`; `tcp` is whether the network's name begins with tcp.
unfoldable pub dial_context :
    Bool → Result (List Address) → (Side → Dialer) → List Event → Option (Result (Option ℕ))
unfolding dial_families
dial_context tcp (err e) d es = some (err e)
dial_context tcp (ok addresses) d es =
    if not tcp || length addresses == 1
    then some (dial_addresses (d primary) addresses)
    else dial_families d es addresses
