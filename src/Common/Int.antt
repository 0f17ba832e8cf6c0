-- ===== src/Common/Int.antt =====
-- Go's int where it can be negative, over the native numbers.
use Prim.Native.Nat.{ℕ, zero, suc, ◌<◌}
use native.Mathlib.Omega.{arith}
use mathlib.Core.Bool.{Bool, true, false}
use wanopt_proxy.Common.Tests.{ltb, leb, ◌==◌, if◌then◌else◌}

-- `negsuc n` is -(n + 1).
pub data ℤ : Type 0 where
  pos : ℕ → ℤ
  negsuc : ℕ → ℤ

-- `p < n` and `n < p` for a number `n` that is not negative.
abbrev pub below : ℤ → ℕ → Bool
below (pos p) n = ltb p n
below (negsuc p) n = true

abbrev pub above : ℤ → ℕ → Bool
above (pos p) n = ltb n p
above (negsuc p) n = false

-- The number, where it is known not to be negative.
abbrev pub to_nat : ℤ → ℕ
to_nat (pos p) = p
to_nat (negsuc p) = 0

abbrev pub is_zero : ℤ → Bool
is_zero (pos p) = p == 0
is_zero (negsuc p) = false

-- The smaller of `n` and `p`.
abbrev pub min_int : ℕ → ℤ → ℤ
min_int n (pos p) = if leb n p then pos n else pos p
min_int n (negsuc p) = negsuc p

-- `a < b` on two numbers of any sign.
abbrev pub less_int : ℤ → ℤ → Bool
less_int (pos a) (pos b) = ltb a b
less_int (pos a) (negsuc b) = false
less_int (negsuc a) (pos b) = true
less_int (negsuc a) (negsuc b) = ltb b a

-- A setting, or its default where it is not positive.
abbrev pub positive_or : ℤ → ℕ → ℕ
positive_or v d = if above v 0 then to_nat v else d

pub positive_or-positive : (v : ℤ) (d : ℕ) → 0 < d → 0 < positive_or v d
positive_or-positive (pos zero) d h = h
positive_or-positive (pos (suc n)) d h = ground arith
positive_or-positive (negsuc n) d h = h
