-- ===== src/Protocol/Varint.antt =====
-- `binary.AppendUvarint` and `binary.Uvarint` of Go's encoding/binary, which carry the session id
-- of a datagram.
use wanopt_proxy.Common.{
  ℕ, zero, suc, ◌+◌, ◌*◌, ◌/◌, ◌%◌, ◌^◌, ◌≤◌, ◌<◌, ◌≡◌, ap, arith, ◌&&◌, Option, none, some, List,
  [], ◌∷◌, ◌++◌, length, length-append, ltb, ◌==◌, if◌then◌else◌,
}
use native.Mathlib.Nat.{div-add-mod}

-- The groups of seven bits of a uint64, lowest first, all but the last with the top bit set:
-- after nine groups the tenth is the last.
unfoldable pub groups : ℕ → ℕ → List ℕ
groups zero x = (x % 256) ∷ []
groups (suc k) x =
    let rest = groups k (x / 128) in if ltb x 128 then x ∷ [] else (x % 128 + 128) ∷ rest

unfoldable pub append_uvarint : List ℕ → ℕ → List ℕ
append_uvarint buf x = buf ++ groups 9 x

-- `x` is what is read so far, and `w` is 2 to the shift. The sum stays below 2 ^ 64 wherever the
-- result is used. `none` stands for a count that is not positive.
unfoldable pub uvarint_loop : List ℕ → ℕ → ℕ → ℕ → Option (ℕ × ℕ)
uvarint_loop [] i x w = none
uvarint_loop (b ∷ bs) i x w =
    let more = uvarint_loop bs (i + 1) (x + b % 128 * w) (w * 128) in
    if i == 10
    then none
    else if ltb b 128
    then (if i == 9 && ltb 1 b then none else some (x + b * w, i + 1))
    else more

unfoldable pub uvarint : List ℕ → Option (ℕ × ℕ)
unfolding uvarint_loop
uvarint buf = uvarint_loop buf 0 0 1

-- What `k + 1` groups can hold when ten groups hold 64 bits.
abbrev limit : ℕ → ℕ
limit zero = 2
limit (suc k) = 128 * limit k

pub length-groups : (k x : ℕ) → (1 ≤ length (groups k x)) × (length (groups k x) ≤ k + 1)
unfolding groups
length-groups zero x = omega arith
length-groups (suc k) x = ground (arith, length-groups k (x / 128))

join_group : (x v w : ℕ) → (x + v % 128 * w) + v / 128 * (w * 128) ≡ x + v * w
join_group x v w = omega (arith, ap (λ (t : ℕ). t * w) (div-add-mod v 128))

groups-loop :
    (k v i x w : ℕ) (rest : List ℕ)
    → i + k ≡ 9
    → v < limit k
    → uvarint_loop (groups k v ++ rest) i x w ≡ some (x + v * w, i + length (groups k v))
unfolding groups uvarint_loop
groups-loop zero v i x w rest e h = let small : v % 256 ≡ v = omega arith in rw small (ground arith)
groups-loop (suc k) v i x w rest e h =
    ground
      (arith, groups-loop k (v / 128) (i + 1) (x + v % 128 * w) (w * 128) rest, join_group x v w)

-- `Uvarint` reads back a uint64 and the number of its bytes, whatever follows.
pub uvarint-append_uvarint :
    (x : ℕ) (rest : List ℕ)
    → x < 2 ^ 64
    → uvarint (append_uvarint [] x ++ rest) ≡ some (x, length (append_uvarint [] x))
unfolding uvarint append_uvarint
uvarint-append_uvarint x rest h =
    ground (arith, groups-loop 9 x 0 0 1 rest (omega arith) (omega arith))

pub length-append_uvarint :
    (b : List ℕ) (x : ℕ)
    → (length b + 1 ≤ length (append_uvarint b x)) × (length (append_uvarint b x) ≤ length b + 10)
unfolding append_uvarint
length-append_uvarint b x = omega (arith, length-append b (groups 9 x), length-groups 9 x)
