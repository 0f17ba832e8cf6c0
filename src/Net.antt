-- ===== src/Net.antt =====
-- What the program uses of Go's package net: IP addresses as byte slices, CIDR masks, and the
-- text forms, which are the interface `Net`.
use Prim.Native.Nat.{bit_and}
use wanopt_proxy.Common.{
  ℕ, ◌≡◌, ◌≤◌, Bool, true, false, ◌&&◌, Option, none, some, List, [], ◌∷◌, ◌++◌, arith, length,
  drop, take, length-drop, length-append, ==→eq, bytes_eq, ◌==◌, if◌then◌else◌,
}

-- The text functions of the package. `parse_ip` is `net.ParseIP`, which answers in the 16-byte
-- form, and whose longest text is an IPv6 address with an IPv4 tail. `parse_cidr` is the network
-- of `net.ParseCIDR`. `lower_text` and `trim_text` are `strings.ToLower` and
-- `strings.TrimSpace` on a text that is not ASCII.
pub record Net : Type 0 where
  pub parse_ip : List ℕ → Option (List ℕ)
  pub parse_ip-size : (s ip : List ℕ) → parse_ip s ≡ some ip → length ip ≡ 16
  pub parse_ip-text : (s ip : List ℕ) → parse_ip s ≡ some ip → length s ≤ 45
  pub parse_cidr : List ℕ → Option (List ℕ × List ℕ)
  pub lower_text : List ℕ → List ℕ
  pub trim_text : List ℕ → List ℕ

-- The first twelve bytes of an IPv4 address in the 16-byte form.
abbrev pub v4_prefix : List ℕ
v4_prefix = 0 ∷ 0 ∷ 0 ∷ 0 ∷ 0 ∷ 0 ∷ 0 ∷ 0 ∷ 0 ∷ 0 ∷ 0xff ∷ 0xff ∷ []

-- `IP.To4`; `none` is nil.
unfoldable pub to4 : List ℕ → Option (List ℕ)
to4 ip =
    if length ip == 4
    then some ip
    else if length ip == 16 && bytes_eq (take 12 ip) v4_prefix
    then some (drop 12 ip)
    else none

-- `IP.To16`.
unfoldable pub to16 : List ℕ → Option (List ℕ)
to16 ip =
    if length ip == 4 then some (v4_prefix ++ ip) else if length ip == 16 then some ip else none

-- `append(b, ip...)` of a nil slice appends nothing.
abbrev pub or_nil : Option (List ℕ) → List ℕ
or_nil none = []
or_nil (some b) = b

abbrev pub is_some {ℓ} : {A : Type ℓ} → Option A → Bool
is_some none = false
is_some (some a) = true

pub record IpNet : Type 0 where
  pub ip : List ℕ
  pub mask : List ℕ

-- `networkNumberAndMask`; `none` is the nil pair, which contains no address.
unfoldable pub network_and_mask : IpNet → Option (List ℕ × List ℕ)
unfolding to4
network_and_mask n =
    let number : List ℕ = elim (to4 n.ip) [ none ↦ n.ip | some v4 ↦ v4 ] in
    if length number == 4
    then (if length n.mask == 4
        then some (number, n.mask)
        else if length n.mask == 16
        then some (number, drop 12 n.mask)
        else none)
    else if length number == 16 && length n.mask == 16
    then some (number, n.mask)
    else none

-- The bytes agree under the mask.
abbrev pub masked_eq : List ℕ → List ℕ → List ℕ → Bool
masked_eq [] m ip = true
masked_eq (n ∷ ns) [] ip = false
masked_eq (n ∷ ns) (m ∷ ms) [] = false
masked_eq (n ∷ ns) (m ∷ ms) (i ∷ ip) = bit_and n m == bit_and i m && masked_eq ns ms ip

-- `IPNet.Contains`.
unfoldable pub contains : IpNet → List ℕ → Bool
unfolding network_and_mask
contains n ip =
    let short : List ℕ = elim (to4 ip) [ none ↦ ip | some v4 ↦ v4 ] in
    elim (network_and_mask n) [
      | none ↦ false
      | some (number, mask) ↦ length short == length number && masked_eq number mask short
    ]

pub length-to4 : (ip v4 : List ℕ) → to4 ip ≡ some v4 → length v4 ≡ 4
unfolding to4
length-to4 ip v4 h = ground (arith, length-drop 12 ip, ==→eq (length ip) 16, ==→eq (length ip) 4)

pub length-to16 : (ip v6 : List ℕ) → to16 ip ≡ some v6 → length v6 ≡ 16
unfolding to16
length-to16 ip v6 h = ground (arith, length-append v4_prefix ip)
