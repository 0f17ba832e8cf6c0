-- ===== src/Acl/Names.antt =====
-- internal/acl/acl.go: `canonicalName` and `validName`.
pub mod Canonical
pub mod Suffix
use wanopt_proxy.Common.{
  ℕ, zero, suc, ◌+◌, ◌-◌, ◌≤◌, ◌<◌, ◌≡◌, refl, ap, ◌∙◌, arith, Bool, true, false, not, ◌&&◌, ◌||◌,
  List, [], ◌∷◌, ◌++◌, map, length, drop, all, any, ltb, leb, ◌==◌, if◌then◌else◌, Bool-cases, inl,
  inr, bytes_eq,
}
use wanopt_proxy.Net.{Net}
use wanopt_proxy.Protocol.Address.{trim_dot, split, is_lower, is_upper, is_digit}

abbrev pub is_ascii : ℕ → Bool
is_ascii c = ltb c 128

abbrev pub lower : ℕ → ℕ
lower c = if is_upper c then c + 32 else c

-- `strings.ToLower`.
unfoldable pub to_lower : Net → List ℕ → List ℕ
to_lower net s = if all is_ascii s then map lower s else net.lower_text s

unfoldable pub canonical_name : Net → List ℕ → List ℕ
unfolding to_lower
canonical_name net s = to_lower net (trim_dot s)

abbrev pub name_char : ℕ → Bool
name_char c = is_lower c || is_digit c || c == b'-' || c == b'_'

abbrev pub name_label : List ℕ → Bool
name_label l = not (length l == 0 || ltb 63 (length l)) && all name_char l

unfoldable pub valid_name : List ℕ → Bool
unfolding split
valid_name s = not (length s == 0 || ltb 253 (length s)) && all name_label (split b'.' s)

-- `strings.HasSuffix`.
unfoldable pub has_suffix : List ℕ → List ℕ → Bool
has_suffix s suffix =
    leb (length suffix) (length s) && bytes_eq (drop (length s - length suffix) s) suffix
