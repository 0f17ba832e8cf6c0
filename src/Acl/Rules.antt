-- ===== src/Acl/Rules.antt =====
-- internal/acl/acl.go: `List`, `rule`, `New`, `parseRules`, `portsAllowed` and `matchAny`.
pub mod Matching
pub mod Parsing
use wanopt_proxy.Common.{
  ℕ, zero, suc, ◌≡◌, Bool, true, false, not, ◌&&◌, ◌||◌, Option, none, some, List, [], ◌∷◌, ◌++◌,
  length, take, drop, any, all, ◌==◌, if◌then◌else◌, bytes_eq, Result, ok, err, Error, acl_bad_cidr,
  acl_bad_pattern, acl_bad_port, fail_if, ◌>>=◌, ◌>>◌, ℤ, below, above, to_nat,
}
use wanopt_proxy.Net.{Net, IpNet, to4, contains}
use wanopt_proxy.Protocol.Address.{Address, atyp_domain}
use wanopt_proxy.Acl.Names.{is_ascii, canonical_name, valid_name, has_suffix}
use mathlib.Core.List.{reverse}

-- `cidr` is the pointer, `none` for nil, and an empty `domain` is no domain.
pub record Rule : Type 0 where
  pub cidr : Option IpNet
  pub domain : List ℕ

-- A policy. The two maps from ports are the lists of their keys.
pub record Acl : Type 0 where
  pub allow_hosts : List Rule
  pub deny_hosts : List Rule
  pub allow_ports : List ℕ
  pub deny_ports : List ℕ

abbrev is_space : ℕ → Bool
is_space c = c == b' ' || c == 9 || c == 10 || c == 11 || c == 12 || c == 13

abbrev trim_left : List ℕ → List ℕ
trim_left [] = []
trim_left (c ∷ cs) = if is_space c then trim_left cs else c ∷ cs

-- `strings.TrimSpace`.
trim_space : Net → List ℕ → List ℕ
trim_space net s =
    if all is_ascii s then reverse (trim_left (reverse (trim_left s))) else net.trim_text s

abbrev ones : ℕ → List ℕ
ones zero = []
ones (suc n) = 0xff ∷ ones n

-- `strings.TrimPrefix(s, "*.")`.
abbrev trim_star : List ℕ → List ℕ
trim_star s = if bytes_eq (take 2 s) (b'*' ∷ b'.' ∷ []) then drop 2 s else s

cidr_rule : Option (List ℕ × List ℕ) → Result Rule
cidr_rule none = err acl_bad_cidr
cidr_rule (some (ip, mask)) =
    ok (record { cidr = some (record { ip = ip; mask = mask }); domain = [] })

-- One address: a network with a mask of ones, in four bytes if it is IPv4.
ip_rule : List ℕ → Rule
ip_rule ip = elim (to4 ip) [
  | none ↦ record { cidr = some (record { ip = ip; mask = ones 16 }); domain = [] }
  | some v4 ↦ record { cidr = some (record { ip = v4; mask = ones 4 }); domain = [] }
]

domain_rule : List ℕ → Result Rule
domain_rule s = do
  fail_if (not (valid_name s)) acl_bad_pattern
  ok (record { cidr = none; domain = s })

module _ (net : Net) where
  -- The body of the loop of `parseRules` on a pattern that is trimmed and not empty.
  pub parse_rule : List ℕ → Result Rule
  unfolding cidr_rule ip_rule domain_rule
  parse_rule s =
      if any (λ c. c == b'/') s then cidr_rule (net.parse_cidr s) else elim (net.parse_ip s) [
        | none ↦ domain_rule (canonical_name net (trim_star s))
        | some ip ↦ ok (ip_rule ip)
      ]

  pub parse_rules : List (List ℕ) → Result (List Rule)
  unfolding parse_rule trim_space
  parse_rules [] = ok []
  parse_rules (spec ∷ specs) =
      let s = trim_space net spec in
      let rest = parse_rules specs in
      if length s == 0 then rest else (do r ← parse_rule s; rs ← rest; ok (r ∷ rs))

pub parse_ports : List ℤ → Result (List ℕ)
parse_ports [] = ok []
parse_ports (p ∷ ps) = do
  fail_if (below p 1 || above p 65535) acl_bad_port
  rest ← parse_ports ps
  ok (to_nat p ∷ rest)

-- `New`.
unfoldable pub make : Net → List (List ℕ) → List (List ℕ) → List ℤ → List ℤ → Result Acl
unfolding parse_rules parse_ports
make net allow_hosts deny_hosts allow_ports deny_ports = do
  ah ← parse_rules net allow_hosts
  dh ← parse_rules net deny_hosts
  ap ← parse_ports allow_ports
  dp ← parse_ports deny_ports
  ok (record { allow_hosts = ah; deny_hosts = dh; allow_ports = ap; deny_ports = dp })

-- `l == nil` is `none`.
unfoldable pub ports_allowed : Option Acl → ℕ → Bool
ports_allowed none port = true
ports_allowed (some l) port =
    not (any (λ p. p == port) l.deny_ports)
    && (length l.allow_ports == 0 || any (λ p. p == port) l.allow_ports)

abbrev cidr_matches : Option IpNet → Address → Bool
cidr_matches none addr = false
cidr_matches (some n) addr = not (addr.atyp == atyp_domain) && contains n addr.ip

abbrev domain_matches : List ℕ → Address → Bool
domain_matches domain addr =
    not (length domain == 0)
    && addr.atyp == atyp_domain
    && (bytes_eq addr.host domain || has_suffix addr.host (b'.' ∷ domain))

unfoldable pub rule_matches : Rule → Address → Bool
rule_matches r addr = cidr_matches r.cidr addr || domain_matches r.domain addr

-- `matchAny`.
unfoldable pub match_any : List Rule → Address → Bool
unfolding rule_matches
match_any rules addr = any (λ r. rule_matches r addr) rules
