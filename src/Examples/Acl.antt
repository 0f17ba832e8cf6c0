-- ===== src/Examples/Acl.antt =====
-- The theorems on the policy at concrete inputs.
use wanopt_proxy.Common.{
  ℕ, ◌≡◌, ◌≢◌, ◌↔◌, refl, true, false, none, some, List, [], ◌∷◌, All, Result, ok, err, acl_denied,
  pos, ◌++◌, ◌==◌, if◌then◌else◌,
}
use wanopt_proxy.Examples.Values.{net}
use wanopt_proxy.Net.{contains, network_and_mask}
use wanopt_proxy.Protocol.Address.{Address, atyp_domain, atyp_ipv4, atyp_ipv6, trim_dot}
use wanopt_proxy.Acl.Names.{canonical_name, valid_name, has_suffix}
use wanopt_proxy.Acl.Rules.{Rule, Acl, make, match_any, rule_matches, ports_allowed}
use wanopt_proxy.Acl.Rules.Matching.{IsWithin, domain_rule_iff}
use wanopt_proxy.Acl.Rules.Parsing.{IsProper, IsPort, make_sound}
use wanopt_proxy.Acl.Policy.{normalized, resolved_allowed}
use wanopt_proxy.Acl.Resolve.{IpAddr, free, unmap, candidate, screen, resolve}
use wanopt_proxy.Acl.Resolve.Sound.{Permitted, resolve_sound, resolve_denied}
use wanopt_proxy.Acl.Dial.{
  Dialer, Side, primary, fallback, Event, expires, finishes, start, race, step, take_result,
  drop_result, results, family, dial_from, dial_addresses, dial_families, dial_context,
  attempt_timeout,
}
use wanopt_proxy.Acl.Dial.Race.{IsRace, race_sound}
use wanopt_proxy.Acl.Dial.Approved.{dial_context-resolve}

abbrev domain : List ℕ
domain = b'b' ∷ b'.' ∷ b'c' ∷ []

abbrev rule : Rule
rule = record { cidr = none; domain = domain }

abbrev policy : Acl
policy = record {
  allow_hosts = rule ∷ [];
  deny_hosts = [];
  allow_ports = 443 ∷ [];
  deny_ports = [];
}

abbrev addr : Address
addr = record { atyp = atyp_domain; host = b'a' ∷ b'.' ∷ domain; ip = []; port = 443 }

-- The lookup answers with 9.8.7.6.
abbrev lookup : List ℕ → Result (List IpAddr)
lookup host = ok (record { bytes = 9 ∷ 8 ∷ 7 ∷ 6 ∷ []; zone = [] } ∷ [])

abbrev out : List Address
out = record { atyp = atyp_ipv4; host = []; ip = 9 ∷ 8 ∷ 7 ∷ 6 ∷ []; port = 443 } ∷ []

normal : normalized net addr ≡ ok addr
unfolding normalized canonical_name valid_name trim_dot
normal = refl

resolves : resolve net (some policy) free lookup addr ≡ ok out
unfolding resolve normalized canonical_name valid_name trim_dot ports_allowed match_any rule_matches
    has_suffix contains network_and_mask screen unmap candidate resolved_allowed
resolves = refl

-- The lookup answers with 9.8.7.6 and with 2001::1, whose family is raced behind the first.
abbrev sixth : List ℕ
sixth = 32 ∷ 1 ∷ 0 ∷ 0 ∷ 0 ∷ 0 ∷ 0 ∷ 0 ∷ 0 ∷ 0 ∷ 0 ∷ 0 ∷ 0 ∷ 0 ∷ 0 ∷ 1 ∷ []

abbrev lookup_both : List ℕ → Result (List IpAddr)
lookup_both host =
    ok (record { bytes = 9 ∷ 8 ∷ 7 ∷ 6 ∷ []; zone = [] } ∷ record { bytes = sixth; zone = [] } ∷ [])

abbrev both : List Address
both =
    record { atyp = atyp_ipv4; host = []; ip = 9 ∷ 8 ∷ 7 ∷ 6 ∷ []; port = 443 }
    ∷ record { atyp = atyp_ipv6; host = []; ip = sixth; port = 443 }
    ∷ []

resolves_both : resolve net (some policy) free lookup_both addr ≡ ok both
unfolding resolve normalized canonical_name valid_name trim_dot ports_allowed match_any rule_matches
    has_suffix contains network_and_mask screen unmap candidate resolved_allowed
resolves_both = refl

-- The IPv4 endpoint refuses, the other one gives the connection 7.
abbrev dialer : Dialer
dialer = record {
  deadline_at = some 1000;
  now = λ i. 0;
  dial = λ timeout a. if a.atyp == atyp_ipv4 then err acl_denied else ok 7;
  canceled = λ i. none;
}

abbrev dialers : Side → Dialer
dialers side = dialer

abbrev course : List Event
course = finishes primary ∷ expires ∷ finishes fallback ∷ []

dials : dial_context true (ok both) dialers course ≡ some (ok (some 7))
unfolding dial_context dial_families dial_addresses dial_from attempt_timeout family race step
    take_result drop_result
dials = refl

dial_context-resolve_example :
    (a : Address) × (normalized net addr ≡ ok a)
    × (side : Side) × (b : Address) × Permitted (some policy) a b
    × (timeout : ℕ) × (dialer.dial timeout b ≡ ok 7)
dial_context-resolve_example =
    dial_context-resolve net (some policy) free lookup_both addr true dialers course 7
      (rw resolves_both dials)

race_sound_example :
    IsRace
      (results dialers atyp_ipv4 both)
      false
      (race (results dialers atyp_ipv4 both) course start)
    × ((race
          (results dialers atyp_ipv4 both)
          (course ++ (finishes primary ∷ finishes fallback ∷ []))
          start).answer
        ≢ none)
race_sound_example = race_sound (results dialers atyp_ipv4 both) course

resolve_sound_example :
    (a : Address) × (normalized net addr ≡ ok a) × (out ≢ []) × All (Permitted (some policy) a) out
resolve_sound_example = resolve_sound net (some policy) free lookup addr out resolves

abbrev closed : Acl
closed = record { allow_hosts = []; deny_hosts = rule ∷ []; allow_ports = []; deny_ports = [] }

denies : match_any closed.deny_hosts addr ≡ true
unfolding match_any rule_matches has_suffix
denies = refl

resolve_denied_example : resolve net (some closed) free lookup addr ≡ err acl_denied
resolve_denied_example = resolve_denied net closed free lookup addr addr normal denies

domain_rule_iff_example :
    (rule_matches rule addr ≡ true) ↔ ((addr.atyp ≡ atyp_domain) × IsWithin domain addr.host)
domain_rule_iff_example = domain_rule_iff domain addr (λ e. cc)

abbrev specs : List (List ℕ)
specs = (b'*' ∷ b'.' ∷ domain) ∷ []

accepted : make net specs [] (pos 443 ∷ []) [] ≡ ok policy
unfolding make canonical_name valid_name trim_dot
accepted = refl

make_sound_example :
    All IsProper policy.allow_hosts
    × All IsProper policy.deny_hosts
    × All IsPort policy.allow_ports
    × All IsPort policy.deny_ports
make_sound_example = make_sound net specs [] (pos 443 ∷ []) [] policy accepted
