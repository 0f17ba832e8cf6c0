-- ===== src/Proxy/Socks.antt =====
-- internal/proxy/socks5.go: the SOCKS5 negotiation, up to the relay of a connection.
pub mod Negotiated
use wanopt_proxy.Common.{
  ℕ, Bool, true, false, not, ◌&&◌, ◌||◌, Option, none, some, List, [], ◌∷◌, ◌++◌, length, get_or,
  any, ◌==◌, if◌then◌else◌, IoError, io, Result, ok, err, fail_if, ◌>>=◌, ◌>>◌, Reader, read_full,
  Sink, write, bad_socks, no_method, empty_domain,
}
use wanopt_proxy.Net.{Net, to4, to16}
use wanopt_proxy.Protocol.Address.{Address, atyp_ipv4, atyp_ipv6, atyp_domain, be16, read_address}
use wanopt_proxy.Protocol.Frame.{status_host_unreach, status_not_allowed}

abbrev pub socks_version : ℕ
socks_version = 5

abbrev pub method_no_auth : ℕ
method_no_auth = 0

abbrev pub method_not_acceptable : ℕ
method_not_acceptable = 0xff

abbrev pub cmd_connect : ℕ
cmd_connect = 1

abbrev pub cmd_udp_associate : ℕ
cmd_udp_associate = 3

abbrev pub rep_success : ℕ
rep_success = 0

abbrev pub rep_general_failure : ℕ
rep_general_failure = 1

abbrev pub rep_not_allowed : ℕ
rep_not_allowed = 2

abbrev pub rep_host_unreach : ℕ
rep_host_unreach = 4

abbrev pub rep_cmd_not_support : ℕ
rep_cmd_not_support = 7

abbrev pub rep_address_not_supported : ℕ
rep_address_not_supported = 8

-- The choice among the methods that the client offers: the answer and the error behind it.
abbrev answer_method : Bool → Option IoError → Reader → Result Reader
answer_method accepted (some e) r = err (io e)
answer_method true none r = ok r
answer_method false none r = err no_method

choose : List ℕ → Reader → Sink → Result Reader × Sink
choose methods r w =
    let accepted = any (λ m. m == method_no_auth) methods in
    let ((n, e), w') =
      write (socks_version ∷ (if accepted then method_no_auth else method_not_acceptable) ∷ []) w in
    (answer_method accepted e r, w')

-- `socksHandshake`: the rest of the stream or the error, and the writer.
unfoldable pub socks_handshake : Reader → Sink → Result Reader × Sink
unfolding choose
socks_handshake r w = elim (read_full 2 r) [
  | err e ↦ (err e, w)
  | ok (hdr, r1) ↦
      if not (get_or hdr 0 0 == socks_version)
      then (err bad_socks, w)
      else elim (read_full (get_or hdr 1 0) r1) [
        | err e ↦ (err e, w)
        | ok (methods, r2) ↦ choose methods r2 w
      ]
]

-- `readSOCKSRequest`: the command, the address, and the rest of the stream.
unfoldable pub read_socks_request : Net → Reader → Result (ℕ × Address × Reader)
read_socks_request net r = read_full 3 r >>= λ (hdr, r1).
    fail_if (not (get_or hdr 0 0 == socks_version) || not (get_or hdr 2 0 == 0)) bad_socks
    >> (read_address net r1 >>= λ (addr, r2).
        fail_if (addr.atyp == atyp_domain && length addr.host == 0) empty_domain
        >> ok (get_or hdr 1 0, addr, r2))

-- The address field of a reply, which for an address that is neither is four zeros.
unfoldable pub bound_field : List ℕ → List ℕ
bound_field ip = elim (to4 ip) [
  | some v4 ↦ atyp_ipv4 ∷ v4
  | none ↦ elim (to16 ip) [ some v6 ↦ atyp_ipv6 ∷ v6 | none ↦ atyp_ipv4 ∷ 0 ∷ 0 ∷ 0 ∷ 0 ∷ [] ]
]

unfoldable pub reply_bytes : ℕ → List ℕ → ℕ → List ℕ
unfolding bound_field
reply_bytes rep ip port = socks_version ∷ rep ∷ 0 ∷ (bound_field ip ++ be16 port)

-- `writeSOCKSReply`.
unfoldable pub write_socks_reply : ℕ → List ℕ → ℕ → Sink → Option IoError × Sink
unfolding reply_bytes
write_socks_reply rep ip port w = let ((n, e), w') = write (reply_bytes rep ip port) w in (e, w')

abbrev pub zero_ip : List ℕ
zero_ip = 0 ∷ 0 ∷ 0 ∷ 0 ∷ []

-- The error of a dial over the tunnel: `ErrCapacity`, a `DialError`, or another.
pub data DialFailure : Type 0 where
  at_capacity : DialFailure
  dial_error : ℕ → DialFailure
  other_failure : DialFailure

-- `dialErrToRep`.
unfoldable pub dial_err_to_rep : DialFailure → ℕ
dial_err_to_rep (dial_error status) =
    if status == status_host_unreach
    then rep_host_unreach
    else if status == status_not_allowed
    then rep_not_allowed
    else rep_general_failure
dial_err_to_rep at_capacity = rep_general_failure
dial_err_to_rep other_failure = rep_general_failure

-- `countDialErr`: whether the metrics count the error.
unfoldable pub counts_dial_err : DialFailure → Bool
counts_dial_err at_capacity = false
counts_dial_err (dial_error status) = not (status == status_not_allowed)
counts_dial_err other_failure = true

-- What becomes of a connection: it is closed, relayed to an address, or owns a UDP association
-- for an address.
pub data Outcome : Type 0 where
  closes : Outcome
  relays : Address → Outcome
  associates : Address → Outcome

unfoldable pub relay_if : Option IoError → Address → Outcome
relay_if none addr = relays addr
relay_if (some e) addr = closes

-- `socksConnect`, where `dial` answers for the tunnel: the writer, the outcome, and the dial
-- errors counted.
unfoldable pub socks_connect : (Address → Option DialFailure) → Address → Sink → Sink × Outcome × ℕ
unfolding relay_if
socks_connect dial addr w = elim (dial addr) [
  | some e ↦
      let (_, w') = write_socks_reply (dial_err_to_rep e) zero_ip 0 w in
      (w', closes, if counts_dial_err e then 1 else 0)
  | none ↦ let (e, w') = write_socks_reply rep_success zero_ip 0 w in (w', relay_if e addr, 0)
]

unfoldable pub refuse : ℕ → Sink → Sink × Outcome × ℕ
refuse rep w = let (_, w') = write_socks_reply rep zero_ip 0 w in (w', closes, 0)

-- The switch of `handleSOCKS`.
unfoldable pub dispatch : (Address → Option DialFailure) → ℕ → Address → Sink → Sink × Outcome × ℕ
unfolding refuse
dispatch dial cmd addr w =
    if cmd == cmd_connect
    then (if addr.port == 0 then refuse rep_address_not_supported w else socks_connect dial addr w)
    else if cmd == cmd_udp_associate
    then (w, associates addr, 0)
    else refuse rep_cmd_not_support w

-- `handleSOCKS`.
unfoldable pub handle_socks :
    Net → (Address → Option DialFailure) → Reader → Sink → Sink × Outcome × ℕ
unfolding refuse
handle_socks net dial r w =
    let (negotiated, w1) = socks_handshake r w in
    elim negotiated [
      | err e ↦ (w1, closes, 0)
      | ok r1 ↦ elim (read_socks_request net r1) [
        | err e ↦ refuse rep_address_not_supported w1
        | ok (cmd, addr, r2) ↦ dispatch dial cmd addr w1
      ]
    ]
