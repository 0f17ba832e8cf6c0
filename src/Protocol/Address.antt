-- ===== src/Protocol/Address.antt =====
-- internal/protocol/address.go: the SOCKS5-like address codec and its validation.
pub mod Agree
pub mod Bounds
pub mod Sound
pub mod RoundTrip
pub mod Text
use wanopt_proxy.Common.{
  ℕ, zero, suc, ◌+◌, ◌-◌, ◌/◌, ◌%◌, ◌*◌, ◌≤◌, ◌<◌, ◌≡◌, Bool, true, false, not, ◌&&◌, ◌||◌, Option,
  none, some, List, [], ◌∷◌, ◌++◌, length, get_or, take, drop, all, any, ◌==◌, leb, ltb,
  if◌then◌else◌, Result, ok, err, Error, bad_address, fail_if, Reader, read_full, ◌>>=◌, ◌>>◌,
}
use wanopt_proxy.Net.{Net, to4, to16, or_nil, is_some}

abbrev pub atyp_ipv4 : ℕ
atyp_ipv4 = 1

abbrev pub atyp_domain : ℕ
atyp_domain = 3

abbrev pub atyp_ipv6 : ℕ
atyp_ipv6 = 4

pub record Address : Type 0 where
  pub atyp : ℕ
  pub host : List ℕ
  pub ip : List ℕ
  pub port : ℕ

-- `binary.BigEndian.AppendUint16` and `Uint16`.
abbrev pub be16 : ℕ → List ℕ
be16 v = (v / 256 % 256) ∷ (v % 256) ∷ []

abbrev pub be16_value : List ℕ → ℕ
be16_value b = get_or b 0 0 * 256 + get_or b 1 0

-- `strings.Split(s, sep)` for a separator of one byte: the first piece, and the others.
abbrev pub split_cons : ℕ → ℕ → List (List ℕ) → List (List ℕ)
split_cons sep c [] = []
split_cons sep c (p ∷ ps) = if c == sep then [] ∷ p ∷ ps else (c ∷ p) ∷ ps

unfoldable pub split : ℕ → List ℕ → List (List ℕ)
split sep [] = [] ∷ []
split sep (c ∷ cs) = split_cons sep c (split sep cs)

-- `strings.TrimSuffix(s, ".")`.
unfoldable pub trim_dot : List ℕ → List ℕ
trim_dot [] = []
trim_dot (c ∷ []) = if c == b'.' then [] else c ∷ []
trim_dot (c ∷ d ∷ cs) = c ∷ trim_dot (d ∷ cs)

abbrev pub is_lower : ℕ → Bool
is_lower c = leb b'a' c && leb c b'z'

abbrev pub is_upper : ℕ → Bool
is_upper c = leb b'A' c && leb c b'Z'

abbrev pub is_digit : ℕ → Bool
is_digit c = leb b'0' c && leb c b'9'

-- A byte of a name; a rune past ASCII, of bytes from 128 on, is refused either way.
abbrev pub host_char : ℕ → Bool
host_char c = is_lower c || is_upper c || is_digit c || c == b'-' || c == b'_'

-- The body of the loop over the labels of a host.
abbrev pub label_ok : List ℕ → Bool
label_ok l =
    not (
      length l == 0
      || ltb 63 (length l)
      || get_or l 0 0 == b'-'
      || get_or l (length l - 1) 0 == b'-')
    && all host_char l

-- `strings.TrimSuffix` and the checks on a host name that is no IP literal.
unfoldable pub valid_host : List ℕ → Bool
unfolding split trim_dot
valid_host h =
    let host = trim_dot h in
    not (length host == 0 || ltb 253 (length host)) && all label_ok (split b'.' host)

module _ (net : Net) where
  -- `Validate`; `true` is a nil error, and every failure is `errBadAddress`.
  unfoldable pub validate : Address → Bool
  unfolding valid_host
  validate a =
      if a.atyp == atyp_ipv4
      then is_some (to4 a.ip)
      else if a.atyp == atyp_ipv6
      then is_some (to16 a.ip)
      else if a.atyp == atyp_domain
      then is_some (net.parse_ip a.host) || valid_host a.host
      else false

  -- `return a, a.Validate()`.
  abbrev pub checked : Address → Result Address
  checked a = if validate a then ok a else err bad_address

-- `Encode` appends the wire form.
unfoldable pub encode : Address → List ℕ → List ℕ
encode a b =
    (if a.atyp == atyp_ipv4
      then b ++ (atyp_ipv4 ∷ or_nil (to4 a.ip))
      else if a.atyp == atyp_ipv6
      then b ++ (atyp_ipv6 ∷ or_nil (to16 a.ip))
      else if a.atyp == atyp_domain
      then b ++ (atyp_domain ∷ (length a.host % 256) ∷ a.host)
      else b)
    ++ be16 a.port

module _ (net : Net) where
  -- The end of `ReadAddress`: the port, and the validation of the address read.
  read_port : Address → Reader → Result (Address × Reader)
  read_port a r = do
    (port, r') ← read_full 2 r
    addr ← checked net (record a { port = be16_value port })
    ok (addr, r')

  abbrev blank : ℕ → Address
  blank atyp = record { atyp = atyp; host = []; ip = []; port = 0 }

  read_ip : ℕ → ℕ → Reader → Result (Address × Reader)
  unfolding read_port
  read_ip atyp size r = do
    (buf, r') ← read_full size r
    read_port (record (blank atyp) { ip = buf }) r'

  read_domain : Reader → Result (Address × Reader)
  unfolding read_port
  read_domain r = do
    (l, r') ← read_full 1 r
    (buf, r'') ← read_full (get_or l 0 0) r'
    read_port (record (blank atyp_domain) { host = buf }) r''

  abbrev read_body : ℕ → Reader → Result (Address × Reader)
  read_body atyp r =
      if atyp == atyp_ipv4
      then read_ip atyp_ipv4 4 r
      else if atyp == atyp_ipv6
      then read_ip atyp_ipv6 16 r
      else if atyp == atyp_domain
      then read_domain r
      else err bad_address

  -- `ReadAddress`.
  unfoldable pub read_address : Reader → Result (Address × Reader)
  unfolding read_ip read_domain
  read_address r = do (atyp, r') ← read_full 1 r; read_body (get_or atyp 0 0) r'

  -- The end of `decodeAddress`: the port at `off`, and what was used.
  decode_port : Address → List ℕ → ℕ → Result (Address × ℕ)
  decode_port a buf off = do
    addr ← checked net (record a { port = be16_value (take 2 (drop off buf)) })
    ok (addr, off + 2)

  decode_ip : ℕ → ℕ → List ℕ → Result (Address × ℕ)
  unfolding decode_port
  decode_ip atyp size buf = do
    fail_if (ltb (length buf) (1 + size + 2)) bad_address
    decode_port (record (blank atyp) { ip = take size (drop 1 buf) }) buf (1 + size)

  decode_domain : List ℕ → Result (Address × ℕ)
  unfolding decode_port
  decode_domain buf = do
    fail_if (ltb (length buf) 2) bad_address
    let dl = get_or buf 1 0
    fail_if (ltb (length buf) (2 + dl + 2)) bad_address
    decode_port (record (blank atyp_domain) { host = take dl (drop 2 buf) }) buf (2 + dl)

  abbrev decode_body : ℕ → List ℕ → Result (Address × ℕ)
  decode_body atyp buf =
      if atyp == atyp_ipv4
      then decode_ip atyp_ipv4 4 buf
      else if atyp == atyp_ipv6
      then decode_ip atyp_ipv6 16 buf
      else if atyp == atyp_domain
      then decode_domain buf
      else err bad_address

  -- `decodeAddress`: the address at the front of a buffer, and the number of bytes consumed.
  unfoldable pub decode_address : List ℕ → Result (Address × ℕ)
  unfolding decode_ip decode_domain
  decode_address buf = do fail_if (ltb (length buf) 1) bad_address; decode_body (get_or buf 0 0) buf

-- What a reader sees of an address: the wire form of the part that its type selects.
unfoldable pub wire_form : Address → Address
wire_form a =
    if a.atyp == atyp_ipv4
    then record a { ip = or_nil (to4 a.ip); host = [] }
    else if a.atyp == atyp_ipv6
    then record a { ip = or_nil (to16 a.ip); host = [] }
    else record a { ip = [] }
