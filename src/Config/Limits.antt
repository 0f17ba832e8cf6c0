-- ===== src/Config/Limits.antt =====
-- internal/config/config.go and internal/config/rotation.go: the checks that the two kinds of
-- configuration share.
use wanopt_proxy.Common.{
  ℕ, ◌+◌, ◌≤◌, ◌≡◌, inl, inr, refl, arith, Bool, false, not, ◌&&◌, ◌||◌, Option, none, some, List,
  [], ◌∷◌, length, ltb, ◌==◌, if◌then◌else◌, bytes_eq, Result, ok, err, fail_if, ◌>>=◌, ◌>>◌,
  ok-injective, ℤ, pos, negsuc, below, above, is_zero, less_int, missing_psk, bad_base64,
  psk_too_long, psk_too_short, stray_rotation, bad_rotation, bad_endpoint, out_of_range, bad_alpn,
  bad_windows, narrow_window, extra_document, Bool-cases,
}
use wanopt_proxy.Tunnel.Credentials.{Time, seven_days, is_after}

-- A url.URL, as far as it is looked at.
pub record Url : Type 0 where
  pub scheme : List ℕ
  pub host : List ℕ
  pub has_user : Bool

-- The parsers that the configuration is checked with: `net.SplitHostPort`, `strconv.Atoi`, the
-- decoder of `base64.StdEncoding`, `url.Parse`, `filepath.IsAbs`, the path of a file beside the
-- configuration, and whether a host is the text of a loopback address.
pub record Parsers : Type 0 where
  pub split_host_port : List ℕ → Option (List ℕ × List ℕ)
  pub atoi : List ℕ → Option ℤ
  pub base64 : List ℕ → Option (List ℕ)
  pub parse_url : List ℕ → Option Url
  pub is_abs : List ℕ → Bool
  pub beside : List ℕ → List ℕ
  pub is_loopback : List ℕ → Bool

abbrev pub is_empty : List ℕ → Bool
is_empty s = length s == 0

-- `bounded`: the default in place of 0, and the error, whose text names the setting.
unfoldable pub bounded : ℤ → ℤ → ℕ → ℕ → Result ℤ
bounded p default low high =
    let v = if is_zero p then default else p in
    if below v low || above v high then err out_of_range else ok v

abbrev pub IsBetween : ℕ → ℕ → ℤ → Type 0
IsBetween low high v = (n : ℕ) × (v ≡ pos n) × (low ≤ n) × (n ≤ high)

between : (v : ℤ) (low high : ℕ) → (below v low || above v high) ≡ false → IsBetween low high v
between (pos n) low high h = (n, refl, ground arith, ground arith)
between (negsuc n) low high h = absurd (cc h)

-- A setting that `bounded` accepts lies within its limits, whatever its default.
pub bounded_sound :
    (p default v : ℤ) (low high : ℕ) → bounded p default low high ≡ ok v → IsBetween low high v
unfolding bounded
bounded_sound p default v low high h = elim (Bool-cases (below given low || above given high)) [
  | inl t ↦ absurd (cc (rw t at h))
  | inr t ↦ rw (← ok-injective (rw t at h)) (between given low high t)
]
  where
    given : ℤ
    given = if is_zero p then default else p

-- The three timeouts that `validateCommon` fills in, in seconds.
pub record Timeouts : Type 0 where
  pub idle : ℤ
  pub handshake : ℤ
  pub request : ℤ

abbrev window : ℤ → ℕ → ℤ
window v default = if is_zero v then pos default else v

unfoldable pub validate_windows : ℤ → ℤ → Result (Unit {0})
validate_windows stream conn =
    fail_if (below stream 0 || above stream 256 || below conn 0 || above conn 1024) bad_windows
    >> fail_if (less_int (window conn 24) (window stream 16)) narrow_window

module _ (ps : Parsers) where
  -- `DecodePSK`.
  unfoldable pub decode_psk : List ℕ → Result (List ℕ)
  decode_psk s = if is_empty s then err missing_psk else elim (ps.base64 s) [
    | none ↦ err bad_base64
    | some b ↦
        fail_if (ltb 256 (length b)) psk_too_long
        >> fail_if (ltb (length b) 16) psk_too_short
        >> ok b
  ]

  -- `validateEndpoint`.
  unfoldable pub validate_endpoint : List ℕ → Bool → Result (Unit {0})
  validate_endpoint addr host_required = elim (ps.split_host_port addr) [
    | none ↦ err bad_endpoint
    | some (host, port) ↦ elim (ps.atoi port) [
      | none ↦ err bad_endpoint
      | some n ↦
          fail_if (below n 1 || above n 65535 || (host_required && is_empty host)) bad_endpoint
    ]
  ]

  -- `validateCommon`.
  unfoldable pub validate_common : List ℕ → List ℕ → Timeouts → ℤ → ℤ → Result Timeouts
  validate_common alpn metrics t stream conn =
      fail_if (not (is_empty alpn) && not (bytes_eq alpn (b'h' ∷ b'3' ∷ []))) bad_alpn
      >> (if is_empty metrics then ok tt else validate_endpoint metrics false)
      >> (bounded t.idle (pos 60) 5 3600 >>= λ idle.
          bounded t.handshake (pos 10) 1 120 >>= λ handshake.
          bounded t.request (pos 15) 1 300 >>= λ request.
          validate_windows stream conn
          >> ok (record { idle = idle; handshake = handshake; request = request }))

-- `validateOverlap` at the time `now`.
unfoldable pub validate_overlap : ℕ → List ℕ → Time → Result (Unit {0})
validate_overlap now value none = if is_empty value then ok tt else err bad_rotation
validate_overlap now value (some t) =
    if is_empty value
    then err stray_rotation
    else fail_if (is_after (some t) (now + seven_days)) bad_rotation

-- `load` behind the read of at most 1 MiB, which fails by itself or because the file is larger:
-- `decode` takes one document off the bytes, and `at_end` is whether no other is left.
unfoldable pub load {ℓ} :
    {A : Type ℓ} → (List ℕ → Result (A × List ℕ)) → (List ℕ → Bool) → Result (List ℕ) → Result A
load decode at_end file = file >>= λ contents.
    decode contents >>= λ (c, rest). fail_if (not (at_end rest)) extra_document >> ok c
