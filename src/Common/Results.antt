-- ===== src/Common/Results.antt =====
-- Go errors as values, and Go's (value, error) pair as a result.
use Prim.Native.Nat.{ℕ}
use mathlib.Core.Path.{◌≡◌, refl}
use mathlib.Core.Logic.{◌⊎◌, inl, inr}
use mathlib.Core.Bool.{Bool, true, false}
use mathlib.Core.Option.{Option, none, some}

-- The errors of package io, and any other error of a connection by a number.
pub data IoError : Type 0 where
  eof unexpected_eof short_write no_progress closed deadline canceled : IoError
  failed : ℕ → IoError

pub data Error : Type 0 where
  io : IoError → Error
  bad_address domain_too_long bad_port no_capacity : Error
  connect_status : ℕ → Error
  joined : Error → Error → Error
  unsupported_version bad_datagram_header bad_session_id payload_too_large : Error
  acl_denied acl_busy acl_address acl_bad_cidr acl_bad_pattern acl_bad_port : Error
  bad_block_length raw_mismatch bad_block unknown_mode : Error
  missing_psk bad_base64 psk_too_long psk_too_short stray_rotation bad_rotation bad_endpoint : Error
  out_of_range bad_alpn bad_windows narrow_window previous_is_primary lone_certificate
        no_certificate :
      Error
  bad_decoy bad_acl_port bad_congestion codecs_exceed_streams bad_pin same_pin not_loopback
        overlapping :
      Error
  file_too_large extra_document bad_socks no_method empty_domain bad_socks_udp udp_too_large
        unrequested_flags client_closed zero_port :
      Error
  dial_failed : ℕ → Error
  server_auth_failed client_auth_failed key_revoked invalid_credentials invalid_overlap
        stray_expiry :
      Error

-- Go's (value, error) pair: the error if there is one.
pub data Result {ℓ} (A : Type ℓ) : Type ℓ where
  err : Error → Result A
  ok : A → Result A

abbrev pub to_option {ℓ} : {A : Type ℓ} → Result A → Option A
to_option (err e) = none
to_option (ok a) = some a

infixl 5 ◌>>=◌
-- `if err != nil { return err }` behind a call whose value the rest takes.
abbrev pub ◌>>=◌ {ℓ κ} : {X : Type ℓ} {Y : Type κ} → Result X → (X → Result Y) → Result Y
err failure >>= rest = err failure
ok value >>= rest = rest value

-- The early return `if test { return e }`.
abbrev pub fail_if : Bool → Error → Result (Unit {0})
fail_if true e = err e
fail_if false e = ok tt

infixl 5 ◌>>◌
-- The same behind a call that gives only an error.
abbrev pub ◌>>◌ {κ} : {Y : Type κ} → Result (Unit {0}) → Result Y → Result Y
call >> rest = call >>= λ done. rest

-- `if err != nil { return err }` on an error alone.
abbrev pub or_error : Option Error → Result (Unit {0})
or_error none = ok tt
or_error (some e) = err e

abbrev pub is_eof : IoError → Bool
is_eof eof = true
is_eof unexpected_eof = false
is_eof _ = false

-- A chain that succeeds has succeeded in its first call, and the rest has on that call's value.
pub >>=-eq-ok {ℓ κ} :
    {X : Type ℓ} {Y : Type κ} (call : Result X) (rest : X → Result Y) {y : Y}
    → (call >>= rest) ≡ ok y
    → (x : X) × (call ≡ ok x) × (rest x ≡ ok y)
>>=-eq-ok (err failure) rest h = cc
>>=-eq-ok (ok value) rest h = (value, refl, h)

pub >>-eq-ok {κ} :
    {Y : Type κ} (call : Result (Unit {0})) (rest : Result Y) {y : Y}
    → (call >> rest) ≡ ok y
    → rest ≡ ok y
>>-eq-ok (err failure) rest h = cc
>>-eq-ok (ok done) rest h = h

pub ok-injective {ℓ} : {A : Type ℓ} {a b : A} → ok a ≡ ok b → a ≡ b
ok-injective h = cc

-- To split on a computed result and keep the equation.
pub Result-cases {ℓ} :
    {A : Type ℓ} (m : Result A) → ((a : A) × (m ≡ ok a)) ⊎ ((e : Error) × (m ≡ err e))
Result-cases (ok a) = inl (a, refl)
Result-cases (err e) = inr (e, refl)
