-- ===== src/Tunnel/Credentials.antt =====
-- internal/tunnel/credentials.go: the server's keys, which can be replaced while it runs, and
-- internal/server/credentials.go: the sessions that a replacement ends.
pub mod Update
pub mod Authenticate
use wanopt_proxy.Common.{
  ℕ, ◌+◌, ◌*◌, ◌≡◌, Bool, true, false, not, ◌&&◌, ◌||◌, Option, none, some, List, [], ◌∷◌, length,
  ltb, ◌==◌, bytes_eq, if◌then◌else◌, IoError, Error, io, client_auth_failed, invalid_credentials,
  invalid_overlap, stray_expiry, Result, ok, err, Reader, read_full, Sink, write_full,
}
use wanopt_proxy.Tunnel.Auth.{Crypto, proof, proof_len, client_word, server_word}

-- A time.Time in seconds; `none` is the zero time, which is before every other.
abbrev pub Time : Type 0
Time = Option ℕ

abbrev pub is_before : ℕ → Time → Bool
is_before now none = false
is_before now (some t) = ltb now t

abbrev pub is_after : Time → ℕ → Bool
is_after none limit = false
is_after (some t) limit = ltb limit t

abbrev pub is_zero : Time → Bool
is_zero none = true
is_zero (some t) = false

abbrev pub seven_days : ℕ
seven_days = 7 * 24 * 3600

-- A tls.Certificate: the number of its certificates, and whether it has a private key.
pub record Certificate : Type 0 where
  pub chain : ℕ
  pub has_key : Bool

pub record Snapshot : Type 0 where
  pub primary : List ℕ
  pub previous : List ℕ
  pub expires : Time
  pub cert : Certificate

abbrev pub bad_length : List ℕ → Bool
bad_length key = ltb (length key) 16 || ltb 256 (length key)

-- `Update` at the time `now`: the snapshot behind it and its error.
unfoldable pub update :
    ℕ → List ℕ → List ℕ → Time → Certificate → Snapshot → Option Error × Snapshot
update now primary previous expires cert s =
    if bad_length primary || cert.chain == 0 || not cert.has_key
    then (some invalid_credentials, s)
    else if ltb 0 (length previous)
        && (bad_length previous
            || bytes_eq primary previous
            || is_zero expires
            || is_after expires (now + seven_days))
    then (some invalid_overlap, s)
    else if length previous == 0 && not (is_zero expires)
    then (some stray_expiry, s)
    else (none, record { primary = primary; previous = previous; expires = expires; cert = cert })

module _ (c : Crypto) where
  -- `Accepts`: whether a session under the key with the hash `id` may go on.
  unfoldable pub accepts : ℕ → Snapshot → List ℕ → Bool
  accepts now s id =
      bytes_eq id (c.sha256 s.primary)
      || (bytes_eq id (c.sha256 s.previous) && ltb 0 (length s.previous) && is_before now s.expires)

  -- The key whose proof a client has sent.
  unfoldable pub matching_key : ℕ → Snapshot → List ℕ → List ℕ → Option (List ℕ)
  matching_key now s exporter got =
      if bytes_eq got (proof c s.primary exporter client_word) && ltb 0 (length s.primary)
      then some s.primary
      else if bytes_eq got (proof c s.previous exporter client_word)
          && ltb 0 (length s.previous)
          && is_before now s.expires
      then some s.previous
      else none

  reply : List ℕ → List ℕ → Sink → Option Error × Sink
  reply key exporter w =
      let (e, w') = write_full (proof c key exporter server_word) w in
      (elim e [ none ↦ none | some e' ↦ some (io e') ], w')

  -- Behind the choice of a key: the callback `ready` on the key's hash, and then the reply.
  admit : (List ℕ → Option Error) → List ℕ → Sink → Option (List ℕ) → Option Error × Sink
  unfolding reply
  admit ready exporter w none = (some client_auth_failed, w)
  admit ready exporter w (some key) = elim (ready (c.sha256 key)) [
    | some e ↦ (some e, w)
    | none ↦ reply key exporter w
  ]

  -- `Authenticate`: its error and the writer.
  unfoldable pub authenticate :
      ℕ → Snapshot → List ℕ → (List ℕ → Option Error) → Reader → Sink → Option Error × Sink
  unfolding admit
  authenticate now s exporter ready r w = elim (read_full proof_len r) [
    | err e ↦ (some e, w)
    | ok (got, r') ↦ admit ready exporter w (matching_key now s exporter got)
  ]

  -- `revokeUnauthorized`: the sessions, each with the hash of its key once it has one, that are
  -- closed.
  unfoldable pub revoked {ℓ} :
      {Conn : Type ℓ} → ℕ → Snapshot → List (Conn × Option (List ℕ)) → List Conn
  revoked now s [] = []
  revoked now s ((conn, none) ∷ states) = revoked now s states
  revoked now s ((conn, some id) ∷ states) =
      let rest = revoked now s states in if accepts now s id then rest else conn ∷ rest
