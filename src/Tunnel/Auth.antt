-- ===== src/Tunnel/Auth.antt =====
-- internal/tunnel/auth.go: the mutual proof of the shared key. The two ends are the client's calls
-- `ClientAuth` and the server's `ServerAuth` over one stream in each direction.
pub mod Agreement
use wanopt_proxy.Common.{
  ℕ, ◌≡◌, Bool, true, false, not, Option, none, some, List, [], ◌∷◌, ◌++◌, length, bytes_eq,
  if◌then◌else◌, IoError, Error, io, server_auth_failed, client_auth_failed, Result, ok, err,
  Reader, read_full, Sink, write_full,
}

abbrev pub proof_len : ℕ
proof_len = 32

-- The words "client" and "server".
abbrev pub client_word : List ℕ
client_word = b'c' ∷ b'l' ∷ b'i' ∷ b'e' ∷ b'n' ∷ b't' ∷ []

abbrev pub server_word : List ℕ
server_word = b's' ∷ b'e' ∷ b'r' ∷ b'v' ∷ b'e' ∷ b'r' ∷ []

-- HMAC-SHA256 and SHA-256: a MAC of a key and a message, and a hash, of 32 bytes each.
pub record Crypto : Type 0 where
  pub hmac : List ℕ → List ℕ → List ℕ
  pub length-hmac : (key message : List ℕ) → length (hmac key message) ≡ proof_len
  pub sha256 : List ℕ → List ℕ
  pub length-sha256 : (message : List ℕ) → length (sha256 message) ≡ proof_len

module _ (c : Crypto) where
  -- `proof`.
  unfoldable pub proof : List ℕ → List ℕ → List ℕ → List ℕ
  proof psk exporter who = c.hmac psk (who ++ exporter)

  abbrev outcome : Option IoError → Option Error
  outcome none = none
  outcome (some e) = some (io e)

  -- The client's end behind its write: the error of the whole call.
  unfoldable pub client_verify : List ℕ → List ℕ → Reader → Option Error
  unfolding proof
  client_verify psk exporter r = elim (read_full proof_len r) [
    | err e ↦ some e
    | ok (got, r') ↦
        if bytes_eq got (proof psk exporter server_word) then none else some server_auth_failed
  ]

  -- `ClientAuth`: what the client sends, and its error, given what it then receives.
  unfoldable pub client_auth : List ℕ → List ℕ → Reader → Sink → Option Error × Sink
  client_auth psk exporter r w =
      let (e, w') = write_full (proof psk exporter client_word) w in
      (elim e [ some e' ↦ some (io e') | none ↦ client_verify psk exporter r ], w')

  -- The result of `ServerAuth`: its error, the writer, and whether readiness was published, which
  -- comes before the reply is written.
  pub record Served : Type 0 where
    pub failure : Option Error
    pub sink : Sink
    pub ready : Bool

  unfoldable pub server_reply : List ℕ → List ℕ → Sink → Served
  unfolding proof
  server_reply psk exporter w =
      let (e, w') = write_full (proof psk exporter server_word) w in
      record { failure = outcome e; sink = w'; ready = true }

  -- `ServerAuth`.
  unfoldable pub server_auth : List ℕ → List ℕ → Reader → Sink → Served
  server_auth psk exporter r w = elim (read_full proof_len r) [
    | err e ↦ record { failure = some e; sink = w; ready = false }
    | ok (got, r') ↦
        if bytes_eq got (proof psk exporter client_word)
        then server_reply psk exporter w
        else record { failure = some client_auth_failed; sink = w; ready = false }
  ]
