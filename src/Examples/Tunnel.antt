-- ===== src/Examples/Tunnel.antt =====
-- The theorems on authentication and credentials at concrete inputs.
use wanopt_proxy.Common.{
  ℕ, ◌≡◌, ◌≢◌, ◌⊎◌, refl, true, false, Option, none, some, List, [], ◌∷◌, ◌++◌, All, In, ok, eof,
  Error, Reader, read_full,
}
use wanopt_proxy.Examples.Values.{crypto}
use wanopt_proxy.Tunnel.Auth.{proof, proof_len, client_word, server_word, client_auth, server_auth}
use wanopt_proxy.Tunnel.Auth.Agreement.{fresh, stream, server_auth-client_auth, server_auth_sound}
use wanopt_proxy.Tunnel.Credentials.{
  Certificate, Snapshot, update, accepts, matching_key, authenticate, revoked,
}
use wanopt_proxy.Tunnel.Credentials.Update.{IsUsable, given, update_lem, revoked_iff}
use wanopt_proxy.Tunnel.Credentials.Authenticate.{
  IsActive, authenticate_sound, accepts-matching_key,
}

abbrev psk : List ℕ
psk = 1 ∷ 2 ∷ 3 ∷ 4 ∷ 5 ∷ 6 ∷ 7 ∷ 8 ∷ 9 ∷ 10 ∷ 11 ∷ 12 ∷ 13 ∷ 14 ∷ 15 ∷ 16 ∷ []

abbrev exporter : List ℕ
exporter = 42 ∷ []

abbrev rest : List ℕ
rest = 1 ∷ []

server_auth-client_auth_example :
    let client_sends =
      (client_auth crypto psk exporter
        (stream (proof crypto psk exporter server_word ++ rest) eof)
        fresh).1.taken in
    let served = server_auth crypto psk exporter (stream (client_sends ++ rest) eof) fresh in
    (served.failure ≡ none)
    × (served.ready ≡ true)
    × ((client_auth crypto psk exporter (stream (served.sink.taken ++ rest) eof) fresh).0 ≡ none)
server_auth-client_auth_example = server_auth-client_auth crypto psk exporter rest eof

abbrev guess : Reader
guess = stream psk eof

server_auth_sound_example :
    let served = server_auth crypto psk exporter guess fresh in
    ((served.ready ≡ true)
      × (r' : Reader) × (read_full proof_len guess
          ≡ ok (proof crypto psk exporter client_word, r')))
    ⊎ ((served.ready ≡ false) × (served.failure ≢ none) × (served.sink ≡ fresh))
server_auth_sound_example = server_auth_sound crypto psk exporter guess fresh

abbrev other : List ℕ
other = 9 ∷ 9 ∷ 9 ∷ 9 ∷ 9 ∷ 9 ∷ 9 ∷ 9 ∷ 9 ∷ 9 ∷ 9 ∷ 9 ∷ 9 ∷ 9 ∷ 9 ∷ 9 ∷ []

abbrev cert : Certificate
cert = record { chain = 1; has_key = true }

abbrev old : Snapshot
old = record { primary = psk; previous = []; expires = none; cert = cert }

update_lem_example :
    ((e : Error) × (update 100 other psk (some 200) cert old ≡ (some e, old)))
    ⊎ ((update 100 other psk (some 200) cert old ≡ (none, given other psk (some 200) cert))
        × IsUsable 100 (given other psk (some 200) cert))
update_lem_example = update_lem 100 other psk (some 200) cert old

-- Three sessions: one under the key, one under another key, and one that has not authenticated.
abbrev sessions : List (ℕ × Option (List ℕ))
sessions = (1, some (crypto.sha256 psk)) ∷ (2, some (crypto.sha256 other)) ∷ (3, none) ∷ []

revoked_iff_example :
    All
      (λ conn. (id : List ℕ) × In (conn, some id) sessions × (accepts crypto 100 old id ≡ false))
      (revoked crypto 100 old sessions)
    × ((conn : ℕ) (id : List ℕ)
        → In (conn, some id) sessions
        → accepts crypto 100 old id ≡ false
        → In conn (revoked crypto 100 old sessions))
revoked_iff_example = revoked_iff crypto 100 old sessions

abbrev ready : List ℕ → Option Error
ready id = none

authenticate_sound_example :
    ((key : List ℕ) × IsActive 100 old key
      × (ready (crypto.sha256 key) ≡ none)
      × (r' : Reader) × (read_full proof_len guess
          ≡ ok (proof crypto key exporter client_word, r')))
    ⊎ (((authenticate crypto 100 old exporter ready guess fresh).0 ≢ none)
        × ((authenticate crypto 100 old exporter ready guess fresh).1 ≡ fresh))
authenticate_sound_example = authenticate_sound crypto 100 old exporter ready guess fresh

matches : matching_key crypto 100 old exporter (proof crypto psk exporter client_word) ≡ some psk
unfolding matching_key proof
matches = refl

accepts-matching_key_example : accepts crypto 100 old (crypto.sha256 psk) ≡ true
accepts-matching_key_example =
    accepts-matching_key crypto 100 old exporter (proof crypto psk exporter client_word) psk matches
