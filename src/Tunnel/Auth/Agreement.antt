-- ===== src/Tunnel/Auth/Agreement.antt =====
-- When the two ends accept one another.
use wanopt_proxy.Common.{
  ℕ, ◌≡◌, ◌≢◌, refl, ap, ◌∙◌, true, false, Option, none, some, List, [], ◌++◌, length, bytes_eq,
  bytes_eq→eq, bytes_eq_refl, IoError, Error, ok, Reader, read_full, read_full_exact, io, Sink,
  write_full_ok, Bool-cases, inl, inr, ◌⊎◌, Result-cases,
}
use wanopt_proxy.Tunnel.Auth.{
  Crypto, proof, client_word, server_word, client_auth, client_verify, server_auth, server_reply,
  outcome, proof_len,
}

abbrev pub fresh : Sink
fresh = record { taken = []; plan = [] }

abbrev pub stream : List ℕ → IoError → Reader
stream b e = record { bytes = b; ending = e }

module _ (c : Crypto) (psk exporter : List ℕ) (rest : List ℕ) (e : IoError) where
  length-proof : (who : List ℕ) → length (proof c psk exporter who) ≡ proof_len
  unfolding proof
  length-proof who = c.length-hmac psk (who ++ exporter)

  reads_proof :
      (who : List ℕ)
      → read_full proof_len (stream (proof c psk exporter who ++ rest) e)
        ≡ ok (proof c psk exporter who, stream rest e)
  reads_proof who = read_full_exact proof_len (proof c psk exporter who) rest e (length-proof who)

  reply_ok : server_reply c psk exporter fresh ≡ record {
    failure = none;
    sink = record { taken = proof c psk exporter server_word; plan = [] };
    ready = true;
  }
  unfolding server_reply
  reply_ok =
      ap
        (λ (p : Option IoError × Sink). record {
          failure = outcome c p.0;
          sink = p.1;
          ready = true;
        })
        (write_full_ok (proof c psk exporter server_word) [])

  server_accepts :
      server_auth c psk exporter (stream (proof c psk exporter client_word ++ rest) e) fresh
      ≡ record {
        failure = none;
        sink = record { taken = proof c psk exporter server_word; plan = [] };
        ready = true;
      }
  unfolding server_auth
  server_accepts =
      rw (reads_proof client_word, bytes_eq_refl (proof c psk exporter client_word), server_auth)
        reply_ok

  client_verifies :
      client_verify c psk exporter (stream (proof c psk exporter server_word ++ rest) e) ≡ none
  unfolding client_verify
  client_verifies =
      rw (reads_proof server_word, bytes_eq_refl (proof c psk exporter server_word), client_verify)
        refl

  client_accepts :
      client_auth c psk exporter (stream (proof c psk exporter server_word ++ rest) e) fresh
      ≡ (none, record { taken = proof c psk exporter client_word; plan = [] })
  unfolding client_auth
  client_accepts =
      ap answer (write_full_ok (proof c psk exporter client_word) [])
      ∙ ap (λ (o : Option Error). (o, sent)) client_verifies
    where
      sent : Sink
      sent = record { taken = proof c psk exporter client_word; plan = [] }

      answer : Option IoError × Sink → Option Error × Sink
      answer p = (
        elim p.0 [
          | some e' ↦ some (io e')
          | none ↦
              client_verify c psk exporter (stream (proof c psk exporter server_word ++ rest) e)
        ],
        p.1,
      )

-- Two ends with the same key and the same exporter accept one another: the server accepts what
-- the client writes and publishes readiness, and the client accepts what the server writes,
-- whatever either stream carries behind the proof, as long as the writes do not fail.
pub server_auth-client_auth :
    (c : Crypto) (psk exporter rest : List ℕ) (e : IoError)
    → let client_sends =
        (client_auth c psk exporter
          (stream (proof c psk exporter server_word ++ rest) e)
          fresh).1.taken in
      let served = server_auth c psk exporter (stream (client_sends ++ rest) e) fresh in
      (served.failure ≡ none)
      × (served.ready ≡ true)
      × ((client_auth c psk exporter (stream (served.sink.taken ++ rest) e) fresh).0 ≡ none)
server_auth-client_auth c psk exporter rest e =
    rw
      (
        client_accepts c psk exporter rest e,
        server_accepts c psk exporter rest e,
        client_accepts c psk exporter rest e,
      )
      (refl, refl, refl)

module _ (c : Crypto) (psk exporter : List ℕ) where
  reply-ready : (w : Sink) → (server_reply c psk exporter w).ready ≡ true
  unfolding server_reply
  reply-ready w = refl

  -- The server publishes readiness only for a client that has sent the proof of the shared key;
  -- a client that has not gets an error and not a single byte of a reply.
  pub server_auth_sound :
      (r : Reader) (w : Sink)
      → let served = server_auth c psk exporter r w in
        ((served.ready ≡ true)
          × (r' : Reader) × (read_full proof_len r ≡ ok (proof c psk exporter client_word, r')))
        ⊎ ((served.ready ≡ false) × (served.failure ≢ none) × (served.sink ≡ w))
  unfolding server_auth
  server_auth_sound r w = elim (Result-cases (read_full proof_len r)) [
    | inr (e, q) ↦ rw (q, server_auth) (inr (refl, λ h. cc, refl))
    | inl ((got, r'), q) ↦ elim (Bool-cases (bytes_eq got (proof c psk exporter client_word))) [
      | inr t ↦ rw (q, t, server_auth) (inr (refl, λ h. cc, refl))
      | inl t ↦
          rw (q, t, server_auth)
            (inl (
              reply-ready w,
              r',
              ap (λ (g : List ℕ). ok (g, r'))
                  (bytes_eq→eq got (proof c psk exporter client_word) t),
            ))
    ]
  ]
