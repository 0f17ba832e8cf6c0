-- ===== src/Tunnel/Credentials/Authenticate.antt =====
-- Which clients the server's credentials let in.
use wanopt_proxy.Common.{
  ℕ, ◌<◌, ◌≡◌, ◌≢◌, ◌⊎◌, inl, inr, refl, arith, ap, ◌∙◌, true, Option, none, some, List, [], ◌∷◌,
  length, ltb, bytes_eq_refl, bytes_eq→eq, Error, Option-cases, Result-cases, ok, Reader, read_full,
  Sink,
}
use wanopt_proxy.Tunnel.Auth.{Crypto, proof, proof_len, client_word}
use wanopt_proxy.Tunnel.Credentials.{
  Time, Snapshot, is_before, accepts, matching_key, authenticate, admit,
}

-- The keys that are in use: the primary one, and the previous one before its expiry.
abbrev pub IsActive : ℕ → Snapshot → List ℕ → Type 0
IsActive now s key =
    (key ≢ [])
    × ((key ≡ s.primary) ⊎ ((key ≡ s.previous) × (t : ℕ) × (s.expires ≡ some t) × (now < t)))

nonempty : (xs : List ℕ) → ltb 0 (length xs) ≡ true → xs ≢ []
nonempty [] h e = ground arith
nonempty (x ∷ xs) h e = cc

before : (now : ℕ) (t : Time) → is_before now t ≡ true → (u : ℕ) × (t ≡ some u) × (now < u)
before now none h = absurd (cc h)
before now (some u) h = (u, refl, ground arith)

module _ (c : Crypto) (now : ℕ) (s : Snapshot) (exporter : List ℕ) where
  matching_key_sound :
      (got key : List ℕ)
      → matching_key c now s exporter got ≡ some key
      → IsActive now s key × (got ≡ proof c key exporter client_word)
  unfolding matching_key
  matching_key_sound got key h = ground (
    arith,
    nonempty s.primary,
    nonempty s.previous,
    before now s.expires,
    bytes_eq→eq got (proof c s.primary exporter client_word),
    bytes_eq→eq got (proof c s.previous exporter client_word),
  )

  -- A session that has just been let in is under a key that `Accepts` takes, so that a
  -- revocation at the same time leaves it.
  pub accepts-matching_key :
      (got key : List ℕ)
      → matching_key c now s exporter got ≡ some key
      → accepts c now s (c.sha256 key) ≡ true
  unfolding matching_key accepts
  accepts-matching_key got key h = ground (arith, bytes_eq_refl (c.sha256 key))

  turned_away :
      (ready : List ℕ → Option Error) (w : Sink) (key : List ℕ) (e : Error)
      → ready (c.sha256 key) ≡ some e
      → admit c ready exporter w (some key) ≡ (some e, w)
  unfolding admit
  turned_away ready w key e u = rw (u, admit) refl

  -- The server lets in only a client that has sent the proof of an active key, and only if the
  -- callback takes the hash of that very key; any other client gets an error and no reply.
  pub authenticate_sound :
      (ready : List ℕ → Option Error) (r : Reader) (w : Sink)
      → ((key : List ℕ) × IsActive now s key
          × (ready (c.sha256 key) ≡ none)
          × (r' : Reader) × (read_full proof_len r ≡ ok (proof c key exporter client_word, r')))
        ⊎ (((authenticate c now s exporter ready r w).0 ≢ none)
            × ((authenticate c now s exporter ready r w).1 ≡ w))
  unfolding authenticate
  authenticate_sound ready r w = elim (Result-cases (read_full proof_len r)) [
    | inr (e, q) ↦ rw (q, authenticate) (inr (λ h. cc, refl))
    | inl ((got, r'), q) ↦ elim (Option-cases (matching_key c now s exporter got)) [
      | inl t ↦ rw (q, t, authenticate) (inr (λ h. cc, refl))
      | inr (key, t) ↦ elim (Option-cases (ready (c.sha256 key))) [
        | inr (e, u) ↦ rw (q, t, authenticate, turned_away ready w key e u) (inr (λ h. cc, refl))
        | inl u ↦
            let (active, same) = matching_key_sound got key t in
            inl (key, active, u, r', q ∙ ap (λ (g : List ℕ). ok (g, r')) same)
      ]
    ]
  ]
