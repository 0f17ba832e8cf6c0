-- ===== src/Tunnel/Credentials/Update.antt =====
-- What `Update` lets into the server's credentials, and whom a replacement leaves connected.
use wanopt_proxy.Common.{
  ℕ, ◌+◌, ◌≤◌, ◌≡◌, ◌≢◌, ◌⊎◌, inl, inr, refl, ap, arith, Bool, true, false, not, ◌&&◌, ◌||◌, Option,
  none, some, List, [], ◌∷◌, length, ltb, ◌==◌, bytes_eq, All, All-weaken, In, bytes_eq_refl, Error,
  Bool-cases, invalid_credentials, invalid_overlap, stray_expiry,
}
use wanopt_proxy.Tunnel.Auth.{Crypto}
use wanopt_proxy.Tunnel.Credentials.{
  Time, Certificate, Snapshot, update, is_zero, is_after, bad_length, seven_days, accepts, revoked,
}

-- A key of 16 to 256 bytes.
abbrev pub IsKey : List ℕ → Type 0
IsKey key = (16 ≤ length key) × (length key ≤ 256)

-- The previous key is another one and expires within seven days, or there is none and no expiry.
abbrev pub IsOverlap : ℕ → Snapshot → Type 0
IsOverlap now s =
    ((length s.previous ≡ 0) × (s.expires ≡ none))
    ⊎ (IsKey s.previous
        × (s.primary ≢ s.previous)
        × (t : ℕ) × (s.expires ≡ some t)
        × (t ≤ now + seven_days))

abbrev pub IsUsable : ℕ → Snapshot → Type 0
IsUsable now s = IsKey s.primary × (s.cert.chain ≢ 0) × (s.cert.has_key ≡ true) × IsOverlap now s

abbrev pub given : List ℕ → List ℕ → Time → Certificate → Snapshot
given primary previous expires cert = record {
  primary = primary;
  previous = previous;
  expires = expires;
  cert = cert;
}

distinct : (xs ys : List ℕ) → bytes_eq xs ys ≡ false → xs ≢ ys
distinct xs ys h e = cc (bytes_eq_refl xs)

abbrev refused_key : List ℕ → Certificate → Bool
refused_key primary cert = bad_length primary || cert.chain == 0 || not cert.has_key

abbrev refused_overlap : ℕ → List ℕ → List ℕ → Time → Bool
refused_overlap now primary previous expires =
    ltb 0 (length previous)
    && (bad_length previous
        || bytes_eq primary previous
        || is_zero expires
        || is_after expires (now + seven_days))

IsOverlap-ok :
    (now : ℕ) (primary previous : List ℕ) (expires : Time) (cert : Certificate)
    → refused_overlap now primary previous expires ≡ false
    → (length previous == 0 && not (is_zero expires)) ≡ false
    → IsOverlap now (given primary previous expires cert)
IsOverlap-ok now primary [] none cert h k = inl (refl, refl)
IsOverlap-ok now primary [] (some t) cert h k = absurd (cc k)
IsOverlap-ok now primary (b ∷ bs) none cert h k = ground arith
IsOverlap-ok now primary (b ∷ bs) (some t) cert h k =
    elim (Bool-cases (bytes_eq primary (b ∷ bs))) [
      | inl e ↦ ground arith
      | inr e ↦ inr (ground arith, distinct primary (b ∷ bs) e, t, refl, ground arith)
    ]

-- A replacement is refused and leaves the credentials as they are, or it is taken as a whole and
-- is usable: keys of 16 to 256 bytes, a certificate with its private key, and a previous key only
-- if it differs from the primary one and expires within seven days.
pub update_lem :
    (now : ℕ) (primary previous : List ℕ) (expires : Time) (cert : Certificate) (s : Snapshot)
    → ((e : Error) × (update now primary previous expires cert s ≡ (some e, s)))
      ⊎ ((update now primary previous expires cert s ≡ (none, given primary previous expires cert))
          × IsUsable now (given primary previous expires cert))
unfolding update
update_lem now primary previous expires cert s = elim (Bool-cases (refused_key primary cert)) [
  | inl t ↦ inl (invalid_credentials, rw (t, update) refl)
  | inr t ↦ elim (Bool-cases (refused_overlap now primary previous expires)) [
    | inl u ↦ inl (invalid_overlap, rw (t, u, update) refl)
    | inr u ↦ elim (Bool-cases (length previous == 0 && not (is_zero expires))) [
      | inl v ↦ inl (stray_expiry, rw (t, u, v, update) refl)
      | inr v ↦ inr (
        rw (t, u, v, update) refl,
        (
          ground arith,
          ground arith,
          ground arith,
          IsOverlap-ok now primary previous expires cert u v,
        ),
      )
    ]
  ]
]

module _ {Conn : Type 0} (c : Crypto) (now : ℕ) (s : Snapshot) where
  abbrev Closed : List (Conn × Option (List ℕ)) → Conn → Type 0
  Closed states conn = (id : List ℕ) × In (conn, some id) states × (accepts c now s id ≡ false)

  later :
      (state : Conn × Option (List ℕ)) (states : List (Conn × Option (List ℕ)))
      → All (Closed states) (revoked c now s states)
      → All (Closed (state ∷ states)) (revoked c now s states)
  later state states h =
      All-weaken (Closed states) (Closed (state ∷ states)) (λ conn (id, m, a). (id, inr m, a))
        (revoked c now s states) h

  sound : (states : List (Conn × Option (List ℕ))) → All (Closed states) (revoked c now s states)
  unfolding revoked
  sound [] = tt
  sound ((conn, none) ∷ states) = later (conn, none) states (sound states)
  sound ((conn, some id) ∷ states) = elim (Bool-cases (accepts c now s id)) [
    | inl t ↦ rw t (later (conn, some id) states (sound states))
    | inr t ↦ rw t ((id, inl refl, t), later (conn, some id) states (sound states))
  ]

  complete :
      (states : List (Conn × Option (List ℕ))) (conn : Conn) (id : List ℕ)
      → In (conn, some id) states
      → accepts c now s id ≡ false
      → In conn (revoked c now s states)
  unfolding revoked
  complete [] conn id m h = m
  complete ((conn', none) ∷ states) conn id (inl e) h = cc
  complete ((conn', none) ∷ states) conn id (inr m) h = complete states conn id m h
  complete ((conn', some id') ∷ states) conn id (inl e) h =
      let gone : accepts c now s id' ≡ false = cc in
      rw gone (inl (ap (λ (p : Conn × Option (List ℕ)). p.0) e))
  complete ((conn', some id') ∷ states) conn id (inr m) h =
      elim (Bool-cases (accepts c now s id')) [
        | inl t ↦ rw t (complete states conn id m h)
        | inr t ↦ rw t (inr (complete states conn id m h))
      ]

  -- Behind a replacement, a session is closed exactly if it has authenticated with a key that is
  -- not accepted any more.
  pub revoked_iff :
      (states : List (Conn × Option (List ℕ)))
      → All
          (λ conn. (id : List ℕ) × In (conn, some id) states × (accepts c now s id ≡ false))
          (revoked c now s states)
        × ((conn : Conn) (id : List ℕ)
            → In (conn, some id) states
            → accepts c now s id ≡ false
            → In conn (revoked c now s states))
  revoked_iff states = (sound states, complete states)
