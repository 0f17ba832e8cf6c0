-- ===== src/Proxy/Http/Targets.antt =====
-- Which addresses the HTTP proxy connects to.
use wanopt_proxy.Common.{
  ℕ, ◌≡◌, ◌≢◌, ◌<◌, ◌⊎◌, ◌^◌, refl, ap, arith, Bool, true, false, not, ◌&&◌, ◌||◌, Option, none,
  some, List, length, ◌==◌, if-either, Option-cases, Result-cases, Bool-cases, inl, inr,
}
use mathlib.Core.Path.{subst}
use wanopt_proxy.Net.{Net}
use wanopt_proxy.Protocol.Address.{Address, validate}
use wanopt_proxy.Protocol.Address.Text.{Text, parse_address, parse_address_sound}
use wanopt_proxy.Proxy.Socks.{DialFailure, at_capacity, dial_error, other_failure}
use wanopt_proxy.Proxy.Http.{
  ensure_port, capacity_http_status, Request, Hijack, rejects, forwards, drops, relays, Outcome,
  without_dial, reject_http, target, takeover, connect_to, http_connect, handle_http, port_443,
  port_80,
}

module _ (net : Net) (tx : Text) where
  -- A valid address with a port that is not zero.
  abbrev pub IsTarget : Address → Type 0
  IsTarget a = (validate net a ≡ true) × (a.port ≢ 0) × (a.port < 2 ^ 16)

  target_sound : (s : List ℕ) (a : Address) → target net tx s ≡ some a → IsTarget a
  unfolding target
  target_sound s a h = elim (Result-cases (parse_address net tx s)) [
    | inr (e, q) ↦ absurd (cc (rw (q, target) at h))
    | inl (b, q) ↦ elim (Bool-cases (b.port == 0)) [
      | inl z ↦ absurd (cc (rw (q, z, target) at h))
      | inr z ↦
          let same : b ≡ a = cc (rw (q, z, target) at h) in
          let (v, p) = parse_address_sound net tx s a (rw same at q) in
          (v, λ e. ground (arith, ap (λ (x : Address). x.port) same), p)
    ]
  ]

-- The status of a rejection.
abbrev pub IsRefusal : ℕ → Type 0
IsRefusal status = (status ≡ 400) ⊎ ((status ≡ 502) ⊎ (status ≡ 503))

status-IsRefusal : (f : DialFailure) → IsRefusal (capacity_http_status f)
unfolding capacity_http_status
status-IsRefusal at_capacity = inr (inr refl)
status-IsRefusal (dial_error status) = inr (inl refl)
status-IsRefusal other_failure = inr (inl refl)

takeover-cases :
    (h : Hijack) (c : Bool)
    → (takeover h c ≡ drops) ⊎ ((takeover h c ≡ relays c) × (h.flushed ≡ true))
takeover-cases h c = elim (Bool-cases (h.hijacked && h.written && h.flushed)) [
  | inl t ↦ inr (rw t refl, ground arith)
  | inr t ↦ inl (rw t refl)
]

module _ (net : Net) (tx : Text) (dial : Address → Option DialFailure × Bool) (h : Hijack)
    (r : Request) where
  -- What an outcome of the request may be.
  pub record IsHandled (o : Outcome) : Type 0 where
    pub dialed :
        (a : Address)
        → o.dialed ≡ some a
        → IsTarget net tx a × (r.connect ≡ true) × (r.has_body ≡ false)
    pub forwarded :
        (a : Address)
        → o.handled ≡ forwards a
        → IsTarget net tx a × (r.connect ≡ false) × (r.http_scheme ≡ true) × (r.has_user ≡ false)
    pub rejected :
        (status : ℕ) (closes : Bool)
        → o.handled ≡ rejects status closes
        → (closes ≡ r.has_body) × IsRefusal status
    pub relayed :
        (compressed : Bool)
        → o.handled ≡ relays compressed
        → (a : Address) × (o.dialed ≡ some a)
          × ((dial a).0 ≡ none)
          × ((dial a).1 ≡ compressed)
          × (h.flushed ≡ true)

  bad_request : IsHandled (without_dial (reject_http r 400))
  unfolding reject_http
  bad_request = record {
    dialed = λ a e. absurd (cc e);
    forwarded = λ a e. absurd (cc e);
    rejected = λ status closes e. (cc e, inl (cc e));
    relayed = λ c e. absurd (cc e);
  }

  connect_to-IsHandled :
      (a : Address)
      → IsTarget net tx a
      → r.connect ≡ true
      → r.has_body ≡ false
      → IsHandled (connect_to dial h r a)
  unfolding connect_to reject_http
  connect_to-IsHandled a t c b = elim (Option-cases (dial a).0) [
    | inr (f, e) ↦
        rw (e, connect_to)
          (record {
            dialed = λ x q. (subst (IsTarget net tx) (cc q) t, c, b);
            forwarded = λ x q. absurd (cc q);
            rejected = λ status closes q. (cc q, subst IsRefusal (cc q) (status-IsRefusal f));
            relayed = λ x q. absurd (cc q);
          })
    | inl e ↦ elim (takeover-cases h (dial a).1) [
      | inl k ↦
          rw (e, k, connect_to)
            (record {
              dialed = λ x q. (subst (IsTarget net tx) (cc q) t, c, b);
              forwarded = λ x q. absurd (cc q);
              rejected = λ status closes q. absurd (cc q);
              relayed = λ x q. absurd (cc q);
            })
      | inr (k, f) ↦
          rw (e, k, connect_to)
            (record {
              dialed = λ x q. (subst (IsTarget net tx) (cc q) t, c, b);
              forwarded = λ x q. absurd (cc q);
              rejected = λ status closes q. absurd (cc q);
              relayed = λ x q. (a, refl, e, cc q, f);
            })
    ]
  ]

  http_connect-IsHandled : r.connect ≡ true → IsHandled (http_connect net tx dial h r)
  unfolding http_connect
  http_connect-IsHandled c =
      elim (Option-cases (target net tx (ensure_port net tx r.host port_443))) [
        | inl e ↦ rw (e, http_connect) bad_request
        | inr (a, e) ↦
            rw (e, http_connect)
              (if-either IsHandled r.has_body (without_dial (reject_http r 400))
                (connect_to dial h r a) (λ t. bad_request)
                (λ t. connect_to-IsHandled a (target_sound net tx _ a e) c t))
      ]

  forward-IsHandled :
      (a : Address)
      → IsTarget net tx a
      → r.connect ≡ false
      → r.http_scheme ≡ true
      → r.has_user ≡ false
      → IsHandled (without_dial (forwards a))
  forward-IsHandled a t c s u = record {
    dialed = λ x q. absurd (cc q);
    forwarded = λ x q. (subst (IsTarget net tx) (cc q) t, c, s, u);
    rejected = λ status closes q. absurd (cc q);
    relayed = λ x q. absurd (cc q);
  }

  guard_passes : (s z u : Bool) → (not s || z || u) ≡ false → (s ≡ true) × (u ≡ false)
  guard_passes s z u g = ground arith

  abbrev absolute : Outcome
  absolute = elim (target net tx (ensure_port net tx r.url_host port_80)) [
    | none ↦ without_dial (reject_http r 400)
    | some a ↦ without_dial (forwards a)
  ]

  forwarded_or_bad :
      r.connect ≡ false → (r.http_scheme ≡ true) × (r.has_user ≡ false) → IsHandled absolute
  forwarded_or_bad c (s, u) =
      elim (Option-cases (target net tx (ensure_port net tx r.url_host port_80))) [
        | inl e ↦ rw (e, absolute) bad_request
        | inr (a, e) ↦ rw (e, absolute) (forward-IsHandled a (target_sound net tx _ a e) c s u)
      ]

  -- Whatever a client sends, the HTTP proxy dials only for a CONNECT without a body, and forwards
  -- only other requests, for an absolute http URL without a user; in both cases the address is valid
  -- and has a port that is not 0. A rejection has the status 400, 502 or 503 and closes the client's
  -- connection exactly if the request has a body. It relays only over the stream that this dial gave,
  -- compressed exactly if that is, once the client was answered.
  pub handle_http_sound : IsHandled (handle_http net tx dial h r)
  unfolding handle_http
  handle_http_sound =
      if-either IsHandled r.connect (http_connect net tx dial h r) _ (λ c. http_connect-IsHandled c)
        (λ c.
          if-either IsHandled (not r.http_scheme || length r.url_host == 0 || r.has_user)
            (without_dial (reject_http r 400)) absolute (λ t. bad_request)
            (λ t.
              forwarded_or_bad c
                (guard_passes r.http_scheme (length r.url_host == 0) r.has_user t)))
