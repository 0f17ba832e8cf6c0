-- ===== src/Server/Gate.antt =====
-- Who gets a proxy stream.
use wanopt_proxy.Common.{
  ℕ, ◌+◌, ◌<◌, ◌≡◌, ◌≢◌, inl, inr, refl, arith, Bool, true, not, ◌||◌, Option, none, some, List,
  ltb, bytes_eq, Bool-cases,
}
use wanopt_proxy.Admission.{Budget, try_acquire}
use wanopt_proxy.Tunnel.Auth.{Crypto}
use wanopt_proxy.Tunnel.Credentials.{Snapshot, accepts}
use wanopt_proxy.Server.{
  Authority, control_authority, proxy_authority, other_host, Request, Conn, serves_proxy, Entered,
  enter, enter_slot, enter_tunnel, enter_control, enter_proxy, is_tunnel, accepts_key, version_text,
}

module _ (c : Crypto) where
  accepted_key :
      (now : ℕ) (s : Snapshot) (key : Option (List ℕ))
      → accepts_key c now s key ≡ true
      → (id : List ℕ) × (key ≡ some id) × (accepts c now s id ≡ true)
  accepted_key now s none h = absurd (cc h)
  accepted_key now s (some id) h = (id, refl, h)

  abbrev IsServed : ℕ → Snapshot → Conn → Entered → Type 0
  IsServed now s conn e =
      e.answer ≡ serves_proxy
      → (conn.authed ≡ true)
        × (conn.streams < conn.max_streams)
        × (e.conn.streams ≡ conn.streams + 1)
        × (e.lease ≢ none)
        × (id : List ℕ) × (conn.auth_key ≡ some id)
        × (accepts c now s id ≡ true)

  slot_sound :
      (now : ℕ) (s : Snapshot) (http3 : Bool) (conn : Conn) (p : Budget × Option ℕ)
      → conn.authed ≡ true
      → accepts_key c now s conn.auth_key ≡ true
      → IsServed now s conn (enter_slot c http3 conn p)
  unfolding enter_slot
  slot_sound now s http3 conn (active, none) a k h = absurd (cc h)
  slot_sound now s http3 conn (active, some l) a k h =
      elim (Bool-cases (ltb conn.streams conn.max_streams)) [
        | inl t ↦
            rw (t, enter_slot)
              (let (id, e, ok_id) = accepted_key now s conn.auth_key k in
                (a, ground arith, refl, λ q. cc, id, e, ok_id))
        | inr t ↦ absurd (cc (rw (t, enter_slot) at h))
      ]

  tunnel_sound :
      (now : ℕ) (s : Snapshot) (http3 : Bool) (host : Authority) (conn : Conn) (active : Budget)
      → IsServed now s conn (enter_tunnel c now s http3 host conn active)
  unfolding enter_tunnel enter_control enter_proxy
  tunnel_sound now s http3 other_host conn active h = absurd (cc h)
  tunnel_sound now s http3 control_authority conn active h =
      elim (Bool-cases conn.control_started) [
        | inl t ↦ absurd (cc (rw t at h))
        | inr t ↦ elim (Bool-cases http3) [
          | inl b ↦ absurd (cc (rw (t, b) at h))
          | inr b ↦ absurd (cc (rw (t, b) at h))
        ]
      ]
  tunnel_sound now s http3 proxy_authority conn active h = elim (Bool-cases (not conn.authed)) [
    | inl a ↦ absurd (cc (rw (a, enter_proxy) at h))
    | inr a ↦ elim (Bool-cases (accepts_key c now s conn.auth_key)) [
      | inr k ↦ absurd (cc (rw (a, k, enter_proxy) at h))
      | inl k ↦
          rw (a, k, enter_proxy)
            (slot_sound now s http3 conn (try_acquire active) (ground arith) k
              (rw (a, k, enter_proxy) at h))
    ]
  ]

  -- A request gets a proxy stream only if it is a CONNECT of the protocol's version on a
  -- connection that is authenticated with a key that is accepted at that moment, and only within
  -- the slots of the connection; it then holds one of them and a lease.
  pub enter_sound :
      (now : ℕ) (s : Snapshot) (http3 : Bool) (r : Request) (conn : Conn) (active : Budget)
      → (enter c now s http3 r conn active).answer ≡ serves_proxy
      → (r.connect ≡ true)
        × (bytes_eq r.version version_text ≡ true)
        × (conn.authed ≡ true)
        × (conn.streams < conn.max_streams)
        × ((enter c now s http3 r conn active).conn.streams ≡ conn.streams + 1)
        × ((enter c now s http3 r conn active).lease ≢ none)
        × (id : List ℕ) × (conn.auth_key ≡ some id)
        × (accepts c now s id ≡ true)
  unfolding enter
  enter_sound now s http3 r conn active h =
      elim (Bool-cases (not r.connect || not (is_tunnel r.host))) [
        | inl t ↦ absurd (cc (rw (t, enter) at h))
        | inr t ↦ elim (Bool-cases (not (bytes_eq r.version version_text))) [
          | inl u ↦ absurd (cc (rw (t, u, enter) at h))
          | inr u ↦
              rw (t, u, enter)
                (let (a, b, d, e, id, f, g) =
                    tunnel_sound now s http3 r.host conn active (rw (t, u, enter) at h) in
                  (ground arith, ground arith, a, b, d, e, id, f, g))
        ]
      ]
