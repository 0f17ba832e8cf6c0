-- ===== src/Server/Connections/Entries.antt =====
-- What every operation on one connection keeps.
use wanopt_proxy.Common.{
  ℕ, ◌≡◌, ◌≢◌, refl, arith, Bool, true, false, Option, none, some, List, [], ◌∷◌, length, All, ◌==◌,
  not, ◌&&◌, if◌then◌else◌, Bool-cases, Option-cases, if-either, inl, inr,
}
use wanopt_proxy.Tunnel.Auth.{Crypto}
use wanopt_proxy.Tunnel.Credentials.{Snapshot, accepts}
use wanopt_proxy.Server.{Conn, ready}
use wanopt_proxy.Server.Connections.{
  Entry, close, at_id, each, served, watch, on_cancel, arm, register, end, time_out, control,
  is_revoked, revoke,
}

-- An open connection whose timer was made is authenticated, with a key, or its timer is armed; and
-- one in `states`, the only ones that are authenticated, has a timer.
-- One behind `ServeQUICConn` is closed.
pub record IsGuarded (e : Entry) : Type 0 where
  pub guarded : e.closed ≡ none → e.timed ≡ true → e.armed ≡ false → e.conn.authed ≡ true
  pub keyed : e.conn.authed ≡ true → e.conn.auth_key ≢ none
  pub timed : e.registered ≡ true → e.timed ≡ true
  pub listed : e.conn.authed ≡ true → e.registered ≡ true
  pub over : e.ended ≡ true → e.closed ≢ none

abbrev pub IsClosed : Entry → Type 0
IsClosed e = e.closed ≢ none

-- What every operation on one connection does.
abbrev pub IsSafe : (Entry → Entry) → Type 0
IsSafe f = (e : Entry) → IsGuarded e → IsGuarded (f e)

pub length-at_id : (id : ℕ) (f : Entry → Entry) (l : List Entry) → length (at_id id f l) ≡ length l
length-at_id id f [] = refl
length-at_id id f (e ∷ l) = ground (arith, length-at_id id f l)

pub length-each : (f : Entry → Entry) (l : List Entry) → length (each f l) ≡ length l
length-each f [] = refl
length-each f (e ∷ l) = omega (arith, length-each f l)

pub at_id-All :
    (P : Entry → Type 0) (id : ℕ) (f : Entry → Entry)
    → ((e : Entry) → P e → P (f e))
    → (l : List Entry) → All P l
    → All P (at_id id f l)
at_id-All P id f h [] a = tt
at_id-All P id f h (e ∷ l) a = elim (Bool-cases (e.id == id)) [
  | inl t ↦ rw t (h e a.0, at_id-All P id f h l a.1)
  | inr t ↦ rw t (a.0, at_id-All P id f h l a.1)
]

pub each-All :
    (P Q : Entry → Type 0) (f : Entry → Entry)
    → ((e : Entry) → P e → Q (f e))
    → (l : List Entry) → All P l
    → All Q (each f l)
each-All P Q f h [] a = tt
each-All P Q f h (e ∷ l) a = (h e a.0, each-All P Q f h l a.1)

pub close-IsClosed : (code : ℕ) (e : Entry) → IsClosed (close code e)
close-IsClosed code e = elim (Option-cases e.closed) [
  | inl t ↦ rw t (λ q. cc q)
  | inr (k, t) ↦ rw t (λ q. cc q)
]

-- Closing guards a connection whatever else holds of its deadline.
close-IsGuarded :
    (code : ℕ) (e : Entry)
    → (e.conn.authed ≡ true → e.conn.auth_key ≢ none)
    → (e.registered ≡ true → e.timed ≡ true)
    → (e.conn.authed ≡ true → e.registered ≡ true)
    → IsGuarded (close code e)
close-IsGuarded code e keyed timed listed =
    let h = close-IsClosed code e in
    elim (Option-cases e.closed) [
      | inl t ↦ rw t (record {
        guarded = λ o m a. absurd (cc o);
        keyed = keyed;
        timed = timed;
        listed = listed;
        over = λ q. rw t at h;
      })
      | inr (n, t) ↦ rw t (record {
        guarded = λ o m a. absurd (cc o);
        keyed = keyed;
        timed = timed;
        listed = listed;
        over = λ q. rw t at h;
      })
    ]

pub close-IsSafe : (code : ℕ) → IsSafe (close code)
close-IsSafe code e h = close-IsGuarded code e h.keyed h.timed h.listed

pub served-IsSafe :
    (f : Entry → Entry)
    → ((e : Entry) → e.registered ≡ true → IsGuarded e → IsGuarded (f e))
    → IsSafe (served f)
served-IsSafe f h e k = if-either IsGuarded e.registered (f e) e (λ t. h e t k) (λ t. k)

pub served-close-IsSafe : (code : ℕ) → IsSafe (served (close code))
served-close-IsSafe code = served-IsSafe (close code) (λ e t. close-IsSafe code e)

pub watch-IsSafe : IsSafe watch
unfolding watch
watch-IsSafe e h = record {
  guarded = h.guarded;
  keyed = h.keyed;
  timed = h.timed;
  listed = h.listed;
  over = h.over;
}

pub on_cancel-IsSafe : (canceled : Bool) → IsSafe (on_cancel canceled)
unfolding on_cancel
on_cancel-IsSafe canceled e k =
    if-either IsGuarded (canceled && e.watched) (close 0 e) e (λ t. close-IsSafe 0 e k) (λ t. k)

pub arm-IsSafe : IsSafe arm
unfolding arm
arm-IsSafe e k =
    if-either IsGuarded (e.watched && not e.timed) (record e { timed = true; armed = true }) e
      (λ t. record {
        guarded = λ o m a. absurd (cc a);
        keyed = k.keyed;
        timed = λ r. refl;
        listed = k.listed;
        over = k.over;
      })
      (λ t. k)

pub register-IsSafe : IsSafe register
unfolding register
register-IsSafe e k =
    if-either IsGuarded e.timed (record e { registered = true }) e
      (λ t. record {
        guarded = k.guarded;
        keyed = k.keyed;
        timed = λ r. t;
        listed = λ a. refl;
        over = k.over;
      })
      (λ t. k)

pub end-IsSafe : IsSafe (served end)
unfolding end
end-IsSafe = served-IsSafe end (λ e t k.
    let h = close-IsSafe 0 e k in
    record {
      guarded = h.guarded;
      keyed = h.keyed;
      timed = h.timed;
      listed = h.listed;
      over = λ q. close-IsClosed 0 e;
    })

pub time_out-IsSafe : IsSafe time_out
unfolding time_out
time_out-IsSafe e h =
    let stopped : Entry = record e { armed = false } in
    if-either IsGuarded e.armed (if e.conn.authed then stopped else close 1 stopped) e
      (λ a.
        if-either IsGuarded e.conn.authed stopped (close 1 stopped)
          (λ t. record {
            guarded = λ o m b. t;
            keyed = h.keyed;
            timed = h.timed;
            listed = h.listed;
            over = h.over;
          })
          (λ t. close-IsGuarded 1 stopped h.keyed h.timed h.listed))
      (λ a. h)

module _ (c : Crypto) (now : ℕ) (s : Snapshot) where
  ready-keyed : (key : List ℕ) (conn : Conn) → (ready c now s key conn).1.auth_key ≢ none
  unfolding ready
  ready-keyed key conn q = elim (Bool-cases (accepts c now s key)) [
    | inl a ↦ cc (rw (a, ready) at q)
    | inr a ↦ cc (rw (a, ready) at q)
  ]

  ready-authed :
      (key : List ℕ) (conn : Conn)
      → (ready c now s key conn).0 ≡ none
      → (ready c now s key conn).1.authed ≡ true
  unfolding ready
  ready-authed key conn q = elim (Bool-cases (accepts c now s key)) [
    | inl a ↦ rw (a, ready) refl
    | inr a ↦ absurd (cc (rw (a, ready) at q))
  ]

  control-guards :
      (key : List ℕ) (sent : Bool) (e : Entry)
      → e.registered ≡ true
      → IsGuarded e
      → IsGuarded (control c now s (some key) sent e)
  unfolding control
  control-guards key sent e r h =
      let conn = (ready c now s key e.conn).1 in
      let keyed = λ (q : conn.authed ≡ true). ready-keyed key e.conn in
      let answered : Entry = record e { conn = conn; armed = false } in
      elim (Option-cases (ready c now s key e.conn).0) [
        | inr (f, a) ↦
            rw (a, control) (close-IsGuarded 1 (record e { conn = conn }) keyed h.timed (λ q. r))
        | inl a ↦
            rw (a, control)
              (if-either IsGuarded sent answered (close 1 answered)
                (λ t. record {
                  guarded = λ o m b. ready-authed key e.conn a;
                  keyed = keyed;
                  timed = h.timed;
                  listed = λ q. r;
                  over = h.over;
                })
                (λ t. close-IsGuarded 1 answered keyed h.timed (λ q. r)))
      ]

  pub control-IsSafe :
      (key : Option (List ℕ)) (sent : Bool) → IsSafe (served (control c now s key sent))
  unfolding control
  control-IsSafe none sent = served-close-IsSafe 1
  control-IsSafe (some key) sent =
      served-IsSafe (control c now s (some key) sent) (control-guards key sent)

  pub revoke-IsSafe : IsSafe (served (revoke c now s))
  unfolding revoke
  revoke-IsSafe = served-IsSafe (revoke c now s) (λ e t h.
      if-either IsGuarded (is_revoked c now s e.conn.auth_key) (close 1 e) e
        (λ r. close-IsSafe 1 e h) (λ r. h))
