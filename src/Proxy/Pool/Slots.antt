-- ===== src/Proxy/Pool/Slots.antt =====
-- The slots of the listeners.
use wanopt_proxy.Common.{
  ℕ, ◌≡◌, ◌≤◌, refl, ap, ◌∙◌, arith, List, [], ◌∷◌, length, ltb, ltb→lt, if-either, Option-cases,
  inl, inr,
}
use wanopt_proxy.Proxy.Pool.{
  removed, Listener, listen, track, release, release_each, close_connections, Admission, tracks,
  stops, releases, admit,
}
use wanopt_proxy.Proxy.Pool.Ownership.{length-removed, first-removed}

-- Each admitted connection holds one slot, and there are no more than the limit.
pub record IsAdmitted (l : Listener) : Type 0 where
  pub slots : l.taken ≡ length l.conns
  pub bounded : l.taken ≤ l.max_connections

track-IsAdmitted : (l : Listener) → IsAdmitted l → IsAdmitted (track l)
unfolding track
track-IsAdmitted l h =
    if-either IsAdmitted (ltb l.taken l.max_connections) _ _
      (λ t. record {
        slots = omega (arith, h.slots);
        bounded = omega (arith, ltb→lt l.taken l.max_connections t);
      })
      (λ t. record { slots = h.slots; bounded = h.bounded })

release-IsAdmitted : (id : ℕ) (l : Listener) → IsAdmitted l → IsAdmitted (release id l)
unfolding release
release-IsAdmitted id l h = elim (Option-cases (removed id l.conns)) [
  | inl q ↦ rw (q, release) h
  | inr (rest, q) ↦
      let n = length-removed id l.conns rest q in
      rw (q, release)
        (record { slots = omega (arith, n, h.slots); bounded = omega (arith, h.bounded) })
]

release_each-IsAdmitted :
    (ids : List ℕ) (l : Listener) → IsAdmitted l → IsAdmitted (release_each ids l)
unfolding release_each
release_each-IsAdmitted [] l h = h
release_each-IsAdmitted (id ∷ ids) l h =
    release_each-IsAdmitted ids (release id l) (release-IsAdmitted id l h)

-- After the loop of `closeConnections` no connection is left.
release_each-empty : (ids : List ℕ) (l : Listener) → l.conns ≡ ids → (release_each ids l).conns ≡ []
unfolding release_each release
release_each-empty [] l e = e
release_each-empty (x ∷ ids) l e =
    let q = first-removed x ids l.conns e in
    release_each-empty ids (release x l) (rw (q, release) refl)

admit-IsAdmitted : (es : List Admission) (l : Listener) → IsAdmitted l → IsAdmitted (admit es l)
unfolding admit close_connections
admit-IsAdmitted [] l h = h
admit-IsAdmitted (tracks ∷ es) l h = admit-IsAdmitted es (track l) (track-IsAdmitted l h)
admit-IsAdmitted (stops ∷ es) l h =
    admit-IsAdmitted es (release_each l.conns l) (release_each-IsAdmitted l.conns l h)
admit-IsAdmitted (releases id ∷ es) l h =
    admit-IsAdmitted es (release id l) (release-IsAdmitted id l h)

-- After any sequence of accepted connections, closes and stops of the listeners, each of them one
-- step, each admitted connection holds one slot and no more than `MaxConnections` are admitted at a
-- time; and a stop leaves no connection and gives every slot back.
pub admit-listen_sound :
    (max_connections : ℕ) (es : List Admission)
    → IsAdmitted (admit es (listen max_connections))
      × ((close_connections (admit es (listen max_connections))).conns ≡ [])
      × ((close_connections (admit es (listen max_connections))).taken ≡ 0)
unfolding close_connections
admit-listen_sound n es =
    let l = admit es (listen n) in
    let h = admit-IsAdmitted es (listen n) (record { slots = refl; bounded = omega arith }) in
    let empty = release_each-empty l.conns l refl in
    let kept = release_each-IsAdmitted l.conns l h in
    (h, empty, kept.slots ∙ ap (λ (k : List ℕ). length k) empty)
