-- ===== src/Acl/Dial/Race.antt =====
-- The race of the two address families.
use wanopt_proxy.Common.{
  ℕ, ◌≡◌, ◌≢◌, ◌⊎◌, refl, sym, ◌∙◌, Bool, true, false, not, ◌||◌, Option, none, some, List, [], ◌∷◌,
  ◌++◌, In, if-either, Bool-cases, Option-cases, inl, inr, Error, Result, ok, err, any, ap,
}
use wanopt_proxy.Acl.Dial.{
  Side, primary, fallback, State, start, Event, expires, cancels, finishes, take_result,
  drop_result, after_error, is_answered, give, flag, runs, is_primary, mark, step, race,
}

abbrev pub IsError : Result (Option ℕ) → Type 0
IsError (ok c) = ⊥
IsError (err e) = Unit {0}

flag-mark :
    (t side : Side) (s : State) → flag t (mark side s) ≡ true → (t ≡ side) ⊎ (flag t s ≡ true)
flag-mark primary primary s h = inl refl
flag-mark primary fallback s h = inr h
flag-mark fallback primary s h = inr h
flag-mark fallback fallback s h = inl refl

mark_keeps : (t side : Side) (s : State) → flag t s ≡ true → flag t (mark side s) ≡ true
mark_keeps primary primary s h = refl
mark_keeps primary fallback s h = h
mark_keeps fallback primary s h = h
mark_keeps fallback fallback s h = refl

mark-flag : (side : Side) (s : State) → flag side (mark side s) ≡ true
mark-flag primary s = refl
mark-flag fallback s = refl

third : (side t u : Side) → (t ≡ side → ⊥) → (u ≡ side) ⊎ (u ≡ t)
third primary primary u h = absurd (h refl)
third primary fallback primary h = inl refl
third primary fallback fallback h = inr refl
third fallback primary primary h = inr refl
third fallback primary fallback h = inl refl
third fallback fallback u h = absurd (h refl)

abbrev pub is_cancel : Event → Bool
is_cancel expires = false
is_cancel (finishes side) = false
is_cancel (cancels e) = true

module _ (result : Side → Result (Option ℕ)) where
  abbrev pub Source : Option ℕ → State → Type 0
  Source conn s = (t : Side) × (flag t s ≡ true) × (result t ≡ ok conn)

  -- Between the sides' ends and the return: what has ended has failed, at most one side has, and
  -- then the other one runs.
  record IsOpen (s : State) : Type 0 where
    errors : (t : Side) → flag t s ≡ true → IsError (result t)
    first : (e : Error) → s.first_error ≡ some e → (t : Side) × (flag t s ≡ true)
    fresh : s.first_error ≡ none → (t : Side) → flag t s ≡ false
    single : (t u : Side) → flag t s ≡ true → flag u s ≡ true → t ≡ u
    backed : (t : Side) → flag t s ≡ true → s.started ≡ true

  -- `q` is whether the context was canceled.
  pub record IsRace (q : Bool) (s : State) : Type 0 where
    open_race : s.answer ≡ none → IsOpen s
    pub won : (conn : Option ℕ) → s.answer ≡ some (ok conn) → Source conn s
    pub lost :
        (e : Error) → s.answer ≡ some (err e) → (q ≡ true) ⊎ ((t : Side) → IsError (result t))
    pub kept :
        (t : Side) (conn : ℕ)
        → flag t s ≡ true
        → result t ≡ ok (some conn)
        → (s.answer ≡ some (ok (some conn))) ⊎ In conn s.dropped

  error-ok : (t : Side) (c : Option ℕ) → IsError (result t) → result t ≡ ok c → ⊥
  error-ok t c h e = rw e at h

  is_error : (t : Side) (e : Error) → result t ≡ err e → IsError (result t)
  is_error t e h = rw h tt

  -- A side that failed behind the failure of another.
  both_failed :
      (side : Side) (s : State) (g f : Error)
      → flag side s ≡ false
      → s.first_error ≡ some f
      → IsOpen s
      → result side ≡ err g
      → (u : Side) → IsError (result u)
  both_failed side s g f fl e o h u =
      let (t, k) = o.first f e in
      elim (third side t u (λ q. cc (q, k, fl))) [
        | inl q ↦ rw q (is_error side g h)
        | inr q ↦ rw q (o.errors t k)
      ]

  after_error-IsRace :
      (q : Bool) (side : Side) (s : State) (g : Error) (o : Option Error)
      → s.first_error ≡ o
      → flag side s ≡ false
      → s.answer ≡ none
      → IsRace q s
      → result side ≡ err g
      → IsRace q (after_error o g (mark side s))
  after_error-IsRace q side s g (some f) e fl a h r = record {
    open_race = λ n. absurd (cc n);
    won = λ conn p. absurd (cc p);
    lost = λ k p. inr (both_failed side s g f fl e (h.open_race a) r);
    kept = λ t conn ft rt. elim (flag-mark t side s ft) [
      | inl k ↦ absurd (cc (r, rt, k))
      | inr k ↦ absurd (error-ok t (some conn) ((h.open_race a).errors t k) rt)
    ];
  }
  after_error-IsRace q side s g none e fl a h r = record {
    open_race = λ n. record {
      errors = λ t ft. elim (flag-mark t side s ft) [
        | inl k ↦ rw k (is_error side g r)
        | inr k ↦ (h.open_race a).errors t k
      ];
      first = λ k p. (side, mark-flag side s);
      fresh = λ k. absurd (cc k);
      single = λ t u ft fu. elim (flag-mark t side s ft) [
        | inr k ↦ absurd (cc (k, (h.open_race a).fresh e t))
        | inl k ↦ elim (flag-mark u side s fu) [
          | inr m ↦ absurd (cc (m, (h.open_race a).fresh e u))
          | inl m ↦ k ∙ sym m
        ]
      ];
      backed = λ t ft. refl;
    };
    won = λ conn p. absurd (cc (a, p));
    lost = λ k p. absurd (cc (a, p));
    kept = λ t conn ft rt. elim (flag-mark t side s ft) [
      | inl k ↦ absurd (cc (r, rt, k))
      | inr k ↦ absurd (error-ok t (some conn) ((h.open_race a).errors t k) rt)
    ];
  }

  take-IsRace :
      (q : Bool) (side : Side) (s : State)
      → flag side s ≡ false
      → s.answer ≡ none
      → IsRace q s
      → (r : Result (Option ℕ)) → result side ≡ r
      → IsRace q (take_result r (mark side s))
  unfolding take_result
  take-IsRace q side s f a h (ok c) e = record {
    open_race = λ n. absurd (cc n);
    won = λ conn p. (side, mark-flag side s, cc (e, p));
    lost = λ g p. absurd (cc p);
    kept = λ t conn ft rt. elim (flag-mark t side s ft) [
      | inl k ↦ inl (cc (e, rt, k))
      | inr k ↦ absurd (error-ok t (some conn) ((h.open_race a).errors t k) rt)
    ];
  }
  take-IsRace q side s f a h (err g) e = after_error-IsRace q side s g s.first_error refl f a h e

  mark-Source :
      (side : Side) (conn : Option ℕ) (s : State) → Source conn s → Source conn (mark side s)
  mark-Source side conn s (t, f, e) = (t, mark_keeps t side s f, e)

  drop-IsRace :
      (q : Bool) (side : Side) (s : State)
      → s.answer ≢ none
      → IsRace q s
      → (r : Result (Option ℕ)) → result side ≡ r
      → IsRace q (drop_result r (mark side s))
  unfolding drop_result
  drop-IsRace q side s a h (ok (some c)) e = record {
    open_race = λ n. absurd (a n);
    won = λ conn p. mark-Source side conn s (h.won conn p);
    lost = h.lost;
    kept = λ t conn ft rt. elim (flag-mark t side s ft) [
      | inl k ↦ inr (inl (cc (e, rt, k)))
      | inr k ↦ elim (h.kept t conn k rt) [ inl w ↦ inl w | inr w ↦ inr (inr w) ]
    ];
  }
  drop-IsRace q side s a h (ok none) e = record {
    open_race = λ n. absurd (a n);
    won = λ conn p. mark-Source side conn s (h.won conn p);
    lost = h.lost;
    kept = λ t conn ft rt. elim (flag-mark t side s ft) [
      | inl k ↦ absurd (cc (e, rt, k))
      | inr k ↦ h.kept t conn k rt
    ];
  }
  drop-IsRace q side s a h (err g) e = record {
    open_race = λ n. absurd (a n);
    won = λ conn p. mark-Source side conn s (h.won conn p);
    lost = h.lost;
    kept = λ t conn ft rt. elim (flag-mark t side s ft) [
      | inl k ↦ absurd (cc (e, rt, k))
      | inr k ↦ h.kept t conn k rt
    ];
  }

  unanswered : (s : State) → is_answered s ≡ false → s.answer ≡ none
  unanswered s h = elim (Option-cases s.answer) [ inl e ↦ e | inr (r, e) ↦ absurd (cc (rw e at h)) ]

  answered : (s : State) → is_answered s ≡ true → s.answer ≢ none
  answered s h n = cc (rw n at h)

  finish-IsRace :
      (q : Bool) (side : Side) (s : State) → IsRace q s → IsRace q (step result (finishes side) s)
  unfolding step
  finish-IsRace q side s h =
      if-either (IsRace q) (flag side s || not (runs side s)) s (give (result side) (mark side s))
        (λ t. h)
        (λ t.
          if-either (IsRace q) (is_answered s) (drop_result (result side) (mark side s))
            (take_result (result side) (mark side s))
            (λ a. drop-IsRace q side s (answered s a) h (result side) refl)
            (λ a. take-IsRace q side s (off t) (unanswered s a) h (result side) refl))
    where
      off : (flag side s || not (runs side s)) ≡ false → flag side s ≡ false
      off t = elim (Bool-cases (flag side s)) [ inl k ↦ absurd (cc (rw k at t)) | inr k ↦ k ]

  expire-IsRace : (q : Bool) (s : State) → IsRace q s → IsRace q (step result expires s)
  unfolding step
  expire-IsRace q s h =
      if-either (IsRace q) (is_answered s) s (record s { started = true }) (λ t. h)
        (λ t. record {
          open_race = λ n.
              let o = h.open_race n in
              record {
                errors = o.errors;
                first = o.first;
                fresh = o.fresh;
                single = o.single;
                backed = λ u f. refl;
              };
          won = h.won;
          lost = h.lost;
          kept = h.kept;
        })

  cancel-IsRace :
      (q : Bool) (e : Error) (s : State) → IsRace q s → IsRace true (step result (cancels e) s)
  unfolding step
  cancel-IsRace q e s h =
      if-either (IsRace true) (is_answered s) s (record s { answer = some (err e) })
        (λ t. record {
          open_race = h.open_race;
          won = h.won;
          lost = λ k p. inl refl;
          kept = h.kept;
        })
        (λ t. record {
          open_race = λ n. absurd (cc n);
          won = λ conn p. absurd (cc p);
          lost = λ k p. inl refl;
          kept = λ u conn fu ru.
              absurd (error-ok u (some conn) ((h.open_race (unanswered s t)).errors u fu) ru);
        })

  race-IsRace :
      (es : List Event) (q : Bool) (s : State)
      → IsRace q s
      → IsRace (q || any is_cancel es) (race result es s)
  unfolding race
  race-IsRace [] true s h = h
  race-IsRace [] false s h = h
  race-IsRace (expires ∷ es) q s h = race-IsRace es q _ (expire-IsRace q s h)
  race-IsRace (finishes side ∷ es) q s h = race-IsRace es q _ (finish-IsRace q side s h)
  race-IsRace (cancels e ∷ es) true s h = race-IsRace es true _ (cancel-IsRace true e s h)
  race-IsRace (cancels e ∷ es) false s h = race-IsRace es true _ (cancel-IsRace false e s h)

  start-IsRace : IsRace false start
  start-IsRace = record {
    open_race = λ n. record {
      errors = λ t f. absurd (idle t f);
      first = λ e p. absurd (cc p);
      fresh = λ p t.
          if-either (λ (b : Bool). b ≡ false) (is_primary t) false false (λ u. refl) (λ u. refl);
      single = λ t u f g. absurd (idle t f);
      backed = λ t f. absurd (idle t f);
    };
    won = λ conn p. absurd (cc p);
    lost = λ e p. absurd (cc p);
    kept = λ t conn f r. absurd (idle t f);
  }
    where
      idle : (t : Side) → flag t start ≡ true → ⊥
      idle primary h = cc h
      idle fallback h = cc h

  drop_keeps :
      (t : Side) (r : Result (Option ℕ)) (s : State)
      → (flag t (drop_result r s) ≡ flag t s) × ((drop_result r s).answer ≡ s.answer)
  unfolding drop_result
  drop_keeps t (ok (some c)) s = (refl, refl)
  drop_keeps t (ok none) s = (refl, refl)
  drop_keeps t (err e) s = (refl, refl)

  take_keeps : (t : Side) (r : Result (Option ℕ)) (s : State) → flag t (take_result r s) ≡ flag t s
  unfolding take_result
  take_keeps t (ok c) s = refl
  take_keeps t (err e) s = elim (Option-cases s.first_error) [
    | inl p ↦ rw (p, take_result) refl
    | inr (f, p) ↦ rw (p, take_result) refl
  ]

  -- Flags stay, and a side that has come to its end has one.
  finish_flag :
      (t side : Side) (s : State)
      → (flag t s ≡ true) ⊎ ((t ≡ side) × (runs side s ≡ true))
      → flag t (step result (finishes side) s) ≡ true
  unfolding step
  finish_flag t side s h =
      if-either (λ (x : State). flag t x ≡ true) (flag side s || not (runs side s)) s
        (give (result side) (mark side s))
        (λ c. elim h [
          | inl f ↦ f
          | inr (p, u) ↦
              rw p (elim (Bool-cases (flag side s)) [
                | inl k ↦ k
                | inr k ↦ absurd (cc (rw (k, u) at c))
              ])
        ])
        (λ c.
          if-either (λ (x : State). flag t x ≡ true) (is_answered s)
            (drop_result (result side) (mark side s)) (take_result (result side) (mark side s))
            (λ a. (drop_keeps t (result side) (mark side s)).0 ∙ marked)
            (λ a. take_keeps t (result side) (mark side s) ∙ marked))
    where
      marked : flag t (mark side s) ≡ true
      marked = elim h [ inl f ↦ mark_keeps t side s f | inr (p, u) ↦ rw p (mark-flag side s) ]

  answered_stays :
      (side : Side) (s : State) → s.answer ≢ none → (step result (finishes side) s).answer ≢ none
  unfolding step
  answered_stays side s h =
      if-either (λ (x : State). x.answer ≢ none) (flag side s || not (runs side s)) s
        (give (result side) (mark side s)) (λ c. h)
        (λ c.
          if-either (λ (x : State). x.answer ≢ none) (is_answered s)
            (drop_result (result side) (mark side s)) (take_result (result side) (mark side s))
            (λ a n. h (sym (drop_keeps primary (result side) (mark side s)).1 ∙ n))
            (λ a. absurd (h (unanswered s a))))

  race-append :
      (es fs : List Event) (s : State)
      → race result (es ++ fs) s ≡ race result fs (race result es s)
  unfolding race
  race-append [] fs s = refl
  race-append (e ∷ es) fs s = race-append es fs (step result e s)

  both_answered :
      (q : Bool) (s : State)
      → IsRace q s
      → (step result (finishes fallback) (step result (finishes primary) s)).answer ≢ none
  both_answered q s h n =
      let s1 = step result (finishes primary) s in
      let s2 = step result (finishes fallback) s1 in
      let h1 = finish-IsRace q primary s h in
      let h2 = finish-IsRace q fallback s1 h1 in
      let first = finish_flag primary primary s (inr (refl, refl)) in
      elim (Option-cases s1.answer) [
        | inr (r, e) ↦ answered_stays fallback s1 (λ m. cc (e, m)) n
        | inl e ↦
            let u = (h1.open_race e).backed primary first in
            cc (
              (h2.open_race n).single primary fallback (finish_flag primary fallback s1 (inl first))
                (finish_flag fallback fallback s1 (inr (refl, u))))
      ]

  -- The race of `DialContext` over any course of results, the timer and the cancellation: a
  -- connection that it returns is the result of one of the two sides; it fails only if both sides
  -- have failed or the context was canceled; a connection that a side made is returned or closed;
  -- and when both sides have come to their ends it has returned.
  pub race_sound :
      (es : List Event)
      → IsRace (any is_cancel es) (race result es start)
        × ((race result (es ++ (finishes primary ∷ finishes fallback ∷ [])) start).answer ≢ none)
  unfolding step race
  race_sound es = (
    race-IsRace es false start start-IsRace,
    λ n. both_answered _ _ (race-IsRace es false start start-IsRace) (
        sym (
          ap (λ (x : State). x.answer)
            (race-append es (finishes primary ∷ finishes fallback ∷ []) start))
        ∙ n),
  )
