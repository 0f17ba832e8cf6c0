-- ===== src/Relay/HalfClose.antt =====
-- Half-closes pass through, and only errors and cancellation abort.
use wanopt_proxy.Common.{
  ◌<◌, ◌≡◌, refl, sym, arith, Bool, true, false, not, ◌&&◌, ◌||◌, Option, none, some, List, [], ◌∷◌,
  ltb, Error, Bool-cases, if-either, ◌∙◌, inl, inr,
}
use wanopt_proxy.Net.{is_some}
use wanopt_proxy.Relay.{
  Direction, up, down, Half, Relay, make, set_half, result, receive, Event, ends, cancels, report,
  cancel, relay_return, pipe_return, relay, pipe, pipe_close,
}

-- A direction that has ended passed the end on by a half-close, or an error was reported.
abbrev IsPassed : Half → Relay → Type 0
IsPassed h r = h.reported ≡ true → h.closed_write ≡ false → 0 < r.failures

-- The function returns when both directions have ended and not before, and until then both ends are
-- aborted exactly if an error was reported or the context was canceled. `at_end` is whether it
-- aborts when it returns, `passes` whether the upward direction has a half-close to pass on.
pub record IsOrderly (passes at_end : Bool) (r : Relay) : Type 0 where
  pub returned : r.returned ≡ (r.upward.reported && r.downward.reported)
  pub aborted : r.aborted ≡ (ltb 0 r.failures || r.canceled || (at_end && r.returned))
  pub upward : passes ≡ true → IsPassed r.upward r
  pub downward : IsPassed r.downward r

-- The same between a result and the return.
record IsOpen (passes at_end : Bool) (r : Relay) : Type 0 where
  returned : r.returned ≡ true → (r.upward.reported && r.downward.reported) ≡ true
  aborted : r.aborted ≡ (ltb 0 r.failures || r.canceled || (at_end && r.returned))
  upward : passes ≡ true → IsPassed r.upward r
  downward : IsPassed r.downward r

result-IsPassed :
    (copied : Option Error) (fin : Option (Option Error)) (r : Relay)
    → is_some fin ≡ true
    → (not (is_some copied) && is_some fin) ≡ false
    → 0 < (receive (result copied fin) r).failures
unfolding receive
result-IsPassed (some e) fin r h q = omega arith
result-IsPassed none fin r h q = absurd (cc (h, q))

both_true : (a b : Bool) → (a && b) ≡ true → (a ≡ true) × (b ≡ true)
both_true true b h = (refl, h)
both_true false b h = absurd (cc h)

module _ (p b : Bool) where
  -- The loop's receive, where what it received is already accounted for.
  receive-IsOpen :
      (e : Option Error) (r : Relay)
      → (r.returned ≡ true → (r.upward.reported && r.downward.reported) ≡ true)
      → r.aborted ≡ (ltb 0 r.failures || r.canceled || (b && r.returned))
      → (p ≡ true → IsPassed r.upward (receive e r))
      → IsPassed r.downward (receive e r)
      → IsOpen p b (receive e r)
  unfolding receive
  receive-IsOpen none r hr ha hu hd = record {
    returned = hr;
    aborted = ha;
    upward = hu;
    downward = hd;
  }
  receive-IsOpen (some e) r hr ha hu hd = record {
    returned = hr;
    aborted = ground arith;
    upward = hu;
    downward = hd;
  }

  -- What was passed on stays so when more is received.
  receive-IsPassed :
      (h : Half) (e : Option Error) (r : Relay) → IsPassed h r → IsPassed h (receive e r)
  unfolding receive
  receive-IsPassed h none r k = k
  receive-IsPassed h (some e) r k = λ t u. omega arith

  IsOrderly-IsOpen : (r : Relay) → IsOrderly p b r → IsOpen p b r
  IsOrderly-IsOpen r h = record {
    returned = λ q. sym h.returned ∙ q;
    aborted = h.aborted;
    upward = h.upward;
    downward = h.downward;
  }

  report-IsOpen :
      (d : Direction) (copied : Option Error) (fin : Option (Option Error)) (r : Relay)
      → (d ≡ down → is_some fin ≡ true)
      → (p ≡ true → is_some fin ≡ true)
      → IsOrderly p b r
      → IsOpen p b (report d copied fin r)
  unfolding report
  report-IsOpen up copied fin r hd hp h =
      let e = result copied fin in
      let m =
        set_half up (record { reported = true; closed_write = not (is_some copied) && is_some fin })
          r in
      if-either (IsOpen p b) r.upward.reported r (receive e m) (λ t. IsOrderly-IsOpen r h)
        (λ t.
          receive-IsOpen e m
            (λ q. (both_true r.upward.reported r.downward.reported (sym h.returned ∙ q)).1)
            h.aborted (λ u v w. result-IsPassed copied fin m (hp u) w)
            (receive-IsPassed r.downward e m h.downward))
  report-IsOpen down copied fin r hd hp h =
      let e = result copied fin in
      let m =
        set_half down
          (record { reported = true; closed_write = not (is_some copied) && is_some fin }) r in
      if-either (IsOpen p b) r.downward.reported r (receive e m) (λ t. IsOrderly-IsOpen r h)
        (λ t.
          receive-IsOpen e m
            (λ q.
              rw ((both_true r.upward.reported r.downward.reported (sym h.returned ∙ q)).0) refl)
            h.aborted (λ u. receive-IsPassed r.upward e m (h.upward u))
            (λ v w. result-IsPassed copied fin m (hd refl) w))

  cancel-IsOrderly : (r : Relay) → IsOrderly p b r → IsOrderly p b (cancel r)
  unfolding cancel
  cancel-IsOrderly r h =
      if-either (IsOrderly p b) r.returned r (record r { canceled = true; aborted = true }) (λ t. h)
        (λ t. record {
          returned = h.returned;
          aborted = ground arith;
          upward = h.upward;
          downward = h.downward;
        })

relay_return-IsOrderly :
    (p : Bool) (r : Relay) → IsOpen p true r → IsOrderly p true (relay_return r)
unfolding relay_return
relay_return-IsOrderly p r h = elim (Bool-cases (r.upward.reported && r.downward.reported)) [
  | inl t ↦
      rw (t, relay_return)
        (record {
          returned = sym t;
          aborted = ground arith;
          upward = h.upward;
          downward = h.downward;
        })
  | inr t ↦
      rw (t, relay_return)
        (record {
          returned = ground arith;
          aborted = h.aborted;
          upward = h.upward;
          downward = h.downward;
        })
]

pipe_return-IsOrderly :
    (p : Bool) (r : Relay) → IsOpen p false r → IsOrderly p false (pipe_return r)
unfolding pipe_return
pipe_return-IsOrderly p r h = elim (Bool-cases (r.upward.reported && r.downward.reported)) [
  | inl t ↦
      rw (t, pipe_return)
        (record { returned = sym t; aborted = h.aborted; upward = h.upward; downward = h.downward })
  | inr t ↦
      rw (t, pipe_return)
        (record {
          returned = ground arith;
          aborted = h.aborted;
          upward = h.upward;
          downward = h.downward;
        })
]

-- What holds of a relay from the start, and is kept by all that happens to it.
make-IsOrderly : (p b : Bool) → IsOrderly p b make
make-IsOrderly p b = record {
  returned = refl;
  aborted = ground arith;
  upward = λ t u. absurd (cc u);
  downward = λ u. absurd (cc u);
}

relay-IsOrderly :
    (es : List Event) (r : Relay) → IsOrderly true true r → IsOrderly true true (relay es r)
unfolding relay
relay-IsOrderly [] r h = h
relay-IsOrderly (ends d copied fin ∷ es) r h = relay-IsOrderly es _ (
    relay_return-IsOrderly true (report d copied (some fin) r)
      (report-IsOpen true true d copied (some fin) r (λ e. refl) (λ e. refl) h))
relay-IsOrderly (cancels ∷ es) r h = relay-IsOrderly es (cancel r) (cancel-IsOrderly true true r h)

close-passes :
    (can : Bool) (d : Direction) (fin : Option Error)
    → (d ≡ down → is_some (pipe_close can d fin) ≡ true)
      × (can ≡ true → is_some (pipe_close can d fin) ≡ true)
close-passes can down fin = (λ e. refl, λ e. refl)
close-passes true up fin = (λ e. refl, λ e. refl)
close-passes false up fin = (λ e. absurd (cc e), λ e. absurd (cc e))

pipe-IsOrderly :
    (can : Bool) (es : List Event) (r : Relay)
    → IsOrderly can false r
    → IsOrderly can false (pipe can es r)
unfolding pipe
pipe-IsOrderly can [] r h = h
pipe-IsOrderly can (ends d copied fin ∷ es) r h =
    let (hd, hp) = close-passes can d fin in
    pipe-IsOrderly can es _ (
      pipe_return-IsOrderly can (report d copied (pipe_close can d fin) r)
        (report-IsOpen can false d copied (pipe_close can d fin) r hd hp h))
pipe-IsOrderly can (cancels ∷ es) r h =
    pipe-IsOrderly can es (cancel r) (cancel-IsOrderly can false r h)

-- Both the client's `relay` and the server's `pipe`, whatever the ends of their copies, the answers
-- to their half-closes and the cancellation, in any order: the function returns when both
-- directions have ended and not before; until then both ends are aborted exactly if an error was
-- reported or the context was canceled (`relay` aborts as it returns, `pipe` does not); and a
-- direction that has ended either passed the end on by a half-close or reported an error, in
-- `pipe` upward if the remote connection can be half-closed.
pub both-IsOrderly :
    (es : List Event) (can : Bool)
    → IsOrderly true true (relay es make) × IsOrderly can false (pipe can es make)
both-IsOrderly es can = (
  relay-IsOrderly es make (make-IsOrderly true true),
  pipe-IsOrderly can es make (make-IsOrderly can false),
)
