-- ===== src/Proxy/CompressedConn/Ends.antt =====
-- How a compressed connection ends.
use wanopt_proxy.Common.{
  ◌+◌, ◌≡◌, refl, arith, Bool, true, false, not, ◌||◌, some, List, [], ◌∷◌, any, if◌then◌else◌,
  if-either, Bool-cases, inl, inr, eof, closed,
}
use wanopt_proxy.Proxy.CompressedConn.{
  Conn, new, finish, Event, encoder_ends, closes, decoder_ends, clean, step, run, read_error,
}

-- `remaining` counts the goroutines that run; `done` is closed exactly when both have ended; when
-- one has ended the connection is aborted; and only a decoder that has ended leaves a clean end.
pub record IsConn (c : Conn) : Type 0 where
  pub counted : c.remaining ≡ (if c.encoding then 1 else 0) + (if c.decoding then 1 else 0)
  pub joined : c.done ≡ not (c.encoding || c.decoding)
  pub aborts : c.aborted ≡ false → (c.encoding ≡ true) × (c.decoding ≡ true)
  pub ended : c.read_eof ≡ true → c.decoding ≡ false

step-IsConn : (e : Event) (c : Conn) → IsConn c → IsConn (step e c)
unfolding step finish
step-IsConn encoder_ends c h = ground arith
step-IsConn (decoder_ends e) c h = ground arith
step-IsConn closes c h = ground arith

abbrev pub is_clean_end : Event → Bool
is_clean_end encoder_ends = false
is_clean_end (decoder_ends e) = clean e
is_clean_end closes = false

-- A clean end was reported by then.
IsTold : Bool → Conn → Type 0
IsTold b c = c.read_eof ≡ true → b ≡ true

step-IsTold :
    (e : Event) (b : Bool) (c : Conn) → IsTold b c → IsTold (b || is_clean_end e) (step e c)
unfolding step finish IsTold
step-IsTold e true c h = λ r. refl
step-IsTold encoder_ends false c h =
    if-either (IsTold false) c.encoding (finish (record c { encoding = false })) c (λ t. h) (λ t. h)
step-IsTold (decoder_ends e) false c h =
    if-either (IsTold (clean e)) c.decoding
      (finish (record c { decoding = false; read_eof = clean e })) c (λ t r. r)
      (λ t r. absurd (cc (h r)))
step-IsTold closes false c h = h

run-both :
    (es : List Event) (b : Bool) (c : Conn)
    → IsConn c
    → IsTold b c
    → IsConn (run es c) × IsTold (b || any is_clean_end es) (run es c)
unfolding run IsTold
run-both [] true c h t = (h, λ r. refl)
run-both [] false c h t = (h, t)
run-both (e ∷ es) true c h t = run-both es true (step e c) (step-IsConn e c h) (λ r. refl)
run-both (e ∷ es) false c h t =
    run-both es (is_clean_end e) (step e c) (step-IsConn e c h) (step-IsTold e false c t)

-- After any sequence of ends of the two codecs and calls of `Close`: `Close` returns exactly when
-- both codecs have ended; as soon as one has ended the pipe and the tunnel stream are closed; and a
-- `Read` turns the closed pipe into a clean end of the stream only if the decoder has ended cleanly.
pub run_sound :
    (es : List Event)
    → IsConn (run es new)
      × (read_error (run es new) (some closed) ≡ some eof → any is_clean_end es ≡ true)
unfolding read_error IsTold
run_sound es =
    let (h, t) =
      run-both es false new
        (record {
          counted = refl;
          joined = refl;
          aborts = λ e. (refl, refl);
          ended = λ e. absurd (cc e);
        })
        (λ e. absurd (cc e)) in
    (
      h,
      λ e. elim (Bool-cases (run es new).read_eof) [
        | inl r ↦ t r
        | inr r ↦ absurd (cc (rw (r, read_error) at e))
      ],
    )
