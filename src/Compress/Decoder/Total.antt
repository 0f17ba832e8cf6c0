-- ===== src/Compress/Decoder/Total.antt =====
-- `Decopy` returns on every stream.
use wanopt_proxy.Common.{
  ℕ, zero, suc, ◌+◌, ◌≤◌, ◌<◌, ◌≡◌, ◌⊎◌, ◌≢◌, Option-cases, refl, ◌||◌, Option, List, length, drop,
  get_or, length-drop, leb, leb→le, ltb, ◌==◌, Bool-cases, Error, io, Result, ok, err, ok-injective,
  Result-cases, Reader, read_full, Sink, write_full, inl, inr, arith, ap, ◌>>=◌, >>=-eq-ok,
}
use wanopt_proxy.Protocol.Address.{be16_value}
use wanopt_proxy.Compress.Encoder.{Codec, block_size}
use wanopt_proxy.Compress.Decoder.{
  State, Round, finished, again, done, decode_payload, read_block, write_block, header_error, round,
  decopy_loop, decopy,
}

-- A full read takes its bytes from the stream.
read_full-length :
    (n : ℕ) (r : Reader) (b : List ℕ) (r' : Reader)
    → read_full n r ≡ ok (b, r')
    → n + length r'.bytes ≡ length r.bytes
unfolding read_full
read_full-length n r b r' h = elim (Bool-cases (leb n (length r.bytes))) [
  | inl e ↦
      let same = ok-injective (rw e at h) in
      omega (
        arith,
        leb→le n (length r.bytes) e,
        length-drop n r.bytes,
        ap (λ (p : List ℕ × Reader). length p.1.bytes) same,
      )
  | inr e ↦ absurd (cc (rw e at h))
]

again-reader : {s s' : State} → again s ≡ again s' → s.reader ≡ s'.reader
again-reader {s} h = ap (λ (m : Round). elim m [ finished t e ↦ s.reader | again t ↦ t.reader ]) h

Round-cases :
    (m : Round)
    → ((s : State) × (e : Option Error) × (m ≡ finished s e)) ⊎ ((s : State) × (m ≡ again s))
Round-cases (finished s e) = inl (s, e, refl)
Round-cases (again s) = inr (s, refl)

abbrev with_rest : Reader → List ℕ → Result (List ℕ × Reader)
with_rest r d = ok (d, r)

abbrev decoded : (List ℕ → Result (List ℕ)) → List ℕ × Reader → Result (List ℕ × Reader)
decoded f q = f q.0 >>= with_rest q.1

-- The rest of a block's reading, for a size that is taken as it is.
payload-length :
    (n : ℕ) (r : Reader) (f : List ℕ → Result (List ℕ)) (b : List ℕ) (r' : Reader)
    → ◌≡◌ {A = Result (List ℕ × Reader)}
        (do (payload, r1) ← read_full n r; d ← f payload; ok (d, r1))
        (ok (b, r'))
    → length r'.bytes ≤ length r.bytes
payload-length n r f b r' h =
    let (q, e, h1) = >>=-eq-ok (read_full n r) (decoded f) h in
    let (d, _, h2) = >>=-eq-ok (f q.0) (with_rest q.1) h1 in
    let same = ap (λ (p : List ℕ × Reader). length p.1.bytes) (ok-injective h2) in
    omega (arith, same, read_full-length n r q.0 q.1 e)

module _ (c : Codec) where
  read_block-length :
      (header : List ℕ) (r : Reader) (b : List ℕ) (r' : Reader)
      → read_block c header r ≡ ok (b, r')
      → length r'.bytes ≤ length r.bytes
  unfolding read_block
  read_block-length header r b r' h =
      let raw = be16_value (drop 1 header) in
      let enc = be16_value (drop 3 header) in
      elim (Bool-cases (raw == 0 || ltb block_size raw || enc == 0 || ltb block_size enc)) [
        | inl e ↦ absurd (cc (rw e at h))
        | inr e ↦ payload-length enc r (decode_payload c (get_or header 0 0) raw) b r' (rw e at h)
      ]

  header_error-returns : (s : State) (e : Error) {s' : State} → header_error c s e ≢ again s'
  unfolding header_error
  header_error-returns s (io e) h = cc h
  header_error-returns s e h = cc h

  write_block-length :
      (s s' : State) (m : Result (List ℕ × Reader))
      → write_block c s m ≡ again s'
      → (b : List ℕ) × (m ≡ ok (b, s'.reader))
  unfolding write_block
  write_block-length s s' (err e) h = absurd (cc h)
  write_block-length s s' (ok (b, r)) h = elim (Option-cases (write_full b s.sink).0) [
    | inl e ↦ (b, ap (λ (q : Reader). ok (b, q)) (again-reader (rw (e, write_block) at h)))
    | inr (f, e) ↦ absurd (cc (rw (e, write_block) at h))
  ]

  round-length :
      (s s' : State) → round c s ≡ again s' → length s'.reader.bytes < length s.reader.bytes
  unfolding round header_error
  round-length s s' h = elim (Result-cases (read_full 5 s.reader)) [
    | inl ((header, r), e) ↦
        let (b, h1) = write_block-length s s' (read_block c header r) (rw (e, round) at h) in
        omega
          (arith, read_full-length 5 s.reader header r e, read_block-length header r b s'.reader h1)
    | inr (e, eq) ↦ absurd (header_error-returns s e (rw (eq, round) at h))
  ]

  decopy_loop-IsTotal :
      (fuel : ℕ) (s : State)
      → length s.reader.bytes < fuel
      → (s' : State) × (e : Option Error) × (decopy_loop c fuel s ≡ done s' e)
  unfolding decopy_loop
  decopy_loop-IsTotal zero s h = absurd (omega (arith, h))
  decopy_loop-IsTotal (suc fuel) s h = elim (Round-cases (round c s)) [
    | inl (s', e, eq) ↦ (s', e, rw (eq, decopy_loop))
    | inr (s', eq) ↦
        let (t, e, h1) = decopy_loop-IsTotal fuel s' (omega (arith, h, round-length s s' eq)) in
        (t, e, rw (eq, decopy_loop) h1)
  ]

  -- `Decopy` returns, with an error or without, on every byte stream, every codec and every writer:
  -- it never runs out of the rounds that the model gives it, one for each byte and one more.
  pub decopy-IsTotal :
      (w : Sink) (r : Reader) → (s : State) × (e : Option Error) × (decopy c w r ≡ done s e)
  unfolding decopy
  decopy-IsTotal w r =
      decopy_loop-IsTotal (suc (length r.bytes)) (record { reader = r; total = 0; sink = w })
        (omega arith)
