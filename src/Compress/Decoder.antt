-- ===== src/Compress/Decoder.antt =====
-- internal/compress/compress.go: `Decopy`.
pub mod Frames
pub mod Total
use wanopt_proxy.Common.{
  ℕ, zero, suc, ◌+◌, ◌≡◌, Bool, true, false, not, ◌||◌, Option, none, some, List, [], ◌∷◌, ◌++◌,
  length, get_or, drop, ltb, ◌==◌, if◌then◌else◌, IoError, eof, Error, io, bad_block_length,
  raw_mismatch, bad_block, unknown_mode, Result, ok, err, fail_if, is_eof, Reader, read_full, Sink,
  write_full, ◌>>=◌, ◌>>◌,
}
use wanopt_proxy.Protocol.Address.{be16_value}
use wanopt_proxy.Compress.Encoder.{Codec, block_size, marker_raw, marker_flate}

pub record State : Type 0 where
  pub reader : Reader
  pub total : ℕ
  pub sink : Sink

-- How a round of the loop ends: with a return, or with another round. `stuck` is no Go value: the
-- loop ran out of fuel.
pub data Round : Type 0 where
  finished : State → Option Error → Round
  again : State → Round

pub data Outcome : Type 0 where
  done : State → Option Error → Outcome
  stuck : Outcome

module _ (c : Codec) where
  -- The bytes of a block that was compressed; the size must be the one announced.
  inflate_block : ℕ → List ℕ → Result (List ℕ)
  inflate_block raw_len payload = elim (c.inflate payload) [
    | none ↦ err bad_block
    | some b ↦ if length b == raw_len then ok b else err bad_block
  ]

  -- The switch on the mode.
  pub decode_payload : ℕ → ℕ → List ℕ → Result (List ℕ)
  unfolding inflate_block
  decode_payload mode raw_len payload =
      if mode == marker_raw
      then (if raw_len == length payload then ok payload else err raw_mismatch)
      else if mode == marker_flate
      then inflate_block raw_len payload
      else err unknown_mode

  -- A block behind its header: the decoded bytes, and the reader behind it.
  pub read_block : List ℕ → Reader → Result (List ℕ × Reader)
  unfolding decode_payload
  read_block header r = do
    let raw_len = be16_value (drop 1 header)
    let enc_len = be16_value (drop 3 header)
    fail_if (raw_len == 0 || ltb block_size raw_len || enc_len == 0 || ltb block_size enc_len)
        bad_block_length
    (payload, r') ← read_full enc_len r
    b ← decode_payload (get_or header 0 0) raw_len payload
    ok (b, r')

  -- `writeFull` and the total.
  write_block : State → Result (List ℕ × Reader) → Round
  write_block s (err e) = finished s (some e)
  write_block s (ok (b, r)) =
      let (e, w) = write_full b s.sink in
      elim e [
        | some e' ↦ finished (record s { reader = r; sink = w }) (some (io e'))
        | none ↦ again (record { reader = r; total = s.total + length b; sink = w })
      ]

  -- A clean end of the stream is a return without an error, at the border of a block only.
  header_error : State → Error → Round
  header_error s (io e) = finished s (if is_eof e then none else some (io e))
  header_error s e = finished s (some e)

  pub round : State → Round
  unfolding write_block header_error
  round s = elim (read_full 5 s.reader) [
    | err e ↦ header_error s e
    | ok (header, r) ↦ write_block s (read_block header r)
  ]

  pub decopy_loop : ℕ → State → Outcome
  decopy_loop zero s = stuck
  decopy_loop (suc fuel) s = elim (round s) [
    | finished s' e ↦ done s' e
    | again s' ↦ decopy_loop fuel s'
  ]

  -- `Decopy`. Each block takes bytes, so a round for each byte and one more are enough.
  unfoldable pub decopy : Sink → Reader → Outcome
  decopy w r = decopy_loop (suc (length r.bytes)) (record { reader = r; total = 0; sink = w })
