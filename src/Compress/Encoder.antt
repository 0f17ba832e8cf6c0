-- ===== src/Compress/Encoder.antt =====
-- internal/compress/compress.go: `Copy`, `CopyCounted` and `CopyObserved`.
pub mod Effects
use wanopt_proxy.Common.{
  ℕ, zero, suc, ◌+◌, ◌-◌, ◌*◌, ◌^◌, ◌≤◌, ◌≡◌, Bool, true, false, ◌&&◌, ◌||◌, Option, none, some,
  List, [], ◌∷◌, ◌++◌, length, take, ltb, leb, ◌==◌, if◌then◌else◌, IoError, eof, no_progress,
  is_eof, Sink, write_full,
}
use wanopt_proxy.Protocol.Address.{be16}

abbrev pub block_size : ℕ
block_size = 32 * 1024

abbrev pub marker_raw : ℕ
marker_raw = 0

abbrev pub marker_flate : ℕ
marker_flate = 1

-- What compress/flate does with one block. `deflate` is the encoder at `BestSpeed` on a fresh
-- stream; `inflate` reads a whole stream and is `none` unless it decodes to its end
-- with no byte of the input left over. An encoded block is not empty, and decodes to the block. The
-- encoder writes to memory, so it does not fail.
pub record Codec : Type 0 where
  pub deflate : List ℕ → List ℕ
  pub inflate : List ℕ → Option (List ℕ)
  pub deflate_filled : (b : List ℕ) → 1 ≤ length (deflate b)
  pub inflate-deflate : (b : List ℕ) → inflate (deflate b) ≡ some b

-- One call of `src.Read`: the bytes that it put into the buffer, and its error.
abbrev pub Read : Type 0
Read = List ℕ × Option IoError

pub record Stats : Type 0 where
  pub input_bytes : ℕ
  pub output_bytes : ℕ
  pub attempted : ℕ
  pub skipped : ℕ
  pub compressed : ℕ

abbrev pub no_stats : Stats
no_stats = record { input_bytes = 0; output_bytes = 0; attempted = 0; skipped = 0; compressed = 0 }

-- The variables of the loop, the writer, and what the callbacks have been told: the sizes passed
-- to `onPayload` and the statistics passed to `observe`, each in order.
pub record State : Type 0 where
  pub misses : ℕ
  pub skip_bytes : ℕ
  pub empty_reads : ℕ
  pub total : ℕ
  pub stats : Stats
  pub sink : Sink
  pub payloads : List ℕ
  pub observed : List Stats

abbrev pub start : Sink → State
start w = record {
  misses = 0;
  skip_bytes = 0;
  empty_reads = 0;
  total = 0;
  stats = no_stats;
  sink = w;
  payloads = [];
  observed = [];
}

-- How a call ends: the total and the error, with the state behind it. `waiting` is a call that
-- still reads when the reads given are used up.
pub data Outcome : Type 0 where
  done : State → Option IoError → Outcome
  waiting : State → Outcome

abbrev pub final : Outcome → State
final (done s e) = s
final (waiting s) = s

-- `flush`, with an observer.
unfoldable pub flush : State → State
flush s =
    if ltb 0 s.stats.input_bytes
    then record s { observed = s.observed ++ (s.stats ∷ []); stats = no_stats }
    else s

-- The frame of a block, which goes out in one write.
unfoldable pub frame : ℕ → ℕ → List ℕ → List ℕ
frame mode raw_len payload = (mode ∷ (be16 raw_len ++ be16 (length payload))) ++ payload

-- The accounting behind a block that reached the writer.
unfoldable pub account : State → ℕ → ℕ → Sink → State
unfolding flush
account s n out w =
    let st = record (s.stats) {
      input_bytes = s.stats.input_bytes + n;
      output_bytes = s.stats.output_bytes + (5 + out);
    } in
    let s' = record s { total = s.total + n; stats = st; sink = w } in
    let s'' = if leb (2 ^ 20) st.input_bytes then flush s' else s' in
    record s'' { payloads = s''.payloads ++ (n ∷ []) }

-- A block that is too small to try, or that the back-off passes by.
unfoldable pub skip_block : State → List ℕ → State × (ℕ × List ℕ)
skip_block s b = (
  record s {
    stats = record (s.stats) { skipped = s.stats.skipped + 1 };
    skip_bytes = s.skip_bytes - length b;
  },
  (marker_raw, b),
)

-- What follows the write of a block of `n` bytes in a payload of `out` bytes.
unfoldable pub finish_block : State → ℕ → ℕ → Option IoError × Sink → Option IoError × State
finish_block s n out (none, w) = (none, account s n out w)
finish_block s n out (some e, w) = (some e, record s { sink = w })

-- A read of nothing without an error; the hundredth in a row gives up.
unfoldable pub empty_read : State → Option IoError × State
empty_read s =
    let n = s.empty_reads + 1 in
    (if leb 100 n then some no_progress else none, record s { empty_reads = n })

-- The error of the last read, where EOF is the normal end.
abbrev end_error : IoError → Option IoError
end_error e = if is_eof e then none else some e

module _ (c : Codec) where
  -- A trial of the encoder: at most nine tenths of the size, or a miss; after three misses in a
  -- row the next 256 KiB are not tried.
  unfoldable pub try_block : State → List ℕ → State × (ℕ × List ℕ)
  try_block s b =
      let z = c.deflate b in
      let st = record (s.stats) { attempted = s.stats.attempted + 1 } in
      if ltb (length z * 100) (length b * 90)
      then (
        record s { stats = record st { compressed = st.compressed + 1 }; misses = 0 },
        (marker_flate, z),
      )
      else (
        record s {
          stats = st;
          misses = s.misses + 1;
          skip_bytes = if leb 3 (s.misses + 1) then 256 * 1024 else s.skip_bytes;
        },
        (marker_raw, b),
      )

  unfoldable pub encode_block : State → List ℕ → State × (ℕ × List ℕ)
  unfolding skip_block try_block
  encode_block s b =
      if ltb (length b) 256 || ltb 0 s.skip_bytes then skip_block s b else try_block s b

  -- What the loop does with a block of at least one byte.
  unfoldable pub copy_block : State → List ℕ → Option IoError × State
  copy_block s b =
      let p = encode_block (record s { empty_reads = 0 }) b in
      let (mode, payload) = p.1 in
      finish_block p.0 (length b) (length payload)
        (write_full (frame mode (length b) payload) (p.0).sink)

  unfoldable pub after_read : State → List ℕ → Option IoError → Option IoError × State
  after_read s [] none = empty_read s
  after_read s [] (some e) = (none, s)
  after_read s (x ∷ b) e = copy_block s (x ∷ b)

  -- The loop over the reads; a return flushes the statistics.
  unfoldable pub copy_loop : State → List Read → Outcome
  copy_loop s [] = waiting s
  copy_loop s ((b, e) ∷ reads) =
      let (failure, s') = after_read s b e in
      elim failure [
        | some f ↦ done (flush s') (some f)
        | none ↦ elim e [ some e' ↦ done (flush s') (end_error e') | none ↦ copy_loop s' reads ]
      ]

  -- `CopyObserved` with both callbacks.
  unfoldable pub copy_observed : Sink → List Read → Outcome
  copy_observed w reads = copy_loop (start w) reads
