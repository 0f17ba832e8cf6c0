-- ===== src/Common/Io.antt =====
-- io.Reader and io.Writer as explicit state.
use Prim.Native.Nat.{ℕ, ◌≤◌, ◌<◌, min}
use mathlib.Core.Path.{◌≡◌}
use mathlib.Core.Option.{Option, none, some}
use mathlib.Core.List.{List, [], ◌∷◌, ◌++◌}
use native.Mathlib.Omega.{arith}
use wanopt_proxy.Common.Tests.{leb, ◌==◌, if◌then◌else◌, le→leb, lt→leb_false}
use wanopt_proxy.Common.Lists.{length, take, drop, length-append, take-append, drop-append}
use wanopt_proxy.Common.Results.{IoError, unexpected_eof, short_write, io, Result, ok, err, is_eof}

-- What a stream still delivers, and the error that it gives after that (`eof` for a clean end).
pub record Reader : Type 0 where
  pub bytes : List ℕ
  pub ending : IoError

-- The error of `io.ReadFull` on a stream that is too short: the stream's own if nothing was
-- read, and `ErrUnexpectedEOF` for an EOF after a part of the buffer.
abbrev pub short_read : List ℕ → IoError → IoError
short_read [] e = e
short_read (b ∷ bs) e = if is_eof e then unexpected_eof else e

unfoldable pub read_full : ℕ → Reader → Result (List ℕ × Reader)
read_full n r =
    if leb n (length r.bytes)
    then ok (take n r.bytes, record r { bytes = drop n r.bytes })
    else err (io (short_read r.bytes r.ending))

pub read_full-append :
    (xs ys : List ℕ) (e : IoError)
    → read_full (length xs) (record { bytes = xs ++ ys; ending = e })
      ≡ ok (xs, record { bytes = ys; ending = e })
unfolding read_full
read_full-append xs ys e = rw (
  le→leb (length xs) (length (xs ++ ys)) (omega (arith, length-append xs ys)),
  take-append xs ys,
  drop-append xs ys,
)

-- The same where the size is known by an equation.
pub read_full_exact :
    (n : ℕ) (xs ys : List ℕ) (e : IoError)
    → length xs ≡ n
    → read_full n (record { bytes = xs ++ ys; ending = e })
      ≡ ok (xs, record { bytes = ys; ending = e })
read_full_exact n xs ys e h = rw (← h) (read_full-append xs ys e)

pub read_full_enough :
    (n : ℕ) (l : List ℕ) (e : IoError)
    → n ≤ length l
    → read_full n (record { bytes = l; ending = e })
      ≡ ok (take n l, record { bytes = drop n l; ending = e })
unfolding read_full
read_full_enough n l e h = rw (le→leb n (length l) h)

pub read_full_short :
    (n : ℕ) (l : List ℕ) (e : IoError)
    → length l < n
    → read_full n (record { bytes = l; ending = e }) ≡ err (io (short_read l e))
unfolding read_full
read_full_short n l e h = rw (lt→leb_false n (length l) h)

-- A writer: what it has taken, and how it answers its next calls, `(n, e)` each; a call past the
-- end of the plan takes everything.
pub record Sink : Type 0 where
  pub taken : List ℕ
  pub plan : List (ℕ × Option IoError)

write_by : List (ℕ × Option IoError) → List ℕ → List ℕ → (ℕ × Option IoError) × Sink
write_by [] old b = ((length b, none), record { taken = old ++ b; plan = [] })
write_by ((n, e) ∷ rest) old b =
    ((min n (length b), e), record { taken = old ++ take n b; plan = rest })

-- `w.Write(b)`.
unfoldable pub write : List ℕ → Sink → (ℕ × Option IoError) × Sink
unfolding write_by
write b s = write_by s.plan s.taken b

abbrev short_check : ℕ → ℕ × Option IoError → Option IoError
short_check len (n, some e) = some e
short_check len (n, none) = if n == len then none else some short_write

-- `n, err := w.Write(b)`, where a count other than `len(b)` without an error is a short write.
unfoldable pub write_full : List ℕ → Sink → Option IoError × Sink
unfolding write
write_full b s = let (answer, s') = write b s in (short_check (length b) answer, s')

pub write_ok :
    (b old : List ℕ)
    → write b (record { taken = old; plan = [] })
      ≡ ((length b, none), record { taken = old ++ b; plan = [] })
unfolding write write_by
write_ok b old = ground arith

-- A writer that never fails takes everything.
pub write_full_ok :
    (b old : List ℕ)
    → write_full b (record { taken = old; plan = [] })
      ≡ (none, record { taken = old ++ b; plan = [] })
unfolding write_full
write_full_ok b old = ground arith
