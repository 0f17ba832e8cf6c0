-- ===== src/Compress/Decoder/Frames.antt =====
-- `Decopy` on well-formed frames.
use wanopt_proxy.Common.{
  ℕ, zero, suc, ◌+◌, ◌≤◌, ◌<◌, ◌≡◌, refl, ap, ◌∙◌, arith, false, ◌||◌, none, List, [], ◌∷◌, ◌++◌,
  length, length-append, ltb, ◌==◌, IoError, eof, ok, read_full-append, read_full_short,
  write_full_ok, append_assoc, append-nil, inl, inr, ==_refl,
}
use native.Mathlib.Nat.{add-zero}
use wanopt_proxy.Protocol.Address.{be16}
use wanopt_proxy.Protocol.Address.RoundTrip.{be16_value-be16}
use wanopt_proxy.Compress.Encoder.{Codec, frame, block_size}
use wanopt_proxy.Compress.Wire.{clean, concat, IsCoded, IsBlock, Wire}
use wanopt_proxy.Compress.Decoder.{
  again, finished, done, decode_payload, inflate_block, read_block, write_block, header_error,
  round, decopy_loop,
}

shorter :
    (mode : ℕ) (b payload rest w : List ℕ) {fuel : ℕ}
    → w ≡ frame mode (length b) payload ++ rest
    → length w < suc fuel
    → length rest < fuel
unfolding frame
shorter mode b payload rest w e h =
    omega (arith, ap length e, length-append (frame mode (length b) payload) rest)

module _ (c : Codec) where
  coded-decode :
      (b : List ℕ) (mode : ℕ) (payload : List ℕ)
      → IsCoded c b mode payload
      → decode_payload c mode (length b) payload ≡ ok b
  unfolding decode_payload inflate_block
  coded-decode b mode payload (inl (m, p)) = rw (m, p, ==_refl (length b))
  coded-decode b mode payload (inr (m, p, _)) =
      rw (m, p, c.inflate-deflate b, ==_refl (length b), inflate_block)

  coded-size :
      (b : List ℕ) (mode : ℕ) (payload : List ℕ)
      → IsBlock b
      → IsCoded c b mode payload
      → IsBlock payload
  coded-size b mode payload s (inl (m, p)) = rw p s
  coded-size b mode payload s (inr (m, p, h)) = (rw p (c.deflate_filled b), h)

  guard_passes :
      (n m : ℕ)
      → 1 ≤ n
      → n ≤ block_size
      → 1 ≤ m
      → m ≤ block_size
      → (n == 0 || ltb block_size n || m == 0 || ltb block_size m) ≡ false
  guard_passes n m a b d e = ground arith

  read-frame :
      (b : List ℕ) (mode : ℕ) (payload rest : List ℕ) (e : IoError)
      → IsBlock b
      → IsCoded c b mode payload
      → read_block c
          (mode ∷ (be16 (length b) ++ be16 (length payload)))
          (record { bytes = payload ++ rest; ending = e })
        ≡ ok (b, record { bytes = rest; ending = e })
  unfolding read_block
  read-frame b mode payload rest e s h =
      let (lo, hi) = coded-size b mode payload s h in
      rw (
        be16_value-be16 (length b) (omega arith),
        be16_value-be16 (length payload) (omega arith),
        guard_passes (length b) (length payload) s.0 s.1 lo hi,
        read_full-append payload rest e,
        coded-decode b mode payload h,
      )

  round-frame :
      (b : List ℕ) (mode : ℕ) (payload rest : List ℕ) (e : IoError) (total : ℕ) (old : List ℕ)
      → IsBlock b
      → IsCoded c b mode payload
      → round c (record {
        reader = record { bytes = frame mode (length b) payload ++ rest; ending = e };
        total = total;
        sink = clean old;
      })
        ≡ again (record {
          reader = record { bytes = rest; ending = e };
          total = total + length b;
          sink = clean (old ++ b);
        })
  unfolding round frame write_block
  round-frame b mode payload rest e total old s h =
      let header : List ℕ = mode ∷ (be16 (length b) ++ be16 (length payload)) in
      rw
        (
          append_assoc header payload rest,
          read_full-append header (payload ++ rest) e,
          read-frame b mode payload rest e s h,
          write_full_ok b old,
          round,
          write_block,
        )
        (rw (write_full_ok b old) refl)

  round-end :
      (total : ℕ) (old : List ℕ)
      → round c
          (record { reader = record { bytes = []; ending = eof }; total = total; sink = clean old })
        ≡ finished
            (record {
              reader = record { bytes = []; ending = eof };
              total = total;
              sink = clean old;
            })
            none
  unfolding round header_error
  round-end total old = rw (read_full_short 5 [] eof (omega arith), round)

  pub loop-Wire :
      (bs : List (List ℕ)) (w : List ℕ) (fuel total : ℕ) (old : List ℕ)
      → Wire c bs w
      → length w < fuel
      → decopy_loop c fuel
          (record { reader = record { bytes = w; ending = eof }; total = total; sink = clean old })
        ≡ done
            (record {
              reader = record { bytes = []; ending = eof };
              total = total + length (concat bs);
              sink = clean (old ++ concat bs);
            })
            none
  unfolding decopy_loop
  loop-Wire bs w zero total old h f = absurd (omega arith)
  loop-Wire [] w (suc fuel) total old h f =
      rw (h, round-end total old, decopy_loop) (rw (append-nil, add-zero) refl)
  loop-Wire (b ∷ bs) w (suc fuel) total old (mode, payload, rest, e, s, k, more) f =
      rw (e, round-frame b mode payload rest eof total old s k, decopy_loop)
        (loop-Wire bs rest fuel (total + length b) (old ++ b) more
            (shorter mode b payload rest w e f)
          ∙ rw (append_assoc old b (concat bs), sums) refl)
    where
      sums : total + length b + length (concat bs) ≡ total + length (b ++ concat bs)
      sums = omega (arith, length-append b (concat bs))
