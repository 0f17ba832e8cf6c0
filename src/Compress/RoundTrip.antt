-- ===== src/Compress/RoundTrip.antt =====
-- The two ends of a compressed stream.
use wanopt_proxy.Common.{ℕ, suc, ◌≡◌, refl, ap, ◌∙◌, arith, none, List, [], length, eof, Sink}
use native.Mathlib.Nat.{zero-add}
use wanopt_proxy.Compress.Encoder
use wanopt_proxy.Compress.Encoder.{Codec, Read, copy_loop, copy_observed, start}
use wanopt_proxy.Compress.Encoder.Effects.{content, Fits, copy_loop-Written}
use wanopt_proxy.Compress.Decoder
use wanopt_proxy.Compress.Decoder.{decopy_loop, decopy}
use wanopt_proxy.Compress.Decoder.Frames.{loop-Wire}
use wanopt_proxy.Compress.Wire.{clean, concat, Wire}

decoded :
    (c : Codec) (w : List ℕ) (bs : List (List ℕ))
    → Wire c bs w
    → decopy c (clean []) (record { bytes = w; ending = eof })
      ≡ Decoder.done
          (record {
            reader = record { bytes = []; ending = eof };
            total = length (concat bs);
            sink = clean (concat bs);
          })
          none
unfolding decopy
decoded c w bs h =
    loop-Wire c bs w (suc (length w)) 0 [] h (omega arith)
    ∙ ap
        (λ (n : ℕ).
          Decoder.done
            (record {
              reader = record { bytes = []; ending = eof };
              total = n;
              sink = clean (concat bs);
            })
            none)
        (zero-add (length (concat bs)))

-- Whatever way the source splits its bytes into reads of at most a block, if the encoder ends
-- without an error on a writer that does not fail, then the decoder, given what was written and a
-- clean end, ends without an error, has written exactly the bytes that were read, and both totals
-- are their number.
pub decopy-copy_observed :
    (c : Codec) (reads : List Read) (s : Encoder.State)
    → Fits reads
    → copy_observed c (clean []) reads ≡ Encoder.done s none
    → (s.total ≡ length (content reads))
      × (decopy c (clean []) (record { bytes = s.sink.taken; ending = eof })
          ≡ Decoder.done
              (record {
                reader = record { bytes = []; ending = eof };
                total = length (content reads);
                sink = clean (content reads);
              })
              none)
unfolding copy_observed
decopy-copy_observed c reads s f h =
    let (bs, w, wire, con, sk, tot) = copy_loop-Written c reads (start (clean [])) s [] refl f h in
    (omega (arith, tot), rw (ap (λ (z : Sink). z.taken) sk) (decoded c w bs wire ∙ rw con refl))
