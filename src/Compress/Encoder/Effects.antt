-- ===== src/Compress/Encoder/Effects.antt =====
-- What `CopyObserved` writes to a writer that does not fail.
use wanopt_proxy.Common.{
  ℕ, ◌+◌, ◌*◌, ◌≤◌, ◌≡◌, refl, sym, ap, ◌∙◌, arith, ◌||◌, Option, none, some, List, [], ◌∷◌, ◌++◌,
  length, length-append, All, ltb, leb, Bool-cases, ltb→lt, inl, inr, IoError, Sink, write_full,
  write_full_ok, append_assoc, append-nil,
}
use wanopt_proxy.Compress.Encoder.{
  Codec, Read, State, done, flush, encode_block, skip_block, try_block, frame, account, copy_block,
  finish_block, empty_read, after_read, end_error, copy_loop, block_size,
}
use wanopt_proxy.Compress.Wire.{clean, concat, IsCoded, IsBlock, Wire}

-- The bytes of the reads, up to the first with an error.
abbrev pub content : List Read → List ℕ
content [] = []
content ((b, none) ∷ reads) = b ++ content reads
content ((b, some e) ∷ reads) = b

-- Each read fits the buffer.
abbrev pub Fits : List Read → Type 0
Fits reads = All (λ r. length (r.0) ≤ block_size) reads

done-injective : {a b : State} {x y : Option IoError} → done a x ≡ done b y → a ≡ b
done-injective h = cc

flush-keeps : (s : State) → ((flush s).sink ≡ s.sink) × ((flush s).total ≡ s.total)
unfolding flush
flush-keeps s = ground arith

counted : State → ℕ → ℕ → Sink → State
counted s n out w = record s {
  total = s.total + n;
  stats = record (s.stats) {
    input_bytes = s.stats.input_bytes + n;
    output_bytes = s.stats.output_bytes + (5 + out);
  };
  sink = w;
}

account-keeps :
    (s : State) (n out : ℕ) (w : Sink)
    → ((account s n out w).sink ≡ w) × ((account s n out w).total ≡ s.total + n)
unfolding account counted
account-keeps s n out w = ground (arith, flush-keeps (counted s n out w))

module _ (c : Codec) where
  encode_block-IsCoded :
      (s : State) (b : List ℕ)
      → length b ≤ block_size
      → IsCoded c b (encode_block c s b).1.0 (encode_block c s b).1.1
        × ((encode_block c s b).0.sink ≡ s.sink)
        × ((encode_block c s b).0.total ≡ s.total)
  unfolding encode_block skip_block try_block
  encode_block-IsCoded s b h = elim (Bool-cases (ltb (length b) 256 || ltb 0 s.skip_bytes)) [
    | inl skip ↦ rw skip (inl (refl, refl), refl, refl)
    | inr try ↦ elim (Bool-cases (ltb (length (c.deflate b) * 100) (length b * 90))) [
      | inl gain ↦
          rw (try, gain)
            (
              inr (
                refl,
                refl,
                (omega (arith, ltb→lt (length (c.deflate b) * 100) (length b * 90) gain)),
              ),
              refl,
              refl,
            )
      | inr miss ↦ rw (try, miss) (inl (refl, refl), refl, refl)
    ]
  ]

  -- One block on a writer that does not fail.
  copy_block-frame :
      (s : State) (old b : List ℕ)
      → s.sink ≡ clean old
      → IsBlock b
      → (mode : ℕ) × (payload : List ℕ) × (s' : State) × (copy_block c s b ≡ (none, s'))
        × IsCoded c b mode payload
        × (s'.sink ≡ clean (old ++ frame mode (length b) payload))
        × (s'.total ≡ s.total + length b)
  unfolding copy_block finish_block
  copy_block-frame s old b e size =
      let s0 = record s { empty_reads = 0 } in
      let p = encode_block c s0 b in
      let (coded, sk, tot) = encode_block-IsCoded s0 b size.1 in
      let w = frame p.1.0 (length b) p.1.1 in
      let a = account-keeps p.0 (length b) (length p.1.1) (clean (old ++ w)) in
      (
        p.1.0,
        p.1.1,
        account p.0 (length b) (length p.1.1) (clean (old ++ w)),
        ap (finish_block p.0 (length b) (length p.1.1))
            (ap (write_full w) (sk ∙ e) ∙ write_full_ok w old),
        coded,
        a.0,
        omega (arith, a.1, tot),
      )

  -- What a call that ends without an error has written behind `old`, and its total.
  abbrev Written : List ℕ → ℕ → List Read → State → Type 0
  Written old total reads s =
      (bs : List (List ℕ)) × (w : List ℕ) × Wire c bs w
      × (concat bs ≡ content reads)
      × (s.sink ≡ clean (old ++ w))
      × (s.total ≡ total + length (content reads))

  block_then :
      (s s1 : State) (x : ℕ) (b : List ℕ) (reads : List Read)
      → copy_block c s (x ∷ b) ≡ (none, s1)
      → copy_loop c s ((x ∷ b, none) ∷ reads) ≡ copy_loop c s1 reads
  unfolding copy_loop after_read
  block_then s s1 x b reads e = rw (e, copy_loop, after_read) (rw e refl)

  block_last :
      (s s1 : State) (x : ℕ) (b : List ℕ) (f : IoError) (reads : List Read)
      → copy_block c s (x ∷ b) ≡ (none, s1)
      → copy_loop c s ((x ∷ b, some f) ∷ reads) ≡ done (flush s1) (end_error f)
  unfolding copy_loop after_read
  block_last s s1 x b f reads e = rw (e, copy_loop, after_read) (rw e refl)

  empty_then :
      (s s' : State) (reads : List Read)
      → copy_loop c s (([], none) ∷ reads) ≡ done s' none
      → copy_loop c (record s { empty_reads = s.empty_reads + 1 }) reads ≡ done s' none
  unfolding copy_loop after_read empty_read
  empty_then s s' reads h = elim (Bool-cases (leb 100 (s.empty_reads + 1))) [
    | inl stop ↦ absurd (cc (rw (stop, copy_loop, after_read, empty_read) at h))
    | inr go ↦ rw (go, copy_loop, after_read, empty_read) at h
  ]

  flushed :
      (s s1 s' : State) (old w : List ℕ) (n total : ℕ) (f : IoError)
      → done (flush s1) (end_error f) ≡ done s' none
      → s1.sink ≡ clean (old ++ w)
      → s1.total ≡ total + n
      → (s'.sink ≡ clean (old ++ w)) × (s'.total ≡ total + n)
  flushed s s1 s' old w n total f h sk tot =
      let e : flush s1 ≡ s' = done-injective h in
      (
        sym (ap (λ (z : State). z.sink) e) ∙ (flush-keeps s1).0 ∙ sk,
        sym (ap (λ (z : State). z.total) e) ∙ (flush-keeps s1).1 ∙ tot,
      )

  still_waiting : (s s' : State) → copy_loop c s [] ≡ done s' none → ⊥
  unfolding copy_loop
  still_waiting s s' h = cc

  -- A call that ends without an error has written the read bytes as blocks in frames.
  pub copy_loop-Written :
      (reads : List Read) (s s' : State) (old : List ℕ)
      → s.sink ≡ clean old
      → Fits reads
      → copy_loop c s reads ≡ done s' none
      → Written old s.total reads s'
  copy_loop-Written [] s s' old e f h = absurd (still_waiting s s' h)
  copy_loop-Written (([], none) ∷ reads) s s' old e f h =
      copy_loop-Written reads (record s { empty_reads = s.empty_reads + 1 }) s' old e f.1
        (empty_then s s' reads h)
  copy_loop-Written (([], some x) ∷ reads) s s' old e f h =
      let (sk, tot) =
        flushed s s s' old [] 0 s.total x (unfold copy_loop after_read in h)
          (e ∙ ap clean (sym (append-nil old))) (omega arith) in
      ([], [], refl, refl, sk, tot)
  copy_loop-Written ((b ∷ bs, none) ∷ reads) s s' old e f h =
      let (mode, payload, s1, eq, coded, sk, tot) =
        copy_block-frame s old (b ∷ bs) e (omega arith, f.0) in
      let w1 = frame mode (length (b ∷ bs)) payload in
      let (blocks, w, wire, con, sk', tot') =
        copy_loop-Written reads s1 s' (old ++ w1) sk f.1
          (sym (block_then s s1 b bs reads eq) ∙ h) in
      (
        (b ∷ bs) ∷ blocks,
        w1 ++ w,
        (mode, payload, w, refl, (omega arith, f.0), coded, wire),
        ap (λ t. (b ∷ bs) ++ t) con,
        sk' ∙ ap clean (append_assoc old w1 w),
        omega (arith, tot, tot', length-append (b ∷ bs) (content reads)),
      )
  copy_loop-Written ((b ∷ bs, some x) ∷ reads) s s' old e f h =
      let (mode, payload, s1, eq, coded, sk, tot) =
        copy_block-frame s old (b ∷ bs) e (omega arith, f.0) in
      let w1 = frame mode (length (b ∷ bs)) payload in
      let (sk', tot') =
        flushed s s1 s' old w1 (length (b ∷ bs)) s.total x
          (sym (block_last s s1 b bs x reads eq) ∙ h) sk tot in
      (
        (b ∷ bs) ∷ [],
        w1,
        (mode, payload, [], sym (append-nil w1), (omega arith, f.0), coded, refl),
        append-nil (b ∷ bs),
        sk',
        tot',
      )
