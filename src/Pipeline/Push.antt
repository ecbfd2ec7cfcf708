-- ===== src/Pipeline/Push.antt =====
-- `push` of server/src/pipeline.rs.
use snapcast_client.Prelude.{
  ℕ, zero, suc, ◌+◌, ◌*◌, ◌≤◌, ◌<◌, ◌≡◌, refl, sym, ap, ◌∙◌, arith, List, [], ◌∷◌, ◌++◌, append-nil,
  append_assoc, length, length-append, length-drop, length-take, take, drop, le→leb, lt→leb_false,
  ℤ,
}
use native.Mathlib.Decide.{dec_lt}
use snapcast_client.Outcome.{Outcome, ok, ◌>>=◌}
use snapcast_client.Bytes.Slices.{drop-drop}
use snapcast_client.Word.{Profile}
use snapcast_client.Net.Writer.{EncodedChunk}
use snapcast_client.Pipeline.{Pipeline, Codecs, deinterleave, resample_loop, push}
use snapcast_client.Pipeline.Pace.{IsReading}
use snapcast_client.Pipeline.Frames.{Encodes, IsReady, Spaced}
use snapcast_client.Pipeline.Chunks.{frames, payloads, encode_all, less_room, emit_loop_ready}

module _ {S R E : Type 0} (codecs : Codecs S R E) where
  -- The resampler on `count` blocks of a pair of channels, and all that it gives.
  unfoldable pub resample_all : ℕ → ℕ → R → List S → List S → Outcome (R × (List S × List S))
  resample_all zero block r ls rs = ok (r, ([], []))
  resample_all (suc count) block r ls rs = codecs.process r (take block ls) (take block rs) >>= λ a.
      resample_all count block a.0 (drop block ls) (drop block rs) >>= λ b.
      ok (b.0, (a.1.0 ++ b.1.0, a.1.1 ++ b.1.1))

  -- What the code relies on: the resampler takes every block, and gives channels of one length.
  abbrev pub Resamples : ℕ → Type 0
  Resamples block =
      (r : R) (ls rs : List S)
      → length ls ≡ block
      → length rs ≡ block
      → (r' : R) × (ls' : List S) × (rs' : List S) × (codecs.process r ls rs ≡ ok (r', (ls', rs')))
        × (length ls' ≡ length rs')

  -- The pipeline after `count` blocks that gave `ls` and `rs`.
  abbrev pub resampled : ℕ → Pipeline S R E → R → List S → List S → Pipeline S R E
  resampled count s r ls rs = record s {
    resampler = r;
    in_l = drop (count * s.in_chunk) s.in_l;
    in_r = drop (count * s.in_chunk) s.in_r;
    out_l = s.out_l ++ ls;
    out_r = s.out_r ++ rs;
  }

  abbrev IsResampled : ℕ → ℕ → Pipeline S R E → Type 0
  IsResampled fuel count s =
      (r : R) × (ls : List S) × (rs : List S) × (resample_all count s.in_chunk s.resampler s.in_l
          s.in_r
        ≡ ok (r, (ls, rs)))
      × (length ls ≡ length rs)
      × (resample_loop codecs fuel s ≡ ok (resampled count s r ls rs))

  resample_more :
      (fuel count : ℕ) (s : Pipeline S R E) (r : R) (ls rs : List S)
      → s.in_chunk ≤ length s.in_l
      → s.in_chunk ≤ length s.in_r
      → codecs.process s.resampler (take s.in_chunk s.in_l) (take s.in_chunk s.in_r)
        ≡ ok (r, (ls, rs))
      → length ls ≡ length rs
      → IsResampled fuel count (record s {
        resampler = r;
        in_l = drop s.in_chunk s.in_l;
        in_r = drop s.in_chunk s.in_r;
        out_l = s.out_l ++ ls;
        out_r = s.out_r ++ rs;
      })
      → IsResampled (suc fuel) (suc count) s
  unfolding resample_loop resample_all
  resample_more fuel count s r ls rs full full_r first even (r', ls', rs', rest, even', run) = (
    r',
    ls ++ ls',
    rs ++ rs',
    rw (first, rest) refl,
    omega (arith, length-append ls ls', length-append rs rs'),
    rw
        (
          le→leb s.in_chunk (length s.in_l) full,
          resample_loop,
          le→leb s.in_chunk (length s.in_r) full_r,
          first,
        )
        (run ∙ ap (λ x. ok x) same),
  )
    where
      past :
          (xs : List S)
          → drop (count * s.in_chunk) (drop s.in_chunk xs) ≡ drop (suc count * s.in_chunk) xs
      past xs =
          drop-drop (count * s.in_chunk) s.in_chunk xs
          ∙ ap (λ n. drop n xs)
              (let e : s.in_chunk + count * s.in_chunk ≡ suc count * s.in_chunk = omega arith in e)

      same :
          resampled count
            (record s {
              resampler = r;
              in_l = drop s.in_chunk s.in_l;
              in_r = drop s.in_chunk s.in_r;
              out_l = s.out_l ++ ls;
              out_r = s.out_r ++ rs;
            })
            r'
            ls'
            rs'
          ≡ resampled (suc count) s r' (ls ++ ls') (rs ++ rs')
      same i = record s {
        resampler = r';
        in_l = past s.in_l i;
        in_r = past s.in_r i;
        out_l = append_assoc s.out_l ls ls' i;
        out_r = append_assoc s.out_r rs rs' i;
      }

  -- The loop takes all whole blocks.
  IsDrained : ℕ → Pipeline S R E → Type 0
  IsDrained fuel s =
      (count : ℕ) × (left : ℕ) × (length s.in_l ≡ count * s.in_chunk + left)
      × (left < s.in_chunk)
      × IsResampled fuel count s

  none_whole : (fuel : ℕ) (s : Pipeline S R E) → length s.in_l < s.in_chunk → IsDrained (suc fuel) s
  unfolding IsDrained resample_loop resample_all
  none_whole fuel s short = (
    0,
    length s.in_l,
    omega arith,
    short,
    (
      s.resampler,
      [],
      [],
      refl,
      refl,
      rw (lt→leb_false s.in_chunk (length s.in_l) short, resample_loop)
          (λ i. ok (record s {
            in_l = drop (none i) s.in_l;
            in_r = drop (none i) s.in_r;
            out_l = sym (append-nil s.out_l) i;
            out_r = sym (append-nil s.out_r) i;
          })),
    ),
  )
    where
      none : 0 ≡ 0 * s.in_chunk
      none = omega arith

  resample_drains :
      (fuel : ℕ) (s : Pipeline S R E)
      → Resamples s.in_chunk
      → 0 < s.in_chunk
      → length s.in_l ≡ length s.in_r
      → length s.in_l < fuel
      → IsDrained fuel s
  unfolding IsDrained
  resample_drains zero s law some even enough = absurd (omega arith)
  resample_drains (suc fuel) s law some even enough = elim (dec_lt (length s.in_l) s.in_chunk) [
    | yes short ↦ none_whole fuel s short
    | no full ↦
        let (r, ls, rs, first, even') =
          law s.resampler (take s.in_chunk s.in_l) (take s.in_chunk s.in_r)
            (omega (arith, length-take s.in_chunk s.in_l))
            (omega (arith, even, length-take s.in_chunk s.in_r)) in
        let (count, left, whole, short, more) =
          resample_drains fuel
            (record s {
              resampler = r;
              in_l = drop s.in_chunk s.in_l;
              in_r = drop s.in_chunk s.in_r;
              out_l = s.out_l ++ ls;
              out_r = s.out_r ++ rs;
            })
            law some
            (omega (arith, even, length-drop s.in_chunk s.in_l, length-drop s.in_chunk s.in_r))
            (omega (arith, length-drop s.in_chunk s.in_l)) in
        (
          suc count,
          left,
          omega (arith, whole, length-drop s.in_chunk s.in_l),
          short,
          resample_more fuel count s r ls rs (omega arith) (omega (arith, even)) first even' more,
        )
  ]

  length-deinterleave : (xs : List S) → length (deinterleave xs).0 ≡ length (deinterleave xs).1
  unfolding deinterleave
  length-deinterleave [] = refl
  length-deinterleave (l ∷ []) = refl
  length-deinterleave (l ∷ r ∷ rest) = ap suc (length-deinterleave rest)

  module _ (p : Profile) (clock : ℕ → ℤ) (instants : ℕ → ℕ → ℕ × ℕ) where
    resampled-IsReady :
        (room bound count : ℕ) (s : Pipeline S R E) (due : ℤ) (r : R) (ls rs : List S)
        → length ls ≡ length rs
        → length ls ≤ bound
        → IsReady codecs clock (room + length s.out_l + bound + 1) s due
        → IsReady codecs clock (room + (length (s.out_l ++ ls) + 1)) (resampled count s r ls rs) due
    resampled-IsReady room bound count s due r ls rs even few h = record {
      even = omega (arith, h.even, even, length-append s.out_l ls, length-append s.out_r rs);
      has_frame = h.has_frame;
      buffer_fits = h.buffer_fits;
      is_due =
          (less_room codecs p clock instants (room + length s.out_l + bound + 1)
            (room + (length (s.out_l ++ ls) + 1)) s due
            (omega (arith, few, length-append s.out_l ls)) h).is_due;
    }

    -- What a push of `interleaved` gives.
    abbrev pub IsPushed : ℕ → Pipeline S R E → ℤ → List S → Type 0
    IsPushed room s due interleaved =
        (s' : Pipeline S R E) × (ecs : List EncodedChunk) × (count : ℕ) × (ls : List S) × (rs : List
          S)
        × (push codecs p clock instants s interleaved ≡ ok (s', ecs))
        × (resample_all count s.in_chunk s.resampler (s.in_l ++ (deinterleave interleaved).0)
              (s.in_r ++ (deinterleave interleaved).1)
            ≡ ok (s'.resampler, (ls, rs)))
        × (length ls ≡ length rs)
        × (s'.in_l ≡ drop (count * s.in_chunk) (s.in_l ++ (deinterleave interleaved).0))
        × (s'.in_r ≡ drop (count * s.in_chunk) (s.in_r ++ (deinterleave interleaved).1))
        × (length (s.in_l ++ (deinterleave interleaved).0) ≡ count * s.in_chunk + length s'.in_l)
        × (length s'.in_l < s.in_chunk)
        × (encode_all codecs s.encoder (frames (length ecs) s.frame (s.out_l ++ ls) (s.out_r ++ rs))
            ≡ ok (s'.encoder, payloads ecs))
        × (s'.out_l ≡ drop (length ecs * s.frame) (s.out_l ++ ls))
        × (s'.out_r ≡ drop (length ecs * s.frame) (s.out_r ++ rs))
        × (length (s.out_l ++ ls) ≡ length ecs * s.frame + length s'.out_l)
        × (length s'.out_l < s.frame)
        × (s'.frame ≡ s.frame)
        × (s'.in_chunk ≡ s.in_chunk)
        × (s'.chunk_ms ≡ s.chunk_ms)
        × ((due' : ℤ) × Spaced due (s.chunk_ms * 1000) ecs due' × IsReady codecs clock room s' due')

    -- A resampler that takes blocks and gives at most `bound` samples for what is pushed, an
    -- encoder that takes whole frames, channels of one length, a clock that reads times within 2 ^
    -- 60 microseconds, and room for the count of the chunks: the push returns in both profiles. The
    -- resampler has taken all whole blocks of the samples that waited and those that are pushed,
    -- and less than a block is left of them. The payloads of the chunks are the encoder's results
    -- on all whole frames of the resampled samples, in order, and less than a frame is left of
    -- these. The stamps are at least a chunk apart, the first not before its instant, the sizes of
    -- blocks and frames stay, and the pipeline is ready again for what is due a chunk after the
    -- last.
    pub push_complete :
        (room bound : ℕ) (s : Pipeline S R E) (due : ℤ) (interleaved : List S)
        → ((k : ℕ) → IsReading (clock k))
        → Encodes codecs s.frame
        → Resamples s.in_chunk
        → 0 < s.in_chunk
        → length s.in_l ≡ length s.in_r
        → ((count : ℕ) (r : R) (ls rs : List S)
            → count * s.in_chunk ≤ length (s.in_l ++ (deinterleave interleaved).0)
            → resample_all count s.in_chunk s.resampler
                (s.in_l ++ (deinterleave interleaved).0)
                (s.in_r ++ (deinterleave interleaved).1)
              ≡ ok (r, (ls, rs))
            → length ls ≤ bound)
        → IsReady codecs clock (room + length s.out_l + bound + 1) s due
        → IsPushed room s due interleaved
    unfolding push IsDrained
    push_complete room bound s due interleaved readings enc law some even few h =
        let news = deinterleave interleaved in
        let s1 = record s { in_l = s.in_l ++ news.0; in_r = s.in_r ++ news.1 } in
        let (count, left, whole, less, (r, ls, rs, resampled_ok, even', run)) =
          resample_drains (length s1.in_l + 1) s1 law some
            (omega (
              arith,
              even,
              length-append s.in_l news.0,
              length-append s.in_r news.1,
              length-deinterleave interleaved,
            ))
            (omega arith) in
        let ready =
          resampled-IsReady room bound count s1 due r ls rs even'
            (few count r ls rs (omega arith) resampled_ok)
            (record {
              even = h.even;
              has_frame = h.has_frame;
              buffer_fits = h.buffer_fits;
              is_due = h.is_due;
            }) in
        let ((s', ecs), emitted, (taken, all, short, encoded, next)) =
          emit_loop_ready codecs p clock instants (length (s.out_l ++ ls) + 1) room
            (resampled count s1 r ls rs) due readings enc ready (omega arith) in
        (
          s',
          ecs,
          count,
          ls,
          rs,
          rw run emitted,
          resampled_ok ∙ ap (λ x. ok (x, (ls, rs))) (sym taken.same_resampler),
          even',
          taken.same_in_l,
          taken.same_in_r,
          omega (arith, ap length taken.same_in_l, whole, length-drop (count * s.in_chunk) s1.in_l),
          omega (arith, ap length taken.same_in_l, whole, length-drop (count * s.in_chunk) s1.in_l),
          encoded,
          taken.left,
          taken.right,
          all,
          short,
          taken.same_frame,
          taken.same_in_chunk,
          taken.same_chunk,
          next,
        )
