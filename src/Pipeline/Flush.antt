-- ===== src/Pipeline/Flush.antt =====
-- `flush_with_silence` of server/src/pipeline.rs.
use snapcast_client.Prelude.{
  ℕ, ◌+◌, ◌-◌, ◌*◌, ◌/◌, ◌%◌, ◌<◌, ◌≡◌, ◌≢◌, sym, ap, ◌∙◌, arith, Bool-cases, inl, inr, List, ◌++◌,
  length, length-append, length-replicate, replicate, lt→ltb, ◌==◌, if◌then◌else◌, ℤ,
}
use native.Mathlib.Nat.{mod-lt, mod-eq_of_lt, mul-add-mod_self_right, mul-mod_left, div-add-mod'}
use snapcast_client.Outcome.{ok}
use snapcast_client.Word.{Profile}
use snapcast_client.Net.Writer.{EncodedChunk}
use snapcast_client.Pipeline.{Pipeline, Codecs, flush_with_silence, padded}
use snapcast_client.Pipeline.Pace.{IsReading}
use snapcast_client.Pipeline.Frames.{Encodes, IsReady, Spaced}
use snapcast_client.Pipeline.Chunks.{frames, payloads, encode_all, less_room, emit_loop_ready}

-- What is left of a whole number of frames is none or a frame.
no_rest : (k q f r : ℕ) → k * f + r ≡ q * f → r < f → r ≡ 0
no_rest k q f r e lt =
    sym (mod-eq_of_lt lt)
    ∙ sym (mul-add-mod_self_right k f r)
    ∙ ap (λ n. n % f) e
    ∙ mul-mod_left q f

-- What fills up the last frame of `n` samples.
pub pad : ℕ → ℕ → ℕ
pad n f = if n % f == 0 then 0 else f - n % f

pad-whole : (n f : ℕ) → 0 < f → (q : ℕ) × (n + pad n f ≡ q * f) × (pad n f < f)
unfolding pad
pad-whole n f h = elim (Bool-cases (n % f == 0)) [
  | inl none_left ↦
      let e : n % f ≡ 0 = ground arith in
      (n / f, rw none_left (omega (arith, div-add-mod' n f)), rw none_left h)
  | inr some_left ↦
      let ne : n % f ≢ 0 = ground arith in
      (
        n / f + 1,
        rw some_left (omega (arith, div-add-mod' n f, mod-lt n h)),
        rw some_left (omega (arith, mod-lt n h)),
      )
]

module _ {S R E : Type 0} (codecs : Codecs S R E) (p : Profile) (clock : ℕ → ℤ)
    (instants : ℕ → ℕ → ℕ × ℕ) where
  padded-IsReady :
      (room : ℕ) (s : Pipeline S R E) (due : ℤ)
      → IsReady codecs clock (room + length s.out_l + s.frame) s due
      → (length (padded codecs p clock instants s).out_l
          ≡ length s.out_l + pad (length s.out_l) s.frame)
        × IsReady codecs clock
            (room + (length (padded codecs p clock instants s).out_l + 1))
            (padded codecs p clock instants s)
            due
  unfolding pad
  padded-IsReady room s due h =
      let n = length s.out_l in
      let small = (pad-whole n s.frame h.has_frame).2 in
      let silence = replicate (pad n s.frame) codecs.silence in
      let long : length (s.out_l ++ silence) ≡ n + pad n s.frame =
        omega
          (arith, length-append s.out_l silence, length-replicate (pad n s.frame) codecs.silence) in
      (
        long,
        record {
          even =
              omega (arith, h.even, length-append s.out_l silence, length-append s.out_r silence);
          has_frame = h.has_frame;
          buffer_fits = h.buffer_fits;
          is_due =
              (less_room codecs p clock instants (room + n + s.frame)
                (room + (length (s.out_l ++ silence) + 1)) s due (omega (arith, long, small))
                h).is_due;
        },
      )

  -- What a flush gives.
  abbrev pub IsFlushed : ℕ → Pipeline S R E → ℤ → Type 0
  IsFlushed room s due =
      (s' : Pipeline S R E) × (ecs : List EncodedChunk) × (silent : ℕ) × (flush_with_silence codecs
          p clock instants s
        ≡ ok (s', ecs))
      × (length s'.out_l ≡ 0)
      × (length s'.out_r ≡ 0)
      × (s'.in_l ≡ s.in_l)
      × (s'.in_r ≡ s.in_r)
      × (silent < s.frame)
      × (length s.out_l + silent ≡ length ecs * s.frame)
      × (encode_all codecs s.encoder (
            frames (length ecs) s.frame (s.out_l ++ replicate silent codecs.silence)
              (s.out_r ++ replicate silent codecs.silence))
          ≡ ok (s'.encoder, payloads ecs))
      × ((due' : ℤ) × Spaced due (s.chunk_ms * 1000) ecs due' × IsReady codecs clock room s' due')

  -- An encoder that takes whole frames, a clock that reads times within 2 ^ 60 microseconds, and
  -- room for the count of the chunks: the flush returns in both profiles. Each resampled sample is
  -- then in a frame, no sample is left of either channel, and the samples that wait for the
  -- resampler are not flushed: they stay, in no chunk. The payloads of the chunks are the
  -- encoder's results on the frames of the two channels with less than a frame of silence behind
  -- them, in order, and the stamps are at least a chunk apart, the first not before its instant.
  -- The pipeline is ready again for what is due a chunk after the last.
  pub flush_complete :
      (room : ℕ) (s : Pipeline S R E) (due : ℤ)
      → ((k : ℕ) → IsReading (clock k))
      → Encodes codecs s.frame
      → IsReady codecs clock (room + length s.out_l + s.frame) s due
      → IsFlushed room s due
  unfolding flush_with_silence pad
  flush_complete room s due readings enc h =
      let n = length s.out_l in
      let (q, full, small) = pad-whole n s.frame h.has_frame in
      let (long, ready) = padded-IsReady room s due h in
      let ((s', ecs), run, (taken, whole, short, encoded, next)) =
        emit_loop_ready codecs p clock instants
          (length (padded codecs p clock instants s).out_l + 1) room
          (padded codecs p clock instants s) due readings enc ready (omega arith) in
      let none_left : length s'.out_l ≡ 0 =
        no_rest (length ecs) q s.frame (length s'.out_l) (sym whole ∙ long ∙ full) short in
      (
        s',
        ecs,
        pad n s.frame,
        rw (lt→ltb 0 s.frame h.has_frame) run,
        none_left,
        omega (arith, none_left, next.2.even),
        taken.same_in_l,
        taken.same_in_r,
        small,
        omega (arith, sym whole ∙ long, none_left),
        encoded,
        next,
      )
