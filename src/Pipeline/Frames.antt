-- ===== src/Pipeline/Frames.antt =====
-- The frames that `emit_frame` of server/src/pipeline.rs takes from the resampled samples.
use snapcast_client.Prelude.{
  ℕ, ◌+◌, ◌*◌, ◌^◌, ◌≤◌, ◌<◌, ◌≡◌, refl, ap, ◌∙◌, arith, Option, List, [], ◌∷◌, length, length-drop,
  take, drop, ℤ, pos, ◌+ℤ◌, ◌≤ℤ◌, le→leb, lt→ltb, length-take, int_laws,
}
use snapcast_client.Outcome.{ok}
use snapcast_client.Word.{Profile, debug, release, i64, i64_fits}
use snapcast_client.Bytes.{Bytes}
use snapcast_client.TimeVal.{from_micros}
use snapcast_client.Net.Writer.{EncodedChunk, chunk}
use snapcast_client.Net.Registry.{
  Registry, broadcast_chunk, disconnect_all, disconnect, twice_u32, offer_all,
}
use snapcast_client.Pipeline.{Pipeline, anchor, Codecs, interleave, pace, emit_frame}
use snapcast_client.Pipeline.Pace.{IsDue, IsReading, IsPaced, pace_due, due_next}

disconnect_all-buffer :
    (ids : List ℕ) (r : Registry) → (disconnect_all ids r).buffer_ms ≡ r.buffer_ms
unfolding disconnect_all disconnect
disconnect_all-buffer [] r = refl
disconnect_all-buffer (id ∷ ids) r = disconnect_all-buffer ids (disconnect id r)

twice_fits : (p : Profile) (n : ℕ) → n < 2 ^ 31 → twice_u32 p n ≡ ok (n * 2)
twice_fits debug n h = rw (lt→ltb (n * 2) (2 ^ 32) (omega arith)) refl
twice_fits release n h = ap (λ k. ok k) (omega arith)

-- A broadcast returns where twice the buffer's length fits a `u32`.
broadcast_ok :
    (p : Profile) (reads : ℕ → ℕ × ℕ) (r : Registry) (ec : EncodedChunk)
    → r.buffer_ms < 2 ^ 31
    → (r' : Registry) × (broadcast_chunk p reads r ec ≡ ok r') × (r'.buffer_ms ≡ r.buffer_ms)
unfolding broadcast_chunk
broadcast_ok p reads r ec h =
    let sent = offer_all (r.buffer_ms * 2 * 1000000) reads (chunk ec) r.clients in
    (
      disconnect_all sent.1 (record r { clients = sent.0 }),
      rw (twice_fits p r.buffer_ms h) refl,
      disconnect_all-buffer sent.1 (record r { clients = sent.0 }),
    )

length-interleave :
    {S : Type 0} (ls rs : List S)
    → length ls ≡ length rs
    → length (interleave ls rs) ≡ 2 * length ls
unfolding interleave
length-interleave [] rs h = refl
length-interleave (l ∷ ls) [] h = absurd (omega (arith, h))
length-interleave (l ∷ ls) (r ∷ rs) h = omega (arith, h, length-interleave ls rs (omega (arith, h)))

-- Chunks whose stamps are microseconds, the first not before `due`, and each next one at least `gap`
-- after the one before, and `after` like one more.
abbrev pub Spaced : ℤ → ℕ → List EncodedChunk → ℤ → Type 0
Spaced due gap [] after = due ≤ℤ after
Spaced due gap (ec ∷ ecs) after =
    (us : ℤ) × (ec.timestamp ≡ from_micros us) × (due ≤ℤ us) × Spaced (us +ℤ pos gap) gap ecs after

module _ {S R E : Type 0} (codecs : Codecs S R E) where
  -- What the code relies on: the encoder takes every whole frame.
  abbrev pub Encodes : ℕ → Type 0
  Encodes frame =
      (e : E) (xs : List S)
      → length xs ≡ 2 * frame
      → (e' : E) × (bytes : Bytes) × (codecs.encode_float e xs ≡ ok (e', bytes))

  -- The pipeline has a whole pair of channels, frames that are not empty, and the next chunk due at
  -- `due`.
  pub record IsReady (clock : ℕ → ℤ) (room : ℕ) (s : Pipeline S R E) (due : ℤ) : Type 0 where
    pub even : length s.out_l ≡ length s.out_r
    pub has_frame : 0 < s.frame
    pub buffer_fits : s.registry.buffer_ms < 2 ^ 31
    pub is_due : IsDue codecs clock room s due

  module _ (p : Profile) (clock : ℕ → ℤ) (instants : ℕ → ℕ → ℕ × ℕ) where
    -- What is left of `s` when a frame is taken, up to the pacing and the registry.
    pub record IsTaken (count : ℕ) (s s' : Pipeline S R E) : Type 0 where
      pub left : s'.out_l ≡ drop (count * s.frame) s.out_l
      pub right : s'.out_r ≡ drop (count * s.frame) s.out_r
      pub same_frame : s'.frame ≡ s.frame
      pub same_chunk : s'.chunk_ms ≡ s.chunk_ms
      pub same_in_chunk : s'.in_chunk ≡ s.in_chunk
      pub same_in_l : s'.in_l ≡ s.in_l
      pub same_in_r : s'.in_r ≡ s.in_r
      pub same_resampler : s'.resampler ≡ s.resampler

    -- The pipeline after a frame.
    abbrev after_frame : Pipeline S R E → E → Option ℤ → ℕ → ℕ → Registry → Pipeline S R E
    after_frame s encoder t0 n reads registry = record s {
      out_l = drop s.frame s.out_l;
      out_r = drop s.frame s.out_r;
      encoder = encoder;
      t0_us = t0;
      chunks_since_anchor = pos n;
      clock_reads = reads;
      registry = registry;
    }

    emit_frame_paced :
        (s : Pipeline S R E) (encoder : E) (bytes : Bytes) (t0 : Option ℤ) (n reads : ℕ)
        (us slept : ℤ)
        → s.frame ≤ length s.out_l
        → s.frame ≤ length s.out_r
        → s.registry.buffer_ms < 2 ^ 31
        → n < 2 ^ 40
        → codecs.encode_float s.encoder (interleave (take s.frame s.out_l) (take s.frame s.out_r))
          ≡ ok (encoder, bytes)
        → pace codecs p clock instants (record s {
          out_l = drop s.frame s.out_l;
          out_r = drop s.frame s.out_r;
          encoder = encoder;
        })
          ≡ ok (after_frame s encoder t0 n reads s.registry, (us, slept))
        → (registry : Registry) × (registry.buffer_ms ≡ s.registry.buffer_ms)
          × (emit_frame codecs p clock instants s
              ≡ ok (
                after_frame s encoder t0 (n + 1) reads registry,
                record { timestamp = from_micros us; encoded = bytes },
              ))
    unfolding emit_frame
    emit_frame_paced s encoder bytes t0 n reads us slept full full_r buffer small encoded paced =
        let (registry, sent, same) =
          broadcast_ok p (instants reads) s.registry
            (record { timestamp = from_micros us; encoded = bytes }) buffer in
        let counted : i64 p (pos n +ℤ pos 1) ≡ ok (pos (n + 1)) =
          i64_fits p (pos n +ℤ pos 1) (omega int_laws) ∙ ap (λ z. ok z) (omega int_laws) in
        (
          registry,
          same,
          rw
              (
                le→leb s.frame (length s.out_l) full,
                le→leb s.frame (length s.out_r) full_r,
                encoded,
                paced,
                sent,
                counted,
              )
              refl,
        )

    -- What a ready pipeline gives for a frame.
    abbrev pub IsEmitted : ℕ → Pipeline S R E → ℤ → Type 0
    IsEmitted room s due =
        (s' : Pipeline S R E) × (ec : EncodedChunk) × (us : ℤ) × (emit_frame codecs p clock instants
            s
          ≡ ok (s', ec))
        × (codecs.encode_float s.encoder (interleave (take s.frame s.out_l) (take s.frame s.out_r))
            ≡ ok (s'.encoder, ec.encoded))
        × (ec.timestamp ≡ from_micros us)
        × (due ≤ℤ us)
        × IsTaken 1 s s'
        × IsReady clock room s' (us +ℤ pos (s.chunk_ms * 1000))

    emit_frame_encoded :
        (room : ℕ) (s : Pipeline S R E) (due : ℤ)
        → IsReady clock (room + 1) s due
        → s.frame ≤ length s.out_l
        → (encoder : E) (bytes : Bytes)
        → codecs.encode_float s.encoder (interleave (take s.frame s.out_l) (take s.frame s.out_r))
          ≡ ok (encoder, bytes)
        → (s1 : Pipeline S R E) (us slept : ℤ)
        → pace codecs p clock instants (record s {
          out_l = drop s.frame s.out_l;
          out_r = drop s.frame s.out_r;
          encoder = encoder;
        })
          ≡ ok (s1, (us, slept))
        → IsPaced codecs p clock instants
            (room + 1)
            (record s {
              out_l = drop s.frame s.out_l;
              out_r = drop s.frame s.out_r;
              encoder = encoder;
            })
            due
            (s1, (us, slept))
        → IsEmitted room s due
    emit_frame_encoded room s due h full encoder bytes encoded s1 us slept paced
          ((n, count, small, ms, anchored, e), kept, soon, awake, same) =
        let (registry, buffer, emitted) =
          emit_frame_paced s encoder bytes s1.t0_us n s1.clock_reads us slept full
            (omega (arith, h.even)) h.buffer_fits (omega arith) encoded
            (paced
              ∙ ap (λ s'. ok (s', (us, slept)))
                  (same
                    ∙ ap
                        (λ c. record (after_frame s encoder s1.t0_us n s1.clock_reads s.registry) {
                          chunks_since_anchor = c;
                        })
                        count)) in
        (
          after_frame s encoder s1.t0_us (n + 1) s1.clock_reads registry,
          record { timestamp = from_micros us; encoded = bytes },
          us,
          emitted,
          encoded,
          refl,
          kept,
          record {
            left = ap (λ k. drop k s.out_l) (omega arith);
            right = ap (λ k. drop k s.out_r) (omega arith);
            same_frame = refl;
            same_chunk = refl;
            same_in_chunk = refl;
            same_in_l = refl;
            same_in_r = refl;
            same_resampler = refl;
          },
          record {
            even = omega (arith, h.even, length-drop s.frame s.out_l, length-drop s.frame s.out_r);
            has_frame = h.has_frame;
            buffer_fits = omega (arith, buffer, h.buffer_fits);
            is_due = (
              n + 1,
              refl,
              omega arith,
              h.is_due.3,
              anchored,
              due_next us (anchor clock s1.t0_us s1.clock_reads).0 n (s.chunk_ms * 1000) (
                  e
                  ∙ ap
                      (λ s'.
                        (anchor clock s1.t0_us s1.clock_reads).0 +ℤ pos (n * (s'.chunk_ms * 1000)))
                      same),
            );
          },
        )

    pub emit_frame_ready :
        (room : ℕ) (s : Pipeline S R E) (due : ℤ)
        → ((k : ℕ) → IsReading (clock k))
        → Encodes s.frame
        → IsReady clock (room + 1) s due
        → s.frame ≤ length s.out_l
        → IsEmitted room s due
    emit_frame_ready room s due readings enc h full =
        let (encoder, bytes, encoded) =
          enc s.encoder (interleave (take s.frame s.out_l) (take s.frame s.out_r)) (
            omega (
              arith,
              length-interleave (take s.frame s.out_l) (take s.frame s.out_r)
                  (omega (arith, length-take s.frame s.out_l, length-take s.frame s.out_r)),
              length-take s.frame s.out_l,
            )) in
        let ((s1, (us, slept)), paced, is_paced) =
          pace_due codecs p clock instants (room + 1)
            (record s {
              out_l = drop s.frame s.out_l;
              out_r = drop s.frame s.out_r;
              encoder = encoder;
            })
            due readings h.is_due in
        emit_frame_encoded room s due h full encoder bytes encoded s1 us slept paced is_paced
