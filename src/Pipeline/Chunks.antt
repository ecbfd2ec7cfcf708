-- ===== src/Pipeline/Chunks.antt =====
-- The loop over the frames of server/src/pipeline.rs, in `push` and in `flush_with_silence`.
use snapcast_client.Prelude.{
  ℕ, zero, suc, ◌+◌, ◌*◌, ◌≤◌, ◌<◌, ◌≡◌, refl, sym, ap, ◌∙◌, arith, false, Bool-cases, inl, inr,
  List, [], ◌∷◌, length, length-drop, take, drop, map, subst, ℤ, pos, ◌+ℤ◌, ◌≤ℤ◌, leb, leb→le,
}
use snapcast_client.Outcome.{Outcome, ok, ◌>>=◌}
use snapcast_client.Word.{Profile}
use snapcast_client.Bytes.{Bytes}
use snapcast_client.Bytes.Slices.{drop-drop}
use snapcast_client.TimeVal.{from_micros}
use snapcast_client.Net.Writer.{EncodedChunk}
use snapcast_client.Pipeline.{Pipeline, Codecs, interleave, emit_loop}
use snapcast_client.Pipeline.Pace.{IsReading}
use snapcast_client.Pipeline.Frames.{Encodes, IsReady, IsTaken, Spaced, emit_frame_ready}

leb_false→lt : (a b : ℕ) → leb a b ≡ false → b < a
leb_false→lt a b e = ground arith

-- The first `count` frames of a pair of channels, interleaved.
unfoldable pub frames : {S : Type 0} → ℕ → ℕ → List S → List S → List (List S)
frames zero frame ls rs = []
frames (suc count) frame ls rs =
    interleave (take frame ls) (take frame rs) ∷ frames count frame (drop frame ls) (drop frame rs)

unfoldable pub payloads : List EncodedChunk → List Bytes
payloads = map (λ (ec : EncodedChunk). ec.encoded)

module _ {S R E : Type 0} (codecs : Codecs S R E) where
  -- The encoder on one frame after the other.
  unfoldable pub encode_all : E → List (List S) → Outcome (E × List Bytes)
  encode_all encoder [] = ok (encoder, [])
  encode_all encoder (xs ∷ xss) =
      codecs.encode_float encoder xs >>= λ r. encode_all r.0 xss >>= λ s. ok (s.0, r.1 ∷ s.1)

  module _ (p : Profile) (clock : ℕ → ℤ) (instants : ℕ → ℕ → ℕ × ℕ) where
    IsTaken-next :
        (k : ℕ) (s s1 s2 : Pipeline S R E)
        → IsTaken codecs p clock instants 1 s s1
        → IsTaken codecs p clock instants k s1 s2
        → IsTaken codecs p clock instants (suc k) s s2
    IsTaken-next k s s1 s2 a b = record {
      left = b.left ∙ along (λ x. x.out_l) a.left;
      right = b.right ∙ along (λ x. x.out_r) a.right;
      same_frame = b.same_frame ∙ a.same_frame;
      same_chunk = b.same_chunk ∙ a.same_chunk;
      same_in_chunk = b.same_in_chunk ∙ a.same_in_chunk;
      same_in_l = b.same_in_l ∙ a.same_in_l;
      same_in_r = b.same_in_r ∙ a.same_in_r;
      same_resampler = b.same_resampler ∙ a.same_resampler;
    }
      where
        along :
            (out : Pipeline S R E → List S)
            → out s1 ≡ drop (1 * s.frame) (out s)
            → drop (k * s1.frame) (out s1) ≡ drop (suc k * s.frame) (out s)
        along out e =
            (λ i. drop (k * a.same_frame i) (e i))
            ∙ drop-drop (k * s.frame) (1 * s.frame) (out s)
            ∙ ap (λ n. drop n (out s))
                (let e : 1 * s.frame + k * s.frame ≡ suc k * s.frame = omega arith in e)

    pub less_room :
        (more room : ℕ) (s : Pipeline S R E) (due : ℤ)
        → room ≤ more
        → IsReady codecs clock more s due
        → IsReady codecs clock room s due
    less_room more room s due le h = record {
      even = h.even;
      has_frame = h.has_frame;
      buffer_fits = h.buffer_fits;
      is_due =
          (h.is_due.0, h.is_due.1, omega (arith, h.is_due.2), h.is_due.3, h.is_due.4, h.is_due.5);
    }

    -- What the loop gives on a ready pipeline.
    abbrev pub IsChunked : ℕ → Pipeline S R E → ℤ → Pipeline S R E × List EncodedChunk → Type 0
    IsChunked room s due (s', ecs) =
        IsTaken codecs p clock instants (length ecs) s s'
        × (length s.out_l ≡ length ecs * s.frame + length s'.out_l)
        × (length s'.out_l < s.frame)
        × (encode_all s.encoder (frames (length ecs) s.frame s.out_l s.out_r)
            ≡ ok (s'.encoder, payloads ecs))
        × ((due' : ℤ) × Spaced due (s.chunk_ms * 1000) ecs due' × IsReady codecs clock room s' due')

    done_ready :
        (room fuel : ℕ) (s : Pipeline S R E) (due : ℤ)
        → IsReady codecs clock (room + fuel) s due
        → length s.out_l < s.frame
        → IsChunked room s due (s, [])
    unfolding encode_all frames payloads
    done_ready room fuel s due h short = (
      record {
        left = ap (λ k. drop k s.out_l) (let e : 0 ≡ 0 * s.frame = omega arith in e);
        right = ap (λ k. drop k s.out_r) (let e : 0 ≡ 0 * s.frame = omega arith in e);
        same_frame = refl;
        same_chunk = refl;
        same_in_chunk = refl;
        same_in_l = refl;
        same_in_r = refl;
        same_resampler = refl;
      },
      omega arith,
      short,
      refl,
      (due, omega arith, less_room (room + fuel) room s due (omega arith) h),
    )

    more_ready :
        (room : ℕ) (s s1 s2 : Pipeline S R E) (due us : ℤ) (ec : EncodedChunk)
        (ecs : List EncodedChunk)
        → s.frame ≤ length s.out_l
        → codecs.encode_float s.encoder (interleave (take s.frame s.out_l) (take s.frame s.out_r))
          ≡ ok (s1.encoder, ec.encoded)
        → ec.timestamp ≡ from_micros us
        → due ≤ℤ us
        → IsTaken codecs p clock instants 1 s s1
        → IsChunked room s1 (us +ℤ pos (s.chunk_ms * 1000)) (s2, ecs)
        → IsChunked room s due (s2, ec ∷ ecs)
    unfolding encode_all frames payloads
    more_ready room s s1 s2 due us ec ecs full encoded stamped kept first
          (taken, whole, short, rest, (due', spaced, ready)) =
        (
          IsTaken-next (length ecs) s s1 s2 first taken,
          omega (
            arith,
            whole ∙ ap (λ f. length ecs * f + length s2.out_l) first.same_frame,
            ap length first.left ∙ length-drop (1 * s.frame) s.out_l,
          ),
          omega (arith, first.same_frame),
          rw (encoded, ap (encode_all s1.encoder) next_frames ∙ rest) refl,
          (
            due',
            (
              us,
              stamped,
              kept,
              subst (λ c. Spaced (us +ℤ pos (s.chunk_ms * 1000)) (c * 1000) ecs due')
                  first.same_chunk spaced,
            ),
            ready,
          ),
        )
      where
        one_frame : 1 * s.frame ≡ s.frame
        one_frame = omega arith

        left : drop s.frame s.out_l ≡ s1.out_l
        left = sym (first.left ∙ ap (λ k. drop k s.out_l) one_frame)

        right : drop s.frame s.out_r ≡ s1.out_r
        right = sym (first.right ∙ ap (λ k. drop k s.out_r) one_frame)

        next_frames :
            frames (length ecs) s.frame (drop s.frame s.out_l) (drop s.frame s.out_r)
            ≡ frames (length ecs) s1.frame s1.out_l s1.out_r
        next_frames i = frames (length ecs) (sym first.same_frame i) (left i) (right i)

    pub emit_loop_ready :
        (fuel room : ℕ) (s : Pipeline S R E) (due : ℤ)
        → ((k : ℕ) → IsReading (clock k))
        → Encodes codecs s.frame
        → IsReady codecs clock (room + fuel) s due
        → length s.out_l < fuel
        → (r : Pipeline S R E × List EncodedChunk) × (emit_loop codecs p clock instants fuel s
            ≡ ok r)
          × IsChunked room s due r
    unfolding emit_loop
    emit_loop_ready zero room s due readings enc h enough = absurd (omega arith)
    emit_loop_ready (suc fuel) room s due readings enc h enough =
        elim (Bool-cases (leb s.frame (length s.out_l))) [
          | inr short ↦ (
            (s, []),
            rw (short, emit_loop) refl,
            done_ready room (suc fuel) s due h (leb_false→lt s.frame (length s.out_l) short),
          )
          | inl is_full ↦
              let full = leb→le s.frame (length s.out_l) is_full in
              let (s1, ec, us, emitted, encoded, stamped, kept, first, ready) =
                emit_frame_ready codecs p clock instants (room + fuel) s due readings enc
                  (subst (λ n. IsReady codecs clock n s due)
                    (let e : room + suc fuel ≡ room + fuel + 1 = omega arith in e) h)
                  full in
              let (r, run, chunked) =
                emit_loop_ready fuel room s1 (us +ℤ pos (s.chunk_ms * 1000)) readings
                  (subst (λ f. Encodes codecs f) (sym first.same_frame) enc) ready
                  (omega (
                    arith,
                    h.has_frame,
                    ap length first.left ∙ length-drop (1 * s.frame) s.out_l,
                  )) in
              (
                (r.0, ec ∷ r.1),
                rw (is_full, emit_loop, emitted, run) refl,
                more_ready room s s1 r.0 due us ec r.1 full encoded stamped kept first chunked,
              )
        ]
