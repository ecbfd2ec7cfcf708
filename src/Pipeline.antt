-- ===== src/Pipeline.antt =====
-- `Pipeline` of server/src/pipeline.rs: interleaved samples are resampled, cut into frames,
-- encoded, stamped and broadcast. The resampler and the encoder are a parameter, and the readings
-- of the clock are a function of how many there were before.
pub mod Pace
pub mod Frames
pub mod Chunks
pub mod Flush
pub mod Push
pub mod Opening
pub mod Splits
pub mod Fed
pub mod Packets
use snapcast_client.Prelude.{
  ℕ, zero, suc, ◌+◌, ◌-◌, ◌*◌, ◌/◌, ◌%◌, Bool, true, false, ◌||◌, if◌then◌else◌, ltb, leb, ◌==◌,
  Option, none, some, List, [], ◌∷◌, ◌++◌, length, take, drop, replicate, ℤ, pos, ◌+ℤ◌, ◌-ℤ◌, ◌*ℤ◌,
  ltb_ℤ,
}
use snapcast_client.Outcome.{Outcome, Error, ok, stuck, ◌>>=◌, ◌>>◌, ensure, assert}
use snapcast_client.Word.{Profile, i64}
use snapcast_client.Bytes.{Bytes}
use snapcast_client.TimeVal.{from_micros}
use snapcast_client.Net.Writer.{EncodedChunk}
use snapcast_client.Net.Registry.{Registry, broadcast_chunk}

abbrev pub output_rate : ℕ
output_rate = 48000

-- The crates rubato and audiopus: a sample is an `S`, a resampler in some state an `R` and an
-- encoder an `E`. `process` takes and gives the left and the right samples.
pub record Codecs (S R E : Type 0) : Type 0 where
  pub silence : S
  pub new_resampler : Outcome (R × ℕ)
  pub process : R → List S → List S → Outcome (R × (List S × List S))
  pub new_encoder : ℤ → Outcome E
  pub encode_float : E → List S → Outcome (E × Bytes)

-- `clock_reads` counts the readings of the clock. The buffers `enc_in` and `enc_out` are left out:
-- every place that is read was written just before.
pub record Pipeline (S R E : Type 0) : Type 0 where
  pub resampler : R
  pub in_chunk : ℕ
  pub in_l : List S
  pub in_r : List S
  pub out_l : List S
  pub out_r : List S
  pub frame : ℕ
  pub encoder : E
  pub registry : Registry
  pub chunk_ms : ℕ
  pub t0_us : Option ℤ
  pub chunks_since_anchor : ℤ
  pub clock_reads : ℕ

-- `matches!(chunk_ms, 5 | 10 | 20 | 40 | 60)`
abbrev pub is_opus_frame : ℕ → Bool
is_opus_frame ms = (ms == 5) || (ms == 10) || (ms == 20) || (ms == 40) || (ms == 60)

-- The whole pairs of a slice of interleaved samples, as left and right.
unfoldable pub deinterleave : {S : Type 0} → List S → List S × List S
deinterleave [] = ([], [])
deinterleave (l ∷ []) = ([], [])
deinterleave (l ∷ r ∷ rest) = let (ls, rs) = deinterleave rest in (l ∷ ls, r ∷ rs)

-- The loop that fills `enc_in`.
unfoldable pub interleave : {S : Type 0} → List S → List S → List S
interleave [] rs = []
interleave (l ∷ ls) [] = []
interleave (l ∷ ls) (r ∷ rs) = l ∷ r ∷ interleave ls rs

-- `get_or_insert_with`: the value, and how often the clock was read then.
abbrev pub anchor : (ℕ → ℤ) → Option ℤ → ℕ → ℤ × ℕ
anchor clock none reads = (clock reads, reads + 1)
anchor clock (some t0) reads = (t0, reads)

module _ {S R E : Type 0} (codecs : Codecs S R E) where
  unfoldable pub new : Registry → ℕ → ℤ → Outcome (Pipeline S R E)
  new registry chunk_ms opus_bitrate = do
    ensure (is_opus_frame chunk_ms) Error.unsupported_chunk_ms
    (resampler, in_chunk) ← codecs.new_resampler
    encoder ← codecs.new_encoder opus_bitrate
    ok (record {
      resampler = resampler;
      in_chunk = in_chunk;
      in_l = [];
      in_r = [];
      out_l = [];
      out_r = [];
      frame = output_rate * chunk_ms / 1000;
      encoder = encoder;
      registry = registry;
      chunk_ms = chunk_ms;
      t0_us = none;
      chunks_since_anchor = pos 0;
      clock_reads = 0;
    })

  unfoldable pub reanchor : Pipeline S R E → Pipeline S R E
  reanchor s = record s {
    t0_us = none;
    chunks_since_anchor = pos 0;
    in_l = [];
    in_r = [];
    out_l = [];
    out_r = [];
  }

  -- The loop over the blocks of `in_chunk` samples, on fuel.
  pub resample_loop : ℕ → Pipeline S R E → Outcome (Pipeline S R E)
  resample_loop zero s = stuck
  resample_loop (suc fuel) s = elim (leb s.in_chunk (length s.in_l)) [
    | false ↦ ok s
    | true ↦ do
      assert (leb s.in_chunk (length s.in_r))
      (resampler, (l, r)) ←
          codecs.process s.resampler (take s.in_chunk s.in_l) (take s.in_chunk s.in_r)
      resample_loop fuel (record s {
        resampler = resampler;
        in_l = drop s.in_chunk s.in_l;
        in_r = drop s.in_chunk s.in_r;
        out_l = s.out_l ++ l;
        out_r = s.out_r ++ r;
      })
  ]

  -- `instants` is what the registry reads for each client, after so many readings of the clock.
  module _ (p : Profile) (clock : ℕ → ℤ) (instants : ℕ → ℕ → ℕ × ℕ) where
    -- The time to sleep until `target`.
    abbrev pub sleep_us : ℤ → ℤ → Outcome ℤ
    sleep_us target now = if ltb_ℤ now target then i64 p (target -ℤ now) else ok (pos 0)

    -- Behind by more than a chunk, the anchor and the target are the reading `now`.
    abbrev pub catch_up : Pipeline S R E → ℤ → ℤ → Bool → Pipeline S R E × ℤ
    catch_up s target now true = (record s { t0_us = some now; chunks_since_anchor = pos 0 }, now)
    catch_up s target now false = (s, target)

    -- The target, and the microseconds that it sleeps.
    unfoldable pub pace : Pipeline S R E → Outcome (Pipeline S R E × (ℤ × ℤ))
    pace s = do
      let chunk_us = pos (s.chunk_ms * 1000)
      let (t0, reads) = anchor clock s.t0_us s.clock_reads
      since ← i64 p (s.chunks_since_anchor *ℤ chunk_us)
      target ← i64 p (t0 +ℤ since)
      let now = clock reads
      behind ← i64 p (now -ℤ target)
      let s1 = record s { t0_us = some t0; clock_reads = reads + 2 }
      let (s2, target2) = catch_up s1 target now (ltb_ℤ chunk_us behind)
      sleep ← sleep_us target2 (clock (reads + 1))
      ok (s2, (target2, sleep))

    -- The pipeline after a chunk, and the chunk that it broadcast.
    unfoldable pub emit_frame : Pipeline S R E → Outcome (Pipeline S R E × EncodedChunk)
    unfolding pace interleave
    emit_frame s = do
      assert (leb s.frame (length s.out_l))
      assert (leb s.frame (length s.out_r))
      (encoder, bytes) ←
          codecs.encode_float s.encoder (interleave (take s.frame s.out_l) (take s.frame s.out_r))
      (s1, (target, slept)) ← pace (record s {
        out_l = drop s.frame s.out_l;
        out_r = drop s.frame s.out_r;
        encoder = encoder;
      })
      let ec : EncodedChunk = record { timestamp = from_micros target; encoded = bytes }
      registry ← broadcast_chunk p (instants s1.clock_reads) s1.registry ec
      chunks ← i64 p (s1.chunks_since_anchor +ℤ pos 1)
      ok (record s1 { registry = registry; chunks_since_anchor = chunks }, ec)

    -- The loop over the frames, on fuel, with the chunks in their order.
    pub emit_loop : ℕ → Pipeline S R E → Outcome (Pipeline S R E × List EncodedChunk)
    emit_loop zero s = stuck
    emit_loop (suc fuel) s = elim (leb s.frame (length s.out_l)) [
      | false ↦ ok (s, [])
      | true ↦ do (s1, ec) ← emit_frame s; (s2, ecs) ← emit_loop fuel s1; ok (s2, ec ∷ ecs)
    ]

    -- One round for each sample, and one more, are enough where a frame is not empty.
    abbrev pub emit_all : Pipeline S R E → Outcome (Pipeline S R E × List EncodedChunk)
    emit_all s = emit_loop (length s.out_l + 1) s

    unfoldable pub push : Pipeline S R E → List S → Outcome (Pipeline S R E × List EncodedChunk)
    unfolding deinterleave
    push s interleaved = do
      let (ls, rs) = deinterleave interleaved
      let s1 = record s { in_l = s.in_l ++ ls; in_r = s.in_r ++ rs }
      s2 ← resample_loop (length s1.in_l + 1) s1
      emit_all s2

    -- The pipeline with its last frame filled up.
    abbrev pub padded : Pipeline S R E → Pipeline S R E
    padded s =
        let rest = length s.out_l % s.frame in
        let pad = if rest == 0 then 0 else s.frame - rest in
        record s {
          out_l = s.out_l ++ replicate pad codecs.silence;
          out_r = s.out_r ++ replicate pad codecs.silence;
        }

    -- A remainder by 0 panics.
    unfoldable pub flush_with_silence :
        Pipeline S R E → Outcome (Pipeline S R E × List EncodedChunk)
    flush_with_silence s = assert (ltb 0 s.frame) >> emit_all (padded s)
