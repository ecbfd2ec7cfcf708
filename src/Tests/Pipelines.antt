-- ===== src/Tests/Pipelines.antt =====
-- The theorems on the pipeline at a small resampler and encoder.
use snapcast_client.Prelude.{
  ℕ, ◌+◌, ◌*◌, ◌^◌, ◌≤◌, ◌<◌, ◌≡◌, refl, sym, ap, arith, List, [], ◌∷◌, length, length-take, take,
  ℤ, pos, ◌+ℤ◌, none, ◌⊎◌,
}
use snapcast_client.Outcome.{Outcome, Error, ok, err, panic, stuck}
use snapcast_client.Word.{debug}
use snapcast_client.Net.Registry
use snapcast_client.Pipeline.{Pipeline, Codecs, new, pace, deinterleave}
use snapcast_client.Pipeline.Pace.{IsPaced, IsReading, pace_due}
use snapcast_client.Pipeline.Frames.{Encodes, IsReady}
use snapcast_client.Pipeline.Flush.{IsFlushed, flush_complete}
use snapcast_client.Pipeline.Push.{IsPushed, Resamples, resample_all, push_complete}
use snapcast_client.Pipeline.Splits.{GivesAtMost, resample_all_few}
use snapcast_client.Pipeline.Packets.{IsServed}
use snapcast_client.Sink.{PipelineSink}
use snapcast_client.Sink.Track.{IsPlayed, track_complete}
use snapcast_client.Pipeline.Opening.{IsOpusLength}
use snapcast_client.Sink
use snapcast_client.Sink.Opened.{IsWorking, new-IsPlayed}

-- A resampler that gives the first two samples that it takes, and an encoder that writes the
-- samples; each counts its calls.
abbrev codecs : Codecs ℕ ℕ ℕ
codecs = record {
  silence = 0;
  new_resampler = ok (0, 2);
  process = λ r ls rs. ok (r + 1, (take 2 ls, take 2 rs));
  new_encoder = λ rate. ok 0;
  encode_float = λ e xs. ok (e + 1, xs);
}

abbrev clock : ℕ → ℤ
clock k = pos 5000

abbrev instants : ℕ → ℕ → ℕ × ℕ
instants reads id = (0, 0)

-- A sample waits for the resampler, and one for the encoder.
abbrev waiting : Pipeline ℕ ℕ ℕ
waiting = record {
  resampler = 0;
  in_chunk = 2;
  in_l = 1 ∷ [];
  in_r = 2 ∷ [];
  out_l = 3 ∷ [];
  out_r = 4 ∷ [];
  frame = 2;
  encoder = 0;
  registry = Registry.new 1000 50;
  chunk_ms = 20;
  t0_us = none;
  chunks_since_anchor = pos 0;
  clock_reads = 0;
}

clock_readings : (k : ℕ) → IsReading (clock k)
clock_readings k = (omega arith, omega arith)

encodes : Encodes codecs 2
encodes e xs h = (e + 1, xs, refl)

resamples : Resamples codecs 2
resamples r ls rs hl hr =
    (r + 1, take 2 ls, take 2 rs, refl, omega (arith, hl, hr, length-take 2 ls, length-take 2 rs))

waiting-IsReady : (room : ℕ) → room ≤ 2 ^ 40 → IsReady codecs clock room waiting (pos 5000)
unfolding Registry.new ◌+ℤ◌
waiting-IsReady room small = record {
  even = refl;
  has_frame = omega arith;
  buffer_fits = omega arith;
  is_due = (0, refl, omega arith, omega arith, (omega arith, omega arith), refl);
}

-- How much a resampler gave on the left.
abbrev made : Outcome (ℕ × (List ℕ × List ℕ)) → ℕ
made (ok x) = length x.1.0
made (err e) = 0
made panic = 0
made stuck = 0

at_most_two : GivesAtMost codecs 2
at_most_two r ls rs x e = omega (arith, ap made (sym e), length-take 2 ls)

few :
    (count r : ℕ) (ls rs : List ℕ)
    → count * 2 ≤ 3
    → resample_all codecs count 2 0 (1 ∷ 5 ∷ 7 ∷ []) (2 ∷ 6 ∷ 8 ∷ []) ≡ ok (r, (ls, rs))
    → length ls ≤ 9
few count r ls rs whole e = omega (
  arith,
  resample_all_few codecs 2 count 2 0 (1 ∷ 5 ∷ 7 ∷ []) (2 ∷ 6 ∷ 8 ∷ []) (r, (ls, rs)) at_most_two e,
)

pace_due_example :
    (r : Pipeline ℕ ℕ ℕ × (ℤ × ℤ)) × (pace codecs debug clock instants waiting ≡ ok r)
    × IsPaced codecs debug clock instants 7 waiting (pos 5000) r
pace_due_example =
    pace_due codecs debug clock instants 7 waiting (pos 5000) clock_readings
      (waiting-IsReady 7 (omega arith)).is_due

push_complete_example :
    IsPushed codecs debug clock instants 7 waiting (pos 5000) (5 ∷ 6 ∷ 7 ∷ 8 ∷ 9 ∷ [])
unfolding deinterleave
push_complete_example =
    push_complete codecs debug clock instants 7 9 waiting (pos 5000) (5 ∷ 6 ∷ 7 ∷ 8 ∷ 9 ∷ [])
      clock_readings encodes resamples (omega arith) refl few (waiting-IsReady 18 (omega arith))

flush_complete_example : IsFlushed codecs debug clock instants 7 waiting (pos 5000)
flush_complete_example =
    flush_complete codecs debug clock instants 7 waiting (pos 5000) clock_readings encodes
      (waiting-IsReady 10 (omega arith))

served : IsServed codecs debug clock instants 2 waiting
served = record {
  readings = clock_readings;
  encodes = encodes;
  resamples = resamples;
  has_block = omega arith;
  at_most = at_most_two;
}

abbrev sink : PipelineSink ℕ ℕ ℕ
sink = record { pipeline = waiting; events = [] }

buffer : sink.pipeline.registry.buffer_ms < 2 ^ 31
unfolding Registry.new
buffer = omega arith

-- The track is cut after its first two samples.
track_complete_example :
    IsPlayed codecs
      (λ (x : ℕ). x + 1)
      debug
      clock
      instants
      sink
      ((0 ∷ 1 ∷ []) ∷ (2 ∷ 3 ∷ 4 ∷ 5 ∷ []) ∷ [])
track_complete_example =
    track_complete codecs (λ (x : ℕ). x + 1) debug clock instants 2 sink
      ((0 ∷ 1 ∷ []) ∷ (2 ∷ 3 ∷ 4 ∷ 5 ∷ []) ∷ []) served (omega arith) (omega arith) buffer
      (omega arith) (omega arith)

crates_work : IsWorking codecs clock 2 2 (pos 96000)
crates_work = record {
  readings = clock_readings;
  resampler = (0, refl);
  encoder = (0, refl);
  encodes = λ ms opus e xs h. (e + 1, xs, refl);
  resamples = resamples;
  has_block = omega arith;
  at_most = at_most_two;
}

new-IsPlayed_example :
    ((¬ IsOpusLength 20)
      × (new codecs (Registry.new 1000 50) 20 (pos 96000) ≡ err Error.unsupported_chunk_ms))
    ⊎ (IsOpusLength 20
        × ((pl : Pipeline ℕ ℕ ℕ) × (new codecs (Registry.new 1000 50) 20 (pos 96000) ≡ ok pl)
            × (pl.frame ≡ 48 * 20)
            × (pl.chunk_ms ≡ 20)
            × (pl.registry ≡ Registry.new 1000 50)
            × IsPlayed codecs
                (λ (x : ℕ). x + 1)
                debug
                clock
                instants
                (Sink.new pl)
                ((0 ∷ 1 ∷ []) ∷ (2 ∷ 3 ∷ 4 ∷ 5 ∷ []) ∷ [])))
unfolding Registry.new
new-IsPlayed_example =
    new-IsPlayed codecs (λ (x : ℕ). x + 1) debug clock instants 2 2 (Registry.new 1000 50) 20
      (pos 96000) ((0 ∷ 1 ∷ []) ∷ (2 ∷ 3 ∷ 4 ∷ 5 ∷ []) ∷ []) crates_work (omega arith) (omega arith)
      (omega arith)
