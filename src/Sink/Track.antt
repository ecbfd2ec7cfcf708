-- ===== src/Sink/Track.antt =====
-- A whole track through the sink of server/src/sink.rs.
use snapcast_client.Prelude.{
  ℕ, ◌+◌, ◌*◌, ◌%◌, ◌^◌, ◌≤◌, ◌<◌, ◌≡◌, refl, sym, ap, ◌∙◌, subst, arith, List, [], ◌∷◌, ◌++◌,
  append_assoc, length, length-append, replicate, map, All, ℤ,
}
use snapcast_client.Outcome.{Outcome, ok, err, panic, stuck, ◌>>=◌, bind_assoc}
use snapcast_client.Word.{Profile}
use snapcast_client.Net.Writer.{EncodedChunk}
use snapcast_client.Pipeline.{Pipeline, Codecs, deinterleave, reanchor, push, flush_with_silence}
use snapcast_client.Pipeline.Frames.{Encodes, Spaced}
use snapcast_client.Pipeline.Chunks.{frames, payloads, encode_all, less_room}
use snapcast_client.Pipeline.Flush.{IsFlushed, flush_complete}
use snapcast_client.Pipeline.Push.{resample_all}
use snapcast_client.Pipeline.Opening.{reanchor-IsOpened}
use snapcast_client.Pipeline.Splits.{Spaced-append, payloads-append, encode_all-append}
use snapcast_client.Pipeline.Fed.{IsFed}
use snapcast_client.Pipeline.Packets.{flat, need, IsServed, pushes, pushes-IsFed}
use snapcast_client.Sink.{PipelineSink, started, stopped, start, writes, play_track}

module _ {S R E F : Type 0} (codecs : Codecs S R E) (narrow : F → S) (p : Profile) (clock : ℕ → ℤ)
    (instants : ℕ → ℕ → ℕ × ℕ) where
  -- The sink with the pipeline that a call gives.
  abbrev with_pipeline :
      PipelineSink S R E
      → Outcome (Pipeline S R E × List EncodedChunk)
      → Outcome (PipelineSink S R E × List EncodedChunk)
  with_pipeline s o = o >>= λ r. ok (record s { pipeline = r.0 }, r.1)

  -- Writing packets to the sink is pushing them to its pipeline.
  writes-pushes :
      (packets : List (List F)) (s : PipelineSink S R E)
      → writes codecs narrow p clock instants packets s
        ≡ with_pipeline s (pushes codecs p clock instants s.pipeline (map (map narrow) packets))
  unfolding writes pushes
  writes-pushes [] s = refl
  writes-pushes (xs ∷ packets) s =
      by_push (push codecs p clock instants s.pipeline (map narrow xs))
        (λ pl. writes-pushes packets (record s { pipeline = pl }))
    where
      by_push :
          (o : Outcome (Pipeline S R E × List EncodedChunk))
          → ((pl : Pipeline S R E)
              → writes codecs narrow p clock instants packets (record s { pipeline = pl })
                ≡ with_pipeline s (pushes codecs p clock instants pl (map (map narrow) packets)))
          → (with_pipeline s o >>= λ q.
              writes codecs narrow p clock instants packets q.0 >>= λ w. ok (w.0, q.1 ++ w.1))
            ≡ with_pipeline s (
                o >>= λ r. pushes codecs p clock instants r.0 (map (map narrow) packets) >>= λ q.
                ok (q.0, r.1 ++ q.1))
      by_push (ok r) rest =
          let m = pushes codecs p clock instants r.0 (map (map narrow) packets) in
          ap (λ x. x >>= λ w. ok (w.0, r.1 ++ w.1)) (rest r.0)
          ∙ bind_assoc m (λ q. ok (record s { pipeline = q.0 }, q.1)) (λ w. ok (w.0, r.1 ++ w.1))
          ∙ sym (
              bind_assoc m (λ q. ok (q.0, r.1 ++ q.1)) (λ q. ok (record s { pipeline = q.0 }, q.1)))
      by_push (err e) rest = refl
      by_push panic rest = refl
      by_push stuck rest = refl

  -- The samples of a track, left and right.
  abbrev pub samples : List (List F) → List S × List S
  samples packets = deinterleave (flat (map (map narrow) packets))

  -- What a track comes to.
  pub record IsPlayed (s : PipelineSink S R E) (packets : List (List F)) : Type 0 where
    pub after : PipelineSink S R E
    pub chunks : List EncodedChunk
    pub count : ℕ
    pub made_l : List S
    pub made_r : List S
    pub silent : ℕ
    pub resampler : R
    pub last_due : ℤ
    pub plays : play_track codecs narrow p clock instants packets s ≡ ok (after, chunks)
    pub resampled :
        resample_all codecs count s.pipeline.in_chunk s.pipeline.resampler
          (samples packets).0
          (samples packets).1
        ≡ ok (resampler, (made_l, made_r))
    pub whole_blocks : count * s.pipeline.in_chunk ≤ length (samples packets).0
    pub few_lost : length (samples packets).0 < (count + 1) * s.pipeline.in_chunk
    pub few_silent : silent < s.pipeline.frame
    pub whole_frames : length made_l + silent ≡ length chunks * s.pipeline.frame
    pub encoded :
        encode_all codecs s.pipeline.encoder (
          frames
            (length chunks)
            s.pipeline.frame
            (made_l ++ replicate silent codecs.silence)
            (made_r ++ replicate silent codecs.silence))
        ≡ ok (after.pipeline.encoder, payloads chunks)
    pub spaced : Spaced (clock s.pipeline.clock_reads) (s.pipeline.chunk_ms * 1000) chunks last_due
    pub announced : after.events ≡ s.events ++ (started ∷ stopped ∷ [])

  track_run :
      (packets : List (List F)) (s : PipelineSink S R E) (pl pl2 : Pipeline S R E)
      (ecs ecs2 : List EncodedChunk)
      → pushes codecs p clock instants (reanchor codecs s.pipeline) (map (map narrow) packets)
        ≡ ok (pl, ecs)
      → flush_with_silence codecs p clock instants pl ≡ ok (pl2, ecs2)
      → play_track codecs narrow p clock instants packets s
        ≡ ok (
          record { pipeline = pl2; events = (s.events ++ (started ∷ [])) ++ (stopped ∷ []) },
          ecs ++ ecs2,
        )
  unfolding play_track
  track_run packets s pl pl2 ecs ecs2 run run2 =
      rw
        (
          writes-pushes packets (start codecs narrow p clock instants s)
              ∙ ap (with_pipeline (start codecs narrow p clock instants s)) run,
          run2,
        )
        refl

  -- The pushes and the flush together.
  pushed_and_flushed :
      (s : PipelineSink S R E) (packets : List (List F)) (room : ℕ) (pl : Pipeline S R E)
      (ecs : List EncodedChunk)
      → pushes codecs p clock instants (reanchor codecs s.pipeline) (map (map narrow) packets)
        ≡ ok (pl, ecs)
      → (fed : IsFed codecs p clock instants room
          (reanchor codecs s.pipeline)
          pl
          (clock s.pipeline.clock_reads)
          (samples packets).0
          (samples packets).1
          ecs)
      → IsFlushed codecs p clock instants 0 pl fed.next_due
      → IsPlayed s packets
  unfolding reanchor
  pushed_and_flushed s packets room pl ecs run fed
        (
          pl2,
          ecs2,
          silent,
          run2,
          empty_l,
          empty_r,
          wait_l,
          wait_r,
          few,
          whole,
          encoded2,
          (due2, spaced2, ready2),
        ) =
      record {
        after = record { pipeline = pl2; events = (s.events ++ (started ∷ [])) ++ (stopped ∷ []) };
        chunks = ecs ++ ecs2;
        count = fed.count;
        made_l = fed.made_l;
        made_r = fed.made_r;
        silent = silent;
        resampler = pl.resampler;
        last_due = due2;
        plays = track_run packets s pl pl2 ecs ecs2 run run2;
        resampled = fed.resampled;
        whole_blocks = omega (arith, fed.all_taken);
        few_lost = omega (arith, fed.all_taken, fed.few_wait);
        few_silent = omega (arith, few, fed.same_frame);
        whole_frames = omega (
          arith,
          fed.all_emitted,
          whole ∙ ap (λ f. length ecs2 * f) fed.same_frame,
          ap (λ n. n * s.pipeline.frame) (length-append ecs ecs2),
        );
        encoded =
            (λ i. encode_all codecs s.pipeline.encoder (
              frames (length-append ecs ecs2 i) s.pipeline.frame (fed.made_l ++ silence)
                (fed.made_r ++ silence)))
            ∙ encode_all-append codecs (length ecs) (length ecs2) s.pipeline.frame
                s.pipeline.encoder pl.encoder fed.made_l fed.made_r silence silence (payloads ecs)
                (pl2.encoder, payloads ecs2) (omega (arith, fed.all_emitted))
                (omega (arith, fed.all_emitted, fed.even_out)) fed.encoded
                ((λ i. encode_all codecs pl.encoder (
                    frames (length ecs2) (sym fed.same_frame i) (sym fed.left_l i ++ silence)
                      (sym fed.left_r i ++ silence)))
                  ∙ encoded2)
            ∙ ap (λ bytes. ok (pl2.encoder, bytes)) (sym (payloads-append ecs ecs2));
        spaced =
            Spaced-append (clock s.pipeline.clock_reads) (s.pipeline.chunk_ms * 1000) ecs
              fed.next_due ecs2 due2 fed.spaced
              (subst (λ c. Spaced fed.next_due (c * 1000) ecs2 due2) fed.same_chunk spaced2);
        announced = append_assoc s.events (started ∷ []) (stopped ∷ []);
      }
    where
      silence : List S
      silence = replicate silent codecs.silence

  -- However a track's samples are cut into packets of whole pairs, with crates that take every
  -- block and frame and give at most `most` samples for a block, a clock that reads times within 2
  -- ^ 60 microseconds, and room for the count of the chunks: the sink is started, takes all
  -- packets and is stopped in both profiles, whatever it held before. The resampler has taken all
  -- whole blocks of the track's samples; what is behind the last whole block, less than a block of
  -- samples, is in no chunk. The payloads of the chunks are the encoder's results on the frames of
  -- what the resampler gave, with less than a frame of silence behind it, in order, and the stamps
  -- are at least a chunk apart, the first not before the clock's reading at the start. Both events
  -- are sent.
  pub track_complete :
      (most : ℕ) (s : PipelineSink S R E) (packets : List (List F))
      → IsServed codecs p clock instants most s.pipeline
      → 0 < s.pipeline.frame
      → s.pipeline.chunk_ms ≤ 60
      → s.pipeline.registry.buffer_ms < 2 ^ 31
      → All (λ xs. length xs % 2 ≡ 0) (map (map narrow) packets)
      → s.pipeline.frame
          + s.pipeline.frame
          + need s.pipeline.frame s.pipeline.in_chunk most (map (map narrow) packets)
        ≤ 2 ^ 40
      → IsPlayed s packets
  unfolding play_track reanchor
  track_complete most s packets served has_frame ms buffer whole small =
      let f = s.pipeline.frame in
      let cut = map (map narrow) packets in
      let open_pl = reanchor codecs s.pipeline in
      let opened =
        reanchor-IsOpened codecs clock (f + f + need f s.pipeline.in_chunk most cut) s.pipeline
          served.readings small has_frame ms buffer in
      let (pl, ecs, run, fed) =
        pushes-IsFed codecs p clock instants most (f + f) open_pl (clock s.pipeline.clock_reads) cut
          (record {
            readings = served.readings;
            encodes = served.encodes;
            resamples = served.resamples;
            has_block = served.has_block;
            at_most = served.at_most;
          })
          (record { even_in = refl; few_wait = served.has_block; few_left = has_frame }) whole
          opened.ready in
      pushed_and_flushed s packets (f + f) pl ecs run fed (
        flush_complete codecs p clock instants 0 pl fed.next_due served.readings
          (subst (λ n. Encodes codecs n) (sym fed.same_frame) served.encodes)
          (less_room codecs p clock instants (f + f) (0 + length pl.out_l + pl.frame) pl
            fed.next_due (omega (arith, fed.few_left, fed.same_frame)) fed.ready))
