-- ===== src/Pipeline/Packets.antt =====
-- Any number of packets that are pushed to the pipeline of server/src/pipeline.rs.
use snapcast_client.Prelude.{
  ℕ, suc, ◌+◌, ◌*◌, ◌%◌, ◌<◌, ◌≡◌, refl, sym, ap, ◌∙◌, arith, List, [], ◌∷◌, ◌++◌, append-nil,
  length, length-append, length-drop, drop, subst, ℤ, All,
}
use snapcast_client.Outcome.{Outcome, ok, ◌>>=◌}
use snapcast_client.Word.{Profile}
use snapcast_client.Net.Writer.{EncodedChunk}
use snapcast_client.Pipeline.{Pipeline, Codecs, deinterleave, push}
use snapcast_client.Pipeline.Pace.{IsReading}
use snapcast_client.Pipeline.Frames.{Encodes, IsReady}
use snapcast_client.Pipeline.Chunks.{frames, payloads, encode_all, less_room}
use snapcast_client.Pipeline.Push.{Resamples, resample_all, push_complete}
use snapcast_client.Pipeline.Splits.{
  deinterleave-append, length-deinterleave-le, GivesAtMost, resample_all_few, blocks_few,
}
use snapcast_client.Pipeline.Fed.{IsFed, IsFed-join}

-- The samples of all packets.
abbrev pub flat : {S : Type 0} → List (List S) → List S
flat [] = []
flat (xs ∷ packets) = xs ++ flat packets

-- The chunks that the packets can come to, for frames of `f` samples, blocks of `b`, and at most
-- `most` resampled samples of each.
abbrev pub need : {S : Type 0} → ℕ → ℕ → ℕ → List (List S) → ℕ
need f b most [] = 0
need f b most (xs ∷ packets) = need f b most packets + (f + (b + length xs) * most + 1)

module _ {S R E : Type 0} (codecs : Codecs S R E) (p : Profile) (clock : ℕ → ℤ)
    (instants : ℕ → ℕ → ℕ × ℕ) where
  -- The crates take every block and frame, and the clock reads times within 2 ^ 60 microseconds.
  pub record IsServed (most : ℕ) (s : Pipeline S R E) : Type 0 where
    pub readings : (k : ℕ) → IsReading (clock k)
    pub encodes : Encodes codecs s.frame
    pub resamples : Resamples codecs s.in_chunk
    pub has_block : 0 < s.in_chunk
    pub at_most : GivesAtMost codecs most

  -- Both channels wait with as many samples, less than a block, and less than a frame is left.
  pub record IsSettled (s : Pipeline S R E) : Type 0 where
    pub even_in : length s.in_l ≡ length s.in_r
    pub few_wait : length s.in_l < s.in_chunk
    pub few_left : length s.out_l < s.frame

  unfoldable pub pushes :
      Pipeline S R E → List (List S) → Outcome (Pipeline S R E × List EncodedChunk)
  pushes s [] = ok (s, [])
  pushes s (xs ∷ packets) =
      push codecs p clock instants s xs >>= λ r. pushes r.0 packets >>= λ q. ok (q.0, r.1 ++ q.1)

  abbrev Fed :
      ℕ → Pipeline S R E → Pipeline S R E → ℤ → List S × List S → List EncodedChunk → Type 0
  Fed room s s' due new ecs = IsFed codecs p clock instants room s s' due new.0 new.1 ecs

  length-deinterleave : (xs : List S) → length (deinterleave xs).0 ≡ length (deinterleave xs).1
  unfolding deinterleave
  length-deinterleave [] = refl
  length-deinterleave (l ∷ []) = refl
  length-deinterleave (l ∷ r ∷ rest) = ap suc (length-deinterleave rest)

  push-Fed :
      (most room : ℕ) (s : Pipeline S R E) (due : ℤ) (xs : List S)
      → IsServed most s
      → IsSettled s
      → IsReady codecs clock (room + (s.frame + (s.in_chunk + length xs) * most + 1)) s due
      → (s' : Pipeline S R E) × (ecs : List EncodedChunk) × (push codecs p clock instants s xs
          ≡ ok (s', ecs))
        × Fed room s s' due (deinterleave xs) ecs
  push-Fed most room s due xs served settled h =
      let new = deinterleave xs in
      let bound = (s.in_chunk + length xs) * most in
      let (
        s',
        ecs,
        count,
        ls,
        rs,
        run,
        resampled,
        even_made,
        waits_l,
        waits_r,
        taken,
        few_wait,
        encoded,
        left_l,
        left_r,
        emitted,
        few_left,
        same_frame,
        same_in_chunk,
        same_chunk,
        (next_due, spaced, ready),
      ) =
        push_complete codecs p clock instants room bound s due xs served.readings served.encodes
          served.resamples served.has_block settled.even_in
          (λ count r ls rs whole e.
            let few =
              resample_all_few codecs most count s.in_chunk s.resampler (s.in_l ++ new.0)
                (s.in_r ++ new.1) (r, (ls, rs)) served.at_most e in
            let blocks =
              blocks_few count s.in_chunk (length (s.in_l ++ new.0)) (s.in_chunk + length xs) most
                served.has_block whole
                (omega (
                  arith,
                  length-append s.in_l new.0,
                  length-deinterleave-le xs,
                  settled.few_wait,
                )) in
            omega arith)
          (less_room codecs p clock instants (room + (s.frame + bound + 1))
            (room + length s.out_l + bound + 1) s due (omega (arith, settled.few_left)) h) in
      (
        s',
        ecs,
        run,
        record {
          count = count;
          made_l = ls;
          made_r = rs;
          resampled = resampled;
          waits_l = waits_l;
          waits_r = waits_r;
          all_taken = taken;
          even_in = omega (
            arith,
            settled.even_in,
            length-append s.in_l new.0,
            length-append s.in_r new.1,
            length-deinterleave xs,
          );
          few_wait = few_wait;
          encoded = encoded;
          left_l = left_l;
          left_r = left_r;
          all_emitted = emitted;
          even_out =
              omega (arith, h.even, even_made, length-append s.out_l ls, length-append s.out_r rs);
          few_left = few_left;
          same_frame = same_frame;
          same_in_chunk = same_in_chunk;
          same_chunk = same_chunk;
          next_due = next_due;
          spaced = spaced;
          ready = ready;
        },
      )

  none-Fed :
      (room : ℕ) (s : Pipeline S R E) (due : ℤ)
      → IsSettled s
      → IsReady codecs clock room s due
      → Fed room s s due ([], []) []
  unfolding resample_all encode_all frames payloads
  none-Fed room s due settled h = record {
    count = 0;
    made_l = [];
    made_r = [];
    resampled = refl;
    waits_l = none s.in_chunk s.in_l;
    waits_r = none s.in_chunk s.in_r;
    all_taken = omega (arith, length-append s.in_l []);
    even_in = omega (arith, length-append s.in_l [], length-append s.in_r [], settled.even_in);
    few_wait = settled.few_wait;
    encoded = refl;
    left_l = none s.frame s.out_l;
    left_r = none s.frame s.out_r;
    all_emitted = omega (arith, length-append s.out_l []);
    even_out = omega (arith, length-append s.out_l [], length-append s.out_r [], h.even);
    few_left = settled.few_left;
    same_frame = refl;
    same_in_chunk = refl;
    same_chunk = refl;
    next_due = due;
    spaced = omega arith;
    ready = h;
  }
    where
      none : (b : ℕ) (xs : List S) → xs ≡ drop (0 * b) (xs ++ [])
      none b xs =
          sym (append-nil xs) ∙ ap (λ k. drop k (xs ++ [])) (let e : 0 ≡ 0 * b = omega arith in e)

  pushes-next :
      (s s1 s2 : Pipeline S R E) (xs : List S) (packets : List (List S))
      (ecs ecs' : List EncodedChunk)
      → push codecs p clock instants s xs ≡ ok (s1, ecs)
      → pushes s1 packets ≡ ok (s2, ecs')
      → pushes s (xs ∷ packets) ≡ ok (s2, ecs ++ ecs')
  unfolding pushes
  pushes-next s s1 s2 xs packets ecs ecs' first rest = rw (first, rest) refl

  -- However the samples are cut into packets of whole pairs, with crates that take every block and
  -- frame, a pipeline that waits with less than a block and less than a frame, and room for the
  -- count of the chunks: all packets are pushed in both profiles, and what comes of them is what
  -- comes of their samples in one piece.
  pub pushes-IsFed :
      (most room : ℕ) (s : Pipeline S R E) (due : ℤ) (packets : List (List S))
      → IsServed most s
      → IsSettled s
      → All (λ xs. length xs % 2 ≡ 0) packets
      → IsReady codecs clock (room + need s.frame s.in_chunk most packets) s due
      → (s' : Pipeline S R E) × (ecs : List EncodedChunk) × (pushes s packets ≡ ok (s', ecs))
        × IsFed codecs p clock instants room s s' due
            (deinterleave (flat packets)).0
            (deinterleave (flat packets)).1
            ecs
  unfolding pushes deinterleave
  pushes-IsFed most room s due [] served settled whole h = (
    s,
    [],
    refl,
    none-Fed room s due settled
        (less_room codecs p clock instants (room + 0) room s due (omega arith) h),
  )
  pushes-IsFed most room s due (xs ∷ packets) served settled whole h =
      let more = room + need s.frame s.in_chunk most packets in
      let (s1, ecs1, run1, fed1) = push-Fed most more s due xs served settled (
        less_room codecs p clock instants (room + need s.frame s.in_chunk most (xs ∷ packets))
          (more + (s.frame + (s.in_chunk + length xs) * most + 1)) s due (omega arith) h) in
      let (s2, ecs2, run2, fed2) =
        pushes-IsFed most room s1 fed1.next_due packets
          (record {
            readings = served.readings;
            encodes = subst (λ f. Encodes codecs f) (sym fed1.same_frame) served.encodes;
            resamples = subst (λ b. Resamples codecs b) (sym fed1.same_in_chunk) served.resamples;
            has_block = omega (arith, served.has_block, fed1.same_in_chunk);
            at_most = served.at_most;
          })
          (record {
            even_in = omega (
              arith,
              ap length fed1.waits_l,
              ap length fed1.waits_r,
              fed1.even_in,
              length-drop (fed1.count * s.in_chunk) (s.in_l ++ (deinterleave xs).0),
              length-drop (fed1.count * s.in_chunk) (s.in_r ++ (deinterleave xs).1),
            );
            few_wait = omega (arith, fed1.few_wait, fed1.same_in_chunk);
            few_left = omega (arith, fed1.few_left, fed1.same_frame);
          })
          whole.1
          (subst (λ f. IsReady codecs clock (room + f) s1 fed1.next_due)
            (λ i. need (sym fed1.same_frame i) (sym fed1.same_in_chunk i) most packets)
            fed1.ready) in
      let new = deinterleave (flat packets) in
      (
        s2,
        ecs1 ++ ecs2,
        pushes-next s s1 s2 xs packets ecs1 ecs2 run1 run2,
        subst (λ d. Fed room s s2 due d (ecs1 ++ ecs2))
            (sym (deinterleave-append xs (flat packets) whole.0))
            (IsFed-join codecs p clock instants more room s s1 s2 due (deinterleave xs).0
              (deinterleave xs).1 new.0 new.1 ecs1 ecs2 fed1 fed2),
      )
