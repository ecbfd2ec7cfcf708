-- ===== src/Pipeline/Fed.antt =====
-- Samples that reach server/src/pipeline.rs in packets: what comes out does not depend on the cuts.
use snapcast_client.Prelude.{
  ℕ, ◌+◌, ◌*◌, ◌<◌, ◌≡◌, sym, ap, ◌∙◌, arith, List, ◌++◌, append_assoc, length, length-append, drop,
  subst, ℤ,
}
use snapcast_client.Outcome.{ok}
use snapcast_client.Word.{Profile}
use snapcast_client.Net.Writer.{EncodedChunk}
use snapcast_client.Pipeline.{Pipeline, Codecs}
use snapcast_client.Pipeline.Frames.{IsReady, Spaced}
use snapcast_client.Pipeline.Chunks.{frames, payloads, encode_all}
use snapcast_client.Pipeline.Push.{resample_all}
use snapcast_client.Pipeline.Splits.{
  payloads-append, Spaced-append, resample_all-append, encode_all-append, drop-again, length-again,
  even-again,
}

module _ {S R E : Type 0} (codecs : Codecs S R E) (p : Profile) (clock : ℕ → ℤ)
    (instants : ℕ → ℕ → ℕ × ℕ) where
  -- What becomes of `s` and the chunks that it gives when the samples `new_l` and `new_r` come in.
  pub record IsFed (room : ℕ) (s s' : Pipeline S R E) (due : ℤ) (new_l new_r : List S)
      (ecs : List EncodedChunk) : Type 0 where
    pub count : ℕ
    pub made_l : List S
    pub made_r : List S
    pub resampled :
        resample_all codecs count s.in_chunk s.resampler (s.in_l ++ new_l) (s.in_r ++ new_r)
        ≡ ok (s'.resampler, (made_l, made_r))
    pub waits_l : s'.in_l ≡ drop (count * s.in_chunk) (s.in_l ++ new_l)
    pub waits_r : s'.in_r ≡ drop (count * s.in_chunk) (s.in_r ++ new_r)
    pub all_taken : length (s.in_l ++ new_l) ≡ count * s.in_chunk + length s'.in_l
    pub even_in : length (s.in_l ++ new_l) ≡ length (s.in_r ++ new_r)
    pub few_wait : length s'.in_l < s.in_chunk
    pub encoded :
        encode_all codecs s.encoder
          (frames (length ecs) s.frame (s.out_l ++ made_l) (s.out_r ++ made_r))
        ≡ ok (s'.encoder, payloads ecs)
    pub left_l : s'.out_l ≡ drop (length ecs * s.frame) (s.out_l ++ made_l)
    pub left_r : s'.out_r ≡ drop (length ecs * s.frame) (s.out_r ++ made_r)
    pub all_emitted : length (s.out_l ++ made_l) ≡ length ecs * s.frame + length s'.out_l
    pub even_out : length (s.out_l ++ made_l) ≡ length (s.out_r ++ made_r)
    pub few_left : length s'.out_l < s.frame
    pub same_frame : s'.frame ≡ s.frame
    pub same_in_chunk : s'.in_chunk ≡ s.in_chunk
    pub same_chunk : s'.chunk_ms ≡ s.chunk_ms
    pub next_due : ℤ
    pub spaced : Spaced due (s.chunk_ms * 1000) ecs next_due
    pub ready : IsReady codecs clock room s' next_due

  -- Two lots of samples are like one.
  pub IsFed-join :
      (more room : ℕ) (s s1 s2 : Pipeline S R E) (due : ℤ) (xs ys xs' ys' : List S)
      (ecs ecs' : List EncodedChunk)
      → (h : IsFed more s s1 due xs ys ecs) → IsFed room s1 s2 h.next_due xs' ys' ecs'
      → IsFed room s s2 due (xs ++ xs') (ys ++ ys') (ecs ++ ecs')
  IsFed-join more room s s1 s2 due xs ys xs' ys' ecs ecs' h k = record {
    count = h.count + k.count;
    made_l = h.made_l ++ k.made_l;
    made_r = h.made_r ++ k.made_r;
    resampled =
        (λ i. resample_all codecs (h.count + k.count) b s.resampler (ins_l i) (ins_r i))
        ∙ resample_all-append codecs h.count k.count b s.resampler s1.resampler (s.in_l ++ xs)
            (s.in_r ++ ys) xs' ys' h.made_l h.made_r (s2.resampler, (k.made_l, k.made_r))
            (omega (arith, h.all_taken)) (omega (arith, h.all_taken, h.even_in)) h.resampled
            ((λ i.
                resample_all codecs k.count (sym h.same_in_chunk i) s1.resampler
                  (sym h.waits_l i ++ xs') (sym h.waits_r i ++ ys'))
              ∙ k.resampled);
    waits_l =
        drop-again h.count k.count b s1.in_chunk (s.in_l ++ xs) xs' s1.in_l h.same_in_chunk s2.in_l
          (omega (arith, h.all_taken)) h.waits_l k.waits_l
        ∙ ap (drop ((h.count + k.count) * b)) (sym ins_l);
    waits_r =
        drop-again h.count k.count b s1.in_chunk (s.in_r ++ ys) ys' s1.in_r h.same_in_chunk s2.in_r
          (omega (arith, h.all_taken, h.even_in)) h.waits_r k.waits_r
        ∙ ap (drop ((h.count + k.count) * b)) (sym ins_r);
    all_taken =
        ap length ins_l
        ∙ length-again h.count k.count b s1.in_chunk (s.in_l ++ xs) xs' s1.in_l h.same_in_chunk
            (length s2.in_l) h.all_taken k.all_taken;
    even_in =
        ap length ins_l
        ∙ even-again (h.count * b) (s.in_l ++ xs) xs' s1.in_l (s.in_r ++ ys) ys' s1.in_r h.waits_l
            h.waits_r h.even_in k.even_in
        ∙ ap length (sym ins_r);
    few_wait = omega (arith, k.few_wait, h.same_in_chunk);
    encoded =
        (λ i. encode_all codecs s.encoder (frames (total i) f (outs_l i) (outs_r i)))
        ∙ encode_all-append codecs (length ecs) (length ecs') f s.encoder s1.encoder
            (s.out_l ++ h.made_l) (s.out_r ++ h.made_r) k.made_l k.made_r (payloads ecs)
            (s2.encoder, payloads ecs') (omega (arith, h.all_emitted))
            (omega (arith, h.all_emitted, h.even_out)) h.encoded
            ((λ i. encode_all codecs s1.encoder (
                frames (length ecs') (sym h.same_frame i) (sym h.left_l i ++ k.made_l)
                  (sym h.left_r i ++ k.made_r)))
              ∙ k.encoded)
        ∙ ap (λ bytes. ok (s2.encoder, bytes)) (sym (payloads-append ecs ecs'));
    left_l =
        drop-again (length ecs) (length ecs') f s1.frame (s.out_l ++ h.made_l) k.made_l s1.out_l
          h.same_frame s2.out_l (omega (arith, h.all_emitted)) h.left_l k.left_l
        ∙ (λ i. drop (sym total i * f) (sym outs_l i));
    left_r =
        drop-again (length ecs) (length ecs') f s1.frame (s.out_r ++ h.made_r) k.made_r s1.out_r
          h.same_frame s2.out_r (omega (arith, h.all_emitted, h.even_out)) h.left_r k.left_r
        ∙ (λ i. drop (sym total i * f) (sym outs_r i));
    all_emitted =
        ap length outs_l
        ∙ length-again (length ecs) (length ecs') f s1.frame (s.out_l ++ h.made_l) k.made_l s1.out_l
            h.same_frame (length s2.out_l) h.all_emitted k.all_emitted
        ∙ ap (λ n. n * f + length s2.out_l) (sym total);
    even_out =
        ap length outs_l
        ∙ even-again (length ecs * f) (s.out_l ++ h.made_l) k.made_l s1.out_l (s.out_r ++ h.made_r)
            k.made_r s1.out_r h.left_l h.left_r h.even_out k.even_out
        ∙ ap length (sym outs_r);
    few_left = omega (arith, k.few_left, h.same_frame);
    same_frame = k.same_frame ∙ h.same_frame;
    same_in_chunk = k.same_in_chunk ∙ h.same_in_chunk;
    same_chunk = k.same_chunk ∙ h.same_chunk;
    next_due = k.next_due;
    spaced =
        Spaced-append due (s.chunk_ms * 1000) ecs h.next_due ecs' k.next_due h.spaced
          (subst (λ c. Spaced h.next_due (c * 1000) ecs' k.next_due) h.same_chunk k.spaced);
    ready = k.ready;
  }
    where
      b : ℕ
      b = s.in_chunk

      ins_l : s.in_l ++ (xs ++ xs') ≡ (s.in_l ++ xs) ++ xs'
      ins_l = sym (append_assoc s.in_l xs xs')

      ins_r : s.in_r ++ (ys ++ ys') ≡ (s.in_r ++ ys) ++ ys'
      ins_r = sym (append_assoc s.in_r ys ys')

      f : ℕ
      f = s.frame

      outs_l : s.out_l ++ (h.made_l ++ k.made_l) ≡ (s.out_l ++ h.made_l) ++ k.made_l
      outs_l = sym (append_assoc s.out_l h.made_l k.made_l)

      outs_r : s.out_r ++ (h.made_r ++ k.made_r) ≡ (s.out_r ++ h.made_r) ++ k.made_r
      outs_r = sym (append_assoc s.out_r h.made_r k.made_r)

      total : length (ecs ++ ecs') ≡ length ecs + length ecs'
      total = length-append ecs ecs'
