-- ===== src/Tests/Players.antt =====
-- The theorems on the client program, with PCM into a file.
use snapcast_client.Prelude.{
  ℕ, ◌≡◌, refl, arith, true, false, none, List, [], ◌∷◌, ◌++◌, replicate, length-replicate, pos,
  Bool, Option, some, length, leb, if◌then◌else◌, ◌*◌, ◌+◌, ◌⊎◌, inr, ◌≤◌, le→leb, lt→leb_false, ap,
  sym, ◌∙◌,
}
use snapcast_client.Outcome.{Error, ok, err, panic}
use snapcast_client.Word.{debug}
use snapcast_client.TimeVal.Micros.{micros_parts}
use snapcast_client.Proto.Codec.{CodecHeader, CodecMetadata, rate}
use snapcast_client.Client.{Message, nothing, wire_chunk, codec_header}
use snapcast_client.Decoder.{Decoder, Crates, store_blocks}
use snapcast_client.Playback.{SoundApis, File, Players, new_file}
use snapcast_client.Program.{
  Shared, Features, PlayerBackend, Received, Fate, handle_chunk, handle_samples, main_loop,
  make_decoder, make_player,
}
use snapcast_client.Program.Timing.{IsTimed, IsHandled, handle_chunk_timing}
use snapcast_client.Program.Pcm.{pcm_to, appended, heard, Fated, IsPcmChunk, pcm_stream_written}
use snapcast_client.Program.Failures.{IsOpusDecoder, IsOpusPlayed, opus_to, opus_chunk_fate}
use snapcast_client.Program.Messages.{forwarded, CanOpen, LastDecoder, messages_forwarded}
use snapcast_client.Tests.Fixtures.{at}

-- An Opus decoder that gives no samples, and no FLAC blocks.
abbrev pub crates : Crates ℕ
crates = record { init_in = λ n. ok n; decode = λ o buf room. ok (o, []); blocks = λ buf. [] }

abbrev pub apis : SoundApis ℕ ℕ
apis = record {
  open_device = λ rate. ok (0, (300, 500));
  is_running = λ d. false;
  start = λ d. ok d;
  writei = λ d buf. ok d;
  open_stream = λ rate. ok 0;
  write_stream = λ u buf. ok u;
  latency_us = λ u. ok 2500;
}

abbrev pub out_file : File
out_file = record { written = 9 ∷ []; is_writable = true; sample_rate = 48000 }

-- Due at two seconds, and received at one.
abbrev pub two_samples : Received ℕ ℕ ℕ
two_samples = record {
  audible_at = at 2 0;
  samples = 1 ∷ 2 ∷ 3 ∷ 4 ∷ [];
  as_secs = 1;
  subsec_micros = 500;
  even_address = true;
  new_dec = none;
  new_player = none;
}

two_samples-IsTimed : IsTimed two_samples
two_samples-IsTimed = record {
  audible_fits = omega arith;
  secs_fit = omega arith;
  micros_fit = omega arith;
}

handle_chunk_timing_example :
    IsHandled crates apis debug (pcm_to crates apis debug out_file []) two_samples
handle_chunk_timing_example =
    handle_chunk_timing crates apis debug (pcm_to crates apis debug out_file []) two_samples
      two_samples-IsTimed (omega arith)

two_samples-IsPcmChunk : IsPcmChunk crates apis debug two_samples
two_samples-IsPcmChunk = record {
  timed = two_samples-IsTimed;
  same_dec = refl;
  same_player = refl;
  aligned = refl;
  are_bytes = omega arith;
  is_whole = omega arith;
  fits = omega arith;
}

pcm_stream_written_example :
    (out' : List ℕ) × (fates : List Fate) × (handle_samples crates apis debug
        (pcm_to crates apis debug out_file (replicate 4700 0))
        (two_samples ∷ [])
      ≡ ok (
        pcm_to crates apis debug
            (appended crates apis debug out_file (heard crates apis debug (two_samples ∷ []) fates))
            out',
        fates,
      ))
    × Fated crates apis debug (two_samples ∷ []) fates
pcm_stream_written_example =
    pcm_stream_written crates apis debug out_file (replicate 4700 0) (two_samples ∷ []) refl
      (length-replicate {A = ℕ} 4700 0) (two_samples-IsPcmChunk, tt)

-- An Opus decoder for packets that have a byte for each millisecond.
abbrev packet_size : List ℕ → Option ℕ
packet_size buf = some (2 * (48 * length buf))

abbrev opus_crates : Crates ℕ
opus_crates = record {
  init_in = λ n. ok n;
  decode = λ o buf room.
      if leb (2 * (48 * length buf)) room
      then ok (o + 1, replicate (2 * (48 * length buf)) 0)
      else err Error.codec_disabled;
  blocks = λ buf. [];
}

opus_crates-IsOpusDecoder : IsOpusDecoder opus_crates packet_size
opus_crates-IsOpusDecoder = record {
  gives = λ o buf n room e fits.
      let same : n ≡ 2 * (48 * length buf) = cc in
      (
        o + 1,
        replicate (2 * (48 * length buf)) 0,
        rw (le→leb (2 * (48 * length buf)) room (omega arith)) refl,
        length-replicate {A = ℕ} (2 * (48 * length buf)) 0 ∙ sym same,
      );
  fails = λ o buf n room e short.
      let same : n ≡ 2 * (48 * length buf) = cc in
      (Error.codec_disabled, rw (lt→leb_false (2 * (48 * length buf)) room (omega arith)) refl);
}

abbrev sixty : ℕ
sixty = 60

-- Sixty bytes.
abbrev sixty_ms : Received ℕ ℕ ℕ
sixty_ms = record two_samples { samples = replicate sixty 1 }

opus_chunk_fate_example :
    ((sixty ≡ 60)
      × (handle_chunk opus_crates apis debug
            (opus_to opus_crates apis debug out_file (replicate 4700 0) 0)
            sixty_ms
          ≡ panic))
    ⊎ ((sixty ≤ 40)
        × IsOpusPlayed opus_crates apis debug sixty out_file (replicate 4700 0) 0 sixty_ms)
opus_chunk_fate_example =
    opus_chunk_fate opus_crates apis debug packet_size sixty out_file (replicate 4700 0) 0 sixty_ms
      opus_crates-IsOpusDecoder refl (length-replicate {A = ℕ} 4700 0) (inr (inr (inr (inr refl))))
      (record {
        timed = record {
          audible_fits = omega arith;
          secs_fit = omega arith;
          micros_fit = omega arith;
        };
        same_dec = refl;
        same_player = refl;
        is_packet = ap (λ n. some (2 * (48 * n))) (length-replicate {A = ℕ} sixty 1);
      })
      (omega (arith, micros_parts (at 2 0)))

abbrev pcm_header : CodecHeader
pcm_header = record {
  codec = 112 ∷ 99 ∷ 109 ∷ [];
  metadata = CodecMetadata.pcm (record { channel_count = 2; audio_rate = 48000; bit_depth = 16 });
}

abbrev messages : List (Bool × Message)
messages =
    (false, codec_header pcm_header)
    ∷ (false, wire_chunk (record { timestamp = at 1 0; payload = 1 ∷ [] }) (at 2 0))
    ∷ (true, wire_chunk (record { timestamp = at 2 0; payload = 2 ∷ [] }) (at 3 0))
    ∷ (true, nothing)
    ∷ []

abbrev features : Features
features = record { has_opus = true; has_flac = false }

abbrev unstarted : Shared ℕ ℕ ℕ
unstarted = record { dec = none; player = none; channel = []; is_received = true }

header_opens : CanOpen crates apis features true PlayerBackend.file (false, codec_header pcm_header)
unfolding make_decoder make_player new_file rate
header_opens = (
  (Decoder.pcm, refl),
  (Players.file (record { written = []; is_writable = true; sample_rate = 48000 }), refl),
)

messages_forwarded_example :
    (s' : Shared ℕ ℕ ℕ) × (main_loop crates apis features true PlayerBackend.file messages unstarted
      ≡ ok s')
    × (s'.channel ≡ [] ++ forwarded messages)
    × LastDecoder crates apis features true PlayerBackend.file messages none s'.dec
messages_forwarded_example =
    messages_forwarded crates apis features true PlayerBackend.file messages unstarted refl
      (header_opens, (tt, (tt, (tt, tt))))

-- Two blocks of FLAC samples are put behind each other, and the rest of the buffer stays.
flac_blocks_stored :
    store_blocks debug (((pos 1, pos 2) ∷ []) ∷ ((pos 3, pos 4) ∷ []) ∷ []) 0 (replicate 5 7)
    ≡ ok (1 ∷ 2 ∷ 3 ∷ 4 ∷ 7 ∷ [], 4)
unfolding store_blocks
flac_blocks_stored = refl
