-- ===== src/Program.antt =====
-- src/main.rs: the client program. Its main thread takes the messages of the client, and the thread of
-- `handle_samples` plays the chunks that the main thread puts in a channel.
pub mod Timing
pub mod Pcm
pub mod Failures
pub mod Messages
use snapcast_client.Prelude.{
  ℕ, ◌+◌, ◌-◌, ◌*◌, ◌^◌, Bool, true, false, if◌then◌else◌, leb, ltb, Option, none, some, List, [],
  ◌∷◌, ◌++◌, length, take, replicate, ℤ, pos, ◌-ℤ◌, ltb_ℤ,
}
use snapcast_client.Outcome.{Outcome, Error, ok, err, panic, stuck, ◌>>=◌, ◌>>◌, assert}
use snapcast_client.Word.{Profile, i64}
use snapcast_client.Bytes.{Bytes}
use snapcast_client.TimeVal
use snapcast_client.TimeVal.{TimeVal, from_duration, to_micros}
use snapcast_client.Proto.Codec.{CodecHeader, CodecMetadata, rate}
use snapcast_client.Proto.WireChunk.{WireChunk}
use snapcast_client.Client.{Message, expired, nothing, wire_chunk, server_settings, codec_header}
use snapcast_client.Decoder.{Decoder, Crates, Samples, new_opus, decode_sample}
use snapcast_client.Playback.{
  Players, SoundApis, new_alsa, new_pulse, new_file, new_tcp, play, write, latency_ms,
}

pub data PlayerBackend : Type 0 where
  alsa pulse tcp file : PlayerBackend

-- The features of the build that choose the codecs.
pub record Features : Type 0 where
  pub has_opus : Bool
  pub has_flac : Bool

-- What the two threads share. `channel` holds the chunks that were sent and not yet received, and
-- `is_received` tells whether the playback thread is there to receive.
pub record Shared (D U O : Type 0) : Type 0 where
  pub dec : Option (Decoder O)
  pub player : Option (Players D U)
  pub channel : List (TimeVal × Bytes)
  pub is_received : Bool

-- What the playback thread keeps from one chunk to the next.
pub record Playing (D U O : Type 0) : Type 0 where
  pub dec : Option (Decoder O)
  pub player : Option (Players D U)
  pub player_lat_ms : ℕ
  pub samples_out : Samples

-- A chunk as the playback thread meets it: what has passed since the time base when it is received,
-- in whole seconds and microseconds, whether its bytes start at an even address, and the decoder
-- and the player that the main thread has put in place since the chunk before, by the time the
-- thread takes the two locks.
pub record Received (D U O : Type 0) : Type 0 where
  pub audible_at : TimeVal
  pub samples : Bytes
  pub as_secs : ℕ
  pub subsec_micros : ℕ
  pub even_address : Bool
  pub new_dec : Option (Decoder O)
  pub new_player : Option (Players D U)

-- What became of a chunk, and how long the thread slept for it.
pub data Fate : Type 0 where
  in_the_past : Fate
  not_ready : ℤ → Fate
  played : ℤ → Fate

-- `Result::unwrap`
abbrev pub unwrap {ℓ} : {A : Type ℓ} → Outcome A → Outcome A
unwrap (ok a) = ok a
unwrap (err e) = panic
unwrap panic = panic
unwrap stuck = stuck

abbrev pub samples_out_len : ℕ
samples_out_len = 4700

-- `std::cmp::max(1, ms)`
abbrev pub at_least_one : ℕ → ℕ
at_least_one ms = if leb 1 ms then ms else 1

-- `Option::insert` by the main thread, if it was called.
abbrev pub newer {ℓ} : {A : Type ℓ} → Option A → Option A → Option A
newer none old = old
newer (some a) old = some a

module _ {D U O : Type 0} (crates : Crates O) (apis : SoundApis D U) where
  unfoldable pub make_decoder : Features → CodecMetadata → Outcome (Decoder O)
  make_decoder features (CodecMetadata.pcm m) = ok Decoder.pcm
  make_decoder features (CodecMetadata.flac m) =
      if features.has_flac then ok Decoder.flac else err Error.codec_disabled
  make_decoder features (CodecMetadata.opus m) =
      if features.has_opus then new_opus crates m else err Error.codec_disabled

  -- `opens` tells whether the file or the connection of the back end can be opened.
  unfoldable pub make_player : Bool → PlayerBackend → CodecHeader → Outcome (Players D U)
  make_player opens alsa ch = new_alsa apis (rate ch.metadata)
  make_player opens pulse ch = new_pulse apis (rate ch.metadata)
  make_player opens tcp ch = new_tcp apis opens (rate ch.metadata)
  make_player opens file ch = new_file apis opens (rate ch.metadata)

  -- The `match msg` of the loop of `main`; `in_sync` was read before the message came.
  unfoldable pub on_message :
      Features → Bool → PlayerBackend → Bool → Message → Shared D U O → Outcome (Shared D U O)
  unfolding make_decoder make_player
  on_message features opens backend in_sync (codec_header ch) s = do
    d ← make_decoder features ch.metadata
    p ← make_player opens backend ch
    ok (record s { dec = some d; player = some p })
  on_message features opens backend in_sync (wire_chunk wc audible_at) s =
      if in_sync
      then (if s.is_received
          then ok (record s { channel = s.channel ++ ((audible_at, wc.payload) ∷ []) })
          else err Error.channel_closed)
      else ok s
  on_message features opens backend in_sync (server_settings v) s = ok s
  on_message features opens backend in_sync (expired late) s = ok s
  on_message features opens backend in_sync nothing s = ok s

  -- The loop of `main` over the messages of the client, each with whether it was in sync before.
  unfoldable pub main_loop :
      Features
      → Bool
      → PlayerBackend
      → List (Bool × Message)
      → Shared D U O
      → Outcome (Shared D U O)
  unfolding on_message
  main_loop features opens backend [] s = ok s
  main_loop features opens backend ((in_sync, msg) ∷ msgs) s =
      on_message features opens backend in_sync msg s >>= λ s1.
      main_loop features opens backend msgs s1

  module _ (p : Profile) where
    -- How long the thread sleeps before a chunk that is due in `remaining_us`.
    unfoldable pub sleep_until_due : ℕ → ℤ → Outcome ℤ
    sleep_until_due player_lat_ms remaining_us =
        let lead_us = pos (player_lat_ms * 1000) in
        if ltb_ℤ lead_us remaining_us then i64 p (remaining_us -ℤ lead_us) else ok (pos 0)

    -- What is done under the locks, for a decoder and a player that are there.
    unfoldable pub render :
        Playing D U O → Decoder O → Players D U → Bool → Bytes → Outcome (Playing D U O)
    render s dec player even_address samples = do
      lat_ms ← unwrap (latency_ms apis player)
      (dec1, (out, count)) ← unwrap (decode_sample crates p even_address dec samples s.samples_out)
      assert (leb count (length out))
      player1 ← unwrap (play apis player)
      player2 ← unwrap (write apis (take count out) player1)
      ok (record {
        dec = some dec1;
        player = some player2;
        player_lat_ms = at_least_one lat_ms;
        samples_out = out;
      })

    -- The two guards: a chunk that comes before the codec header is not played.
    abbrev pub render_ready :
        Playing D U O
        → Option (Decoder O)
        → Option (Players D U)
        → ℤ
        → Bool
        → Bytes
        → Outcome (Playing D U O × Fate)
    render_ready s none player slept even_address samples = ok (s, not_ready slept)
    render_ready s (some dec) none slept even_address samples = ok (s, not_ready slept)
    render_ready s (some dec) (some player) slept even_address samples =
        render s dec player even_address samples >>= λ s'. ok (s', played slept)

    abbrev pub put_in_place : Received D U O → Playing D U O → Playing D U O
    put_in_place c s = record s {
      dec = newer c.new_dec s.dec;
      player = newer c.new_player s.player;
    }

    -- The body of the loop of `handle_samples`.
    unfoldable pub handle_chunk : Playing D U O → Received D U O → Outcome (Playing D U O × Fate)
    unfolding sleep_until_due render
    handle_chunk s c = do
      remaining ← TimeVal.sub p c.audible_at (from_duration c.as_secs c.subsec_micros)
      if ltb_ℤ remaining.sec (pos 0) then ok (put_in_place c s, in_the_past) else (do
        remaining_us ← to_micros p remaining
        slept ← sleep_until_due s.player_lat_ms remaining_us
        let s1 = put_in_place c s
        render_ready s1 s1.dec s1.player slept c.even_address c.samples)

    -- `handle_samples` over the chunks that it receives until the channel is closed.
    unfoldable pub handle_samples :
        Playing D U O → List (Received D U O) → Outcome (Playing D U O × List Fate)
    unfolding handle_chunk
    handle_samples s [] = ok (s, [])
    handle_samples s (c ∷ cs) = do
      (s1, fate) ← handle_chunk s c
      (s2, fates) ← handle_samples s1 cs
      ok (s2, fate ∷ fates)

  -- The playback thread at its start.
  unfoldable pub start : Playing D U O
  start = record {
    dec = none;
    player = none;
    player_lat_ms = 1;
    samples_out = replicate samples_out_len 0;
  }
