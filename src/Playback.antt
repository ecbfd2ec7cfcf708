-- ===== src/Playback.antt =====
-- src/playback: the back ends that samples are played on. The crates alsa and libpulse are a
-- parameter.
use snapcast_client.Prelude.{ℕ, ◌+◌, ◌/◌, ◌%◌, ◌^◌, Bool, true, if◌then◌else◌, [], ◌∷◌, ◌++◌}
use snapcast_client.Outcome.{Outcome, Error, ok, err, ◌>>=◌}
use snapcast_client.Bytes.{Bytes, u16_le}
use snapcast_client.Decoder.{Samples}

-- A PCM device in some state is a `D`, a connection to PulseAudio a `U`. `open_device` is for 16 bit
-- stereo at a rate, and gives the least and the greatest buffer time in microseconds, whose sum fits a
-- `u32`. The settings of the device that the code makes are part of it.
pub record SoundApis (D U : Type 0) : Type 0 where
  pub open_device : ℕ → Outcome (D × (ℕ × ℕ))
  pub is_running : D → Bool
  pub start : D → Outcome D
  pub writei : D → Samples → Outcome D
  pub open_stream : ℕ → Outcome U
  pub write_stream : U → Bytes → Outcome U
  pub latency_us : U → Outcome ℕ

pub record Alsa (D : Type 0) : Type 0 where
  pub pcm : D
  pub buf_time_ms : ℕ
  pub sample_rate : ℕ

pub record Pulse (U : Type 0) : Type 0 where
  pub pulse : U
  pub sample_rate : ℕ

-- A file with what was written to it, and whether writes succeed.
pub record File : Type 0 where
  pub written : Bytes
  pub is_writable : Bool
  pub sample_rate : ℕ

pub record Tcp : Type 0 where
  pub sent : Bytes
  pub is_open : Bool
  pub sample_rate : ℕ

pub data Players (D U : Type 0) : Type 0 where
  alsa : Alsa D → Players D U
  pulse : Pulse U → Players D U
  file : File → Players D U
  tcp : Tcp → Players D U

-- `align_to::<u8>` of samples on a little-endian machine.
unfoldable pub bytes_of : Samples → Bytes
bytes_of [] = []
bytes_of (x ∷ xs) = u16_le x ++ bytes_of xs

module _ {D U : Type 0} (apis : SoundApis D U) where
  unfoldable pub new_alsa : ℕ → Outcome (Players D U)
  new_alsa rate = do
    (pcm, (least, most)) ← apis.open_device (rate % 2 ^ 32)
    ok (
        alsa (record {
          pcm = pcm;
          buf_time_ms = (least + most) / 2 / 1000 % 2 ^ 16;
          sample_rate = rate % 2 ^ 16;
        }))

  unfoldable pub new_pulse : ℕ → Outcome (Players D U)
  new_pulse rate = do
    stream ← apis.open_stream (rate % 2 ^ 32)
    ok (pulse (record { pulse = stream; sample_rate = rate % 2 ^ 16 }))

  -- `opens` tells whether the file can be created, and the connection made.
  unfoldable pub new_file : Bool → ℕ → Outcome (Players D U)
  new_file opens rate =
      if opens
      then ok (file (record { written = []; is_writable = true; sample_rate = rate % 2 ^ 16 }))
      else err Error.connection_failed

  unfoldable pub new_tcp : Bool → ℕ → Outcome (Players D U)
  new_tcp opens rate =
      if opens
      then ok (tcp (record { sent = []; is_open = true; sample_rate = rate % 2 ^ 16 }))
      else err Error.connection_failed

  unfoldable pub play : Players D U → Outcome (Players D U)
  play (alsa a) =
      if apis.is_running a.pcm
      then ok (alsa a)
      else (do pcm ← apis.start a.pcm; ok (alsa (record a { pcm = pcm })))
  play (pulse u) = ok (pulse u)
  play (file f) = ok (file f)
  play (tcp t) = ok (tcp t)

  unfoldable pub write : Samples → Players D U → Outcome (Players D U)
  unfolding bytes_of
  write buf (alsa a) = do pcm ← apis.writei a.pcm buf; ok (alsa (record a { pcm = pcm }))
  write buf (pulse u) = do
    stream ← apis.write_stream u.pulse (bytes_of buf)
    ok (pulse (record u { pulse = stream }))
  write buf (file f) =
      if f.is_writable
      then ok (file (record f { written = f.written ++ bytes_of buf }))
      else err Error.connection_failed
  write buf (tcp t) =
      if t.is_open
      then ok (tcp (record t { sent = t.sent ++ bytes_of buf }))
      else err Error.connection_failed

  unfoldable pub latency_ms : Players D U → Outcome ℕ
  latency_ms (alsa a) = ok a.buf_time_ms
  latency_ms (pulse u) = do us ← apis.latency_us u.pulse; ok (us / 1000 % 2 ^ 16)
  latency_ms (file f) = ok 0
  latency_ms (tcp t) = ok 0

  unfoldable pub sample_rate : Players D U → ℕ
  sample_rate (alsa a) = a.sample_rate
  sample_rate (pulse u) = u.sample_rate
  sample_rate (file f) = f.sample_rate
  sample_rate (tcp t) = t.sample_rate
