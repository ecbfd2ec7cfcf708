-- ===== src/Net/Writer.antt =====
-- `run_writer` of server/src/net.rs: the messages that are queued for a client, and the bytes of each.
use snapcast_client.Prelude.{ℕ, ◌+◌, ◌%◌, ◌^◌, List, [], ◌∷◌, Bool, if◌then◌else◌}
use snapcast_client.Outcome.{Outcome, ok, ◌>>=◌}
use snapcast_client.Bytes.{Bytes}
use snapcast_client.TimeVal.{TimeVal}
use snapcast_client.Proto.Time
use snapcast_client.Proto.WireChunk
use snapcast_client.Proto.Codec
use snapcast_client.Proto.Codec.{CodecHeader, opus, opus_name}
use snapcast_client.Proto.Settings
use snapcast_client.Proto.Settings.{ServerSettings, SettingsJson}

pub record EncodedChunk : Type 0 where
  pub timestamp : TimeVal
  pub encoded : Bytes

pub data Outbound : Type 0 where
  chunk : EncodedChunk → Outbound
  settings : ServerSettings → Outbound
  codec_header : Outbound
  -- The request's id, the client's stamp and the time of arrival.
  time_reply : ℕ → TimeVal → TimeVal → Outbound

unfoldable pub opus_codec_header : CodecHeader
opus_codec_header = record {
  codec = opus_name;
  metadata = opus (record { sample_rate = 48000; bit_depth = 16; channel_count = 2 });
}

-- The bytes of a message, with the time `now` just before the write.
unfoldable pub serialize : SettingsJson → ℕ → TimeVal → Outbound → Outcome Bytes
unfolding opus_codec_header
serialize json id now (chunk ec) =
    WireChunk.as_buf (record { timestamp = ec.timestamp; payload = ec.encoded }) id now
serialize json id now (settings s) = Settings.as_buf json s id now
serialize json id now codec_header = Codec.as_buf opus_codec_header id now
serialize json id now (time_reply refers_to client_sent received) =
    Time.as_buf id refers_to now received client_sent

-- A turn of the loop: the clock's reading, the message, and whether the write succeeds.
pub record Turn : Type 0 where
  pub now : TimeVal
  pub msg : Outbound
  pub is_written : Bool

-- The buffers that are written in full; the id counts the messages and wraps at 16 bits. A write that
-- fails ends the loop. The socket is shut at the end in any case.
unfoldable pub run_writer : SettingsJson → ℕ → List Turn → Outcome (List Bytes)
unfolding serialize
run_writer json id [] = ok []
run_writer json id (t ∷ queue) = do
  buf ← serialize json id t.now t.msg
  let rest = run_writer json ((id + 1) % 2 ^ 16) queue
  if t.is_written then (rest >>= λ bufs. ok (buf ∷ bufs)) else ok []
