-- ===== src/Proto/Message.antt =====
-- What a payload is decoded to: `Base::decode` for a client and `Base::decode_c` for a server.
pub mod Frame
pub mod RoundTrip
use snapcast_client.Outcome.{Outcome, Error, ok, err, ◌>>=◌}
use snapcast_client.Bytes.{Bytes}
use snapcast_client.Proto.MessageType.{MessageType}
use snapcast_client.Proto.Base.{Base}
use snapcast_client.Proto.Time
use snapcast_client.Proto.Time.{Time}
use snapcast_client.Proto.WireChunk
use snapcast_client.Proto.WireChunk.{WireChunk}
use snapcast_client.Proto.Codec
use snapcast_client.Proto.Codec.{CodecHeader}
use snapcast_client.Proto.Settings
use snapcast_client.Proto.Settings.{ServerSettings, SettingsJson}
use snapcast_client.Proto.Hello
use snapcast_client.Proto.Hello.{ClientHello, HelloJson}

pub data ClientMessage : Type 0 where
  time : Time → ClientMessage
  hello : ClientHello → ClientMessage

pub data ServerMessage : Type 0 where
  server_settings : ServerSettings → ServerMessage
  codec_header : CodecHeader → ServerMessage
  wire_chunk : WireChunk → ServerMessage
  time : Time → ServerMessage

-- The `match self.mtype` of `Base::decode`.
unfoldable pub decode_as : SettingsJson → MessageType → Bytes → Outcome ServerMessage
decode_as json MessageType.codec_header payload = do
  ch ← Codec.from_slice payload
  ok (ServerMessage.codec_header ch)
decode_as json MessageType.server_settings payload = do
  s ← Settings.from_slice json payload
  ok (ServerMessage.server_settings s)
decode_as json MessageType.wire_chunk payload = do
  wc ← WireChunk.from_slice payload
  ok (ServerMessage.wire_chunk wc)
decode_as json MessageType.time payload = do t ← Time.try_from payload; ok (ServerMessage.time t)
decode_as json MessageType.base payload = err Error.unexpected_server_message
decode_as json MessageType.hello payload = err Error.unexpected_server_message
decode_as json MessageType.stream_tags payload = err Error.unexpected_server_message
decode_as json MessageType.client_info payload = err Error.unexpected_server_message

unfoldable pub decode : SettingsJson → Base → Bytes → Outcome ServerMessage
unfolding decode_as
decode json b payload = decode_as json b.mtype payload

-- The `match self.mtype` of `Base::decode_c`.
unfoldable pub decode_c_as : HelloJson → MessageType → Bytes → Outcome ClientMessage
decode_c_as json MessageType.hello payload = do
  h ← Hello.try_from json payload
  ok (ClientMessage.hello h)
decode_c_as json MessageType.time payload = do t ← Time.try_from payload; ok (ClientMessage.time t)
decode_c_as json MessageType.base payload = err Error.unexpected_client_message
decode_c_as json MessageType.codec_header payload = err Error.unexpected_client_message
decode_c_as json MessageType.wire_chunk payload = err Error.unexpected_client_message
decode_c_as json MessageType.server_settings payload = err Error.unexpected_client_message
decode_c_as json MessageType.stream_tags payload = err Error.unexpected_client_message
decode_c_as json MessageType.client_info payload = err Error.unexpected_client_message

unfoldable pub decode_c : HelloJson → Base → Bytes → Outcome ClientMessage
unfolding decode_c_as
decode_c json b payload = decode_c_as json b.mtype payload
