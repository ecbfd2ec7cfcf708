-- ===== src/Tests/Messages.antt =====
-- The theorems on whole messages at concrete messages.
use snapcast_client.Prelude.{refl, arith, [], ◌∷◌}
use snapcast_client.Proto.WireChunk
use snapcast_client.Proto.WireChunk.{WireChunk}
use snapcast_client.Proto.Settings
use snapcast_client.Proto.Message.{ServerMessage, decode}
use snapcast_client.Proto.Message.RoundTrip.{wire_chunk_round, settings_round}
use snapcast_client.Proto.Message.Frame.{IsRead}
use snapcast_client.Tests.Fixtures.{at, settings, settings_json}

abbrev chunk : WireChunk
chunk = record { timestamp = at 3 7; payload = 1 ∷ 2 ∷ 255 ∷ [] }

wire_chunk_round_example :
    IsRead
      (WireChunk.as_buf chunk 5 (at 4 8))
      (decode settings_json)
      (ServerMessage.wire_chunk chunk)
wire_chunk_round_example =
    wire_chunk_round settings_json chunk 5 (at 4 8) (omega arith) (omega arith) (omega arith)
      (omega arith)

settings_round_example :
    IsRead
      (Settings.as_buf settings_json settings 5 (at 4 8))
      (decode settings_json)
      (ServerMessage.server_settings settings)
settings_round_example =
    settings_round settings_json settings 5 (at 4 8) (omega arith) (omega arith) refl (omega arith)
