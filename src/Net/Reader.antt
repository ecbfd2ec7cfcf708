-- ===== src/Net/Reader.antt =====
-- The `match out` of `reader_loop` in server/src/net.rs: what is queued for the client in answer to an
-- output of its session. Net.Connection models the thread that queues it.
use snapcast_client.Prelude.{List, [], ◌∷◌}
use snapcast_client.Proto.Settings.{ServerSettings}
use snapcast_client.Server.{SessionOutput}
use snapcast_client.Net.Writer.{Outbound, settings, codec_header, time_reply}

-- `current` is the registry's `current_settings`. A time request comes from a session that was
-- greeted, so its client has a queue.
unfoldable pub answers : ServerSettings → SessionOutput → List Outbound
answers current SessionOutput.none = []
answers current (SessionOutput.hello h) = settings current ∷ codec_header ∷ []
answers current (SessionOutput.time_request id client_sent received) =
    time_reply id client_sent received ∷ []
