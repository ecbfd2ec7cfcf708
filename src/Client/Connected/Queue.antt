-- ===== src/Client/Connected/Queue.antt =====
-- The frames that `run_writer` of server/src/net.rs writes for a queue of messages.
use snapcast_client.Prelude.{
  ℕ, ◌+◌, ◌%◌, ◌^◌, ◌≤◌, ◌≡◌, refl, arith, ℤ, List, [], ◌∷◌, ◌++◌, length, map, All, true, false,
}
use snapcast_client.Outcome.{ok}
use snapcast_client.Word.{IsU16}
use snapcast_client.Bytes.{Bytes}
use snapcast_client.TimeVal.{TimeVal}
use snapcast_client.TimeVal.Micros.{IsTimeVal}
use snapcast_client.Proto.MessageType
use snapcast_client.Proto.Base.{Base, max_payload}
use snapcast_client.Proto.Base.RoundTrip.{header}
use snapcast_client.Proto.Time.{time_base}
use snapcast_client.Proto.Settings
use snapcast_client.Proto.Settings.{SettingsJson}
use snapcast_client.Proto.Message.{ServerMessage, decode}
use snapcast_client.Proto.Message.Frame.{IsFrame, server_base}
use snapcast_client.Proto.Message.RoundTrip.{
  chunk-IsFrame, settings-IsFrame, codec_header-IsFrame, time-IsFrame,
}
use snapcast_client.Net.Writer.{
  Outbound, chunk, settings, codec_header, time_reply, opus_codec_header, serialize, run_writer,
  Turn,
}

-- The message that a client is sent, and its header.
abbrev pub message_of : Outbound → ServerMessage
message_of (chunk ec) =
    ServerMessage.wire_chunk (record { timestamp = ec.timestamp; payload = ec.encoded })
message_of (settings s) = ServerMessage.server_settings s
message_of codec_header = ServerMessage.codec_header opus_codec_header
message_of (time_reply refers_to client_sent received) =
    ServerMessage.time (record { latency = client_sent })

abbrev pub base_of : SettingsJson → ℕ → TimeVal → Outbound → Base
base_of json id now (chunk ec) = server_base MessageType.wire_chunk id now (12 + length ec.encoded)
base_of json id now (settings s) =
    server_base MessageType.server_settings id now (4 + length (json.to_string s))
base_of json id now codec_header = server_base MessageType.codec_header id now 24
base_of json id now (time_reply refers_to client_sent received) =
    time_base id refers_to now received

-- What a server queues: stamps and ids in range, payloads within the limit, and settings that
-- serde_json reads back.
abbrev pub IsOutbound : SettingsJson → Outbound → Type 0
IsOutbound json (chunk ec) = IsTimeVal ec.timestamp × (12 + length ec.encoded ≤ max_payload)
IsOutbound json (settings s) =
    Settings.ReadsBack json s × (4 + length (json.to_string s) ≤ max_payload)
IsOutbound json codec_header = Unit
IsOutbound json (time_reply refers_to client_sent received) =
    IsU16 refers_to × IsTimeVal client_sent × IsTimeVal received

pub serialize-IsFrame :
    (json : SettingsJson) (id : ℕ) (now : TimeVal) (msg : Outbound)
    → IsU16 id
    → IsTimeVal now
    → IsOutbound json msg
    → IsFrame (serialize json id now msg) (decode json) (message_of msg) (base_of json id now msg)
unfolding serialize
serialize-IsFrame json id now (chunk ec) hi hn h =
    chunk-IsFrame json (record { timestamp = ec.timestamp; payload = ec.encoded }) id now hi hn h.0
      h.1
serialize-IsFrame json id now (settings s) hi hn h = settings-IsFrame json s id now hi hn h.0 h.1
serialize-IsFrame json id now codec_header hi hn h =
    codec_header-IsFrame json (record { sample_rate = 48000; bit_depth = 16; channel_count = 2 }) id
      now hi hn (omega arith)
serialize-IsFrame json id now (time_reply refers_to client_sent received) hi hn h =
    time-IsFrame json id refers_to now received client_sent
      (record {
        id_fits = hi;
        refers_to_fits = h.0;
        sent_fits = hn;
        received_fits = h.2;
        size_fits = omega arith;
      })
      h.1

-- A message of the queue: what the server's clock reads when it is written, and what the client's
-- clock reads when the tick begins and when the message is there.
pub record Item : Type 0 where
  pub written : TimeVal
  pub msg : Outbound
  pub tx_now : ℤ
  pub rx_now : ℤ

abbrev pub queued : Item → Turn
queued it = record { now = it.written; msg = it.msg; is_written = true }

-- What is left in the queue when the writer ends: nothing, or a message whose write fails, and all
-- behind it.
abbrev pub IsLost : SettingsJson → List Turn → Type 0
IsLost json [] = Unit
IsLost json (t ∷ behind) = (t.is_written ≡ false) × IsTimeVal t.now × IsOutbound json t.msg

abbrev pub IsItem : SettingsJson → Item → Type 0
IsItem json it = IsTimeVal it.written × IsOutbound json it.msg

abbrev pub next_id : ℕ → ℕ
next_id id = (id + 1) % 2 ^ 16

abbrev pub concat : List Bytes → Bytes
concat [] = []
concat (buf ∷ bufs) = buf ++ concat bufs

-- Each buffer is the frame of its item, under ids that count from `id`.
abbrev pub Frames : SettingsJson → ℕ → List Item → List Bytes → Type 0
Frames json id [] [] = Unit
Frames json id [] (buf ∷ bufs) = ⊥
Frames json id (it ∷ items) [] = ⊥
Frames json id (it ∷ items) (buf ∷ bufs) =
    IsFrame (ok buf) (decode json) (message_of it.msg) (base_of json id it.written it.msg)
    × Frames json (next_id id) items bufs

pub writer-Frames :
    (json : SettingsJson) (id : ℕ) (items : List Item) (lost : List Turn)
    → IsU16 id
    → All (IsItem json) items
    → IsLost json lost
    → (bufs : List Bytes) × (run_writer json id (map queued items ++ lost) ≡ ok bufs)
      × Frames json id items bufs
unfolding run_writer
writer-Frames json id [] [] hi h l = ([], refl, tt)
writer-Frames json id [] (t ∷ behind) hi h (fails, now_fits, msg_fits) =
    let (payload, w, hb, size, d) = serialize-IsFrame json id t.now t.msg hi now_fits msg_fits in
    ([], rw (w, fails) refl, tt)
writer-Frames json id (it ∷ items) lost hi h l =
    let (payload, w, hb, size, d) = serialize-IsFrame json id it.written it.msg hi h.0.0 h.0.1 in
    let (bufs, ws, frames) = writer-Frames json (next_id id) items lost (omega arith) h.1 l in
    let buf : Bytes = header (base_of json id it.written it.msg) ++ payload in
    (buf ∷ bufs, rw (w, ws), ((payload, refl, hb, size, d), frames))
