-- ===== src/Link/Cast.antt =====
-- What a synchronized client is sent: the settings, and then a chunk, as the writer of
-- server/src/net.rs writes them and src/client.rs reads them.
use snapcast_client.Prelude.{
  ℕ, ◌*◌, ◌≤◌, ◌≡◌, refl, ap, take, drop, ◌++◌, ℤ, pos, ◌+ℤ◌, ◌-ℤ◌, ◌+◌, ◌∙◌, length,
}
use snapcast_client.Outcome.{Outcome, ok, ◌>>=◌}
use snapcast_client.Word.{Profile, IsU16}
use snapcast_client.Bytes.{Bytes}
use snapcast_client.TimeVal
use snapcast_client.TimeVal.{TimeVal, from_micros}
use snapcast_client.TimeVal.Micros.{micros, IsTimeVal, from_micros-IsTimeVal}
use snapcast_client.TimeVal.Arith.{IsShort}
use snapcast_client.TimeVal.Millis.{max_millis, from_millis-micros}
use snapcast_client.Proto.Base.{Base, base_size, max_payload}
use snapcast_client.Proto.Base.RoundTrip.{IsBase, header}
use snapcast_client.Proto.Settings.{ServerSettings, SettingsJson}
use snapcast_client.Proto.Message.{ServerMessage, decode}
use snapcast_client.Proto.Message.Frame.{parse_header}
use snapcast_client.Framing.{on_header, take_base}
use snapcast_client.Net.Writer.{EncodedChunk, settings, chunk, serialize}
use snapcast_client.Client.Offsets.{CircularBuffer}
use snapcast_client.Client.{
  ClientMachine, Message, on_message, on_settings, handle_event, on_packet, process_packet, expired,
  wire_chunk, server_settings, on_wire_chunk,
}
use snapcast_client.Client.Reply
use snapcast_client.Client.Reply.{waiting}
use snapcast_client.Proto.Settings
use snapcast_client.Proto.WireChunk.{WireChunk}
use snapcast_client.Client
use snapcast_client.Client.Sync.{IsClock}
use snapcast_client.Client.Connected.Queue.{base_of, message_of, serialize-IsFrame}

-- The ids of the two messages, what the server's clock reads when they are written, what the client's
-- reads when they are there, and the chunk: its stamp on the server's clock and its bytes.
pub record Cast : Type 0 where
  pub settings_id : ℕ
  pub settings_sent : TimeVal
  pub settings_at : ℤ
  pub chunk_id : ℕ
  pub chunk_sent : TimeVal
  pub chunk_at : ℤ
  pub stamp : ℤ
  pub encoded : Bytes

-- What the pipeline broadcasts.
abbrev pub encoded_chunk : Cast → EncodedChunk
encoded_chunk t = record { timestamp = from_micros t.stamp; encoded = t.encoded }

-- The chunk that the client reads.
abbrev pub chunk_of : Cast → WireChunk
chunk_of t = record { timestamp = from_micros t.stamp; payload = t.encoded }

-- When the chunk is to be heard, on the server's clock.
abbrev pub heard_at : ServerSettings → Cast → ℤ
heard_at current t = t.stamp +ℤ pos (current.buffer_ms * 1000) -ℤ pos (current.latency * 1000)

-- Ids, stamps, settings and the client's clock in range.
pub record IsCast (json : SettingsJson) (current : ServerSettings) (t : Cast) : Type 0 where
  pub settings_id_fits : IsU16 t.settings_id
  pub settings_sent_fits : IsTimeVal t.settings_sent
  pub chunk_id_fits : IsU16 t.chunk_id
  pub chunk_sent_fits : IsTimeVal t.chunk_sent
  pub reads_back : Settings.ReadsBack json current
  pub text_fits : 4 + length (json.to_string current) ≤ max_payload
  pub encoded_fits : 12 + length t.encoded ≤ max_payload
  pub buffer_fits : current.buffer_ms ≤ max_millis
  pub latency_fits : current.latency ≤ max_millis
  pub stamp_fits : IsClock t.stamp
  pub arrival_fits : IsClock t.chunk_at

module _ {B : Type 0} (ring : CircularBuffer B) (p : Profile) (json : SettingsJson) where
  -- A message that has arrived in full.
  unfoldable pub receive : ClientMachine B → Bytes → ℤ → ClientMachine B × Outcome Message
  receive m bytes now =
      Reply.feed ring p json m (take base_size bytes) (drop base_size bytes) now now

  unfoldable pub cast : ServerSettings → ClientMachine B → Cast → Outcome Message
  cast current m t = do
    first ← serialize json t.settings_id t.settings_sent (settings current)
    let (m1, heard) = receive m first t.settings_at
    message ← heard
    second ← serialize json t.chunk_id t.chunk_sent (chunk (encoded_chunk t))
    (receive m1 second t.chunk_at).1

  split_frame :
      (b : Base) (payload : Bytes)
      → (take 26 (header b ++ payload) ≡ header b) × (drop 26 (header b ++ payload) ≡ payload)
  unfolding header TimeVal.as_buf
  split_frame b payload = (refl, refl)

  pub receive-frame :
      (m : ClientMachine B) (b : Base) (payload : Bytes) (now : ℤ) (msg : ServerMessage)
      → IsBase b
      → decode json b payload ≡ ok msg
      → receive (waiting m) (header b ++ payload) now
        ≡ on_message ring p (waiting m) b (from_micros now) (ok msg)
  unfolding receive handle_event on_header take_base on_packet process_packet
  receive-frame m b payload now msg hb decoded =
      rw ((split_frame b payload).0, (split_frame b payload).1, parse_header b hb, decoded) refl

  -- The machine with the times of some settings.
  pub settings_kept :
      (m : ClientMachine B) (s : ServerSettings)
      → s.buffer_ms ≤ max_millis
      → s.latency ≤ max_millis
      → (buffer : TimeVal) × (latency : TimeVal) × (on_settings ring p m s
          ≡ ok (record m { server_buffer_ms = buffer; local_latency = latency }))
        × (micros buffer ≡ pos (s.buffer_ms * 1000))
        × IsShort 2148 buffer
        × (micros latency ≡ pos (s.latency * 1000))
        × IsShort 2148 latency
  unfolding on_settings
  settings_kept m s hb hl =
      let (buffer, eb, vb, sb) = from_millis-micros p s.buffer_ms hb in
      let (latency, el, vl, sl) = from_millis-micros p s.latency hl in
      (buffer, latency, rw (eb, el) refl, vb, sb, vl, sl)

  -- The run of `cast` over the bytes and what is made of them.
  pub cast_steps :
      (current : ServerSettings) (m m1 m2 : ClientMachine B) (t : Cast) (first second : Bytes)
      (message : Message) (result : Outcome Message)
      → serialize json t.settings_id t.settings_sent (settings current) ≡ ok first
      → receive m first t.settings_at ≡ (m1, ok message)
      → serialize json t.chunk_id t.chunk_sent (chunk (encoded_chunk t)) ≡ ok second
      → receive m1 second t.chunk_at ≡ (m2, result)
      → cast current m t ≡ result
  unfolding cast
  cast_steps current m m1 m2 t first second message result e1 e2 e3 e4 =
      rw (e1, e2, e3) (ap (λ r. r.1) e4)

module _ {B : Type 0} (ring : CircularBuffer B) (p : Profile) (json : SettingsJson)
    (current : ServerSettings) where
  -- A client with the settings handles the chunk.
  pub cast_run :
      (m : ClientMachine B) (t : Cast)
      → IsCast json current t
      → (buffer : TimeVal) × (latency : TimeVal) × (cast ring p json current (waiting m) t
          ≡ on_wire_chunk ring p
              (record (waiting m) { server_buffer_ms = buffer; local_latency = latency })
              (chunk_of t)
              (from_micros t.chunk_at))
        × (micros buffer ≡ pos (current.buffer_ms * 1000))
        × IsShort 2148 buffer
        × (micros latency ≡ pos (current.latency * 1000))
        × IsShort 2148 latency
  unfolding on_message
  cast_run m t h =
      let (text, w1, b1, z1, d1) =
        serialize-IsFrame json t.settings_id t.settings_sent (settings current) h.settings_id_fits
          h.settings_sent_fits (h.reads_back, h.text_fits) in
      let (payload, w2, b2, z2, d2) =
        serialize-IsFrame json t.chunk_id t.chunk_sent (chunk (encoded_chunk t)) h.chunk_id_fits
          h.chunk_sent_fits (from_micros-IsTimeVal t.stamp, h.encoded_fits) in
      let (buffer, latency, kept, vb, sb, vl, sl) =
        settings_kept ring p json (waiting m) current h.buffer_fits h.latency_fits in
      let m1 : ClientMachine B = record (waiting m) {
        server_buffer_ms = buffer;
        local_latency = latency;
      } in
      (
        buffer,
        latency,
        cast_steps ring p json current (waiting m) m1 m1 t _ _ (server_settings current)
            (on_wire_chunk ring p m1 (chunk_of t) (from_micros t.chunk_at)) w1
            (receive-frame ring p json m
                (base_of json t.settings_id t.settings_sent (settings current)) text t.settings_at
                (message_of (settings current)) b1 d1
              ∙ ap (Client.updated ring (waiting m) (server_settings current)) kept)
            w2
            (receive-frame ring p json m1
              (base_of json t.chunk_id t.chunk_sent (chunk (encoded_chunk t))) payload t.chunk_at
              (message_of (chunk (encoded_chunk t))) b2 d2),
        vb,
        sb,
        vl,
        sl,
      )
