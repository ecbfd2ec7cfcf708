-- ===== src/Proto/Message/RoundTrip.antt =====
-- The messages of src/proto.rs, there and back.
use snapcast_client.Prelude.{
  ℕ, ◌+◌, ◌%◌, ◌^◌, ◌≤◌, ◌≡◌, refl, ◌∙◌, arith, [], ◌++◌, length, append-nil, le→leb,
}
use snapcast_client.Outcome.{ok, ◌>>=◌}
use snapcast_client.Word.{IsU16, IsU32}
use snapcast_client.Bytes.{Bytes, slice, slice_to_u16, slice_to_u32}
use snapcast_client.Bytes.Words.{u16_round, u32_round}
use snapcast_client.Bytes.Slices.{slice_fits}
use snapcast_client.Bytes.Counted.{counted, count_read, counted_read}
use snapcast_client.TimeVal
use snapcast_client.TimeVal.{TimeVal, tv_zero}
use snapcast_client.TimeVal.Micros.{IsTimeVal}
use snapcast_client.TimeVal.Wire.{from_slice-as_buf}
use snapcast_client.Proto.MessageType
use snapcast_client.Proto.Base.{Base, max_payload}
use snapcast_client.Proto.Base.RoundTrip.{IsBase}
use snapcast_client.Proto.WireChunk
use snapcast_client.Proto.WireChunk.{WireChunk}
use snapcast_client.Proto.Codec
use snapcast_client.Proto.Codec.{
  CodecHeader, OpusMetadata, opus, opus_name, opus_payload, opus_from, metadata_from, as_payload,
}
use snapcast_client.Proto.Settings
use snapcast_client.Proto.Settings.{ServerSettings, SettingsJson}
use snapcast_client.Proto.Hello
use snapcast_client.Proto.Hello.{ClientHello, HelloJson}
use snapcast_client.Proto.Time
use snapcast_client.Proto.Time.{time_base, as_buf_lem, try_from-as_buf}
use snapcast_client.Proto.Message.{
  ServerMessage, ClientMessage, decode, decode_as, decode_c, decode_c_as,
}
use snapcast_client.Proto.Message.Frame.{
  IsFrame, IsRead, frame-IsRead, framed, server_base, server_base-IsBase,
}

-- The length in front of the last part, and that part.
last_read :
    (front xs : Bytes) (lo mid hi : ℕ)
    → IsU32 (length xs)
    → lo ≡ length front
    → mid ≡ length front + 4
    → hi ≡ mid + length xs
    → ((slice lo mid (front ++ counted xs) >>= slice_to_u32) ≡ ok (length xs))
      × (slice mid hi (front ++ counted xs) ≡ ok xs)
last_read front xs lo mid hi fits el em eh = (
  rw append-nil at (count_read front xs [] fits lo mid el em),
  rw append-nil at (counted_read front xs [] fits lo mid el em hi eh),
)

chunk_read :
    (wc : WireChunk)
    → IsTimeVal wc.timestamp
    → IsU32 (length wc.payload)
    → WireChunk.from_slice (TimeVal.as_buf wc.timestamp ++ counted wc.payload) ≡ ok wc
unfolding WireChunk.from_slice TimeVal.as_buf
chunk_read wc ht fits =
    let read =
      last_read (TimeVal.as_buf wc.timestamp) wc.payload 8 12 (12 + length wc.payload) fits refl
        refl refl in
    rw (
      read.0,
      slice_fits 0 8 (TimeVal.as_buf wc.timestamp ++ counted wc.payload) (omega arith)
          (omega arith),
      from_slice-as_buf wc.timestamp [] ht,
      read.1,
    )

pub chunk-IsFrame :
    (json : SettingsJson) (wc : WireChunk) (id : ℕ) (now : TimeVal)
    → IsU16 id
    → IsTimeVal now
    → IsTimeVal wc.timestamp
    → 12 + length wc.payload ≤ max_payload
    → IsFrame
        (WireChunk.as_buf wc id now)
        (decode json)
        (ServerMessage.wire_chunk wc)
        (server_base MessageType.wire_chunk id now (12 + length wc.payload))
unfolding WireChunk.as_buf TimeVal.as_buf decode decode_as
chunk-IsFrame json wc id now hi hn ht hs =
    framed (server_base MessageType.wire_chunk id now 0) (12 + length wc.payload)
      (TimeVal.as_buf wc.timestamp ++ counted wc.payload) (decode json)
      (ServerMessage.wire_chunk wc) (omega arith)
      (server_base-IsBase MessageType.wire_chunk id now (12 + length wc.payload) hi hn hs)
      (rw (chunk_read wc ht (omega arith)))

-- A wire chunk of at most 2 ^ 20 bytes, its 12 bytes of stamp and length included, is read as it was
-- written, with a `u16` id and `i32` stamps: `as_buf` gives 26 bytes that are parsed to a header with
-- the length of the rest, and the rest is decoded to the chunk.
pub wire_chunk_round :
    (json : SettingsJson) (wc : WireChunk) (id : ℕ) (now : TimeVal)
    → IsU16 id
    → IsTimeVal now
    → IsTimeVal wc.timestamp
    → 12 + length wc.payload ≤ max_payload
    → IsRead (WireChunk.as_buf wc id now) (decode json) (ServerMessage.wire_chunk wc)
wire_chunk_round json wc id now hi hn ht hs =
    frame-IsRead _ (decode json) _ _ (chunk-IsFrame json wc id now hi hn ht hs)

settings_read :
    (json : SettingsJson) (s : ServerSettings)
    → Settings.ReadsBack json s
    → IsU32 (length (json.to_string s))
    → Settings.from_slice json (counted (json.to_string s)) ≡ ok s
unfolding Settings.from_slice
settings_read json s reads fits =
    let read =
      last_read [] (json.to_string s) 0 4 (4 + length (json.to_string s)) fits refl refl refl in
    rw (read.0, read.1, reads)

pub settings-IsFrame :
    (json : SettingsJson) (s : ServerSettings) (id : ℕ) (now : TimeVal)
    → IsU16 id
    → IsTimeVal now
    → Settings.ReadsBack json s
    → 4 + length (json.to_string s) ≤ max_payload
    → IsFrame
        (Settings.as_buf json s id now)
        (decode json)
        (ServerMessage.server_settings s)
        (server_base MessageType.server_settings id now (4 + length (json.to_string s)))
unfolding Settings.as_buf decode decode_as
settings-IsFrame json s id now hi hn reads hs =
    framed (server_base MessageType.server_settings id now 0) (4 + length (json.to_string s))
      (counted (json.to_string s)) (decode json) (ServerMessage.server_settings s) (omega arith)
      (server_base-IsBase MessageType.server_settings id now (4 + length (json.to_string s)) hi hn
        hs)
      (rw (settings_read json s reads (omega arith)))

-- Where serde_json reads back the text that it wrote for the settings, and the text has at most 2 ^
-- 20 - 4 bytes, the settings are read as they were written, with a `u16` id and an `i32` stamp:
-- `as_buf` gives 26 bytes that are parsed to a header with the length of the rest, and the rest is
-- decoded to the settings.
pub settings_round :
    (json : SettingsJson) (s : ServerSettings) (id : ℕ) (now : TimeVal)
    → IsU16 id
    → IsTimeVal now
    → Settings.ReadsBack json s
    → 4 + length (json.to_string s) ≤ max_payload
    → IsRead (Settings.as_buf json s id now) (decode json) (ServerMessage.server_settings s)
settings_round json s id now hi hn reads hs =
    frame-IsRead _ (decode json) _ _ (settings-IsFrame json s id now hi hn reads hs)

hello_read :
    (json : HelloJson) (h : ClientHello)
    → Hello.ReadsBack json h
    → IsU32 (length (json.to_string h))
    → Hello.try_from json (counted (json.to_string h)) ≡ ok h
unfolding Hello.try_from slice_to_u32
hello_read json h reads fits =
    let text = json.to_string h in
    rw (
      le→leb 4 (length (counted text)) (omega arith),
      u32_round (length text % 2 ^ 32) (omega arith)
          ∙ (let e : length text % 2 ^ 32 ≡ length text = omega arith in e),
      le→leb (length text + 4) (length (counted text)) (omega arith),
      (last_read [] text 0 4 (length text + 4) fits refl refl (omega arith)).1,
      reads,
    )

hello_base : ℕ → Base
hello_base size = record {
  mtype = MessageType.hello;
  id = 0;
  refers_to = 0;
  sent_tv = tv_zero;
  received_tv = tv_zero;
  size = size;
}

-- Where serde_json reads back the text that it wrote for a hello, and the text has at most 2 ^ 20 - 4
-- bytes, the hello is read by a server as a client wrote it.
pub hello_round :
    (json : HelloJson) (h : ClientHello)
    → Hello.ReadsBack json h
    → 4 + length (json.to_string h) ≤ max_payload
    → IsRead (Hello.as_buf json h) (decode_c json) (ClientMessage.hello h)
unfolding Hello.as_buf decode_c decode_c_as hello_base
hello_round json h reads hs = frame-IsRead _ (decode_c json) _ _ (
    framed (hello_base 0) (4 + length (json.to_string h)) (counted (json.to_string h))
      (decode_c json) (ClientMessage.hello h) (omega arith)
      (record {
        id_fits = omega arith;
        refers_to_fits = omega arith;
        sent_fits = omega arith;
        received_fits = omega arith;
        size_fits = hs;
      })
      (rw (hello_read json h reads (omega arith))))

-- The fields of Opus metadata are in the ranges of their types.
pub record IsOpus (m : OpusMetadata) : Type 0 where
  pub sample_rate_fits : IsU32 m.sample_rate
  pub bit_depth_fits : IsU16 m.bit_depth
  pub channel_count_fits : IsU16 m.channel_count

opus_read : (m : OpusMetadata) → IsOpus m → opus_from (opus_payload m) ≡ ok m
unfolding opus_from opus_payload slice_to_u32 slice_to_u16
opus_read m h = rw (
  slice_fits 0 4 (opus_payload m) (omega arith) (omega arith),
  slice_fits 4 8 (opus_payload m) (omega arith) (omega arith),
  slice_fits 8 10 (opus_payload m) (omega arith) (omega arith),
  slice_fits 10 12 (opus_payload m) (omega arith) (omega arith),
  u32_round m.sample_rate h.sample_rate_fits,
  u16_round m.bit_depth h.bit_depth_fits,
  u16_round m.channel_count h.channel_count_fits,
)

-- An Opus header, with the name that goes with it.
abbrev pub opus_header : OpusMetadata → CodecHeader
opus_header m = record { codec = opus_name; metadata = opus m }

codec_read :
    (m : OpusMetadata)
    → IsOpus m
    → Codec.from_slice (counted opus_name ++ counted (opus_payload m)) ≡ ok (opus_header m)
unfolding Codec.from_slice metadata_from opus_payload
codec_read m h =
    let buf : Bytes = counted opus_name ++ counted (opus_payload m) in
    let name_size =
      count_read [] opus_name (counted (opus_payload m)) (omega arith) 0 4 refl refl in
    let name =
      counted_read [] opus_name (counted (opus_payload m)) (omega arith) 0 4 refl refl 8 refl in
    let meta =
      last_read (counted opus_name) (opus_payload m) 8 12 24 (omega arith) refl refl refl in
    rw (name_size, name, meta.0, meta.1, opus_read m h)

-- An Opus codec header whose fields are in the ranges of their types is read as it was written, with a
-- `u16` id and an `i32` stamp.
pub codec_header-IsFrame :
    (json : SettingsJson) (m : OpusMetadata) (id : ℕ) (now : TimeVal)
    → IsU16 id
    → IsTimeVal now
    → IsOpus m
    → IsFrame
        (Codec.as_buf (opus_header m) id now)
        (decode json)
        (ServerMessage.codec_header (opus_header m))
        (server_base MessageType.codec_header id now 24)
unfolding Codec.as_buf opus_payload decode decode_as
codec_header-IsFrame json m id now hi hn h =
    framed (server_base MessageType.codec_header id now 0) 24
      (counted opus_name ++ counted (opus_payload m)) (decode json)
      (ServerMessage.codec_header (opus_header m)) refl
      (server_base-IsBase MessageType.codec_header id now 24 hi hn (omega arith))
      (rw (codec_read m h))

pub time-IsFrame :
    (json : SettingsJson) (id refers_to : ℕ) (sent received latency : TimeVal)
    → IsBase (time_base id refers_to sent received)
    → IsTimeVal latency
    → IsFrame
        (Time.as_buf id refers_to sent received latency)
        (decode json)
        (ServerMessage.time (record { latency = latency }))
        (time_base id refers_to sent received)
unfolding decode decode_as TimeVal.as_buf
time-IsFrame json id refers_to sent received latency hb hl = (
  TimeVal.as_buf latency,
  as_buf_lem id refers_to sent received latency,
  hb,
  refl,
  rw (try_from-as_buf latency hl),
)
