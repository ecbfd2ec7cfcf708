-- ===== src/Client.antt =====
-- src/client.rs: `ClientMachine`, the protocol core of the client.
pub mod Offsets
pub mod Sync
pub mod Reply
pub mod Connected
pub mod Transmit
pub mod Playback
pub mod Record
pub mod Median
use snapcast_client.Prelude.{
  ℕ, ◌+◌, ◌%◌, ◌^◌, Bool, true, false, not, ◌&&◌, ◌||◌, if◌then◌else◌, ltb, leb, ◌==◌, Option, none,
  some, List, length, replicate, ℤ, pos, negsuc, ◌-ℤ◌, leb_ℤ, ltb_ℤ, div_trunc,
}
use snapcast_client.Outcome.{Outcome, Error, ok, err, panic, stuck, ◌>>=◌}
use snapcast_client.Word.{Profile, i64, as_i32}
use snapcast_client.Bytes.{Bytes}
use snapcast_client.TimeVal
use snapcast_client.TimeVal.{TimeVal, tv_zero}
use snapcast_client.Proto.Base.{Base}
use snapcast_client.Proto.Time
use snapcast_client.Proto.WireChunk.{WireChunk}
use snapcast_client.Proto.Codec.{CodecHeader}
use snapcast_client.Proto.Settings.{ServerSettings, SettingsJson}
use snapcast_client.Proto.Message.{ServerMessage, decode}
use snapcast_client.Framing
use snapcast_client.Framing.{
  Framing, Action, Event, header_received, packet_received, on_header, take_base,
}
use Offsets.{CircularBuffer, latency_samples, overwrite, sort, median}

pub data Message : Type 0 where
  expired : TimeVal → Message
  nothing : Message
  wire_chunk : WireChunk → TimeVal → Message
  server_settings : ServerSettings → Message
  codec_header : CodecHeader → Message

-- `B` is the type of the circular buffer.
pub record ClientMachine (B : Type 0) : Type 0 where
  pub framing : Framing
  pub latency_buf : B
  pub sorted_latency_buf : List TimeVal
  pub pkt_id : ℕ
  pub server_buffer_ms : TimeVal
  pub local_latency : TimeVal
  pub last_sent_time : TimeVal
  pub last_time_sent_us : ℤ
  pub clock_offset : TimeVal

module _ {B : Type 0} (ring : CircularBuffer B) where
  unfoldable pub new : ClientMachine B
  new = record {
    framing = Framing.new;
    latency_buf = ring.empty;
    sorted_latency_buf = replicate latency_samples tv_zero;
    pkt_id = 0;
    server_buffer_ms = record { sec = pos 0; usec = pos 999999 };
    local_latency = tv_zero;
    last_sent_time = tv_zero;
    last_time_sent_us = pos 0;
    clock_offset = record { sec = pos 0; usec = pos 1000 };
  }

  unfoldable pub synchronized : ClientMachine B → Bool
  synchronized m = length (ring.iter m.latency_buf) == length m.sorted_latency_buf

  -- Whether a Time request is due after so many microseconds.
  unfoldable pub is_due : ClientMachine B → ℤ → Bool
  unfolding synchronized
  is_due m elapsed =
      (not (synchronized m) && leb_ℤ (pos 1000) elapsed) || leb_ℤ (pos 1000000) elapsed

  -- The new state, the new contents of `out` and the length of the request, if one was due.
  unfoldable pub poll_transmit :
      Profile → ClientMachine B → ℤ → Bytes → Outcome (ClientMachine B × Bytes × Option ℕ)
  poll_transmit p m now_us out = do
    elapsed ← i64 p (now_us -ℤ m.last_time_sent_us)
    if not (is_due m elapsed) then ok (m, out, none) else (do
      let tv = TimeVal.from_micros now_us
      (out', n) ← Time.write out m.pkt_id 0 tv tv tv
      ok (
        record m {
          last_sent_time = tv;
          last_time_sent_us = now_us;
          pkt_id = (m.pkt_id + 1) % 2 ^ 16;
        },
        out',
        some n,
      ))

  -- The clock offset of one exchange of Time messages.
  unfoldable pub measure : Profile → ClientMachine B → Base → TimeVal → Outcome TimeVal
  measure p m base recv_ts = do
    c2s ← TimeVal.sub p base.received_tv m.last_sent_time
    s2c ← TimeVal.sub p recv_ts base.sent_tv
    diff ← TimeVal.sub p c2s s2c
    us ← TimeVal.to_micros p diff
    TimeVal.normalize p (TimeVal.from_micros (div_trunc us 2))

  -- Push a measurement, sort what is known, and take the median.
  unfoldable pub record_offset : ClientMachine B → TimeVal → Outcome (ClientMachine B)
  record_offset m offset = do
    let latency_buf = ring.push_back m.latency_buf offset
    filled ← overwrite (ring.iter latency_buf) m.sorted_latency_buf
    let sorted = sort filled
    clock_offset ← median sorted (length (ring.iter latency_buf))
    ok (record m {
      latency_buf = latency_buf;
      sorted_latency_buf = sorted;
      clock_offset = clock_offset;
    })

  unfoldable pub on_time : Profile → ClientMachine B → Base → TimeVal → Outcome (ClientMachine B)
  unfolding measure record_offset
  on_time p m base recv_ts = do offset ← measure p m base recv_ts; record_offset m offset

  -- When a chunk is to be heard, on the client's clock.
  unfoldable pub audible : Profile → ClientMachine B → TimeVal → Outcome TimeVal
  audible p m timestamp = do
    t_c ← TimeVal.sub p timestamp m.clock_offset
    t ← TimeVal.add p t_c m.server_buffer_ms
    TimeVal.sub p t m.local_latency

  unfoldable pub on_wire_chunk : Profile → ClientMachine B → WireChunk → TimeVal → Outcome Message
  unfolding audible
  on_wire_chunk p m wc recv_ts = do
    audible_at ← audible p m wc.timestamp
    cmp ← TimeVal.sub p audible_at recv_ts
    if ltb_ℤ cmp.sec (pos 0) then ok (expired cmp) else ok (wire_chunk wc audible_at)

  -- `s.bufferMs as i32` and `s.latency as i32`
  unfoldable pub on_settings :
      Profile → ClientMachine B → ServerSettings → Outcome (ClientMachine B)
  on_settings p m s = do
    server_buffer_ms ← TimeVal.from_millis p (as_i32 (pos s.buffer_ms))
    local_latency ← TimeVal.from_millis p (as_i32 (pos s.latency))
    ok (record m { server_buffer_ms = server_buffer_ms; local_latency = local_latency })

  -- A handler that only panics gives no state to go on from.
  abbrev pub updated :
      ClientMachine B → Message → Outcome (ClientMachine B) → ClientMachine B × Outcome Message
  updated m msg (ok m') = (m', ok msg)
  updated m msg (err e) = (m, err e)
  updated m msg panic = (m, panic)
  updated m msg stuck = (m, stuck)

  unfoldable pub on_message :
      Profile
      → ClientMachine B
      → Base
      → TimeVal
      → Outcome ServerMessage
      → ClientMachine B × Outcome Message
  unfolding on_time on_wire_chunk on_settings
  on_message p m base recv_ts (ok (ServerMessage.time _)) =
      updated m nothing (on_time p m base recv_ts)
  on_message p m base recv_ts (ok (ServerMessage.wire_chunk wc)) = (m, on_wire_chunk p m wc recv_ts)
  on_message p m base recv_ts (ok (ServerMessage.server_settings s)) =
      updated m (server_settings s) (on_settings p m s)
  on_message p m base recv_ts (ok (ServerMessage.codec_header ch)) = (m, ok (codec_header ch))
  on_message p m base recv_ts (err e) = (m, err e)
  on_message p m base recv_ts panic = (m, panic)
  on_message p m base recv_ts stuck = (m, stuck)

  unfoldable pub process_packet :
      Profile
      → SettingsJson
      → ClientMachine B
      → Base
      → Bytes
      → ℤ
      → ClientMachine B × Outcome Message
  unfolding on_message
  process_packet p json m base payload now_us =
      on_message p m base (TimeVal.from_micros now_us) (decode json base payload)

  unfoldable pub on_packet :
      Profile
      → SettingsJson
      → ClientMachine B
      → Bytes
      → ℤ
      → Outcome Base
      → ClientMachine B × Outcome Message
  unfolding process_packet
  on_packet p json m bytes now_us (ok base) = process_packet p json m base bytes now_us
  on_packet p json m bytes now_us (err e) = (m, err e)
  on_packet p json m bytes now_us panic = (m, panic)
  on_packet p json m bytes now_us stuck = (m, stuck)

  unfoldable pub handle_event :
      Profile → SettingsJson → ClientMachine B → Event → ℤ → ClientMachine B × Outcome Message
  unfolding on_packet
  handle_event p json m (header_received bytes) now_us =
      let (framing, r) = on_header m.framing bytes in
      (record m { framing = framing }, r >>= λ _. ok nothing)
  handle_event p json m (packet_received bytes) now_us =
      let (framing, base) = take_base m.framing in
      on_packet p json (record m { framing = framing }) bytes now_us base

unfoldable pub next_action : {B : Type 0} → ClientMachine B → Action
next_action m = Framing.next_action m.framing
