-- ===== src/Client/Reply.antt =====
-- What the client makes of a Time reply: the header and the payload that a server writes.
use snapcast_client.Prelude.{ℕ, ◌≡◌, [], append-nil, ℤ}
use snapcast_client.Outcome.{Outcome, ok}
use snapcast_client.Word.{Profile}
use snapcast_client.Bytes.{Bytes}
use snapcast_client.TimeVal
use snapcast_client.TimeVal.{TimeVal, from_micros}
use snapcast_client.TimeVal.Micros.{IsTimeVal}
use snapcast_client.Proto.Base
use snapcast_client.Proto.Base.RoundTrip.{header, try_from-header, IsBase}
use snapcast_client.Proto.Time.{time_base, try_from-as_buf}
use snapcast_client.Proto.Settings.{SettingsJson}
use snapcast_client.Proto.Message.{decode, decode_as}
use snapcast_client.Framing
use snapcast_client.Framing.{header_received, packet_received, on_header, take_base}
use snapcast_client.Client.Offsets.{CircularBuffer}
use snapcast_client.Client.{ClientMachine, Message, nothing, measure, record_offset, handle_event}

-- A machine that waits for a header.
abbrev pub waiting : {B : Type 0} → ClientMachine B → ClientMachine B
waiting m = record m { framing = Framing.new }

module _ {B : Type 0} (ring : CircularBuffer B) (p : Profile) (json : SettingsJson) where
  -- The state and outcome after a header and a packet.
  abbrev pub feed : ClientMachine B → Bytes → Bytes → ℤ → ℤ → ClientMachine B × Outcome Message
  feed m head payload header_now now =
      handle_event ring p json (handle_event ring p json m (header_received head) header_now).0
        (packet_received payload) now

  pub reply_recorded :
      (m m' : ClientMachine B) (id refers_to : ℕ) (sent received latency t : TimeVal)
      (header_now now : ℤ)
      → IsBase (time_base id refers_to sent received)
      → IsTimeVal latency
      → measure ring p (waiting m) (time_base id refers_to sent received) (from_micros now) ≡ ok t
      → record_offset ring (waiting m) t ≡ ok m'
      → feed
          (waiting m)
          (header (time_base id refers_to sent received))
          (TimeVal.as_buf latency)
          header_now
          now
        ≡ (m', ok nothing)
  unfolding handle_event on_header take_base decode decode_as
  reply_recorded m m' id refers_to sent received latency t header_now now hb hl measured recorded =
      rw (parsed, try_from-as_buf latency hl, measured, recorded)
    where
      parsed :
          Base.try_from (header (time_base id refers_to sent received))
          ≡ ok (time_base id refers_to sent received)
      parsed = rw append-nil at (try_from-header (time_base id refers_to sent received) [] hb)
