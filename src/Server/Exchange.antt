-- ===== src/Server/Exchange.antt =====
-- What a session makes of the bytes that a client writes.
use snapcast_client.Prelude.{ℕ, ◌≡◌, arith, Bool, true, false, [], append-nil}
use snapcast_client.Outcome.{Outcome, Error, ok, err}
use snapcast_client.Word.{IsU16}
use snapcast_client.Bytes.{Bytes}
use snapcast_client.TimeVal
use snapcast_client.TimeVal.{TimeVal}
use snapcast_client.TimeVal.Micros.{IsTimeVal}
use snapcast_client.Proto.Base
use snapcast_client.Proto.Base.{Base}
use snapcast_client.Proto.Base.RoundTrip.{IsBase, header, try_from-header}
use snapcast_client.Proto.Time.{time_base, try_from-as_buf}
use snapcast_client.Proto.Hello.{HelloJson}
use snapcast_client.Proto.Message.{decode_c, decode_c_as}
use snapcast_client.Framing
use snapcast_client.Framing.{
  reading_header, reading_packet, header_received, packet_received, on_header, take_base,
}
use snapcast_client.Server.{
  ServerSession, SessionOutput, time_request, on_message, on_packet, handle_event,
}

-- The state and outcome after a header and a packet.
abbrev pub feed :
    HelloJson
    → ServerSession
    → Bytes
    → Bytes
    → TimeVal
    → TimeVal
    → ServerSession × Outcome SessionOutput
feed json s head payload header_now now =
    handle_event json (handle_event json s (header_received head) header_now).0
      (packet_received payload) now

pub time_base-IsBase :
    (id refers_to : ℕ) (sent received : TimeVal)
    → IsU16 id
    → IsU16 refers_to
    → IsTimeVal sent
    → IsTimeVal received
    → IsBase (time_base id refers_to sent received)
time_base-IsBase id refers_to sent received hi hr hs hv = record {
  id_fits = hi;
  refers_to_fits = hr;
  sent_fits = hs;
  received_fits = hv;
  size_fits = omega arith;
}

-- A session that waits for a header.
abbrev pub waiting : Bool → ServerSession
waiting greeted = record { framing = Framing.new; greeted = greeted }

module _ (json : HelloJson) (id refers_to : ℕ) (sent received latency header_now now : TimeVal)
    (hi : IsU16 id) (hr : IsU16 refers_to) (hs : IsTimeVal sent) (hv : IsTimeVal received)
    (hl : IsTimeVal latency) where
  parsed :
      Base.try_from (header (time_base id refers_to sent received))
      ≡ ok (time_base id refers_to sent received)
  parsed = rw append-nil at (
      try_from-header (time_base id refers_to sent received) []
        (time_base-IsBase id refers_to sent received hi hr hs hv))

  -- A written Time message: a session that was greeted gives a request that carries the message's id,
  -- its `sent_tv` and the time of arrival, and one that was not greeted gives an error. Both wait for
  -- the next header.
  pub time_request_read :
      (feed json
          (waiting true)
          (header (time_base id refers_to sent received))
          (TimeVal.as_buf latency)
          header_now
          now
        ≡ (waiting true, ok (time_request id sent now)))
      × (feed json
            (waiting false)
            (header (time_base id refers_to sent received))
            (TimeVal.as_buf latency)
            header_now
            now
          ≡ (waiting false, err Error.time_before_hello))
  unfolding handle_event on_header take_base on_packet on_message decode_c decode_c_as
  time_request_read =
      (rw (parsed, try_from-as_buf latency hl), rw (parsed, try_from-as_buf latency hl))
