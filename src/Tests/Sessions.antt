-- ===== src/Tests/Sessions.antt =====
-- The theorems on sessions at concrete events.
use snapcast_client.Prelude.{◌≡◌, refl, [], ◌∷◌, replicate}
use snapcast_client.Outcome.{Returns}
use snapcast_client.TimeVal
use snapcast_client.Proto.Base.RoundTrip.{header}
use snapcast_client.Bytes.{slice, slice_to_u16, slice_to_u32, slice_to_i32}
use snapcast_client.Proto.MessageType
use snapcast_client.Proto.Base
use snapcast_client.Framing.{on_header, header_received, packet_received}
use snapcast_client.Server
use snapcast_client.Server.{
  ServerSession, SessionOutput, none, handle_event, next_action, time_request,
}
use snapcast_client.Server.Safety
use snapcast_client.Server.Safety.{AsksBounded, session_never_panics}
use snapcast_client.Server.Greeting
use snapcast_client.Server.Greeting.{IsGreeted, has_hello, requests_follow_hello}
use snapcast_client.Tests.Fixtures.{at, hello_json, header_of_time}

-- A session that was sent the header of a Time message.
abbrev pending_time : ServerSession
pending_time =
    (handle_event hello_json Server.new (header_received (header header_of_time)) (at 9 0)).0

session_never_panics_example :
    Returns (handle_event hello_json pending_time (packet_received (replicate 7 0)) (at 9 1)).1
    × AsksBounded (next_action pending_time)
unfolding handle_event header on_header Base.try_from TimeVal.as_buf slice slice_to_u16
    MessageType.try_from MessageType.as_u16 slice_to_u32 TimeVal.from_slice slice_to_i32
session_never_panics_example =
    session_never_panics
      (Safety.Reach.event Safety.Reach.start (header_received (header header_of_time)) (at 9 0) tt
        refl)
      (packet_received (replicate 7 0)) (at 9 1) tt

requests_follow_hello_example :
    IsGreeted (none ∷ []) × (pending_time.greeted ≡ has_hello (none ∷ []))
unfolding handle_event header on_header Base.try_from TimeVal.as_buf slice slice_to_u16
    MessageType.try_from MessageType.as_u16 slice_to_u32 TimeVal.from_slice slice_to_i32
requests_follow_hello_example = requests_follow_hello {json = hello_json} (
    Greeting.Run.event Greeting.Run.start (header_received (header header_of_time)) (at 9 0) refl
      refl)
