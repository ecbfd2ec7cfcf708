-- ===== src/Server.antt =====
-- src/server.rs: the protocol of one connected client, seen from the server.
pub mod Safety
pub mod Exchange
pub mod Greeting
use snapcast_client.Prelude.{ℕ, Bool, true, false, not, if◌then◌else◌}
use snapcast_client.Outcome.{Outcome, Error, ok, err, panic, stuck, ◌>>=◌}
use snapcast_client.Bytes.{Bytes}
use snapcast_client.TimeVal.{TimeVal}
use snapcast_client.Proto.Base.{Base}
use snapcast_client.Proto.Hello.{ClientHello, HelloJson}
use snapcast_client.Proto.Message.{ClientMessage, decode_c}
use snapcast_client.Framing
use snapcast_client.Framing.{
  Framing, Action, Event, header_received, packet_received, on_header, take_base,
}

pub data SessionOutput : Type 0 where
  none : SessionOutput
  hello : ClientHello → SessionOutput
  -- The request's id, the client's stamp and the server's arrival time.
  time_request : ℕ → TimeVal → TimeVal → SessionOutput

pub record ServerSession : Type 0 where
  pub framing : Framing
  pub greeted : Bool

abbrev pub new : ServerSession
new = record { framing = Framing.new; greeted = false }

unfoldable pub next_action : ServerSession → Action
next_action s = Framing.next_action s.framing

-- The `match` on the decoded message.
unfoldable pub on_message :
    ServerSession → Base → TimeVal → Outcome ClientMessage → ServerSession × Outcome SessionOutput
on_message s base now (ok (ClientMessage.hello h)) = (record s { greeted = true }, ok (hello h))
on_message s base now (ok (ClientMessage.time _)) =
    if not s.greeted
    then (s, err Error.time_before_hello)
    else (s, ok (time_request base.id base.sent_tv now))
on_message s base now (err e) = (s, err e)
on_message s base now panic = (s, panic)
on_message s base now stuck = (s, stuck)

unfoldable pub on_packet :
    HelloJson
    → ServerSession
    → Bytes
    → TimeVal
    → Outcome Base
    → ServerSession × Outcome SessionOutput
unfolding on_message
on_packet json s bytes now (ok base) = on_message s base now (decode_c json base bytes)
on_packet json s bytes now (err e) = (s, err e)
on_packet json s bytes now panic = (s, panic)
on_packet json s bytes now stuck = (s, stuck)

unfoldable pub handle_event :
    HelloJson → ServerSession → Event → TimeVal → ServerSession × Outcome SessionOutput
unfolding on_packet
handle_event json s (header_received bytes) now =
    let (framing, r) = on_header s.framing bytes in
    (record s { framing = framing }, r >>= λ _. ok none)
handle_event json s (packet_received bytes) now =
    let (framing, base) = take_base s.framing in
    on_packet json (record s { framing = framing }) bytes now base
