-- ===== src/Server/Safety.antt =====
-- src/server.rs with any bytes of a client, and a driver that feeds what is asked for.
use snapcast_client.Prelude.{
  ◌+◌, ◌≤◌, ◌≡◌, refl, subst, Bool-cases, arith, Option, none, some, length, inl, inr, le→leb,
  lt→leb_false,
}
use native.Mathlib.Decide.{dec_lt}
use snapcast_client.Outcome.{Outcome, Error, ok, err, panic, stuck, ◌>>=◌, Returns}
use snapcast_client.Bytes.{Bytes}
use snapcast_client.Bytes.Slices.{slice_fits, u32_at, slice_to_u32_fits}
use snapcast_client.TimeVal.{TimeVal}
use snapcast_client.Proto.MessageType.{MessageType}
use snapcast_client.Proto.Base.{Base, max_payload}
use snapcast_client.Proto.Time
use snapcast_client.Proto.Hello
use snapcast_client.Proto.Hello.{ClientHello, HelloJson, or_err}
use snapcast_client.Proto.Message.{ClientMessage, decode_c, decode_c_as}
use snapcast_client.Framing
use snapcast_client.Framing.{
  Framing, FramingState, reading_header, reading_packet, Action, Event, header_received,
  packet_received, read_header, read_packet, on_header, take_base, IsPending, IsBounded,
  on_header_safe,
}
use snapcast_client.Server
use snapcast_client.Server.{
  ServerSession, SessionOutput, hello, time_request, on_message, on_packet, handle_event,
  next_action,
}

or_err-Returns : (o : Option ClientHello) (e : Error) → Returns (or_err o e)
or_err-Returns none e = tt
or_err-Returns (some h) e = tt

-- No payload makes the parser of a hello panic.
pub hello-Returns : (json : HelloJson) (buf : Bytes) → Returns (Hello.try_from json buf)
unfolding Hello.try_from
hello-Returns json buf = elim (dec_lt (length buf) 4) [
  | yes short ↦ rw (lt→leb_false 4 (length buf) short) tt
  | no long ↦
      rw (le→leb 4 (length buf) (omega arith), slice_to_u32_fits buf (omega arith))
        (elim (dec_lt (length buf) (u32_at 0 buf + 4)) [
          | yes beyond ↦ rw (lt→leb_false (u32_at 0 buf + 4) (length buf) beyond) tt
          | no within ↦
              rw
                (
                  le→leb (u32_at 0 buf + 4) (length buf) (omega arith),
                  slice_fits 4 (u32_at 0 buf + 4) buf (omega arith) (omega arith),
                )
                (or_err-Returns (json.from_slice _) Error.invalid_hello)
        ])
]

time-Returns : (buf : Bytes) → Returns (Time.try_from buf)
time-Returns buf = elim (dec_lt (length buf) 8) [
  | yes short ↦ rw ((Time.try_from-eq buf).0 short) tt
  | no long ↦ rw ((Time.try_from-eq buf).1 (omega arith)) tt
]

-- No header and no payload make `decode_c` panic.
pub decode_c-Returns :
    (json : HelloJson) (base : Base) (payload : Bytes) → Returns (decode_c json base payload)
unfolding decode_c
decode_c-Returns json base payload = by_type base.mtype
  where
    then_ok : {A B : Type 0} (m : Outcome A) (f : A → B) → Returns m → Returns (m >>= λ a. ok (f a))
    then_ok (ok a) f h = tt
    then_ok (err e) f h = tt
    then_ok panic f h = h
    then_ok stuck f h = h

    by_type : (m : MessageType) → Returns (decode_c_as json m payload)
    by_type MessageType.hello =
        then_ok (Hello.try_from json payload) ClientMessage.hello (hello-Returns json payload)
    by_type MessageType.time =
        then_ok (Time.try_from payload) ClientMessage.time (time-Returns payload)
    by_type MessageType.base = tt
    by_type MessageType.codec_header = tt
    by_type MessageType.wire_chunk = tt
    by_type MessageType.server_settings = tt
    by_type MessageType.stream_tags = tt
    by_type MessageType.client_info = tt

-- The driver feeds what `next_action` asks for: a packet only when a header is pending.
abbrev pub Obeys : FramingState → Event → Type 0
Obeys s (header_received _) = Unit
Obeys s (packet_received _) = IsPending s

on_message-Returns :
    (s : ServerSession) (base : Base) (now : TimeVal) (r : Outcome ClientMessage)
    → Returns r
    → Returns (on_message s base now r).1
unfolding on_message
on_message-Returns s base now (ok (ClientMessage.hello h)) t = tt
on_message-Returns s base now (ok (ClientMessage.time x)) t = elim (Bool-cases s.greeted) [
  | inl e ↦ rw e tt
  | inr e ↦ rw e tt
]
on_message-Returns s base now (err e) t = tt
on_message-Returns s base now panic t = t
on_message-Returns s base now stuck t = t

on_message-framing :
    (s : ServerSession) (base : Base) (now : TimeVal) (r : Outcome ClientMessage)
    → (on_message s base now r).0.framing ≡ s.framing
unfolding on_message
on_message-framing s base now (ok (ClientMessage.hello h)) = refl
on_message-framing s base now (ok (ClientMessage.time x)) = elim (Bool-cases s.greeted) [
  | inl e ↦ rw e
  | inr e ↦ rw e
]
on_message-framing s base now (err e) = refl
on_message-framing s base now panic = refl
on_message-framing s base now stuck = refl

-- The next packet that a session asks for has at most 2 ^ 20 bytes.
abbrev pub AsksBounded : Action → Type 0
AsksBounded read_header = Unit
AsksBounded (read_packet size) = size ≤ max_payload

pub bounded-AsksBounded : (s : FramingState) → IsBounded s → AsksBounded (Framing.action_in s)
bounded-AsksBounded reading_header h = tt
bounded-AsksBounded (reading_packet base) h = h

packet_safe :
    (json : HelloJson) (s : ServerSession) (bytes : Bytes) (now : TimeVal) (st : FramingState)
    → IsPending st
    → Returns (on_packet json s bytes now (Framing.pending st)).1
      × ((on_packet json s bytes now (Framing.pending st)).0.framing ≡ s.framing)
unfolding on_packet
packet_safe json s bytes now reading_header h = absurd h
packet_safe json s bytes now (reading_packet base) h = (
  on_message-Returns s base now (decode_c json base bytes) (decode_c-Returns json base bytes),
  on_message-framing s base now (decode_c json base bytes),
)

header_safe : (r : Outcome (Unit {0})) → Returns r → Returns (r >>= λ _. ok SessionOutput.none)
header_safe (ok x) h = tt
header_safe (err e) h = tt
header_safe panic h = h
header_safe stuck h = h

-- One event from a driver that obeys: no panic, and the payload limit still holds.
pub handle_event_safe :
    (json : HelloJson) (s : ServerSession) (ev : Event) (now : TimeVal)
    → Obeys s.framing.state ev
    → IsBounded s.framing.state
    → Returns (handle_event json s ev now).1
      × IsBounded (handle_event json s ev now).0.framing.state
unfolding handle_event take_base
handle_event_safe json s (header_received bytes) now obeys bounded =
    let (back, limit) = on_header_safe s.framing bytes bounded in
    (header_safe (on_header s.framing bytes).1 back, limit)
handle_event_safe json s (packet_received bytes) now obeys bounded =
    let (back, same) =
      packet_safe json (record s { framing = record { state = reading_header } }) bytes now
        s.framing.state obeys in
    (back, rw same tt)

-- The sessions that a driver can bring about with any bytes, if it feeds what is asked for.
pub data Reach (json : HelloJson) : ServerSession → Type 0 where
  start : Reach json Server.new
  event :
      {s s' : ServerSession}
      → Reach json s
      → (ev : Event) (now : TimeVal) → Obeys s.framing.state ev
      → (handle_event json s ev now).0 ≡ s'
      → Reach json s'

Reach-IsBounded : {json : HelloJson} {s : ServerSession} → Reach json s → IsBounded s.framing.state
Reach-IsBounded start = tt
Reach-IsBounded {json} (event {s = s} r ev now obeys e) =
    subst (λ t. IsBounded t.framing.state) e
      (handle_event_safe json s ev now obeys (Reach-IsBounded r)).1

-- Whatever bytes a client sends, a driver that feeds what `next_action` asks for meets no panic,
-- and is never asked to read more than 2 ^ 20 bytes.
pub session_never_panics :
    {json : HelloJson} {s : ServerSession}
    → Reach json s
    → (ev : Event) (now : TimeVal) → Obeys s.framing.state ev
    → Returns (handle_event json s ev now).1 × AsksBounded (next_action s)
unfolding next_action Framing.next_action
session_never_panics {json} {s} r ev now obeys = (
  (handle_event_safe json s ev now obeys (Reach-IsBounded r)).0,
  bounded-AsksBounded s.framing.state (Reach-IsBounded r),
)
