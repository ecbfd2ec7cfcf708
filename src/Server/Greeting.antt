-- ===== src/Server/Greeting.antt =====
-- The greeting of src/server.rs, over the runs of events and outputs of a session.
use snapcast_client.Prelude.{
  ◌≡◌, refl, sym, ◌∙◌, Bool, true, false, List, [], ◌∷◌, Bool-cases, inl, inr,
}
use mathlib.Core.Path.{subst₂}
use snapcast_client.Outcome.{Outcome, ok, err, panic, stuck, ◌>>=◌}
use snapcast_client.Bytes.{Bytes}
use snapcast_client.TimeVal.{TimeVal}
use snapcast_client.Proto.Base.{Base}
use snapcast_client.Proto.Hello.{HelloJson}
use snapcast_client.Proto.Message.{ClientMessage, decode_c}
use snapcast_client.Framing.{Event, header_received, packet_received, on_header, take_base}
use snapcast_client.Server
use snapcast_client.Server.{
  ServerSession, SessionOutput, none, hello, time_request, on_message, on_packet, handle_event,
}

-- The outputs of a session, the latest first; a call that fails gives none.
abbrev pub outputs_of : Outcome SessionOutput → List SessionOutput
outputs_of (ok out) = out ∷ []
outputs_of (err e) = []
outputs_of panic = []
outputs_of stuck = []

abbrev pub append_outputs : Outcome SessionOutput → List SessionOutput → List SessionOutput
append_outputs (ok out) outs = out ∷ outs
append_outputs (err e) outs = outs
append_outputs panic outs = outs
append_outputs stuck outs = outs

abbrev pub has_hello : List SessionOutput → Bool
has_hello [] = false
has_hello (hello h ∷ outs) = true
has_hello (none ∷ outs) = has_hello outs
has_hello (time_request id sent received ∷ outs) = has_hello outs

-- Every time request stands after a hello.
abbrev pub IsGreeted : List SessionOutput → Type 0
IsGreeted [] = Unit
IsGreeted (hello h ∷ outs) = IsGreeted outs
IsGreeted (none ∷ outs) = IsGreeted outs
IsGreeted (time_request id sent received ∷ outs) = (has_hello outs ≡ true) × IsGreeted outs

-- A session with the outputs that it has given since it was new, for any events and clock.
pub data Run (json : HelloJson) : ServerSession → List SessionOutput → Type 0 where
  start : Run json Server.new []
  event :
      {s s' : ServerSession} {outs outs' : List SessionOutput}
      → Run json s outs
      → (ev : Event) (now : TimeVal) → (handle_event json s ev now).0 ≡ s'
      → append_outputs (handle_event json s ev now).1 outs ≡ outs'
      → Run json s' outs'

-- What a step keeps: the flag tells whether a hello was given, and requests follow hellos.
abbrev Kept : ServerSession → List SessionOutput → Type 0
Kept s outs = (s.greeted ≡ has_hello outs) × IsGreeted outs

message_keeps :
    (s : ServerSession) (base : Base) (now : TimeVal) (r : Outcome ClientMessage)
    (outs : List SessionOutput)
    → Kept s outs
    → let (s', out) = on_message s base now r in Kept s' (append_outputs out outs)
unfolding on_message
message_keeps s base now (ok (ClientMessage.hello h)) outs k = (refl, k.1)
message_keeps s base now (ok (ClientMessage.time x)) outs k = elim (Bool-cases s.greeted) [
  | inl e ↦ rw e (sym e ∙ k.0, (sym k.0 ∙ e, k.1))
  | inr e ↦ rw e (sym e ∙ k.0, k.1)
]
message_keeps s base now (err e) outs k = k
message_keeps s base now panic outs k = k
message_keeps s base now stuck outs k = k

packet_keeps :
    (json : HelloJson) (s : ServerSession) (bytes : Bytes) (now : TimeVal) (b : Outcome Base)
    (outs : List SessionOutput)
    → Kept s outs
    → let (s', out) = on_packet json s bytes now b in Kept s' (append_outputs out outs)
unfolding on_packet
packet_keeps json s bytes now (ok base) outs k =
    message_keeps s base now (decode_c json base bytes) outs k
packet_keeps json s bytes now (err e) outs k = k
packet_keeps json s bytes now panic outs k = k
packet_keeps json s bytes now stuck outs k = k

header_keeps :
    (s : ServerSession) (r : Outcome (Unit {0})) (outs : List SessionOutput)
    → Kept s outs
    → Kept s (append_outputs (r >>= λ _. ok none) outs)
header_keeps s (ok x) outs k = k
header_keeps s (err e) outs k = k
header_keeps s panic outs k = k
header_keeps s stuck outs k = k

event_keeps :
    (json : HelloJson) (s : ServerSession) (ev : Event) (now : TimeVal) (outs : List SessionOutput)
    → Kept s outs
    → let (s', out) = handle_event json s ev now in Kept s' (append_outputs out outs)
unfolding handle_event take_base
event_keeps json s (header_received bytes) now outs k =
    header_keeps (record s { framing = (on_header s.framing bytes).0 })
      (on_header s.framing bytes).1 outs k
event_keeps json s (packet_received bytes) now outs k =
    packet_keeps json (record s { framing = (take_base s.framing).0 }) bytes now
      (take_base s.framing).1 outs k

Run-Kept :
    {json : HelloJson} {s : ServerSession} {outs : List SessionOutput}
    → Run json s outs
    → Kept s outs
Run-Kept start = (refl, tt)
Run-Kept {json} (event {s = s} {outs = outs} r ev now e f) =
    subst₂ Kept e f (event_keeps json s ev now outs (Run-Kept r))

-- In every run of a session, with any events, each time request that it gave was given after a
-- hello, and its flag `greeted` says whether it has given a hello.
pub requests_follow_hello :
    {json : HelloJson} {s : ServerSession} {outs : List SessionOutput}
    → Run json s outs
    → IsGreeted outs × (s.greeted ≡ has_hello outs)
requests_follow_hello r = let (flag, greeted) = Run-Kept r in (greeted, flag)
