-- ===== src/Framing.antt =====
-- src/framing.rs: a header of 26 bytes announces the length of the payload that follows it. A call
-- that fails leaves the state that it had reached, so each gives the state beside its outcome.
use snapcast_client.Prelude.{ℕ, ◌≡◌, ◌≤◌, refl}
use snapcast_client.Outcome.{Outcome, ok, err, panic, stuck, Returns}
use snapcast_client.Bytes.{Bytes}
use snapcast_client.Proto.Base
use snapcast_client.Proto.Base.{Base, max_payload}
use snapcast_client.Proto.Base.Parse.{try_from-Returns, try_from-bounds}

pub data Action : Type 0 where
  read_header : Action
  read_packet : ℕ → Action

pub data Event : Type 0 where
  header_received : Bytes → Event
  packet_received : Bytes → Event

pub data FramingState : Type 0 where
  reading_header : FramingState
  reading_packet : Base → FramingState

pub record Framing : Type 0 where
  pub state : FramingState

abbrev pub new : Framing
new = record { state = reading_header }

abbrev pub action_in : FramingState → Action
action_in reading_header = read_header
action_in (reading_packet base) = read_packet base.size

unfoldable pub next_action : Framing → Action
next_action f = action_in f.state

-- The assignment of `on_header` is made only if the header is parsed.
abbrev pub store_header : Framing → Outcome Base → Framing × Outcome (Unit {0})
store_header f (ok base) = (record { state = reading_packet base }, ok tt)
store_header f (err e) = (f, err e)
store_header f panic = (f, panic)
store_header f stuck = (f, stuck)

unfoldable pub on_header : Framing → Bytes → Framing × Outcome (Unit {0})
on_header f bytes = store_header f (Base.try_from bytes)

abbrev pub pending : FramingState → Outcome Base
pending (reading_packet base) = ok base
pending reading_header = panic

-- `std::mem::replace` leaves the framing ready for the next header, before the `match`.
unfoldable pub take_base : Framing → Framing × Outcome Base
take_base f = (record { state = reading_header }, pending f.state)

-- A header is pending: what the driver ensures before it feeds a packet.
abbrev pub IsPending : FramingState → Type 0
IsPending reading_header = ⊥
IsPending (reading_packet _) = Unit

-- The payload that a pending header announces is within the limit.
abbrev pub IsBounded : FramingState → Type 0
IsBounded reading_header = Unit
IsBounded (reading_packet base) = base.size ≤ max_payload

-- No bytes make `on_header` panic, and the packet that is then asked for has at most 2 ^ 20 bytes.
pub on_header_safe :
    (f : Framing) (bytes : Bytes)
    → IsBounded f.state
    → Returns (on_header f bytes).1 × IsBounded (on_header f bytes).0.state
unfolding on_header
on_header_safe f bytes h = by_outcome (Base.try_from bytes) refl (try_from-Returns bytes)
  where
    by_outcome :
        (r : Outcome Base)
        → Base.try_from bytes ≡ r
        → Returns r
        → Returns (store_header f r).1 × IsBounded (store_header f r).0.state
    by_outcome (ok b) e t = (tt, (try_from-bounds bytes e).1)
    by_outcome (err x) e t = (tt, h)
    by_outcome panic e t = absurd t
    by_outcome stuck e t = absurd t
