-- ===== src/Net/Connection.antt =====
-- `run_reader` and `reader_loop` of server/src/net.rs: the thread that reads what one client sends.
-- The registry is shared: what the other threads do to it meanwhile is an argument.
pub mod Safety
pub mod Current
pub mod Leaving
pub mod Second
use snapcast_client.Prelude.{
  ℕ, Bool, true, false, if◌then◌else◌, leb, ◌==◌, Option, none, some, List, [], ◌∷◌, length, take,
  drop,
}
use snapcast_client.Outcome.{Outcome, Error, ok, err, panic, stuck}
use snapcast_client.Bytes.{Bytes}
use snapcast_client.TimeVal.{TimeVal}
use snapcast_client.Proto.Base.{base_size}
use snapcast_client.Proto.Hello.{HelloJson}
use snapcast_client.Framing.{Action, read_header, read_packet, header_received, packet_received}
use snapcast_client.Server
use snapcast_client.Server.{ServerSession, SessionOutput, handle_event, next_action}
use snapcast_client.Net.Writer.{Outbound, settings, codec_header, time_reply}
use snapcast_client.Net.Registry.{
  Registry, Clients, ClientHandle, Sent, accepted, full, disconnected, register, unregister,
  current_settings, try_send, sent_blocking, on_client,
}

-- `my_tx` is the id of the client whose channel it sends to. `registered` records the ids that the
-- connection has registered, the last first; the program keeps no such list.
pub record Connection : Type 0 where
  pub session : ServerSession
  pub my_id : Option ℕ
  pub my_tx : Option ℕ
  pub registered : List ℕ

-- One round of the loop: what the clock reads, what the other threads do to the registry while the
-- thread waits for bytes, for the first send and for the second, and whether a send goes through
-- whose client is no longer registered.
pub record Round : Type 0 where
  pub now : TimeVal
  pub during_read : Registry → Registry
  pub before_first : Registry → Registry
  pub before_second : Registry → Registry
  pub orphan_sends : Bool

abbrev pub Stepped : Type 0
Stepped = (Connection × Registry) × Outcome (Unit {0})

unfoldable pub find : ℕ → Clients → Option ClientHandle
find id [] = none
find id (c ∷ cs) = let rest = find id cs in if c.0 == id then some c.1 else rest

-- A send to a channel without room waits; it is `stuck` where none comes.
abbrev pub sent_to : ℕ → Outbound → Registry → Sent → Outcome Registry
sent_to id msg r (accepted queue) = ok (on_client id (sent_blocking msg) r)
sent_to id msg r full = stuck
sent_to id msg r disconnected = err Error.channel_closed

abbrev pub send_to : Bool → ℕ → Outbound → Registry → Option ClientHandle → Outcome Registry
send_to orphan_sends id msg r none = if orphan_sends then ok r else err Error.channel_closed
send_to orphan_sends id msg r (some h) = sent_to id msg r (try_send h msg)

-- `tx.send(msg)` on the channel of a client.
unfoldable pub send : Bool → ℕ → Outbound → Registry → Outcome Registry
unfolding find
send orphan_sends id msg r = send_to orphan_sends id msg r (find id r.clients)

-- The `?` behind a send: the connection and the registry as they are, or what follows.
abbrev pub after_send : Connection → Registry → Outcome Registry → (Registry → Stepped) → Stepped
after_send c r (ok r') rest = rest r'
after_send c r (err e) rest = ((c, r), err e)
after_send c r panic rest = ((c, r), panic)
after_send c r stuck rest = ((c, r), stuck)

-- The second of the two sends to a fresh client.
abbrev pub send_codec : Round → Connection → ℕ → Registry → Stepped
send_codec m c id r2 =
    let r3 = m.before_second r2 in
    after_send c r3 (send m.orphan_sends id codec_header r3)
      λ r4. ((record c { my_id = some id; my_tx = some id }, r4), ok tt)

-- The settings, then the codec header.
abbrev pub welcome : Round → Connection → ℕ → Registry → Stepped
welcome m c id r0 =
    let r1 = m.before_first r0 in
    after_send c r1 (send m.orphan_sends id (settings (current_settings r1)) r1) (send_codec m c id)

abbrev pub on_hello : Round → Connection → Registry → Stepped
on_hello m c r =
    let (r0, id) = register r in welcome m (record c { registered = id ∷ c.registered }) id r0

abbrev pub on_time_request : Round → Connection → Registry → Outbound → Option ℕ → Stepped
on_time_request m c r reply none = ((c, r), ok tt)
on_time_request m c r reply (some tx) =
    after_send c r (send m.orphan_sends tx reply r) λ r'. ((c, r'), ok tt)

-- The `match out`.
unfoldable pub on_output : Round → Connection → Registry → SessionOutput → Stepped
unfolding send
on_output m c r SessionOutput.none = ((c, r), ok tt)
on_output m c r (SessionOutput.hello h) = on_hello m c r
on_output m c r (SessionOutput.time_request id client_sent received) =
    on_time_request m c r (time_reply id client_sent received) c.my_tx

-- The session after an event, and what follows if there was no error.
abbrev pub with_output :
    Connection
    → Registry
    → ServerSession × Outcome SessionOutput
    → (Connection → SessionOutput → Stepped)
    → Stepped
with_output c r (s, ok out) rest = rest (record c { session = s }) out
with_output c r (s, err e) rest = ((record c { session = s }, r), err e)
with_output c r (s, panic) rest = ((record c { session = s }, r), panic)
with_output c r (s, stuck) rest = ((record c { session = s }, r), stuck)

abbrev pub wanted : Action → ℕ
wanted read_header = base_size
wanted (read_packet size) = size

module _ (json : HelloJson) where
  -- The two arms of the `match` on the next action, with the bytes that were read.
  abbrev pub on_bytes : Round → Connection → Registry → Bytes → Action → Stepped
  on_bytes m c r bytes read_header =
      with_output c r (handle_event json c.session (header_received bytes) m.now)
        λ c1 out. ((c1, r), ok tt)
  on_bytes m c r bytes (read_packet size) =
      with_output c r (handle_event json c.session (packet_received bytes) m.now)
        λ c1 out. on_output m c1 r out

  abbrev pub next_round : (Connection → Registry → Stepped) → Stepped → Stepped
  next_round again ((c, r), ok u) = again c r
  next_round again ((c, r), err e) = ((c, r), err e)
  next_round again ((c, r), panic) = ((c, r), panic)
  next_round again ((c, r), stuck) = ((c, r), stuck)

  -- The loop over the bytes that the client sends until it closes the connection, which fails a read.
  pub reader_loop : List Round → Connection → Registry → Bytes → Stepped
  reader_loop [] c r incoming = ((c, r), err Error.connection_failed)
  reader_loop (m ∷ ms) c r incoming =
      let size = wanted (next_action c.session) in
      let r1 = m.during_read r in
      elim (leb size (length incoming)) [
        | false ↦ ((c, r1), err Error.connection_failed)
        | true ↦
            next_round (λ c2 r2. reader_loop ms c2 r2 (drop size incoming))
              (on_bytes m c r1 (take size incoming) (next_action c.session))
      ]

  abbrev pub connected : Connection
  connected = record { session = Server.new; my_id = none; my_tx = none; registered = [] }

  abbrev pub unregister_mine : Option ℕ → Registry → Registry
  unregister_mine none r = r
  unregister_mine (some id) r = unregister id r

  -- The connection when it ends, the registry that it leaves, and the outcome.
  unfoldable pub run_reader : List Round → Registry → Bytes → Stepped
  unfolding reader_loop
  run_reader ms r incoming =
      let ((c, r1), result) = reader_loop ms connected r incoming in
      ((c, unregister_mine c.my_id r1), result)
