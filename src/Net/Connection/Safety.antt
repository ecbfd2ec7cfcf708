-- ===== src/Net/Connection/Safety.antt =====
-- `run_reader` of server/src/net.rs with any bytes.
use snapcast_client.Prelude.{
  ℕ, ◌≡◌, refl, Bool, true, false, Bool-cases, inl, inr, Option, none, some, List, [], ◌∷◌, length,
  take, drop, leb,
}
use snapcast_client.Outcome.{Outcome, ok, err, panic, stuck, Returns}
use snapcast_client.Bytes.{Bytes}
use snapcast_client.Proto.Hello.{HelloJson}
use snapcast_client.Framing
use snapcast_client.Framing.{
  FramingState, reading_header, reading_packet, Action, Event, read_header, read_packet,
  header_received, packet_received, IsBounded,
}
use snapcast_client.Server.{ServerSession, SessionOutput, next_action}
use snapcast_client.Server.Safety.{handle_event_safe}
use snapcast_client.Net.Writer.{Outbound, settings, codec_header}
use snapcast_client.Net.Registry.{
  Registry, ClientHandle, Sent, accepted, full, disconnected, register, current_settings, try_send,
}
use snapcast_client.Net.Connection.{
  Connection, Round, Stepped, find, sent_to, send_to, send, after_send, on_output, welcome,
  send_codec, on_time_request, with_output, wanted, on_bytes, next_round, reader_loop, connected,
  run_reader,
}

abbrev pub NoPanic {ℓ} : {A : Type ℓ} → Outcome A → Type 0
NoPanic (ok a) = Unit
NoPanic (err e) = Unit
NoPanic panic = ⊥
NoPanic stuck = Unit

-- No panic, and a session whose pending payload is within the limit.
abbrev IsSafe : Stepped → Type 0
IsSafe ((c, r), result) = NoPanic result × IsBounded c.session.framing.state

send-NoPanic :
    (orphan_sends : Bool) (id : ℕ) (msg : Outbound) (r : Registry)
    → NoPanic (send orphan_sends id msg r)
unfolding send
send-NoPanic orphan_sends id msg r = by_client (find id r.clients)
  where
    by_sent : (t : Sent) → NoPanic (sent_to id msg r t)
    by_sent (accepted queue) = tt
    by_sent full = tt
    by_sent disconnected = tt

    by_orphan : (b : Bool) → NoPanic (send_to b id msg r none)
    by_orphan true = tt
    by_orphan false = tt

    by_client : (o : Option ClientHandle) → NoPanic (send_to orphan_sends id msg r o)
    by_client none = by_orphan orphan_sends
    by_client (some h) = by_sent (try_send h msg)

after_send-IsSafe :
    (c : Connection) (r : Registry) (o : Outcome Registry) (rest : Registry → Stepped)
    → IsBounded c.session.framing.state
    → NoPanic o
    → ((r' : Registry) → IsSafe (rest r'))
    → IsSafe (after_send c r o rest)
after_send-IsSafe c r (ok r') rest h n k = k r'
after_send-IsSafe c r (err e) rest h n k = (tt, h)
after_send-IsSafe c r panic rest h n k = absurd n
after_send-IsSafe c r stuck rest h n k = (tt, h)

welcome-IsSafe :
    (m : Round) (c : Connection) (id : ℕ) (r : Registry)
    → IsBounded c.session.framing.state
    → IsSafe (welcome m c id r)
welcome-IsSafe m c id r h =
    let r1 = m.before_first r in
    let msg = settings (current_settings r1) in
    after_send-IsSafe c r1 (send m.orphan_sends id msg r1) (send_codec m c id) h
      (send-NoPanic m.orphan_sends id msg r1)
      (λ r2.
        let r3 = m.before_second r2 in
        after_send-IsSafe c r3 (send m.orphan_sends id codec_header r3)
          (λ r4. ((record c { my_id = some id; my_tx = some id }, r4), ok tt)) h
          (send-NoPanic m.orphan_sends id codec_header r3) (λ r4. (tt, h)))

on_output-IsSafe :
    (m : Round) (c : Connection) (r : Registry) (out : SessionOutput)
    → IsBounded c.session.framing.state
    → IsSafe (on_output m c r out)
unfolding on_output
on_output-IsSafe m c r SessionOutput.none h = (tt, h)
on_output-IsSafe m c r (SessionOutput.hello x) h =
    welcome-IsSafe m (record c { registered = (register r).1 ∷ c.registered }) (register r).1
      (register r).0 h
on_output-IsSafe m c r (SessionOutput.time_request id sent received) h = by_tx c.my_tx
  where
    by_tx :
        (tx : Option ℕ) → IsSafe (on_time_request m c r (Outbound.time_reply id sent received) tx)
    by_tx none = (tt, h)
    by_tx (some tx) =
        after_send-IsSafe c r (send m.orphan_sends tx (Outbound.time_reply id sent received) r)
          (λ r'. ((c, r'), ok tt)) h
          (send-NoPanic m.orphan_sends tx (Outbound.time_reply id sent received) r) (λ r'. (tt, h))

with_output-IsSafe :
    (c : Connection) (r : Registry) (x : ServerSession × Outcome SessionOutput)
    (rest : Connection → SessionOutput → Stepped)
    → Returns x.1
    → IsBounded x.0.framing.state
    → ((out : SessionOutput) → IsSafe (rest (record c { session = x.0 }) out))
    → IsSafe (with_output c r x rest)
with_output-IsSafe c r (s, ok out) rest t h k = k out
with_output-IsSafe c r (s, err e) rest t h k = (tt, h)
with_output-IsSafe c r (s, panic) rest t h k = absurd t
with_output-IsSafe c r (s, stuck) rest t h k = absurd t

module _ (json : HelloJson) where
  on_bytes-IsSafe :
      (m : Round) (c : Connection) (r : Registry) (bytes : Bytes) (st : FramingState)
      → c.session.framing.state ≡ st
      → IsBounded c.session.framing.state
      → IsSafe (on_bytes json m c r bytes (Framing.action_in st))
  on_bytes-IsSafe m c r bytes reading_header e h =
      let (back, limit) = handle_event_safe json c.session (header_received bytes) m.now tt h in
      with_output-IsSafe c r _ _ back limit (λ out. (tt, limit))
  on_bytes-IsSafe m c r bytes (reading_packet base) e h =
      let (back, limit) =
        handle_event_safe json c.session (packet_received bytes) m.now (rw e tt) h in
      with_output-IsSafe c r _ _ back limit (λ out. on_output-IsSafe m _ r out limit)

  next_round-IsSafe :
      (again : Connection → Registry → Stepped) (x : Stepped)
      → IsSafe x
      → ((c : Connection) (r : Registry) → IsBounded c.session.framing.state → IsSafe (again c r))
      → IsSafe (next_round json again x)
  next_round-IsSafe again ((c, r), ok u) h k = k c r h.1
  next_round-IsSafe again ((c, r), err e) h k = h
  next_round-IsSafe again ((c, r), panic) h k = h
  next_round-IsSafe again ((c, r), stuck) h k = h

  reader_loop-IsSafe :
      (ms : List Round) (c : Connection) (r : Registry) (incoming : Bytes)
      → IsBounded c.session.framing.state
      → IsSafe (reader_loop json ms c r incoming)
  unfolding reader_loop next_action Framing.next_action
  reader_loop-IsSafe [] c r incoming h = (tt, h)
  reader_loop-IsSafe (m ∷ ms) c r incoming h =
      elim (Bool-cases (leb (wanted (next_action c.session)) (length incoming))) [
        | inr short ↦ rw (short, reader_loop) (tt, h)
        | inl enough ↦
            rw (enough, reader_loop)
              (next_round-IsSafe
                (λ c2 r2.
                  reader_loop json ms c2 r2 (drop (wanted (next_action c.session)) incoming))
                (on_bytes json m c (m.during_read r)
                  (take (wanted (next_action c.session)) incoming) (next_action c.session))
                (on_bytes-IsSafe m c (m.during_read r)
                  (take (wanted (next_action c.session)) incoming) c.session.framing.state refl h)
                (λ c2 r2 h2.
                  reader_loop-IsSafe ms c2 r2 (drop (wanted (next_action c.session)) incoming) h2))
      ]

  -- Whatever bytes a client sends, and whatever the other threads do to the registry meanwhile, the
  -- thread that reads them does not panic.
  pub run_reader-NoPanic :
      (ms : List Round) (r : Registry) (incoming : Bytes)
      → NoPanic (run_reader json ms r incoming).1
  unfolding run_reader
  run_reader-NoPanic ms r incoming = (reader_loop-IsSafe ms (connected json) r incoming tt).0
