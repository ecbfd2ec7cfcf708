-- ===== src/Net/Connection/Current.antt =====
-- The id that a connection of server/src/net.rs takes for its own, and the ids it has registered.
use snapcast_client.Prelude.{
  ℕ, ◌≡◌, refl, Bool, Bool-cases, true, false, inl, inr, ◌⊎◌, Option, none, some, List, [], ◌∷◌,
  length, take, drop, leb, first,
}
use snapcast_client.Outcome.{Outcome, Error, ok, err, panic, stuck}
use snapcast_client.Bytes.{Bytes}
use snapcast_client.Proto.Hello.{HelloJson}
use snapcast_client.Framing.{Action, read_header, read_packet, header_received, packet_received}
use snapcast_client.Server.{ServerSession, SessionOutput, handle_event, next_action}
use snapcast_client.Net.Writer.{Outbound, settings, codec_header, time_reply}
use snapcast_client.Net.Registry.{
  Registry, ClientHandle, Sent, accepted, full, disconnected, register, current_settings, try_send,
}
use snapcast_client.Net.Connection.{
  Connection, Round, Stepped, find, sent_to, send_to, send, after_send, on_output, welcome,
  send_codec, on_time_request, with_output, wanted, on_bytes, next_round, reader_loop,
}

-- A send to a client found its channel closed, or waited for ever.
abbrev pub SendFailed {ℓ} : {A : Type ℓ} → Outcome A → Type ℓ
SendFailed o = (o ≡ err Error.channel_closed) ⊎ (o ≡ stuck)

-- It takes the id that it registered last for its own, unless a send failed.
abbrev pub IsCurrent : Stepped → Type 0
IsCurrent ((c, r), result) = SendFailed result ⊎ (c.my_id ≡ first c.registered)

abbrev IsSent : Outcome Registry → Type 0
IsSent o = SendFailed o ⊎ ((r : Registry) × (o ≡ ok r))

send-IsSent :
    (orphan_sends : Bool) (id : ℕ) (msg : Outbound) (r : Registry)
    → IsSent (send orphan_sends id msg r)
unfolding send
send-IsSent orphan_sends id msg r = by_client (find id r.clients)
  where
    by_sent : (t : Sent) → IsSent (sent_to id msg r t)
    by_sent (accepted queue) = inr (_, refl)
    by_sent full = inl (inr refl)
    by_sent disconnected = inl (inl refl)

    by_orphan : (b : Bool) → IsSent (send_to b id msg r none)
    by_orphan true = inr (r, refl)
    by_orphan false = inl (inl refl)

    by_client : (o : Option ClientHandle) → IsSent (send_to orphan_sends id msg r o)
    by_client none = by_orphan orphan_sends
    by_client (some x) = by_sent (try_send x msg)

after_send-IsCurrent :
    (c : Connection) (r : Registry) (o : Outcome Registry) (rest : Registry → Stepped)
    → IsSent o
    → ((r' : Registry) → IsCurrent (rest r'))
    → IsCurrent (after_send c r o rest)
after_send-IsCurrent c r o rest (inl (inl closed)) k = rw closed (inl (inl refl))
after_send-IsCurrent c r o rest (inl (inr waits)) k = rw waits (inl (inr refl))
after_send-IsCurrent c r o rest (inr (r', sent)) k = rw sent (k r')

welcome-IsCurrent :
    (m : Round) (c : Connection) (id : ℕ) (r : Registry)
    → some id ≡ first c.registered
    → IsCurrent (welcome m c id r)
welcome-IsCurrent m c id r latest =
    let r1 = m.before_first r in
    let msg = settings (current_settings r1) in
    after_send-IsCurrent c r1 (send m.orphan_sends id msg r1) (send_codec m c id)
      (send-IsSent m.orphan_sends id msg r1)
      (λ r2.
        let r3 = m.before_second r2 in
        after_send-IsCurrent c r3 (send m.orphan_sends id codec_header r3)
          (λ r4. ((record c { my_id = some id; my_tx = some id }, r4), ok tt))
          (send-IsSent m.orphan_sends id codec_header r3) (λ r4. inr latest))

on_output-IsCurrent :
    (m : Round) (c : Connection) (r : Registry) (out : SessionOutput)
    → c.my_id ≡ first c.registered
    → IsCurrent (on_output m c r out)
unfolding on_output
on_output-IsCurrent m c r SessionOutput.none h = inr h
on_output-IsCurrent m c r (SessionOutput.hello x) h =
    welcome-IsCurrent m (record c { registered = (register r).1 ∷ c.registered }) (register r).1
      (register r).0 refl
on_output-IsCurrent m c r (SessionOutput.time_request id sent received) h = by_tx c.my_tx
  where
    by_tx : (tx : Option ℕ) → IsCurrent (on_time_request m c r (time_reply id sent received) tx)
    by_tx none = inr h
    by_tx (some tx) =
        after_send-IsCurrent c r (send m.orphan_sends tx (time_reply id sent received) r)
          (λ r'. ((c, r'), ok tt)) (send-IsSent m.orphan_sends tx (time_reply id sent received) r)
          (λ r'. inr h)

with_output-IsCurrent :
    (c : Connection) (r : Registry) (x : ServerSession × Outcome SessionOutput)
    (rest : Connection → SessionOutput → Stepped)
    → c.my_id ≡ first c.registered
    → ((out : SessionOutput) → IsCurrent (rest (record c { session = x.0 }) out))
    → IsCurrent (with_output c r x rest)
with_output-IsCurrent c r (s, ok out) rest h k = k out
with_output-IsCurrent c r (s, err e) rest h k = inr h
with_output-IsCurrent c r (s, panic) rest h k = inr h
with_output-IsCurrent c r (s, stuck) rest h k = inr h

module _ (json : HelloJson) where
  on_bytes-IsCurrent :
      (m : Round) (c : Connection) (r : Registry) (bytes : Bytes) (a : Action)
      → c.my_id ≡ first c.registered
      → IsCurrent (on_bytes json m c r bytes a)
  on_bytes-IsCurrent m c r bytes read_header h =
      with_output-IsCurrent c r (handle_event json c.session (header_received bytes) m.now)
        (λ c1 out. ((c1, r), ok tt)) h (λ out. inr h)
  on_bytes-IsCurrent m c r bytes (read_packet size) h =
      let x = handle_event json c.session (packet_received bytes) m.now in
      with_output-IsCurrent c r x (λ c1 out. on_output m c1 r out) h
        (λ out. on_output-IsCurrent m (record c { session = x.0 }) r out h)

  next_round-IsCurrent :
      (again : Connection → Registry → Stepped) (x : Stepped)
      → IsCurrent x
      → ((c : Connection) (r : Registry) → c.my_id ≡ first c.registered → IsCurrent (again c r))
      → IsCurrent (next_round json again x)
  next_round-IsCurrent again ((c, r), ok u) (inl (inl e)) k = absurd (cc)
  next_round-IsCurrent again ((c, r), ok u) (inl (inr e)) k = absurd (cc)
  next_round-IsCurrent again ((c, r), ok u) (inr h) k = k c r h
  next_round-IsCurrent again ((c, r), err e) h k = h
  next_round-IsCurrent again ((c, r), panic) h k = h
  next_round-IsCurrent again ((c, r), stuck) h k = h

  pub reader_loop-IsCurrent :
      (ms : List Round) (c : Connection) (r : Registry) (incoming : Bytes)
      → c.my_id ≡ first c.registered
      → IsCurrent (reader_loop json ms c r incoming)
  unfolding reader_loop
  reader_loop-IsCurrent [] c r incoming h = inr h
  reader_loop-IsCurrent (m ∷ ms) c r incoming h =
      let size = wanted (next_action c.session) in
      elim (Bool-cases (leb size (length incoming))) [
        | inr short ↦ rw (short, reader_loop) (inr h)
        | inl enough ↦
            rw (enough, reader_loop)
              (next_round-IsCurrent (λ c2 r2. reader_loop json ms c2 r2 (drop size incoming))
                (on_bytes json m c (m.during_read r) (take size incoming) (next_action c.session))
                (on_bytes-IsCurrent m c (m.during_read r) (take size incoming)
                  (next_action c.session) h)
                (λ c2 r2 h2. reader_loop-IsCurrent ms c2 r2 (drop size incoming) h2))
      ]
