-- ===== src/Client/Connected/Reads.antt =====
-- The loop of `tick` in src/client.rs that reads, on a message that has arrived in full.
use snapcast_client.Prelude.{
  ℕ, zero, suc, ◌≡◌, refl, sym, ◌∙◌, arith, ℤ, Option, none, some, ◌∷◌, ◌++◌, length, pos, ◌-ℤ◌,
  not, Bool-cases, inl, inr, take, take-append, drop-append, length-append, le→leb,
}
use snapcast_client.Outcome.{
  Outcome, ok, err, panic, stuck, ◌>>=◌, Ensures, Ensures-bind, Ensures-any, bind-congr, bind_assoc,
}
use snapcast_client.Word.{Profile, i64, as_i32}
use snapcast_client.Bytes.{Bytes}
use snapcast_client.TimeVal
use snapcast_client.TimeVal.{TimeVal, from_micros}
use snapcast_client.Proto.Base.{Base}
use snapcast_client.Proto.Base.RoundTrip.{IsBase, header}
use snapcast_client.Proto.Time
use snapcast_client.Proto.Settings.{SettingsJson, ServerSettings}
use snapcast_client.Proto.Message.{ServerMessage, decode}
use snapcast_client.Proto.Message.Frame.{parse_header}
use snapcast_client.Framing
use snapcast_client.Framing.{Framing, on_header, take_base}
use snapcast_client.Client.{
  ClientMachine, Message, on_message, handle_event, poll_transmit, on_time, measure, record_offset,
  on_settings, is_due, updated, nothing, server_settings, next_action, on_packet, process_packet,
}
use snapcast_client.Client.Offsets.{CircularBuffer, overwrite, median}
use snapcast_client.Client.Reply.{waiting}
use snapcast_client.Client.Connected.{
  ConnectedClient, Incoming, filled, read_exact, write_all, transmit, with_message, read_loop, tick,
}

read_exact_front :
    (n : ℕ) (xs rest : Bytes) (later : Incoming)
    → n ≡ length xs
    → read_exact n ((xs ++ rest) ∷ later) ≡ (filled xs, rest ∷ later)
unfolding read_exact
read_exact_front n xs rest later e = rw e (
    rw (
      le→leb (length xs) (length (xs ++ rest)) (omega (arith, length-append xs rest)),
      take-append xs rest,
      drop-append xs rest,
    ))

length-header : (b : Base) → 26 ≡ length (header b)
unfolding header TimeVal.as_buf
length-header b = refl

module _ {B : Type 0} (ring : CircularBuffer B) (p : Profile) where
  -- The machine waits for a header.
  abbrev pub Waits : ClientMachine B → Type 0
  Waits m = m.framing ≡ Framing.new

  on_time-Waits :
      (m : ClientMachine B) (b : Base) (now : TimeVal)
      → Waits m
      → Ensures Waits (on_time ring p m b now)
  unfolding on_time record_offset
  on_time-Waits m b now h =
      Ensures-bind (λ o. Unit {0}) Waits (measure ring p m b now) (λ o. record_offset ring m o)
        (Ensures-any _)
        (λ o _.
          Ensures-bind (λ o. Unit {0}) Waits
            (overwrite (ring.iter (ring.push_back m.latency_buf o)) m.sorted_latency_buf) _
            (Ensures-any _)
            (λ filled _.
              Ensures-bind (λ o. Unit {0}) Waits (median _ _) _ (Ensures-any _) (λ c _. h)))

  on_settings-Waits :
      (m : ClientMachine B) (s : ServerSettings) → Waits m → Ensures Waits (on_settings ring p m s)
  unfolding on_settings
  on_settings-Waits m s h =
      Ensures-bind (λ o. Unit {0}) Waits (TimeVal.from_millis p (as_i32 (pos s.buffer_ms))) _
        (Ensures-any _)
        (λ buffer _.
          Ensures-bind (λ o. Unit {0}) Waits (TimeVal.from_millis p (as_i32 (pos s.latency))) _
            (Ensures-any _) (λ latency _. h))

  updated-Waits :
      (m : ClientMachine B) (msg : Message) (r : Outcome (ClientMachine B))
      → Waits m
      → Ensures Waits r
      → Waits (updated ring m msg r).0
  updated-Waits m msg (ok m') h k = k
  updated-Waits m msg (err e) h k = h
  updated-Waits m msg panic h k = h
  updated-Waits m msg stuck h k = h

  pub on_message-Waits :
      (m : ClientMachine B) (b : Base) (now : TimeVal) (msg : ServerMessage)
      → Waits m
      → Waits (on_message ring p m b now (ok msg)).0
  unfolding on_message
  on_message-Waits m b now (ServerMessage.time t) h =
      updated-Waits m nothing (on_time ring p m b now) h (on_time-Waits m b now h)
  on_message-Waits m b now (ServerMessage.wire_chunk wc) h = h
  on_message-Waits m b now (ServerMessage.server_settings s) h =
      updated-Waits m (server_settings s) (on_settings ring p m s) h (on_settings-Waits m s h)
  on_message-Waits m b now (ServerMessage.codec_header ch) h = h

  poll_transmit-Waits :
      (m : ClientMachine B) (now_us : ℤ) (out : Bytes)
      → Waits m
      → Ensures (λ r. Waits r.0) (poll_transmit ring p m now_us out)
  unfolding poll_transmit
  poll_transmit-Waits m now_us out h =
      Ensures-bind (λ o. Unit {0}) (λ r. Waits r.0) (i64 p (now_us -ℤ m.last_time_sent_us)) _
        (Ensures-any _)
        (λ elapsed _. elim (Bool-cases (not (is_due ring m elapsed))) [
          | inl idle ↦ rw idle h
          | inr due ↦ rw due (
              Ensures-bind (λ o. Unit {0}) (λ r. Waits r.0)
                (Time.write out m.pkt_id 0 (from_micros now_us) (from_micros now_us)
                  (from_micros now_us))
                _ (Ensures-any _) (λ w _. h))
        ])

  write_all-Waits :
      (bytes : Bytes) (c : ConnectedClient B)
      → Waits c.machine
      → Ensures (λ c'. Waits c'.machine) (write_all bytes c)
  unfolding write_all
  write_all-Waits bytes c h = elim (Bool-cases c.is_open) [ inl e ↦ rw e h | inr e ↦ rw e tt ]

  after_poll-Waits :
      (k : ConnectedClient B → Outcome (ConnectedClient B)) (sent : Option ℕ) (buf : Bytes)
      (c1 : ConnectedClient B)
      → ((c2 : ConnectedClient B) → Waits c2.machine → Ensures (λ c'. Waits c'.machine) (k c2))
      → Waits c1.machine
      → Ensures
          (λ c'. Waits c'.machine)
          (elim sent as (λ _. Outcome (ConnectedClient B)) [
            | none ↦ ok c1
            | some n ↦ write_all (take n buf) c1 >>= k
          ])
  after_poll-Waits k none buf c1 keep h = h
  after_poll-Waits k (some n) buf c1 keep h =
      Ensures-bind (λ c'. Waits c'.machine) (λ c'. Waits c'.machine) (write_all (take n buf) c1) k
        (write_all-Waits (take n buf) c1 h) keep

  pub transmit-Waits :
      (fuel : ℕ) (c : ConnectedClient B) (tx_now : ℤ)
      → Waits c.machine
      → Ensures (λ c'. Waits c'.machine) (transmit ring p fuel c tx_now)
  unfolding transmit
  transmit-Waits zero c tx_now h = tt
  transmit-Waits (suc fuel) c tx_now h =
      Ensures-bind (λ r. Waits r.0) (λ c'. Waits c'.machine)
        (poll_transmit ring p c.machine tx_now c.tx_buf) _
        (poll_transmit-Waits c.machine tx_now c.tx_buf h)
        (λ r h'.
          after_poll-Waits (λ c2. transmit ring p fuel c2 tx_now) r.2 r.1
            (record c { machine = r.0; tx_buf = r.1 }) (λ c2 h2. transmit-Waits fuel c2 tx_now h2)
            h')

  -- The client that handles a message with this header, after the requests of the tick.
  unfoldable pub deliver :
      ℤ → ℤ → ConnectedClient B → Base → ServerMessage → Outcome (ConnectedClient B × Message)
  deliver tx_now rx_now c b msg = transmit ring p 2 c tx_now >>= λ c1.
      with_message ring p c1
        (on_message ring p (waiting c1.machine) b (from_micros rx_now) (ok msg))

  module _ (json : SettingsJson) (tx_now rx_now : ℤ) where
    read_message :
        (c : ConnectedClient B) (b : Base) (payload rest : Bytes) (later : Incoming)
        (msg : ServerMessage)
        → IsBase b
        → b.size ≡ length payload
        → decode json b payload ≡ ok msg
        → read_loop ring p json tx_now rx_now 2
            (record c { machine = waiting c.machine })
            ((header b ++ (payload ++ rest)) ∷ later)
          ≡ (with_message ring p c
                (on_message ring p (waiting c.machine) b (from_micros rx_now) (ok msg))
              >>= λ r. ok (r, rest ∷ later))
    unfolding read_loop handle_event on_header take_base next_action Framing.next_action on_packet
        process_packet
    read_message c b payload rest later msg hb size decoded = rw (
      read_exact_front 26 (header b) (payload ++ rest) later (length-header b),
      parse_header b hb,
      read_exact_front b.size payload rest later size,
      decoded,
    )

    -- Where a message has arrived in full, behind a header that announces its length, a tick of a
    -- client that waits for a header is the requests of the tick and then the machine's handling of
    -- the message, with the bytes behind it left for the next tick; and the client waits for a
    -- header again.
    pub tick_delivers :
        (c : ConnectedClient B) (b : Base) (payload rest : Bytes) (later : Incoming)
        (msg : ServerMessage)
        → Waits c.machine
        → IsBase b
        → b.size ≡ length payload
        → decode json b payload ≡ ok msg
        → (tick ring p json tx_now rx_now c ((header b ++ (payload ++ rest)) ∷ later)
            ≡ (deliver tx_now rx_now c b msg >>= λ r. ok (r, rest ∷ later)))
          × Ensures (λ r. Waits r.0.machine) (deliver tx_now rx_now c b msg)
    unfolding tick deliver
    tick_delivers c b payload rest later msg h hb size decoded = (
      bind-congr (λ c1. Waits c1.machine) (transmit ring p 2 c tx_now) _ _
            (transmit-Waits 2 c tx_now h)
            (λ c1 h1.
              (λ i.
                read_loop ring p json tx_now rx_now 2
                  (record c1 { machine = record c1.machine { framing = h1 i } })
                  ((header b ++ (payload ++ rest)) ∷ later))
              ∙ read_message c1 b payload rest later msg hb size decoded)
          ∙ sym (bind_assoc (transmit ring p 2 c tx_now) _ _),
      Ensures-bind (λ c1. Waits c1.machine) (λ r. Waits r.0.machine) (transmit ring p 2 c tx_now) _
          (transmit-Waits 2 c tx_now h)
          (λ c1 h1.
            Ensures-bind (λ _. Unit {0}) (λ r. Waits r.0.machine)
              (on_message ring p (waiting c1.machine) b (from_micros rx_now) (ok msg)).1 _
              (Ensures-any _)
              (λ _ _. on_message-Waits (waiting c1.machine) b (from_micros rx_now) msg refl)),
    )
