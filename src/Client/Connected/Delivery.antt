-- ===== src/Client/Connected/Delivery.antt =====
-- The ticks of src/client.rs on what `run_writer` of server/src/net.rs writes.
use snapcast_client.Prelude.{
  ℕ, ◌≡◌, refl, sym, ap, ◌∙◌, List, [], ◌∷◌, ◌++◌, length, append_assoc, map, All,
}
use snapcast_client.Outcome.{Outcome, ok, ◌>>=◌, bind-congr, bind_assoc}
use snapcast_client.Word.{Profile, IsU16}
use snapcast_client.Bytes.{Bytes}
use snapcast_client.Proto.Base.{Base}
use snapcast_client.Proto.Base.RoundTrip.{IsBase, header}
use snapcast_client.Proto.Settings.{SettingsJson}
use snapcast_client.Proto.Message.{ServerMessage, decode}
use snapcast_client.Net.Writer.{Turn, run_writer}
use snapcast_client.Client.{Message}
use snapcast_client.Client.Offsets.{CircularBuffer}
use snapcast_client.Client.Connected.{ConnectedClient, Incoming, tick}
use snapcast_client.Client.Connected.Reads.{Waits, deliver, tick_delivers}
use snapcast_client.Client.Connected.Queue.{
  Item, IsItem, IsLost, queued, next_id, concat, Frames, writer-Frames, base_of, message_of,
}

module _ {B : Type 0} (ring : CircularBuffer B) (p : Profile) (json : SettingsJson) where
  -- One tick for each item, with the messages that they give.
  unfoldable pub ticks :
      List Item
      → ConnectedClient B
      → Incoming
      → Outcome ((ConnectedClient B × List Message) × Incoming)
  ticks [] c incoming = ok ((c, []), incoming)
  ticks (it ∷ items) c incoming = tick ring p json it.tx_now it.rx_now c incoming >>= λ r.
      ticks items r.0.0 r.1 >>= λ s. ok ((s.0.0, r.0.1 ∷ s.0.1), s.1)

  -- The same client, if it is handed each item's message.
  unfoldable pub deliveries :
      ℕ → List Item → ConnectedClient B → Outcome (ConnectedClient B × List Message)
  deliveries id [] c = ok (c, [])
  deliveries id (it ∷ items) c =
      deliver ring p it.tx_now it.rx_now c (base_of json id it.written it.msg) (message_of it.msg)
      >>= λ r. deliveries (next_id id) items r.0 >>= λ s. ok (s.0, r.1 ∷ s.1)

  module _ (id : ℕ) (it : Item) (items : List Item) (c : ConnectedClient B)
      (payload behind rest : Bytes) (later : Incoming) where
    more :
        (ConnectedClient B × Message) × Incoming
        → Outcome ((ConnectedClient B × List Message) × Incoming)
    more r = ticks items r.0.0 r.1 >>= λ s. ok ((s.0.0, r.0.1 ∷ s.0.1), s.1)

    gives : ConnectedClient B × Message → Outcome (ConnectedClient B × List Message)
    gives r = deliveries (next_id id) items r.0 >>= λ s. ok (s.0, r.1 ∷ s.1)

    done :
        ConnectedClient B × List Message → Outcome ((ConnectedClient B × List Message) × Incoming)
    done s = ok (s, rest ∷ later)

    Follows : ConnectedClient B → Type 0
    Follows c' = ticks items c' (behind ∷ later) ≡ (deliveries (next_id id) items c' >>= done)

    next_item :
        (r : ConnectedClient B × Message)
        → Follows r.0
        → more (r, behind ∷ later) ≡ (gives r >>= done)
    unfolding more gives done Follows
    next_item r ih =
        ap (λ o. o >>= λ s. ok ((s.0.0, r.1 ∷ s.0.1), s.1)) ih
        ∙ bind_assoc (deliveries (next_id id) items r.0) done (λ s. ok ((s.0.0, r.1 ∷ s.0.1), s.1))
        ∙ sym (bind_assoc (deliveries (next_id id) items r.0) (λ s. ok (s.0, r.1 ∷ s.1)) done)

    first_item :
        (b : Base) (msg : ServerMessage)
        → Waits ring p c.machine
        → IsBase b
        → b.size ≡ length payload
        → decode json b payload ≡ ok msg
        → ((c' : ConnectedClient B) → Waits ring p c'.machine → Follows c')
        → (tick ring p json it.tx_now it.rx_now c ((header b ++ (payload ++ behind)) ∷ later)
            >>= more)
          ≡ (deliver ring p it.tx_now it.rx_now c b msg >>= gives >>= done)
    first_item b msg w hb size d ih =
        let (read, waits) =
          tick_delivers ring p json it.tx_now it.rx_now c b payload behind later msg w hb size d in
        let handled = deliver ring p it.tx_now it.rx_now c b msg in
        ap (λ o. o >>= more) read
        ∙ bind_assoc handled (λ r. ok (r, behind ∷ later)) more
        ∙ bind-congr (λ r. Waits ring p r.0.machine) handled (λ r. more (r, behind ∷ later))
            (λ r. gives r >>= done) waits (λ r wr. next_item r (ih r.0 wr))
        ∙ sym (bind_assoc handled gives done)

  ticks-Frames :
      (id : ℕ) (items : List Item) (bufs : List Bytes) (c : ConnectedClient B) (rest : Bytes)
      (later : Incoming)
      → Waits ring p c.machine
      → Frames json id items bufs
      → ticks items c ((concat bufs ++ rest) ∷ later)
        ≡ (deliveries id items c >>= λ s. ok (s, rest ∷ later))
  unfolding ticks deliveries more gives done Follows
  ticks-Frames id [] [] c rest later w f = refl
  ticks-Frames id [] (buf ∷ bufs) c rest later w f = absurd f
  ticks-Frames id (it ∷ items) [] c rest later w f = absurd f
  ticks-Frames id (it ∷ items) (buf ∷ bufs) c rest later w ((payload, written, hb, size, d), f) =
      let b : Base = base_of json id it.written it.msg in
      let behind : Bytes = concat bufs ++ rest in
      let same : buf ≡ header b ++ payload = cc in
      ap (λ q. ticks (it ∷ items) c (((q ++ concat bufs) ++ rest) ∷ later)) same
      ∙ ap (λ q. ticks (it ∷ items) c (q ∷ later))
          (append_assoc (header b ++ payload) (concat bufs) rest
            ∙ append_assoc (header b) payload behind)
      ∙ first_item id it items c payload behind rest later b (message_of it.msg) w hb size d
          (λ c' w'. ticks-Frames (next_id id) items bufs c' rest later w' f)

  -- A server writes a queue of messages until the queue ends or a write fails, and what was
  -- written in full arrives in one piece, with whatever bytes behind it and with no read timeout
  -- within a message or between two. A client that waits for a header is then ticked once for each
  -- message that was written: the ticks are the machine's handling of just these messages, in
  -- their order and under their headers, with the requests of each tick, and the bytes behind the
  -- messages are left.
  pub queue_delivered :
      (id : ℕ) (items : List Item) (lost : List Turn) (c : ConnectedClient B) (rest : Bytes)
      (later : Incoming)
      → IsU16 id
      → All (IsItem json) items
      → IsLost json lost
      → Waits ring p c.machine
      → (bufs : List Bytes) × (run_writer json id (map queued items ++ lost) ≡ ok bufs)
        × (ticks items c ((concat bufs ++ rest) ∷ later)
            ≡ (deliveries id items c >>= λ s. ok (s, rest ∷ later)))
  queue_delivered id items lost c rest later hi h l w =
      let (bufs, written, frames) = writer-Frames json id items lost hi h l in
      (bufs, written, ticks-Frames id items bufs c rest later w frames)
