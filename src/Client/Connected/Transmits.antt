-- ===== src/Client/Connected/Transmits.antt =====
-- The loop of `tick` in src/client.rs that writes Time requests.
use snapcast_client.Prelude.{
  ℕ, ◌≤◌, ◌≡◌, refl, ap, ◌∙◌, true, false, inl, inr, ◌⊎◌, ℤ, pos, ◌-ℤ◌, ◌≤ℤ◌, ◌<ℤ◌, ◌++◌, length,
  take, drop,
}
use snapcast_client.Outcome.{ok}
use snapcast_client.Word.{Profile, IsI64}
use snapcast_client.Bytes.{Bytes}
use snapcast_client.TimeVal
use snapcast_client.TimeVal.{TimeVal, from_micros}
use snapcast_client.Proto.Base.RoundTrip.{header}
use snapcast_client.Proto.Time.{wire_size}
use snapcast_client.Client.{synchronized}
use snapcast_client.Client.Offsets.{CircularBuffer}
use snapcast_client.Client.Transmit.{sent_at, request, poll_transmit_cadence}
use snapcast_client.Client.Connected.{ConnectedClient, write_all, transmit}

-- The client after a request.
pub requested : {B : Type 0} → ConnectedClient B → ℤ → ConnectedClient B
requested c tx_now = record c {
  machine = sent_at c.machine tx_now;
  tx_buf = request c.machine.pkt_id (from_micros tx_now) ++ drop wire_size c.tx_buf;
  sent = c.sent ++ request c.machine.pkt_id (from_micros tx_now);
}

request_front :
    (id : ℕ) (tv : TimeVal) (rest : Bytes) → take wire_size (request id tv ++ rest) ≡ request id tv
unfolding request header TimeVal.as_buf
request_front id tv rest = refl

module _ {B : Type 0} (ring : CircularBuffer B) (p : Profile) where
  -- On an open connection, with a buffer for a request and an elapsed time that fits an `i64`, the
  -- loop ends within two rounds. It changes nothing and writes nothing below a second since the
  -- last request, and below a millisecond if the machine is not synchronized; else it writes the 34
  -- bytes of one request.
  pub transmit_ends :
      (c : ConnectedClient B) (tx_now : ℤ)
      → c.is_open ≡ true
      → wire_size ≤ length c.tx_buf
      → IsI64 (tx_now -ℤ c.machine.last_time_sent_us)
      → ((transmit ring p 2 c tx_now ≡ ok c)
          × (tx_now -ℤ c.machine.last_time_sent_us <ℤ pos 1000000)
          × (synchronized ring c.machine ≡ false
              → tx_now -ℤ c.machine.last_time_sent_us <ℤ pos 1000))
        ⊎ ((transmit ring p 2 c tx_now ≡ ok (requested c tx_now))
            × (pos 1000 ≤ℤ tx_now -ℤ c.machine.last_time_sent_us)
            × (synchronized ring c.machine ≡ true
                → pos 1000000 ≤ℤ tx_now -ℤ c.machine.last_time_sent_us))
  unfolding transmit requested write_all
  transmit_ends c tx_now opened room fits =
      elim (poll_transmit_cadence ring p c.machine tx_now c.tx_buf fits room) [
        | inl (idle, slow, slower) ↦ inl (rw idle, slow, slower)
        | inr (due, fast, faster, again) ↦ inr (
          rw (due, opened)
              (ap
                  (λ bytes.
                    transmit ring p 1
                      (record (requested c tx_now) { sent = c.sent ++ bytes; is_open = true })
                      tx_now)
                  (request_front c.machine.pkt_id (from_micros tx_now) (drop wire_size c.tx_buf))
                ∙ rw (again _)),
          fast,
          faster,
        )
      ]
