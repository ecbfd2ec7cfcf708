-- ===== src/Client/Transmit.antt =====
-- `poll_transmit` of src/client.rs: when it emits a Time request, and the bytes of that.
use snapcast_client.Prelude.{
  ℕ, ◌+◌, ◌%◌, ◌^◌, ◌≤◌, ◌≡◌, arith, true, false, Bool-cases, inl, inr, ◌⊎◌, ℤ, pos, ◌-ℤ◌, ◌≤ℤ◌,
  ◌<ℤ◌, int_laws, none, some, length, drop, ◌++◌, append_assoc,
}
use snapcast_client.Outcome.{ok}
use snapcast_client.Word.{Profile, IsI64, i64_fits}
use snapcast_client.Bytes.{Bytes}
use snapcast_client.TimeVal
use snapcast_client.TimeVal.{TimeVal, from_micros}
use snapcast_client.Proto.Base.RoundTrip.{header}
use snapcast_client.Proto.Time
use snapcast_client.Proto.Time.{wire_size, time_base}
use snapcast_client.Client.Offsets.{CircularBuffer}
use snapcast_client.Client.{ClientMachine, is_due, synchronized, poll_transmit}

-- The machine after a request at `now_us`.
unfoldable pub sent_at : {B : Type 0} → ClientMachine B → ℤ → ClientMachine B
sent_at m now_us = record m {
  last_sent_time = from_micros now_us;
  last_time_sent_us = now_us;
  pkt_id = (m.pkt_id + 1) % 2 ^ 16;
}

-- The 34 bytes of a request.
unfoldable pub request : ℕ → TimeVal → Bytes
request id tv = header (time_base id 0 tv tv) ++ TimeVal.as_buf tv

cadence :
    {B : Type 0} (ring : CircularBuffer B) (m : ClientMachine B) (elapsed : ℤ)
    → is_due ring m elapsed ≡ true
    → (pos 1000 ≤ℤ elapsed) × (synchronized ring m ≡ true → pos 1000000 ≤ℤ elapsed)
unfolding is_due
cadence ring m elapsed due = (ground arith, λ synced. ground arith)

quiet :
    {B : Type 0} (ring : CircularBuffer B) (m : ClientMachine B) (elapsed : ℤ)
    → is_due ring m elapsed ≡ false
    → (elapsed <ℤ pos 1000000) × (synchronized ring m ≡ false → elapsed <ℤ pos 1000)
unfolding is_due
quiet ring m elapsed idle = (ground arith, λ synced. ground arith)

module _ {B : Type 0} (ring : CircularBuffer B) (p : Profile) where
  pub poll_transmit_idle :
      (m : ClientMachine B) (now_us : ℤ) (out : Bytes)
      → IsI64 (now_us -ℤ m.last_time_sent_us)
      → is_due ring m (now_us -ℤ m.last_time_sent_us) ≡ false
      → poll_transmit ring p m now_us out ≡ ok (m, out, none)
  unfolding poll_transmit
  poll_transmit_idle m now_us out fits idle =
      rw (i64_fits p (now_us -ℤ m.last_time_sent_us) fits, idle)

  pub poll_transmit_due :
      (m : ClientMachine B) (now_us : ℤ) (out : Bytes)
      → IsI64 (now_us -ℤ m.last_time_sent_us)
      → wire_size ≤ length out
      → is_due ring m (now_us -ℤ m.last_time_sent_us) ≡ true
      → poll_transmit ring p m now_us out
        ≡ ok (
          sent_at m now_us,
          request m.pkt_id (from_micros now_us) ++ drop wire_size out,
          some wire_size,
        )
  unfolding poll_transmit sent_at request
  poll_transmit_due m now_us out fits room due = rw (
    i64_fits p (now_us -ℤ m.last_time_sent_us) fits,
    due,
    Time.write_lem out m.pkt_id 0 (from_micros now_us) (from_micros now_us) (from_micros now_us)
        room,
    append_assoc (header (time_base m.pkt_id 0 (from_micros now_us) (from_micros now_us))),
  )

  at_once : (now_us : ℤ) → now_us -ℤ now_us ≡ pos 0
  at_once now_us = omega int_laws

  no_time : (m : ClientMachine B) → is_due ring m (pos 0) ≡ false
  unfolding is_due
  no_time m = ground arith

  -- Polling always answers where the elapsed time fits an `i64` and the buffer has the 34 bytes of a
  -- request. It gives nothing and changes nothing below a second since the last request, and below a
  -- millisecond if the machine is not synchronized; else it gives the bytes of one request, which
  -- carries the packet id and `now_us`. After a request, polling again at the same time gives nothing,
  -- so the loop of `tick` ends.
  pub poll_transmit_cadence :
      (m : ClientMachine B) (now_us : ℤ) (out : Bytes)
      → IsI64 (now_us -ℤ m.last_time_sent_us)
      → wire_size ≤ length out
      → ((poll_transmit ring p m now_us out ≡ ok (m, out, none))
          × (now_us -ℤ m.last_time_sent_us <ℤ pos 1000000)
          × (synchronized ring m ≡ false → now_us -ℤ m.last_time_sent_us <ℤ pos 1000))
        ⊎ ((poll_transmit ring p m now_us out
              ≡ ok (
                sent_at m now_us,
                request m.pkt_id (from_micros now_us) ++ drop wire_size out,
                some wire_size,
              ))
            × (pos 1000 ≤ℤ now_us -ℤ m.last_time_sent_us)
            × (synchronized ring m ≡ true → pos 1000000 ≤ℤ now_us -ℤ m.last_time_sent_us)
            × ((out' : Bytes)
                → poll_transmit ring p (sent_at m now_us) now_us out'
                  ≡ ok (sent_at m now_us, out', none)))
  poll_transmit_cadence m now_us out fits room =
      elim (Bool-cases (is_due ring m (now_us -ℤ m.last_time_sent_us))) [
        | inr idle ↦ inl (
          poll_transmit_idle m now_us out fits idle,
          (quiet ring m (now_us -ℤ m.last_time_sent_us) idle).0,
          (quiet ring m (now_us -ℤ m.last_time_sent_us) idle).1,
        )
        | inl due ↦ inr (
          poll_transmit_due m now_us out fits room due,
          (cadence ring m (now_us -ℤ m.last_time_sent_us) due).0,
          (cadence ring m (now_us -ℤ m.last_time_sent_us) due).1,
          λ out'.
              poll_transmit_idle (sent_at m now_us) now_us out'
                (unfold sent_at in rw (at_once now_us) (omega arith))
                (unfold sent_at in rw (at_once now_us) (no_time (sent_at m now_us))),
        )
      ]
