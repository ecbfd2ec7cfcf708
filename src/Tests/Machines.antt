-- ===== src/Tests/Machines.antt =====
-- The theorems on client machines, and on a client with a server, at concrete states.
use snapcast_client.Prelude.{
  ℕ, ◌+◌, ◌-◌, ◌≡◌, refl, arith, true, false, List, [], ◌∷◌, ◌++◌, drop, replicate, ◌⊎◌, some, pos,
  negsuc, ◌+ℤ◌, ◌-ℤ◌, ◌≤ℤ◌, ◌<ℤ◌, none, get_or,
}
use mathlib.Core.List.{Perm}
use snapcast_client.Outcome.{ok}
use snapcast_client.Word.{debug}
use snapcast_client.TimeVal.{TimeVal, tv_zero, from_micros}
use snapcast_client.TimeVal.Micros.{micros}
use snapcast_client.TimeVal.Canonical.{floor_micros}
use snapcast_client.Proto.Time.{wire_size}
use snapcast_client.Proto.WireChunk.{WireChunk}
use snapcast_client.Client.Offsets.{latency_samples, keep_last}
use snapcast_client.Client
use snapcast_client.Client.{
  ClientMachine, synchronized, poll_transmit, measure, record_offset, on_wire_chunk, expired,
  wire_chunk,
}
use snapcast_client.Client.Median.{IsSorted}
use snapcast_client.Client.Record.{
  IsSampled, new-IsSampled, record_offset-IsSampled, record_offset-median, first_offset_lost,
}
use snapcast_client.Client.Transmit.{request, sent_at, poll_transmit_cadence}
use snapcast_client.Client.Playback.{chunk_timing, on_time_chunk_dropped}
use snapcast_client.Client.Reply
use snapcast_client.Link.{exchange}
use snapcast_client.Link.Recovery.{exchange_error}
use snapcast_client.Tests.Fixtures.{
  at, ring, settings, settings_json, hello_json, machine, nearly_full, trip,
}

exchange_error_example :
    (m' : ClientMachine (List TimeVal)) × (tv : TimeVal) × (exchange ring debug settings_json
        hello_json settings
        (pos 5000000)
        (Reply.waiting machine)
        trip
      ≡ ok m')
    × IsSampled ring m'
    × (ring.iter m'.latency_buf
        ≡ keep_last latency_samples (ring.iter machine.latency_buf ++ (tv ∷ [])))
    × (micros tv +ℤ micros tv ≤ℤ pos 5000000 +ℤ pos 5000000 +ℤ pos (300 - 200 + (200 - 300) + 1))
    × (pos 5000000 +ℤ pos 5000000 ≤ℤ micros tv +ℤ micros tv +ℤ pos (300 - 200 + (200 - 300) + 1))
    × ((let n : ℕ = 300 in n ≡ 200) → tv ≡ floor_micros (pos 5000000))
unfolding ◌+ℤ◌ Client.new ◌-ℤ◌ Client.is_due
exchange_error_example =
    exchange_error ring debug settings_json hello_json settings (pos 5000000) machine trip
      (new-IsSampled ring)
      (record {
        sent_fits = (omega arith);
        arrival_fits = (omega arith);
        departure_fits = (omega arith);
        return_fits = (omega arith);
        id_fits = (omega arith);
        reply_id_fits = (omega arith);
        elapsed_fits = (omega arith);
        due = refl;
      })

record_offset-IsSampled_example :
    (m' : ClientMachine (List TimeVal)) × (record_offset ring machine (at 5 7) ≡ ok m')
    × IsSampled ring m'
    × (ring.iter m'.latency_buf ≡ at 5 7 ∷ [])
unfolding Client.new
record_offset-IsSampled_example = record_offset-IsSampled ring machine (at 5 7) (new-IsSampled ring)

nearly_full-IsSampled : IsSampled ring nearly_full
unfolding Client.new
nearly_full-IsSampled = record { places = refl; within = omega arith }

record_offset-median_example :
    (m' : ClientMachine (List TimeVal)) × (record_offset ring nearly_full (at 5 7) ≡ ok m')
    × (synchronized ring m' ≡ true)
    × Perm m'.sorted_latency_buf (ring.iter m'.latency_buf)
    × IsSorted m'.sorted_latency_buf
    × (m'.clock_offset ≡ get_or m'.sorted_latency_buf 10 tv_zero)
record_offset-median_example =
    record_offset-median ring nearly_full (at 5 7) nearly_full-IsSampled (omega arith)

first_offset_lost_example :
    (m' : ClientMachine (List TimeVal)) × (record_offset ring machine
        (record { sec = negsuc 0; usec = pos 0 })
      ≡ ok m')
    × (ring.iter m'.latency_buf ≡ record { sec = negsuc 0; usec = pos 0 } ∷ [])
    × (m'.clock_offset ≡ tv_zero)
first_offset_lost_example = first_offset_lost ring (record { sec = negsuc 0; usec = pos 0 }) refl

-- A machine that sent a request at two seconds, and a chunk stamped at three.
abbrev asking : ClientMachine (List TimeVal)
asking = record machine { last_sent_time = from_micros (pos 2000000) }

poll_transmit_cadence_example :
    ((poll_transmit ring debug machine (pos 2000) (replicate 34 0)
        ≡ ok (machine, replicate 34 0, none))
      × (pos 2000 -ℤ pos 0 <ℤ pos 1000000)
      × (synchronized ring machine ≡ false → pos 2000 -ℤ pos 0 <ℤ pos 1000))
    ⊎ ((poll_transmit ring debug machine (pos 2000) (replicate 34 0)
          ≡ ok (
            sent_at machine (pos 2000),
            request 0 (from_micros (pos 2000)) ++ drop wire_size (replicate 34 0),
            some wire_size,
          ))
        × (pos 1000 ≤ℤ pos 2000 -ℤ pos 0)
        × (synchronized ring machine ≡ true → pos 1000000 ≤ℤ pos 2000 -ℤ pos 0)
        × ((out' : List ℕ)
            → poll_transmit ring debug (sent_at machine (pos 2000)) (pos 2000) out'
              ≡ ok (sent_at machine (pos 2000), out', none)))
unfolding ◌-ℤ◌ Client.new
poll_transmit_cadence_example =
    poll_transmit_cadence ring debug machine (pos 2000) (replicate 34 0) (omega arith) (omega arith)

abbrev chunk : WireChunk
chunk = record { timestamp = at 3 0; payload = 1 ∷ 2 ∷ [] }

chunk_timing_example :
    (due : TimeVal) × (micros due
      ≡ micros (at 3 0) -ℤ micros (at 0 1000) +ℤ micros (at 0 999999) -ℤ micros tv_zero)
    × (((cmp : TimeVal) × (on_wire_chunk ring debug machine chunk (at 2 0) ≡ ok (expired cmp))
          × (micros cmp ≡ micros due -ℤ micros (at 2 0))
          × (micros due ≤ℤ micros (at 2 0)))
        ⊎ ((on_wire_chunk ring debug machine chunk (at 2 0) ≡ ok (wire_chunk chunk due))
            × (micros (at 2 0) ≤ℤ micros due)))
unfolding Client.new
chunk_timing_example =
    chunk_timing ring debug machine
      (record {
        offset_fits = (omega arith);
        buffer_fits = (omega arith);
        latency_fits = (omega arith);
      })
      chunk (omega arith) (at 2 0) (omega arith)

abbrev one_second : ClientMachine (List TimeVal)
one_second = record machine { clock_offset = tv_zero; server_buffer_ms = at 0 1000000 }

on_time_chunk_dropped_example :
    (on_wire_chunk ring debug one_second chunk (at 4 0)
      ≡ ok (expired (record { sec = negsuc 0; usec = pos 1000000 })))
    × (micros (record { sec = negsuc 0; usec = pos 1000000 }) ≡ pos 0)
unfolding Client.new
on_time_chunk_dropped_example =
    on_time_chunk_dropped ring debug one_second chunk 3 (omega arith) refl refl refl refl
