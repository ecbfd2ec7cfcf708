-- ===== src/Tests/Connected.antt =====
-- The theorems on a connected client and on a series of exchanges, at concrete inputs.
use snapcast_client.Prelude.{
  ℕ, ◌<◌, ◌≡◌, refl, arith, false, true, ◌⊎◌, List, [], ◌∷◌, ◌++◌, map, pos, ◌-ℤ◌, ◌<ℤ◌, ◌≤ℤ◌,
  int_laws,
}
use snapcast_client.Outcome.{ok, ◌>>=◌}
use snapcast_client.Word.{release}
use snapcast_client.Proto.Hello
use snapcast_client.Proto.Message.{ClientMessage, decode_c}
use snapcast_client.Proto.Message.Frame.{IsRead}
use snapcast_client.Proto.Message.RoundTrip.{hello_round}
use snapcast_client.TimeVal.{TimeVal}
use snapcast_client.TimeVal.Canonical.{floor_micros}
use snapcast_client.Framing
use snapcast_client.Net.Writer.{Turn, run_writer, settings, codec_header, time_reply}
use snapcast_client.Client
use snapcast_client.Client.{ClientMachine, synchronized}
use snapcast_client.Client.Connected
use snapcast_client.Client.Connected.{ConnectedClient, transmit}
use snapcast_client.Client.Connected.Transmits.{requested, transmit_ends}
use snapcast_client.Client.Connected.Queue.{Item, queued, concat}
use snapcast_client.Client.Connected.Delivery.{ticks, deliveries, queue_delivered}
use snapcast_client.Tests.Fixtures.{evenly, evenly-AreTrips}
use snapcast_client.Link.Trips.{IsNear, exchanges}
use snapcast_client.Link.Convergence.{offset_converges}
use snapcast_client.Tests.Fixtures

hello_round_example :
    IsRead
      (Hello.as_buf Fixtures.hello_json Fixtures.hello)
      (decode_c Fixtures.hello_json)
      (ClientMessage.hello Fixtures.hello)
hello_round_example = hello_round Fixtures.hello_json Fixtures.hello refl (omega arith)

abbrev client : ConnectedClient (List TimeVal)
client = Connected.new Fixtures.ring true

transmit_ends_example :
    ((transmit Fixtures.ring release 2 client (pos 1500) ≡ ok client)
      × (pos 1500 -ℤ pos 0 <ℤ pos 1000000)
      × (synchronized Fixtures.ring client.machine ≡ false → pos 1500 -ℤ pos 0 <ℤ pos 1000))
    ⊎ ((transmit Fixtures.ring release 2 client (pos 1500) ≡ ok (requested client (pos 1500)))
        × (pos 1000 ≤ℤ pos 1500 -ℤ pos 0)
        × (synchronized Fixtures.ring client.machine ≡ true → pos 1000000 ≤ℤ pos 1500 -ℤ pos 0))
unfolding Connected.new ◌-ℤ◌ Client.new
transmit_ends_example =
    transmit_ends Fixtures.ring release client (pos 1500) refl (omega arith) (omega int_laws)

abbrev items : List Item
items =
    record {
      written = Fixtures.at 5 0;
      msg = settings Fixtures.settings;
      tx_now = pos 500;
      rx_now = pos 700;
    }
    ∷ record { written = Fixtures.at 5 1; msg = codec_header; tx_now = pos 1500; rx_now = pos 1700 }
    ∷ record {
      written = Fixtures.at 5 2;
      msg = time_reply 0 (Fixtures.at 0 1500) (Fixtures.at 5 1);
      tx_now = pos 1800;
      rx_now = pos 1900;
    }
    ∷ []

-- The write of a fourth message fails.
abbrev broken : List Turn
broken = record { now = Fixtures.at 5 3; msg = codec_header; is_written = false } ∷ []

queue_delivered_example :
    (bufs : List (List ℕ)) × (run_writer Fixtures.settings_json 3 (map queued items ++ broken)
      ≡ ok bufs)
    × (ticks Fixtures.ring release Fixtures.settings_json items client
          ((concat bufs ++ (1 ∷ [])) ∷ [])
        ≡ (deliveries Fixtures.ring release Fixtures.settings_json 3 items client >>= λ s.
            ok (s, (1 ∷ []) ∷ [])))
queue_delivered_example =
    queue_delivered Fixtures.ring release Fixtures.settings_json 3 items broken client (1 ∷ []) []
      (omega arith)
      (
        (omega arith, (refl, omega arith)),
        ((omega arith, tt), ((omega arith, (omega arith, omega arith, omega arith)), tt)),
      )
      (refl, omega arith, tt) (unfold Connected.new Client.new in refl)

offset_converges_example :
    (m : ClientMachine (List TimeVal)) × (exchanges Fixtures.ring release Fixtures.settings_json
        Fixtures.hello_json Fixtures.settings
        (pos 5000)
        (Client.new Fixtures.ring)
        (evenly 20 0)
      ≡ ok m)
    × (synchronized Fixtures.ring m ≡ true)
    × (m.framing ≡ Framing.new)
    × IsNear 10 (pos 5000) m.clock_offset
    × (0 < 10 ⊎ m.clock_offset ≡ floor_micros (pos 5000))
offset_converges_example =
    offset_converges Fixtures.ring release Fixtures.settings_json Fixtures.hello_json
      Fixtures.settings 10 (pos 5000) (evenly 20 0) (omega arith)
      (evenly-AreTrips 20 0 0 (omega arith)) (omega int_laws)
