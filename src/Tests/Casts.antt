-- ===== src/Tests/Casts.antt =====
-- The theorem on a client's whole way to a chunk, at twenty exchanges and a second of buffer.
use snapcast_client.Prelude.{
  ◌+◌, ◌≡◌, ◌<◌, ◌⊎◌, arith, int_laws, refl, [], ◌∷◌, List, ℤ, pos, ◌+ℤ◌, ◌≤ℤ◌,
}
use snapcast_client.Outcome.{ok}
use snapcast_client.Word.{release}
use snapcast_client.TimeVal.{TimeVal}
use snapcast_client.Client
use snapcast_client.Client.{ClientMachine}
use snapcast_client.Link.Trips.{exchanges}
use snapcast_client.Link.Cast.{Cast, IsCast}
use snapcast_client.Link.Heard.{Comes}
use snapcast_client.Link.Session.{chunk_heard}
use snapcast_client.Program.Pcm.{pcm_to}
use snapcast_client.Tests.Fixtures
use snapcast_client.Tests.Fixtures.{evenly, evenly-AreTrips}
use snapcast_client.Tests.Players.{crates, apis, out_file, two_samples}

-- Stamped 21 seconds after the server's start, and half a second later at the client.
abbrev chunk_cast : Cast
chunk_cast = record {
  settings_id = 0;
  settings_sent = Fixtures.at 20 0;
  settings_at = pos 20500000;
  chunk_id = 1;
  chunk_sent = Fixtures.at 21 300;
  chunk_at = pos 21500000;
  stamp = pos 21000000;
  encoded = 1 ∷ 2 ∷ 3 ∷ 4 ∷ [];
}

chunk_cast-IsCast : IsCast Fixtures.settings_json Fixtures.settings chunk_cast
chunk_cast-IsCast = record {
  settings_id_fits = omega arith;
  settings_sent_fits = omega arith;
  chunk_id_fits = omega arith;
  chunk_sent_fits = omega arith;
  reads_back = refl;
  text_fits = omega arith;
  encoded_fits = omega arith;
  buffer_fits = omega arith;
  latency_fits = omega arith;
  stamp_fits = omega arith;
  arrival_fits = omega arith;
}

chunk_heard_example :
    (m : ClientMachine (List TimeVal)) × (believed : ℤ) × (exchanges Fixtures.ring release
        Fixtures.settings_json Fixtures.hello_json Fixtures.settings
        (pos 5000)
        (Client.new Fixtures.ring)
        (evenly 20 0)
      ≡ ok m)
    × (believed +ℤ believed ≤ℤ pos 5000 +ℤ pos 5000 +ℤ pos (10 + 1))
    × (pos 5000 +ℤ pos 5000 ≤ℤ believed +ℤ believed +ℤ pos (10 + 1))
    × (0 < 10 ⊎ believed ≡ pos 5000)
    × Comes Fixtures.ring release Fixtures.settings_json crates apis Fixtures.settings believed m
        chunk_cast
        (pcm_to crates apis release out_file [])
        two_samples
chunk_heard_example =
    chunk_heard Fixtures.ring release Fixtures.settings_json Fixtures.hello_json crates apis
      Fixtures.settings 10 (pos 5000) (evenly 20 0) chunk_cast
      (pcm_to crates apis release out_file []) two_samples (omega arith)
      (evenly-AreTrips 20 0 0 (omega arith)) (omega arith) (omega arith) (omega int_laws)
      chunk_cast-IsCast (omega arith) (omega arith) (omega arith)
