-- ===== src/Tests/Fixtures.antt =====
-- The inputs of the examples: a buffer, texts of settings and hellos, messages and machines.
use snapcast_client.Prelude.{
  ℕ, zero, suc, ◌+◌, ◌*◌, ◌≤◌, inr, arith, int_laws, refl, List, [], ◌∷◌, ◌++◌, pos, false, some,
  replicate,
}
use snapcast_client.TimeVal.{TimeVal}
use snapcast_client.Proto.MessageType
use snapcast_client.Proto.Base.{Base}
use snapcast_client.Proto.Settings.{ServerSettings, SettingsJson}
use snapcast_client.Proto.Hello.{ClientHello, HelloJson}
use snapcast_client.Client
use snapcast_client.Client.{ClientMachine}
use snapcast_client.Client.Offsets.{CircularBuffer, latency_samples, keep_last}
use snapcast_client.Link.{Trip}
use snapcast_client.Link.Trips.{AreTrips}

-- A circular buffer as the list of its items, front first.
abbrev pub ring : CircularBuffer (List TimeVal)
ring = record {
  empty = [];
  push_back = λ b tv. keep_last latency_samples (b ++ (tv ∷ []));
  iter = λ b. b;
  iter-empty = refl;
  iter-push_back = λ b tv. refl;
}

abbrev pub settings : ServerSettings
settings = record { buffer_ms = 1000; latency = 0; muted = false; volume = 100 }

abbrev pub settings_json : SettingsJson
settings_json = record { to_string = λ s. 123 ∷ 125 ∷ []; from_str = λ text. some settings }

abbrev pub hello : ClientHello
hello = record {
  mac = [];
  host_name = [];
  version = [];
  client_name = [];
  os = [];
  arch = [];
  instance_number = 1;
  id = [];
  snap_stream_protocol_version = 2;
}

abbrev pub hello_json : HelloJson
hello_json = record { to_string = λ h. 123 ∷ 125 ∷ []; from_slice = λ text. some hello }

abbrev pub at : ℕ → ℕ → TimeVal
at s us = record { sec = pos s; usec = pos us }

abbrev pub machine : ClientMachine (List TimeVal)
machine = Client.new ring

-- A machine that knows nineteen offsets.
abbrev pub nearly_full : ClientMachine (List TimeVal)
nearly_full = record machine { latency_buf = replicate 19 (at 5 0) }

abbrev pub trip : Trip
trip = record { sent_us = 2000000; up_delay = 300; wait = 50; down_delay = 200; reply_id = 7 }

abbrev pub header_of_time : Base
header_of_time = record {
  mtype = MessageType.time;
  id = 3;
  refers_to = 0;
  sent_tv = at 7 8;
  received_tv = at 7 8;
  size = 8;
}

-- A trip a second from the last, ten microseconds slower on the way back.
abbrev pub evenly : ℕ → ℕ → List Trip
evenly zero last = []
evenly (suc n) last =
    record { sent_us = last + 1000000; up_delay = 300; wait = 50; down_delay = 310; reply_id = 7 }
    ∷ evenly n (last + 1000000)

pub evenly-AreTrips :
    (n k last : ℕ) → last + n * 1000000 ≤ 100000000 → AreTrips 10 (pos 5000) k last (evenly n last)
evenly-AreTrips zero k last h = tt
evenly-AreTrips (suc n) k last h = (
  (
    omega arith,
    inr (omega arith),
    omega arith,
    omega int_laws,
    omega int_laws,
    omega int_laws,
    omega int_laws,
    omega arith,
  ),
  evenly-AreTrips n (k + 1) (last + 1000000) (omega arith),
)
