-- ===== src/Tests/Servers.antt =====
-- The theorems on the registry and on mDNS at concrete inputs.
use snapcast_client.Prelude.{
  List, ℕ, ◌+◌, ◌*◌, map, false, ◌≡◌, ◌≤◌, refl, arith, false, [], ◌∷◌, ◌++◌, length, replicate,
}
use snapcast_client.Net.Writer.{codec_header, settings}
use snapcast_client.Net.Registry
use snapcast_client.Net.Registry.{
  Registry, ClientHandle, channel_slots, new_handle, offer, or_insert, register, remove,
}
use snapcast_client.Net.Registry.Bounds
use snapcast_client.Net.Registry.Bounds.{IsRegistry, registry_bounded}
use snapcast_client.Net.Registry.Offer.{
  Event, offers, takes, run, handle_of, tally, untouched, IsAnswered, offers_counted,
}
use snapcast_client.Sink.{on_player_event, volume_changed}
use snapcast_client.Sink.Volume.{volume_event_sent}
use snapcast_client.Mdns.{found, parse_response}
use snapcast_client.Outcome.{ok}
use snapcast_client.Mdns.Discover.{IsDecided, datagram, discover, discover-IsDecided}
use snapcast_client.Mdns.Response.{
  Response, IsResponse, pointer, service, address, response_bytes, notes,
}
use snapcast_client.Mdns.Response.Read.{parse_response-address}

registry_bounded_example : IsRegistry (register (Registry.new 1000 50)).0
registry_bounded_example =
    registry_bounded
      (Bounds.Reach.step Bounds.Reach.start (Bounds.Step.registers (Registry.new 1000 50)))

-- Seventeen offers, of which the last is refused, a message that is taken, and a chunk that fills
-- the queue again.
abbrev crowding : List Event
crowding =
    replicate 17 (offers (10, 12) codec_header) ++ (takes ∷ offers (20, 21) codec_header ∷ [])

offers_counted_example :
    (run 100 crowding new_handle ≡ handle_of (tally crowding untouched))
    × (length (run 100 crowding new_handle).queue ≤ 16)
    × IsAnswered 100
        (200, 210)
        (tally crowding untouched)
        (offer 100 (200, 210) codec_header (run 100 crowding new_handle)).1
offers_counted_example = offers_counted 100 crowding (200, 210) codec_header

-- A service with port 1704 and the address 192.168.2.50, both named by a pointer.
abbrev speaker : Response
speaker = record {
  id = 0;
  flags = 33792;
  questions = [];
  answers =
      record {
        name = record { label_list = []; end = pointer 192 12 };
        cls = 1;
        ttl = 120;
        content = service 0 0 1704 (192 ∷ 12 ∷ []);
      }
      ∷ record {
        name = record { label_list = []; end = pointer 192 12 };
        cls = 1;
        ttl = 120;
        content = address 192 168 2 50;
      }
      ∷ [];
  authority = [];
  additional = [];
}

speaker-IsResponse : IsResponse speaker
speaker-IsResponse = record {
  few_questions = omega arith;
  few_answers = omega arith;
  few_authority = omega arith;
  few_additional = omega arith;
  named = tt;
  well_formed = (((tt, omega arith), (omega arith, omega arith)), (((tt, omega arith), tt), tt));
}

parse_response-address_example :
    parse_response (response_bytes speaker ++ (7 ∷ []))
    ≡ found (record { ip = 192 ∷ 168 ∷ 2 ∷ 50 ∷ []; port = 1704 })
unfolding notes
parse_response-address_example = parse_response-address speaker (7 ∷ []) speaker-IsResponse

abbrev registered : Registry
registered = (register (Registry.new 1000 50)).0

volume_event_sent_example :
    (percent : ℕ) × (percent ≤ 100)
    × (65535 * percent ≤ 100 * 32768 + 32767)
    × (100 * 32768 ≤ 65535 * percent + 32767)
    × (on_player_event (volume_changed 32768) registered ≡ (
      record registered { volume = percent },
      (
        map
            (λ c. (
              c.0,
              settings (record {
                buffer_ms = registered.buffer_ms;
                latency = 0;
                muted = false;
                volume = percent;
              }),
            ))
            registered.clients,
        [],
      ),
    ))
volume_event_sent_example = volume_event_sent 32768 registered (omega arith)

-- A datagram without an address, and then one after the deadline.
discover-IsDecided_example :
    IsDecided
      (5 + 10)
      ((7, datagram (1 ∷ [])) ∷ (20, datagram []) ∷ [])
      (discover (λ query. ok tt) (97 ∷ []) 10 5 ((7, datagram (1 ∷ [])) ∷ (20, datagram []) ∷ []))
discover-IsDecided_example =
    discover-IsDecided (λ query. ok tt) (97 ∷ []) 10 5 20 (datagram [])
      ((7, datagram (1 ∷ [])) ∷ []) refl (omega arith)
