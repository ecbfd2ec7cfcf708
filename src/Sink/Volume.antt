-- ===== src/Sink/Volume.antt =====
-- The volume events of server/src/spotify.rs.
use snapcast_client.Prelude.{ℕ, ◌+◌, ◌*◌, ◌^◌, ◌≤◌, ◌<◌, ◌≡◌, refl, arith, [], map, false}
use snapcast_client.Net.Writer.{settings}
use snapcast_client.Net.Registry.{Registry, broadcast_settings, current_settings}
use snapcast_client.Sink.{on_player_event, volume_changed, volume_percent}

percent_bounds :
    (volume : ℕ)
    → volume < 2 ^ 16
    → (volume_percent volume ≤ 100)
      × (65535 * volume_percent volume ≤ 100 * volume + 32767)
      × (100 * volume ≤ 65535 * volume_percent volume + 32767)
unfolding volume_percent
percent_bounds volume h = (omega (arith, h), omega (arith, h), omega (arith, h))

-- A volume event with a `u16`: the registry keeps the volume as a percentage, at most 100 and the
-- nearest to the event's share of 65535, each registered client is sent one message, the settings with
-- that percentage, the length of the buffer and no mute, and the source sees no event.
pub volume_event_sent :
    (volume : ℕ) (r : Registry)
    → volume < 2 ^ 16
    → (percent : ℕ) × (percent ≤ 100)
      × (65535 * percent ≤ 100 * volume + 32767)
      × (100 * volume ≤ 65535 * percent + 32767)
      × (on_player_event (volume_changed volume) r ≡ (
        record r { volume = percent },
        (
          map
              (λ c. (
                c.0,
                settings (record {
                  buffer_ms = r.buffer_ms;
                  latency = 0;
                  muted = false;
                  volume = percent;
                }),
              ))
              r.clients,
          [],
        ),
      ))
unfolding on_player_event broadcast_settings current_settings
volume_event_sent volume r h =
    let (most, low, high) = percent_bounds volume h in
    (volume_percent volume, most, low, high, refl)
