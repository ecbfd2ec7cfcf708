-- ===== src/Link/Session.antt =====
-- From the first exchange of a client to the moment at which it plays a chunk: src/client.rs and the
-- playback thread of src/main.rs, with what server/src/net.rs sends them.
use snapcast_client.Prelude.{
  ℕ, ◌+◌, ◌-◌, ◌^◌, ◌≤◌, ◌<◌, ◌≡◌, refl, sym, subst, arith, inl, inr, ◌⊎◌, List, length, ℤ, pos,
  ◌+ℤ◌, ◌-ℤ◌, ◌≤ℤ◌, int_laws,
}
use native.Mathlib.Decide.{dec_lt}
use snapcast_client.Outcome.{ok}
use snapcast_client.Word.{Profile}
use snapcast_client.TimeVal.Micros.{micros}
use snapcast_client.TimeVal.Arith.{IsShort}
use snapcast_client.TimeVal.Canonical.{IsWithin}
use snapcast_client.Proto.Settings.{ServerSettings, SettingsJson}
use snapcast_client.Proto.Hello.{HelloJson}
use snapcast_client.Client
use snapcast_client.Client.{
  ClientMachine, Message, expired, wire_chunk, server_settings, on_message, on_wire_chunk,
}
use snapcast_client.Client.Offsets.{CircularBuffer, latency_samples}
use snapcast_client.Client.Reply.{waiting}
use snapcast_client.Client.Playback.{span}
use snapcast_client.Decoder.{Crates}
use snapcast_client.Playback.{SoundApis}
use snapcast_client.Program.{Playing, Received}
use snapcast_client.Link.{Trip}
use snapcast_client.Link.Trips.{AreTrips, exchanges}
use snapcast_client.Link.Convergence.{offset_converges}
use snapcast_client.Link.Cast.{Cast, IsCast, heard_at}
use snapcast_client.Link.Heard.{Comes, forward-IsShort, in_step}

module _ {B D U O : Type 0} (ring : CircularBuffer B) (p : Profile) (json : SettingsJson)
    (hello_json : HelloJson) (crates : Crates O) (apis : SoundApis D U) (current : ServerSettings)
    (jitter : ℕ) (offset : ℤ) where
  right_or_jitter :
      Dec (0 < jitter)
      → (believed : ℤ) → believed +ℤ believed ≤ℤ offset +ℤ offset +ℤ pos (jitter + 1)
      → offset +ℤ offset ≤ℤ believed +ℤ believed +ℤ pos (jitter + 1)
      → (0 < jitter) ⊎ (believed ≡ offset)
  right_or_jitter (yes some_jitter) believed above below = inl some_jitter
  right_or_jitter (no none) believed above below = inr (omega int_laws)

  -- A new client goes through at least twenty exchanges of Time messages with a greeted session,
  -- over a network whose delays in the two directions differ by at most `jitter` microseconds at
  -- each exchange, and is then sent the settings and a chunk. With the ids, the settings, the
  -- stamps and the clocks in range, and a jitter of at most two seconds: it takes the server's
  -- clock to be `believed` ahead of its own, which is right but for half of `jitter` and half a
  -- microsecond, and exactly right where the delays are always equal. By the clock that it believes
  -- in, the chunk's instant is its stamp, plus the buffer, less the latency of the settings, and
  -- the chunk is expired only if that instant is not after its arrival. Otherwise it goes to the
  -- playback thread with that instant. Whatever that thread has kept, it drops the chunk only if
  -- the instant is not after now, and else the decoder and the player get it a player's latency
  -- before the instant, or at once where that is past.
  pub chunk_heard :
      (ts : List Trip) (t : Cast) (s : Playing D U O) (c : Received D U O)
      → latency_samples ≤ length ts
      → AreTrips jitter offset 0 0 ts
      → jitter ≤ 2000000
      → IsWithin (2 ^ 28 - 4) offset
      → IsWithin (2 ^ 28 - 4) (heard_at current t -ℤ offset)
      → IsCast json current t
      → c.as_secs ≤ span
      → c.subsec_micros < 1000000
      → s.player_lat_ms < 2 ^ 16
      → (m : ClientMachine B) × (believed : ℤ) × (exchanges ring p json hello_json current offset
            (Client.new ring)
            ts
          ≡ ok m)
        × (believed +ℤ believed ≤ℤ offset +ℤ offset +ℤ pos (jitter + 1))
        × (offset +ℤ offset ≤ℤ believed +ℤ believed +ℤ pos (jitter + 1))
        × (0 < jitter ⊎ believed ≡ offset)
        × Comes ring p json crates apis current believed m t s c
  chunk_heard ts t s c enough trips small_jitter small_offset heard h secs us small =
      let (m, run, sync, waits, (canonical, above, below), exactly) =
        offset_converges ring p json hello_json current jitter offset ts enough trips
          (omega (arith, small_offset)) in
      let believed = micros m.clock_offset in
      let waits_path : waiting m ≡ m = λ i. record m { framing = sym waits i } in
      let fits : IsShort span m.clock_offset =
        forward-IsShort m.clock_offset canonical.0 (omega (arith, canonical.1))
          (omega (int_laws, above, below, small_offset)) in
      (
        m,
        believed,
        run,
        above,
        below,
        right_or_jitter (dec_lt 0 jitter) believed above below,
        subst (λ x. Comes ring p json crates apis current believed x t s c) waits_path
            (in_step ring p json crates apis current believed m t s c refl fits h
              (omega (int_laws, above, below, heard)) secs us small),
      )
