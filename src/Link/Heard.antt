-- ===== src/Link/Heard.antt =====
-- A chunk on its way through a client that knows the server's clock: the handling in src/client.rs,
-- and the playback thread of src/main.rs.
use snapcast_client.Prelude.{
  ℕ, ◌-◌, ◌*◌, ◌^◌, ◌≤◌, ◌<◌, ◌≡◌, ap, ◌∙◌, arith, inl, inr, ◌⊎◌, ℤ, pos_part, neg_part, ◌+ℤ◌, ◌-ℤ◌,
  ◌≤ℤ◌, int_laws, parts_apart,
}
use snapcast_client.Outcome.{ok}
use snapcast_client.Word.{Profile}
use snapcast_client.TimeVal.{TimeVal, from_micros}
use snapcast_client.TimeVal.Micros.{micros, micros_parts, micros-from_micros}
use snapcast_client.TimeVal.Arith.{IsShort}
use snapcast_client.TimeVal.Canonical.{IsWithin, from_micros-IsShort}
use snapcast_client.Proto.Settings.{ServerSettings, SettingsJson}
use snapcast_client.Client
use snapcast_client.Client.{
  ClientMachine, Message, expired, wire_chunk, server_settings, on_message, on_wire_chunk,
}
use snapcast_client.Client.Offsets.{CircularBuffer}
use snapcast_client.Client.Reply.{waiting}
use snapcast_client.Client.Playback.{
  span, due, micros-due, due-IsShort, due-IsForward, on_wire_chunk-due,
}
use snapcast_client.Client.Playback
use snapcast_client.Decoder.{Crates}
use snapcast_client.Playback.{SoundApis}
use snapcast_client.Program.{
  Playing, Received, in_the_past, handle_chunk, put_in_place, render_ready,
}
use snapcast_client.Program.Timing
use snapcast_client.Program.Timing.{now_us, WakesAt, handle_chunk_timing}
use snapcast_client.Link.Cast.{Cast, IsCast, chunk_of, heard_at, cast, cast_run}

weaken-IsShort : (j k : ℕ) (tv : TimeVal) → j ≤ k → IsShort j tv → IsShort k tv
weaken-IsShort j k tv h s = omega arith

-- Whole seconds and microseconds that are not negative, of an instant in range.
pub forward-IsShort :
    (tv : TimeVal)
    → neg_part tv.usec ≡ 0
    → pos_part tv.usec ≤ 1000000
    → IsWithin (2 ^ 28 - 2) (micros tv)
    → IsShort span tv
forward-IsShort tv f small h = omega (arith, micros_parts tv, parts_apart tv.sec)

module _ {B D U O : Type 0} (ring : CircularBuffer B) (p : Profile) (json : SettingsJson)
    (crates : Crates O) (apis : SoundApis D U) (current : ServerSettings) (offset : ℤ) where
  -- What the playback thread does with a chunk that is to be heard at an instant of a clock that is
  -- `offset` ahead of the client's.
  abbrev pub Plays : Playing D U O → Received D U O → ℤ → Type 0
  Plays s c instant =
      ((handle_chunk crates apis p s c ≡ ok (put_in_place crates apis p c s, in_the_past))
        × (instant ≤ℤ now_us c +ℤ offset))
      ⊎ ((slept : ℤ) × (handle_chunk crates apis p s c
            ≡ render_ready crates apis p (put_in_place crates apis p c s)
                (put_in_place crates apis p c s).dec (put_in_place crates apis p c s).player slept
                c.even_address c.samples)
          × (now_us c +ℤ offset ≤ℤ instant)
          × WakesAt (now_us c +ℤ offset) instant (s.player_lat_ms * 1000) slept)

  Plays-shifted :
      (s : Playing D U O) (c : Received D U O) (instant : ℤ)
      → micros c.audible_at ≡ instant -ℤ offset
      → Timing.IsTimed c
      → s.player_lat_ms < 2 ^ 16
      → Plays s c instant
  Plays-shifted s c instant e timed small =
      by_case (handle_chunk_timing crates apis p s c timed small)
    where
      by_wake :
          (slept : ℤ)
          → WakesAt (now_us c) (micros c.audible_at) (s.player_lat_ms * 1000) slept
          → WakesAt (now_us c +ℤ offset) instant (s.player_lat_ms * 1000) slept
      by_wake slept (inl (none, past)) = inl (none, omega (int_laws, ap pos_part e, ap neg_part e))
      by_wake slept (inr (wakes, later)) = inr (
        omega (int_laws, ap pos_part wakes, ap neg_part wakes, ap pos_part e, ap neg_part e),
        later,
      )

      by_case : Timing.IsHandled crates apis p s c → Plays s c instant
      by_case (inl (run, past)) = inl (run, omega (int_laws, ap pos_part e, ap neg_part e))
      by_case (inr (slept, run, ahead, wakes)) =
          inr (slept, run, omega (int_laws, ap pos_part e, ap neg_part e), by_wake slept wakes)

  -- What becomes of the chunk, from the bytes to the playback thread.
  abbrev pub Comes : ClientMachine B → Cast → Playing D U O → Received D U O → Type 0
  Comes m t s c =
      ((cmp : TimeVal) × (cast ring p json current m t ≡ ok (expired cmp))
        × (heard_at current t ≤ℤ t.chunk_at +ℤ offset))
      ⊎ ((at : TimeVal) × (cast ring p json current m t ≡ ok (wire_chunk (chunk_of t) at))
          × (t.chunk_at +ℤ offset ≤ℤ heard_at current t)
          × Plays s (record c { audible_at = at; samples = t.encoded }) (heard_at current t))

  pub in_step :
      (m : ClientMachine B) (t : Cast) (s : Playing D U O) (c : Received D U O)
      → micros m.clock_offset ≡ offset
      → IsShort span m.clock_offset
      → IsCast json current t
      → IsWithin (2 ^ 28 - 2) (heard_at current t -ℤ offset)
      → c.as_secs ≤ span
      → c.subsec_micros < 1000000
      → s.player_lat_ms < 2 ^ 16
      → Comes (waiting m) t s c
  in_step m t s c known fits h heard secs us small =
      let (buffer, latency, run, vb, sb, vl, sl) = cast_run ring p json current m t h in
      let m1 : ClientMachine B = record (waiting m) {
        server_buffer_ms = buffer;
        local_latency = latency;
      } in
      let timed : snapcast_client.Client.Playback.IsTimed m1 = record {
        offset_fits = fits;
        buffer_fits = weaken-IsShort 2148 span buffer (omega arith) sb;
        latency_fits = weaken-IsShort 2148 span latency (omega arith) sl;
      } in
      let wc = chunk_of t in
      let now = from_micros t.chunk_at in
      let stamp_fits = from_micros-IsShort (2 ^ 28) t.stamp (omega arith) h.stamp_fits in
      let now_fits = from_micros-IsShort (2 ^ 28) t.chunk_at (omega arith) h.arrival_fits in
      let at = due ring p m1 timed wc stamp_fits now now_fits in
      let at_micros : micros at ≡ heard_at current t -ℤ offset =
        micros-due ring p m1 timed wc stamp_fits now now_fits
        ∙ (λ i. stamped i -ℤ known i +ℤ vb i -ℤ vl i)
        ∙ (omega int_laws) in
      let short : IsShort span at =
        forward-IsShort at (due-IsForward ring p m1 timed wc stamp_fits now now_fits)
          ((due-IsShort ring p m1 timed wc stamp_fits now now_fits).usec_above)
          (rw at_micros heard) in
      by_outcome at m1 short run at_micros
        (on_wire_chunk-due ring p m1 timed wc stamp_fits now now_fits)
    where
      stamped : micros (from_micros t.stamp) ≡ t.stamp
      stamped = micros-from_micros t.stamp (omega (arith, h.stamp_fits))

      arrived : micros (from_micros t.chunk_at) ≡ t.chunk_at
      arrived = micros-from_micros t.chunk_at (omega (arith, h.arrival_fits))

      by_outcome :
          (at : TimeVal) (m1 : ClientMachine B)
          → IsShort span at
          → cast ring p json current (waiting m) t
            ≡ on_wire_chunk ring p m1 (chunk_of t) (from_micros t.chunk_at)
          → micros at ≡ heard_at current t -ℤ offset
          → ((cmp : TimeVal) × (on_wire_chunk ring p m1 (chunk_of t) (from_micros t.chunk_at)
                ≡ ok (expired cmp))
              × (micros cmp ≡ micros at -ℤ micros (from_micros t.chunk_at))
              × (micros at ≤ℤ micros (from_micros t.chunk_at)))
            ⊎ ((on_wire_chunk ring p m1 (chunk_of t) (from_micros t.chunk_at)
                  ≡ ok (wire_chunk (chunk_of t) at))
                × (micros (from_micros t.chunk_at) ≤ℤ micros at))
          → Comes (waiting m) t s c
      by_outcome at m1 short run e (inl (cmp, late, _, past)) = inl (
        cmp,
        run ∙ late,
        omega (int_laws, ap pos_part e, ap neg_part e, ap pos_part arrived, ap neg_part arrived),
      )
      by_outcome at m1 short run e (inr (plays, ahead)) = inr (
        at,
        run ∙ plays,
        omega (int_laws, ap pos_part e, ap neg_part e, ap pos_part arrived, ap neg_part arrived),
        Plays-shifted s (record c { audible_at = at; samples = t.encoded }) (heard_at current t) e
            (record { audible_fits = short; secs_fit = secs; micros_fit = us }) small,
      )
