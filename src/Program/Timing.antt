-- ===== src/Program/Timing.antt =====
-- When `handle_samples` of src/main.rs plays a chunk.
use snapcast_client.Prelude.{
  ℕ, ◌+◌, ◌*◌, ◌^◌, ◌≤◌, ◌<◌, ◌≡◌, refl, ap, ◌∙◌, arith, inl, inr, ◌⊎◌, Bool-cases, ℤ, pos,
  pos_part, neg_part, ◌+ℤ◌, ◌-ℤ◌, ◌≤ℤ◌, ltb_ℤ, int_laws, parts_apart, ltb→lt, ltb_false→le,
  -ℤ_parts,
}
use snapcast_client.Outcome.{ok}
use snapcast_client.Word.{Profile, i64_fits, as_i32_fits}
use snapcast_client.TimeVal.{TimeVal, from_duration}
use snapcast_client.TimeVal.Micros.{micros, micros_parts, to_micros-eq}
use snapcast_client.TimeVal.Arith.{
  IsShort, difference, difference-IsShort, sub-difference, micros-difference, difference-IsForward,
}
use snapcast_client.Client.Playback.{span}
use snapcast_client.Decoder.{Crates}
use snapcast_client.Playback.{SoundApis}
use snapcast_client.Program.{
  Playing, Received, in_the_past, sleep_until_due, handle_chunk, put_in_place, render_ready,
}

-- The time since the time base is below 2 ^ 28 seconds, and so are the stamp and the clock.
pub record IsTimed {D U O : Type 0} (c : Received D U O) : Type 0 where
  pub audible_fits : IsShort span c.audible_at
  pub secs_fit : c.as_secs ≤ span
  pub micros_fit : c.subsec_micros < 1000000

abbrev pub now_us : {D U O : Type 0} → Received D U O → ℤ
now_us c = pos (c.as_secs * 1000000 + c.subsec_micros)

from_duration-pos :
    (s us : ℕ)
    → s ≤ span
    → us < 1000000
    → from_duration s us ≡ record { sec = pos s; usec = pos us }
unfolding from_duration
from_duration-pos s us h k =
    rw (as_i32_fits (pos s) (omega arith), as_i32_fits (pos us) (omega arith))

-- Awake at `due` less the lead, or at once if that is past.
abbrev pub WakesAt : ℤ → ℤ → ℕ → ℤ → Type 0
WakesAt now due lead_us slept =
    (slept ≡ pos 0 × due ≤ℤ now +ℤ pos lead_us)
    ⊎ (now +ℤ slept +ℤ pos lead_us ≡ due × pos 0 ≤ℤ slept)

module _ {D U O : Type 0} (crates : Crates O) (apis : SoundApis D U) (p : Profile) where
  sleep-WakesAt :
      (lat_ms : ℕ) (now due remaining : ℤ)
      → lat_ms < 2 ^ 16
      → remaining ≡ due -ℤ now
      → pos_part remaining < 2 ^ 62
      → (slept : ℤ) × (sleep_until_due crates apis p lat_ms remaining ≡ ok slept)
        × WakesAt now due (lat_ms * 1000) slept
  unfolding sleep_until_due
  sleep-WakesAt lat_ms now due remaining small e fits =
      elim (Bool-cases (ltb_ℤ (pos (lat_ms * 1000)) remaining)) [
        | inl far ↦
            let lt = ltb→lt _ _ far in
            (
              remaining -ℤ pos (lat_ms * 1000),
              rw far (i64_fits p _ (omega int_laws)),
              inr (omega (int_laws, ap pos_part e, ap neg_part e), omega int_laws),
            )
        | inr near ↦
            let le = ltb_false→le _ _ near in
            (pos 0, rw near refl, inl (refl, omega (int_laws, ap pos_part e, ap neg_part e)))
      ]

  -- What becomes of a chunk.
  abbrev pub IsHandled : Playing D U O → Received D U O → Type 0
  IsHandled s c =
      ((handle_chunk crates apis p s c ≡ ok (put_in_place crates apis p c s, in_the_past))
        × (micros c.audible_at ≤ℤ now_us c))
      ⊎ ((slept : ℤ) × (handle_chunk crates apis p s c
            ≡ render_ready crates apis p (put_in_place crates apis p c s)
                (put_in_place crates apis p c s).dec (put_in_place crates apis p c s).player slept
                c.even_address c.samples)
          × (now_us c ≤ℤ micros c.audible_at)
          × WakesAt (now_us c) (micros c.audible_at) (s.player_lat_ms * 1000) slept)

  -- A chunk whose stamp and clock are below 2 ^ 28 seconds, in both profiles: it is dropped only if
  -- it is not due after now. Otherwise it is not due before now, and the decoder and the player
  -- that are then in place get it when the thread is awake again, which is the player's latency
  -- before it is due, or at once where that is past.
  pub handle_chunk_timing :
      (s : Playing D U O) (c : Received D U O)
      → IsTimed c
      → s.player_lat_ms < 2 ^ 16
      → IsHandled s c
  unfolding handle_chunk
  handle_chunk_timing s c timed small = elim (Bool-cases (ltb_ℤ left.sec (pos 0))) [
    | inl past ↦ inl (
      rw
          (
            from_duration-pos c.as_secs c.subsec_micros timed.secs_fit timed.micros_fit,
            subtracted,
            past,
          )
          refl,
      let lt = ltb→lt _ _ past in
          omega (
            arith,
            micros_parts left,
            ap pos_part micros-left,
            ap neg_part micros-left,
            -ℤ_parts (micros c.audible_at) (micros now),
            short.usec_above,
            forward,
            ap pos_part now_micros,
            ap neg_part now_micros,
          ),
    )
    | inr ahead ↦
        let le = ltb_false→le _ _ ahead in
        let (slept, run, wakes) =
          sleep-WakesAt s.player_lat_ms (now_us c) (micros c.audible_at) (micros left) small
            (micros-left ∙ ap (λ z. micros c.audible_at -ℤ z) now_micros)
            (omega (arith, micros_parts left, parts_apart (micros left), short)) in
        inr (
          slept,
          rw
              (
                from_duration-pos c.as_secs c.subsec_micros timed.secs_fit timed.micros_fit,
                subtracted,
                ahead,
                to_micros-eq p left (omega (arith, short)),
                run,
              )
              refl,
          omega (
            arith,
            micros_parts left,
            ap pos_part micros-left,
            ap neg_part micros-left,
            -ℤ_parts (micros c.audible_at) (micros now),
            forward,
            ap pos_part now_micros,
            ap neg_part now_micros,
          ),
          wakes,
        )
  ]
    where
      now : TimeVal
      now = record { sec = pos c.as_secs; usec = pos c.subsec_micros }

      now-IsShort : IsShort span now
      now-IsShort = record {
        sec_above = timed.secs_fit;
        sec_below = omega arith;
        usec_above = omega (arith, timed.micros_fit);
        usec_below = omega arith;
      }

      left : TimeVal
      left = difference c.audible_at now

      short : IsShort (span + span + 2) left
      short = difference-IsShort span span c.audible_at now timed.audible_fits now-IsShort

      subtracted : snapcast_client.TimeVal.sub p c.audible_at now ≡ ok left
      subtracted =
          sub-difference span span c.audible_at now timed.audible_fits now-IsShort p (omega arith)

      micros-left : micros left ≡ micros c.audible_at -ℤ micros now
      micros-left = micros-difference c.audible_at now

      forward : neg_part left.usec ≡ 0
      forward = difference-IsForward c.audible_at now

      now_micros : micros now ≡ now_us c
      now_micros = omega (int_laws, micros_parts now)
