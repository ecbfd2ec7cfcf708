-- ===== src/Client/Playback.antt =====
-- `on_wire_chunk`: when a chunk is played, and when it is dropped as expired.
use snapcast_client.Prelude.{
  ℕ, ◌+◌, ◌-◌, ◌^◌, ◌≤◌, ◌<◌, ◌≡◌, ap, ◌∙◌, arith, true, false, inl, inr, ◌⊎◌, if◌then◌else◌,
  Bool-cases, pos, negsuc, pos_part, neg_part, ◌+ℤ◌, ◌-ℤ◌, ◌≤ℤ◌, ltb_ℤ, int_laws, ltb→lt,
  ltb_false→le, -ℤ_parts,
}
use snapcast_client.Outcome.{Outcome, ok, ◌>>=◌}
use snapcast_client.Word.{Profile}
use snapcast_client.TimeVal
use snapcast_client.TimeVal.{TimeVal, tv_zero, from_micros}
use snapcast_client.TimeVal.Micros.{micros, micros_parts}
use snapcast_client.TimeVal.Arith.{
  IsShort, difference, total, difference-IsShort, total-IsShort, sub-difference, add-total,
  micros-difference, micros-total, difference-IsForward, IsForward,
}
use snapcast_client.Proto.WireChunk.{WireChunk}
use snapcast_client.Client.Offsets.{CircularBuffer}
use snapcast_client.Client.{ClientMachine, Message, expired, wire_chunk, audible, on_wire_chunk}

-- Seconds below 2 ^ 28: the clocks, the buffer and the latency of the machine, and the stamps.
abbrev pub span : ℕ
span = 2 ^ 28

pub record IsTimed {B : Type 0} (m : ClientMachine B) : Type 0 where
  pub offset_fits : IsShort span m.clock_offset
  pub buffer_fits : IsShort span m.server_buffer_ms
  pub latency_fits : IsShort span m.local_latency

module _ {B : Type 0} (ring : CircularBuffer B) (p : Profile) (m : ClientMachine B)
    (timed : IsTimed m) (wc : WireChunk) (stamp_fits : IsShort span wc.timestamp)
    (recv_ts : TimeVal) (recv_fits : IsShort span recv_ts) where
  pub due : TimeVal
  due =
      difference (total (difference wc.timestamp m.clock_offset) m.server_buffer_ms) m.local_latency

  late : TimeVal
  late = difference due recv_ts

  t_c-IsShort : IsShort (span + span + 2) (difference wc.timestamp m.clock_offset)
  t_c-IsShort =
      difference-IsShort span span wc.timestamp m.clock_offset stamp_fits timed.offset_fits

  t-IsShort :
      IsShort
        (span + span + 2 + span + 2)
        (total (difference wc.timestamp m.clock_offset) m.server_buffer_ms)
  t-IsShort =
      total-IsShort (span + span + 2) span _ m.server_buffer_ms t_c-IsShort timed.buffer_fits

  pub due-IsShort : IsShort (span + span + 2 + span + 2 + span + 2) due
  unfolding due
  due-IsShort =
      difference-IsShort (span + span + 2 + span + 2) span _ m.local_latency t-IsShort
        timed.latency_fits

  audible-due : audible ring p m wc.timestamp ≡ ok due
  unfolding audible due
  audible-due = rw (
    sub-difference span span wc.timestamp m.clock_offset stamp_fits timed.offset_fits p
        (omega arith),
    add-total (span + span + 2) span (difference wc.timestamp m.clock_offset) m.server_buffer_ms
        t_c-IsShort timed.buffer_fits p (omega arith),
    sub-difference (span + span + 2 + span + 2) span
        (total (difference wc.timestamp m.clock_offset) m.server_buffer_ms) m.local_latency
        t-IsShort timed.latency_fits p (omega arith),
  )

  pub micros-due :
      micros due
      ≡ micros wc.timestamp
        -ℤ micros m.clock_offset
        +ℤ micros m.server_buffer_ms
        -ℤ micros m.local_latency
  unfolding due
  micros-due = rw (micros-difference, micros-total, micros-difference)

  late-IsShort : IsShort (span + span + 2 + span + 2 + span + 2 + span + 2) late
  unfolding late
  late-IsShort =
      difference-IsShort (span + span + 2 + span + 2 + span + 2) span due recv_ts due-IsShort
        recv_fits

  on_wire_chunk-split :
      on_wire_chunk ring p m wc recv_ts
      ≡ (if ltb_ℤ late.sec (pos 0) then ok (expired late) else ok (wire_chunk wc due))
  unfolding on_wire_chunk late
  on_wire_chunk-split = rw (
    audible-due,
    sub-difference (span + span + 2 + span + 2 + span + 2) span due recv_ts due-IsShort recv_fits p
        (omega arith),
  )

  -- Dropped, with how late it is, or played at `due`.
  pub on_wire_chunk-due :
      (((cmp : TimeVal) × (on_wire_chunk ring p m wc recv_ts ≡ ok (expired cmp))
          × (micros cmp ≡ micros due -ℤ micros recv_ts)
          × (micros due ≤ℤ micros recv_ts))
        ⊎ ((on_wire_chunk ring p m wc recv_ts ≡ ok (wire_chunk wc due))
            × (micros recv_ts ≤ℤ micros due)))
  on_wire_chunk-due = by_sign (Bool-cases (ltb_ℤ late.sec (pos 0)))
    where
      micros-late : micros late ≡ micros due -ℤ micros recv_ts
      micros-late = unfold late in micros-difference due recv_ts

      forward : neg_part late.usec ≡ 0
      forward = unfold late in difference-IsForward due recv_ts

      by_sign :
          (ltb_ℤ late.sec (pos 0) ≡ true) ⊎ (ltb_ℤ late.sec (pos 0) ≡ false)
          → ((cmp : TimeVal) × (on_wire_chunk ring p m wc recv_ts ≡ ok (expired cmp))
              × (micros cmp ≡ micros due -ℤ micros recv_ts)
              × (micros due ≤ℤ micros recv_ts))
            ⊎ ((on_wire_chunk ring p m wc recv_ts ≡ ok (wire_chunk wc due))
                × (micros recv_ts ≤ℤ micros due))
      by_sign (inl negative) = inl (
        late,
        on_wire_chunk-split ∙ rw negative,
        micros-late,
        omega (
          arith,
          micros_parts late,
          ap pos_part micros-late,
          ap neg_part micros-late,
          -ℤ_parts (micros due) (micros recv_ts),
          late-IsShort.usec_above,
          forward,
          ltb→lt _ _ negative,
        ),
      )
      by_sign (inr later) = inr (
        on_wire_chunk-split ∙ rw later,
        omega (
          arith,
          micros_parts late,
          ap pos_part micros-late,
          ap neg_part micros-late,
          -ℤ_parts (micros due) (micros recv_ts),
          forward,
          ltb_false→le _ _ later,
        ),
      )

  pub due-IsForward : IsForward due
  unfolding due
  due-IsForward = difference-IsForward _ m.local_latency

  -- A chunk whose seconds, with those of the machine's offset, buffer and latency and of the clock,
  -- are below 2 ^ 28 and whose microseconds are from 0 to 1000000 is due at its stamp less the
  -- offset, plus the buffer, less the latency. It is dropped only if that is not after now, with
  -- how late it was, and it is played only if that is not before now.
  pub chunk_timing :
      (at : TimeVal) × (micros at
        ≡ micros wc.timestamp
          -ℤ micros m.clock_offset
          +ℤ micros m.server_buffer_ms
          -ℤ micros m.local_latency)
      × (((cmp : TimeVal) × (on_wire_chunk ring p m wc recv_ts ≡ ok (expired cmp))
            × (micros cmp ≡ micros at -ℤ micros recv_ts)
            × (micros at ≤ℤ micros recv_ts))
          ⊎ ((on_wire_chunk ring p m wc recv_ts ≡ ok (wire_chunk wc at))
              × (micros recv_ts ≤ℤ micros at)))
  chunk_timing = (due, micros-due, on_wire_chunk-due)

-- The body of `on_wire_chunk` over what it reads of the machine.
abbrev play :
    Profile → WireChunk → TimeVal → TimeVal → TimeVal → TimeVal → TimeVal → Outcome Message
play p wc stamp offset buffer latency now = do
  audible_at ← (do
    t_c ← TimeVal.sub p stamp offset
    t ← TimeVal.add p t_c buffer
    TimeVal.sub p t latency)
  cmp ← TimeVal.sub p audible_at now
  if ltb_ℤ cmp.sec (pos 0) then ok (expired cmp) else ok (wire_chunk wc audible_at)

exact :
    (p : Profile) (a b : TimeVal)
    → IsShort span a
    → IsShort span b
    → TimeVal.sub p a b ≡ ok (difference a b)
exact p a b ha hb = sub-difference span span a b ha hb p (omega arith)

from_zero :
    (t u : ℕ)
    → u ≤ 1000000
    → difference (record { sec = pos t; usec = pos u }) tv_zero
      ≡ record { sec = pos t; usec = pos u }
unfolding difference ◌-ℤ◌ ◌+ℤ◌
from_zero t u h = ground arith

with_buffer :
    (t : ℕ)
    → total (record { sec = pos t; usec = pos 0 }) (record { sec = pos 0; usec = pos 1000000 })
      ≡ record { sec = pos t; usec = pos 1000000 }
unfolding total ◌+ℤ◌
with_buffer t = ground arith

one_behind :
    (t : ℕ)
    → difference
        (record { sec = pos t; usec = pos 1000000 })
        (record { sec = pos (t + 1); usec = pos 0 })
      ≡ record { sec = negsuc 0; usec = pos 1000000 }
unfolding difference ◌-ℤ◌ ◌+ℤ◌
one_behind t = ground arith

-- With a server buffer of a million microseconds and no whole second, which a setting of 1000ms
-- gives, a chunk that is due exactly now is dropped as expired, and as late by nothing.
pub on_time_chunk_dropped :
    {B : Type 0} (ring : CircularBuffer B) (p : Profile) (m : ClientMachine B) (wc : WireChunk)
    (t : ℕ)
    → t < 2 ^ 28 - 1
    → m.clock_offset ≡ tv_zero
    → m.local_latency ≡ tv_zero
    → m.server_buffer_ms ≡ record { sec = pos 0; usec = pos 1000000 }
    → wc.timestamp ≡ record { sec = pos t; usec = pos 0 }
    → (on_wire_chunk ring p m wc (record { sec = pos (t + 1); usec = pos 0 })
        ≡ ok (expired (record { sec = negsuc 0; usec = pos 1000000 })))
      × (micros (record { sec = negsuc 0; usec = pos 1000000 }) ≡ pos 0)
unfolding on_wire_chunk
on_time_chunk_dropped ring p m wc t h no_offset no_latency buffer stamp = (
  (λ i. play p wc (stamp i) (no_offset i) (buffer i) (no_latency i) now)
      ∙ rw (
        exact p (record { sec = pos t; usec = pos 0 }) tv_zero (omega arith) (omega arith),
        from_zero t 0 (omega arith),
        add-total span span (record { sec = pos t; usec = pos 0 })
            (record { sec = pos 0; usec = pos 1000000 }) (omega arith) (omega arith) p
            (omega arith),
        with_buffer t,
        exact p (record { sec = pos t; usec = pos 1000000 }) tv_zero (omega arith) (omega arith),
        from_zero t 1000000 (omega arith),
        exact p (record { sec = pos t; usec = pos 1000000 })
            (record { sec = pos (t + 1); usec = pos 0 }) (omega arith) (omega arith),
        one_behind t,
      ),
  omega (int_laws, micros_parts (record { sec = negsuc 0; usec = pos 1000000 })),
)
  where
    now : TimeVal
    now = record { sec = pos (t + 1); usec = pos 0 }
