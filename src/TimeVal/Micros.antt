-- ===== src/TimeVal/Micros.antt =====
-- `to_micros` and `from_micros` of src/proto.rs.
use snapcast_client.Prelude.{
  ◌+◌, ◌*◌, ◌/◌, ◌%◌, ◌^◌, ◌<◌, ◌≡◌, ap, ◌∙◌, arith, ℤ, pos, pos_part, neg_part, ◌+ℤ◌, ◌*ℤ◌,
  div_trunc, rem_trunc, +ℤ_parts, int_laws,
}
use snapcast_client.Outcome.{ok}
use snapcast_client.Word.{Profile, IsI32, i64_fits, as_i32_fits, as_i32-IsI32}
use snapcast_client.TimeVal.{TimeVal, from_micros, to_micros}

-- Both fields are values of `i32`.
abbrev pub IsTimeVal : TimeVal → Type 0
IsTimeVal tv = IsI32 tv.sec × IsI32 tv.usec

-- The instant that a `TimeVal` stands for, in microseconds.
pub micros : TimeVal → ℤ
micros tv = tv.sec *ℤ pos 1000000 +ℤ tv.usec

-- A product with a constant, part by part.
pub million_parts :
    (a : ℤ)
    → (pos_part (a *ℤ pos 1000000) ≡ pos_part a * 1000000)
      × (neg_part (a *ℤ pos 1000000) ≡ neg_part a * 1000000)
unfolding ◌*ℤ◌
million_parts a = ground arith

pub micros_parts :
    (tv : TimeVal)
    → pos_part (micros tv) + neg_part tv.sec * 1000000 + neg_part tv.usec
      ≡ neg_part (micros tv) + pos_part tv.sec * 1000000 + pos_part tv.usec
unfolding micros
micros_parts tv = omega (arith, +ℤ_parts (tv.sec *ℤ pos 1000000) tv.usec, million_parts tv.sec)

pub to_micros-eq : (p : Profile) (tv : TimeVal) → IsTimeVal tv → to_micros p tv ≡ ok (micros tv)
unfolding to_micros micros
to_micros-eq p tv h = rw (
  i64_fits p (tv.sec *ℤ pos 1000000) (omega (arith, million_parts tv.sec)),
  i64_fits p (tv.sec *ℤ pos 1000000 +ℤ tv.usec) (omega (int_laws, million_parts tv.sec)),
)

-- A count of microseconds whose whole seconds fit an `i32`.
abbrev pub IsMicros : ℤ → Type 0
IsMicros us = (pos_part us < 2 ^ 31 * 1000000) × (neg_part us < 2 ^ 31 * 1000000)

pub div_trunc_parts :
    (a : ℤ)
    → (pos_part (div_trunc a 1000000) ≡ pos_part a / 1000000)
      × (neg_part (div_trunc a 1000000) ≡ neg_part a / 1000000)
unfolding div_trunc
div_trunc_parts a = ground arith

pub rem_trunc_parts :
    (a : ℤ)
    → (pos_part (rem_trunc a 1000000) ≡ pos_part a % 1000000)
      × (neg_part (rem_trunc a 1000000) ≡ neg_part a % 1000000)
unfolding rem_trunc
rem_trunc_parts a = ground arith

pub from_micros-eq :
    (us : ℤ)
    → IsMicros us
    → from_micros us ≡ record { sec = div_trunc us 1000000; usec = rem_trunc us 1000000 }
unfolding from_micros
from_micros-eq us h = rw (
  as_i32_fits (div_trunc us 1000000) (omega (arith, div_trunc_parts us)),
  as_i32_fits (rem_trunc us 1000000) (omega (arith, rem_trunc_parts us)),
)

pub from_micros-IsTimeVal : (us : ℤ) → IsTimeVal (from_micros us)
unfolding from_micros
from_micros-IsTimeVal us =
    (as_i32-IsI32 (div_trunc us 1000000), as_i32-IsI32 (rem_trunc us 1000000))

pub micros-from_micros : (us : ℤ) → IsMicros us → micros (from_micros us) ≡ us
micros-from_micros us h = rw (from_micros-eq us h) (
    omega (
      int_laws,
      micros_parts (record { sec = div_trunc us 1000000; usec = rem_trunc us 1000000 }),
      div_trunc_parts us,
      rem_trunc_parts us,
    ))

-- In both builds `to_micros` of what `from_micros` makes of a count of microseconds is that count,
-- for every count whose whole seconds fit an `i32`.
pub to_micros-from_micros :
    (p : Profile) (us : ℤ) → IsMicros us → to_micros p (from_micros us) ≡ ok us
to_micros-from_micros p us h =
    to_micros-eq p (from_micros us) (from_micros-IsTimeVal us) ∙ ap ok (micros-from_micros us h)
